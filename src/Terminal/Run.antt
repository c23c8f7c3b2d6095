-- ===== src/Terminal/Run.antt =====
-- src/client/terminal_ui.cpp: `run` from the logo to the disconnection. Clearing the screen is a call of
-- the shell that leaves no text.
use cli_chat.Base.{
  ℕ, zero, suc, ◌-◌, Bool, true, false, not, List, [], ◌∷◌, ◌++◌, Option, none, some, length,
  if◌then◌else◌,
}
use cli_chat.Text.{Bytes, codes}
use cli_chat.Client.{
  set_message_callback, set_private_message_callback, set_user_list_callback,
  set_system_message_callback, ChatClient, disconnect, connect, handle_connect, handle_handshake,
}
use cli_chat.Terminal.{
  TerminalUi, reset, red, green, yellow, cyan, print, print_colored, receive, Ending, left, crashed,
}
use cli_chat.Terminal.Menu.{Round, menu_loop}

abbrev spaces : ℕ → Bytes
spaces zero = []
spaces (suc n) = b' ' ∷ spaces n

-- std::setw(50), to the right
abbrev set_width : Bytes → Bytes
set_width line = spaces (50 - length line) ++ line

abbrev pub logo : List Bytes
logo =
    codes "  ____ _     ___     ____ _           _   "
    ∷ codes " / ___| |   |_ _|   / ___| |__   __ _| |_ "
    ∷ codes "| |   | |    | |   | |   | '_ \\ / _` | __|"
    ∷ codes "| |___| |___ | |   | |___| | | | (_| | |_ "
    ∷ codes " \\____|_____|___|   \\____|_| |_|\\__,_|\\__|"
    ∷ []

unfoldable pub print_logo : List Bytes → TerminalUi → TerminalUi
print_logo [] ui = ui
print_logo (line ∷ lines) ui =
    print_logo lines (print (green ++ (set_width line ++ (reset ++ codes "\n"))) ui)

-- TerminalUI::displayLogo
unfoldable pub display_logo : TerminalUi → TerminalUi
unfolding print_logo print_colored
display_logo ui = print (codes "\n") (
    print_colored (codes "========================================") cyan (
      print_colored (codes "   Enterprise-Grade Secure Chat") cyan (
        print_colored (codes "========================================") cyan
          (print_logo logo (print (codes "\n") ui)))))

-- What completes at the client while `run` sleeps.
pub data Completion : Type 0 where
  connection : Bool → Completion
  handshake : Bool → Completion
  arrival : Option Bytes → Completion

unfoldable pub complete : List Completion → TerminalUi → Option TerminalUi
unfolding receive
complete [] ui = some ui
complete (connection error ∷ cs) ui =
    complete cs (record ui { client = handle_connect error ui.client })
complete (handshake error ∷ cs) ui =
    complete cs (record ui { client = handle_handshake error ui.client })
complete (arrival line ∷ cs) ui = elim (receive line ui) [
  | none ↦ none
  | some next ↦ complete cs next
]

-- The constructor, which sets the four callbacks.
abbrev pub new_terminal_ui : ChatClient → TerminalUi
new_terminal_ui client = record {
  client =
      set_system_message_callback
        (set_user_list_callback (set_private_message_callback (set_message_callback client)));
  running = true;
  online_users = [];
  output = [];
}

-- TerminalUI::run
unfoldable pub run : Bool → List Completion → List Round → TerminalUi → Ending
unfolding display_logo complete menu_loop print_colored
run resolves completions rounds ui =
    let shown = print_colored (codes "Connecting to server...") yellow (display_logo ui) in
    let started = connect resolves shown.client in
    let trying = record shown { client = started.1 } in
    if not started.0
    then left (print_colored (codes "Failed to connect to server") red trying) []
    else elim (complete completions trying) [
      | none ↦ crashed
      | some ui' ↦
          if not ui'.client.connected
          then left (print_colored (codes "Connection failed") red ui') []
          else elim ui'.running [
            | true ↦ menu_loop rounds (print_colored (codes "Connected successfully!") green ui')
            | false ↦
                let done = print_colored (codes "Connected successfully!") green ui' in
                left (record done { client = disconnect done.client }) []
          ]
    ]
