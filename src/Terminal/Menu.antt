-- ===== src/Terminal/Menu.antt =====
-- src/client/terminal_ui.cpp: the menu of `run` and its two forms. One round is what is typed in it and
-- what the server sends in the meantime.
use cli_chat.Base.{Bool, true, false, not, List, [], ◌∷◌, ◌++◌, Option, none, some, if◌then◌else◌}
use cli_chat.Text.{Bytes, codes, equal}
use cli_chat.Client.{login, register_user, disconnect}
use cli_chat.Terminal.{
  TerminalUi, red, green, blue, print, print_colored, receive, Input, Ending, waiting, left,
  crashed, chat_mode,
}

-- The lines of the server while `handleLogin` sleeps.
unfoldable pub receive_all : List (Option Bytes) → TerminalUi → Option TerminalUi
receive_all [] ui = some ui
receive_all (line ∷ lines) ui = elim (receive line ui) [
  | none ↦ none
  | some next ↦ receive_all lines next
]

-- TerminalUI::handleLogin
unfoldable pub handle_login :
    Bytes → Bytes → List (Option Bytes) → TerminalUi → Option (Bool × TerminalUi)
unfolding receive_all print_colored
handle_login username password arrivals ui =
    let asked = print (codes "Password: ") (
      print (codes "Username: ")
        (print_colored (codes "=== Login ===") blue (print (codes "\n") ui))) in
    let refused = print_colored (codes "Login failed. Please check your credentials.") red in
    let result = login username password asked.client in
    if not result.0
    then some (false, refused asked)
    else elim (receive_all arrivals (record asked { client = result.1 })) [
      | none ↦ none
      | some ui' ↦
          if ui'.client.authenticated
          then some
              (true, print_colored (codes "Login successful! Welcome, " ++ username) green ui')
          else some (false, refused ui')
    ]

-- TerminalUI::handleRegister
unfoldable pub handle_register : Bytes → Bytes → Bytes → TerminalUi → Bool × TerminalUi
unfolding print_colored
handle_register username password email ui =
    let asked = print (codes "Email (optional): ") (
      print (codes "Password (minimum 6 characters): ") (
        print (codes "Username (alphanumeric, underscore, dash only): ")
          (print_colored (codes "=== Register ===") blue (print (codes "\n") ui)))) in
    let result = register_user username password email asked.client in
    let ui' = record asked { client = result.1 } in
    if result.0
    then (true, print_colored (codes "Registration successful! You can now login.") green ui')
    else (false, print_colored (codes "Registration failed. Username may already exist.") red ui')

-- TerminalUI::displayMenu
unfoldable pub display_menu : TerminalUi → TerminalUi
unfolding print_colored
display_menu ui =
    print (codes "1. Login\n" ++ (codes "2. Register\n" ++ (codes "3. Exit\n" ++ codes "\n")))
      (print_colored (codes "=== Main Menu ===") blue (print (codes "\n") ui))

pub record Round : Type 0 where
  pub choice : Bytes
  pub username : Bytes
  pub password : Bytes
  pub email : Bytes
  pub arrivals : List (Option Bytes)
  pub chat : List Input

-- One round of the menu loop of `run`; where the chat mode still waits, so does the round.
unfoldable pub menu_round : Round → TerminalUi → Ending
unfolding handle_login handle_register display_menu chat_mode print_colored
menu_round round ui =
    let shown = print (codes "Enter your choice (1-3): ") (display_menu ui) in
    if equal round.choice (codes "1")
    then elim (handle_login round.username round.password round.arrivals shown) [
      | none ↦ crashed
      | some (success, next) ↦ if success then chat_mode round.chat next else left next []
    ]
    else if equal round.choice (codes "2")
    then left (handle_register round.username round.password round.email shown).1 []
    else if equal round.choice (codes "3")
    then left (record shown { running = false }) []
    else left (print_colored (codes "Invalid choice. Please try again.") red shown) []

-- The menu loop of `run` and the disconnection behind it.
unfoldable pub menu_loop : List Round → TerminalUi → Ending
unfolding menu_round
menu_loop [] ui = waiting ui
menu_loop (round ∷ rounds) ui = elim (menu_round round ui) [
  | waiting next ↦ waiting next
  | crashed ↦ crashed
  | left next _ ↦ elim next.running [
    | true ↦ menu_loop rounds next
    | false ↦ left (record next { client = disconnect next.client }) []
  ]
]
