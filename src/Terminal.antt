-- ===== src/Terminal.antt =====
-- src/client/terminal_ui.hpp and terminal_ui.cpp: `TerminalUI`. `std::cout` is the text written so far.
-- What the client receives while a line is typed is a sequence of events; its callbacks do not read
-- the client, and run here when the line that causes them is handled.
pub mod Menu
pub mod Typed
pub mod Loop
pub mod Run
pub mod Main
pub mod Shown
mod Tests
use mathlib.Core.Option
use cli_chat.Base.{
  ◌+◌, ◌-◌, Bool, true, false, not, ◌&&◌, ◌||◌, List, [], ◌∷◌, ◌++◌, Option, none, some, is_empty,
  if◌then◌else◌,
}
use cli_chat.Text.{Bytes, codes, equal, starts_with, find, substr, substr_from}
use cli_chat.Client.{
  ChatClient, Event, on_message, on_private_message, on_user_list, on_system_message, login,
  register_user, request_user_list, send_message, send_private_message, disconnect, handle_read,
}

pub record TerminalUi : Type 0 where
  pub client : ChatClient
  pub running : Bool
  pub online_users : List Bytes
  pub output : Bytes

abbrev pub escape : Bytes → Bytes
escape code = 27 ∷ codes "[" ++ code

abbrev pub reset : Bytes
reset = escape (codes "0m")

abbrev pub red : Bytes
red = escape (codes "31m")

abbrev pub green : Bytes
green = escape (codes "32m")

abbrev pub yellow : Bytes
yellow = escape (codes "33m")

abbrev pub blue : Bytes
blue = escape (codes "34m")

abbrev pub purple : Bytes
purple = escape (codes "35m")

abbrev pub cyan : Bytes
cyan = escape (codes "36m")

abbrev pub print : Bytes → TerminalUi → TerminalUi
print text ui = record ui { output = ui.output ++ text }

-- TerminalUI::printColored
unfoldable pub print_colored : Bytes → Bytes → TerminalUi → TerminalUi
print_colored text color ui = print (color ++ (text ++ (reset ++ codes "\n"))) ui

abbrev pub prompt : Bytes
prompt = cyan ++ (codes "Chat> " ++ reset)

-- TerminalUI::onMessage
unfoldable pub show_message : Bytes → TerminalUi → TerminalUi
show_message message ui =
    print
      (codes "\r"
        ++ (yellow ++ (codes "[PUBLIC] " ++ (message ++ (reset ++ (codes "\n" ++ prompt))))))
      ui

-- TerminalUI::onPrivateMessage
unfoldable pub show_private_message : Bytes → Bytes → TerminalUi → TerminalUi
show_private_message sender message ui =
    print
      (codes "\r"
        ++ (purple
            ++ (codes "[PRIVATE] "
                ++ (sender ++ (codes ": " ++ (message ++ (reset ++ (codes "\n" ++ prompt))))))))
      ui

-- TerminalUI::onSystemMessage
unfoldable pub show_system_message : Bytes → TerminalUi → TerminalUi
show_system_message message ui =
    print
      (codes "\r"
        ++ (green ++ (codes "[SYSTEM] " ++ (message ++ (reset ++ (codes "\n" ++ prompt))))))
      ui

-- The loop of `showOnlineUsers`; 226, 151, 143 is the bullet in UTF-8.
unfoldable pub print_users : List Bytes → TerminalUi → TerminalUi
print_users [] ui = ui
print_users (user ∷ users) ui = print_users users (
    print (codes "  " ++ (cyan ++ (226 ∷ 151 ∷ 143 ∷ codes " " ++ (user ++ (reset ++ codes "\n")))))
      ui)

-- TerminalUI::showOnlineUsers
unfoldable pub show_online_users : List Bytes → TerminalUi → TerminalUi
unfolding print_colored print_users
show_online_users users ui =
    let titled = print_colored (codes "Online Users:") green ui in
    if is_empty users
    then print_colored (codes "  No other users online") yellow titled
    else print_users users titled

-- TerminalUI::onUserList
unfoldable pub show_user_list : List Bytes → TerminalUi → TerminalUi
unfolding show_online_users
show_user_list users ui =
    print prompt (show_online_users users (record ui { online_users = users }))

-- The callbacks that the constructor sets.
unfoldable pub on_event : Event → TerminalUi → TerminalUi
unfolding show_message show_private_message show_user_list show_system_message
on_event (on_message message) ui = show_message message ui
on_event (on_private_message sender message) ui = show_private_message sender message ui
on_event (on_user_list users) ui = show_user_list users ui
on_event (on_system_message message) ui = show_system_message message ui

unfoldable pub on_events : List Event → TerminalUi → TerminalUi
unfolding on_event
on_events [] ui = ui
on_events (e ∷ es) ui = on_events es (on_event e ui)

-- The client's `handleRead` and the callbacks that it runs; `none` is an exception in it.
unfoldable pub receive : Option Bytes → TerminalUi → Option TerminalUi
unfolding on_events
receive line ui =
    Option.map (λ c. on_events c.events (record ui { client = record c { events = [] } }))
      (handle_read line (record ui.client { events = [] }))

-- The body of the loop of `chatMode` on a line, and whether the loop goes on.
unfoldable pub chat_line : Bytes → TerminalUi → Bool × TerminalUi
unfolding print_colored
chat_line input ui =
    if is_empty input
    then (true, ui)
    else if equal input (codes "quit") || equal input (codes "exit")
    then (false, ui)
    else if equal input (codes "help")
    then (
      true,
      print
          (codes "  help          - Show this help\n"
            ++ (codes "  users         - Show online users\n"
                ++ (codes "  @username msg - Send private message\n"
                    ++ (codes "  quit          - Exit chat mode\n"
                        ++ codes "  anything else - Send public message\n"))))
          (print_colored (codes "Commands:") green ui),
    )
    else if equal input (codes "users")
    then (true, record ui { client = request_user_list ui.client })
    else if starts_with input (codes "@")
    then elim (find input b' ') [
      | none ↦ (true, print_colored (codes "Usage: @username message") red ui)
      | some space ↦ elim (substr input 1 (space - 1)) [
        | none ↦ (true, ui)
        | some recipient ↦ elim (substr_from input (space + 1)) [
          | none ↦ (true, ui)
          | some message ↦
              (true, record ui { client = send_private_message recipient message ui.client })
        ]
      ]
    ]
    else (true, record ui { client = send_message input ui.client })

-- What happens while `chatMode` waits: a line from the server or the end of the connection, or a line
-- of the terminal.
pub data Input : Type 0 where
  server : Option Bytes → Input
  typed : Bytes → Input

-- How the loop ends on these events: it waits for more, it left, or an exception ended the program.
pub data Ending : Type 0 where
  waiting : TerminalUi → Ending
  left : TerminalUi → List Input → Ending
  crashed : Ending

-- The loop of `chatMode`, which is in `std::getline`.
unfoldable pub chat_loop : List Input → TerminalUi → Ending
unfolding receive chat_line
chat_loop [] ui = waiting ui
chat_loop (server line ∷ inputs) ui = elim (receive line ui) [
  | none ↦ crashed
  | some next ↦ chat_loop inputs next
]
chat_loop (typed input ∷ inputs) ui =
    let (more, next) = chat_line input ui in
    elim (more && (next.running && next.client.authenticated)) [
      | true ↦ chat_loop inputs (print prompt next)
      | false ↦ left (print_colored (codes "Exiting chat mode...") yellow next) inputs
    ]

-- TerminalUI::chatMode
unfoldable pub chat_mode : List Input → TerminalUi → Ending
unfolding chat_loop print_colored
chat_mode inputs ui =
    let titled =
      print_colored (codes "Type 'help' for commands, 'quit' to exit chat mode") yellow
        (print_colored (codes "=== Chat Mode ===") blue (print (codes "\n") ui)) in
    let asked = record titled { client = request_user_list titled.client } in
    if asked.running && asked.client.authenticated
    then chat_loop inputs (print prompt asked)
    else left (print_colored (codes "Exiting chat mode...") yellow asked) inputs
