-- ===== src/Terminal/Tests.antt =====
-- Lines typed by `eve`, who is logged in, and how the chat mode ends.
use cli_chat.Base.{List, ◌≡◌, refl, true, false, [], ◌∷◌, ◌++◌, some, ltb, length}
use cli_chat.Text.{codes, equal, ends_with}
use cli_chat.Message.{build_private_message}
use cli_chat.Server.State.{◌>>◌}
use cli_chat.Server.Session.{start_read, handle_private_message}
use cli_chat.Server.Dispatch.{handle_read}
use cli_chat.Server.Tests.{platform, env, start}
use cli_chat.Client.{ChatClient, send_raw_message}
use cli_chat.Terminal.{TerminalUi, chat_line, chat_loop, server, typed}
use cli_chat.Terminal.Typed.{typed_private, typed_private_message}
use cli_chat.Terminal.Shown.{private_line, private_message_shown}
use cli_chat.Server.ChatServer.{map_find, send_private_message}
use cli_chat.Database.{User}
use cli_chat.Base.{arith}
use cli_chat.Client.{start_read as read_on}
use cli_chat.Server.State.{World, returned, enqueue}
use cli_chat.Terminal.{receive, show_private_message}
use cli_chat.Terminal.Loop.{HasEnded, chat_loop-ends}

abbrev client : ChatClient
client = record {
  has_socket = true;
  open_socket = true;
  reading = true;
  write_queue = [];
  sent = [];
  connected = true;
  authenticated = true;
  username = codes "eve";
  callbacks = record {
    message = true;
    private_message = true;
    user_list = true;
    system_message = true;
  };
  events = [];
}

abbrev ui : TerminalUi
ui = record { client = client; running = true; online_users = []; output = [] }

private_fits : ltb 4096 (length (build_private_message (codes "bob") (codes "hi"))) ≡ false
unfolding build_private_message
private_fits = refl

private_plain : ends_with (build_private_message (codes "bob") (codes "hi")) b'\r' ≡ false
unfolding build_private_message ends_with
private_plain = refl

typed_private_message_example :
    let line = build_private_message (codes "bob") (codes "hi") in
    (chat_line (typed_private (codes "bob") (codes "hi")) ui
      ≡ (true, record ui { client = send_raw_message (line ++ b'\n' ∷ []) client }))
    × (handle_read platform env 2 (some line) start
        ≡ (handle_private_message platform env 2 (codes "bob") (codes "hi")
              >> start_read platform 2)
            start)
typed_private_message_example =
    typed_private_message platform env 2 start ui refl refl (codes "bob") (codes "hi") refl refl
      refl private_fits private_plain

chat_loop-ends_example : HasEnded (
    chat_loop
      ((typed (codes "hi") ∷ server (some (codes "auth:failed")) ∷ []) ++ typed (codes "quit") ∷ [])
      ui)
chat_loop-ends_example =
    chat_loop-ends (typed (codes "hi") ∷ server (some (codes "auth:failed")) ∷ []) [] ui

shown_plain : ends_with (private_line (codes "bob") (codes "hi")) b'\r' ≡ false
unfolding ends_with
shown_plain = refl

eve_online : map_find (codes "eve") start.sessions_by_username ≡ some 2
unfolding map_find equal
eve_online = refl

private_message_shown_example :
    let line = private_line (codes "bob") (codes "hi") in
    ((v : World (List User)) × (send_private_message platform (codes "eve") (codes "hi") 1 start
        ≡ returned tt v)
      × (v.objects 2 ≡ enqueue (line ++ b'\n' ∷ []) (start.objects 2)))
    × (receive (some line) ui
        ≡ some (
            show_private_message
              (codes "bob")
              (codes "hi")
              (record ui { client = read_on (record client { events = [] }) })))
private_message_shown_example =
    private_message_shown platform start (codes "eve") (codes "hi") 1 2 ui refl eve_online
      (omega arith) refl shown_plain refl
