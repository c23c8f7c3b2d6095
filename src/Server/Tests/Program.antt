-- ===== src/Server/Tests/Program.antt =====
-- The program with a configuration file that is empty, and the session that logs in in its run.
use cli_chat.Base.{List, [], none, some, ◌≡◌, refl, true}
use cli_chat.Text.{split, ends_with, starts_with, find_from, substr, substr_from, find, equal}
use cli_chat.Crypto.{verify_password, hex, generate_session_token}
use cli_chat.Server.State.{lock, unlock, update, send_message}
use cli_chat.Server.ChatServer.{
  map_find, map_insert, set_insert, send_each, get_online_users, is_user_online, add_session,
  announce,
}
use cli_chat.Server.Session.{handle_handshake, start_read, login_fields, handle_login, open_session}
use cli_chat.Server.Dispatch.{process_message, process_as, login_command, handle_read}
use cli_chat.Server.Accept.{handle_accept, start}
use cli_chat.Server.Provenance.{Login}
use cli_chat.Server.Main.{System, server_main, serves}
use cli_chat.Server.Program.{served_sessions_logged_in}
use cli_chat.Server.Start.{Outside, initialize}
use cli_chat.Config.{Config, defaults, load_from_file, load_from_env}
use cli_chat.Server.Tests.{platform, start as start_world}
use cli_chat.Database.{User}
use cli_chat.Server.Tests.Schedule.{idle, logged_in, run}

is_in : (logged_in.server.objects 0).authenticated ≡ true
unfolding handle_read process_message process_as login_command starts_with find_from substr
    substr_from login_fields handle_login verify_password hex find equal is_user_online lock unlock
    map_find open_session generate_session_token update add_session announce get_online_users
    send_each send_message map_insert set_insert handle_handshake start_read handle_accept start
    ends_with
is_in = refl

abbrev pub system : System
system = record { stoi = λ text. none; file = λ name. some []; getenv = λ name. none }

abbrev pub all_works : Config → Outside
all_works config = record {
  database_opens = λ path. true;
  has_directory = λ name. true;
  exists = λ name. true;
  generates = λ cert key. true;
  loads = λ cert key. true;
  listens = λ host port. true;
}

abbrev database : List User
database = start_world.database

serves_idle : server_main platform system all_works database [] ≡ serves defaults (start idle)
unfolding server_main load_from_file split load_from_env initialize
serves_idle = refl

served_sessions_logged_in_example : Login platform (start idle) logged_in 0
served_sessions_logged_in_example =
    served_sessions_logged_in platform system all_works database [] defaults (start idle) logged_in
      serves_idle run 0 is_in
