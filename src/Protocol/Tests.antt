-- ===== src/Protocol/Tests.antt =====
-- The theorems about both ends of the protocol at concrete inputs.
use cli_chat.Base.{◌≡◌, refl, ◌++◌, true, false, [], ◌∷◌, none, some}
use cli_chat.Text.{codes, equal}
use cli_chat.Crypto.{hash_password}
use cli_chat.Message.{parse_user_list}
use cli_chat.Database.{DatabaseApi}
use cli_chat.Server.State.{Platform, new_session, World, returned, enqueue, send_message}
use cli_chat.Server.ChatServer.{user_list}
use cli_chat.Server.Session.{Env, handle_register, auth_response, send_auth_response}
use cli_chat.Client.{ChatClient, on_message, process_message}
use cli_chat.Protocol.UserList.{parse_user_list-user_list}
use cli_chat.Protocol.Broadcast.{process_message-broadcast_line}
use cli_chat.Protocol.Registration.{registered_line, registration_desync}

parse_user_list-user_list_example :
    parse_user_list (user_list (codes "ann" ∷ codes "bob" ∷ []))
    ≡ some (codes "ann" ∷ codes "bob" ∷ [])
parse_user_list-user_list_example =
    parse_user_list-user_list (codes "ann" ∷ codes "bob" ∷ []) (refl, refl, (refl, refl, tt))

abbrev client : ChatClient
client = record {
  has_socket = true;
  open_socket = true;
  reading = true;
  write_queue = [];
  sent = [];
  connected = true;
  authenticated = true;
  username = codes "bob";
  callbacks = record {
    message = true;
    private_message = true;
    user_list = true;
    system_message = true;
  };
  events = [];
}

process_message-broadcast_line_example :
    process_message (codes "ann: hi: all") client
    ≡ some (record client { events = on_message (codes "ann: hi: all") ∷ [] })
unfolding equal
process_message-broadcast_line_example =
    process_message-broadcast_line (codes "ann") (codes "hi: all") client refl refl

abbrev nobody : DatabaseApi
nobody = record {
  Db = Unit {0};
  create_user = λ db now name hash email. (true, db);
  get_user_by_username = λ db name. none;
  update_last_login = λ db now id. (true, db);
  save_message = λ db m. (true, db);
  get_recent_messages = λ db n. [];
  create_session = λ db row. (true, db);
  get_session = λ db token. none;
  delete_session = λ db token. (true, db);
  get_user_count = λ db. 0;
  get_message_count = λ db. 0;
}

abbrev platform : Platform
platform = record { api = nobody; sha256 = λ m. m }

abbrev env : Env
env = record { now = 0; rand = λ n. some [] }

abbrev start : World Unit
start = record {
  database = tt;
  objects = λ j. new_session;
  sessions_by_username = [];
  all_sessions = 0 ∷ [];
  sessions_mutex = false;
  running = true;
}

abbrev finish : World Unit
finish = send_message 0 (auth_response true (codes "Registration successful. Please login.")) start

registered :
    handle_register platform env 0 (codes "joe") (codes "pw") [] start ≡ returned true finish
unfolding handle_register send_auth_response hash_password
registered = refl

registration_desync_example :
    ((finish.objects 0).authenticated ≡ false)
    × (finish.objects 0 ≡ enqueue (registered_line ++ b'\n' ∷ []) new_session)
    × ((d : ChatClient) × (process_message registered_line client ≡ some d)
        × (d.authenticated ≡ true))
registration_desync_example =
    registration_desync platform env 0 (codes "joe") (codes "pw") [] start finish registered refl
      client
