-- ===== src/Client.antt =====
-- src/client/client.hpp and client.cpp: the state of a `ChatClient` and its operations. Messages to the
-- terminal are left out; the callbacks are recorded as events, the oldest first.
use mathlib.Core.Option
use cli_chat.Base.{
  ◌+◌, ◌-◌, Bool, true, false, not, ◌&&◌, List, [], ◌∷◌, ◌++◌, Option, none, some, is_empty,
  if◌then◌else◌,
}
use cli_chat.Text.{
  Bytes, codes, starts_with, find_from, substr, substr_from, ends_with, pop_back, split,
}
use cli_chat.Message.{keep_users}

pub data Event : Type 0 where
  on_message : Bytes → Event
  on_private_message : Bytes → Bytes → Event
  on_user_list : List Bytes → Event
  on_system_message : Bytes → Event

-- Which of the callbacks are set.
pub record Callbacks : Type 0 where
  pub message : Bool
  pub private_message : Bool
  pub user_list : Bool
  pub system_message : Bool

pub record ChatClient : Type 0 where
  pub has_socket : Bool
  pub open_socket : Bool
  pub reading : Bool
  pub write_queue : List Bytes
  pub sent : List Bytes
  pub connected : Bool
  pub authenticated : Bool
  pub username : Bytes
  pub callbacks : Callbacks
  pub events : List Event

abbrev pub emit : Bool → Event → ChatClient → ChatClient
emit set e c = if set then record c { events = c.events ++ e ∷ [] } else c

abbrev pub say : Bytes → ChatClient → ChatClient
say text c = emit c.callbacks.system_message (on_system_message text) c

unfoldable pub start_read : ChatClient → ChatClient
start_read c =
    if not c.connected then c else if not c.has_socket then c else record c { reading = true }

unfoldable pub send_raw_message : Bytes → ChatClient → ChatClient
send_raw_message message c = if not c.connected then c else record c {
  write_queue = c.write_queue ++ message ∷ [];
  sent = if is_empty c.write_queue && c.has_socket then c.sent ++ message ∷ [] else c.sent;
}

-- The constructor; nothing is sent to a callback before it is set.
abbrev pub new_client : ChatClient
new_client = record {
  has_socket = false;
  open_socket = false;
  reading = false;
  write_queue = [];
  sent = [];
  connected = false;
  authenticated = false;
  username = [];
  callbacks = record {
    message = false;
    private_message = false;
    user_list = false;
    system_message = false;
  };
  events = [];
}

-- The four functions that set a callback.
abbrev pub set_message_callback : ChatClient → ChatClient
set_message_callback c = record c { callbacks = record c.callbacks { message = true } }

abbrev pub set_private_message_callback : ChatClient → ChatClient
set_private_message_callback c = record c {
  callbacks = record c.callbacks { private_message = true };
}

abbrev pub set_user_list_callback : ChatClient → ChatClient
set_user_list_callback c = record c { callbacks = record c.callbacks { user_list = true } }

abbrev pub set_system_message_callback : ChatClient → ChatClient
set_system_message_callback c = record c {
  callbacks = record c.callbacks { system_message = true };
}

-- ChatClient::connect; `resolves` says that the host is resolved and `async_connect` was started.
unfoldable pub connect : Bool → ChatClient → Bool × ChatClient
connect resolves c = (resolves, record c { has_socket = true; open_socket = resolves })

-- `async_connect` and `async_handshake` go on in these two.
unfoldable pub handle_connect : Bool → ChatClient → ChatClient
handle_connect error c = if error then record c { connected = false } else c

unfoldable pub handle_handshake : Bool → ChatClient → ChatClient
unfolding start_read
handle_handshake error c =
    if error then record c { connected = false } else start_read (record c { connected = true })

unfoldable pub disconnect : ChatClient → ChatClient
disconnect c = if not c.connected then c else record c {
  connected = false;
  authenticated = false;
  open_socket = if c.has_socket then false else c.open_socket;
}

unfoldable pub login : Bytes → Bytes → ChatClient → Bool × ChatClient
unfolding send_raw_message
login username password c = if not c.connected then (false, c) else (
  true,
  send_raw_message (codes "login:" ++ (username ++ b':' ∷ (password ++ b'\n' ∷ [])))
      (record c { username = username }),
)

unfoldable pub register_user : Bytes → Bytes → Bytes → ChatClient → Bool × ChatClient
unfolding send_raw_message
register_user username password email c =
    let register_msg = codes "register:" ++ (username ++ b':' ∷ password) in
    let full = if is_empty email then register_msg else register_msg ++ b':' ∷ email in
    if not c.connected then (false, c) else (true, send_raw_message (full ++ b'\n' ∷ []) c)

unfoldable pub logout : ChatClient → ChatClient
unfolding send_raw_message
logout c =
    if c.authenticated
    then record (send_raw_message (codes "logout\n") c) { authenticated = false; username = [] }
    else c

unfoldable pub send_message : Bytes → ChatClient → ChatClient
unfolding send_raw_message
send_message message c =
    if not c.authenticated
    then c
    else send_raw_message (codes "broadcast:" ++ (message ++ b'\n' ∷ [])) c

unfoldable pub send_private_message : Bytes → Bytes → ChatClient → ChatClient
unfolding send_raw_message
send_private_message recipient message c =
    if not c.authenticated
    then c
    else send_raw_message (codes "@" ++ (recipient ++ b':' ∷ (message ++ b'\n' ∷ []))) c

unfoldable pub request_user_list : ChatClient → ChatClient
unfolding send_raw_message
request_user_list c = if not c.authenticated then c else send_raw_message (codes "users\n") c

unfoldable pub auth_reply : Bytes → ChatClient → Option ChatClient
auth_reply message c =
    if starts_with message (codes "auth:success")
    then some (say (codes "Authentication successful") (record c { authenticated = true }))
    else let failed = record c { authenticated = false } in
      elim (find_from message b':' 11) [
        | none ↦ some (say (codes "Authentication failed") failed)
        | some pos ↦ Option.map (λ error_msg. say error_msg failed) (substr_from message (pos + 1))
      ]

unfoldable pub users_reply : Bytes → ChatClient → Option ChatClient
users_reply message c =
    Option.map
      (λ list.
        emit c.callbacks.user_list
          (on_user_list (if is_empty list then [] else keep_users (split b',' list))) c)
      (substr_from message 6)

unfoldable pub private_reply : Bytes → ChatClient → Option ChatClient
private_reply message c = elim (find_from message b':' 8) [
  | none ↦ some c
  | some first_colon ↦ elim (substr message 8 (first_colon - 8)) [
    | none ↦ none
    | some sender ↦
        Option.map
          (λ content. emit c.callbacks.private_message (on_private_message sender content) c)
          (substr_from message (first_colon + 1))
  ]
]

-- ChatClient::processMessage; `none` is the exception of `substr`.
unfoldable pub process_message : Bytes → ChatClient → Option ChatClient
unfolding auth_reply users_reply private_reply
process_message message c =
    if starts_with message (codes "auth:")
    then auth_reply message c
    else if starts_with message (codes "users:")
    then users_reply message c
    else if starts_with message (codes "private:")
    then private_reply message c
    else if starts_with message (codes "system:")
    then Option.map (λ content. say content c) (substr_from message 7)
    else if starts_with message (codes "error:")
    then Option.map (λ error_msg. say (codes "Error: " ++ error_msg) c) (substr_from message 6)
    else if starts_with message (codes "private_sent:")
    then Option.map (λ recipient. say (codes "Private message sent to " ++ recipient) c)
        (substr_from message 13)
    else some (if is_empty message then c else emit c.callbacks.message (on_message message) c)

-- ChatClient::handleRead, on the next line or on an error.
unfoldable pub handle_read : Option Bytes → ChatClient → Option ChatClient
unfolding process_message start_read
handle_read none c = some (record c { connected = false; authenticated = false })
handle_read (some message) c =
    Option.map start_read
      (process_message (if ends_with message b'\r' then pop_back message else message) c)

unfoldable pub handle_write : Bool → ChatClient → ChatClient
handle_write true c = record c { connected = false; authenticated = false }
handle_write false c = elim c.write_queue [
  | [] ↦ c
  | _ ∷ [] ↦ record c { write_queue = [] }
  | _ ∷ next ∷ rest ↦ record c {
    write_queue = next ∷ rest;
    sent = if c.has_socket then c.sent ++ next ∷ [] else c.sent;
  }
]
