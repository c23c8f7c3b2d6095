-- ===== src/Server/Dispatch.antt =====
-- src/server/session.cpp: from a line of the connection to its handler.
use cli_chat.Base.{
  ℕ, ◌+◌, Bool, true, false, not, List, [], ◌∷◌, ◌++◌, Option, none, some, ltb, length,
  if◌then◌else◌,
}
use cli_chat.Text.{
  Bytes, codes, equal, starts_with, find, find_from, substr_from, ends_with, pop_back,
}
use cli_chat.Server.State.{
  Platform, Session, M, ◌>>=◌, ◌>>◌, pure, gets, modify, or_throw, update, send_message,
}
use cli_chat.Server.ChatServer.{get_online_users, remove_session, user_list}
use cli_chat.Server.Session.{
  Env, max_message_length, login_fields, register_fields, private_fields, start_read,
  send_auth_response, handle_login, handle_register, handle_private_message,
  handle_broadcast_message,
}

-- `message.find(':', first_delim + 1)`, where npos + 1 wraps to 0.
unfoldable pub second_colon : Bytes → Option ℕ → Option ℕ
second_colon message none = find_from message b':' 0
second_colon message (some i) = find_from message b':' (i + 1)

-- The users without the one who asks.
unfoldable pub others : Bytes → List Bytes → List Bytes
others name [] = []
others name (u ∷ us) = let rest = others name us in if equal u name then rest else u ∷ rest

-- The queue after a write that succeeded: the front is gone, and the next buffer is written.
unfoldable pub complete_write : Session → Session
complete_write s = elim s.write_queue [
  | [] ↦ s
  | _ ∷ [] ↦ record s { write_queue = [] }
  | _ ∷ next ∷ rest ↦ record s { write_queue = next ∷ rest; sent = s.sent ++ next ∷ [] }
]

module _ (p : Platform) where
  open p use {Db}

  unfoldable pub login_command : Env → ℕ → Bytes → M Db (Unit {0})
  login_command env id message = elim (find_from message b':' 6) [
    | none ↦ send_auth_response p id false (codes "Invalid login format")
    | some first_delim ↦ (do
      fields ← or_throw (login_fields message first_delim)
      _ ← handle_login p env id fields.0 fields.1
      pure tt)
  ]

  unfoldable pub register_command : Env → ℕ → Bytes → M Db (Unit {0})
  register_command env id message =
      let first = find_from message b':' 9 in
      elim first [
        | none ↦ send_auth_response p id false (codes "Invalid registration format")
        | some first_delim ↦ (do
          fields ←
              or_throw
                (register_fields message first_delim (second_colon message (some first_delim)))
          _ ← handle_register p env id fields.0 fields.1 fields.2
          pure tt)
      ]

  unfoldable pub private_command : Env → ℕ → Bytes → M Db (Unit {0})
  private_command env id message = elim (find message b':') [
    | none ↦ pure tt
    | some pos ↦ if not (ltb 1 pos) then pure tt else (do
      fields ← or_throw (private_fields message pos)
      handle_private_message p env id fields.0 fields.1)
  ]

  unfoldable pub users_command : ℕ → M Db (Unit {0})
  users_command id = do
    users ← get_online_users p
    name ← gets (λ w. (w.objects id).username)
    modify (send_message id (user_list (others name users) ++ b'\n' ∷ []))

  unfoldable pub process_as : Bool → Env → ℕ → Bytes → M Db (Unit {0})
  process_as false env id message =
      if starts_with message (codes "login:")
      then login_command env id message
      else if starts_with message (codes "register:")
      then register_command env id message
      else modify (send_message id (codes "error:Authentication required\n"))
  process_as true env id message =
      if starts_with message (codes "@")
      then private_command env id message
      else if starts_with message (codes "broadcast:")
      then (do
        content ← or_throw (substr_from message 10)
        handle_broadcast_message p env id content)
      else if equal message (codes "users")
      then users_command id
      else if equal message (codes "logout")
      then (do modify (update id (λ s. record s { authenticated = false })); remove_session p id)
      else handle_broadcast_message p env id message

  -- Session::processMessage
  unfoldable pub process_message : Env → ℕ → Bytes → M Db (Unit {0})
  process_message env id message = do
    s ← gets (λ w. w.objects id)
    process_as s.authenticated env id message

  -- Session::handleRead, on the next line of the buffer, or on an error.
  unfoldable pub handle_read : Env → ℕ → Option Bytes → M Db (Unit {0})
  handle_read env id none = remove_session p id
  handle_read env id (some message) =
      if ltb max_message_length (length message)
      then (do modify (send_message id (codes "error:Message too long\n")); start_read p id)
      else (do
        process_message env id (if ends_with message b'\r' then pop_back message else message)
        start_read p id)

  -- Session::handleWrite
  unfoldable pub handle_write : ℕ → Bool → M Db (Unit {0})
  handle_write id error = if error then remove_session p id else modify (update id complete_write)
