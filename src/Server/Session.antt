-- ===== src/Server/Session.antt =====
-- src/server/session.cpp: the handlers of one connection. The object is `id`; `env` holds what the
-- handler reads from the clock and from `RAND_bytes`.
use mathlib.Core.Option
use cli_chat.Base.{
  ℕ, ◌+◌, ◌-◌, Bool, true, false, not, ◌||◌, [], ◌∷◌, ◌++◌, Option, none, some, ltb, is_empty,
  length, if◌then◌else◌,
}
use cli_chat.Text.{Bytes, codes, substr, substr_from}
use cli_chat.Crypto.{Rand, hash_password, verify_password, generate_session_token}
use cli_chat.Database.{User, Message, SessionRow, hours}
use cli_chat.Server.State.{
  Platform, Session, M, ◌>>=◌, ◌>>◌, pure, gets, modify, or_throw, update, send_message,
}
use cli_chat.Server.ChatServer.{
  is_user_online, add_session, broadcast_message, send_private_message,
}

pub record Env : Type 0 where
  pub now : ℕ
  pub rand : Rand

abbrev pub max_message_length : ℕ
max_message_length = 4096

-- The fields of `login:username:password`.
unfoldable pub login_fields : Bytes → ℕ → Option (Bytes × Bytes)
login_fields message first_delim = elim (substr message 6 (first_delim - 6)) [
  | none ↦ none
  | some username ↦
      Option.map (λ password. (username, password)) (substr_from message (first_delim + 1))
]

-- The fields of `register:username:password`, and with `:email` behind it.
unfoldable pub register_fields : Bytes → ℕ → Option ℕ → Option (Bytes × Bytes × Bytes)
register_fields message first_delim none = elim (substr message 9 (first_delim - 9)) [
  | none ↦ none
  | some username ↦
      Option.map (λ password. (username, password, [])) (substr_from message (first_delim + 1))
]
register_fields message first_delim (some second_delim) =
    elim (substr message 9 (first_delim - 9)) [
      | none ↦ none
      | some username ↦ elim (substr message (first_delim + 1) (second_delim - first_delim - 1)) [
        | none ↦ none
        | some password ↦
            Option.map (λ email. (username, password, email))
              (substr_from message (second_delim + 1))
      ]
    ]

-- The recipient and the content of `@recipient:content`.
unfoldable pub private_fields : Bytes → ℕ → Option (Bytes × Bytes)
private_fields message pos = elim (substr message 1 (pos - 1)) [
  | none ↦ none
  | some recipient ↦ Option.map (λ content. (recipient, content)) (substr_from message (pos + 1))
]

unfoldable pub auth_response : Bool → Bytes → Bytes
auth_response success message =
    let response = if success then codes "auth:success" else codes "auth:failed" in
    (if is_empty message then response else response ++ b':' ∷ message) ++ b'\n' ∷ []

module _ (p : Platform) where
  open p use {
    Db, sha256, get_user_by_username, create_user, create_session, update_last_login, save_message,
  }

  unfoldable pub start_read : ℕ → M Db (Unit {0})
  start_read id = modify (update id (λ s. record s { reading = true }))

  -- Session::handleHandshake
  unfoldable pub handle_handshake : ℕ → Bool → M Db (Unit {0})
  handle_handshake id error = if error then pure tt else start_read id

  unfoldable pub send_auth_response : ℕ → Bool → Bytes → M Db (Unit {0})
  send_auth_response id success message = modify (send_message id (auth_response success message))

  unfoldable pub fail_auth : ℕ → Bytes → M Db Bool
  fail_auth id message = do send_auth_response id false message; pure false

  -- `handleLogin` from the creation of the session on.
  unfoldable pub open_session : Env → ℕ → Bytes → User → M Db Bool
  open_session env id username user = do
    token ← or_throw (generate_session_token env.rand)
    modify (update id (λ s. record s { session_token = token }))
    let row : SessionRow = record {
      token = token;
      user_id = user.id;
      username = username;
      created_at = env.now;
      expires_at = env.now + hours 24;
      is_active = true;
    }
    created ← gets (λ w. (create_session w.database row).0)
    modify (λ w. record w { database = (create_session w.database row).1 })
    if not created then fail_auth id (codes "Failed to create session") else do
      modify (λ w. record w { database = (update_last_login w.database env.now user.id).1 })
      modify (
          update id
            (λ s. record s { username = username; user_id = user.id; authenticated = true }))
      add_session p id
      send_auth_response id true (codes "Login successful")
      pure true

  -- Session::handleLogin
  unfoldable pub handle_login : Env → ℕ → Bytes → Bytes → M Db Bool
  handle_login env id username password = do
    found ← gets (λ w. get_user_by_username w.database username)
    elim found [
      | none ↦ fail_auth id (codes "User not found")
      | some user ↦
          if not (verify_password sha256 password user.password_hash)
          then fail_auth id (codes "Invalid password")
          else if not user.is_active
          then fail_auth id (codes "Account disabled")
          else (do
            online ← is_user_online p username
            if online
                then fail_auth id (codes "User already online")
                else open_session env id username user)
    ]

  -- Session::handleRegister
  unfoldable pub handle_register : Env → ℕ → Bytes → Bytes → Bytes → M Db Bool
  handle_register env id username password email =
      if is_empty username || ltb 32 (length username)
      then fail_auth id (codes "Invalid username length")
      else (do
        existing_user ← gets (λ w. get_user_by_username w.database username)
        elim existing_user [
          | some _ ↦ fail_auth id (codes "Username already taken")
          | none ↦ (do
            password_hash ← or_throw (hash_password sha256 env.rand password)
            created ← gets (λ w. (create_user w.database env.now username password_hash email).0)
            modify (λ w. record w {
              database = (create_user w.database env.now username password_hash email).1;
            })
            if not created then fail_auth id (codes "Failed to create user") else do
              send_auth_response id true (codes "Registration successful. Please login.")
              pure true)
        ])

  -- The row that `handlePrivateMessage` and `handleBroadcastMessage` save.
  abbrev pub message_row : Env → Session → Bytes → Bytes → Bool → Message
  message_row env s content recipient is_private = record {
    id = 0;
    user_id = s.user_id;
    username = s.username;
    content = content;
    recipient = recipient;
    timestamp = env.now;
    is_private = is_private;
  }

  unfoldable pub handle_private_message : Env → ℕ → Bytes → Bytes → M Db (Unit {0})
  handle_private_message env id recipient content = do
    s ← gets (λ w. w.objects id)
    modify (λ w. record w {
      database = (save_message w.database (message_row env s content recipient true)).1;
    })
    send_private_message p recipient content id

  unfoldable pub handle_broadcast_message : Env → ℕ → Bytes → M Db (Unit {0})
  handle_broadcast_message env id content = do
    s ← gets (λ w. w.objects id)
    modify (λ w. record w {
      database = (save_message w.database (message_row env s content [] false)).1;
    })
    broadcast_message p (s.username ++ (codes ": " ++ (content ++ b'\n' ∷ []))) (some id)
