-- ===== src/Server/Reachable.antt =====
-- What every run of the server keeps, whatever the clients send and in whatever order the handlers
-- run. A handler that waits for the mutex or is left by an exception leaves its world to the others.
use cli_chat.Base.{
  inl, inr, ℕ, ◌||◌, some, is_empty, is_some, length, ltb, Bool-cases, Option-cases,
}
use cli_chat.Text.{Bytes}
use cli_chat.Crypto.{verify_password, generate_session_token, hash_password}
use cli_chat.Database.{User}
use cli_chat.Server.State.{Platform, World, world, update, send_message}
use cli_chat.Server.ChatServer.{map_find, add_session}
use cli_chat.Server.Session.{
  Env, handle_login, handle_register, open_session, fail_auth, send_auth_response,
  handle_private_message, handle_broadcast_message,
}
use cli_chat.Server.Login.{
  login-unknown, login-wrong, login-disabled, login-held, login-online, login-open, login_row,
}
use cli_chat.Server.Unreached.{
  Unreached, bind-Unreached, at, broadcast_message-Unreached, send_private_message-Unreached,
  add_session-Unreached,
}

module _ (p : Platform) (env : Env) (id : ℕ) (w : World p.Db) (k : Unreached w) where
  fail_auth-Unreached : (message : Bytes) → Unreached (world (fail_auth p id message w))
  unfolding fail_auth send_auth_response send_message update
  fail_auth-Unreached message = k

  open_session-Unreached :
      (username : Bytes) (user : User) → Unreached (world (open_session p env id username user w))
  unfolding open_session fail_auth send_auth_response send_message update
  open_session-Unreached username user = elim (Option-cases (generate_session_token env.rand)) [
    | inl e ↦ rw e k
    | inr (token, e) ↦
        rw e
          (elim (Bool-cases (p.create_session w.database (login_row env username user token)).0) [
            | inr failed ↦ rw failed k
            | inl created ↦ rw created (
                bind-Unreached (add_session p id) _ _ (add_session-Unreached p _ k id) (λ a v u. u))
          ])
  ]

  pub handle_login-Unreached :
      (username password : Bytes) → Unreached (world (handle_login p env id username password w))
  handle_login-Unreached username password =
      let run = handle_login p env id username password w in
      elim (Option-cases (p.get_user_by_username w.database username)) [
        | inl e ↦ at run (login-unknown p w env id username password e) (fail_auth-Unreached _)
        | inr (user, e) ↦ elim (Bool-cases (verify_password p.sha256 password user.password_hash)) [
          | inr v ↦
              at run (login-wrong p w env id username password user e v) (fail_auth-Unreached _)
          | inl v ↦ elim (Bool-cases user.is_active) [
            | inr a ↦
                at run (login-disabled p w env id username password user e v a)
                  (fail_auth-Unreached _)
            | inl a ↦ elim (Bool-cases w.sessions_mutex) [
              | inl held ↦ at run (login-held p w env id username password user e v a held) k
              | inr free ↦ elim (Bool-cases (is_some (map_find username w.sessions_by_username))) [
                | inl o ↦
                    at run (login-online p w env id username password user e v a free o)
                      (fail_auth-Unreached _)
                | inr o ↦
                    at run (login-open p w env id username password user e v a free o)
                      (open_session-Unreached username user)
              ]
            ]
          ]
        ]
      ]

  pub handle_register-Unreached :
      (u pw email : Bytes) → Unreached (world (handle_register p env id u pw email w))
  unfolding handle_register fail_auth send_auth_response send_message update
  handle_register-Unreached u pw email = elim (Bool-cases (is_empty u || ltb 32 (length u))) [
    | inl bad ↦ rw bad k
    | inr good ↦ rw good (elim (Option-cases (p.get_user_by_username w.database u)) [
      | inr (user, e) ↦ rw e k
      | inl e ↦ rw e (elim (Option-cases (hash_password p.sha256 env.rand pw)) [
        | inl n ↦ rw n k
        | inr (h, n) ↦ rw n (elim (Bool-cases (p.create_user w.database env.now u h email).0) [
          | inl c ↦ rw c k
          | inr c ↦ rw c k
        ])
      ])
    ])
  ]

  pub handle_private_message-Unreached :
      (r c : Bytes) → Unreached (world (handle_private_message p env id r c w))
  unfolding handle_private_message
  handle_private_message-Unreached r c = send_private_message-Unreached p _ k r c id

  pub handle_broadcast_message-Unreached :
      (c : Bytes) → Unreached (world (handle_broadcast_message p env id c w))
  unfolding handle_broadcast_message
  handle_broadcast_message-Unreached c = broadcast_message-Unreached p _ k _ (some id)
