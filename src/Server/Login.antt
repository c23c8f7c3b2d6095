-- ===== src/Server/Login.antt =====
-- `handleLogin`, branch by branch.
use cli_chat.Base.{ap, sym, ◌≡◌, ◌∙◌, ℕ, ◌+◌, true, false, none, some, is_some}
use cli_chat.Text.{Bytes, codes}
use cli_chat.Crypto.{verify_password, generate_session_token}
use cli_chat.Database.{User, SessionRow, hours}
use cli_chat.Server.State.{
  pure, Platform, World, ◌>>=◌, returned, blocked, threw, lock, unlock, update,
}
use cli_chat.Server.ChatServer.{map_find, is_user_online, add_session}
use cli_chat.Server.Mutex.{bind-returned, bind-blocked, lock-free, lock-held}
use cli_chat.Server.Session.{Env, handle_login, open_session, fail_auth, send_auth_response}

relocked :
    {Db : Type 0} (w : World Db)
    → w.sessions_mutex ≡ false
    → record w { sessions_mutex = false } ≡ w
relocked w free = λ i. record w { sessions_mutex = sym free i }

module _ (p : Platform) (w : World p.Db) where
  pub is_user_online-free :
      (username : Bytes)
      → w.sessions_mutex ≡ false
      → is_user_online p username w
        ≡ returned (is_some (map_find username w.sessions_by_username)) w
  unfolding is_user_online unlock
  is_user_online-free username free =
      bind-returned lock _ w (lock-free w free)
      ∙ ap (returned (is_some (map_find username w.sessions_by_username))) (relocked w free)

  module _ (env : Env) (id : ℕ) (username password : Bytes) where
    pub login-unknown :
        p.get_user_by_username w.database username ≡ none
        → handle_login p env id username password w ≡ fail_auth p id (codes "User not found") w
    unfolding handle_login
    login-unknown e = rw e

    module _ (user : User) (e : p.get_user_by_username w.database username ≡ some user) where
      pub login-wrong :
          verify_password p.sha256 password user.password_hash ≡ false
          → handle_login p env id username password w ≡ fail_auth p id (codes "Invalid password") w
      unfolding handle_login
      login-wrong v = rw (e, handle_login) (rw v)

      module _ (v : verify_password p.sha256 password user.password_hash ≡ true) where
        pub login-disabled :
            user.is_active ≡ false
            → handle_login p env id username password w
              ≡ fail_auth p id (codes "Account disabled") w
        unfolding handle_login
        login-disabled a = rw (e, handle_login) (rw v (rw a))

        module _ (a : user.is_active ≡ true) where
          pub login-held :
              w.sessions_mutex ≡ true → handle_login p env id username password w ≡ blocked w
          unfolding handle_login is_user_online
          login-held held =
              rw (e, handle_login)
                (rw v (
                  rw a (
                    bind-blocked (is_user_online p username) _ w
                      (bind-blocked lock _ w (lock-held w held)))))

          pub login-online :
              w.sessions_mutex ≡ false
              → is_some (map_find username w.sessions_by_username) ≡ true
              → handle_login p env id username password w
                ≡ fail_auth p id (codes "User already online") w
          unfolding handle_login
          login-online free o =
              rw (e, handle_login)
                (rw v (
                  rw a (
                    bind-returned (is_user_online p username) _ w
                      (is_user_online-free username free)
                    ∙ rw o)))

          pub login-open :
              w.sessions_mutex ≡ false
              → is_some (map_find username w.sessions_by_username) ≡ false
              → handle_login p env id username password w ≡ open_session p env id username user w
          unfolding handle_login
          login-open free o =
              rw (e, handle_login)
                (rw v (
                  rw a (
                    bind-returned (is_user_online p username) _ w
                      (is_user_online-free username free)
                    ∙ rw o)))

-- The row that a login stores.
abbrev pub login_row : Env → Bytes → User → Bytes → SessionRow
login_row env username user token = record {
  token = token;
  user_id = user.id;
  username = username;
  created_at = env.now;
  expires_at = env.now + hours 24;
  is_active = true;
}

module _ (p : Platform) (w : World p.Db) (env : Env) (id : ℕ) (username : Bytes) (user : User) where
  -- The world once the row is stored, whether that worked or not.
  abbrev pub stored : Bytes → World p.Db
  stored token = record (update id (λ s. record s { session_token = token }) w) {
    database = (p.create_session w.database (login_row env username user token)).1;
  }

  -- The world in which the session is registered.
  abbrev pub logged_in : Bytes → World p.Db
  logged_in token =
      update id (λ s. record s { username = username; user_id = user.id; authenticated = true })
        (record (stored token) {
          database = (p.update_last_login (stored token).database env.now user.id).1;
        })

  pub open_session-no_token :
      generate_session_token env.rand ≡ none → open_session p env id username user w ≡ threw w
  unfolding open_session
  open_session-no_token e = rw e

  module _ (token : Bytes) (e : generate_session_token env.rand ≡ some token) where
    pub open_session-refused :
        (p.create_session w.database (login_row env username user token)).0 ≡ false
        → open_session p env id username user w
          ≡ fail_auth p id (codes "Failed to create session") (stored token)
    unfolding open_session update
    open_session-refused c = rw (e, open_session) (rw c)

    pub open_session-registers :
        (p.create_session w.database (login_row env username user token)).0 ≡ true
        → open_session p env id username user w
          ≡ (add_session p id >>= λ _.
                send_auth_response p id true (codes "Login successful") >>= λ _. pure true)
              (logged_in token)
    unfolding open_session update
    open_session-registers c = rw (e, open_session) (rw c)
