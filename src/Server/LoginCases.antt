-- ===== src/Server/LoginCases.antt =====
-- What `handleLogin` decides, and what becomes of a login that it accepts.
use cli_chat.Base.{
  ◌≡◌, ◌∙◌, ap, sym, inl, inr, ℕ, Bool, true, false, none, some, arith, is_empty, is_some,
  Bool-cases, Option-cases,
}
use cli_chat.Text.{Bytes, codes}
use cli_chat.Crypto.{verify_password, generate_session_token}
use cli_chat.Database.{User}
use cli_chat.Server.State.{world, Platform, Session, World, Outcome, blocked, update}
use cli_chat.Server.ChatServer.{map_find, add_session}
use cli_chat.Server.Registry.{send_message-SameButQueue}
use cli_chat.Server.Mutex.{bind-blocked, add_session-deadlock}
use cli_chat.Server.Session.{
  Env, auth_response, handle_login, open_session, fail_auth, send_auth_response,
}
use cli_chat.Server.Login.{
  login-held, login-unknown, login-wrong, login-disabled, login-online, login-open, login_row,
  stored, logged_in, open_session-registers,
}

-- The object after an update.
pub objects-update :
    {Db : Type 0} (id : ℕ) (f : Session → Session) (w : World Db)
    → (update id f w).objects id ≡ f (w.objects id)
unfolding update
objects-update id f w = ground arith

-- The tests that `handleLogin` makes before it creates a session.
pub record IsAccepted (p : Platform) (w : World p.Db) (username password : Bytes) (user : User)
    : Type 0 where
  pub known : p.get_user_by_username w.database username ≡ some user
  pub verified : verify_password p.sha256 password user.password_hash ≡ true
  pub active : user.is_active ≡ true
  pub offline : is_some (map_find username w.sessions_by_username) ≡ false

module _ (p : Platform) (w : World p.Db) (env : Env) (id : ℕ) (username password : Bytes)
    (user : User) where
  -- With the mutex free, a login under a name that is not empty, which passes every test, for
  -- which a token is drawn and whose session is stored, never returns, although its session is
  -- then authenticated, is in the map of sessions and has its token: the thread waits for the
  -- mutex that it holds.
  pub accepted_login_hangs :
      IsAccepted p w username password user
      → w.sessions_mutex ≡ false
      → is_empty username ≡ false
      → (token : Bytes) → generate_session_token env.rand ≡ some token
      → (p.create_session w.database (login_row env username user token)).0 ≡ true
      → (v : World p.Db) × (handle_login p env id username password w ≡ blocked v)
        × (v.sessions_mutex ≡ true)
        × ((v.objects id).authenticated ≡ true)
        × ((v.objects id).session_token ≡ token)
        × (map_find username v.sessions_by_username ≡ some id)
  unfolding update
  accepted_login_hangs a free named token drawn created =
      let u = logged_in p w env id username user token in
      let is_u =
        objects-update id
          (λ s. record s { username = username; user_id = user.id; authenticated = true })
          (record (stored p w env id username user token) {
            database =
                (p.update_last_login (stored p w env id username user token).database env.now
                  user.id).1;
          }) in
      let (v, stuck, held, found, same) =
        add_session-deadlock p id u free (ap (λ (s : Session). is_empty s.username) is_u ∙ named) in
      (
        v,
        login-open p w env id username password user a.known a.verified a.active free a.offline
            ∙ open_session-registers p w env id username user token drawn created
            ∙ bind-blocked (add_session p id) _ u stuck,
        held,
        (same id).authenticated ∙ ap (λ (s : Session). s.authenticated) is_u,
        (same id).session_token ∙ ground arith,
        ap (λ (n : Bytes). map_find n v.sessions_by_username)
              (sym (ap (λ (s : Session). s.username) is_u))
            ∙ found,
      )

-- The outcomes of a login, with what decides each.
data LoginCase (p : Platform) (w : World p.Db) (env : Env) (id : ℕ) (username password : Bytes)
    (o : Outcome p.Db Bool) : Type 0 where
  unknown :
      p.get_user_by_username w.database username ≡ none
      → o ≡ fail_auth p id (codes "User not found") w
      → LoginCase p w env id username password o
  wrong :
      (user : User)
      → p.get_user_by_username w.database username ≡ some user
      → verify_password p.sha256 password user.password_hash ≡ false
      → o ≡ fail_auth p id (codes "Invalid password") w
      → LoginCase p w env id username password o
  disabled :
      (user : User)
      → p.get_user_by_username w.database username ≡ some user
      → verify_password p.sha256 password user.password_hash ≡ true
      → user.is_active ≡ false
      → o ≡ fail_auth p id (codes "Account disabled") w
      → LoginCase p w env id username password o
  online :
      (user : User) (other : ℕ)
      → p.get_user_by_username w.database username ≡ some user
      → verify_password p.sha256 password user.password_hash ≡ true
      → user.is_active ≡ true
      → map_find username w.sessions_by_username ≡ some other
      → o ≡ fail_auth p id (codes "User already online") w
      → LoginCase p w env id username password o
  accepted :
      (user : User)
      → IsAccepted p w username password user
      → o ≡ open_session p env id username user w
      → LoginCase p w env id username password o

module _ (p : Platform) (w : World p.Db) (env : Env) (id : ℕ) (username password : Bytes)
    (free : w.sessions_mutex ≡ false) where
  abbrev Case : Type 0
  Case = LoginCase p w env id username password (handle_login p env id username password w)

  online_case :
      (user : User)
      → p.get_user_by_username w.database username ≡ some user
      → verify_password p.sha256 password user.password_hash ≡ true
      → user.is_active ≡ true
      → Case
  online_case user e v a = elim (Option-cases (map_find username w.sessions_by_username)) [
    | inl n ↦
        accepted user (record { known = e; verified = v; active = a; offline = ap is_some n })
          (login-open p w env id username password user e v a free (ap is_some n))
    | inr (other, n) ↦
        online user other e v a n
          (login-online p w env id username password user e v a free (ap is_some n))
  ]

  known_case : (user : User) → p.get_user_by_username w.database username ≡ some user → Case
  known_case user e = elim (Bool-cases (verify_password p.sha256 password user.password_hash)) [
    | inr v ↦ wrong user e v (login-wrong p w env id username password user e v)
    | inl v ↦ elim (Bool-cases user.is_active) [
      | inr a ↦ disabled user e v a (login-disabled p w env id username password user e v a)
      | inl a ↦ online_case user e v a
    ]
  ]

  -- With the mutex free, a login takes exactly the branch that the database, the password, the flag
  -- `is_active` and the map of sessions decide, in this order.
  handle_login-cases :
      LoginCase p w env id username password (handle_login p env id username password w)
  handle_login-cases = elim (Option-cases (p.get_user_by_username w.database username)) [
    | inl n ↦ unknown n (login-unknown p w env id username password n)
    | inr (user, e) ↦ known_case user e
  ]

module _ (p : Platform) (w : World p.Db) (env : Env) (id : ℕ) (username password : Bytes) where
  fail_auth-authenticated :
      (message : Bytes)
      → ((world (fail_auth p id message w)).objects id).authenticated ≡ (w.objects id).authenticated
  unfolding fail_auth send_auth_response
  fail_auth-authenticated message =
      (send_message-SameButQueue id (auth_response false message) w id).authenticated

  pub fail_auth-absurd :
      (message : Bytes) {o : Outcome p.Db Bool}
      → o ≡ fail_auth p id message w
      → (w.objects id).authenticated ≡ false
      → ((world o).objects id).authenticated ≡ true
      → ⊥
  fail_auth-absurd message e before after = cc (
    fail_auth-authenticated message,
    ap (λ (x : Outcome p.Db Bool). ((world x).objects id).authenticated) e,
  )

  -- While the mutex is held, a login authenticates nobody.
  login-held_absurd :
      w.sessions_mutex ≡ true
      → (w.objects id).authenticated ≡ false
      → ((world (handle_login p env id username password w)).objects id).authenticated ≡ true
      → ⊥
  login-held_absurd held before after =
      elim (Option-cases (p.get_user_by_username w.database username)) [
        | inl e ↦
            fail_auth-absurd (codes "User not found") (login-unknown p w env id username password e)
              before after
        | inr (user, e) ↦ elim (Bool-cases (verify_password p.sha256 password user.password_hash)) [
          | inr v ↦
              fail_auth-absurd (codes "Invalid password")
                (login-wrong p w env id username password user e v) before after
          | inl v ↦ elim (Bool-cases user.is_active) [
            | inr a ↦
                fail_auth-absurd (codes "Account disabled")
                  (login-disabled p w env id username password user e v a) before after
            | inl a ↦
                let same =
                  ap (λ (x : Outcome p.Db Bool). ((world x).objects id).authenticated)
                    (login-held p w env id username password user e v a held) in
                cc
          ]
        ]
      ]

  -- A session becomes authenticated only by a login of an active account with a password that
  -- verifies, under a name that is not in the map of sessions.
  pub login_soundness :
      (w.objects id).authenticated ≡ false
      → ((world (handle_login p env id username password w)).objects id).authenticated ≡ true
      → (user : User) × IsAccepted p w username password user
  login_soundness before after = elim (Bool-cases w.sessions_mutex) [
    | inl held ↦ absurd (login-held_absurd held before after)
    | inr free ↦ from (handle_login-cases p w env id username password free)
  ]
    where
      from :
          LoginCase p w env id username password (handle_login p env id username password w)
          → (user : User) × IsAccepted p w username password user
      from (unknown e o) = absurd (fail_auth-absurd (codes "User not found") o before after)
      from (wrong user e v o) = absurd (fail_auth-absurd (codes "Invalid password") o before after)
      from (disabled user e v a o) =
          absurd (fail_auth-absurd (codes "Account disabled") o before after)
      from (online user other e v a n o) =
          absurd (fail_auth-absurd (codes "User already online") o before after)
      from (accepted user a o) = (user, a)
