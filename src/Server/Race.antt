-- ===== src/Server/Race.antt =====
-- Two threads that log in under one name: `handleLogin` asks whether the user is online and registers
-- the session later, and between the two the mutex is free.
use cli_chat.Base.{◌≡◌, refl, ◌∙◌, ap, ℕ, true, false, some, is_some, ◌==◌, arith}
use cli_chat.Text.{Bytes}
use cli_chat.Crypto.{generate_session_token}
use cli_chat.Database.{User}
use cli_chat.Server.State.{◌>>=◌, Platform, World, Session, returned, world}
use cli_chat.Server.ChatServer.{map_find, is_user_online, add_session}
use cli_chat.Server.Session.{send_auth_response, Env, open_session}
use cli_chat.Server.Login.{
  stored, is_user_online-free, login_row, logged_in, open_session-registers,
}
use cli_chat.Server.Mutex.{bind-returned}
use cli_chat.Server.LoginCases.{objects-update}
use cli_chat.Server.Identity.{
  Good, same-Good, bind-Good, returned-Good, send_message-Kept, SameIdentity,
}
use cli_chat.Server.Identity.Registry.{add_session-Good}
use cli_chat.Server.Identity.Handlers.{open_session-Good}

-- A login that draws a token and stores its session.
module _ (p : Platform) (env : Env) (username token : Bytes) (user : User) (id : ℕ) (w : World p.Db)
    (drawn : generate_session_token env.rand ≡ some token)
    (stores : (p.create_session w.database (login_row env username user token)).0 ≡ true) where
  -- Whether the registration waits for the mutex or not: the session is logged in.
  registered-SameIdentity :
      let start = logged_in p w env id username user token in
      SameIdentity ((world (open_session p env id username user w)).objects id) (start.objects id)
  unfolding send_auth_response
  registered-SameIdentity =
      let start = logged_in p w env id username user token in
      let e = open_session-registers p w env id username user token drawn stores in
      let g : Good true (λ _. false) start (open_session p env id username user w) = same-Good e (
        bind-Good (add_session p id) _ start (add_session-Good p true (λ _. false) id start)
          (λ _ u. returned-Good (send_message-Kept id _ u))) in
      g.kept.same id refl

  open_session-logs_in :
      (((world (open_session p env id username user w)).objects id).authenticated ≡ true)
      × (((world (open_session p env id username user w)).objects id).username ≡ username)
  open_session-logs_in =
      let new = stored p w env id username user token in
      let same =
        objects-update id
          (λ s. record s { username = username; user_id = user.id; authenticated = true })
          (record new { database = (p.update_last_login new.database env.now user.id).1 }) in
      let k = registered-SameIdentity in
      (
        k.authenticated ∙ ap (λ (s : Session). s.authenticated) same,
        k.username ∙ ap (λ (s : Session). s.username) same,
      )

-- With the mutex free: if two different sessions ask whether a name that is not in the map is online,
-- both are told that it is not. If both then go on with the login, the one after the other, each with
-- a token of its own that is drawn and whose row the database then stores, both are authenticated
-- under this name.
pub two_logins_race :
    (p : Platform) (username : Bytes) (user : User) (w : World p.Db) (a b : ℕ)
    → w.sessions_mutex ≡ false
    → is_some (map_find username w.sessions_by_username) ≡ false
    → a == b ≡ false
    → (env env' : Env) (token token' : Bytes) → generate_session_token env.rand ≡ some token
    → generate_session_token env'.rand ≡ some token'
    → (p.create_session w.database (login_row env username user token)).0 ≡ true
    → (p.create_session
        (world (open_session p env a username user w)).database
        (login_row env' username user token')).0
      ≡ true
    → let v = world (open_session p env a username user w) in
      let z = world (open_session p env' b username user v) in
      ((is_user_online p username >>= λ _. is_user_online p username) w ≡ returned false w)
      × ((z.objects a).authenticated ≡ true)
      × ((z.objects a).username ≡ username)
      × ((z.objects b).authenticated ≡ true)
      × ((z.objects b).username ≡ username)
two_logins_race p username user w a b free offline apart env env' token token' drawn drawn' stores
      stores' =
    let v = world (open_session p env a username user w) in
    let once = is_user_online-free p w username free ∙ ap (λ o. returned o w) offline in
    let first = open_session-logs_in p env username token user a w drawn stores in
    let second = open_session-logs_in p env' username token' user b v drawn' stores' in
    let g =
      open_session-Good p true (λ k. k == b) env' b (λ n e. refl) (ground arith) username user v in
    let k = g.kept.same a apart in
    (
      bind-returned (is_user_online p username) (λ _. is_user_online p username) w once ∙ once,
      k.authenticated ∙ first.0,
      k.username ∙ first.1,
      second.0,
      second.1,
    )
