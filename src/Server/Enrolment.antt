-- ===== src/Server/Enrolment.antt =====
-- From a registration to a login with the same password.
use cli_chat.Base.{◌≡◌, refl, ◌∙◌, ap, sym, ℕ, Bool, true, false, some, is_some}
use cli_chat.Text.{Bytes}
use cli_chat.Text.Laws.{Lacks}
use cli_chat.Crypto.{hash_password, verify_password}
use cli_chat.Crypto.Password.{IsBytes, verify_password-hash_password, hash_password-Lacks_nul}
use cli_chat.Database.{User}
use cli_chat.Database.Users.{UserLaws}
use cli_chat.Server.State.{Platform, World, Outcome, returned, threw, blocked, world, send_message}
use cli_chat.Server.ChatServer.{map_find}
use cli_chat.Server.Session.{
  Env, handle_login, handle_register, open_session, fail_auth, send_auth_response,
}
use cli_chat.Server.Login.{login-open}
use cli_chat.Server.LoginCases.{IsAccepted}
use cli_chat.Server.Register.{
  RegisterCase, bad_length, taken, no_salt, refused, created, after_create, handle_register-cases,
}

-- A handler that returned `true`.
abbrev is_true : {Db : Type 0} → Outcome Db Bool → Bool
is_true (returned b w) = b
is_true (blocked w) = false
is_true (threw w) = false

fail_auth-is_true :
    (p : Platform) (id : ℕ) (message : Bytes) (w : World p.Db)
    → is_true (fail_auth p id message w) ≡ false
unfolding fail_auth send_auth_response
fail_auth-is_true p id message w = refl

-- The account that a registration which succeeded leaves.
pub record Account (p : Platform) (env : Env) (before after : p.Db) (u pw email : Bytes)
    : Type 0 where
  pub hash : Bytes
  pub hashed : hash_password p.sha256 env.rand pw ≡ some hash
  pub stores : (p.create_user before env.now u hash email).0 ≡ true
  pub database_is : after ≡ (p.create_user before env.now u hash email).1

-- What a login with the same password finds there.
pub record IsReady (p : Platform) (after : p.Db) (u pw : Bytes) (user : User) : Type 0 where
  pub name_is : user.username ≡ u
  pub known : p.get_user_by_username after u ≡ some user
  pub verified : verify_password p.sha256 pw user.password_hash ≡ true
  pub active : user.is_active ≡ true

module _ (p : Platform) (laws : UserLaws p.api) (bytes : (m : Bytes) → IsBytes (p.sha256 m)) where
  pub Account-IsReady :
      (env : Env) (before after : p.Db) (u pw email : Bytes)
      → Account p env before after u pw email
      → Lacks 0 u
      → (user : User) × IsReady p after u pw user
  Account-IsReady env before after u pw email a clean =
      let (user, found, stored) =
        laws.created before env.now u a.hash email a.stores clean
          (hash_password-Lacks_nul p.sha256 env.rand pw a.hash a.hashed) in
      (
        user,
        record {
          name_is = stored.name_is;
          known = ap (λ db. p.get_user_by_username db u) a.database_is ∙ found;
          verified =
              ap (verify_password p.sha256 pw) stored.hash_is
              ∙ (verify_password-hash_password p.sha256 bytes env.rand pw pw a.hash a.hashed).0;
          active = stored.active_is;
        },
      )

  handle_register-Account :
      (env : Env) (id : ℕ) (w v : World p.Db) (u pw email : Bytes)
      → handle_register p env id u pw email w ≡ returned true v
      → Account p env w.database v.database u pw email
  unfolding send_message
  handle_register-Account env id w v u pw email done =
      from (handle_register p env id u pw email w) (handle_register-cases p w env id u pw email)
        done
    where
      fails :
          (m : Bytes) (z : World p.Db) {o : Outcome p.Db Bool}
          → o ≡ fail_auth p id m z
          → o ≡ returned true v
          → ⊥
      fails m z e h = cc (ap is_true e, ap is_true h, fail_auth-is_true p id m z)

      from :
          (o : Outcome p.Db Bool)
          → RegisterCase p w env id u pw email o
          → o ≡ returned true v
          → Account p env w.database v.database u pw email
      from o (bad_length b e) h = absurd (fails _ w e h)
      from o (taken user b k e) h = absurd (fails _ w e h)
      from o (no_salt b k n e) h = absurd (let x = ap is_true h in let y = ap is_true e in cc)
      from o (refused hash b k n c e) h = absurd (fails _ (after_create p env u hash email w) e h)
      from o (created hash b k n c e) h = record {
        hash = hash;
        hashed = n;
        stores = c;
        database_is = ap (λ (x : Outcome p.Db Bool). (world x).database) (sym h ∙ e);
      }

  -- Suppose that the database keeps accounts by the laws of `UserLaws`, that the digest consists of bytes, that a
  -- registration under a name without a NUL returned `true`, that the mutex is free and that the name
  -- is not in the map of sessions. Then a login with the name and the password of the registration, from any session and at any
  -- time, passes every test with the account that was stored, and goes on to open its session.
  pub registered_user_logs_in :
      (env : Env) (id : ℕ) (w v : World p.Db) (u pw email : Bytes)
      → handle_register p env id u pw email w ≡ returned true v
      → Lacks 0 u
      → v.sessions_mutex ≡ false
      → is_some (map_find u v.sessions_by_username) ≡ false
      → (later : Env) (other : ℕ)
      → (user : User) × (user.username ≡ u)
        × IsAccepted p v u pw user
        × (handle_login p later other u pw v ≡ open_session p later other u user v)
  registered_user_logs_in env id w v u pw email done clean free offline later other =
      let a = handle_register-Account env id w v u pw email done in
      let (user, r) = Account-IsReady env w.database v.database u pw email a clean in
      (
        user,
        r.name_is,
        record { known = r.known; verified = r.verified; active = r.active; offline = offline },
        login-open p v later other u pw user r.known r.verified r.active free offline,
      )
