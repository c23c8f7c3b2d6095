-- ===== src/Server/Identity/Handlers.antt =====
-- Login, registration and messages: a handler of `id` changes the identity of `id` alone, and is left
-- by an exception only when no random bytes are drawn.
use mathlib.Core.Option
use cli_chat.Base.{◌≡◌, refl, ℕ, Bool, true, not, ◌||◌, Option, none, some, is_empty, length, ltb}
use cli_chat.Text.{Bytes}
use cli_chat.Crypto.{
  hex, verify_password, generate_session_token, hash_password, generate_salt, hash_with_salt,
}
use cli_chat.Database.{User}
use cli_chat.Server.State.{Session, Platform, World, or_throw, update}
use cli_chat.Server.ChatServer.{add_session, is_user_online}
use cli_chat.Server.Login.{login_row, stored, logged_in}
use cli_chat.Server.Session.{
  Env, handle_login, handle_register, open_session, fail_auth, send_auth_response,
  handle_private_message, handle_broadcast_message,
}
use cli_chat.Server.Identity.{
  Good, Kept-trans, Kept-objects, returned-Good, after-Good, bind-Good, pick-Good, found-Good,
  or_throw-Good, send_message-Kept, update-Kept,
}
use cli_chat.Server.Identity.Registry.{
  is_user_online-Good, add_session-Good, broadcast_message-Good, send_private_message-Good,
}

map-none : {A B : Type 0} (f : A → B) (o : Option A) → Option.map f o ≡ none → o ≡ none
map-none f none e = refl
map-none f (some a) e = absurd cc

generate_session_token-none :
    (rand : ℕ → Option Bytes) → generate_session_token rand ≡ none → rand 32 ≡ none
unfolding generate_session_token
generate_session_token-none rand e = map-none hex (rand 32) e

hash_password-none :
    (sha256 : Bytes → Bytes) (rand : ℕ → Option Bytes) (password : Bytes)
    → hash_password sha256 rand password ≡ none
    → rand 16 ≡ none
unfolding hash_password generate_salt
hash_password-none sha256 rand password e =
    map-none hex (rand 16) (map-none (hash_with_salt sha256 password) _ e)

module _ (p : Platform) (fails : Bool) (touched : ℕ → Bool) (env : Env) (id : ℕ)
    (draws : (n : ℕ) → env.rand n ≡ none → fails ≡ true) (own : touched id ≡ true) where
  fail_auth-Good :
      (message : Bytes) (w : World p.Db) → Good fails touched w (fail_auth p id message w)
  unfolding fail_auth send_auth_response
  fail_auth-Good message w = returned-Good (send_message-Kept id _ w)

  pub open_session-Good :
      (username : Bytes) (user : User) (w : World p.Db)
      → Good fails touched w (open_session p env id username user w)
  unfolding open_session send_auth_response update
  open_session-Good username user w =
      bind-Good (or_throw (generate_session_token env.rand)) _ w
        (or_throw-Good (generate_session_token env.rand) w
          (λ e. draws 32 (generate_session_token-none env.rand e)))
        λ token v.
          let tokened : Session → Session = λ s. record s { session_token = token } in
          let named : Session → Session =
            λ s. record s { username = username; user_id = user.id; authenticated = true } in
          let row = login_row env username user token in
          let new = stored p v env id username user token in
          let visited = record new {
            database = (p.update_last_login new.database env.now user.id).1;
          } in
          after-Good
            (Kept-trans new (update id tokened v) v (Kept-objects _ _ refl)
              (update-Kept id tokened v own))
            (pick-Good (not (p.create_session v.database row).0) _ _ new (fail_auth-Good _ _) (
              after-Good
                (Kept-trans (logged_in p v env id username user token) visited new
                  (update-Kept id named visited own) (Kept-objects visited new refl))
                (bind-Good (add_session p id) _ _ (add_session-Good p fails touched id _)
                  λ _ u. returned-Good (send_message-Kept id _ u))))

  pub handle_login-Good :
      (username password : Bytes) (w : World p.Db)
      → Good fails touched w (handle_login p env id username password w)
  unfolding handle_login
  handle_login-Good username password w =
      found-Good (p.get_user_by_username w.database username) _ _ w (fail_auth-Good _ w) λ user e.
        pick-Good (not (verify_password p.sha256 password user.password_hash)) _ _ w
          (fail_auth-Good _ w)
          (pick-Good (not user.is_active) _ _ w (fail_auth-Good _ w) (
            bind-Good (is_user_online p username) _ w
              (is_user_online-Good p fails touched username w)
              λ online v.
                pick-Good online _ _ v (fail_auth-Good _ v) (open_session-Good username user v)))

  pub handle_register-Good :
      (u pw email : Bytes) (w : World p.Db)
      → Good fails touched w (handle_register p env id u pw email w)
  unfolding handle_register send_auth_response
  handle_register-Good u pw email w =
      pick-Good (is_empty u || ltb 32 (length u)) _ _ w (fail_auth-Good _ w) (
        found-Good (p.get_user_by_username w.database u) _ _ w
          (bind-Good (or_throw (hash_password p.sha256 env.rand pw)) _ w
            (or_throw-Good (hash_password p.sha256 env.rand pw) w
              (λ e. draws 16 (hash_password-none p.sha256 env.rand pw e)))
            λ h v.
              let created = p.create_user v.database env.now u h email in
              let new = record v { database = created.1 } in
              after-Good (Kept-objects new v refl) (
                pick-Good (not created.0) _ _ new (fail_auth-Good _ new)
                  (returned-Good (send_message-Kept id _ new))))
          (λ user e. fail_auth-Good _ w))

  pub handle_private_message-Good :
      (recipient content : Bytes) (w : World p.Db)
      → Good fails touched w (handle_private_message p env id recipient content w)
  unfolding handle_private_message
  handle_private_message-Good recipient content w =
      after-Good (Kept-objects _ w refl)
        (send_private_message-Good p fails touched recipient content id _)

  pub handle_broadcast_message-Good :
      (content : Bytes) (w : World p.Db)
      → Good fails touched w (handle_broadcast_message p env id content w)
  unfolding handle_broadcast_message
  handle_broadcast_message-Good content w =
      after-Good (Kept-objects _ w refl) (broadcast_message-Good p fails touched _ (some id) _)
