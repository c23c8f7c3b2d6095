-- ===== src/Protocol/Registration.antt =====
-- A registration, from the server's answer to the client's state.
use cli_chat.Base.{◌≡◌, refl, ◌∙◌, ap, sym, ℕ, true, false, [], ◌∷◌, ◌++◌, some, arith}
use cli_chat.Text.{Bytes, codes, starts_with}
use cli_chat.Server.State.{Platform, Session, World, returned, enqueue, send_message}
use cli_chat.Server.Session.{Env, auth_response, handle_register, fail_auth, send_auth_response}
use cli_chat.Server.Register.{
  RegisterCase, bad_length, taken, no_salt, refused, created, after_create, handle_register-cases,
}
use cli_chat.Client.{ChatClient, say, auth_reply, process_message}

-- The line of a registration that worked, without the line end.
abbrev pub registered_line : Bytes
registered_line = codes "auth:success:Registration successful. Please login."

-- Every line that begins with `auth:success` makes the client authenticated in its own view.
pub process_message-success :
    (t : Bytes) (c : ChatClient)
    → process_message (codes "auth:success" ++ t) c
      ≡ some (say (codes "Authentication successful") (record c { authenticated = true }))
unfolding process_message auth_reply starts_with
process_message-success t c = refl

module _ (p : Platform) (env : Env) (id : ℕ) (u pw email : Bytes) (w v : World p.Db) where
  fail_auth-ne_true :
      (message : Bytes) (x : World p.Db) → fail_auth p id message x ≡ returned true v → ⊥
  unfolding fail_auth send_auth_response
  fail_auth-ne_true message x e = cc

  -- What a registration that worked leaves at the session: its reply, and nothing else.
  registered_session :
      handle_register p env id u pw email w ≡ returned true v
      → v.objects id ≡ enqueue (registered_line ++ b'\n' ∷ []) (w.objects id)
  unfolding send_message auth_response
  registered_session e = from (handle_register-cases p w env id u pw email)
    where
      from :
          RegisterCase p w env id u pw email (handle_register p env id u pw email w)
          → v.objects id ≡ enqueue (registered_line ++ b'\n' ∷ []) (w.objects id)
      from (bad_length a o) =
          absurd (fail_auth-ne_true (codes "Invalid username length") w (sym o ∙ e))
      from (taken user a b o) =
          absurd (fail_auth-ne_true (codes "Username already taken") w (sym o ∙ e))
      from (no_salt a b c o) = cc
      from (refused h a b c d o) = absurd (
          fail_auth-ne_true (codes "Failed to create user") (after_create p env u h email w)
            (sym o ∙ e))
      from (created h a b c d o) = ground arith

  -- After a registration that worked, of a session that is not authenticated, that session
  -- still is not, and is as before but for one line that it sends; this line makes the client
  -- authenticated in its own view.
  pub registration_desync :
      handle_register p env id u pw email w ≡ returned true v
      → (w.objects id).authenticated ≡ false
      → (c : ChatClient)
      → ((v.objects id).authenticated ≡ false)
        × (v.objects id ≡ enqueue (registered_line ++ b'\n' ∷ []) (w.objects id))
        × ((d : ChatClient) × (process_message registered_line c ≡ some d)
            × (d.authenticated ≡ true))
  unfolding enqueue
  registration_desync e anon c =
      let reply = registered_session e in
      (
        ap (λ (s : Session). s.authenticated) reply ∙ anon,
        reply,
        (
          say (codes "Authentication successful") (record c { authenticated = true }),
          process_message-success (codes ":Registration successful. Please login.") c,
          ground arith,
        ),
      )
