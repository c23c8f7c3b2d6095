-- ===== src/Server/Hang.antt =====
-- What a read leaves of the thread that runs it, where the read authenticates its session.
use cli_chat.Base.{
  ◌≡◌, refl, ◌∙◌, ap, sym, inl, inr, ℕ, Bool, true, false, none, some, length, ltb, is_empty,
  Bool-cases, [], ◌∷◌, Option-cases,
}
use cli_chat.Text.{Bytes, codes}
use cli_chat.Crypto.{generate_session_token}
use cli_chat.Database.{User}
use cli_chat.Message.{colon, build_login_message}
use cli_chat.Text.Laws.{Lacks}
use cli_chat.Server.Authentication.{world-bind_pure}
use cli_chat.Server.State.{Platform, World, M, Outcome, returned, blocked, threw, world, ◌>>=◌}
use cli_chat.Server.Login.{
  login-held, login-open, login_row, stored, open_session-no_token, open_session-refused,
}
use cli_chat.Server.LoginCases.{IsAccepted, objects-update, fail_auth-absurd, accepted_login_hangs}
use cli_chat.Server.Mutex.{bind-blocked}
use cli_chat.Server.Session.{Env, max_message_length, handle_login}
use cli_chat.Server.Dispatch.{process_message, handle_read}
use cli_chat.Server.Wire.{process_message-login}
use cli_chat.Server.Reads.{is_authenticated, command, read-short, read-authenticates}

abbrev pub has_blocked : {Db A : Type 0} → Outcome Db A → Bool
has_blocked (returned a w) = false
has_blocked (blocked w) = true
has_blocked (threw w) = false

module _ {Db A B : Type 0} (m : M Db A) (f : A → M Db B) (w : World Db) where
  has_blocked-bind : has_blocked (m w) ≡ true → has_blocked ((m >>= f) w) ≡ true
  has_blocked-bind h = go (m w) refl h
    where
      go : (o : Outcome Db A) → m w ≡ o → has_blocked o ≡ true → has_blocked ((m >>= f) w) ≡ true
      go (returned a v) e k = absurd cc
      go (blocked v) e k = ap has_blocked (bind-blocked m f w e)
      go (threw v) e k = absurd cc

module _ (p : Platform) (env : Env) (id : ℕ) where
  stored-authenticated :
      (w : World p.Db) (u token : Bytes) (user : User)
      → is_authenticated (stored p w env id u user token) id ≡ is_authenticated w id
  stored-authenticated w u token user =
      ap (λ s. s.authenticated) (objects-update id (λ s. record s { session_token = token }) w)

  open_login-blocked :
      (w : World p.Db) (u pw : Bytes) (user : User)
      → IsAccepted p w u pw user
      → w.sessions_mutex ≡ false
      → is_empty u ≡ false
      → is_authenticated w id ≡ false
      → is_authenticated (world (handle_login p env id u pw w)) id ≡ true
      → has_blocked (handle_login p env id u pw w) ≡ true
  open_login-blocked w u pw user a free named before after =
      let opens = login-open p w env id u pw user a.known a.verified a.active free a.offline in
      elim (Option-cases (generate_session_token env.rand)) [
        | inl n ↦
            let e = opens ∙ open_session-no_token p w env id u user n in
            let same = ap (λ o. is_authenticated (world o) id) e in absurd cc
        | inr (token, n) ↦
            elim (Bool-cases (p.create_session w.database (login_row env u user token)).0) [
              | inl c ↦
                  let (v, e, _, _, _, _) =
                    accepted_login_hangs p w env id u pw user a free named token n c in
                  ap has_blocked e
              | inr c ↦ absurd (
                  fail_auth-absurd p (stored p w env id u user token) env id u pw
                    (codes "Failed to create session")
                    (opens ∙ open_session-refused p w env id u user token n c)
                    (stored-authenticated w u token user ∙ before) after)
            ]
      ]

  handle_login-blocked :
      (w : World p.Db) (u pw : Bytes) (user : User)
      → IsAccepted p w u pw user
      → is_empty u ≡ false
      → is_authenticated w id ≡ false
      → is_authenticated (world (handle_login p env id u pw w)) id ≡ true
      → has_blocked (handle_login p env id u pw w) ≡ true
  handle_login-blocked w u pw user a named before after = elim (Bool-cases w.sessions_mutex) [
    | inl held ↦ ap has_blocked (login-held p w env id u pw user a.known a.verified a.active held)
    | inr free ↦ open_login-blocked w u pw user a free named before after
  ]

  -- The line is known to be the login.
  process_message-blocked :
      (w : World p.Db) (u pw : Bytes) (user : User)
      → IsAccepted p w u pw user
      → Lacks colon u
      → is_empty u ≡ false
      → is_authenticated w id ≡ false
      → is_authenticated (world (process_message p env id (build_login_message u pw) w)) id ≡ true
      → has_blocked (process_message p env id (build_login_message u pw) w) ≡ true
  process_message-blocked w u pw user a l named before after =
      let is_login = process_message-login p env id w u pw before l in
      let same =
        ap (λ o. is_authenticated (world o) id) is_login
        ∙ ap (λ v. is_authenticated v id) (world-bind_pure (handle_login p env id u pw) w) in
      ap has_blocked is_login
      ∙ has_blocked-bind (handle_login p env id u pw) _ w
          (handle_login-blocked w u pw user a named before (sym same ∙ after))

  read_line-blocked :
      (message : Bytes) (w : World p.Db)
      → ltb max_message_length (length message) ≡ false
      → has_blocked (process_message p env id (command message) w) ≡ true
      → has_blocked (handle_read p env id (some message) w) ≡ true
  unfolding handle_read
  read_line-blocked message w fits h =
      rw (fits, handle_read) (has_blocked-bind (process_message p env id (command message)) _ w h)

  -- A read that authenticates its session never returns, if no account has the empty name.
  pub read-blocked :
      (message : Bytes) (w : World p.Db)
      → p.get_user_by_username w.database [] ≡ none
      → is_authenticated w id ≡ false
      → is_authenticated (world (handle_read p env id (some message) w)) id ≡ true
      → has_blocked (handle_read p env id (some message) w) ≡ true
  read-blocked message w nameless before after =
      let a = read-authenticates p env id message w before after in
      let named = has_name w a.username a.user nameless a.accepted.known in
      let h =
        process_message-blocked w a.username a.password a.user a.accepted a.no_colon named before (
          ap (λ (c : Bytes). is_authenticated (world (process_message p env id c w)) id)
            (sym a.is_login)
          ∙ sym (read-short p env id message w a.fits)
          ∙ after) in
      read_line-blocked message w a.fits
        (ap (λ (c : Bytes). has_blocked (process_message p env id c w)) a.is_login ∙ h)
    where
      has_name :
          (w : World p.Db) (u : Bytes) (user : User)
          → p.get_user_by_username w.database [] ≡ none
          → p.get_user_by_username w.database u ≡ some user
          → is_empty u ≡ false
      has_name w [] user n k = absurd cc
      has_name w (c ∷ u) user n k = refl
