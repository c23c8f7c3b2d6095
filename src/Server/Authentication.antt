-- ===== src/Server/Authentication.antt =====
-- How a session becomes authenticated.
use cli_chat.Base.{
  ◌≡◌, refl, ◌∙◌, ap, sym, inl, inr, ℕ, true, false, ◌||◌, ◌++◌, none, some, arith, is_empty,
  length, ltb, Bool-cases, Option-cases,
}
use cli_chat.Text.{Bytes, codes, starts_with, find_from}
use cli_chat.Text.Laws.{Lacks, starts_with-split, find_from-some}
use cli_chat.Crypto.{hash_password}
use cli_chat.Database.{User}
use cli_chat.Message.{colon, build_login_message}
use cli_chat.Server.State.{
  Platform, Session, World, M, ◌>>=◌, pure, Outcome, returned, blocked, threw, world, send_message,
}
use cli_chat.Server.Registry.{SameButQueue, send_message-SameButQueue}
use cli_chat.Server.Session.{
  register_fields, Env, auth_response, handle_login, handle_register, fail_auth, send_auth_response,
}
use cli_chat.Server.Dispatch.{
  second_colon, login_command, register_command, process_as, process_message,
}
use cli_chat.Server.LoginCases.{IsAccepted, login_soundness}
use cli_chat.Server.Wire.{process_message-login, process_message-unauthenticated}

SameButQueue-refl : (s : Session) → SameButQueue s s
SameButQueue-refl s = ground arith

pub world-bind_pure :
    {Db A : Type 0} (m : M Db A) (w : World Db) → world ((m >>= λ _. pure tt) w) ≡ world (m w)
world-bind_pure {Db} {A} m w = go (m w) refl
  where
    go : (o : Outcome Db A) → m w ≡ o → world ((m >>= λ _. pure tt) w) ≡ world (m w)
    go (returned a v) e = rw (e, ◌>>=◌)
    go (blocked v) e = rw (e, ◌>>=◌)
    go (threw v) e = rw (e, ◌>>=◌)

module _ (p : Platform) (env : Env) (id : ℕ) where
  abbrev Keeps : World p.Db → World p.Db → Type 0
  Keeps v w = (j : ℕ) → SameButQueue (v.objects j) (w.objects j)

  fail_auth-Keeps : (message : Bytes) (w : World p.Db) → Keeps (world (fail_auth p id message w)) w
  unfolding fail_auth send_auth_response
  fail_auth-Keeps message w j = send_message-SameButQueue id (auth_response false message) w j

  -- A registration authenticates nobody: on every branch each session keeps its name, its flag and
  -- its token.
  pub handle_register-Keeps :
      (u pw email : Bytes) (w : World p.Db)
      → (j : ℕ)
      → SameButQueue ((world (handle_register p env id u pw email w)).objects j) (w.objects j)
  unfolding handle_register send_auth_response
  handle_register-Keeps u pw email w = elim (Bool-cases (is_empty u || ltb 32 (length u))) [
    | inl bad ↦ rw bad (fail_auth-Keeps (codes "Invalid username length") w)
    | inr good ↦ rw good (elim (Option-cases (p.get_user_by_username w.database u)) [
      | inr (user, e) ↦ rw e (fail_auth-Keeps (codes "Username already taken") w)
      | inl e ↦ rw e (elim (Option-cases (hash_password p.sha256 env.rand pw)) [
        | inl n ↦ rw n (λ j. SameButQueue-refl (w.objects j))
        | inr (h, n) ↦ rw n (elim (Bool-cases (p.create_user w.database env.now u h email).0) [
          | inl c ↦ rw c (
              send_message-SameButQueue id
                (auth_response true (codes "Registration successful. Please login."))
                (record w { database = (p.create_user w.database env.now u h email).1 }))
          | inr c ↦ rw c (
              fail_auth-Keeps (codes "Failed to create user")
                (record w { database = (p.create_user w.database env.now u h email).1 }))
        ])
      ])
    ])
  ]

  register_command-Keeps :
      (message : Bytes) (w : World p.Db) → Keeps (world (register_command p env id message w)) w
  unfolding register_command send_auth_response
  register_command-Keeps message w = elim (Option-cases (find_from message b':' 9)) [
    | inl n ↦
        rw (n, register_command)
          (λ j.
            send_message-SameButQueue id (auth_response false (codes "Invalid registration format"))
              w j)
    | inr (i, n) ↦
        rw (n, register_command)
          (elim (Option-cases (register_fields message i (second_colon message (some i)))) [
            | inl f ↦ rw f (λ j. SameButQueue-refl (w.objects j))
            | inr (f, e) ↦ rw e (λ j.
                rw (world-bind_pure (handle_register p env id f.0 f.1 f.2) w)
                  (handle_register-Keeps f.0 f.1 f.2 w j))
          ])
  ]

  login_command-Keeps :
      (message : Bytes) (w : World p.Db)
      → find_from message b':' 6 ≡ none
      → Keeps (world (login_command p env id message w)) w
  unfolding login_command send_auth_response
  login_command-Keeps message w n =
      rw (n, login_command)
        (λ j. send_message-SameButQueue id (auth_response false (codes "Invalid login format")) w j)

  module _ (w : World p.Db) (message : Bytes) (before : (w.objects id).authenticated ≡ false) where
    abbrev Result : Type 0
    Result =
        (u : Bytes) × (pw : Bytes) × (user : User) × (message ≡ build_login_message u pw)
        × Lacks colon u
        × IsAccepted p w u pw user

    -- A handler that keeps the flags does not end with this one set.
    Keeps-absurd :
        (o : Outcome p.Db (Unit {0}))
        → process_message p env id message w ≡ o
        → Keeps (world o) w
        → ((world (process_message p env id message w)).objects id).authenticated ≡ true
        → ⊥
    Keeps-absurd o e k after = cc (
      (k id).authenticated,
      ap (λ (x : Outcome p.Db (Unit {0})). ((world x).objects id).authenticated) e,
    )

    login_result :
        (u pw : Bytes)
        → message ≡ build_login_message u pw
        → Lacks colon u
        → ((world (process_message p env id message w)).objects id).authenticated ≡ true
        → Result
    login_result u pw e l after =
        let same : world (process_message p env id message w)
            ≡ world (handle_login p env id u pw w) =
          ap (λ (m : Bytes). world (process_message p env id m w)) e
          ∙ ap world (process_message-login p env id w u pw before l)
          ∙ world-bind_pure (handle_login p env id u pw) w in
        let (user, a) =
          login_soundness p w env id u pw before
            (ap (λ (v : World p.Db). (v.objects id).authenticated) (sym same) ∙ after) in
        (u, pw, user, e, l, a)

    login_line :
        starts_with message (codes "login:") ≡ true
        → ((world (process_message p env id message w)).objects id).authenticated ≡ true
        → Result
    unfolding process_message process_as build_login_message
    login_line front after = elim (Option-cases (find_from message b':' 6)) [
      | inl n ↦ absurd (
          Keeps-absurd (login_command p env id message w) (rw before (rw front))
            (login_command-Keeps message w n) after)
      | inr (i, n) ↦
          let (t, e) = starts_with-split message (codes "login:") front in
          let (u, pw, q, l) =
            find_from-some (codes "login:") t colon {i = i}
              (ap (λ (m : Bytes). find_from m b':' 6) (sym e) ∙ n) in
          login_result u pw (e ∙ ap (◌++◌ (codes "login:")) q) l after
    ]

    other_line :
        starts_with message (codes "login:") ≡ false
        → ((world (process_message p env id message w)).objects id).authenticated ≡ true
        → ⊥
    unfolding process_message process_as
    other_line no_login after = elim (Bool-cases (starts_with message (codes "register:"))) [
      | inl front ↦
          Keeps-absurd (register_command p env id message w) (rw before (rw no_login (rw front)))
            (register_command-Keeps message w) after
      | inr back ↦
          Keeps-absurd (returned tt (send_message id (codes "error:Authentication required\n") w))
            (process_message-unauthenticated p env id w message before no_login back)
            (λ j. send_message-SameButQueue id (codes "error:Authentication required\n") w j) after
    ]

    -- Whatever line a session sends that is not authenticated: if it is authenticated afterwards, the
    -- line was `login:` with a name and a password, the account is known and active, the password
    -- verifies against its hash, and nobody was registered under the name.
    pub process_message-authenticates :
        ((world (process_message p env id message w)).objects id).authenticated ≡ true
        → (u : Bytes) × (pw : Bytes) × (user : User) × (message ≡ build_login_message u pw)
          × Lacks colon u
          × IsAccepted p w u pw user
    process_message-authenticates after = elim (Bool-cases (starts_with message (codes "login:"))) [
      | inl front ↦ login_line front after
      | inr no_login ↦ absurd (other_line no_login after)
    ]
