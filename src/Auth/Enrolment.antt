-- ===== src/Auth/Enrolment.antt =====
-- `AuthManager` from a registration to an authentication with the same password.
use cli_chat.Base.{◌≡◌, refl, ◌∙◌, ap, inl, inr, ℕ, true, not, ◌&&◌, some, is_empty, Option-cases}
use cli_chat.Text.{Bytes}
use cli_chat.Crypto.{Rand, hash_password, verify_password, generate_session_token}
use cli_chat.Crypto.Password.{IsBytes, verify_password-hash_password, hash_password-Lacks_nul}
use cli_chat.Database.{User}
use cli_chat.Database.Users.{UserLaws}
use cli_chat.Server.State.{Platform}
use cli_chat.Auth.{
  session_row, granted, authenticate, register_user, create_account, validate_username,
  validate_password, validate_email,
}
use cli_chat.Auth.Lifecycle.{
  succeeded, passed, not-false, false-true, username-Lacks, after_login, authenticate-granted,
}

module _ (p : Platform) (now : ℕ) (rand : Rand) (u pw email : Bytes) (db : p.Db) where
  -- What a registration that succeeded passed, and what it leaves in the database.
  record IsEnrolled : Type 0 where
    named : validate_username u ≡ true
    long_enough : validate_password pw ≡ true
    hash : Bytes
    hashed : hash_password p.sha256 rand pw ≡ some hash
    created : (p.create_user db now u hash email).0 ≡ true
    database_is :
        (register_user p true now rand u pw email db).1 ≡ (p.create_user db now u hash email).1

  create_account_needs :
      succeeded (create_account p true now rand u pw email db) ≡ true
      → (hash : Bytes) × (hash_password p.sha256 rand pw ≡ some hash)
        × ((p.create_user db now u hash email).0 ≡ true)
        × ((create_account p true now rand u pw email db).1 ≡ (p.create_user db now u hash email).1)
  unfolding create_account
  create_account_needs h = elim (Option-cases (hash_password p.sha256 rand pw)) [
    | inl n ↦ absurd (false-true (rw (create_account, n) at h))
    | inr (hash, n) ↦
        let result = p.create_user db now u hash email in
        let (d, _) = passed (not result.0) _ _ refl (rw (create_account, n) at h) in
        let stored = not-false result.0 d in
        (hash, n, stored, rw (create_account, n) (rw stored refl))
  ]

  register_user-IsEnrolled :
      succeeded (register_user p true now rand u pw email db) ≡ true → IsEnrolled
  unfolding register_user
  register_user-IsEnrolled h =
      let bad_email = not (is_empty email) && not (validate_email email) in
      let (a, h1) = passed (not (validate_username u)) _ _ refl h in
      let (b, h2) = passed (not (validate_password pw)) _ _ refl h1 in
      let (c, h3) = passed bad_email _ _ refl h2 in
      elim (Option-cases (p.get_user_by_username db u)) [
        | inr (user, e) ↦ absurd (false-true (rw e at h3))
        | inl e ↦
            let (hash, hashed, created, left) = create_account_needs (rw e at h3) in
            record {
              named = not-false (validate_username u) a;
              long_enough = not-false (validate_password pw) b;
              hash = hash;
              hashed = hashed;
              created = created;
              database_is = simp (a, b, c, e) left;
            }
      ]

  -- Suppose that the database is open and keeps accounts by the laws of `UserLaws`, and that the digest
  -- consists of bytes. After a registration that succeeded, an authentication with the same name and
  -- password, for which a token is drawn whose row can be stored for the account of the name, succeeds at any time,
  -- with that token and the account that was stored.
  pub registered_user_authenticates :
      UserLaws p.api
      → ((m : Bytes) → IsBytes (p.sha256 m))
      → succeeded (register_user p true now rand u pw email db) ≡ true
      → (later : ℕ) (draw : Rand) (token : Bytes) → generate_session_token draw ≡ some token
      → ((user : User)
          → p.get_user_by_username (register_user p true now rand u pw email db).1 u ≡ some user
          → (p.create_session
              (register_user p true now rand u pw email db).1
              (session_row later u user token)).0
            ≡ true)
      → let enrolled = (register_user p true now rand u pw email db).1 in
        (user : User) × (user.username ≡ u)
        × (authenticate p true later draw u pw enrolled
            ≡ (some (granted u user token), after_login p later draw u pw enrolled user token))
  registered_user_authenticates laws bytes done later draw token drawn stores =
      let enrolled = (register_user p true now rand u pw email db).1 in
      let r = register_user-IsEnrolled done in
      let (user, found, stored) =
        laws.created db now u r.hash email r.created (username-Lacks u r.named)
          (hash_password-Lacks_nul p.sha256 rand pw r.hash r.hashed) in
      let known = ap (λ d. p.get_user_by_username d u) r.database_is ∙ found in
      (
        user,
        stored.name_is,
        authenticate-granted p later draw u pw enrolled user token (record {
          named = r.named;
          long_enough = r.long_enough;
          known = known;
          active = stored.active_is;
          verified =
              ap (verify_password p.sha256 pw) stored.hash_is
              ∙ (verify_password-hash_password p.sha256 bytes rand pw pw r.hash r.hashed).0;
          drawn = drawn;
          created = stores user known;
        }),
      )
