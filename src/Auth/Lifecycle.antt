-- ===== src/Auth/Lifecycle.antt =====
-- A session of `AuthManager` from `authenticate` to its end.
use cli_chat.Base.{
  [], ◌∷◌, arith, all, ◌∙◌, inl, inr, ◌↔◌, ap, ℕ, ◌≡◌, refl, Bool, true, false, not, Option, none,
  some, Bool-cases, Option-cases, is_empty, ltb, if◌then◌else◌, ◌+◌, ◌||◌,
}
use cli_chat.Text.{Bytes}
use cli_chat.Crypto.{token_length, Rand, generate_session_token, verify_password}
use cli_chat.Database.{User, SessionRow}
use cli_chat.Server.State.{Platform}
use cli_chat.Text.Laws.{Lacks}
use cli_chat.Crypto.Hex.{hex-no_nul}
use cli_chat.Database.Sessions.{SessionLaws}
use cli_chat.Auth.{
  ◌∷◌, is_name_char, AuthResult, granted, session_row, session_duration, authenticate, grant,
  validate_session, invalidate_session, validate_username, validate_password,
}

abbrev pub succeeded : {Db : Type 0} → Option AuthResult × Db → Bool
succeeded (none, db) = false
succeeded (some r, db) = r.success

pub passed :
    {Db : Type 0} (b : Bool) (x y : Option AuthResult × Db)
    → succeeded x ≡ false
    → succeeded (if b then x else y) ≡ true
    → (b ≡ false) × (succeeded y ≡ true)
passed true x y e h = cc
passed false x y e h = (refl, h)

both_false : (a b : Bool) → (not a || not b) ≡ false → (a ≡ true) × (b ≡ true)
both_false true true h = (refl, refl)
both_false true false h = cc
both_false false b h = cc

pub false-true : false ≡ true → ⊥
false-true h = cc

pub not-false : (a : Bool) → not a ≡ false → a ≡ true
not-false true h = refl
not-false false h = cc

module _ (p : Platform) (now : ℕ) (rand : Rand) (username password : Bytes) (db : p.Db) where
  -- What a login needs, with the account and the token.
  pub record IsGranted (user : User) (token : Bytes) : Type 0 where
    pub named : validate_username username ≡ true
    pub long_enough : validate_password password ≡ true
    pub known : p.get_user_by_username db username ≡ some user
    pub active : user.is_active ≡ true
    pub verified : verify_password p.sha256 password user.password_hash ≡ true
    pub drawn : generate_session_token rand ≡ some token
    pub created : (p.create_session db (session_row now username user token)).0 ≡ true

  abbrev pub after_login : User → Bytes → p.Db
  after_login user token =
      (p.update_last_login (p.create_session db (session_row now username user token)).1 now
        user.id).1

  grant-granted :
      (user : User) (token : Bytes)
      → IsGranted user token
      → grant p true now rand username user db
        ≡ (some (granted username user token), after_login user token)
  unfolding grant
  grant-granted user token g = rw (grant, g.drawn, g.created) refl

  pub authenticate-granted :
      (user : User) (token : Bytes)
      → IsGranted user token
      → authenticate p true now rand username password db
        ≡ (some (granted username user token), after_login user token)
  unfolding authenticate
  authenticate-granted user token g =
      simp (g.named, g.long_enough, g.known, g.active, g.verified) (grant-granted user token g)

  grant_needs :
      (user : User)
      → succeeded (grant p true now rand username user db) ≡ true
      → (token : Bytes) × (generate_session_token rand ≡ some token)
        × ((p.create_session db (session_row now username user token)).0 ≡ true)
  unfolding grant
  grant_needs user h = elim (Option-cases (generate_session_token rand)) [
    | inl e ↦ absurd (false-true (rw (grant, e) at h))
    | inr (token, e) ↦
        let row = session_row now username user token in
        let (fine, _) = passed (not (p.create_session db row).0) _ _ refl (rw (grant, e) at h) in
        (token, e, not-false (p.create_session db row).0 fine)
  ]

  login_needs :
      succeeded (authenticate p true now rand username password db) ≡ true
      → (user : User) × (token : Bytes) × IsGranted user token
  unfolding authenticate
  login_needs h =
      let name = validate_username username in
      let (formats, h1) = passed (not name || not (validate_password password)) _ _ refl h in
      let (named, long_enough) = both_false name (validate_password password) formats in
      elim (Option-cases (p.get_user_by_username db username)) [
        | inl e ↦ absurd (false-true (rw e at h1))
        | inr (user, e) ↦
            let (on, h3) = passed (not user.is_active) _ _ refl (rw e at h1) in
            let right = verify_password p.sha256 password user.password_hash in
            let (ok, h4) = passed (not right) _ _ refl h3 in
            let (token, drawn, created) = grant_needs user h4 in
            (
              user,
              token,
              record {
                named = named;
                long_enough = long_enough;
                known = e;
                active = not-false user.is_active on;
                verified = not-false right ok;
                drawn = drawn;
                created = created;
              },
            )
      ]

  -- With the database open, exactly the logins that pass every test succeed: the name and the password
  -- are well-formed, the account is known and active, its hash accepts the password, a token was drawn
  -- and the session was stored. The result then names the account and the token, and the database has
  -- taken the new session and the time of the login, in this order.
  pub authenticate-succeeds_iff :
      ((succeeded (authenticate p true now rand username password db) ≡ true)
        ↔ ((user : User) × (token : Bytes) × IsGranted user token))
      × ((user : User) (token : Bytes)
          → IsGranted user token
          → authenticate p true now rand username password db
            ≡ (some (granted username user token), after_login user token))
  authenticate-succeeds_iff = (
    (login_needs, λ (user, token, g). ap succeeded (authenticate-granted user token g)),
    authenticate-granted,
  )

-- Neither a token nor an accepted name holds a NUL.
pub token-Lacks :
    (rand : Rand) (token : Bytes) → generate_session_token rand ≡ some token → Lacks 0 token
unfolding generate_session_token
token-Lacks rand token drawn = elim (Option-cases (rand token_length)) [
  | inl e ↦ absurd (no_token (rw (generate_session_token, e) at drawn))
  | inr (bs, e) ↦ rw (← is_token (rw (generate_session_token, e) at drawn)) (hex-no_nul bs)
]
  where
    no_token : ◌≡◌ {A = Option Bytes} none (some token) → ⊥
    no_token e = cc

    is_token : {u : Bytes} → ◌≡◌ {A = Option Bytes} (some u) (some token) → u ≡ token
    is_token e = cc

name_chars-Lacks : (s : Bytes) → all is_name_char s ≡ true → Lacks 0 s
name_chars-Lacks [] h = refl
name_chars-Lacks (c ∷ s) h = ground (arith, name_chars-Lacks s)

pub username-Lacks : (s : Bytes) → validate_username s ≡ true → Lacks 0 s
unfolding validate_username
username-Lacks s h = name_chars-Lacks s (ground arith)

module _ (p : Platform) (later : ℕ) (token : Bytes) (db : p.Db) where
  validate_found :
      (row : SessionRow)
      → p.get_session db token ≡ some row
      → row.is_active ≡ true
      → is_empty token ≡ false
      → validate_session p true later token db ≡ (
          if ltb row.expires_at later
          then (none, (p.delete_session db token).1)
          else (some (row.username, row.user_id), db))
  unfolding validate_session
  validate_found row found active ne = simp (ne, found, active) refl

  validate_absent :
      p.get_session db token ≡ none → validate_session p true later token db ≡ (none, db)
  unfolding validate_session
  validate_absent absent = elim (Bool-cases (is_empty token)) [
    | inl e ↦ simp e refl
    | inr e ↦ simp (e, absent) refl
  ]

module _ (p : Platform) (token : Bytes) (db : p.Db) where
  invalidate_open :
      is_empty token ≡ false → invalidate_session p true token db ≡ p.delete_session db token
  unfolding invalidate_session
  invalidate_open ne = simp ne refl

module _ (p : Platform) (now : ℕ) (rand : Rand) (username password : Bytes) (db : p.Db) where
  -- With the database open, and a database that keeps sessions as the named laws say: the token
  -- of a login that passes every test, if it is not empty, stands for the account until the
  -- stored end of its 24 hours; after that it is refused and its session deleted; and it is
  -- refused at any time once it was invalidated with success.
  pub authenticate-validate_session :
      (reread : ℕ → ℕ)
      → SessionLaws p.api reread
      → (user : User) (token : Bytes) → IsGranted p now rand username password db user token
      → is_empty token ≡ false
      → (later : ℕ)
      → let opened = (authenticate p true now rand username password db).1 in
        (validate_session p true later token opened ≡ (
          if ltb (reread (now + session_duration)) later
          then (none, (p.delete_session opened token).1)
          else (some (username, user.id), opened)))
        × ((p.delete_session opened token).0 ≡ true
            → (validate_session p true later token (invalidate_session p true token opened).1).0
              ≡ none)
  authenticate-validate_session reread laws user token g ne later =
      let row = session_row now username user token in
      let created = (p.create_session db row).1 in
      let opened = (p.update_last_login created now user.id).1 in
      let kept = laws.login_kept created now user.id token in
      let found =
        kept
        ∙ laws.stored db row g.created refl (token-Lacks rand token g.drawn)
            (username-Lacks username g.named) in
      rw (authenticate-granted p now rand username password db user token g) (
        validate_found p later token opened _ found refl ne,
        λ d.
            ap (λ (r : Option (Bytes × ℕ) × p.Db). r.0)
              (ap (λ (e : Bool × p.Db). validate_session p true later token e.1)
                  (invalidate_open p token opened ne)
                ∙ validate_absent p later token (p.delete_session opened token).1
                    (laws.deleted opened token d)),
      )
