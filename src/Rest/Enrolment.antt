-- ===== src/Rest/Enrolment.antt =====
-- src/server/rest_api.cpp: an account that is created over HTTP, and the logins with its password over
-- HTTP and over the protocol of the server.
use cli_chat.Base.{
  ◌≡◌, refl, ◌∙◌, ap, sym, inl, inr, ℕ, Bool-cases, true, false, [], ◌∷◌, Option, some, none,
  is_some, Option-cases, arith, ◌==◌, if◌then◌else◌,
}
use cli_chat.Text.{Bytes, codes, equal}
use cli_chat.Text.Laws.{Lacks}
use cli_chat.Crypto.{hash_password, generate_session_token}
use cli_chat.Crypto.Password.{IsBytes}
use cli_chat.Database.{User}
use cli_chat.Database.Sqlite.{c_str}
use cli_chat.Database.Users.{UserLaws}
use cli_chat.Server.State.{Platform, World, Outcome, returned, blocked, threw, world, ◌>>=◌, pure}
use cli_chat.Server.ChatServer.{map_find}
use cli_chat.Server.Session.{Env, open_session, handle_login}
use cli_chat.Server.Mutex.{bind-returned}
use cli_chat.Server.Login.{login-open}
use cli_chat.Server.Enrolment.{Account, Account-IsReady}
use cli_chat.Rest.{
  Boost, post, Request, Response, finish, credentials, email_of, succeeded, failed, server_error,
  bad_request, create_response, string_at, invalid,
}
use cli_chat.Rest.Handlers.{create_account, handle_register, route, handle_request}
use cli_chat.Rest.Login.{new_row, after_login, granted, handle_request-granted}

c_str-Lacks_nul : (s : Bytes) → Lacks 0 (c_str s)
unfolding c_str
c_str-Lacks_nul [] = refl
c_str-Lacks_nul (c ∷ s) = ground (arith, c_str-Lacks_nul s)

is_absent : {A : Type 0} {a : A} → none ≡ some a → ⊥
is_absent h = cc

-- The fields that are read end before a NUL.
credentials-Lacks_nul :
    (b : Boost) (body : Bytes) (json : b.Json) (u pw : Bytes)
    → credentials b body ≡ some (json, u, pw)
    → Lacks 0 u
unfolding credentials
credentials-Lacks_nul b body json u pw h = elim (Option-cases (b.parse body)) [
  | inl e ↦ absurd (is_absent (rw (credentials, e) at h))
  | inr (j, e) ↦ elim (Option-cases (string_at b j (codes "username"))) [
    | inl n ↦ absurd (is_absent (rw (credentials, e, n) at h))
    | inr (name, n) ↦ elim (Option-cases (string_at b j (codes "password"))) [
      | inl q ↦ absurd (is_absent (rw (credentials, e, n, q) at h))
      | inr (word, q) ↦
          let read = rw (credentials, e, n, q) at h in
          rw
            (ap {B = Bytes}
              (λ (x : Option (b.Json × Bytes × Bytes)). elim x [ none ↦ u | some (_, n, _) ↦ n ])
              (sym read))
            (c_str-Lacks_nul name)
    ]
  ]
]

different : {n : ℕ} → (if n == 201 then false else true) ≡ true → n ≡ 201 → ⊥
different h e = ground arith

-- The status of the response that a handler returned.
abbrev status_of : {Db : Type 0} → Outcome Db Response → ℕ
status_of (returned res w) = res.status
status_of (blocked w) = 0
status_of (threw w) = 0

-- Every way in which `handle_register` ends: with the account stored, or with another status than 201.
module _ (b : Boost) (p : Platform) (env : Env) (req : Request) (w : World p.Db) where
  data RegisterEnd (u pw : Bytes) (o : Outcome p.Db Response) : Type 0 where
    stored :
        (email : Bytes) (res : Response) (v : World p.Db)
        → o ≡ returned res v
        → Account p env w.database v.database u pw email
        → RegisterEnd u pw o
    turned_down :
        (res : Response) (v : World p.Db)
        → o ≡ returned res v
        → ¬ (res.status ≡ 201)
        → RegisterEnd u pw o

  create_account-end : (u pw email : Bytes) → RegisterEnd u pw (create_account b p env u pw email w)
  unfolding create_account failed server_error bad_request create_response
  create_account-end u pw email = elim (Option-cases (p.get_user_by_username w.database u)) [
    | inr (user, e) ↦
        turned_down (failed b 409 (codes "Username already taken")) w (rw (create_account, e) refl)
          (λ h. different refl h)
    | inl e ↦ elim (Option-cases (hash_password p.sha256 env.rand pw)) [
      | inl n ↦ turned_down (invalid b) w (rw (create_account, e, n) refl) (λ h. different refl h)
      | inr (hash, n) ↦
          let after = record w { database = (p.create_user w.database env.now u hash email).1 } in
          elim (Bool-cases (p.create_user w.database env.now u hash email).0) [
            | inl c ↦
                stored email
                  (succeeded b 201
                    ((codes "message", b.string (codes "User created successfully")) ∷ []))
                  after (rw (create_account, e, n, c) refl)
                  (record { hash = hash; hashed = n; stores = c; database_is = refl })
            | inr c ↦
                turned_down (server_error b (codes "Failed to create user")) after
                  (rw (create_account, e, n, c) refl) (λ h. different refl h)
          ]
    ]
  ]

  handle_register-end :
      (json : b.Json) (u pw : Bytes)
      → credentials b req.body ≡ some (json, u, pw)
      → RegisterEnd u pw (handle_register b p env req w)
  unfolding handle_register bad_request failed create_response
  handle_register-end json u pw read = elim (Option-cases (email_of b json)) [
    | inl e ↦ turned_down (invalid b) w (rw (handle_register, read, e) refl) (λ h. different refl h)
    | inr (email, e) ↦ rw (handle_register, read, e) (create_account-end u pw email)
  ]

  handle_request-handle_register :
      req.method ≡ post
      → req.target ≡ codes "/api/register"
      → handle_request b p env req w
        ≡ (handle_register b p env req >>= λ res. pure (finish req res)) w
  unfolding handle_request route equal
  handle_request-handle_register m e = rw (m, e) refl

  -- A request that was answered with the status 201 left an account.
  answered-Account :
      (json : b.Json) (u pw : Bytes) (res : Response) (v : World p.Db)
      → req.method ≡ post
      → req.target ≡ codes "/api/register"
      → credentials b req.body ≡ some (json, u, pw)
      → handle_request b p env req w ≡ returned res v
      → res.status ≡ 201
      → (email : Bytes) × Account p env w.database v.database u pw email
  unfolding finish
  answered-Account json u pw res v m t read done ok =
      let ended = handle_request-handle_register m t in
      elim (handle_register-end json u pw read) [
        | stored email res' v' e a ↦
            let here = sym done ∙ ended ∙ bind-returned (handle_register b p env req) _ w e in
            (email, rw (ap (λ o. (world o).database) here) a)
        | turned_down res' v' e other ↦
            let here = sym done ∙ ended ∙ bind-returned (handle_register b p env req) _ w e in
            absurd (other (sym (ap status_of here) ∙ ok))
      ]

module _ (b : Boost) (p : Platform) (laws : UserLaws p.api)
    (bytes : (m : Bytes) → IsBytes (p.sha256 m)) where
  -- Suppose that the database keeps accounts by the laws of `UserLaws`, that the digest consists of
  -- bytes, that a POST of /api/register was answered with the status 201, and that in the world which
  -- it left the mutex is free, the name is not in the map of sessions, and a row with the token that is
  -- drawn next can be stored for the account of the name. Then a POST of /api/login in that world whose
  -- body has the same name and password is answered with the token, for the account that was stored,
  -- and a login with the two over the server's own protocol passes every test and goes on to open
  -- its session.
  pub registered_over_http_logs_in :
      (env : Env) (req : Request) (w v : World p.Db) (json json' : b.Json) (u pw : Bytes)
      (res : Response)
      → req.method ≡ post
      → req.target ≡ codes "/api/register"
      → credentials b req.body ≡ some (json, u, pw)
      → handle_request b p env req w ≡ returned res v
      → res.status ≡ 201
      → (later : Env) (again : Request) (token : Bytes) → again.method ≡ post
      → again.target ≡ codes "/api/login"
      → credentials b again.body ≡ some (json', u, pw)
      → generate_session_token later.rand ≡ some token
      → ((user : User)
          → p.get_user_by_username v.database u ≡ some user
          → (p.create_session v.database (new_row later.now token user)).0 ≡ true)
      → (id : ℕ) → v.sessions_mutex ≡ false
      → is_some (map_find u v.sessions_by_username) ≡ false
      → (user : User) × (user.username ≡ u)
        × (handle_request b p later again v
            ≡ returned
                (finish again (granted b p later again v token user))
                (after_login b p later again v token user))
        × (handle_login p later id u pw v ≡ open_session p later id u user v)
  registered_over_http_logs_in env req w v json json' u pw res m t read done ok later again token m'
        t' read' drawn stores id free offline =
      let (email, a) = answered-Account b p env req w json u pw res v m t read done ok in
      let (user, r) =
        Account-IsReady p laws bytes env w.database v.database u pw email a
          (credentials-Lacks_nul b req.body json u pw read) in
      (
        user,
        r.name_is,
        handle_request-granted b p later again v json' u pw user token (record {
          is_post = m';
          to_login = t';
          read = read';
          known = r.known;
          verified = r.verified;
          drawn = drawn;
          created = stores user r.known;
        }),
        login-open p v later id u pw user r.known r.verified r.active free offline,
      )
