-- ===== src/Rest/Login.antt =====
-- A login over HTTP and the requests with its token.
use cli_chat.Base.{
  ◌≡◌, refl, ◌∙◌, ap, inl, inr, ℕ, ◌+◌, true, false, [], ◌∷◌, ◌++◌, some, ltb, is_empty,
}
use cli_chat.Text.{Bytes, codes, equal, starts_with}
use cli_chat.Text.Laws.{Lacks}
use cli_chat.Crypto.{verify_password, generate_session_token}
use cli_chat.Database.{User, SessionRow, hours}
use cli_chat.Database.Sessions.{SessionLaws}
use cli_chat.Auth.Lifecycle.{token-Lacks}
use cli_chat.Server.State.{Platform, World, returned, ◌>>=◌, pure}
use cli_chat.Server.Session.{Env}
use cli_chat.Server.Mutex.{bind-returned}
use cli_chat.Rest.{
  Boost, get, post, Request, Response, extract_token, finish, credentials, succeeded,
}
use cli_chat.Rest.Handlers.{grant, handle_login, route, handle_request}
use cli_chat.Rest.Authorization.{messages, answer, handle_request-guarded}

abbrev pub new_row : ℕ → Bytes → User → SessionRow
new_row now token user = record {
  token = token;
  user_id = user.id;
  username = user.username;
  created_at = now;
  expires_at = now + hours 24;
  is_active = true;
}

abbrev pub with_token : Bytes → Request
with_token token = record {
  method = get;
  target = codes "/api/messages";
  authorization = some (codes "Bearer " ++ token);
  body = [];
  version = 11;
  keep_alive = true;
}

with_token-token : (token : Bytes) → extract_token (with_token token) ≡ token
unfolding extract_token starts_with
with_token-token token = refl

module _ (b : Boost) (p : Platform) (env : Env) (req : Request) (w : World p.Db) where
  -- What a login over HTTP needs. Whether the account is active is not asked.
  pub record IsGranted (json : b.Json) (username password : Bytes) (user : User) (token : Bytes)
      : Type 0 where
    pub is_post : req.method ≡ post
    pub to_login : req.target ≡ codes "/api/login"
    pub read : credentials b req.body ≡ some (json, username, password)
    pub known : p.get_user_by_username w.database username ≡ some user
    pub verified : verify_password p.sha256 password user.password_hash ≡ true
    pub drawn : generate_session_token env.rand ≡ some token
    pub created : (p.create_session w.database (new_row env.now token user)).0 ≡ true

  abbrev pub after_login : Bytes → User → World p.Db
  after_login token user = record w {
    database = (p.create_session w.database (new_row env.now token user)).1;
  }

  abbrev pub granted : Bytes → User → Response
  granted token user = succeeded b 200 (
      (codes "token", b.string token)
      ∷ (codes "username", b.string user.username)
      ∷ (codes "user_id", b.number user.id)
      ∷ [])

  handle_login-granted :
      (json : b.Json) (username password : Bytes) (user : User) (token : Bytes)
      → IsGranted json username password user token
      → handle_login b p env req w ≡ returned (granted token user) (after_login token user)
  unfolding handle_login grant
  handle_login-granted json username password user token g =
      rw (handle_login, g.read, g.known, g.verified, g.drawn, grant, g.created) refl

  handle_request-handle_login :
      req.method ≡ post
      → req.target ≡ codes "/api/login"
      → handle_request b p env req w ≡ (handle_login b p env req >>= λ res. pure (finish req res)) w
  unfolding handle_request route equal
  handle_request-handle_login m e = rw (m, e) refl

  pub handle_request-granted :
      (json : b.Json) (username password : Bytes) (user : User) (token : Bytes)
      → IsGranted json username password user token
      → handle_request b p env req w
        ≡ returned (finish req (granted token user)) (after_login token user)
  handle_request-granted json username password user token g =
      handle_request-handle_login g.is_post g.to_login
      ∙ bind-returned (handle_login b p env req) _ w
          (handle_login-granted json username password user token g)

not_waiting : false ≡ true → ⊥
not_waiting h = cc

-- Suppose that the database keeps sessions as the named laws say, that the name of an account holds no
-- NUL, and that the token which is drawn is not empty. Then a POST of /api/login whose body has the
-- name of the account and its password, and whose session is stored, is answered with the token, and only the session is
-- added; and a GET of /api/messages with the token is answered with the last 50 messages until the
-- stored end of the 24 hours. The account may be disabled.
pub login_then_messages :
    (b : Boost) (p : Platform) (env : Env) (req : Request) (w : World p.Db) (json : b.Json)
    (username password : Bytes) (user : User) (token : Bytes)
    → IsGranted b p env req w json username password user token
    → (reread : ℕ → ℕ) → SessionLaws p.api reread
    → Lacks 0 user.username
    → is_empty token ≡ false
    → (later : Env) → ltb (reread (env.now + hours 24)) later.now ≡ false
    → let v = after_login b p env req w token user in
      (handle_request b p env req w ≡ returned (finish req (granted b p env req w token user)) v)
      × (handle_request b p later (with_token token) v
          ≡ returned (finish (with_token token) (answer b p messages v)) v)
login_then_messages b p env req w json username password user token g reread laws named ne later
      in_time =
    let v = after_login b p env req w token user in
    let row = new_row env.now token user in
    let found =
      laws.stored w.database row g.created refl (token-Lacks env.rand token g.drawn) named in
    let (answered, _) = handle_request-guarded b p later (with_token token) v messages refl refl in
    (
      handle_request-granted b p env req w json username password user token g,
      elim (answered
          (record row { created_at = reread env.now; expires_at = reread (env.now + hours 24) })
          (record {
            present = ap is_empty (with_token-token token) ∙ ne;
            found = ap (p.get_session v.database) (with_token-token token) ∙ found;
            active = refl;
            in_time = in_time;
          })) [ inl (h, _) ↦ absurd (not_waiting h) | inr (_, k) ↦ k ],
    )
