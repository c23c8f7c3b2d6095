-- ===== src/Rest/Tests.antt =====
-- A login over HTTP of an account that is disabled, and a request with its token. JSON is a stand-in
-- here: a body is `name/password`, and an object is written as its values.
mod Enrolment
use cli_chat.Base.{
  ◌≡◌, refl, ◌⊎◌, ℕ, true, false, [], ◌∷◌, ◌++◌, Option, none, some, ◌==◌, if◌then◌else◌, List,
}
use cli_chat.Text.{Bytes, codes, equal, find, substr, substr_from}
use cli_chat.Crypto.{hex, verify_password, generate_session_token}
use cli_chat.Database.{User, SessionRow, DatabaseApi}
use cli_chat.Database.Sqlite.{c_str}
use cli_chat.Database.Sessions.{SessionLaws}
use cli_chat.Server.State.{Platform, World, new_session, returned, blocked}
use cli_chat.Server.Session.{Env}
use cli_chat.Rest.{
  Boost, get, post, Request, extract_token, finish, credentials, string_at, unauthorized,
}
use cli_chat.Rest.Handlers.{handle_request}
use cli_chat.Rest.Authorization.{
  IsLive, users, messages, waits, answer, forget, handle_request-guarded,
}
use cli_chat.Rest.Login.{IsGranted, with_token, after_login, granted, login_then_messages}
use cli_chat.Auth.Tests.{annika, one_account, laws, rand, token, token_filled}

abbrev cut : Bytes → Bytes × Bytes
cut [] = ([], [])
cut (c ∷ s) = let rest = cut s in if c == b'/' then ([], s) else (c ∷ rest.0, rest.1)

abbrev values : List (Bytes × Bytes) → Bytes
values [] = []
values ((k, v) ∷ fields) = v ++ values fields

abbrev pub boost : Boost
boost = record {
  Json = Bytes;
  parse = λ body. some body;
  at = λ json key. some (if equal key (codes "username") then (cut json).0 else (cut json).1);
  if_contains = λ json key. false;
  as_string = λ json. some json;
  string = λ text. text;
  number = λ n. [];
  boolean = λ flag. [];
  array = λ items. [];
  object = values;
  serialize = λ json. json;
}

abbrev disabled : User
disabled = record annika { is_active = false }

abbrev api : DatabaseApi
api = record one_account { get_user_by_username = λ db name. some disabled }

abbrev platform : Platform
platform = record { api = api; sha256 = λ m. m }

api-SessionLaws : SessionLaws api (λ t. t)
api-SessionLaws = record {
  stored = laws.stored;
  login_kept = laws.login_kept;
  deleted = laws.deleted;
}

abbrev pub world : World (Option SessionRow)
world = record {
  database = none;
  objects = λ j. new_session;
  sessions_by_username = [];
  all_sessions = [];
  sessions_mutex = false;
  running = true;
}

abbrev at_time : ℕ → Env
at_time now = record { now = now; rand = rand }

abbrev login_request : Request
login_request = record {
  method = post;
  target = codes "/api/login";
  authorization = none;
  body = codes "annika/sunset";
  version = 11;
  keep_alive = true;
}

accepted :
    IsGranted boost platform
      (at_time 7)
      login_request
      world
      (codes "annika/sunset")
      (codes "annika")
      (codes "sunset")
      disabled
      token
unfolding credentials string_at equal c_str verify_password hex find substr substr_from
    generate_session_token
accepted = record {
  is_post = refl;
  to_login = refl;
  read = refl;
  known = refl;
  verified = refl;
  drawn = refl;
  created = refl;
}

login_then_messages_example :
    let v = after_login boost platform (at_time 7) login_request world token disabled in
    (handle_request boost platform (at_time 7) login_request world
      ≡ returned
          (finish login_request
            (granted boost platform (at_time 7) login_request world token disabled))
          v)
    × (handle_request boost platform (at_time 9) (with_token token) v
        ≡ returned (finish (with_token token) (answer boost platform messages v)) v)
login_then_messages_example =
    login_then_messages boost platform (at_time 7) login_request world (codes "annika/sunset")
      (codes "annika") (codes "sunset") disabled token accepted (λ t. t) api-SessionLaws refl
      token_filled (at_time 9) refl

-- Without a token.
abbrev plain : Request
plain = record login_request { method = get; target = codes "/api/users" }

handle_request-guarded_example :
    ((row : SessionRow)
      → IsLive platform none 7 (extract_token plain) row
      → ((waits users world ≡ true)
          × (handle_request boost platform (at_time 7) plain world ≡ blocked world))
        ⊎ ((waits users world ≡ false)
            × (handle_request boost platform (at_time 7) plain world
                ≡ returned (finish plain (answer boost platform users world)) world)))
    × (((row : SessionRow) → ¬ IsLive platform none 7 (extract_token plain) row)
        → (v : World (Option SessionRow)) × (handle_request boost platform (at_time 7) plain world
            ≡ returned (finish plain (unauthorized boost)) v)
          × ((v ≡ world) ⊎ (v ≡ forget platform (extract_token plain) world)))
handle_request-guarded_example =
    handle_request-guarded boost platform (at_time 7) plain world users refl refl
