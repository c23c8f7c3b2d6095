-- ===== src/Rest.antt =====
-- src/server/rest_api.hpp and rest_api.cpp: `RestApiServer`. Boost.JSON and the HTTP of Boost.Beast are
-- outside of the repository: `Boost` has the operations on JSON that the source calls, and a request
-- or a response the fields that it reads or sets.
pub mod Handlers
pub mod Connection
pub mod Authorization
pub mod Login
pub mod Enrolment
mod Tests
use cli_chat.Base.{
  ◌+◌, ℕ, ◌/◌, Bool, true, false, not, ◌&&◌, List, [], ◌∷◌, ◌++◌, map, Option, none, some, ltb,
  is_empty, length, drop, if◌then◌else◌,
}
use cli_chat.Text.{Bytes, codes, equal, starts_with}
use cli_chat.Crypto.{hash_password, verify_password, generate_session_token}
use cli_chat.Database.{User, Message, SessionRow, hours}
use cli_chat.Database.Sqlite.{c_str}
use cli_chat.Server.State.{Platform, M, ◌>>=◌, ◌>>◌, pure, gets, modify}
use cli_chat.Server.ChatServer.{get_online_users}
use cli_chat.Server.Session.{Env}

-- A `none` is an exception of `parse`, `at` or `as_string`.
pub record Boost : Type 1 where
  pub Json : Type 0
  pub parse : Bytes → Option Json
  pub at : Json → Bytes → Option Json
  pub if_contains : Json → Bytes → Bool
  pub as_string : Json → Option Bytes
  pub string : Bytes → Json
  pub number : ℕ → Json
  pub boolean : Bool → Json
  pub array : List Json → Json
  pub object : List (Bytes × Json) → Json
  pub serialize : Json → Bytes

pub data Verb : Type 0 where
  get post options other : Verb

pub record Request : Type 0 where
  pub method : Verb
  pub target : Bytes
  pub authorization : Option Bytes
  pub body : Bytes
  pub version : ℕ
  pub keep_alive : Bool

-- `cors` stands for the three fields that `add_cors` sets.
pub record Response : Type 0 where
  pub status : ℕ
  pub server : Bytes
  pub content_type : Option Bytes
  pub body : Bytes
  pub version : ℕ
  pub keep_alive : Bool
  pub cors : Bool

-- RestApiServer::create_response
unfoldable pub create_response : ℕ → Bytes → Response
create_response status body = record {
  status = status;
  server = codes "CLI-Chat REST API";
  content_type = some (codes "application/json");
  body = body;
  version = 11;
  keep_alive = true;
  cors = false;
}

-- RestApiServer::extract_token
unfoldable pub extract_token : Request → Bytes
extract_token req = elim req.authorization [
  | none ↦ []
  | some auth ↦ if starts_with auth (codes "Bearer ") then drop 7 auth else []
]

-- The end of `handle_request` on a response of a handler.
unfoldable pub finish : Request → Response → Response
finish req res = record res { cors = true; version = req.version; keep_alive = req.keep_alive }

-- `handle_request` on OPTIONS.
unfoldable pub preflight : Request → Response
preflight req = record {
  status = 200;
  server = codes "CLI-Chat REST API";
  content_type = none;
  body = [];
  version = req.version;
  keep_alive = req.keep_alive;
  cors = true;
}

module _ (b : Boost) where
  open b use {
    Json, parse, at, if_contains, as_string, string, number, boolean, array, object, serialize,
  }

  -- body.at(key).as_string()
  unfoldable pub string_at : Json → Bytes → Option Bytes
  string_at body key = elim (at body key) [ none ↦ none | some value ↦ as_string value ]

  unfoldable pub failed : ℕ → Bytes → Response
  unfolding create_response
  failed status error =
      create_response status
        (serialize (object ((codes "success", boolean false) ∷ (codes "error", string error) ∷ [])))

  -- RestApiServer::bad_request, not_found, server_error, unauthorized
  unfoldable pub bad_request : Bytes → Response
  unfolding failed
  bad_request why = failed 400 why

  unfoldable pub not_found : Response
  unfolding failed
  not_found = failed 404 (codes "Not found")

  unfoldable pub server_error : Bytes → Response
  unfolding failed
  server_error what = failed 500 what

  unfoldable pub unauthorized : Response
  unfolding failed
  unauthorized = failed 401 (codes "Unauthorized")

  abbrev pub invalid : Response
  invalid = bad_request (codes "Invalid JSON or missing fields")

  -- The two fields that `handle_login` and `handle_register` read first, up to a NUL.
  unfoldable pub credentials : Bytes → Option (Json × Bytes × Bytes)
  unfolding string_at c_str
  credentials body = elim (parse body) [
    | none ↦ none
    | some json ↦ elim (string_at json (codes "username")) [
      | none ↦ none
      | some username ↦ elim (string_at json (codes "password")) [
        | none ↦ none
        | some password ↦ some (json, c_str username, c_str password)
      ]
    ]
  ]

  -- The optional field `email`.
  unfoldable pub email_of : Json → Option Bytes
  unfolding string_at c_str
  email_of json =
      if not (if_contains json (codes "email"))
      then some []
      else elim (string_at json (codes "email")) [ none ↦ none | some email ↦ some (c_str email) ]

  -- One message of `handle_messages`; the time is in seconds.
  unfoldable pub message_json : Message → Json
  message_json msg =
      let fields =
        (codes "id", number msg.id)
        ∷ (codes "username", string msg.username)
        ∷ (codes "content", string msg.content)
        ∷ (codes "timestamp", number (msg.timestamp / 1_000_000_000))
        ∷ (codes "is_private", boolean msg.is_private)
        ∷ [] in
      object (
        if is_empty msg.recipient
        then fields
        else fields ++ (codes "recipient", string msg.recipient) ∷ [])

  unfoldable pub succeeded : ℕ → List (Bytes × Json) → Response
  unfolding create_response
  succeeded status fields =
      create_response status (serialize (object ((codes "success", boolean true) ∷ fields)))
