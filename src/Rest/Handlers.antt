-- ===== src/Rest/Handlers.antt =====
-- src/server/rest_api.cpp: the handlers of the routes and their choice. A `none` of a reader of the
-- body, or a failure of OpenSSL, is an exception that the handler answers with a bad request.
use cli_chat.Base.{
  ◌+◌, ℕ, true, not, [], ◌∷◌, map, Option, none, some, ltb, is_empty, length, if◌then◌else◌,
}
use cli_chat.Text.{Bytes, codes, equal}
use cli_chat.Crypto.{hash_password, verify_password, generate_session_token}
use cli_chat.Database.{User, SessionRow, hours}
use cli_chat.Server.State.{Platform, M, ◌>>=◌, ◌>>◌, pure, gets, modify}
use cli_chat.Server.ChatServer.{get_online_users}
use cli_chat.Server.Session.{Env}
use cli_chat.Rest.{
  Boost, get, post, options, other, Request, Response, extract_token, finish, preflight, not_found,
  server_error, failed, unauthorized, invalid, credentials, email_of, message_json, succeeded,
}

module _ (b : Boost) (p : Platform) where
  open b use {Json, string, number, array, object}
  open p use {
    Db, sha256, get_user_by_username, create_user, create_session, get_session, delete_session,
    get_recent_messages, get_user_count, get_message_count,
  }

  -- RestApiServer::validate_session, with the name that it hands out.
  unfoldable pub validate_session : ℕ → Bytes → M Db (Option Bytes)
  validate_session now token = if is_empty token then pure none else (do
    found ← gets (λ w. get_session w.database token)
    elim found [
      | none ↦ pure none
      | some session ↦
          if not session.is_active
          then pure none
          else if ltb session.expires_at now
          then (do
            modify (λ w. record w { database = (delete_session w.database token).1 })
            pure none)
          else pure (some session.username)
    ])

  -- `handle_login` from the token on.
  unfoldable pub grant : ℕ → Bytes → User → M Db Response
  grant now token user = do
    let row : SessionRow = record {
      token = token;
      user_id = user.id;
      username = user.username;
      created_at = now;
      expires_at = now + hours 24;
      is_active = true;
    }
    created ← gets (λ w. (create_session w.database row).0)
    modify (λ w. record w { database = (create_session w.database row).1 })
    if not created
        then pure (server_error b (codes "Failed to create session"))
        else pure (
            succeeded b 200 (
              (codes "token", string token)
              ∷ (codes "username", string user.username)
              ∷ (codes "user_id", number user.id)
              ∷ []))

  -- RestApiServer::handle_login
  unfoldable pub handle_login : Env → Request → M Db Response
  handle_login env req = elim (credentials b req.body) [
    | none ↦ pure (invalid b)
    | some (_, username, password) ↦ (do
      found ← gets (λ w. get_user_by_username w.database username)
      elim found [
        | none ↦ pure (unauthorized b)
        | some user ↦
            if not (verify_password sha256 password user.password_hash)
            then pure (unauthorized b)
            else elim (generate_session_token env.rand) [
              | none ↦ pure (invalid b)
              | some token ↦ grant env.now token user
            ]
      ])
  ]

  -- `handle_register` from the e-mail address on.
  unfoldable pub create_account : Env → Bytes → Bytes → Bytes → M Db Response
  create_account env username password email = do
    found ← gets (λ w. get_user_by_username w.database username)
    elim found [
      | some _ ↦ pure (failed b 409 (codes "Username already taken"))
      | none ↦ elim (hash_password sha256 env.rand password) [
        | none ↦ pure (invalid b)
        | some password_hash ↦ (do
          created ← gets (λ w. (create_user w.database env.now username password_hash email).0)
          modify (λ w. record w {
            database = (create_user w.database env.now username password_hash email).1;
          })
          if not created
              then pure (server_error b (codes "Failed to create user"))
              else pure (
                  succeeded b 201
                    ((codes "message", string (codes "User created successfully")) ∷ [])))
      ]
    ]

  -- RestApiServer::handle_register
  unfoldable pub handle_register : Env → Request → M Db Response
  handle_register env req = elim (credentials b req.body) [
    | none ↦ pure (invalid b)
    | some (json, username, password) ↦ elim (email_of b json) [
      | none ↦ pure (invalid b)
      | some email ↦ create_account env username password email
    ]
  ]

  -- RestApiServer::handle_messages
  unfoldable pub handle_messages : Env → Request → M Db Response
  handle_messages env req = do
    username ← validate_session env.now (extract_token req)
    elim username [
      | none ↦ pure (unauthorized b)
      | some _ ↦ (do
        messages ← gets (λ w. get_recent_messages w.database 50)
        pure (succeeded b 200 ((codes "messages", array (map (message_json b) messages)) ∷ [])))
    ]

  -- RestApiServer::handle_users
  unfoldable pub handle_users : Env → Request → M Db Response
  handle_users env req = do
    username ← validate_session env.now (extract_token req)
    elim username [
      | none ↦ pure (unauthorized b)
      | some _ ↦ (do
        online_users ← get_online_users p
        pure (succeeded b 200 ((codes "users", array (map string online_users)) ∷ [])))
    ]

  -- RestApiServer::handle_stats
  unfoldable pub handle_stats : Env → Request → M Db Response
  handle_stats env req = do
    username ← validate_session env.now (extract_token req)
    elim username [
      | none ↦ pure (unauthorized b)
      | some _ ↦ (do
        user_count ← gets (λ w. get_user_count w.database)
        message_count ← gets (λ w. get_message_count w.database)
        online_users ← get_online_users p
        pure (
            succeeded b 200 (
              (
                codes "stats",
                object (
                    (codes "total_users", number user_count)
                    ∷ (codes "total_messages", number message_count)
                    ∷ (codes "online_users", number (length online_users))
                    ∷ []),
              )
              ∷ [])))
    ]

  -- The choice of the handler in `handle_request`.
  unfoldable pub route : Env → Request → M Db Response
  route env req = elim req.method [
    | post ↦
        if equal req.target (codes "/api/login")
        then handle_login env req
        else if equal req.target (codes "/api/register")
        then handle_register env req
        else pure (not_found b)
    | get ↦
        if equal req.target (codes "/api/messages")
        then handle_messages env req
        else if equal req.target (codes "/api/users")
        then handle_users env req
        else if equal req.target (codes "/api/stats")
        then handle_stats env req
        else pure (not_found b)
    | options ↦ pure (not_found b)
    | other ↦ pure (not_found b)
  ]

  -- RestApiServer::HttpSession::handle_request, up to the write of the response.
  unfoldable pub handle_request : Env → Request → M Db Response
  handle_request env req = elim req.method [
    | options ↦ pure (preflight req)
    | get ↦ (do res ← route env req; pure (finish req res))
    | post ↦ (do res ← route env req; pure (finish req res))
    | other ↦ (do res ← route env req; pure (finish req res))
  ]
