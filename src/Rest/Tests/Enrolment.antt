-- ===== src/Rest/Tests/Enrolment.antt =====
-- `joe` registers over HTTP, and logs in over HTTP and over the protocol of the server.
use cli_chat.Base.{◌≡◌, refl, List, [], ◌∷◌, some, none, true}
use cli_chat.Text.{Bytes, codes, equal}
use cli_chat.Crypto.{hex, hash_password}
use cli_chat.Crypto.Tests.{digest-IsBytes}
use cli_chat.Database.{User}
use cli_chat.Database.Sqlite.{c_str}
use cli_chat.Server.State.{World, returned, world}
use cli_chat.Server.ChatServer.{map_find}
use cli_chat.Server.Session.{open_session, handle_login}
use cli_chat.Server.Tests.{env, start, zeros, drawn}
use cli_chat.Server.Tests.Enrolment.{server, accounts_kept}
use cli_chat.Rest.{
  Request, Response, finish, credentials, email_of, string_at, succeeded, create_response, post,
}
use cli_chat.Rest.Handlers.{handle_request, handle_register, create_account, route}
use cli_chat.Rest.Login.{after_login, granted}
use cli_chat.Rest.Enrolment.{registered_over_http_logs_in}
use cli_chat.Rest.Tests.{boost}

abbrev posted : Bytes → Request
posted target = record {
  method = post;
  target = target;
  authorization = none;
  body = codes "joe/sunset";
  version = 11;
  keep_alive = true;
}

abbrev to_register : Request
to_register = posted (codes "/api/register")

abbrev to_login : Request
to_login = posted (codes "/api/login")

abbrev created : Response
created =
    finish to_register
      (succeeded boost 201 ((codes "message", codes "User created successfully") ∷ []))

abbrev later : World (List User)
later = world (handle_request boost server env to_register start)

fields_read :
    credentials boost (codes "joe/sunset") ≡ some (codes "joe/sunset", codes "joe", codes "sunset")
unfolding credentials string_at c_str equal
fields_read = refl

joe_posts : handle_request boost server env to_register start ≡ returned created later
unfolding handle_request route handle_register create_account credentials string_at email_of c_str
    equal hash_password
joe_posts = refl

registered_over_http_logs_in_example :
    (user : User) × (user.username ≡ codes "joe")
    × (handle_request boost server env to_login later
        ≡ returned
            (finish to_login (granted boost server env to_login later (hex (zeros 32)) user))
            (after_login boost server env to_login later (hex (zeros 32)) user))
    × (handle_login server env 3 (codes "joe") (codes "sunset") later
        ≡ open_session server env 3 (codes "joe") user later)
unfolding handle_request route handle_register create_account credentials string_at email_of c_str
    equal hash_password map_find finish succeeded create_response
registered_over_http_logs_in_example =
    registered_over_http_logs_in boost server accounts_kept digest-IsBytes env to_register start
      later (codes "joe/sunset") (codes "joe/sunset") (codes "joe") (codes "sunset") created refl
      refl fields_read joe_posts refl env to_login (hex (zeros 32)) refl refl fields_read drawn
      (λ user known. refl) 3 refl refl
