-- ===== src/Server/Tests/Robust.antt =====
-- A line that logs in, and what becomes of the other sessions.
use cli_chat.Base.{◌≡◌, ◌≢◌, refl, false, none, some}
use cli_chat.Text.{Bytes, codes}
use cli_chat.Server.State.{has_thrown, world}
use cli_chat.Server.ChatServer.{stop}
use cli_chat.Server.Session.{handle_handshake}
use cli_chat.Server.Dispatch.{handle_read, handle_write}
use cli_chat.Server.Identity.{SameIdentity}
use cli_chat.Server.Robust.{handlers_never_throw, handle_read-others}
use cli_chat.Server.Tests.{platform, env, start, zeros}

some≢none : (bytes : Bytes) → some bytes ≢ none
some≢none bytes e = cc

handlers_never_throw_example :
    (has_thrown (handle_read platform env 0 (some (codes "login:ann:pw")) start) ≡ false)
    × (has_thrown (handle_write platform 0 false start) ≡ false)
    × (has_thrown (handle_handshake platform 0 false start) ≡ false)
    × (has_thrown (stop platform start) ≡ false)
handlers_never_throw_example =
    handlers_never_throw platform 0 start env (some (codes "login:ann:pw")) false
      (λ n. some≢none (zeros n))

handle_read-others_example :
    SameIdentity
      ((world (handle_read platform env 0 (some (codes "login:ann:pw")) start)).objects 1)
      (start.objects 1)
handle_read-others_example =
    handle_read-others platform 0 start env (some (codes "login:ann:pw")) 1 refl
