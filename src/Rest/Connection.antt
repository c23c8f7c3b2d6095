-- ===== src/Rest/Connection.antt =====
-- src/server/rest_api.cpp: the acceptor of `RestApiServer` and one `HttpSession`. Boost.Beast reads a
-- request and writes a response; `need_eof` is what it says of a response.
use cli_chat.Base.{
  ℕ, ◌+◌, Bool, true, false, not, List, [], ◌∷◌, ◌++◌, Option, none, some, if◌then◌else◌,
}
use cli_chat.Server.State.{Platform, M, ◌>>=◌, pure}
use cli_chat.Server.Session.{Env}
use cli_chat.Rest.{Boost, Request, Response}
use cli_chat.Rest.Handlers.{handle_request}

-- The acceptor itself is Boost's: `accepting` says that an `async_accept` is pending; `sessions` counts the sessions that were started.
pub record RestApiServer : Type 0 where
  pub running : Bool
  pub accepting : Bool
  pub sessions : ℕ

-- RestApiServer::do_accept
unfoldable pub do_accept : RestApiServer → RestApiServer
do_accept r = if not r.running then r else record r { accepting = true }

-- RestApiServer::start; `listens` says that no step of opening the acceptor throws.
unfoldable pub start : Bool → RestApiServer → Bool × RestApiServer
unfolding do_accept
start listens r = if listens then (true, do_accept (record r { running = true })) else (false, r)

-- RestApiServer::stop
unfoldable pub stop : RestApiServer → RestApiServer
stop r = if not r.running then r else record r { running = false }

-- RestApiServer::on_accept
unfoldable pub on_accept : Bool → RestApiServer → RestApiServer
unfolding do_accept
on_accept failed r =
    let waiting = record r { accepting = false } in
    let served = if failed then waiting else record waiting { sessions = r.sessions + 1 } in
    if r.running then do_accept served else served

-- `reading` says that an `async_read` is pending, `written` lists the responses given to `async_write`.
pub record HttpSession : Type 0 where
  pub reading : Bool
  pub written : List Response

-- HttpSession::run and do_read
unfoldable pub do_read : HttpSession → HttpSession
do_read s = record s { reading = true }

-- HttpSession::do_write
unfoldable pub do_write : Response → HttpSession → HttpSession
do_write res s = record s { written = s.written ++ res ∷ [] }

-- HttpSession::on_read, on a request or on an error.
unfoldable pub on_read :
    (b : Boost) (p : Platform) → Env → Option Request → HttpSession → M p.Db HttpSession
unfolding do_write
on_read b p env none s = pure (record s { reading = false })
on_read b p env (some req) s = do
  res ← handle_request b p env req
  pure (do_write res (record s { reading = false }))

-- HttpSession::on_write
unfoldable pub on_write : Bool → Bool → HttpSession → HttpSession
unfolding do_read
on_write failed close s = if failed then s else if close then s else do_read s
