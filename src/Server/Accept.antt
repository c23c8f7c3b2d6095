-- ===== src/Server/Accept.antt =====
-- src/server/server.cpp and session.cpp: from the start of the server to the handshake of a
-- connection. `next` is the number of the next object, `pending` the session that `async_accept` waits
-- with, and `handshakes` the sessions in `async_handshake`.
use cli_chat.Base.{ℕ, ◌+◌, Bool, true, not, ◌&&◌, List, ◌∷◌, Option, none, some, if◌then◌else◌}
use cli_chat.Server.State.{Platform, World, world, new_session, update}
use cli_chat.Server.ChatServer.{stop}

pub record Listener (Db : Type 0) : Type 0 where
  pub server : World Db
  pub next : ℕ
  pub pending : Option ℕ
  pub handshakes : List ℕ

module _ {Db : Type 0} where
  -- ChatServer::startAccept
  unfoldable pub start_accept : Listener Db → Listener Db
  unfolding update
  start_accept l = if not l.server.running then l else record l {
    server = update l.next (λ _. new_session) l.server;
    next = l.next + 1;
    pending = some l.next;
  }

  -- ChatServer::start
  unfoldable pub start : Listener Db → Listener Db
  unfolding start_accept
  start l = start_accept (record l { server = record l.server { running = true } })

  -- Session::start
  unfoldable pub start_session : ℕ → Listener Db → Listener Db
  start_session id l = record l { handshakes = id ∷ l.handshakes }

  -- ChatServer::handleAccept
  unfoldable pub handle_accept : ℕ → Bool → Listener Db → Listener Db
  unfolding start_accept start_session
  handle_accept id error l =
      let waiting = record l { pending = none } in
      if not error && l.server.running
      then start_accept (start_session id waiting)
      else if l.server.running
      then start_accept waiting
      else waiting

-- ChatServer::handleStop
unfoldable pub handle_stop : (p : Platform) → Bool → World p.Db → World p.Db
unfolding stop
handle_stop p error w = if error then w else world (stop p w)
