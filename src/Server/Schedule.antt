-- ===== src/Server/Schedule.antt =====
-- The handlers in any order: the server from `ChatServer::start` on, as `io_context` runs it.
-- Waiting for the mutex leaves the world as it is then to the handlers that follow. An exception that
-- leaves a handler ends the program: nothing catches it in the threads of `main`.
use cli_chat.Base.{
  ◌≡◌, refl, ◌∙◌, ◌⊎◌, inl, inr, ℕ, Bool, true, false, ◌++◌, [], Option, none, some, is_empty, any,
  ◌==◌, Bool-cases, arith,
}
use cli_chat.Text.{Bytes, codes}
use cli_chat.Server.State.{
  has_thrown, Platform, World, returned, blocked, world, lock, unlock, update, send_message,
}
use cli_chat.Server.ChatServer.{
  set_erase, map_find, send_each, broadcast_message, send_private_message, get_online_users,
}
use cli_chat.Server.Session.{Env, handle_handshake}
use cli_chat.Server.Dispatch.{handle_read, handle_write}
use cli_chat.Server.Accept.{
  Listener, start_accept, start_session, handle_accept, handle_stop, start,
}
use cli_chat.Server.Mutex.{held_blocks_all, bind-returned, lock-free}
use cli_chat.Server.Unreached.{Unreached, empty_map}
use cli_chat.Server.Runs.{
  handle_read-Unreached, handle_write-Unreached, handle_handshake-Unreached, handle_stop-Unreached,
}

-- The completion of what was started: the accept that waits, a handshake, the read or the write of
-- a session, or a signal. Only the handler of a read may throw. A write that completes after one that
-- failed, and a second signal, are allowed here, although nothing waits for them any more.
pub data Step (p : Platform) (l : Listener p.Db) : Listener p.Db → Type 0 where
  accept : (id : ℕ) (error : Bool) → l.pending ≡ some id → Step p l (handle_accept id error l)
  handshake :
      (id : ℕ) (error : Bool)
      → any (λ j. j == id) l.handshakes ≡ true
      → Step p l (record l {
        server = world (handle_handshake p id error l.server);
        handshakes = set_erase id l.handshakes;
      })
  read :
      (env : Env) (id : ℕ) (line : Option Bytes)
      → (l.server.objects id).reading ≡ true
      → has_thrown
          (handle_read p env id line (update id (λ s. record s { reading = false }) l.server))
        ≡ false
      → Step p l (record l {
        server =
            world
              (handle_read p env id line (update id (λ s. record s { reading = false }) l.server));
      })
  write :
      (id : ℕ) (error : Bool)
      → is_empty (l.server.objects id).write_queue ≡ false
      → Step p l (record l { server = world (handle_write p id error l.server) })
  signal : (error : Bool) → Step p l (record l { server = handle_stop p error l.server })

pub data Reach (p : Platform) (l : Listener p.Db) : Listener p.Db → Type 0 where
  here : Reach p l l
  next : {m n : Listener p.Db} → Reach p l m → Step p m n → Reach p l n

-- Accepting creates an object, and leaves the mutex and the map alone.
same-Unreached :
    {Db : Type 0} (v w : World Db)
    → (v.sessions_mutex ≡ w.sessions_mutex) × (v.sessions_by_username ≡ w.sessions_by_username)
    → Unreached w
    → Unreached v
same-Unreached v w e (inl k) = inl (e.0 ∙ k)
same-Unreached v w e (inr k) = inr (e.1 ∙ k)

start_accept-Unreached :
    {Db : Type 0} (l : Listener Db) → Unreached l.server → Unreached (start_accept l).server
unfolding start_accept update
start_accept-Unreached l = same-Unreached (start_accept l).server l.server (ground arith)

handle_accept-Unreached :
    {Db : Type 0} (id : ℕ) (error : Bool) (l : Listener Db)
    → Unreached l.server
    → Unreached (handle_accept id error l).server
unfolding handle_accept start_session start_accept update
handle_accept-Unreached id error l =
    same-Unreached (handle_accept id error l).server l.server (ground arith)

Step-Unreached :
    (p : Platform) {l m : Listener p.Db} → Step p l m → Unreached l.server → Unreached m.server
unfolding update
Step-Unreached p {l} (accept id error e) k = handle_accept-Unreached id error l k
Step-Unreached p {l} (handshake id error e) k = handle_handshake-Unreached p id error l.server k
Step-Unreached p {l} (read env id line e _) k = handle_read-Unreached p env id line _ k
Step-Unreached p {l} (write id error e) k = handle_write-Unreached p id error l.server k
Step-Unreached p {l} (signal error) k = handle_stop-Unreached p error l.server k

Reach-Unreached :
    (p : Platform) {l m : Listener p.Db} → Reach p l m → Unreached l.server → Unreached m.server
Reach-Unreached p here k = k
Reach-Unreached p (next r s) k = Step-Unreached p s (Reach-Unreached p r k)

-- With the mutex free and nobody in the map.
module _ (p : Platform) (w : World p.Db) (free : w.sessions_mutex ≡ false)
    (nobody : w.sessions_by_username ≡ []) where
  broadcast_message-nobody :
      (message : Bytes) (exclude : Option ℕ) → broadcast_message p message exclude w ≡ returned tt w
  unfolding broadcast_message unlock send_each
  broadcast_message-nobody message exclude =
      bind-returned lock _ w (lock-free w free) ∙ rw (nobody, free) refl

  map_find-nobody : (name : Bytes) → map_find name w.sessions_by_username ≡ none
  unfolding map_find
  map_find-nobody name = rw nobody refl

  send_private_message-nobody :
      (recipient message : Bytes) (sender : ℕ)
      → send_private_message p recipient message sender w
        ≡ returned tt
            (send_message sender (codes "error:User " ++ (recipient ++ codes " is not online\n")) w)
  unfolding send_private_message unlock send_message update
  send_private_message-nobody recipient message sender =
      bind-returned lock _ w (lock-free w free) ∙ rw (map_find-nobody recipient, free) refl

  get_online_users-nobody : get_online_users p w ≡ returned [] w
  unfolding get_online_users unlock
  get_online_users-nobody = bind-returned lock _ w (lock-free w free) ∙ rw (nobody, free) refl

-- From a start with the mutex free and nobody in the map, whatever the clients send and in whatever
-- order reads, writes, handshakes, accepts and signals complete: a broadcast or a private message
-- at any later moment waits for ever for the mutex, or else the broadcast changes nothing, the
-- private message tells its sender that the recipient is not online, and the list of users is empty.
pub nobody_reached :
    (p : Platform) (l m : Listener p.Db)
    → l.server.sessions_mutex ≡ false
    → l.server.sessions_by_username ≡ []
    → Reach p (start l) m
    → (recipient message : Bytes) (sender : ℕ) (exclude : Option ℕ)
    → ((broadcast_message p message exclude m.server ≡ blocked m.server)
        × (send_private_message p recipient message sender m.server ≡ blocked m.server)
        × (get_online_users p m.server ≡ blocked m.server))
      ⊎ ((broadcast_message p message exclude m.server ≡ returned tt m.server)
          × (send_private_message p recipient message sender m.server
              ≡ returned tt (
                  send_message sender
                    (codes "error:User " ++ (recipient ++ codes " is not online\n"))
                    m.server))
          × (get_online_users p m.server ≡ returned [] m.server))
unfolding start
nobody_reached p l m free nobody r recipient message sender exclude =
    let k = Reach-Unreached p r (
      start_accept-Unreached (record l { server = record l.server { running = true } })
        (inr nobody)) in
    elim (Bool-cases m.server.sessions_mutex) [
      | inl e ↦
          let held = held_blocks_all p m.server sender recipient message exclude e in
          inl (held.4, held.5, held.0)
      | inr e ↦
          let nobody_then = empty_map m.server k e in
          inr (
            broadcast_message-nobody p m.server e nobody_then message exclude,
            send_private_message-nobody p m.server e nobody_then recipient message sender,
            get_online_users-nobody p m.server e nobody_then,
          )
    ]
