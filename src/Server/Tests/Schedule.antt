-- ===== src/Server/Tests/Schedule.antt =====
-- A run of the server from its start: a client connects and logs in, and then somebody broadcasts.
use cli_chat.Base.{◌≢◌, ◌≡◌, refl, false, ◌⊎◌, List, [], ◌++◌, none, some}
use cli_chat.Text.{Bytes, codes}
use cli_chat.Database.{User}
use cli_chat.Server.State.{has_thrown, returned, blocked, world, update, send_message}
use cli_chat.Server.ChatServer.{
  set_erase, get_online_users, broadcast_message, send_private_message,
}
use cli_chat.Server.Session.{handle_handshake, start_read}
use cli_chat.Server.Dispatch.{handle_read}
use cli_chat.Server.Accept.{Listener, start, start_accept, start_session, handle_accept}
use cli_chat.Server.Schedule.{accept, handshake, read, Reach, here, next, nobody_reached}
use cli_chat.Server.Main.{new_server}
use cli_chat.Server.Robust.{handlers_never_throw}
use cli_chat.Server.Tests.{zeros, platform, env, start as start_world}

abbrev pub idle : Listener (List User)
idle = new_server start_world.database

abbrev connected : Listener (List User)
connected = handle_accept 0 false (start idle)

abbrev shaken : Listener (List User)
shaken = record connected {
  server = world (handle_handshake platform 0 false connected.server);
  handshakes = set_erase 0 connected.handshakes;
}

abbrev line : Bytes
line = codes "login:ann:pw"

abbrev pub logged_in : Listener (List User)
logged_in = record shaken {
  server = world (
      handle_read platform env 0 (some line)
        (update 0 (λ s. record s { reading = false }) shaken.server));
}

drawn_bytes : (bytes : Bytes) → some bytes ≢ none
drawn_bytes bytes e = cc

not_thrown :
    has_thrown (
      handle_read platform env 0
        (some line)
        (update 0 (λ s. record s { reading = false }) shaken.server))
    ≡ false
not_thrown =
    (handlers_never_throw platform 0 (update 0 (λ s. record s { reading = false }) shaken.server)
      env (some line) false (λ n. drawn_bytes (zeros n))).0

pub run : Reach platform (start idle) logged_in
unfolding start start_accept start_session handle_accept handle_handshake start_read update
run =
    next (next (next here (accept 0 false refl)) (handshake 0 false refl))
      (read env 0 (some line) refl not_thrown)

nobody_reached_example :
    ((broadcast_message platform (codes "hi") none logged_in.server ≡ blocked logged_in.server)
      × (send_private_message platform (codes "ann") (codes "hi") 1 logged_in.server
          ≡ blocked logged_in.server)
      × (get_online_users platform logged_in.server ≡ blocked logged_in.server))
    ⊎ ((broadcast_message platform (codes "hi") none logged_in.server
          ≡ returned tt logged_in.server)
        × (send_private_message platform (codes "ann") (codes "hi") 1 logged_in.server
            ≡ returned tt (
                send_message 1
                  (codes "error:User " ++ (codes "ann" ++ codes " is not online\n"))
                  logged_in.server))
        × (get_online_users platform logged_in.server ≡ returned [] logged_in.server))
nobody_reached_example =
    nobody_reached platform idle logged_in refl refl run (codes "ann") (codes "hi") 1 none
