-- ===== src/Server/Tests/Shutdown.antt =====
-- The program from its start to its end: a client connects and does not log in, and a signal arrives.
use cli_chat.Base.{◌≡◌, refl, ℕ, false, true, List, [], none, inl, inr, arith}
use cli_chat.Database.{User}
use cli_chat.Server.State.{Platform, world, update, lock, unlock}
use cli_chat.Server.ChatServer.{set_erase, stop, remove_session, stop_each, stop_session}
use cli_chat.Server.Session.{handle_handshake, start_read}
use cli_chat.Server.Dispatch.{handle_read}
use cli_chat.Server.Accept.{
  Listener, start, start_accept, start_session, handle_accept, handle_stop,
}
use cli_chat.Server.Schedule.{accept, handshake, read, signal}
use cli_chat.Server.Main.{server_main, serves, new_server}
use cli_chat.Server.Start.{initialize}
use cli_chat.Config.{defaults, load_from_file, load_from_env}
use cli_chat.Text.{split}
use cli_chat.Server.Shutdown.{
  Threads, Run, begun, ran, IsIdle, Ends, joined, During, thread_count, main_ends-nobody,
}
use cli_chat.Text.{equal}
use cli_chat.Server.Tests.{platform, env, start as start_world}
use cli_chat.Server.Tests.Program.{system, all_works}

abbrev p : Platform
p = platform

abbrev database : List User
database = start_world.database

abbrev begins : Listener (List User)
begins = start (new_server database)

abbrev connected : Listener (List User)
connected = handle_accept 0 false begins

abbrev shaken : Listener (List User)
shaken = record connected {
  server = world (handle_handshake p 0 false connected.server);
  handshakes = set_erase 0 connected.handshakes;
}

abbrev stopped : Listener (List User)
stopped = record shaken { server = handle_stop p false shaken.server }

abbrev parted : Listener (List User)
parted = record stopped {
  server =
      world
        (handle_read p env 0 none (update 0 (λ s. record s { reading = false }) stopped.server));
}

abbrev refused : Listener (List User)
refused = handle_accept 1 true parted

abbrev two : ℕ
two = thread_count 0

abbrev ended : Threads
ended = record { lost = 0; signalled = true; failed = [] }

run : Run p two begins refused ended
unfolding start start_accept start_session handle_accept handle_handshake start_read update
    handle_stop stop handle_read remove_session lock unlock thread_count stop_each stop_session
run =
    ran
      (ran
        (ran (ran (ran begun (accept 0 false refl) refl) (handshake 0 false refl) refl)
          (signal false) refl)
        (read env 0 none refl refl) refl)
      (accept 1 true refl) refl

refused-IsIdle : IsIdle refused ended
unfolding start start_accept start_session handle_accept handle_handshake start_read update
    handle_stop stop handle_read remove_session lock unlock stop_each stop_session set_erase
refused-IsIdle = record {
  no_accept = refl;
  no_handshake = refl;
  no_read = λ j. ground arith;
  no_write = λ j. ground arith;
}

serves_begins : server_main p system all_works database [] ≡ serves defaults begins
unfolding server_main load_from_file split load_from_env initialize
serves_begins = refl

returns_zero : Ends p system all_works database [] 0 0
returns_zero = joined defaults begins refused ended serves_begins run refl refl refused-IsIdle

was_shaken : During returns_zero shaken
unfolding returns_zero run
was_shaken = inr (inr (inr (inl refl)))

nameless :
    (k : Listener (List User))
    → During returns_zero k
    → p.get_user_by_username k.server.database [] ≡ none
unfolding returns_zero run start start_accept start_session handle_accept handle_handshake
    start_read update handle_stop stop handle_read remove_session lock unlock stop_each stop_session
    set_erase equal
nameless k (inl i) = rw i refl
nameless k (inr (inl i)) = rw i refl
nameless k (inr (inr (inl i))) = rw i refl
nameless k (inr (inr (inr (inl i)))) = rw i refl
nameless k (inr (inr (inr (inr (inl i))))) = rw i refl
nameless k (inr (inr (inr (inr (inr i))))) = rw i refl

main_ends-nobody_example : (shaken.server.objects 0).authenticated ≡ false
main_ends-nobody_example =
    main_ends-nobody p system all_works database [] 0 0 returns_zero nameless shaken was_shaken 0
