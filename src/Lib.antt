-- ===== src/Lib.antt =====
-- CLI-Chat: a chat server and a terminal client in C++ that speak a protocol of lines over TLS.
--
-- A client sends `login:name:password`, `register:name:password[:email]`, `@name:text`,
-- `broadcast:text`, `users` or `logout`. The server keeps one `Session` for each connection and, in
-- `ChatServer`, the registry of the sessions that logged in; both work on the database. Its answers
-- begin with `auth:`, `users:`, `private:`, `private_sent:`, `system:` or `error:`, and a broadcast is
-- sent on as `name: text`. The client's `processMessage` reads these lines back.
--
-- Which file models which code; a definition has the name of the function, in snake case:
--   * Base, Text: lists and numbers, and `std::string`: a text is the list of its codes, an absent
--     position is `npos`, and a `substr` out of range is `none`.
--   * Message: src/common/message.hpp and message.cpp, `MessageParser`, every function.
--   * Crypto: src/common/crypto.cpp, `CryptoUtils`; the digest and the random bytes are parameters.
--     Crypto.Tls: `TLSContext`; what the calls of OpenSSL answer is the parameter `OpenSsl`, and what
--     they allocate and free is a ledger.
--   * Database: src/common/database.hpp, the rows, and the operations as an interface; Database.Schema
--     and Database.Store: src/common/database.cpp, which implements it over SQLite, the parameter
--     `Sqlite`, and over the two conversions of times to text, `TimeText`. Database.Stamp has these,
--     and Database.Clock the calendar of `gmtime`; the zone of `mktime` is a parameter.
--   * Server.State: the members of `Session` and `ChatServer` and the effects of a handler: it
--     returns, waits for ever for `sessions_mutex_`, or is left by an exception.
--   * Server.ChatServer: src/server/server.cpp, the registry, delivery, and stop.
--   * Server.Session: src/server/session.cpp, login, registration and the two kinds of messages.
--   * Server.Dispatch: src/server/session.cpp, `processMessage`, `handleRead`, `handleWrite`.
--   * Server.Start: src/server/server.cpp, `initialize`, over the answers of what it calls.
--   * Server.Accept, Server.Schedule: src/server/server.cpp, `start`, the accept loop and the signals,
--     and the runs of the server, in which any handler whose operation is pending may come next.
--   * Database.Sessions, Database.Users: what the server needs of the database, as interfaces that
--     Database.Store fills; Server.Enrolment and Rest.Enrolment use the second.
--   * Server.Identity, Robust, Reads, Provenance, Race: what the handlers leave alone and when an
--     exception leaves them, and what follows for the runs and for two threads.
--   * Server.Main, Terminal.Main: src/server/main.cpp and src/client/main.cpp, from the arguments to the
--     start of the server and to the exit code; Server.Program: the runs of the program of the server.
--   * Server.Shutdown: src/server/main.cpp, the threads and the end of `main`; Server.Hang: the reads that
--     never return.
--   * Client: src/client/client.cpp, every operation of `ChatClient`.
--   * Protocol: the server's lines read by the client.
--   * Secrets: src/common/secrets.cpp, `SecretsManager`; a file is a function of its path.
--   * Auth: src/common/auth.cpp, `AuthManager`, with its regular expressions as functions.
--   * Config: src/common/config.cpp, `Config`; `std::stoi` is a parameter.
--   * Rest: src/server/rest_api.cpp, `RestApiServer`: Rest has the responses, Rest.Handlers the routes,
--     Rest.Connection the acceptor and a connection; Boost.JSON is the parameter `Boost`.
--   * Terminal: src/client/terminal_ui.cpp, `TerminalUI`: the callbacks and the chat mode; Terminal.Menu
--     has the menu. The input is a sequence of lines typed and of lines from the server.
--   * Redis: src/common/redis_client.cpp, `RedisClient`, and Redis.Directory its keys and channels, over
--     the commands of hiredis as the parameter `Hiredis`.
--   * Logger: src/common/logger.cpp, `Logger`.
-- The other files under a component's name hold its lemmas and theorems, Tests its examples.
--
-- How the state corresponds: an object of class `Session` is a number, `World.objects` is the heap,
-- and `sessions_by_username_` and `all_sessions_` are lists in the order of their iteration. A
-- buffer given to `async_write` is appended to `sent`; a pending `async_read_until` is the flag
-- `reading`, and its completion is a call of `handle_read` with the line or with none for an error.
-- `sessions_mutex_` is a flag. C++ leaves locking it twice in one thread undefined; here, as in the
-- common implementations, such a thread waits for ever, and what it left is kept in the outcome.
-- Identifiers and times are natural numbers, since the code computes with none but sums of hours, and seconds of
-- a time.
-- Every loop is a recursion on the text or the list that it walks, but for `to_string`,
-- whose fuel is the number and one more, and each round divides it by ten, and `year_of`, whose fuel
-- is the days and one more, and each round takes a year from them.
--
-- Not modelled: Asio and the records of TLS; the log lines of the server and the client; SQLite,
-- hiredis, OpenSSL and Boost, which are parameters: a theorem that needs a law of one of them names
-- it, and the server is proved over any database without a law; threads inside of a handler, but for
-- the two logins of Server.Race; the destructors after the end of `main`; the web
-- page, the containers and the scripts, which are not C++; and the tests.
pub mod Base
pub mod Text
pub mod Message
pub mod Crypto
pub mod Database
pub mod Server
pub mod Rest
pub mod Redis
pub mod Logger
pub mod Client
pub mod Terminal
pub mod Protocol
pub mod Secrets
pub mod Auth
pub mod Config
