-- ===== src/Server/Start.antt =====
-- src/server/server.cpp: `ChatServer::initialize`, over what its calls outside of the class answer. A
-- `false` of `has_directory`, `loads` or `listens` is an exception, which `initialize` catches.
use cli_chat.Base.{◌≡◌, Bool, true, false, not, ◌||◌, ◌&&◌, arith, if◌then◌else◌}
use cli_chat.Text.{Bytes, codes}
use cli_chat.Config.{Config, MachineInt}

-- `database_opens` is `Database::initialize`, `generates` and `loads` are functions of `TLSContext`, and
-- `listens` is the acceptor on an address and a port.
pub record Outside : Type 0 where
  pub database_opens : Bytes → Bool
  pub has_directory : Bytes → Bool
  pub exists : Bytes → Bool
  pub generates : Bytes → Bytes → Bool
  pub loads : Bytes → Bytes → Bool
  pub listens : Bytes → MachineInt → Bool

-- Which of the pointers are set, and whether the signals are waited for.
pub record Resources : Type 0 where
  pub database : Bool
  pub ssl_context : Bool
  pub acceptor : Bool
  pub signals : Bool

abbrev pub nothing : Resources
nothing = record { database = false; ssl_context = false; acceptor = false; signals = false }

-- The block under `getTLSEnabled`: whether it goes on, and whether the context was created.
unfoldable pub initialize_tls : Config → Outside → Bool × Bool
initialize_tls c o =
    let loaded = o.loads c.cert_file c.key_file in
    let missing = not (o.exists c.cert_file) || not (o.exists c.key_file) in
    if not c.tls_enabled
    then (true, false)
    else if missing && not (o.generates c.cert_file c.key_file)
    then (false, false)
    else (loaded, loaded)

-- ChatServer::initialize
unfoldable pub initialize : Config → Outside → Bool × Resources
unfolding initialize_tls
initialize c o =
    let opened = record nothing { database = true } in
    let tls = initialize_tls c o in
    let secured = record opened { ssl_context = tls.1 } in
    if not (o.database_opens c.database_path)
    then (false, opened)
    else if not (o.has_directory (codes "certs"))
    then (false, opened)
    else if not tls.0
    then (false, secured)
    else if not (o.listens c.server_host c.server_port)
    then (false, secured)
    else (true, record secured { acceptor = true; signals = true })

-- An initialization that succeeds leaves everything set that `start` uses, but for the context of the
-- sessions, which is set just with TLS.
pub initialize-ready :
    (c : Config) (o : Outside)
    → (initialize c o).0 ≡ true
    → (initialize c o).1
      ≡ record { database = true; ssl_context = c.tls_enabled; acceptor = true; signals = true }
unfolding initialize initialize_tls
initialize-ready c o h = ground arith
