-- ===== src/Server/Main.antt =====
-- src/server/main.cpp: the program of the server, up to the moment from which `io_context` runs the
-- handlers. `argv` is the list of the arguments behind the name of the program; the lines for the
-- console and the number of the threads are left out.
use cli_chat.Base.{ℕ, false, not, List, [], ◌∷◌, Option, none, some, if◌then◌else◌}
use cli_chat.Text.{Bytes, codes}
use cli_chat.Secrets.{SecretsManager, new_secrets_manager}
use cli_chat.Config.{Config, MachineInt, defaults, load_from_file, load_from_env}
use cli_chat.Server.State.{Platform, new_session}
use cli_chat.Server.Start.{Outside, initialize}
use cli_chat.Server.Accept.{Listener, start}

-- What the program finds: the files, the variables of the environment, and `std::stoi`.
pub record System : Type 0 where
  pub stoi : Bytes → Option MachineInt
  pub file : Bytes → Option Bytes
  pub getenv : Bytes → Option Bytes

-- The name of the configuration file.
abbrev pub config_file : List Bytes → Bytes
config_file [] = codes "config/server.conf"
config_file (name ∷ _) = name

-- The file and then the environment; `none` is an exception.
unfoldable pub configure : System → Bytes → Option (Config × SecretsManager)
configure s filename =
    elim (load_from_file s.stoi s.file filename (defaults, new_secrets_manager)) [
      | none ↦ none
      | some loaded ↦ elim (load_from_env s.stoi s.getenv loaded.0) [
        | none ↦ none
        | some config ↦ some (config, loaded.1)
      ]
    ]

-- The constructor of ChatServer. No session object is allocated.
abbrev pub new_server : {Db : Type 0} → Db → Listener Db
new_server db = record {
  server = record {
    database = db;
    objects = λ id. new_session;
    sessions_by_username = [];
    all_sessions = [];
    sessions_mutex = false;
    running = false;
  };
  next = 0;
  pending = none;
  handshakes = [];
}

-- The program ends with a code, or it serves from then on.
pub data Program (Db : Type 0) : Type 0 where
  exits : ℕ → Program Db
  serves : Config → Listener Db → Program Db

-- main
unfoldable pub server_main :
    (p : Platform) → System → (Config → Outside) → p.Db → List Bytes → Program p.Db
unfolding configure
server_main p s outside db argv = elim (configure s (config_file argv)) [
  | none ↦ exits 1
  | some loaded ↦
      if not (initialize loaded.0 (outside loaded.0)).0
      then exits 1
      else serves loaded.0 (start (new_server db))
]
