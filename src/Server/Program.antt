-- ===== src/Server/Program.antt =====
-- What holds of every run of the program of the server.
use cli_chat.Base.{◌≡◌, refl, inl, inr, ℕ, true, false, List, none, some, Option-cases, Bool-cases}
use cli_chat.Text.{Bytes}
use cli_chat.Secrets.{SecretsManager}
use cli_chat.Config.{Config}
use cli_chat.Server.State.{Platform}
use cli_chat.Server.Start.{Outside, initialize, initialize-ready}
use cli_chat.Server.Accept.{Listener, start}
use cli_chat.Server.Schedule.{Reach}
use cli_chat.Server.Provenance.{Login, authentication_traced}
use mathlib.Core.Path.{subst, sym}
use cli_chat.Server.Main.{
  System, config_file, configure, new_server, Program, exits, serves, server_main,
}

-- How the program starts, with what decides it.
pub data ProgramCase (p : Platform) (s : System) (outside : Config → Outside) (db : p.Db)
    (argv : List Bytes) : Program p.Db → Type 0 where
  no_config : configure s (config_file argv) ≡ none → ProgramCase p s outside db argv (exits 1)
  no_start :
      (config : Config) (secrets : SecretsManager)
      → configure s (config_file argv) ≡ some (config, secrets)
      → (initialize config (outside config)).0 ≡ false
      → ProgramCase p s outside db argv (exits 1)
  served :
      (config : Config) (secrets : SecretsManager)
      → configure s (config_file argv) ≡ some (config, secrets)
      → (initialize config (outside config)).0 ≡ true
      → (initialize config (outside config)).1 ≡ record {
        database = true;
        ssl_context = config.tls_enabled;
        acceptor = true;
        signals = true;
      }
      → ProgramCase p s outside db argv (serves config (start (new_server db)))

module _ (p : Platform) (s : System) (outside : Config → Outside) (db : p.Db)
    (argv : List Bytes) where
  -- The program ends with the code 1 if the configuration cannot be loaded or the server not be
  -- initialized. Otherwise it serves from the state that `start` leaves of a new server, and then the
  -- database, the acceptor and the signals are set, and the context of TLS if it is enabled.
  pub server_main-cases : ProgramCase p s outside db argv (server_main p s outside db argv)
  unfolding server_main
  server_main-cases = elim (Option-cases (configure s (config_file argv))) [
    | inl e ↦ rw (e, server_main) (no_config e)
    | inr (loaded, e) ↦ elim (Bool-cases (initialize loaded.0 (outside loaded.0)).0) [
      | inl i ↦
          rw (e, server_main)
            (rw i (served loaded.0 loaded.1 e i (initialize-ready loaded.0 (outside loaded.0) i)))
      | inr i ↦ rw (e, server_main) (rw i (no_start loaded.0 loaded.1 e i))
    ]
  ]

  pub serves-start :
      (config : Config) (l : Listener p.Db)
      → server_main p s outside db argv ≡ serves config l
      → l ≡ start (new_server db)
  serves-start config l e = from (server_main p s outside db argv) server_main-cases e
    where
      from :
          (q : Program p.Db)
          → ProgramCase p s outside db argv q
          → q ≡ serves config l
          → l ≡ start (new_server db)
      from _ (no_config _) h = absurd cc
      from _ (no_start _ _ _ _) h = absurd cc
      from _ (served _ _ _ _ _) h = cc

  -- However the program came to serve, and in every run of its handlers from then on: a session that is authenticated
  -- completed, while it was not, a read of a line `login:name:password` that is not too long, whose name
  -- holds no colon, at a moment at which the account was known and active, the password verified against
  -- its hash, and nobody was registered under the name; and it was authenticated at each moment since.
  pub served_sessions_logged_in :
      (config : Config) (l m : Listener p.Db)
      → server_main p s outside db argv ≡ serves config l
      → Reach p l m
      → (j : ℕ) → (m.server.objects j).authenticated ≡ true
      → Login p l m j
  served_sessions_logged_in config l m e r j h =
      subst (λ (k : Listener p.Db). Reach p k m → Login p k m j) (sym (serves-start config l e))
        (λ q. authentication_traced p (new_server db) m (λ _. refl) q j h) r
