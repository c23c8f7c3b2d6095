-- ===== src/Terminal/Main.antt =====
-- src/client/main.cpp: the program of the client. `argv` is the list of the arguments behind the name of
-- the program, and an exception in the thread of `io_context` ends the program by `std::terminate`.
use cli_chat.Base.{ℕ, Bool, List, [], ◌∷◌, Option, none, some}
use cli_chat.Text.{Bytes}
use cli_chat.Config.{Config, defaults, load_from_file, load_from_env}
use cli_chat.Server.Main.{System}
use cli_chat.Secrets.{new_secrets_manager}
use cli_chat.Client.{new_client}
use cli_chat.Terminal.{TerminalUi, waiting, left, crashed}
use cli_chat.Terminal.Menu.{Round}
use cli_chat.Terminal.Run.{Completion, new_terminal_ui, run}

-- Without an argument no file is read.
unfoldable pub client_config : System → List Bytes → Option Config
client_config s [] = load_from_env s.stoi s.getenv defaults
client_config s (name ∷ _) =
    elim (load_from_file s.stoi s.file name (defaults, new_secrets_manager)) [
      | none ↦ none
      | some loaded ↦ load_from_env s.stoi s.getenv loaded.0
    ]

-- The program waits for more, ends with a code, or is terminated.
pub data ClientProgram : Type 0 where
  runs : TerminalUi → ClientProgram
  exits : ℕ → ClientProgram
  terminated : ClientProgram

-- main
unfoldable pub client_main :
    System → Bool → List Completion → List Round → List Bytes → ClientProgram
unfolding client_config run
client_main s resolves completions rounds argv = elim (client_config s argv) [
  | none ↦ exits 1
  | some _ ↦ elim (run resolves completions rounds (new_terminal_ui new_client)) [
    | waiting ui ↦ runs ui
    | left ui _ ↦ exits 0
    | crashed ↦ terminated
  ]
]
