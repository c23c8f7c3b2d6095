-- ===== src/Config.antt =====
-- src/common/config.hpp and config.cpp: `Config`. The file and the environment are functions, and
-- `std::stoi` is a parameter: `none` is its exception, which leaves the loader.
pub mod Environment
pub mod File
pub mod RoundTrip
mod Tests
use cli_chat.Base.{
  ℕ, Bool, true, false, List, [], ◌∷◌, Option, none, some, if◌then◌else◌, ltb, ◌≡◌, refl,
}
use cli_chat.Text.{Bytes, codes, equal, split}
use cli_chat.Secrets.{SecretsManager, entry, initialize}
use cli_chat.Message.{◌>>=◌}
use mathlib.Core.Option

pub data ℤ : Type 0 where
  pos negsuc : ℕ → ℤ

-- What 32 bits hold.
abbrev pub is_int : ℤ → Bool
is_int (pos n) = ltb n 2147483648
is_int (negsuc n) = ltb n 2147483648

-- An `int`.
pub record MachineInt : Type 0 where
  pub value : ℤ
  pub fits : is_int value ≡ true

abbrev int : (z : ℤ) → is_int z ≡ true → MachineInt
int z e = record { value = z; fits = e }

pub record Config : Type 0 where
  pub server_host : Bytes
  pub server_port : MachineInt
  pub tls_enabled : Bool
  pub cert_file : Bytes
  pub key_file : Bytes
  pub database_path : Bytes
  pub redis_host : Bytes
  pub redis_port : MachineInt
  pub max_users : MachineInt
  pub max_message_length : MachineInt
  pub session_timeout : MachineInt
  pub web_port : MachineInt
  pub web_root : Bytes

-- The values of the members of config.hpp.
abbrev pub defaults : Config
defaults = record {
  server_host = codes "127.0.0.1";
  server_port = int (pos 4000) refl;
  tls_enabled = true;
  cert_file = codes "certs/server.crt";
  key_file = codes "certs/server.key";
  database_path = codes "chat.db";
  redis_host = codes "127.0.0.1";
  redis_port = int (pos 6379) refl;
  max_users = int (pos 1000) refl;
  max_message_length = int (pos 4096) refl;
  session_timeout = int (pos 3600) refl;
  web_port = int (pos 8080) refl;
  web_root = codes "frontend/dist";
}

module _ (stoi : Bytes → Option MachineInt) where
  -- The assignments of `loadFromFile`, by the key.
  unfoldable pub set : Bytes → Bytes → Config → Option Config
  set key value c =
      if equal key (codes "server_host")
      then some (record c { server_host = value })
      else if equal key (codes "server_port")
      then Option.map (λ n. record c { server_port = n }) (stoi value)
      else if equal key (codes "tls_enabled")
      then some (record c { tls_enabled = equal value (codes "true") })
      else if equal key (codes "cert_file")
      then some (record c { cert_file = value })
      else if equal key (codes "key_file")
      then some (record c { key_file = value })
      else if equal key (codes "database_path")
      then some (record c { database_path = value })
      else if equal key (codes "redis_host")
      then some (record c { redis_host = value })
      else if equal key (codes "redis_port")
      then Option.map (λ n. record c { redis_port = n }) (stoi value)
      else if equal key (codes "max_users")
      then Option.map (λ n. record c { max_users = n }) (stoi value)
      else if equal key (codes "max_message_length")
      then Option.map (λ n. record c { max_message_length = n }) (stoi value)
      else if equal key (codes "session_timeout")
      then Option.map (λ n. record c { session_timeout = n }) (stoi value)
      else if equal key (codes "web_port")
      then Option.map (λ n. record c { web_port = n }) (stoi value)
      else if equal key (codes "web_root")
      then some (record c { web_root = value })
      else some c

  -- The lines are cut as in `SecretsManager::loadSecretsFromFile`, by the same code.
  unfoldable pub set_line : Bytes → Config → Option Config
  unfolding set
  set_line line c = elim (entry line) [ none ↦ some c | some kv ↦ set kv.0 kv.1 c ]

  unfoldable pub set_lines : List Bytes → Config → Option Config
  unfolding set_line
  set_lines [] c = some c
  set_lines (line ∷ lines) c = elim (set_line line c) [ none ↦ none | some d ↦ set_lines lines d ]

  -- Config::loadFromFile; without a file, `setDefaults` initializes the secrets.
  unfoldable pub load_from_file :
      (Bytes → Option Bytes) → Bytes → Config × SecretsManager → Option (Config × SecretsManager)
  unfolding set_lines
  load_from_file file filename (c, secrets) = elim (file filename) [
    | none ↦ some (c, (initialize file (codes "secrets/secrets.conf") secrets).1)
    | some text ↦ Option.map (λ d. (d, secrets)) (set_lines (split b'\n' text) c)
  ]

  -- One line of `loadFromEnv`.
  unfoldable pub set_number : Option Bytes → (MachineInt → Config → Config) → Config → Option Config
  set_number none assign c = some c
  set_number (some value) assign c = Option.map (λ n. assign n c) (stoi value)

unfoldable pub set_text : Option Bytes → (Bytes → Config → Config) → Config → Config
set_text none assign c = c
set_text (some value) assign c = assign value c

module _ (stoi : Bytes → Option MachineInt) (env : Bytes → Option Bytes) where
  -- Config::loadFromEnv
  unfoldable pub load_from_env : Config → Option Config
  unfolding set_number set_text
  load_from_env c = do
    let c = set_text (env (codes "CHAT_SERVER_HOST")) (λ v d. record d { server_host = v }) c
    c ← set_number stoi (env (codes "CHAT_SERVER_PORT")) (λ n d. record d { server_port = n }) c
    let c =
        set_text (env (codes "CHAT_TLS_ENABLED"))
          (λ v d. record d { tls_enabled = equal v (codes "true") }) c
    let c = set_text (env (codes "CHAT_CERT_FILE")) (λ v d. record d { cert_file = v }) c
    let c = set_text (env (codes "CHAT_KEY_FILE")) (λ v d. record d { key_file = v }) c
    let c = set_text (env (codes "CHAT_DATABASE_PATH")) (λ v d. record d { database_path = v }) c
    let c = set_text (env (codes "CHAT_REDIS_HOST")) (λ v d. record d { redis_host = v }) c
    c ← set_number stoi (env (codes "CHAT_REDIS_PORT")) (λ n d. record d { redis_port = n }) c
    c ← set_number stoi (env (codes "CHAT_MAX_USERS")) (λ n d. record d { max_users = n }) c
    c ←
        set_number stoi (env (codes "CHAT_MAX_MESSAGE_LENGTH"))
          (λ n d. record d { max_message_length = n }) c
    c ←
        set_number stoi (env (codes "CHAT_SESSION_TIMEOUT"))
          (λ n d. record d { session_timeout = n }) c
    c ← set_number stoi (env (codes "CHAT_WEB_PORT")) (λ n d. record d { web_port = n }) c
    some (set_text (env (codes "CHAT_WEB_ROOT")) (λ v d. record d { web_root = v }) c)
