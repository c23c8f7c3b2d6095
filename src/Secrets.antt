-- ===== src/Secrets.antt =====
-- src/common/secrets.hpp and secrets.cpp: `SecretsManager`. A file is its text, or `none` if it cannot
-- be opened. Messages to the console are left out, and so is the wiping of memory that is given up.
pub mod Loading
pub mod Strength
pub mod RoundTrip
pub mod Wipe
mod Tests
use cli_chat.Base.{
  ℕ, ◌+◌, Bool, true, false, not, ◌&&◌, ◌||◌, List, [], ◌∷◌, map, Option, none, some, ◌==◌, ltb,
  leb, is_empty, is_some, any, all, length, take, drop, if◌then◌else◌,
}
use cli_chat.Text.{Bytes, codes, equal, starts_with, find, contains, split}

pub record SecretsManager : Type 0 where
  pub initialized : Bool
  pub secrets_file_path : Bytes
  pub redis_password : Option Bytes
  pub database_password : Option Bytes
  pub session_secret : Option Bytes

-- The instance of getInstance, before it is used.
abbrev pub new_secrets_manager : SecretsManager
new_secrets_manager = record {
  initialized = false;
  secrets_file_path = [];
  redis_password = none;
  database_password = none;
  session_secret = none;
}

abbrev pub weak_passwords : List Bytes
weak_passwords =
    codes "password"
    ∷ codes "123456"
    ∷ codes "admin"
    ∷ codes "root"
    ∷ codes "test"
    ∷ codes "guest"
    ∷ codes "default"
    ∷ codes "redis"
    ∷ codes "database"
    ∷ codes "secret"
    ∷ []

abbrev pub is_upper : ℕ → Bool
is_upper c = leb b'A' c && leb c b'Z'

abbrev pub is_lower : ℕ → Bool
is_lower c = leb b'a' c && leb c b'z'

abbrev pub is_digit : ℕ → Bool
is_digit c = leb b'0' c && leb c b'9'

abbrev pub is_special : ℕ → Bool
is_special c = not (is_upper c || is_lower c || is_digit c)

unfoldable pub to_lower : ℕ → ℕ
to_lower c = if is_upper c then c + 32 else c

unfoldable pub is_complex : Bytes → Bool
is_complex secret =
    any is_upper secret && any is_lower secret && (any is_digit secret || any is_special secret)

-- SecretsManager::validateSecretStrength
unfoldable pub validate_secret_strength : Bytes → Bool
unfolding to_lower is_complex contains
validate_secret_strength secret =
    if is_empty secret
    then true
    else if ltb (length secret) 12
    then false
    else if ltb 256 (length secret)
    then false
    else if any (contains (map to_lower secret)) weak_passwords
    then false
    else is_complex secret

abbrev pub is_blank : ℕ → Bool
is_blank c = c == b' ' || c == b'\t'

-- erase(0, find_first_not_of(" \t")) and erase(find_last_not_of(" \t") + 1)
unfoldable pub trim_left : Bytes → Bytes
trim_left [] = []
trim_left (c ∷ s) = let rest = trim_left s in if is_blank c then rest else c ∷ s

unfoldable pub trim_right : Bytes → Bytes
trim_right [] = []
trim_right (c ∷ s) = let rest = trim_right s in if is_empty rest && is_blank c then [] else c ∷ rest

unfoldable pub trim : Bytes → Bytes
unfolding trim_left trim_right
trim s = trim_right (trim_left s)

-- The key and the value of a line; `none` for the lines that are skipped. Both calls of `substr` are
-- in range, since `=` stands at pos.
unfoldable pub entry : Bytes → Option (Bytes × Bytes)
unfolding trim
entry line = if is_empty line || starts_with line (codes "#") then none else elim (find line b'=') [
  | none ↦ none
  | some pos ↦ some (trim (take pos line), trim (drop (pos + 1) line))
]

-- One turn of the loop; `false` when it leaves the function with an error.
unfoldable pub store : Bytes → Bytes → SecretsManager → Bool × SecretsManager
unfolding validate_secret_strength
store key value s =
    let strong = validate_secret_strength value in
    if equal key (codes "redis_password")
    then (if strong then (true, record s { redis_password = some value }) else (false, s))
    else if equal key (codes "database_password")
    then (if strong then (true, record s { database_password = some value }) else (false, s))
    else if equal key (codes "session_secret")
    then (if strong then (true, record s { session_secret = some value }) else (false, s))
    else (true, s)

unfoldable pub load_line : Bytes → SecretsManager → Bool × SecretsManager
unfolding entry store
load_line line s = elim (entry line) [ none ↦ (true, s) | some kv ↦ store kv.0 kv.1 s ]

unfoldable pub load_lines : List Bytes → SecretsManager → Bool × SecretsManager
load_lines [] s = (true, s)
load_lines (line ∷ lines) s =
    let (ok, t) = load_line line s in elim ok [ false ↦ (false, t) | true ↦ load_lines lines t ]

-- SecretsManager::loadSecretsFromFile
unfoldable pub load_secrets_from_file : Option Bytes → SecretsManager → Bool × SecretsManager
unfolding load_lines
load_secrets_from_file none s = (false, s)
load_secrets_from_file (some text) s = load_lines (split b'\n' text) s

module _ (file : Bytes → Option Bytes) where
  -- SecretsManager::initialize
  unfoldable pub initialize : Bytes → SecretsManager → Bool × SecretsManager
  unfolding load_secrets_from_file
  initialize path s =
      let (ok, t) = load_secrets_from_file (file path) (record s { secrets_file_path = path }) in
      let defaults = record t {
        redis_password = some [];
        database_password = some [];
        session_secret = some [];
      } in
      if s.initialized
      then (true, s)
      else (true, record (if ok then t else defaults) { initialized = true })

abbrev pub secret_of : Bool → Option Bytes → Bytes
secret_of false secret = []
secret_of true none = []
secret_of true (some secret) = secret

unfoldable pub get_redis_password : SecretsManager → Bytes
get_redis_password s = secret_of s.initialized s.redis_password

unfoldable pub get_database_password : SecretsManager → Bytes
get_database_password s = secret_of s.initialized s.database_password

unfoldable pub get_session_secret : SecretsManager → Bytes
get_session_secret s = secret_of s.initialized s.session_secret

unfoldable pub has_redis_password : SecretsManager → Bool
has_redis_password s =
    s.initialized && elim s.redis_password [ none ↦ false | some p ↦ not (is_empty p) ]

unfoldable pub has_database_password : SecretsManager → Bool
has_database_password s =
    s.initialized && elim s.database_password [ none ↦ false | some p ↦ not (is_empty p) ]

unfoldable pub has_session_secret : SecretsManager → Bool
has_session_secret s =
    s.initialized && elim s.session_secret [ none ↦ false | some p ↦ not (is_empty p) ]

unfoldable pub clear_secrets : SecretsManager → SecretsManager
clear_secrets s = record s {
  redis_password = none;
  database_password = none;
  session_secret = none;
  initialized = false;
}
