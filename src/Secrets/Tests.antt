-- ===== src/Secrets/Tests.antt =====
-- The theorems on secrets at concrete files.
use cli_chat.Base.{◌≡◌, refl, false, ◌++◌, Option, some}
use cli_chat.Text.{Bytes, codes, starts_with}
use cli_chat.Secrets.{
  new_secrets_manager, validate_secret_strength, trim, initialize, get_redis_password,
  get_database_password, get_session_secret,
}
use cli_chat.Secrets.RoundTrip.{initialize-secret_lines, IsWritable, secret_lines, unlines}

abbrev r : Bytes
r = codes "Kettle-and-3-cups"

abbrev d : Bytes
d = codes "Lemon+Ginger 42"

abbrev v : Bytes
v = codes "x9!QuietHarbour"

r-IsWritable : IsWritable r
unfolding validate_secret_strength trim starts_with
r-IsWritable = (refl, refl, refl)

d-IsWritable : IsWritable d
unfolding validate_secret_strength trim starts_with
d-IsWritable = (refl, refl, refl)

v-IsWritable : IsWritable v
unfolding validate_secret_strength trim starts_with
v-IsWritable = (refl, refl, refl)

abbrev strong_file : Bytes → Option Bytes
strong_file path = some (unlines (secret_lines r d v))

initialize-secret_lines_example :
    let t = (initialize strong_file (codes "secrets.conf") new_secrets_manager).1 in
    (get_redis_password t ≡ r) × (get_database_password t ≡ d) × (get_session_secret t ≡ v)
initialize-secret_lines_example =
    initialize-secret_lines strong_file (codes "secrets.conf") r d v new_secrets_manager refl refl
      r-IsWritable d-IsWritable v-IsWritable

-- The file of the test `LoadValidSecrets` in test_secrets.cpp has this secret.
abbrev weak_line : Bytes
weak_line = codes "redis_password=TestRedisPass123!"

weak_line_refused : validate_secret_strength (codes "TestRedisPass123!") ≡ false
unfolding validate_secret_strength starts_with
weak_line_refused = refl

abbrev strong_line : Bytes
strong_line = codes "redis_password = " ++ r
