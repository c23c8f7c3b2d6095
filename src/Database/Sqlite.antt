-- ===== src/Database/Sqlite.antt =====
-- SQLite, as src/common/database.cpp calls it. `prepare` says that `sqlite3_prepare_v2` gave SQLITE_OK;
-- `step` runs a statement without rows, and says that `sqlite3_step` gave SQLITE_DONE; `query` has the
-- rows that it gives, in order, and does not change the file. A column is read by its index.
use cli_chat.Base.{◌≡◌, refl, arith, ℕ, Bool, List, [], ◌∷◌, Option, ◌==◌, if◌then◌else◌}
use cli_chat.Text.Laws.{Lacks}
use cli_chat.Text.{Bytes}

-- What the source binds to a parameter.
pub data Value : Type 0 where
  null : Value
  integer : ℕ → Value
  text : Bytes → Value

pub record Sqlite : Type 1 where
  pub Conn : Type 0
  pub Row : Type 0
  pub open_file : Bytes → Bool × Conn
  pub exec : Conn → Bytes → Bool × Conn
  pub prepare : Conn → Bytes → Bool
  pub step : Conn → Bytes → List Value → Bool × Conn
  pub query : Conn → Bytes → List Value → List Row
  pub column_int : Row → ℕ → ℕ
  pub column_text : Row → ℕ → Option Bytes

-- `c_str()` read to its end, a NUL.
unfoldable pub c_str : Bytes → Bytes
c_str [] = []
c_str (c ∷ s) = let rest = c_str s in if c == 0 then [] else c ∷ rest

pub c_str-Lacks : (s : Bytes) → Lacks 0 s → c_str s ≡ s
unfolding c_str
c_str-Lacks [] h = refl
c_str-Lacks (c ∷ s) h = ground (arith, c_str-Lacks s)

-- Times as text: `timePointToString` and `stringToTimePoint`.
pub record TimeText : Type 0 where
  pub time_point_to_string : ℕ → Bytes
  pub string_to_time_point : Bytes → ℕ
