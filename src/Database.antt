-- ===== src/Database.antt =====
-- src/common/database.hpp: the rows, and the class `Database` as the rest of the program uses it.
use cli_chat.Base.{ℕ, ◌*◌, Bool, List, Option}
use cli_chat.Text.{Bytes}
pub mod Sqlite
pub mod Schema
pub mod Clock
pub mod Stamp
pub mod Store
pub mod Statements
pub mod Sessions
pub mod Users
pub mod Names
mod Tests

pub record User : Type 0 where
  pub id : ℕ
  pub username : Bytes
  pub password_hash : Bytes
  pub email : Bytes
  pub created_at : ℕ
  pub last_login : ℕ
  pub is_active : Bool

pub record Message : Type 0 where
  pub id : ℕ
  pub user_id : ℕ
  pub username : Bytes
  pub content : Bytes
  pub recipient : Bytes
  pub timestamp : ℕ
  pub is_private : Bool

-- The struct `Session` of database.hpp; the class of the same name is in Server/Session.
pub record SessionRow : Type 0 where
  pub token : Bytes
  pub user_id : ℕ
  pub username : Bytes
  pub created_at : ℕ
  pub expires_at : ℕ
  pub is_active : Bool

-- A `time_point` counts nanoseconds since the epoch.
abbrev pub hours : ℕ → ℕ
hours n = n * 3_600_000_000_000

-- The public operations, over the state `Db` of the connection and its file. Those that write read
-- the clock where the source does.
pub record DatabaseApi : Type 1 where
  pub Db : Type 0
  pub create_user : Db → ℕ → Bytes → Bytes → Bytes → Bool × Db
  pub get_user_by_username : Db → Bytes → Option User
  pub update_last_login : Db → ℕ → ℕ → Bool × Db
  pub save_message : Db → Message → Bool × Db
  pub get_recent_messages : Db → ℕ → List Message
  pub create_session : Db → SessionRow → Bool × Db
  pub get_session : Db → Bytes → Option SessionRow
  pub delete_session : Db → Bytes → Bool × Db
  pub get_user_count : Db → ℕ
  pub get_message_count : Db → ℕ
