-- ===== src/Database/Store.antt =====
-- src/common/database.cpp: `Database` over SQLite. Messages to the console are left out. A column that
-- the schema declares NOT NULL is read with `text_at`, in which a NULL, on which the source would have
-- undefined behaviour, is the empty text.
use mathlib.Core.List.{reverse}
use cli_chat.Base.{
  ℕ, Bool, true, false, not, List, [], ◌∷◌, map, Option, none, some, ◌==◌, is_empty, if◌then◌else◌,
}
use cli_chat.Text.{Bytes}
use cli_chat.Database.{User, Message, SessionRow, DatabaseApi}
use cli_chat.Database.Sqlite.{Sqlite, TimeText, Value, null, integer, text, c_str}
use cli_chat.Database.Schema.{
  create_queries, foreign_keys, insert_user, select_user_by_username, select_user_by_id,
  update_login, insert_message, select_messages, insert_session, select_session, deactivate_session,
  count_users, count_messages,
}

abbrev pub flag : Bool → Value
flag true = integer 1
flag false = integer 0

-- `s.empty() ? nullptr : s.c_str()`
abbrev pub optional_text : Bytes → Value
unfolding c_str
optional_text s = if is_empty s then null else text (c_str s)

abbrev pub first : {A B : Type 0} → (A → B) → List A → Option B
first f [] = none
first f (a ∷ rest) = some (f a)

module _ (q : Sqlite) (t : TimeText) where
  open q use {Conn, Row, open_file, exec, prepare, step, query, column_int, column_text}
  open t use {time_point_to_string, string_to_time_point}

  abbrev pub text_at : Row → ℕ → Bytes
  text_at r i = elim (column_text r i) [ none ↦ [] | some s ↦ s ]

  abbrev pub flag_at : Row → ℕ → Bool
  flag_at r i = not (column_int r i == 0)

  -- Database::executeQuery
  unfoldable pub execute_query : Conn → Bytes → Bool × Conn
  execute_query db sql = exec db sql

  unfoldable pub execute_all : Conn → List Bytes → Bool × Conn
  unfolding execute_query
  execute_all db [] = (true, db)
  execute_all db (sql ∷ sqls) =
      let (ok, after) = execute_query db sql in
      elim ok [ false ↦ (false, after) | true ↦ execute_all after sqls ]

  -- Database::createTables
  unfoldable pub create_tables : Conn → Bool × Conn
  unfolding execute_all
  create_tables db = execute_all db create_queries

  -- Database::initialize; the result of the pragma is not read.
  unfoldable pub initialize : Bytes → Bool × Conn
  unfolding execute_query create_tables
  initialize db_path =
      let (ok, db) = open_file db_path in
      if not ok then (false, db) else create_tables (execute_query db foreign_keys).1

  -- A statement without rows: prepared, bound and stepped.
  unfoldable pub run_statement : Conn → Bytes → List Value → Bool × Conn
  run_statement db sql values = if not (prepare db sql) then (false, db) else step db sql values

  -- The rows of a statement; none if it cannot be prepared.
  unfoldable pub rows : Conn → Bytes → List Value → List Row
  rows db sql values = if not (prepare db sql) then [] else query db sql values

  -- Database::createUser
  unfoldable pub create_user : Conn → ℕ → Bytes → Bytes → Bytes → Bool × Conn
  unfolding run_statement c_str
  create_user db now username password_hash email = run_statement db insert_user (
      text (c_str username)
      ∷ text (c_str password_hash)
      ∷ optional_text email
      ∷ text (c_str (time_point_to_string now))
      ∷ [])

  -- The loop bodies that read a row of `users`; `last_login` is the epoch where it is NULL.
  abbrev pub user_of : Row → User
  user_of r = record {
    id = column_int r 0;
    username = text_at r 1;
    password_hash = text_at r 2;
    email = text_at r 3;
    created_at = string_to_time_point (text_at r 4);
    last_login = elim (column_text r 5) [ none ↦ 0 | some s ↦ string_to_time_point s ];
    is_active = flag_at r 6;
  }

  -- Database::getUserByUsername
  unfoldable pub get_user_by_username : Conn → Bytes → Option User
  unfolding rows c_str
  get_user_by_username db username =
      first user_of (rows db select_user_by_username (text (c_str username) ∷ []))

  -- Database::getUserById
  unfoldable pub get_user_by_id : Conn → ℕ → Option User
  unfolding rows
  get_user_by_id db user_id = first user_of (rows db select_user_by_id (integer user_id ∷ []))

  -- Database::updateLastLogin
  unfoldable pub update_last_login : Conn → ℕ → ℕ → Bool × Conn
  unfolding run_statement c_str
  update_last_login db now user_id =
      run_statement db update_login (text (c_str (time_point_to_string now)) ∷ integer user_id ∷ [])

  -- Database::saveMessage
  unfoldable pub save_message : Conn → Message → Bool × Conn
  unfolding run_statement c_str
  save_message db message = run_statement db insert_message (
      integer message.user_id
      ∷ text (c_str message.username)
      ∷ text (c_str message.content)
      ∷ optional_text message.recipient
      ∷ text (c_str (time_point_to_string message.timestamp))
      ∷ flag message.is_private
      ∷ [])

  abbrev pub message_of : Row → Message
  message_of r = record {
    id = column_int r 0;
    user_id = column_int r 1;
    username = text_at r 2;
    content = text_at r 3;
    recipient = text_at r 4;
    timestamp = string_to_time_point (text_at r 5);
    is_private = flag_at r 6;
  }

  -- Database::getRecentMessages; the rows come with the newest first.
  unfoldable pub get_recent_messages : Conn → ℕ → List Message
  unfolding rows
  get_recent_messages db limit =
      reverse (map message_of (rows db select_messages (integer limit ∷ [])))

  -- Database::createSession
  unfoldable pub create_session : Conn → SessionRow → Bool × Conn
  unfolding run_statement c_str
  create_session db session = run_statement db insert_session (
      text (c_str session.token)
      ∷ integer session.user_id
      ∷ text (c_str session.username)
      ∷ text (c_str (time_point_to_string session.created_at))
      ∷ text (c_str (time_point_to_string session.expires_at))
      ∷ flag session.is_active
      ∷ [])

  abbrev pub session_of : Row → SessionRow
  session_of r = record {
    token = text_at r 0;
    user_id = column_int r 1;
    username = text_at r 2;
    created_at = string_to_time_point (text_at r 3);
    expires_at = string_to_time_point (text_at r 4);
    is_active = flag_at r 5;
  }

  -- Database::getSession
  unfoldable pub get_session : Conn → Bytes → Option SessionRow
  unfolding rows c_str
  get_session db token = first session_of (rows db select_session (text (c_str token) ∷ []))

  -- Database::deleteSession
  unfoldable pub delete_session : Conn → Bytes → Bool × Conn
  unfolding run_statement c_str
  delete_session db token = run_statement db deactivate_session (text (c_str token) ∷ [])

  abbrev pub count_of : List Row → ℕ
  count_of [] = 0
  count_of (r ∷ rs) = column_int r 0

  -- Database::getUserCount
  unfoldable pub get_user_count : Conn → ℕ
  unfolding rows
  get_user_count db = count_of (rows db count_users [])

  -- Database::getMessageCount
  unfoldable pub get_message_count : Conn → ℕ
  unfolding rows
  get_message_count db = count_of (rows db count_messages [])

  -- The interface that the rest of the program uses, filled.
  abbrev pub database : DatabaseApi
  database = record {
    Db = Conn;
    create_user = create_user;
    get_user_by_username = get_user_by_username;
    update_last_login = update_last_login;
    save_message = save_message;
    get_recent_messages = get_recent_messages;
    create_session = create_session;
    get_session = get_session;
    delete_session = delete_session;
    get_user_count = get_user_count;
    get_message_count = get_message_count;
  }
