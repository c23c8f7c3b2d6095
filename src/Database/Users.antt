-- ===== src/Database/Users.antt =====
-- What the rest of the program relies on for the table `users`, and that `Database` provides it.
use cli_chat.Base.{◌≡◌, refl, ◌∙◌, ap, sym, ℕ, Bool, true, [], ◌∷◌, some}
use cli_chat.Text.{Bytes}
use cli_chat.Text.Laws.{Lacks}
use cli_chat.Database.{User, DatabaseApi}
use cli_chat.Database.Sqlite.{c_str-Lacks, Sqlite, TimeText, Value, text, c_str}
use cli_chat.Database.Schema.{insert_user, select_user_by_username}
use cli_chat.Database.Statements.{run_statement-done, text_at-some}
use cli_chat.Database.Store.{
  first, user_of, optional_text, run_statement, rows, create_user, get_user_by_username, database,
}

-- A user as `createUser` stores it.
pub record IsStored (user : User) (name hash : Bytes) : Type 0 where
  pub name_is : user.username ≡ name
  pub hash_is : user.password_hash ≡ hash
  pub active_is : user.is_active ≡ true

-- The interface: an account that was created is found by its name, with its hash, and is active.
pub record UserLaws (api : DatabaseApi) : Type 0 where
  pub created :
      (db : api.Db) (now : ℕ) (name hash email : Bytes)
      → (api.create_user db now name hash email).0 ≡ true
      → Lacks 0 name
      → Lacks 0 hash
      → (user : User) × (api.get_user_by_username (api.create_user db now name hash email).1 name
          ≡ some user)
        × IsStored user name hash

module _ (q : Sqlite) where
  open q use {Conn, Row, prepare, step, query, column_int, column_text}

  -- What SQLite does with two statements of the source on the table `users`, whose names are unique
  -- and whose flag is 1 by default.
  pub record UserTable : Type 0 where
    pub readable : (db : Conn) → prepare db select_user_by_username ≡ true
    pub inserted :
        (db : Conn) (name hash created : Bytes) (email : Value)
        → let result = step db insert_user (text name ∷ text hash ∷ email ∷ text created ∷ []) in
          result.0 ≡ true
          → (r : Row) × (query result.1 select_user_by_username (text name ∷ []) ≡ r ∷ [])
            × (column_text r 1 ≡ some name)
            × (column_text r 2 ≡ some hash)
            × (column_int r 6 ≡ 1)

module _ (q : Sqlite) (t : TimeText) (table : UserTable q) where
  open q use {Conn, Row, prepare, step, query, column_int, column_text}

  user_of-IsStored :
      (r : Row) (name hash : Bytes)
      → column_text r 1 ≡ some name
      → column_text r 2 ≡ some hash
      → column_int r 6 ≡ 1
      → IsStored (user_of q t r) name hash
  user_of-IsStored r name hash n h a = record {
    name_is = text_at-some q t r 1 name n;
    hash_is = text_at-some q t r 2 hash h;
    active_is = rw a refl;
  }

  get_user-row :
      (db : Conn) (name : Bytes) (r : Row)
      → Lacks 0 name
      → query db select_user_by_username (text name ∷ []) ≡ r ∷ []
      → get_user_by_username q t db name ≡ some (user_of q t r)
  unfolding get_user_by_username rows
  get_user-row db name r ok e =
      ap (λ (k : Bytes). first (user_of q t) (rows q t db select_user_by_username (text k ∷ [])))
        (c_str-Lacks name ok)
      ∙ rw (table.readable db) (ap (first (user_of q t)) e)

  created :
      (db : Conn) (now : ℕ) (name hash email : Bytes)
      → (create_user q t db now name hash email).0 ≡ true
      → Lacks 0 name
      → Lacks 0 hash
      → (user : User) × (get_user_by_username q t (create_user q t db now name hash email).1 name
          ≡ some user)
        × IsStored user name hash
  unfolding create_user
  created db now name hash email done name_ok hash_ok =
      let time = c_str (t.time_point_to_string now) in
      let insert = λ (n h : Bytes).
        run_statement q t db insert_user (text n ∷ text h ∷ optional_text email ∷ text time ∷ []) in
      let clean : create_user q t db now name hash email ≡ insert name hash =
        ap (λ (k : Bytes). insert k (c_str hash)) (c_str-Lacks name name_ok)
        ∙ ap (λ (k : Bytes). insert name k) (c_str-Lacks hash hash_ok) in
      let ran =
        clean
        ∙ run_statement-done q t db insert_user _
            (ap (λ (x : Bool × Conn). x.0) (sym clean) ∙ done) in
      let (r, found, n, h, a) =
        table.inserted db name hash time (optional_text email)
          (ap (λ (x : Bool × Conn). x.0) (sym ran) ∙ done) in
      (
        user_of q t r,
        ap (λ (x : Bool × Conn). get_user_by_username q t x.1 name) ran
            ∙ get_user-row _ name r name_ok found,
        user_of-IsStored r name hash n h a,
      )

  -- Over SQLite, if its statements on users behave as they are documented to, `Database` keeps
  -- accounts as the server needs it.
  pub database-UserLaws : UserLaws (database q t)
  database-UserLaws = record { created = created }
