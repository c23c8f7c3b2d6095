-- ===== src/Database/Sessions.antt =====
-- What the rest of the program relies on for the table `sessions`, and that `Database` provides it.
use cli_chat.Base.{
  ◌≡◌, refl, ◌∙◌, ap, sym, inl, inr, ℕ, Bool, true, List, [], ◌∷◌, none, some, arith, Bool-cases,
}
use cli_chat.Text.{Bytes}
use cli_chat.Text.Laws.{Lacks}
use cli_chat.Database.{SessionRow, DatabaseApi}
use cli_chat.Database.Sqlite.{c_str-Lacks, Sqlite, TimeText, Value, integer, text, c_str}
use cli_chat.Database.Schema.{update_login, insert_session, select_session, deactivate_session}
use cli_chat.Database.Statements.{run_statement-done, text_at-some}
use cli_chat.Database.Store.{
  flag, first, session_of, run_statement, rows, create_session, get_session, update_last_login,
  delete_session, database,
}

-- The interface: a session that was stored is found by its token, with its times as they come back
-- from their texts, also after a login was noted; one that was deleted is not found.
pub record SessionLaws (api : DatabaseApi) (reread : ℕ → ℕ) : Type 0 where
  pub stored :
      (db : api.Db) (row : SessionRow)
      → (api.create_session db row).0 ≡ true
      → row.is_active ≡ true
      → Lacks 0 row.token
      → Lacks 0 row.username
      → api.get_session (api.create_session db row).1 row.token
        ≡ some
            (record row { created_at = reread row.created_at; expires_at = reread row.expires_at })
  pub login_kept :
      (db : api.Db) (now id : ℕ) (token : Bytes)
      → api.get_session (api.update_last_login db now id).1 token ≡ api.get_session db token
  pub deleted :
      (db : api.Db) (token : Bytes)
      → (api.delete_session db token).0 ≡ true
      → api.get_session (api.delete_session db token).1 token ≡ none

module _ (q : Sqlite) where
  open q use {Conn, Row, prepare, step, query, column_int, column_text}

  -- A row of `select_session` with these columns.
  pub record IsSessionRow (r : Row) (token : Bytes) (id : ℕ) (name created expires : Bytes)
      (active : ℕ) : Type 0 where
    pub token_is : column_text r 0 ≡ some token
    pub id_is : column_int r 1 ≡ id
    pub name_is : column_text r 2 ≡ some name
    pub created_is : column_text r 3 ≡ some created
    pub expires_is : column_text r 4 ≡ some expires
    pub active_is : column_int r 5 ≡ active

  -- What SQLite does with three statements of the source on the table `sessions`, whose token is the
  -- primary key, and with the one that writes to `users` between them.
  pub record SessionTable : Type 0 where
    pub readable : (db : Conn) → prepare db select_session ≡ true
    pub inserted :
        (db : Conn) (token name created expires : Bytes) (id : ℕ)
        → let result =
            step db insert_session (
              text token ∷ integer id ∷ text name ∷ text created ∷ text expires ∷ integer 1 ∷ []) in
          result.0 ≡ true
          → (r : Row) × (query result.1 select_session (text token ∷ []) ≡ r ∷ [])
            × IsSessionRow r token id name created expires 1
    pub other_table :
        (db : Conn) (values : List Value) (key : Bytes)
        → query (step db update_login values).1 select_session (text key ∷ [])
          ≡ query db select_session (text key ∷ [])
    pub deactivated :
        (db : Conn) (token : Bytes)
        → (step db deactivate_session (text token ∷ [])).0 ≡ true
        → query (step db deactivate_session (text token ∷ [])).1 select_session (text token ∷ [])
          ≡ []

module _ (q : Sqlite) (t : TimeText) (table : SessionTable q) where
  open q use {Conn, Row, prepare, step, query, column_int, column_text}

  abbrev pub reread : ℕ → ℕ
  reread time = t.string_to_time_point (c_str (t.time_point_to_string time))

  rows-select :
      (db : Conn) (key : Bytes)
      → rows q t db select_session (text key ∷ []) ≡ query db select_session (text key ∷ [])
  unfolding rows
  rows-select db key = rw (table.readable db)

  session_of_columns :
      (r : Row) (row : SessionRow)
      → row.is_active ≡ true
      → IsSessionRow q r row.token row.user_id row.username
          (c_str (t.time_point_to_string row.created_at))
          (c_str (t.time_point_to_string row.expires_at))
          1
      → session_of q t r
        ≡ record row { created_at = reread row.created_at; expires_at = reread row.expires_at }
  session_of_columns r row active c = ground (
    arith,
    text_at-some q t r 0 _ c.token_is,
    text_at-some q t r 2 _ c.name_is,
    ap t.string_to_time_point (text_at-some q t r 3 _ c.created_is),
    ap t.string_to_time_point (text_at-some q t r 4 _ c.expires_is),
    c.id_is,
    c.active_is,
  )

  get_session-row :
      (db : Conn) (token : Bytes) (r : Row)
      → Lacks 0 token
      → query db select_session (text token ∷ []) ≡ r ∷ []
      → get_session q t db token ≡ some (session_of q t r)
  unfolding get_session
  get_session-row db token r ok e =
      ap (λ (k : Bytes). first (session_of q t) (rows q t db select_session (text k ∷ [])))
        (c_str-Lacks token ok)
      ∙ ap (first (session_of q t)) (rows-select db token ∙ e)

  stored :
      (db : Conn) (row : SessionRow)
      → (create_session q t db row).0 ≡ true
      → row.is_active ≡ true
      → Lacks 0 row.token
      → Lacks 0 row.username
      → get_session q t (create_session q t db row).1 row.token
        ≡ some
            (record row { created_at = reread row.created_at; expires_at = reread row.expires_at })
  unfolding create_session
  stored db row done active token_ok name_ok =
      let created = c_str (t.time_point_to_string row.created_at) in
      let expires = c_str (t.time_point_to_string row.expires_at) in
      let insert = λ (token name : Bytes) (a : Value).
        run_statement q t db insert_session
          (text token ∷ integer row.user_id ∷ text name ∷ text created ∷ text expires ∷ a ∷ []) in
      let clean : create_session q t db row ≡ insert row.token row.username (integer 1) =
        ap (λ (k : Bytes). insert k (c_str row.username) (flag row.is_active))
          (c_str-Lacks row.token token_ok)
        ∙ ap (λ (k : Bytes). insert row.token k (flag row.is_active))
            (c_str-Lacks row.username name_ok)
        ∙ ap (λ (b : Bool). insert row.token row.username (flag b)) active in
      let ran =
        clean
        ∙ run_statement-done q t db insert_session _
            (ap (λ (x : Bool × Conn). x.0) (sym clean) ∙ done) in
      let (r, found, columns) =
        table.inserted db row.token row.username created expires row.user_id
          (ap (λ (x : Bool × Conn). x.0) (sym ran) ∙ done) in
      ap (λ (x : Bool × Conn). get_session q t x.1 row.token) ran
      ∙ get_session-row _ row.token r token_ok found
      ∙ ap some (session_of_columns r row active columns)

  login_kept :
      (db : Conn) (now id : ℕ) (token : Bytes)
      → get_session q t (update_last_login q t db now id).1 token ≡ get_session q t db token
  unfolding update_last_login get_session run_statement
  login_kept db now id token =
      let values = text (c_str (t.time_point_to_string now)) ∷ integer id ∷ [] in
      elim (Bool-cases (prepare db update_login)) [
        | inl e ↦ rw e (
            ap (first (session_of q t)) (
              rows-select (step db update_login values).1 (c_str token)
              ∙ table.other_table db values (c_str token)
              ∙ sym (rows-select db (c_str token))))
        | inr e ↦ rw e refl
      ]

  deleted :
      (db : Conn) (token : Bytes)
      → (delete_session q t db token).0 ≡ true
      → get_session q t (delete_session q t db token).1 token ≡ none
  unfolding delete_session get_session
  deleted db token done =
      let values = text (c_str token) ∷ [] in
      let ran = run_statement-done q t db deactivate_session values done in
      let gone =
        table.deactivated db (c_str token) (ap (λ (x : Bool × Conn). x.0) (sym ran) ∙ done) in
      ap (λ (x : Bool × Conn). get_session q t x.1 token) ran
      ∙ ap (first (session_of q t))
          (rows-select (step db deactivate_session values).1 (c_str token) ∙ gone)

  -- Over SQLite, if its statements on sessions behave as they are documented to, `Database` keeps
  -- sessions as the rest of the program needs it.
  pub database-SessionLaws : SessionLaws (database q t) reread
  database-SessionLaws = record { stored = stored; login_kept = login_kept; deleted = deleted }
