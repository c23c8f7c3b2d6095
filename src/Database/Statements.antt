-- ===== src/Database/Statements.antt =====
-- A statement that ran, and a column that has a text.
use cli_chat.Base.{◌≡◌, refl, ℕ, inl, inr, true, false, List, some, Bool-cases}
use cli_chat.Text.{Bytes}
use cli_chat.Database.Sqlite.{Sqlite, TimeText, Value}
use cli_chat.Database.Store.{text_at, run_statement}

module _ (q : Sqlite) (t : TimeText) where
  open q use {Conn, Row, prepare, step, column_text}

  pub run_statement-done :
      (db : Conn) (sql : Bytes) (values : List Value)
      → (run_statement q t db sql values).0 ≡ true
      → run_statement q t db sql values ≡ step db sql values
  unfolding run_statement
  run_statement-done db sql values h = elim (Bool-cases (prepare db sql)) [
    | inl e ↦ rw e
    | inr e ↦ absurd (not_done (rw (run_statement, e) at h))
  ]
    where
      not_done : false ≡ true → ⊥
      not_done k = cc

  pub text_at-some : (r : Row) (i : ℕ) (s : Bytes) → column_text r i ≡ some s → text_at q t r i ≡ s
  text_at-some r i s e = rw (text_at, e) refl
