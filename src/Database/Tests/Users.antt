-- ===== src/Database/Tests/Users.antt =====
-- A table of users whose names are unique, over the tables of the other tests.
use cli_chat.Base.{
  take, ◌≡◌, refl, Bool, true, false, List, [], ◌∷◌, ◌++◌, is_empty, if◌then◌else◌, inl, inr,
  Bool-cases,
}
use cli_chat.Text.{equal}
use cli_chat.Text.Laws.{equal_refl}
use cli_chat.Database.Sqlite.{Sqlite, Value, integer, text, null}
use cli_chat.Database.Schema.{insert_user}
use cli_chat.Database.Store.{database}
use cli_chat.Database.Users.{UserLaws, UserTable, database-UserLaws}
use cli_chat.Database.Tests.{Tables, small, select, no_times}

-- The row that an insertion adds, if there is none with the name.
abbrev add_user : List Value → Tables → Bool × Tables
add_user values db =
    let row = integer 1 ∷ (values ++ null ∷ integer 1 ∷ []) in
    if is_empty (select 1 (take 1 values) db.users)
    then (true, record db { users = row ∷ db.users })
    else (false, db)

abbrev registry : Sqlite
registry = record small {
  step = λ db sql values. if equal sql insert_user then add_user values db else (false, db);
}

is_empty-[] : {A : Type 0} (xs : List A) → is_empty xs ≡ true → xs ≡ []
is_empty-[] [] h = refl
is_empty-[] (x ∷ xs) h = absurd cc

added :
    (values : List Value) (db : Tables)
    → (add_user values db).0 ≡ true
    → (select 1 (take 1 values) db.users ≡ [])
      × ((add_user values db).1
          ≡ record db { users = (integer 1 ∷ (values ++ null ∷ integer 1 ∷ [])) ∷ db.users })
added values db done = elim (Bool-cases (is_empty (select 1 (take 1 values) db.users))) [
  | inl e ↦ (is_empty-[] (select 1 (take 1 values) db.users) e, rw e refl)
  | inr e ↦ absurd (let no = rw e at done in cc)
]

registry_table : UserTable registry
unfolding equal
registry_table = record {
  readable = λ db. refl;
  inserted = λ db name hash created email done.
      let (none_yet, after) = added (text name ∷ text hash ∷ email ∷ text created ∷ []) db done in
      (
        integer 1 ∷ text name ∷ text hash ∷ email ∷ text created ∷ null ∷ integer 1 ∷ [],
        rw (after, equal_refl name, none_yet) refl,
        refl,
        refl,
        refl,
      );
}

database-UserLaws_example : UserLaws (database registry no_times)
database-UserLaws_example = database-UserLaws registry no_times registry_table
