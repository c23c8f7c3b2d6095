-- ===== src/Database/Tests.antt =====
-- The database over a small SQLite: it has the accounts of a list, and one session at a time.
mod Users
use cli_chat.Base.{
  ◌+◌, ◌*◌, ◌/◌, ◌<◌, arith, ◌≡◌, refl, inl, inr, ℕ, Bool, true, false, List, [], ◌∷◌, ◌++◌, Option,
  none, some, get_elem?, Bool-cases, is_some, if◌then◌else◌,
}
use cli_chat.Text.{Bytes, codes, equal, find, substr, substr_from}
use cli_chat.Text.Laws.{equal_refl}
use cli_chat.Crypto.{verify_password, hex}
use cli_chat.Database.Clock.{gmtime, year_of, year_days}
use cli_chat.Database.Stamp.{
  second_length, time_point_to_string, string_to_time_point,
  string_to_time_point-time_point_to_string,
}
use cli_chat.Database.{User}
use cli_chat.Database.Sqlite.{Sqlite, TimeText, Value, null, integer, text, c_str}
use cli_chat.Database.Schema.{
  insert_session, select_session, deactivate_session, select_user_by_username,
}
use cli_chat.Database.Store.{database, get_user_by_username, rows}
use cli_chat.Database.Sessions.{SessionLaws, SessionTable, reread, database-SessionLaws}
use cli_chat.Database.Names.{sqlite_platform, handle_login-second_name}
use cli_chat.Server.State.{World, new_session}
use cli_chat.Server.ChatServer.{map_find}
use cli_chat.Server.Session.{Env, handle_login, open_session}
use cli_chat.Server.LoginCases.{IsAccepted}

pub record Tables : Type 0 where
  pub users : List (List Value)
  pub session : Option (List Value)

abbrev text_of : Option Value → Option Bytes
text_of (some (text s)) = some s
text_of (some (integer n)) = none
text_of (some null) = none
text_of none = none

abbrev int_of : Option Value → ℕ
int_of (some (integer n)) = n
int_of (some (text s)) = 0
int_of (some null) = 0
int_of none = 0

abbrev has_text : ℕ → List Value → List Value → Bool
has_text i row values = elim (text_of (get_elem? row i)) [
  | none ↦ false
  | some s ↦ elim (text_of (get_elem? values 0)) [ none ↦ false | some k ↦ equal s k ]
]

abbrev pub select : ℕ → List Value → List (List Value) → List (List Value)
select i values [] = []
select i values (row ∷ others) =
    let rest = select i values others in if has_text i row values then row ∷ rest else rest

abbrev one_session : Option (List Value) → List (List Value)
one_session none = []
one_session (some row) = row ∷ []

abbrev drop_session : List Value → Option (List Value) → Option (List Value)
drop_session values none = none
drop_session values (some row) = if has_text 0 row values then none else some row

abbrev pub small : Sqlite
small = record {
  Conn = Tables;
  Row = List Value;
  open_file = λ path. (true, record { users = []; session = none });
  exec = λ db sql. (true, db);
  prepare = λ db sql. true;
  step = λ db sql values.
      if equal sql insert_session
      then (true, record db { session = some values })
      else if equal sql deactivate_session
      then (true, record db { session = drop_session values db.session })
      else (true, db);
  query = λ db sql values.
      if equal sql select_session
      then select 0 values (one_session db.session)
      else if equal sql select_user_by_username
      then select 1 values db.users
      else [];
  column_int = λ row i. int_of (get_elem? row i);
  column_text = λ row i. text_of (get_elem? row i);
}

abbrev pub no_times : TimeText
no_times = record { time_point_to_string = λ n. b'0' ∷ []; string_to_time_point = λ s. 0 }

small_table : SessionTable small
unfolding equal
small_table = record {
  readable = λ db. refl;
  inserted = λ db token name created expires id done. (
    text token ∷ integer id ∷ text name ∷ text created ∷ text expires ∷ integer 1 ∷ [],
    rw (equal_refl token) refl,
    record {
      token_is = refl;
      id_is = refl;
      name_is = refl;
      created_is = refl;
      expires_is = refl;
      active_is = refl;
    },
  );
  other_table = λ db values key. refl;
  deactivated = λ db token done. gone db.session token;
}
  where
    gone :
        (s : Option (List Value)) (token : Bytes)
        → select 0 (text token ∷ []) (one_session (drop_session (text token ∷ []) s)) ≡ []
    gone none token = refl
    gone (some row) token = elim (Bool-cases (has_text 0 row (text token ∷ []))) [
      | inl e ↦ rw e refl
      | inr e ↦ rw e (rw e refl)
    ]

database-SessionLaws_example :
    SessionLaws (database small no_times) (reread small no_times small_table)
database-SessionLaws_example = database-SessionLaws small no_times small_table

-- `ann` with the password `pw` and the salt `s`; the digest is the text.
abbrev ann_row : List Value
ann_row =
    integer 1
    ∷ text (codes "ann")
    ∷ text (codes "s$707773")
    ∷ null
    ∷ text (codes "0")
    ∷ null
    ∷ integer 1
    ∷ []

abbrev ann : User
ann = record {
  id = 1;
  username = codes "ann";
  password_hash = codes "s$707773";
  email = [];
  created_at = 0;
  last_login = 0;
  is_active = true;
}

-- Nobody is online.
abbrev nobody_online : World Tables
nobody_online = record {
  database = record { users = ann_row ∷ []; session = none };
  objects = λ j. new_session;
  sessions_by_username = [];
  all_sessions = [];
  sessions_mutex = false;
  running = true;
}

abbrev env : Env
env = record { now = 7; rand = λ n. none }

abbrev digest : Bytes → Bytes
digest m = m

ann_known : get_user_by_username small no_times nobody_online.database (codes "ann") ≡ some ann
unfolding get_user_by_username rows c_str equal
ann_known = refl

ann_verified : verify_password digest (codes "pw") ann.password_hash ≡ true
unfolding verify_password find substr substr_from equal hex
ann_verified = refl

other_name_offline :
    is_some (map_find (codes "ann" ++ 0 ∷ codes "x") nobody_online.sessions_by_username) ≡ false
unfolding map_find equal
other_name_offline = refl

handle_login-second_name_example :
    let p = sqlite_platform small no_times digest env 2 in
    IsAccepted p nobody_online (codes "ann" ++ 0 ∷ codes "x") (codes "pw") ann
    × (handle_login p env 2 (codes "ann" ++ 0 ∷ codes "x") (codes "pw") nobody_online
        ≡ open_session p env 2 (codes "ann" ++ 0 ∷ codes "x") ann nobody_online)
handle_login-second_name_example =
    handle_login-second_name small no_times digest env 2 nobody_online (codes "ann") (codes "x")
      (codes "pw") ann refl refl ann_known ann_verified refl other_name_offline

-- Five and a half seconds after the epoch, an hour west of UTC.
early : (gmtime (5_500_000_000 / second_length)).year < 10000
unfolding gmtime year_of year_days
early = omega arith

string_to_time_point-time_point_to_string_example :
    string_to_time_point (λ s. s + 3600) (λ s. 0) (c_str (time_point_to_string 5_500_000_000))
    ≡ (5_500_000_000 / second_length + 3600) * second_length
string_to_time_point-time_point_to_string_example =
    string_to_time_point-time_point_to_string (λ s. s + 3600) (λ s. 0) 5_500_000_000 early
