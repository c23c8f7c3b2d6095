-- ===== src/Server/Tests.antt =====
-- Runs of the server, and its theorems at concrete worlds. The database here is a list of accounts
-- that accepts every row; the digest is the text.
mod Schedule
mod Program
mod Shutdown
mod Robust
mod Race
pub mod Enrolment
use cli_chat.Base.{
  not, ◌&&◌, ◌≡◌, refl, ℕ, suc, true, false, List, [], ◌∷◌, Option, none, some, ◌==◌, length,
  if◌then◌else◌, zero,
}
use cli_chat.Text.{Bytes, codes, equal, find, substr, substr_from}
use cli_chat.Crypto.{hex, verify_password, generate_session_token}
use cli_chat.Message.{build_login_message}
use cli_chat.Database.{User, DatabaseApi}
use cli_chat.Server.State.{Platform, Session, new_session, World, returned, blocked, enqueue}
use cli_chat.Server.ChatServer.{map_find, broadcast_message}
use cli_chat.Server.Session.{Env, handle_login}
use cli_chat.Server.Mutex.{SameButObjects}
use cli_chat.Server.LoginCases.{IsAccepted, accepted_login_hangs}
use cli_chat.Server.Delivery.{registered, broadcast_message-delivers}
use cli_chat.Server.WriteQueue.{sends, completes, run, run-asked, asked}

abbrev pub zeros : ℕ → Bytes
zeros zero = []
zeros (suc n) = 0 ∷ zeros n

abbrev pub account : Bytes → Bytes → User
account name hash = record {
  id = 1;
  username = name;
  password_hash = hash;
  email = [];
  created_at = 0;
  last_login = 0;
  is_active = true;
}

abbrev find_account : List User → Bytes → Option User
find_account [] name = none
find_account (u ∷ us) name = if equal u.username name then some u else find_account us name

abbrev pub accounts : DatabaseApi
accounts = record {
  Db = List User;
  create_user = λ db now name hash email. (true, account name hash ∷ db);
  get_user_by_username = find_account;
  update_last_login = λ db now id. (true, db);
  save_message = λ db m. (true, db);
  get_recent_messages = λ db n. [];
  create_session = λ db row. (true, db);
  get_session = λ db token. none;
  delete_session = λ db token. (true, db);
  get_user_count = length;
  get_message_count = λ db. 0;
}

abbrev pub platform : Platform
platform = record { api = accounts; sha256 = λ m. m }

abbrev pub env : Env
env = record { now = 7; rand = λ n. some (zeros n) }

-- `ann` with the password `pw` and the salt `s`.
abbrev pub ann : User
ann = account (codes "ann") (codes "s$707773")

-- Sessions 1 and 2 are in the map, session 0 is new.
abbrev session_of : Bytes → Session
session_of name = record new_session { username = name; user_id = 1; authenticated = true }

abbrev pub start : World (List User)
start = record {
  database = ann ∷ [];
  objects = λ j.
      if j == 1
      then session_of (codes "bob")
      else if j == 2
      then session_of (codes "eve")
      else new_session;
  sessions_by_username = (codes "bob", 1) ∷ (codes "eve", 2) ∷ [];
  all_sessions = 1 ∷ 2 ∷ [];
  sessions_mutex = false;
  running = true;
}

accepted : IsAccepted platform start (codes "ann") (codes "pw") ann
unfolding equal verify_password hex find substr substr_from map_find
accepted = record { known = refl; verified = refl; active = refl; offline = refl }

pub drawn : generate_session_token env.rand ≡ some (hex (zeros 32))
unfolding generate_session_token
drawn = refl

accepted_login_hangs_example :
    (v : World (List User)) × (handle_login platform env 0 (codes "ann") (codes "pw") start
      ≡ blocked v)
    × (v.sessions_mutex ≡ true)
    × ((v.objects 0).authenticated ≡ true)
    × ((v.objects 0).session_token ≡ hex (zeros 32))
    × (map_find (codes "ann") v.sessions_by_username ≡ some 0)
accepted_login_hangs_example =
    accepted_login_hangs platform start env 0 (codes "ann") (codes "pw") ann accepted refl refl
      (hex (zeros 32)) drawn refl

abbrev login_line : Bytes
login_line = build_login_message (codes "ann") (codes "pw")

broadcast_message-delivers_example :
    (v : World (List User)) × (broadcast_message platform (codes "hi") (some 1) start
      ≡ returned tt v)
    × SameButObjects v start
    × ((j : ℕ)
        → v.objects j ≡ (
            if registered j start.sessions_by_username && not (j == 1)
            then enqueue (codes "hi") (start.objects j)
            else start.objects j))
broadcast_message-delivers_example =
    broadcast_message-delivers platform start (codes "hi") 1 refl (refl, (refl, tt))

run-asked_example :
    asked (run (sends (codes "a") ∷ sends (codes "b") ∷ completes ∷ []) new_session)
    ≡ codes "a" ∷ codes "b" ∷ []
run-asked_example = run-asked (sends (codes "a") ∷ sends (codes "b") ∷ completes ∷ []) new_session

-- Two messages wait.
abbrev two_waiting : Session
two_waiting = run (sends (codes "a") ∷ sends (codes "b") ∷ []) new_session
