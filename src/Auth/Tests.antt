-- ===== src/Auth/Tests.antt =====
-- The theorems on `AuthManager` at one account. The database here keeps one session.
mod Enrolment
use cli_chat.Base.{
  ◌⊎◌, ◌↔◌, is_empty, ◌≡◌, refl, ℕ, zero, suc, ◌+◌, true, false, ◌&&◌, [], ◌∷◌, Option, none, some,
  Bool-cases, inl, inr, ltb, if◌then◌else◌,
}
use cli_chat.Text.{Bytes, codes, equal, find, substr, substr_from}
use cli_chat.Text.Laws.{equal_refl}
use cli_chat.Crypto.{Rand, hex, verify_password, generate_session_token}
use cli_chat.Database.{User, SessionRow, DatabaseApi}
use cli_chat.Server.State.{Platform}
use cli_chat.Auth.{
  validate_email, granted, session_duration, authenticate, validate_session, invalidate_session,
  validate_username, validate_password,
}
use cli_chat.Auth.Email.{validate_email_iff, IsAddress}
use cli_chat.Database.Sessions.{SessionLaws}
use cli_chat.Auth.Lifecycle.{
  succeeded, IsGranted, after_login, authenticate-succeeds_iff, authenticate-validate_session,
}

abbrev pub zeros : ℕ → Bytes
zeros zero = []
zeros (suc n) = 0 ∷ zeros n

-- `annika` with the password `sunset` and the salt `s`; the digest is the text.
abbrev pub annika : User
annika = record {
  id = 4;
  username = codes "annika";
  password_hash = codes "s$73756e73657473";
  email = [];
  created_at = 0;
  last_login = 0;
  is_active = true;
}

abbrev find_session : Option SessionRow → Bytes → Option SessionRow
find_session none token = none
find_session (some row) token = if equal row.token token && row.is_active then some row else none

abbrev drop_session : Option SessionRow → Bytes → Option SessionRow
drop_session none token = none
drop_session (some row) token = if equal row.token token then none else some row

abbrev pub one_account : DatabaseApi
one_account = record {
  Db = Option SessionRow;
  create_user = λ db now name hash email. (false, db);
  get_user_by_username = λ db name. if equal name annika.username then some annika else none;
  update_last_login = λ db now id. (true, db);
  save_message = λ db m. (true, db);
  get_recent_messages = λ db n. [];
  create_session = λ db row. (true, some row);
  get_session = find_session;
  delete_session = λ db token. (true, drop_session db token);
  get_user_count = λ db. 1;
  get_message_count = λ db. 0;
}

abbrev platform : Platform
platform = record { api = one_account; sha256 = λ m. m }

pub laws : SessionLaws one_account (λ t. t)
laws = record {
  stored = λ db row ok active token_ok name_ok. rw (equal_refl row.token, active) refl;
  login_kept = λ db now id token. refl;
  deleted = gone;
}
  where
    gone :
        (db : Option SessionRow) (token : Bytes)
        → true ≡ true
        → find_session (drop_session db token) token ≡ none
    gone none token h = refl
    gone (some row) token h = elim (Bool-cases (equal row.token token)) [
      | inl e ↦ rw e refl
      | inr e ↦ rw e (rw e refl)
    ]

abbrev pub rand : Rand
rand n = some (zeros n)

abbrev pub token : Bytes
token = hex (zeros 32)

accepted : IsGranted platform 7 rand (codes "annika") (codes "sunset") none annika token
unfolding validate_username validate_password equal verify_password hex find substr substr_from
    generate_session_token
accepted = record {
  named = refl;
  long_enough = refl;
  known = refl;
  active = refl;
  verified = refl;
  drawn = refl;
  created = refl;
}

pub token_filled : is_empty token ≡ false
unfolding hex
token_filled = refl

authenticate-validate_session_example :
    let opened = (authenticate platform true 7 rand (codes "annika") (codes "sunset") none).1 in
    (validate_session platform true 9 token opened ≡ (
      if ltb (7 + session_duration) 9
      then (none, (platform.delete_session opened token).1)
      else (some (codes "annika", 4), opened)))
    × ((platform.delete_session opened token).0 ≡ true
        → (validate_session platform true 9 token
            (invalidate_session platform true token opened).1).0
          ≡ none)
authenticate-validate_session_example =
    authenticate-validate_session platform 7 rand (codes "annika") (codes "sunset") none (λ t. t)
      laws annika token accepted token_filled 9

abbrev address : Bytes
address = codes "ann.b@chat.example.org"

validate_email_iff_example : (validate_email address ≡ true) ↔ ((address ≡ []) ⊎ IsAddress address)
validate_email_iff_example = validate_email_iff address
