-- ===== src/Auth.antt =====
-- src/common/auth.hpp and auth.cpp: `AuthManager`. Each operation opens the database anew; `connected`
-- is what `Database::initialize` returns then. The regular expressions are matched by hand.
pub mod Email
pub mod Lifecycle
pub mod Enrolment
pub mod Tests
use cli_chat.Base.{
  ℕ, ◌+◌, Bool, true, false, not, ◌&&◌, ◌||◌, [], ◌∷◌, Option, none, some, ◌==◌, ltb, leb, is_empty,
  all, length, take, drop, if◌then◌else◌,
}
use cli_chat.Text.{Bytes, codes, find}
use cli_chat.Crypto.{Rand, generate_session_token, hash_password, verify_password}
use cli_chat.Database.{User, SessionRow, hours}
use cli_chat.Server.State.{Platform}

-- `user_id` is not initialized in a result of failure.
pub record AuthResult : Type 0 where
  pub success : Bool
  pub message : Bytes
  pub token : Bytes
  pub user_id : Option ℕ
  pub username : Bytes

abbrev pub failure : Bytes → AuthResult
failure message = record {
  success = false;
  message = message;
  token = [];
  user_id = none;
  username = [];
}

abbrev pub min_password_length : ℕ
min_password_length = 6

abbrev pub max_username_length : ℕ
max_username_length = 32

abbrev pub session_duration : ℕ
session_duration = hours 24

abbrev pub is_letter : ℕ → Bool
is_letter c = leb b'a' c && leb c b'z' || leb b'A' c && leb c b'Z'

abbrev pub is_alphanumeric : ℕ → Bool
is_alphanumeric c = is_letter c || leb b'0' c && leb c b'9'

-- [a-zA-Z0-9_-]
abbrev pub is_name_char : ℕ → Bool
is_name_char c = is_alphanumeric c || c == b'_' || c == b'-'

-- [a-zA-Z0-9._%+-]
abbrev pub is_local_char : ℕ → Bool
is_local_char c = is_alphanumeric c || c == b'.' || c == b'_' || c == b'%' || c == b'+' || c == b'-'

-- [a-zA-Z0-9.-]
abbrev pub is_domain_char : ℕ → Bool
is_domain_char c = is_alphanumeric c || c == b'.' || c == b'-'

-- AuthManager::validateUsername
unfoldable pub validate_username : Bytes → Bool
validate_username username =
    if is_empty username || ltb max_username_length (length username)
    then false
    else all is_name_char username

-- AuthManager::validatePassword
unfoldable pub validate_password : Bytes → Bool
validate_password password = leb min_password_length (length password)

-- [a-zA-Z]{2,} to the end
unfoldable pub match_tld : Bytes → Bool
match_tld s = leb 2 (length s) && all is_letter s

-- [a-zA-Z0-9.-]+\.[a-zA-Z]{2,} to the end; `some_read` says that the repetition has a character.
unfoldable pub match_domain : Bool → Bytes → Bool
unfolding match_tld
match_domain some_read [] = false
match_domain some_read (c ∷ s) =
    some_read && (c == b'.' && match_tld s) || is_domain_char c && match_domain true s

-- AuthManager::validateEmail; the part in front of `@` holds no `@`.
unfoldable pub validate_email : Bytes → Bool
unfolding match_domain
validate_email email = if is_empty email then true else elim (find email b'@') [
  | none ↦ false
  | some pos ↦
      not (is_empty (take pos email))
      && (all is_local_char (take pos email) && match_domain false (drop (pos + 1) email))
]

abbrev pub session_row : ℕ → Bytes → User → Bytes → SessionRow
session_row now username user token = record {
  token = token;
  user_id = user.id;
  username = username;
  created_at = now;
  expires_at = now + session_duration;
  is_active = true;
}

abbrev pub granted : Bytes → User → Bytes → AuthResult
granted username user token = record {
  success = true;
  message = codes "Authentication successful";
  token = token;
  user_id = some user.id;
  username = username;
}

module _ (p : Platform) (connected : Bool) where
  open p use {
    Db, sha256, get_user_by_username, create_user, create_session, update_last_login, get_session,
    delete_session,
  }

  -- `authenticate` from the creation of the session on.
  unfoldable pub grant : ℕ → Rand → Bytes → User → Db → Option AuthResult × Db
  grant now rand username user db = elim (generate_session_token rand) [
    | none ↦ (none, db)
    | some token ↦
        let created = create_session db (session_row now username user token) in
        if not created.0
        then (some (failure (codes "Failed to create session")), created.1)
        else (some (granted username user token), (update_last_login created.1 now user.id).1)
  ]

  -- AuthManager::authenticate; a `none` is an exception.
  unfoldable pub authenticate : ℕ → Rand → Bytes → Bytes → Db → Option AuthResult × Db
  unfolding grant validate_username validate_password
  authenticate now rand username password db =
      if not (validate_username username) || not (validate_password password)
      then (some (failure (codes "Invalid username or password format")), db)
      else if not connected
      then (some (failure (codes "Database connection failed")), db)
      else elim (get_user_by_username db username) [
        | none ↦ (some (failure (codes "User not found")), db)
        | some user ↦
            if not user.is_active
            then (some (failure (codes "Account disabled")), db)
            else if not (verify_password sha256 password user.password_hash)
            then (some (failure (codes "Invalid password")), db)
            else grant now rand username user db
      ]

  -- `registerUser` from the hash on.
  unfoldable pub create_account : ℕ → Rand → Bytes → Bytes → Bytes → Db → Option AuthResult × Db
  create_account now rand username password email db = elim (hash_password sha256 rand password) [
    | none ↦ (none, db)
    | some password_hash ↦
        let created = create_user db now username password_hash email in
        if not created.0 then (some (failure (codes "Failed to create user")), created.1) else (
          some (record (failure (codes "Registration successful")) { success = true }),
          created.1,
        )
  ]

  -- AuthManager::registerUser
  unfoldable pub register_user : ℕ → Rand → Bytes → Bytes → Bytes → Db → Option AuthResult × Db
  unfolding create_account validate_username validate_password validate_email
  register_user now rand username password email db =
      if not (validate_username username)
      then (some (failure (codes "Invalid username format")), db)
      else if not (validate_password password)
      then (some (failure (codes "Password too weak")), db)
      else if not (is_empty email) && not (validate_email email)
      then (some (failure (codes "Invalid email format")), db)
      else if not connected
      then (some (failure (codes "Database connection failed")), db)
      else elim (get_user_by_username db username) [
        | some _ ↦ (some (failure (codes "Username already taken")), db)
        | none ↦ create_account now rand username password email db
      ]

  -- AuthManager::validateSession, with the two values that it hands out.
  unfoldable pub validate_session : ℕ → Bytes → Db → Option (Bytes × ℕ) × Db
  validate_session now token db =
      if is_empty token || not connected then (none, db) else elim (get_session db token) [
        | none ↦ (none, db)
        | some session ↦
            if not session.is_active
            then (none, db)
            else if ltb session.expires_at now
            then (none, (delete_session db token).1)
            else (some (session.username, session.user_id), db)
      ]

  -- AuthManager::invalidateSession
  unfoldable pub invalidate_session : Bytes → Db → Bool × Db
  invalidate_session token db =
      if is_empty token || not connected then (false, db) else delete_session db token
