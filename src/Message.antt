-- ===== src/Message.antt =====
-- src/common/message.hpp and message.cpp: chat messages and the line protocol. `none` stands for the
-- `std::out_of_range` of `substr`. The clock that the constructor reads is an argument.
pub mod Reserved
pub mod RoundTrip
pub mod Throws
pub mod Escape
pub mod UserList
mod Tests
use cli_chat.Base.{
  ℕ, zero, suc, ◌+◌, ◌-◌, Bool, true, false, List, [], ◌∷◌, ◌++◌, ◌||◌, Option, none, some, ◌==◌,
  is_empty, if◌then◌else◌,
}
use cli_chat.Text.{Bytes, codes, starts_with, find, find_from, substr, substr_from, split}

pub data MessageType : Type 0 where
  broadcast private system auth user_list error : MessageType

pub record ChatMessage : Type 0 where
  pub type : MessageType
  pub sender : Bytes
  pub recipient : Bytes
  pub content : Bytes
  pub timestamp : ℕ

abbrev pub colon : ℕ
colon = b':'

-- `f (← e)` under the exception of `substr`.
infixl 5 ◌>>=◌
abbrev pub ◌>>=◌ {ℓ κ} : {A : Type ℓ} {B : Type κ} → Option A → (A → Option B) → Option B
none >>= f = none
some a >>= f = f a

-- The default constructor, at the time `now`.
abbrev pub chat_message : ℕ → ChatMessage
chat_message now = record {
  type = broadcast;
  sender = [];
  recipient = [];
  content = [];
  timestamp = now;
}

parse_private : ℕ → Bytes → Option ChatMessage
parse_private now raw = elim (find_from raw colon 8) [
  | none ↦ some (record (chat_message now) { type = private })
  | some i ↦ do
    s ← substr raw 8 (i - 8)
    c ← substr_from raw (i + 1)
    some (record (chat_message now) { type = private; sender = s; content = c })
]

parse_at : ℕ → Bytes → Option ChatMessage
parse_at now raw = elim (find raw colon) [
  | none ↦ some (record (chat_message now) { type = private })
  | some i ↦ do
    r ← substr raw 1 (i - 1)
    c ← substr_from raw (i + 1)
    some (record (chat_message now) { type = private; recipient = r; content = c })
]

pub parse_broadcast : ℕ → Bytes → Option ChatMessage
parse_broadcast now raw = elim (find raw colon) [
  | none ↦ some (record (chat_message now) { content = raw })
  | some i ↦ do
    s ← substr raw 0 i
    c ← substr_from raw (i + 2)
    some (record (chat_message now) { sender = s; content = c })
]

parse_tail : MessageType → ℕ → Bytes → ℕ → Option ChatMessage
parse_tail t now raw pos = do
  c ← substr_from raw pos
  some (record (chat_message now) { type = t; content = c })

-- MessageParser::parse
pub parse : ℕ → Bytes → Option ChatMessage
unfolding parse_private parse_at parse_broadcast parse_tail
parse now raw =
    if starts_with raw (codes "login:")
    then some (record (chat_message now) { type = auth; content = raw })
    else if starts_with raw (codes "register:")
    then some (record (chat_message now) { type = auth; content = raw })
    else if starts_with raw (codes "auth:")
    then some (record (chat_message now) { type = auth; content = raw })
    else if starts_with raw (codes "users:")
    then some (record (chat_message now) { type = user_list; content = raw })
    else if starts_with raw (codes "error:")
    then parse_tail error now raw 6
    else if starts_with raw (codes "system:")
    then parse_tail system now raw 7
    else if starts_with raw (codes "private:")
    then parse_private now raw
    else if starts_with raw (codes "@")
    then parse_at now raw
    else parse_broadcast now raw

pub serialize_as : MessageType → ChatMessage → Bytes
serialize_as broadcast m =
    if is_empty m.sender then m.content else m.sender ++ (codes ": " ++ m.content)
serialize_as private m =
    if is_empty m.sender
    then codes "@" ++ (m.recipient ++ colon ∷ m.content)
    else codes "private:" ++ (m.sender ++ colon ∷ m.content)
serialize_as system m = codes "system:" ++ m.content
serialize_as error m = codes "error:" ++ m.content
serialize_as auth m = m.content
serialize_as user_list m = m.content

-- MessageParser::serialize
pub serialize : ChatMessage → Bytes
unfolding serialize_as
serialize m = serialize_as m.type m

unfoldable pub build_login_message : Bytes → Bytes → Bytes
build_login_message username password = codes "login:" ++ (username ++ colon ∷ password)

unfoldable pub build_register_message : Bytes → Bytes → Bytes → Bytes
build_register_message username password email =
    let message = codes "register:" ++ (username ++ colon ∷ password) in
    if is_empty email then message else message ++ colon ∷ email

unfoldable pub build_broadcast_message : Bytes → Bytes
build_broadcast_message content = codes "broadcast:" ++ content

unfoldable pub build_private_message : Bytes → Bytes → Bytes
build_private_message recipient content = codes "@" ++ (recipient ++ colon ∷ content)

unfoldable pub build_user_list_request : Bytes
build_user_list_request = codes "users"

unfoldable pub build_logout_message : Bytes
build_logout_message = codes "logout"

unfoldable pub is_auth_response : Bytes → Bool
is_auth_response message = starts_with message (codes "auth:")

unfoldable pub is_user_list_response : Bytes → Bool
is_user_list_response message = starts_with message (codes "users:")

unfoldable pub is_error_response : Bytes → Bool
is_error_response message = starts_with message (codes "error:")

-- `if (!user.empty()) users.push_back(user)` over the pieces
unfoldable pub keep_users : List Bytes → List Bytes
keep_users [] = []
keep_users (u ∷ us) = let rest = keep_users us in if is_empty u then rest else u ∷ rest

-- MessageParser::parseUserList
unfoldable pub parse_user_list : Bytes → Option (List Bytes)
unfolding is_user_list_response keep_users
parse_user_list message =
    if is_user_list_response message
    then (do
      list ← substr_from message 6
      some (if is_empty list then [] else keep_users (split b',' list)))
    else some []

unfoldable pub escape_string : Bytes → Bytes
escape_string [] = []
escape_string (c ∷ s) =
    let rest = escape_string s in if c == colon || c == b'\\' then b'\\' ∷ c ∷ rest else c ∷ rest

-- The flag is the local `escaped`.
unescape_loop : Bool → Bytes → Bytes
unescape_loop escaped [] = []
unescape_loop true (c ∷ s) = c ∷ unescape_loop false s
unescape_loop false (c ∷ s) = elim (c == b'\\') [
  | true ↦ unescape_loop true s
  | false ↦ c ∷ unescape_loop false s
]

unfoldable pub unescape_string : Bytes → Bytes
unfolding unescape_loop
unescape_string s = unescape_loop false s
