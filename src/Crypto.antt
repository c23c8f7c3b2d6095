-- ===== src/Crypto.antt =====
-- src/common/crypto.hpp and crypto.cpp, `CryptoUtils`. OpenSSL's `SHA256` is the parameter `sha256`;
-- what `RAND_bytes` delivers for a buffer of n bytes is `rand n`, and `none` is its failure, on which
-- the source throws.
pub mod Hex
pub mod Password
pub mod Cipher
pub mod Tls
pub mod Certificates
pub mod Tests
use Prim.Native.Nat.{bit_xor}
use mathlib.Core.Option
use cli_chat.Base.{
  get_elem?, ℕ, ◌-◌, zero, suc, ◌+◌, ◌/◌, ◌%◌, Bool, false, List, [], ◌∷◌, ◌++◌, Option, none, some,
  ltb, length, if◌then◌else◌, ◌==◌,
}
use cli_chat.Text.{Bytes, equal, find, substr, substr_from}

abbrev pub salt_length : ℕ
salt_length = 16

abbrev pub token_length : ℕ
token_length = 32

unfoldable pub hex_digit : ℕ → ℕ
hex_digit n = if ltb n 10 then b'0' + n else b'a' - 10 + n

-- The loops over `std::hex << std::setw(2) << std::setfill('0')`.
unfoldable pub hex : Bytes → Bytes
unfolding hex_digit
hex [] = []
hex (b ∷ bs) = hex_digit (b / 16) ∷ hex_digit (b % 16) ∷ hex bs

abbrev pub Rand : Type 0
Rand = ℕ → Option Bytes

unfoldable pub generate_session_token : Rand → Option Bytes
unfolding hex
generate_session_token rand = Option.map hex (rand token_length)

unfoldable pub generate_salt : Rand → Option Bytes
unfolding hex
generate_salt rand = Option.map hex (rand salt_length)

module _ (sha256 : Bytes → Bytes) where
  unfoldable pub hash_with_salt : Bytes → Bytes → Bytes
  hash_with_salt password salt = salt ++ b'$' ∷ hex (sha256 (password ++ salt))

  unfoldable pub hash_password : Rand → Bytes → Option Bytes
  unfolding hash_with_salt generate_salt
  hash_password rand password = Option.map (hash_with_salt password) (generate_salt rand)

  unfoldable pub verify_password : Bytes → Bytes → Bool
  verify_password password hash = elim (find hash b'$') [
    | none ↦ false
    | some pos ↦ elim (substr hash 0 pos) [
      | none ↦ false
      | some salt ↦ elim (substr_from hash (pos + 1)) [
        | none ↦ false
        | some stored_hash ↦ equal (hex (sha256 (password ++ salt))) stored_hash
      ]
    ]
  ]

-- key[i % key.length()]; a `none` is the division by zero on an empty key.
key_byte : Bytes → ℕ → Option ℕ
key_byte key i = get_elem? key (i % length key)

encrypt_loop : ℕ → Bytes → Bytes → Option Bytes
encrypt_loop i [] key = some []
encrypt_loop i (c ∷ cs) key = elim (key_byte key i) [
  | none ↦ none
  | some k ↦ Option.map (λ rest. bit_xor c k ∷ rest) (encrypt_loop (i + 1) cs key)
]

unfoldable pub encrypt_message : Bytes → Bytes → Option Bytes
unfolding encrypt_loop key_byte
encrypt_message message key = encrypt_loop 0 message key

unfoldable pub decrypt_message : Bytes → Bytes → Option Bytes
unfolding encrypt_message
decrypt_message encrypted key = encrypt_message encrypted key
