-- ===== src/Crypto/Tests.antt =====
-- Runs of `CryptoUtils`, and its theorems at concrete inputs. The digest here is a length, and the
-- drawn bytes are zeros.
use cli_chat.Base.{
  ◌⊎◌, none, ◌≡◌, refl, ℕ, ◌%◌, true, false, [], ◌∷◌, some, zero, suc, length, all, arith,
}
use cli_chat.Text.{Bytes, codes, equal, find, substr, substr_from}
use cli_chat.Crypto.Cipher.{decrypt_message-encrypt_message}
use cli_chat.Crypto.{
  encrypt_message, decrypt_message, Rand, hex, hash_password, verify_password,
  generate_session_token,
}
use cli_chat.Crypto.Hex.{is_hex}
use cli_chat.Crypto.Password.{IsBytes, verify_password-hash_password, generate_session_token-shape}
use cli_chat.Crypto.Tls.{
  Certificate, OpenSsl, distinguished_name, clear, generate_self_signed_cert, create_server_context,
  server_context,
}
use cli_chat.Crypto.Certificates.{
  generate_self_signed_cert-frees, create_server_context-generate_self_signed_cert,
}

abbrev pub digest : Bytes → Bytes
digest m = (length m % 256) ∷ []

abbrev zeros : ℕ → Bytes
zeros zero = []
zeros (suc n) = 0 ∷ zeros n

abbrev rand : Rand
rand n = some (zeros n)

abbrev stored : Bytes
stored = codes "00000000000000000000000000000000$26"

stored_hash : hash_password digest rand (codes "secret") ≡ some stored
unfolding hash_password
stored_hash = refl

pub digest-IsBytes : (m : Bytes) → IsBytes (digest m)
digest-IsBytes m = ground arith

verify_password-hash_password_example : verify_password digest (codes "secret") stored ≡ true
verify_password-hash_password_example =
    (verify_password-hash_password digest digest-IsBytes rand (codes "secret") (codes "other")
      stored stored_hash).0

verify_password_rejects : verify_password digest (codes "other") stored ≡ false
unfolding verify_password hex find substr substr_from equal
verify_password_rejects = refl

zeros_drawn : (n : ℕ) → (length (zeros n) ≡ n) × IsBytes (zeros n)
zeros_drawn zero = (refl, refl)
zeros_drawn (suc n) = ground (arith, zeros_drawn n)

draws : (n : ℕ) (bs : Bytes) → rand n ≡ some bs → (length bs ≡ n) × IsBytes bs
draws n bs e = ground (arith, zeros_drawn n)

generate_session_token-shape_example :
    ((rand 32 ≡ none) × (generate_session_token rand ≡ none))
    ⊎ ((bs : Bytes) × (rand 32 ≡ some bs)
        × ((token : Bytes) × (generate_session_token rand ≡ some token)
            × (length token ≡ 64)
            × (all is_hex token ≡ true)))
generate_session_token-shape_example = generate_session_token-shape rand draws

abbrev self_signed_of : Bytes → Certificate Bytes
self_signed_of key = record {
  serial = 1;
  not_before = 0;
  not_after = 31536000;
  public_key = some key;
  subject = distinguished_name (codes "localhost");
  issuer = distinguished_name (codes "localhost");
  signed_by = some key;
}

-- The PEM text of a certificate is the text of its key, and a key is its own text.
abbrev openssl : OpenSsl
openssl = record {
  Key = Bytes;
  pkey_new = true;
  rsa_new = true;
  bn_new = true;
  x509_new = true;
  generates_key = true;
  assigns = true;
  generated = codes "k";
  opens = λ name. true;
  print_certificate = λ c. c.public_key;
  print_key = λ k. k;
  read_certificate = λ text. some (self_signed_of text);
  read_key = some;
  belongs = λ k c. elim c.public_key [ none ↦ false | some public ↦ equal k public ];
}

abbrev fails : OpenSsl
fails = record openssl { rsa_new = false }

generate_self_signed_cert-frees_example :
    (generate_self_signed_cert fails
      (codes "c")
      (codes "k")
      (codes "localhost")
      clear
      (λ f. none)).1
    ≡ record clear { pkey = true; bn = true }
generate_self_signed_cert-frees_example =
    generate_self_signed_cert-frees fails (codes "c") (codes "k") (codes "localhost") (λ f. none)

create_server_context-generate_self_signed_cert_example :
    ((generate_self_signed_cert openssl
        (codes "c")
        (codes "k")
        (codes "localhost")
        clear
        (λ f. none)).0
      ≡ true)
    × (create_server_context openssl
          (codes "c")
          (codes "k")
          (generate_self_signed_cert openssl
            (codes "c")
            (codes "k")
            (codes "localhost")
            clear
            (λ f. none)).2
        ≡ some (record server_context {
          certificate = some (self_signed_of (codes "k"));
          private_key = some (codes "k");
        }))
unfolding equal
create_server_context-generate_self_signed_cert_example =
    create_server_context-generate_self_signed_cert openssl (codes "c") (codes "k")
      (codes "localhost") (λ f. none) (codes "k") (codes "k") refl refl refl refl refl refl refl
      refl

decrypt_message-encrypt_message_example :
    (c : Bytes) × (encrypt_message (codes "meet at noon") (codes "key") ≡ some c)
    × (decrypt_message c (codes "key") ≡ some (codes "meet at noon"))
decrypt_message-encrypt_message_example =
    decrypt_message-encrypt_message (codes "meet at noon") (codes "key") refl
