-- ===== src/Crypto/Tls.antt =====
-- src/common/crypto.hpp and crypto.cpp, `TLSContext`, with what OpenSSL allocates and what must be freed.
-- Of the calls of OpenSSL whose results the code ignores, EVP_PKEY_assign_RSA and the writing of the
-- files may fail here, and the rest do only where the key is missing.
use cli_chat.Base.{
  ℕ, Bool, true, false, not, ◌&&◌, ◌||◌, List, [], ◌∷◌, Option, none, some, if◌then◌else◌,
}
use cli_chat.Text.{Bytes, codes, equal}

-- An `X509`: the times are seconds from now, and a name is a list of its entries. There is no public
-- key and no signature if the `EVP_PKEY` has none.
pub record Certificate (Key : Type 0) : Type 0 where
  pub serial : ℕ
  pub not_before : ℕ
  pub not_after : ℕ
  pub public_key : Option Key
  pub subject : List (Bytes × Bytes)
  pub issuer : List (Bytes × Bytes)
  pub signed_by : Option Key

-- OpenSSL and the file system: the allocations, the key that is generated, whether it is, whether
-- EVP_PKEY_assign_RSA succeeds, whether a file can be opened for writing, and the PEM texts; `none` is a text that cannot be written.
pub record OpenSsl : Type 1 where
  pub Key : Type 0
  pub pkey_new : Bool
  pub rsa_new : Bool
  pub bn_new : Bool
  pub x509_new : Bool
  pub generates_key : Bool
  pub assigns : Bool
  pub generated : Key
  pub opens : Bytes → Bool
  pub print_certificate : Certificate Key → Option Bytes
  pub print_key : Option Key → Option Bytes
  pub read_certificate : Bytes → Option (Certificate Key)
  pub read_key : Bytes → Option Key
  pub belongs : Key → Certificate Key → Bool

-- What is allocated or open. `owned` says that the `RSA` belongs to the `EVP_PKEY`, and `invalid` that
-- something was freed, closed or used that was not allocated or open.
pub record Ledger : Type 0 where
  pub pkey : Bool
  pub rsa : Bool
  pub bn : Bool
  pub x509 : Bool
  pub cert_fp : Bool
  pub key_fp : Bool
  pub owned : Bool
  pub invalid : Bool

abbrev pub clear : Ledger
clear = record {
  pkey = false;
  rsa = false;
  bn = false;
  x509 = false;
  cert_fp = false;
  key_fp = false;
  owned = false;
  invalid = false;
}

-- EVP_PKEY_assign_RSA, which takes the `RSA` only if it succeeds.
unfoldable pub pkey_assign : Bool → Ledger → Ledger
pkey_assign succeeds l = record l { owned = succeeds; invalid = l.invalid || not (l.pkey && l.rsa) }

-- EVP_PKEY_free, which frees an `RSA` that the key owns.
unfoldable pub pkey_free : Ledger → Ledger
pkey_free l = record l {
  pkey = false;
  rsa = l.rsa && not l.owned;
  owned = false;
  invalid = l.invalid || not l.pkey;
}

unfoldable pub rsa_free : Ledger → Ledger
rsa_free l = record l { rsa = false; invalid = l.invalid || not l.rsa || l.owned }

unfoldable pub bn_free : Ledger → Ledger
bn_free l = record l { bn = false; invalid = l.invalid || not l.bn }

unfoldable pub x509_free : Ledger → Ledger
x509_free l = record l { x509 = false; invalid = l.invalid || not l.x509 }

-- X509_set_pubkey and X509_sign use the certificate and the key.
unfoldable pub x509_sign : Ledger → Ledger
x509_sign l = record l { invalid = l.invalid || not (l.x509 && l.pkey) }

-- PEM_write_X509 and fclose
unfoldable pub write_certificate : Ledger → Ledger
write_certificate l = record l { cert_fp = false; invalid = l.invalid || not (l.cert_fp && l.x509) }

-- PEM_write_PrivateKey and fclose
unfoldable pub write_key : Ledger → Ledger
write_key l = record l { key_fp = false; invalid = l.invalid || not (l.key_fp && l.pkey) }

-- The files by their names.
abbrev pub Files : Type 0
Files = Bytes → Option Bytes

-- fopen with "w", and the text that is written, if it can be.
unfoldable pub put_file : Bytes → Option Bytes → Files → Files
put_file name text files other =
    if equal other name then some (elim text [ none ↦ [] | some t ↦ t ]) else files other

abbrev pub distinguished_name : Bytes → List (Bytes × Bytes)
distinguished_name common_name =
    (codes "C", codes "US") ∷ (codes "O", codes "CLI-Chat") ∷ (codes "CN", common_name) ∷ []

-- A `ssl::context`: its options, whether it verifies the other side's certificate, and what was loaded
-- into it.
pub record Context (Key : Type 0) : Type 0 where
  pub default_workarounds : Bool
  pub no_sslv2 : Bool
  pub no_sslv3 : Bool
  pub single_dh_use : Bool
  pub verifies : Bool
  pub certificate : Option (Certificate Key)
  pub private_key : Option Key

-- The context of createServerContext before the files are loaded; a new context verifies nothing.
abbrev pub server_context : {Key : Type 0} → Context Key
server_context = record {
  default_workarounds = true;
  no_sslv2 = true;
  no_sslv3 = true;
  single_dh_use = true;
  verifies = false;
  certificate = none;
  private_key = none;
}

-- TLSContext::createClientContext
abbrev pub create_client_context : {Key : Type 0} → Context Key
create_client_context = record server_context { single_dh_use = false }

module _ (o : OpenSsl) where
  -- The key of the `EVP_PKEY`.
  abbrev pub pkey_key : Option o.Key
  pkey_key = if o.assigns then some o.generated else none

  abbrev pub self_signed : Bytes → Certificate o.Key
  self_signed common_name = record {
    serial = 1;
    not_before = 0;
    not_after = 31536000;
    public_key = pkey_key;
    subject = distinguished_name common_name;
    issuer = distinguished_name common_name;
    signed_by = pkey_key;
  }

  -- From the two files on.
  unfoldable pub write_files : Bytes → Bytes → Bytes → Ledger → Files → Bool × Ledger × Files
  unfolding write_certificate write_key bn_free x509_free pkey_free put_file
  write_files cert_file key_file common_name l files =
      let l1 = write_certificate (record l { cert_fp = true }) in
      let files1 = put_file cert_file (o.print_certificate (self_signed common_name)) files in
      let l2 = write_key (record l1 { key_fp = true }) in
      if not (o.opens cert_file)
      then (false, pkey_free (x509_free (bn_free l)), files)
      else if not (o.opens key_file)
      then (false, pkey_free (x509_free (bn_free l1)), files1)
      else (
        true,
        pkey_free (x509_free (bn_free l2)),
        put_file key_file (o.print_key pkey_key) files1,
      )

  -- TLSContext::generateSelfSignedCert
  unfoldable pub generate_self_signed_cert :
      Bytes → Bytes → Bytes → Ledger → Files → Bool × Ledger × Files
  unfolding pkey_assign pkey_free rsa_free bn_free x509_sign write_files
  generate_self_signed_cert cert_file key_file common_name l files =
      let l = record l { pkey = o.pkey_new; rsa = o.rsa_new; bn = o.bn_new } in
      let assigned = pkey_assign o.assigns l in
      if not o.pkey_new || not o.rsa_new || not o.bn_new
      then (false, l, files)
      else if not o.generates_key
      then (false, pkey_free (rsa_free (bn_free l)), files)
      else if not o.x509_new
      then (false, pkey_free (bn_free assigned), files)
      else write_files cert_file key_file common_name (x509_sign (record assigned { x509 = true }))
          files

  -- TLSContext::createServerContext: `none` is the exception. OpenSSL refuses a key that does not
  -- belong to the certificate loaded before it.
  unfoldable pub create_server_context : Bytes → Bytes → Files → Option (Context o.Key)
  create_server_context cert_file key_file files = elim (files cert_file) [
    | none ↦ none
    | some certificate ↦ elim (o.read_certificate certificate) [
      | none ↦ none
      | some c ↦ elim (files key_file) [
        | none ↦ none
        | some key ↦ elim (o.read_key key) [
          | none ↦ none
          | some k ↦
              if o.belongs k c
              then some (record server_context { certificate = some c; private_key = some k })
              else none
        ]
      ]
    ]
  ]
