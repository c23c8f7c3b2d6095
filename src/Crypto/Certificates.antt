-- ===== src/Crypto/Certificates.antt =====
-- `generateSelfSignedCert`: what it frees, what it writes, and that what it writes can be loaded.
use cli_chat.Base.{◌≡◌, refl, ◌∙◌, Bool, true, false, not, ◌&&◌, Option, some, arith, if◌then◌else◌}
use cli_chat.Text.{Bytes, equal}
use cli_chat.Text.Laws.{equal_refl}
use cli_chat.Crypto.Tls.{
  server_context, Certificate, OpenSsl, Ledger, clear, Files, put_file, self_signed, pkey_key,
  write_files, generate_self_signed_cert, create_server_context, pkey_assign, pkey_free, rsa_free,
  bn_free, x509_free, x509_sign, write_certificate, write_key,
}

module _ (o : OpenSsl) (cert_file key_file common_name : Bytes) (files : Files) where
  -- Whichever of the allocations, of the generation and the assignment of the key and of the openings of
  -- the files fail: nothing is freed or closed twice or used after it is freed. If the key, the number
  -- and the RSA structure could all be allocated, then everything is freed on return, but for the RSA
  -- structure where it was generated and could not be assigned. Otherwise those of the three that
  -- could be allocated stay so.
  pub generate_self_signed_cert-frees :
      (generate_self_signed_cert o cert_file key_file common_name clear files).1 ≡ (
        if o.pkey_new && (o.rsa_new && o.bn_new)
        then record clear { rsa = o.generates_key && not o.assigns }
        else record clear { pkey = o.pkey_new; rsa = o.rsa_new; bn = o.bn_new })
  unfolding generate_self_signed_cert write_files pkey_assign pkey_free rsa_free bn_free x509_free
      x509_sign write_certificate write_key
  generate_self_signed_cert-frees = ground arith

  -- It succeeds exactly when the allocations and the generation of the key do and both files open,
  -- whatever becomes of their texts.
  pub generate_self_signed_cert-result :
      (generate_self_signed_cert o cert_file key_file common_name clear files).0 ≡ (
        (o.pkey_new && (o.rsa_new && o.bn_new))
        && (o.generates_key && (o.x509_new && (o.opens cert_file && o.opens key_file))))
  unfolding generate_self_signed_cert write_files
  generate_self_signed_cert-result = ground arith

  -- The files after a success.
  generate_self_signed_cert-files :
      (generate_self_signed_cert o cert_file key_file common_name clear files).0 ≡ true
      → (generate_self_signed_cert o cert_file key_file common_name clear files).2
        ≡ put_file key_file
            (o.print_key (pkey_key o))
            (put_file cert_file (o.print_certificate (self_signed o common_name)) files)
  unfolding generate_self_signed_cert write_files
  generate_self_signed_cert-files = ground arith

put_file_same :
    (name text : Bytes) (files : Files) → put_file name (some text) files name ≡ some text
unfolding put_file
put_file_same name text files = rw (equal_refl name)

put_file_other :
    (name other : Bytes) (text : Option Bytes) (files : Files)
    → equal other name ≡ false
    → put_file name text files other ≡ files other
unfolding put_file
put_file_other name other text files e = rw e

create_server_context-loads :
    (o : OpenSsl) (cert_file key_file a b : Bytes) (files : Files) (c : Certificate o.Key)
    (k : o.Key)
    → files cert_file ≡ some a
    → o.read_certificate a ≡ some c
    → files key_file ≡ some b
    → o.read_key b ≡ some k
    → o.belongs k c ≡ true
    → create_server_context o cert_file key_file files
      ≡ some (record server_context { certificate = some c; private_key = some k })
unfolding create_server_context
create_server_context-loads o cert_file key_file a b files c k fc rc fk rk m =
    rw (fc, create_server_context) (rw rc (rw fk (rw rk (rw m refl))))

module _ (o : OpenSsl) (cert_file key_file common_name : Bytes) (files : Files) where
  abbrev generated : Bool × Ledger × Files
  generated = generate_self_signed_cert o cert_file key_file common_name clear files

  -- Suppose that the two PEM texts can be written and read back, that the generated key belongs to
  -- a certificate with it, that the two files have different names, and that the allocations and the
  -- generation and the assignment of the key succeed and both files open. Then the certificate and the
  -- key are generated, and the context that is made from the two files holds this certificate, signed
  -- with this key, and this key.
  pub create_server_context-generate_self_signed_cert :
      (certificate key : Bytes)
      → o.print_certificate (self_signed o common_name) ≡ some certificate
      → o.assigns ≡ true
      → o.print_key (some o.generated) ≡ some key
      → o.read_certificate certificate ≡ some (self_signed o common_name)
      → o.read_key key ≡ some o.generated
      → o.belongs o.generated (self_signed o common_name) ≡ true
      → equal cert_file key_file ≡ false
      → (o.pkey_new && (o.rsa_new && o.bn_new))
          && (o.generates_key && (o.x509_new && (o.opens cert_file && o.opens key_file)))
        ≡ true
      → ((generate_self_signed_cert o cert_file key_file common_name clear files).0 ≡ true)
        × (create_server_context o cert_file key_file
              (generate_self_signed_cert o cert_file key_file common_name clear files).2
            ≡ some (record server_context {
              certificate = some (self_signed o common_name);
              private_key = some o.generated;
            }))
  create_server_context-generate_self_signed_cert certificate key pc assigned pk rc rk b apart ok =
      let first : Files = put_file cert_file (some certificate) files in
      let done = generate_self_signed_cert-result o cert_file key_file common_name files ∙ ok in
      let e : generated.2 ≡ put_file key_file (some key) first =
        generate_self_signed_cert-files o cert_file key_file common_name files done
        ∙ rw assigned (rw (rw assigned at pc, pk) refl) in
      let fc =
        put_file_other key_file cert_file (some key) first apart
        ∙ put_file_same cert_file certificate files in
      let fk = put_file_same key_file key first in
      (
        done,
        rw e (
            create_server_context-loads o cert_file key_file certificate key
              (put_file key_file (some key) first) (self_signed o common_name) o.generated fc rc fk
              rk b),
      )
