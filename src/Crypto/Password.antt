-- ===== src/Crypto/Password.antt =====
-- Stored hashes and drawn texts.
use cli_chat.Base.{
  all-append, not, ◌==◌, append_assoc, length-append, ◌≡◌, refl, ◌∙◌, ap, sym, ◌↔◌, ◌⊎◌, inl, inr,
  ℕ, ◌+◌, true, [], ◌∷◌, ◌++◌, some, arith, ltb, all, length, none, Option-cases,
}
use cli_chat.Text.{Bytes, equal}
use cli_chat.Text.Laws.{Lacks, equal_refl, equal_iff, find-append, substr-at, substr_from-at}
use cli_chat.Crypto.{
  Rand, salt_length, hex, hash_with_salt, hash_password, verify_password, generate_salt,
  generate_session_token,
}
use cli_chat.Crypto.Hex.{hex-no_nul, is_hex, length-hex, hex-is_hex, hex-Lacks, hex_injective}

abbrev pub IsBytes : Bytes → Type 0
IsBytes bs = all (λ b. ltb b 256) bs ≡ true

module _ (sha256 : Bytes → Bytes) where
  -- Verification compares the digests of the two passwords with the same salt.
  verify-hash_with_salt :
      (q pw : Bytes) (bs : Bytes)
      → verify_password sha256 q (hash_with_salt sha256 pw (hex bs))
        ≡ equal (hex (sha256 (q ++ hex bs))) (hex (sha256 (pw ++ hex bs)))
  unfolding verify_password hash_with_salt
  verify-hash_with_salt q pw bs =
      let salt = hex bs in
      let digest = hex (sha256 (pw ++ salt)) in
      let raw = salt ++ b'$' ∷ digest in
      rw (find-append salt digest b'$' (hex-Lacks bs), verify_password)
        (rw (substr-at {raw = raw} [] salt (b'$' ∷ digest) {i = 0} {n = length salt} refl refl refl)
          (rw (
            substr_from-at {raw = raw} (salt ++ b'$' ∷ []) digest {i = length salt + 1}
              (sym (append_assoc salt (b'$' ∷ []) digest))
              (omega (arith, length-append salt (b'$' ∷ []))))))

  -- The drawn salt of a hash.
  hash_password-some :
      (rand : Rand) (pw : Bytes) {h : Bytes}
      → hash_password sha256 rand pw ≡ some h
      → (bs : Bytes) × (rand salt_length ≡ some bs) × (h ≡ hash_with_salt sha256 pw (hex bs))
  unfolding hash_password generate_salt
  hash_password-some rand pw e = elim (Option-cases (rand salt_length)) [
    | inl n ↦ ground arith
    | inr (bs, n) ↦ (bs, n, ground arith)
  ]

  -- A hash has no NUL.
  pub hash_password-Lacks_nul :
      (rand : Rand) (pw h : Bytes) → hash_password sha256 rand pw ≡ some h → Lacks 0 h
  unfolding hash_with_salt
  hash_password-Lacks_nul rand pw h e =
      let (bs, n, form) = hash_password-some rand pw {h = h} e in
      rw form (
        all-append (λ c. not (c == 0)) (hex bs) (b'$' ∷ hex (sha256 (pw ++ hex bs))) (hex-no_nul bs)
          (hex-no_nul (sha256 (pw ++ hex bs))))

  -- A stored hash accepts exactly the passwords that have, with its salt, the digest of the password
  -- that it was made from; that one among them. The digest consists of bytes.
  pub verify_password-hash_password :
      ((m : Bytes) → IsBytes (sha256 m))
      → (rand : Rand) (pw q h : Bytes) → hash_password sha256 rand pw ≡ some h
      → (verify_password sha256 pw h ≡ true)
        × ((bs : Bytes) × (rand salt_length ≡ some bs)
            × ((verify_password sha256 q h ≡ true)
                ↔ (sha256 (q ++ hex bs) ≡ sha256 (pw ++ hex bs))))
  verify_password-hash_password bytes rand pw q h e =
      let (bs, n, form) = hash_password-some rand pw {h = h} e in
      let own = verify-hash_with_salt pw pw bs in
      let other = verify-hash_with_salt q pw bs in
      let same = equal_iff (hex (sha256 (q ++ hex bs))) (hex (sha256 (pw ++ hex bs))) in
      (
        rw form (own ∙ equal_refl (hex (sha256 (pw ++ hex bs)))),
        (
          bs,
          n,
          (
            λ v.
                hex_injective (sha256 (q ++ hex bs)) (sha256 (pw ++ hex bs)) (bytes (q ++ hex bs))
                  (bytes (pw ++ hex bs))
                  (same.0 (sym other ∙ ap (verify_password sha256 q) (sym form) ∙ v)),
            λ d. rw form (other ∙ same.1 (ap hex d)),
          ),
        ),
      )

-- If `RAND_bytes` gives as many bytes as it is asked for, or fails: a session token is drawn exactly
-- when it does not fail on 32 bytes, and is then 64 hexadecimal digits.
pub generate_session_token-shape :
    (rand : Rand)
    → ((n : ℕ) (bs : Bytes) → rand n ≡ some bs → (length bs ≡ n) × IsBytes bs)
    → ((rand 32 ≡ none) × (generate_session_token rand ≡ none))
      ⊎ ((bs : Bytes) × (rand 32 ≡ some bs)
          × ((token : Bytes) × (generate_session_token rand ≡ some token)
              × (length token ≡ 64)
              × (all is_hex token ≡ true)))
unfolding generate_session_token
generate_session_token-shape rand draws = elim (Option-cases (rand 32)) [
  | inl n ↦ inl (n, rw n refl)
  | inr (bs, n) ↦
      let (size, bytes) = draws 32 bs n in
      inr (bs, n, (hex bs, rw n refl, omega (arith, length-hex bs, size), hex-is_hex bs bytes))
]
