-- ===== src/Message/Throws.antt =====
-- The lines on which `parse` throws.
use cli_chat.Base.{
  ◌↔◌, sym, ◌∙◌, ap, false, refl, ℕ, ◌+◌, ◌-◌, ◌≤◌, ◌≡◌, inl, inr, [], ◌∷◌, ◌++◌, none, some, arith,
  length, length-append, Option-cases,
}
use cli_chat.Text.{starts_with, codes, Bytes, find, find_from}
use cli_chat.Text.Laws.{
  starts_with-Lacks, starts_with-length, find-append, substr_from-past, Lacks, find-some,
  find_from-bounds, substr_from-some, substr-some,
}
use cli_chat.Message.{
  parse, error, system, MessageType, colon, parse_broadcast, parse_private, parse_at, parse_tail,
}
use cli_chat.Message.Reserved.{IsPlain, parse-IsPlain}

parse_tail-ne-none :
    (t : MessageType) (now : ℕ) (raw : Bytes) (k : ℕ)
    → k ≤ length raw
    → parse_tail t now raw k ≡ none
    → ⊥
unfolding parse_tail
parse_tail-ne-none t now raw k h e = ground (arith, substr_from-some raw k h)

parse_private-ne-none : (now : ℕ) (raw : Bytes) → parse_private now raw ≡ none → ⊥
unfolding parse_private
parse_private-ne-none now raw e = elim (Option-cases (find_from raw colon 8)) [
  | inl n ↦ ground arith
  | inr (i, f) ↦
      let (lo, hi) = find_from-bounds raw colon 8 i f in
      ground (arith, substr-some raw 8 (i - 8), substr_from-some raw (i + 1))
]

parse_at-ne-none : (now : ℕ) (raw : Bytes) → 1 ≤ length raw → parse_at now raw ≡ none → ⊥
unfolding parse_at
parse_at-ne-none now raw h e = elim (Option-cases (find raw colon)) [
  | inl n ↦ ground arith
  | inr (i, f) ↦
      let (p, t, q, l, k) = find-some raw colon {i = i} f in
      ground (
        arith,
        substr-some raw 1 (i - 1),
        substr_from-some raw (i + 1),
        ap length q,
        length-append p (colon ∷ t),
      )
]

-- Only the last byte of the line can be the colon.
parse_broadcast-none :
    (now : ℕ) (raw : Bytes)
    → parse_broadcast now raw ≡ none
    → (s : Bytes) × (raw ≡ s ++ colon ∷ []) × Lacks colon s
unfolding parse_broadcast
parse_broadcast-none now raw e = elim (Option-cases (find raw colon)) [
  | inl n ↦ ground arith
  | inr (i, f) ↦ last i (find-some raw colon {i = i} f) f
]
  where
    last :
        (i : ℕ)
        → ((p : Bytes) × (t : Bytes) × (raw ≡ p ++ colon ∷ t) × Lacks colon p × (i ≡ length p))
        → find raw colon ≡ some i
        → (s : Bytes) × (raw ≡ s ++ colon ∷ []) × Lacks colon s
    last i (p, [], q, l, k) f = (p, q, l)
    last i (p, x ∷ t, q, l, k) f = absurd (
        ground (
          arith,
          substr-some raw 0 i,
          substr_from-some raw (i + 2),
          ap length q,
          length-append p (colon ∷ x ∷ t),
        ))

parse-none-broadcast :
    (now : ℕ) (raw : Bytes)
    → parse now raw ≡ none
    → (parse_broadcast now raw ≡ none)
      × (starts_with raw (codes "login:") ≡ false)
      × (starts_with raw (codes "register:") ≡ false)
      × (starts_with raw (codes "auth:") ≡ false)
      × (starts_with raw (codes "users:") ≡ false)
      × (starts_with raw (codes "error:") ≡ false)
      × (starts_with raw (codes "system:") ≡ false)
      × (starts_with raw (codes "private:") ≡ false)
      × (starts_with raw (codes "@") ≡ false)
unfolding parse
parse-none-broadcast now raw e = ground (
  arith,
  parse_tail-ne-none error now raw 6,
  parse_tail-ne-none system now raw 7,
  parse_private-ne-none now raw,
  parse_at-ne-none now raw,
  starts_with-length raw (codes "error:"),
  starts_with-length raw (codes "system:"),
  starts_with-length raw (codes "@"),
)

starts_with-at-append :
    (s : Bytes)
    → starts_with (s ++ colon ∷ []) (codes "@") ≡ false
    → starts_with s (codes "@") ≡ false
unfolding starts_with
starts_with-at-append [] h = refl
starts_with-at-append (a ∷ s) h = ground arith

IsPlain-of_branch :
    (now : ℕ) (s : Bytes) → Lacks colon s → parse now (s ++ colon ∷ []) ≡ none → IsPlain s
IsPlain-of_branch now s l e =
    let (b, h1, h2, h3, h4, h5, h6, h7, h8) = parse-none-broadcast now (s ++ colon ∷ []) e in
    record {
      no_colon = l;
      no_word = ground (
        arith,
        starts_with-Lacks (codes "login") s [] colon refl l,
        starts_with-Lacks (codes "register") s [] colon refl l,
        starts_with-Lacks (codes "auth") s [] colon refl l,
        starts_with-Lacks (codes "users") s [] colon refl l,
        starts_with-Lacks (codes "error") s [] colon refl l,
        starts_with-Lacks (codes "system") s [] colon refl l,
        starts_with-Lacks (codes "private") s [] colon refl l,
      );
      no_at = starts_with-at-append s h8;
    }

parse_broadcast-last :
    (now : ℕ) (s : Bytes) → Lacks colon s → parse_broadcast now (s ++ colon ∷ []) ≡ none
unfolding parse_broadcast
parse_broadcast-last now s l =
    rw (find-append s [] colon l, parse_broadcast)
      (ground (
        arith,
        substr-some (s ++ colon ∷ []) 0 (length s),
        substr_from-past (s ++ colon ∷ []) (length s + 2)
            (omega (arith, length-append s (colon ∷ []))),
      ))

-- `parse` throws exactly on a name followed by a final colon, where the name holds no colon, is no
-- protocol word and does not begin with `@`. On every other line it returns a message.
pub parse-none_iff :
    (now : ℕ) (raw : Bytes)
    → (parse now raw ≡ none) ↔ ((s : Bytes) × (raw ≡ s ++ colon ∷ []) × IsPlain s)
parse-none_iff now raw =
    (throws, λ h. rw h.1 (parse-IsPlain now h.0 [] h.2 ∙ parse_broadcast-last now h.0 h.2.no_colon))
  where
    throws : parse now raw ≡ none → (s : Bytes) × (raw ≡ s ++ colon ∷ []) × IsPlain s
    throws e =
        let (s, q, l) = parse_broadcast-none now raw (parse-none-broadcast now raw e).0 in
        (s, q, IsPlain-of_branch now s l (ap (parse now) (sym q) ∙ e))
