-- ===== src/Text/Laws.antt =====
-- Laws of the operations on texts.
use cli_chat.Base.{
  Bool-cases, Option-cases, inl, inr, suc, zero, ◌-◌, ◌≤◌, take, drop, ap, ℕ, ◌+◌, ◌≡◌, refl, ◌↔◌,
  true, [], ◌∷◌, ◌++◌, none, some, arith, ◌==◌, length, drop-append, take-append, length-append,
  false, ◌<◌, all, not,
}
use cli_chat.Text.{Bytes, equal, starts_with, find, find_from, substr, substr_from}

pub equal-to-path : (s t : Bytes) → equal s t ≡ true → s ≡ t
unfolding equal
equal-to-path [] [] h = refl
equal-to-path [] (b ∷ t) h = ground arith
equal-to-path (a ∷ s) [] h = ground arith
equal-to-path (a ∷ s) (b ∷ t) h = ground (arith, equal-to-path s t)

pub equal_refl : (s : Bytes) → equal s s ≡ true
unfolding equal
equal_refl [] = refl
equal_refl (a ∷ s) = ground (arith, equal_refl s)

pub equal_iff : (s t : Bytes) → (equal s t ≡ true) ↔ (s ≡ t)
equal_iff s t = (equal-to-path s t, λ e. rw e (equal_refl t))

-- The byte `c` does not occur.
abbrev pub Lacks : ℕ → Bytes → Type 0
Lacks c s = all (λ a. not (a == c)) s ≡ true

pub find-none : (s : Bytes) (c : ℕ) → Lacks c s → find s c ≡ none
unfolding find
find-none [] c h = refl
find-none (a ∷ s) c h = ground (arith, find-none s c)

-- The first occurrence stands behind the longest prefix that lacks the byte.
pub find-append : (s t : Bytes) (c : ℕ) → Lacks c s → find (s ++ c ∷ t) c ≡ some (length s)
unfolding find
find-append [] t c h = ground arith
find-append (a ∷ s) t c h = ground (arith, find-append s t c)

pub find_from-append :
    (p s t : Bytes) (c : ℕ)
    → Lacks c s
    → find_from (p ++ (s ++ c ∷ t)) c (length p) ≡ some (length p + length s)
unfolding find_from
find_from-append p s t c h = rw (drop-append p (s ++ c ∷ t)) (rw (find-append s t c h))

pub starts_with-append : (p s : Bytes) → starts_with (p ++ s) p ≡ true
unfolding starts_with
starts_with-append [] s = refl
starts_with-append (a ∷ p) s = ground (arith, starts_with-append p s)

-- Up to the first `c`, a text that lacks `c` stands in front exactly when it is that part.
pub starts_with-Lacks :
    (w s t : Bytes) (c : ℕ)
    → Lacks c w
    → Lacks c s
    → starts_with (s ++ c ∷ t) (w ++ c ∷ []) ≡ equal s w
unfolding starts_with equal
starts_with-Lacks [] [] t c hw hs = ground arith
starts_with-Lacks [] (a ∷ s) t c hw hs = ground arith
starts_with-Lacks (b ∷ w) [] t c hw hs = ground arith
starts_with-Lacks (b ∷ w) (a ∷ s) t c hw hs = ground (arith, starts_with-Lacks w s t c)

pub starts_with-Lacks_all : (w s : Bytes) (c : ℕ) → Lacks c s → starts_with s (w ++ c ∷ []) ≡ false
unfolding starts_with
starts_with-Lacks_all [] [] c h = refl
starts_with-Lacks_all [] (a ∷ s) c h = ground arith
starts_with-Lacks_all (b ∷ w) [] c h = refl
starts_with-Lacks_all (b ∷ w) (a ∷ s) c h = ground (arith, starts_with-Lacks_all w s c)

-- The part of a text behind a given front, by position.
pub substr_from-at :
    {raw : Bytes} (p t : Bytes) {i : ℕ} → raw ≡ p ++ t → i ≡ length p → substr_from raw i ≡ some t
unfolding substr_from
substr_from-at p t e h = rw (e, h) (ground (arith, length-append p t, drop-append p t))

-- A part of a text between a front and a rest, by position and size.
pub substr-at :
    {raw : Bytes} (p s t : Bytes) {i n : ℕ}
    → raw ≡ p ++ (s ++ t)
    → i ≡ length p
    → n ≡ length s
    → substr raw i n ≡ some s
unfolding substr
substr-at p s t e h k =
    rw (e, h, k) (ground (arith, length-append p (s ++ t), drop-append p (s ++ t), take-append s t))

-- One past the end there is nothing to take.
pub substr_from-past : (s : Bytes) (i : ℕ) → length s < i → substr_from s i ≡ none
unfolding substr_from
substr_from-past s i h = ground arith

-- A found position is that of the first occurrence.
pub find-some :
    (s : Bytes) (c : ℕ) {i : ℕ}
    → find s c ≡ some i
    → (p : Bytes) × (t : Bytes) × (s ≡ p ++ c ∷ t) × Lacks c p × (i ≡ length p)
unfolding find
find-some [] c h = cc
find-some (a ∷ s) c {i} h = elim (Bool-cases (a == c)) [
  | inl e ↦ ([], s, ground arith, refl, ground arith)
  | inr e ↦ elim (Option-cases (find s c)) [
    | inl n ↦ ground arith
    | inr (j, f) ↦
        let (p, t, q, l, k) = find-some s c {i = j} f in
        (a ∷ p, t, ground arith, ground arith, ground arith)
  ]
]

length-drop : (n : ℕ) (s : Bytes) → length (drop n s) ≡ length s - n
length-drop zero s = omega arith
length-drop (suc n) [] = omega arith
length-drop (suc n) (a ∷ s) = omega (arith, length-drop n s)

-- A position that `find` gives lies inside of the text.
pub find-lt : (s : Bytes) (c i : ℕ) → find s c ≡ some i → i < length s
find-lt s c i h =
    let (p, t, e, l, k) = find-some s c {i = i} h in
    omega (arith, ap length e, length-append p (c ∷ t))

pub find_from-bounds : (s : Bytes) (c k i : ℕ) → find_from s c k ≡ some i → (k ≤ i) × (i < length s)
unfolding find_from
find_from-bounds s c k i h = elim (Option-cases (find (drop k s) c)) [
  | inl e ↦ ground arith
  | inr (j, e) ↦ ground (arith, find-lt (drop k s) c j e, length-drop k s)
]

pub substr_from-some : (s : Bytes) (i : ℕ) → i ≤ length s → substr_from s i ≡ some (drop i s)
unfolding substr_from
substr_from-some s i h = ground arith

pub substr-some : (s : Bytes) (i n : ℕ) → i ≤ length s → substr s i n ≡ some (take n (drop i s))
unfolding substr
substr-some s i n h = ground arith

pub starts_with-length : (s p : Bytes) → starts_with s p ≡ true → length p ≤ length s
unfolding starts_with
starts_with-length s [] h = omega arith
starts_with-length [] (b ∷ p) h = ground arith
starts_with-length (a ∷ s) (b ∷ p) h = ground (arith, starts_with-length s p)

-- A front that a text starts with splits it.
pub starts_with-split : (s p : Bytes) → starts_with s p ≡ true → (t : Bytes) × (s ≡ p ++ t)
unfolding starts_with
starts_with-split s [] h = (s, refl)
starts_with-split [] (b ∷ p) h = cc
starts_with-split (a ∷ s) (b ∷ p) h =
    let (t, e) = starts_with-split s p (ground arith) in (t, ground arith)

-- The first byte `c` behind a front.
pub find_from-some :
    (p t : Bytes) (c : ℕ) {i : ℕ}
    → find_from (p ++ t) c (length p) ≡ some i
    → (u : Bytes) × (rest : Bytes) × (t ≡ u ++ c ∷ rest) × Lacks c u
unfolding find_from
find_from-some p t c {i} h = elim (Option-cases (find t c)) [
  | inl n ↦ ground (arith, drop-append p t)
  | inr (j, f) ↦ let (u, rest, e, l, k) = find-some t c {i = j} f in (u, rest, e, l)
]
