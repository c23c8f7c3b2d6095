-- ===== src/Text/Decimal.antt =====
-- `std::to_string` and `%d`, on numbers that are not negative.
use cli_chat.Base.{
  Bool, true, false, all, leb, ◌&&◌, is_empty, refl, ◌<◌, ◌≡◌, ◌∙◌, ap, ℕ, zero, suc, ◌+◌, ◌-◌, ◌*◌,
  ◌/◌, ◌%◌, ◌≤◌, [], ◌∷◌, ltb, Bool-cases, inl, inr, if◌then◌else◌, arith,
}
use cli_chat.Text.{Bytes}

-- Each round divides by ten, so that fuel above the number is enough.
unfoldable pub decimal_loop : ℕ → ℕ → Bytes → Bytes
decimal_loop zero n out = out
decimal_loop (suc fuel) n out =
    let rest = decimal_loop fuel (n / 10) ((b'0' + n % 10) ∷ out) in
    if ltb n 10 then (b'0' + n) ∷ out else rest

unfoldable pub to_string : ℕ → Bytes
unfolding decimal_loop
to_string n = decimal_loop (suc n) n []

-- The number that digits stand for, behind a number already read.
abbrev pub value_from : ℕ → Bytes → ℕ
value_from n [] = n
value_from n (c ∷ s) = value_from (n * 10 + (c - b'0')) s

value_from-decimal_loop :
    (fuel n : ℕ) (out : Bytes)
    → n ≤ fuel
    → value_from 0 (decimal_loop (suc fuel) n out) ≡ value_from n out
unfolding decimal_loop
value_from-decimal_loop zero n out h = ground arith
value_from-decimal_loop (suc fuel) n out h = elim (Bool-cases (ltb n 10)) [
  | inl e ↦ rw e (ap (λ k. value_from k out) (omega arith))
  | inr e ↦
      let smaller : n / 10 ≤ fuel = ground arith in
      rw e (
        value_from-decimal_loop fuel (n / 10) ((b'0' + n % 10) ∷ out) smaller
        ∙ ap (λ k. value_from k out) (omega arith))
]

-- With the fuel that it starts with, every number is written as digits that stand for it.
pub value_from-to_string : (n : ℕ) → value_from 0 (to_string n) ≡ n
unfolding to_string
value_from-to_string n = value_from-decimal_loop n n [] (omega arith)

abbrev pub is_decimal : ℕ → Bool
is_decimal c = leb b'0' c && leb c b'9'

decimal_loop-digits :
    (fuel n : ℕ) (out : Bytes)
    → all is_decimal out ≡ true
    → all is_decimal (decimal_loop fuel n out) ≡ true
unfolding decimal_loop
decimal_loop-digits zero n out h = h
decimal_loop-digits (suc fuel) n out h =
    let last : n % 10 < 10 = omega arith in
    let more : all is_decimal ((b'0' + n % 10) ∷ out) ≡ true = ground arith in
    ground (arith, decimal_loop-digits fuel (n / 10) ((b'0' + n % 10) ∷ out) more)

pub to_string-digits : (n : ℕ) → all is_decimal (to_string n) ≡ true
unfolding to_string
to_string-digits n = decimal_loop-digits (suc n) n [] refl

decimal_loop-filled :
    (fuel n : ℕ) (out : Bytes) → is_empty out ≡ false → is_empty (decimal_loop fuel n out) ≡ false
unfolding decimal_loop
decimal_loop-filled zero n out h = h
decimal_loop-filled (suc fuel) n out h =
    ground (arith, decimal_loop-filled fuel (n / 10) ((b'0' + n % 10) ∷ out) refl)

pub to_string-filled : (n : ℕ) → is_empty (to_string n) ≡ false
unfolding to_string decimal_loop
to_string-filled n = ground (arith, decimal_loop-filled n (n / 10) ((b'0' + n % 10) ∷ []) refl)
