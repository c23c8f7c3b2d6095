-- ===== src/Config/Tests/Numbers.antt =====
-- Numbers as decimal text: `print` writes an `int`, and `read` reads no other text than it writes, but for
-- zeros in front. A number outside of the range of `int` is not read.
use mathlib.Core.Bool.{Bool-set}
use cli_chat.Base.{
  ◌≡◌, refl, ◌∙◌, ap, inl, inr, ◌⊎◌, ℕ, ◌+◌, ◌-◌, Bool, true, false, not, ◌||◌, ◌&&◌, [], ◌∷◌,
  Option, none, some, is_empty, all, ◌==◌, if◌then◌else◌, arith,
}
use cli_chat.Text.{Bytes}
use cli_chat.Text.Laws.{Lacks}
use cli_chat.Text.Decimal.{
  to_string, value_from, value_from-to_string, is_decimal, to_string-digits, to_string-filled,
}
use cli_chat.Secrets.{trim, trim_left, trim_right, is_blank}
use cli_chat.Config.{ℤ, pos, negsuc, is_int, MachineInt}
use cli_chat.Config.RoundTrip.{IsPlain}

abbrev print_number : ℤ → Bytes
print_number (pos n) = to_string n
print_number (negsuc n) = b'-' ∷ to_string (n + 1)

abbrev pub print : MachineInt → Bytes
print n = print_number n.value

abbrev decided : (b : Bool) → (b ≡ true) ⊎ (b ≡ false)
decided true = inl refl
decided false = inr refl

abbrev checked : (z : ℤ) → (is_int z ≡ true) ⊎ (is_int z ≡ false) → Option MachineInt
checked z (inl e) = some (record { value = z; fits = e })
checked z (inr e) = none

abbrev in_range : ℤ → Option MachineInt
in_range z = checked z (decided (is_int z))

abbrev digits : (ℕ → ℤ) → Bytes → Option MachineInt
digits sign s =
    if is_empty s || not (all is_decimal s) then none else in_range (sign (value_from 0 s))

abbrev negative : ℕ → ℤ
negative n = if n == 0 then pos 0 else negsuc (n - 1)

abbrev pub read : Bytes → Option MachineInt
read [] = none
read (c ∷ s) = if c == b'-' then digits negative s else digits pos (c ∷ s)

in_range-value : (n : MachineInt) → in_range n.value ≡ some n
in_range-value n = go (decided (is_int n.value))
  where
    go : (d : (is_int n.value ≡ true) ⊎ (is_int n.value ≡ false)) → checked n.value d ≡ some n
    go (inl e) =
        ap (λ (k : is_int n.value ≡ true). some (record { value = n.value; fits = k }))
          (Bool-set (is_int n.value) true e n.fits)
    go (inr e) = absurd (let k = n.fits in cc)

digits-to_string : (sign : ℕ → ℤ) (n : ℕ) → digits sign (to_string n) ≡ in_range (sign n)
digits-to_string sign n = rw (to_string-filled n, to_string-digits n, value_from-to_string n) refl

read-digits : (s : Bytes) → is_empty s ≡ false → all is_decimal s ≡ true → read s ≡ digits pos s
read-digits [] e h = absurd cc
read-digits (c ∷ s) e h = ground arith

read-print_number : (z : ℤ) → read (print_number z) ≡ in_range z
read-print_number (pos n) =
    read-digits (to_string n) (to_string-filled n) (to_string-digits n) ∙ digits-to_string pos n
read-print_number (negsuc n) =
    let sign : negative (n + 1) ≡ negsuc n = ground arith in
    digits-to_string negative (n + 1) ∙ ap in_range sign

pub read-print : (n : MachineInt) → read (print n) ≡ some n
read-print n = read-print_number n.value ∙ in_range-value n

-- No blank and no line break.
abbrev is_clean : ℕ → Bool
is_clean c = not (is_blank c) && not (c == b'\n')

clean-trim_right : (s : Bytes) → all is_clean s ≡ true → trim_right s ≡ s
unfolding trim_right
clean-trim_right [] h = refl
clean-trim_right (c ∷ s) h = ground (arith, clean-trim_right s)

clean-Lacks : (s : Bytes) → all is_clean s ≡ true → Lacks b'\n' s
clean-Lacks [] h = refl
clean-Lacks (c ∷ s) h = ground (arith, clean-Lacks s)

clean-IsPlain : (s : Bytes) → all is_clean s ≡ true → IsPlain s
unfolding trim trim_left trim_right
clean-IsPlain [] h = (refl, refl)
clean-IsPlain (c ∷ s) h =
    let right = clean-trim_right (c ∷ s) h in (clean-Lacks (c ∷ s) h, ground arith)

digits-clean : (s : Bytes) → all is_decimal s ≡ true → all is_clean s ≡ true
digits-clean [] h = refl
digits-clean (c ∷ s) h = ground (arith, digits-clean s)

pub print-IsPlain : (n : MachineInt) → IsPlain (print n)
print-IsPlain n = clean-IsPlain (print n) (go n.value)
  where
    go : (z : ℤ) → all is_clean (print_number z) ≡ true
    go (pos m) = digits-clean (to_string m) (to_string-digits m)
    go (negsuc m) = digits-clean (to_string (m + 1)) (to_string-digits (m + 1))
