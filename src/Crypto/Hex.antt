-- ===== src/Crypto/Hex.antt =====
-- Hexadecimal digits.
use cli_chat.Base.{◌≡◌, refl, ℕ, ◌*◌, Bool, true, ◌&&◌, ◌||◌, [], ◌∷◌, arith, ltb, leb, all, length}
use cli_chat.Text.{Bytes}
use cli_chat.Text.Laws.{Lacks}
use cli_chat.Crypto.{hex}

-- 0-9 and a-f.
abbrev pub is_hex : ℕ → Bool
is_hex c = leb b'0' c && leb c b'9' || leb b'a' c && leb c b'f'

pub length-hex : (bs : Bytes) → length (hex bs) ≡ 2 * length bs
unfolding hex
length-hex [] = refl
length-hex (b ∷ bs) = omega (arith, length-hex bs)

pub hex-is_hex : (bs : Bytes) → all (λ b. ltb b 256) bs ≡ true → all is_hex (hex bs) ≡ true
unfolding hex
hex-is_hex [] h = refl
hex-is_hex (b ∷ bs) h = ground (arith, hex-is_hex bs)

-- No digit is the separator of a stored hash.
pub hex-Lacks : (bs : Bytes) → Lacks b'$' (hex bs)
unfolding hex
hex-Lacks [] = refl
hex-Lacks (b ∷ bs) = ground (arith, hex-Lacks bs)

-- Over bytes the digits determine the text.
pub hex_injective :
    (xs ys : Bytes)
    → all (λ b. ltb b 256) xs ≡ true
    → all (λ b. ltb b 256) ys ≡ true
    → hex xs ≡ hex ys
    → xs ≡ ys
unfolding hex
hex_injective [] [] hx hy e = refl
hex_injective [] (y ∷ ys) hx hy e = cc
hex_injective (x ∷ xs) [] hx hy e = cc
hex_injective (x ∷ xs) (y ∷ ys) hx hy e = ground (arith, hex_injective xs ys)

pub hex-no_nul : (bs : Bytes) → Lacks 0 (hex bs)
unfolding hex
hex-no_nul [] = refl
hex-no_nul (b ∷ bs) = ground (arith, hex-no_nul bs)
