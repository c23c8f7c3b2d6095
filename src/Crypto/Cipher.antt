-- ===== src/Crypto/Cipher.antt =====
-- `encryptMessage` and `decryptMessage`.
use Prim.Native.Nat.{bit_xor, bit_xor-bitwise, digits, differ}
use cli_chat.Base.{
  ap, ◌-◌, ◌≡◌, refl, ◌∙◌, ℕ, zero, suc, ◌+◌, ◌*◌, ◌/◌, ◌%◌, ◌≤◌, ◌<◌, false, [], ◌∷◌, none, some,
  arith, length, get_elem?, is_empty,
}
use cli_chat.Text.{Bytes}
use cli_chat.Crypto.{key_byte, encrypt_loop, encrypt_message, decrypt_message}

-- `digits` is the recursion that `bit_xor` means, on fuel.
more_fuel :
    (fuel x y : ℕ)
    → x ≤ fuel
    → digits (λ d. d) differ (suc fuel) x y ≡ digits (λ d. d) differ fuel x y
more_fuel zero zero y h = refl
more_fuel (suc fuel) zero y h = refl
more_fuel zero (suc x) y h = absurd (omega arith)
more_fuel (suc fuel) (suc x) y h = rw (more_fuel fuel (suc x / 2) (y / 2) (omega arith))

enough_fuel :
    (k fuel x y : ℕ)
    → x ≤ fuel
    → digits (λ d. d) differ (k + fuel) x y ≡ digits (λ d. d) differ fuel x y
enough_fuel zero fuel x y h = ap (λ n. digits (λ d. d) differ n x y) (omega arith)
enough_fuel (suc k) fuel x y h =
    let shift : suc k + fuel ≡ suc (k + fuel) = omega arith in
    ap (λ n. digits (λ d. d) differ n x y) shift
    ∙ more_fuel (k + fuel) x y (omega arith)
    ∙ enough_fuel k fuel x y h

bit_xor_step : (a b : ℕ) → bit_xor a b ≡ bit_xor (a / 2) (b / 2) * 2 + differ (a % 2) (b % 2)
bit_xor_step zero b = simp bit_xor-bitwise (omega arith)
bit_xor_step (suc a) b =
    let half = suc a / 2 in
    let split : a ≡ (a - half) + half = omega arith in
    let fuel = ap (λ n. digits (λ d. d) differ n half (b / 2)) split in
    let same = fuel ∙ enough_fuel (a - half) half half (b / 2) (omega arith) in
    simp bit_xor-bitwise (omega (arith, same))

differ_digit : (x y : ℕ) → x < 2 → y < 2 → (differ x y < 2) × (differ (differ x y) y ≡ x)
differ_digit zero zero p q = (omega arith, refl)
differ_digit zero (suc zero) p q = (omega arith, refl)
differ_digit (suc zero) zero p q = (omega arith, refl)
differ_digit (suc zero) (suc zero) p q = (omega arith, refl)
differ_digit zero (suc (suc y)) p q = absurd (omega arith)
differ_digit (suc zero) (suc (suc y)) p q = absurd (omega arith)
differ_digit (suc (suc x)) y p q = absurd (omega arith)

bit_xor_fuel : (n a k : ℕ) → a ≤ n → k ≤ n → bit_xor (bit_xor a k) k ≡ a
bit_xor_fuel zero zero zero p q = refl
bit_xor_fuel zero zero (suc k) p q = absurd (omega arith)
bit_xor_fuel zero (suc a) k p q = absurd (omega arith)
bit_xor_fuel (suc n) a k p q =
    let (small, twice) = differ_digit (a % 2) (k % 2) (omega arith) (omega arith) in
    let step = bit_xor_step a k in
    let half : bit_xor a k / 2 ≡ bit_xor (a / 2) (k / 2) = omega arith in
    let digit : bit_xor a k % 2 ≡ differ (a % 2) (k % 2) = omega arith in
    bit_xor_step (bit_xor a k) k
    ∙ rw (half, digit, twice, bit_xor_fuel n (a / 2) (k / 2) (omega arith) (omega arith))
        (omega arith)

bit_xor_twice : (a k : ℕ) → bit_xor (bit_xor a k) k ≡ a
bit_xor_twice a k = bit_xor_fuel (a + k) a k (omega arith) (omega arith)

key_byte-some : (key : Bytes) (i : ℕ) → is_empty key ≡ false → (k : ℕ) × (key_byte key i ≡ some k)
unfolding key_byte
key_byte-some [] i h = cc
key_byte-some (x ∷ key) i h = found (x ∷ key) (i % suc (length key)) (omega arith)
  where
    found : (xs : Bytes) (j : ℕ) → j < length xs → (k : ℕ) × (get_elem? xs j ≡ some k)
    found [] j p = absurd (omega arith)
    found (y ∷ ys) zero p = (y, refl)
    found (y ∷ ys) (suc j) p = found ys j (omega arith)

encrypt_loop_twice :
    (i : ℕ) (m key : Bytes)
    → is_empty key ≡ false
    → (c : Bytes) × (encrypt_loop i m key ≡ some c) × (encrypt_loop i c key ≡ some m)
unfolding encrypt_loop
encrypt_loop_twice i [] key h = ([], refl, refl)
encrypt_loop_twice i (b ∷ m) key h =
    let (k, e) = key_byte-some key i h in
    let (c, f, g) = encrypt_loop_twice (i + 1) m key h in
    (bit_xor b k ∷ c, rw (e, encrypt_loop) (rw f), rw (e, encrypt_loop) (rw g (rw bit_xor_twice)))

-- With a key that is not empty every text can be encrypted, and decrypting the result gives it back.
pub decrypt_message-encrypt_message :
    (message key : Bytes)
    → is_empty key ≡ false
    → (c : Bytes) × (encrypt_message message key ≡ some c) × (decrypt_message c key ≡ some message)
unfolding encrypt_message decrypt_message
decrypt_message-encrypt_message message key h = encrypt_loop_twice 0 message key h

-- With an empty key a text that is not empty divides by zero.
encrypt_message-no_key :
    (message : Bytes) → is_empty message ≡ false → encrypt_message message [] ≡ none
unfolding encrypt_message encrypt_loop key_byte
encrypt_message-no_key [] h = cc
encrypt_message-no_key (b ∷ message) h = refl
