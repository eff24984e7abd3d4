-- ===== src/Base/Bits/Laws.antt =====
-- Digit k of a word, and the laws of the bit operations digit by digit, at every width.
use Prim.Native.Nat.{ℕ, zero, suc, ◌+◌, ◌-◌, ◌/◌, ◌%◌, ◌^◌, ◌≤◌, ◌<◌, bit_and, bit_or, bit_xor}
use mathlib.Core.Path.{◌≡◌, refl, sym, ◌∙◌, ap}
use mathlib.Core.Bool.{Bool, false, ◌&&◌, ◌||◌, xor}
use native.Mathlib.Omega.{arith}
use native.Mathlib.Nat.{pow-suc}
use hyperkit.Base.Tests.{◌==◌, ltb}
use hyperkit.Base.Bits.Digit.{bit_and-digit, bit_or-digit, bit_xor-digit, differ_digits}

-- `(x >> k) & 1`
abbrev pub bit : ℕ → ℕ → Bool
bit x zero = x % 2 == 1
bit x (suc k) = bit (x / 2) k

pub bit-bit_and : (x y k : ℕ) → bit (bit_and x y) k ≡ (bit x k && bit y k)
bit-bit_and x y zero = ground (arith, bit_and-digit x y)
bit-bit_and x y (suc k) = ap (λ t. bit t k) half ∙ bit-bit_and (x / 2) (y / 2) k
  where
    half : bit_and x y / 2 ≡ bit_and (x / 2) (y / 2)
    half = omega (arith, bit_and-digit x y)

pub bit-bit_or : (x y k : ℕ) → bit (bit_or x y) k ≡ (bit x k || bit y k)
bit-bit_or x y zero = ground (arith, bit_or-digit x y)
bit-bit_or x y (suc k) = ap (λ t. bit t k) half ∙ bit-bit_or (x / 2) (y / 2) k
  where
    half : bit_or x y / 2 ≡ bit_or (x / 2) (y / 2)
    half = omega (arith, bit_or-digit x y)

pub bit-bit_xor : (x y k : ℕ) → bit (bit_xor x y) k ≡ xor (bit x k) (bit y k)
unfolding xor
bit-bit_xor x y zero = ground (arith, bit_xor-digit x y, differ_digits (x % 2) (y % 2))
bit-bit_xor x y (suc k) = ap (λ t. bit t k) half ∙ bit-bit_xor (x / 2) (y / 2) k
  where
    half : bit_xor x y / 2 ≡ bit_xor (x / 2) (y / 2)
    half = omega (arith, bit_xor-digit x y, differ_digits (x % 2) (y % 2))

pub bit-zero : (k : ℕ) → bit 0 k ≡ false
bit-zero zero = refl
bit-zero (suc k) = bit-zero k

pub pow_pos : (w : ℕ) → 0 < 2 ^ w
pow_pos zero = omega arith
pow_pos (suc w) = omega (arith, pow-suc 2 w, pow_pos w)

-- `1 << k` has digit k and no other.
pub bit-pow : (k j : ℕ) → bit (2 ^ k) j ≡ (k == j)
bit-pow zero zero = refl
bit-pow zero (suc j) = bit-zero j ∙ ground arith
bit-pow (suc k) zero = ground (arith, pow-suc 2 k)
bit-pow (suc k) (suc j) =
    ap (λ t. bit t j) (omega (arith, pow-suc 2 k)) ∙ bit-pow k j ∙ ground arith

-- `(1 << w) - 1` has the digits below w.
pub bit-ones : (w j : ℕ) → bit (2 ^ w - 1) j ≡ ltb j w
bit-ones zero j = bit-zero j ∙ ground arith
bit-ones (suc w) zero = ground (arith, pow-suc 2 w, pow_pos w)
bit-ones (suc w) (suc j) =
    ap (λ t. bit t j) (omega (arith, pow-suc 2 w)) ∙ bit-ones w j ∙ ground arith

-- Digits at or above the width are clear, and conversely.
pub bit_of_lt : (w x k : ℕ) → x < 2 ^ w → w ≤ k → bit x k ≡ false
bit_of_lt zero x k h q = ap (λ t. bit t k) (omega arith) ∙ bit-zero k
bit_of_lt (suc w) x zero h q = absurd (omega arith)
bit_of_lt (suc w) x (suc k) h q = bit_of_lt w (x / 2) k (omega (arith, pow-suc 2 w)) (omega arith)

-- Two words with the same digits are the same.
below_ext : (n x y : ℕ) → x < n → y < n → ((k : ℕ) → bit x k ≡ bit y k) → x ≡ y
below_ext zero x y p q h = absurd (omega arith)
below_ext (suc zero) x y p q h = omega arith
below_ext (suc (suc n)) x y p q h =
    ground
      (arith, h 0, below_ext (suc n) (x / 2) (y / 2) (omega arith) (omega arith) (λ k. h (suc k)))

pub bit_ext : (x y : ℕ) → ((k : ℕ) → bit x k ≡ bit y k) → x ≡ y
bit_ext x y h = below_ext (suc (x + y)) x y (omega arith) (omega arith) h

pub lt_of_bits : (w x : ℕ) → ((k : ℕ) → w ≤ k → bit x k ≡ false) → x < 2 ^ w
lt_of_bits zero x h = zero_of (bit_ext x 0 (λ k. h k (omega arith) ∙ sym (bit-zero k)))
  where
    zero_of : x ≡ 0 → x < 2 ^ 0
    zero_of e = omega arith
lt_of_bits (suc w) x h =
    omega (arith, pow-suc 2 w, lt_of_bits w (x / 2) (λ k q. h (suc k) (omega arith)))

pub pow_lt : (k w : ℕ) → k < w → 2 ^ k < 2 ^ w
pow_lt k w h = lt_of_bits w (2 ^ k) (λ j q. bit-pow k j ∙ ground arith)
