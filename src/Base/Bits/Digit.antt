-- ===== src/Base/Bits/Digit.antt =====
-- The native bit operations mean a recursion on binary digits that counts its rounds. Here the
-- count is dropped: one equation for the half, and one for the lowest digit, of each operation.
use Prim.Native.Nat.{
  ℕ, zero, suc, ◌+◌, ◌*◌, ◌/◌, ◌%◌, ◌≤◌, min, max, digits, bitwise, differ, bit_and, bit_or,
  bit_xor, bit_and-bitwise, bit_or-bitwise, bit_xor-bitwise,
}
use mathlib.Core.Path.{◌≡◌, refl, ap}
use native.Mathlib.Omega.{arith}

-- One round writes the lowest digit below what the other rounds give.
abbrev put_digit : ℕ → ℕ → ℕ
put_digit high low = high * 2 + low

module _ (rest : ℕ → ℕ) (digit : ℕ → ℕ → ℕ) where
  rounds_enough : (r x y s : ℕ) → x ≤ r → x ≤ s → digits rest digit r x y ≡ digits rest digit s x y
  rounds_enough zero zero y zero hr hs = refl
  rounds_enough zero zero y (suc s) hr hs = refl
  rounds_enough (suc r) zero y zero hr hs = refl
  rounds_enough (suc r) zero y (suc s) hr hs = refl
  rounds_enough zero (suc x) y s hr hs = absurd (omega arith)
  rounds_enough (suc r) (suc x) y zero hr hs = absurd (omega arith)
  rounds_enough (suc r) (suc x) y (suc s) hr hs =
      let half = suc x / 2 in
      ap (λ t. put_digit t (digit (suc x % 2) (y % 2)))
        (rounds_enough r half (y / 2) s (omega arith) (omega arith))

  pub bitwise-digit :
      (x y : ℕ)
      → bitwise rest digit (suc x) y
        ≡ put_digit (bitwise rest digit (suc x / 2) (y / 2)) (digit (suc x % 2) (y % 2))
  bitwise-digit x y =
      let half = suc x / 2 in
      ap (λ t. put_digit t (digit (suc x % 2) (y % 2)))
        (rounds_enough x half (y / 2) half (omega arith) (omega arith))

pub bit_xor-digit : (x y : ℕ) → bit_xor x y ≡ bit_xor (x / 2) (y / 2) * 2 + differ (x % 2) (y % 2)
bit_xor-digit zero y = simp bit_xor-bitwise (omega arith)
bit_xor-digit (suc x) y = simp bit_xor-bitwise (bitwise-digit (λ k. k) differ x y)

pub bit_and-digit : (x y : ℕ) → bit_and x y ≡ bit_and (x / 2) (y / 2) * 2 + min (x % 2) (y % 2)
bit_and-digit zero y = simp bit_and-bitwise (omega arith)
bit_and-digit (suc x) y = simp bit_and-bitwise (bitwise-digit (λ k. 0) min x y)

pub bit_or-digit : (x y : ℕ) → bit_or x y ≡ bit_or (x / 2) (y / 2) * 2 + max (x % 2) (y % 2)
bit_or-digit zero y = simp bit_or-bitwise (omega arith)
bit_or-digit (suc x) y = simp bit_or-bitwise (bitwise-digit (λ k. k) max x y)

-- On two digits `differ` is the parity of the sum.
pub differ_digits : (x y : ℕ) → x ≤ 1 → y ≤ 1 → differ x y ≡ (x + y) % 2
differ_digits zero y p q = omega arith
differ_digits (suc zero) zero p q = refl
differ_digits (suc zero) (suc zero) p q = refl
differ_digits (suc zero) (suc (suc y)) p q = absurd (omega arith)
differ_digits (suc (suc x)) y p q = absurd (omega arith)
