-- ===== src/Base/Bits/Words.antt =====
-- The C idioms on words: a test of a mask, setting and clearing the bits of a mask.
use Prim.Native.Nat.{ℕ, ◌-◌, ◌^◌, ◌<◌, bit_and, bit_or, bit_xor}
use mathlib.Core.Path.{◌≡◌, sym, ◌∙◌, ap}
use mathlib.Core.Bool.{Bool, true, false, not, ◌&&◌, xor, false≢true}
use mathlib.Core.Logic.{◌⊎◌, inl, inr}
use native.Mathlib.Omega.{arith}
use native.Mathlib.Decide.{ℕ_discrete}
use hyperkit.Base.Tests.{if◌then◌else◌, ◌==◌, ==-refl, ==_iff, ==_of_ne, Bool-cases}
use hyperkit.Base.Bits.Laws.{
  bit, bit-bit_and, bit-bit_or, bit-bit_xor, bit-zero, bit-pow, bit-ones, bit_of_lt, bit_ext,
  lt_of_bits, pow_lt, pow_pos,
}

-- `(x & m) != 0`
unfoldable pub has : ℕ → ℕ → Bool
has x m = not (bit_and x m == 0)

-- `x & ~m` on a word of w bits
unfoldable pub clear : ℕ → ℕ → ℕ → ℕ
clear w x m = bit_and x (bit_xor m (2 ^ w - 1))

and-pow_off : (x k : ℕ) → bit x k ≡ false → (j : ℕ) → (bit x j && bit (2 ^ k) j) ≡ false
and-pow_off x k off j = elim (Bool-cases (k == j)) [
  | inl e ↦ ground (arith, bit-pow k j, ap (bit x) ((==_iff k j).0 e), off)
  | inr e ↦ ground (arith, bit-pow k j)
]

-- A test of one bit reads that digit.
pub has-pow : (x k : ℕ) → has x (2 ^ k) ≡ bit x k
unfolding has
has-pow x k = elim (Bool-cases (bit x k)) [
  | inl on ↦ rw on (nonzero on (Bool-cases (bit_and x (2 ^ k) == 0)))
  | inr off ↦ rw (off, empty off)
]
  where
    at_k : bit (bit_and x (2 ^ k)) k ≡ bit x k
    at_k = bit-bit_and x (2 ^ k) k ∙ ground (arith, bit-pow k k, ==-refl k)

    nonzero :
        bit x k ≡ true
        → ((bit_and x (2 ^ k) == 0) ≡ true) ⊎ ((bit_and x (2 ^ k) == 0) ≡ false)
        → not (bit_and x (2 ^ k) == 0) ≡ true
    nonzero on (inl e) =
        absurd
          (false≢true (sym (bit-zero k) ∙ ap (λ t. bit t k) (sym ((==_iff _ 0).0 e)) ∙ at_k ∙ on))
    nonzero on (inr e) = rw e

    empty : bit x k ≡ false → bit_and x (2 ^ k) ≡ 0
    empty off =
        bit_ext _ 0 (λ j. bit-bit_and x (2 ^ k) j ∙ and-pow_off x k off j ∙ sym (bit-zero j))

pub bit-clear : (w x m k : ℕ) → x < 2 ^ w → bit (clear w x m) k ≡ (bit x k && not (bit m k))
unfolding clear xor
bit-clear w x m k h =
    bit-bit_and x (bit_xor m (2 ^ w - 1)) k
    ∙ ground (arith, bit-bit_xor m (2 ^ w - 1) k, bit-ones w k, bit_of_lt w x k h)

-- An and with a word that fits the width fits it.
pub bit_and-lt : (w x m : ℕ) → x < 2 ^ w → bit_and x m < 2 ^ w
bit_and-lt w x m h = lt_of_bits w _ (λ k q. bit-bit_and x m k ∙ ground (arith, bit_of_lt w x k h q))

pub bit_and-lt_right : (w x m : ℕ) → m < 2 ^ w → bit_and x m < 2 ^ w
bit_and-lt_right w x m h =
    lt_of_bits w _ (λ k q. bit-bit_and x m k ∙ ground (arith, bit_of_lt w m k h q))

pub bit_or-lt : (w x m : ℕ) → x < 2 ^ w → m < 2 ^ w → bit_or x m < 2 ^ w
bit_or-lt w x m h p =
    lt_of_bits w _
      (λ k q. bit-bit_or x m k ∙ ground (arith, bit_of_lt w x k h q, bit_of_lt w m k p q))

pub clear-lt : (w x m : ℕ) → x < 2 ^ w → clear w x m < 2 ^ w
unfolding clear
clear-lt w x m h = bit_and-lt w x _ h

-- Setting a clear bit and clearing it again changes nothing.
pub clear-bit_or :
    (x k : ℕ) → x < 2 ^ 8 → k < 8 → bit x k ≡ false → clear 8 (bit_or x (2 ^ k)) (2 ^ k) ≡ x
clear-bit_or x k h hk off = bit_ext _ x (λ j.
    bit-clear 8 (bit_or x (2 ^ k)) (2 ^ k) j (bit_or-lt 8 x (2 ^ k) h (pow_lt k 8 hk))
    ∙ elim (ℕ_discrete k j) [
      | yes e ↦ ground (arith, bit-bit_or x (2 ^ k) j, bit-pow k j, ap (bit x) e, off)
      | no ne ↦ ground (arith, bit-bit_or x (2 ^ k) j, bit-pow k j, ==_of_ne k j ne)
    ])

-- An and with one bit leaves that bit or nothing.
pub bit_and-pow : (x k : ℕ) → bit_and x (2 ^ k) ≡ (if bit x k then 2 ^ k else 0)
bit_and-pow x k = elim (Bool-cases (bit x k)) [
  | inl on ↦ rw on (bit_ext _ (2 ^ k) (λ j. bit-bit_and x (2 ^ k) j ∙ same on j))
  | inr off ↦
      rw off (bit_ext _ 0 (λ j. bit-bit_and x (2 ^ k) j ∙ and-pow_off x k off j ∙ sym (bit-zero j)))
]
  where
    same : bit x k ≡ true → (j : ℕ) → (bit x j && bit (2 ^ k) j) ≡ bit (2 ^ k) j
    same on j = elim (Bool-cases (k == j)) [
      | inl e ↦ ground (arith, bit-pow k j, ap (bit x) ((==_iff k j).0 e), on)
      | inr e ↦ ground (arith, bit-pow k j)
    ]

-- The tests of one bit that compare the masked word with zero or with the mask.
pub pow_test : (x k : ℕ) → (bit_and x (2 ^ k) == 2 ^ k) ≡ bit x k
pow_test x k = elim (Bool-cases (bit x k)) [
  | inl on ↦ rw (bit_and-pow x k, on) (==-refl (2 ^ k))
  | inr off ↦ rw (bit_and-pow x k, off) (==_of_ne 0 (2 ^ k) (λ e. omega (arith, pow_pos k)))
]

pub zero_test : (x k : ℕ) → (bit_and x (2 ^ k) == 0) ≡ not (bit x k)
zero_test x k = elim (Bool-cases (bit x k)) [
  | inl on ↦ rw (bit_and-pow x k, on) (==_of_ne (2 ^ k) 0 (λ e. omega (arith, pow_pos k)))
  | inr off ↦ rw (bit_and-pow x k, off)
]
