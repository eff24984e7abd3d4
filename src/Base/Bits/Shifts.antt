-- ===== src/Base/Bits/Shifts.antt =====
-- Shifts and casts to a narrower word, digit by digit: `x >> w`, `x << w` and `x mod 2^w`.
use Prim.Native.Nat.{ℕ, zero, suc, ◌+◌, ◌-◌, ◌*◌, ◌/◌, ◌%◌, ◌^◌, ◌<◌}
use mathlib.Core.Path.{◌≡◌, refl, sym, ◌∙◌, ap, ap₂}
use mathlib.Core.Bool.{◌&&◌}
use native.Mathlib.Omega.{arith}
use native.Mathlib.Nat.{
  pow-suc, div-div-eq-div-mul, mul-add-mod_self_right, mod-eq_of_lt, mod-lt, div-add-mod', mul_comm,
  mul_assoc,
}
use hyperkit.Base.Tests.{ltb, leb}
use hyperkit.Base.Bits.Laws.{bit, bit-zero, pow_pos}

half-pow : (x w : ℕ) → x / 2 ^ suc w ≡ x / 2 / 2 ^ w
half-pow x w =
    ap (λ t. x / t) (pow-suc 2 w ∙ mul_comm (2 ^ w) 2) ∙ sym (div-div-eq-div-mul x 2 (2 ^ w))

bit_congr : {x y k j : ℕ} → x ≡ y → k ≡ j → bit x k ≡ bit y j
bit_congr p q = ap₂ bit p q

shift : (k w : ℕ) → suc (k + w) ≡ k + suc w
shift k w = omega arith

-- `x >> w`
pub bit-div : (w x k : ℕ) → bit (x / 2 ^ w) k ≡ bit x (k + w)
bit-div zero x k = bit_congr {x = x / 2 ^ 0} {y = x} {k = k} {j = k + 0} (omega arith) (omega arith)
bit-div (suc w) x k =
    ap (λ t. bit t k) (half-pow x w) ∙ bit-div w (x / 2) k ∙ bit_congr {x = x} refl (shift k w)

mod-double : (m x : ℕ) → 0 < m → x % (m * 2) ≡ x / 2 % m * 2 + x % 2
mod-double m x h =
    ap (λ t. t % (m * 2)) split
    ∙ mul-add-mod_self_right (x / 2 / m) (m * 2) (x / 2 % m * 2 + x % 2)
    ∙ mod-eq_of_lt (omega (arith, mod-lt (x / 2) h))
  where
    split : x ≡ x / 2 / m * (m * 2) + (x / 2 % m * 2 + x % 2)
    split = omega (arith, div-add-mod' (x / 2) m)

word : (w x : ℕ) → x % 2 ^ suc w ≡ x / 2 % 2 ^ w * 2 + x % 2
word w x = ap (λ t. x % t) (pow-suc 2 w) ∙ mod-double (2 ^ w) x (pow_pos w)

-- `x mod 2^w`
pub bit-mod : (w x k : ℕ) → bit (x % 2 ^ w) k ≡ (ltb k w && bit x k)
bit-mod zero x k = ap (λ t. bit t k) (omega arith) ∙ bit-zero k ∙ ground arith
bit-mod (suc w) x zero = ground (arith, word w x)
bit-mod (suc w) x (suc k) =
    ap (λ t. bit t k) (omega (arith, word w x)) ∙ bit-mod w (x / 2) k ∙ ground arith

doubled : (w x : ℕ) → x * 2 ^ suc w ≡ x * 2 ^ w * 2
doubled w x = ap (λ t. x * t) (pow-suc 2 w) ∙ sym (mul_assoc x (2 ^ w) 2)

-- `x << w`
pub bit-mul : (w x k : ℕ) → bit (x * 2 ^ w) k ≡ (leb w k && bit x (k - w))
bit-mul zero x k =
    bit_congr {x = x * 2 ^ 0} {y = x} {k = k} {j = k - 0} (omega arith) (omega arith) ∙ ground arith
bit-mul (suc w) x zero = ground (arith, doubled w x)
bit-mul (suc w) x (suc k) =
    ap (λ t. bit t k) (omega (arith, doubled w x)) ∙ bit-mul w x k ∙ ground (arith, same)
  where
    same : bit x (k - w) ≡ bit x (suc k - suc w)
    same = bit_congr {x = x} {k = k - w} {j = suc k - suc w} refl (omega arith)
