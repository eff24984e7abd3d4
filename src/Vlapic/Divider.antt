-- ===== src/Vlapic/Divider.antt =====
-- The divider of the timer in src/lib/vmm/io/vlapic.c.
use hyperkit.Base.{
  ℕ, ◌%◌, ◌^◌, ◌≡◌, ◌≢◌, refl, sym, ap, ◌∙◌, Bool, true, false, bit_and, arith, Option, none, some,
  false≢true, dec_lt,
}
use hyperkit.Base.Tests.{all_below, all_below_lem}
use hyperkit.Base.Bits.Laws.{bit-bit_and, bit_of_lt, bit_ext}
use hyperkit.Base.Bits.Shifts.{bit-mod}
use hyperkit.Vlapic.Registers.{divisor_of, timer_divisor}

abbrev is_found : Option ℕ → Bool
is_found none = false
is_found (some n) = true

low_bits : (x : ℕ) → bit_and x 0xb ≡ bit_and (x % 2 ^ 4) 0xb
low_bits x = bit_ext _ _ (λ k.
    bit-bit_and x 0xb k
    ∙ elim (dec_lt k 4) [
      | yes l ↦ ground (arith, bit-mod 4 x k)
      | no g ↦ ground (arith, bit_of_lt 4 0xb k (omega arith) (omega arith))
    ]
    ∙ sym (bit-bit_and (x % 2 ^ 4) 0xb k))

-- Each value of the register is one of the cases of the divisor.
pub timer_divisor-found : (dcr : ℕ) → timer_divisor dcr ≢ none
unfolding timer_divisor divisor_of all_below
timer_divisor-found dcr e = false≢true (
    ap is_found (sym (same ∙ e))
    ∙ all_below_lem 16 (λ d. is_found (timer_divisor d)) refl (dcr % 2 ^ 4) (omega arith))
  where
    same : timer_divisor (dcr % 2 ^ 4) ≡ timer_divisor dcr
    same = ap divisor_of (sym (low_bits dcr))
