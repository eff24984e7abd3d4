-- ===== src/Base/Rings.antt =====
-- Indices into rings.
use Prim.Native.Nat.{ℕ, ◌+◌, ◌-◌, ◌%◌, ◌<◌}
use mathlib.Core.Path.{◌≡◌, sym, ap}
use mathlib.Core.Logic.{◌≢◌}
use native.Mathlib.Nat.{mod-add-mod, add-mod_right, mod-lt, mod-eq_of_lt}
use native.Mathlib.Decide.{dec_lt}
use native.Mathlib.Omega.{arith}

-- Indices that are less than a ring apart have different slots.
pub slots_apart : (m x d : ℕ) → 0 < d → d < m → (x + d) % m ≢ x % m
slots_apart m x d pos h e = elim (dec_lt (x % m + d) m) [
  | yes l ↦ omega (arith, e, sym (mod-add-mod x m d), mod-eq_of_lt l)
  | no n ↦ omega (
    arith,
    e,
    sym (mod-add-mod x m d),
    add-mod_right (x % m + d - m) m,
    mod-eq_of_lt (wrapped n),
    ap (λ t. t % m) (back n),
  )
]
  where
    bound : x % m < m
    bound = mod-lt x (omega arith)

    wrapped : ¬ (x % m + d < m) → x % m + d - m < m
    wrapped n = omega (arith, bound)

    back : ¬ (x % m + d < m) → x % m + d - m + m ≡ x % m + d
    back n = omega arith
