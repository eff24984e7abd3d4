-- ===== src/Uart/Legacy.antt =====
-- The two legacy serial ports that uart_legacy_alloc of src/lib/uart_emul.c gives away.
use hyperkit.Base.{
  ℕ, zero, suc, ◌+◌, ◌≤◌, Bool, true, false, not, ◌&&◌, ◌||◌, List, [], ◌∷◌, arith, leb, ◌==◌,
  if◌then◌else◌, length, get_or, set, Option, none, some,
}
use hyperkit.Base.Signed.{ℤ, pos, negsuc}

-- One entry of `uart_lres`.
pub record Lres : Type 0 where
  pub baseaddr : ℕ
  pub irq : ℕ
  pub inuse : Bool

abbrev lres : ℕ → ℕ → Bool → Lres
lres b i u = record { baseaddr = b; irq = i; inuse = u }

-- `uart_lres` with COM1 and COM2 in use or not.
abbrev pub uart_lres : Bool → Bool → List Lres
uart_lres a b = lres 0x3f8 4 a ∷ lres 0x2f8 3 b ∷ []

-- The port that is given, or `none` for -1, and the table after the call.
pub record Alloc : Type 0 where
  pub port : Option Lres
  pub table : List Lres

unfoldable pub legacy_alloc : ℤ → List Lres → Alloc
legacy_alloc (negsuc n) t = record { port = none; table = t }
legacy_alloc (pos which) t =
    let entry = get_or t which (lres 0 0 true) in
    if leb (length t) which || entry.inuse
    then record { port = none; table = t }
    else record { port = some entry; table = set t which (record entry { inuse = true }) }

-- How often a sequence of calls gives the port at an address.
abbrev given : Option Lres → ℕ → ℕ
given none base = 0
given (some e) base = if e.baseaddr == base then 1 else 0

unfoldable pub grants : List ℤ → List Lres → ℕ → ℕ
grants [] t base = 0
grants (w ∷ ws) t base = let r = legacy_alloc w t in given r.port base + grants ws r.table base

abbrev left : Bool → ℕ → ℕ → ℕ
left used port base = if not used && (port == base) then 1 else 0

grants-left :
    (ws : List ℤ) (a b : Bool) (base : ℕ)
    → grants ws (uart_lres a b) base ≤ left a 0x3f8 base + left b 0x2f8 base
unfolding grants legacy_alloc
grants-left [] a b base = omega arith
grants-left (negsuc n ∷ ws) a b base = omega (arith, grants-left ws a b base)
grants-left (pos zero ∷ ws) true b base = omega (arith, grants-left ws true b base)
grants-left (pos zero ∷ ws) false b base = ground (arith, grants-left ws true b base)
grants-left (pos (suc zero) ∷ ws) a true base = omega (arith, grants-left ws a true base)
grants-left (pos (suc zero) ∷ ws) a false base = ground (arith, grants-left ws a true base)
grants-left (pos (suc (suc n)) ∷ ws) a b base = ground (arith, grants-left ws a b base)

-- Whatever numbers are asked for, and however often, each legacy port is given at most once.
pub grants_once : (ws : List ℤ) (base : ℕ) → grants ws (uart_lres false false) base ≤ 1
grants_once ws base = ground (arith, grants-left ws false false base)
