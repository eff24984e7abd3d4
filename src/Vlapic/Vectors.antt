-- ===== src/Vlapic/Vectors.antt =====
-- The 256-bit registers of the local APIC in src/lib/vmm/io/vlapic.c, as eight words of 32 bits, and
-- the search for their highest bit.
use hyperkit.Base.{
  ℕ, zero, suc, ◌+◌, ◌-◌, ◌*◌, ◌/◌, ◌%◌, ◌^◌, ◌<◌, ◌≡◌, refl, ap, ◌∙◌, Bool, true, false, ◌==◌,
  List, length, get_or, set, if◌then◌else◌, arith, bit_or, Option, none, some, ℕ_discrete,
}
use hyperkit.Base.Bits.Laws.{bit}
use hyperkit.Base.Bits.Words.{clear}

-- `fls` of the C library: the place of the highest bit, from 1 on, or 0 for none; n is the number of bits to look at.
unfoldable pub fls_below : ℕ → ℕ → ℕ
fls_below zero x = 0
fls_below (suc n) x = if bit x n then suc n else fls_below n x

unfoldable pub fls : ℕ → ℕ
fls x = fls_below 32 x

-- The bit of a vector.
unfoldable pub has_vector : List ℕ → ℕ → Bool
has_vector ws v = bit (get_or ws (v / 32) 0) (v % 32)

unfoldable pub add_vector : List ℕ → ℕ → List ℕ
add_vector ws v = set ws (v / 32) (bit_or (get_or ws (v / 32) 0) (2 ^ (v % 32)))

unfoldable pub drop_vector : List ℕ → ℕ → List ℕ
drop_vector ws v = set ws (v / 32) (clear 32 (get_or ws (v / 32) 0) (2 ^ (v % 32)))

-- The loop from word n - 1 down to word 0: the highest vector.
unfoldable pub highest_below : ℕ → List ℕ → Option ℕ
highest_below zero ws = none
highest_below (suc i) ws =
    let bitpos = fls (get_or ws i 0) in
    if bitpos == 0 then highest_below i ws else some (i * 32 + (bitpos - 1))

unfoldable pub highest : List ℕ → Option ℕ
highest ws = highest_below 8 ws

pub record IsVectors (ws : List ℕ) : Type 0 where
  pub words : length ws ≡ 8
  pub fits : (i : ℕ) → get_or ws i 0 < 2 ^ 32

-- What the place of the highest bit says.
pub fls_found :
    (n x p : ℕ)
    → fls_below n x ≡ suc p
    → (bit x p ≡ true) × ((p < n) × ((k : ℕ) → p < k → k < n → bit x k ≡ false))
unfolding fls_below
fls_found zero x p e = cc
fls_found (suc n) x p e = go (bit x n) refl e (fls_found n x p)
  where
    go :
        (b : Bool)
        → bit x n ≡ b
        → (if b then suc n else fls_below n x) ≡ suc p
        → (fls_below n x ≡ suc p
            → (bit x p ≡ true) × ((p < n) × ((k : ℕ) → p < k → k < n → bit x k ≡ false)))
        → (bit x p ≡ true) × ((p < suc n) × ((k : ℕ) → p < k → k < suc n → bit x k ≡ false))
    go true b q ih = (
      ap (bit x) {x = p} {y = n} (omega (arith, q)) ∙ b,
      (omega (arith, q), λ k l h. absurd (omega (arith, q))),
    )
    go false b q ih =
        let r = ih q in
        (
          r.0,
          (
            omega (arith, r.1.0),
            λ k l h. elim (ℕ_discrete k n) [
              | yes e ↦ ap (bit x) e ∙ b
              | no ne ↦ r.1.1 k l (omega arith)
            ],
          ),
        )

pub fls_none : (n x : ℕ) → fls_below n x ≡ 0 → (k : ℕ) → k < n → bit x k ≡ false
unfolding fls_below
fls_none zero x e k h = absurd (omega arith)
fls_none (suc n) x e k h = go (bit x n) refl e (λ q l. fls_none n x q k l)
  where
    go :
        (b : Bool)
        → bit x n ≡ b
        → (if b then suc n else fls_below n x) ≡ 0
        → (fls_below n x ≡ 0 → k < n → bit x k ≡ false)
        → bit x k ≡ false
    go true b q ih = absurd (omega (arith, q))
    go false b q ih = elim (ℕ_discrete k n) [
      | yes e ↦ ap (bit x) e ∙ b
      | no ne ↦ ih q (omega arith)
    ]
