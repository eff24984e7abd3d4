-- ===== src/Vlapic/Logical.antt =====
-- The logical addresses of src/lib/vmm/io/vlapic.c by their bits, and what a delivery to one does.
use hyperkit.Base.{
  ℕ, zero, suc, ◌+◌, ◌-◌, ◌*◌, ◌/◌, ◌%◌, ◌^◌, ◌≤◌, ◌<◌, ◌≡◌, ◌≢◌, refl, sym, ap, ap₂, ◌∙◌, Bool,
  true, false, not, ◌&&◌, ◌||◌, ltb, leb, ◌==◌, ==_iff, ==_of_ne, if◌then◌else◌, arith, Bool-cases,
  inl, inr, bit_and, ℕ_discrete,
}
use hyperkit.Base.Bits.Laws.{bit, bit_ext, bit-bit_and, bit-ones, bit-zero}
use hyperkit.Base.Bits.Shifts.{bit-mod, bit-div, bit-mul}
use hyperkit.Base.Bits.Words.{has, has-pow}
use hyperkit.Vlapic.State.{Vlapic}
use hyperkit.Vlapic.Reset.{x2apic}
use hyperkit.Vlapic.Targets.{address_of, answers}
use hyperkit.Vlapic.Addressed.{any_below, any_below_lem}

module _ (t : ℕ → Bool) where
  none_below : (k n : ℕ) → any_below t n ≡ false → k < n → t k ≡ false
  none_below k n e h = elim (Bool-cases (t k)) [
    | inl y ↦ let on = any_below_lem t k n h y in cc
    | inr z ↦ z
  ]

  found_below : (n : ℕ) → any_below t n ≡ true → (k : ℕ) × ((k < n) × (t k ≡ true))
  unfolding any_below
  found_below zero e = cc
  found_below (suc n) e = elim (Bool-cases (t n)) [
    | inl y ↦ (n, (omega arith, y))
    | inr z ↦ let r = found_below n (ground (arith, z)) in (r.0, (omega (arith, r.1.0), r.1.1))
  ]

any_below-agree :
    (t u : ℕ → Bool) (n : ℕ) → ((j : ℕ) → j < n → t j ≡ u j) → any_below t n ≡ any_below u n
unfolding any_below
any_below-agree t u zero e = refl
any_below-agree t u (suc n) e =
    ap₂ ◌||◌ (e n (omega arith)) (any_below-agree t u n (λ j h. e j (omega arith)))

-- Two words have a bit in common, of the first n of the one and those from a place on of the other.
abbrev pub share : ℕ → ℕ → ℕ → ℕ → Bool
share n shift x y = any_below (λ j. bit x j && bit y (j + shift)) n

has-share : (n x y : ℕ) → has (bit_and x (2 ^ n - 1)) y ≡ any_below (λ j. bit x j && bit y j) n
unfolding has
has-share n x y = elim (Bool-cases (any_below (λ j. bit x j && bit y j) n)) [
  | inl some_bit ↦
      let (k, (l, b)) = found_below (λ j. bit x j && bit y j) n some_bit in
      ap not (==_of_ne _ 0 (λ e. apart k l b e)) ∙ sym some_bit
  | inr no_bit ↦ ap not ((==_iff _ 0).1 (bit_ext _ 0 (λ k. off k no_bit))) ∙ sym no_bit
]
  where
    bits : (k : ℕ) → bit (bit_and (bit_and x (2 ^ n - 1)) y) k ≡ ((bit x k && ltb k n) && bit y k)
    bits k =
        bit-bit_and (bit_and x (2 ^ n - 1)) y k
        ∙ ap (λ b. b && bit y k)
            (bit-bit_and x (2 ^ n - 1) k ∙ ap (λ b. bit x k && b) (bit-ones n k))

    apart : (k : ℕ) → k < n → (bit x k && bit y k) ≡ true → bit_and (bit_and x (2 ^ n - 1)) y ≢ 0
    apart k l b e =
        let zero_bit = sym (bits k) ∙ ap (λ z. bit z k) e ∙ bit-zero k in
        ground (arith, zero_bit, b)

    off :
        (k : ℕ)
        → any_below (λ j. bit x j && bit y j) n ≡ false
        → bit (bit_and (bit_and x (2 ^ n - 1)) y) k ≡ bit 0 k
    off k none_of = bits k ∙ elim (Bool-cases (ltb k n)) [
      | inl l ↦ ground (
        arith,
        l,
        none_below (λ j. bit x j && bit y j) k n none_of (ground (arith, l)),
        bit-zero k,
      )
      | inr l ↦ ground (arith, l, bit-zero k)
    ]

-- The model that the DFR names, in its highest four bits.
model_lem : (dfr n : ℕ) → n < 16 → (bit_and dfr 0xf0000000 == n * 2 ^ 28) ≡ (dfr / 2 ^ 28 % 16 == n)
model_lem dfr n h = ap (λ x. x == n * 2 ^ 28) top ∙ scaled (dfr / 2 ^ 28 % 16) n
  where
    top : bit_and dfr 0xf0000000 ≡ dfr / 2 ^ 28 % 16 * 2 ^ 28
    top = bit_ext _ _ (λ k.
        bit-bit_and dfr 0xf0000000 k
        ∙ ap (λ b. bit dfr k && b) (bit-mul 28 15 k ∙ ap (λ b. leb 28 k && b) (bit-ones 4 (k - 28)))
        ∙ ground (
          arith,
          bit-mul 28 (dfr / 2 ^ 28 % 16) k,
          bit-mod 4 (dfr / 2 ^ 28) (k - 28),
          bit-div 28 dfr (k - 28),
          ap (bit dfr) (back k),
        ))
      where
        back : (k : ℕ) → k - 28 + 28 ≡ (if leb 28 k then k else 28)
        back k = ground arith

    scaled : (a b : ℕ) → (a * 2 ^ 28 == b * 2 ^ 28) ≡ (a == b)
    scaled a b = elim (ℕ_discrete a b) [
      | yes e ↦ (==_iff _ _).1 (ap (λ x. x * 2 ^ 28) e) ∙ sym ((==_iff a b).1 e)
      | no ne ↦ ==_of_ne _ _ (λ e. ne (omega (arith, e))) ∙ sym (==_of_ne a b ne)
    ]

-- An APIC is addressed. In the flat model the address and the highest eight bits of the LDR have a bit
-- in common. In the cluster model the cluster in the address is that of the LDR, and the lowest four
-- bits of the address have one in common with the APICs that the LDR names, which stands in another place
-- in the x2APIC mode.
abbrev pub is_addressed : ℕ → Vlapic → Bool
is_addressed dest v =
    if v.dfr / 2 ^ 28 % 16 == 15
    then share 8 24 dest v.ldr
    else if v.dfr / 2 ^ 28 % 16 == 0
    then (if bit v.msr_apicbase 10
        then v.ldr / 2 ^ 16 == dest / 2 ^ 4 % 16 && share 4 0 dest v.ldr
        else v.ldr / 2 ^ 28 == dest / 2 ^ 4 % 16 && share 4 24 dest v.ldr)
    else false

low_bits : (w x : ℕ) → bit_and x (2 ^ w - 1) ≡ x % 2 ^ w
low_bits w x = bit_ext _ _ (λ k.
    bit-bit_and x (2 ^ w - 1) k
    ∙ ap (λ b. bit x k && b) (bit-ones w k)
    ∙ ground (arith, bit-mod w x k))

module _ (dest ldr : ℕ) where
  flat_lem : has (bit_and dest 0xff) (ldr / 2 ^ 24) ≡ share 8 24 dest ldr
  flat_lem =
      has-share 8 dest (ldr / 2 ^ 24)
      ∙ any_below-agree _ _ 8 (λ j h. ap (λ b. bit dest j && b) (bit-div 24 ldr j))

  -- The APICs of a cluster are numbered by w bits of the LDR.
  cluster_lem :
      (w s : ℕ)
      → 4 ≤ w
      → has (bit_and dest 0xf) (bit_and (ldr / 2 ^ s) (2 ^ w - 1)) ≡ share 4 s dest ldr
  cluster_lem w s h =
      has-share 4 dest (bit_and (ldr / 2 ^ s) (2 ^ w - 1))
      ∙ any_below-agree _ _ 4 (λ j l.
        ap (λ b. bit dest j && b)
          (bit-bit_and (ldr / 2 ^ s) (2 ^ w - 1) j
            ∙ ap (λ b. bit (ldr / 2 ^ s) j && b) (bit-ones w j)
            ∙ ground (arith, bit-div s ldr j)))

  -- The LDR of the x2APIC mode.
  wide_lem : has (bit_and dest 0xf) (bit_and ldr 0xffff) ≡ share 4 0 dest ldr
  wide_lem =
      has-share 4 dest (bit_and ldr 0xffff)
      ∙ any_below-agree _ _ 4 (λ j l.
        ap (λ b. bit dest j && b)
          (bit-bit_and ldr 0xffff j
            ∙ ap (λ b. bit ldr j && b) (bit-ones 16 j)
            ∙ ground (arith, ap (bit ldr) (plus_none j))))
    where
      plus_none : (j : ℕ) → j + 0 ≡ j
      plus_none j = omega arith

pub answers_lem : (dest : ℕ) (v : Vlapic) → answers (address_of false dest) v ≡ is_addressed dest v
unfolding answers address_of x2apic
answers_lem dest v = elim (Bool-cases (bit v.msr_apicbase 10)) [
  | inl y ↦
      rw
        (
          model_lem v.dfr 15 (omega arith),
          model_lem v.dfr 0 (omega arith),
          has-pow v.msr_apicbase 10,
          flat_lem dest v.ldr,
          low_bits 4 (dest / 2 ^ 4),
          y,
          wide_lem dest v.ldr,
        )
        refl
  | inr z ↦
      rw
        (
          model_lem v.dfr 15 (omega arith),
          model_lem v.dfr 0 (omega arith),
          has-pow v.msr_apicbase 10,
          flat_lem dest v.ldr,
          low_bits 4 (dest / 2 ^ 4),
          z,
          cluster_lem dest v.ldr 4 24 (omega arith),
        )
        refl
]
