-- ===== src/Vlapic/Addressed.antt =====
-- Which local APICs an interrupt of src/lib/vmm/io/vlapic.c goes to.
use hyperkit.Base.{
  ℕ, zero, suc, ◌+◌, ◌^◌, ◌≤◌, ◌<◌, ◌≡◌, ◌≢◌, refl, sym, ap, ap₂, ◌∙◌, Bool, true, false, not, ◌&&◌,
  ◌||◌, ltb, leb, ◌==◌, ==_iff, ==_of_ne, List, length, get_or, set, get_or-set_self, get_or-set_ne,
  length-set, if◌then◌else◌, if_cases, arith, Option, some, Bool-cases, inl, inr, ℕ_discrete,
  dec_lt,
}
use hyperkit.Base.Bits.Laws.{bit, bit-bit_or, bit-pow, bit-zero}
use hyperkit.Vlapic.State.{Vlapic}
use hyperkit.Vlapic.Reset.{init}
use hyperkit.Vlapic.Targets.{
  Machine, apic_at, address_of, match_loop, is_target, calcdest, Delivery, is_lowest, deliver_one,
  deliver_loop, deliver_to, deliver_intr,
}

module _ (test : ℕ → Bool) where
  -- All that pass the test are in the set.
  bit-match_loop :
      (n v k : ℕ) → bit (match_loop test false n v) k ≡ (leb v k && (ltb k (v + n) && test k))
  unfolding match_loop
  bit-match_loop zero v k = bit-zero k ∙ ground arith
  bit-match_loop (suc n) v k = elim (Bool-cases (test v)) [
    | inl y ↦ rw y (
        bit-bit_or (2 ^ v) (match_loop test false n (v + 1)) k
        ∙ ap₂ ◌||◌ (bit-pow v k) (bit-match_loop n (v + 1) k)
        ∙ merged y)
    | inr z ↦ rw z (bit-match_loop n (v + 1) k ∙ skipped z)
  ]
    where
      merged :
          test v ≡ true
          → ((v == k) || (leb (v + 1) k && (ltb k (v + 1 + n) && test k)))
            ≡ (leb v k && (ltb k (v + suc n) && test k))
      merged y = elim (ℕ_discrete v k) [
        | yes e ↦ ground (arith, (==_iff v k).1 e, ap test (sym e) ∙ y)
        | no ne ↦ ground (arith, ==_of_ne v k ne)
      ]

      skipped :
          test v ≡ false
          → (leb (v + 1) k && (ltb k (v + 1 + n) && test k))
            ≡ (leb v k && (ltb k (v + suc n) && test k))
      skipped z = elim (ℕ_discrete v k) [
        | yes e ↦ ground (arith, ap test (sym e) ∙ z)
        | no ne ↦ ground (arith)
      ]

  -- A number below k passes the test.
  unfoldable pub any_below : ℕ → Bool
  any_below zero = false
  any_below (suc k) = test k || any_below k

  pub any_below_lem : (v k : ℕ) → v < k → test v ≡ true → any_below k ≡ true
  unfolding any_below
  any_below_lem v zero h y = absurd (omega arith)
  any_below_lem v (suc k) h y = elim (ℕ_discrete v k) [
    | yes e ↦ ground (arith, ap test (sym e) ∙ y)
    | no ne ↦ ground (arith, any_below_lem v k (omega arith) y)
  ]

  -- In the lowest priority mode only the first that passes the test is in the set.
  first-match_loop :
      (n v k : ℕ)
      → any_below v ≡ false
      → bit (match_loop test true n v) k
        ≡ (leb v k && (ltb k (v + n) && (test k && not (any_below k))))
  unfolding match_loop any_below
  first-match_loop zero v k o = bit-zero k ∙ ground arith
  first-match_loop (suc n) v k o = elim (Bool-cases (test v)) [
    | inl y ↦ rw y (bit-pow v k ∙ alone y)
    | inr z ↦ rw z (first-match_loop n (v + 1) k (grown z) ∙ skipped z)
  ]
    where
      alone :
          test v ≡ true
          → (v == k) ≡ (leb v k && (ltb k (v + suc n) && (test k && not (any_below k))))
      alone y = elim (ℕ_discrete v k) [
        | yes e ↦ ground (arith, (==_iff v k).1 e, ap test (sym e) ∙ y, ap any_below (sym e) ∙ o)
        | no ne ↦ elim (dec_lt v k) [
          | yes l ↦ ground (arith, ==_of_ne v k ne, any_below_lem v k l y)
          | no g ↦ ground (arith, ==_of_ne v k ne)
        ]
      ]

      grown : test v ≡ false → any_below (v + 1) ≡ false
      grown z = ap any_below {x = v + 1} {y = suc v} (omega arith) ∙ ground (arith, z, o)

      skipped :
          test v ≡ false
          → (leb (v + 1) k && (ltb k (v + 1 + n) && (test k && not (any_below k))))
            ≡ (leb v k && (ltb k (v + suc n) && (test k && not (any_below k))))
      skipped z = elim (ℕ_discrete v k) [
        | yes e ↦ ground (arith, ap test (sym e) ∙ z)
        | no ne ↦ ground (arith)
      ]

  -- Who gets an interrupt: all that pass the test, or the first of them.
  unfoldable pub goes_to : Bool → ℕ → Bool
  goes_to lowprio k = test k && not (lowprio && any_below k)

  bit-match_loop_all :
      (lowprio : Bool) (k : ℕ)
      → bit (match_loop test lowprio 32 0) k ≡ (ltb k 32 && goes_to lowprio k)
  unfolding goes_to any_below
  bit-match_loop_all false k = bit-match_loop 32 0 k ∙ ground arith
  bit-match_loop_all true k = first-match_loop 32 0 k refl ∙ ground arith

module _ (mode : Delivery) (vec d : ℕ) where
  -- The APICs after the round for one processor.
  abbrev after_round : ℕ → List Vlapic → List Vlapic
  after_round v apics =
      if bit d v then set apics v (deliver_one mode vec (get_or apics v (init 0))) else apics

  -- An APIC that is served under a condition.
  abbrev served : Bool → Vlapic → Vlapic
  served b x = if b then deliver_one mode vec x else x

  length-after_round : (v : ℕ) (apics : List Vlapic) → length (after_round v apics) ≡ length apics
  length-after_round v apics =
      if_cases (λ xs. length xs ≡ length apics) (bit d v) (λ _. length-set apics v _) (λ _. refl)

  same_round :
      (v : ℕ) (apics : List Vlapic)
      → v < length apics
      → get_or (after_round v apics) v (init 0) ≡ served (bit d v) (get_or apics v (init 0))
  same_round v apics h = elim (Bool-cases (bit d v)) [
    | inl y ↦ rw y (get_or-set_self apics v _ (init 0) h)
    | inr z ↦ rw z refl
  ]

  other_round :
      (v k : ℕ) (apics : List Vlapic)
      → v ≢ k
      → get_or (after_round v apics) k (init 0) ≡ get_or apics k (init 0)
  other_round v k apics ne =
      if_cases (λ xs. get_or xs k (init 0) ≡ get_or apics k (init 0)) (bit d v)
        (λ _. get_or-set_ne apics v k _ (init 0) ne) (λ _. refl)

  -- The APIC k after the loop over the targets.
  after-deliver_loop :
      (n v k : ℕ) (apics : List Vlapic)
      → k < length apics
      → get_or (deliver_loop mode vec d n v apics) k (init 0)
        ≡ served (leb v k && (ltb k (v + n) && bit d k)) (get_or apics k (init 0))
  unfolding deliver_loop
  after-deliver_loop zero v k apics h =
      ap (λ b. served b (get_or apics k (init 0))) {x = false} (ground arith)
  after-deliver_loop (suc n) v k apics h =
      after-deliver_loop n (v + 1) k (after_round v apics)
        (omega (arith, length-after_round v apics))
      ∙ elim (ℕ_discrete v k) [
        | yes e ↦
            ap (λ b. served b (get_or (after_round v apics) k (init 0))) {y = false}
              (ground (arith, e))
            ∙ ap (λ i. get_or (after_round v apics) i (init 0)) (sym e)
            ∙ same_round v apics (omega (arith, e))
            ∙ ap (λ i. served (bit d i) (get_or apics i (init 0))) e
            ∙ ap (λ b. served b (get_or apics k (init 0))) {x = bit d k} (ground (arith, e))
        | no ne ↦
            ap (served _) (other_round v k apics ne)
            ∙ ap (λ b. served b (get_or apics k (init 0)))
                {x = leb (v + 1) k && (ltb k (v + 1 + n) && bit d k)} (ground arith)
      ]

-- What a delivery does: the APICs that it goes to get the interrupt, and the others are as before.
pub record IsDelivered (m : Machine) (mode : Delivery) (vec : ℕ) (goes : ℕ → Bool)
    (o : Option Machine) : Type 0 where
  pub end : Machine
  pub returned : o ≡ some end
  pub apics :
      (k : ℕ)
      → k < length m.apics
      → apic_at end k ≡ (if goes k then deliver_one mode vec (apic_at m k) else apic_at m k)

-- On a machine of at most 32 processors, an interrupt to a logical address other than the broadcast
-- comes to each active APIC that answers to the address, or in the lowest priority mode to the first of
-- them alone, and no other APIC changes.
pub deliver_intr-IsDelivered :
    (m : Machine) (dest : ℕ) (mode : Delivery) (vec : ℕ)
    → dest ≢ 0xff
    → length m.apics ≤ 32
    → IsDelivered m mode vec
        (goes_to (is_target m (address_of false dest)) (is_lowest mode))
        (deliver_intr m dest false mode vec)
unfolding deliver_intr deliver_to calcdest
deliver_intr-IsDelivered m dest mode vec ne len = record {
  end = record m { apics = deliver_loop mode vec targets 32 0 m.apics };
  returned = ap (deliver_to m mode vec) found;
  apics = λ k h.
      after-deliver_loop mode vec targets 32 0 k m.apics h
      ∙ ap (λ b. served mode vec targets b (apic_at m k)) (chosen k (omega (arith, h, len)));
}
  where
    targets : ℕ
    targets = match_loop (is_target m (address_of false dest)) (is_lowest mode) 32 0

    found : calcdest m dest false (is_lowest mode) false ≡ some targets
    found = rw (calcdest, ==_of_ne dest 0xff ne) refl

    chosen :
        (k : ℕ)
        → k < 32
        → (leb 0 k && (ltb k 32 && bit targets k))
          ≡ goes_to (is_target m (address_of false dest)) (is_lowest mode) k
    chosen k l =
        ground (arith, bit-match_loop_all (is_target m (address_of false dest)) (is_lowest mode) k)
