-- ===== src/Pci/Counts.antt =====
-- How many entries of a list pass a test, and how often a wire of src/lib/pci_irq.c is raised and lowered.
use hyperkit.Base.{
  ℕ, zero, suc, ◌+◌, ◌<◌, ◌≡◌, refl, sym, ap, ◌∙◌, Bool, false, not, ◌&&◌, ◌==◌, List, [], ◌∷◌,
  length, get_or, set, length-set, if◌then◌else◌, if_cases, arith, bit_and,
}
use hyperkit.Base.Signed.{pos, incr, decr, is}
use hyperkit.Pci.Router.{
  Wire, isa, same_wire, Signal, raise, lower, level_trigger, Pirq, Router, no_pirq, pirq_at,
  pirq_valid_irq, is_driven, irq_of, tell, write_at, assert_at, deassert_at, counted,
}

abbrev pub num : Bool → ℕ
num b = if b then 1 else 0

unfoldable pub count {ℓ} : {A : Type ℓ} → (A → Bool) → List A → ℕ
count f [] = 0
count f (x ∷ xs) = num (f x) + count f xs

pub count-set {ℓ} :
    {A : Type ℓ} (f : A → Bool) (xs : List A) (i : ℕ) (x d : A)
    → i < length xs
    → count f (set xs i x) + num (f (get_or xs i d)) ≡ count f xs + num (f x)
unfolding count
count-set f [] i x d h = absurd (omega arith)
count-set f (y ∷ xs) zero x d h = omega arith
count-set f (y ∷ xs) (suc i) x d h = omega (arith, count-set f xs i x d (omega arith))

-- How often a wire is raised, and lowered.
unfoldable pub raises : Wire → Signal → Bool
raises w (raise x) = same_wire x w
raises w (lower x) = false
raises w (level_trigger irq) = false

unfoldable pub lowers : Wire → Signal → Bool
lowers w (raise x) = false
lowers w (lower x) = same_wire x w
lowers w (level_trigger irq) = false

abbrev pub ups : Wire → Router → ℕ
ups w r = count (raises w) r.signals

abbrev pub downs : Wire → Router → ℕ
downs w r = count (lowers w) r.signals

-- A pin that drives an interrupt of the 8259A pair.
unfoldable pub drives : ℕ → Pirq → Bool
drives irq p = is_driven p && irq_of p == irq

drives_of :
    (irq : ℕ) (p : Pirq) (n : ℕ)
    → p.active_count ≡ pos n
    → drives irq p ≡ ((not (n == 0) && pirq_valid_irq p.reg) && irq_of p == irq)
unfolding drives is_driven
drives_of irq p n e = ap (λ c. (not (is c 0) && pirq_valid_irq p.reg) && irq_of p == irq) e

-- Each interrupt of the pair has been raised once more than lowered for each pin that drives it.
pub record IsBalanced (r : Router) : Type 0 where
  pub pins : length r.pirqs ≡ 8
  pub isa : (irq : ℕ) → ups (isa irq) r ≡ downs (isa irq) r + count (drives irq) r.pirqs

module _ (p : Pirq) (r : Router) where
  pub ups-tell :
      (w : Wire)
      → ups w (tell raise p r) ≡ num (is_driven p && same_wire (isa (irq_of p)) w) + ups w r
  unfolding tell count raises
  ups-tell w = ground arith

  pub downs-tell :
      (w : Wire)
      → downs w (tell lower p r) ≡ num (is_driven p && same_wire (isa (irq_of p)) w) + downs w r
  unfolding tell count lowers
  downs-tell w = ground arith

  pub downs-tell_raise : (w : Wire) → downs w (tell raise p r) ≡ downs w r
  unfolding tell count lowers
  downs-tell_raise w = ground arith

  pub ups-tell_lower : (w : Wire) → ups w (tell lower p r) ≡ ups w r
  unfolding tell count raises
  ups-tell_lower w = ground arith

  pub pirqs-tell : (s : Wire → Signal) → (tell s p r).pirqs ≡ r.pirqs
  unfolding tell
  pirqs-tell s = if_cases (λ (t : Router). t.pirqs ≡ r.pirqs) (is_driven p) (λ _. refl) (λ _. refl)

module _ (r : Router) (ok : IsBalanced r) (i : ℕ) (h : i < 8) where
  abbrev p : Pirq
  p = pirq_at r i

  -- A count of the drives with another entry for the pin.
  replaced :
      (irq : ℕ) (q : Pirq)
      → count (drives irq) (set r.pirqs i q) + num (drives irq p)
        ≡ count (drives irq) r.pirqs + num (drives irq q)
  replaced irq q = count-set (drives irq) r.pirqs i q no_pirq (omega (arith, ok.pins))

  -- The signals make up for the change of the pin.
  makes_up :
      (q : Pirq) (s : Router)
      → s.pirqs ≡ set r.pirqs i q
      → ((irq : ℕ)
          → ups (isa irq) s + num (drives irq p) + downs (isa irq) r
            ≡ ups (isa irq) r + num (drives irq q) + downs (isa irq) s)
      → IsBalanced s
  makes_up q s e bal = record {
    pins = ap length e ∙ length-set r.pirqs i q ∙ ok.pins;
    isa = λ irq.
        let same : count (drives irq) s.pirqs ≡ count (drives irq) (set r.pirqs i q) =
          ap (count (drives irq)) e in
        omega (arith, bal irq, ok.isa irq, replaced irq q, same);
  }

  pub write_at-IsBalanced : (val : ℕ) → IsBalanced (write_at r i val)
  unfolding write_at drives same_wire
  write_at-IsBalanced val =
      if_cases IsBalanced (p.reg == bit_and val 0x8f) (λ _. ok)
        (λ _. makes_up q (tell raise q stored) (pirqs-tell q stored raise) (λ irq. omega (
          arith,
          ups-tell q stored (isa irq),
          ups-tell_lower p r (isa irq),
          downs-tell_raise q stored (isa irq),
          downs-tell p r (isa irq),
        )))
    where
      q : Pirq
      q = record p { reg = bit_and val 0x8f }

      stored : Router
      stored = record (tell lower p r) { pirqs = set r.pirqs i q }

  pub assert_at-IsBalanced : (n : ℕ) → p.active_count ≡ pos n → IsBalanced (assert_at i r)
  unfolding assert_at count raises lowers same_wire incr
  assert_at-IsBalanced n e =
      if_cases IsBalanced (is (counted incr p).active_count 1 && pirq_valid_irq p.reg)
        (λ y.
          makes_up (counted incr p) _ refl
            (λ irq. ground (arith, before irq, after irq, sym first ∙ y)))
        (λ z.
          makes_up (counted incr p) _ refl
            (λ irq. ground (arith, before irq, after irq, sym first ∙ z)))
    where
      first :
          (is (counted incr p).active_count 1 && pirq_valid_irq p.reg)
          ≡ (suc n == 1 && pirq_valid_irq p.reg)
      first = ap (λ c. is (incr c) 1 && pirq_valid_irq p.reg) e

      before :
          (irq : ℕ) → drives irq p ≡ ((not (n == 0) && pirq_valid_irq p.reg) && irq_of p == irq)
      before irq = drives_of irq p n e

      after : (irq : ℕ) → drives irq (counted incr p) ≡ (pirq_valid_irq p.reg && irq_of p == irq)
      after irq = drives_of irq (counted incr p) (suc n) (ap incr e) ∙ ground arith

  pub deassert_at-IsBalanced : (n : ℕ) → p.active_count ≡ pos (suc n) → IsBalanced (deassert_at i r)
  unfolding deassert_at count raises lowers same_wire decr
  deassert_at-IsBalanced n e =
      if_cases IsBalanced (is (counted decr p).active_count 0 && pirq_valid_irq p.reg)
        (λ y.
          makes_up (counted decr p) _ refl
            (λ irq. ground (arith, before irq, after irq, sym last ∙ y)))
        (λ z.
          makes_up (counted decr p) _ refl
            (λ irq. ground (arith, before irq, after irq, sym last ∙ z)))
    where
      last :
          (is (counted decr p).active_count 0 && pirq_valid_irq p.reg)
          ≡ (n == 0 && pirq_valid_irq p.reg)
      last = ap (λ c. is (decr c) 0 && pirq_valid_irq p.reg) e

      before : (irq : ℕ) → drives irq p ≡ (pirq_valid_irq p.reg && irq_of p == irq)
      before irq = drives_of irq p (suc n) e ∙ ground arith

      after :
          (irq : ℕ)
          → drives irq (counted decr p)
            ≡ ((not (n == 0) && pirq_valid_irq p.reg) && irq_of p == irq)
      after irq = drives_of irq (counted decr p) n (ap decr e)
