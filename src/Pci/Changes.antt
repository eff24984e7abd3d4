-- ===== src/Pci/Changes.antt =====
-- What the calls of the router in src/lib/pci_irq.c do to its counts and to the wires of the I/O APIC.
use hyperkit.Base.{
  ℕ, ◌<◌, ◌≡◌, refl, sym, ap, ◌∙◌, ◌&&◌, ◌==◌, ==_of_ne, ==_iff, length, get_or, set,
  get_or-set_self, get_or-set_ne, if◌then◌else◌, if_cases, arith, bit_and, ℕ_discrete,
}
use hyperkit.Base.Signed.{incr, decr, is}
use hyperkit.Pci.Router.{
  ioapic, same_wire, raise, lower, Pirq, Router, no_pirq, pirq_at, pirq_valid_irq, is_driven, tell,
  write_at, assert_at, deassert_at, counted,
}
use hyperkit.Pci.Counts.{count, raises, lowers, ups, downs, pirqs-tell}

-- The counts with another entry for the pin at an index.
module _ (r : Router) (i : ℕ) (h : i < length r.pirqs) where
  replaced_at :
      (q : Pirq) (j : ℕ)
      → (get_or (set r.pirqs i q) j no_pirq).active_count
        ≡ (if i == j then q.active_count else (pirq_at r j).active_count)
  replaced_at q j = elim (ℕ_discrete i j) [
    | yes e ↦
        ap (λ x. (get_or (set r.pirqs i q) x no_pirq).active_count) (sym e)
        ∙ ap (λ (x : Pirq). x.active_count) (get_or-set_self r.pirqs i q no_pirq h)
        ∙ ground (arith, (==_iff i j).1 e)
    | no ne ↦
        ap (λ (x : Pirq). x.active_count) (get_or-set_ne r.pirqs i j q no_pirq ne)
        ∙ ground (arith, ==_of_ne i j ne)
  ]

  pub active-assert_at :
      (j : ℕ)
      → (pirq_at (assert_at i r) j).active_count
        ≡ (if i == j then incr (pirq_at r i).active_count else (pirq_at r j).active_count)
  unfolding assert_at
  active-assert_at j =
      if_cases
        (λ (s : Router).
          (pirq_at s j).active_count
          ≡ (if i == j then incr (pirq_at r i).active_count else (pirq_at r j).active_count))
        _ (λ _. replaced_at (counted incr (pirq_at r i)) j)
        (λ _. replaced_at (counted incr (pirq_at r i)) j)

  pub active-deassert_at :
      (j : ℕ)
      → (pirq_at (deassert_at i r) j).active_count
        ≡ (if i == j then decr (pirq_at r i).active_count else (pirq_at r j).active_count)
  unfolding deassert_at
  active-deassert_at j =
      if_cases
        (λ (s : Router).
          (pirq_at s j).active_count
          ≡ (if i == j then decr (pirq_at r i).active_count else (pirq_at r j).active_count))
        _ (λ _. replaced_at (counted decr (pirq_at r i)) j)
        (λ _. replaced_at (counted decr (pirq_at r i)) j)

  pub active-write_at :
      (val j : ℕ) → (pirq_at (write_at r i val) j).active_count ≡ (pirq_at r j).active_count
  unfolding write_at
  active-write_at val j =
      if_cases (λ (s : Router). (pirq_at s j).active_count ≡ (pirq_at r j).active_count)
        ((pirq_at r i).reg == bit_and val 0x8f) (λ _. refl)
        (λ _.
          ap (λ ps. (get_or ps j no_pirq).active_count)
            (pirqs-tell q (record (tell lower (pirq_at r i) r) { pirqs = set r.pirqs i q }) raise)
          ∙ replaced_at q j
          ∙ same)
    where
      q : Pirq
      q = record (pirq_at r i) { reg = bit_and val 0x8f }

      same :
          (if i == j then q.active_count else (pirq_at r j).active_count)
          ≡ (pirq_at r j).active_count
      same = elim (ℕ_discrete i j) [
        | yes e ↦ rw ((==_iff i j).1 e) (ap (λ x. (pirq_at r x).active_count) e)
        | no ne ↦ rw (==_of_ne i j ne) refl
      ]

-- A wire of the I/O APIC has been raised and lowered as often before and after.
pub record IsApart (irq : ℕ) (r s : Router) : Type 0 where
  pub raised : ups (ioapic irq) s ≡ ups (ioapic irq) r
  pub lowered : downs (ioapic irq) s ≡ downs (ioapic irq) r

pub assert_at-IsApart : (irq i : ℕ) (r : Router) → IsApart irq r (assert_at i r)
unfolding assert_at count raises lowers same_wire
assert_at-IsApart irq i r =
    if_cases (IsApart irq r)
      (is (counted incr (pirq_at r i)).active_count 1 && pirq_valid_irq (pirq_at r i).reg)
      (λ _. record { raised = omega arith; lowered = omega arith })
      (λ _. record { raised = refl; lowered = refl })

pub deassert_at-IsApart : (irq i : ℕ) (r : Router) → IsApart irq r (deassert_at i r)
unfolding deassert_at count raises lowers same_wire
deassert_at-IsApart irq i r =
    if_cases (IsApart irq r)
      (is (counted decr (pirq_at r i)).active_count 0 && pirq_valid_irq (pirq_at r i).reg)
      (λ _. record { raised = omega arith; lowered = omega arith })
      (λ _. record { raised = refl; lowered = refl })

tell-IsApart :
    (irq : ℕ) (p : Pirq) (r : Router)
    → (IsApart irq r (tell raise p r)) × (IsApart irq r (tell lower p r))
unfolding tell count raises lowers same_wire
tell-IsApart irq p r = (
  if_cases (IsApart irq r) (is_driven p)
      (λ _. record { raised = omega arith; lowered = omega arith })
      (λ _. record { raised = refl; lowered = refl }),
  if_cases (IsApart irq r) (is_driven p)
      (λ _. record { raised = omega arith; lowered = omega arith })
      (λ _. record { raised = refl; lowered = refl }),
)

pub write_at-IsApart : (irq i val : ℕ) (r : Router) → IsApart irq r (write_at r i val)
unfolding write_at
write_at-IsApart irq i val r =
    if_cases (IsApart irq r) ((pirq_at r i).reg == bit_and val 0x8f)
      (λ _. record { raised = refl; lowered = refl })
      (λ _.
        let a = (tell-IsApart irq q stored).0 in
        let b = (tell-IsApart irq (pirq_at r i) r).1 in
        record { raised = a.raised ∙ b.raised; lowered = a.lowered ∙ b.lowered })
  where
    q : Pirq
    q = record (pirq_at r i) { reg = bit_and val 0x8f }

    stored : Router
    stored = record (tell lower (pirq_at r i) r) { pirqs = set r.pirqs i q }
