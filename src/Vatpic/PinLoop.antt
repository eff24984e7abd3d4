-- ===== src/Vatpic/PinLoop.antt =====
-- ATPIC_PIN_FOREACH of src/lib/vmm/io/vatpic.c: the loop over the eight pins of a chip in priority
-- order, as a combinator over the loop's body, and what it finds.
use hyperkit.Base.{
  ℕ, zero, suc, ◌+◌, ◌-◌, ◌%◌, ◌≤◌, ◌<◌, ◌≡◌, refl, sym, ap, ◌∙◌, subst, ◌↔◌, ◌⊎◌, inl, inr, Option,
  none, some, arith, dec_lt, ℕ_discrete,
}

-- What one round does: `continue`, `break`, or `return (pin)`.
pub data Flow : Type 0 where
  next leave found : Flow

-- The rounds left and the current pin; `none` is the `return (-1)` behind the loop.
unfoldable pub pin_rounds : (ℕ → Flow) → ℕ → ℕ → Option ℕ
pin_rounds body zero pin = none
pin_rounds body (suc n) pin =
    let rest = pin_rounds body n ((pin + 1) % 8) in
    elim (body pin) [ next ↦ rest | leave ↦ none | found ↦ some pin ]

unfoldable pub pin_foreach : (ℕ → Flow) → ℕ → Option ℕ
unfolding pin_rounds
pin_foreach body lowprio = pin_rounds body 8 ((lowprio + 1) % 8)

-- How many pins go before this one in the priority order.
unfoldable pub rank : ℕ → ℕ → ℕ
rank lowprio pin = (pin + 7 - lowprio) % 8

pub rank-injective : {low p q : ℕ} → low < 8 → p < 8 → q < 8 → rank low p ≡ rank low q → p ≡ q
unfolding rank
rank-injective hl hp hq e = omega arith

-- The pin at which the loop returns: its own round returns, and every round before goes on.
pub record IsFirst (body : ℕ → Flow) (lowprio pin : ℕ) : Type 0 where
  pub in_range : pin < 8
  pub returns : body pin ≡ found
  pub before : (q : ℕ) → q < 8 → rank lowprio q < rank lowprio pin → body q ≡ next

Flow-cases : (f : Flow) → (f ≡ next) ⊎ ((f ≡ leave) ⊎ (f ≡ found))
Flow-cases next = inl refl
Flow-cases leave = inr (inl refl)
Flow-cases found = inr (inr refl)

module _ (body : ℕ → Flow) (low : ℕ) (low_in : low < 8) where
  -- the pin of round k
  abbrev at : ℕ → ℕ
  at k = (low + 1 + k) % 8

  rank-at : (k : ℕ) → k < 8 → rank low (at k) ≡ k
  unfolding rank
  rank-at k h = omega arith

  at-rank : (q : ℕ) → q < 8 → at (rank low q) ≡ q
  unfolding rank
  at-rank q h = omega arith

  rank_below : (q : ℕ) → rank low q < 8
  unfolding rank
  rank_below q = omega arith

  at-suc : (k : ℕ) → (at k + 1) % 8 ≡ at (k + 1)
  at-suc k = omega arith

  -- The rounds below k have gone on.
  abbrev Passed : ℕ → Type 0
  Passed k = (q : ℕ) → q < 8 → rank low q < k → body q ≡ next

  Passed-suc : (k : ℕ) → body (at k) ≡ next → Passed k → Passed (k + 1)
  Passed-suc k e passed q hq h = elim (dec_lt (rank low q) k) [
    | yes lt ↦ passed q hq lt
    | no ge ↦
        let same : k ≡ rank low q = omega arith in
        subst (λ t. body t ≡ next) (ap at same ∙ at-rank q hq) e
  ]

  round-next :
      (n k : ℕ)
      → body (at k) ≡ next
      → pin_rounds body (suc n) (at k) ≡ pin_rounds body n (at (k + 1))
  unfolding pin_rounds
  round-next n k e = rw (e, pin_rounds) (ap (pin_rounds body n) (at-suc k))

  round-leave : (n k : ℕ) → body (at k) ≡ leave → pin_rounds body (suc n) (at k) ≡ none
  unfolding pin_rounds
  round-leave n k e = rw (e, pin_rounds)

  round-found : (n k : ℕ) → body (at k) ≡ found → pin_rounds body (suc n) (at k) ≡ some (at k)
  unfolding pin_rounds
  round-found n k e = rw (e, pin_rounds)

  at-IsFirst : (k : ℕ) → k < 8 → Passed k → body (at k) ≡ found → IsFirst body low (at k)
  at-IsFirst k hk passed here = record {
    in_range = omega arith;
    returns = here;
    before = λ q hq lt. passed q hq (subst (λ t. rank low q < t) (rank-at k hk) lt);
  }

  pin_rounds_sound :
      (n k p : ℕ) → n + k ≡ 8 → Passed k → pin_rounds body n (at k) ≡ some p → IsFirst body low p
  unfolding pin_rounds
  pin_rounds_sound zero k p e passed h = cc
  pin_rounds_sound (suc n) k p e passed h = elim (Flow-cases (body (at k))) [
    | inl go ↦
        pin_rounds_sound n (k + 1) p (omega arith) (Passed-suc k go passed)
          (sym (round-next n k go) ∙ h)
    | inr (inl stop) ↦ cc (round-leave n k stop)
    | inr (inr here) ↦
        let same : at k ≡ p = cc (round-found n k here) in
        subst (IsFirst body low) same (at-IsFirst k (omega arith) passed here)
  ]

  pin_rounds_complete :
      (n k p : ℕ)
      → n + k ≡ 8
      → k ≤ rank low p
      → IsFirst body low p
      → pin_rounds body n (at k) ≡ some p
  pin_rounds_complete zero k p e h first = absurd (omega (arith, rank_below p))
  pin_rounds_complete (suc n) k p e h first = elim (ℕ_discrete (rank low p) k) [
    | yes eq ↦
        let same : at k ≡ p = ap at (sym eq) ∙ at-rank p first.in_range in
        round-found n k (ap body same ∙ first.returns) ∙ ap some same
    | no ne ↦
        round-next n k (
          first.before (at k) (omega arith)
            (subst (λ t. t < rank low p) (sym (rank-at k (omega arith))) (omega arith)))
        ∙ pin_rounds_complete n (k + 1) p (omega arith) (omega arith) first
  ]

  at-zero : at 0 ≡ (low + 1) % 8
  at-zero = omega arith

  -- The loop returns exactly the first pin, in the chip's priority order, whose round returns.
  pub pin_foreach_iff : (p : ℕ) → (pin_foreach body low ≡ some p) ↔ IsFirst body low p
  unfolding pin_foreach
  pin_foreach_iff p = (
    λ h. pin_rounds_sound 8 0 p refl (λ q hq lt. absurd (omega arith)) (start ∙ h),
    λ first. sym start ∙ pin_rounds_complete 8 0 p refl (omega arith) first,
  )
    where
      start : pin_rounds body 8 (at 0) ≡ pin_rounds body 8 ((low + 1) % 8)
      start = ap (pin_rounds body 8) at-zero

  pub pin_foreach-lt : (p : ℕ) → pin_foreach body low ≡ some p → p < 8
  pin_foreach-lt p h = ((pin_foreach_iff p).0 h).in_range
