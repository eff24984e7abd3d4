-- ===== src/Vatpic/Priority.antt =====
-- What vatpic_get_highest_irrpin and vatpic_get_highest_isrpin of src/lib/vmm/io/vatpic.c find, in
-- terms of the priority order and the register bits alone.
use hyperkit.Base.{
  ℕ, ◌^◌, ◌≤◌, ◌<◌, ◌≡◌, refl, sym, ◌∙◌, ◌↔◌, Bool, true, false, not, ◌&&◌, ◌==◌, some, arith,
  if◌then◌else◌, ℕ_discrete, subst,
}
use hyperkit.Base.Bits.Laws.{bit, bit-pow, bit-zero}
use hyperkit.Base.Bits.Words.{has-pow, bit-clear}
use hyperkit.Vatpic.PinLoop.{next, leave, found, rank, rank-injective, pin_foreach_iff, IsFirst}
use hyperkit.Vatpic.State.{
  Atpic, isr_round, irr_round, serviced, get_highest_isrpin, get_highest_irrpin,
}

-- A request that is not masked.
abbrev pub pending : Atpic → ℕ → Bool
pending a pin = bit a.request pin && not (bit a.mask pin)

-- A pin in service holds back requests, but not in special mask mode, and the cascade pin 2 does
-- not in special fully nested mode.
abbrev pub holds_back : Atpic → ℕ → Bool
holds_back a pin = not a.smm && bit a.service pin && not (a.sfn && (2 == pin))

-- The pin of the request to deliver: it is pending, nothing before it in the priority order is,
-- and no pin up to it holds back.
pub record IsHighestRequest (a : Atpic) (pin : ℕ) : Type 0 where
  pub in_range : pin < 8
  pub is_pending : pending a pin ≡ true
  pub before : (q : ℕ) → q < 8 → rank a.lowprio q < rank a.lowprio pin → pending a q ≡ false
  pub not_held : (q : ℕ) → q < 8 → rank a.lowprio q ≤ rank a.lowprio pin → holds_back a q ≡ false

-- In service, and in special mask mode also not masked.
abbrev pub ends : Atpic → ℕ → Bool
ends a pin = bit a.service pin && not (a.smm && bit a.mask pin)

-- The pin that a non-specific end of interrupt is for.
pub record IsHighestService (a : Atpic) (pin : ℕ) : Type 0 where
  pub in_range : pin < 8
  pub is_served : ends a pin ≡ true
  pub before : (q : ℕ) → q < 8 → rank a.lowprio q < rank a.lowprio pin → ends a q ≡ false

bit-serviced : (a : Atpic) (pin : ℕ) → a.service < 2 ^ 8 → bit (serviced a) pin ≡ holds_back a pin
unfolding serviced
bit-serviced a pin h =
    ground (arith, bit-clear 8 a.service (2 ^ 2) pin h, bit-pow 2 pin, bit-zero pin)

-- A round of the request loop by the bits that it reads.
pub irr_round_lem :
    (a : Atpic) (pin : ℕ)
    → a.service < 2 ^ 8
    → irr_round a pin ≡ (if holds_back a pin then leave else if pending a pin then found else next)
unfolding irr_round
irr_round_lem a pin h =
    simp (has-pow (serviced a) pin, has-pow a.request pin, has-pow a.mask pin, bit-serviced a pin h)

pub isr_round_lem : (a : Atpic) (pin : ℕ) → isr_round a pin ≡ (if ends a pin then found else next)
unfolding isr_round
isr_round_lem a pin = ground (arith, has-pow a.service pin, has-pow a.mask pin)

-- The three outcomes of a request round.
irr-found :
    (h p : Bool)
    → (if h then leave else if p then found else next) ≡ found
    → (h ≡ false) × (p ≡ true)
irr-found true p e = cc
irr-found false true e = (refl, refl)
irr-found false false e = cc

irr-next :
    (h p : Bool)
    → (if h then leave else if p then found else next) ≡ next
    → (h ≡ false) × (p ≡ false)
irr-next true p e = cc
irr-next false true e = cc
irr-next false false e = (refl, refl)

isr-found : (b : Bool) → (if b then found else next) ≡ found → b ≡ true
isr-found true e = refl
isr-found false e = cc

isr-next : (b : Bool) → (if b then found else next) ≡ next → b ≡ false
isr-next true e = cc
isr-next false e = refl

module _ (a : Atpic) (served : a.service < 2 ^ 8) (low : a.lowprio < 8) where
  first→request : (pin : ℕ) → IsFirst (irr_round a) a.lowprio pin → IsHighestRequest a pin
  first→request pin first = record {
    in_range = first.in_range;
    is_pending = (irr-found _ _ (sym (irr_round_lem a pin served) ∙ first.returns)).1;
    before = λ q hq lt. (passes q hq lt).1;
    not_held = λ q hq le. elim (ℕ_discrete (rank a.lowprio q) (rank a.lowprio pin)) [
      | yes e ↦
          subst (λ t. holds_back a t ≡ false) (sym (rank-injective low hq first.in_range e))
            (irr-found _ _ (sym (irr_round_lem a pin served) ∙ first.returns)).0
      | no ne ↦ (passes q hq (omega arith)).0
    ];
  }
    where
      passes :
          (q : ℕ)
          → q < 8
          → rank a.lowprio q < rank a.lowprio pin
          → (holds_back a q ≡ false) × (pending a q ≡ false)
      passes q hq lt = irr-next _ _ (sym (irr_round_lem a q served) ∙ first.before q hq lt)

  request→first : (pin : ℕ) → IsHighestRequest a pin → IsFirst (irr_round a) a.lowprio pin
  request→first pin h = record {
    in_range = h.in_range;
    returns =
        irr_round_lem a pin served ∙ rw (h.not_held pin h.in_range (omega arith), h.is_pending);
    before =
        λ q hq lt. irr_round_lem a q served ∙ rw (h.not_held q hq (omega arith), h.before q hq lt);
  }

  -- The search for a request finds exactly the pin whose request is to be delivered.
  pub get_highest_irrpin_iff :
      (pin : ℕ) → (get_highest_irrpin a ≡ some pin) ↔ IsHighestRequest a pin
  unfolding get_highest_irrpin
  get_highest_irrpin_iff pin =
      let iff = pin_foreach_iff (irr_round a) a.lowprio low pin in
      (λ e. first→request pin (iff.0 e), λ h. iff.1 (request→first pin h))

-- The search for the pin in service finds exactly the one that a non-specific end of interrupt
-- is for.
pub get_highest_isrpin_iff :
    (a : Atpic)
    → a.lowprio < 8
    → (pin : ℕ) → (get_highest_isrpin a ≡ some pin) ↔ IsHighestService a pin
unfolding get_highest_isrpin
get_highest_isrpin_iff a low pin =
    let iff = pin_foreach_iff (isr_round a) a.lowprio low pin in
    (
      λ e.
          let first = iff.0 e in
          record {
            in_range = first.in_range;
            is_served = isr-found _ (sym (isr_round_lem a pin) ∙ first.returns);
            before = λ q hq lt. isr-next _ (sym (isr_round_lem a q) ∙ first.before q hq lt);
          },
      λ h. iff.1 (record {
        in_range = h.in_range;
        returns = isr_round_lem a pin ∙ rw h.is_served;
        before = λ q hq lt. isr_round_lem a q ∙ rw (h.before q hq lt);
      }),
    )
