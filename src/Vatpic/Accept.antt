-- ===== src/Vatpic/Accept.antt =====
-- The acceptance and the end of an interrupt in src/lib/vmm/io/vatpic.c: what vatpic_pin_accepted
-- does to the priorities, and how it meets vatpic_pending_intr and OCW2.
use hyperkit.Base.{
  ℕ, ◌+◌, ◌%◌, ◌/◌, ◌*◌, ◌^◌, ◌<◌, ◌≡◌, ◌≢◌, refl, sym, ap, ◌∙◌, subst, Bool, true, false, ◌&&◌,
  ◌||◌, ◌==◌, ==-refl, ==_of_ne, some, arith, false≢true, dec_lt, bit_or,
}
use hyperkit.Base.Bits.Laws.{bit, bit-bit_or, bit-pow}
use hyperkit.Base.Bits.Words.{has, clear, clear-bit_or}
use hyperkit.Vatpic.PinLoop.{rank}
use hyperkit.Vatpic.State.{
  Atpic, Vatpic, master, slave, put, isr_round, get_highest_isrpin, get_highest_irrpin,
}
use hyperkit.Vatpic.Commands.{pin_accepted, end_of_interrupt, eoi_target, eoi, ocw2}
use hyperkit.Vatpic.Ports.{accept_vector, pending_intr}
use hyperkit.Vatpic.Priority.{
  IsHighestRequest, IsHighestService, get_highest_irrpin_iff, get_highest_isrpin_iff, holds_back,
  ends,
}
use hyperkit.Vatpic.Valid.{IsChip, pin_accepted-IsChip, get_highest_irrpin-lt}
use hyperkit.Vatpic.Pair.{IsPair}

service-pin_accepted :
    (a : Atpic) (pin : ℕ)
    → a.aeoi ≡ false
    → (pin_accepted a pin).service ≡ bit_or a.service (2 ^ pin)
unfolding pin_accepted
service-pin_accepted a pin h = rw h

-- Without automatic end of interrupt an accepted pin is in service, and no other pin changes.
bit-pin_accepted :
    (a : Atpic) (pin k : ℕ)
    → a.aeoi ≡ false
    → bit (pin_accepted a pin).service k ≡ (bit a.service k || (pin == k))
unfolding pin_accepted
bit-pin_accepted a pin k h =
    rw h (bit-bit_or a.service (2 ^ pin) k ∙ ap (λ b. bit a.service k || b) (bit-pow pin k))

keeps :
    (a : Atpic) (pin : ℕ)
    → a.aeoi ≡ false
    → ((pin_accepted a pin).lowprio ≡ a.lowprio)
      × ((pin_accepted a pin).smm ≡ a.smm)
      × ((pin_accepted a pin).sfn ≡ a.sfn)
      × ((pin_accepted a pin).mask ≡ a.mask)
unfolding pin_accepted
keeps a pin h = ground arith

-- While an accepted interrupt is in service, only a request before it in the priority order is
-- delivered (not in special mask mode, where the guest asks otherwise, and not for the cascade pin
-- in special fully nested mode).
pub pin_accepted-blocks :
    {a : Atpic} (pin q : ℕ)
    → IsChip a
    → pin < 8
    → a.aeoi ≡ false
    → a.smm ≡ false
    → a.sfn && (2 == pin) ≡ false
    → get_highest_irrpin (pin_accepted a pin) ≡ some q
    → rank a.lowprio q < rank a.lowprio pin
pin_accepted-blocks {a} pin q v hp auto special nested found =
    elim (dec_lt (rank a.lowprio q) (rank a.lowprio pin)) [
      | yes lt ↦ lt
      | no ge ↦ absurd (false≢true (sym (h.not_held pin hp (rw k.0 (omega arith))) ∙ held))
    ]
  where
    k :
        ((pin_accepted a pin).lowprio ≡ a.lowprio)
        × ((pin_accepted a pin).smm ≡ a.smm)
        × ((pin_accepted a pin).sfn ≡ a.sfn)
        × ((pin_accepted a pin).mask ≡ a.mask)
    k = keeps a pin auto

    v' : IsChip (pin_accepted a pin)
    v' = pin_accepted-IsChip pin hp v

    h : IsHighestRequest (pin_accepted a pin) q
    h = (get_highest_irrpin_iff (pin_accepted a pin) v'.service_in v'.lowprio_in q).0 found

    held : holds_back (pin_accepted a pin) pin ≡ true
    held = ground (arith, k, bit-pin_accepted a pin pin auto, ==-refl pin)

-- The chip that delivers a request has it first in the priority order of the pins in service too.
accepted-first :
    {a : Atpic} (pin : ℕ)
    → IsChip a
    → a.aeoi ≡ false
    → a.smm ≡ false
    → a.sfn ≡ false
    → get_highest_irrpin a ≡ some pin
    → IsHighestService (pin_accepted a pin) pin
accepted-first {a} pin v auto special nested found = record {
  in_range = h.in_range;
  is_served = ground (arith, k, bit-pin_accepted a pin pin auto, ==-refl pin);
  before = λ q hq lt. not_served q hq (subst (λ t. rank t q < rank t pin) k.0 lt);
}
  where
    k :
        ((pin_accepted a pin).lowprio ≡ a.lowprio)
        × ((pin_accepted a pin).smm ≡ a.smm)
        × ((pin_accepted a pin).sfn ≡ a.sfn)
        × ((pin_accepted a pin).mask ≡ a.mask)
    k = keeps a pin auto

    h : IsHighestRequest a pin
    h = (get_highest_irrpin_iff a v.service_in v.lowprio_in pin).0 found

    not_served :
        (q : ℕ)
        → q < 8
        → rank a.lowprio q < rank a.lowprio pin
        → ends (pin_accepted a pin) q ≡ false
    not_served q hq lt = ground (
      arith,
      k,
      h.not_held q hq (omega arith),
      bit-pin_accepted a pin q auto,
      ==_of_ne pin q (λ e. omega (arith, ap (rank a.lowprio) e)),
    )

isrpin-rotate :
    (a : Atpic) (r : Bool) → get_highest_isrpin (record a { rotate = r }) ≡ get_highest_isrpin a
unfolding get_highest_isrpin isr_round
isrpin-rotate a r = refl

-- The command 0x20 ends the interrupt that the search names.
ocw2_nonspecific :
    (a : Atpic) (pin : ℕ)
    → get_highest_isrpin a ≡ some pin
    → (ocw2 a 0x20).1.service ≡ clear 8 a.service (2 ^ pin)
unfolding ocw2 eoi eoi_target end_of_interrupt has
ocw2_nonspecific a pin h = rw (isrpin-rotate a false ∙ h)

-- On a chip in order, without automatic end of interrupt, special mask mode and special fully nested mode, a non-specific
-- end of interrupt undoes the acceptance of the delivered request: it is meant for that pin, and
-- leaves in service exactly what was in service before.
pub eoi-pin_accepted :
    {a : Atpic} (pin : ℕ)
    → IsChip a
    → a.aeoi ≡ false
    → a.smm ≡ false
    → a.sfn ≡ false
    → get_highest_irrpin a ≡ some pin
    → (get_highest_isrpin (pin_accepted a pin) ≡ some pin)
      × ((ocw2 (pin_accepted a pin) 0x20).1.service ≡ a.service)
eoi-pin_accepted {a} pin v auto special nested found =
    (target, ocw2_nonspecific (pin_accepted a pin) pin target ∙ restored)
  where
    h : IsHighestRequest a pin
    h = (get_highest_irrpin_iff a v.service_in v.lowprio_in pin).0 found

    v' : IsChip (pin_accepted a pin)
    v' = pin_accepted-IsChip pin h.in_range v

    off : bit a.service pin ≡ false
    off = ground (arith, special, nested, h.not_held pin h.in_range (omega arith))

    restored : clear 8 (pin_accepted a pin).service (2 ^ pin) ≡ a.service
    restored =
        ap (λ x. clear 8 x (2 ^ pin)) (service-pin_accepted a pin auto)
        ∙ clear-bit_or a.service pin v.service_in h.in_range off

    target : get_highest_isrpin (pin_accepted a pin) ≡ some pin
    target =
        (get_highest_isrpin_iff (pin_accepted a pin) v'.lowprio_in pin).1
          (accepted-first pin v auto special nested found)

div-base : (a : Atpic) (pin : ℕ) → IsChip a → pin < 8 → (a.irq_base + pin) / 8 * 8 ≡ a.irq_base
div-base a pin v h = omega arith

mod-base : (a : Atpic) (pin : ℕ) → IsChip a → pin < 8 → (a.irq_base + pin) % 8 ≡ pin
mod-base a pin v h = omega arith

pending_intr-master :
    (v : Vatpic) (pin : ℕ)
    → get_highest_irrpin v.atpic0 ≡ some pin
    → pin ≢ 2
    → pending_intr v ≡ v.atpic0.irq_base + pin
unfolding pending_intr
pending_intr-master v pin found other = ground arith

pending_intr-slave :
    (v : Vatpic) (pin : ℕ)
    → get_highest_irrpin v.atpic0 ≡ some 2
    → get_highest_irrpin v.atpic1 ≡ some pin
    → pending_intr v ≡ v.atpic1.irq_base + pin
unfolding pending_intr
pending_intr-slave v pin cascade found = ground arith

accept-master :
    (v : Vatpic) (pin : ℕ)
    → IsChip v.atpic0
    → pin < 8
    → v.atpic0.irq_base ≢ v.atpic1.irq_base
    → accept_vector v (v.atpic0.irq_base + pin) ≡ put master (pin_accepted v.atpic0 pin) v
unfolding accept_vector
accept-master v pin c hp apart = rw (
  div-base v.atpic0 pin c hp,
  ==_of_ne v.atpic0.irq_base v.atpic1.irq_base apart,
  mod-base v.atpic0 pin c hp,
)

accept-slave :
    (v : Vatpic) (pin : ℕ)
    → IsChip v.atpic1
    → pin < 8
    → accept_vector v (v.atpic1.irq_base + pin)
      ≡ put master (pin_accepted v.atpic0 2) (put slave (pin_accepted v.atpic1 pin) v)
unfolding accept_vector
accept-slave v pin c hp =
    rw (div-base v.atpic1 pin c hp, ==-refl v.atpic1.irq_base, mod-base v.atpic1 pin c hp)

-- The vector that the pair reports for a request of the master, other than the cascade, is
-- accepted by the master alone, if the two vector bases differ.
pub accept_vector-pending_intr :
    {v : Vatpic} (pin : ℕ)
    → IsPair v
    → v.atpic0.irq_base ≢ v.atpic1.irq_base
    → get_highest_irrpin v.atpic0 ≡ some pin
    → pin ≢ 2
    → accept_vector v (pending_intr v) ≡ put master (pin_accepted v.atpic0 pin) v
accept_vector-pending_intr {v} pin p apart found other =
    ap (accept_vector v) (pending_intr-master v pin found other)
    ∙ accept-master v pin p.chip0 (get_highest_irrpin-lt v.atpic0 pin p.chip0.lowprio_in found)
        apart

-- The vector that the pair reports for a request of the slave is accepted by the slave, and the
-- cascade pin by the master.
pub accept_vector-pending_intr_slave :
    {v : Vatpic} (pin : ℕ)
    → IsPair v
    → get_highest_irrpin v.atpic0 ≡ some 2
    → get_highest_irrpin v.atpic1 ≡ some pin
    → accept_vector v (pending_intr v)
      ≡ put master (pin_accepted v.atpic0 2) (put slave (pin_accepted v.atpic1 pin) v)
accept_vector-pending_intr_slave {v} pin p cascade found =
    ap (accept_vector v) (pending_intr-slave v pin cascade found)
    ∙ accept-slave v pin p.chip1 (get_highest_irrpin-lt v.atpic1 pin p.chip1.lowprio_in found)
