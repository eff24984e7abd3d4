-- ===== src/Vatpic/Pair.antt =====
-- The invariant of the pair of chips of src/lib/vmm/io/vatpic.c, over every entry point.
use hyperkit.Base.{
  ℕ, ◌/◌, ◌*◌, ◌%◌, ◌^◌, ◌<◌, ◌≡◌, sym, ap, ◌∙◌, subst, Bool, true, false, not, ◌||◌, ◌==◌, arith,
  if_cases, length-set, get_or, ltb,
}
use hyperkit.Base.Signed.{ℤ, pos}
use hyperkit.Base.Bits.Laws.{pow_lt, bit-zero}
use hyperkit.Base.Bits.Words.{has, bit_or-lt, clear-lt}
use hyperkit.Vatpic.State.{Atpic, Vatpic, Chip, master, slave, get, put, elc, chip_of, Status, init}
use hyperkit.Vatpic.Notify.{
  request_after, count_after, move_pin, set_pin, eligible, notify_master, notify_intr, set_pinstate,
}
use hyperkit.Vatpic.Ports.{
  IrqState, assert, deassert, pulse, apply_irqstate, set_irqstate, Trigger, edge, level, edge_only,
  put_elc, set_irq_trigger, accept_vector, intr_accepted, write_chip, write, is_master, handler,
  elc_handler,
}
use hyperkit.Vatpic.Trigger.{
  IsElc, mark-IsElc, unmark-IsElc, line-mod, mask_off, slave_mask_off, mask-IsElc,
}
use hyperkit.Vatpic.Settled.{after_slave, notify_intr-master}
use hyperkit.Vatpic.Valid.{
  IsChip, zeroed-IsChip, pin_accepted-IsChip, write_chip-IsChip, read-IsChip,
}

-- Both chips are valid, and no line that must be edge triggered is marked level.
pub record IsPair (v : Vatpic) : Type 0 where
  pub chip0 : IsChip v.atpic0
  pub chip1 : IsChip v.atpic1
  pub elc0_ok : IsElc master v.elc0
  pub elc1_ok : IsElc slave v.elc1

get-IsChip : (c : Chip) {v : Vatpic} → IsPair v → IsChip (get c v)
get-IsChip master p = p.chip0
get-IsChip slave p = p.chip1

put-IsPair : (c : Chip) {v : Vatpic} (a : Atpic) → IsPair v → IsChip a → IsPair (put c a v)
put-IsPair master a p h = record {
  chip0 = h;
  chip1 = p.chip1;
  elc0_ok = p.elc0_ok;
  elc1_ok = p.elc1_ok;
}
put-IsPair slave a p h = record {
  chip0 = p.chip0;
  chip1 = h;
  elc0_ok = p.elc0_ok;
  elc1_ok = p.elc1_ok;
}

put_elc-IsPair : (c : Chip) {v : Vatpic} (x : ℕ) → IsPair v → IsElc c x → IsPair (put_elc c x v)
put_elc-IsPair master x p h = record {
  chip0 = p.chip0;
  chip1 = p.chip1;
  elc0_ok = h;
  elc1_ok = p.elc1_ok;
}
put_elc-IsPair slave x p h = record {
  chip0 = p.chip0;
  chip1 = p.chip1;
  elc0_ok = p.elc0_ok;
  elc1_ok = h;
}

elc-IsElc : (c : Chip) {v : Vatpic} → IsPair v → IsElc c (elc c v)
elc-IsElc master p = p.elc0_ok
elc-IsElc slave p = p.elc1_ok

request_after-lt :
    (r i : ℕ) (lvl : Bool) (old new : ℤ) → r < 2 ^ 8 → i < 8 → request_after r i lvl old new < 2 ^ 8
unfolding request_after
request_after-lt r i lvl old new h hi =
    ground (arith, clear-lt 8 r (2 ^ i) h, bit_or-lt 8 r (2 ^ i) h (pow_lt i 8 hi))

move_pin-IsChip :
    {a : Atpic} (i : ℕ) (lvl newstate : Bool)
    → i < 8
    → IsChip a
    → IsChip (move_pin a i lvl newstate)
unfolding move_pin
move_pin-IsChip {a} i lvl newstate hi v =
    let old = get_or a.acnt i (pos 0) in
    let new = count_after newstate old in
    let r = request_after-lt a.request i lvl old new v.request_in hi in
    let l = length-set a.acnt i new in
    record {
      request_in = r;
      service_in = v.service_in;
      mask_in = v.mask_in;
      lowprio_in = v.lowprio_in;
      base_in = v.base_in;
      base_aligned = v.base_aligned;
      counts = l ∙ v.counts;
      icw_in = v.icw_in;
      ready_idle = v.ready_idle;
    }

pub set_pin-IsPair : {v : Vatpic} (pin : ℕ) (b : Bool) → IsPair v → IsPair (set_pin v pin b)
unfolding set_pin
set_pin-IsPair {v} pin b p =
    let c = chip_of pin in
    put-IsPair c _ p
      (move_pin-IsChip (pin % 8) (has (elc c v) (2 ^ (pin % 8))) b (omega arith) (get-IsChip c p))

raise-IsChip : {a : Atpic} → IsChip a → IsChip (record a { intr_raised = true })
raise-IsChip v = ground arith

notify_master-IsPair : {v : Vatpic} → IsPair v → IsPair (notify_master v)
unfolding notify_master
notify_master-IsPair {v} p =
    if_cases IsPair (eligible v.atpic0)
      (λ e. record {
        chip0 = raise-IsChip p.chip0;
        chip1 = p.chip1;
        elc0_ok = p.elc0_ok;
        elc1_ok = p.elc1_ok;
      })
      (λ e. p)

after_slave-IsPair : {v : Vatpic} → IsPair v → IsPair (after_slave v)
after_slave-IsPair {v} p =
    if_cases IsPair (eligible v.atpic1)
      (λ e. notify_master-IsPair (
        set_pin-IsPair 2 false (
          notify_master-IsPair
            (set_pin-IsPair 2 true (put-IsPair slave _ p (raise-IsChip p.chip1))))))
      (λ e. p)

pub notify_intr-IsPair : {v : Vatpic} → IsPair v → IsPair (notify_intr v)
notify_intr-IsPair {v} p =
    subst IsPair (sym (notify_intr-master v)) (notify_master-IsPair (after_slave-IsPair p))

pub set_pinstate-IsPair :
    {v : Vatpic} (pin : ℕ) (b : Bool) → IsPair v → IsPair (set_pinstate v pin b)
unfolding set_pinstate
set_pinstate-IsPair {v} pin b p = notify_intr-IsPair (set_pin-IsPair pin b p)

apply_irqstate-IsPair :
    {v : Vatpic} (irq : ℕ) (s : IrqState) → IsPair v → IsPair (apply_irqstate v irq s)
unfolding apply_irqstate
apply_irqstate-IsPair irq assert p = set_pinstate-IsPair irq true p
apply_irqstate-IsPair irq deassert p = set_pinstate-IsPair irq false p
apply_irqstate-IsPair irq pulse p = set_pinstate-IsPair irq false (set_pinstate-IsPair irq true p)

pub set_irqstate-IsPair :
    {v : Vatpic} (irq : ℕ) (s : IrqState) → IsPair v → IsPair (set_irqstate v irq s).1
unfolding set_irqstate
set_irqstate-IsPair {v} irq s p =
    if_cases (λ (r : Status × Vatpic). IsPair r.1) (ltb 15 irq) (λ e. p)
      (λ e.
        if_cases (λ (r : Status × Vatpic). IsPair r.1) (not (get (chip_of irq) v).ready) (λ f. p)
          (λ f. apply_irqstate-IsPair irq s p))

pub set_irq_trigger-IsPair :
    {v : Vatpic} (irq : ℕ) (t : Trigger) → IsPair v → IsPair (set_irq_trigger v irq t).1
unfolding set_irq_trigger
set_irq_trigger-IsPair {v} irq level p =
    if_cases (λ (r : Status × Vatpic). IsPair r.1) (ltb 15 irq || edge_only irq) (λ e. p)
      (λ e. put_elc-IsPair (chip_of irq) _ p (
        mark-IsElc (chip_of irq) _ (irq % 8) (elc-IsElc (chip_of irq) p) (omega arith)
          (ap edge_only (line-mod irq (ground arith)) ∙ or-right _ _ e)))
  where
    or-right : (a b : Bool) → a || b ≡ false → b ≡ false
    or-right a b e = ground arith
set_irq_trigger-IsPair {v} irq edge p =
    if_cases (λ (r : Status × Vatpic). IsPair r.1) (ltb 15 irq) (λ e. p)
      (λ e.
        put_elc-IsPair (chip_of irq) _ p
          (unmark-IsElc (chip_of irq) _ (2 ^ (irq % 8)) (elc-IsElc (chip_of irq) p)))

accept_vector-IsPair : {v : Vatpic} (vector : ℕ) → IsPair v → IsPair (accept_vector v vector)
unfolding accept_vector
accept_vector-IsPair {v} vector p =
    if_cases IsPair (vector / 8 * 8 == v.atpic1.irq_base)
      (λ e.
        put-IsPair master _
          (put-IsPair slave _ p (pin_accepted-IsChip (vector % 8) (omega arith) p.chip1))
          (pin_accepted-IsChip 2 (omega arith) p.chip0))
      (λ e. put-IsPair master _ p (pin_accepted-IsChip (vector % 8) (omega arith) p.chip0))

pub intr_accepted-IsPair : {v : Vatpic} (vector : ℕ) → IsPair v → IsPair (intr_accepted v vector)
unfolding intr_accepted
intr_accepted-IsPair vector p = notify_intr-IsPair (accept_vector-IsPair vector p)

write-IsPair : {v : Vatpic} (c : Chip) (port eax : ℕ) → IsPair v → IsPair (write c v port eax).1
unfolding write
write-IsPair {v} c port eax p =
    let a = (write_chip (is_master c) (get c v) port (eax % 256)).1 in
    let q = put-IsPair c a p (write_chip-IsChip (is_master c) port (eax % 256) (get-IsChip c p)) in
    if_cases IsPair a.ready (λ e. notify_intr-IsPair q) (λ e. q)

pub handler-IsPair :
    {v : Vatpic} (c : Chip) (inward : Bool) (port bytes eax : ℕ)
    → IsPair v
    → IsPair (handler c v inward port bytes eax).2
unfolding handler
handler-IsPair {v} c inward port bytes eax p =
    if_cases (λ (r : Status × ℕ × Vatpic). IsPair r.2) (not (bytes == 1)) (λ e. p)
      (λ e.
        if_cases (λ (r : Status × ℕ × Vatpic). IsPair r.2) inward
          (λ f. put-IsPair c _ p (read-IsChip port (get-IsChip c p)))
          (λ f. write-IsPair c port eax p))

pub elc_handler-IsPair :
    {v : Vatpic} (inward is_first : Bool) (bytes eax : ℕ)
    → IsPair v
    → IsPair (elc_handler v inward is_first bytes eax).2
unfolding elc_handler
elc_handler-IsPair {v} inward is_first bytes eax p =
    if_cases (λ (r : Status × ℕ × Vatpic). IsPair r.2) (not (bytes == 1)) (λ e. p)
      (λ e.
        if_cases (λ (r : Status × ℕ × Vatpic). IsPair r.2) inward (λ f. p)
          (λ f.
            if_cases (λ (r : Status × ℕ × Vatpic). IsPair r.2) is_first
              (λ g.
                put_elc-IsPair master _ p
                  (mask-IsElc master eax 0xf8 (omega arith) (λ k hk. mask_off k)))
              (λ g.
                put_elc-IsPair slave _ p (mask-IsElc slave eax 0xde (omega arith) slave_mask_off))))

pub init-IsPair : IsPair init
unfolding init
init-IsPair = record {
  chip0 = zeroed-IsChip;
  chip1 = zeroed-IsChip;
  elc0_ok = record { byte = omega arith; edges = λ k hk must. bit-zero k };
  elc1_ok = record { byte = omega arith; edges = λ k hk must. bit-zero k };
}
