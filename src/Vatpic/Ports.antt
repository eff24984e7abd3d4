-- ===== src/Vatpic/Ports.antt =====
-- The entry points of src/lib/vmm/io/vatpic.c: interrupt lines, the CPU's acceptance, and the I/O
-- ports. A call that returns through a pointer returns that value beside the new state.
use hyperkit.Base.{
  ℕ, ◌+◌, ◌%◌, ◌*◌, ◌/◌, ◌^◌, Bool, true, false, not, ◌||◌, Option, none, some, ltb, ◌==◌,
  if◌then◌else◌, bit_and, bit_or,
}
use hyperkit.Base.Bits.Words.{has, clear}
use hyperkit.Vatpic.State.{
  Atpic, Vatpic, Chip, master, slave, get, put, elc, chip_of, Status, ok, failed, einval,
  get_highest_irrpin,
}
use hyperkit.Vatpic.Notify.{set_pinstate, notify_intr}
use hyperkit.Vatpic.Commands.{icw1, icw2, icw3, icw4, ocw1, ocw2, ocw3, pin_accepted}

-- `enum irqstate`
pub data IrqState : Type 0 where
  assert deassert pulse : IrqState

-- The switch of vatpic_set_irqstate.
unfoldable pub apply_irqstate : Vatpic → ℕ → IrqState → Vatpic
apply_irqstate v irq assert = set_pinstate v irq true
apply_irqstate v irq deassert = set_pinstate v irq false
apply_irqstate v irq pulse = set_pinstate (set_pinstate v irq true) irq false

-- An `irq` below zero is refused as one above 15 is.
unfoldable pub set_irqstate : Vatpic → ℕ → IrqState → Status × Vatpic
unfolding apply_irqstate
set_irqstate v irq state =
    if ltb 15 irq
    then (einval, v)
    else if not (get (chip_of irq) v).ready
    then (ok, v)
    else (ok, apply_irqstate v irq state)

-- vatpic_assert_irq, vatpic_deassert_irq and vatpic_pulse_irq
unfoldable pub assert_irq : Vatpic → ℕ → Status × Vatpic
assert_irq v irq = set_irqstate v irq assert

unfoldable pub deassert_irq : Vatpic → ℕ → Status × Vatpic
deassert_irq v irq = set_irqstate v irq deassert

unfoldable pub pulse_irq : Vatpic → ℕ → Status × Vatpic
pulse_irq v irq = set_irqstate v irq pulse

-- `enum vm_intr_trigger`
pub data Trigger : Type 0 where
  edge level : Trigger

-- The lines that must be edge triggered.
abbrev pub edge_only : ℕ → Bool
edge_only irq = irq == 0 || (irq == 1 || (irq == 2 || (irq == 8 || irq == 13)))

abbrev pub put_elc : Chip → ℕ → Vatpic → Vatpic
put_elc master x v = record v { elc0 = x }
put_elc slave x v = record v { elc1 = x }

unfoldable pub set_irq_trigger : Vatpic → ℕ → Trigger → Status × Vatpic
set_irq_trigger v irq level =
    let c = chip_of irq in
    if ltb 15 irq || edge_only irq
    then (einval, v)
    else (ok, put_elc c (bit_or (elc c v) (2 ^ (irq % 8))) v)
set_irq_trigger v irq edge =
    let c = chip_of irq in
    if ltb 15 irq then (einval, v) else (ok, put_elc c (clear 8 (elc c v) (2 ^ (irq % 8))) v)

-- A pin, or the spurious pin 7 for -1
abbrev pub or_spurious : Option ℕ → ℕ
or_spurious none = 7
or_spurious (some pin) = pin

unfoldable pub pending_intr : Vatpic → ℕ
pending_intr v = elim (get_highest_irrpin v.atpic0) [
  | none ↦ v.atpic0.irq_base + 7
  | some pin ↦
      if pin == 2
      then v.atpic1.irq_base + or_spurious (get_highest_irrpin v.atpic1)
      else v.atpic0.irq_base + pin
]

-- vatpic_intr_accepted up to its vatpic_notify_intr; `vector & ~0x7` is `vector / 8 * 8`.
unfoldable pub accept_vector : Vatpic → ℕ → Vatpic
accept_vector v vector =
    let pin = vector % 8 in
    if vector / 8 * 8 == v.atpic1.irq_base
    then put master (pin_accepted v.atpic0 2) (put slave (pin_accepted v.atpic1 pin) v)
    else put master (pin_accepted v.atpic0 pin) v

unfoldable pub intr_accepted : Vatpic → ℕ → Vatpic
unfolding accept_vector
intr_accepted v vector = notify_intr (accept_vector v vector)

-- The poll branch of vatpic_read: what the search found, on the chip with its poll flag cleared.
unfoldable pub polled : Atpic → Option ℕ → ℕ × Atpic
polled a none = (0, a)
polled a (some pin) = (bit_or 0x80 pin, pin_accepted a pin)

-- vatpic_read: `*eax` and the chip.
unfoldable pub read : Atpic → ℕ → ℕ × Atpic
read a port =
    if a.poll
    then (let a1 = record a { poll = false } in polled a1 (get_highest_irrpin a1))
    else if has port 1
    then (a.mask, a)
    else if a.rd_cmd_reg == 0x01
    then (a.service, a)
    else (a.request, a)

-- The dispatch of vatpic_write on the chip.
unfoldable pub write_odd : Bool → Atpic → ℕ → Status × Atpic
write_odd is_master a val =
    if a.icw_num == 2
    then icw2 a val
    else if a.icw_num == 3
    then icw3 a val
    else if a.icw_num == 4
    then icw4 is_master a val
    else ocw1 a val

abbrev pub after_icw1 : Status × Atpic → ℕ → Status × Atpic
after_icw1 (error, a) val =
    if a.ready then (if has val 0x08 then ocw3 a val else ocw2 a val) else (error, a)

unfoldable pub write_even : Atpic → ℕ → Status × Atpic
write_even a val = after_icw1 (if has val 0x10 then icw1 a val else (ok, a)) val

unfoldable pub write_chip : Bool → Atpic → ℕ → ℕ → Status × Atpic
unfolding write_odd write_even
write_chip is_master a port val = if has port 1 then write_odd is_master a val else write_even a val

abbrev pub is_master : Chip → Bool
is_master master = true
is_master slave = false

unfoldable pub write : Chip → Vatpic → ℕ → ℕ → Status × Vatpic
unfolding write_chip
write c v port eax =
    let (error, a) = write_chip (is_master c) (get c v) port (eax % 256) in
    let v' = put c a v in (error, if a.ready then notify_intr v' else v')

-- vatpic_master_handler and vatpic_slave_handler: the result, `*eax` after the call, the state.
unfoldable pub handler : Chip → Vatpic → Bool → ℕ → ℕ → ℕ → Status × ℕ × Vatpic
unfolding read write
handler c v inward port bytes eax =
    if not (bytes == 1)
    then (failed, eax, v)
    else if inward
    then (let (value, a) = read (get c v) port in (ok, value, put c a v))
    else (let (error, v') = write c v port eax in (error, eax, v'))

-- vatpic_elc_handler; the flag is `port == IO_ELCR1`.
unfoldable pub elc_handler : Vatpic → Bool → Bool → ℕ → ℕ → Status × ℕ × Vatpic
elc_handler v inward is_first bytes eax =
    if not (bytes == 1)
    then (failed, eax, v)
    else if inward
    then (ok, if is_first then v.elc0 else v.elc1, v)
    else if is_first
    then (ok, eax, record v { elc0 = bit_and eax 0xf8 })
    else (ok, eax, record v { elc1 = bit_and eax 0xde })
