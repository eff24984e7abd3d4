-- ===== src/Vioapic/State.antt =====
-- The state of src/lib/vmm/io/vioapic.c, the delivery of an interrupt, and the interrupt lines. The
-- constants are those of include/xhyve/support/apicreg.h under src.
use hyperkit.Base.{
  ℕ, ◌/◌, ◌%◌, ◌^◌, Bool, true, false, ◌&&◌, List, [], ◌∷◌, leb, ◌==◌, if◌then◌else◌, get_or, set,
  replicate, bit_and, bit_or,
}
use hyperkit.Base.Signed.{ℤ, pos, is, incr, decr}
use hyperkit.Base.Bits.Words.{has}
use hyperkit.Vatpic.State.{Status, ok, einval}
use hyperkit.Vatpic.Ports.{IrqState, assert, deassert, pulse}

-- An element of `rtbl`: the 64-bit register, and the sum of pin asserts and deasserts.
pub record Entry : Type 0 where
  pub reg : ℕ
  pub acnt : ℤ

-- What the I/O APIC asks of the rest of the machine: vlapic_deliver_intr with its level, dest,
-- phys, delmode and vector, and vm_smp_rendezvous with vioapic_update_tmr.
pub data Signal : Type 0 where
  deliver : Bool → ℕ → Bool → ℕ → ℕ → Signal
  rendezvous : Signal

-- `struct vioapic` without its lock; the signals sent so far stand newest first.
pub record Vioapic : Type 0 where
  pub id : ℕ
  pub ioregsel : ℕ
  pub rtbl : List Entry
  pub signals : List Signal

-- `REDIR_ENTRIES`
abbrev pub redir_entries : ℕ
redir_entries = 24

abbrev pub blank : Entry
blank = record { reg = 0x0001000000010000; acnt = pos 0 }

-- `vioapic->rtbl[pin]` for reading and for writing
abbrev pub entry : Vioapic → ℕ → Entry
entry v pin = get_or v.rtbl pin blank

abbrev pub put_entry : Vioapic → ℕ → Entry → Vioapic
put_entry v pin e = record v { rtbl = set v.rtbl pin e }

unfoldable pub init : Vioapic
init = record { id = 0; ioregsel = 0; rtbl = replicate redir_entries blank; signals = [] }

-- `(uint32_t) reg` and `(uint32_t) (reg >> 32)`
abbrev pub low_half : ℕ → ℕ
low_half reg = reg % 2 ^ 32

abbrev pub high_half : ℕ → ℕ
high_half reg = reg / 2 ^ 32 % 2 ^ 32

-- The arguments of vlapic_deliver_intr in vioapic_send_intr.
unfoldable pub message : ℕ → Signal
message reg =
    let low = low_half reg in
    deliver (has low 0x8000) (high_half reg / 2 ^ 24) (bit_and low 0x800 == 0) (bit_and low 0x700)
      (bit_and low 0xff)

-- The remote IRR is set for a level triggered pin.
unfoldable pub latched : Entry → Entry
latched e = if has (low_half e.reg) 0x8000 then record e { reg = bit_or e.reg 0x4000 } else e

unfoldable pub send_intr : Vioapic → ℕ → Vioapic
send_intr v pin =
    let e = entry v pin in
    if bit_and (low_half e.reg) 0x10000 == 0x10000
    then v
    else record v { rtbl = set v.rtbl pin (latched e); signals = message e.reg ∷ v.signals }

unfoldable pub set_pinstate : Vioapic → ℕ → Bool → Vioapic
set_pinstate v pin newstate =
    let e = entry v pin in
    let newcnt = if newstate then incr e.acnt else decr e.acnt in
    let v1 = put_entry v pin (record e { acnt = newcnt }) in
    if is e.acnt 0 && is newcnt 1 then send_intr v1 pin else v1

-- The switch of vioapic_set_irqstate.
unfoldable pub apply_irqstate : Vioapic → ℕ → IrqState → Vioapic
apply_irqstate v irq assert = set_pinstate v irq true
apply_irqstate v irq deassert = set_pinstate v irq false
apply_irqstate v irq pulse = set_pinstate (set_pinstate v irq true) irq false

-- An `irq` below zero is refused as one from 24 on is.
unfoldable pub set_irqstate : Vioapic → ℕ → IrqState → Status × Vioapic
set_irqstate v irq state =
    if leb redir_entries irq then (einval, v) else (ok, apply_irqstate v irq state)
