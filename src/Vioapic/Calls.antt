-- ===== src/Vioapic/Calls.antt =====
-- The calls that the machine makes of src/lib/vmm/io/vioapic.c, in any number and order.
use hyperkit.Base.{ℕ, ◌∷◌, Bool, false, List, []}
use hyperkit.Vatpic.Ports.{IrqState}
use hyperkit.Vioapic.State.{Vioapic, set_irqstate, init}
use hyperkit.Vioapic.Registers.{mmio_rw}
use hyperkit.Vioapic.Eoi.{process_eoi}
use hyperkit.Vioapic.Served.{
  IsServedBut, set_irqstate-IsServedBut, process_eoi-IsServedBut, init-IsServedBut,
}
use hyperkit.Vioapic.Writes.{mmio_rw-IsServedBut}

-- What a device, or a processor that ends an interrupt, does.
pub data Line : Type 0 where
  irqstate : ℕ → IrqState → Line
  eoi : ℕ → Line

unfoldable pub on_line : Vioapic → Line → Vioapic
on_line v (irqstate irq s) = (set_irqstate v irq s).1
on_line v (eoi vector) = process_eoi v vector

unfoldable pub on_lines : List Line → Vioapic → Vioapic
on_lines [] v = v
on_lines (l ∷ ls) v = on_lines ls (on_line v l)

-- An access of the memory window stands with what others do in it while the lock is released.
pub data Call : Type 0 where
  line : Line → Call
  access : List Line → ℕ → ℕ → ℕ → Bool → Call

unfoldable pub call : Vioapic → Call → Vioapic
unfolding on_line
call v (line l) = on_line v l
call v (access others gpa value size doread) = (mmio_rw (on_lines others) v gpa value size doread).1

unfoldable pub run : Vioapic → List Call → Vioapic
unfolding call
run v [] = v
run v (c ∷ cs) = run (call v c) cs

on_line-IsServedBut :
    (free : ℕ → Bool) (v : Vioapic) (l : Line) → IsServedBut free v → IsServedBut free (on_line v l)
unfolding on_line
on_line-IsServedBut free v (irqstate irq state) s = set_irqstate-IsServedBut free irq state s
on_line-IsServedBut free v (eoi vector) s = process_eoi-IsServedBut free vector s

pub on_lines-IsServedBut :
    (ls : List Line) (free : ℕ → Bool) (v : Vioapic)
    → IsServedBut free v
    → IsServedBut free (on_lines ls v)
unfolding on_lines
on_lines-IsServedBut [] free v s = s
on_lines-IsServedBut (l ∷ ls) free v s =
    on_lines-IsServedBut ls free (on_line v l) (on_line-IsServedBut free v l s)

-- Nothing is being worked on between two calls.
abbrev pub settled : ℕ → Bool
settled pin = false

run-IsServedBut :
    (cs : List Call) {v : Vioapic} → IsServedBut settled v → IsServedBut settled (run v cs)
unfolding run
run-IsServedBut [] s = s
run-IsServedBut (line l ∷ cs) {v} s = run-IsServedBut cs (on_line-IsServedBut settled v l s)
run-IsServedBut (access others gpa value size doread ∷ cs) s = run-IsServedBut cs (
    mmio_rw-IsServedBut (on_lines others) (on_lines-IsServedBut others) settled gpa value size
      doread s)

-- After any sequence of changes of the lines, ends of interrupts and accesses of the memory window
-- from the initial state, with any changes of the lines and ends of interrupts by other threads
-- while an access has released the lock, every pin whose count is positive, which is level
-- triggered and not masked, has its remote IRR bit set.
pub run-init-IsServedBut : (cs : List Call) → IsServedBut settled (run init cs)
run-init-IsServedBut cs = run-IsServedBut cs init-IsServedBut
