-- ===== src/Vioapic/Tests.antt =====
-- Runs of the I/O APIC, and the theorems about src/lib/vmm/io/vioapic.c at inputs.
use hyperkit.Base.{◌≡◌, refl, true, false, List, [], ◌∷◌, replicate, set, arith}
use hyperkit.Base.Signed.{pos, incr}
use hyperkit.Base.Bits.Laws.{bit}
use hyperkit.Base.Bits.Words.{has, clear}
use hyperkit.Vatpic.Ports.{assert}
use hyperkit.Vioapic.State.{
  Entry, deliver, rendezvous, Vioapic, init, entry, blank, redir_entries, message, send_intr,
  latched, set_pinstate, apply_irqstate, set_irqstate,
}
use hyperkit.Vioapic.Registers.{merged, read, write, write_redir, due, mmio_rw}
use hyperkit.Vioapic.Eoi.{process_eoi, eoi_pin}
use hyperkit.Vioapic.Served.{IsServedBut}
use hyperkit.Vioapic.Calls.{
  irqstate, eoi, Call, line, access, run, on_lines, settled, run-init-IsServedBut,
}
use hyperkit.Vioapic.Table.{Tame, read-write}
use hyperkit.Vioapic.EoiTable.{after_eoi, notices, entry-process_eoi}

-- Pin 5 is level triggered with vector 0x30; its line is up and its interrupt was sent.
abbrev in_flight : Entry
in_flight = record { reg = 0xc030; acnt = pos 1 }

abbrev working : Vioapic
working = record {
  id = 0;
  ioregsel = 0x1a;
  rtbl = set (replicate 24 blank) 5 in_flight;
  signals = [];
}

-- The guest programs pin 5, a device asserts its line, and the processor ends the interrupt while
-- the line is still up: it is sent again.
abbrev session : List Call
session =
    access [] 0xfec00000 0x1a 4 false
    ∷ access (irqstate 7 assert ∷ []) 0xfec00010 0x8030 4 false
    ∷ line (irqstate 5 assert)
    ∷ line (eoi 0x30)
    ∷ []

session_signals :
    (run init session).signals
    ≡ deliver true 0 true 0 0x30 ∷ deliver true 0 true 0 0x30 ∷ rendezvous ∷ []
unfolding run init set_irqstate apply_irqstate set_pinstate send_intr latched message on_lines
    mmio_rw write write_redir merged due process_eoi eoi_pin has clear incr
session_signals = refl

run-init-IsServedBut_example : IsServedBut settled (run init session)
run-init-IsServedBut_example = run-init-IsServedBut session

-- Nothing happens while the lock is released.
alone : Tame (λ v. v)
alone = record { keeps_table = λ v h. h; keeps_bits = λ v pin k h p. refl }

read-write_example : bit (read (write (λ v. v) working 0x1a 0x31) 0x1a) 4 ≡ bit 0x31 4
read-write_example =
    read-write (λ v. v) alone working 0x1a 0x31 4 refl refl (omega arith) (omega arith) refl

entry-process_eoi_example :
    (entry (process_eoi working 0x30) 5 ≡ after_eoi 0x30 in_flight)
    × ((process_eoi working 0x30).signals ≡ notices 0x30 working redir_entries 0 [])
entry-process_eoi_example = entry-process_eoi 0x30 working 5 refl (omega arith)
