-- ===== src/Pci/Tests.antt =====
-- Runs of the PCI lines, and the theorems about src/lib/pci_emul.c and src/lib/pci_irq.c at inputs.
use hyperkit.Base.{
  ℕ, ◌<◌, ◌≤◌, ◌≡◌, ◌↔◌, refl, true, false, arith, List, [], ◌∷◌, get_or, set, some, zero, suc,
}
use hyperkit.Base.Signed.{incr, decr}
use hyperkit.Base.Bits.Words.{has}
use hyperkit.Pci.Router.{
  Router, no_pirq, level_trigger, init, counts_from, irq_permitted, pirq_valid_irq, is_driven, tell,
  least_used, least_count, route, routed, pirq_alloc_pin, pirq_write, write_at, assert_at,
  deassert_at, pci_irq_assert, pci_irq_deassert, isa, same_wire,
}
use hyperkit.Pci.Lines.{
  idle, Device, no_device, Event, up, down, configure, router_write, run, step, lintr_assert,
  asserts, lintr_deassert, deasserts, lintr_update, updates, configured, lintr_permitted,
}
use hyperkit.Pci.Counts.{count, raises, lowers, ups, downs}
use hyperkit.Pci.Wired.{IsWired}
use hyperkit.Pci.Levels.{IsRouted, run-isa_up_iff}
use hyperkit.Pci.Boot.{alloc_pins, run-alloc_pins-IsWired}

-- The router after one pin, which goes to interrupt 3.
abbrev routed_once : Router
routed_once = record init {
  pirqs = set init.pirqs 0 (record no_pirq { reg = 3; use_count = 1 });
  irq_counts = set init.irq_counts 3 1;
  pirq_cold = false;
  signals = level_trigger 3 ∷ [];
}

allocated : alloc_pins 1 init ≡ some routed_once
unfolding alloc_pins pirq_alloc_pin routed route least_used least_count init counts_from
    irq_permitted has
allocated = refl

abbrev devices : List Device
devices =
    record no_device { pirq_pin = 1; ioapic_irq = 16 }
    ∷ record no_device { pirq_pin = 1; ioapic_irq = 17 }
    ∷ []

-- Both lines go up, the guest routes the pin to interrupt 5, and one line goes down.
abbrev events : List Event
events = up 0 ∷ up 1 ∷ router_write 0 0x05 ∷ down 0 ∷ configure 1 true false 0 ∷ down 1 ∷ []

devices_idle : (k : ℕ) → (get_or devices k no_device).state ≡ idle
devices_idle zero = refl
devices_idle (suc zero) = refl
devices_idle (suc (suc k)) = refl

devices_pins : (k : ℕ) → (get_or devices k no_device).pirq_pin ≤ 8
devices_pins zero = omega arith
devices_pins (suc zero) = omega arith
devices_pins (suc (suc k)) = omega arith

run-alloc_pins-IsWired_example :
    IsWired (run events (record { devices = devices; router = routed_once }))
run-alloc_pins-IsWired_example =
    run-alloc_pins-IsWired 1 routed_once devices events allocated devices_idle devices_pins

-- While both lines are up and the pin goes to interrupt 5.
abbrev both : List Event
both = up 0 ∷ up 1 ∷ router_write 0 0x05 ∷ []

run-isa_up_iff_example :
    (downs (isa 5) (run both (record { devices = devices; router = routed_once })).router
      < ups (isa 5) (run both (record { devices = devices; router = routed_once })).router)
    ↔ ((k : ℕ) × IsRouted (run both (record { devices = devices; router = routed_once })) 5 k)
run-isa_up_iff_example =
    run-isa_up_iff 1 routed_once devices both 5 allocated devices_idle devices_pins

-- In the end all wires are down.
events_end :
    (ups (isa 3) (run events (record { devices = devices; router = routed_once })).router ≡ 1)
    × (downs (isa 3) (run events (record { devices = devices; router = routed_once })).router ≡ 1)
unfolding run step lintr_assert asserts lintr_deassert deasserts lintr_update updates configured
    lintr_permitted pci_irq_assert pci_irq_deassert assert_at deassert_at pirq_write write_at tell
    is_driven pirq_valid_irq irq_permitted has incr decr count raises lowers same_wire init
    counts_from
events_end = (refl, refl)
