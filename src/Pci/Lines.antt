-- ===== src/Pci/Lines.antt =====
-- The interrupt lines of the PCI devices in src/lib/pci_emul.c.
use hyperkit.Base.{
  ℕ, ◌+◌, ◌%◌, Bool, true, false, not, ◌||◌, List, [], ◌∷◌, ltb, if◌then◌else◌, length, get_or, set,
}
use hyperkit.Base.Bits.Words.{has}
use hyperkit.Pci.Router.{Router, pci_irq_assert, pci_irq_deassert, pirq_write}

-- `enum lintr_stat`
pub data LintrStat : Type 0 where
  idle : LintrStat
  asserted : LintrStat
  pending : LintrStat

-- `pi_lintr` of `struct pci_devinst`, and what decides whether the line is permitted.
pub record Device : Type 0 where
  pub state : LintrStat
  pub pirq_pin : ℕ
  pub ioapic_irq : ℕ
  pub msi_enabled : Bool
  pub msix_enabled : Bool
  pub cmd : ℕ

-- `PCIM_CMD_INTxDIS` is 0x400.
unfoldable pub lintr_permitted : Device → Bool
lintr_permitted d = not (d.msi_enabled || d.msix_enabled || has d.cmd 0x400)

-- The devices with their router.
pub record Bus : Type 0 where
  pub devices : List Device
  pub router : Router

abbrev pub no_device : Device
no_device = record {
  state = idle;
  pirq_pin = 0;
  ioapic_irq = 0;
  msi_enabled = false;
  msix_enabled = false;
  cmd = 0;
}

abbrev pub device_at : Bus → ℕ → Device
device_at b k = get_or b.devices k no_device

-- The device k in another state, and the router after a call for it.
abbrev pub put : ℕ → LintrStat → (ℕ → ℕ → Router → Router) → Bus → Bus
put k state call b = record b {
  devices = set b.devices k (record (device_at b k) { state = state });
  router = call (device_at b k).pirq_pin (device_at b k).ioapic_irq b.router;
}

-- No call.
abbrev pub quiet : ℕ → ℕ → Router → Router
quiet pin irq r = r

unfoldable pub asserts : LintrStat → Bool → ℕ → Bus → Bus
asserts idle true k b = put k asserted pci_irq_assert b
asserts idle false k b = put k pending quiet b
asserts asserted p k b = b
asserts pending p k b = b

unfoldable pub lintr_assert : ℕ → Bus → Bus
lintr_assert k b = asserts (device_at b k).state (lintr_permitted (device_at b k)) k b

unfoldable pub deasserts : LintrStat → ℕ → Bus → Bus
deasserts idle k b = b
deasserts asserted k b = put k idle pci_irq_deassert b
deasserts pending k b = put k idle quiet b

unfoldable pub lintr_deassert : ℕ → Bus → Bus
lintr_deassert k b = deasserts (device_at b k).state k b

unfoldable pub updates : LintrStat → Bool → ℕ → Bus → Bus
updates idle p k b = b
updates asserted true k b = b
updates asserted false k b = put k pending pci_irq_deassert b
updates pending true k b = put k asserted pci_irq_assert b
updates pending false k b = b

unfoldable pub lintr_update : ℕ → Bus → Bus
lintr_update k b = updates (device_at b k).state (lintr_permitted (device_at b k)) k b

-- A device and the router are told of an event: a line goes up or down, the registers that permit it
-- change, or the guest writes a register of the router.
pub data Event : Type 0 where
  up : ℕ → Event
  down : ℕ → Event
  configure : ℕ → Bool → Bool → ℕ → Event
  router_write : ℕ → ℕ → Event

unfoldable pub configured : ℕ → Bool → Bool → ℕ → Bus → Bus
configured k msi msix cmd b = record b {
  devices =
      set b.devices k
        (record (device_at b k) { msi_enabled = msi; msix_enabled = msix; cmd = cmd });
}

-- A call for the device k, if there is one.
abbrev pub on_device : ℕ → (Bus → Bus) → Bus → Bus
on_device k call b = if ltb k (length b.devices) then call b else b

-- The writes of the configuration space end in pci_lintr_update. The pins of the router are 1 to 8.
unfoldable pub step : Event → Bus → Bus
step (up k) b = on_device k (lintr_assert k) b
step (down k) b = on_device k (lintr_deassert k) b
step (configure k msi msix cmd) b =
    on_device k (λ c. lintr_update k (configured k msi msix cmd c)) b
step (router_write i val) b = record b { router = pirq_write b.router (i % 8 + 1) val }

unfoldable pub run : List Event → Bus → Bus
run [] b = b
run (e ∷ events) b = run events (step e b)
