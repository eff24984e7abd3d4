-- ===== src/Pci/Router.antt =====
-- The router of PCI interrupts, src/lib/pci_irq.c, with the calls of src/lib/vmm/vmm_api.c that it makes.
use hyperkit.Base.{
  ℕ, zero, suc, ◌+◌, ◌-◌, ◌%◌, ◌^◌, Bool, true, false, not, ◌&&◌, ◌||◌, List, [], ◌∷◌, ltb, ◌==◌,
  if◌then◌else◌, get_or, set, replicate, bit_and, Option, none, some,
}
use hyperkit.Base.Signed.{ℤ, pos, incr, decr, is}
use hyperkit.Base.Bits.Words.{has}

-- An input of the 8259A pair or of the I/O APIC.
pub data Wire : Type 0 where
  isa : ℕ → Wire
  ioapic : ℕ → Wire

unfoldable pub same_wire : Wire → Wire → Bool
same_wire (isa a) (isa b) = a == b
same_wire (ioapic a) (ioapic b) = a == b
same_wire _ _ = false

-- The calls that reach the interrupt controllers: vatpic_assert_irq, vioapic_assert_irq and their
-- counterparts, and vatpic_set_irq_trigger with `LEVEL_TRIGGER`.
pub data Signal : Type 0 where
  raise : Wire → Signal
  lower : Wire → Signal
  level_trigger : ℕ → Signal

-- `struct pirq`
pub record Pirq : Type 0 where
  pub reg : ℕ
  pub use_count : ℕ
  pub active_count : ℤ

-- `pirqs`, `irq_counts` and the signals sent so far, the last one first.
pub record Router : Type 0 where
  pub pirqs : List Pirq
  pub irq_counts : List ℕ
  pub pirq_cold : Bool
  pub signals : List Signal

abbrev pub send : Signal → Router → Router
send s r = record r { signals = s ∷ r.signals }

-- `PIRQ_DIS`, `IRQ_DISABLED` and `IRQ_PERMITTED`
abbrev pub pirq_dis : ℕ
pirq_dis = 0x80

abbrev pub irq_disabled : ℕ
irq_disabled = 0xff

unfoldable pub irq_permitted : ℕ → Bool
irq_permitted irq = has (2 ^ irq) 0xdef8

unfoldable pub pirq_valid_irq : ℕ → Bool
pirq_valid_irq reg = not (has reg pirq_dis) && irq_permitted (bit_and reg 0xf)

abbrev pub no_pirq : Pirq
no_pirq = record { reg = pirq_dis; use_count = 0; active_count = pos 0 }

-- The register of the pin at an index, which is one less than its number.
abbrev pub pirq_at : Router → ℕ → Pirq
pirq_at r i = get_or r.pirqs i no_pirq

unfoldable pub pirq_read : Router → ℕ → ℕ
pirq_read r pin = (pirq_at r (pin - 1)).reg

-- The pin at an index has an interrupt to tell to the 8259A pair.
unfoldable pub is_driven : Pirq → Bool
is_driven p = not (is p.active_count 0) && pirq_valid_irq p.reg

abbrev pub irq_of : Pirq → ℕ
irq_of p = bit_and p.reg 0xf

-- Tell the 8259A pair of a pin that drives one of its interrupts.
unfoldable pub tell : (Wire → Signal) → Pirq → Router → Router
tell signal p r = if is_driven p then send (signal (isa (irq_of p))) r else r

-- pirq_write for a pin from 1 to 8, and for its index.
unfoldable pub write_at : Router → ℕ → ℕ → Router
write_at r i val =
    let p = pirq_at r i in
    let written = record p { reg = bit_and val 0x8f } in
    if p.reg == bit_and val 0x8f
    then r
    else tell raise written (record (tell lower p r) { pirqs = set r.pirqs i written })

unfoldable pub pirq_write : Router → ℕ → ℕ → Router
pirq_write r pin val = write_at r (pin - 1) val

-- `none` is a failed assertion.
unfoldable pub pci_irq_reserve : Router → ℕ → Option Router
pci_irq_reserve r irq =
    let count = get_or r.irq_counts irq 0 in
    if r.pirq_cold && ltb irq 16 && (count == 0 || count == irq_disabled)
    then some (record r { irq_counts = set r.irq_counts irq irq_disabled })
    else none

unfoldable pub pci_irq_use : Router → ℕ → Option Router
pci_irq_use r irq =
    let count = get_or r.irq_counts irq 0 in
    if r.pirq_cold && ltb irq 16 && not (count == irq_disabled)
    then some (record r { irq_counts = set r.irq_counts irq ((count + 1) % 2 ^ 8) })
    else none

-- The counts of n interrupts from one on.
unfoldable pub counts_from : ℕ → ℕ → List ℕ
counts_from zero irq = []
counts_from (suc n) irq = (if irq_permitted irq then 0 else irq_disabled) ∷ counts_from n (irq + 1)

unfoldable pub init : Router
init = record {
  pirqs = replicate 8 no_pirq;
  irq_counts = counts_from 16 0;
  pirq_cold = true;
  signals = [];
}

-- A change of the count of the active devices of a pin.
abbrev pub counted : (ℤ → ℤ) → Pirq → Pirq
counted f p = record p { active_count = f p.active_count }

-- The part of pci_irq_assert, and of pci_irq_deassert, for the router.
unfoldable pub assert_at : ℕ → Router → Router
assert_at i r =
    let p = counted incr (pirq_at r i) in
    let after = record r { pirqs = set r.pirqs i p } in
    if is p.active_count 1 && pirq_valid_irq p.reg
    then send (raise (isa (irq_of p))) after
    else after

unfoldable pub deassert_at : ℕ → Router → Router
deassert_at i r =
    let p = counted decr (pirq_at r i) in
    let after = record r { pirqs = set r.pirqs i p } in
    if is p.active_count 0 && pirq_valid_irq p.reg
    then send (lower (isa (irq_of p))) after
    else after

-- pci_irq_assert and pci_irq_deassert for a device with a pin, or 0 for none, and its interrupt of the
-- I/O APIC.
unfoldable pub pci_irq_assert : ℕ → ℕ → Router → Router
pci_irq_assert pin irq r =
    send (raise (ioapic irq)) (if ltb 0 pin then assert_at (pin - 1) r else r)

unfoldable pub pci_irq_deassert : ℕ → ℕ → Router → Router
pci_irq_deassert pin irq r =
    send (lower (ioapic irq)) (if ltb 0 pin then deassert_at (pin - 1) r else r)

-- The search for the pin that is used least, from the pin at index i on; `best` is the best so far.
unfoldable pub least_used : List Pirq → ℕ → ℕ → ℕ → ℕ
least_used [] i best count = best
least_used (p ∷ rest) i best count =
    if ltb p.use_count count
    then least_used rest (i + 1) i p.use_count
    else least_used rest (i + 1) best count

-- The search for the interrupt with the least count.
unfoldable pub least_count : List ℕ → ℕ → Option ℕ → ℕ → Option ℕ
least_count [] irq best count = best
least_count (c ∷ rest) irq none count =
    if c == irq_disabled
    then least_count rest (irq + 1) none count
    else least_count rest (irq + 1) (some irq) c
least_count (c ∷ rest) irq (some b) count =
    if not (c == irq_disabled) && ltb c count
    then least_count rest (irq + 1) (some irq) c
    else least_count rest (irq + 1) (some b) count

-- Route the pin at an index to an interrupt.
unfoldable pub route : ℕ → Router → ℕ → Router
route i r irq =
    let p = pirq_at r i in
    send (level_trigger irq) (record r {
      pirqs = set r.pirqs i (record p { reg = irq % 2 ^ 8 });
      irq_counts = set r.irq_counts irq ((get_or r.irq_counts irq 0 + 1) % 2 ^ 8);
    })

-- A pin and the router, or `none` for the assertion that an interrupt is left.
pub record Pin : Type 0 where
  pub pin : ℕ
  pub router : Router

-- Route the pin if there is an interrupt for it.
unfoldable pub routed : ℕ → Router → Option ℕ → Option Pin
routed i r none = none
routed i r (some irq) = some (record { pin = i + 1; router = route i r irq })

unfoldable pub pirq_alloc_pin : Router → Option Pin
pirq_alloc_pin r =
    let i = least_used r.pirqs 0 0 (pirq_at r 0).use_count in
    let p = pirq_at r i in
    let used = record r {
      pirq_cold = false;
      pirqs = set r.pirqs i (record p { use_count = p.use_count + 1 });
    } in
    if p.reg == pirq_dis
    then routed i used (least_count r.irq_counts 0 none 0)
    else some (record { pin = i + 1; router = used })

unfoldable pub pirq_irq : Router → ℕ → ℕ
pirq_irq r pin = irq_of (pirq_at r (pin - 1))
