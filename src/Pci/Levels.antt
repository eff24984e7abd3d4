-- ===== src/Pci/Levels.antt =====
-- When an interrupt of the 8259A pair is up for the PCI lines of src/lib/pci_emul.c and src/lib/pci_irq.c.
use hyperkit.Base.{
  ℕ, zero, suc, ◌+◌, ◌-◌, ◌<◌, ◌≡◌, ◌≤◌, ◌%◌, ◌↔◌, refl, sym, ap, ap₂, ◌∙◌, Bool, true, false, not,
  ◌&&◌, ◌||◌, if◌then◌else◌, leb, bit_and, all_below_lem, some, ◌==◌, ==_iff, List, [], ◌∷◌, length,
  get_or, arith, Bool-cases, inl, inr, both_true,
}
use hyperkit.Base.Tests.{all_below}
use hyperkit.Base.Signed.{is}
use hyperkit.Base.Bits.Laws.{bit, bit_ext, bit-bit_and, bit-ones}
use hyperkit.Base.Bits.Shifts.{bit-mod}
use hyperkit.Base.Bits.Words.{has, has-pow}
use hyperkit.Pci.Router.{
  isa, no_pirq, pirq_at, pirq_valid_irq, irq_permitted, is_driven, irq_of, Router, init,
}
use hyperkit.Pci.Boot.{alloc_pins, run-alloc_pins-IsWired}
use hyperkit.Pci.Lines.{idle, Device, Event, Bus, no_device, device_at, run}
use hyperkit.Pci.Counts.{count, ups, downs, drives}
use hyperkit.Pci.Wired.{is_asserted, on_pin, IsWired}

module _ {ℓ} {A : Type ℓ} (f : A → Bool) (d : A) where
  counted_one :
      (xs : List A) → 0 < count f xs → (k : ℕ) × ((k < length xs) × (f (get_or xs k d) ≡ true))
  unfolding count
  counted_one [] h = absurd (omega arith)
  counted_one (x ∷ xs) h = elim (Bool-cases (f x)) [
    | inl y ↦ (zero, (omega arith, y))
    | inr n ↦
        let r = counted_one xs (ground (arith, n, h)) in (suc r.0, (omega (arith, r.1.0), r.1.1))
  ]

  one_counted : (xs : List A) (k : ℕ) → k < length xs → f (get_or xs k d) ≡ true → 0 < count f xs
  unfolding count
  one_counted [] k h e = absurd (omega arith)
  one_counted (x ∷ xs) zero h e = ground (arith, e)
  one_counted (x ∷ xs) (suc k) h e = omega (arith, one_counted xs k (omega arith) e)

-- The interrupts that a pin can be routed to.
abbrev pub permitted : ℕ → Bool
permitted irq = leb 3 irq && leb irq 7 || leb 9 irq && leb irq 12 || irq == 14 || irq == 15

irq_of-mod : (reg : ℕ) → bit_and reg 0xf ≡ reg % 16
irq_of-mod reg = bit_ext _ _ (λ k.
    bit-bit_and reg 0xf k
    ∙ ap (λ b. bit reg k && b) (bit-ones 4 k)
    ∙ ground (arith, bit-mod 4 reg k))

abbrev agree : Bool → Bool → Bool
agree a b = if a then b else not b

irq_permitted-permitted : (irq : ℕ) → irq < 16 → irq_permitted irq ≡ permitted irq
unfolding irq_permitted all_below has
irq_permitted-permitted irq h =
    same_bool (irq_permitted irq) (permitted irq)
      (all_below_lem 16 (λ i. agree (irq_permitted i) (permitted i)) checked irq h)
  where
    checked : all_below 16 (λ i. agree (irq_permitted i) (permitted i)) ≡ true
    checked = refl

    same_bool : (a b : Bool) → agree a b ≡ true → a ≡ b
    same_bool true true e = refl
    same_bool false false e = refl
    same_bool true false e = cc
    same_bool false true e = cc

valid_lem : (reg : ℕ) → pirq_valid_irq reg ≡ (not (bit reg 7) && permitted (reg % 16))
unfolding pirq_valid_irq
valid_lem reg =
    ap₂ (λ a b. not a && b) (has-pow reg 7)
      (ap irq_permitted (irq_of-mod reg) ∙ irq_permitted-permitted (reg % 16) (omega arith))

-- The line of the device k is up, and the register of its pin is enabled and names the interrupt, one
-- that is permitted.
pub record IsRouted (b : Bus) (irq k : ℕ) : Type 0 where
  pub there : k < length b.devices
  pub line : is_asserted (device_at b k).state ≡ true
  pub pin : 0 < (device_at b k).pirq_pin
  pub enabled : bit (pirq_at b.router ((device_at b k).pirq_pin - 1)).reg 7 ≡ false
  pub goes : (pirq_at b.router ((device_at b k).pirq_pin - 1)).reg % 16 ≡ irq
  pub allowed : permitted irq ≡ true

-- Where the counts agree with the lines, an interrupt of the 8259A pair has been raised more often than
-- lowered exactly if there is a device with its line up whose pin is routed to that interrupt.
pub isa_up_iff :
    (b : Bus) (irq : ℕ)
    → IsWired b
    → (downs (isa irq) b.router < ups (isa irq) b.router) ↔ ((k : ℕ) × IsRouted b irq k)
unfolding drives is_driven on_pin
isa_up_iff b irq w = (forth, back)
  where
    forth : downs (isa irq) b.router < ups (isa irq) b.router → (k : ℕ) × IsRouted b irq k
    forth h =
        let (i, (l, e)) =
          counted_one (drives irq) no_pirq b.router.pirqs (omega (arith, w.balanced.isa irq)) in
        let p = pirq_at b.router i in
        let a = both_true (not (is p.active_count 0) && pirq_valid_irq p.reg) (irq_of p == irq) e in
        let c = both_true (not (is p.active_count 0)) (pirq_valid_irq p.reg) a.0 in
        let f =
          both_true (not (bit p.reg 7)) (permitted (p.reg % 16)) (sym (valid_lem p.reg) ∙ c.1) in
        let to_irq : p.reg % 16 ≡ irq = sym (irq_of-mod p.reg) ∙ (==_iff (irq_of p) irq).0 a.1 in
        let n = count (on_pin (i + 1)) b.devices in
        let some_device : 0 < n =
          ground
            (arith, c.0, ap (λ z. not (is z 0)) (w.active i (omega (arith, w.balanced.pins)))) in
        let (k, (m, q)) = counted_one (on_pin (i + 1)) no_device b.devices some_device in
        let s =
          both_true (is_asserted (device_at b k).state) ((device_at b k).pirq_pin == i + 1) q in
        let pin_is : (device_at b k).pirq_pin ≡ i + 1 =
          (==_iff (device_at b k).pirq_pin (i + 1)).0 s.1 in
        let same : i ≡ (device_at b k).pirq_pin - 1 = omega (arith, pin_is) in
        (
          k,
          record {
            there = m;
            line = s.0;
            pin = omega (arith, pin_is);
            enabled = ap (λ x. bit (pirq_at b.router x).reg 7) (sym same) ∙ ground (arith, f.0);
            goes = ap (λ x. (pirq_at b.router x).reg % 16) (sym same) ∙ to_irq;
            allowed = ap permitted (sym to_irq) ∙ f.1;
          },
        )

    back : ((k : ℕ) × IsRouted b irq k) → downs (isa irq) b.router < ups (isa irq) b.router
    back (k, r) =
        let d = device_at b k in
        let i = d.pirq_pin - 1 in
        let l : i < 8 = omega (arith, w.pins k, r.pin) in
        let here : (d.pirq_pin == i + 1) ≡ true =
          (==_iff d.pirq_pin (i + 1)).1 (omega (arith, r.pin)) in
        let some_device : 0 < count (on_pin (i + 1)) b.devices =
          one_counted (on_pin (i + 1)) no_device b.devices k r.there
            (ground (arith, r.line, here)) in
        let active : not (is (pirq_at b.router i).active_count 0) ≡ true =
          ap (λ z. not (is z 0)) (w.active i l) ∙ ground (arith, some_device) in
        let reg = (pirq_at b.router i).reg in
        let valid : pirq_valid_irq reg ≡ true =
          valid_lem reg ∙ ap₂ (λ x y. not x && y) r.enabled (ap permitted r.goes ∙ r.allowed) in
        let driven : drives irq (pirq_at b.router i) ≡ true = ground (
          arith,
          active,
          valid,
          (==_iff (irq_of (pirq_at b.router i)) irq).1 (irq_of-mod reg ∙ r.goes),
        ) in
        omega (
          arith,
          w.balanced.isa irq,
          one_counted (drives irq) no_pirq b.router.pirqs i (omega (arith, w.balanced.pins)) driven,
        )

-- From the allocation of the pins on, with devices whose pins are at most 8 and none of which has raised
-- its line yet, however the lines go up and down, the devices are configured and the router is written
-- to: an interrupt of the 8259A pair has been raised more often than lowered exactly if there is a device
-- with its line up, the register of whose pin is enabled and has that interrupt in its low four bits, and
-- the interrupt is one of 3 to 7, 9 to 12, 14 and 15.
pub run-isa_up_iff :
    (n : ℕ) (r : Router) (devices : List Device) (events : List Event) (irq : ℕ)
    → alloc_pins n init ≡ some r
    → ((k : ℕ) → (get_or devices k no_device).state ≡ idle)
    → ((k : ℕ) → (get_or devices k no_device).pirq_pin ≤ 8)
    → (downs (isa irq) (run events (record { devices = devices; router = r })).router
        < ups (isa irq) (run events (record { devices = devices; router = r })).router)
      ↔ ((k : ℕ) × IsRouted (run events (record { devices = devices; router = r })) irq k)
run-isa_up_iff n r devices events irq e rest pins =
    isa_up_iff (run events (record { devices = devices; router = r })) irq
      (run-alloc_pins-IsWired n r devices events e rest pins)
