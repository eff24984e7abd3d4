-- ===== src/Pci/Wired.antt =====
-- The lines of the PCI devices in src/lib/pci_emul.c and the pins of the router in src/lib/pci_irq.c agree.
use hyperkit.Base.{
  ℕ, suc, ◌+◌, ◌-◌, ◌≤◌, ◌<◌, ◌≡◌, refl, sym, ap, ◌∙◌, Bool, true, false, ◌&&◌, ltb, ◌==◌, ==_of_ne,
  ==_iff, List, length, get_or, set, get_or-set_self, get_or-set_ne, if◌then◌else◌, if_cases, arith,
  ℕ_discrete,
}
use hyperkit.Base.Signed.{pos, incr, decr}
use hyperkit.Pci.Router.{
  ioapic, same_wire, Router, pirq_at, write_at, assert_at, deassert_at, pci_irq_assert,
  pci_irq_deassert,
}
use hyperkit.Pci.Lines.{
  LintrStat, idle, asserted, pending, Device, Bus, no_device, device_at, put, quiet, configured,
}
use hyperkit.Pci.Counts.{
  num, count, count-set, raises, lowers, ups, downs, IsBalanced, write_at-IsBalanced,
  assert_at-IsBalanced, deassert_at-IsBalanced,
}
use hyperkit.Pci.Changes.{
  active-assert_at, active-deassert_at, active-write_at, IsApart, assert_at-IsApart,
  deassert_at-IsApart, write_at-IsApart,
}

unfoldable pub is_asserted : LintrStat → Bool
is_asserted idle = false
is_asserted asserted = true
is_asserted pending = false

-- A device whose line is up has a pin of the router, or an interrupt of the I/O APIC.
unfoldable pub on_pin : ℕ → Device → Bool
on_pin pin d = is_asserted d.state && d.pirq_pin == pin

unfoldable pub on_irq : ℕ → Device → Bool
on_irq irq d = is_asserted d.state && d.ioapic_irq == irq

-- The router counts for each pin the devices that drive it, and the wires have been raised once more
-- than lowered for each pin, or each device, that drives them.
pub record IsWired (b : Bus) : Type 0 where
  pub balanced : IsBalanced b.router
  pub pins : (k : ℕ) → (device_at b k).pirq_pin ≤ 8
  pub active :
      (i : ℕ) → i < 8 → (pirq_at b.router i).active_count ≡ pos (count (on_pin (i + 1)) b.devices)
  pub ioapic :
      (irq : ℕ)
      → ups (ioapic irq) b.router ≡ downs (ioapic irq) b.router + count (on_irq irq) b.devices

pub router_write-IsWired :
    (b : Bus) (i val : ℕ)
    → i < 8
    → IsWired b
    → IsWired (record b { router = write_at b.router i val })
router_write-IsWired b i val h w = record {
  balanced = write_at-IsBalanced b.router w.balanced i h val;
  pins = w.pins;
  active = λ j l. active-write_at b.router i (omega (arith, w.balanced.pins)) val j ∙ w.active j l;
  ioapic = λ irq.
      let a = write_at-IsApart irq i val b.router in
      omega (arith, a.raised, a.lowered, w.ioapic irq);
}

-- The device k, one of the devices, changes its state.
module _ (b : Bus) (k : ℕ) (h : k < length b.devices) (w : IsWired b) where
  abbrev d : Device
  d = device_at b k

  abbrev r : Router
  r = b.router

  abbrev changed : LintrStat → List Device
  changed s = set b.devices k (record d { state = s })

  pins_with :
      (x : Device)
      → x.pirq_pin ≡ d.pirq_pin
      → (j : ℕ) → (get_or (set b.devices k x) j no_device).pirq_pin ≤ 8
  pins_with x same j = elim (ℕ_discrete k j) [
    | yes e ↦ omega (
      arith,
      ap (λ i. (get_or (set b.devices k x) i no_device).pirq_pin) (sym e),
      ap (λ (y : Device). y.pirq_pin) (get_or-set_self b.devices k x no_device h),
      same,
      w.pins k,
    )
    | no ne ↦ omega (
      arith,
      ap (λ (y : Device). y.pirq_pin) (get_or-set_ne b.devices k j x no_device ne),
      w.pins j,
    )
  ]

  pins_kept : (s : LintrStat) (j : ℕ) → (get_or (changed s) j no_device).pirq_pin ≤ 8
  pins_kept s = pins_with (record d { state = s }) refl

  pin_count :
      (f : Device → Bool) (s : LintrStat)
      → count f (changed s) + num (f d) ≡ count f b.devices + num (f (record d { state = s }))
  pin_count f s = count-set f b.devices k (record d { state = s }) no_device h

  -- The router after the counting, before the wire of the I/O APIC.
  abbrev counted_up : Router
  counted_up = if ltb 0 d.pirq_pin then assert_at (d.pirq_pin - 1) r else r

  up-IsBalanced : IsBalanced counted_up
  up-IsBalanced =
      if_cases IsBalanced (ltb 0 d.pirq_pin)
        (λ y.
          assert_at-IsBalanced r w.balanced (d.pirq_pin - 1) (ground (arith, w.pins k, y)) _
            (w.active (d.pirq_pin - 1) (ground (arith, w.pins k, y))))
        (λ _. w.balanced)

  up-IsApart : (irq : ℕ) → IsApart irq r counted_up
  up-IsApart irq =
      if_cases (IsApart irq r) (ltb 0 d.pirq_pin) (λ _. assert_at-IsApart irq (d.pirq_pin - 1) r)
        (λ _. record { raised = refl; lowered = refl })

  up_active :
      is_asserted d.state ≡ false
      → (j : ℕ) → j < 8
      → (pirq_at counted_up j).active_count ≡ pos (count (on_pin (j + 1)) (changed asserted))
  unfolding on_pin is_asserted incr
  up_active off j l =
      if_cases
        (λ (s : Router).
          (pirq_at s j).active_count ≡ pos (count (on_pin (j + 1)) (changed asserted)))
        (ltb 0 d.pirq_pin)
        (λ y.
          active-assert_at r (d.pirq_pin - 1) (ground (arith, w.pins k, w.balanced.pins, y)) j
          ∙ elim (ℕ_discrete (d.pirq_pin - 1) j) [
            | yes e ↦
                let pin_is : d.pirq_pin ≡ j + 1 = ground (arith, e, y) in
                let here : (d.pirq_pin == j + 1) ≡ true = (==_iff d.pirq_pin (j + 1)).1 pin_is in
                rw ((==_iff (d.pirq_pin - 1) j).1 e) (
                  ap (λ x. incr (pirq_at r x).active_count) e
                  ∙ ap incr (w.active j l)
                  ∙ ap pos (ground (arith, pin_count (on_pin (j + 1)) asserted, off, here)))
            | no ne ↦
                let away : (d.pirq_pin == j + 1) ≡ false =
                  ==_of_ne d.pirq_pin (j + 1) (λ q. ne (omega (arith, q))) in
                rw (==_of_ne (d.pirq_pin - 1) j ne) (
                  w.active j l
                  ∙ ap pos (ground (arith, pin_count (on_pin (j + 1)) asserted, off, away)))
          ])
        (λ z. w.active j l ∙ ap pos (ground (arith, pin_count (on_pin (j + 1)) asserted, off, z)))

  pub turned_on : is_asserted d.state ≡ false → IsWired (put k asserted pci_irq_assert b)
  unfolding pci_irq_assert count raises lowers same_wire on_irq is_asserted
  turned_on off = record {
    balanced = record {
      pins = up-IsBalanced.pins;
      isa = λ irq. omega (arith, up-IsBalanced.isa irq);
    };
    pins = pins_kept asserted;
    active = up_active off;
    ioapic = λ irq.
        let a = up-IsApart irq in
        ground (arith, a.raised, a.lowered, w.ioapic irq, pin_count (on_irq irq) asserted, off);
  }

  abbrev counted_down : Router
  counted_down = if ltb 0 d.pirq_pin then deassert_at (d.pirq_pin - 1) r else r

  -- The device itself is one that the pin counts.
  counts_it :
      is_asserted d.state ≡ true
      → (i : ℕ) → i < 8
      → d.pirq_pin ≡ i + 1
      → (pirq_at r i).active_count ≡ pos (suc (count (on_pin (i + 1)) b.devices - 1))
  unfolding on_pin is_asserted
  counts_it on i l e =
      w.active i l
      ∙ ap pos
          (ground (arith, pin_count (on_pin (i + 1)) idle, on, (==_iff d.pirq_pin (i + 1)).1 e))

  module _ (on : is_asserted d.state ≡ true) (s : LintrStat) (off : is_asserted s ≡ false) where
    down-IsBalanced : IsBalanced counted_down
    down-IsBalanced =
        if_cases IsBalanced (ltb 0 d.pirq_pin)
          (λ y.
            deassert_at-IsBalanced r w.balanced (d.pirq_pin - 1) (ground (arith, w.pins k, y)) _
              (counts_it on (d.pirq_pin - 1) (ground (arith, w.pins k, y)) (ground (arith, y))))
          (λ _. w.balanced)

    down-IsApart : (irq : ℕ) → IsApart irq r counted_down
    down-IsApart irq =
        if_cases (IsApart irq r) (ltb 0 d.pirq_pin)
          (λ _. deassert_at-IsApart irq (d.pirq_pin - 1) r)
          (λ _. record { raised = refl; lowered = refl })

    down_active :
        (j : ℕ)
        → j < 8
        → (pirq_at counted_down j).active_count ≡ pos (count (on_pin (j + 1)) (changed s))
    unfolding on_pin is_asserted decr
    down_active j l =
        if_cases
          (λ (t : Router). (pirq_at t j).active_count ≡ pos (count (on_pin (j + 1)) (changed s)))
          (ltb 0 d.pirq_pin)
          (λ y.
            active-deassert_at r (d.pirq_pin - 1) (ground (arith, w.pins k, w.balanced.pins, y)) j
            ∙ elim (ℕ_discrete (d.pirq_pin - 1) j) [
              | yes e ↦
                  let pin_is : d.pirq_pin ≡ j + 1 = ground (arith, e, y) in
                  let here : (d.pirq_pin == j + 1) ≡ true = (==_iff d.pirq_pin (j + 1)).1 pin_is in
                  rw ((==_iff (d.pirq_pin - 1) j).1 e) (
                    ap (λ x. decr (pirq_at r x).active_count) e
                    ∙ ap decr (counts_it on j l pin_is)
                    ∙ ap pos (ground (arith, pin_count (on_pin (j + 1)) s, on, off, here)))
              | no ne ↦
                  let away : (d.pirq_pin == j + 1) ≡ false =
                    ==_of_ne d.pirq_pin (j + 1) (λ q. ne (omega (arith, q))) in
                  rw (==_of_ne (d.pirq_pin - 1) j ne) (
                    w.active j l ∙ ap pos (ground (arith, pin_count (on_pin (j + 1)) s, off, away)))
            ])
          (λ z. w.active j l ∙ ap pos (ground (arith, pin_count (on_pin (j + 1)) s, off, z)))

    pub turned_off : IsWired (put k s pci_irq_deassert b)
    unfolding pci_irq_deassert count raises lowers same_wire on_irq is_asserted
    turned_off = record {
      balanced = record {
        pins = down-IsBalanced.pins;
        isa = λ irq. omega (arith, down-IsBalanced.isa irq);
      };
      pins = pins_kept s;
      active = down_active;
      ioapic = λ irq.
          let a = down-IsApart irq in
          ground (arith, a.raised, a.lowered, w.ioapic irq, pin_count (on_irq irq) s, on, off);
    }

  -- A change of the state that leaves the line down.
  pub kept_down :
      (s : LintrStat)
      → is_asserted d.state ≡ false
      → is_asserted s ≡ false
      → IsWired (put k s quiet b)
  unfolding on_pin on_irq
  kept_down s was off = record {
    balanced = w.balanced;
    pins = pins_kept s;
    active = λ j l. w.active j l ∙ ap pos (ground (arith, pin_count (on_pin (j + 1)) s, was, off));
    ioapic = λ irq. ground (arith, w.ioapic irq, pin_count (on_irq irq) s, was, off);
  }

  -- A change of what permits the line.
  pub configured-IsWired : (msi msix : Bool) (cmd : ℕ) → IsWired (configured k msi msix cmd b)
  unfolding configured on_pin on_irq
  configured-IsWired msi msix cmd = record {
    balanced = w.balanced;
    pins = pins_with new refl;
    active = λ j l.
        w.active j l
        ∙ ap pos (omega (arith, count-set (on_pin (j + 1)) b.devices k new no_device h));
    ioapic = λ irq. omega (arith, w.ioapic irq, count-set (on_irq irq) b.devices k new no_device h);
  }
    where
      new : Device
      new = record d { msi_enabled = msi; msix_enabled = msix; cmd = cmd }
