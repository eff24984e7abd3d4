-- ===== src/Pci/Boot.antt =====
-- The PCI lines of src/lib/pci_emul.c and src/lib/pci_irq.c after the pins have been allocated.
use hyperkit.Base.{
  ℕ, zero, suc, ◌+◌, ◌%◌, ◌^◌, ◌≤◌, ◌≡◌, refl, sym, ap, subst, ◌∙◌, Bool, false, not, ◌&&◌, ◌==◌,
  List, [], ◌∷◌, length, get_or, set, length-set, replicate, if_cases, arith, Option, none, some,
  ◌>>=◌,
}
use hyperkit.Base.Signed.{pos, is}
use hyperkit.Pci.Router.{
  Wire, isa, ioapic, Pirq, Router, Pin, no_pirq, pirq_dis, pirq_at, is_driven, pirq_valid_irq,
  irq_of, init, least_used, least_count, route, routed, pirq_alloc_pin,
}
use hyperkit.Pci.Lines.{idle, Device, Bus, no_device, device_at, Event, run}
use hyperkit.Pci.Counts.{count, raises, lowers, ups, downs, drives}
use hyperkit.Pci.Wired.{is_asserted, on_pin, on_irq, IsWired}
use hyperkit.Pci.Runs.{run-IsWired}

-- The pins are allocated for n lines.
unfoldable pub alloc_pins : ℕ → Router → Option Router
alloc_pins zero r = some r
alloc_pins (suc n) r = pirq_alloc_pin r >>= (λ p. alloc_pins n p.router)

module _ {ℓ} {A : Type ℓ} (f : A → Bool) (d : A) where
  none_counted : (xs : List A) → ((j : ℕ) → f (get_or xs j d) ≡ false) → count f xs ≡ 0
  unfolding count
  none_counted [] h = refl
  none_counted (x ∷ xs) h = ground (arith, h zero, none_counted xs (λ j. h (suc j)))

-- No pin of a list has an active device.
calm-set :
    (xs : List Pirq) (i j : ℕ) (x : Pirq)
    → ((j : ℕ) → (get_or xs j no_pirq).active_count ≡ pos 0)
    → x.active_count ≡ pos 0
    → (get_or (set xs i x) j no_pirq).active_count ≡ pos 0
calm-set [] i j x h e = refl
calm-set (y ∷ xs) zero zero x h e = e
calm-set (y ∷ xs) zero (suc j) x h e = h (suc j)
calm-set (y ∷ xs) (suc i) zero x h e = h zero
calm-set (y ∷ xs) (suc i) (suc j) x h e = calm-set xs i j x (λ j. h (suc j)) e

record IsCalm (r : Router) : Type 0 where
  pins : length r.pirqs ≡ 8
  calm : (j : ℕ) → (pirq_at r j).active_count ≡ pos 0
  untold : (w : Wire) → (ups w r ≡ 0) × (downs w r ≡ 0)

init-IsCalm : IsCalm init
unfolding init count
init-IsCalm = record { pins = refl; calm = at 8; untold = λ w. (refl, refl) }
  where
    at : (n j : ℕ) → (get_or (replicate n no_pirq) j no_pirq).active_count ≡ pos 0
    at zero j = refl
    at (suc n) zero = refl
    at (suc n) (suc j) = at n j

route-IsCalm : (r : Router) (i irq : ℕ) → IsCalm r → IsCalm (route i r irq)
unfolding route count raises lowers
route-IsCalm r i irq c = record {
  pins = length-set r.pirqs i _ ∙ c.pins;
  calm = λ j. calm-set r.pirqs i j (record (pirq_at r i) { reg = irq % 2 ^ 8 }) c.calm (c.calm i);
  untold = λ w. (omega (arith, (c.untold w).0), omega (arith, (c.untold w).1));
}

routed-IsCalm :
    (r : Router) (i : ℕ) (o : Option ℕ) (p : Pin)
    → IsCalm r
    → routed i r o ≡ some p
    → IsCalm p.router
unfolding routed
routed-IsCalm r i none p c e = cc
routed-IsCalm r i (some irq) p c e =
    let same : route i r irq ≡ p.router = cc in subst IsCalm same (route-IsCalm r i irq c)

pirq_alloc_pin-IsCalm :
    (r : Router) (p : Pin) → IsCalm r → pirq_alloc_pin r ≡ some p → IsCalm p.router
unfolding pirq_alloc_pin
pirq_alloc_pin-IsCalm r p c =
    if_cases (λ (o : Option Pin). o ≡ some p → IsCalm p.router) ((pirq_at r i).reg == pirq_dis)
      (λ _ e. routed-IsCalm used i (least_count r.irq_counts 0 none 0) p used-IsCalm e)
      (λ _ e. let same : used ≡ p.router = cc in subst IsCalm same used-IsCalm)
  where
    i : ℕ
    i = least_used r.pirqs 0 0 (pirq_at r 0).use_count

    used : Router
    used = record r {
      pirq_cold = false;
      pirqs = set r.pirqs i (record (pirq_at r i) { use_count = (pirq_at r i).use_count + 1 });
    }

    used-IsCalm : IsCalm used
    used-IsCalm = record {
      pins = length-set r.pirqs i _ ∙ c.pins;
      calm = λ j.
          calm-set r.pirqs i j (record (pirq_at r i) { use_count = (pirq_at r i).use_count + 1 })
            c.calm (c.calm i);
      untold = c.untold;
    }

alloc_pins-IsCalm : (n : ℕ) (r s : Router) → IsCalm r → alloc_pins n r ≡ some s → IsCalm s
unfolding alloc_pins
alloc_pins-IsCalm zero r s c e = let same : r ≡ s = cc in subst IsCalm same c
alloc_pins-IsCalm (suc n) r s c e = go (pirq_alloc_pin r) refl e (λ p q. alloc_pins-IsCalm n p s q)
  where
    go :
        (o : Option Pin)
        → pirq_alloc_pin r ≡ o
        → (o >>= (λ p. alloc_pins n p.router)) ≡ some s
        → ((p : Router) → IsCalm p → alloc_pins n p ≡ some s → IsCalm s)
        → IsCalm s
    go none q f ih = cc
    go (some p) q f ih = ih p.router (pirq_alloc_pin-IsCalm r p c q) f

-- A calm router and devices with their lines down agree.
calm-IsWired :
    (b : Bus)
    → IsCalm b.router
    → ((k : ℕ) → (device_at b k).state ≡ idle)
    → ((k : ℕ) → (device_at b k).pirq_pin ≤ 8)
    → IsWired b
unfolding drives is_driven on_pin on_irq is_asserted
calm-IsWired b c rest pins = record {
  balanced = record {
    pins = c.pins;
    isa = λ irq. omega (
      arith,
      (c.untold (isa irq)).0,
      (c.untold (isa irq)).1,
      none_counted (drives irq) no_pirq b.router.pirqs (λ j.
          ap
            (λ a.
              (not (is a 0) && pirq_valid_irq (pirq_at b.router j).reg)
              && irq_of (pirq_at b.router j) == irq)
            (c.calm j)),
    );
  };
  pins = pins;
  active = λ i l.
      c.calm i
      ∙ ap pos (
          sym (
            none_counted (on_pin (i + 1)) no_device b.devices
              (λ j. ap (λ s. is_asserted s && (device_at b j).pirq_pin == i + 1) (rest j))));
  ioapic = λ irq. omega (
    arith,
    (c.untold (ioapic irq)).0,
    (c.untold (ioapic irq)).1,
    none_counted (on_irq irq) no_device b.devices
        (λ j. ap (λ s. is_asserted s && (device_at b j).ioapic_irq == irq) (rest j)),
  );
}

-- From the allocation of the pins on, with devices whose pins are at most 8 and none of which has raised
-- its line yet, however the lines go up and down, the devices are configured and the router is written
-- to: the counts are those of the devices with their line up, and each wire of the 8259A pair and of the
-- I/O APIC has been raised once more than lowered for each pin or device that drives it.
pub run-alloc_pins-IsWired :
    (n : ℕ) (r : Router) (devices : List Device) (events : List Event)
    → alloc_pins n init ≡ some r
    → ((k : ℕ) → (get_or devices k no_device).state ≡ idle)
    → ((k : ℕ) → (get_or devices k no_device).pirq_pin ≤ 8)
    → IsWired (run events (record { devices = devices; router = r }))
run-alloc_pins-IsWired n r devices events e rest pins =
    run-IsWired events (record { devices = devices; router = r })
      (calm-IsWired (record { devices = devices; router = r })
        (alloc_pins-IsCalm n init r init-IsCalm e) rest pins)
