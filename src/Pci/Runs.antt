-- ===== src/Pci/Runs.antt =====
-- Runs of events of the PCI lines in src/lib/pci_emul.c and src/lib/pci_irq.c.
use hyperkit.Base.{
  ℕ, ◌+◌, ◌-◌, ◌%◌, ◌<◌, ◌≡◌, refl, ap, Bool, true, false, ltb, List, [], ◌∷◌, length, length-set,
  if_cases, arith,
}
use hyperkit.Pci.Router.{pirq_write}
use hyperkit.Pci.Lines.{
  LintrStat, idle, asserted, pending, Bus, device_at, asserts, lintr_assert, deasserts,
  lintr_deassert, updates, lintr_update, Event, up, down, configure, router_write, configured, step,
  run,
}
use hyperkit.Pci.Wired.{
  is_asserted, IsWired, router_write-IsWired, turned_on, turned_off, kept_down, configured-IsWired,
}

module _ (b : Bus) (k : ℕ) (h : k < length b.devices) (w : IsWired b) where
  asserts-IsWired :
      (s : LintrStat) (p : Bool) → (device_at b k).state ≡ s → IsWired (asserts s p k b)
  unfolding asserts is_asserted
  asserts-IsWired idle true e = turned_on b k h w (ap is_asserted e)
  asserts-IsWired idle false e = kept_down b k h w pending (ap is_asserted e) refl
  asserts-IsWired asserted p e = w
  asserts-IsWired pending p e = w

  deasserts-IsWired : (s : LintrStat) → (device_at b k).state ≡ s → IsWired (deasserts s k b)
  unfolding deasserts is_asserted
  deasserts-IsWired idle e = w
  deasserts-IsWired asserted e = turned_off b k h w (ap is_asserted e) idle refl
  deasserts-IsWired pending e = kept_down b k h w idle (ap is_asserted e) refl

  updates-IsWired :
      (s : LintrStat) (p : Bool) → (device_at b k).state ≡ s → IsWired (updates s p k b)
  unfolding updates is_asserted
  updates-IsWired idle p e = w
  updates-IsWired asserted true e = w
  updates-IsWired asserted false e = turned_off b k h w (ap is_asserted e) pending refl
  updates-IsWired pending true e = turned_on b k h w (ap is_asserted e)
  updates-IsWired pending false e = w

length-configured :
    (k : ℕ) (msi msix : Bool) (cmd : ℕ) (b : Bus)
    → length (configured k msi msix cmd b).devices ≡ length b.devices
unfolding configured
length-configured k msi msix cmd b = length-set b.devices k _

step-IsWired : (e : Event) (b : Bus) → IsWired b → IsWired (step e b)
unfolding step lintr_assert lintr_deassert lintr_update pirq_write
step-IsWired (up k) b w =
    if_cases IsWired (ltb k (length b.devices))
      (λ y. asserts-IsWired b k (ground (arith, y)) w (device_at b k).state _ refl) (λ _. w)
step-IsWired (down k) b w =
    if_cases IsWired (ltb k (length b.devices))
      (λ y. deasserts-IsWired b k (ground (arith, y)) w (device_at b k).state refl) (λ _. w)
step-IsWired (configure k msi msix cmd) b w =
    if_cases IsWired (ltb k (length b.devices))
      (λ y.
        updates-IsWired (configured k msi msix cmd b) k
          (ground (arith, y, length-configured k msi msix cmd b))
          (configured-IsWired b k (ground (arith, y)) w msi msix cmd)
          (device_at (configured k msi msix cmd b) k).state _ refl)
      (λ _. w)
step-IsWired (router_write i val) b w = router_write-IsWired b (i % 8 + 1 - 1) val (omega arith) w

pub run-IsWired : (events : List Event) (b : Bus) → IsWired b → IsWired (run events b)
unfolding run
run-IsWired [] b w = w
run-IsWired (e ∷ events) b w = run-IsWired events (step e b) (step-IsWired e b w)
