-- ===== src/Virtio/Line.antt =====
-- The interrupt line of a virtio device and its interrupt status, over all that the guest and the
-- device do in src/lib/virtio.c.
use hyperkit.Base.{
  ℕ, ◌≡◌, ◌≢◌, refl, ap, Bool, true, false, not, List, [], ◌∷◌, ◌==◌, arith, if◌then◌else◌,
  if_cases, bit_or,
}
use hyperkit.Base.Bits.Laws.{bit, bit-bit_or}
use hyperkit.Virtio.Memory.{Queue, Guest}
use hyperkit.Virtio.Used.{
  Signal, msix, msi, lintr_assert, lintr_deassert, Softc, signal, vq_interrupt, endchains,
  wants_intr,
}
use hyperkit.Virtio.Registers.{reset_dev}
use hyperkit.Virtio.Accesses.{read_isr}

-- The level of the line after the signals: that of the last one that sets it.
unfoldable pub is_up : List Signal → Bool
is_up [] = false
is_up (msix n ∷ xs) = is_up xs
is_up (msi n ∷ xs) = is_up xs
is_up (lintr_assert ∷ xs) = true
is_up (lintr_deassert ∷ xs) = false

-- The line is up exactly while the interrupt status is not zero.
unfoldable pub IsLined : Softc → Type 0
IsLined s = is_up s.signals ≡ not (s.isr == 0)

nonzero : (x : ℕ) → bit_or x 1 ≢ 0
nonzero x e = ground (arith, bit-bit_or x 1 0, ap (λ t. bit t 0) e)

pub vq_interrupt-IsLined : (s : Softc) (q : Queue) → IsLined s → IsLined (vq_interrupt s q)
unfolding vq_interrupt IsLined is_up
vq_interrupt-IsLined s q h =
    if_cases IsLined s.msix_enabled (λ _. h) (λ _. ground (arith, nonzero s.isr))

pub endchains-IsLined :
    (g : Guest) (s : Softc) (q : Queue) (all : Bool)
    → IsLined s
    → IsLined (endchains g s q all).device
unfolding endchains
endchains-IsLined g s q all h =
    if_cases IsLined (wants_intr s.negotiated_caps g q all) (λ _. vq_interrupt-IsLined s _ h)
      (λ _. h)

down :
    (s : Softc)
    → IsLined s
    → is_up (if s.isr == 0 then s else signal lintr_deassert s).signals ≡ false
unfolding IsLined is_up
down s h =
    if_cases (λ (t : Softc). is_up t.signals ≡ false) (s.isr == 0) (λ e. ground arith) (λ _. refl)

pub reset_dev-IsLined : (s : Softc) → IsLined s → IsLined (reset_dev s)
unfolding reset_dev IsLined is_up
reset_dev-IsLined s h = down s h

pub read_isr-IsLined : (s : Softc) → IsLined s → IsLined (read_isr s).device
unfolding read_isr IsLined is_up
read_isr-IsLined s h = if_cases IsLined (s.isr == 0) (λ e. ground arith) (λ _. refl)
