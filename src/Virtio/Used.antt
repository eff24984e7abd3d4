-- ===== src/Virtio/Used.antt =====
-- The used ring and the interrupts of a queue: vq_retchain, vq_relchain and vq_endchains of
-- src/lib/virtio.c, and the inline functions of src/include/xhyve/virtio.h.
use hyperkit.Base.{
  ℕ, ◌+◌, ◌%◌, ◌^◌, Bool, true, not, ◌&&◌, List, ◌∷◌, ltb, ◌==◌, if◌then◌else◌, set, bit_and,
  bit_or,
}
use hyperkit.Base.Bits.Words.{has}
use hyperkit.Virtio.Memory.{Guest, Queue, UsedElem, sub16}

-- What a device asks of its PCI function: a message of an MSI-X vector, an MSI message, and the level
-- of its interrupt line.
pub data Signal : Type 0 where
  msix : ℕ → Signal
  msi : ℕ → Signal
  lintr_assert : Signal
  lintr_deassert : Signal

-- `struct virtio_softc`: `msix_enabled` is what pci_msix_enabled returns, and the signals are all that
-- the device has given so far, the newest first.
pub record Softc : Type 0 where
  pub negotiated_caps : ℕ
  pub curq : ℕ
  pub status : ℕ
  pub isr : ℕ
  pub msix_cfg_idx : ℕ
  pub queues : List Queue
  pub msix_enabled : Bool
  pub signals : List Signal

abbrev pub signal : Signal → Softc → Softc
signal x s = record s { signals = x ∷ s.signals }

-- `VQ_ALLOC` is 1.
unfoldable pub vq_ring_ready : Queue → Bool
vq_ring_ready q = has q.flags 1

unfoldable pub vq_has_descs : Guest → Queue → Bool
vq_has_descs g q = vq_ring_ready q && not (q.last_avail == g.va_idx)

-- `VTCFG_ISR_QUEUES` is 1.
unfoldable pub vq_interrupt : Softc → Queue → Softc
vq_interrupt s q =
    if s.msix_enabled
    then signal (msix q.msix_idx) s
    else signal lintr_assert (signal (msi 0) (record s { isr = bit_or s.isr 1 }))

unfoldable pub retchain : Queue → Queue
retchain q = record q { last_avail = sub16 q.last_avail 1 }

abbrev pub used_elem : ℕ → ℕ → UsedElem
used_elem i l = record { idx = i; tlen = l }

unfoldable pub relchain : Queue → ℕ → ℕ → Queue
relchain q idx iolen =
    let mask = sub16 q.qsize 1 in
    record q {
      vu_idx = (q.vu_idx + 1) % 2 ^ 16;
      vu_ring = set q.vu_ring (bit_and q.vu_idx mask) (used_elem idx iolen);
    }

-- `VIRTIO_F_NOTIFY_ON_EMPTY` and `VIRTIO_RING_F_EVENT_IDX`; `VRING_AVAIL_F_NO_INTERRUPT` is 1.
unfoldable pub wants_intr : ℕ → Guest → Queue → Bool → Bool
wants_intr caps g q used_all_avail =
    let old_idx = q.save_used in
    let new_idx = q.vu_idx in
    let event_idx = g.va_ring q.qsize in
    if used_all_avail && has caps (2 ^ 24)
    then true
    else if has caps (2 ^ 29)
    then ltb (sub16 (sub16 new_idx event_idx) 1) (sub16 new_idx old_idx)
    else not (new_idx == old_idx) && not (has g.va_flags 1)

-- The queue and the device after the call.
pub record Ended : Type 0 where
  pub queue : Queue
  pub device : Softc

unfoldable pub endchains : Guest → Softc → Queue → Bool → Ended
endchains g s q used_all_avail =
    let after = record q { save_used = q.vu_idx } in
    record {
      queue = after;
      device = if wants_intr s.negotiated_caps g q used_all_avail then vq_interrupt s after else s;
    }
