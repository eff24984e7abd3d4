-- ===== src/Virtio/Interrupts.antt =====
-- When vq_endchains of src/lib/virtio.c interrupts the guest, and what vq_retchain undoes.
use hyperkit.Base.{
  ℕ, ◌+◌, ◌%◌, ◌^◌, ◌<◌, ◌≡◌, ◌≢◌, ◌↔◌, refl, ap, Bool, true, false, not, ◌&&◌, ltb, ◌==◌, arith,
  if◌then◌else◌, if_cases, none,
}
use hyperkit.Base.Bits.Words.{has}
use hyperkit.Virtio.Memory.{Vector, Guest, Queue, sub16}
use hyperkit.Virtio.Getchain.{Chain, getchain}
use hyperkit.Virtio.Accepted.{waiting}
use hyperkit.Virtio.Used.{Softc, retchain, wants_intr, endchains}

-- The index e is among those that the used index has passed on its way from `old` to `new`.
pub IsPassed : ℕ → ℕ → ℕ → Type 0
IsPassed e old new = (j : ℕ) × ((j < sub16 new old) × ((old + j) % 2 ^ 16 ≡ e))

IsPassed-sound :
    (e old new : ℕ)
    → e < 2 ^ 16
    → old < 2 ^ 16
    → new < 2 ^ 16
    → ltb (sub16 (sub16 new e) 1) (sub16 new old) ≡ true
    → IsPassed e old new
unfolding IsPassed
IsPassed-sound e old new he ho hn t = (sub16 e old, (ground arith, ground arith))

IsPassed-complete :
    (e old new : ℕ)
    → old < 2 ^ 16
    → new < 2 ^ 16
    → IsPassed e old new
    → ltb (sub16 (sub16 new e) 1) (sub16 new old) ≡ true
unfolding IsPassed
IsPassed-complete e old new ho hn (j, (h, k)) = ground arith

-- With VIRTIO_RING_F_EVENT_IDX, and unless the ring ran empty with VIRTIO_F_NOTIFY_ON_EMPTY, the
-- guest is interrupted exactly if the used index has passed the event index that the guest asked
-- for since the last time, if all three are of 16 bits.
pub wants_intr_iff :
    (caps : ℕ) (g : Guest) (q : Queue) (all : Bool)
    → has caps (2 ^ 29) ≡ true
    → (all && has caps (2 ^ 24)) ≡ false
    → g.va_ring q.qsize < 2 ^ 16
    → q.save_used < 2 ^ 16
    → q.vu_idx < 2 ^ 16
    → (wants_intr caps g q all ≡ true) ↔ IsPassed (g.va_ring q.qsize) q.save_used q.vu_idx
unfolding wants_intr
wants_intr_iff caps g q all ev ne he ho hn =
    rw (ne, ev)
      (
        IsPassed-sound (g.va_ring q.qsize) q.save_used q.vu_idx he ho hn,
        IsPassed-complete (g.va_ring q.qsize) q.save_used q.vu_idx ho hn,
      )

nothing_new :
    (caps : ℕ) (g : Guest) (q : Queue) (all : Bool)
    → (all && has caps (2 ^ 24)) ≡ false
    → q.save_used ≡ q.vu_idx
    → wants_intr caps g q all ≡ false
unfolding wants_intr
nothing_new caps g q all ne e =
    rw (ne, e)
      (quiet q.vu_idx (sub16 (sub16 q.vu_idx (g.va_ring q.qsize)) 1) (has caps (2 ^ 29))
        (not (has g.va_flags 1)))
  where
    quiet : (x a : ℕ) (b c : Bool) → (if b then ltb a (sub16 x x) else not (x == x) && c) ≡ false
    quiet x a true c = ground arith
    quiet x a false c = ground arith

-- A second end without a further return does nothing to the device, unless the ring ran empty with
-- VIRTIO_F_NOTIFY_ON_EMPTY.
pub endchains-endchains :
    (g h : Guest) (s t : Softc) (q : Queue) (all : Bool)
    → (all && has t.negotiated_caps (2 ^ 24)) ≡ false
    → (endchains h t (endchains g s q all).queue all).device ≡ t
unfolding endchains
endchains-endchains g h s t q all ne =
    rw (nothing_new t.negotiated_caps h (endchains g s q all).queue all ne refl) refl

-- vq_retchain gives back what vq_getchain has taken, whatever the walk made of it, if the counter is
-- of 16 bits.
pub retchain-getchain :
    (g : Guest) (indirect_ok : Bool) (q : Queue) (iov : Vector)
    → q.last_avail < 2 ^ 16
    → (getchain g indirect_ok q iov).head ≢ none
    → retchain (getchain g indirect_ok q iov).queue ≡ q
unfolding getchain retchain
retchain-getchain g indirect_ok q iov hl =
    if_cases P (waiting g q == 0) (λ _ h. absurd (h refl))
      (λ _.
        if_cases P (ltb q.qsize (waiting g q)) (λ _ h. absurd (h refl))
          (λ _ _. ap (λ a. record q { last_avail = a }) back))
  where
    P : Chain → Type 0
    P c = c.head ≢ none → retchain c.queue ≡ q

    back : sub16 ((q.last_avail + 1) % 2 ^ 16) 1 ≡ q.last_avail
    back = omega arith
