-- ===== src/Virtio/Setup.antt =====
-- How the guest sets up a queue by register accesses, in src/lib/virtio.c.
use hyperkit.Base.{
  ℕ, ◌%◌, ◌^◌, ◌≤◌, ◌<◌, ◌≡◌, ◌≢◌, refl, subst, get_or-set_ne, lt→ltb, sym, ap, ◌∙◌, true, false,
  [], ◌∷◌, ltb, arith, if◌then◌else◌, length, get_or, set, get_or-set_self, some,
}
use hyperkit.Base.Bits.Words.{has}
use hyperkit.Virtio.Memory.{Queue}
use hyperkit.Virtio.Used.{Softc, vq_ring_ready}
use hyperkit.Virtio.Device.{find_cr, search_loop}
use hyperkit.Virtio.Registers.{Consts, no_queue, all_ones, update, vq_init, is_own}
use hyperkit.Virtio.Accesses.{
  result, read_reg, read_common, bar_read, pci_read, write_reg, write_common, bar_write, pci_write,
}
use hyperkit.Virtio.Session.{writing, step, run, after_write}

module _ (c : Consts) (io : c.msix_bar 0 ≡ false) where
  common : (t : Softc) (offset size : ℕ) → offset < 20 → is_own c t offset size ≡ false
  unfolding is_own
  common t offset size h = ground arith

  common_read :
      (t : Softc) (offset size : ℕ)
      → offset < 20
      → pci_read c 0 offset size t
        ≡ some (read_common c (find_cr offset) offset size (all_ones size) t)
  unfolding pci_read bar_read
  common_read t offset size h = rw (io, common t offset size h) refl

  common_write :
      (t : Softc) (offset size value : ℕ)
      → offset < 20
      → step c (writing 0 offset size value) t ≡ write_common c (find_cr offset) offset size value t
  unfolding step after_write pci_write bar_write
  common_write t offset size value h = rw (io, common t offset size h) refl

  select : (v : ℕ) (t : Softc) → step c (writing 0 14 2 v) t ≡ record t { curq = v }
  unfolding write_common write_reg find_cr search_loop
  select v t = common_write t 14 2 v (omega arith)

  place :
      (p : ℕ) (t : Softc)
      → step c (writing 0 8 4 p) t
        ≡ (if ltb t.curq c.nvq then update t (vq_init c (p % 2 ^ 32)) else t)
  unfolding write_common write_reg find_cr search_loop
  place p t = common_write t 8 4 p (omega arith)

  module _ (s : Softc) (v : ℕ) where
    -- The guest may select any queue; the number of places that it then reads is that of the queue,
    -- or 0 if the device has no such queue (BAR 0 does not hold the MSI-X table).
    pub qnum-qsel :
        pci_read c 0 12 2 (step c (writing 0 14 2 v) s)
        ≡ some (
            result
              (if ltb v c.nvq then (get_or s.queues v no_queue).qsize else 0)
              (record s { curq = v }))
    unfolding read_common read_reg find_cr search_loop
    qnum-qsel =
        ap (pci_read c 0 12 2) (select v s) ∙ common_read (record s { curq = v }) 12 2 (omega arith)

    -- The device after the guest has selected queue v and given its page frame.
    abbrev pub placed : ℕ → Softc
    placed p = run c (writing 0 14 2 v ∷ writing 0 8 4 p ∷ []) s

    placed_lem :
        (p : ℕ)
        → placed p ≡ (
            if ltb v c.nvq
            then update (record s { curq = v }) (vq_init c (p % 2 ^ 32))
            else record s { curq = v })
    unfolding run
    placed_lem p = ap (step c (writing 0 8 4 p)) (select v s) ∙ place p (record s { curq = v })

    abbrev ready_queue : ℕ → Queue
    ready_queue p = vq_init c p (get_or s.queues v no_queue)

    abbrev filled : ℕ → Softc
    filled p = record s { curq = v; queues = set s.queues v (ready_queue p) }

    placed-filled : (p : ℕ) → v < c.nvq → p < 2 ^ 32 → placed p ≡ filled p
    placed-filled p hv hp =
        placed_lem p
        ∙ rw (lt→ltb v c.nvq hv)
            (ap (λ n. update (record s { curq = v }) (vq_init c n)) {y = p} (omega arith))

    own_queue : (p : ℕ) → v < length s.queues → get_or (filled p).queues v no_queue ≡ ready_queue p
    own_queue p h = get_or-set_self s.queues v (ready_queue p) no_queue h

    read_pfn :
        (p : ℕ)
        → v < c.nvq
        → v < length s.queues
        → pci_read c 0 8 4 (filled p) ≡ some (result p (filled p))
    unfolding read_common read_reg find_cr search_loop vq_init
    read_pfn p hv hl =
        common_read (filled p) 8 4 (omega arith)
        ∙ rw (lt→ltb v c.nvq hv)
            (ap (λ (q : Queue). some (result q.pfn (filled p))) (own_queue p hl))

    -- A page frame of 32 bits that the guest gives a queue of the device makes the queue ready, reads
    -- back, and leaves every other queue (BAR 0 does not hold the MSI-X table, and there is a record
    -- for each queue of the device).
    pub pfn-placed :
        (p : ℕ)
        → v < c.nvq
        → c.nvq ≤ length s.queues
        → p < 2 ^ 32
        → (pci_read c 0 8 4 (placed p) ≡ some (result p (placed p)))
          × ((vq_ring_ready (get_or (placed p).queues v no_queue) ≡ true)
              × ((w : ℕ)
                  → v ≢ w
                  → get_or (placed p).queues w no_queue ≡ get_or s.queues w no_queue))
    unfolding vq_ring_ready vq_init has
    pfn-placed p hv hl hp =
        subst
          (λ (t : Softc).
            (pci_read c 0 8 4 t ≡ some (result p t))
            × ((vq_ring_ready (get_or t.queues v no_queue) ≡ true)
                × ((w : ℕ) → v ≢ w → get_or t.queues w no_queue ≡ get_or s.queues w no_queue)))
          (sym (placed-filled p hv hp))
          (
            read_pfn p hv (omega arith),
            (
              ap vq_ring_ready (own_queue p (omega arith)),
              λ w ne. get_or-set_ne s.queues v w (ready_queue p) no_queue ne,
            ),
          )
