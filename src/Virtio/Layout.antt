-- ===== src/Virtio/Layout.antt =====
-- The memory of a queue and the search for a register, in src/lib/virtio.c: vi_vq_init against
-- vring_size of src/include/xhyve/virtio.h, and vi_find_cr against a search from the front.
use hyperkit.Base.{
  ℕ, ◌+◌, ◌-◌, ◌*◌, ◌/◌, ◌%◌, ◌^◌, ◌≤◌, ◌<◌, ◌≡◌, ap, ◌∙◌, List, [], ◌∷◌, leb, ◌==◌, arith,
  if◌then◌else◌, length, Option, none, some,
}
use hyperkit.Base.Bits.Laws.{bit, bit-ones, bit_ext}
use hyperkit.Base.Bits.Shifts.{bit-div, bit-mul}
use hyperkit.Base.Bits.Words.{clear, bit-clear}
use hyperkit.Virtio.Device.{
  ConfigReg, config_regs, returns, search_loop, find_cr, avail_offset, used_offset, vring_size,
}

-- The mask rounds up to a multiple of the page.
clear_page : (x : ℕ) → x < 2 ^ 64 → clear 64 x 4095 ≡ x / 4096 * 4096
clear_page x h = bit_ext _ _ (λ k.
    bit-clear 64 x 4095 k h
    ∙ ground
        (arith, bit-ones 12 k, bit-mul 12 (x / 4096) k, bit-div 12 x (k - 12), ap (bit x) (back k)))
  where
    back : (k : ℕ) → k - 12 + 12 ≡ (if leb 12 k then k else 12)
    back k = ground arith

abbrev page : ℕ → ℕ
page x = (x + 4095) / 4096 * 4096

used_page : (qsize : ℕ) → qsize < 2 ^ 16 → used_offset qsize ≡ page (qsize * 18 + 6)
unfolding avail_offset used_offset
used_page qsize h =
    ap (λ x. clear 64 x 4095) {y = qsize * 18 + 6 + 4095} (omega arith) ∙ clear_page _ (omega arith)

vring_page :
    (qsize : ℕ) → qsize < 2 ^ 16 → vring_size qsize ≡ page (page (qsize * 18 + 6) + (6 + 8 * qsize))
unfolding vring_size
vring_page qsize h =
    ap (λ x. clear 64 (x + (6 + 8 * qsize) + 4095) 4095)
      (ap (λ x. clear 64 x 4095) {y = qsize * 18 + 6 + 4095} (omega arith)
        ∙ clear_page _ (omega arith))
    ∙ clear_page _ (omega arith)

-- The parts of a queue of fewer than 2^16 places lie one after the other within the memory that
-- vring_size asks for, the available ring with its event index before the used ring and that, with
-- its event index, before the end, and the used ring begins at a page.
pub used_offset_lem :
    (qsize : ℕ)
    → qsize < 2 ^ 16
    → (avail_offset qsize + (2 + qsize + 1) * 2 ≤ used_offset qsize)
      × ((used_offset qsize + (3 * 2 + qsize * 8) ≤ vring_size qsize)
          × (used_offset qsize % 4096 ≡ 0))
unfolding avail_offset
used_offset_lem qsize h = (
  omega (arith, used_page qsize h),
  (omega (arith, used_page qsize h, vring_page qsize h), omega (arith, used_page qsize h)),
)

-- The first entry with the offset.
pub lookup : List ConfigReg → ℕ → Option ConfigReg
lookup [] offset = none
lookup (r ∷ rs) offset = if r.offset == offset then some r else lookup rs offset

-- The binary search returns the register at each offset, and `NULL` elsewhere, as a search from the
-- front of the table does, and its loop has ended by the test of its fifth round.
pub find_cr-lookup :
    (offset : ℕ)
    → (search_loop 5 offset 0 (length config_regs - 1) ≡ returns (lookup config_regs offset))
      × (find_cr offset ≡ lookup config_regs offset)
unfolding find_cr search_loop lookup
find_cr-lookup offset = (ground arith, ground arith)
