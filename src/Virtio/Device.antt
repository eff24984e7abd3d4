-- ===== src/Virtio/Device.antt =====
-- The registers of a virtio device: vi_reset_dev, vi_vq_init, vi_find_cr, vi_pci_read and
-- vi_pci_write of src/lib/virtio.c. The device's own parts, the callbacks of `struct virtio_consts`,
-- are fields of a record.
use hyperkit.Base.{
  ℕ, zero, suc, ◌+◌, ◌-◌, ◌*◌, ◌/◌, ◌%◌, ◌^◌, Bool, true, false, not, List, [], ◌∷◌, ltb, leb, ◌==◌,
  if◌then◌else◌, length, get_or, Option, none, some,
}
use hyperkit.Base.Bits.Words.{clear}

-- One entry of `config_regs`, without its name.
pub record ConfigReg : Type 0 where
  pub offset : ℕ
  pub size : ℕ
  pub ro : Bool

abbrev config_reg : ℕ → ℕ → Bool → ConfigReg
config_reg o n r = record { offset = o; size = n; ro = r }

abbrev pub config_regs : List ConfigReg
config_regs =
    config_reg 0 4 true
    ∷ config_reg 4 4 false
    ∷ config_reg 8 4 false
    ∷ config_reg 12 2 true
    ∷ config_reg 14 2 false
    ∷ config_reg 16 2 false
    ∷ config_reg 18 1 false
    ∷ config_reg 19 1 false
    ∷ config_reg 20 2 false
    ∷ config_reg 22 2 false
    ∷ []

-- How the search ends: it returns a register or, for `none`, `NULL`; or the fuel is used up, in the
-- model alone.
pub data Search : Type 0 where
  returns : Option ConfigReg → Search
  unfinished : Search

-- The loop of vi_find_cr on `u_int` bounds; the fuel bounds its rounds.
unfoldable pub search_loop : ℕ → ℕ → ℕ → ℕ → Search
search_loop zero offset lo hi = unfinished
search_loop (suc fuel) offset lo hi =
    let mid = (hi + lo) % 2 ^ 32 / 2 in
    let cr = get_or config_regs mid (config_reg 0 0 false) in
    let right = search_loop fuel offset (mid + 1) hi in
    let left = search_loop fuel offset lo ((mid + 2 ^ 32 - 1) % 2 ^ 32) in
    if not (leb lo hi)
    then returns none
    else if cr.offset == offset
    then returns (some cr)
    else if ltb cr.offset offset
    then right
    else left

abbrev pub returned : Search → Option ConfigReg
returned (returns r) = r
returned unfinished = none

-- The search takes five rounds at most, so that it is never unfinished.
unfoldable pub find_cr : ℕ → Option ConfigReg
find_cr offset = returned (search_loop 5 offset 0 (length config_regs - 1))

-- `roundup2`
abbrev roundup2 : ℕ → ℕ → ℕ
roundup2 x y = clear 64 (x + (y - 1)) (y - 1)

-- Where the parts of a queue lie, from its first byte on, and how much of memory it takes.
unfoldable pub avail_offset : ℕ → ℕ
avail_offset qsize = qsize * 16

unfoldable pub used_offset : ℕ → ℕ
used_offset qsize = roundup2 (avail_offset qsize + (2 + qsize + 1) * 2) 4096

unfoldable pub vring_size : ℕ → ℕ
vring_size qsz = roundup2 (roundup2 (16 * qsz + 2 * (3 + qsz)) 4096 + (2 * 3 + 8 * qsz)) 4096
