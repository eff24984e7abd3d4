-- ===== src/Virtio/Memory.antt =====
-- The rings of a virtio queue that src/lib/virtio.c shares with the guest, as one snapshot of the
-- guest's memory, and the fields of `struct vqueue_info`.
use hyperkit.Base.{ℕ, ◌+◌, ◌-◌, ◌^◌, ◌%◌, List, Option}

-- `struct virtio_desc`
pub record Desc : Type 0 where
  pub addr : ℕ
  pub len : ℕ
  pub flags : ℕ
  pub next : ℕ

-- `struct virtio_used`
pub record UsedElem : Type 0 where
  pub idx : ℕ
  pub tlen : ℕ

-- What the guest has put into memory: the descriptor table, the available ring with its flags,
-- index and entries (the used-event index follows the last one), and the table at an address and a
-- length, to which paddr_guest2host gives access; `none` is its `NULL`, for a place outside the
-- guest's memory.
pub record Guest : Type 0 where
  pub desc : ℕ → Desc
  pub va_flags : ℕ
  pub va_idx : ℕ
  pub va_ring : ℕ → ℕ
  pub table_at : ℕ → ℕ → Option (ℕ → Desc)

-- `struct vqueue_info` with the used ring that the device writes; `pfn` is `vq_pfn`.
pub record Queue : Type 0 where
  pub qsize : ℕ
  pub flags : ℕ
  pub last_avail : ℕ
  pub save_used : ℕ
  pub msix_idx : ℕ
  pub pfn : ℕ
  pub vu_idx : ℕ
  pub vu_ring : List UsedElem

-- `uint16_t` subtraction, and the same on `u_int` cut to 16 bits
abbrev pub sub16 : ℕ → ℕ → ℕ
sub16 a b = (a + 2 ^ 16 - b) % 2 ^ 16

-- What _vq_record keeps of a descriptor: the buffer's guest address, its length, and its flags.
pub record Segment : Type 0 where
  pub base : ℕ
  pub len : ℕ
  pub flags : ℕ

abbrev pub segment : Desc → Segment
segment d = record { base = d.addr; len = d.len; flags = d.flags }

-- The vector `iov` of a caller, with its size: the array and what stands behind it in the host's
-- memory, by the index from the array on.
pub record Vector : Type 0 where
  pub n_iov : ℕ
  pub cells : ℕ → Segment
