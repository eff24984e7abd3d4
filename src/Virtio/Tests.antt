-- ===== src/Virtio/Tests.antt =====
-- Runs of the virtio rings and registers, and the theorems about src/lib/virtio.c at inputs.
use hyperkit.Base.{
  ℕ, ◌+◌, ◌*◌, ◌%◌, ◌^◌, ◌≤◌, ◌≡◌, ◌≢◌, ◌↔◌, refl, true, false, List, [], ◌∷◌, arith, ◌==◌,
  if◌then◌else◌, Bool, ◌&&◌, Option, get_or, replicate, some, none,
}
use hyperkit.Base.Tests.{all_below}
use hyperkit.Base.Bits.Words.{has, clear}
use hyperkit.Virtio.Memory.{Desc, UsedElem, Guest, Queue, Segment, Vector, segment}
use hyperkit.Virtio.Getchain.{
  Walk, ended, refused, null_table, out_of_fuel, vq_record, indirect_loop, enter, visit, proceed,
  chain_loop, getchain,
}
use hyperkit.Virtio.Accepted.{IsReturned, getchain_returns}
use hyperkit.Virtio.Used.{Softc, vq_ring_ready, used_elem, retchain, wants_intr, vq_interrupt}
use hyperkit.Virtio.UsedRing.{relchains, get_or-relchains}
use hyperkit.Virtio.Interrupts.{IsPassed, wants_intr_iff, retchain-getchain}
use hyperkit.Virtio.Device.{
  config_regs, returns, search_loop, find_cr, avail_offset, used_offset, vring_size,
}
use hyperkit.Virtio.Registers.{Consts, reset_dev, no_queue}
use hyperkit.Virtio.Accesses.{result, apply, notify, pci_read}
use hyperkit.Virtio.Layout.{used_offset_lem, lookup, find_cr-lookup}
use hyperkit.Virtio.Line.{is_up, IsLined, reset_dev-IsLined, vq_interrupt-IsLined}
use hyperkit.Virtio.Session.{Keeps, Event, reading, writing, ending, run, run-IsLined}
use hyperkit.Virtio.Setup.{placed, pfn-placed}

abbrev desc : ℕ → ℕ → ℕ → ℕ → Desc
desc a l f n = record { addr = a; len = l; flags = f; next = n }

-- One request: descriptor 0 is a buffer, and descriptor 1 stands for a table of two.
abbrev guest : Guest
guest = record {
  desc = λ i. if i == 0 then desc 0x1000 16 1 1 else desc 0x2000 32 4 0;
  va_flags = 0;
  va_idx = 1;
  va_ring = λ i. 0;
  table_at = λ a l. some (λ i. if i == 0 then desc 0x3000 512 1 1 else desc 0x4000 1 2 0);
}

abbrev queue : Queue
queue = record {
  qsize = 4;
  flags = 1;
  last_avail = 0;
  save_used = 0;
  msix_idx = 0;
  pfn = 5;
  vu_idx = 0;
  vu_ring = replicate 4 (used_elem 0 0);
}

abbrev blank : Segment
blank = segment (desc 0 0 0 0)

-- A vector with room for two of the three segments.
abbrev room : Vector
room = record { n_iov = 2; cells = λ k. blank }

abbrev filled : Vector
filled = record {
  n_iov = 2;
  cells = λ k.
      if k == 0
      then segment (desc 0x1000 16 1 1)
      else if k == 1
      then segment (desc 0x3000 512 1 1)
      else blank;
}

abbrev same_segment : Segment → Segment → Bool
same_segment s t = s.base == t.base && s.len == t.len && s.flags == t.flags

unfoldable same_cell : Option Segment → Segment → Bool
same_cell none t = false
same_cell (some s) t = same_segment s t

-- A place of the vector after a walk that ended.
unfoldable cell_of : Walk → ℕ → Option Segment
cell_of (ended n out) k = some (out.cells k)
cell_of refused k = none
cell_of null_table k = none
cell_of out_of_fuel k = none

getchain_run :
    all_below 4 (λ k. same_cell (cell_of (getchain guest true queue room).walk k) (filled.cells k))
    ≡ true
unfolding all_below cell_of same_cell getchain chain_loop proceed visit enter indirect_loop
    vq_record has
getchain_run = refl

-- Descriptor 0 names itself.
abbrev looping : Guest
looping = record guest { desc = λ i. desc 0x1000 16 1 0 }

getchain_returns_example : IsReturned (getchain looping true queue room).walk
getchain_returns_example =
    getchain_returns looping true queue room (record { found = λ k h e f. cc })

-- With no table in the guest's memory the walk reads through `NULL`.
null_table_run :
    (getchain (record guest { table_at = λ a l. none }) true queue room).walk ≡ null_table
unfolding getchain chain_loop proceed visit enter vq_record has
null_table_run = refl

retchain-getchain_example : retchain (getchain guest true queue room).queue ≡ queue
unfolding getchain
retchain-getchain_example = retchain-getchain guest true queue room (omega arith) (λ e. cc)

-- The indices are about to wrap around.
abbrev late : Queue
late = record queue { vu_idx = 0xffff; save_used = 0xfffe }

abbrev batch : List UsedElem
batch = used_elem 7 100 ∷ used_elem 8 200 ∷ []

get_or-relchains_example :
    get_or (relchains late batch).vu_ring ((0xffff + 1) % 2 ^ 2) (used_elem 0 0) ≡ used_elem 8 200
get_or-relchains_example =
    get_or-relchains 2 (omega arith) (used_elem 0 0) batch late 1
      (record { size = refl; room = refl }) (omega arith) (omega arith)

-- With VIRTIO_RING_F_EVENT_IDX the guest asks for index 0xffff.
abbrev waiting_guest : Guest
waiting_guest = record guest { va_ring = λ i. 0xffff }

abbrev passed : Queue
passed = record late { vu_idx = 1 }

wants_intr_iff_example :
    (wants_intr (2 ^ 29) waiting_guest passed true ≡ true) ↔ IsPassed 0xffff 0xfffe 1
unfolding has
wants_intr_iff_example =
    wants_intr_iff (2 ^ 29) waiting_guest passed true refl refl (omega arith) (omega arith)
      (omega arith)

abbrev device : Softc
device = record {
  negotiated_caps = 2 ^ 29;
  curq = 0;
  status = 7;
  isr = 0;
  msix_cfg_idx = 0;
  queues = queue ∷ [];
  msix_enabled = false;
  signals = [];
}

used_offset_lem_example :
    (avail_offset 256 + (2 + 256 + 1) * 2 ≤ used_offset 256)
    × ((used_offset 256 + (3 * 2 + 256 * 8) ≤ vring_size 256) × (used_offset 256 % 4096 ≡ 0))
used_offset_lem_example = used_offset_lem 256 (omega arith)

vring_size_run : vring_size 256 ≡ 12288
unfolding vring_size clear
vring_size_run = refl

find_cr-lookup_example :
    (search_loop 5 19 0 9 ≡ returns (lookup config_regs 19)) × (find_cr 19 ≡ lookup config_regs 19)
find_cr-lookup_example = find_cr-lookup 19

-- A device with one queue and no registers of its own, whose reset is vi_reset_dev and which ends its
-- work on a queue at once.
abbrev consts : Consts
consts = record {
  nvq = 1;
  cfgsize = 0;
  hv_caps = 2 ^ 29;
  reset = reset_dev;
  qnotify = some (λ (v : ℕ) (s : Softc). vq_interrupt s queue);
  vq_notify = λ v. none;
  cfgread = λ o n v s. record { failed = true; value = v; device = s };
  cfgwrite = λ o n v s. record { failed = true; device = s };
  apply_features = none;
  msix_bar = λ b. b == 1;
  msix_tread = λ o n. 0;
  msix_twrite = λ o n v s. s;
  used_idx_at = λ a. 0;
  used_ring_at = λ a n. replicate n (used_elem 0 0);
}

consts-Keeps : Keeps consts
unfolding apply notify
consts-Keeps = record {
  reset = λ s h. reset_dev-IsLined s h;
  qnotify = λ v s h. vq_interrupt-IsLined s queue h;
  notify = λ v s h. vq_interrupt-IsLined s queue h;
  cfgread = λ o n v s h. h;
  cfgwrite = λ o n v s h. h;
  apply_features = λ v s h. h;
  msix_twrite = λ o n v s h. h;
}

-- The guest notifies the queue, reads the interrupt status, and resets the device.
abbrev session : List Event
session =
    writing 0 16 2 0 ∷ ending waiting_guest passed true ∷ reading 0 19 1 ∷ writing 0 18 1 0 ∷ []

run-IsLined_example : IsLined (run consts session device)
unfolding IsLined is_up
run-IsLined_example = run-IsLined consts consts-Keeps session device refl

pfn-placed_example :
    (pci_read consts 0 8 4 (placed consts refl device 0 9)
      ≡ some (result 9 (placed consts refl device 0 9)))
    × ((vq_ring_ready (get_or (placed consts refl device 0 9).queues 0 no_queue) ≡ true)
        × ((w : ℕ)
            → 0 ≢ w
            → get_or (placed consts refl device 0 9).queues w no_queue
              ≡ get_or device.queues w no_queue))
pfn-placed_example = pfn-placed consts refl device 0 9 (omega arith) (omega arith) (omega arith)
