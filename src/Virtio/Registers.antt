-- ===== src/Virtio/Registers.antt =====
-- The register accesses of the guest to a virtio device: vi_reset_dev, vi_vq_init, vi_pci_read and
-- vi_pci_write of src/lib/virtio.c. The callbacks of `struct virtio_consts` are fields of a record.
use hyperkit.Base.{
  ℕ, ◌+◌, ◌-◌, ◌*◌, ◌%◌, ◌^◌, Bool, not, ◌&&◌, ◌||◌, List, [], ltb, leb, ◌==◌, if◌then◌else◌,
  get_or, set, Option,
}
use mathlib.Core.List.{map}
use hyperkit.Virtio.Memory.{Queue, UsedElem}
use hyperkit.Virtio.Used.{lintr_deassert, Softc, signal}
use hyperkit.Virtio.Device.{used_offset}

-- The result of `vc_cfgread`: its error flag, the value that it leaves, and the device.
pub record CfgRead : Type 0 where
  pub failed : Bool
  pub value : ℕ
  pub device : Softc

-- The result of `vc_cfgwrite`.
pub record CfgWrite : Type 0 where
  pub failed : Bool
  pub device : Softc

-- `struct virtio_consts`, with `vq_notify` of each queue, and what the accesses use of pci_emul.c: the
-- BARs that hold the MSI-X table or its pending bits (none without VIRTIO_USE_MSIX), and accesses to
-- them. What the used ring at an address of the
-- guest's memory holds, its index and its entries, is `used_idx_at` and `used_ring_at`.
pub record Consts : Type 0 where
  pub nvq : ℕ
  pub cfgsize : ℕ
  pub hv_caps : ℕ
  pub reset : Softc → Softc
  pub qnotify : Option (ℕ → Softc → Softc)
  pub vq_notify : ℕ → Option (Softc → Softc)
  pub cfgread : ℕ → ℕ → ℕ → Softc → CfgRead
  pub cfgwrite : ℕ → ℕ → ℕ → Softc → CfgWrite
  pub apply_features : Option (ℕ → Softc → Softc)
  pub msix_bar : ℕ → Bool
  pub msix_tread : ℕ → ℕ → ℕ
  pub msix_twrite : ℕ → ℕ → ℕ → Softc → Softc
  pub used_idx_at : ℕ → ℕ
  pub used_ring_at : ℕ → ℕ → List UsedElem

-- `VIRTIO_MSI_NO_VECTOR`
abbrev pub no_vector : ℕ
no_vector = 0xffff

abbrev pub reset_queue : Queue → Queue
reset_queue q = record q { flags = 0; last_avail = 0; save_used = 0; pfn = 0; msix_idx = no_vector }

-- The list `queues` has the nvq queues of the device.
unfoldable pub reset_dev : Softc → Softc
reset_dev s =
    let quiet = if s.isr == 0 then s else signal lintr_deassert s in
    record quiet {
      queues = map reset_queue s.queues;
      negotiated_caps = 0;
      curq = 0;
      isr = 0;
      msix_cfg_idx = no_vector;
    }

-- The queue that is read where the list has none; the accesses below check the index first.
abbrev pub no_queue : Queue
no_queue = record {
  qsize = 0;
  flags = 0;
  last_avail = 0;
  save_used = 0;
  msix_idx = 0;
  pfn = 0;
  vu_idx = 0;
  vu_ring = [];
}

abbrev pub selected : Softc → Queue
selected s = get_or s.queues s.curq no_queue

abbrev pub update : Softc → (Queue → Queue) → Softc
update s f = record s { queues = set s.queues s.curq (f (selected s)) }

-- `VRING_PFN` is 12, and the queue's memory begins at a page. `VQ_ALLOC` is 1.
unfoldable pub vq_init : Consts → ℕ → Queue → Queue
vq_init c pfn q =
    let used = pfn * 2 ^ 12 % 2 ^ 64 + used_offset q.qsize in
    record q {
      pfn = pfn;
      flags = 1;
      last_avail = 0;
      save_used = 0;
      vu_idx = c.used_idx_at used;
      vu_ring = c.used_ring_at used q.qsize;
    }

-- Where the device's own registers begin: `VTCFG_R_CFG1` or `VTCFG_R_CFG0`.
abbrev pub virtio_config_size : Softc → ℕ
virtio_config_size s = if s.msix_enabled then 24 else 20

abbrev pub valid_size : ℕ → Bool
valid_size size = size == 1 || size == 2 || size == 4

abbrev pub newoff : Softc → ℕ → ℕ
newoff s offset = (offset - virtio_config_size s) % 2 ^ 32

abbrev max : Consts → ℕ
max c = if c.cfgsize == 0 then 0x100000000 else c.cfgsize

-- The access is to the device's own registers, and within them.
unfoldable pub is_own : Consts → Softc → ℕ → ℕ → Bool
is_own c s offset size =
    valid_size size
    && leb (virtio_config_size s) offset
    && not (ltb (max c) ((newoff s offset + size) % 2 ^ 32))

abbrev pub all_ones : ℕ → ℕ
all_ones size = if size == 1 then 0xff else if size == 2 then 0xffff else 0xffffffff

-- The value that the guest reads, and the device after that.
pub record Read : Type 0 where
  pub value : ℕ
  pub device : Softc
