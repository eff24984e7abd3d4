-- ===== src/Virtio/Accesses.antt =====
-- vi_pci_read and vi_pci_write of src/lib/virtio.c. The value of a write fits its size, since
-- emulate_inout of src/lib/inout.c masks it, and an offset lies in the BAR, so that it is the same as
-- an `int`.
use hyperkit.Base.{
  ℕ, ◌%◌, ◌^◌, not, ◌||◌, ltb, leb, ◌==◌, if◌then◌else◌, bit_and, Option, none, some,
}
use hyperkit.Virtio.Memory.{Queue}
use hyperkit.Virtio.Used.{lintr_deassert, Softc, signal}
use hyperkit.Virtio.Device.{ConfigReg, find_cr}
use hyperkit.Virtio.Registers.{
  Consts, no_vector, selected, update, vq_init, is_own, newoff, all_ones, Read,
}

abbrev pub result : ℕ → Softc → Read
result v s = record { value = v; device = s }

-- A read of the interrupt status clears it.
unfoldable pub read_isr : Softc → Read
read_isr s =
    let cleared = record s { isr = 0 } in
    result s.isr (if s.isr == 0 then cleared else signal lintr_deassert cleared)

-- The switch of vi_pci_read; `value` is what it holds before.
unfoldable pub read_reg : Consts → ℕ → ℕ → Softc → Read
read_reg c offset value s =
    let valid = ltb s.curq c.nvq in
    if offset == 0
    then result (c.hv_caps % 2 ^ 32) s
    else if offset == 4
    then result s.negotiated_caps s
    else if offset == 8
    then result (if valid then (selected s).pfn else value) s
    else if offset == 12
    then result (if valid then (selected s).qsize else 0) s
    else if offset == 14
    then result s.curq s
    else if offset == 16
    then result 0 s
    else if offset == 18
    then result s.status s
    else if offset == 19
    then read_isr s
    else if offset == 20
    then result s.msix_cfg_idx s
    else if offset == 22
    then result (if valid then (selected s).msix_idx else no_vector) s
    else result value s

-- From the label `bad` on.
unfoldable pub read_common : Consts → Option ConfigReg → ℕ → ℕ → ℕ → Softc → Read
read_common c none offset size value s = result value s
read_common c (some cr) offset size value s =
    if not (cr.size == size) then result value s else read_reg c offset value s

unfoldable pub bar_read : Consts → ℕ → ℕ → Softc → Read
bar_read c offset size s =
    let cr = find_cr offset in
    let own = c.cfgread (newoff s offset) size (all_ones size) s in
    if not (is_own c s offset size)
    then read_common c cr offset size (all_ones size) s
    else if own.failed
    then read_common c cr offset size own.value own.device
    else result own.value own.device

-- `none` where the assertion on the BAR fails.
unfoldable pub pci_read : Consts → ℕ → ℕ → ℕ → Softc → Option Read
pci_read c baridx offset size s =
    if c.msix_bar baridx
    then some (result (c.msix_tread offset size) s)
    else if baridx == 0
    then some (bar_read c offset size s)
    else none

unfoldable pub apply : Option (ℕ → Softc → Softc) → ℕ → Softc → Softc
apply none v s = s
apply (some f) v s = f v s

unfoldable pub notify : Consts → Option (Softc → Softc) → ℕ → Softc → Softc
notify c (some f) value s = f s
notify c none value s = apply c.qnotify value s

-- The switch of vi_pci_write.
unfoldable pub write_reg : Consts → ℕ → ℕ → Softc → Softc
write_reg c offset value s =
    let valid = ltb s.curq c.nvq in
    if offset == 4
    then (let caps = bit_and value c.hv_caps % 2 ^ 32 in
        apply c.apply_features caps (record s { negotiated_caps = caps }))
    else if offset == 8
    then if valid then update s (vq_init c (value % 2 ^ 32)) else s
    else if offset == 14
    then record s { curq = value }
    else if offset == 16
    then if leb c.nvq value then s else notify c (c.vq_notify value) value s
    else if offset == 18
    then (let stored = record s { status = value % 2 ^ 8 } in
        if value == 0 then c.reset stored else stored)
    else if offset == 20
    then record s { msix_cfg_idx = value % 2 ^ 16 }
    else if offset == 22
    then if valid then update s (λ (q : Queue). record q { msix_idx = value % 2 ^ 16 }) else s
    else s

unfoldable pub write_common : Consts → Option ConfigReg → ℕ → ℕ → ℕ → Softc → Softc
write_common c none offset size value s = s
write_common c (some cr) offset size value s =
    if not (cr.size == size) || cr.ro then s else write_reg c offset value s

unfoldable pub bar_write : Consts → ℕ → ℕ → ℕ → Softc → Softc
bar_write c offset size value s =
    let cr = find_cr offset in
    let own = c.cfgwrite (newoff s offset) size (value % 2 ^ 32) s in
    if not (is_own c s offset size)
    then write_common c cr offset size value s
    else if own.failed
    then write_common c cr offset size value own.device
    else own.device

unfoldable pub pci_write : Consts → ℕ → ℕ → ℕ → ℕ → Softc → Option Softc
pci_write c baridx offset size value s =
    if c.msix_bar baridx
    then some (c.msix_twrite offset size value s)
    else if baridx == 0
    then some (bar_write c offset size value s)
    else none
