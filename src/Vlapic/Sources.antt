-- ===== src/Vlapic/Sources.antt =====
-- The requests of the local APIC in src/lib/vmm/io/vlapic.c: from other parts, from the local vector
-- table and for errors.
use hyperkit.Base.{
  ℕ, zero, suc, ◌%◌, ◌^◌, Bool, true, false, not, ◌&&◌, ◌||◌, ltb, ◌==◌, if◌then◌else◌, get_or, set,
  bit_and, bit_or, bit_xor, Option, none, some,
}
use hyperkit.Base.Bits.Words.{has}
use hyperkit.Vlapic.Vectors.{add_vector}
use hyperkit.Vlapic.State.{Vlapic, notified, nmi, extint, send}

-- The local vector table, in the order of `APIC_LVT_LINT0` to `APIC_LVT_CMCI`.
pub data Lvt : Type 0 where
  lint0 : Lvt
  lint1 : Lvt
  timer : Lvt
  error : Lvt
  pmc : Lvt
  thermal : Lvt
  cmci : Lvt

unfoldable pub lvt_index : Lvt → ℕ
lvt_index lint0 = 0
lvt_index lint1 = 1
lvt_index timer = 2
lvt_index error = 3
lvt_index pmc = 4
lvt_index thermal = 5
lvt_index cmci = 6

-- `APIC_SVR_ENABLE`
abbrev pub svr_enabled : ℕ → Bool
svr_enabled svr = has svr 0x100

-- A state, and whether the call reports that it has done something.
pub record Ready : Type 0 where
  pub ready : Bool
  pub apic : Vlapic

-- vlapic_set_intr_ready, with no `ops.set_intr_ready`; `report` is vlapic_set_error.
unfoldable pub set_intr_ready : (ℕ → Vlapic → Vlapic) → ℕ → Vlapic → Ready
set_intr_ready report vector v =
    if not (svr_enabled v.svr)
    then record { ready = false; apic = v }
    else if ltb vector 16
    then record { ready = true; apic = report 0x40 v }
    else record { ready = true; apic = record v { irr = add_vector v.irr vector } }

-- vlapic_fire_lvt
unfoldable pub fire_lvt : (ℕ → Vlapic → Vlapic) → ℕ → Vlapic → Ready
fire_lvt report lvt v =
    let vec = bit_and lvt 0xff in
    let mode = bit_and lvt 0x700 in
    let r = set_intr_ready report vec v in
    if has lvt 0x10000
    then record { ready = false; apic = v }
    else if mode == 0
    then (if ltb vec 16
        then record { ready = false; apic = report 0x20 v }
        else record { ready = true; apic = if r.ready then send notified r.apic else r.apic })
    else if mode == 0x400
    then record { ready = true; apic = send nmi v }
    else if mode == 0x700
    then record { ready = true; apic = send extint v }
    else record { ready = false; apic = v }

unfoldable pub get_lvt : Vlapic → Lvt → ℕ
get_lvt v l = get_or v.lvt_last (lvt_index l) 0

-- The body of vlapic_set_error, which vlapic_fire_lvt calls again.
unfoldable pub set_error_body : (ℕ → Vlapic → Vlapic) → ℕ → Vlapic → Vlapic
set_error_body report mask v =
    let pending = record v { esr_pending = bit_or v.esr_pending mask } in
    let fired = (fire_lvt report (get_lvt v error) (record pending { esr_firing = true })).apic in
    if v.esr_firing then pending else record fired { esr_firing = false }

-- vlapic_set_error on fuel. While one error is reported another one is noted alone.
unfoldable pub set_error_depth : ℕ → ℕ → Vlapic → Vlapic
set_error_depth zero mask v = v
set_error_depth (suc fuel) mask v = set_error_body (set_error_depth fuel) mask v

unfoldable pub set_error : ℕ → Vlapic → Vlapic
set_error mask v = set_error_depth 2 mask v

-- A timer's request, and a corrected machine check's.
unfoldable pub fire_timer : Vlapic → Vlapic
fire_timer v = (fire_lvt set_error (get_lvt v timer) v).apic

unfoldable pub fire_cmci : Vlapic → Vlapic
fire_cmci v = (fire_lvt set_error (get_lvt v cmci) v).apic

-- `APICBASE_ENABLED`
unfoldable pub enabled : Vlapic → Bool
enabled v = has v.msr_apicbase 0x800 && svr_enabled v.svr

-- vlapic_trigger_lvt for one of the numbers of the table.
unfoldable pub trigger_lvt : Vlapic → Lvt → Vlapic
trigger_lvt v l =
    let disabled : Vlapic = elim l [ lint0 ↦ send extint v | lint1 ↦ send nmi v | _ ↦ v ] in
    if enabled v then (fire_lvt set_error (get_lvt v l) v).apic else disabled

-- The bits of a register of the table that a write can set.
unfoldable pub lvt_mask : Lvt → ℕ
lvt_mask timer = 0x310ff
lvt_mask error = 0x110ff
lvt_mask lint0 = 0x1f7ff
lvt_mask lint1 = 0x1f7ff
lvt_mask pmc = 0x117ff
lvt_mask thermal = 0x117ff
lvt_mask cmci = 0x117ff

-- vlapic_lvt_write_handler: the register, which has been written, and its copy are made valid.
unfoldable pub lvt_write_handler : Lvt → Vlapic → Vlapic
lvt_write_handler l v =
    let written = get_or v.lvt (lvt_index l) 0 in
    let val =
      bit_and (if svr_enabled v.svr then written else bit_or written 0x10000) (lvt_mask l) in
    record v { lvt = set v.lvt (lvt_index l) val; lvt_last = set v.lvt_last (lvt_index l) val }

unfoldable pub mask_lvt : Lvt → Vlapic → Vlapic
mask_lvt l v =
    lvt_write_handler l
      (record v { lvt = set v.lvt (lvt_index l) (bit_or (get_or v.lvt (lvt_index l) 0) 0x10000) })

unfoldable pub mask_lvts : Vlapic → Vlapic
mask_lvts v = mask_lvt error (
    mask_lvt lint1
      (mask_lvt lint0 (mask_lvt pmc (mask_lvt thermal (mask_lvt timer (mask_lvt cmci v))))))

unfoldable pub esr_write_handler : Vlapic → Vlapic
esr_write_handler v = record v { esr = v.esr_pending; esr_pending = 0 }

-- lapic_set_intr for this local APIC, or `none` for `EINVAL`.
unfoldable pub set_intr : Vlapic → ℕ → Option Vlapic
set_intr v vector =
    let r = set_intr_ready set_error vector v in
    if ltb vector 16 || ltb 255 vector
    then none
    else some (if r.ready then send notified r.apic else r.apic)

-- A write of a register of the table, which vlapic_write stores first.
unfoldable pub lvt_write : Lvt → ℕ → Vlapic → Vlapic
lvt_write l value v =
    lvt_write_handler l (record v { lvt = set v.lvt (lvt_index l) (value % 2 ^ 32) })

-- vlapic_icrtmr_write_handler, apart from the time at which the timer fires.
unfoldable pub icrtmr_write_handler : Vlapic → Vlapic
icrtmr_write_handler v = record v { callout = not (v.icr_timer == 0) }

-- A write of the SVR with vlapic_svr_write_handler.
unfoldable pub svr_write : ℕ → Vlapic → Vlapic
svr_write value v =
    let new = value % 2 ^ 32 in
    let stored = record v { svr = new; svr_last = new } in
    let enables =
      if has (get_lvt stored timer) 0x20000 then icrtmr_write_handler stored else stored in
    if has (bit_xor v.svr_last new) 0x100
    then (if has new 0x100 then enables else mask_lvts (record stored { callout = false }))
    else stored
