-- ===== src/Vlapic/Reset.antt =====
-- The identity of the local APIC in src/lib/vmm/io/vlapic.c, its trigger modes and its reset.
use hyperkit.Base.{
  ℕ, zero, suc, ◌+◌, ◌*◌, ◌%◌, ◌^◌, Bool, false, List, [], ◌∷◌, if◌then◌else◌, bit_and, bit_or,
  ◌==◌,
}
use hyperkit.Base.Bits.Words.{has, clear}
use hyperkit.Vlapic.Vectors.{add_vector, drop_vector}
use hyperkit.Vlapic.State.{Vlapic}
use hyperkit.Vlapic.Sources.{mask_lvts}

unfoldable pub x2apic : Vlapic → Bool
x2apic v = has v.msr_apicbase 0x400

unfoldable pub get_id : Vlapic → ℕ
get_id v = if x2apic v then v.vcpuid else v.vcpuid * 2 ^ 24 % 2 ^ 32

unfoldable pub x2apic_ldr : Vlapic → ℕ
x2apic_ldr v =
    let apicid = get_id v in
    bit_or (2 ^ bit_and apicid 0xf) (bit_and apicid 0xffff0 * 2 ^ 12 % 2 ^ 32)

-- A write of the DFR, and of the LDR, with its handler.
unfoldable pub dfr_write : ℕ → Vlapic → Vlapic
dfr_write value v = record v {
  dfr = if x2apic v then 0 else bit_or (bit_and (value % 2 ^ 32) 0xf0000000) 0x0fffffff;
}

unfoldable pub ldr_write : ℕ → Vlapic → Vlapic
ldr_write value v = record v {
  ldr = if x2apic v then x2apic_ldr v else clear 32 (value % 2 ^ 32) 0x00ffffff;
}

-- vlapic_set_tmr on the TMR registers, with no `ops.set_tmr`.
unfoldable pub set_tmr : ℕ → Bool → List ℕ → List ℕ
set_tmr vector level tmr = if level then add_vector tmr vector else drop_vector tmr vector

-- The loop of vlapic_reset_tmr: n vectors to go, from a vector on.
unfoldable pub tmr_loop : ℕ → ℕ → List ℕ → List ℕ
tmr_loop zero vector tmr = tmr
tmr_loop (suc n) vector tmr = tmr_loop n (vector + 1) (set_tmr vector false tmr)

unfoldable pub reset_tmr : Vlapic → Vlapic
reset_tmr v = record v { tmr = tmr_loop 256 0 v.tmr }

abbrev pub no_vectors : List ℕ
no_vectors = 0 ∷ 0 ∷ 0 ∷ 0 ∷ 0 ∷ 0 ∷ 0 ∷ 0 ∷ []

abbrev no_lvts : List ℕ
no_lvts = 0 ∷ 0 ∷ 0 ∷ 0 ∷ 0 ∷ 0 ∷ 0 ∷ []

-- vlapic_reset, apart from the frequency of the timer and the boot state.
unfoldable pub reset : Vlapic → Vlapic
reset v =
    let cleared = record v {
      id = get_id v;
      tpr = 0;
      ppr = 0;
      ldr = 0;
      dfr = 0xffffffff;
      svr = 0xff;
      isr = no_vectors;
      tmr = no_vectors;
      irr = no_vectors;
      esr = 0;
      icr_lo = 0;
      icr_hi = 0;
      lvt = no_lvts;
      icr_timer = 0;
      dcr_timer = 0;
    } in
    record (reset_tmr (mask_lvts cleared)) { svr_last = 0xff }

-- What calloc leaves, with the base that vlapic_init sets.
abbrev allocated : ℕ → Vlapic
allocated vcpu = record {
  vcpuid = vcpu;
  msr_apicbase = bit_or 0xfee00800 (if vcpu == 0 then 0x100 else 0);
  id = 0;
  tpr = 0;
  ppr = 0;
  ldr = 0;
  dfr = 0;
  svr = 0;
  isr = no_vectors;
  tmr = no_vectors;
  irr = no_vectors;
  esr = 0;
  icr_lo = 0;
  icr_hi = 0;
  lvt = no_lvts;
  icr_timer = 0;
  dcr_timer = 0;
  esr_pending = 0;
  esr_firing = false;
  callout = false;
  isrvec_stk = [];
  svr_last = 0;
  lvt_last = no_lvts;
  signals = [];
}

unfoldable pub init : ℕ → Vlapic
init vcpu = reset (allocated vcpu)

-- vlapic_set_x2apic_state, for `X2APIC_ENABLED` or not.
unfoldable pub set_x2apic_state : Bool → Vlapic → Vlapic
set_x2apic_state enable v =
    let based = record v {
      msr_apicbase = if enable then bit_or v.msr_apicbase 0x400 else clear 64 v.msr_apicbase 0x400;
    } in
    record based {
      id = get_id based;
      ldr = if x2apic based then x2apic_ldr based else 0;
      dfr = if x2apic based then 0 else 0xffffffff;
    }
