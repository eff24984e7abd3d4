-- ===== src/Vlapic/State.antt =====
-- The local APIC in src/lib/vmm/io/vlapic.c: its state, its priority, and an interrupt's way from the
-- request to the end.
use hyperkit.Base.{
  ℕ, zero, suc, ◌+◌, ◌*◌, ◌/◌, ◌%◌, ◌^◌, Bool, true, not, ◌&&◌, List, [], ◌∷◌, ◌++◌, ltb, leb, ◌==◌,
  if◌then◌else◌, length, bit_and, Option, none, some, ◌>>=◌,
}
use hyperkit.Vlapic.Vectors.{has_vector, add_vector, drop_vector, highest}

-- What the local APIC does outside of it: vioapic_process_eoi, vcpu_notify_event, vm_inject_nmi,
-- vm_inject_extint and vm_inject_gp.
pub data Signal : Type 0 where
  eoi_sent : ℕ → Signal
  notified : Signal
  nmi : Signal
  extint : Signal
  gp : Signal

-- `struct vlapic` with the registers of its page that change; `isrvec_stk` has the entries from 1 to
-- the top, and the LVT registers are in the order of their numbers, as in `lvt_last`. The signals are
-- those sent so far, the last one first.
pub record Vlapic : Type 0 where
  pub vcpuid : ℕ
  pub msr_apicbase : ℕ
  pub id : ℕ
  pub tpr : ℕ
  pub ppr : ℕ
  pub ldr : ℕ
  pub dfr : ℕ
  pub svr : ℕ
  pub isr : List ℕ
  pub tmr : List ℕ
  pub irr : List ℕ
  pub esr : ℕ
  pub icr_lo : ℕ
  pub icr_hi : ℕ
  pub lvt : List ℕ
  pub icr_timer : ℕ
  pub dcr_timer : ℕ
  pub esr_pending : ℕ
  pub esr_firing : Bool
  pub callout : Bool
  pub isrvec_stk : List ℕ
  pub svr_last : ℕ
  pub lvt_last : List ℕ
  pub signals : List Signal

abbrev pub send : Signal → Vlapic → Vlapic
send s v = record v { signals = s ∷ v.signals }

-- `PRIO`
abbrev pub prio : ℕ → ℕ
prio x = x / 16

-- `ISRVEC_STK_SIZE`
abbrev pub isrvec_stk_size : ℕ
isrvec_stk_size = 17

-- The entry at the top, after an entry d.
unfoldable pub last_or : ℕ → List ℕ → ℕ
last_or d [] = d
last_or d (w ∷ stk) = last_or w stk

-- The check that the priorities on the stack increase, from an entry that has to have the priority
-- `next` at least.
unfoldable pub increasing : ℕ → List ℕ → Bool
increasing next [] = true
increasing next (w ∷ stk) = leb next (prio w) && increasing (prio w + 1) stk

-- The check that each bit set in the ISR has its entry: n vectors to go, from the vector v on, and the
-- entries that are left.
unfoldable pub in_sync : ℕ → ℕ → List ℕ → List ℕ → Bool
in_sync zero v isr stk = true
in_sync (suc n) v isr [] = not (has_vector isr v) && in_sync n (v + 1) isr []
in_sync (suc n) v isr (w ∷ stk) =
    if has_vector isr v
    then w == v && in_sync n (v + 1) isr stk
    else in_sync n (v + 1) isr (w ∷ stk)

-- vlapic_update_ppr, or `none` where it aborts. Entry 0 of the stack is always 0.
unfoldable pub update_ppr : Vlapic → Option Vlapic
update_ppr v =
    let isrvec = last_or 0 v.isrvec_stk in
    if increasing 0 v.isrvec_stk && in_sync 256 0 v.isr v.isrvec_stk
    then some
        (record v { ppr = if leb (prio isrvec) (prio v.tpr) then v.tpr else bit_and isrvec 0xf0 })
    else none

-- The stack without its top.
unfoldable pub pop : List ℕ → List ℕ
pop [] = []
pop (w ∷ []) = []
pop (w ∷ x ∷ stk) = w ∷ pop (x ∷ stk)

-- An EOI of a vector, or `none` for an abort.
unfoldable pub end_vector : Vlapic → ℕ → Option Vlapic
end_vector v vector =
    let ended = record v { isr = drop_vector v.isr vector; isrvec_stk = pop v.isrvec_stk } in
    if length v.isrvec_stk == 0 then none else do
      after ← update_ppr ended
      some (if has_vector after.tmr vector then send (eoi_sent vector) after else after)

-- The end of the highest vector in service; an EOI with none does nothing.
unfoldable pub end_highest : Vlapic → Option ℕ → Option Vlapic
end_highest v none = some v
end_highest v (some vector) = end_vector v vector

unfoldable pub process_eoi : Vlapic → Option Vlapic
process_eoi v = end_highest v (highest v.isr)

-- The vector that vlapic_pending_intr reports, with no `ops.pending_intr`.
unfoldable pub pending_intr : Vlapic → Option ℕ
pending_intr v = do
  vector ← highest v.irr
  if ltb (prio v.ppr) (prio vector) then some vector else none

unfoldable pub intr_accepted : Vlapic → ℕ → Option Vlapic
intr_accepted v vector =
    let pushed = record v {
      irr = drop_vector v.irr vector;
      isr = add_vector v.isr vector;
      isrvec_stk = v.isrvec_stk ++ vector ∷ [];
    } in
    if leb isrvec_stk_size (length v.isrvec_stk + 1) then none else update_ppr pushed

-- vlapic_set_tpr with a byte.
unfoldable pub set_tpr : Vlapic → ℕ → Option Vlapic
set_tpr v val = if v.tpr == val then some v else update_ppr (record v { tpr = val })

unfoldable pub set_cr8 : Vlapic → ℕ → Option Vlapic
set_cr8 v val =
    let after = set_tpr v (val * 16 % 2 ^ 8) in if leb 16 val then some (send gp v) else after

unfoldable pub get_cr8 : Vlapic → ℕ
get_cr8 v = v.tpr % 2 ^ 8 / 16
