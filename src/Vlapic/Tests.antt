-- ===== src/Vlapic/Tests.antt =====
-- Runs of the local APIC, and the theorems about src/lib/vmm/io/vlapic.c at inputs.
use hyperkit.Base.{
  ℕ, zero, suc, ◌<◌, ◌≡◌, ◌↔◌, ◌⊎◌, refl, sym, subst, ◌∙◌, arith, List, [], ◌∷◌, Option, some,
  ◌>>=◌, true, false,
}
use hyperkit.Base.Bits.Words.{has, clear}
use hyperkit.Vlapic.Vectors.{
  has_vector, add_vector, drop_vector, highest, highest_below, fls, fls_below, IsVectors,
}
use hyperkit.Vlapic.State.{
  Vlapic, notified, prio, last_or, increasing, in_sync, update_ppr, process_eoi, pending_intr,
  intr_accepted,
}
use hyperkit.Vlapic.Sources.{
  error, set_intr_ready, set_intr, svr_write, lvt_write, lvt_write_handler, mask_lvt, mask_lvts,
  set_error, set_error_body, get_lvt, icrtmr_write_handler, lvt_index, lvt_mask,
}
use hyperkit.Vlapic.Reset.{init, x2apic, reset, reset_tmr, tmr_loop, set_tmr}
use hyperkit.Vlapic.Registers.{spurious, end_of_interrupt, divide, write, write_register}
use hyperkit.Vlapic.Nested.{IsApic}
use hyperkit.Vlapic.Service.{
  IsPending, pending_intr_iff, pending_intr-outranks, process_eoi-intr_accepted, resumed,
}
use hyperkit.Vlapic.Targets.{
  Machine, apic_at, fixed, lowest, address_of, answers, match_loop, calcdest, deliver_intr,
}
use hyperkit.Vlapic.Addressed.{any_below}
use hyperkit.Vlapic.Delivered.{IsServed, gets, deliver_intr-IsServed}
use hyperkit.Vlapic.Errors.{set_error_ends}
use hyperkit.Vlapic.Calls.{
  Call, request, take, access, step, run, requested, take_pending, accept, Ends, run-init-Ends,
}

-- The guest turns the APIC on, two interrupts come and are taken, and the later one ends.
abbrev session : List Call
session =
    access true spurious 0x1ff
    ∷ request 0x31
    ∷ take
    ∷ request 0x52
    ∷ take
    ∷ access true end_of_interrupt 0
    ∷ access true divide 0xb
    ∷ request 0x33
    ∷ take
    ∷ []

abbrev later : List Call
later = access true spurious 0x1ff ∷ request 0x31 ∷ take ∷ request 0x52 ∷ []

run-init-Ends_example : Ends (run session (init 0))
run-init-Ends_example = run-init-Ends 0 session

-- The APIC with the first interrupt in service and the second one requested.
abbrev serving : Vlapic
serving = record (init 0) {
  svr = 0x1ff;
  svr_last = 0x1ff;
  ppr = 0x30;
  isr = 0 ∷ 0x20000 ∷ 0 ∷ 0 ∷ 0 ∷ 0 ∷ 0 ∷ 0 ∷ [];
  irr = 0 ∷ 0 ∷ 0x40000 ∷ 0 ∷ 0 ∷ 0 ∷ 0 ∷ 0 ∷ [];
  isrvec_stk = 0x31 ∷ [];
  signals = notified ∷ notified ∷ [];
}

later_run : run later (init 0) ≡ some serving
unfolding run step write write_register x2apic requested set_intr set_intr_ready svr_write
    take_pending accept pending_intr intr_accepted update_ppr increasing in_sync highest
    highest_below fls fls_below has_vector add_vector drop_vector last_or init reset reset_tmr
    mask_lvts mask_lvt lvt_write_handler get_lvt lvt_index icrtmr_write_handler has clear tmr_loop
    set_tmr lvt_mask
later_run = refl

returned-IsApic : {o : Option Vlapic} {v : Vlapic} → Ends o → o ≡ some v → IsApic v
returned-IsApic {v = v} e q =
    let ends : some e.end ≡ some v = sym e.returned ∙ q in
    let same : e.end ≡ v = cc in subst IsApic same e.apic

serving-IsApic : IsApic serving
serving-IsApic = returned-IsApic (run-init-Ends 0 later) later_run

serving_pending : pending_intr serving ≡ some 0x52
unfolding pending_intr highest highest_below fls fls_below
serving_pending = refl

pending_intr_iff_example : (pending_intr serving ≡ some 0x52) ↔ IsPending serving 0x52
pending_intr_iff_example = pending_intr_iff serving 0x52

pending_intr-outranks_example :
    (prio serving.tpr < prio 0x52)
    × ((has_vector serving.isr 0x31 ≡ false) ⊎ (prio 0x31 < prio 0x52))
pending_intr-outranks_example =
    pending_intr-outranks serving 0x52 0x31 serving-IsApic serving_pending (omega arith)

process_eoi-intr_accepted_example :
    (intr_accepted serving 0x52 >>= process_eoi) ≡ some (resumed serving 0x52)
process_eoi-intr_accepted_example =
    process_eoi-intr_accepted serving 0x52 serving-IsApic serving_pending

-- An error while the APIC is on, with the error's register at the vector 5, itself an error.
set_error_ends_example :
    (set_error_body (set_error_body (λ m w. init 0)) 0x40 (lvt_write error 0x05 serving)
      ≡ set_error 0x40 (lvt_write error 0x05 serving))
    × (set_error 0x40 (lvt_write error 0x05 serving)
        ≡ set_error_body set_error 0x40 (lvt_write error 0x05 serving))
set_error_ends_example = set_error_ends (λ m w. init 0) 0x40 (lvt_write error 0x05 serving)

-- Two APICs in the flat model.
abbrev two : Machine
two = record {
  apics =
      record serving { ldr = 0x01000000; dfr = 0xffffffff }
      ∷ record serving { vcpuid = 1; ldr = 0x02000000; dfr = 0xffffffff }
      ∷ [];
  active_cpus = 0x3;
}

two_requests : (k : ℕ) → k < 2 → IsVectors (apic_at two k).irr
two_requests zero h = serving-IsApic.requests
two_requests (suc zero) h = serving-IsApic.requests
two_requests (suc (suc k)) h = absurd (omega arith)

deliver_intr-IsServed_example :
    IsServed two 0x03 0x41 lowest (deliver_intr two 0x03 false lowest 0x41)
deliver_intr-IsServed_example =
    deliver_intr-IsServed two 0x03 lowest 0x41 (λ e. omega (arith, e)) (omega arith) (omega arith)
      (omega arith) two_requests

-- Both get a fixed interrupt to the address 3, and the first one alone one of the lowest priority.
two_get :
    (gets two 0x03 fixed 0 ≡ true)
    × ((gets two 0x03 fixed 1 ≡ true)
        × ((gets two 0x03 lowest 0 ≡ true) × (gets two 0x03 lowest 1 ≡ false)))
unfolding any_below init reset reset_tmr mask_lvts mask_lvt lvt_write_handler
two_get = (refl, (refl, (refl, refl)))

-- Only the second one answers to the address 2, and the first one of both to the address 3.
two_targets :
    (calcdest two 0x02 false false false ≡ some 0x2)
    × ((calcdest two 0x03 false true false ≡ some 0x1)
        × (calcdest two 0x01 true false false ≡ some 0x2))
unfolding calcdest match_loop answers address_of x2apic has init reset reset_tmr mask_lvts mask_lvt
    lvt_write_handler
two_targets = (refl, (refl, refl))
