-- ===== src/Vlapic/Calls.antt =====
-- Runs of calls of the local APIC in src/lib/vmm/io/vlapic.c.
use hyperkit.Base.{
  ℕ, zero, suc, ◌/◌, ◌%◌, ◌^◌, ◌≡◌, refl, sym, ap, ap₂, subst, ◌∙◌, ◌||◌, ◌&&◌, not, Bool, ltb, leb,
  ◌==◌, List, [], ◌∷◌, get_or, replicate, if_cases, arith, Option, none, some, ◌>>=◌, false≢true,
}
use hyperkit.Base.Bits.Laws.{bit, bit-zero}
use hyperkit.Vlapic.Vectors.{has_vector, IsVectors}
use hyperkit.Vlapic.State.{
  Vlapic, notified, last_or, increasing, end_highest, process_eoi, pending_intr, intr_accepted,
  set_tpr, set_cr8, gp,
}
use hyperkit.Vlapic.Sources.{
  Lvt, mask_lvts, mask_lvt, lvt_write_handler, set_intr_ready, set_error, trigger_lvt, set_intr,
  timer, get_lvt, fire_timer,
}
use hyperkit.Vlapic.Quiet.{
  IsQuiet, nothing-IsQuiet, send-IsQuiet, IsQuiet-twice, set_error-IsQuiet, set_intr_ready-IsQuiet,
  trigger_lvt-IsQuiet, lvt_write-IsQuiet, svr_write-IsQuiet, fire_lvt-IsQuiet, id_write-IsQuiet,
  ldr_write-IsQuiet, dfr_write-IsQuiet, icr_hi_write-IsQuiet, icr_timer_write-IsQuiet,
  dcr_write-IsQuiet, esr_write-IsQuiet,
}
use hyperkit.Vlapic.Stack.{on_stack}
use hyperkit.Vlapic.Nested.{IsStacked, ppr_of, IsApic, update_ppr-passes, top, highest-top}
use hyperkit.Vlapic.Service.{
  pending_intr_iff, accepted, accepted-IsApic, intr_accepted-accepted, ended, ended-IsApic,
  process_eoi-ended,
}
use hyperkit.Vlapic.Registers.{
  timer_divisor, Register, apic_id, task_priority, end_of_interrupt, logical, format, spurious,
  command_high, local_vector, initial_count, divide, error_status, read_only, dcr_write,
  write_register, write,
}
use hyperkit.Vlapic.Divider.{timer_divisor-found}
use hyperkit.Vlapic.Reset.{x2apic, init, reset, reset_tmr, no_vectors}

-- A call: a request from outside, of the local vector table, or of the timer, the processor taking what
-- is pending, a write of CR8, and an access of the register window.
pub data Call : Type 0 where
  request : ℕ → Call
  trigger : Lvt → Call
  timer_fires : Call
  take : Call
  cr8 : ℕ → Call
  access : Bool → Register → ℕ → Call

-- The processor accepts the vector that is pending, if there is one.
unfoldable pub accept : Vlapic → Option ℕ → Option Vlapic
accept v none = some v
accept v (some vector) = intr_accepted v vector

unfoldable pub take_pending : Vlapic → Option Vlapic
take_pending v = accept v (pending_intr v)

-- A request with a vector that is not valid changes nothing.
unfoldable pub requested : Vlapic → ℕ → Vlapic
requested v vector = elim (set_intr v vector) [ none ↦ v | some w ↦ w ]

unfoldable pub step : Call → Vlapic → Option Vlapic
step (request vector) v = some (requested v vector)
step (trigger l) v = some (trigger_lvt v l)
step timer_fires v = some (fire_timer v)
step take v = take_pending v
step (cr8 val) v = set_cr8 v val
step (access mmio r val) v = write mmio r val v

-- A run, or `none` where a call aborts.
unfoldable pub run : List Call → Vlapic → Option Vlapic
run [] v = some v
run (c ∷ calls) v = step c v >>= run calls

-- The call returns, and the APIC is in step.
pub record Ends (o : Option Vlapic) : Type 0 where
  pub end : Vlapic
  pub returned : o ≡ some end
  pub apic : IsApic end

quiet-IsApic : {v w : Vlapic} → IsApic v → IsQuiet v w → IsApic w
quiet-IsApic {v = v} {w = w} a q = record {
  stacked =
      subst (IsStacked w.isr) (sym q.stk)
        (subst (λ i. IsStacked i v.isrvec_stk) (sym q.isr) a.stacked);
  requests = q.irr a.requests;
  ppr = q.ppr ∙ a.ppr ∙ ap₂ ppr_of (sym q.tpr) (sym q.stk);
}

requested-IsQuiet : (v : Vlapic) (vector : ℕ) → IsQuiet v (requested v vector)
unfolding requested set_intr
requested-IsQuiet v vector =
    if_cases (λ (o : Option Vlapic). IsQuiet v (elim o [ none ↦ v | some w ↦ w ]))
      (ltb vector 16 || ltb 255 vector) (λ _. nothing-IsQuiet v)
      (λ n.
        let q = set_intr_ready-IsQuiet set_error set_error-IsQuiet vector v (ground (arith, n)) in
        if_cases (IsQuiet v) (set_intr_ready set_error vector v).ready
          (λ _. IsQuiet-twice q (send-IsQuiet notified _)) (λ _. q))

take_pending-Ends : (v : Vlapic) → IsApic v → Ends (take_pending v)
unfolding take_pending accept
take_pending-Ends v a = go (pending_intr v) refl
  where
    go : (o : Option ℕ) → pending_intr v ≡ o → Ends (accept v o)
    go none e = record { end = v; returned = refl; apic = a }
    go (some vector) e =
        let p = (pending_intr_iff v vector).0 e in
        record {
          end = accepted v vector;
          returned = intr_accepted-accepted v vector a p;
          apic = accepted-IsApic v vector a p;
        }

process_eoi-Ends : (v : Vlapic) → IsApic v → Ends (process_eoi v)
unfolding process_eoi end_highest
process_eoi-Ends v a = go (top v.isrvec_stk) refl
  where
    go : (o : Option ℕ) → top v.isrvec_stk ≡ o → Ends (process_eoi v)
    go none e = record {
      end = v;
      returned = ap (end_highest v) (highest-top v.isr v.isrvec_stk a.stacked ∙ e);
      apic = a;
    }
    go (some vector) e = record {
      end = ended v vector;
      returned = process_eoi-ended v vector e a;
      apic = ended-IsApic v vector e a;
    }

quietly : {v w : Vlapic} → IsQuiet v w → IsApic v → Ends (some w)
quietly {w = w} q a = record { end = w; returned = refl; apic = quiet-IsApic a q }

set_tpr-Ends : (v : Vlapic) (val : ℕ) → IsApic v → Ends (set_tpr v val)
unfolding set_tpr
set_tpr-Ends v val a =
    if_cases Ends (v.tpr == val) (λ _. record { end = v; returned = refl; apic = a })
      (λ _. record {
        end = record v { tpr = val; ppr = ppr_of val v.isrvec_stk };
        returned = update_ppr-passes (record v { tpr = val }) a.stacked;
        apic = record { stacked = a.stacked; requests = a.requests; ppr = refl };
      })

set_cr8-Ends : (v : Vlapic) (val : ℕ) → IsApic v → Ends (set_cr8 v val)
unfolding set_cr8
set_cr8-Ends v val a =
    if_cases Ends (leb 16 val) (λ _. quietly (send-IsQuiet gp v) a) (λ _. set_tpr-Ends v _ a)

write_register-Ends :
    (r : Register) (val : ℕ) (v : Vlapic) → IsApic v → Ends (write_register r val v)
unfolding write_register dcr_write
write_register-Ends apic_id val v a = quietly (id_write-IsQuiet v _) a
write_register-Ends task_priority val v a = set_tpr-Ends v (val % 2 ^ 8) a
write_register-Ends end_of_interrupt val v a = process_eoi-Ends v a
write_register-Ends logical val v a = quietly (ldr_write-IsQuiet val v) a
write_register-Ends format val v a = quietly (dfr_write-IsQuiet val v) a
write_register-Ends spurious val v a = quietly (svr_write-IsQuiet val v) a
write_register-Ends command_high val v a = quietly (icr_hi_write-IsQuiet v _) a
write_register-Ends (local_vector l) val v a = quietly (lvt_write-IsQuiet l val v) a
write_register-Ends initial_count val v a = quietly (icr_timer_write-IsQuiet v _) a
write_register-Ends divide val v a = divided (timer_divisor (val % 2 ^ 32)) refl
  where
    divided : (o : Option ℕ) → timer_divisor (val % 2 ^ 32) ≡ o → Ends (dcr_write o val v)
    divided none e = absurd (timer_divisor-found (val % 2 ^ 32) e)
    divided (some n) e = quietly (dcr_write-IsQuiet v _) a
write_register-Ends error_status val v a = quietly (esr_write-IsQuiet v) a
write_register-Ends read_only val v a = quietly (nothing-IsQuiet v) a

write-Ends :
    (mmio : Bool) (r : Register) (val : ℕ) (v : Vlapic) → IsApic v → Ends (write mmio r val v)
unfolding write
write-Ends mmio r val v a =
    if_cases Ends (x2apic v && mmio || not (x2apic v) && not mmio)
      (λ _. quietly (nothing-IsQuiet v) a) (λ _. write_register-Ends r val v a)

step-Ends : (c : Call) (v : Vlapic) → IsApic v → Ends (step c v)
unfolding step fire_timer
step-Ends (request vector) v a = quietly (requested-IsQuiet v vector) a
step-Ends (trigger l) v a = quietly (trigger_lvt-IsQuiet v l) a
step-Ends timer_fires v a =
    quietly (fire_lvt-IsQuiet set_error set_error-IsQuiet (get_lvt v timer) v) a
step-Ends take v a = take_pending-Ends v a
step-Ends (cr8 val) v a = set_cr8-Ends v val a
step-Ends (access mmio r val) v a = write-Ends mmio r val v a

run-Ends : (calls : List Call) (v : Vlapic) → IsApic v → Ends (run calls v)
unfolding run
run-Ends [] v a = record { end = v; returned = refl; apic = a }
run-Ends (c ∷ calls) v a =
    let s = step-Ends c v a in
    subst (λ o. Ends (o >>= run calls)) (sym s.returned) (run-Ends calls s.end s.apic)

zero_at : (n i : ℕ) → get_or (replicate n zero) i zero ≡ zero
zero_at zero i = refl
zero_at (suc n) zero = refl
zero_at (suc n) (suc i) = zero_at n i

empty : IsVectors no_vectors
empty = record { words = refl; fits = λ i. omega (arith, zero_at 8 i) }

empty-IsStacked : IsStacked no_vectors []
unfolding on_stack increasing has_vector
empty-IsStacked = record {
  words = empty;
  rises = refl;
  bytes = λ w o. absurd (false≢true o);
  same = λ w h. ap (λ x. bit x (w % 32)) (zero_at 8 (w / 32)) ∙ bit-zero (w % 32);
}

init-IsApic : (vcpu : ℕ) → IsApic (init vcpu)
unfolding init reset reset_tmr mask_lvts mask_lvt lvt_write_handler last_or
init-IsApic vcpu = record { stacked = empty-IsStacked; requests = empty; ppr = refl }

-- However interrupts are requested and taken, CR8 is written, and the register window is written to, but
-- for the registers that send interrupts to processors, nothing aborts: each run of calls from the reset
-- on returns, and afterwards the vectors in service are the entries of the stack, with priorities that
-- increase, and the PPR is theirs and the TPR's.
pub run-init-Ends : (vcpu : ℕ) (calls : List Call) → Ends (run calls (init vcpu))
run-init-Ends vcpu calls = run-Ends calls (init vcpu) (init-IsApic vcpu)
