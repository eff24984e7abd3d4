-- ===== src/Vlapic/Quiet.antt =====
-- The requests of the local APIC in src/lib/vmm/io/vlapic.c leave alone what is in service.
use hyperkit.Base.{
  ℕ, zero, suc, ◌%◌, ◌^◌, ◌<◌, ◌≡◌, refl, sym, subst, ◌∙◌, true, not, ltb, ◌==◌, if_cases, arith,
  bit_and, bit_or, bit_xor,
}
use hyperkit.Base.Bits.Words.{has, bit_and-lt_right}
use hyperkit.Vlapic.Vectors.{IsVectors}
use hyperkit.Vlapic.Highest.{add_vector-IsVectors}
use hyperkit.Vlapic.State.{Vlapic, Signal, notified, nmi, extint, send}
use hyperkit.Vlapic.Reset.{ldr_write, dfr_write}
use hyperkit.Vlapic.Sources.{
  esr_write_handler, Lvt, lint0, lint1, timer, error, pmc, thermal, cmci, svr_enabled, Ready,
  set_intr_ready, fire_lvt, get_lvt, set_error_body, set_error_depth, set_error, enabled,
  trigger_lvt, lvt_write_handler, mask_lvt, mask_lvts, lvt_write, icrtmr_write_handler, svr_write,
}

-- From v to w the vectors in service, the priorities and the trigger modes are the same.
pub record IsQuiet (v w : Vlapic) : Type 0 where
  pub isr : w.isr ≡ v.isr
  pub stk : w.isrvec_stk ≡ v.isrvec_stk
  pub tpr : w.tpr ≡ v.tpr
  pub ppr : w.ppr ≡ v.ppr
  pub tmr : w.tmr ≡ v.tmr
  pub irr : IsVectors v.irr → IsVectors w.irr

same-IsQuiet :
    {v w : Vlapic}
    → w.isr ≡ v.isr
    → w.isrvec_stk ≡ v.isrvec_stk
    → w.tpr ≡ v.tpr
    → w.ppr ≡ v.ppr
    → w.tmr ≡ v.tmr
    → w.irr ≡ v.irr
    → IsQuiet v w
same-IsQuiet a b c d e f = record {
  isr = a;
  stk = b;
  tpr = c;
  ppr = d;
  tmr = e;
  irr = λ h. subst IsVectors (sym f) h;
}

pub IsQuiet-twice : {u v w : Vlapic} → IsQuiet u v → IsQuiet v w → IsQuiet u w
IsQuiet-twice a b = record {
  isr = b.isr ∙ a.isr;
  stk = b.stk ∙ a.stk;
  tpr = b.tpr ∙ a.tpr;
  ppr = b.ppr ∙ a.ppr;
  tmr = b.tmr ∙ a.tmr;
  irr = λ h. b.irr (a.irr h);
}

pub nothing-IsQuiet : (v : Vlapic) → IsQuiet v v
nothing-IsQuiet v = same-IsQuiet refl refl refl refl refl refl

pub send-IsQuiet : (s : Signal) (v : Vlapic) → IsQuiet v (send s v)
send-IsQuiet s v = same-IsQuiet refl refl refl refl refl refl

module _ (report : ℕ → Vlapic → Vlapic)
    (quiet : (m : ℕ) (v : Vlapic) → IsQuiet v (report m v)) where
  pub set_intr_ready-IsQuiet :
      (vector : ℕ) (v : Vlapic) → vector < 256 → IsQuiet v (set_intr_ready report vector v).apic
  unfolding set_intr_ready
  set_intr_ready-IsQuiet vector v h =
      if_cases (λ (r : Ready). IsQuiet v r.apic) (not (svr_enabled v.svr))
        (λ _. same-IsQuiet refl refl refl refl refl refl)
        (λ _.
          if_cases (λ (r : Ready). IsQuiet v r.apic) (ltb vector 16) (λ _. quiet 0x40 v)
            (λ _. record {
              isr = refl;
              stk = refl;
              tpr = refl;
              ppr = refl;
              tmr = refl;
              irr = λ ok. add_vector-IsVectors v.irr ok vector h;
            }))

  pub fire_lvt-IsQuiet : (lvt : ℕ) (v : Vlapic) → IsQuiet v (fire_lvt report lvt v).apic
  unfolding fire_lvt
  fire_lvt-IsQuiet lvt v =
      if_cases (λ (r : Ready). IsQuiet v r.apic) (has lvt 0x10000) (λ _. same)
        (λ _.
          if_cases (λ (r : Ready). IsQuiet v r.apic) (bit_and lvt 0x700 == 0)
            (λ _.
              if_cases (λ (r : Ready). IsQuiet v r.apic) (ltb (bit_and lvt 0xff) 16)
                (λ _. quiet 0x20 v)
                (λ _.
                  if_cases (IsQuiet v) (set_intr_ready report (bit_and lvt 0xff) v).ready
                    (λ _. IsQuiet-twice fixed (send-IsQuiet notified _)) (λ _. fixed)))
            (λ _.
              if_cases (λ (r : Ready). IsQuiet v r.apic) (bit_and lvt 0x700 == 0x400)
                (λ _. send-IsQuiet nmi v)
                (λ _.
                  if_cases (λ (r : Ready). IsQuiet v r.apic) (bit_and lvt 0x700 == 0x700)
                    (λ _. send-IsQuiet extint v) (λ _. same))))
    where
      same : IsQuiet v v
      same = same-IsQuiet refl refl refl refl refl refl

      fixed : IsQuiet v (set_intr_ready report (bit_and lvt 0xff) v).apic
      fixed =
          set_intr_ready-IsQuiet (bit_and lvt 0xff) v (bit_and-lt_right 8 lvt 0xff (omega arith))

  set_error_body-IsQuiet : (mask : ℕ) (v : Vlapic) → IsQuiet v (set_error_body report mask v)
  unfolding set_error_body
  set_error_body-IsQuiet mask v =
      if_cases (IsQuiet v) v.esr_firing (λ _. same-IsQuiet refl refl refl refl refl refl)
        (λ _.
          let f =
            fire_lvt-IsQuiet (get_lvt v error)
              (record v { esr_pending = bit_or v.esr_pending mask; esr_firing = true }) in
          record { isr = f.isr; stk = f.stk; tpr = f.tpr; ppr = f.ppr; tmr = f.tmr; irr = f.irr })

set_error_depth-IsQuiet : (fuel mask : ℕ) (v : Vlapic) → IsQuiet v (set_error_depth fuel mask v)
unfolding set_error_depth
set_error_depth-IsQuiet zero mask v = same-IsQuiet refl refl refl refl refl refl
set_error_depth-IsQuiet (suc fuel) mask v =
    set_error_body-IsQuiet (set_error_depth fuel) (set_error_depth-IsQuiet fuel) mask v

pub set_error-IsQuiet : (mask : ℕ) (v : Vlapic) → IsQuiet v (set_error mask v)
unfolding set_error
set_error-IsQuiet mask v = set_error_depth-IsQuiet 2 mask v

pub trigger_lvt-IsQuiet : (v : Vlapic) (l : Lvt) → IsQuiet v (trigger_lvt v l)
unfolding trigger_lvt
trigger_lvt-IsQuiet v l =
    if_cases (IsQuiet v) (enabled v)
      (λ _. fire_lvt-IsQuiet set_error set_error-IsQuiet (get_lvt v l) v) (λ _. go l)
  where
    same : IsQuiet v v
    same = same-IsQuiet refl refl refl refl refl refl

    go : (l : Lvt) → IsQuiet v (elim l [ lint0 ↦ send extint v | lint1 ↦ send nmi v | _ ↦ v ])
    go lint0 = send-IsQuiet extint v
    go lint1 = send-IsQuiet nmi v
    go timer = same
    go error = same
    go pmc = same
    go thermal = same
    go cmci = same

pub lvt_write-IsQuiet : (l : Lvt) (value : ℕ) (v : Vlapic) → IsQuiet v (lvt_write l value v)
unfolding lvt_write lvt_write_handler
lvt_write-IsQuiet l value v = same-IsQuiet refl refl refl refl refl refl

pub svr_write-IsQuiet : (value : ℕ) (v : Vlapic) → IsQuiet v (svr_write value v)
unfolding svr_write mask_lvts mask_lvt lvt_write_handler icrtmr_write_handler
svr_write-IsQuiet value v =
    if_cases (IsQuiet v) (has (bit_xor v.svr_last (value % 2 ^ 32)) 0x100)
      (λ _.
        if_cases (IsQuiet v) (has (value % 2 ^ 32) 0x100)
          (λ _.
            if_cases (IsQuiet v)
              (has (get_lvt (record v { svr = value % 2 ^ 32; svr_last = value % 2 ^ 32 }) timer)
                0x20000)
              (λ _. same-IsQuiet refl refl refl refl refl refl)
              (λ _. same-IsQuiet refl refl refl refl refl refl))
          (λ _. same-IsQuiet refl refl refl refl refl refl))
      (λ _. same-IsQuiet refl refl refl refl refl refl)

-- The writes of the registers that only hold a value.
pub id_write-IsQuiet : (v : Vlapic) (x : ℕ) → IsQuiet v (record v { id = x })
id_write-IsQuiet v x = same-IsQuiet refl refl refl refl refl refl

pub ldr_write-IsQuiet : (x : ℕ) (v : Vlapic) → IsQuiet v (ldr_write x v)
unfolding ldr_write
ldr_write-IsQuiet x v = same-IsQuiet refl refl refl refl refl refl

pub dfr_write-IsQuiet : (x : ℕ) (v : Vlapic) → IsQuiet v (dfr_write x v)
unfolding dfr_write
dfr_write-IsQuiet x v = same-IsQuiet refl refl refl refl refl refl

pub icr_hi_write-IsQuiet : (v : Vlapic) (x : ℕ) → IsQuiet v (record v { icr_hi = x })
icr_hi_write-IsQuiet v x = same-IsQuiet refl refl refl refl refl refl

pub icr_timer_write-IsQuiet :
    (v : Vlapic) (x : ℕ) → IsQuiet v (icrtmr_write_handler (record v { icr_timer = x }))
unfolding icrtmr_write_handler
icr_timer_write-IsQuiet v x = same-IsQuiet refl refl refl refl refl refl

pub dcr_write-IsQuiet : (v : Vlapic) (x : ℕ) → IsQuiet v (record v { dcr_timer = x })
dcr_write-IsQuiet v x = same-IsQuiet refl refl refl refl refl refl

pub esr_write-IsQuiet : (v : Vlapic) → IsQuiet v (esr_write_handler v)
unfolding esr_write_handler
esr_write-IsQuiet v = same-IsQuiet refl refl refl refl refl refl
