-- ===== src/Vlapic/Service.antt =====
-- The way of an interrupt through the local APIC in src/lib/vmm/io/vlapic.c: pending, accepted, ended.
use hyperkit.Base.{
  ℕ, suc, ◌+◌, ◌<◌, ◌≡◌, ◌↔◌, ◌⊎◌, refl, sym, ap, subst, ◌∙◌, false, ltb, leb, ◌==◌, ==_of_ne, List,
  [], ◌∷◌, ◌++◌, length, if◌then◌else◌, if_cases, arith, Option, none, some, ◌>>=◌, Bool-cases, inl,
  inr,
}
use hyperkit.Vlapic.Vectors.{has_vector, add_vector, drop_vector, highest}
use hyperkit.Vlapic.Highest.{IsHighest, highest_iff, drop_vector-IsVectors, drop_vector-add_vector}
use hyperkit.Vlapic.State.{
  Vlapic, eoi_sent, send, prio, isrvec_stk_size, last_or, pop, end_vector, end_highest, process_eoi,
  pending_intr, intr_accepted,
}
use hyperkit.Vlapic.Stack.{length_bound, below_top, pop-push, last_or-push}
use hyperkit.Vlapic.Nested.{
  IsStacked, ppr_of, IsApic, update_ppr-passes, add_vector-IsStacked, drop_vector-IsStacked, top,
  highest-top, ppr_of-above,
}

-- A vector is pending: it is the highest request and outranks the PPR.
pub record IsPending (v : Vlapic) (vector : ℕ) : Type 0 where
  pub highest : IsHighest v.irr 8 vector
  pub outranks : prio v.ppr < prio vector

-- A vector is reported as pending exactly if it is the highest one of the IRR and its priority is
-- greater than that of the PPR.
pub pending_intr_iff :
    (v : Vlapic) (vector : ℕ) → (pending_intr v ≡ some vector) ↔ IsPending v vector
unfolding pending_intr
pending_intr_iff v vector = (
  λ e. go (highest v.irr) refl e,
  λ p. rw ((highest_iff v.irr vector).1 p.highest) (ground (arith, p.outranks)),
)
  where
    go :
        (o : Option ℕ)
        → highest v.irr ≡ o
        → (o >>= (λ w. if ltb (prio v.ppr) (prio w) then some w else none)) ≡ some vector
        → IsPending v vector
    go none e q = cc
    go (some w) e q = elim (Bool-cases (ltb (prio v.ppr) (prio w))) [
      | inl y ↦
          let same : w ≡ vector = cc in
          record {
            highest = (highest_iff v.irr vector).0 (e ∙ ap some same);
            outranks = ground (arith, y, ap prio same);
          }
      | inr n ↦ cc
    ]

-- Where the APIC is in step, a pending vector outranks the TPR, and every vector is outranked by it or
-- not in service.
pub pending_intr-outranks :
    (v : Vlapic) (vector w : ℕ)
    → IsApic v
    → pending_intr v ≡ some vector
    → w < 256
    → (prio v.tpr < prio vector) × ((has_vector v.isr w ≡ false) ⊎ (prio w < prio vector))
pending_intr-outranks v vector w a e h =
    let p = (pending_intr_iff v vector).0 e in
    let r = ppr_of-above v.tpr v.isr v.isrvec_stk a.stacked in
    (
      omega (arith, p.outranks, ap prio a.ppr, r.1),
      elim (Bool-cases (has_vector v.isr w)) [
        | inl on ↦ inr (
            omega (
              arith,
              p.outranks,
              ap prio a.ppr,
              r.0,
              below_top 1 w v.isrvec_stk a.stacked.rises (sym (a.stacked.same w h) ∙ on),
            ))
        | inr off ↦ inl off
      ],
    )

abbrev pub accepted : Vlapic → ℕ → Vlapic
accepted v vector = record v {
  irr = drop_vector v.irr vector;
  isr = add_vector v.isr vector;
  isrvec_stk = v.isrvec_stk ++ vector ∷ [];
  ppr = ppr_of v.tpr (v.isrvec_stk ++ vector ∷ []);
}

above_stack :
    (v : Vlapic) (vector : ℕ)
    → IsApic v
    → IsPending v vector
    → prio (last_or 0 v.isrvec_stk) < prio vector
above_stack v vector a p =
    omega (arith, p.outranks, ap prio a.ppr, (ppr_of-above v.tpr v.isr v.isrvec_stk a.stacked).0)

pub accepted-IsApic :
    (v : Vlapic) (vector : ℕ) → IsApic v → IsPending v vector → IsApic (accepted v vector)
accepted-IsApic v vector a p = record {
  stacked =
      add_vector-IsStacked vector (omega (arith, p.highest.below)) (above_stack v vector a p)
        a.stacked;
  requests = drop_vector-IsVectors v.irr a.requests vector (omega (arith, p.highest.below));
  ppr = refl;
}

pub intr_accepted-accepted :
    (v : Vlapic) (vector : ℕ)
    → IsApic v
    → IsPending v vector
    → intr_accepted v vector ≡ some (accepted v vector)
unfolding intr_accepted
intr_accepted-accepted v vector a p = rw fits (
    update_ppr-passes
      (record v {
        irr = drop_vector v.irr vector;
        isr = add_vector v.isr vector;
        isrvec_stk = v.isrvec_stk ++ vector ∷ [];
      })
      (accepted-IsApic v vector a p).stacked)
  where
    fits : leb isrvec_stk_size (length v.isrvec_stk + 1) ≡ false
    fits = ground (arith, length_bound 1 v.isrvec_stk a.stacked.rises a.stacked.bytes (omega arith))

-- The end of a vector.
abbrev dropped : Vlapic → ℕ → Vlapic
dropped v vector = record v {
  isr = drop_vector v.isr vector;
  isrvec_stk = pop v.isrvec_stk;
  ppr = ppr_of v.tpr (pop v.isrvec_stk);
}

abbrev pub ended : Vlapic → ℕ → Vlapic
ended v vector =
    if has_vector v.tmr vector then send (eoi_sent vector) (dropped v vector) else dropped v vector

top_dropped :
    (isr stk : List ℕ) (vector : ℕ)
    → top stk ≡ some vector
    → IsStacked isr stk
    → ((length stk == 0) ≡ false) × IsStacked (drop_vector isr vector) (pop stk)
unfolding top
top_dropped isr [] vector e s = cc
top_dropped isr (x ∷ stk) vector e s =
    let same : last_or x stk ≡ vector = cc in
    (
      ==_of_ne (suc (length stk)) 0 (λ q. omega (arith, q)),
      subst (λ w. IsStacked (drop_vector isr w) (pop (x ∷ stk))) same (drop_vector-IsStacked x s),
    )

pub ended-IsApic :
    (v : Vlapic) (vector : ℕ) → top v.isrvec_stk ≡ some vector → IsApic v → IsApic (ended v vector)
ended-IsApic v vector e a =
    let d = top_dropped v.isr v.isrvec_stk vector e a.stacked in
    let ok : IsApic (dropped v vector) = record {
      stacked = d.1;
      requests = a.requests;
      ppr = refl;
    } in
    if_cases IsApic (has_vector v.tmr vector)
      (λ _. record { stacked = ok.stacked; requests = ok.requests; ppr = ok.ppr }) (λ _. ok)

pub process_eoi-ended :
    (v : Vlapic) (vector : ℕ)
    → top v.isrvec_stk ≡ some vector
    → IsApic v
    → process_eoi v ≡ some (ended v vector)
unfolding process_eoi end_highest end_vector
process_eoi-ended v vector e a =
    let d = top_dropped v.isr v.isrvec_stk vector e a.stacked in
    ap (end_highest v) (highest-top v.isr v.isrvec_stk a.stacked ∙ e)
    ∙ rw
        (
          d.0,
          update_ppr-passes
              (record v { isr = drop_vector v.isr vector; isrvec_stk = pop v.isrvec_stk }) d.1,
        )
        refl

-- The APIC without the request of a vector, and with the end of it told to the I/O APIC where the
-- vector is level triggered.
abbrev pub resumed : Vlapic → ℕ → Vlapic
resumed v vector =
    let back = record v { irr = drop_vector v.irr vector } in
    if has_vector v.tmr vector then send (eoi_sent vector) back else back

-- Where the APIC is in step, to accept the pending vector and to end it next leaves everything as it was
-- but for the request, which is gone, and for the end of the interrupt, which is sent to the I/O APIC
-- exactly if the vector is level triggered.
pub process_eoi-intr_accepted :
    (v : Vlapic) (vector : ℕ)
    → IsApic v
    → pending_intr v ≡ some vector
    → (intr_accepted v vector >>= process_eoi) ≡ some (resumed v vector)
unfolding top last_or
process_eoi-intr_accepted v vector a e =
    ap (λ o. o >>= process_eoi) (intr_accepted-accepted v vector a p)
    ∙ process_eoi-ended (accepted v vector) vector (pushed v.isrvec_stk)
        (accepted-IsApic v vector a p)
    ∙ rw
        (
          drop_vector-add_vector v.isr vector a.stacked.words (omega (arith, p.highest.below)) free,
          pop-push v.isrvec_stk vector,
          sym a.ppr,
        )
        refl
  where
    p : IsPending v vector
    p = (pending_intr_iff v vector).0 e

    pushed : (stk : List ℕ) → top (stk ++ vector ∷ []) ≡ some vector
    pushed [] = ap some (last_or-push 0 [] vector)
    pushed (x ∷ stk) = ap some (last_or-push x stk vector)

    free : has_vector v.isr vector ≡ false
    free = elim ((pending_intr-outranks v vector vector a e (omega (arith, p.highest.below))).1) [
      | inl off ↦ off
      | inr above ↦ absurd (omega (arith, above))
    ]
