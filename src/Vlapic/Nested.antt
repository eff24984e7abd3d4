-- ===== src/Vlapic/Nested.antt =====
-- The local APIC of src/lib/vmm/io/vlapic.c with its vectors in service and their stack in step.
use hyperkit.Base.{
  ℕ, ◌≤◌, ◌<◌, ◌≡◌, refl, sym, ap, ◌∙◌, true, not, ◌&&◌, ◌||◌, leb, ◌==◌, ==_iff, List, [], ◌∷◌,
  ◌++◌, if◌then◌else◌, arith, both_true, Option, none, some, bit_and, Bool-cases, inl, inr,
  false≢true,
}
use hyperkit.Base.Tests.{all_below, all_below_lem}
use hyperkit.Vlapic.Vectors.{has_vector, add_vector, drop_vector, highest, IsVectors}
use hyperkit.Vlapic.Highest.{
  highest_below-IsHighest, highest_below-none, has_vector-add_vector, has_vector-drop_vector,
  add_vector-IsVectors, drop_vector-IsVectors,
}
use hyperkit.Vlapic.State.{Vlapic, prio, last_or, increasing, update_ppr, pop}
use hyperkit.Vlapic.Stack.{
  on_stack, increasing_weak, increasing-push, increasing-pop, on_stack-push, on_stack-last,
  below_last, on_stack-pop, in_sync_passes,
}

-- The bits of the ISR are the entries of the stack, whose priorities increase from 1 on.
pub record IsStacked (isr stk : List ℕ) : Type 0 where
  pub words : IsVectors isr
  pub rises : increasing 1 stk ≡ true
  pub bytes : (w : ℕ) → on_stack w stk ≡ true → w < 256
  pub same : (w : ℕ) → w < 256 → has_vector isr w ≡ on_stack w stk

-- The PPR of a TPR and a stack.
abbrev pub ppr_of : ℕ → List ℕ → ℕ
ppr_of tpr stk = if leb (prio (last_or 0 stk)) (prio tpr) then tpr else bit_and (last_or 0 stk) 0xf0

pub record IsApic (v : Vlapic) : Type 0 where
  pub stacked : IsStacked v.isr v.isrvec_stk
  pub requests : IsVectors v.irr
  pub ppr : v.ppr ≡ ppr_of v.tpr v.isrvec_stk

-- The checks of vlapic_update_ppr pass.
pub update_ppr-passes :
    (v : Vlapic)
    → IsStacked v.isr v.isrvec_stk
    → update_ppr v ≡ some (record v { ppr = ppr_of v.tpr v.isrvec_stk })
unfolding update_ppr
update_ppr-passes v s =
    rw
      (
        rises,
        in_sync_passes 256 0 1 v.isr v.isrvec_stk s.rises (λ w o. omega arith)
            (λ w l h. s.same w (omega arith)),
      )
      refl
  where
    rises : increasing 0 v.isrvec_stk ≡ true
    rises = increasing_weak 0 1 v.isrvec_stk (omega arith) s.rises

pub add_vector-IsStacked :
    {isr stk : List ℕ} (v : ℕ)
    → v < 256
    → prio (last_or 0 stk) < prio v
    → IsStacked isr stk
    → IsStacked (add_vector isr v) (stk ++ v ∷ [])
add_vector-IsStacked {isr = isr} {stk = stk} v h l s = record {
  words = add_vector-IsVectors isr s.words v h;
  rises = increasing-push 0 stk v s.rises l;
  bytes = λ w o. elim (Bool-cases (on_stack w stk)) [
    | inl on ↦ s.bytes w on
    | inr off ↦ ground (arith, sym (on_stack-push w v stk) ∙ o, off, h)
  ];
  same = λ w u.
      has_vector-add_vector isr s.words v h w u
      ∙ ap (λ b. b || v == w) (s.same w u)
      ∙ sym (on_stack-push w v stk);
}

pub drop_vector-IsStacked :
    {isr stk : List ℕ} (x : ℕ)
    → IsStacked isr (x ∷ stk)
    → IsStacked (drop_vector isr (last_or x stk)) (pop (x ∷ stk))
drop_vector-IsStacked {isr = isr} {stk = stk} x s = record {
  words = drop_vector-IsVectors isr s.words (last_or x stk) last_byte;
  rises = increasing-pop 1 (x ∷ stk) s.rises;
  bytes = λ w o. s.bytes w (both_true _ _ (sym (on_stack-pop 1 w x stk s.rises) ∙ o)).0;
  same = λ w u.
      has_vector-drop_vector isr s.words (last_or x stk) last_byte w u
      ∙ ap (λ b. b && not (last_or x stk == w)) (s.same w u)
      ∙ sym (on_stack-pop 1 w x stk s.rises);
}
  where
    last_byte : last_or x stk < 256
    last_byte = s.bytes (last_or x stk) (on_stack-last x stk)

-- The top of a stack, if it has one.
unfoldable pub top : List ℕ → Option ℕ
top [] = none
top (x ∷ stk) = some (last_or x stk)

-- The highest bit of the ISR is the top of the stack.
pub highest-top : (isr stk : List ℕ) → IsStacked isr stk → highest isr ≡ top stk
unfolding highest top on_stack
highest-top isr stk s = go (highest isr) refl stk s
  where
    go :
        (o : Option ℕ)
        → highest isr ≡ o
        → (stk : List ℕ) → IsStacked isr stk
        → highest isr ≡ top stk
    go none e [] s = e
    go none e (x ∷ stk) s = absurd (
        false≢true (
          sym (
            highest_below-none 8 isr e (last_or x stk)
              (omega (arith, s.bytes (last_or x stk) (on_stack-last x stk))))
          ∙ s.same (last_or x stk) (s.bytes (last_or x stk) (on_stack-last x stk))
          ∙ on_stack-last x stk))
    go (some v) e [] s =
        let r = highest_below-IsHighest 8 isr v e in
        absurd (false≢true (sym (s.same v (omega (arith, r.below))) ∙ r.has_it))
    go (some v) e (x ∷ stk) s =
        let r = highest_below-IsHighest 8 isr v e in
        let byte : last_or x stk < 256 = s.bytes (last_or x stk) (on_stack-last x stk) in
        elim (below_last 1 v x stk s.rises (sym (s.same v (omega (arith, r.below))) ∙ r.has_it)) [
          | inl q ↦ e ∙ ap some q
          | inr lt ↦ absurd (
              false≢true (
                sym (r.none_above (last_or x stk) (omega (arith, lt)) (omega (arith, byte)))
                ∙ s.same (last_or x stk) byte
                ∙ on_stack-last x stk))
        ]

prio_kept : (x : ℕ) → x < 256 → (prio (bit_and x 0xf0) == prio x) ≡ true
unfolding all_below
prio_kept x h = all_below_lem 256 (λ x. prio (bit_and x 0xf0) == prio x) refl x h

last-byte : (isr stk : List ℕ) → IsStacked isr stk → last_or 0 stk < 256
unfolding last_or
last-byte isr [] s = omega arith
last-byte isr (x ∷ stk) s = s.bytes (last_or x stk) (on_stack-last x stk)

-- The PPR has at least the priority of the stack and of the TPR.
pub ppr_of-above :
    (tpr : ℕ) (isr stk : List ℕ)
    → IsStacked isr stk
    → (prio (last_or 0 stk) ≤ prio (ppr_of tpr stk)) × (prio tpr ≤ prio (ppr_of tpr stk))
ppr_of-above tpr isr stk s = elim (Bool-cases (leb (prio (last_or 0 stk)) (prio tpr))) [
  | inl y ↦ rw y (ground (arith, y), omega arith)
  | inr n ↦ rw n (omega (arith, kept), ground (arith, n, kept))
]
  where
    kept : prio (bit_and (last_or 0 stk) 0xf0) ≡ prio (last_or 0 stk)
    kept = (==_iff _ _).0 (prio_kept (last_or 0 stk) (last-byte isr stk s))
