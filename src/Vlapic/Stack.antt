-- ===== src/Vlapic/Stack.antt =====
-- The stack of vectors in service of the local APIC in src/lib/vmm/io/vlapic.c, whose priorities
-- increase.
use hyperkit.Base.{
  ℕ, zero, suc, ◌+◌, ◌≤◌, ◌<◌, ◌≡◌, ◌≢◌, ◌⊎◌, refl, sym, ap, ◌∙◌, Bool, true, false, not, ◌&&◌,
  ◌||◌, leb, ◌==◌, ==-refl, ==_iff, ==_of_ne, List, [], ◌∷◌, ◌++◌, length, arith, both_true,
  ℕ_discrete, Bool-cases, inl, inr, false≢true,
}
use hyperkit.Vlapic.Vectors.{has_vector}
use hyperkit.Vlapic.State.{prio, last_or, increasing, in_sync, pop}

unfoldable pub on_stack : ℕ → List ℕ → Bool
on_stack w [] = false
on_stack w (x ∷ stk) = w == x || on_stack w stk

none_to_rise : (p : ℕ) → increasing p [] ≡ true
unfolding increasing
none_to_rise p = refl

-- The head of a stack that increases, and the rest.
head_prio :
    (p x : ℕ) (stk : List ℕ)
    → increasing p (x ∷ stk) ≡ true
    → (p ≤ prio x) × (increasing (prio x + 1) stk ≡ true)
unfolding increasing
head_prio p x stk e =
    let b = both_true (leb p (prio x)) (increasing (prio x + 1) stk) e in (ground (arith, b.0), b.1)

cons_increasing :
    (p x : ℕ) (stk : List ℕ)
    → p ≤ prio x
    → increasing (prio x + 1) stk ≡ true
    → increasing p (x ∷ stk) ≡ true
unfolding increasing
cons_increasing p x stk l e = ground (arith, l, e)

pub increasing_weak :
    (p q : ℕ) (stk : List ℕ) → p ≤ q → increasing q stk ≡ true → increasing p stk ≡ true
increasing_weak p q [] l e = none_to_rise p
increasing_weak p q (x ∷ stk) l e =
    let h = head_prio q x stk e in cons_increasing p x stk (omega (arith, h.0)) h.1

pub last_above :
    (d : ℕ) (stk : List ℕ) → increasing (prio d + 1) stk ≡ true → prio d ≤ prio (last_or d stk)
unfolding last_or
last_above d [] e = omega arith
last_above d (x ∷ stk) e =
    let h = head_prio (prio d + 1) x stk e in omega (arith, h.0, last_above x stk h.1)

pub increasing-push :
    (d : ℕ) (stk : List ℕ) (v : ℕ)
    → increasing (prio d + 1) stk ≡ true
    → prio (last_or d stk) < prio v
    → increasing (prio d + 1) (stk ++ v ∷ []) ≡ true
unfolding last_or
increasing-push d [] v e l =
    cons_increasing (prio d + 1) v [] (omega arith) (none_to_rise (prio v + 1))
increasing-push d (x ∷ stk) v e l =
    let h = head_prio (prio d + 1) x stk e in
    cons_increasing (prio d + 1) x (stk ++ v ∷ []) h.0 (increasing-push x stk v h.1 l)

pub increasing-pop :
    (p : ℕ) (stk : List ℕ) → increasing p stk ≡ true → increasing p (pop stk) ≡ true
unfolding pop
increasing-pop p [] e = e
increasing-pop p (x ∷ []) e = none_to_rise p
increasing-pop p (x ∷ y ∷ stk) e =
    let h = head_prio p x (y ∷ stk) e in
    cons_increasing p x (pop (y ∷ stk)) h.0 (increasing-pop (prio x + 1) (y ∷ stk) h.1)

-- All entries have the first priority at least.
pub on_stack_above :
    (p w : ℕ) (stk : List ℕ) → increasing p stk ≡ true → on_stack w stk ≡ true → p ≤ prio w
unfolding on_stack
on_stack_above p w [] e o = absurd (false≢true o)
on_stack_above p w (x ∷ stk) e o =
    let h = head_prio p x stk e in
    elim (ℕ_discrete w x) [
      | yes q ↦ omega (arith, h.0, ap prio q)
      | no ne ↦ omega (
        arith,
        h.0,
        on_stack_above (prio x + 1) w stk h.1
            (ap (λ b. b || on_stack w stk) (sym (==_of_ne w x ne)) ∙ o),
      )
    ]

-- There are sixteen priorities.
pub length_bound :
    (p : ℕ) (stk : List ℕ)
    → increasing p stk ≡ true
    → ((w : ℕ) → on_stack w stk ≡ true → w < 256)
    → p ≤ 16
    → p + length stk ≤ 16
unfolding on_stack
length_bound p [] e b l = omega arith
length_bound p (x ∷ stk) e b l =
    let h = head_prio p x stk e in
    let top : x < 256 = b x (ground (arith, ==-refl x)) in
    let rest : prio x + 1 + length stk ≤ 16 =
      length_bound (prio x + 1) stk h.1 (λ w o. b w (ground (arith, o))) (omega (arith, top)) in
    omega (arith, h.0, rest)

pub on_stack-push :
    (w v : ℕ) (stk : List ℕ) → on_stack w (stk ++ v ∷ []) ≡ (on_stack w stk || v == w)
unfolding on_stack
on_stack-push w v [] = ground arith
on_stack-push w v (x ∷ stk) = ap (λ b. w == x || b) (on_stack-push w v stk) ∙ ground arith

pub on_stack-last : (x : ℕ) (stk : List ℕ) → on_stack (last_or x stk) (x ∷ stk) ≡ true
unfolding on_stack last_or
on_stack-last x [] = ground (arith, ==-refl x)
on_stack-last x (y ∷ stk) = ground (arith, on_stack-last y stk)

-- The top outranks the other entries.
pub below_last :
    (p w x : ℕ) (stk : List ℕ)
    → increasing p (x ∷ stk) ≡ true
    → on_stack w (x ∷ stk) ≡ true
    → (w ≡ last_or x stk) ⊎ (prio w < prio (last_or x stk))
unfolding on_stack last_or
below_last p w x [] e o = inl ((==_iff w x).0 (ground (arith, o)))
below_last p w x (y ∷ stk) e o =
    let h = head_prio p x (y ∷ stk) e in
    let k = head_prio (prio x + 1) y stk h.1 in
    elim (ℕ_discrete w x) [
      | yes q ↦ inr (omega (arith, ap prio q, k.0, last_above y stk k.1))
      | no ne ↦
          below_last (prio x + 1) w y stk h.1
            (ap (λ b. b || on_stack w (y ∷ stk)) (sym (==_of_ne w x ne)) ∙ o)
    ]

pub on_stack-pop :
    (p w x : ℕ) (stk : List ℕ)
    → increasing p (x ∷ stk) ≡ true
    → on_stack w (pop (x ∷ stk)) ≡ (on_stack w (x ∷ stk) && not (last_or x stk == w))
unfolding on_stack last_or pop
on_stack-pop p w x [] e = ground arith
on_stack-pop p w x (y ∷ stk) e =
    let h = head_prio p x (y ∷ stk) e in
    let k = head_prio (prio x + 1) y stk h.1 in
    let ih = on_stack-pop (prio x + 1) w y stk h.1 in
    elim (ℕ_discrete w x) [
      | yes q ↦ ground (
        arith,
        (==_iff w x).1 q,
        ==_of_ne (last_or y stk) w
            (λ z. omega (arith, ap prio z, ap prio q, k.0, last_above y stk k.1)),
      )
      | no ne ↦
          ap (λ b. b || on_stack w (pop (y ∷ stk))) (==_of_ne w x ne)
          ∙ ih
          ∙ ap (λ b. (b || on_stack w (y ∷ stk)) && not (last_or y stk == w))
              (sym (==_of_ne w x ne))
    ]

-- The check of the ISR passes where its bits are the entries of the stack.
pub in_sync_passes :
    (n v p : ℕ) (isr stk : List ℕ)
    → increasing p stk ≡ true
    → ((w : ℕ) → on_stack w stk ≡ true → v ≤ w)
    → ((w : ℕ) → v ≤ w → w < v + n → has_vector isr w ≡ on_stack w stk)
    → in_sync n v isr stk ≡ true
unfolding in_sync on_stack
in_sync_passes zero v p isr stk e above same = refl
in_sync_passes (suc n) v p isr [] e above same = ground (
  arith,
  same v (omega arith) (omega arith),
  in_sync_passes n (v + 1) p isr [] e (λ w o. absurd (false≢true o))
      (λ w l h. same w (omega arith) (omega arith)),
)
in_sync_passes (suc n) v p isr (x ∷ stk) e above same = elim (ℕ_discrete v x) [
  | yes q ↦ ground (
    arith,
    same v (omega arith) (omega arith),
    (==_iff v x).1 q,
    (==_iff x v).1 (sym q),
    in_sync_passes n (v + 1) (prio x + 1) isr stk h.1
        (λ w o. omega (arith, on_stack_above (prio x + 1) w stk h.1 o, q))
        (λ w l u.
          same w (omega arith) (omega arith)
          ∙ ap (λ b. b || on_stack w stk) (==_of_ne w x (λ z. omega (arith, z, q)))),
  )
  | no ne ↦ ground (
    arith,
    off ne,
    in_sync_passes n (v + 1) p isr (x ∷ stk) e (λ w o. omega (arith, above w o, not_v ne w o))
        (λ w l u. same w (omega arith) (omega arith)),
  )
]
  where
    h : (p ≤ prio x) × (increasing (prio x + 1) stk ≡ true)
    h = head_prio p x stk e

    -- v is not an entry, as it is below the first one.
    v_off : v ≢ x → on_stack v (x ∷ stk) ≡ false
    v_off ne = elim (Bool-cases (on_stack v stk)) [
      | inl o ↦ absurd (
          omega
            (arith, on_stack_above (prio x + 1) v stk h.1 o, above x (ground (arith, ==-refl x))))
      | inr o ↦ ground (arith, o, ==_of_ne v x ne)
    ]

    not_v : v ≢ x → (w : ℕ) → on_stack w (x ∷ stk) ≡ true → w ≢ v
    not_v ne w o q = false≢true (sym (v_off ne) ∙ ap (λ u. on_stack u (x ∷ stk)) (sym q) ∙ o)

    off : v ≢ x → has_vector isr v ≡ false
    off ne = same v (omega arith) (omega arith) ∙ v_off ne

-- No entry outranks the top.
pub below_top :
    (p w : ℕ) (stk : List ℕ)
    → increasing p stk ≡ true
    → on_stack w stk ≡ true
    → prio w ≤ prio (last_or 0 stk)
unfolding on_stack last_or
below_top p w [] e o = absurd (false≢true o)
below_top p w (x ∷ stk) e o = elim (below_last p w x stk e o) [
  | inl q ↦ omega (arith, ap prio q)
  | inr l ↦ omega (arith, l)
]

-- A push and a pop.
pub pop-push : (stk : List ℕ) (v : ℕ) → pop (stk ++ v ∷ []) ≡ stk
unfolding pop
pop-push [] v = refl
pop-push (x ∷ []) v = refl
pop-push (x ∷ y ∷ stk) v = ap (◌∷◌ x) (pop-push (y ∷ stk) v)

pub last_or-push : (d : ℕ) (stk : List ℕ) (v : ℕ) → last_or d (stk ++ v ∷ []) ≡ v
unfolding last_or
last_or-push d [] v = refl
last_or-push d (x ∷ stk) v = last_or-push x stk v
