-- ===== src/Vioapic/Delivery.antt =====
-- When src/lib/vmm/io/vioapic.c sends an interrupt: on the first of the asserts of a shared line.
use hyperkit.Base.{
  ℕ, zero, suc, ◌<◌, ◌≡◌, ap, ◌∙◌, Bool, true, ◌&&◌, arith, if◌then◌else◌, Bool-cases, List, ◌∷◌,
  inl, inr, length, length-set, get_or, get_or-set_self,
}
use hyperkit.Base.Signed.{ℤ, pos, is, incr}
use hyperkit.Vatpic.Ports.{assert}
use hyperkit.Vioapic.State.{
  Entry, Signal, Vioapic, blank, entry, put_entry, redir_entries, message, send_intr, set_pinstate,
  apply_irqstate, set_irqstate,
}
use hyperkit.Vioapic.Entries.{masked, moved, counted, latched-reg, mask_test, rtbl-set_pinstate}

-- The signals after the delivery for an entry.
abbrev pub told : Entry → List Signal → List Signal
told e s = if masked e then s else message e.reg ∷ s

pub signals-send_intr :
    (v : Vioapic) (pin : ℕ) → (send_intr v pin).signals ≡ told (entry v pin) v.signals
unfolding send_intr
signals-send_intr v pin = elim (Bool-cases (masked (entry v pin))) [
  | inl m ↦ rw (mask_test (entry v pin), m)
  | inr m ↦ rw (mask_test (entry v pin), m)
]

-- A change of the count sends an interrupt only when the count goes from 0 to 1.
signals-set_pinstate :
    (v : Vioapic) (pin : ℕ) (up : Bool)
    → pin < length v.rtbl
    → (set_pinstate v pin up).signals ≡ (
        if is (entry v pin).acnt 0 && is (counted up (entry v pin).acnt) 1
        then told (entry v pin) v.signals
        else v.signals)
unfolding set_pinstate
signals-set_pinstate v pin up h =
    let e = entry v pin in
    let e1 = record e { acnt = counted up e.acnt } in
    elim (Bool-cases (is e.acnt 0 && is (counted up e.acnt) 1)) [
      | inl c ↦ rw c (
          signals-send_intr (put_entry v pin e1) pin
          ∙ ap (λ (x : Entry). told x v.signals) (get_or-set_self v.rtbl pin e1 blank h))
      | inr c ↦ rw c
    ]

moved-acnt : (up : Bool) (e : Entry) → (moved up e).acnt ≡ counted up e.acnt
moved-acnt up e = ground (arith, latched-reg (record e { acnt = counted up e.acnt }))

acnt-set_pinstate :
    (v : Vioapic) (pin : ℕ) (up : Bool)
    → pin < length v.rtbl
    → (entry (set_pinstate v pin up) pin).acnt ≡ counted up (entry v pin).acnt
acnt-set_pinstate v pin up h =
    ap (λ l. (get_or l pin blank).acnt) (rtbl-set_pinstate v pin up h)
    ∙ ap (λ (x : Entry). x.acnt) (get_or-set_self v.rtbl pin (moved up (entry v pin)) blank h)
    ∙ moved-acnt up (entry v pin)

length-set_pinstate :
    (v : Vioapic) (pin : ℕ) (up : Bool)
    → pin < length v.rtbl
    → length (set_pinstate v pin up).rtbl ≡ length v.rtbl
length-set_pinstate v pin up h = ap length (rtbl-set_pinstate v pin up h) ∙ length-set v.rtbl pin _

-- A device asserts a line n times.
unfoldable pub asserts : ℕ → Vioapic → ℕ → Vioapic
asserts zero v irq = v
asserts (suc n) v irq = (set_irqstate (asserts n v irq) irq assert).1

rises :
    (z : ℤ) (x y : List Signal) → z ≡ pos 0 → (if is z 0 && is (counted true z) 1 then x else y) ≡ x
unfolding incr
rises z x y e = rw e

stays_up :
    (z : ℤ) (n : ℕ) (x y : List Signal)
    → z ≡ pos (suc n)
    → (if is z 0 && is (counted true z) 1 then x else y) ≡ y
unfolding incr
stays_up z n x y e = rw e (ground arith)

incr-pos : (z : ℤ) (n : ℕ) → z ≡ pos n → counted true z ≡ pos (suc n)
unfolding incr
incr-pos z n e = rw e

-- What n + 1 asserts have done.
record Asserted (v w : Vioapic) (irq n : ℕ) : Type 0 where
  table : length w.rtbl ≡ redir_entries
  count : (entry w irq).acnt ≡ pos (suc n)
  once : w.signals ≡ told (entry v irq) v.signals

assert_lem :
    (v : Vioapic) (irq : ℕ)
    → irq < redir_entries
    → (set_irqstate v irq assert).1 ≡ set_pinstate v irq true
unfolding set_irqstate apply_irqstate
assert_lem v irq h = ground arith

module _ (v : Vioapic) (irq : ℕ) (table : length v.rtbl ≡ redir_entries) (h : irq < redir_entries)
    (idle : (entry v irq).acnt ≡ pos 0) where
  asserts-Asserted : (n : ℕ) → Asserted v (asserts (suc n) v irq) irq n
  unfolding asserts
  asserts-Asserted zero = rw (assert_lem v irq h) (record {
    table = length-set_pinstate v irq true (omega (arith, table)) ∙ table;
    count = acnt-set_pinstate v irq true (omega (arith, table)) ∙ incr-pos _ 0 idle;
    once = signals-set_pinstate v irq true (omega (arith, table)) ∙ rises _ _ _ idle;
  })
  asserts-Asserted (suc n) =
      let before = asserts-Asserted n in
      let w = asserts (suc n) v irq in
      rw (assert_lem w irq h) (record {
        table = length-set_pinstate w irq true (omega (arith, before.table)) ∙ before.table;
        count =
            acnt-set_pinstate w irq true (omega (arith, before.table))
            ∙ incr-pos _ (suc n) before.count;
        once =
            signals-set_pinstate w irq true (omega (arith, before.table))
            ∙ stays_up _ n _ _ before.count
            ∙ before.once;
      })

  -- However often a device asserts an idle line, the I/O APIC sends one message, and none if the
  -- pin is masked.
  pub signals-asserts : (n : ℕ) → (asserts (suc n) v irq).signals ≡ told (entry v irq) v.signals
  signals-asserts n = (asserts-Asserted n).once
