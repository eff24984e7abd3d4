-- ===== src/Vioapic/Served.antt =====
-- The remote IRR bits of the level triggered pins of src/lib/vmm/io/vioapic.c whose line is up.
use hyperkit.Base.{
  ℕ, zero, suc, ◌+◌, ◌^◌, ◌<◌, ◌≡◌, refl, ap, ◌∙◌, Bool, true, false, not, ◌&&◌, ◌||◌, ◌==◌, arith,
  if_cases, ==_iff, ==_of_ne, length, length-set, get_or, set, replicate, bit_and, leb,
}
use hyperkit.Base.Signed.{ℤ, pos, negsuc, is, is_positive, incr, decr}
use hyperkit.Base.Bits.Laws.{bit-bit_or, bit-pow}
use hyperkit.Vatpic.State.{Status}
use hyperkit.Vatpic.Ports.{IrqState, assert, deassert, pulse}
use hyperkit.Vioapic.State.{
  Entry, Vioapic, blank, entry, redir_entries, send_intr, set_pinstate, apply_irqstate,
  set_irqstate, init,
}
use hyperkit.Vioapic.Eoi.{eoi_pin, eoi_loop, process_eoi}
use hyperkit.Vioapic.Entries.{
  masked, is_level, remote_irr, sent, moved, counted, ended, eoi_entry, latched-reg, get_or-set,
  rtbl-send_intr, rtbl-set_pinstate, rtbl-eoi_pin,
}

-- A level triggered pin whose line is up and whose remote IRR bit should be set and is not.
abbrev pub waits : Entry → Bool
waits e = is_positive e.acnt && is_level e && not (masked e) && not (remote_irr e)

-- No pin waits, but for those that are being worked on.
pub record IsServedBut (free : ℕ → Bool) (v : Vioapic) : Type 0 where
  pub table : length v.rtbl ≡ redir_entries
  pub served : (pin : ℕ) → pin < redir_entries → free pin ≡ false → waits (entry v pin) ≡ false

sent-waits : (e : Entry) → waits (sent e) ≡ false
sent-waits e = ground (arith, latched-reg e, bit-bit_or e.reg (2 ^ 14) 14, bit-pow 14 14)

-- A count that goes up or down and is positive, but has not just left zero, was positive.
positive_before :
    (up : Bool) (n : ℤ)
    → (is n 0 && is (counted up n) 1) ≡ false
    → is_positive (counted up n) ≡ true
    → is_positive n ≡ true
unfolding incr decr
positive_before true (pos zero) c p = cc
positive_before true (pos (suc n)) c p = refl
positive_before true (negsuc zero) c p = cc
positive_before true (negsuc (suc n)) c p = cc
positive_before false (pos zero) c p = cc
positive_before false (pos (suc n)) c p = refl
positive_before false (negsuc n) c p = cc

still_quiet :
    (p q l m r : Bool)
    → (q ≡ true → p ≡ true)
    → p && l && not m && not r ≡ false
    → q && l && not m && not r ≡ false
still_quiet p true l m r f h = rw (f refl) at h
still_quiet p false l m r f h = refl

moved-waits : (up : Bool) (e : Entry) → waits e ≡ false → waits (moved up e) ≡ false
moved-waits up e h =
    if_cases (λ (x : Entry). waits x ≡ false) (is e.acnt 0 && is (counted up e.acnt) 1)
      (λ c. sent-waits (record e { acnt = counted up e.acnt }))
      (λ c.
        still_quiet (is_positive e.acnt) (is_positive (counted up e.acnt)) (is_level e) (masked e)
          (remote_irr e) (positive_before up e.acnt c) h)

not_positive : (p l m r : Bool) → p ≡ false → p && l && not m && not r ≡ false
not_positive p l m r h = ground arith

eoi_entry-waits : (vector : ℕ) (e : Entry) → waits e ≡ false → waits (eoi_entry vector e) ≡ false
eoi_entry-waits vector e h =
    if_cases (λ (x : Entry). waits x ≡ false) (remote_irr e && bit_and e.reg 0xff == vector)
      (λ c.
        if_cases (λ (x : Entry). waits x ≡ false) (is_positive e.acnt) (λ p. sent-waits (ended e))
          (λ p. not_positive _ _ _ _ p))
      (λ c. h)

or-right : (a b : Bool) → a || b ≡ false → b ≡ false
or-right a b h = ground arith

pub or-false : (a b : Bool) → a ≡ false → b ≡ false → a || b ≡ false
or-false a b h k = ground arith

get_or-replicate : (n i : ℕ) (e : Entry) → get_or (replicate n e) i e ≡ e
get_or-replicate zero i e = refl
get_or-replicate (suc n) zero e = refl
get_or-replicate (suc n) (suc i) e = get_or-replicate n i e

module _ (free : ℕ → Bool) where
  pub weaken :
      {v : Vioapic} (pin : ℕ) → IsServedBut free v → IsServedBut (λ j. j == pin || free j) v
  weaken pin s = record {
    table = s.table;
    served = λ j hj bound. s.served j hj (or-right _ _ bound);
  }

  -- One entry, which may have waited, is replaced by one that does not.
  pub replace :
      {v w : Vioapic} (pin : ℕ) (e : Entry)
      → IsServedBut (λ j. j == pin || free j) v
      → pin < redir_entries
      → w.rtbl ≡ set v.rtbl pin e
      → (free pin ≡ false → waits e ≡ false)
      → IsServedBut free w
  replace {v} {w} pin e s hp same quiet = record {
    table = ap length same ∙ length-set v.rtbl pin e ∙ s.table;
    served = λ j hj bound.
        ap (λ l. waits (get_or l j blank)) same
        ∙ ap waits (get_or-set v.rtbl pin j e (omega (arith, s.table)))
        ∙ if_cases (λ (x : Entry). waits x ≡ false) (pin == j)
            (λ p. quiet (ap free ((==_iff pin j).0 p) ∙ bound))
            (λ p. s.served j hj (or-false _ _ (==_of_ne j pin (λ e. apart e p)) bound));
  }
    where
      apart : {j pin : ℕ} → j ≡ pin → (pin == j) ≡ false → ⊥
      apart q p = ground arith

  pub set-IsServedBut :
      {v w : Vioapic} (pin : ℕ) (e : Entry)
      → IsServedBut free v
      → pin < redir_entries
      → w.rtbl ≡ set v.rtbl pin e
      → (free pin ≡ false → waits e ≡ false)
      → IsServedBut free w
  set-IsServedBut pin e s hp same quiet = replace pin e (weaken pin s) hp same quiet

  set_pinstate-IsServedBut :
      {v : Vioapic} (pin : ℕ) (up : Bool)
      → IsServedBut free v
      → pin < redir_entries
      → IsServedBut free (set_pinstate v pin up)
  set_pinstate-IsServedBut {v} pin up s h =
      set-IsServedBut pin (moved up (entry v pin)) s h
        (rtbl-set_pinstate v pin up (omega (arith, s.table)))
        (λ bound. moved-waits up (entry v pin) (s.served pin h bound))

  pub set_irqstate-IsServedBut :
      {v : Vioapic} (irq : ℕ) (state : IrqState)
      → IsServedBut free v
      → IsServedBut free (set_irqstate v irq state).1
  unfolding set_irqstate apply_irqstate
  set_irqstate-IsServedBut {v} irq state s =
      if_cases (λ (r : Status × Vioapic). IsServedBut free r.1) (leb redir_entries irq) (λ e. s)
        (λ e. go state (ground arith))
    where
      go : (state : IrqState) → irq < redir_entries → IsServedBut free (apply_irqstate v irq state)
      go assert h = set_pinstate-IsServedBut irq true s h
      go deassert h = set_pinstate-IsServedBut irq false s h
      go pulse h = set_pinstate-IsServedBut irq false (set_pinstate-IsServedBut irq true s h) h

  eoi_pin-IsServedBut :
      (vector : ℕ) {v : Vioapic} (pin : ℕ)
      → IsServedBut free v
      → pin < redir_entries
      → IsServedBut free (eoi_pin vector v pin)
  eoi_pin-IsServedBut vector {v} pin s h =
      set-IsServedBut pin (eoi_entry vector (entry v pin)) s h
        (rtbl-eoi_pin vector v pin (omega (arith, s.table)))
        (λ bound. eoi_entry-waits vector (entry v pin) (s.served pin h bound))

  eoi_loop-IsServedBut :
      (vector n pin : ℕ) {v : Vioapic}
      → IsServedBut free v
      → pin + n ≡ redir_entries
      → IsServedBut free (eoi_loop vector n pin v)
  unfolding eoi_loop
  eoi_loop-IsServedBut vector zero pin s e = s
  eoi_loop-IsServedBut vector (suc n) pin s e =
      eoi_loop-IsServedBut vector n (pin + 1) (eoi_pin-IsServedBut vector pin s (omega arith))
        (omega arith)

  pub process_eoi-IsServedBut :
      {v : Vioapic} (vector : ℕ) → IsServedBut free v → IsServedBut free (process_eoi v vector)
  unfolding process_eoi
  process_eoi-IsServedBut vector s = eoi_loop-IsServedBut vector redir_entries 0 s refl

  pub send_intr-IsServedBut :
      {v : Vioapic} (pin : ℕ)
      → pin < redir_entries
      → IsServedBut (λ j. j == pin || free j) v
      → IsServedBut free (send_intr v pin)
  send_intr-IsServedBut {v} pin h s =
      replace pin (sent (entry v pin)) s h (rtbl-send_intr v pin) (λ b. sent-waits (entry v pin))

-- The initial table masks every pin.
pub init-IsServedBut : IsServedBut (λ j. false) init
unfolding init
init-IsServedBut = record {
  table = refl;
  served = λ pin h b. ap waits (get_or-replicate redir_entries pin blank);
}
