-- ===== src/Vioapic/EoiTable.antt =====
-- What vioapic_process_eoi of src/lib/vmm/io/vioapic.c does to the whole table.
use hyperkit.Base.{
  ℕ, zero, suc, ◌+◌, ◌^◌, ◌<◌, ◌≤◌, ◌≡◌, ◌≢◌, refl, sym, ap, ◌∙◌, Bool, true, false, not, ◌&&◌,
  List, ◌∷◌, bit_and, bit_or, get_or-set_self, ◌==◌, ==_of_ne, arith, if◌then◌else◌, length,
  length-set, get_or, ltb, ℕ_discrete,
}
use hyperkit.Base.Signed.{is_positive}
use hyperkit.Base.Bits.Words.{clear, zero_test}
use hyperkit.Vioapic.State.{
  Entry, Signal, Vioapic, blank, entry, put_entry, redir_entries, message, latched, send_intr,
}
use hyperkit.Vioapic.Delivery.{told, signals-send_intr}
use hyperkit.Vioapic.Eoi.{eoi_pin, eoi_loop, process_eoi}
use hyperkit.Vioapic.Entries.{
  masked, is_level, remote_irr, ended, eoi_entry, latched-reg, get_or-set, rtbl-eoi_pin,
}

-- One more round: the entry at pin moves from the rounds to come to the rounds that are over.
advance :
    (f : Entry → Entry) (pin j : ℕ) (x y z : Entry)
    → x ≡ (if pin == j then f z else y)
    → (pin ≡ j → z ≡ y)
    → (if ltb j (pin + 1) then x else f x) ≡ (if ltb j pin then y else f y)
advance f pin j x y z e h = elim (ℕ_discrete pin j) [
  | yes p ↦ ground (arith, ap f (h p))
  | no p ↦ ground (arith, same p)
]
  where
    same : pin ≢ j → x ≡ y
    same p = e ∙ rw (==_of_ne pin j p)

module _ (vector : ℕ) where
  length-eoi_pin :
      (v : Vioapic) (pin : ℕ)
      → pin < length v.rtbl
      → length (eoi_pin vector v pin).rtbl ≡ length v.rtbl
  length-eoi_pin v pin h = ap length (rtbl-eoi_pin vector v pin h) ∙ length-set v.rtbl pin _

  entry-eoi_pin :
      (v : Vioapic) (pin j : ℕ)
      → pin < length v.rtbl
      → entry (eoi_pin vector v pin) j
        ≡ (if pin == j then eoi_entry vector (entry v pin) else entry v j)
  entry-eoi_pin v pin j h =
      ap (λ l. get_or l j blank) (rtbl-eoi_pin vector v pin h)
      ∙ get_or-set v.rtbl pin j (eoi_entry vector (entry v pin)) h

  -- The rounds from pin on leave the entries below it alone, and treat each other one once.
  entry-eoi_loop :
      (n pin j : ℕ) (v : Vioapic)
      → pin + n ≡ length v.rtbl
      → j < length v.rtbl
      → entry (eoi_loop vector n pin v) j
        ≡ (if ltb j pin then entry v j else eoi_entry vector (entry v j))
  unfolding eoi_loop
  entry-eoi_loop zero pin j v e h = ground arith
  entry-eoi_loop (suc n) pin j v e h =
      entry-eoi_loop n (pin + 1) j (eoi_pin vector v pin)
        (omega (arith, length-eoi_pin v pin (omega arith)))
        (omega (arith, length-eoi_pin v pin (omega arith)))
      ∙ advance (eoi_entry vector) pin j _ (entry v j) (entry v pin)
          (entry-eoi_pin v pin j (omega arith)) (λ p. ap (entry v) p)

  -- An entry that waits for the end of this vector, and one that is delivered again at once: its count
  -- is positive and it is not masked.
  abbrev pub awaits : Entry → Bool
  awaits e = remote_irr e && bit_and e.reg 0xff == vector

  abbrev pub resends : Entry → Bool
  resends e = awaits e && is_positive e.acnt && not (masked (ended e))

  -- The entry afterwards: the remote IRR bit is clear, but for a level triggered one that is delivered
  -- again.
  abbrev pub after_eoi : Entry → Entry
  after_eoi e =
      let reg = clear 64 e.reg 0x4000 in
      if not (awaits e)
      then e
      else record e { reg = if resends e && is_level (ended e) then bit_or reg 0x4000 else reg }

  after_eoi_lem : (e : Entry) → eoi_entry vector e ≡ after_eoi e
  after_eoi_lem e =
      go (awaits e) (is_positive e.acnt) (masked (ended e)) (is_level (ended e)) (latched (ended e))
        (latched-reg (ended e))
    where
      go :
          (a p m l : Bool) (x : Entry)
          → x ≡ (if l then record (ended e) { reg = bit_or (ended e).reg (2 ^ 14) } else ended e)
          → (if a then (if p then (if m then ended e else x) else ended e) else e) ≡ (
              if not a then e else record e {
                reg =
                    if (a && p && not m) && l
                    then bit_or (clear 64 e.reg 0x4000) 0x4000
                    else clear 64 e.reg 0x4000;
              })
      go false p m l x h = refl
      go true false m l x h = refl
      go true true true l x h = refl
      go true true false true x h = h
      go true true false false x h = h

  signals-eoi_pin :
      (v : Vioapic) (pin : ℕ)
      → pin < length v.rtbl
      → (eoi_pin vector v pin).signals ≡ (
          if resends (entry v pin)
          then message (ended (entry v pin)).reg ∷ v.signals
          else v.signals)
  unfolding eoi_pin
  signals-eoi_pin v pin h =
      rw (zero_test (entry v pin).reg 14)
        (go (remote_irr e) (bit_and e.reg 0xff == vector) (is_positive e.acnt))
    where
      e : Entry
      e = entry v pin

      v1 : Vioapic
      v1 = put_entry v pin (ended e)

      sends : (send_intr v1 pin).signals ≡ told (ended e) v.signals
      sends =
          signals-send_intr v1 pin
          ∙ ap (λ (x : Entry). told x v.signals) (get_or-set_self v.rtbl pin (ended e) blank h)

      turned :
          told (ended e) v.signals
          ≡ (if not (masked (ended e)) then message (ended e).reg ∷ v.signals else v.signals)
      turned = ground arith

      go :
          (r m p : Bool)
          → (if not r then v else if not m then v else if p then send_intr v1 pin else v1).signals
            ≡ (if (r && m) && p && not (masked (ended e))
                then message (ended e).reg ∷ v.signals
                else v.signals)
      go false m p = refl
      go true false p = refl
      go true true true = sends ∙ turned
      go true true false = refl

  -- The messages of n pins from one on, in order, newest first, for the entries of a table.
  unfoldable pub notices : Vioapic → ℕ → ℕ → List Signal → List Signal
  notices v zero pin s = s
  notices v (suc n) pin s =
      notices v n (pin + 1)
        (if resends (entry v pin) then message (ended (entry v pin)).reg ∷ s else s)

  signals-eoi_loop :
      (v : Vioapic) (n pin : ℕ) (w : Vioapic)
      → pin + n ≡ length w.rtbl
      → ((j : ℕ) → pin ≤ j → entry w j ≡ entry v j)
      → (eoi_loop vector n pin w).signals ≡ notices v n pin w.signals
  unfolding eoi_loop notices
  signals-eoi_loop v zero pin w e same = refl
  signals-eoi_loop v (suc n) pin w e same =
      signals-eoi_loop v n (pin + 1) (eoi_pin vector w pin)
        (omega (arith, length-eoi_pin w pin (omega arith)))
        (λ j h.
          entry-eoi_pin w pin j (omega arith)
          ∙ rw (==_of_ne pin j (λ q. omega (arith, q))) (same j (omega arith)))
      ∙ ap (notices v n (pin + 1)) (
          signals-eoi_pin w pin (omega arith)
          ∙ ap (λ (x : Entry). if resends x then message (ended x).reg ∷ w.signals else w.signals)
              (same pin (omega arith)))

  -- The end of an interrupt treats every entry of the table once and by itself. One that waits for this
  -- vector loses its remote IRR bit. If its count is positive and it is not masked, one message is
  -- sent for it, in the order of the pins, and if it is level triggered it has its bit again. Nothing
  -- else is sent, and every other entry is as before.
  pub entry-process_eoi :
      (v : Vioapic) (pin : ℕ)
      → length v.rtbl ≡ redir_entries
      → pin < redir_entries
      → (entry (process_eoi v vector) pin ≡ after_eoi (entry v pin))
        × ((process_eoi v vector).signals ≡ notices v redir_entries 0 v.signals)
  unfolding process_eoi
  entry-process_eoi v pin table h = (
    entry-eoi_loop redir_entries 0 pin v (sym table) (omega (arith, table))
        ∙ ground arith
        ∙ after_eoi_lem (entry v pin),
    signals-eoi_loop v redir_entries 0 v (sym table) (λ j h. refl),
  )
