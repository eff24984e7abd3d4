-- ===== src/Vioapic/Writes.antt =====
-- The guest's accesses to the memory window of src/lib/vmm/io/vioapic.c lose no level triggered
-- interrupt, whatever other threads do while the lock is released.
use hyperkit.Base.{
  ℕ, ◌+◌, ◌^◌, ◌-◌, ◌%◌, ◌<◌, ◌≡◌, refl, sym, ap, ◌∙◌, Bool, true, false, not, ◌&&◌, ◌||◌, ◌==◌,
  arith, if◌then◌else◌, Bool-cases, if_cases, inl, inr, ==_iff, false≢true, bit_and, bit_xor, ◌∷◌,
}
use hyperkit.Base.Bits.Words.{has, zero_test}
use hyperkit.Vioapic.State.{Entry, Vioapic, entry, put_entry, redir_entries, rendezvous}
use hyperkit.Vioapic.Registers.{
  merged, due, write_redir, write, mmio_rw, is_redir, not64, vioapic_base,
}
use hyperkit.Vioapic.Served.{
  waits, IsServedBut, weaken, set-IsServedBut, or-false, send_intr-IsServedBut,
}

-- An entry that is not due does not wait.
waits_of_due : (e : Entry) → due e ≡ false → waits e ≡ false
unfolding due
waits_of_due e h = ground (arith, zero_test e.reg 16, zero_test e.reg 14)

module _ (between : Vioapic → Vioapic)
    (keeps : (free : ℕ → Bool) (v : Vioapic) → IsServedBut free v → IsServedBut free (between v))
    (free : ℕ → Bool) where
  -- An entry that is free is bound again when it does not wait.
  bind :
      {v : Vioapic} (pin : ℕ)
      → IsServedBut (λ j. j == pin || free j) v
      → pin < redir_entries
      → waits (entry v pin) ≡ false
      → IsServedBut free v
  bind {v} pin s h quiet = record {
    table = s.table;
    served = λ j hj b. elim (Bool-cases (j == pin)) [
      | inl e ↦ ap (λ k. waits (entry v k)) ((==_iff j pin).0 e) ∙ quiet
      | inr e ↦ s.served j hj (or-false _ _ e b)
    ];
  }

  -- Any value may be written to a pin that is being worked on.
  work :
      {v : Vioapic} (pin : ℕ) (e : Entry)
      → IsServedBut free v
      → pin < redir_entries
      → IsServedBut (λ j. j == pin || free j) (put_entry v pin e)
  work {v} pin e s h =
      set-IsServedBut (λ j. j == pin || free j) pin e (weaken free pin s) h refl
        (λ b. absurd (false≢true (sym b ∙ self)))
    where
      self : pin == pin || free pin ≡ true
      self = ground arith

  write_redir-IsServedBut :
      {v : Vioapic} (pin lshift value : ℕ)
      → IsServedBut free v
      → pin < redir_entries
      → IsServedBut free (write_redir between v pin lshift value)
  unfolding write_redir
  write_redir-IsServedBut {v} pin lshift value s h =
      if_cases (IsServedBut free) (due (entry v2 pin)) (λ d. send_intr-IsServedBut free pin h s2)
        (λ d. bind pin s2 h (waits_of_due (entry v2 pin) d))
    where
      e : Entry
      e = entry v pin

      v1 : Vioapic
      v1 = put_entry v pin (record e { reg = merged e.reg lshift value })

      v2 : Vioapic
      v2 =
          if has (bit_xor e.reg (merged e.reg lshift value)) (not64 0x12000)
          then between (record v1 { signals = rendezvous ∷ v1.signals })
          else v1

      s1 : IsServedBut (λ j. j == pin || free j) v1
      s1 = work pin (record e { reg = merged e.reg lshift value }) s h

      s2 : IsServedBut (λ j. j == pin || free j) v2
      s2 =
          if_cases (IsServedBut (λ j. j == pin || free j))
            (has (bit_xor e.reg (merged e.reg lshift value)) (not64 0x12000))
            (λ c.
              keeps (λ j. j == pin || free j) (record v1 { signals = rendezvous ∷ v1.signals })
                (record { table = s1.table; served = s1.served }))
            (λ c. s1)

  pub write-IsServedBut :
      {v : Vioapic} (addr value : ℕ)
      → IsServedBut free v
      → IsServedBut free (write between v addr value)
  unfolding write
  write-IsServedBut {v} addr value s =
      if_cases (IsServedBut free) (is_redir (addr % 256))
        (λ r. write_redir-IsServedBut _ _ value s1 (ground arith)) (λ r. s1)
    where
      s1 :
          IsServedBut free
            (if addr % 256 == 0x00 then record v { id = bit_and value 0xff000000 } else v)
      s1 =
          if_cases (IsServedBut free) (addr % 256 == 0x00)
            (λ c. record { table = s.table; served = s.served }) (λ c. s)

  -- No access to the memory window makes a pin wait that did not, if what other threads do while
  -- the lock is released makes none wait.
  pub mmio_rw-IsServedBut :
      {v : Vioapic} (gpa value size : ℕ) (doread : Bool)
      → IsServedBut free v
      → IsServedBut free (mmio_rw between v gpa value size doread).1
  unfolding mmio_rw
  mmio_rw-IsServedBut {v} gpa value size doread s =
      let offset = (gpa + 2 ^ 64 - vioapic_base) % 2 ^ 64 in
      if_cases Fine (not (size == 4) || (not (offset == 0x00) && not (offset == 0x10))) (λ c. s)
        (λ c.
          if_cases Fine (offset == 0x00)
            (λ d.
              if_cases Fine doread (λ r. s) (λ r. record { table = s.table; served = s.served }))
            (λ d.
              if_cases Fine doread (λ r. s) (λ r. write-IsServedBut v.ioregsel (value % 2 ^ 32) s)))
    where
      Fine : ℕ × Vioapic → Type 0
      Fine r = IsServedBut free r.1
