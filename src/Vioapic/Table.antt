-- ===== src/Vioapic/Table.antt =====
-- The redirection table of src/lib/vmm/io/vioapic.c as the guest sees it: what a write leaves, what
-- a read returns, and what the end of an interrupt does to the whole table.
use hyperkit.Base.{
  ℕ, ◌+◌, ◌*◌, ◌^◌, ◌/◌, ◌-◌, ◌%◌, ◌<◌, ◌≡◌, ◌≢◌, refl, sym, ap, ap₂, ◌∙◌, Bool, true, false, not,
  ◌&&◌, ◌||◌, ◌==◌, ==_of_ne, arith, if◌then◌else◌, if_cases, length, length-set, get_or,
  get_or-set_self, bit_and, bit_or, bit_xor, leb, ltb, lt→ltb, ◌∷◌,
}
use mathlib.Core.Bool.{xor}
use hyperkit.Base.Bits.Laws.{
  bit, bit-bit_and, bit-bit_or, bit-bit_xor, bit-pow, bit-ones, bit_of_lt,
}
use hyperkit.Base.Bits.Words.{has}
use hyperkit.Base.Bits.Shifts.{bit-mul, bit-mod, bit-div}
use hyperkit.Vioapic.State.{
  Entry, Vioapic, blank, entry, put_entry, redir_entries, send_intr, rendezvous,
}
use hyperkit.Vioapic.Registers.{
  merged, due, read, write_redir, write, is_redir, not64, rtbl_ro_bits, pin_of, shift_of,
}
use hyperkit.Vioapic.Entries.{sent, latched-reg, rtbl-send_intr}

-- The bits that the guest cannot write: delivery status and remote IRR.
abbrev pub read_only : ℕ → Bool
read_only k = (12 == k) || (14 == k)

bit-ro : (k : ℕ) → bit rtbl_ro_bits k ≡ read_only k
bit-ro k = bit-bit_or (2 ^ 12) (2 ^ 14) k ∙ ap₂ ◌||◌ (bit-pow 12 k) (bit-pow 14 k)

bit-not64 : (x k : ℕ) → k < 64 → bit (not64 x) k ≡ not (bit x k)
unfolding xor
bit-not64 x k h = bit-bit_xor x (2 ^ 64 - 1) k ∙ ground (arith, bit-ones 64 k)

-- Bit k stands in the half that is written.
abbrev pub in_half : ℕ → ℕ → Bool
in_half lshift k = leb lshift k && ltb (k - lshift) 32

bit-mask : (lshift k : ℕ) → bit (0xffffffff * 2 ^ lshift) k ≡ in_half lshift k
bit-mask lshift k =
    bit-mul lshift 0xffffffff k ∙ ap (λ b. leb lshift k && b) (bit-ones 32 (k - lshift))

-- Every bit of a register after a write: a read-only bit stays, a bit of the half that is written
-- is the guest's, and a bit of the other half stays.
pub bit-merged :
    (last lshift value k : ℕ)
    → value < 2 ^ 32
    → k < 64
    → bit (merged last lshift value) k ≡ (
        if read_only k
        then bit last k
        else if in_half lshift k
        then bit value (k - lshift)
        else bit last k)
unfolding merged
bit-merged last lshift value k hv hk =
    bit-bit_or (bit_and last (bit_or (not64 (0xffffffff * 2 ^ lshift)) rtbl_ro_bits))
      (bit_and (value * 2 ^ lshift) (not64 rtbl_ro_bits)) k
    ∙ ap₂ ◌||◌
        (bit-bit_and last (bit_or (not64 (0xffffffff * 2 ^ lshift)) rtbl_ro_bits) k
          ∙ ap (λ b. bit last k && b)
              (bit-bit_or (not64 (0xffffffff * 2 ^ lshift)) rtbl_ro_bits k
                ∙ ap₂ ◌||◌ (bit-not64 _ k hk ∙ ap not (bit-mask lshift k)) (bit-ro k)))
        (bit-bit_and (value * 2 ^ lshift) (not64 rtbl_ro_bits) k
          ∙ ap₂ ◌&&◌ (bit-mul lshift value k) (bit-not64 rtbl_ro_bits k hk ∙ ap not (bit-ro k)))
    ∙ choose (bit last k) (read_only k) (leb lshift k) (ltb (k - lshift) 32)
        (bit value (k - lshift)) above
  where
    above : ltb (k - lshift) 32 ≡ false → bit value (k - lshift) ≡ false
    above h = bit_of_lt 32 value (k - lshift) hv (ground arith)

    choose :
        (l r a b v : Bool)
        → (b ≡ false → v ≡ false)
        → l && (not (a && b) || r) || (a && v) && not r ≡ (if r then l else if a && b then v else l)
    choose l true a b v h = ground arith
    choose l false false b v h = ground arith
    choose l false true true v h = ground arith
    choose l false true false v h = rw (h refl) (ground arith)

sent-bit : (e : Entry) (k : ℕ) → k ≢ 14 → bit (sent e).reg k ≡ bit e.reg k
sent-bit e k h = ground (
  arith,
  latched-reg e,
  bit-bit_or e.reg (2 ^ 14) k,
  bit-pow 14 k,
  ==_of_ne 14 k (λ p. h (sym p)),
)

read-redir :
    (v : Vioapic) (addr : ℕ)
    → is_redir (addr % 256) ≡ true
    → read v addr ≡ (entry v (pin_of (addr % 256))).reg / 2 ^ shift_of (addr % 256) % 2 ^ 32
unfolding read
read-redir v addr h = ground arith

write-redir :
    (between : Vioapic → Vioapic) (v : Vioapic) (addr value : ℕ)
    → is_redir (addr % 256) ≡ true
    → write between v addr value
      ≡ write_redir between v (pin_of (addr % 256)) (shift_of (addr % 256)) value
unfolding write
write-redir between v addr value h = ground arith

-- What other threads may do to the table while a write has released the lock.
pub record Tame (between : Vioapic → Vioapic) : Type 0 where
  pub keeps_table :
      (v : Vioapic) → length v.rtbl ≡ redir_entries → length (between v).rtbl ≡ redir_entries
  pub keeps_bits :
      (v : Vioapic) (pin k : ℕ)
      → length v.rtbl ≡ redir_entries
      → k ≢ 14
      → bit (entry (between v) pin).reg k ≡ bit (entry v pin).reg k

module _ (between : Vioapic → Vioapic) (tame : Tame between) where
  reg-write_redir :
      (v : Vioapic) (pin lshift value k : ℕ)
      → length v.rtbl ≡ redir_entries
      → pin < redir_entries
      → k ≢ 14
      → bit (entry (write_redir between v pin lshift value) pin).reg k
        ≡ bit (merged (entry v pin).reg lshift value) k
  unfolding write_redir
  reg-write_redir v pin lshift value k table hp hk =
      if_cases (λ (w : Vioapic). bit (entry w pin).reg k ≡ bit new k) (due (entry v2 pin))
        (λ d. resent ∙ bit-v2) (λ d. bit-v2)
    where
      new : ℕ
      new = merged (entry v pin).reg lshift value

      e1 : Entry
      e1 = record (entry v pin) { reg = new }

      v1 : Vioapic
      v1 = put_entry v pin e1

      called : Vioapic
      called = record v1 { signals = rendezvous ∷ v1.signals }

      v2 : Vioapic
      v2 = if has (bit_xor (entry v pin).reg new) (not64 0x12000) then between called else v1

      table1 : length v1.rtbl ≡ redir_entries
      table1 = length-set v.rtbl pin e1 ∙ table

      bit-v1 : bit (entry v1 pin).reg k ≡ bit new k
      bit-v1 =
          ap (λ (e : Entry). bit e.reg k)
            (get_or-set_self v.rtbl pin e1 blank (omega (arith, table)))

      v2_cases : (length v2.rtbl ≡ redir_entries) × (bit (entry v2 pin).reg k ≡ bit new k)
      v2_cases =
          if_cases
            (λ (w : Vioapic).
              (length w.rtbl ≡ redir_entries) × (bit (entry w pin).reg k ≡ bit new k))
            (has (bit_xor (entry v pin).reg new) (not64 0x12000))
            (λ c. (tame.keeps_table called table1, tame.keeps_bits called pin k table1 hk ∙ bit-v1))
            (λ c. (table1, bit-v1))

      bit-v2 : bit (entry v2 pin).reg k ≡ bit new k
      bit-v2 = v2_cases.1

      resent : bit (entry (send_intr v2 pin) pin).reg k ≡ bit (entry v2 pin).reg k
      resent =
          ap (λ l. bit (get_or l pin blank).reg k) (rtbl-send_intr v2 pin)
          ∙ ap (λ (e : Entry). bit e.reg k)
              (get_or-set_self v2.rtbl pin (sent (entry v2 pin)) blank (omega (arith, v2_cases.0)))
          ∙ sent-bit (entry v2 pin) k hk

  -- A guest that reads back a redirection register finds what it wrote, but for the read-only bits.
  pub read-write :
      (v : Vioapic) (addr value k : ℕ)
      → length v.rtbl ≡ redir_entries
      → is_redir (addr % 256) ≡ true
      → value < 2 ^ 32
      → k < 32
      → read_only (k + shift_of (addr % 256)) ≡ false
      → bit (read (write between v addr value) addr) k ≡ bit value k
  read-write v addr value k table redir hv hk writable =
      let r = addr % 256 in
      let j = k + shift_of r in
      ap (λ w. bit (read w addr) k) (write-redir between v addr value redir)
      ∙ ap (λ x. bit x k)
          (read-redir (write_redir between v (pin_of r) (shift_of r) value) addr redir)
      ∙ bit-mod 32 _ k
      ∙ ap₂ ◌&&◌ (lt→ltb k 32 hk) (bit-div (shift_of r) _ k)
      ∙ reg-write_redir v (pin_of r) (shift_of r) value j table (pin_lt r redir)
          (λ e. not14 j e writable)
      ∙ bit-merged (entry v (pin_of r)).reg (shift_of r) value j hv (j_lt r)
      ∙ chosen (shift_of r) writable
    where
      not14 : (j : ℕ) → j ≡ 14 → read_only j ≡ false → ⊥
      not14 j e h = ground arith

      pin_lt : (r : ℕ) → is_redir r ≡ true → pin_of r < redir_entries
      pin_lt r h = ground arith

      j_lt : (r : ℕ) → k + shift_of r < 64
      j_lt r = ground arith

      half : (sh : ℕ) → in_half sh (k + sh) ≡ true
      half sh = ground arith

      back : (sh : ℕ) → k + sh - sh ≡ k
      back sh = omega arith

      chosen :
          (sh : ℕ)
          → read_only (k + sh) ≡ false
          → (if read_only (k + sh)
              then bit (entry v (pin_of (addr % 256))).reg (k + sh)
              else if in_half sh (k + sh)
              then bit value (k + sh - sh)
              else bit (entry v (pin_of (addr % 256))).reg (k + sh))
            ≡ bit value k
      chosen sh h = rw (h, half sh) (ap (bit value) (back sh))
