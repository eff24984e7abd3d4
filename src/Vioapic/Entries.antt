-- ===== src/Vioapic/Entries.antt =====
-- What the operations of src/lib/vmm/io/vioapic.c do to one entry of the redirection table, and that
-- they leave the others alone.
use hyperkit.Base.{
  ℕ, ◌^◌, ◌<◌, ◌≡◌, refl, sym, ap, ◌∙◌, Bool, true, false, not, ◌&&◌, ◌==◌, ==_iff, ==_of_ne, arith,
  if◌then◌else◌, Bool-cases, inl, inr, length, get_or, set, set-set, set-get_or, List,
  get_or-set_self, get_or-set_ne, bit_and, bit_or, ℕ_discrete,
}
use hyperkit.Base.Signed.{ℤ, is, is_positive, incr, decr}
use hyperkit.Base.Bits.Laws.{bit}
use hyperkit.Base.Bits.Shifts.{bit-mod}
use hyperkit.Base.Bits.Words.{clear, has-pow, pow_test, zero_test}
use hyperkit.Vioapic.State.{
  Entry, Vioapic, blank, entry, put_entry, low_half, latched, send_intr, set_pinstate,
}
use hyperkit.Vioapic.Eoi.{eoi_pin}

-- The fields of a redirection register that the delivery turns on.
abbrev pub masked : Entry → Bool
masked e = bit e.reg 16

abbrev pub is_level : Entry → Bool
is_level e = bit e.reg 15

abbrev pub remote_irr : Entry → Bool
remote_irr e = bit e.reg 14

pub get_or-set :
    (l : List Entry) (pin j : ℕ) (e : Entry)
    → pin < length l
    → get_or (set l pin e) j blank ≡ (if pin == j then e else get_or l j blank)
get_or-set l pin j e h = elim (ℕ_discrete pin j) [
  | yes p ↦
      ap (λ t. get_or (set l pin e) t blank) (sym p)
      ∙ get_or-set_self l pin e blank h
      ∙ rw ((==_iff pin j).1 p)
  | no p ↦ get_or-set_ne l pin j e blank p ∙ rw (==_of_ne pin j p)
]

low_bit : (x k : ℕ) → k < 32 → bit (low_half x) k ≡ bit x k
low_bit x k h = bit-mod 32 x k ∙ ground arith

-- An entry after vioapic_send_intr.
abbrev pub sent : Entry → Entry
sent e = if masked e then e else latched e

pub latched-reg :
    (e : Entry) → latched e ≡ (if is_level e then record e { reg = bit_or e.reg (2 ^ 14) } else e)
unfolding latched
latched-reg e = rw (has-pow (low_half e.reg) 15, low_bit e.reg 15 (omega arith))

pub mask_test : (e : Entry) → (bit_and (low_half e.reg) 0x10000 == 0x10000) ≡ masked e
mask_test e = pow_test (low_half e.reg) 16 ∙ low_bit e.reg 16 (omega arith)

pub rtbl-send_intr :
    (v : Vioapic) (pin : ℕ) → (send_intr v pin).rtbl ≡ set v.rtbl pin (sent (entry v pin))
unfolding send_intr
rtbl-send_intr v pin = elim (Bool-cases (masked (entry v pin))) [
  | inl m ↦ rw (mask_test (entry v pin), m) (sym (set-get_or v.rtbl pin blank))
  | inr m ↦ rw (mask_test (entry v pin), m)
]

-- An entry after vioapic_set_pinstate.
abbrev pub counted : Bool → ℤ → ℤ
counted up n = if up then incr n else decr n

abbrev pub moved : Bool → Entry → Entry
moved up e =
    let e1 = record e { acnt = counted up e.acnt } in
    if is e.acnt 0 && is (counted up e.acnt) 1 then sent e1 else e1

pub rtbl-set_pinstate :
    (v : Vioapic) (pin : ℕ) (up : Bool)
    → pin < length v.rtbl
    → (set_pinstate v pin up).rtbl ≡ set v.rtbl pin (moved up (entry v pin))
unfolding set_pinstate
rtbl-set_pinstate v pin up h =
    let e = entry v pin in
    let e1 = record e { acnt = counted up e.acnt } in
    let v1 = put_entry v pin e1 in
    elim (Bool-cases (is e.acnt 0 && is (counted up e.acnt) 1)) [
      | inl c ↦ rw c (
          rtbl-send_intr v1 pin
          ∙ set-set v.rtbl pin e1 (sent (entry v1 pin))
          ∙ ap (λ t. set v.rtbl pin (sent t)) (get_or-set_self v.rtbl pin e1 blank h))
      | inr c ↦ rw c
    ]

-- An entry after the round of vioapic_process_eoi for its pin.
abbrev pub ended : Entry → Entry
ended e = record e { reg = clear 64 e.reg (2 ^ 14) }

abbrev pub eoi_entry : ℕ → Entry → Entry
eoi_entry vector e =
    if remote_irr e && bit_and e.reg 0xff == vector
    then (if is_positive e.acnt then sent (ended e) else ended e)
    else e

pub rtbl-eoi_pin :
    (vector : ℕ) (v : Vioapic) (pin : ℕ)
    → pin < length v.rtbl
    → (eoi_pin vector v pin).rtbl ≡ set v.rtbl pin (eoi_entry vector (entry v pin))
unfolding eoi_pin
rtbl-eoi_pin vector v pin h =
    rw (zero_test (entry v pin).reg 14)
      (cases (remote_irr e) (bit_and e.reg 0xff == vector) (is_positive e.acnt))
  where
    e : Entry
    e = entry v pin

    v1 : Vioapic
    v1 = put_entry v pin (ended e)

    resent : (send_intr v1 pin).rtbl ≡ set v.rtbl pin (sent (ended e))
    resent =
        rtbl-send_intr v1 pin
        ∙ set-set v.rtbl pin (ended e) (sent (entry v1 pin))
        ∙ ap (λ t. set v.rtbl pin (sent t)) (get_or-set_self v.rtbl pin (ended e) blank h)

    cases :
        (r m p : Bool)
        → (if not r then v else if not m then v else if p then send_intr v1 pin else v1).rtbl
          ≡ set v.rtbl pin (if r && m then (if p then sent (ended e) else ended e) else e)
    cases false m p = sym (set-get_or v.rtbl pin blank)
    cases true false p = sym (set-get_or v.rtbl pin blank)
    cases true true true = resent
    cases true true false = refl
