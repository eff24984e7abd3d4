-- ===== src/Vatpic/Valid.antt =====
-- The invariant of one chip of src/lib/vmm/io/vatpic.c, and what the commands do to it.
use hyperkit.Vatpic.Ports.{write_odd, write_even, write_chip, read, polled, after_icw1}
use hyperkit.Base.{
  ℕ, ◌%◌, ◌^◌, ◌≤◌, ◌<◌, ◌≡◌, refl, Bool, true, false, none, some, arith, Bool-cases, length,
  bit_and, Option, inl, inr,
}
use hyperkit.Base.Bits.Laws.{pow_lt, bit-bit_and}
use hyperkit.Base.Bits.Words.{has, bit_and-lt_right, bit_or-lt, clear-lt}
use hyperkit.Vatpic.PinLoop.{pin_foreach-lt}
use hyperkit.Vatpic.State.{
  Atpic, Status, ok, isr_round, irr_round, get_highest_isrpin, get_highest_irrpin, zeroed,
}
use hyperkit.Vatpic.Commands.{
  icw1, icw2, icw3, icw4, ocw1, ocw2, ocw3, eoi_target, eoi, end_of_interrupt, pin_accepted,
}

-- The registers are bytes, the indices are pins, and the initialization sequence is over exactly
-- when the chip says that it is ready.
pub record IsChip (a : Atpic) : Type 0 where
  pub request_in : a.request < 2 ^ 8
  pub service_in : a.service < 2 ^ 8
  pub mask_in : a.mask < 2 ^ 8
  pub lowprio_in : a.lowprio < 8
  pub base_in : a.irq_base < 2 ^ 8
  pub base_aligned : a.irq_base % 8 ≡ 0
  pub counts : length a.acnt ≡ 8
  pub icw_in : a.icw_num ≤ 4
  pub ready_idle : a.ready ≡ true → a.icw_num ≡ 0

pub zeroed-IsChip : IsChip zeroed
zeroed-IsChip = ground arith

-- `val & 0xf8` is a multiple of eight.
pub aligned_lem : (val : ℕ) → bit_and val 0xf8 % 8 ≡ 0
aligned_lem val =
    let x = bit_and val 0xf8 in
    ground (arith, bit-bit_and val 0xf8 0, bit-bit_and val 0xf8 1, bit-bit_and val 0xf8 2)

icw1-IsChip : {a : Atpic} (val : ℕ) → IsChip a → IsChip (icw1 a val).1
unfolding icw1
icw1-IsChip val v = ground arith

icw2-IsChip : {a : Atpic} (val : ℕ) → a.icw_num ≡ 2 → IsChip a → IsChip (icw2 a val).1
unfolding icw2
icw2-IsChip val e v = ground (arith, aligned_lem val, bit_and-lt_right 8 val 0xf8 (omega arith))

icw3-IsChip : {a : Atpic} (val : ℕ) → a.icw_num ≡ 3 → IsChip a → IsChip (icw3 a val).1
unfolding icw3
icw3-IsChip val e v = ground arith

icw4-IsChip : {a : Atpic} (b : Bool) (val : ℕ) → IsChip a → IsChip (icw4 b a val).1
unfolding icw4
icw4-IsChip b val v = ground arith

ocw1-IsChip : {a : Atpic} (val : ℕ) → IsChip a → IsChip (ocw1 a val).1
unfolding ocw1
ocw1-IsChip val v = ground (arith, bit_and-lt_right 8 val 0xff (omega arith))

ocw3-IsChip : {a : Atpic} (val : ℕ) → IsChip a → IsChip (ocw3 a val).1
unfolding ocw3
ocw3-IsChip val v = ground arith

pub get_highest_isrpin-lt :
    (a : Atpic) (p : ℕ) → a.lowprio < 8 → get_highest_isrpin a ≡ some p → p < 8
unfolding get_highest_isrpin
get_highest_isrpin-lt a p low h = pin_foreach-lt (isr_round a) a.lowprio low p h

pub get_highest_irrpin-lt :
    (a : Atpic) (p : ℕ) → a.lowprio < 8 → get_highest_irrpin a ≡ some p → p < 8
unfolding get_highest_irrpin
get_highest_irrpin-lt a p low h = pin_foreach-lt (irr_round a) a.lowprio low p h

end_of_interrupt-IsChip : {a : Atpic} (b : ℕ) → b < 8 → IsChip a → IsChip (end_of_interrupt a b)
unfolding end_of_interrupt
end_of_interrupt-IsChip {a} b h v = ground (arith, clear-lt 8 a.service (2 ^ b))

pub pin_accepted-IsChip : {a : Atpic} (pin : ℕ) → pin < 8 → IsChip a → IsChip (pin_accepted a pin)
unfolding pin_accepted
pin_accepted-IsChip {a} pin h v = ground (
  arith,
  clear-lt 8 a.request (2 ^ pin),
  bit_or-lt 8 a.service (2 ^ pin) v.service_in (pow_lt pin 8 h),
)

rotated-IsChip : {a : Atpic} (b : Bool) → IsChip a → IsChip (record a { rotate = b })
rotated-IsChip b v = ground arith

eoi-IsChip :
    {a : Atpic} (o : Option ℕ) → IsChip a → ((p : ℕ) → o ≡ some p → p < 8) → IsChip (eoi a o)
unfolding eoi
eoi-IsChip none v h = v
eoi-IsChip (some p) v h = end_of_interrupt-IsChip p (h p refl) v

eoi_target-lt : (a : Atpic) (val p : ℕ) → a.lowprio < 8 → eoi_target a val ≡ some p → p < 8
unfolding eoi_target
eoi_target-lt a val p low h = ground (arith, get_highest_isrpin-lt a p low)

pub ocw2-IsChip : {a : Atpic} (val : ℕ) → IsChip a → IsChip (ocw2 a val).1
unfolding ocw2
ocw2-IsChip {a} val v = ground (
  arith,
  eoi-IsChip (eoi_target (record a { rotate = has val 128 }) val) (rotated-IsChip (has val 128) v)
      (λ p. eoi_target-lt (record a { rotate = has val 128 }) val p v.lowprio_in),
)

write_odd-IsChip : {a : Atpic} (b : Bool) (val : ℕ) → IsChip a → IsChip (write_odd b a val).1
unfolding write_odd
write_odd-IsChip {a} b val v = ground (
  arith,
  icw2-IsChip {a = a} val,
  icw3-IsChip {a = a} val,
  icw4-IsChip b val v,
  ocw1-IsChip val v,
)

after_icw1-IsChip : (s : Status) (a : Atpic) (val : ℕ) → IsChip a → IsChip (after_icw1 (s, a) val).1
after_icw1-IsChip s a val v = ground (arith, ocw3-IsChip val v, ocw2-IsChip val v)

write_even-IsChip : {a : Atpic} (val : ℕ) → IsChip a → IsChip (write_even a val).1
unfolding write_even
write_even-IsChip {a} val v = elim (Bool-cases (has val 0x10)) [
  | inl e ↦ rw e (after_icw1-IsChip (icw1 a val).0 (icw1 a val).1 val (icw1-IsChip val v))
  | inr e ↦ rw e (after_icw1-IsChip ok a val v)
]

pub write_chip-IsChip :
    {a : Atpic} (b : Bool) (port val : ℕ) → IsChip a → IsChip (write_chip b a port val).1
unfolding write_chip
write_chip-IsChip {a} b port val v =
    ground (arith, write_odd-IsChip b val v, write_even-IsChip val v)

polled-IsChip :
    {a : Atpic} (o : Option ℕ) → IsChip a → ((p : ℕ) → o ≡ some p → p < 8) → IsChip (polled a o).1
unfolding polled
polled-IsChip none v h = v
polled-IsChip (some pin) v h = pin_accepted-IsChip pin (h pin refl) v

pub read-IsChip : {a : Atpic} (port : ℕ) → IsChip a → IsChip (read a port).1
unfolding read
read-IsChip {a} port v = ground (
  arith,
  polled-IsChip (get_highest_irrpin (record a { poll = false })) (poll_off v)
      (λ p. get_highest_irrpin-lt (record a { poll = false }) p v.lowprio_in),
)
  where
    poll_off : IsChip a → IsChip (record a { poll = false })
    poll_off v' = ground arith
