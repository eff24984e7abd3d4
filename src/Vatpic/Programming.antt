-- ===== src/Vatpic/Programming.antt =====
-- The initialization sequence of src/lib/vmm/io/vatpic.c, as the guest writes it to the ports of a
-- chip.
use hyperkit.Base.{
  ℕ, ◌%◌, ◌≡◌, refl, ap, ◌∙◌, Bool, true, false, arith, if◌then◌else◌, bit_and, ◌&&◌,
}
use hyperkit.Base.Bits.Words.{has}
use hyperkit.Vatpic.State.{Atpic, Status, ok, Vatpic, Chip, master, slave, get, put}
use hyperkit.Vatpic.Notify.{notify_intr}
use hyperkit.Vatpic.Commands.{reset, icw1, icw2, icw3, icw4}
use hyperkit.Vatpic.Ports.{write_chip, write_even, write_odd, is_master, write}

-- A first word that is in order opens the sequence; a chip that is not ready takes no operation
-- command.
open_sequence :
    (b : Bool) (a : Atpic) (even val : ℕ)
    → has even 1 ≡ false
    → has val 0x10 ≡ true
    → has val 0x02 ≡ false
    → has val 0x01 ≡ true
    → write_chip b a even val ≡ (ok, record (reset a) { icw_num = 2 })
unfolding write_chip write_even icw1
open_sequence b a even val port start cascade fourth = rw (port, start, cascade, fourth)

second :
    (b : Bool) (a : Atpic) (odd val : ℕ)
    → has odd 1 ≡ true
    → a.icw_num ≡ 2
    → write_chip b a odd val ≡ icw2 a val
unfolding write_chip write_odd
second b a odd val port e = ground arith

third :
    (b : Bool) (a : Atpic) (odd val : ℕ)
    → has odd 1 ≡ true
    → a.icw_num ≡ 3
    → write_chip b a odd val ≡ icw3 a val
unfolding write_chip write_odd
third b a odd val port e = ground arith

fourth :
    (b : Bool) (a : Atpic) (odd val : ℕ)
    → has odd 1 ≡ true
    → a.icw_num ≡ 4
    → write_chip b a odd val ≡ icw4 b a val
unfolding write_chip write_odd
fourth b a odd val port e = ground arith

-- vatpic_write by what it does to its chip.
write_by :
    (c : Chip) (v : Vatpic) (port eax : ℕ) (r : Status × Atpic)
    → write_chip (is_master c) (get c v) port (eax % 256) ≡ r
    → (write c v port eax).1 ≡ (if r.1.ready then notify_intr (put c r.1 v) else put c r.1 v)
unfolding write
write_by c v port eax r e = rw e refl

get-put : (c : Chip) (a : Atpic) (v : Vatpic) → get c (put c a v) ≡ a
get-put master a v = refl
get-put slave a v = refl

put-put : (c : Chip) (a b : Atpic) (v : Vatpic) → put c b (put c a v) ≡ put c b v
put-put master a b v = refl
put-put slave a b v = refl

-- A write in the middle of a sequence: the chip was put in place by the write before.
next_write :
    (c : Chip) (v : Vatpic) (a : Atpic) (port eax : ℕ) (r : Status × Atpic)
    → write_chip (is_master c) a port (eax % 256) ≡ r
    → (write c (put c a v) port eax).1
      ≡ (if r.1.ready then notify_intr (put c r.1 v) else put c r.1 v)
next_write c v a port eax r e =
    write_by c (put c a v) port eax r
      (ap (λ x. write_chip (is_master c) x port (eax % 256)) (get-put c a v) ∙ e)
    ∙ ap (λ w. if r.1.ready then notify_intr w else w) (put-put c a r.1 v)

module _ (c : Chip) (v : Vatpic) (even odd v1 v2 v3 v4 : ℕ) where
  -- The controllers after the four writes, without their statuses.
  abbrev pub programmed : Vatpic
  programmed = (write c (write c (write c (write c v even v1).1 odd v2).1 odd v3).1 odd v4).1

  -- The chip as the words ask for it.
  abbrev pub configured : Atpic
  configured = record (get c v) {
    ready = true;
    icw_num = 0;
    request = 0;
    mask = 0;
    lowprio = 7;
    rd_cmd_reg = 0;
    poll = false;
    smm = false;
    irq_base = bit_and (v2 % 256) 0xf8;
    aeoi = if has (v4 % 256) 0x02 then true else (get c v).aeoi;
    sfn = if has (v4 % 256) 0x10 && is_master c then true else (get c v).sfn;
  }

  -- Four writes, the first to the even port of a chip and the others to the odd one, put the chip in
  -- its new state and then notify the processor, once, of what waits: if the first word asks for cascade
  -- mode and a fourth word and the fourth for 8086 mode, the chip is ready, with its requests dropped
  -- and nothing masked, with the aligned vector base and the highest priority at pin 0. Automatic end
  -- of interrupt, and special fully nested mode on the master, are on where the fourth word asks for
  -- them, and otherwise as before; what is in service, the counts of the lines and the other chip stay
  -- until the notification.
  pub programmed_lem :
      has even 1 ≡ false
      → has odd 1 ≡ true
      → has (v1 % 256) 0x10 ≡ true
      → has (v1 % 256) 0x02 ≡ false
      → has (v1 % 256) 0x01 ≡ true
      → has (v4 % 256) 0x01 ≡ true
      → programmed ≡ notify_intr (put c configured v)
  unfolding icw2 icw3 icw4
  programmed_lem p q start cascade four mode =
      ap (λ w. (write c (write c (write c w odd v2).1 odd v3).1 odd v4).1)
        (write_by c v even v1 _
          (open_sequence (is_master c) (get c v) even (v1 % 256) p start cascade four))
      ∙ ap (λ w. (write c (write c w odd v3).1 odd v4).1)
          (next_write c v s1 odd v2 _ (second (is_master c) s1 odd (v2 % 256) q refl))
      ∙ ap (λ w. (write c w odd v4).1)
          (next_write c v s2 odd v3 _ (third (is_master c) s2 odd (v3 % 256) q refl))
      ∙ next_write c v s3 odd v4 (ok, configured)
          (fourth (is_master c) s3 odd (v4 % 256) q refl ∙ rw mode)
    where
      s1 : Atpic
      s1 = record (reset (get c v)) { icw_num = 2 }

      s2 : Atpic
      s2 = record (reset (get c v)) { icw_num = 3; irq_base = bit_and (v2 % 256) 0xf8 }

      s3 : Atpic
      s3 = record (reset (get c v)) { icw_num = 4; irq_base = bit_and (v2 % 256) 0xf8 }
