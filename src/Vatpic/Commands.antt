-- ===== src/Vatpic/Commands.antt =====
-- The initialization and operation command words of src/lib/vmm/io/vatpic.c, and the acceptance of
-- an interrupt. `x & 0x7` is written `x % 8`.
use hyperkit.Base.{
  ℕ, ◌+◌, ◌%◌, ◌^◌, Bool, true, false, not, ◌&&◌, Option, none, some, if◌then◌else◌, bit_and,
  bit_or, get_or,
}
use hyperkit.Base.Signed.{pos, is}
use hyperkit.Base.Bits.Words.{has, clear}
use hyperkit.Vatpic.State.{Atpic, Status, ok, failed, get_highest_isrpin}

-- The fields that vatpic_icw1 resets, before its two checks.
abbrev pub reset : Atpic → Atpic
reset a = record a {
  ready = false;
  icw_num = 1;
  request = 0;
  mask = 0;
  lowprio = 7;
  rd_cmd_reg = 0;
  poll = false;
  smm = false;
}

unfoldable pub icw1 : Atpic → ℕ → Status × Atpic
icw1 a val =
    if has val 0x02
    then (failed, reset a)
    else if not (has val 0x01)
    then (failed, reset a)
    else (ok, record (reset a) { icw_num = 2 })

unfoldable pub icw2 : Atpic → ℕ → Status × Atpic
icw2 a val = (ok, record a { irq_base = bit_and val 0xf8; icw_num = a.icw_num + 1 })

unfoldable pub icw3 : Atpic → ℕ → Status × Atpic
icw3 a val = (ok, record a { icw_num = a.icw_num + 1 })

-- The flag says whether the chip is the master (`master_atpic`).
unfoldable pub icw4 : Bool → Atpic → ℕ → Status × Atpic
icw4 is_master a val = if not (has val 0x01) then (failed, a) else (
  ok,
  record a {
    aeoi = if has val 0x02 then true else a.aeoi;
    sfn = if has val 0x10 && is_master then true else a.sfn;
    icw_num = 0;
    ready = true;
  },
)

unfoldable pub ocw1 : Atpic → ℕ → Status × Atpic
ocw1 a val = (ok, record a { mask = bit_and val 0xff })

-- The end of interrupt for one in-service bit, with the rotation that OCW2 asks for.
unfoldable pub end_of_interrupt : Atpic → ℕ → Atpic
end_of_interrupt a isr_bit =
    let cleared = record a { service = clear 8 a.service (2 ^ isr_bit) } in
    if a.rotate then record cleared { lowprio = isr_bit } else cleared

-- `isr_bit` of a specific and of a non-specific end of interrupt
unfoldable pub eoi_target : Atpic → ℕ → Option ℕ
eoi_target a val = if has val 0x40 then some (val % 8) else get_highest_isrpin a

unfoldable pub eoi : Atpic → Option ℕ → Atpic
eoi a none = a
eoi a (some isr_bit) = end_of_interrupt a isr_bit

unfoldable pub ocw2 : Atpic → ℕ → Status × Atpic
ocw2 a val =
    let a1 = record a { rotate = has val 0x80 } in
    if has val 0x20
    then (ok, eoi a1 (eoi_target a1 val))
    else if has val 0x40 && a1.rotate
    then (ok, record a1 { lowprio = val % 8 })
    else (ok, a1)

unfoldable pub ocw3 : Atpic → ℕ → Status × Atpic
ocw3 a val =
    let a1 = record a { smm = if has val 0x40 then has val 0x20 else a.smm } in
    if has val 0x02
    then (ok, record a1 { rd_cmd_reg = bit_and val 0x01; poll = has val 0x04 })
    else (ok, a1)

unfoldable pub pin_accepted : Atpic → ℕ → Atpic
pin_accepted a pin =
    let a1 = record a {
      intr_raised = false;
      request = if is (get_or a.acnt pin (pos 0)) 0 then clear 8 a.request (2 ^ pin) else a.request;
    } in
    if a1.aeoi
    then (if a1.rotate then record a1 { lowprio = pin } else a1)
    else record a1 { service = bit_or a1.service (2 ^ pin) }
