-- ===== src/Vrtc/Ports.antt =====
-- The ports, the timer and the entry points of the real-time clock in src/lib/vmm/io/vrtc.c.
use hyperkit.Base.{
  ℕ, ◌-◌, ◌/◌, ◌%◌, ◌^◌, Bool, true, false, not, ◌&&◌, ◌||◌, List, [], ◌∷◌, ltb, leb, ◌==◌,
  replicate, if◌then◌else◌, get_or, set, bit_and, bit_or, bit_xor, Option, none, some,
}
use hyperkit.Base.Bits.Words.{has, clear}
use hyperkit.Vrtc.Fields.{Rtcdev, halted, secs_to_rtc, rtc_to_secs}
use hyperkit.Vrtc.Registers.{
  Vrtc, Clocks, with_dev, aintr_enabled, pintr_enabled, uintr_enabled, divider_enabled,
  update_enabled, sbt_1s, curtime, set_reg_c, Updated, updated, busy, endless, time_update,
}

-- `pf` of vrtc_freq
abbrev pf : List ℕ
pf =
    0
    ∷ sbt_1s / 256
    ∷ sbt_1s / 128
    ∷ sbt_1s / 8192
    ∷ sbt_1s / 4096
    ∷ sbt_1s / 2048
    ∷ sbt_1s / 1024
    ∷ sbt_1s / 512
    ∷ sbt_1s / 256
    ∷ sbt_1s / 128
    ∷ sbt_1s / 64
    ∷ sbt_1s / 32
    ∷ sbt_1s / 16
    ∷ sbt_1s / 8
    ∷ sbt_1s / 4
    ∷ sbt_1s / 2
    ∷ []

unfoldable pub freq : Vrtc → ℕ
freq v =
    if pintr_enabled v && divider_enabled v.rtcdev.reg_a
    then get_or pf (bit_and v.rtcdev.reg_a 0xf) 0
    else if (aintr_enabled v || uintr_enabled v) && update_enabled v
    then sbt_1s
    else 0

unfoldable pub callout_reset : Vrtc → ℕ → Vrtc
callout_reset v freqsbt = record v { callout = if freqsbt == 0 then none else some freqsbt }

-- vrtc_callout_check tests an assertion alone.
abbrev pub retime : ℕ → Vrtc → Vrtc
retime oldfreq v = if freq v == oldfreq then v else callout_reset v (freq v)

-- The end of a call: 0, an error, or none because a loop does not end.
pub data Outcome : Type 0 where
  finished : Vrtc → Outcome
  failed : Vrtc → Outcome
  stuck : Outcome

-- Go on with the state after vrtc_time_update, whose error only an assertion looks at.
unfoldable pub after_update : Updated → (Vrtc → Outcome) → Outcome
after_update (updated v) k = k v
after_update (busy v) k = k v
after_update endless k = stuck

-- The part of vrtc_set_reg_b for a change of `RTCSB_HALT`; `rtc_flag_broken_time` is 1.
unfoldable pub change_halt : Clocks → Vrtc → (Vrtc → Outcome) → Outcome
change_halt c v k =
    let cur = curtime v c.later in
    let frozen = with_dev v (secs_to_rtc c.shown cur.time true) in
    let quiet = with_dev frozen (λ (rtc : Rtcdev). record rtc { reg_b = clear 8 rtc.reg_b 0x10 }) in
    let secs = rtc_to_secs v.rtcdev in
    let set : Outcome = elim secs [
      | none ↦ failed v
      | some t ↦ after_update (time_update c.host v (some t) c.later) k
    ] in
    if halted v.rtcdev.reg_b then after_update (time_update c.host quiet none cur.base) k else set

unfoldable pub set_reg_b : Clocks → Vrtc → ℕ → Outcome
set_reg_b c v newval =
    let changed = bit_xor v.rtcdev.reg_b newval in
    let after = with_dev v (λ (rtc : Rtcdev). record rtc { reg_b = newval }) in
    let end = λ (t : Vrtc).
      finished (retime (freq v) (if has changed 0x70 then set_reg_c t t.rtcdev.reg_c else t)) in
    if has changed 0x80 then change_halt c after end else end after

-- `RTCSA_TUP` is 0x80.
unfoldable pub set_reg_a : Clocks → Vrtc → ℕ → Vrtc
set_reg_a c v val =
    let newval = clear 8 val 0x80 in
    let based =
      if not (divider_enabled v.rtcdev.reg_a) && divider_enabled newval
      then record v { base_uptime = c.later }
      else v in
    retime (freq v) (with_dev based (λ (rtc : Rtcdev). record rtc { reg_a = newval }))

-- vrtc_callout_handler, with whether the callout is pending again.
unfoldable pub callout_handler : Clocks → Bool → Vrtc → Outcome
callout_handler c pending v =
    let stopped = record v { callout = none } in
    let ticked =
      if pintr_enabled v then set_reg_c stopped (bit_or v.rtcdev.reg_c 0x40) else stopped in
    let cur = curtime ticked c.uptime in
    let end = λ (t : Vrtc). finished (callout_reset t (freq t)) in
    elim v.callout [
      | none ↦ finished v
      | some _ ↦
          if pending
          then finished v
          else if aintr_enabled v || uintr_enabled v
          then after_update (time_update c.host ticked cur.time cur.base) end
          else end ticked
    ]

unfoldable pub set_time : Clocks → Vrtc → ℕ → Updated
set_time c v secs = time_update c.host v (some secs) c.uptime

abbrev pub century_offset : ℕ
century_offset = 0x32

-- The bytes of `struct rtcdev` in order, apart from the century's place.
abbrev registers : Rtcdev → List ℕ
registers r =
    r.sec ∷ r.alarm_sec ∷ r.min ∷ r.alarm_min ∷ r.hour ∷ r.alarm_hour ∷ r.day_of_week
    ∷ r.day_of_month ∷ r.month ∷ r.year ∷ r.reg_a ∷ r.reg_b ∷ r.reg_c ∷ r.reg_d ∷ r.nvram

unfoldable pub byte : Rtcdev → ℕ → ℕ
byte r offset = if offset == century_offset then r.century else get_or (registers r) offset 0

-- A write of a byte that is not one of the registers A to D.
unfoldable pub store : Rtcdev → ℕ → ℕ → Rtcdev
store r offset b =
    if offset == 0
    then record r { sec = b }
    else if offset == 1
    then record r { alarm_sec = b }
    else if offset == 2
    then record r { min = b }
    else if offset == 3
    then record r { alarm_min = b }
    else if offset == 4
    then record r { hour = b }
    else if offset == 5
    then record r { alarm_hour = b }
    else if offset == 6
    then record r { day_of_week = b }
    else if offset == 7
    then record r { day_of_month = b }
    else if offset == 8
    then record r { month = b }
    else if offset == 9
    then record r { year = b }
    else if offset == century_offset
    then record r { century = b }
    else record r { nvram = set r.nvram (offset - 14) b }

-- vrtc_nvram_write; `none` is `EINVAL`.
unfoldable pub nvram_write : Vrtc → ℕ → ℕ → Option Vrtc
nvram_write v offset value =
    if ltb offset 14 || offset == century_offset || leb 128 offset
    then none
    else some (with_dev v (λ (rtc : Rtcdev). store rtc offset value))

abbrev is_date : ℕ → Bool
is_date offset = ltb offset 10 || offset == century_offset

-- A refresh of the date where the offset is one of its fields.
unfoldable pub refresh : Clocks → ℕ → Option ℕ → Vrtc → Vrtc
refresh c offset cur v = if is_date offset then with_dev v (secs_to_rtc c.shown cur false) else v

-- The value and the clock after vrtc_nvram_read.
pub record Byte : Type 0 where
  pub value : ℕ
  pub clock : Vrtc

abbrev byte_of : ℕ → Vrtc → Byte
byte_of x v = record { value = x; clock = v }

unfoldable pub nvram_read : Clocks → Vrtc → ℕ → Option Byte
nvram_read c v offset =
    let after = refresh c offset (curtime v c.uptime).time v in
    if leb 128 offset then none else some (byte_of (byte after.rtcdev offset) after)

unfoldable pub addr_write : Vrtc → ℕ → Vrtc
addr_write v val = record v { addr = bit_and val 0x7f }

abbrev refreshed : Clocks → ℕ → Option ℕ → Updated → Updated
refreshed c offset cur (updated v) = updated (refresh c offset cur v)
refreshed c offset cur (busy v) = busy (refresh c offset cur v)
refreshed c offset cur endless = endless

-- The state at which vrtc_data_handler begins the access.
unfoldable pub begin : Clocks → Vrtc → Updated
begin c v =
    let cur = curtime v c.uptime in
    refreshed c v.addr cur.time (time_update c.host v cur.time cur.base)

-- The access of a read, and of a write, to the port of the data.
unfoldable pub read_byte : Vrtc → Byte
read_byte v =
    if v.addr == 12
    then byte_of v.rtcdev.reg_c (set_reg_c v 0)
    else byte_of (byte v.rtcdev v.addr) v

-- The end of a write to the century byte.
unfoldable pub change_century : Clocks → Vrtc → Outcome
change_century c v = elim (rtc_to_secs v.rtcdev) [
  | none ↦ after_update (time_update c.host v none c.later) failed
  | some t ↦ after_update (time_update c.host v (some t) c.later) finished
]

unfoldable pub write_byte : Clocks → ℕ → Vrtc → Outcome
write_byte c val v =
    let stored = with_dev v (λ (rtc : Rtcdev).
      store rtc v.addr ((if v.addr == 0 then bit_and val 0x7f else val) % 2 ^ 8)) in
    if v.addr == 10
    then finished (set_reg_a c v (val % 2 ^ 8))
    else if v.addr == 11
    then set_reg_b c v (val % 2 ^ 8)
    else if v.addr == 12 || v.addr == 13
    then finished v
    else if v.addr == century_offset && not (halted v.rtcdev.reg_b)
    then change_century c stored
    else finished stored

-- vrtc_data_handler for one byte; `addr` is below 128 after vrtc_addr_handler.
unfoldable pub data_write : Clocks → ℕ → Vrtc → Outcome
data_write c val v = after_update (begin c v) (write_byte c val)

unfoldable pub data_read : Clocks → Vrtc → Option Byte
data_read c v = elim (begin c v) [
  | updated t ↦ some (read_byte t)
  | busy t ↦ some (read_byte t)
  | endless ↦ none
]

-- vrtc_reset clears `RTCSB_ALL_INTRS` and `RTCSB_SQWE`, and then the flags.
unfoldable pub reset : Clocks → Vrtc → Outcome
reset c v = elim (set_reg_b c v (clear 8 v.rtcdev.reg_b 0x78)) [
  | finished t ↦ finished (set_reg_c t 0)
  | failed t ↦ finished (set_reg_c t 0)
  | stuck ↦ stuck
]

abbrev zeroed : Rtcdev
zeroed = record {
  sec = 0;
  alarm_sec = 0;
  min = 0;
  alarm_min = 0;
  hour = 0;
  alarm_hour = 0;
  day_of_week = 0;
  day_of_month = 0;
  month = 0;
  year = 0;
  reg_a = 0x20;
  reg_b = 0x02;
  reg_c = 0;
  reg_d = 0x80;
  nvram = replicate 114 0;
  century = 0;
}

abbrev fresh : Vrtc
fresh = record {
  addr = 13;
  base_uptime = 0;
  base_rtctime = none;
  rtcdev = zeroed;
  callout = none;
  pulses = 0;
}

-- vrtc_init, with the time at 0.
unfoldable pub init : Clocks → Outcome
init c =
    after_update (time_update c.host fresh (some 0) c.uptime)
      (λ (v : Vrtc). finished (with_dev v (secs_to_rtc c.shown (some 0) false)))
