-- ===== src/Vrtc/Registers.antt =====
-- The state of the real-time clock in src/lib/vmm/io/vrtc.c, its time, its interrupt flags and its
-- timer.
use hyperkit.Base.{
  ℕ, zero, suc, ◌+◌, ◌-◌, ◌*◌, ◌/◌, ◌^◌, Bool, true, false, not, ◌&&◌, ◌||◌, leb, ◌==◌,
  if◌then◌else◌, bit_and, bit_or, Option, none, some, ◌>>=◌,
}
use hyperkit.Base.Bits.Words.{has}
use hyperkit.Vrtc.Clock.{Timespec}
use hyperkit.Vrtc.Fields.{Rtcdev, halted, secs_to_rtc}

-- `struct vrtc`: the callout is its period while it is active, and `pulses` counts the interrupts.
pub record Vrtc : Type 0 where
  pub addr : ℕ
  pub base_uptime : ℕ
  pub base_rtctime : Option ℕ
  pub rtcdev : Rtcdev
  pub callout : Option ℕ
  pub pulses : ℕ

-- What the clocks of the host say during a call: sbinuptime at its first and at any later reading,
-- and clock_get_time, for each second that the alarm is checked at, and otherwise.
pub record Clocks : Type 0 where
  pub uptime : ℕ
  pub later : ℕ
  pub host : ℕ → Timespec
  pub shown : Timespec

abbrev pub with_dev : Vrtc → (Rtcdev → Rtcdev) → Vrtc
with_dev v f = record v { rtcdev = f v.rtcdev }

-- `RTCSB_AINTR`, `RTCSB_PINTR` and `RTCSB_UINTR`
abbrev pub aintr_enabled : Vrtc → Bool
aintr_enabled v = has v.rtcdev.reg_b 0x20

abbrev pub pintr_enabled : Vrtc → Bool
pintr_enabled v = has v.rtcdev.reg_b 0x40

abbrev pub uintr_enabled : Vrtc → Bool
uintr_enabled v = has v.rtcdev.reg_b 0x10

abbrev pub divider_enabled : ℕ → Bool
divider_enabled reg_a = bit_and reg_a 0x70 == 0x20

abbrev pub is_valid_time : Option ℕ → Bool
is_valid_time none = false
is_valid_time (some t) = true

unfoldable pub update_enabled : Vrtc → Bool
update_enabled v =
    divider_enabled v.rtcdev.reg_a && not (halted v.rtcdev.reg_b) && is_valid_time v.base_rtctime

-- `SBT_1S`
abbrev pub sbt_1s : ℕ
sbt_1s = 2 ^ 32

-- The result of vrtc_curtime, and its `*basetime`.
pub record Curtime : Type 0 where
  pub time : Option ℕ
  pub base : ℕ

unfoldable pub curtime : Vrtc → ℕ → Curtime
curtime v now =
    let secs = (now - v.base_uptime) / sbt_1s in
    if update_enabled v
    then record {
      time = v.base_rtctime >>= (λ t. some (t + secs));
      base = v.base_uptime + secs * sbt_1s;
    }
    else record { time = v.base_rtctime; base = v.base_uptime }

-- `RTCIR_ALARM`, `RTCIR_PERIOD` and `RTCIR_UPDATE` are 0x20, 0x40 and 0x10; `RTCIR_INT` is 0x80.
unfoldable pub raises : Vrtc → ℕ → Bool
raises v flags =
    aintr_enabled v && has flags 0x20
    || (pintr_enabled v && has flags 0x40 || uintr_enabled v && has flags 0x10)

unfoldable pub set_reg_c : Vrtc → ℕ → Vrtc
set_reg_c v val =
    let newval = bit_and val 0x70 in
    let newirqf = raises v newval in
    let after =
      with_dev v
        (λ (rtc : Rtcdev). record rtc { reg_c = bit_or (if newirqf then 0x80 else 0) newval }) in
    if not (has v.rtcdev.reg_c 0x80) && newirqf
    then record after { pulses = v.pulses + 1 }
    else after

-- The alarm registers at the begin of vrtc_time_update.
pub record Alarm : Type 0 where
  pub sec : ℕ
  pub min : ℕ
  pub hour : ℕ

abbrev pub alarm_of : Rtcdev → Alarm
alarm_of rtc = record { sec = rtc.alarm_sec; min = rtc.alarm_min; hour = rtc.alarm_hour }

-- A register of 0xC0 or more matches any value.
abbrev pub field_matches : ℕ → ℕ → Bool
field_matches a v = leb 0xC0 a || a == v

unfoldable pub alarm_matches : Alarm → Rtcdev → Bool
alarm_matches a rtc =
    field_matches a.sec rtc.sec && field_matches a.min rtc.min && field_matches a.hour rtc.hour

-- The check of the alarm in one round, at time t.
unfoldable pub check_alarm : Alarm → (ℕ → Timespec) → ℕ → Vrtc → Vrtc
check_alarm a host t v =
    let shown = with_dev v (secs_to_rtc (host t) (some t) false) in
    if not (aintr_enabled v)
    then v
    else if alarm_matches a shown.rtcdev
    then set_reg_c shown (bit_or shown.rtcdev.reg_c 0x20)
    else shown

-- One round of the loop, which brings the time from t to `t'`.
unfoldable pub round : Alarm → (ℕ → Timespec) → ℕ → Vrtc → Vrtc
round a host t v = check_alarm a host t (record v { base_rtctime = some t })

-- The rounds that go forward by a second each, after one that has reached t; `none` is for want of
-- fuel.
unfoldable pub seconds_loop : ℕ → Alarm → (ℕ → Timespec) → ℕ → ℕ → Vrtc → Option Vrtc
seconds_loop zero a host newtime t v = none
seconds_loop (suc fuel) a host newtime t v =
    let after = round a host (t + 1) v in
    let rest = seconds_loop fuel a host newtime (t + 1) after in
    if t + 1 == newtime then some after else rest

-- The loop of vrtc_time_update. The alarm is enabled or not throughout.
unfoldable pub update_loop : ℕ → (ℕ → Timespec) → Option ℕ → ℕ → Vrtc → Option Vrtc
update_loop fuel host none newtime v = some (round (alarm_of v.rtcdev) host newtime v)
update_loop fuel host (some oldtime) newtime v =
    if aintr_enabled v
    then seconds_loop fuel (alarm_of v.rtcdev) host newtime oldtime v
    else some (round (alarm_of v.rtcdev) host newtime v)

-- The return of 0, that of `EBUSY`, and a loop that does not end.
pub data Updated : Type 0 where
  updated : Vrtc → Updated
  busy : Vrtc → Updated
  endless : Updated

abbrev same_time : Option ℕ → Option ℕ → Bool
same_time none none = true
same_time (some a) (some b) = a == b
same_time _ _ = false

-- The update interrupt behind the loop.
unfoldable pub updates : Option Vrtc → Updated
updates none = endless
updates (some v) = updated (if uintr_enabled v then set_reg_c v (bit_or v.rtcdev.reg_c 0x10) else v)

-- The loop has a round for each second to go, so that this is the fuel where there are any.
unfoldable pub time_update : (ℕ → Timespec) → Vrtc → Option ℕ → ℕ → Updated
time_update host v none newbase = updated (record v { base_uptime = newbase; base_rtctime = none })
time_update host v (some newtime) newbase =
    let based = record v { base_uptime = newbase } in
    if same_time v.base_rtctime (some newtime)
    then updated based
    else if halted v.rtcdev.reg_b
    then busy based
    else updates (update_loop newtime host v.base_rtctime newtime based)
