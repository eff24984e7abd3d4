-- ===== src/Vrtc/Fields.antt =====
-- The date and time registers of the real-time clock in src/lib/vmm/io/vrtc.c: rtcset, rtcget,
-- secs_to_rtc and rtc_to_secs.
use hyperkit.Base.{
  ℕ, ◌+◌, ◌*◌, ◌/◌, ◌%◌, ◌^◌, Bool, true, false, not, ◌&&◌, ◌||◌, List, [], ◌∷◌, ltb, leb, ◌==◌,
  if◌then◌else◌, get_or, bit_and, bit_or, Option, none, some, ◌>>=◌,
}
use hyperkit.Base.Bits.Words.{has, clear}
use hyperkit.Vrtc.Clock.{Clocktime, Timespec, ct_to_ts, ts_to_ct}

-- `struct rtcdev`; the two parts of the memory are one list, from the byte 14 on, whose place of the
-- century is not used.
pub record Rtcdev : Type 0 where
  pub sec : ℕ
  pub alarm_sec : ℕ
  pub min : ℕ
  pub alarm_min : ℕ
  pub hour : ℕ
  pub alarm_hour : ℕ
  pub day_of_week : ℕ
  pub day_of_month : ℕ
  pub month : ℕ
  pub year : ℕ
  pub reg_a : ℕ
  pub reg_b : ℕ
  pub reg_c : ℕ
  pub reg_d : ℕ
  pub nvram : List ℕ
  pub century : ℕ

abbrev pub bin2bcd_data : List ℕ
bin2bcd_data =
    0x00 ∷ 0x01 ∷ 0x02 ∷ 0x03 ∷ 0x04 ∷ 0x05 ∷ 0x06 ∷ 0x07 ∷ 0x08 ∷ 0x09 ∷ 0x10 ∷ 0x11 ∷ 0x12 ∷ 0x13
    ∷ 0x14 ∷ 0x15 ∷ 0x16 ∷ 0x17 ∷ 0x18 ∷ 0x19 ∷ 0x20 ∷ 0x21 ∷ 0x22 ∷ 0x23 ∷ 0x24 ∷ 0x25 ∷ 0x26
    ∷ 0x27 ∷ 0x28 ∷ 0x29 ∷ 0x30 ∷ 0x31 ∷ 0x32 ∷ 0x33 ∷ 0x34 ∷ 0x35 ∷ 0x36 ∷ 0x37 ∷ 0x38 ∷ 0x39
    ∷ 0x40 ∷ 0x41 ∷ 0x42 ∷ 0x43 ∷ 0x44 ∷ 0x45 ∷ 0x46 ∷ 0x47 ∷ 0x48 ∷ 0x49 ∷ 0x50 ∷ 0x51 ∷ 0x52
    ∷ 0x53 ∷ 0x54 ∷ 0x55 ∷ 0x56 ∷ 0x57 ∷ 0x58 ∷ 0x59 ∷ 0x60 ∷ 0x61 ∷ 0x62 ∷ 0x63 ∷ 0x64 ∷ 0x65
    ∷ 0x66 ∷ 0x67 ∷ 0x68 ∷ 0x69 ∷ 0x70 ∷ 0x71 ∷ 0x72 ∷ 0x73 ∷ 0x74 ∷ 0x75 ∷ 0x76 ∷ 0x77 ∷ 0x78
    ∷ 0x79 ∷ 0x80 ∷ 0x81 ∷ 0x82 ∷ 0x83 ∷ 0x84 ∷ 0x85 ∷ 0x86 ∷ 0x87 ∷ 0x88 ∷ 0x89 ∷ 0x90 ∷ 0x91
    ∷ 0x92 ∷ 0x93 ∷ 0x94 ∷ 0x95 ∷ 0x96 ∷ 0x97 ∷ 0x98 ∷ 0x99 ∷ []

-- The bits of register B: `RTCSB_24HR`, `RTCSB_BIN` and `RTCSB_HALT`.
abbrev pub is_24hr : ℕ → Bool
is_24hr reg_b = has reg_b 2

abbrev pub is_bin : ℕ → Bool
is_bin reg_b = has reg_b 4

abbrev pub halted : ℕ → Bool
halted reg_b = has reg_b 0x80

-- The functions on one field take the bits of register B that they read: `bin` and `full` (24 hours).
unfoldable pub rtcset : Bool → ℕ → ℕ
rtcset bin val = (if bin then val else get_or bin2bcd_data val 0) % 2 ^ 8

-- `none` is the return of -1.
unfoldable pub rtcget : Bool → ℕ → Option ℕ
rtcget bin val =
    let lower = bit_and val 0xf in
    let upper = bit_and (val / 2 ^ 4) 0xf in
    if bin then some val else if ltb 9 lower || ltb 9 upper then none else some (upper * 10 + lower)

-- The hour in the format of register B, with the bit for PM.
unfoldable pub hour_set : Bool → Bool → ℕ → ℕ
hour_set full bin hour =
    let shown = if full then hour else if hour == 0 || hour == 12 then 12 else hour % 12 in
    let byte = rtcset bin shown in if not full && leb 12 hour then bit_or byte 0x80 else byte

-- The part of secs_to_rtc that stores the fields of a date.
unfoldable pub store_date : Clocktime → Rtcdev → Rtcdev
store_date ct rtc = record rtc {
  sec = rtcset (is_bin rtc.reg_b) ct.sec;
  min = rtcset (is_bin rtc.reg_b) ct.min;
  hour = hour_set (is_24hr rtc.reg_b) (is_bin rtc.reg_b) ct.hour;
  day_of_week = rtcset (is_bin rtc.reg_b) (ct.dow + 1);
  day_of_month = rtcset (is_bin rtc.reg_b) ct.day;
  month = rtcset (is_bin rtc.reg_b) ct.mon;
  year = rtcset (is_bin rtc.reg_b) (ct.year % 100);
  century = rtcset (is_bin rtc.reg_b) (ct.year / 100);
}

-- `none` stands for `VRTC_BROKEN_TIME`. The fields are set from the host's clock, `host`, whatever
-- the time is.
unfoldable pub secs_to_rtc : Timespec → Option ℕ → Bool → Rtcdev → Rtcdev
secs_to_rtc host none force_update rtc = rtc
secs_to_rtc host (some rtctime) force_update rtc =
    if halted rtc.reg_b && not force_update then rtc else store_date (ts_to_ct host) rtc

-- A field in a range, or `none` for the jump to `fail`.
unfoldable pub in_range : ℕ → ℕ → Option ℕ → Option ℕ
in_range lo hi none = none
in_range lo hi (some v) = if ltb v lo || ltb hi v then none else some v

-- The test of the year with its century.
abbrev from_1900 : ℕ → Option ℕ
from_1900 year = if ltb year 1900 then none else some year

-- What rtc_to_secs reads; the day of the week is not used.
abbrev pub clocktime : ℕ → ℕ → ℕ → ℕ → ℕ → ℕ → Clocktime
clocktime y m d h n s = record {
  year = y;
  mon = m;
  day = d;
  hour = h;
  min = n;
  sec = s;
  dow = 0;
  nsec = 0;
}

-- From the 12-hour format, with `pm`.
unfoldable pub hour_24 : Bool → ℕ → ℕ
hour_24 pm hour = (if hour == 12 then 0 else hour) + (if pm then 12 else 0)

unfoldable pub hour_get : Bool → Bool → ℕ → Option ℕ
hour_get true bin hour = in_range 0 23 (rtcget bin hour)
hour_get false bin hour =
    let pm = has hour 0x80 in
    do
      shown ← in_range 1 12 (rtcget bin (if pm then clear 8 hour 0x80 else hour))
      in_range 0 23 (some (hour_24 pm shown))

-- The date of the fields; `none` stands for `VRTC_BROKEN_TIME`.
unfoldable pub rtc_to_secs : Rtcdev → Option ℕ
rtc_to_secs rtc =
    let bin = is_bin rtc.reg_b in
    do
      sec ← in_range 0 59 (rtcget bin rtc.sec)
      min ← in_range 0 59 (rtcget bin rtc.min)
      hour ← hour_get (is_24hr rtc.reg_b) bin rtc.hour
      day ← in_range 1 31 (rtcget bin rtc.day_of_month)
      mon ← in_range 1 12 (rtcget bin rtc.month)
      year ← in_range 0 99 (rtcget bin rtc.year)
      century ← rtcget bin rtc.century
      full_year ← from_1900 (century * 100 + year)
      ts ← ct_to_ts (clocktime full_year mon day hour min sec)
      some ts.tv_sec
