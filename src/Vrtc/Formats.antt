-- ===== src/Vrtc/Formats.antt =====
-- The date that secs_to_rtc of src/lib/vmm/io/vrtc.c stores is the one that rtc_to_secs reads, in
-- each of the formats of register B.
use hyperkit.Base.{
  ℕ, ◌+◌, ◌-◌, ◌*◌, ◌/◌, ◌%◌, ◌≤◌, ◌<◌, ◌≡◌, refl, subst, ap, Bool, true, false, ltb, leb, ◌==◌,
  if◌then◌else◌, arith, some, all_below_lem, same_some, same_some_lem, get_or,
}
use hyperkit.Base.Tests.{all_below}
use hyperkit.Base.Bits.Words.{has, clear}
use hyperkit.Vrtc.Clock.{
  Clocktime, Timespec, month_days, leapyear, days_in_month, is_sane, ct_to_ts, ts_to_ct,
}
use hyperkit.Vrtc.Dates.{end_of_days, timespec, IsDate, ts_to_ct-IsDate, ct_to_ts-ts_to_ct}
use hyperkit.Vrtc.Fields.{
  Rtcdev, is_24hr, is_bin, rtcset, rtcget, hour_set, store_date, in_range, hour_24, hour_get,
  clocktime, rtc_to_secs,
}

rtcget-rtcset : (bin : Bool) (v : ℕ) → v < 100 → rtcget bin (rtcset bin v) ≡ some v
unfolding rtcget rtcset all_below
rtcget-rtcset true v h = ap some (omega arith)
rtcget-rtcset false v h =
    same_some_lem _ v
      (all_below_lem 100 (λ i. same_some (rtcget false (rtcset false i)) i) checked v h)
  where
    checked : all_below 100 (λ i. same_some (rtcget false (rtcset false i)) i) ≡ true
    checked = refl

hour_get-hour_set :
    (full bin : Bool) (v : ℕ) → v < 24 → hour_get full bin (hour_set full bin v) ≡ some v
unfolding rtcget rtcset hour_get hour_set in_range hour_24 has clear all_below
hour_get-hour_set full bin v h = same_some_lem _ v (
    all_below_lem 24 (λ i. same_some (hour_get full bin (hour_set full bin i)) i) (checked full bin)
      v h)
  where
    checked :
        (full bin : Bool)
        → all_below 24 (λ i. same_some (hour_get full bin (hour_set full bin i)) i) ≡ true
    checked true true = refl
    checked true false = refl
    checked false true = refl
    checked false false = refl

field :
    (bin : Bool) (lo hi v : ℕ)
    → lo ≤ v
    → v ≤ hi
    → hi < 100
    → in_range lo hi (rtcget bin (rtcset bin v)) ≡ some v
unfolding in_range
field bin lo hi v h k l = rw (rtcget-rtcset bin v (omega arith)) (ground arith)

-- No month has more than 31 days.
abbrev fits : Bool → ℕ → Bool
fits leap i =
    leb (get_or month_days (i + 1 - 1) 0 + (if i + 1 == 2 then (if leap then 1 else 0) else 0)) 31

days_in_month_max : (y m : ℕ) → 1 ≤ m → m ≤ 12 → days_in_month y m ≤ 31
unfolding days_in_month all_below
days_in_month_max y m h k =
    subst (λ n. days_in_month y n ≤ 31) {x = m - 1 + 1} (omega arith)
      (leb→le _ 31
        (all_below_lem 12 (fits (leapyear y)) (checked (leapyear y)) (m - 1) (omega arith)))
  where
    checked : (leap : Bool) → all_below 12 (fits leap) ≡ true
    checked true = refl
    checked false = refl

    leb→le : (a b : ℕ) → leb a b ≡ true → a ≤ b
    leb→le a b e = ground arith

-- Neither the day of the week nor the nanoseconds matter.
plain_time :
    (ts : Timespec)
    → ts.tv_sec < end_of_days
    → ct_to_ts (
        clocktime
          (ts_to_ct ts).year
          (ts_to_ct ts).mon
          (ts_to_ct ts).day
          (ts_to_ct ts).hour
          (ts_to_ct ts).min
          (ts_to_ct ts).sec)
      ≡ some (timespec ts.tv_sec 0)
unfolding ct_to_ts is_sane ts_to_ct
plain_time ts early = ct_to_ts-ts_to_ct (timespec ts.tv_sec 0) early

-- The date that secs_to_rtc has stored for a time since 1970 reads back as that time, whether
-- register B asks for 12 or 24 hours and for binary or BCD numbers, if the count of the days fits an
-- `int` and the year has four digits.
pub rtc_to_secs-store_date :
    (ts : Timespec) (rtc : Rtcdev)
    → ts.tv_sec < end_of_days
    → (ts_to_ct ts).year ≤ 9999
    → rtc_to_secs (store_date (ts_to_ct ts) rtc) ≡ some ts.tv_sec
unfolding rtc_to_secs store_date
rtc_to_secs-store_date ts rtc early h =
    rw
      (
        field bin 0 59 ct.sec (omega arith) v.sec_in (omega arith),
        field bin 0 59 ct.min (omega arith) v.min_in (omega arith),
        hour_get-hour_set (is_24hr rtc.reg_b) bin ct.hour (omega (arith, v.hour_in)),
        field bin 1 31 ct.day (v.day_in.0)
            (omega (arith, v.day_in, days_in_month_max ct.year ct.mon v.mon_in.0 v.mon_in.1))
            (omega arith),
        field bin 1 12 ct.mon (v.mon_in.0) (v.mon_in.1) (omega arith),
        field bin 0 99 (ct.year % 100) (omega arith) (omega arith) (omega arith),
        rtcget-rtcset bin (ct.year / 100) (omega (arith, h)),
        joined,
        recent,
        plain_time ts early,
      )
      refl
  where
    bin : Bool
    bin = is_bin rtc.reg_b

    ct : Clocktime
    ct = ts_to_ct ts

    v : IsDate ct
    v = ts_to_ct-IsDate ts early

    joined : ct.year / 100 * 100 + ct.year % 100 ≡ ct.year
    joined = omega arith

    recent : ltb ct.year 1900 ≡ false
    recent = ground (arith, v.since)
