-- ===== src/Vrtc/Tests.antt =====
-- Runs of the real-time clock, and the theorems about src/lib/vmm/io/vrtc.c at inputs.
use hyperkit.Base.{◌+◌, ◌*◌, ◌-◌, ◌/◌, ◌^◌, ◌≡◌, refl, arith, [], some, none}
use hyperkit.Base.Bits.Words.{has}
use hyperkit.Vrtc.Clock.{
  Clocktime, Timespec, leapyear, days_in_year, days_in_month, add_years, add_months, is_sane,
  ct_to_ts, sub_years, sub_months, day_of_week, ts_to_ct,
}
use hyperkit.Vrtc.Dates.{timespec, ct_to_ts-ts_to_ct, ts_to_ct-ct_to_ts}
use hyperkit.Vrtc.Fields.{Rtcdev, rtcget, hour_get, in_range, store_date, rtc_to_secs}
use hyperkit.Vrtc.Formats.{rtc_to_secs-store_date}
use hyperkit.Vrtc.Registers.{Vrtc, Clocks, time_update, curtime, sbt_1s}
use hyperkit.Vrtc.Ports.{finished, set_reg_b}
use hyperkit.Vrtc.Alarm.{IsDone, time_update-IsDone}
use hyperkit.Vrtc.Setting.{curtime-set_reg_b}

-- A second before 2000-03-01.
abbrev leap_day : Timespec
leap_day = timespec 951868799 5

leap_day_run :
    ts_to_ct leap_day
    ≡ record { year = 2000; mon = 2; day = 29; hour = 23; min = 59; sec = 59; dow = 2; nsec = 5 }
unfolding ts_to_ct sub_years sub_months day_of_week days_in_year days_in_month leapyear
leap_day_run = refl

ct_to_ts-ts_to_ct_example : ct_to_ts (ts_to_ct leap_day) ≡ some leap_day
ct_to_ts-ts_to_ct_example = ct_to_ts-ts_to_ct leap_day (omega arith)

-- A day that the cast to `int` makes negative: the 2^31-th, in the year 1970.
late_run : (ts_to_ct (timespec (2 ^ 31 * 86400) 0)).year ≡ 1970
unfolding ts_to_ct sub_years sub_months day_of_week days_in_year days_in_month leapyear
late_run = refl

abbrev new_year : Clocktime
new_year = record { year = 1972; mon = 1; day = 1; hour = 0; min = 0; sec = 7; dow = 0; nsec = 0 }

ts_to_ct-ct_to_ts_example : record (ts_to_ct (timespec 63072007 0)) { dow = 0 } ≡ new_year
unfolding ct_to_ts is_sane add_years add_months days_in_year days_in_month leapyear
ts_to_ct-ct_to_ts_example =
    ts_to_ct-ct_to_ts new_year (timespec 63072007 0) (omega arith) (omega arith) refl

-- 12 hours and BCD, with the alarm interrupt enabled, and the alarm at any hour and minute.
abbrev device : Rtcdev
device = record {
  sec = 0;
  alarm_sec = 0x05;
  min = 0;
  alarm_min = 0xc0;
  hour = 0;
  alarm_hour = 0xff;
  day_of_week = 0;
  day_of_month = 0;
  month = 0;
  year = 0;
  reg_a = 0x26;
  reg_b = 0x20;
  reg_c = 0;
  reg_d = 0x80;
  nvram = [];
  century = 0;
}

rtc_to_secs-store_date_example :
    rtc_to_secs (store_date (ts_to_ct leap_day) device) ≡ some 951868799
unfolding ts_to_ct sub_years sub_months days_in_year days_in_month leapyear
rtc_to_secs-store_date_example = rtc_to_secs-store_date leap_day device (omega arith) (omega arith)

abbrev clock : Vrtc
clock = record {
  addr = 13;
  base_uptime = 0;
  base_rtctime = some 3;
  rtcdev = device;
  callout = some sbt_1s;
  pulses = 0;
}

time_update-IsDone_example :
    IsDone (λ t. timespec t 0) clock 3 6 0 (time_update (λ t. timespec t 0) clock (some 6) 0)
unfolding has
time_update-IsDone_example =
    time_update-IsDone (λ t. timespec t 0) clock 3 6 0 refl refl refl (omega arith)

abbrev clocks : Clocks
clocks = record { uptime = 0; later = 2 ^ 33; host = λ t. leap_day; shown = leap_day }

-- The guest has set the fields, in binary and for 24 hours, while the clock is halted.
abbrev halted_clock : Vrtc
halted_clock = record clock {
  base_rtctime = none;
  rtcdev = record device {
    year = 72;
    century = 19;
    month = 1;
    day_of_month = 1;
    sec = 7;
    reg_b = 0x86;
  };
}

curtime-set_reg_b_example :
    (w : Vrtc) × ((set_reg_b clocks halted_clock 0x06 ≡ finished w)
      × ((curtime w (2 ^ 34)).time ≡ some (63072007 + (2 ^ 34 - 2 ^ 33) / sbt_1s)))
unfolding has rtc_to_secs rtcget in_range hour_get ct_to_ts is_sane add_years add_months
    days_in_year days_in_month leapyear
curtime-set_reg_b_example =
    curtime-set_reg_b clocks halted_clock 0x06 63072007 refl refl refl refl refl (2 ^ 34)
