-- ===== src/Vrtc/Clock.antt =====
-- The conversions between seconds and calendar dates in src/lib/vmm/io/vrtc.c: clock_ct_to_ts and
-- clock_ts_to_ct. The times that clock_ts_to_ct is given are those since 1970, so that none is
-- negative. The counts of days are `int`: words of 32 bits, of which those from 2^31 on stand for the
-- negative numbers; a sum that overflows wraps around, as it does where the compiler is told so. A
-- `time_t` is a word of 64 bits.
use hyperkit.Base.{
  ℕ, zero, suc, ◌+◌, ◌-◌, ◌*◌, ◌/◌, ◌%◌, ◌^◌, Bool, not, ◌&&◌, ◌||◌, List, [], ◌∷◌, ltb, leb, ◌==◌,
  if◌then◌else◌, get_or, Option, none, some,
}

-- `struct clocktime`
pub record Clocktime : Type 0 where
  pub year : ℕ
  pub mon : ℕ
  pub day : ℕ
  pub hour : ℕ
  pub min : ℕ
  pub sec : ℕ
  pub dow : ℕ
  pub nsec : ℕ

-- `struct timespec`
pub record Timespec : Type 0 where
  pub tv_sec : ℕ
  pub tv_nsec : ℕ

-- `POSIX_BASE_YEAR`
abbrev pub base_year : ℕ
base_year = 1970

abbrev pub month_days : List ℕ
month_days = 31 ∷ 28 ∷ 31 ∷ 30 ∷ 31 ∷ 30 ∷ 31 ∷ 31 ∷ 30 ∷ 31 ∷ 30 ∷ 31 ∷ []

-- `year & 3` of a year that is not negative is the remainder.
unfoldable pub leapyear : ℕ → Bool
leapyear year = year % 4 == 0 && (not (year % 100 == 0) || year % 400 == 0)

unfoldable pub days_in_year : ℕ → ℕ
days_in_year y = if leapyear y then 366 else 365

-- `FEBRUARY` is 2.
unfoldable pub days_in_month : ℕ → ℕ → ℕ
days_in_month y m =
    get_or month_days (m - 1) 0 + (if m == 2 then (if leapyear y then 1 else 0) else 0)

-- The loop over the years from i on, with n rounds to go.
unfoldable pub add_years : ℕ → ℕ → ℕ → ℕ
add_years zero i days = days
add_years (suc n) i days = add_years n (i + 1) ((days + days_in_year i) % 2 ^ 32)

unfoldable pub add_months : ℕ → ℕ → ℕ → ℕ → ℕ
add_months zero year i days = days
add_months (suc n) year i days = add_months n year (i + 1) ((days + days_in_month year i) % 2 ^ 32)

-- `(time_t)` of an `int`
abbrev pub time_of : ℕ → ℕ
time_of days = if ltb days (2 ^ 31) then days else days + (2 ^ 64 - 2 ^ 32)

-- The sanity checks; a `time_t` has eight bytes.
unfoldable pub is_sane : Clocktime → Bool
is_sane ct = not (
    ltb ct.mon 1
    || ltb 12 ct.mon
    || ltb ct.day 1
    || ltb (days_in_month ct.year ct.mon) ct.day
    || ltb 23 ct.hour
    || ltb 59 ct.min
    || ltb 59 ct.sec)

-- `none` is `EINVAL`.
unfoldable pub ct_to_ts : Clocktime → Option Timespec
ct_to_ts ct =
    let years = add_years (ct.year - base_year) base_year 0 in
    let days = (add_months (ct.mon - 1) ct.year 1 years + (ct.day - 1)) % 2 ^ 32 in
    if is_sane ct
    then some (record {
      tv_sec = (((time_of days * 24 + ct.hour) * 60 + ct.min) * 60 + ct.sec) % 2 ^ 64;
      tv_nsec = ct.nsec;
    })
    else none

-- A year or month, and the days that are left.
pub record Split : Type 0 where
  pub unit : ℕ
  pub left : ℕ

-- `days >= n` for an `int`
abbrev pub reaches : ℕ → ℕ → Bool
reaches n days = leb n days && ltb days (2 ^ 31)

-- The loops that take away whole years and months, on fuel.
unfoldable pub sub_years : ℕ → ℕ → ℕ → Split
sub_years zero year days = record { unit = year; left = days }
sub_years (suc fuel) year days =
    let rest = sub_years fuel (year + 1) (days - days_in_year year) in
    if reaches (days_in_year year) days then rest else record { unit = year; left = days }

unfoldable pub sub_months : ℕ → ℕ → ℕ → ℕ → Split
sub_months zero year i days = record { unit = i; left = days }
sub_months (suc fuel) year i days =
    let rest = sub_months fuel year (i + 1) (days - days_in_month year i) in
    if reaches (days_in_month year i) days then rest else record { unit = i; left = days }

-- `day_of_week`, the remainder of a number of either sign
unfoldable pub day_of_week : ℕ → ℕ
day_of_week days =
    let d = (days + 4) % 2 ^ 32 in
    if ltb d (2 ^ 31) then d % 7 else (2 ^ 32 - (2 ^ 32 - d) % 7) % 2 ^ 32

-- Each round takes away a day at least, and a year has twelve months.
unfoldable pub ts_to_ct : Timespec → Clocktime
ts_to_ct ts =
    let days = ts.tv_sec / 86400 % 2 ^ 32 in
    let rsec = ts.tv_sec % 86400 in
    let y = sub_years (days + 1) base_year days in
    let m = sub_months 12 y.unit 1 y.left in
    record {
      year = y.unit;
      mon = m.unit;
      day = (m.left + 1) % 2 ^ 32;
      hour = rsec / 3600;
      min = rsec % 3600 / 60;
      sec = rsec % 3600 % 60;
      dow = day_of_week days;
      nsec = ts.tv_nsec;
    }
