-- ===== src/Vrtc/Dates.antt =====
-- clock_ct_to_ts after clock_ts_to_ct of src/lib/vmm/io/vrtc.c, and the other way round.
use hyperkit.Base.{
  ℕ, zero, suc, ◌+◌, ◌-◌, ◌*◌, ◌/◌, ◌%◌, ◌^◌, ◌≤◌, ◌<◌, ◌≡◌, refl, sym, subst, ap, ◌∙◌, Bool, true,
  false, if◌then◌else◌, arith, none, some,
}
use mathlib.Core.Option.{some-injective}
use hyperkit.Vrtc.Clock.{
  Clocktime, Timespec, base_year, days_in_year, days_in_month, add_years, add_months, is_sane,
  time_of, ct_to_ts, Split, sub_years, sub_months, ts_to_ct,
}
use hyperkit.Vrtc.Calendar.{
  total, IsSplit, add_years-total, add_months-total, twelve_months, sub_years-IsSplit, years_max,
  one_year, sub_months-IsSplit,
}

-- The days from 1970 to a date.
abbrev days_of : Clocktime → ℕ
days_of ct =
    (add_months (ct.mon - 1) ct.year 1 (add_years (ct.year - base_year) base_year 0) + (ct.day - 1))
    % 2 ^ 32

abbrev seconds_of : Clocktime → ℕ
seconds_of ct = (((time_of (days_of ct) * 24 + ct.hour) * 60 + ct.min) * 60 + ct.sec) % 2 ^ 64

abbrev pub timespec : ℕ → ℕ → Timespec
timespec s n = record { tv_sec = s; tv_nsec = n }

-- The first second whose day has no number in an `int`.
abbrev pub end_of_days : ℕ
end_of_days = 2 ^ 31 * 86400

module _ (ts : Timespec) (early : ts.tv_sec < end_of_days) where
  abbrev days : ℕ
  days = ts.tv_sec / 86400 % 2 ^ 32

  small : days < 2 ^ 31
  small = omega (arith, early)

  abbrev y : Split
  y = sub_years (days + 1) base_year days

  abbrev m : Split
  m = sub_months 12 y.unit 1 y.left

  years : IsSplit days_in_year base_year days y
  years = sub_years-IsSplit (days + 1) base_year days (omega arith) small

  months : IsSplit (days_in_month y.unit) 1 y.left m × (m.unit < 13)
  months =
      let r =
        sub_months-IsSplit y.unit 12 1 y.left (omega (arith, twelve_months y.unit, years.short))
          (omega (arith, years.sum, small)) in
      (r.0, omega (arith, r.1))

  days_of-ts_to_ct : days_of (ts_to_ct ts) ≡ days
  unfolding ts_to_ct
  days_of-ts_to_ct =
      let in_year =
        ap (λ n. total (days_in_month y.unit) n 1) {x = m.unit - 1} {y = months.0.whole}
          (omega (arith, months.0.reached)) in
      let before =
        ap (λ n. total days_in_year n base_year) {x = y.unit - base_year} {y = years.whole}
          (omega (arith, years.reached)) in
      let by_years =
        add_years-total (y.unit - base_year) base_year 0
          (omega (arith, before, years.sum, small)) in
      let by_months =
        add_months-total y.unit (m.unit - 1) 1 (add_years (y.unit - base_year) base_year 0)
          (omega (arith, by_years, in_year, before, months.0.sum, years.sum, small)) in
      omega (arith, by_months, by_years, in_year, before, months.0.sum, years.sum, small)

  is_sane-ts_to_ct : is_sane (ts_to_ct ts) ≡ true
  unfolding ts_to_ct is_sane
  is_sane-ts_to_ct =
      ground (arith, months.0.reached, months.0.short, months.1, months.0.sum, years.sum, small)

  -- A time since 1970 whose count of days fits an `int`, turned into a date and back, is the same.
  pub ct_to_ts-ts_to_ct : ct_to_ts (ts_to_ct ts) ≡ some ts
  unfolding ct_to_ts ts_to_ct
  ct_to_ts-ts_to_ct = rw is_sane-ts_to_ct (ap (λ t. some (timespec t ts.tv_nsec)) exact)
    where
      split :
          (((time_of days * 24 + (ts_to_ct ts).hour) * 60 + (ts_to_ct ts).min) * 60
              + (ts_to_ct ts).sec)
            % 2 ^ 64
          ≡ ts.tv_sec
      split = ground (arith, small, early)

      exact : seconds_of (ts_to_ct ts) ≡ ts.tv_sec
      exact =
          ap
            (λ d.
              (((time_of d * 24 + (ts_to_ct ts).hour) * 60 + (ts_to_ct ts).min) * 60
                + (ts_to_ct ts).sec)
              % 2 ^ 64)
            days_of-ts_to_ct
          ∙ split

-- A split is unique.
module _ (size : ℕ → ℕ) where
  total_inj :
      (a b i l k : ℕ)
      → total size a i + l ≡ total size b i + k
      → l < size (i + a)
      → k < size (i + b)
      → (a ≡ b) × (l ≡ k)
  unfolding total
  total_inj zero zero i l k e h g = (refl, omega arith)
  total_inj zero (suc b) i l k e h g =
      absurd (omega (arith, e, h, ap size {x = i + 0} {y = i} (omega arith)))
  total_inj (suc a) zero i l k e h g =
      absurd (omega (arith, e, g, ap size {x = i + 0} {y = i} (omega arith)))
  total_inj (suc a) (suc b) i l k e h g =
      let r =
        total_inj a b (i + 1) l k (omega (arith, e))
          (omega (arith, h, ap size {x = i + 1 + a} {y = i + suc a} (omega arith)))
          (omega (arith, g, ap size {x = i + 1 + b} {y = i + suc b} (omega arith))) in
      (ap suc (r.0), r.1)

  -- A part of the units, and less than the next, is less than the whole.
  total_lt : (a n i l : ℕ) → a < n → l < size (i + a) → total size a i + l < total size n i
  unfolding total
  total_lt a zero i l h k = absurd (omega arith)
  total_lt zero (suc n) i l h k = omega (arith, k, ap size {x = i + 0} {y = i} (omega arith))
  total_lt (suc a) (suc n) i l h k = omega (
    arith,
    total_lt a n (i + 1) l (omega arith)
        (omega (arith, k, ap size {x = i + suc a} {y = i + 1 + a} (omega arith))),
  )

-- What the sanity checks and the year say of a date.
pub record IsDate (ct : Clocktime) : Type 0 where
  pub since : base_year ≤ ct.year
  pub mon_in : (1 ≤ ct.mon) × (ct.mon ≤ 12)
  pub day_in : (1 ≤ ct.day) × (ct.day ≤ days_in_month ct.year ct.mon)
  pub hour_in : ct.hour ≤ 23
  pub min_in : ct.min ≤ 59
  pub sec_in : ct.sec ≤ 59

is_sane-IsDate : (ct : Clocktime) → base_year ≤ ct.year → is_sane ct ≡ true → IsDate ct
unfolding is_sane
is_sane-IsDate ct h e = ground arith

pub ts_to_ct-IsDate : (ts : Timespec) → ts.tv_sec < end_of_days → IsDate (ts_to_ct ts)
unfolding ts_to_ct
ts_to_ct-IsDate ts early =
    is_sane-IsDate (ts_to_ct ts) (omega (arith, (years ts early).reached))
      (is_sane-ts_to_ct ts early)

-- A year up to which the days since 1970 fit an `int`.
abbrev pub last_year : ℕ
last_year = 5869000

module _ (ct : Clocktime) (ts : Timespec) (v : IsDate ct) (near : ct.year ≤ last_year)
    (e : ts.tv_sec ≡ seconds_of ct) where
  abbrev in_year : ℕ
  in_year = total (days_in_month ct.year) (ct.mon - 1) 1 + (ct.day - 1)

  mon_size : ct.day - 1 < days_in_month ct.year (1 + (ct.mon - 1))
  mon_size = omega (
    arith,
    v.day_in,
    ap (days_in_month ct.year) {x = 1 + (ct.mon - 1)} {y = ct.mon} (omega (arith, v.mon_in)),
  )

  in_year-lt : in_year < days_in_year (base_year + (ct.year - base_year))
  in_year-lt = omega (
    arith,
    total_lt (days_in_month ct.year) (ct.mon - 1) 12 1 (ct.day - 1) (omega (arith, v.mon_in))
        mon_size,
    twelve_months ct.year,
    ap days_in_year {x = base_year + (ct.year - base_year)} {y = ct.year} (omega (arith, v.since)),
  )

  in_year_max : in_year < 366
  in_year_max = omega (arith, in_year-lt, one_year (base_year + (ct.year - base_year)))

  days_of_sum : days_of ct ≡ total days_in_year (ct.year - base_year) base_year + in_year
  days_of_sum =
      let most = years_max (ct.year - base_year) base_year in
      let by_years =
        add_years-total (ct.year - base_year) base_year 0 (omega (arith, most, near)) in
      let by_months =
        add_months-total ct.year (ct.mon - 1) 1 (add_years (ct.year - base_year) base_year 0)
          (omega (arith, by_years, most, near, in_year_max)) in
      omega (arith, by_months, by_years, most, near, in_year_max)

  days_of-small : days_of ct < 2 ^ 31
  days_of-small =
      omega (arith, days_of_sum, years_max (ct.year - base_year) base_year, near, in_year_max)

  early_ct : ts.tv_sec < end_of_days
  early_ct = ground (arith, e, days_of-small, v.hour_in, v.min_in, v.sec_in)

  elapsed : days ts early_ct ≡ days_of ct
  elapsed = ground (arith, e, days_of-small, v.hour_in, v.min_in, v.sec_in)

  same_years : ((years ts early_ct).whole ≡ ct.year - base_year) × ((y ts early_ct).left ≡ in_year)
  same_years =
      total_inj days_in_year (years ts early_ct).whole (ct.year - base_year) base_year
        (y ts early_ct).left in_year (omega (arith, (years ts early_ct).sum, elapsed, days_of_sum))
        (subst (λ u. (y ts early_ct).left < days_in_year u) (years ts early_ct).reached
          (years ts early_ct).short)
        in_year-lt

  same_year : (y ts early_ct).unit ≡ ct.year
  same_year = omega (arith, (years ts early_ct).reached, same_years.0, v.since)

  same_months : ((months ts early_ct).0.whole ≡ ct.mon - 1) × ((m ts early_ct).left ≡ ct.day - 1)
  same_months =
      total_inj (days_in_month ct.year) (months ts early_ct).0.whole (ct.mon - 1) 1
        (m ts early_ct).left (ct.day - 1)
        (subst
            (λ u.
              total (days_in_month u) (months ts early_ct).0.whole 1 + (m ts early_ct).left
              ≡ (y ts early_ct).left)
            same_year (months ts early_ct).0.sum
          ∙ same_years.1)
        (subst (λ u. (m ts early_ct).left < days_in_month u (1 + (months ts early_ct).0.whole))
          same_year
          (subst (λ u. (m ts early_ct).left < days_in_month (y ts early_ct).unit u)
            (months ts early_ct).0.reached (months ts early_ct).0.short))
        mon_size

  clock :
      (ts.tv_sec % 86400 / 3600 ≡ ct.hour)
      × ((ts.tv_sec % 86400 % 3600 / 60 ≡ ct.min) × (ts.tv_sec % 86400 % 3600 % 60 ≡ ct.sec))
  clock = (
    ground (arith, e, days_of-small, v.hour_in, v.min_in, v.sec_in),
    (
      ground (arith, e, days_of-small, v.hour_in, v.min_in, v.sec_in),
      ground (arith, e, days_of-small, v.hour_in, v.min_in, v.sec_in),
    ),
  )

  same_fields : ts.tv_nsec ≡ ct.nsec → record (ts_to_ct ts) { dow = ct.dow } ≡ ct
  unfolding ts_to_ct
  same_fields n =
      let yr = same_year in
      let mo : (m ts early_ct).unit ≡ ct.mon =
        omega (arith, (months ts early_ct).0.reached, same_months.0, v.mon_in) in
      let da : ((m ts early_ct).left + 1) % 2 ^ 32 ≡ ct.day =
        omega (arith, same_months.1, v.day_in, mon_size, in_year_max) in
      let cl = clock in rw (mo, da, yr, cl.0, cl.1.0, cl.1.1, n) refl

-- A date that clock_ct_to_ts accepts, from 1970 to the year 5869000, comes back but for the day of the
-- week, which it ignores.
pub ts_to_ct-ct_to_ts :
    (ct : Clocktime) (ts : Timespec)
    → base_year ≤ ct.year
    → ct.year ≤ last_year
    → ct_to_ts ct ≡ some ts
    → record (ts_to_ct ts) { dow = ct.dow } ≡ ct
unfolding ct_to_ts
ts_to_ct-ct_to_ts ct ts h near e = go (is_sane ct) refl e
  where
    go :
        (b : Bool)
        → is_sane ct ≡ b
        → (if b then some (timespec (seconds_of ct) ct.nsec) else none) ≡ some ts
        → record (ts_to_ct ts) { dow = ct.dow } ≡ ct
    go false s f = cc
    go true s f =
        let v = is_sane-IsDate ct h s in
        let r : timespec (seconds_of ct) ct.nsec ≡ ts = some-injective _ _ f in
        let sec : ts.tv_sec ≡ seconds_of ct = sym (ap (λ (t : Timespec). t.tv_sec) r) in
        let nsec : ts.tv_nsec ≡ ct.nsec = sym (ap (λ (t : Timespec). t.tv_nsec) r) in
        same_fields ct ts v near sec nsec
