-- ===== src/Vrtc/Calendar.antt =====
-- The loops over years and months in src/lib/vmm/io/vrtc.c against sums of their lengths.
use hyperkit.Base.{
  ℕ, zero, suc, ◌+◌, ◌-◌, ◌*◌, ◌^◌, ◌%◌, ◌≤◌, ◌<◌, ◌≡◌, refl, Bool, true, false, if◌then◌else◌,
  arith,
}
use hyperkit.Vrtc.Clock.{
  days_in_year, days_in_month, add_years, add_months, reaches, Split, sub_years, sub_months,
}

-- What both loops do, for units of any lengths.
module _ (size : ℕ → ℕ) where
  -- The length of n units from i on.
  unfoldable pub total : ℕ → ℕ → ℕ
  total zero i = 0
  total (suc n) i = size i + total n (i + 1)

  -- The split of days from unit i on: n whole units, and fewer days than the next has.
  pub record IsSplit (i days : ℕ) (s : Split) : Type 0 where
    pub whole : ℕ
    pub reached : s.unit ≡ i + whole
    pub sum : total whole i + s.left ≡ days
    pub short : s.left < size s.unit

  split_stop : (i days : ℕ) → days < size i → IsSplit i days (record { unit = i; left = days })
  unfolding total
  split_stop i days h = record { whole = 0; reached = omega arith; sum = omega arith; short = h }

  split_step :
      (i days : ℕ) (s : Split)
      → size i ≤ days
      → IsSplit (i + 1) (days - size i) s
      → IsSplit i days s
  unfolding total
  split_step i days s h r = record {
    whole = suc r.whole;
    reached = omega (arith, r.reached);
    sum = omega (arith, r.sum);
    short = r.short;
  }

pub add_years-total :
    (n i days : ℕ)
    → days + total days_in_year n i < 2 ^ 32
    → add_years n i days ≡ days + total days_in_year n i
unfolding add_years total
add_years-total zero i days h = omega arith
add_years-total (suc n) i days h =
    omega (arith, add_years-total n (i + 1) ((days + days_in_year i) % 2 ^ 32) (omega (arith, h)))

pub add_months-total :
    (year n i days : ℕ)
    → days + total (days_in_month year) n i < 2 ^ 32
    → add_months n year i days ≡ days + total (days_in_month year) n i
unfolding add_months total
add_months-total year zero i days h = omega arith
add_months-total year (suc n) i days h = omega (
  arith,
  add_months-total year n (i + 1) ((days + days_in_month year i) % 2 ^ 32) (omega (arith, h)),
)

days_in_year-pos : (y : ℕ) → 0 < days_in_year y
unfolding days_in_year
days_in_year-pos y = ground arith

pub sub_years-IsSplit :
    (fuel year days : ℕ)
    → days < fuel
    → days < 2 ^ 31
    → IsSplit days_in_year year days (sub_years fuel year days)
unfolding sub_years
sub_years-IsSplit zero year days h small = absurd (omega arith)
sub_years-IsSplit (suc fuel) year days h small =
    go (reaches (days_in_year year) days) refl
      (λ k. sub_years-IsSplit fuel (year + 1) (days - days_in_year year) k (omega arith))
  where
    rest : Split
    rest = sub_years fuel (year + 1) (days - days_in_year year)

    go :
        (b : Bool)
        → reaches (days_in_year year) days ≡ b
        → (days - days_in_year year < fuel
            → IsSplit days_in_year (year + 1) (days - days_in_year year) rest)
        → IsSplit days_in_year year days (if b then rest else record { unit = year; left = days })
    go true e ih =
        split_step days_in_year year days rest (ground arith)
          (ih (ground (arith, days_in_year-pos year)))
    go false e ih = split_stop days_in_year year days (ground arith)

-- No year is longer than 366 days.
pub one_year : (y : ℕ) → days_in_year y ≤ 366
unfolding days_in_year
one_year y = ground arith

pub years_max : (n i : ℕ) → total days_in_year n i ≤ n * 366
unfolding total days_in_year
years_max zero i = omega arith
years_max (suc n) i = ground (arith, years_max n (i + 1))

-- The months make up the year.
pub twelve_months : (year : ℕ) → total (days_in_month year) 12 1 ≡ days_in_year year
unfolding total days_in_month days_in_year
twelve_months year = ground arith

pub sub_months-IsSplit :
    (year fuel i days : ℕ)
    → days < total (days_in_month year) fuel i
    → days < 2 ^ 31
    → IsSplit (days_in_month year) i days (sub_months fuel year i days)
      × ((sub_months fuel year i days).unit < i + fuel)
unfolding sub_months total
sub_months-IsSplit year zero i days h small = absurd (omega arith)
sub_months-IsSplit year (suc fuel) i days h small =
    go (reaches (days_in_month year i) days) refl
      (λ k. sub_months-IsSplit year fuel (i + 1) (days - days_in_month year i) k (omega arith))
  where
    rest : Split
    rest = sub_months fuel year (i + 1) (days - days_in_month year i)

    go :
        (b : Bool)
        → reaches (days_in_month year i) days ≡ b
        → (days - days_in_month year i < total (days_in_month year) fuel (i + 1)
            → IsSplit (days_in_month year) (i + 1) (days - days_in_month year i) rest
              × (rest.unit < i + 1 + fuel))
        → IsSplit (days_in_month year) i days (if b then rest else record { unit = i; left = days })
          × ((if b then rest else record { unit = i; left = days }).unit < i + suc fuel)
    go true e ih =
        let r = ih (ground arith) in
        (split_step (days_in_month year) i days rest (ground arith) (r.0), omega (arith, r.1))
    go false e ih = (split_stop (days_in_month year) i days (ground arith), omega arith)
