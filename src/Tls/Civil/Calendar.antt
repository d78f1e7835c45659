-- ===== src/Tls/Civil/Calendar.antt =====
-- The proleptic Gregorian calendar by counting days, to compare src/tls_reload.rs with.
use open_tf_mirror.Base.{ℕ, zero, suc, ◌+◌, ◌*◌, ◌-◌, ◌/◌, ◌≡◌, if◌then◌else◌, arith}
use open_tf_mirror.Tls.Civil.{is_leap_year, days_in_month}

-- The days of the years before `year`, from the year 0.
unfoldable pub days_before_year : ℕ → ℕ
days_before_year zero = 0
days_before_year (suc year) = days_before_year year + (if is_leap_year year then 366 else 365)

-- The days of the first `n` months of a year.
unfoldable pub days_of_months : ℕ → ℕ → ℕ
days_of_months year zero = 0
days_of_months year (suc n) = days_of_months year n + days_in_month year (suc n)

-- The days from 0000-01-01 to a date, whose month and day count from 1.
unfoldable pub ordinal : ℕ → ℕ → ℕ → ℕ
ordinal year month day = days_before_year year + days_of_months year (month - 1) + (day - 1)

-- The day number of 1970-01-01.
abbrev pub epoch : ℕ
epoch = 719528

pub days_before_year_lem :
    (year : ℕ)
    → days_before_year year + (year + 99) / 100 ≡ 365 * year + (year + 3) / 4 + (year + 399) / 400
unfolding days_before_year
days_before_year_lem zero = omega arith
days_before_year_lem (suc year) = ground (arith, days_before_year_lem year)
