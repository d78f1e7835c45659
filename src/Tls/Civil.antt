-- ===== src/Tls/Civil.antt =====
-- src/tls_reload.rs: `is_leap_year`, `days_in_month` and `days_from_civil`. The fields of a date come
-- from `parse_digits` and are never negative, so they are natural numbers; what is subtracted from
-- them is an integer, with the overflow checks of `i64`.
pub mod Calendar
pub mod Laws
use open_tf_mirror.Base.{
  ℕ, ◌+◌, ◌*◌, ◌/◌, ◌%◌, ◌-◌, Bool, not, ◌&&◌, ◌||◌, ◌==◌, ltb, leb, if◌then◌else◌, Option, Result,
  ok_or, ◌>>=◌,
}
use open_tf_mirror.Base.Int.{ℤ, pos, ◌+ℤ◌, ◌-ℤ◌, ◌*ℤ◌, ◌/ℤ◌, leb_ℤ, checked}
use open_tf_mirror.Tls.Errors.{TlsError, date_overflow}

abbrev pub is_leap_year : ℕ → Bool
is_leap_year year = year % 4 == 0 && (not (year % 100 == 0) || year % 400 == 0)

unfoldable pub days_in_month : ℕ → ℕ → ℕ
days_in_month year month =
    if month == 2 && is_leap_year year
    then 29
    else if month == 2
    then 28
    else if month == 4 || month == 6 || month == 9 || month == 11
    then 30
    else 31

-- `i64::from(month <= 2)` is taken from the year, which is -1 for January of the year 0.
unfoldable pub adjust_year : ℕ → ℕ → ℤ
adjust_year year month = pos year -ℤ pos (if leb month 2 then 1 else 0)

unfoldable pub era_of : ℤ → ℤ
era_of adjusted_year =
    if leb_ℤ (pos 0) adjusted_year
    then ◌/ℤ◌ adjusted_year 400
    else ◌/ℤ◌ (adjusted_year -ℤ pos 399) 400

-- `month + if month > 2 { -3 } else { 9 }`, of a month from 1 to 12.
abbrev pub month_of_year : ℕ → ℕ
month_of_year month = if ltb 2 month then month - 3 else month + 9

-- `(153 * month_of_year + 2) / 5 + day - 1`, of a day from 1.
abbrev pub day_of_year : ℕ → ℕ → ℕ
day_of_year month day = (153 * month_of_year month + 2) / 5 + day - 1

unfoldable pub day_of_era : ℤ → ℕ → ℕ → ℤ
day_of_era year_of_era month day =
    year_of_era *ℤ pos 365
    +ℤ ◌/ℤ◌ year_of_era 4
    -ℤ ◌/ℤ◌ year_of_era 100
    +ℤ pos (day_of_year month day)

unfoldable pub days_from_civil : ℕ → ℕ → ℕ → Result TlsError ℤ
days_from_civil year month day = do
  let adjusted_year = adjust_year year month
  let era = era_of adjusted_year
  let year_of_era = adjusted_year -ℤ era *ℤ pos 400
  let in_era = day_of_era year_of_era month day
  eras ← ok_or (checked (era *ℤ pos 146097)) date_overflow
  days ← ok_or (checked (eras +ℤ in_era)) date_overflow
  ok_or (checked (days -ℤ pos 719468)) date_overflow
