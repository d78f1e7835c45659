-- ===== src/Tls/Civil/Laws.antt =====
-- src/tls_reload.rs: `days_from_civil` counts the days of the calendar.
use open_tf_mirror.Base.{
  ℕ, zero, suc, ◌+◌, ◌*◌, ◌-◌, ◌/◌, ◌≤◌, ◌≡◌, ◌∙◌, ap, if◌then◌else◌, ok, some, arith,
}
use open_tf_mirror.Base.Int.{pos, sub_ℕ, ◌+ℤ◌, ◌-ℤ◌, ◌*ℤ◌, ◌/ℤ◌, checked, *ℤ-pos, +ℤ-pos, -ℤ-pos}
use open_tf_mirror.Tls.Civil.{
  is_leap_year, days_in_month, adjust_year, era_of, day_of_year, day_of_era, days_from_civil,
}
use open_tf_mirror.Tls.Civil.Calendar.{
  days_before_year, days_of_months, ordinal, epoch, days_before_year_lem,
}

abbrev leap_day : ℕ → ℕ
leap_day year = if is_leap_year year then 1 else 0

-- The months from March on, by the formula of 153 days in five months.
days_of_months-march :
    (year k : ℕ)
    → k ≤ 9
    → days_of_months year (suc (suc k)) ≡ (153 * k + 2) / 5 + 59 + leap_day year
unfolding days_of_months days_in_month
days_of_months-march year zero h = ground arith
days_of_months-march year (suc zero) h = ground arith
days_of_months-march year (suc (suc zero)) h = ground arith
days_of_months-march year (suc (suc (suc zero))) h = ground arith
days_of_months-march year (suc (suc (suc (suc zero)))) h = ground arith
days_of_months-march year (suc (suc (suc (suc (suc zero))))) h = ground arith
days_of_months-march year (suc (suc (suc (suc (suc (suc zero)))))) h = ground arith
days_of_months-march year (suc (suc (suc (suc (suc (suc (suc zero))))))) h = ground arith
days_of_months-march year (suc (suc (suc (suc (suc (suc (suc (suc zero)))))))) h = ground arith
days_of_months-march year (suc (suc (suc (suc (suc (suc (suc (suc (suc zero))))))))) h =
    ground arith
days_of_months-march year (suc (suc (suc (suc (suc (suc (suc (suc (suc (suc k)))))))))) h =
    absurd (omega arith)

checked-pos : (n : ℕ) → n ≤ 9223372036854775807 → checked (pos n) ≡ some (pos n)
unfolding checked
checked-pos n h = ground arith

checked-sub :
    (a b : ℕ)
    → a ≤ 9223372036854775807
    → b ≤ 719468
    → checked (pos a -ℤ pos b) ≡ some (pos a -ℤ pos b)
unfolding checked ◌-ℤ◌
checked-sub a b h k = ground arith

-- The days since 0000-03-01 of a year that begins in March.
abbrev march_days : ℕ → ℕ → ℕ → ℕ
march_days a month day = a * 365 + a / 4 + a / 400 - a / 100 + day_of_year month day

era_arith :
    (a : ℕ)
    → a / 400 * 146097
        + ((a - a / 400 * 400) * 365 + (a - a / 400 * 400) / 4 - (a - a / 400 * 400) / 100)
      ≡ a * 365 + a / 4 + a / 400 - a / 100
era_arith a = omega arith

day_of_era-pos :
    (y month day : ℕ)
    → day_of_era (pos y) month day ≡ pos (y * 365 + y / 4 - y / 100 + day_of_year month day)
unfolding day_of_era ◌/ℤ◌
day_of_era-pos y month day = rw (
  *ℤ-pos y 365,
  +ℤ-pos (y * 365) (y / 4),
  -ℤ-pos (y * 365 + y / 4) (y / 100) (omega arith),
  +ℤ-pos (y * 365 + y / 4 - y / 100) (day_of_year month day),
)

era_of-pos : (a : ℕ) → era_of (pos a) ≡ pos (a / 400)
unfolding era_of ◌/ℤ◌
era_of-pos a = ground arith

day_of_year-le : (month day : ℕ) → month ≤ 12 → day ≤ 31 → day_of_year month day ≤ 367
day_of_year-le month day h k = ground arith

-- From the adjusted year on, where that is not negative: no check fails.
days_from_civil-adjusted :
    (year month day a : ℕ)
    → adjust_year year month ≡ pos a
    → a ≤ 9999
    → month ≤ 12
    → day ≤ 31
    → days_from_civil year month day ≡ ok (pos (march_days a month day) -ℤ pos 719468)
unfolding days_from_civil
days_from_civil-adjusted year month day a e small m d =
    let q = a / 400 in
    let y = a - q * 400 in
    let doe = y * 365 + y / 4 - y / 100 + day_of_year month day in
    let total : q * 146097 + doe ≡ march_days a month day = omega (arith, era_arith a) in
    let bound = day_of_year-le month day m d in
    rw (
      e,
      era_of-pos a,
      *ℤ-pos q 400,
      -ℤ-pos a (q * 400) (omega arith),
      day_of_era-pos y month day,
      *ℤ-pos q 146097,
      checked-pos (q * 146097) (omega arith),
      +ℤ-pos (q * 146097) doe,
      checked-pos (q * 146097 + doe) (omega arith),
      checked-sub (q * 146097 + doe) 719468 (omega arith) (omega arith),
      total,
    )

-- January and February of the year 0 lie in the era before.
days_from_civil-first :
    (month day : ℕ)
    → 1 ≤ month
    → month ≤ 2
    → day ≤ 31
    → days_from_civil 0 month day ≡ ok (sub_ℕ (day_of_year month day) 719834)
unfolding days_from_civil adjust_year era_of day_of_era checked ◌-ℤ◌ ◌+ℤ◌ ◌*ℤ◌ ◌/ℤ◌
days_from_civil-first zero day l h k = absurd (omega arith)
days_from_civil-first (suc zero) day l h k = ground arith
days_from_civil-first (suc (suc zero)) day l h k = ground arith
days_from_civil-first (suc (suc (suc month))) day l h k = absurd (omega arith)

ordinal-first :
    (month day : ℕ)
    → 1 ≤ month
    → month ≤ 2
    → 1 ≤ day
    → ordinal 0 month day + 306 ≡ day_of_year month day
unfolding ordinal days_before_year days_of_months days_in_month
ordinal-first zero day l h k = absurd (omega arith)
ordinal-first (suc zero) day l h k = ground arith
ordinal-first (suc (suc zero)) day l h k = ground arith
ordinal-first (suc (suc (suc month))) day l h k = absurd (omega arith)

ordinal-winter :
    (a month day : ℕ)
    → 1 ≤ month
    → month ≤ 2
    → 1 ≤ day
    → ordinal (suc a) month day ≡ march_days a month day + 60
unfolding ordinal days_of_months days_in_month
ordinal-winter a zero day l h k = absurd (omega arith)
ordinal-winter a (suc zero) day l h k = ground (arith, days_before_year_lem (suc a))
ordinal-winter a (suc (suc zero)) day l h k = ground (arith, days_before_year_lem (suc a))
ordinal-winter a (suc (suc (suc month))) day l h k = absurd (omega arith)

ordinal-summer :
    (a k day : ℕ)
    → k ≤ 9
    → 1 ≤ day
    → ordinal a (suc (suc (suc k))) day ≡ march_days a (suc (suc (suc k))) day + 60
unfolding ordinal
ordinal-summer a k day h l = ground (arith, days_before_year_lem a, days_of_months-march a k h)

adjust_year-winter : (a month : ℕ) → month ≤ 2 → adjust_year (suc a) month ≡ pos a
unfolding adjust_year ◌-ℤ◌
adjust_year-winter a month h = ground arith

adjust_year-summer : (a k : ℕ) → adjust_year a (suc (suc (suc k))) ≡ pos a
unfolding adjust_year ◌-ℤ◌
adjust_year-summer a k = ground arith

sub_ℕ-shift : (n k : ℕ) → pos n -ℤ pos k ≡ sub_ℕ (n + 60) (k + 60)
unfolding ◌-ℤ◌
sub_ℕ-shift n k = ground arith

sub_ℕ-first : (o n : ℕ) → o + 306 ≡ n → sub_ℕ n 719834 ≡ sub_ℕ o epoch
sub_ℕ-first o n e = ground arith

winter_lem :
    (year month day : ℕ)
    → year ≤ 9999
    → 1 ≤ month
    → month ≤ 2
    → 1 ≤ day
    → day ≤ 31
    → days_from_civil year month day ≡ ok (sub_ℕ (ordinal year month day) epoch)
winter_lem zero month day y l h d k =
    days_from_civil-first month day l h k
    ∙ ap ok
        (sub_ℕ-first (ordinal 0 month day) (day_of_year month day) (ordinal-first month day l h d))
winter_lem (suc a) month day y l h d k =
    days_from_civil-adjusted (suc a) month day a (adjust_year-winter a month h) (omega arith)
      (omega arith) k
    ∙ rw (ordinal-winter a month day l h d) (ap ok (sub_ℕ-shift (march_days a month day) 719468))

summer_lem :
    (a k day : ℕ)
    → a ≤ 9999
    → k ≤ 9
    → 1 ≤ day
    → day ≤ 31
    → days_from_civil a (suc (suc (suc k))) day
      ≡ ok (sub_ℕ (ordinal a (suc (suc (suc k))) day) epoch)
summer_lem a k day y h d l =
    days_from_civil-adjusted a (suc (suc (suc k))) day a (adjust_year-summer a k) y (omega arith) l
    ∙ rw (ordinal-summer a k day h d)
        (ap ok (sub_ℕ-shift (march_days a (suc (suc (suc k))) day) 719468))

-- For every year up to 9999, month from 1 to 12 and day from 1 to 31, `days_from_civil` succeeds
-- with the number of days by which the calendar's day count of the date exceeds that of 1970-01-01.
pub days_from_civil-ordinal :
    (year month day : ℕ)
    → year ≤ 9999
    → 1 ≤ month
    → month ≤ 12
    → 1 ≤ day
    → day ≤ 31
    → days_from_civil year month day ≡ ok (sub_ℕ (ordinal year month day) epoch)
days_from_civil-ordinal year zero day y l h d k = absurd (omega arith)
days_from_civil-ordinal year (suc zero) day y l h d k =
    winter_lem year 1 day y (omega arith) (omega arith) d k
days_from_civil-ordinal year (suc (suc zero)) day y l h d k =
    winter_lem year 2 day y (omega arith) (omega arith) d k
days_from_civil-ordinal year (suc (suc (suc m))) day y l h d k =
    summer_lem year m day y (omega arith) d k
