-- ===== src/Tls/Time/Laws.antt =====
-- src/tls_reload.rs: the time of a certificate, read back from its digits.
use open_tf_mirror.Base.{
  ℕ, zero, suc, ◌+◌, ◌*◌, ◌-◌, ◌/◌, ◌%◌, ◌≤◌, ◌<◌, ◌≡◌, refl, true, not, ltb, some, ok, List, [],
  ◌∷◌, ◌++◌, length, take, arith, length-append, take-append,
}
use open_tf_mirror.Base.Int.{pos, sub_ℕ, ◌+ℤ◌, ◌*ℤ◌, checked}
use open_tf_mirror.Tls.Civil.{days_in_month}
use open_tf_mirror.Tls.Civil.Calendar.{days_of_months, ordinal, epoch, days_before_year_lem}
use open_tf_mirror.Tls.Civil.Laws.{days_from_civil-ordinal}
use open_tf_mirror.Tls.Time.{
  digits_value, parse_digits, read_year, is_fraction, Fields, is_calendar, last_is, read_fields,
  timestamp, parse_certificate_time,
}

-- The decimal digits of a number below 100, and of one below 10000.
abbrev pub two : ℕ → List ℕ
two n = (48 + n / 10) ∷ (48 + n % 10) ∷ []

abbrev pub four : ℕ → List ℕ
four n = (48 + n / 1000) ∷ (48 + n / 100 % 10) ∷ (48 + n / 10 % 10) ∷ (48 + n % 10) ∷ []

parse_digits-two : (n : ℕ) → n < 100 → parse_digits (two n) ≡ ok n
unfolding parse_digits digits_value
parse_digits-two n h = ground arith

parse_digits-four : (n : ℕ) → n < 10000 → parse_digits (four n) ≡ ok n
unfolding parse_digits digits_value
parse_digits-four n h = ground arith

-- A date of the calendar and a time of the day, in a year of four digits.
pub record IsCalendar (f : Fields) : Type 0 where
  pub year : f.year ≤ 9999
  pub month : (1 ≤ f.month) × (f.month ≤ 12)
  pub day : (1 ≤ f.day) × (f.day ≤ days_in_month f.year f.month)
  pub hour : f.hour ≤ 23
  pub minute : f.minute ≤ 59
  pub second : f.second ≤ 59

-- The seconds from 0000-01-01T00:00:00Z.
abbrev pub seconds : Fields → ℕ
seconds f = ordinal f.year f.month f.day * 86400 + f.hour * 3600 + f.minute * 60 + f.second

-- The digits from the month on.
abbrev pub body : Fields → List ℕ → List ℕ
body f tail = two f.month ++ (two f.day ++ (two f.hour ++ (two f.minute ++ (two f.second ++ tail))))

days_in_month-le : (year month : ℕ) → days_in_month year month ≤ 31
unfolding days_in_month
days_in_month-le year month = ground arith

days_of_months-le : (year n : ℕ) → days_of_months year n ≤ 31 * n
unfolding days_of_months
days_of_months-le year zero = omega arith
days_of_months-le year (suc n) =
    omega (arith, days_of_months-le year n, days_in_month-le year (suc n))

ordinal-le :
    (year month day : ℕ) → year ≤ 9999 → month ≤ 12 → day ≤ 31 → ordinal year month day ≤ 4000000
unfolding ordinal
ordinal-le year month day h k l =
    omega (arith, days_before_year_lem year, days_of_months-le year (month - 1))

sub_ℕ-times : (a b : ℕ) → sub_ℕ a b *ℤ pos 86400 ≡ sub_ℕ (a * 86400) (b * 86400)
unfolding ◌*ℤ◌
sub_ℕ-times a b = ground arith

sub_ℕ-plus : (a b c : ℕ) → sub_ℕ a b +ℤ pos c ≡ sub_ℕ (a + c) b
unfolding ◌+ℤ◌
sub_ℕ-plus a b c = ground arith

checked-sub_ℕ :
    (a b : ℕ)
    → a ≤ 9223372036854775807
    → b ≤ 9223372036854775807
    → checked (sub_ℕ a b) ≡ some (sub_ℕ a b)
unfolding checked
checked-sub_ℕ a b h k = ground arith

timestamp-seconds :
    (f : Fields) → IsCalendar f → timestamp f ≡ ok (sub_ℕ (seconds f) (epoch * 86400))
unfolding timestamp
timestamp-seconds f c =
    let o = ordinal f.year f.month f.day in
    let e = epoch * 86400 in
    let day-le : f.day ≤ 31 = omega (arith, days_in_month-le f.year f.month) in
    let bound = ordinal-le f.year f.month f.day c.year c.month.1 day-le in
    rw (
      days_from_civil-ordinal f.year f.month f.day c.year c.month.0 c.month.1 c.day.0 day-le,
      sub_ℕ-times o epoch,
      checked-sub_ℕ (o * 86400) e (omega arith) (omega arith),
      sub_ℕ-plus (o * 86400) e (f.hour * 3600),
      checked-sub_ℕ (o * 86400 + f.hour * 3600) e (omega arith) (omega arith),
      sub_ℕ-plus (o * 86400 + f.hour * 3600) e (f.minute * 60),
      checked-sub_ℕ (o * 86400 + f.hour * 3600 + f.minute * 60) e (omega arith) (omega arith),
      sub_ℕ-plus (o * 86400 + f.hour * 3600 + f.minute * 60) e f.second,
      checked-sub_ℕ (seconds f) e (omega arith) (omega arith),
    )

is_calendar-IsCalendar : (f : Fields) → IsCalendar f → is_calendar f ≡ true
is_calendar-IsCalendar f c = ground arith

read_fields-body :
    (f : Fields) (tail : List ℕ)
    → IsCalendar f
    → is_fraction tail ≡ true
    → read_fields f.year (body f tail) ≡ ok f
unfolding read_fields
read_fields-body f tail c frac =
    let day-le : f.day ≤ 31 = omega (arith, days_in_month-le f.year f.month) in
    let long : not (ltb (length (body f tail)) 10) ≡ true = ground arith in
    rw (
      long,
      parse_digits-two f.month (omega arith),
      parse_digits-two f.day (omega arith),
      parse_digits-two f.hour (omega arith),
      parse_digits-two f.minute (omega arith),
      parse_digits-two f.second (omega arith),
      frac,
      is_calendar-IsCalendar f c,
    )

last_is-append : (c : ℕ) (xs : List ℕ) → last_is c (xs ++ c ∷ []) ≡ true
last_is-append c [] = ground arith
last_is-append c (b ∷ []) = ground arith
last_is-append c (b ∷ b' ∷ xs) = last_is-append c (b' ∷ xs)

take-init : (c : ℕ) (xs : List ℕ) → take (length (xs ++ c ∷ []) - 1) (xs ++ c ∷ []) ≡ xs
take-init c xs =
    let e : length (xs ++ c ∷ []) - 1 ≡ length xs = omega (arith, length-append xs (c ∷ [])) in
    rw e (take-append xs (c ∷ []))

-- Behind the year and before the final `Z` all that matters is what the year leaves.
parse_certificate_time-by_year :
    (tag : ℕ) (f : Fields) (text tail : List ℕ)
    → read_year tag text ≡ ok (f.year, body f tail)
    → IsCalendar f
    → is_fraction tail ≡ true
    → parse_certificate_time tag (text ++ b'Z' ∷ []) ≡ ok (sub_ℕ (seconds f) (epoch * 86400))
unfolding parse_certificate_time
parse_certificate_time-by_year tag f text tail e c frac = rw (
  last_is-append b'Z' text,
  take-init b'Z' text,
  e,
  read_fields-body f tail c frac,
  timestamp-seconds f c,
)

read_year-generalized :
    (f : Fields) (tail : List ℕ)
    → f.year ≤ 9999
    → read_year 0x18 (four f.year ++ body f tail) ≡ ok (f.year, body f tail)
unfolding read_year
read_year-generalized f tail h =
    let long : not (ltb (length (four f.year ++ body f tail)) 14) ≡ true = ground arith in
    rw (long, parse_digits-four f.year (omega arith))

read_year-utc :
    (f : Fields)
    → 1950 ≤ f.year
    → f.year ≤ 2049
    → read_year 0x17 (two (f.year % 100) ++ body f []) ≡ ok (f.year, body f [])
unfolding read_year
read_year-utc f h k = rw (parse_digits-two (f.year % 100) (omega arith)) (ground arith)

-- For every date of the calendar up to the year 9999 and time of the day, its GeneralizedTime, with
-- a fraction of the second or without, is read as the signed number of seconds by which the
-- calendar's count exceeds that of 1970-01-01T00:00:00Z.
pub parse_certificate_time-generalized :
    (f : Fields) (tail : List ℕ)
    → IsCalendar f
    → is_fraction tail ≡ true
    → parse_certificate_time 0x18 ((four f.year ++ body f tail) ++ b'Z' ∷ [])
      ≡ ok (sub_ℕ (seconds f) (epoch * 86400))
parse_certificate_time-generalized f tail c frac =
    parse_certificate_time-by_year 0x18 f (four f.year ++ body f tail) tail
      (read_year-generalized f tail c.year) c frac

-- For every date of the calendar from 1950 to 2049 and time of the day, its UTCTime, with the last
-- two digits of the year, is read as the signed number of seconds by which the calendar's count
-- exceeds that of 1970-01-01T00:00:00Z.
pub parse_certificate_time-utc :
    (f : Fields)
    → IsCalendar f
    → 1950 ≤ f.year
    → f.year ≤ 2049
    → parse_certificate_time 0x17 ((two (f.year % 100) ++ body f []) ++ b'Z' ∷ [])
      ≡ ok (sub_ℕ (seconds f) (epoch * 86400))
parse_certificate_time-utc f c h k =
    parse_certificate_time-by_year 0x17 f (two (f.year % 100) ++ body f []) [] (read_year-utc f h k)
      c refl
