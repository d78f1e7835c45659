-- ===== src/Tls/Time.antt =====
-- src/tls_reload.rs: `parse_digits` and `parse_certificate_time`. The values of `parse_digits` are
-- never negative, so they are natural numbers, checked against the largest `i64`.
pub mod Laws
use open_tf_mirror.Base.{
  ℕ, zero, suc, ◌+◌, ◌*◌, ◌-◌, Bool, true, false, not, ◌&&◌, ◌||◌, ◌==◌, ltb, leb, if◌then◌else◌,
  Option, some, none, Result, ok, err, ◌>>=◌, ◌>>◌, guard, ok_or, List, [], ◌∷◌, length, take, drop,
  all, any, is_empty, is_ascii_digit,
}
use open_tf_mirror.Base.Int.{ℤ, pos, ◌+ℤ◌, ◌*ℤ◌, checked}
use open_tf_mirror.Tls.Errors.{
  TlsError, not_utc, invalid_utc_time, invalid_generalized_time, unsupported_time_tag,
  missing_time_fields, invalid_fraction, invalid_calendar, non_digit, field_overflow,
  timestamp_overflow,
}
use open_tf_mirror.Tls.Civil.{days_in_month, days_from_civil}

-- A value that fits `i64`.
abbrev fits : ℕ → Bool
fits n = leb n 9223372036854775807

-- The `try_fold`.
unfoldable pub digits_value : ℕ → List ℕ → Result TlsError ℕ
digits_value value [] = ok value
digits_value value (byte ∷ bytes) =
    let next = value * 10 + (byte - b'0') in
    let rest = digits_value next bytes in
    guard (fits (value * 10) && fits next) field_overflow >> rest

unfoldable pub parse_digits : List ℕ → Result TlsError ℕ
parse_digits value = do
  guard (not (is_empty value || any (λ byte. not (is_ascii_digit byte)) value)) non_digit
  digits_value 0 value

abbrev pub last_is : ℕ → List ℕ → Bool
last_is c [] = false
last_is c (b ∷ []) = b == c
last_is c (b ∷ b' ∷ bytes) = last_is c (b' ∷ bytes)

-- The year and the fields behind it, by the tag of the time.
unfoldable pub read_year : ℕ → List ℕ → Result TlsError (ℕ × List ℕ)
read_year tag value =
    if tag == 0x17
    then (do
      guard (length value == 12) invalid_utc_time
      year ← parse_digits (take 2 value)
      ok ((if leb 50 year then 1900 + year else 2000 + year), drop 2 value))
    else if tag == 0x18
    then (do
      guard (not (ltb (length value) 14)) invalid_generalized_time
      year ← parse_digits (take 4 value)
      ok (year, drop 4 value))
    else err unsupported_time_tag

-- What may follow the seconds: nothing, or a point and digits.
abbrev pub is_fraction : List ℕ → Bool
is_fraction [] = true
is_fraction (c ∷ rest) = c == b'.' && not (is_empty rest) && all is_ascii_digit rest

pub record Fields : Type 0 where
  pub year : ℕ
  pub month : ℕ
  pub day : ℕ
  pub hour : ℕ
  pub minute : ℕ
  pub second : ℕ

abbrev pub is_calendar : Fields → Bool
is_calendar f =
    leb 1 f.month
    && leb f.month 12
    && not (f.day == 0)
    && leb f.day (days_in_month f.year f.month)
    && leb f.hour 23
    && leb f.minute 59
    && leb f.second 59

unfoldable pub read_fields : ℕ → List ℕ → Result TlsError Fields
read_fields year fields = do
  guard (not (ltb (length fields) 10)) missing_time_fields
  month ← parse_digits (take 2 fields)
  day ← parse_digits (take 2 (drop 2 fields))
  hour ← parse_digits (take 2 (drop 4 fields))
  minute ← parse_digits (take 2 (drop 6 fields))
  second ← parse_digits (take 2 (drop 8 fields))
  guard (is_fraction (drop 10 fields)) invalid_fraction
  let read : Fields = record {
    year = year;
    month = month;
    day = day;
    hour = hour;
    minute = minute;
    second = second;
  }
  guard (is_calendar read) invalid_calendar
  ok read

-- The checked sum of days and of the time of the day.
unfoldable pub timestamp : Fields → Result TlsError ℤ
timestamp f = do
  days ← days_from_civil f.year f.month f.day
  of_days ← ok_or (checked (days *ℤ pos 86400)) timestamp_overflow
  of_hours ← ok_or (checked (of_days +ℤ pos (f.hour * 3600))) timestamp_overflow
  of_minutes ← ok_or (checked (of_hours +ℤ pos (f.minute * 60))) timestamp_overflow
  ok_or (checked (of_minutes +ℤ pos f.second)) timestamp_overflow

unfoldable pub parse_certificate_time : ℕ → List ℕ → Result TlsError ℤ
parse_certificate_time tag value = do
  guard (last_is b'Z' value) not_utc
  (year, fields) ← read_year tag (take (length value - 1) value)
  read ← read_fields year fields
  timestamp read
