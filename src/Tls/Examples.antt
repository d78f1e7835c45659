-- ===== src/Tls/Examples.antt =====
-- src/tls_reload.rs: small certificates and chains, and the theorems at them.
use open_tf_mirror.Base.{
  ℕ, ◌*◌, ◌<◌, ◌≡◌, refl, ◌↔◌, inl, true, List, [], ◌∷◌, ◌++◌, length, All, some, none, codes, ok,
  err, arith,
}
use open_tf_mirror.Base.Int.{ℤ, pos, sub_ℕ, ◌+ℤ◌, ◌-ℤ◌, ◌*ℤ◌, ◌/ℤ◌, checked, ◌≤ℤ◌}
use open_tf_mirror.Tls.Errors.{open_failed}
use open_tf_mirror.Tls.Der.{length_value, read_length, read_der_tlv, read_der_value}
use open_tf_mirror.Tls.Der.Laws.{IsHeader, read_der_tlv_iff}
use open_tf_mirror.Tls.Civil.{days_in_month, adjust_year, era_of, day_of_era, days_from_civil}
use open_tf_mirror.Tls.Civil.Calendar.{ordinal, epoch}
use open_tf_mirror.Tls.Civil.Laws.{days_from_civil-ordinal}
use open_tf_mirror.Tls.Time.{
  Fields, digits_value, parse_digits, read_year, read_fields, timestamp, parse_certificate_time,
}
use open_tf_mirror.Tls.Time.Laws.{
  IsCalendar, seconds, body, four, parse_certificate_time-generalized,
}
use open_tf_mirror.Tls.Validity.{
  skip_version, tbs_validity, parse_certificate_validity, validate_from,
  validate_certificate_validity,
}
use open_tf_mirror.Tls.Validity.Laws.{
  IsTlv, IsBody, IsWindow, IsCertificate, parse_certificate_validity-IsCertificate,
}
use open_tf_mirror.Tls.Validity.Chain.{IsValidAt, validate_certificate_validity_iff}
use open_tf_mirror.Tls.Resolver.{
  CertifiedKey, Files, load_certified_key, Resolver, read_cached, claim, finish, resolve,
}
use open_tf_mirror.Tls.Resolver.Handshake.{
  Arrival, attempts, IsSpaced, resolve-unexpired, answers, AllServed, answers-AllServed,
  attempts-IsSpaced,
}
use open_tf_mirror.Tls.Resolver.Race.{overlap, overlap-overwrites}

program : Unit {0}
unfolding length_value read_length read_der_tlv read_der_value days_in_month adjust_year era_of
    day_of_era days_from_civil digits_value parse_digits read_year read_fields timestamp
    parse_certificate_time skip_version tbs_validity parse_certificate_validity validate_from
    validate_certificate_validity load_certified_key read_cached claim finish resolve checked ◌+ℤ◌
    ◌-ℤ◌ ◌*ℤ◌ ◌/ℤ◌
program = tt

-- 2030-01-01T00:00:00Z
abbrev new_year : Fields
new_year = record { year = 2030; month = 1; day = 1; hour = 0; minute = 0; second = 0 }

new_year-IsCalendar : IsCalendar new_year
unfolding days_in_month
new_year-IsCalendar = record {
  year = omega arith;
  month = (omega arith, omega arith);
  day = (omega arith, omega arith);
  hour = omega arith;
  minute = omega arith;
  second = omega arith;
}

new_year_seconds : parse_certificate_time 0x18 (codes "20300101000000Z") ≡ ok (pos 1893456000)
unfolding program
new_year_seconds = refl

year_zero : days_from_civil 0 1 1 ≡ ok (sub_ℕ 0 719528)
unfolding program
year_zero = refl

days_from_civil-ordinal_example : days_from_civil 2024 2 29 ≡ ok (sub_ℕ (ordinal 2024 2 29) epoch)
days_from_civil-ordinal_example =
    days_from_civil-ordinal 2024 2 29 (omega arith) (omega arith) (omega arith) (omega arith)
      (omega arith)

parse_certificate_time-generalized_example :
    parse_certificate_time 0x18 ((four 2030 ++ body new_year (codes ".5")) ++ b'Z' ∷ [])
    ≡ ok (sub_ℕ (seconds new_year) (epoch * 86400))
parse_certificate_time-generalized_example =
    parse_certificate_time-generalized new_year (codes ".5") new_year-IsCalendar refl

-- A value in the short form, and a whole that is read back from the long one.
abbrev tlv : ℕ → List ℕ → List ℕ
tlv tag value = tag ∷ length value ∷ value

tlv-IsTlv : (tag : ℕ) (value : List ℕ) → length value < 128 → IsTlv tag value (tlv tag value)
tlv-IsTlv tag value h = record {
  header = length value ∷ [];
  is_header = inl (h, refl);
  are_bytes = (omega arith, tt);
  encoded = refl;
}

read_der_tlv_iff_example :
    (read_der_tlv (4 ∷ 0x82 ∷ 0 ∷ 2 ∷ 7 ∷ 8 ∷ 9 ∷ []) ≡ ok (4, 7 ∷ 8 ∷ [], 9 ∷ [])) ↔ (
      (header : List ℕ) × IsHeader 2 header
      × (4 ∷ 0x82 ∷ 0 ∷ 2 ∷ 7 ∷ 8 ∷ 9 ∷ [] ≡ 4 ∷ (header ++ ((7 ∷ 8 ∷ []) ++ 9 ∷ []))))
read_der_tlv_iff_example =
    read_der_tlv_iff (4 ∷ 0x82 ∷ 0 ∷ 2 ∷ 7 ∷ 8 ∷ 9 ∷ []) (7 ∷ 8 ∷ []) (9 ∷ []) 4 (omega arith)

-- A certificate with no version, valid from 2020 to 2030.
abbrev start : List ℕ
start = codes "200101000000Z"

abbrev end : List ℕ
end = codes "20300101000000Z"

abbrev window : List ℕ
window = tlv 0x17 start ++ tlv 0x18 end

abbrev tbs : List ℕ
tbs = tlv 2 (1 ∷ []) ++ (tlv 0x30 [] ++ (tlv 0x30 [] ++ (tlv 0x30 window ++ [])))

abbrev certificate : List ℕ
certificate = tlv 0x30 (tlv 0x30 tbs ++ (tlv 0x30 [] ++ tlv 3 []))

certificate-IsCertificate : IsCertificate certificate tbs
certificate-IsCertificate = record {
  inside = tlv 0x30 tbs ++ (tlv 0x30 [] ++ tlv 3 []);
  body = tlv 0x30 tbs;
  algorithm = tlv 0x30 [];
  signature = tlv 3 [];
  outer_tlv = tlv-IsTlv 0x30 _ (omega arith);
  body_tlv = tlv-IsTlv 0x30 _ (omega arith);
  algorithm_tlv = ([], tlv-IsTlv 0x30 _ (omega arith));
  signature_tlv = ([], tlv-IsTlv 3 _ (omega arith));
  whole = refl;
}

tbs-IsBody : IsBody tbs window
tbs-IsBody = record {
  version = [];
  serial = tlv 2 (1 ∷ []);
  algorithm = tlv 0x30 [];
  issuer = tlv 0x30 [];
  window = tlv 0x30 window;
  rest = [];
  version_tlv = inl refl;
  serial_tlv = (1 ∷ [], tlv-IsTlv 2 _ (omega arith));
  algorithm_tlv = ([], tlv-IsTlv 0x30 _ (omega arith));
  issuer_tlv = ([], tlv-IsTlv 0x30 _ (omega arith));
  window_tlv = tlv-IsTlv 0x30 _ (omega arith);
  whole = refl;
}

window-IsWindow : IsWindow window 0x17 start 0x18 end
window-IsWindow = record {
  first = tlv 0x17 start;
  second = tlv 0x18 end;
  first_tlv = tlv-IsTlv 0x17 _ (omega arith);
  second_tlv = tlv-IsTlv 0x18 _ (omega arith);
  whole = refl;
}

parse_certificate_validity-IsCertificate_example :
    parse_certificate_validity certificate ≡ ok (pos 1577836800, pos 1893456000)
unfolding program
parse_certificate_validity-IsCertificate_example =
    parse_certificate_validity-IsCertificate certificate tbs window 0x17 start 0x18 end
      (pos 1577836800) (pos 1893456000) certificate-IsCertificate tbs-IsBody window-IsWindow refl
      refl (omega arith)

abbrev chain : List (List ℕ)
chain = certificate ∷ certificate ∷ []

-- The last second of the validity.
validate_last_second : validate_certificate_validity chain (pos 1893456000) ≡ ok (pos 1893456000)
unfolding program
validate_last_second = refl

validate_certificate_validity_iff_example :
    ((t : ℤ) × (validate_certificate_validity chain (pos 1893456000) ≡ ok t))
    ↔ All (IsValidAt (pos 1893456000)) chain
validate_certificate_validity_iff_example =
    validate_certificate_validity_iff chain (pos 1893456000) (omega arith)

-- Files that hold the chain and a key that is its own signing key.
abbrev files : Files ℕ
files = record {
  PrivateKey = ℕ;
  certs = ok chain;
  private_key = ok 7;
  any_supported_type = λ key. some key;
  keys_match = λ certs key. true;
}

abbrev pair : CertifiedKey ℕ
pair = record { chain = chain; signing_key = 7 }

load_now : load_certified_key files (pos 1800000000) ≡ ok (pair, pos 1893456000)
unfolding program
load_now = refl

abbrev stale : Resolver (CertifiedKey ℕ)
stale = record {
  key = record { chain = []; signing_key = 3 };
  not_after = pos 5;
  checked_at = 10;
  reload_interval = 5;
}

abbrev reloaded : Resolver (CertifiedKey ℕ)
reloaded = record stale { key = pair; not_after = pos 1893456000; checked_at = 20 }

resolve_now :
    resolve (load_certified_key files (pos 1800000000)) 20 (pos 1800000000) stale
    ≡ (reloaded, some pair, true)
unfolding program
resolve_now = refl

resolve-unexpired_example : (reloaded.key ≡ pair) × (pos 1800000000 ≤ℤ reloaded.not_after)
resolve-unexpired_example =
    resolve-unexpired files 20 (pos 1800000000) (pos 1800000000) stale reloaded pair true
      (omega arith) (omega arith) resolve_now

abbrev small : Resolver ℕ
small = record { key = 3; not_after = pos 100; checked_at = 10; reload_interval = 5 }

abbrev small_checked : Resolver ℕ
small_checked = record small { checked_at = 20 }

resolve_failed : resolve (err open_failed) 20 (pos 100) small ≡ (small_checked, some 3, true)
unfolding program
resolve_failed = refl

-- The pair of the beginning ends at 200.
abbrev failing : List (Arrival ℕ)
failing =
    record { now = 20; now_epoch = pos 100; loaded = err open_failed }
    ∷ record { now = 21; now_epoch = pos 300; loaded = err open_failed }
    ∷ []

answers-AllServed_example : AllServed small.key small.not_after failing (answers failing small)
answers-AllServed_example =
    answers-AllServed failing small ((open_failed, refl), ((open_failed, refl), tt))

abbrev arrivals : List (Arrival ℕ)
arrivals =
    record { now = 12; now_epoch = pos 1; loaded = err open_failed }
    ∷ record { now = 16; now_epoch = pos 1; loaded = ok (4, pos 50) }
    ∷ record { now = 20; now_epoch = pos 1; loaded = ok (5, pos 50) }
    ∷ record { now = 21; now_epoch = pos 1; loaded = err open_failed }
    ∷ []

attempts_made : attempts arrivals small ≡ 16 ∷ 21 ∷ []
unfolding program attempts
attempts_made = refl

attempts-IsSpaced_example : IsSpaced 5 10 (attempts arrivals small)
attempts-IsSpaced_example = attempts-IsSpaced arrivals small (omega arith)

overlap-overwrites_example :
    ((claim 20 (pos 1) small).1 ≡ none)
    × ((claim 30 (pos 1) (claim 20 (pos 1) small).0).1 ≡ none)
    × ((overlap 20 30 (pos 1) (4, pos 50) (5, pos 60) small).key ≡ 4)
    × ((overlap 20 30 (pos 1) (4, pos 50) (5, pos 60) small).checked_at ≡ 20)
    × ((claim 30 (pos 1) (overlap 20 30 (pos 1) (4, pos 50) (5, pos 60) small)).1 ≡ none)
overlap-overwrites_example =
    overlap-overwrites 20 30 (pos 1) (4, pos 50) (5, pos 60) small (omega arith) (omega arith)
      (omega arith)
