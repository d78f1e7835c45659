-- ===== src/Tls/Validity.antt =====
-- src/tls_reload.rs: `parse_certificate_validity` and `validate_certificate_validity`. A certificate
-- is the list of its DER bytes.
pub mod Laws
pub mod Chain
use open_tf_mirror.Base.{
  ℕ, Bool, false, not, List, [], ◌∷◌, is_empty, ◌==◌, if◌then◌else◌, Result, ok, ◌>>=◌, ◌>>◌, guard,
}
use open_tf_mirror.Base.Int.{ℤ, leb_ℤ, ltb_ℤ, min_ℤ, i64_max}
use open_tf_mirror.Tls.Errors.{
  TlsError, trailing_data, trailing_fields, trailing_validity, reversed_validity, not_valid_yet,
  expired,
}
use open_tf_mirror.Tls.Der.{read_der_tlv, read_der_value}
use open_tf_mirror.Tls.Time.{parse_certificate_time}

abbrev pub first_is : ℕ → List ℕ → Bool
first_is tag [] = false
first_is tag (c ∷ _) = c == tag

-- The version, which may be left out.
unfoldable pub skip_version : List ℕ → Result TlsError (List ℕ)
skip_version fields =
    if first_is 0xa0 fields then (do (_, rest) ← read_der_value 0xa0 fields; ok rest) else ok fields

-- The two times of the validity, behind the serial number, the algorithm and the issuer.
unfoldable pub tbs_validity : List ℕ → Result TlsError (ℤ × ℤ)
tbs_validity tbs = do
  numbered ← skip_version tbs
  (_, signed) ← read_der_value 0x02 numbered
  (_, issued) ← read_der_value 0x30 signed
  (_, valid) ← read_der_value 0x30 issued
  (validity, _) ← read_der_value 0x30 valid
  (not_before_tag, not_before_der, later) ← read_der_tlv validity
  (not_after_tag, not_after_der, left) ← read_der_tlv later
  guard (is_empty left) trailing_validity
  not_before ← parse_certificate_time not_before_tag not_before_der
  not_after ← parse_certificate_time not_after_tag not_after_der
  guard (leb_ℤ not_before not_after) reversed_validity
  ok (not_before, not_after)

unfoldable pub parse_certificate_validity : List ℕ → Result TlsError (ℤ × ℤ)
parse_certificate_validity der = do
  (certificate, behind) ← read_der_value 0x30 der
  guard (is_empty behind) trailing_data
  (tbs, signed) ← read_der_value 0x30 certificate
  (_, signature) ← read_der_value 0x30 signed
  (_, left) ← read_der_value 0x03 signature
  guard (is_empty left) trailing_fields
  tbs_validity tbs

-- The loop over the chain, with the earliest end so far.
unfoldable pub validate_from : ℤ → List (List ℕ) → ℤ → Result TlsError ℤ
validate_from earliest [] now = ok earliest
validate_from earliest (cert ∷ certs) now = do
  (not_before, not_after) ← parse_certificate_validity cert
  guard (not (ltb_ℤ now not_before)) not_valid_yet
  guard (not (ltb_ℤ not_after now)) expired
  validate_from (min_ℤ earliest not_after) certs now

unfoldable pub validate_certificate_validity : List (List ℕ) → ℤ → Result TlsError ℤ
validate_certificate_validity certs now = validate_from i64_max certs now
