-- ===== src/Tls/Validity/Chain.antt =====
-- src/tls_reload.rs: a chain is accepted exactly while every certificate of it is valid.
use open_tf_mirror.Base.{
  ℕ, List, [], ◌∷◌, ◌≡◌, refl, ◌↔◌, true, not, ok, guard, >>=-eq-ok, All, arith,
}
use open_tf_mirror.Base.Int.{ℤ, ◌≤ℤ◌, ltb_ℤ, min_ℤ, i64_max}
use open_tf_mirror.Tls.Validity.{
  parse_certificate_validity, validate_from, validate_certificate_validity,
}

-- The certificate can be read, and the time lies in its validity, both ends included.
abbrev pub IsValidAt : ℤ → List ℕ → Type 0
IsValidAt now cert =
    (window : ℤ × ℤ) × (parse_certificate_validity cert ≡ ok window)
    × (window.0 ≤ℤ now)
    × (now ≤ℤ window.1)

-- The certificate can be read, and does not end before the time.
abbrev pub EndsNotBefore : ℤ → List ℕ → Type 0
EndsNotBefore time cert =
    (window : ℤ × ℤ) × (parse_certificate_validity cert ≡ ok window) × (time ≤ℤ window.1)

-- What a chain that was accepted promises of the time that is returned.
pub record IsEarliest (now : ℤ) (certs : List (List ℕ)) (earliest : ℤ) : Type 0 where
  pub valid : All (IsValidAt now) certs
  pub bound : All (EndsNotBefore earliest) certs
  pub ahead : now ≤ℤ earliest

EndsNotBefore-le :
    (s t : ℤ) → s ≤ℤ t → (cert : List ℕ) → EndsNotBefore t cert → EndsNotBefore s cert
EndsNotBefore-le s t h cert (w, e, k) = (w, e, omega arith)

validate_from-le :
    (earliest now t : ℤ) (certs : List (List ℕ))
    → validate_from earliest certs now ≡ ok t
    → t ≤ℤ earliest
unfolding validate_from
validate_from-le earliest now t [] h = ground arith
validate_from-le earliest now t (cert ∷ certs) h =
    let ((nb, na), e, h₁) = >>=-eq-ok (parse_certificate_validity cert) _ h in
    let (_, g₁, h₂) = >>=-eq-ok (guard (not (ltb_ℤ now nb)) _) _ h₁ in
    let (_, g₂, h₃) = >>=-eq-ok (guard (not (ltb_ℤ na now)) _) _ h₂ in
    ground (arith, validate_from-le (min_ℤ earliest na) now t certs h₃)

validate_from_sound :
    (earliest now t : ℤ) (certs : List (List ℕ))
    → now ≤ℤ earliest
    → validate_from earliest certs now ≡ ok t
    → IsEarliest now certs t
unfolding validate_from
validate_from_sound earliest now t [] l h = record { valid = tt; bound = tt; ahead = ground arith }
validate_from_sound earliest now t (cert ∷ certs) l h =
    let ((nb, na), e, h₁) = >>=-eq-ok (parse_certificate_validity cert) _ h in
    let (_, g₁, h₂) = >>=-eq-ok (guard (not (ltb_ℤ now nb)) _) _ h₁ in
    let (_, g₂, h₃) = >>=-eq-ok (guard (not (ltb_ℤ na now)) _) _ h₂ in
    let started : nb ≤ℤ now = ground arith in
    let lasting : now ≤ℤ na = ground arith in
    let below = validate_from-le (min_ℤ earliest na) now t certs h₃ in
    let rest = validate_from_sound (min_ℤ earliest na) now t certs (ground arith) h₃ in
    let bound : t ≤ℤ na = ground arith in
    record {
      valid = (((nb, na), e, started, lasting), rest.valid);
      bound = (((nb, na), e, bound), rest.bound);
      ahead = rest.ahead;
    }

validate_from_complete :
    (earliest now : ℤ) (certs : List (List ℕ))
    → All (IsValidAt now) certs
    → (t : ℤ) × (validate_from earliest certs now ≡ ok t)
unfolding validate_from
validate_from_complete earliest now [] h = (earliest, refl)
validate_from_complete earliest now (cert ∷ certs) (((nb, na), e, s, l), h) =
    let (t, found) = validate_from_complete (min_ℤ earliest na) now certs h in
    let later : not (ltb_ℤ now nb) ≡ true = ground arith in
    let earlier : not (ltb_ℤ na now) ≡ true = ground arith in (t, rw (e, later, earlier) found)

-- If the time fits `i64`, the time that `validate_certificate_validity` returns is not before now and
-- not behind the end of any certificate of the chain, all of which are valid now.
pub validate_certificate_validity-IsEarliest :
    (certs : List (List ℕ)) (now t : ℤ)
    → now ≤ℤ i64_max
    → validate_certificate_validity certs now ≡ ok t
    → IsEarliest now certs t
unfolding validate_certificate_validity
validate_certificate_validity-IsEarliest certs now t l h =
    validate_from_sound i64_max now t certs l h

-- At a time that fits `i64`, `validate_certificate_validity` accepts a chain exactly when every
-- certificate of it can be read and the time lies in its validity, both ends included.
pub validate_certificate_validity_iff :
    (certs : List (List ℕ)) (now : ℤ)
    → now ≤ℤ i64_max
    → ((t : ℤ) × (validate_certificate_validity certs now ≡ ok t)) ↔ All (IsValidAt now) certs
unfolding validate_certificate_validity
validate_certificate_validity_iff certs now l = (
  λ (t, h). (validate_from_sound i64_max now t certs l h).valid,
  validate_from_complete i64_max now certs,
)
