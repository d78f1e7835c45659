-- ===== src/Tls/Validity/Laws.antt =====
-- src/tls_reload.rs: the validity is found in every certificate of the expected structure.
use open_tf_mirror.Base.{
  ℕ, List, [], ◌∷◌, ◌++◌, ◌≡◌, ◌⊎◌, inl, inr, true, length, All, append_assoc, append-nil, ok,
  arith,
}
use open_tf_mirror.Base.Int.{ℤ, ◌≤ℤ◌}
use open_tf_mirror.Tls.Der.{read_der_tlv, read_der_value}
use open_tf_mirror.Tls.Der.Laws.{IsByte, IsHeader, read_der_tlv_complete}
use open_tf_mirror.Tls.Time.{parse_certificate_time}
use open_tf_mirror.Tls.Validity.{first_is, skip_version, tbs_validity, parse_certificate_validity}

-- The bytes are the encoding of a tag and a value.
pub record IsTlv (tag : ℕ) (value : List ℕ) (bytes : List ℕ) : Type 0 where
  pub header : List ℕ
  pub is_header : IsHeader (length value) header
  pub are_bytes : All IsByte header
  pub encoded : bytes ≡ tag ∷ (header ++ value)

read_der_tlv-IsTlv :
    (tag : ℕ) (value bytes rest : List ℕ)
    → IsTlv tag value bytes
    → read_der_tlv (bytes ++ rest) ≡ ok (tag, value, rest)
read_der_tlv-IsTlv tag value bytes rest t =
    rw (t.encoded, append_assoc)
      (read_der_tlv_complete t.header value rest tag t.are_bytes t.is_header)

read_der_value-IsTlv :
    (tag : ℕ) (value bytes rest : List ℕ)
    → IsTlv tag value bytes
    → read_der_value tag (bytes ++ rest) ≡ ok (value, rest)
unfolding read_der_value
read_der_value-IsTlv tag value bytes rest t =
    rw (read_der_tlv-IsTlv tag value bytes rest t) (ground arith)

read_der_value-whole :
    (tag : ℕ) (value bytes : List ℕ)
    → IsTlv tag value bytes
    → read_der_value tag bytes ≡ ok (value, [])
read_der_value-whole tag value bytes t =
    rw append-nil at (read_der_value-IsTlv tag value bytes [] t)

-- The fields of a certificate's body as far as its validity; the version may be missing.
pub record IsBody (tbs validity : List ℕ) : Type 0 where
  pub version : List ℕ
  pub serial : List ℕ
  pub algorithm : List ℕ
  pub issuer : List ℕ
  pub window : List ℕ
  pub rest : List ℕ
  pub version_tlv : (version ≡ []) ⊎ ((v : List ℕ) × IsTlv 0xa0 v version)
  pub serial_tlv : (v : List ℕ) × IsTlv 0x02 v serial
  pub algorithm_tlv : (v : List ℕ) × IsTlv 0x30 v algorithm
  pub issuer_tlv : (v : List ℕ) × IsTlv 0x30 v issuer
  pub window_tlv : IsTlv 0x30 validity window
  pub whole : tbs ≡ version ++ (serial ++ (algorithm ++ (issuer ++ (window ++ rest))))

-- The two times, each as a tag with its bytes.
pub record IsWindow (validity : List ℕ) (tag₁ : ℕ) (time₁ : List ℕ) (tag₂ : ℕ) (time₂ : List ℕ)
    : Type 0 where
  pub first : List ℕ
  pub second : List ℕ
  pub first_tlv : IsTlv tag₁ time₁ first
  pub second_tlv : IsTlv tag₂ time₂ second
  pub whole : validity ≡ first ++ second

-- A body, an algorithm and a signature, in one sequence.
pub record IsCertificate (der tbs : List ℕ) : Type 0 where
  pub inside : List ℕ
  pub body : List ℕ
  pub algorithm : List ℕ
  pub signature : List ℕ
  pub outer_tlv : IsTlv 0x30 inside der
  pub body_tlv : IsTlv 0x30 tbs body
  pub algorithm_tlv : (v : List ℕ) × IsTlv 0x30 v algorithm
  pub signature_tlv : (v : List ℕ) × IsTlv 0x03 v signature
  pub whole : inside ≡ body ++ (algorithm ++ signature)

skip_version-none :
    (v serial rest : List ℕ)
    → IsTlv 0x02 v serial
    → skip_version (serial ++ rest) ≡ ok (serial ++ rest)
unfolding skip_version
skip_version-none v serial rest t = rw t.encoded (ground arith)

skip_version-some :
    (v version rest : List ℕ) → IsTlv 0xa0 v version → skip_version (version ++ rest) ≡ ok rest
unfolding skip_version
skip_version-some v version rest t =
    let read = read_der_value-IsTlv 0xa0 v version rest t in
    let shape : version ++ rest ≡ 0xa0 ∷ ((t.header ++ v) ++ rest) = rw t.encoded in
    let here : first_is 0xa0 (version ++ rest) ≡ true = rw shape in rw (here, read)

skip_version-IsBody :
    (tbs validity : List ℕ) (b : IsBody tbs validity)
    → skip_version tbs ≡ ok (b.serial ++ (b.algorithm ++ (b.issuer ++ (b.window ++ b.rest))))
skip_version-IsBody tbs validity b = rw b.whole (elim b.version_tlv [
  | inl e ↦ rw e (skip_version-none b.serial_tlv.0 b.serial _ b.serial_tlv.1)
  | inr (v, t) ↦ skip_version-some v b.version _ t
])

tbs_validity-IsBody :
    (tbs validity : List ℕ) (tag₁ : ℕ) (time₁ : List ℕ) (tag₂ : ℕ) (time₂ : List ℕ)
    (not_before not_after : ℤ)
    → IsBody tbs validity
    → IsWindow validity tag₁ time₁ tag₂ time₂
    → parse_certificate_time tag₁ time₁ ≡ ok not_before
    → parse_certificate_time tag₂ time₂ ≡ ok not_after
    → not_before ≤ℤ not_after
    → tbs_validity tbs ≡ ok (not_before, not_after)
unfolding tbs_validity
tbs_validity-IsBody tbs validity tag₁ time₁ tag₂ time₂ nb na b w p q order =
    let last = rw append-nil at (read_der_tlv-IsTlv tag₂ time₂ w.second [] w.second_tlv) in
    rw
      (
        skip_version-IsBody tbs validity b,
        read_der_value-IsTlv 0x02 b.serial_tlv.0 b.serial
            (b.algorithm ++ (b.issuer ++ (b.window ++ b.rest))) b.serial_tlv.1,
        read_der_value-IsTlv 0x30 b.algorithm_tlv.0 b.algorithm (b.issuer ++ (b.window ++ b.rest))
            b.algorithm_tlv.1,
        read_der_value-IsTlv 0x30 b.issuer_tlv.0 b.issuer (b.window ++ b.rest) b.issuer_tlv.1,
        read_der_value-IsTlv 0x30 validity b.window b.rest b.window_tlv,
        w.whole,
        read_der_tlv-IsTlv tag₁ time₁ w.first w.second w.first_tlv,
        last,
        p,
        q,
      )
      (ground arith)

-- For every certificate that is a sequence of a body, an algorithm and a signature, with or without
-- a version in its body, whose two times can be read and are in order, the times are what
-- `parse_certificate_validity` returns.
pub parse_certificate_validity-IsCertificate :
    (der tbs validity : List ℕ) (tag₁ : ℕ) (time₁ : List ℕ) (tag₂ : ℕ) (time₂ : List ℕ)
    (not_before not_after : ℤ)
    → IsCertificate der tbs
    → IsBody tbs validity
    → IsWindow validity tag₁ time₁ tag₂ time₂
    → parse_certificate_time tag₁ time₁ ≡ ok not_before
    → parse_certificate_time tag₂ time₂ ≡ ok not_after
    → not_before ≤ℤ not_after
    → parse_certificate_validity der ≡ ok (not_before, not_after)
unfolding parse_certificate_validity
parse_certificate_validity-IsCertificate der tbs validity tag₁ time₁ tag₂ time₂ nb na c b w p q
      order =
    rw
      (
        read_der_value-whole 0x30 c.inside der c.outer_tlv,
        c.whole,
        read_der_value-IsTlv 0x30 tbs c.body (c.algorithm ++ c.signature) c.body_tlv,
        read_der_value-IsTlv 0x30 c.algorithm_tlv.0 c.algorithm c.signature c.algorithm_tlv.1,
        read_der_value-whole 0x03 c.signature_tlv.0 c.signature c.signature_tlv.1,
      )
      (tbs_validity-IsBody tbs validity tag₁ time₁ tag₂ time₂ nb na b w p q order)
