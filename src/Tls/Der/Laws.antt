-- ===== src/Tls/Der/Laws.antt =====
-- src/tls_reload.rs: `read_der_tlv` reads exactly the definite-length encodings.
use open_tf_mirror.Base.{
  ℕ, zero, suc, ◌+◌, ◌*◌, ◌≤◌, ◌<◌, ◌≡◌, refl, sym, ap, ◌∙◌, ◌↔◌, ◌⊎◌, inl, inr, false, List, [],
  ◌∷◌, ◌++◌, ok, >>=-eq-ok, ◌==◌, length, take, drop, length-append, length-take, take-append-drop,
  take-append, drop-append, All, All-append_left, Bool-cases, arith, ◌%◌, ◌/◌,
}
use open_tf_mirror.Tls.Der.{usize_bytes, usize_mod, length_value, read_length, read_der_tlv}

abbrev pub IsByte : ℕ → Type 0
IsByte b = b < 256

-- A big-endian number behind the digits `n`.
abbrev pub be_from : ℕ → List ℕ → ℕ
be_from n [] = n
be_from n (b ∷ bytes) = be_from (n * 256 + b) bytes

abbrev pub be_value : List ℕ → ℕ
be_value = be_from 0

abbrev IsLongForm : ℕ → List ℕ → List ℕ → Type 0
IsLongForm size header bytes =
    (header ≡ (128 + length bytes) ∷ bytes)
    × (0 < length bytes)
    × (length bytes ≤ usize_bytes)
    × (be_value bytes ≡ size)

-- The definite forms of a DER length, the long form with at most eight bytes.
abbrev pub IsHeader : ℕ → List ℕ → Type 0
IsHeader size header =
    ((size < 128) × (header ≡ size ∷ []))
    ⊎ ((bytes : List ℕ) × (header ≡ (128 + length bytes) ∷ bytes)
        × (0 < length bytes)
        × (length bytes ≤ usize_bytes)
        × (be_value bytes ≡ size))

abbrev pow256 : ℕ → ℕ
pow256 zero = 1
pow256 (suc k) = 256 * pow256 k

pow256_pos : (k : ℕ) → 0 < pow256 k
pow256_pos zero = omega arith
pow256_pos (suc k) = omega (arith, pow256_pos k)

shift_bound :
    (n b p : ℕ)
    → b < 256
    → 0 < p
    → (n + 1) * (256 * p) ≤ usize_mod
    → (n * 256 + b + 1) * p ≤ usize_mod
shift_bound n b p h q k = grind arith

below_of_product : (n p : ℕ) → 0 < p → n * p ≤ usize_mod → n ≤ usize_mod
below_of_product n p h k = grind arith

-- No bits are lost and no addition overflows while the word has room for the bytes that are left.
length_value-be_from :
    (n : ℕ) (bytes : List ℕ)
    → All IsByte bytes
    → (n + 1) * pow256 (length bytes) ≤ usize_mod
    → length_value n bytes ≡ ok (be_from n bytes)
unfolding length_value
length_value-be_from n [] h k = refl
length_value-be_from n (b ∷ bytes) (lt, h) k =
    let q = pow256_pos (length bytes) in
    let next = shift_bound n b (pow256 (length bytes)) lt q k in
    let small = below_of_product (n * 256 + b + 1) (pow256 (length bytes)) q next in
    let same : n * 256 % usize_mod ≡ n * 256 = omega arith in
    rw same (ground (arith, length_value-be_from (n * 256 + b) bytes h next))

pow256_mono : (k m : ℕ) → k ≤ m → pow256 k ≤ pow256 m
pow256_mono zero m h = pow256_pos m
pow256_mono (suc k) zero h = absurd (omega arith)
pow256_mono (suc k) (suc m) h = omega (arith, pow256_mono k m (omega arith))

length_value-be_value :
    (bytes : List ℕ)
    → All IsByte bytes
    → length bytes ≤ usize_bytes
    → length_value 0 bytes ≡ ok (be_value bytes)
length_value-be_value bytes h k =
    length_value-be_from 0 bytes h (omega (arith, pow256_mono (length bytes) 8 k))

read_length_complete :
    (size : ℕ) (header rest : List ℕ)
    → All IsByte header
    → IsHeader size header
    → read_length (header ++ rest) ≡ ok (size, rest)
unfolding read_length
read_length_complete size header rest h (inl (small, e)) = rw e (ground arith)
read_length_complete size header rest h (inr (bytes, e, some_byte, few, value)) =
    let bytes-All = (rw e at h).1 in
    rw e (
      ground (
        arith,
        take-append bytes rest,
        drop-append bytes rest,
        length-append bytes rest,
        length_value-be_value bytes bytes-All few,
      ))

long_form :
    (c size : ℕ) (input rest : List ℕ)
    → All IsByte input
    → (c / 128 % 2 == 0) ≡ false
    → read_length (c ∷ input) ≡ ok (size, rest)
    → (0 < c % 128)
      × (length (take (c % 128) input) ≡ c % 128)
      × (c % 128 ≤ usize_bytes)
      × (be_value (take (c % 128) input) ≡ size)
      × (rest ≡ drop (c % 128) input)
unfolding read_length
long_form c size input rest h long k =
    let n = c % 128 in
    let bytes-All =
      All-append_left IsByte (take n input) (drop n input) (rw (take-append-drop n input) h) in
    ground (arith, length-take n input, length_value-be_value (take n input) bytes-All)

read_length_sound :
    (input rest : List ℕ) (size : ℕ)
    → All IsByte input
    → read_length input ≡ ok (size, rest)
    → (header : List ℕ) × IsHeader size header × (input ≡ header ++ rest)
unfolding read_length
read_length_sound [] rest size h k = cc
read_length_sound (c ∷ input) rest size (lt, h) k = elim (Bool-cases (c / 128 % 2 == 0)) [
  | inl short ↦ (c ∷ [], inl (ground arith, ground arith), ground arith)
  | inr long ↦
      let (positive, len, few, value, left) = long_form c size input rest h long k in
      let form : c ≡ 128 + length (take (c % 128) input) = ground arith in
      (
        c ∷ take (c % 128) input,
        inr (
          take (c % 128) input,
          ap (λ d. d ∷ take (c % 128) input) form,
          omega arith,
          omega arith,
          value,
        ),
        ap (◌∷◌ c)
            (sym (take-append-drop (c % 128) input) ∙ ap (◌++◌ (take (c % 128) input)) (sym left)),
      )
]

pub read_der_tlv_sound :
    (input value rest : List ℕ) (tag : ℕ)
    → All IsByte input
    → read_der_tlv input ≡ ok (tag, value, rest)
    → (header : List ℕ) × IsHeader (length value) header
      × (input ≡ tag ∷ (header ++ (value ++ rest)))
unfolding read_der_tlv
read_der_tlv_sound [] value rest tag h k = cc
read_der_tlv_sound (c ∷ input) value rest tag (lt, h) k =
    let ((size, behind), e, k') = >>=-eq-ok (read_length input) _ k in
    let (header, good, whole) = read_length_sound input behind size h e in
    let fits : size ≤ length behind = ground arith in
    let as_value : value ≡ take size behind = ground arith in
    let as_rest : rest ≡ drop size behind = ground arith in
    let len : size ≡ length value = ground (arith, length-take size behind) in
    let back : value ++ rest ≡ behind = rw (as_value, as_rest) (take-append-drop size behind) in
    let same : c ≡ tag = ground arith in (header, rw (← len) good, rw (same, whole, back))

pub read_der_tlv_complete :
    (header value rest : List ℕ) (tag : ℕ)
    → All IsByte header
    → IsHeader (length value) header
    → read_der_tlv (tag ∷ (header ++ (value ++ rest))) ≡ ok (tag, value, rest)
unfolding read_der_tlv
read_der_tlv_complete header value rest tag h good =
    rw (read_length_complete (length value) header (value ++ rest) h good)
      (ground (arith, length-append value rest, take-append value rest, drop-append value rest))

-- On bytes, `read_der_tlv` returns a tag, a value and a rest exactly when the input is the tag, a
-- definite length of the value (below 128 in one byte, or in one to eight big-endian bytes behind
-- their number), the value and the rest.
pub read_der_tlv_iff :
    (input value rest : List ℕ) (tag : ℕ)
    → All IsByte input
    → (read_der_tlv input ≡ ok (tag, value, rest)) ↔ (
        (header : List ℕ) × IsHeader (length value) header
        × (input ≡ tag ∷ (header ++ (value ++ rest))))
read_der_tlv_iff input value rest tag h = (
  read_der_tlv_sound input value rest tag h,
  λ (header, good, e).
      let bytes = (rw e at h).1 in
      ap read_der_tlv e
      ∙ read_der_tlv_complete header value rest tag
          (All-append_left IsByte header (value ++ rest) bytes) good,
)
