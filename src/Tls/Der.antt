-- ===== src/Tls/Der.antt =====
-- src/tls_reload.rs: `read_der_tlv` and `read_der_value`. A reader returns what is left of its input
-- beside its result. `byte & 0x80` is `byte / 128 % 2`, and `byte & 0x7f` is `byte % 128`.
pub mod Laws
use open_tf_mirror.Base.{
  ℕ, ◌+◌, ◌*◌, ◌/◌, ◌%◌, ◌^◌, Bool, ◌||◌, List, [], ◌∷◌, Result, ok, err, ◌>>=◌, ◌>>◌, guard, leb,
  ltb, ◌==◌, not, length, take, drop, if◌then◌else◌,
}
use open_tf_mirror.Tls.Errors.{
  TlsError, missing_tag, missing_length, indefinite_length, invalid_length, length_overflow,
  truncated, unexpected_tag,
}

abbrev pub usize_bytes : ℕ
usize_bytes = 8

abbrev pub usize_mod : ℕ
usize_mod = 18446744073709551616

-- The loop over the length bytes. `checked_shl(8)` drops the bits that leave the word.
unfoldable pub length_value : ℕ → List ℕ → Result TlsError ℕ
length_value value [] = ok value
length_value value (byte ∷ bytes) =
    let shifted = value * 256 % usize_mod in
    let rest = length_value (shifted + byte) bytes in
    guard (ltb (shifted + byte) usize_mod) length_overflow >> rest

-- The length, and the input behind it.
unfoldable pub read_length : List ℕ → Result TlsError (ℕ × List ℕ)
read_length [] = err missing_length
read_length (first_length ∷ input) =
    if first_length / 128 % 2 == 0 then ok (first_length, input) else (do
      let length_bytes = first_length % 128
      guard (not (length_bytes == 0)) indefinite_length
      guard (not (ltb usize_bytes length_bytes || ltb (length input) length_bytes)) invalid_length
      value ← length_value 0 (take length_bytes input)
      ok (value, drop length_bytes input))

-- The tag, the value and the input behind them.
unfoldable pub read_der_tlv : List ℕ → Result TlsError (ℕ × List ℕ × List ℕ)
read_der_tlv [] = err missing_tag
read_der_tlv (tag ∷ input) = do
  (size, rest) ← read_length input
  guard (not (ltb (length rest) size)) truncated
  ok (tag, take size rest, drop size rest)

unfoldable pub read_der_value : ℕ → List ℕ → Result TlsError (List ℕ × List ℕ)
read_der_value expected_tag input = do
  (tag, value, rest) ← read_der_tlv input
  guard (tag == expected_tag) unexpected_tag
  ok (value, rest)
