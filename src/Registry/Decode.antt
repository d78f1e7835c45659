-- ===== src/Registry/Decode.antt =====
-- src/registry.rs: `decode_json`, over the parser of the JSON text. A `usize` has 64 bits.
pub mod Body
use open_tf_mirror.Base.{
  ℕ, ◌≡◌, Bool, true, false, not, ltb, List, [], ◌∷◌, ◌++◌, length, Option, some, none, Str, Result,
  ok, err, ◌>>=◌, ◌>>◌, guard, ok_or, if◌then◌else◌, saturating_add,
}
use open_tf_mirror.Outbound.Client.{Response, is_longer}
use open_tf_mirror.Registry.Types.{RegistryError, request, invalid_response, response_too_large}

unfoldable pub read_body : ℕ → Str → List (Option Str) → Result RegistryError Str
read_body maximum body [] = ok body
read_body maximum body (none ∷ chunks) = err request
read_body maximum body (some chunk ∷ chunks) =
    let rest = read_body maximum (body ++ chunk) chunks in
    if ltb maximum (saturating_add (length body) (length chunk))
    then err (response_too_large maximum)
    else rest

unfoldable pub decode_json {ℓ} :
    {T : Type ℓ} → (Str → Option T) → ℕ → Response → Result RegistryError T
decode_json parse maximum response = do
  guard (not (is_longer response.content_length maximum)) (response_too_large maximum)
  body ← read_body maximum [] response.chunks
  ok_or (parse body) invalid_response
