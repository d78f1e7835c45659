-- ===== src/Registry/Client/Limits.antt =====
-- src/registry.rs: the limits of a list of versions.
use open_tf_mirror.Base.{
  ℕ, ◌≤◌, ◌≡◌, Bool, false, not, ltb, List, [], ◌∷◌, ◌++◌, any, length, All, Str, codes, ok, guard,
  ok_or, >>=-eq-ok, guard-eq-ok, arith,
}
use open_tf_mirror.Outbound.Client.{UrlLib, Response}
use open_tf_mirror.Registry.Types.{RegistryVersion}
use open_tf_mirror.Registry.Decode.{decode_json}
use open_tf_mirror.Registry.Decode.Body.{IsAnswer, decode_json_iff}
use open_tf_mirror.Registry.Client.{
  OriginLib, Cache, RegistryClient, Call, Json, max_index_json_bytes, max_provider_versions,
  max_platforms_per_version, origin, request_answer, fetch_versions, versions,
}

any-false :
    (limit : ℕ) (items : List RegistryVersion)
    → any (λ version. ltb limit (length version.platforms)) items ≡ false
    → All (λ version. length version.platforms ≤ limit) items
any-false limit [] h = tt
any-false limit (item ∷ items) h = (ground arith, any-false limit items (ground arith))

-- At most 4096 versions with at most 128 platforms each.
abbrev pub IsLimited : List RegistryVersion → Type 0
IsLimited items =
    (length items ≤ max_provider_versions)
    × All (λ version. length version.platforms ≤ max_platforms_per_version) items

module _ (urls : UrlLib) (lib : OriginLib urls) (is_error_status : ℕ → Bool) (json : Json)
    (c : RegistryClient urls) (call : Call urls) where
  fetch_versions-IsLimited :
      (namespace provider_type : Str) (base : urls.Url) (items : List RegistryVersion)
      → fetch_versions urls lib is_error_status json c call namespace provider_type base ≡ ok items
      → IsLimited items
        × ((response : Response) × IsAnswer json.versions max_index_json_bytes response items)
  unfolding fetch_versions
  fetch_versions-IsLimited namespace provider_type base items h =
      let (url, _, h₁) =
        >>=-eq-ok
          (ok_or (urls.join base (namespace ++ b'/' ∷ provider_type ++ codes "/versions")) _) _ h in
      let (response, _, h₂) =
        >>=-eq-ok (request_answer urls lib is_error_status json c call url) _ h₁ in
      let (found, d, h₃) =
        >>=-eq-ok (decode_json json.versions max_index_json_bytes response) _ h₂ in
      let (_, g₁, h₄) = >>=-eq-ok (guard (not (ltb max_provider_versions (length found))) _) _ h₃ in
      let wide = any (λ version. ltb max_platforms_per_version (length version.platforms)) found in
      let (_, g₂, h₅) = >>=-eq-ok (guard (not wide) _) _ h₄ in
      let narrow : wide ≡ false = ground (arith, guard-eq-ok (not wide) _ g₂) in
      let same : found ≡ items = ground arith in
      rw (← same) (
        (
          ground (arith, guard-eq-ok (not (ltb max_provider_versions (length found))) _ g₁),
          any-false max_platforms_per_version found narrow,
        ),
        (
          response,
          (decode_json_iff json.versions max_index_json_bytes response found (omega arith)).0 d,
        ),
      )

  -- A list of versions that the registry gives has at most 4096 versions with at most 128 platforms
  -- each, and is what the parser makes of the whole body of one response, of at most 2 MiB; whatever
  -- the registry sends.
  pub versions-IsLimited :
      (hostname namespace provider_type : Str) (cache : Cache urls) (items : List RegistryVersion)
      → (versions urls lib is_error_status json c call hostname namespace provider_type cache).1
        ≡ ok items
      → IsLimited items
        × ((response : Response) × IsAnswer json.versions max_index_json_bytes response items)
  unfolding versions
  versions-IsLimited hostname namespace provider_type cache items h =
      let found = origin urls lib is_error_status json c call hostname cache in
      let (base, _, h') = >>=-eq-ok found.2 _ h in
      fetch_versions-IsLimited namespace provider_type base items h'
