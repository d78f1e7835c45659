-- ===== src/Metadata/Packages.antt =====
-- src/metadata.rs: the platforms of a version in `refresh_version`. Up to eight packages are asked
-- for at a time and sorted back to the order of the index, so they are a list in that order here.
pub mod Merge
use open_tf_mirror.Base.{
  ℕ, ◌≡◌, ◌↔◌, Bool, true, false, ◌&&◌, List, [], ◌∷◌, map, any, Option, some, none, Str, Eq,
  str_beq, str_beq_iff, Result, ok, err, ◌>>=◌, ◌>>◌, map_err, if◌then◌else◌, arith,
}
use open_tf_mirror.Base.Map.{Map, get, insert, remove}
use open_tf_mirror.Outbound.Client.{UrlLib}
use open_tf_mirror.Registry.Types.{RegistryError, RegistryPlatform}
use open_tf_mirror.Metadata.Types.{
  PlatformMetadata, VersionMetadata, MetadataError, VersionKey, CacheEntry,
}
use open_tf_mirror.Metadata.Validate.{validate_package}
use open_tf_mirror.Metadata.Index.{map_registry}

-- The keys of the map `refreshed`: the operating system and the architecture.
abbrev pub PlatformKey : Type 0
PlatformKey = Str × Str

abbrev pub platform_beq : PlatformKey → PlatformKey → Bool
platform_beq a b = str_beq a.0 b.0 && str_beq a.1 b.1

pub platform_beq_iff : (a b : PlatformKey) → (platform_beq a b ≡ true) ↔ (a ≡ b)
platform_beq_iff a b = ground (arith, str_beq_iff a.0 b.0, str_beq_iff a.1 b.1)

instance abbrev pub platform_eq : Eq PlatformKey
platform_eq = record { beq = platform_beq; beq_iff = platform_beq_iff }

abbrev pub key_of : PlatformMetadata → PlatformKey
key_of fetched = (fetched.os, fetched.arch)

abbrev pub summary_key : RegistryPlatform → PlatformKey
summary_key platform = (platform.os, platform.arch)

abbrev pub Packages : Type 0
Packages = VersionKey → RegistryPlatform → Result RegistryError PlatformMetadata

-- What a call of the registry gives for one platform, checked.
unfoldable pub fetch_package :
    (Str → Bool)
    → UrlLib
    → Packages
    → VersionKey
    → RegistryPlatform
    → Result MetadataError PlatformMetadata
fetch_package is_semver urls packages key platform = do
  fetched ← map_err map_registry (packages key platform)
  validate_package is_semver urls key platform fetched
  ok fetched

abbrev pub Refreshed : Type 0
Refreshed = Map PlatformKey PlatformMetadata × Option MetadataError

abbrev pub keep_first : Option MetadataError → MetadataError → Option MetadataError
keep_first none error = some error
keep_first (some first) error = some first

-- One round of the loop over the results.
unfoldable pub keep_result : Refreshed → Result MetadataError PlatformMetadata → Refreshed
keep_result (refreshed, first_error) (ok fetched) =
    (insert (key_of fetched) fetched refreshed, first_error)
keep_result (refreshed, first_error) (err error) = (refreshed, keep_first first_error error)

unfoldable pub keep_results : List (Result MetadataError PlatformMetadata) → Refreshed → Refreshed
keep_results [] refreshed = refreshed
keep_results (result ∷ results) refreshed = keep_results results (keep_result refreshed result)

-- The first cached platform of this key that the index lists as well.
unfoldable pub find_cached :
    (valid_platforms : List RegistryPlatform) (platform : RegistryPlatform)
    → List PlatformMetadata
    → Option PlatformMetadata
find_cached valid_platforms platform [] = none
find_cached valid_platforms platform (item ∷ items) =
    let rest = find_cached valid_platforms platform items in
    if str_beq item.os platform.os
      && str_beq item.arch platform.arch
      && any (λ valid. platform_beq (summary_key valid) (key_of item)) valid_platforms
    then some item
    else rest

-- The platforms of the new entry, in the order of the index: fetched now, or else as cached.
unfoldable pub merge_platforms :
    (valid_platforms : List RegistryPlatform) (cached : List PlatformMetadata)
    → List RegistryPlatform
    → Map PlatformKey PlatformMetadata
    → List PlatformMetadata
merge_platforms valid_platforms cached [] refreshed = []
merge_platforms valid_platforms cached (platform ∷ platforms) refreshed =
    elim (get (summary_key platform) refreshed) [
      | some fetched ↦
          fetched
          ∷ merge_platforms valid_platforms cached platforms
              (remove (summary_key platform) refreshed)
      | none ↦
          let rest = merge_platforms valid_platforms cached platforms refreshed in
          elim (find_cached valid_platforms platform cached) [
            | some item ↦ item ∷ rest
            | none ↦ rest
          ]
    ]
