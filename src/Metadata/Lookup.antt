-- ===== src/Metadata/Lookup.antt =====
-- src/metadata.rs: `get_version`, `get_platform_by_archive` and `insert_version`, over `load_version`.
pub mod Archive
use open_tf_mirror.Base.{
  ℕ, ◌≡◌, refl, Bool, true, false, ◌⊎◌, inl, inr, List, [], ◌∷◌, ◌++◌, map, any, Option, some, none,
  Str, str_beq, str_beq_iff, Option-cases, Bool-cases, Result, ok, err, Result-cases, ◌>>=◌, ◌>>◌,
  >>=-eq-ok, map_err, if◌then◌else◌, All, arith,
}
use open_tf_mirror.Base.Map.{Map, get, insert}
use open_tf_mirror.Provider
use open_tf_mirror.Provider.{ArchiveName}
use open_tf_mirror.Outbound.Client.{UrlLib}
use open_tf_mirror.Registry.Types.{RegistryPlatform, RegistryVersion}
use open_tf_mirror.Metadata.Types.{
  PlatformMetadata, VersionMetadata, MetadataError, ProviderKey, VersionKey, CacheEntry,
  provider_eq, not_found, invalid_address,
}
use open_tf_mirror.Metadata.Types
use open_tf_mirror.Metadata.Validate.{normalize_version, validate_version, provider_key}
use open_tf_mirror.Metadata.Index.{IndexEntry}
use open_tf_mirror.Metadata.Versions.{
  VersionEntry, VersionEnv, Versions, load_version, store_version,
}

-- A version that is not found is no error.
abbrev pub or_none :
    {A : Type 0} → Versions × Result MetadataError A → Versions × Result MetadataError (Option A)
or_none (s, ok a) = (s, ok (some a))
or_none (s, err Types.not_found) = (s, ok none)
or_none (s, err error) = (s, err error)

-- `find` by the file name.
unfoldable pub find_archive : Str → List PlatformMetadata → Option PlatformMetadata
find_archive filename [] = none
find_archive filename (item ∷ items) =
    let rest = find_archive filename items in
    if str_beq item.filename filename then some item else rest

abbrev pub value_of : Option VersionEntry → Option VersionMetadata
value_of none = none
value_of (some entry) = some entry.value

abbrev pub platform_of : Str → Option VersionEntry → Option PlatformMetadata
platform_of filename none = none
platform_of filename (some entry) = find_archive filename entry.value.platforms

module _ (is_semver : Str → Bool) (urls : UrlLib) (env : VersionEnv)
    (allowed_registries : List Str) where
  -- The key of the entry, once the address is valid.
  unfoldable pub version_key : Str → Str → Str → Str → Result MetadataError VersionKey
  version_key hostname namespace provider_type version = do
    validate_version version
    provider ← provider_key allowed_registries hostname namespace provider_type
    ok (record { provider = provider; version = normalize_version version })

  unfoldable pub get_version_entry :
      Str → Str → Str → Str → Versions → Versions × Result MetadataError (Option VersionEntry)
  get_version_entry hostname namespace provider_type version s =
      elim (version_key hostname namespace provider_type version) [
        | err error ↦ (s, err error)
        | ok key ↦ or_none (load_version is_semver urls env key s)
      ]

  unfoldable pub get_version :
      Str → Str → Str → Str → Versions → Versions × Result MetadataError (Option VersionMetadata)
  get_version hostname namespace provider_type version s =
      let (s', result) = get_version_entry hostname namespace provider_type version s in
      (s', elim result [ err error ↦ err error | ok entry ↦ ok (value_of entry) ])

  unfoldable pub get_platform_by_archive :
      Str → Str → Str → Str → Versions → Versions × Result MetadataError (Option PlatformMetadata)
  get_platform_by_archive hostname namespace provider_type filename s =
      elim (Provider.parse is_semver provider_type filename) [
        | err _ ↦ (s, err invalid_address)
        | ok archive ↦
            let (s', result) =
              get_version_entry hostname namespace provider_type archive.version s in
            (s', elim result [ err error ↦ err error | ok entry ↦ ok (platform_of filename entry) ])
      ]

-- `RegistryPlatform` of a platform of the version.
abbrev pub summary_of : PlatformMetadata → RegistryPlatform
summary_of platform = record { os = platform.os; arch = platform.arch }

abbrev pub empty_index : ℕ → Option IndexEntry → IndexEntry
empty_index now none = record { fetched_at = now; complete = true; value = [] }
empty_index now (some entry) = entry

abbrev pub add_version : VersionMetadata → List RegistryVersion → List RegistryVersion
add_version version items =
    if any (λ item. str_beq item.version version.version) items
    then items
    else (items
        ++ (record { version = version.version; platforms = map summary_of version.platforms }
            ∷ []))

-- Both maps, under the key that the version itself names; a version that is listed stays as listed.
unfoldable pub insert_version : (now : ℕ) → VersionMetadata → Versions → Versions
insert_version now version s =
    let provider : ProviderKey = record {
      hostname = version.hostname;
      namespace = version.namespace;
      provider_type = version.provider_type;
    } in
    let stored =
      store_version (record { provider = provider; version = version.version })
        (record { fetched_at = now; complete = true; value = version }) s in
    let entry = empty_index now (get provider s.service.indices) in
    let listed = record entry { value = add_version version entry.value } in
    record stored {
      service = record s.service { indices = insert provider listed s.service.indices };
    }
