-- ===== src/Metadata/Versions.antt =====
-- src/metadata.rs: the versions of `ProviderMetadataService`, `load_version`, `refresh_version`,
-- `get_version`, `get_platform_by_archive` and `insert_version`. The locks of a version and of its
-- provider are held through the operation, as in Index.
pub mod Served
use open_tf_mirror.Base.{
  ℕ, ◌≡◌, ◌↔◌, Bool, true, false, not, ◌&&◌, List, [], ◌∷◌, map, any, is_empty, Option, some, none,
  Str, Eq, str_beq, str_beq_iff, Result, ok, err, ◌>>=◌, ◌>>◌, map_err, ok_or, is_ok, if◌then◌else◌,
  arith, ◌++◌,
}
use open_tf_mirror.Base.Map.{Map, get, insert, remove, contains_key}
use open_tf_mirror.Provider
use open_tf_mirror.Outbound.Client.{UrlLib}
use open_tf_mirror.Registry.Types.{RegistryPlatform, RegistryVersion}
use open_tf_mirror.Metadata.Types.{
  PlatformMetadata, VersionMetadata, MetadataError, ProviderKey, VersionKey, provider_beq,
  provider_beq_iff, provider_eq, CacheEntry, fresh, not_found, invalid_address, refresh_backoff,
}
use open_tf_mirror.Metadata.Validate.{
  normalize_version, validate_version, validate_version_metadata, provider_key,
}
use open_tf_mirror.Metadata.Backoff.{refresh_allowed, record_refresh_failure}
use open_tf_mirror.Metadata.Index.{
  IndexEntry, Env, Service, should_backoff, index_refresh_allowed, clear_index_failure,
  note_failure, refresh_index_unlocked, load_index,
}
use open_tf_mirror.Metadata.Packages.{
  Packages, Refreshed, fetch_package, keep_results, merge_platforms,
}

abbrev pub VersionEntry : Type 0
VersionEntry = CacheEntry VersionMetadata

abbrev pub version_beq : VersionKey → VersionKey → Bool
version_beq a b = provider_beq a.provider b.provider && str_beq a.version b.version

pub version_beq_iff : (a b : VersionKey) → (version_beq a b ≡ true) ↔ (a ≡ b)
version_beq_iff a b =
    ground (arith, provider_beq_iff a.provider b.provider, str_beq_iff a.version b.version)

instance abbrev pub version_eq : Eq VersionKey
version_eq = record { beq = version_beq; beq_iff = version_beq_iff }

-- What an operation on a version meets: the environment of the first index load, that of the second
-- refresh of the index and of what follows it, the packages of the registry, and the version files.
pub record VersionEnv : Type 0 where
  pub first : Env
  pub again : Env
  pub packages : Packages
  pub read_version : VersionKey → Result MetadataError (Option VersionEntry)
  pub write_version : VersionKey → VersionEntry → Result MetadataError (Unit {0})

-- The fields of the service that concern versions, beside those of its indices.
pub record Versions : Type 0 where
  pub service : Service
  pub versions : Map VersionKey VersionEntry
  pub version_failures : Map VersionKey ℕ
  pub index_miss_refreshes : Map ProviderKey ℕ

abbrev pub version_refresh_allowed : Env → Versions → VersionKey → Bool
version_refresh_allowed env s key = refresh_allowed s.version_failures key s.service.backoff env.now

abbrev pub missing_version_refresh_allowed : Env → Versions → ProviderKey → Bool
missing_version_refresh_allowed env s key =
    refresh_allowed s.index_miss_refreshes key s.service.backoff env.now

unfoldable pub record_version_failure : Env → VersionKey → Versions → Versions
record_version_failure env key s = record s {
  version_failures = record_refresh_failure s.version_failures key s.service.backoff env.now;
}

unfoldable pub record_missing_version_refresh : Env → ProviderKey → Versions → Versions
record_missing_version_refresh env key s = record s {
  index_miss_refreshes =
      record_refresh_failure s.index_miss_refreshes key s.service.backoff env.now;
}

unfoldable pub clear_version_failure : VersionKey → Versions → Versions
clear_version_failure key s = record s { version_failures = remove key s.version_failures }

abbrev pub store_version : VersionKey → VersionEntry → Versions → Versions
store_version key entry s = record s { versions = insert key entry s.versions }

abbrev pub is_version : VersionKey → RegistryVersion → Bool
is_version key item = str_beq (normalize_version item.version) key.version

unfoldable pub find_version : VersionKey → List RegistryVersion → Option RegistryVersion
find_version key [] = none
find_version key (item ∷ items) =
    let rest = find_version key items in if is_version key item then some item else rest

unfoldable pub fresh_version : Env → Versions → VersionKey → Option VersionEntry
fresh_version env s key = elim (get key s.versions) [
  | none ↦ none
  | some entry ↦
      if fresh entry s.service.freshness s.service.partial_retry env.now_epoch
      then some entry
      else none
]

abbrev or_else : {A : Type 0} → Option A → A → A
or_else (some a) b = a
or_else none b = b

-- The index lacks the version, and a look for it is not held back.
abbrev pub is_missing : Env → Versions → VersionKey → IndexEntry → Bool
is_missing env s key index =
    not (any (is_version key) index.value)
    && missing_version_refresh_allowed env s key.provider
    && index_refresh_allowed env s.service key.provider

abbrev pub Indexed : Type 0
Indexed = Versions × Result MetadataError IndexEntry

-- The second refresh of the index, for a version that it lacks.
unfoldable pub refresh_missing : Env → VersionKey → Versions → Indexed
refresh_missing env key s =
    let recorded = record_missing_version_refresh env key.provider s in
    let (service, result) = refresh_index_unlocked env key.provider recorded.service in
    elim result [
      | ok index ↦
          (record recorded { service = clear_index_failure key.provider service }, ok index)
      | err error ↦
          (record recorded { service = note_failure env key.provider error service }, err error)
    ]

-- The index that memory has under the lock, tested again.
unfoldable pub look_again : Env → VersionKey → Versions → IndexEntry → Indexed
look_again env key s index =
    if is_missing env s key index
    then (let current = or_else (get key.provider s.service.indices) index in
        if is_missing env s key current then refresh_missing env key s else (s, ok current))
    else (s, ok index)

unfoldable pub load_summary : VersionEnv → VersionKey → Versions → Indexed
load_summary env key s =
    let (service, result) = load_index env.first key.provider s.service in
    let loaded = record s { service = service } in
    elim result [
      | err error ↦ (loaded, err error)
      | ok index ↦ look_again env.again key loaded index
    ]

abbrev pub cached_platforms : Option VersionEntry → List PlatformMetadata
cached_platforms none = []
cached_platforms (some entry) = entry.value.platforms

abbrev pub Loaded : Type 0
Loaded = Versions × Result MetadataError VersionEntry

abbrev is_complete : Option MetadataError → Bool
is_complete none = true
is_complete (some _) = false

abbrev pub version_entry :
    VersionEnv → VersionKey → Option MetadataError → List PlatformMetadata → VersionEntry
version_entry env key first_error platforms = record {
  fetched_at = env.again.now_epoch;
  complete = is_complete first_error;
  value = record {
    hostname = key.provider.hostname;
    namespace = key.provider.namespace;
    provider_type = key.provider.provider_type;
    version = key.version;
    platforms = platforms;
  };
}

-- Write the file, and then replace the entry.
unfoldable pub store_platforms :
    VersionEnv → VersionKey → Versions → Option MetadataError → List PlatformMetadata → Loaded
store_platforms env key s first_error platforms =
    let entry = version_entry env key first_error platforms in
    elim (env.write_version key entry) [
      | err error ↦ (s, err error)
      | ok _ ↦ (store_version key entry s, ok entry)
    ]

-- Nothing fetched and nothing kept is an error, if there was one.
unfoldable pub settle_platforms :
    VersionEnv → VersionKey → Versions → Option MetadataError → List PlatformMetadata → Loaded
settle_platforms env key s (some error) [] = (s, err error)
settle_platforms env key s first_error platforms = store_platforms env key s first_error platforms

module _ (is_semver : Str → Bool) (urls : UrlLib) (env : VersionEnv) where
  unfoldable pub fetch_platforms : VersionKey → RegistryVersion → Refreshed
  fetch_platforms key summary =
      keep_results (map (fetch_package is_semver urls env.packages key) summary.platforms)
        ([], none)

  unfoldable pub refresh_platforms : VersionKey → Versions → RegistryVersion → Loaded
  refresh_platforms key s summary =
      let (refreshed, first_error) = fetch_platforms key summary in
      settle_platforms env key s first_error (
        merge_platforms summary.platforms (cached_platforms (get key s.versions)) summary.platforms
          refreshed)

  unfoldable pub refresh_version : VersionKey → Versions → Loaded
  refresh_version key s =
      let (s', result) = load_summary env key s in
      elim result [
        | err error ↦ (s', err error)
        | ok index ↦ elim (find_version key index.value) [
          | none ↦ (s', err not_found)
          | some summary ↦ refresh_platforms key s' summary
        ]
      ]

  -- The match on the refresh, with the entry that was cached before it.
  unfoldable pub settle_version : VersionKey → Option VersionEntry → Loaded → Loaded
  settle_version key cached (s, ok entry) = (clear_version_failure key s, ok entry)
  settle_version key cached (s, err error) =
      let noted = if should_backoff error then record_version_failure env.again key s else s in
      elim cached [
        | some entry ↦ (noted, ok entry)
        | none ↦ (noted, ok_or (get key noted.versions) error)
      ]

  -- The persisted entry, read where memory has none and kept if it is valid.
  unfoldable pub load_persisted_version : VersionKey → Versions → Result MetadataError Versions
  load_persisted_version key s =
      if contains_key key s.versions then ok s else (elim (env.read_version key) [
        | err error ↦ err error
        | ok none ↦ ok s
        | ok (some entry) ↦ ok (
            if is_ok (validate_version_metadata is_semver urls key entry.value)
            then store_version key entry s
            else s)
      ])

  -- From the third test of freshness on.
  unfoldable pub version_or_stale : VersionKey → Versions → Loaded
  version_or_stale key s = elim (fresh_version env.first s key) [
    | some entry ↦ (s, ok entry)
    | none ↦
        if version_refresh_allowed env.first s key
        then settle_version key (get key s.versions) (refresh_version key s)
        else (s, ok_or (get key s.versions) refresh_backoff)
  ]

  unfoldable pub load_version : VersionKey → Versions → Loaded
  load_version key s = elim (fresh_version env.first s key) [
    | some entry ↦ (s, ok entry)
    | none ↦ elim (load_persisted_version key s) [
      | err error ↦ (s, err error)
      | ok s' ↦ version_or_stale key s'
    ]
  ]
