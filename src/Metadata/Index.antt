-- ===== src/Metadata/Index.antt =====
-- src/metadata.rs: the provider indices of `ProviderMetadataService`, `load_index` and
-- `refresh_index_unlocked`, `sync_known` and `list_versions`. An operation holds the lock of its key,
-- and the model lets no other operation in between; its environment is the clock, the registry, and
-- the disk, whose answers are parameters. `requests` counts the calls of the registry.
pub mod Validity
pub mod Refresh
pub mod Backoff
use open_tf_mirror.Base.{
  ℕ, zero, suc, ◌+◌, Bool, true, false, ◌==◌, if◌then◌else◌, List, [], ◌∷◌, map, Option, some, none,
  Str, Result, ok, err, ok_or, is_ok,
}
use open_tf_mirror.Base.Map.{Map, get, insert, remove, contains_key}
use open_tf_mirror.Registry.Types.{RegistryError, RegistryVersion}
use open_tf_mirror.Registry.Types
use open_tf_mirror.Metadata.Types.{
  MetadataError, ProviderKey, provider_eq, CacheEntry, fresh, not_found, invalid_address,
  registry_not_allowed, registry, sync_in_progress, sync_failed, refresh_backoff,
}
use open_tf_mirror.Metadata.Validate.{validate_registry_versions}
use open_tf_mirror.Metadata.Backoff.{refresh_allowed, record_refresh_failure}

abbrev pub IndexEntry : Type 0
IndexEntry = CacheEntry (List RegistryVersion)

-- `now` in nanoseconds, `now_epoch` in seconds. `read_json` and `write_json` are what the disk
-- answers for the index file of a key.
pub record Env : Type 0 where
  pub now : ℕ
  pub now_epoch : ℕ
  pub versions : ProviderKey → Result RegistryError (List RegistryVersion)
  pub read_json : ProviderKey → Result MetadataError (Option IndexEntry)
  pub write_json : ProviderKey → IndexEntry → Result MetadataError (Unit {0})

-- The freshness and the backoff in seconds, and the backoff as a duration in nanoseconds.
pub record Service : Type 0 where
  pub freshness : ℕ
  pub partial_retry : ℕ
  pub backoff : ℕ
  pub indices : Map ProviderKey IndexEntry
  pub index_failures : Map ProviderKey ℕ
  pub syncing : Bool
  pub requests : ℕ

unfoldable pub map_registry : RegistryError → MetadataError
map_registry Types.not_found = not_found
map_registry error = registry error

unfoldable pub should_backoff : MetadataError → Bool
should_backoff not_found = false
should_backoff invalid_address = false
should_backoff registry_not_allowed = false
should_backoff _ = true

abbrev pub index_refresh_allowed : Env → Service → ProviderKey → Bool
index_refresh_allowed env s key = refresh_allowed s.index_failures key s.backoff env.now

unfoldable pub record_index_failure : Env → ProviderKey → Service → Service
record_index_failure env key s = record s {
  index_failures = record_refresh_failure s.index_failures key s.backoff env.now;
}

unfoldable pub clear_index_failure : ProviderKey → Service → Service
clear_index_failure key s = record s { index_failures = remove key s.index_failures }

abbrev store_index : ProviderKey → IndexEntry → Service → Service
store_index key entry s = record s { indices = insert key entry s.indices }

-- The cached entry, if it is fresh.
unfoldable pub fresh_index : Env → Service → ProviderKey → Option IndexEntry
fresh_index env s key = elim (get key s.indices) [
  | none ↦ none
  | some entry ↦ if fresh entry s.freshness s.partial_retry env.now_epoch then some entry else none
]

abbrev Answer : Type 0
Answer = Service × Result MetadataError IndexEntry

-- Behind the request: validate, write the file, and only then replace the entry.
store_versions : Env → ProviderKey → Service → List RegistryVersion → Answer
store_versions env key s versions = elim (validate_registry_versions versions) [
  | err error ↦ (s, err error)
  | ok _ ↦
      let entry : IndexEntry = record {
        fetched_at = env.now_epoch;
        complete = true;
        value = versions;
      } in
      elim (env.write_json key entry) [
        | err error ↦ (s, err error)
        | ok _ ↦ (store_index key entry s, ok entry)
      ]
]

unfoldable pub refresh_index_unlocked : Env → ProviderKey → Service → Answer
unfolding store_versions
refresh_index_unlocked env key s =
    let asked = record s { requests = s.requests + 1 } in
    elim (env.versions key) [
      | err error ↦ (asked, err (map_registry error))
      | ok versions ↦ store_versions env key asked versions
    ]

abbrev pub note_failure : Env → ProviderKey → MetadataError → Service → Service
note_failure env key error s = if should_backoff error then record_index_failure env key s else s

-- The match on the refresh, with the entry that was cached before it.
settle : Env → ProviderKey → Option IndexEntry → Answer → Answer
settle env key cached (s, ok entry) = (clear_index_failure key s, ok entry)
settle env key (some cached) (s, err error) = (note_failure env key error s, ok cached)
settle env key none (s, err error) =
    (note_failure env key error s, ok_or (get key (note_failure env key error s).indices) error)

-- From the third test of freshness on.
refresh_or_stale : Env → ProviderKey → Service → Answer
refresh_or_stale env key s = elim (fresh_index env s key) [
  | some entry ↦ (s, ok entry)
  | none ↦
      if index_refresh_allowed env s key
      then settle env key (get key s.indices) (refresh_index_unlocked env key s)
      else (s, ok_or (get key s.indices) refresh_backoff)
]

-- The persisted index, read where memory has none and kept if it is valid.
load_persisted : Env → ProviderKey → Service → Result MetadataError Service
load_persisted env key s = if contains_key key s.indices then ok s else (elim (env.read_json key) [
  | err error ↦ err error
  | ok none ↦ ok s
  | ok (some entry) ↦
      ok (if is_ok (validate_registry_versions entry.value) then store_index key entry s else s)
])

-- Under the lock, which nobody else took in between: the second test of freshness comes first.
unfoldable pub load_index : Env → ProviderKey → Service → Answer
unfolding load_persisted refresh_or_stale settle
load_index env key s = elim (fresh_index env s key) [
  | some entry ↦ (s, ok entry)
  | none ↦ elim (load_persisted env key s) [
    | err error ↦ (s, err error)
    | ok s' ↦ refresh_or_stale env key s'
  ]
]

sync_one : Env → ProviderKey → Service → Service × ℕ
sync_one env key s =
    let (s', result) = refresh_index_unlocked env key s in
    elim result [
      | ok _ ↦ (clear_index_failure key s', 0)
      | err error ↦ (note_failure env key error s', 1)
    ]

-- The loop of `sync_known`, with the number of failures.
unfoldable pub sync_keys : Env → List ProviderKey → Service → Service × ℕ
unfolding sync_one
sync_keys env [] s = (s, 0)
sync_keys env (key ∷ keys) s =
    let (s', failed) = sync_one env key s in
    let (s'', failures) = sync_keys env keys s' in (s'', failed + failures)

-- `sync_known`: the flag is taken for the run, and given back by `Reset` however it ends.
unfoldable pub sync_known : Env → Service → Service × Result MetadataError (Unit {0})
sync_known env s =
    if s.syncing
    then (s, err sync_in_progress)
    else (let (s', failures) =
          sync_keys env (map (λ entry. entry.0) s.indices) (record s { syncing = true }) in
        (
          record s' { syncing = false },
          if failures == 0 then ok tt else err (sync_failed failures),
        ))
