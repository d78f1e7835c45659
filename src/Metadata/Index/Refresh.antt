-- ===== src/Metadata/Index/Refresh.antt =====
-- src/metadata.rs: when `load_index` asks the registry, and what it serves when that fails.
use open_tf_mirror.Base.{
  ◌+◌, ◌≤◌, ◌≡◌, ◌⊎◌, inl, inr, refl, true, false, not, ◌||◌, List, some, ok, err, Result-cases,
  Bool-cases, arith,
}
use open_tf_mirror.Base.Map.{get}
use open_tf_mirror.Registry.Types.{RegistryError, RegistryVersion}
use open_tf_mirror.Metadata.Types.{ProviderKey, provider_eq, fresh}
use open_tf_mirror.Metadata.Validate.{validate_registry_versions}
use open_tf_mirror.Metadata.Backoff.{record_refresh_failure}
use open_tf_mirror.Metadata.Index.{
  IndexEntry, Env, Service, map_registry, should_backoff, index_refresh_allowed,
  record_index_failure, clear_index_failure, fresh_index, refresh_index_unlocked, load_index,
}

-- The entry is the one that was cached, or what the registry answered at this time.
abbrev pub IsCachedOrFetched : Env → ProviderKey → IndexEntry → IndexEntry → Type 0
IsCachedOrFetched env key cached entry =
    (entry ≡ cached) ⊎ ((env.versions key ≡ ok entry.value) × (entry.fetched_at ≡ env.now_epoch))

abbrev fetched : Env → List RegistryVersion → IndexEntry
fetched env versions = record { fetched_at = env.now_epoch; complete = true; value = versions }

module _ (env : Env) (key : ProviderKey) (s : Service) where
  -- With an index in memory, however old, `load_index` never fails, whatever the registry and the
  -- disk answer: it returns that index or what the registry answers now.
  pub load_index-available :
      (cached : IndexEntry)
      → get key s.indices ≡ some cached
      → (entry : IndexEntry) × ((load_index env key s).1 ≡ ok entry)
        × IsCachedOrFetched env key cached entry
  unfolding load_index refresh_index_unlocked fresh_index
  load_index-available cached h = elim (Result-cases (env.versions key)) [
    | inr (error, v) ↦ (cached, ground arith, inl refl)
    | inl (versions, v) ↦
        elim (Bool-cases (
          fresh cached s.freshness s.partial_retry env.now_epoch
          || not (index_refresh_allowed env s key))) [
            | inl served ↦ (cached, ground arith, inl refl)
            | inr asked ↦ elim (Result-cases (validate_registry_versions versions)) [
              | inr (error, w) ↦ (cached, ground arith, inl refl)
              | inl (_, w) ↦ elim (Result-cases (env.write_json key (fetched env versions))) [
                | inr (error, f) ↦ (cached, ground arith, inl refl)
                | inl (_, f) ↦ (fetched env versions, ground arith, inr (v, refl))
              ]
            ]
          ]
  ]

  -- A refresh that fails replaces nothing: the indices stay as they are and the cached one is served.
  pub load_index-failed :
      (cached : IndexEntry) (error : RegistryError)
      → get key s.indices ≡ some cached
      → env.versions key ≡ err error
      → ((load_index env key s).0.indices ≡ s.indices) × ((load_index env key s).1 ≡ ok cached)
  unfolding load_index refresh_index_unlocked fresh_index record_index_failure
  load_index-failed cached error h k = ground arith

  -- One load asks the registry at most once.
  pub load_index-requests :
      (s.requests ≤ (load_index env key s).0.requests)
      × ((load_index env key s).0.requests ≤ s.requests + 1)
  unfolding load_index refresh_index_unlocked fresh_index record_index_failure clear_index_failure
  load_index-requests = ground arith

  pub failed_state :
      (error : RegistryError)
      → env.versions key ≡ err error
      → should_backoff (map_registry error) ≡ true
      → (load_index env key s).0.requests ≡ s.requests + 1
      → ((load_index env key s).0.index_failures
          ≡ record_refresh_failure s.index_failures key s.backoff env.now)
        × ((load_index env key s).0.backoff ≡ s.backoff)
  unfolding load_index refresh_index_unlocked fresh_index record_index_failure clear_index_failure
  failed_state error v b r = ground arith

  -- A refused refresh asks nothing.
  pub refused_requests :
      index_refresh_allowed env s key ≡ false → (load_index env key s).0.requests ≡ s.requests
  unfolding load_index refresh_index_unlocked fresh_index record_index_failure clear_index_failure
  refused_requests h = ground arith
