-- ===== src/Metadata/Index/Backoff.antt =====
-- src/metadata.rs: the loads that follow one whose request failed.
use open_tf_mirror.Base.{
  ℕ, suc, ◌+◌, ◌≤◌, ◌<◌, ◌≡◌, ◌≢◌, ◌∙◌, ◌⊎◌, inl, inr, true, false, Bool-cases, ltb, List, [], ◌∷◌,
  length, All, some, err, beq_ne, arith,
}
use open_tf_mirror.Base.Map.{
  Map, get, remove, IsMap, get-remove, get-retain, remove-IsMap, length-remove-le,
}
use open_tf_mirror.Registry.Types.{RegistryError}
use open_tf_mirror.Metadata.Types.{ProviderKey, provider_eq, provider_beq, provider_beq_iff}
use open_tf_mirror.Metadata.Backoff.{
  max_failures, refresh_allowed, record_refresh_failure, record_refresh_failure-IsBounded,
  get-recorded_other, get-recorded_self, record_refresh_failure-length,
}
use open_tf_mirror.Metadata.Index.{
  Env, Service, map_registry, should_backoff, index_refresh_allowed, record_index_failure,
  clear_index_failure, fresh_index, refresh_index_unlocked, load_index,
}
use open_tf_mirror.Metadata.Index.Refresh.{failed_state, refused_requests}

-- Loads of indices, one after the other.
unfoldable pub load_all : List (Env × ProviderKey) → Service → Service
load_all [] s = s
load_all ((env, key) ∷ loads) s = load_all loads (load_index env key s).0

-- What a load does to the map of failures.
load_index-failures :
    (env : Env) (key : ProviderKey) (s : Service)
    → ((load_index env key s).0.backoff ≡ s.backoff)
      × (((load_index env key s).0.index_failures ≡ s.index_failures)
          ⊎ ((load_index env key s).0.index_failures
              ≡ record_refresh_failure s.index_failures key s.backoff env.now)
          ⊎ ((load_index env key s).0.index_failures ≡ remove key s.index_failures))
unfolding load_index refresh_index_unlocked fresh_index record_index_failure clear_index_failure
load_index-failures env key s = ground arith

-- A refused refresh notes nothing.
refused_failures :
    (env : Env) (key : ProviderKey) (s : Service)
    → index_refresh_allowed env s key ≡ false
    → (load_index env key s).0.index_failures ≡ s.index_failures
unfolding load_index refresh_index_unlocked fresh_index record_index_failure clear_index_failure
refused_failures env key s h = ground arith

module _ (key : ProviderKey) (retry_at : ℕ) where
  -- The failure of the key is noted, and there is room for so many more.
  record IsNoted (room : ℕ) (m : Map ProviderKey ℕ) : Type 0 where
    noted : get key m ≡ some retry_at
    is_map : IsMap m
    few : length m + room ≤ max_failures

  weaker : (room : ℕ) (m : Map ProviderKey ℕ) → IsNoted (suc room) m → IsNoted room m
  weaker room m n = record { noted = n.noted; is_map = n.is_map; few = omega (arith, n.few) }

  record_refresh_failure-IsNoted :
      (room : ℕ) (m : Map ProviderKey ℕ) (other : ProviderKey) (backoff now : ℕ)
      → other ≢ key
      → now < retry_at
      → IsNoted (suc room) m
      → IsNoted room (record_refresh_failure m other backoff now)
  record_refresh_failure-IsNoted room m other backoff now ne early n = record {
    noted =
        get-recorded_other m other key backoff now n.is_map (omega (arith, n.few)) ne
        ∙ ground (arith, get-retain (λ retry_at. ltb now retry_at) key m n.is_map, n.noted);
    is_map =
        (record_refresh_failure-IsBounded m other backoff now
          (record { is_map = n.is_map; few = omega (arith, n.few) })).is_map;
    few = omega (arith, n.few, record_refresh_failure-length m other backoff now);
  }

  remove-IsNoted :
      (room : ℕ) (m : Map ProviderKey ℕ) (other : ProviderKey)
      → other ≢ key
      → IsNoted (suc room) m
      → IsNoted room (remove other m)
  remove-IsNoted room m other ne n = record {
    noted = rw (get-remove other key m, beq_ne other key ne) n.noted;
    is_map = remove-IsMap other m n.is_map;
    few = omega (arith, n.few, length-remove-le other m);
  }

  refused :
      (room : ℕ) (env : Env) (s : Service)
      → env.now < retry_at
      → 0 < s.backoff
      → IsNoted room s.index_failures
      → index_refresh_allowed env s key ≡ false
  unfolding refresh_allowed
  refused room env s early p n = ground (arith, n.noted)

  load_index-IsNoted :
      (room : ℕ) (env : Env) (other : ProviderKey) (s : Service)
      → env.now < retry_at
      → 0 < s.backoff
      → IsNoted (suc room) s.index_failures
      → IsNoted room (load_index env other s).0.index_failures
  load_index-IsNoted room env other s early p n = elim (Bool-cases (provider_beq other key)) [
    | inl same ↦
        let here : other ≡ key = (provider_beq_iff other key).0 same in
        rw (here, refused_failures env key s (refused (suc room) env s early p n))
          (weaker room s.index_failures n)
    | inr differs ↦
        let ne : other ≢ key = λ e. ground (arith, (provider_beq_iff other key).1 e) in
        elim (load_index-failures env other s).1 [
          | inl same ↦ rw same (weaker room s.index_failures n)
          | inr (inl recorded) ↦ rw recorded (
              record_refresh_failure-IsNoted room s.index_failures other s.backoff env.now ne early
                n)
          | inr (inr removed) ↦ rw removed (remove-IsNoted room s.index_failures other ne n)
        ]
  ]

  load_all-IsNoted :
      (loads : List (Env × ProviderKey)) (s : Service)
      → All (λ load. load.0.now < retry_at) loads
      → 0 < s.backoff
      → IsNoted (length loads) s.index_failures
      → IsNoted 0 (load_all loads s).index_failures × (0 < (load_all loads s).backoff)
  unfolding load_all
  load_all-IsNoted [] s early p n = (n, p)
  load_all-IsNoted ((env, other) ∷ loads) s (e, early) p n =
      load_all-IsNoted loads (load_index env other s).0 early
        (rw (load_index-failures env other s).0 p)
        (load_index-IsNoted (length loads) env other s e p n)

-- Where a load asked the registry and got an error that backs off (any but "not found"), with a
-- positive backoff, and loads of whatever indices and then of this one follow, all before the backoff
-- has passed: the last one asks nothing. At the beginning no key has two failures, and the failures
-- and the loads are fewer than 4096 together, so that no failure has to make room for another.
pub load_index-backoff :
    (env later : Env) (key : ProviderKey) (s : Service) (error : RegistryError)
    (loads : List (Env × ProviderKey))
    → env.versions key ≡ err error
    → should_backoff (map_registry error) ≡ true
    → (load_index env key s).0.requests ≡ s.requests + 1
    → 0 < s.backoff
    → IsMap s.index_failures
    → length s.index_failures + length loads < max_failures
    → All (λ load. load.0.now < env.now + s.backoff) loads
    → later.now < env.now + s.backoff
    → let after = load_all loads (load_index env key s).0 in
      (load_index later key after).0.requests ≡ after.requests
load_index-backoff env later key s error loads v b r p m few early l =
    let (e, same) = failed_state env key s error v b r in
    let bounded =
      record_refresh_failure-IsBounded s.index_failures key s.backoff env.now
        (record { is_map = m; few = omega (arith, few) }) in
    let noted : IsNoted key (env.now + s.backoff) (length loads)
        (record_refresh_failure s.index_failures key s.backoff env.now) =
      record {
        noted = get-recorded_self s.index_failures key s.backoff env.now;
        is_map = bounded.is_map;
        few =
            omega
              (arith, few, record_refresh_failure-length s.index_failures key s.backoff env.now);
      } in
    let (end, positive) =
      load_all-IsNoted key (env.now + s.backoff) loads (load_index env key s).0 early (rw same p)
        (rw e noted) in
    refused_requests later key (load_all loads (load_index env key s).0) (
      refused key (env.now + s.backoff) 0 later (load_all loads (load_index env key s).0) l positive
        end)
