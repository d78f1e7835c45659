-- ===== src/Metadata/Index/Validity.antt =====
-- src/metadata.rs: the invariant of the indices in memory, and that the operations keep it.
use open_tf_mirror.Base.{
  ◌≡◌, refl, inl, inr, true, List, [], ◌∷◌, map, Option, some, none, Result, ok, err, Result-cases,
  Option-cases, Bool-cases, arith, ok_or-eq-ok, ◌+◌,
}
use open_tf_mirror.Base.Map.{get, contains_key, get-insert, remove-IsMap, length-remove-le}
use open_tf_mirror.Registry.Types.{RegistryVersion}
use open_tf_mirror.Metadata.Types.{MetadataError, ProviderKey, provider_eq}
use open_tf_mirror.Metadata.Validate.{validate_registry_versions}
use open_tf_mirror.Metadata.Backoff.{IsBounded, record_refresh_failure-IsBounded}
use open_tf_mirror.Metadata.Index.{
  IndexEntry, Env, Service, should_backoff, index_refresh_allowed, record_index_failure,
  clear_index_failure, note_failure, store_index, fresh_index, store_versions,
  refresh_index_unlocked, settle, refresh_or_stale, load_persisted, load_index, sync_one, sync_keys,
  sync_known,
}

ok-injective : (s s' : Service) → ◌≡◌ {A = Result MetadataError Service} (ok s) (ok s') → s ≡ s'
ok-injective s s' h = ground arith

abbrev pub IsAccepted : IndexEntry → Type 0
IsAccepted entry = validate_registry_versions entry.value ≡ ok tt

-- Every index in memory passes the validation, and the failures are bounded.
pub record IsValid (s : Service) : Type 0 where
  pub accepted :
      (key : ProviderKey) (entry : IndexEntry) → get key s.indices ≡ some entry → IsAccepted entry
  pub bounded : IsBounded s.index_failures

-- What an operation that answers with an entry promises.
pub record IsSound (answer : Service × Result MetadataError IndexEntry) : Type 0 where
  pub state : IsValid answer.0
  pub entry : (entry : IndexEntry) → answer.1 ≡ ok entry → IsAccepted entry

store_index-IsValid :
    (key : ProviderKey) (entry : IndexEntry) (s : Service)
    → IsAccepted entry
    → IsValid s
    → IsValid (store_index key entry s)
store_index-IsValid key entry s a v = record {
  accepted = λ j other h. ground (arith, get-insert key j entry s.indices, v.accepted j other);
  bounded = v.bounded;
}

clear-IsValid : (key : ProviderKey) (s : Service) → IsValid s → IsValid (clear_index_failure key s)
unfolding clear_index_failure
clear-IsValid key s v = record {
  accepted = v.accepted;
  bounded = record {
    is_map = remove-IsMap key s.index_failures v.bounded.is_map;
    few = ground (arith, length-remove-le key s.index_failures, v.bounded.few);
  };
}

note-IsValid :
    (env : Env) (key : ProviderKey) (error : MetadataError) (s : Service)
    → IsValid s
    → IsValid (note_failure env key error s)
unfolding record_index_failure
note-IsValid env key error s v = elim (Bool-cases (should_backoff error)) [
  | inl b ↦ rw b (record {
    accepted = v.accepted;
    bounded = record_refresh_failure-IsBounded s.index_failures key s.backoff env.now v.bounded;
  })
  | inr b ↦ rw b v
]

IsSound-err : (s : Service) (error : MetadataError) → IsValid s → IsSound (s, err error)
IsSound-err s error v = record { state = v; entry = λ entry h. cc }

IsSound-ok :
    (s : Service) (entry : IndexEntry) → IsValid s → IsAccepted entry → IsSound (s, ok entry)
IsSound-ok s entry v a = record { state = v; entry = λ other h. ground arith }

store_versions-IsSound :
    (env : Env) (key : ProviderKey) (s : Service) (versions : List RegistryVersion)
    → IsValid s
    → IsSound (store_versions env key s versions)
unfolding store_versions
store_versions-IsSound env key s versions v =
    let entry : IndexEntry = record {
      fetched_at = env.now_epoch;
      complete = true;
      value = versions;
    } in
    elim (Result-cases (validate_registry_versions versions)) [
      | inr (error, w) ↦ rw (w, store_versions) (IsSound-err s error v)
      | inl (_, w) ↦ elim (Result-cases (env.write_json key entry)) [
        | inr (error, f) ↦ rw (w, f, store_versions) (IsSound-err s error v)
        | inl (_, f) ↦
            rw (w, f, store_versions)
              (IsSound-ok (store_index key entry s) entry (store_index-IsValid key entry s w v) w)
      ]
    ]

refresh-IsSound :
    (env : Env) (key : ProviderKey) (s : Service)
    → IsValid s
    → IsSound (refresh_index_unlocked env key s)
unfolding refresh_index_unlocked
refresh-IsSound env key s v =
    let asked : Service = record s { requests = s.requests + 1 } in
    let still : IsValid asked = record { accepted = v.accepted; bounded = v.bounded } in
    elim (Result-cases (env.versions key)) [
      | inr (error, w) ↦ rw (w, refresh_index_unlocked) (IsSound-err asked _ still)
      | inl (versions, w) ↦
          rw (w, refresh_index_unlocked) (store_versions-IsSound env key asked versions still)
    ]

settle-IsSound :
    (env : Env) (key : ProviderKey) (cached : Option IndexEntry)
    (answer : Service × Result MetadataError IndexEntry)
    → ((entry : IndexEntry) → cached ≡ some entry → IsAccepted entry)
    → IsSound answer
    → IsSound (settle env key cached answer)
unfolding settle
settle-IsSound env key cached (s, ok entry) c a =
    IsSound-ok (clear_index_failure key s) entry (clear-IsValid key s a.state) (a.entry entry refl)
settle-IsSound env key (some entry) (s, err error) c a =
    IsSound-ok _ entry (note-IsValid env key error s a.state) (c entry refl)
settle-IsSound env key none (s, err error) c a =
    let noted = note-IsValid env key error s a.state in
    record { state = noted; entry = λ entry h. noted.accepted key entry (ok_or-eq-ok _ error h) }

fresh_index-get :
    (env : Env) (s : Service) (key : ProviderKey) (entry : IndexEntry)
    → fresh_index env s key ≡ some entry
    → get key s.indices ≡ some entry
unfolding fresh_index
fresh_index-get env s key entry h = ground arith

refresh_or_stale-IsSound :
    (env : Env) (key : ProviderKey) (s : Service) → IsValid s → IsSound (refresh_or_stale env key s)
unfolding refresh_or_stale
refresh_or_stale-IsSound env key s v = elim (Option-cases (fresh_index env s key)) [
  | inr (entry, f) ↦
      rw (f, refresh_or_stale)
        (IsSound-ok s entry v (v.accepted key entry (fresh_index-get env s key entry f)))
  | inl f ↦ elim (Bool-cases (index_refresh_allowed env s key)) [
    | inl a ↦
        rw (f, a, refresh_or_stale)
          (settle-IsSound env key (get key s.indices) (refresh_index_unlocked env key s)
            (v.accepted key) (refresh-IsSound env key s v))
    | inr a ↦
        rw (f, a, refresh_or_stale)
          (record { state = v; entry = λ entry h. v.accepted key entry (ok_or-eq-ok _ _ h) })
  ]
]

load_persisted-IsValid :
    (env : Env) (key : ProviderKey) (s s' : Service)
    → IsValid s
    → load_persisted env key s ≡ ok s'
    → IsValid s'
unfolding load_persisted
load_persisted-IsValid env key s s' v h = elim (Bool-cases (contains_key key s.indices)) [
  | inl here ↦ rw (← ok-injective s s' (rw (here, load_persisted) at h)) v
  | inr absent ↦ elim (Result-cases (env.read_json key)) [
    | inr (error, r) ↦ absurd (ground arith)
    | inl (none, r) ↦ rw (← ok-injective s s' (rw (absent, r, load_persisted) at h)) v
    | inl (some entry, r) ↦ elim (Result-cases (validate_registry_versions entry.value)) [
      | inr (error, w) ↦ rw (← ok-injective s s' (rw (absent, r, w, load_persisted) at h)) v
      | inl (_, w) ↦
          rw (← ok-injective (store_index key entry s) s' (rw (absent, r, w, load_persisted) at h))
            (store_index-IsValid key entry s w v)
    ]
  ]
]

-- `load_index` keeps the invariant on every branch, and an index that it returns passes the
-- validation, whether it comes from memory, from the disk or from the registry.
pub load_index-IsSound :
    (env : Env) (key : ProviderKey) (s : Service) → IsValid s → IsSound (load_index env key s)
unfolding load_index
load_index-IsSound env key s v = elim (Option-cases (fresh_index env s key)) [
  | inr (entry, f) ↦
      rw (f, load_index)
        (IsSound-ok s entry v (v.accepted key entry (fresh_index-get env s key entry f)))
  | inl f ↦ elim (Result-cases (load_persisted env key s)) [
    | inr (error, r) ↦ rw (f, r, load_index) (IsSound-err s error v)
    | inl (s', r) ↦
        rw (f, r, load_index)
          (refresh_or_stale-IsSound env key s' (load_persisted-IsValid env key s s' v r))
  ]
]

sync_one-IsValid :
    (env : Env) (key : ProviderKey) (s : Service) → IsValid s → IsValid (sync_one env key s).0
unfolding sync_one
sync_one-IsValid env key s v =
    let (s', result) = refresh_index_unlocked env key s in
    let sound = refresh-IsSound env key s v in
    elim (Result-cases (refresh_index_unlocked env key s).1) [
      | inl (entry, r) ↦ rw (r, sync_one) (clear-IsValid key _ sound.state)
      | inr (error, r) ↦ rw (r, sync_one) (note-IsValid env key error _ sound.state)
    ]

sync_keys-IsValid :
    (env : Env) (keys : List ProviderKey) (s : Service)
    → IsValid s
    → IsValid (sync_keys env keys s).0
unfolding sync_keys
sync_keys-IsValid env [] s v = v
sync_keys-IsValid env (key ∷ keys) s v =
    sync_keys-IsValid env keys (sync_one env key s).0 (sync_one-IsValid env key s v)

-- `sync_known` keeps the invariant, and leaves the flag of a running synchronization as it found it.
pub sync_known-IsValid :
    (env : Env) (s : Service)
    → IsValid s
    → IsValid (sync_known env s).0 × ((sync_known env s).0.syncing ≡ s.syncing)
unfolding sync_known
sync_known-IsValid env s v = elim (Bool-cases s.syncing) [
  | inl busy ↦ rw (busy, sync_known) (record { accepted = v.accepted; bounded = v.bounded }, refl)
  | inr idle ↦
      let start : IsValid (record s { syncing = true }) = record {
        accepted = v.accepted;
        bounded = v.bounded;
      } in
      let done =
        sync_keys-IsValid env (map (λ entry. entry.0) s.indices) (record s { syncing = true })
          start in
      rw (idle, sync_known) (record { accepted = done.accepted; bounded = done.bounded }, refl)
]
