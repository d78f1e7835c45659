-- ===== src/Metadata/Backoff.antt =====
-- src/metadata.rs: `refresh_allowed` and `record_refresh_failure`, over instants in nanoseconds. The
-- order in which a map is read is that of its list; of equal minima the first is taken.
use open_tf_mirror.Base.{
  ℕ, ◌+◌, ◌≤◌, ◌<◌, ◌≡◌, ◌≢◌, refl, Bool, true, false, ◌||◌, ◌==◌, ltb, leb, if◌then◌else◌, [], ◌∷◌,
  length, Option, some, none, Eq, beq_refl, beq_ne, Option-cases, Bool-cases, inl, inr, arith,
}
use open_tf_mirror.Base.Map.{
  Map, get, insert, remove, retain, IsMap, get-insert, get-insert_self, get-retain, insert-IsMap,
  remove-IsMap, retain-IsMap, length-insert-le, length-remove-lt, length-remove-le,
  length-retain-le,
}

abbrev pub max_failures : ℕ
max_failures = 4096

module _ {K : Type 0} ⦃e : Eq K⦄ where
  -- `is_none_or`; the time is read once for each call.
  unfoldable pub refresh_allowed : Map K ℕ → K → (backoff now : ℕ) → Bool
  refresh_allowed failures key backoff now = elim (get key failures) [
    | none ↦ true
    | some retry_at ↦ leb retry_at now || backoff == 0
  ]

  -- `min_by_key`
  min_entry : Map K ℕ → Option (K × ℕ)
  min_entry [] = none
  min_entry ((k, v) ∷ m) = elim (min_entry m) [
    | none ↦ some (k, v)
    | some (j, w) ↦ if leb v w then some (k, v) else some (j, w)
  ]

  unfoldable pub make_room : Map K ℕ → Map K ℕ
  unfolding min_entry
  make_room failures =
      if leb max_failures (length failures)
      then (elim (min_entry failures) [
        | none ↦ failures
        | some (oldest, _) ↦ remove oldest failures
      ])
      else failures

  unfoldable pub record_refresh_failure : Map K ℕ → K → (backoff now : ℕ) → Map K ℕ
  record_refresh_failure failures key backoff now =
      insert key (now + backoff) (make_room (retain (λ retry_at. ltb now retry_at) failures))

  min_entry-get :
      (m : Map K ℕ) (k : K) (v : ℕ) → min_entry m ≡ some (k, v) → (w : ℕ) × (get k m ≡ some w)
  unfolding min_entry get
  min_entry-get [] k v h = cc
  min_entry-get ((j, u) ∷ m) k v h = elim (Bool-cases (e.beq j k)) [
    | inl same ↦ (u, rw same)
    | inr other ↦ elim (Option-cases (min_entry m)) [
      | inl nothing ↦ absurd (ground (arith, beq_refl j))
      | inr ((i, w), found) ↦
          let here : i ≡ k = ground (arith, beq_refl j) in
          rw other (min_entry-get m k w (rw (← here) found))
    ]
  ]

  min_entry-none : (m : Map K ℕ) → min_entry m ≡ none → m ≡ []
  unfolding min_entry
  min_entry-none [] h = refl
  min_entry-none ((j, u) ∷ m) h = ground arith

  make_room-lt : (m : Map K ℕ) → length m ≤ max_failures → length (make_room m) < max_failures
  unfolding make_room
  make_room-lt m h = elim (Bool-cases (leb max_failures (length m))) [
    | inr below ↦ rw (below, make_room) (ground arith)
    | inl full ↦ elim (Option-cases (min_entry m)) [
      | inl nothing ↦ absurd (ground (arith, min_entry-none m nothing))
      | inr ((k, v), found) ↦
          let (w, there) = min_entry-get m k v found in
          rw (full, found, make_room) (omega (arith, length-remove-lt k w m there))
    ]
  ]

  make_room-le : (m : Map K ℕ) → length (make_room m) ≤ length m
  unfolding make_room
  make_room-le m = elim (Bool-cases (leb max_failures (length m))) [
    | inr below ↦ rw (below, make_room) (omega arith)
    | inl full ↦ elim (Option-cases (min_entry m)) [
      | inl nothing ↦ rw (full, nothing, make_room) (omega arith)
      | inr ((k, v), found) ↦ rw (full, found, make_room) (length-remove-le k m)
    ]
  ]

  make_room-IsMap : (m : Map K ℕ) → IsMap m → IsMap (make_room m)
  unfolding make_room
  make_room-IsMap m h = elim (Bool-cases (leb max_failures (length m))) [
    | inr below ↦ rw (below, make_room) h
    | inl full ↦ elim (Option-cases (min_entry m)) [
      | inl nothing ↦ rw (full, nothing, make_room) h
      | inr ((k, v), found) ↦ rw (full, found, make_room) (remove-IsMap k m h)
    ]
  ]

  -- A map of failures that can be met: no key twice, and at most 4096 entries.
  pub record IsBounded (m : Map K ℕ) : Type 0 where
    pub is_map : IsMap m
    pub few : length m ≤ max_failures

  -- Recording a failure keeps the map of failures bounded by 4096 entries with no key twice.
  pub record_refresh_failure-IsBounded :
      (m : Map K ℕ) (key : K) (backoff now : ℕ)
      → IsBounded m
      → IsBounded (record_refresh_failure m key backoff now)
  unfolding record_refresh_failure
  record_refresh_failure-IsBounded m key backoff now b =
      let live = retain (λ retry_at. ltb now retry_at) m in
      let few : length live ≤ max_failures =
        omega (arith, b.few, length-retain-le (λ retry_at. ltb now retry_at) m) in
      record {
        is_map =
            insert-IsMap key (now + backoff) (make_room live)
              (make_room-IsMap live (retain-IsMap (λ retry_at. ltb now retry_at) m b.is_map));
        few =
            omega
              (arith, make_room-lt live few, length-insert-le key (now + backoff) (make_room live));
      }

  -- Whatever failures were recorded before, after a failure at `now` with a positive backoff the key
  -- may be refreshed at `later` exactly when the backoff has passed.
  pub refresh_allowed-recorded :
      (m : Map K ℕ) (key : K) (backoff now later : ℕ)
      → 0 < backoff
      → refresh_allowed (record_refresh_failure m key backoff now) key backoff later
        ≡ leb (now + backoff) later
  unfolding refresh_allowed record_refresh_failure
  refresh_allowed-recorded m key backoff now later p =
      rw
        (
          get-insert_self key (now + backoff) (make_room (retain (λ retry_at. ltb now retry_at) m)),
          refresh_allowed,
        )
        (ground arith)

  -- Recording a failure adds one entry at most.
  pub record_refresh_failure-length :
      (m : Map K ℕ) (key : K) (backoff now : ℕ)
      → length (record_refresh_failure m key backoff now) ≤ length m + 1
  unfolding record_refresh_failure
  record_refresh_failure-length m key backoff now =
      let live = retain (λ retry_at. ltb now retry_at) m in
      omega (
        arith,
        length-retain-le (λ retry_at. ltb now retry_at) m,
        make_room-le live,
        length-insert-le key (now + backoff) (make_room live),
      )

  pub get-recorded_self :
      (m : Map K ℕ) (key : K) (backoff now : ℕ)
      → get key (record_refresh_failure m key backoff now) ≡ some (now + backoff)
  unfolding record_refresh_failure
  get-recorded_self m key backoff now =
      get-insert_self key (now + backoff) (make_room (retain (λ retry_at. ltb now retry_at) m))

  pub get-recorded_other :
      (m : Map K ℕ) (key other : K) (backoff now : ℕ)
      → IsMap m
      → length m < max_failures
      → key ≢ other
      → get other (record_refresh_failure m key backoff now)
        ≡ get other (retain (λ retry_at. ltb now retry_at) m)
  unfolding record_refresh_failure make_room
  get-recorded_other m key other backoff now h few ne =
      let p = λ (retry_at : ℕ). ltb now retry_at in
      let below : leb max_failures (length (retain p m)) ≡ false =
        ground (arith, length-retain-le p m) in
      rw (below, get-insert key other (now + backoff) (retain p m), beq_ne key other ne)

  -- While fewer than 4096 failures are known, recording one leaves every other key as allowed or
  -- refused as it was, at that instant.
  pub refresh_allowed-other :
      (m : Map K ℕ) (key other : K) (backoff now : ℕ)
      → IsMap m
      → length m < max_failures
      → key ≢ other
      → refresh_allowed (record_refresh_failure m key backoff now) other backoff now
        ≡ refresh_allowed m other backoff now
  unfolding refresh_allowed
  refresh_allowed-other m key other backoff now h few ne = ground (
    arith,
    get-recorded_other m key other backoff now h few ne,
    get-retain (λ retry_at. ltb now retry_at) other m h,
  )
