-- ===== src/Metadata/Versions/Served.antt =====
-- src/metadata.rs: what `load_version` keeps and serves: packages that were checked for their version.
use open_tf_mirror.Base.{
  ◌≡◌, refl, sym, ◌∙◌, ap, Bool, true, Bool-cases, ◌⊎◌, inl, inr, List, [], ◌∷◌, map, Option, some,
  none, Str, Option-cases, str_beq_iff, Result, ok, err, Result-cases, >>=-eq-ok, map_err, All,
  arith, is_ok, ◌||◌, not,
}
use open_tf_mirror.Base.Map.{get, get-insert, contains_key}
use open_tf_mirror.Outbound.Client.{UrlLib}
use open_tf_mirror.Registry.Types.{RegistryPlatform, RegistryVersion}
use open_tf_mirror.Metadata.Types.{PlatformMetadata, MetadataError, VersionKey, fresh}
use open_tf_mirror.Metadata.Validate.{validate_package, validate_version_metadata, each}
use open_tf_mirror.Metadata.Index.{map_registry}
use open_tf_mirror.Metadata.Packages.{fetch_package, Packages}
use open_tf_mirror.Metadata.Packages.Merge.{merged-All}
use open_tf_mirror.Metadata.Versions.{
  VersionEntry, version_eq, version_beq, version_beq_iff, VersionEnv, Versions, version_entry,
  cached_platforms, Loaded, store_version, record_version_failure, clear_version_failure,
  record_missing_version_refresh, find_version, fresh_version, refresh_missing, look_again,
  load_summary, store_platforms, settle_platforms, fetch_platforms, refresh_platforms,
  refresh_version, settle_version, load_persisted_version, version_or_stale, load_version,
  version_refresh_allowed,
}

each-All :
    {A : Type 0} (check : A → Result MetadataError (Unit {0})) (xs : List A) {u : Unit {0}}
    → each check xs ≡ ok u
    → All (λ x. check x ≡ ok tt) xs
each-All check [] h = tt
each-All check (x ∷ xs) h =
    let (tt, a, b) = >>=-eq-ok (check x) (λ _. each check xs) h in (a, each-All check xs b)

module _ (is_semver : Str → Bool) (urls : UrlLib) where
  -- The package passes `validate_package` for its version, at its own platform.
  abbrev pub IsChecked : VersionKey → PlatformMetadata → Type 0
  IsChecked key item =
      validate_package is_semver urls key (record { os = item.os; arch = item.arch }) item ≡ ok tt

  abbrev pub IsCheckedEntry : VersionKey → VersionEntry → Type 0
  IsCheckedEntry key entry = All (IsChecked key) entry.value.platforms

  abbrev pub AllChecked : Versions → Type 0
  AllChecked s =
      (k : VersionKey) (entry : VersionEntry)
      → get k s.versions ≡ some entry
      → IsCheckedEntry k entry

  -- All versions in memory are checked, and so is the one that is answered.
  abbrev pub IsSoundLoad : VersionKey → Loaded → Type 0
  IsSoundLoad key answer =
      AllChecked answer.0
      × ((entry : VersionEntry) → answer.1 ≡ ok entry → IsCheckedEntry key entry)

  store_version-AllChecked :
      (key : VersionKey) (entry : VersionEntry) (s : Versions)
      → IsCheckedEntry key entry
      → AllChecked s
      → AllChecked (store_version key entry s)
  store_version-AllChecked key entry s c h k e found = elim (Bool-cases (version_beq key k)) [
    | inl same ↦
        let here : entry ≡ e = ground (arith, get-insert key k entry s.versions) in
        rw (← (version_beq_iff key k).0 same, ← here) c
    | inr other ↦ h k e (ground (arith, get-insert key k entry s.versions))
  ]

  -- A package that passes has the platform that was asked for.
  validate_package-platform :
      (key : VersionKey) (platform : RegistryPlatform) (fetched : PlatformMetadata) {u : Unit {0}}
      → validate_package is_semver urls key platform fetched ≡ ok u
      → platform ≡ record { os = fetched.os; arch = fetched.arch }
  unfolding validate_package
  validate_package-platform key platform fetched h =
      ground (arith, str_beq_iff fetched.os platform.os, str_beq_iff fetched.arch platform.arch)

  fetch_package-IsChecked :
      (packages : Packages) (key : VersionKey) (platform : RegistryPlatform)
      (fetched : PlatformMetadata)
      → fetch_package is_semver urls packages key platform ≡ ok fetched
      → IsChecked key fetched
  unfolding fetch_package
  fetch_package-IsChecked packages key platform fetched h =
      let (p, _, b) = >>=-eq-ok (map_err map_registry (packages key platform)) _ h in
      let (tt, c, d) = >>=-eq-ok (validate_package is_semver urls key platform p) (λ _. ok p) b in
      let same : p ≡ fetched = cc in rw (← same, ← validate_package-platform key platform p c) c

  validate_version_metadata-IsChecked :
      (key : VersionKey) (entry : VersionEntry)
      → is_ok (validate_version_metadata is_semver urls key entry.value) ≡ true
      → IsCheckedEntry key entry
  unfolding validate_version_metadata
  validate_version_metadata-IsChecked key entry h =
      let check = λ (item : PlatformMetadata).
        validate_package is_semver urls key (record { os = item.os; arch = item.arch }) item in
      let passed : each check entry.value.platforms ≡ ok tt = ground arith in
      each-All check entry.value.platforms passed

  module _ (env : VersionEnv) (key : VersionKey) where
    fetched-All :
        (platforms : List RegistryPlatform)
        → All
            (λ result. (fetched : PlatformMetadata) → result ≡ ok fetched → IsChecked key fetched)
            (map (fetch_package is_semver urls env.packages key) platforms)
    fetched-All [] = tt
    fetched-All (platform ∷ platforms) =
        (fetch_package-IsChecked env.packages key platform, fetched-All platforms)

    store_platforms-IsSoundLoad :
        (s : Versions) (first_error : Option MetadataError) (platforms : List PlatformMetadata)
        → AllChecked s
        → All (IsChecked key) platforms
        → IsSoundLoad key (store_platforms env key s first_error platforms)
    unfolding store_platforms
    store_platforms-IsSoundLoad s first_error platforms h c =
        let entry = version_entry env key first_error platforms in
        elim (Result-cases (env.write_version key entry)) [
          | inr (error, w) ↦ rw (store_platforms, w) (h, λ e q. cc)
          | inl (_, w) ↦
              rw (store_platforms, w)
                (
                  store_version-AllChecked key entry s c h,
                  λ e q. let same : entry ≡ e = cc in rw (← same) c,
                )
        ]

    settle_platforms-IsSoundLoad :
        (s : Versions) (first_error : Option MetadataError) (platforms : List PlatformMetadata)
        → AllChecked s
        → All (IsChecked key) platforms
        → IsSoundLoad key (settle_platforms env key s first_error platforms)
    unfolding settle_platforms
    settle_platforms-IsSoundLoad s (some error) [] h c = (h, λ e q. cc)
    settle_platforms-IsSoundLoad s (some error) (p ∷ ps) h c =
        store_platforms-IsSoundLoad s (some error) (p ∷ ps) h c
    settle_platforms-IsSoundLoad s none platforms h c =
        store_platforms-IsSoundLoad s none platforms h c

    cached-All :
        (s : Versions) → AllChecked s → All (IsChecked key) (cached_platforms (get key s.versions))
    cached-All s h = elim (Option-cases (get key s.versions)) [
      | inl nothing ↦ rw nothing tt
      | inr (entry, found) ↦ rw found (h key entry found)
    ]

    refresh_platforms-IsSoundLoad :
        (s : Versions) (summary : RegistryVersion)
        → AllChecked s
        → IsSoundLoad key (refresh_platforms is_semver urls env key s summary)
    unfolding refresh_platforms fetch_platforms
    refresh_platforms-IsSoundLoad s summary h = settle_platforms-IsSoundLoad s _ _ h (
        merged-All (IsChecked key) summary.platforms (cached_platforms (get key s.versions))
          (map (fetch_package is_semver urls env.packages key) summary.platforms)
          (fetched-All summary.platforms) (cached-All s h))

    load_summary-versions : (s : Versions) → (load_summary env key s).0.versions ≡ s.versions
    unfolding load_summary look_again refresh_missing record_missing_version_refresh
    load_summary-versions s = ground arith

    refresh_version-IsSoundLoad :
        (s : Versions) → AllChecked s → IsSoundLoad key (refresh_version is_semver urls env key s)
    unfolding refresh_version
    refresh_version-IsSoundLoad s h =
        let kept : AllChecked (load_summary env key s).0 =
          λ k entry found. h k entry (ap (get k) (sym (load_summary-versions s)) ∙ found) in
        elim (Result-cases (load_summary env key s).1) [
          | inr (error, r) ↦ rw (refresh_version, r) (kept, λ e q. cc)
          | inl (index, r) ↦ elim (Option-cases (find_version key index.value)) [
            | inl missing ↦ rw (refresh_version, r, missing) (kept, λ e q. cc)
            | inr (summary, found) ↦
                rw (refresh_version, r, found)
                  (refresh_platforms-IsSoundLoad (load_summary env key s).0 summary kept)
          ]
        ]

    settle_version-IsSoundLoad :
        (s : Versions) (answer : Loaded)
        → AllChecked s
        → IsSoundLoad key answer
        → IsSoundLoad key (settle_version is_semver urls env key (get key s.versions) answer)
    unfolding settle_version clear_version_failure record_version_failure
    settle_version-IsSoundLoad s (t, ok entry) h (kept, served) = (kept, served)
    settle_version-IsSoundLoad s (t, err error) h (kept, served) =
        elim (Option-cases (get key s.versions)) [
          | inr (entry, found) ↦
              rw (settle_version, found)
                (
                  λ k e q. kept k e (ground arith),
                  λ e q. let same : entry ≡ e = cc in rw (← same) (h key entry found),
                )
          | inl nothing ↦
              rw (settle_version, nothing)
                (λ k e q. kept k e (ground arith), λ e q. kept key e (ground arith))
        ]

    load_persisted_version-AllChecked :
        (s s' : Versions)
        → AllChecked s
        → load_persisted_version is_semver urls env key s ≡ ok s'
        → AllChecked s'
    unfolding load_persisted_version
    load_persisted_version-AllChecked s s' h l = elim (Bool-cases (contains_key key s.versions)) [
      | inl present ↦ let same : s ≡ s' = ground arith in rw (← same) h
      | inr absent ↦ elim (Result-cases (env.read_version key)) [
        | inr (error, r) ↦ absurd (ground arith)
        | inl (none, r) ↦ let same : s ≡ s' = ground arith in rw (← same) h
        | inl (some entry, r) ↦
            elim (Bool-cases (is_ok (validate_version_metadata is_semver urls key entry.value))) [
              | inr invalid ↦ let same : s ≡ s' = ground arith in rw (← same) h
              | inl valid ↦
                  let same : store_version key entry s ≡ s' = ground arith in
                  rw (← same) (
                    store_version-AllChecked key entry s
                      (validate_version_metadata-IsChecked key entry valid) h)
            ]
      ]
    ]

    version_or_stale-IsSoundLoad :
        (s : Versions) → AllChecked s → IsSoundLoad key (version_or_stale is_semver urls env key s)
    unfolding version_or_stale fresh_version
    version_or_stale-IsSoundLoad s h = elim (Option-cases (fresh_version env.first s key)) [
      | inr (entry, f) ↦ rw (version_or_stale, f) (h, λ e q. h key e (ground arith))
      | inl old ↦ elim (Bool-cases (version_refresh_allowed env.first s key)) [
        | inr refused ↦ rw (version_or_stale, old, refused) (h, λ e q. h key e (ground arith))
        | inl allowed ↦
            rw (version_or_stale, old, allowed)
              (settle_version-IsSoundLoad s (refresh_version is_semver urls env key s) h
                (refresh_version-IsSoundLoad s h))
      ]
    ]

    -- With only checked packages in memory, and whatever the registry and the disk answer,
    -- `load_version` leaves only checked packages in memory, and if it answers with an entry, every
    -- platform in it passed the checks for this version: its name, its checksum, its URL.
    pub load_version-IsSoundLoad :
        (s : Versions) → AllChecked s → IsSoundLoad key (load_version is_semver urls env key s)
    unfolding load_version fresh_version
    load_version-IsSoundLoad s h = elim (Option-cases (fresh_version env.first s key)) [
      | inr (entry, f) ↦ rw (load_version, f) (h, λ e q. h key e (ground arith))
      | inl old ↦ elim (Result-cases (load_persisted_version is_semver urls env key s)) [
        | inr (error, l) ↦ rw (load_version, old, l) (h, λ e q. cc)
        | inl (s', l) ↦
            rw (load_version, old, l)
              (version_or_stale-IsSoundLoad s' (load_persisted_version-AllChecked s s' h l))
      ]
    ]

    -- With an entry of the version in memory, however old, `load_version` never fails, whatever the
    -- registry and the disk answer: it returns that entry or the one that `refresh_version` returns.
    pub load_version-available :
        (s : Versions) (cached : VersionEntry)
        → get key s.versions ≡ some cached
        → (entry : VersionEntry) × ((load_version is_semver urls env key s).1 ≡ ok entry)
          × ((entry ≡ cached) ⊎ ((refresh_version is_semver urls env key s).1 ≡ ok entry))
    unfolding load_version fresh_version load_persisted_version version_or_stale settle_version
    load_version-available s cached h =
        elim (Result-cases (refresh_version is_semver urls env key s).1) [
          | inr (error, r) ↦ (cached, ground arith, inl refl)
          | inl (fetched, r) ↦
              elim (Bool-cases (
                fresh cached s.service.freshness s.service.partial_retry env.first.now_epoch
                || not (version_refresh_allowed env.first s key))) [
                  | inl served ↦ (cached, ground arith, inl refl)
                  | inr asked ↦ (fetched, ground arith, inr r)
                ]
        ]
