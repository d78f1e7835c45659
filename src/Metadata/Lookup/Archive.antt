-- ===== src/Metadata/Lookup/Archive.antt =====
-- src/metadata.rs: the package that an archive name is answered with.
use open_tf_mirror.Base.{
  ◌≡◌, refl, Bool, inl, inr, List, [], ◌∷◌, some, none, Str, str_beq, str_beq_iff, Bool-cases,
  Result, ok, Result-cases, All, arith,
}
use open_tf_mirror.Provider
use open_tf_mirror.Provider.{ArchiveName}
use open_tf_mirror.Outbound.Client.{UrlLib}
use open_tf_mirror.Metadata.Types.{PlatformMetadata, MetadataError, VersionKey}
use open_tf_mirror.Metadata.Validate.{provider_key}
use open_tf_mirror.Metadata.Versions.{VersionEntry, VersionEnv, Versions, load_version}
use open_tf_mirror.Metadata.Versions.Served.{
  IsChecked, AllChecked, IsCheckedEntry, load_version-IsSoundLoad,
}
use open_tf_mirror.Metadata.Lookup.{
  or_none, find_archive, version_key, get_version_entry, get_platform_by_archive,
}

find_archive-filename :
    (P : PlatformMetadata → Type 0) (filename : Str) (items : List PlatformMetadata)
    (item : PlatformMetadata)
    → All P items
    → find_archive filename items ≡ some item
    → (item.filename ≡ filename) × P item
unfolding find_archive
find_archive-filename P filename [] item h f = cc
find_archive-filename P filename (i ∷ items) item (p, h) f =
    elim (Bool-cases (str_beq i.filename filename)) [
      | inl same ↦
          let here : i ≡ item = ground arith in
          rw (← here) ((str_beq_iff i.filename filename).0 same, p)
      | inr other ↦ find_archive-filename P filename items item h (ground arith)
    ]

or_none-some :
    (answer : Versions × Result MetadataError VersionEntry) (entry : VersionEntry)
    → (or_none answer).1 ≡ ok (some entry)
    → answer.1 ≡ ok entry
or_none-some answer entry h = ground arith

module _ (is_semver : Str → Bool) (urls : UrlLib) (env : VersionEnv)
    (allowed_registries : List Str) where
  -- The platform has the name that was asked for, and passed the checks for a version of the
  -- provider that the address names, at an allowed registry.
  abbrev pub IsServed : Str → Str → Str → Str → PlatformMetadata → Type 0
  IsServed hostname namespace provider_type filename item =
      (item.filename ≡ filename)
      × (key : VersionKey) × (provider_key allowed_registries hostname namespace provider_type
          ≡ ok key.provider)
      × IsChecked is_semver urls key item

  version_key-provider :
      (hostname namespace provider_type version : Str) (key : VersionKey)
      → version_key is_semver urls env allowed_registries hostname namespace provider_type version
        ≡ ok key
      → provider_key allowed_registries hostname namespace provider_type ≡ ok key.provider
  unfolding version_key
  version_key-provider hostname namespace provider_type version key h = ground arith

  get_version_entry-IsChecked :
      (hostname namespace provider_type version : Str) (s : Versions) (entry : VersionEntry)
      → AllChecked is_semver urls s
      → (get_version_entry is_semver urls env allowed_registries hostname namespace provider_type
          version s).1
        ≡ ok (some entry)
      → (key : VersionKey) × (provider_key allowed_registries hostname namespace provider_type
          ≡ ok key.provider)
        × IsCheckedEntry is_semver urls key entry
  unfolding get_version_entry
  get_version_entry-IsChecked hostname namespace provider_type version s entry h q =
      elim (Result-cases (
        version_key is_semver urls env allowed_registries hostname namespace provider_type
          version)) [
            | inr (error, k) ↦ absurd (ground arith)
            | inl (key, k) ↦
                let answered : (or_none (load_version is_semver urls env key s)).1
                    ≡ ok (some entry) =
                  rw (← q, get_version_entry, k) refl in
                (
                  key,
                  version_key-provider hostname namespace provider_type version key k,
                  (load_version-IsSoundLoad is_semver urls env key s h).1 entry
                      (or_none-some (load_version is_semver urls env key s) entry answered),
                )
          ]

  -- With only checked packages in memory, a package that `get_platform_by_archive` answers with has
  -- the file name that was asked for, belongs to the provider that the address names at an allowed
  -- registry, and passed every check of `validate_package`.
  pub get_platform_by_archive-IsServed :
      (hostname namespace provider_type filename : Str) (s : Versions) (item : PlatformMetadata)
      → AllChecked is_semver urls s
      → (get_platform_by_archive is_semver urls env allowed_registries hostname namespace
          provider_type filename s).1
        ≡ ok (some item)
      → IsServed hostname namespace provider_type filename item
  unfolding get_platform_by_archive
  get_platform_by_archive-IsServed hostname namespace provider_type filename s item h q =
      elim (Result-cases (Provider.parse is_semver provider_type filename)) [
        | inr (error, a) ↦ absurd (ground arith)
        | inl (archive, a) ↦
            elim (Result-cases
              (get_version_entry is_semver urls env allowed_registries hostname namespace
                provider_type archive.version s).1) [
                  | inr (error, r) ↦ absurd (ground arith)
                  | inl (none, r) ↦ absurd (ground arith)
                  | inl (some entry, r) ↦
                      let (key, named, checked) =
                        get_version_entry-IsChecked hostname namespace provider_type archive.version
                          s entry h r in
                      let found : find_archive filename entry.value.platforms ≡ some item =
                        ground arith in
                      let (same, passed) =
                        find_archive-filename (IsChecked is_semver urls key) filename
                          entry.value.platforms item checked found in
                      (same, key, named, passed)
                ]
      ]
