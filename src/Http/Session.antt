-- ===== src/Http/Session.antt =====
-- src/http_api.rs: the provider routes of `build_router_with_options`, and a server over many requests.
use open_tf_mirror.Base.{
  ◌<◌, ◌≡◌, refl, inl, inr, [], Option, some, none, Option-cases, Bool-cases, Str, str_eq, str_beq,
  codes, Result, ok, err, Result-cases, is_ok, u64_max, arith,
}
use open_tf_mirror.Base.Map.{get}
use open_tf_mirror.Provider
use open_tf_mirror.Metadata.Types.{PlatformMetadata, MetadataError}
use open_tf_mirror.Metadata.Versions.{Versions, load_version}
use open_tf_mirror.Metadata.Versions.Served.{AllChecked, load_version-IsSoundLoad}
use open_tf_mirror.Metadata.Lookup.{
  or_none, version_key, get_version_entry, get_version, get_platform_by_archive,
}
use open_tf_mirror.Storage.{ProviderArchiveKey}
use open_tf_mirror.Storage.Disk.{Storage}
use open_tf_mirror.Storage.Disk.Identified.{ReadsAll, IsIdentified, IsNew}
use open_tf_mirror.Storage.Fetch.Load.{load_or_fetch-IsIdentified}
use open_tf_mirror.Http.Handlers.{
  Deps, is_semver, Call, App, Reply, action_version, get_index, get_archives, get_provider_metadata,
  send_archive, answer_platform, download_provider_archive, sync_providers,
}
use open_tf_mirror.Http.Verified.{IsVerifiedArchive, download_provider_archive-IsVerifiedArchive}

-- The routes with their segments.
pub data ProviderRoute : Type 0 where
  action : (hostname namespace provider_type name : Str) → ProviderRoute
  download : (hostname namespace provider_type archive : Str) → ProviderRoute
  sync : ProviderRoute

unfoldable pub serve : Deps → Call → ProviderRoute → App → Reply
serve deps call (action hostname namespace provider_type name) s =
    get_provider_metadata deps call hostname namespace provider_type name s
serve deps call (download hostname namespace provider_type archive) s =
    download_provider_archive deps call hostname namespace provider_type archive s
serve deps call sync s = sync_providers deps call s

-- What a request may rely on: files are read to their end, a new file gets an identity that neither
-- a file nor an entry of the table has, and the limit is not the largest number of 64 bits.
pub record IsOrderly (call : Call) (s : Storage) : Type 0 where
  pub new : IsNew call.again.identity s
  pub bound : s.max_archive_bytes < u64_max
  pub reads_first : ReadsAll call.first
  pub reads_again : ReadsAll call.again

-- A server that starts with nothing in memory, over any files, and answers requests.
pub data Session (deps : Deps) : App → Type 0 where
  start : (s : App) → s.metadata.versions ≡ [] → s.provider_storage.verified ≡ [] → Session deps s
  request :
      (call : Call) (route : ProviderRoute) (s : App)
      → Session deps s
      → IsOrderly call s.provider_storage
      → Session deps (serve deps call route s).0

or_none-state :
    {A : Type 0} (answer : Versions × Result MetadataError A) → (or_none answer).0 ≡ answer.0
or_none-state (s, ok a) = refl
or_none-state (s, err error) = ground arith

module _ (deps : Deps) (call : Call) where
  abbrev Checked : Versions → Type 0
  Checked s = AllChecked (is_semver deps) deps.urls s

  get_version_entry-AllChecked :
      (hostname namespace provider_type version : Str) (s : Versions)
      → Checked s
      → Checked
          (get_version_entry
            (is_semver deps)
            deps.urls
            call.metadata
            deps.allowed_registries
            hostname
            namespace
            provider_type
            version
            s).0
  unfolding get_version_entry
  get_version_entry-AllChecked hostname namespace provider_type version s h =
      elim (Result-cases (
        version_key (is_semver deps) deps.urls call.metadata deps.allowed_registries hostname
          namespace provider_type version)) [
            | inr (error, k) ↦ rw (get_version_entry, k) h
            | inl (key, k) ↦
                let loaded = load_version (is_semver deps) deps.urls call.metadata key s in
                rw (get_version_entry, k, or_none-state loaded)
                  (load_version-IsSoundLoad (is_semver deps) deps.urls call.metadata key s h).0
          ]

  get_platform_by_archive-AllChecked :
      (hostname namespace provider_type archive : Str) (s : Versions)
      → Checked s
      → Checked
          (get_platform_by_archive
            (is_semver deps)
            deps.urls
            call.metadata
            deps.allowed_registries
            hostname
            namespace
            provider_type
            archive
            s).0
  unfolding get_platform_by_archive
  get_platform_by_archive-AllChecked hostname namespace provider_type archive s h =
      elim (Result-cases (Provider.parse (is_semver deps) provider_type archive)) [
        | inr (error, a) ↦ rw (get_platform_by_archive, a) h
        | inl (name, a) ↦
            rw (get_platform_by_archive, a)
              (get_version_entry-AllChecked hostname namespace provider_type name.version s h)
      ]

  -- Checked packages in memory, and a true table of verified files.
  abbrev pub IsSound : App → Type 0
  IsSound s = Checked s.metadata × IsIdentified deps.sha256_hex s.provider_storage

  get_provider_metadata-IsSound :
      (hostname namespace provider_type name : Str) (s : App)
      → IsSound s
      → IsSound (get_provider_metadata deps call hostname namespace provider_type name s).0
  unfolding get_provider_metadata get_index get_archives get_version
  get_provider_metadata-IsSound hostname namespace provider_type name s (h, i) =
      elim (Option-cases (action_version deps call name)) [
        | inl bad ↦ rw (get_provider_metadata, bad) (h, i)
        | inr (version, named) ↦ elim (Bool-cases (str_beq version (codes "index"))) [
          | inl index ↦ rw (get_provider_metadata, named, index) (h, i)
          | inr other ↦
              rw (get_provider_metadata, named, other)
                (
                  get_version_entry-AllChecked hostname namespace provider_type version s.metadata
                      h,
                  i,
                )
        ]
      ]

  send_archive-IsSound :
      (archive : Str) (item : PlatformMetadata) (key : ProviderArchiveKey) (s : App)
      → IsOrderly call s.provider_storage
      → IsSound s
      → IsSound (send_archive deps call archive item key s).0
  unfolding send_archive
  send_archive-IsSound archive item key s o (h, i) = (
    h,
    load_or_fetch-IsIdentified (is_semver deps) deps.sha256_hex deps.is_error_status deps.urls
        deps.client deps.send call.first call.again key item s.provider_storage o.reads_first
        o.reads_again o.new o.bound i,
  )

  answer_platform-IsSound :
      (hostname namespace provider_type archive : Str) (s : App)
      (result : Result MetadataError (Option PlatformMetadata))
      → IsOrderly call s.provider_storage
      → IsSound s
      → IsSound (answer_platform deps call hostname namespace provider_type archive (s, result)).0
  unfolding answer_platform
  answer_platform-IsSound hostname namespace provider_type archive s (err error) o h = h
  answer_platform-IsSound hostname namespace provider_type archive s (ok none) o h = h
  answer_platform-IsSound hostname namespace provider_type archive s (ok (some item)) o h =
      elim (Bool-cases (str_beq item.filename archive)) [
        | inr other ↦ rw (answer_platform, other) h
        | inl same ↦ rw (answer_platform, same) (send_archive-IsSound archive item _ s o h)
      ]

  serve-IsSound :
      (route : ProviderRoute) (s : App)
      → IsOrderly call s.provider_storage
      → IsSound s
      → IsSound (serve deps call route s).0
  unfolding serve sync_providers download_provider_archive
  serve-IsSound (action hostname namespace provider_type name) s o h =
      get_provider_metadata-IsSound hostname namespace provider_type name s h
  serve-IsSound sync s o h = h
  serve-IsSound (download hostname namespace provider_type archive) s o (h, i) =
      elim (Bool-cases (is_ok (Provider.parse (is_semver deps) provider_type archive))) [
        | inr unnamed ↦ rw (serve, download_provider_archive, unnamed) (h, i)
        | inl named ↦
            rw (serve, download_provider_archive, named)
              (answer_platform-IsSound hostname namespace provider_type archive _ _ o (
                get_platform_by_archive-AllChecked hostname namespace provider_type archive
                    s.metadata h,
                i,
              ))
      ]

module _ (deps : Deps) where
  Session-IsSound : (call : Call) (s : App) → Session deps s → IsSound deps call s
  unfolding get
  Session-IsSound call s (start _ no_versions no_files) =
      (λ k entry h. absurd (ground arith), λ path file entry h d e. absurd (ground arith))
  Session-IsSound call s (request earlier route before run o) =
      serve-IsSound deps earlier route before o (Session-IsSound earlier before run)

  -- A server that starts with empty tables, over whatever files are on its disk, and has answered any
  -- requests: if it answers one for an archive with status 200, then the body is the bytes of a file
  -- whose SHA-256 is the checksum of a package with that file name, which belongs to the provider at an
  -- allowed registry and passed every check. In each request files are read to their end, a new
  -- file has an identity of its own, and the limit on a file is below 2^64 - 1.
  pub Session-IsVerifiedArchive :
      (call : Call) (hostname namespace provider_type archive : Str) (s : App)
      → Session deps s
      → IsOrderly call s.provider_storage
      → (serve deps call (download hostname namespace provider_type archive) s).1.status ≡ 200
      → IsVerifiedArchive deps call hostname namespace provider_type archive
          (serve deps call (download hostname namespace provider_type archive) s).1
  unfolding serve
  Session-IsVerifiedArchive call hostname namespace provider_type archive s run o h =
      let (checked, identified) = Session-IsSound call s run in
      download_provider_archive-IsVerifiedArchive deps call hostname namespace provider_type archive
        s checked
        (record {
          identified = identified;
          new = o.new;
          bound = o.bound;
          reads_first = o.reads_first;
          reads_again = o.reads_again;
        })
        h
