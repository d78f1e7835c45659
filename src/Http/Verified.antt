-- ===== src/Http/Verified.antt =====
-- src/http_api.rs: what a client that downloads an archive receives.
use open_tf_mirror.Base.{
  ◌<◌, ◌≡◌, ◌≢◌, inl, inr, some, none, Bool-cases, Str, str_eq, str_beq_iff, ok, Result-cases,
  is_ok, arith, u64_max,
}
use open_tf_mirror.Provider
use open_tf_mirror.Metadata.Types.{PlatformMetadata, MetadataError}
use open_tf_mirror.Metadata.Versions.Served.{AllChecked}
use open_tf_mirror.Metadata.Lookup.{get_platform_by_archive}
use open_tf_mirror.Metadata.Lookup.Archive.{IsServed, get_platform_by_archive-IsServed}
use open_tf_mirror.Storage.{ProviderArchiveKey}
use open_tf_mirror.Storage.Disk.{Storage}
use open_tf_mirror.Storage.Disk.Identified.{ReadsAll, IsIdentified, IsNew}
use open_tf_mirror.Storage.Fetch.{load_or_fetch, expected_checksum}
use open_tf_mirror.Storage.Fetch.Load.{IsArchive, load_or_fetch-IsArchive}
use open_tf_mirror.Http.Response.{Body, HttpResponse, status_only, metadata_error_response}
use open_tf_mirror.Http.Response
use open_tf_mirror.Http.Handlers.{
  Deps, is_semver, Call, App, archive_response, open_archive, send_archive, answer_platform,
  download_provider_archive,
}

-- A true table of verified files, an identity for a new file that no file has, and files that are
-- read to their end.
pub record IsStorageReady (deps : Deps) (call : Call) (s : Storage) : Type 0 where
  pub identified : IsIdentified deps.sha256_hex s
  pub new : IsNew call.again.identity s
  pub bound : s.max_archive_bytes < u64_max
  pub reads_first : ReadsAll call.first
  pub reads_again : ReadsAll call.again

module _ (deps : Deps) (call : Call) where
  -- The body is the bytes of a file with this checksum.
  abbrev pub HasBody : PlatformMetadata → HttpResponse → Type 0
  HasBody item response =
      (content : Str) × (response.body ≡ Response.stream content)
      × (expected_checksum item ≡ ok (deps.sha256_hex content))

  metadata_error_response-ne-200 :
      (error : MetadataError) → (metadata_error_response error).status ≢ 200
  unfolding metadata_error_response
  metadata_error_response-ne-200 error h = ground arith

  open_archive-HasBody :
      (item : PlatformMetadata) (archive path : Str) (s : Storage)
      → IsArchive
          (is_semver deps)
          deps.sha256_hex
          deps.is_error_status
          deps.urls
          deps.client
          deps.send
          s
          item
          path
      → (open_archive deps call archive path s.disk).status ≡ 200
      → HasBody item (open_archive deps call archive path s.disk)
  unfolding open_archive archive_response
  open_archive-HasBody item archive path s (expected, asked, (entry, found, regular, hashed)) h =
      let checksum : expected_checksum item ≡ ok (deps.sha256_hex entry.content) =
        rw hashed asked in
      elim (Bool-cases call.open_fails) [
        | inl fails ↦ absurd (ground arith)
        | inr opened ↦ elim (Bool-cases call.length_fails) [
          | inl fails ↦ absurd (ground arith)
          | inr known ↦ (entry.content, ground arith, checksum)
        ]
      ]

  send_archive-HasBody :
      (archive : Str) (item : PlatformMetadata) (key : ProviderArchiveKey) (s : App)
      → IsStorageReady deps call s.provider_storage
      → (send_archive deps call archive item key s).1.status ≡ 200
      → HasBody item (send_archive deps call archive item key s).1
  unfolding send_archive
  send_archive-HasBody archive item key s ready h =
      let loaded =
        load_or_fetch (is_semver deps) deps.sha256_hex deps.is_error_status deps.urls deps.client
          deps.send call.first call.again key item s.provider_storage in
      elim (Result-cases loaded.1) [
        | inr (error, e) ↦ absurd (ground arith)
        | inl (path, e) ↦
            let archived =
              load_or_fetch-IsArchive (is_semver deps) deps.sha256_hex deps.is_error_status
                deps.urls deps.client deps.send call.first call.again key item s.provider_storage
                path ready.reads_first ready.reads_again ready.new ready.bound ready.identified e in
            rw (send_archive, e)
              (open_archive-HasBody item archive path loaded.0 archived (rw (send_archive, e) at h))
      ]

  -- What the client was sent: bytes with the checksum of a package that has the name, belongs to the
  -- provider and passed its checks.
  abbrev pub IsVerifiedArchive : Str → Str → Str → Str → HttpResponse → Type 0
  IsVerifiedArchive hostname namespace provider_type archive response =
      (item : PlatformMetadata) × IsServed (is_semver deps) deps.urls call.metadata
        deps.allowed_registries hostname namespace provider_type archive item
      × HasBody item response

  -- From a state with checked packages and a true table of verified files: if a request for an archive
  -- is answered with status 200, then its body is the bytes of a file whose SHA-256 is the checksum of
  -- a package with that file name, which belongs to the provider at an allowed registry and passed
  -- every check; whatever the registry, the network and the disk did meanwhile.
  pub download_provider_archive-IsVerifiedArchive :
      (hostname namespace provider_type archive : Str) (s : App)
      → AllChecked (is_semver deps) deps.urls s.metadata
      → IsStorageReady deps call s.provider_storage
      → (download_provider_archive deps call hostname namespace provider_type archive s).1.status
        ≡ 200
      → IsVerifiedArchive hostname namespace provider_type archive
          (download_provider_archive deps call hostname namespace provider_type archive s).1
  unfolding download_provider_archive answer_platform
  download_provider_archive-IsVerifiedArchive hostname namespace provider_type archive s checked
        ready h =
      elim (Bool-cases (is_ok (Provider.parse (is_semver deps) provider_type archive))) [
        | inr unnamed ↦ absurd (ground arith)
        | inl named ↦
            let looked =
              get_platform_by_archive (is_semver deps) deps.urls call.metadata
                deps.allowed_registries hostname namespace provider_type archive s.metadata in
            elim (Result-cases looked.1) [
              | inr (error, e) ↦ absurd (
                  metadata_error_response-ne-200 error
                    (rw (download_provider_archive, named, e, answer_platform) at h))
              | inl (none, e) ↦ absurd (ground arith)
              | inl (some item, e) ↦
                  let served =
                    get_platform_by_archive-IsServed (is_semver deps) deps.urls call.metadata
                      deps.allowed_registries hostname namespace provider_type archive s.metadata
                      item checked e in
                  let same = (str_beq_iff item.filename archive).1 served.0 in
                  (
                    item,
                    served,
                    rw (download_provider_archive, named, e, answer_platform, same)
                        (send_archive-HasBody archive item _ (record s { metadata = looked.0 })
                          ready
                          (rw (download_provider_archive, named, e, answer_platform, same) at h)),
                  )
            ]
      ]
