-- ===== src/Storage/Fetch/Verified.antt =====
-- src/storage.rs: what `download` and `load_or_fetch` answer.
use open_tf_mirror.Base.{
  ℕ, ◌+◌, ◌<◌, ◌≡◌, ◌≢◌, inl, inr, refl, Bool, none, Option-cases, Bool-cases, Str, str_eq, Result,
  ok, err, arith, u64_max,
}
use open_tf_mirror.Base.Map.{get, get-remove_self}
use open_tf_mirror.Outbound.Client.{UrlLib, Response, OutboundClient, OutboundError}
use open_tf_mirror.Metadata.Types.{PlatformMetadata}
use open_tf_mirror.Storage.{ProviderArchiveKey}
use open_tf_mirror.Storage.Disk.{Io, Storage}
use open_tf_mirror.Storage.Disk.Identified.{HasChecksum, IsIdentified, IsNew}
use open_tf_mirror.Storage.Fetch.{
  clean_up, Done, fill_temp, settle_download, download, join_path, archive_dir, temp_name,
}
use open_tf_mirror.Storage.Fetch.Atomic.{
  IsAtomic, clean_up-IsAtomic, fill_temp-IsAtomic, IsAllOrNothing, settle_download-disk,
  settle_download-IsAllOrNothing,
}
use open_tf_mirror.Storage.Fetch.Table.{settle_download-IsIdentified}

clean_up-swept :
    (temp : Str) (done : Done)
    → (done.1 ≡ ok tt → get temp done.0 ≡ none)
    → get temp (clean_up temp done).0 ≡ none
unfolding clean_up
clean_up-swept temp (disk, ok u) h = h refl
clean_up-swept temp (disk, err error) h = get-remove_self temp disk

module _ (is_semver : Str → Bool) (sha256_hex : Str → Str) (is_error_status : ℕ → Bool)
    (urls : UrlLib) (client : OutboundClient)
    (send : urls.Url → Result OutboundError Response) where
  -- The paths of a download: the temporary file, and whether it is another one than the archive's.
  abbrev pub temp_path : ProviderArchiveKey → Storage → Str
  temp_path key s =
      join_path (archive_dir s.root key) (temp_name key.filename s.process_id s.sequence)

  filled :
      (call : Io) (key : ProviderArchiveKey) (expected destination : Str) (s : Storage)
      (url : urls.Url)
      → temp_path key s ≢ destination
      → s.max_archive_bytes < u64_max
      → IsAtomic sha256_hex call.identity s.max_archive_bytes expected
          (temp_path key s)
          destination
          s.disk
          (clean_up (temp_path key s) (
            fill_temp is_semver sha256_hex is_error_status urls client send call s.max_archive_bytes
              expected
              (temp_path key s)
              destination
              url
              s.disk))
  filled call key expected destination s url distinct bound =
      clean_up-IsAtomic sha256_hex call.identity s.max_archive_bytes expected (temp_path key s)
        destination distinct s.disk _
        (fill_temp-IsAtomic sha256_hex call s.max_archive_bytes expected (temp_path key s)
          destination is_semver is_error_status urls client send distinct bound url s.disk)

  -- However a download ends, at the destination stands the whole archive with the right hash, at most
  -- as long as the limit, or what stood there before; and no file but the temporary one has changed
  -- otherwise. The limit is below 2^64 - 1, where the count of the bytes stops.
  pub download-IsAllOrNothing :
      (call : Io) (key : ProviderArchiveKey) (metadata : PlatformMetadata)
      (expected destination : Str) (s : Storage)
      → temp_path key s ≢ destination
      → s.max_archive_bytes < u64_max
      → IsAllOrNothing sha256_hex call.identity s.max_archive_bytes expected
          (temp_path key s)
          destination
          s
          (download is_semver sha256_hex is_error_status urls client send call key metadata expected
            destination s).0
  unfolding download
  download-IsAllOrNothing call key metadata expected destination s distinct bound =
      elim (Option-cases (urls.parse metadata.download_url)) [
        | inl unreadable ↦ rw (download, unreadable) (λ path _ _. refl, inl refl)
        | inr (url, parsed) ↦ elim (Bool-cases call.create_dir_fails) [
          | inl fails ↦ rw (download, parsed, fails) (λ path _ _. refl, inl refl)
          | inr made ↦
              simp (download, parsed, made)
                (settle_download-IsAllOrNothing sha256_hex call s.max_archive_bytes expected
                  (temp_path key s) destination is_semver is_error_status urls client send distinct
                  bound (record s { sequence = s.sequence + 1 }) _
                  (filled call key expected destination s url distinct bound))
        ]
      ]

  pub download-IsIdentified :
      (call : Io) (key : ProviderArchiveKey) (metadata : PlatformMetadata)
      (expected destination : Str) (s : Storage)
      → temp_path key s ≢ destination
      → s.max_archive_bytes < u64_max
      → IsNew call.identity s
      → IsIdentified sha256_hex s
      → IsIdentified sha256_hex
          (download is_semver sha256_hex is_error_status urls client send call key metadata expected
            destination s).0
  unfolding download
  download-IsIdentified call key metadata expected destination s distinct bound new i =
      elim (Option-cases (urls.parse metadata.download_url)) [
        | inl unreadable ↦ rw (download, unreadable) i
        | inr (url, parsed) ↦ elim (Bool-cases call.create_dir_fails) [
          | inl fails ↦ rw (download, parsed, fails) i
          | inr made ↦
              simp (download, parsed, made)
                (settle_download-IsIdentified sha256_hex call s.max_archive_bytes expected
                  (temp_path key s) destination is_semver is_error_status urls client send distinct
                  bound (record s { sequence = s.sequence + 1 }) _ i
                  (record { unknown = new.unknown; unused = new.unused })
                  (filled call key expected destination s url distinct bound)
                  (clean_up-swept (temp_path key s) _ (λ q.
                    ((fill_temp-IsAtomic sha256_hex call s.max_archive_bytes expected
                        (temp_path key s) destination is_semver is_error_status urls client send
                        distinct bound url s.disk).published
                      q).1)))
        ]
      ]

  settle_download-HasChecksum :
      (call : Io) (max_bytes : ℕ) (expected temp destination : Str) (s : Storage) (done : Done)
      {u : Unit {0}}
      → IsAtomic sha256_hex call.identity max_bytes expected temp destination s.disk done
      → (settle_download is_semver sha256_hex is_error_status urls client send call destination
          expected s done).1
        ≡ ok u
      → HasChecksum sha256_hex done.0 destination expected
  unfolding settle_download
  settle_download-HasChecksum call max_bytes expected temp destination s (disk, err error) h q = cc
  settle_download-HasChecksum call max_bytes expected temp destination s (disk, ok v) h q =
      let ((entry, placed, regular, _, hashed, _), _) = h.published refl in
      (entry, placed, regular, hashed)

  pub download-HasChecksum :
      (call : Io) (key : ProviderArchiveKey) (metadata : PlatformMetadata)
      (expected destination : Str) (s : Storage) {u : Unit {0}}
      → temp_path key s ≢ destination
      → s.max_archive_bytes < u64_max
      → (download is_semver sha256_hex is_error_status urls client send call key metadata expected
          destination s).1
        ≡ ok u
      → HasChecksum sha256_hex
          (download is_semver sha256_hex is_error_status urls client send call key metadata expected
            destination s).0.disk
          destination
          expected
  unfolding download
  download-HasChecksum call key metadata expected destination s distinct bound q =
      elim (Option-cases (urls.parse metadata.download_url)) [
        | inl unreadable ↦ absurd (ground arith)
        | inr (url, parsed) ↦ elim (Bool-cases call.create_dir_fails) [
          | inl fails ↦ absurd (ground arith)
          | inr made ↦
              let done = filled call key expected destination s url distinct bound in
              let asked = record s { sequence = s.sequence + 1 } in
              simp (download, parsed, made)
                (rw
                  (settle_download-disk sha256_hex call s.max_archive_bytes expected
                    (temp_path key s) destination is_semver is_error_status urls client send
                    distinct bound asked _)
                  (settle_download-HasChecksum call s.max_archive_bytes expected (temp_path key s)
                    destination asked _ done (simp (download, parsed, made) at q)))
        ]
      ]
