-- ===== src/Storage/Fetch/Load.antt =====
-- src/storage.rs: `load_or_fetch` from its checks on. The temporary file is never the archive, since
-- the name of an archive begins with a letter.
use open_tf_mirror.Base.{
  ℕ, ◌<◌, ◌≡◌, ◌≢◌, inl, inr, ◌∙◌, ap, Bool, true, [], ◌∷◌, ◌++◌, Option-cases, Str, str_eq,
  strip_prefix, strip_prefix_sound, Result, ok, Result-cases, is_ok, arith, u64_max,
}
use open_tf_mirror.Provider
use open_tf_mirror.Provider.{type_prefix, parse_remainder}
use open_tf_mirror.Outbound.Client.{UrlLib, Response, OutboundClient, OutboundError}
use open_tf_mirror.Metadata.Types.{PlatformMetadata}
use open_tf_mirror.Storage.{ProviderArchiveKey, validate_key}
use open_tf_mirror.Storage.Disk.{Io, Storage}
use open_tf_mirror.Storage.Disk.Identified.{ReadsAll, HasChecksum, IsIdentified, IsNew}
use open_tf_mirror.Storage.Fetch.{
  join_path, archive_dir, archive_path, temp_name, check_request, load_or_fetch, expected_checksum,
}
use open_tf_mirror.Storage.Fetch.Verified.{temp_path}
use open_tf_mirror.Storage.Fetch.Archive.{fetch_valid-IsSoundFetch}

append_left_cancel : (xs ys zs : Str) → xs ++ ys ≡ xs ++ zs → ys ≡ zs
append_left_cancel [] ys zs h = h
append_left_cancel (x ∷ xs) ys zs h = append_left_cancel xs ys zs (cc)

parse-first :
    (is_semver : Str → Bool) (route_type filename : Str)
    → is_ok (Provider.parse is_semver route_type filename) ≡ true
    → (rest : Str) × (filename ≡ b't' ∷ rest)
unfolding Provider.parse
parse-first is_semver route_type filename h =
    elim (Option-cases (strip_prefix (type_prefix route_type) filename)) [
      | inl foreign ↦ absurd (ground arith)
      | inr (rest, stripped) ↦
          (_, strip_prefix_sound (type_prefix route_type) filename rest stripped)
    ]

join_path-distinct : (base x y : Str) → join_path base (b'.' ∷ x) ≢ join_path base (b't' ∷ y)
unfolding join_path
join_path-distinct base x y same =
    let apart : b'/' ∷ b'.' ∷ x ≡ b'/' ∷ b't' ∷ y = append_left_cancel base _ _ same in ground arith

module _ (is_semver : Str → Bool) (sha256_hex : Str → Str) (is_error_status : ℕ → Bool)
    (urls : UrlLib) (client : OutboundClient)
    (send : urls.Url → Result OutboundError Response) where
  check_request-distinct :
      (key : ProviderArchiveKey) (metadata : PlatformMetadata) (expected : Str) (s : Storage)
      → check_request is_semver sha256_hex is_error_status urls client send key metadata
        ≡ ok expected
      → temp_path is_semver sha256_hex is_error_status urls client send key s
        ≢ archive_path s.root key
  unfolding check_request validate_key archive_path temp_name
  check_request-distinct key metadata expected s h same =
      let named : is_ok (Provider.parse is_semver key.provider_type key.filename) ≡ true =
        ground arith in
      let (rest, begins) = parse-first is_semver key.provider_type key.filename named in
      join_path-distinct (archive_dir s.root key) _ rest
        (same ∙ ap (join_path (archive_dir s.root key)) begins)

  check_request-checksum :
      (key : ProviderArchiveKey) (metadata : PlatformMetadata) (expected : Str)
      → check_request is_semver sha256_hex is_error_status urls client send key metadata
        ≡ ok expected
      → expected_checksum metadata ≡ ok expected
  unfolding check_request validate_key
  check_request-checksum key metadata expected h = ground arith

  -- The checksum is the one that the metadata asks for, and such a file stands at the path.
  abbrev pub IsArchive : Storage → PlatformMetadata → Str → Type 0
  IsArchive s metadata path =
      (expected : Str) × (expected_checksum metadata ≡ ok expected)
      × HasChecksum sha256_hex s.disk path expected

  load_or_fetch_sound :
      (first again : Io) (key : ProviderArchiveKey) (metadata : PlatformMetadata) (s : Storage)
      → ReadsAll first
      → ReadsAll again
      → IsNew again.identity s
      → s.max_archive_bytes < u64_max
      → IsIdentified sha256_hex s
      → IsIdentified sha256_hex
          (load_or_fetch is_semver sha256_hex is_error_status urls client send first again key
            metadata s).0
        × ((path : Str)
            → (load_or_fetch is_semver sha256_hex is_error_status urls client send first again key
                metadata s).1
              ≡ ok path
            → IsArchive
                (load_or_fetch is_semver sha256_hex is_error_status urls client send first again key
                  metadata s).0
                metadata
                path)
  unfolding load_or_fetch
  load_or_fetch_sound first again key metadata s reads reads' new bound i =
      let check =
        check_request is_semver sha256_hex is_error_status urls client send key metadata in
      elim (Result-cases check) [
        | inr (error, e) ↦ rw (load_or_fetch, e) (i, λ path q. cc)
        | inl (expected, e) ↦
            let (kept, found) =
              fetch_valid-IsSoundFetch is_semver sha256_hex is_error_status urls client send first
                again key metadata expected s reads
                (record {
                  reads = reads';
                  new = new;
                  distinct = check_request-distinct key metadata expected s e;
                  bound = bound;
                })
                i in
            rw (load_or_fetch, e)
              (
                kept,
                λ path q. (expected, check_request-checksum key metadata expected e, found path q),
              )
      ]

  -- Where the files that the table still recognises have their recorded hash, `load_or_fetch` keeps
  -- that so, however the calls of the file system and the download turn out. A file that it makes has
  -- an identity of its own, and the limit is below 2^64 - 1.
  pub load_or_fetch-IsIdentified :
      (first again : Io) (key : ProviderArchiveKey) (metadata : PlatformMetadata) (s : Storage)
      → ReadsAll first
      → ReadsAll again
      → IsNew again.identity s
      → s.max_archive_bytes < u64_max
      → IsIdentified sha256_hex s
      → IsIdentified sha256_hex
          (load_or_fetch is_semver sha256_hex is_error_status urls client send first again key
            metadata s).0
  load_or_fetch-IsIdentified first again key metadata s reads reads' new bound i =
      (load_or_fetch_sound first again key metadata s reads reads' new bound i).0

  -- Under the same conditions a path that `load_or_fetch` answers leads to a regular file whose hash
  -- is the checksum that the metadata asks for.
  pub load_or_fetch-IsArchive :
      (first again : Io) (key : ProviderArchiveKey) (metadata : PlatformMetadata) (s : Storage)
      (path : Str)
      → ReadsAll first
      → ReadsAll again
      → IsNew again.identity s
      → s.max_archive_bytes < u64_max
      → IsIdentified sha256_hex s
      → (load_or_fetch is_semver sha256_hex is_error_status urls client send first again key
          metadata s).1
        ≡ ok path
      → IsArchive
          (load_or_fetch is_semver sha256_hex is_error_status urls client send first again key
            metadata s).0
          metadata
          path
  load_or_fetch-IsArchive first again key metadata s path reads reads' new bound i q =
      (load_or_fetch_sound first again key metadata s reads reads' new bound i).1 path q
