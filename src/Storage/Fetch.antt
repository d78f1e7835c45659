-- ===== src/Storage/Fetch.antt =====
-- src/storage.rs: `download`, `locked_load_or_fetch` and `load_or_fetch`. The wait for one of the
-- eight permits of a download is left out, and the lock of a key is held through the operation.
pub mod Copy
pub mod Atomic
pub mod Table
pub mod Verified
pub mod Archive
pub mod Load
use open_tf_mirror.Base.{
  ℕ, suc, ◌+◌, ◌≡◌, Bool, true, false, not, ◌&&◌, ◌||◌, ◌==◌, ltb, List, [], ◌∷◌, ◌++◌, map, all,
  length, is_empty, Option, some, none, Str, str_eq, str_beq, codes, is_ascii_uppercase,
  is_ascii_hexdigit, Result, ok, err, ◌>>=◌, ◌>>◌, guard, ok_or, if◌then◌else◌, saturating_add,
  decimal,
}
use open_tf_mirror.Base.Map.{Map, get, insert, remove, contains_key}
use open_tf_mirror.Outbound.Client
use open_tf_mirror.Outbound.Client.{is_longer, UrlLib, Response, OutboundClient, OutboundError}
use open_tf_mirror.Metadata.Types.{PlatformMetadata}
use open_tf_mirror.Metadata.Validate.{is_checksum}
use open_tf_mirror.Storage.{
  ProviderArchiveKey, FileIdentity, ProviderStorageError, invalid_key, missing_checksum,
  checksum_mismatch, too_large, request, outbound, io, validate_key, record_verified,
}
use open_tf_mirror.Storage.Disk.{
  Entry, Disk, Io, Storage, symlink_metadata, archive_matches_checksum,
}

abbrev to_ascii_lowercase : ℕ → ℕ
to_ascii_lowercase byte = if is_ascii_uppercase byte then byte + 32 else byte

unfoldable pub expected_checksum : PlatformMetadata → Result ProviderStorageError Str
expected_checksum metadata = do
  checksum ← ok_or metadata.shasum missing_checksum
  guard (is_checksum (some checksum)) missing_checksum
  ok (map to_ascii_lowercase checksum)

abbrev is_absolute : Str → Bool
is_absolute [] = false
is_absolute (c ∷ path) = c == b'/'

-- `Path::join`, where the first part does not end in a separator.
unfoldable pub join_path : Str → Str → Str
join_path base path = if is_absolute path then path else (base ++ b'/' ∷ path)

unfoldable pub archive_dir : Str → ProviderArchiveKey → Str
archive_dir root key =
    join_path
      (join_path (join_path (join_path root (codes "providers")) key.hostname) key.namespace)
      key.provider_type

unfoldable pub archive_path : Str → ProviderArchiveKey → Str
archive_path root key = join_path (archive_dir root key) key.filename

abbrev pub bundled_path : Option Str → ProviderArchiveKey → Option Str
bundled_path none key = none
bundled_path (some root) key = some (
    join_path (join_path (join_path (join_path root key.hostname) key.namespace) key.provider_type)
      key.filename)

-- `.{filename}-{pid}-{sequence}.tmp`
unfoldable pub temp_name : Str → (process_id sequence : ℕ) → Str
temp_name filename process_id sequence =
    b'.' ∷ filename ++ b'-' ∷ decimal process_id ++ b'-' ∷ decimal sequence ++ codes ".tmp"

abbrev pub new_file : FileIdentity → Entry
new_file identity = record { regular = true; identity = identity; content = [] }

-- `write_all` at the end of the file
unfoldable pub append_file : Str → Str → Disk → Disk
append_file path chunk disk = elim (get path disk) [
  | none ↦ disk
  | some entry ↦ insert path (record entry { content = entry.content ++ chunk }) disk
]

unfoldable pub rename : Str → Str → Disk → Disk
rename source target disk = elim (get source disk) [
  | none ↦ disk
  | some entry ↦ insert target entry (remove source disk)
]

-- The loop over the body, with the bytes that the hasher was given.
unfoldable pub copy_chunks :
    Io
    → (max_bytes total : ℕ) → (temp hashed : Str) → List (Option Str)
    → Disk
    → Disk × Result ProviderStorageError Str
copy_chunks call max_bytes total temp hashed [] disk = (disk, ok hashed)
copy_chunks call max_bytes total temp hashed (none ∷ chunks) disk = (disk, err request)
copy_chunks call max_bytes total temp hashed (some chunk ∷ chunks) disk =
    let total' = saturating_add total (length chunk) in
    let copied =
      copy_chunks call max_bytes total' temp (hashed ++ chunk) chunks
        (append_file temp chunk disk) in
    if ltb max_bytes total'
    then (disk, err too_large)
    else if call.write_fails total'
    then (disk, err io)
    else copied

-- `TempCleanup`, which is disarmed after the rename: an error before that removes the file.
unfoldable pub clean_up :
    {A : Type 0} → Str → Disk × Result ProviderStorageError A → Disk × Result ProviderStorageError A
clean_up temp (disk, ok a) = (disk, ok a)
clean_up temp (disk, err error) = (remove temp disk, err error)

abbrev pub Done : Type 0
Done = Disk × Result ProviderStorageError (Unit {0})

-- `is_error_status` is the test of `error_for_status`, `client` and `send` are those of `get`.
module _ (is_semver : Str → Bool) (sha256_hex : Str → Str) (is_error_status : ℕ → Bool)
    (urls : UrlLib) (client : OutboundClient)
    (send : urls.Url → Result OutboundError Response) where
  -- The hash is compared, and the file takes its place.
  unfoldable pub publish : Io → (expected temp destination hashed : Str) → Disk → Done
  publish call expected temp destination hashed disk =
      if not (str_beq (sha256_hex hashed) expected)
      then (disk, err checksum_mismatch)
      else if call.sync_fails
      then (disk, err io)
      else if call.rename_fails
      then (disk, err io)
      else (rename temp destination disk, ok tt)

  unfoldable pub copy_body :
      Io → ℕ → (expected temp destination : Str) → List (Option Str) → Disk → Done
  copy_body call max_bytes expected temp destination chunks disk =
      let (disk', result) = copy_chunks call max_bytes 0 temp [] chunks disk in
      elim result [
        | err error ↦ (disk', err error)
        | ok hashed ↦ publish call expected temp destination hashed disk'
      ]

  unfoldable pub copy_response : Io → ℕ → (expected temp destination : Str) → Response → Disk → Done
  copy_response call max_bytes expected temp destination response disk =
      if is_error_status response.status
      then (disk, err request)
      else if is_longer response.content_length max_bytes
      then (disk, err too_large)
      else copy_body call max_bytes expected temp destination response.chunks disk

  -- While the cleanup is armed.
  unfoldable pub fill_temp : Io → ℕ → (expected temp destination : Str) → urls.Url → Disk → Done
  fill_temp call max_bytes expected temp destination url disk =
      if call.create_fails || contains_key temp disk
      then (disk, err io)
      else (let opened = insert temp (new_file call.identity) disk in
          elim (Client.get urls client send url).1 [
            | err _ ↦ (opened, err outbound)
            | ok response ↦ copy_response call max_bytes expected temp destination response opened
          ])

  -- The metadata of the published file, if it can be read, enters the table.
  unfoldable pub note_verified : Io → Str → Str → Storage → Storage
  note_verified call destination expected s = elim (symlink_metadata call destination s.disk) [
    | err _ ↦ s
    | ok none ↦ s
    | ok (some entry) ↦
        if entry.regular
        then record s { verified = record_verified destination entry.identity expected s.verified }
        else s
  ]

  unfoldable pub settle_download :
      Io → Str → Str → Storage → Done → Storage × Result ProviderStorageError (Unit {0})
  settle_download call destination expected s (disk, err error) =
      (record s { disk = disk }, err error)
  settle_download call destination expected s (disk, ok _) =
      if call.sync_parent_fails
      then (record s { disk = disk }, err io)
      else (note_verified call destination expected (record s { disk = disk }), ok tt)

  unfoldable pub download :
      Io
      → ProviderArchiveKey
      → PlatformMetadata
      → (expected destination : Str) → Storage
      → Storage × Result ProviderStorageError (Unit {0})
  download call key metadata expected destination s = elim (urls.parse metadata.download_url) [
    | none ↦ (s, err invalid_key)
    | some url ↦
        if call.create_dir_fails
        then (s, err io)
        else (let temp =
              join_path (archive_dir s.root key) (temp_name key.filename s.process_id s.sequence) in
            settle_download call destination expected (record s { sequence = s.sequence + 1 })
              (clean_up temp
                (fill_temp call s.max_archive_bytes expected temp destination url s.disk)))
  ]

  unfoldable pub look_up_cache :
      Io → Str → Str → Storage → Storage × Result ProviderStorageError (Option Str)
  look_up_cache call destination expected s =
      let (s', result) = archive_matches_checksum sha256_hex call destination expected s in
      elim result [
        | err error ↦ (s', err error)
        | ok found ↦ (s', ok (if found then some destination else none))
      ]

  -- The bundled mirror and then the cache are asked for the file, and the first that has it is
  -- answered; `none` where neither has.
  unfoldable pub look_up :
      Io → Option Str → Str → Str → Storage → Storage × Result ProviderStorageError (Option Str)
  look_up call none destination expected s = look_up_cache call destination expected s
  look_up call (some path) destination expected s =
      let (s', result) = archive_matches_checksum sha256_hex call path expected s in
      elim result [
        | err error ↦ (s', err error)
        | ok true ↦ (s', ok (some path))
        | ok false ↦ look_up_cache call destination expected s'
      ]

  unfoldable pub locked_load_or_fetch :
      Io
      → ProviderArchiveKey
      → PlatformMetadata
      → (expected destination : Str) → Storage
      → Storage × Result ProviderStorageError Str
  locked_load_or_fetch call key metadata expected destination s =
      let (s', result) = look_up call (bundled_path s.bundled_mirror key) destination expected s in
      elim result [
        | err error ↦ (s', err error)
        | ok (some path) ↦ (s', ok path)
        | ok none ↦
            let (s'', done) = download call key metadata expected destination s' in
            elim done [ err error ↦ (s'', err error) | ok _ ↦ (s'', ok destination) ]
      ]

  unfoldable pub fetch_valid :
      (first again : Io)
      → ProviderArchiveKey
      → PlatformMetadata
      → Str
      → Storage
      → Storage × Result ProviderStorageError Str
  fetch_valid first again key metadata expected s =
      let destination = archive_path s.root key in
      let (s', result) = look_up first (bundled_path s.bundled_mirror key) destination expected s in
      elim result [
        | err error ↦ (s', err error)
        | ok (some path) ↦ (s', ok path)
        | ok none ↦ locked_load_or_fetch again key metadata expected destination s'
      ]

  -- The checks that come first, with the checksum that the archive must have.
  unfoldable pub check_request :
      ProviderArchiveKey → PlatformMetadata → Result ProviderStorageError Str
  check_request key metadata = do
    validate_key is_semver key
    guard (str_beq metadata.filename key.filename) invalid_key
    expected_checksum metadata

  -- `load_or_fetch`: `first` before the lock is taken, `again` under it.
  unfoldable pub load_or_fetch :
      (first again : Io)
      → ProviderArchiveKey
      → PlatformMetadata
      → Storage
      → Storage × Result ProviderStorageError Str
  load_or_fetch first again key metadata s = elim (check_request key metadata) [
    | err error ↦ (s, err error)
    | ok expected ↦ fetch_valid first again key metadata expected s
  ]
