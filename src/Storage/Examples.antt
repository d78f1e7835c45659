-- ===== src/Storage/Examples.antt =====
-- src/storage.rs: a cache with one archive and an empty one, and the theorems at them.
use open_tf_mirror.Base.{
  ℕ, nat_eq, ◌≡◌, ◌≢◌, refl, sym, ap, ◌∙◌, Bool, true, false, List, [], ◌∷◌, append-nil, some, none,
  Str, str_eq, str_beq, str_beq_iff, codes, is_empty, if◌then◌else◌, split, strip_prefix,
  strip_suffix, rsplitn, rsplit_once, decimal, Result, ok, arith, All,
}
use open_tf_mirror.Base.Map.{get, insert, remove}
use open_tf_mirror.Provider
use open_tf_mirror.Provider.{strip_v, three_fields, from_parts, parse_fields, parse_remainder}
use open_tf_mirror.Outbound.Client
use open_tf_mirror.Outbound.Client.{
  for_tests, OutboundError, Response, is_redirect, trim_start, literal_ip, validate_url, next_url,
  get_from,
}
use open_tf_mirror.Metadata.VersionExamples.{urls, filename, linux, is_semver}
use open_tf_mirror.Storage
use open_tf_mirror.Storage.{
  ProviderArchiveKey, FileIdentity, VerifiedFile, Table, max_verified_entries, valid_hostname,
  validate_key, make_space, record_verified, record_verified-length,
}
use open_tf_mirror.Storage.Disk.{
  Entry, Io, Storage, symlink_metadata, hash_reads, hash_file, settle_hash, match_hash,
  archive_matches_checksum,
}
use open_tf_mirror.Storage.Disk.Identified.{ReadsAll, IsIdentified, IsNew, concat}
use open_tf_mirror.Storage.Fetch.{
  join_path, archive_dir, archive_path, temp_name, expected_checksum, append_file, rename,
  copy_chunks, clean_up, publish, copy_body, copy_response, fill_temp, note_verified,
  settle_download, download, look_up_cache, look_up, locked_load_or_fetch, fetch_valid,
  check_request, load_or_fetch,
}
use open_tf_mirror.Storage.Stale.{Node, Listing, Entries, remove_stale_temp_files}
use open_tf_mirror.Storage.Stale.Pruned.{IsCleaned, remove_stale_temp_files-IsCleaned}
use open_tf_mirror.Storage.Fetch.Atomic.{IsAllOrNothing}
use open_tf_mirror.Storage.Fetch.Verified.{temp_path, download-IsAllOrNothing}

program : Unit {0}
unfolding get insert remove split strip_prefix strip_suffix rsplitn rsplit_once strip_v three_fields
    from_parts parse_fields parse_remainder Provider.parse decimal valid_hostname
    Storage.valid_component validate_key make_space record_verified symlink_metadata hash_reads
    hash_file settle_hash match_hash archive_matches_checksum join_path archive_dir archive_path
    temp_name expected_checksum append_file rename copy_chunks clean_up publish copy_body
    copy_response fill_temp note_verified settle_download download look_up_cache look_up
    locked_load_or_fetch fetch_valid check_request load_or_fetch is_redirect trim_start literal_ip
    validate_url next_url get_from Client.get for_tests
program = tt

abbrev identity : FileIdentity
identity = record { len = 10; modified = none; dev = 1; ino = 2 }

abbrev table : Table
table = (codes "b.zip", record { identity = identity; checksum = codes "00" }) ∷ []

abbrev is_error : ℕ → Bool
is_error status = false

abbrev send : Str → Result OutboundError Response
send url = ok (record {
  status = 200;
  location = none;
  content_length = none;
  chunks = some (codes "zi") ∷ some (codes "p") ∷ [];
})

-- A hash that knows one text.
abbrev pub hash : Str → Str
hash content =
    if is_empty content
    then codes "00"
    else codes "0123456789abcdef0123456789abcdef0123456789abcdef0123456789abcdef"

abbrev pub in_one_piece : Str → List Str
in_one_piece [] = []
in_one_piece (c ∷ s) = (c ∷ s) ∷ []

abbrev pub old : FileIdentity
old = record { len = 3; modified = some 7; dev = 1; ino = 2 }

abbrev pub new : FileIdentity
new = record { len = 3; modified = some 9; dev = 1; ino = 5 }

abbrev pub quiet : Io
quiet = record {
  stat_fails = λ path. false;
  read_fails = λ path. false;
  reads = in_one_piece;
  create_dir_fails = false;
  create_fails = false;
  write_fails = λ total. false;
  sync_fails = false;
  rename_fails = false;
  sync_parent_fails = false;
  identity = new;
}

in_one_piece-whole : (content : Str) → concat (in_one_piece content) ≡ content
in_one_piece-whole [] = refl
in_one_piece-whole (c ∷ s) = append-nil (c ∷ s)

in_one_piece-filled : (content : Str) → All (λ piece. is_empty piece ≡ false) (in_one_piece content)
in_one_piece-filled [] = tt
in_one_piece-filled (c ∷ s) = (refl, tt)

pub quiet-ReadsAll : ReadsAll quiet
quiet-ReadsAll = record { whole = in_one_piece-whole; filled = in_one_piece-filled }

pub get-singleton : {V : Type 0} (k j : Str) (v w : V) → get j ((k, v) ∷ []) ≡ some w → v ≡ w
unfolding get
get-singleton k j v w h = ground arith

abbrev pub archive : Entry
archive = record { regular = true; identity = old; content = codes "zip" }

abbrev pub stored_at : Str
stored_at = codes "/d/providers/a.io/n/t/terraform-provider-t_1.2.3_linux_amd64.zip"

abbrev pub storage : Storage
storage = record {
  root = codes "/d";
  bundled_mirror = none;
  max_archive_bytes = 1000;
  process_id = 1;
  disk = (stored_at, archive) ∷ [];
  verified = [];
  sequence = 0;
}

pub new_not_old : (entry : Entry) → archive ≡ entry → new ≢ entry.identity
new_not_old entry e same =
    let twin : new ≡ old = same ∙ ap (λ (e : Entry). e.identity) (sym e) in
    absurd (omega (arith, ap (λ (i : FileIdentity). i.ino) twin))

storage-IsNew : IsNew quiet.identity storage
unfolding get
storage-IsNew = record {
  unknown = λ path file known. cc;
  unused = λ path entry found same.
      new_not_old entry (get-singleton stored_at path archive entry found) same;
}

storage-IsIdentified : IsIdentified hash storage
unfolding get
storage-IsIdentified path file entry known found same = cc

abbrev key : ProviderArchiveKey
key = record {
  hostname = codes "a.io";
  namespace = codes "n";
  provider_type = codes "t";
  filename = filename;
}

found :
    (load_or_fetch is_semver hash is_error urls for_tests send quiet quiet key linux storage).1
    ≡ ok stored_at
unfolding program
found = refl

-- An empty cache, and a registry that sends the archive in two chunks.
abbrev empty_cache : Storage
empty_cache = record storage { disk = [] }

downloaded :
    get stored_at
      (download is_semver hash is_error urls for_tests send quiet key linux
        (codes "0123456789abcdef0123456789abcdef0123456789abcdef0123456789abcdef")
        stored_at
        empty_cache).0.disk
    ≡ some (record { regular = true; identity = new; content = codes "zip" })
unfolding program
downloaded = refl

temp_differs : temp_path is_semver hash is_error urls for_tests send key empty_cache ≢ stored_at
unfolding program
temp_differs same =
    let temp = temp_path is_semver hash is_error urls for_tests send key empty_cache in
    let differ : str_beq temp stored_at ≡ false = refl in
    let equal = (str_beq_iff temp stored_at).1 same in cc

download-IsAllOrNothing_example :
    IsAllOrNothing hash quiet.identity 1000
      (codes "00")
      (temp_path is_semver hash is_error urls for_tests send key empty_cache)
      stored_at
      empty_cache
      (download is_semver hash is_error urls for_tests send quiet key linux
        (codes "00")
        stored_at
        empty_cache).0
download-IsAllOrNothing_example =
    download-IsAllOrNothing is_semver hash is_error urls for_tests send quiet key linux (codes "00")
      stored_at empty_cache temp_differs (omega arith)

-- A temporary file in a directory, beside an archive.
abbrev tree : Listing
tree = Listing.entries (
    Entries.entry
      (Node.directory (codes "a.io") (
        Listing.entries (
          Entries.entry (Node.file (codes ".archive-1-2.tmp") true)
            (Entries.entry (Node.file (codes "a.zip") true) Entries.end))))
      Entries.end)

remove_stale_temp_files-IsCleaned_example :
    IsCleaned tree Listing.missing (remove_stale_temp_files (tree, Listing.missing))
remove_stale_temp_files-IsCleaned_example = remove_stale_temp_files-IsCleaned tree Listing.missing
