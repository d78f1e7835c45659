-- ===== src/Http/Examples.antt =====
-- src/http_api.rs: a server with one archive on its disk, and the theorems at it.
use open_tf_mirror.Base.{
  ℕ, ok, List, ◌∷◌, [], nat_eq, ltb, ◌+◌, ◌*◌, ◌-◌, ◌/◌, ◌≡◌, refl, true, false, none, some, Str,
  str_eq, codes, if◌then◌else◌, split, strip_prefix, strip_suffix, rsplitn, rsplit_once, decimal,
  err, arith,
}
use Prim.Native.Nat.{Ordering}
use open_tf_mirror.Base.Map.{get, insert, remove}
use open_tf_mirror.Provider
use open_tf_mirror.Provider.{strip_v, three_fields, from_parts, parse_fields, parse_remainder}
use open_tf_mirror.Outbound.Client.{for_tests, request}
use open_tf_mirror.Metadata.Types.{fresh}
use open_tf_mirror.Metadata.Validate.{
  validate_version_metadata, normalize_version, valid_version, validate_hostname,
  validate_component, validate_version, provider_key, validate_package,
}
use open_tf_mirror.Metadata.Validate
use open_tf_mirror.Metadata.Versions.{
  version_eq, fresh_version, load_version, version_or_stale, load_persisted_version,
}
use open_tf_mirror.Metadata.Lookup.{
  find_archive, version_key, get_version_entry, get_platform_by_archive,
}
use open_tf_mirror.Metadata.VersionExamples.{entry, urls, filename, env, service, allowed}
use open_tf_mirror.Storage
use open_tf_mirror.Storage.{FileIdentity, valid_hostname, validate_key, make_space, record_verified}
use open_tf_mirror.Storage.Examples.{
  hash, quiet, quiet-ReadsAll, archive, stored_at, storage, get-singleton, new_not_old,
}
use open_tf_mirror.Storage.Disk.{
  symlink_metadata, hash_reads, hash_file, settle_hash, match_hash, archive_matches_checksum,
}
use open_tf_mirror.Storage.Fetch.{
  join_path, archive_dir, archive_path, expected_checksum, look_up_cache, look_up, fetch_valid,
  check_request, load_or_fetch,
}
use open_tf_mirror.Http.Handlers.{
  Deps, Call, App, archive_response, open_archive, send_archive, answer_platform,
  download_provider_archive,
}
use open_tf_mirror.Http.Session.{IsOrderly, start, download, serve, Session-IsVerifiedArchive}
use open_tf_mirror.Http.Bucket
use open_tf_mirror.Http.Bucket.{Double, try_acquire, enforce_rate_limit, limit_all}
use open_tf_mirror.Http.Bucket.Rate.{IsDouble, counted, IsLimited, limit_all-IsLimited}
use open_tf_mirror.Http.Ready.{ProbeCall}
use open_tf_mirror.Http.Response.{HttpResponse, status_only}
use open_tf_mirror.Http.Verified.{IsStorageReady, IsVerifiedArchive}

program : Unit {0}
unfolding get insert remove split strip_prefix strip_suffix rsplitn rsplit_once strip_v three_fields
    from_parts parse_fields parse_remainder Provider.parse fresh normalize_version
    Validate.valid_component valid_version validate_hostname validate_component validate_version
    provider_key validate_package fresh_version load_version find_archive version_key
    get_version_entry get_platform_by_archive decimal valid_hostname Storage.valid_component
    validate_key make_space record_verified symlink_metadata hash_reads hash_file settle_hash
    match_hash archive_matches_checksum join_path archive_dir archive_path expected_checksum
    look_up_cache look_up fetch_valid check_request load_or_fetch archive_response open_archive
    send_archive answer_platform download_provider_archive serve version_or_stale
    load_persisted_version validate_version_metadata
program = tt

abbrev pub deps : Deps
deps = record {
  semver = record { Version = Str; parse = λ s. some s; cmp = λ v w. Ordering.eq };
  urls = urls;
  client = for_tests;
  send = λ url. err request;
  is_error_status = λ status. false;
  sha256_hex = hash;
  is_header_value = λ value. true;
  trim = λ value. value;
  hash_order = λ xs. xs;
  allowed_registries = allowed;
}

abbrev pub app : App
app = record { metadata = service; provider_storage = storage }

abbrev pub request_call : Call
request_call = record {
  metadata = env;
  first = quiet;
  again = quiet;
  open_fails = false;
  length_fails = false;
}

storage-IsStorageReady : IsStorageReady deps request_call storage
unfolding get
storage-IsStorageReady = record {
  identified = λ path file entry known found same. cc;
  new = record {
    unknown = λ path file known. cc;
    unused = λ path entry found same.
        new_not_old entry (get-singleton stored_at path archive entry found) same;
  };
  bound = omega arith;
  reads_first = quiet-ReadsAll;
  reads_again = quiet-ReadsAll;
}

-- The server when it starts, with the version on disk, and a request for its archive.
abbrev cold_call : Call
cold_call = record request_call { metadata = record env { read_version = λ key. ok (some entry) } }

abbrev cold : App
cold = record app { metadata = record service { versions = [] } }

cold-IsOrderly : IsOrderly cold_call storage
unfolding get
cold-IsOrderly = record {
  new = storage-IsStorageReady.new;
  bound = omega arith;
  reads_first = quiet-ReadsAll;
  reads_again = quiet-ReadsAll;
}

cold_served :
    (serve deps cold_call (download (codes "a.io") (codes "n") (codes "t") filename) cold).1.status
    ≡ 200
unfolding program
cold_served = refl

Session-IsVerifiedArchive_example :
    IsVerifiedArchive deps cold_call
      (codes "a.io")
      (codes "n")
      (codes "t")
      filename
      (serve deps cold_call (download (codes "a.io") (codes "n") (codes "t") filename) cold).1
Session-IsVerifiedArchive_example =
    Session-IsVerifiedArchive deps cold_call (codes "a.io") (codes "n") (codes "t") filename cold
      (start cold refl refl) cold-IsOrderly cold_served

abbrev pub least : ℕ → ℕ → ℕ
least x y = if ltb x y then x else y

-- Numbers of a type with the laws of `IsDouble`: thousandths.
abbrev pub thousandths : Double ℕ
thousandths = record {
  of_u32 = λ n. n * 1000;
  seconds = λ nanoseconds. nanoseconds / 1000000;
  add = ◌+◌;
  mul = λ a b. a * b / 1000;
  sub = ◌-◌;
  min = least;
  lt = ltb;
}

abbrev earned : (nanoseconds qps limit : ℕ) → ℕ
earned nanoseconds qps limit = nanoseconds / 1000000 * qps / 1000

thousandths-IsDouble : IsDouble ℕ thousandths (λ x. x) 1000 earned
thousandths-IsDouble = record {
  of_u32 = λ n small. refl;
  lt_lem = λ x y. refl;
  min-le_left = λ x y. ground arith;
  min-le_right = λ x y. ground arith;
  min-greatest = λ n x y h k. ground arith;
  sub_one = λ x enough. omega arith;
  add-le = λ ns x qps limit w. omega arith;
  add-ge = λ ns x qps. omega arith;
}

abbrev answer : ℕ → ℕ × HttpResponse
answer n = (n + 1, status_only 200)

-- A burst of two, one a second: of three requests at once two are served, and one second later one.
abbrev times : List ℕ
times = 5 ∷ 5 ∷ 5 ∷ 1000000005 ∷ []

abbrev runs : ℕ
runs = (limit_all thousandths times (counted answer) (Bucket.new thousandths 1 2 5) (0, 0)).1.1

three_run : runs ≡ 3
unfolding limit_all enforce_rate_limit try_acquire Bucket.new
three_run = refl

limit_all-IsLimited_example :
    IsLimited thousandths (λ x. x) 1000 earned thousandths-IsDouble answer 1 2 5 times runs
limit_all-IsLimited_example =
    limit_all-IsLimited thousandths (λ x. x) 1000 earned thousandths-IsDouble answer 1 2 5 times 0
      (omega arith)

-- The removal of the probe fails.
abbrev pub stuck : ProbeCall
stuck = record {
  open_fails = false;
  sync_fails = false;
  remove_fails = true;
  identity = record { len = 0; modified = none; dev = 1; ino = 9 };
}
