-- ===== src/Metadata/VersionExamples.antt =====
-- src/metadata.rs: a service with one version in memory, and the theorems on versions at it.
use open_tf_mirror.Base.{
  nat_eq, ◌≡◌, refl, inl, inr, Bool, true, false, Bool-cases, List, [], ◌∷◌, some, none, Str, codes,
  split, strip_prefix, strip_suffix, rsplitn, rsplit_once, ok, err, arith,
}
use open_tf_mirror.Base.Map.{get}
use open_tf_mirror.Provider
use open_tf_mirror.Provider.{strip_v, three_fields, from_parts, parse_fields, parse_remainder}
use open_tf_mirror.Outbound.Client.{UrlLib}
use open_tf_mirror.Registry.Types.{request}
use open_tf_mirror.Metadata.Types.{VersionKey, PlatformMetadata, fresh}
use open_tf_mirror.Metadata.Validate.{
  normalize_version, valid_component, valid_version, validate_hostname, validate_component,
  validate_version, provider_key, validate_package,
}
use open_tf_mirror.Metadata.Index.{Env}
use open_tf_mirror.Metadata.Versions.{
  VersionEntry, version_eq, version_beq, version_beq_iff, VersionEnv, Versions, fresh_version,
  load_version,
}
use open_tf_mirror.Metadata.Versions.Served.{
  IsCheckedEntry, AllChecked, IsSoundLoad, load_version-IsSoundLoad,
}
use open_tf_mirror.Metadata.Lookup.{
  find_archive, version_key, get_version_entry, get_platform_by_archive,
}
use open_tf_mirror.Metadata.Lookup.Archive.{IsServed, get_platform_by_archive-IsServed}

program : Unit {0}
unfolding get split strip_prefix strip_suffix rsplitn rsplit_once strip_v three_fields from_parts
    parse_fields parse_remainder Provider.parse fresh normalize_version valid_component
    valid_version validate_hostname validate_component validate_version provider_key
    validate_package fresh_version load_version find_archive version_key get_version_entry
    get_platform_by_archive
program = tt

-- Addresses that begin with `https://`.
abbrev pub urls : UrlLib
urls = record {
  Url = Str;
  parse = strip_prefix (codes "https://");
  scheme = λ url. codes "https";
  host_str = λ url. some url;
  join = λ url location. some location;
  parse_ip = λ host. none;
}

abbrev pub is_semver : Str → Bool
is_semver version = true

abbrev pub key : VersionKey
key = record {
  provider = record { hostname = codes "a.io"; namespace = codes "n"; provider_type = codes "t" };
  version = codes "1.2.3";
}

abbrev pub filename : Str
filename = codes "terraform-provider-t_1.2.3_linux_amd64.zip"

abbrev pub linux : PlatformMetadata
linux = record {
  os = codes "linux";
  arch = codes "amd64";
  filename = filename;
  shasum = some (codes "0123456789abcdef0123456789abcdef0123456789abcdef0123456789abcdef");
  download_url = codes "https://a.io/t.zip";
}

abbrev pub entry : VersionEntry
entry = record {
  fetched_at = 100;
  complete = true;
  value = record {
    hostname = codes "a.io";
    namespace = codes "n";
    provider_type = codes "t";
    version = codes "1.2.3";
    platforms = linux ∷ [];
  };
}

abbrev pub down : Env
down = record {
  now = 5;
  now_epoch = 120;
  versions = λ key. err request;
  read_json = λ key. ok none;
  write_json = λ key entry. ok tt;
}

abbrev pub env : VersionEnv
env = record {
  first = down;
  again = down;
  packages = λ key platform. err request;
  read_version = λ key. ok none;
  write_version = λ key entry. ok tt;
}

abbrev pub service : Versions
service = record {
  service = record {
    freshness = 1800;
    partial_retry = 30;
    backoff = 30;
    indices = [];
    index_failures = [];
    syncing = false;
    requests = 0;
  };
  versions = (key, entry) ∷ [];
  version_failures = [];
  index_miss_refreshes = [];
}

entry_checked : IsCheckedEntry is_semver urls key entry
unfolding program
entry_checked = (refl, tt)

pub all_checked : AllChecked is_semver urls service
unfolding get
all_checked k e found = elim (Bool-cases (version_beq key k)) [
  | inl same ↦
      let here : entry ≡ e = ground (arith, found, same) in
      rw (← (version_beq_iff key k).0 same, ← here) entry_checked
  | inr other ↦ absurd (ground (arith, found, other))
]

load_version-IsSoundLoad_example :
    IsSoundLoad is_semver urls key (load_version is_semver urls env key service)
load_version-IsSoundLoad_example =
    load_version-IsSoundLoad is_semver urls env key service all_checked

in_memory : get key service.versions ≡ some entry
unfolding program
in_memory = refl

abbrev pub allowed : List Str
allowed = codes "a.io" ∷ []

answered :
    (get_platform_by_archive is_semver urls env allowed
      (codes "a.io")
      (codes "n")
      (codes "t")
      filename
      service).1
    ≡ ok (some linux)
unfolding program
answered = refl

get_platform_by_archive-IsServed_example :
    IsServed is_semver urls env allowed (codes "a.io") (codes "n") (codes "t") filename linux
get_platform_by_archive-IsServed_example =
    get_platform_by_archive-IsServed is_semver urls env allowed (codes "a.io") (codes "n")
      (codes "t") filename service linux all_checked answered
