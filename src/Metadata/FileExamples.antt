-- ===== src/Metadata/FileExamples.antt =====
-- src/metadata.rs: a directory with the index of one provider, and the theorems at it.
use open_tf_mirror.Base.{
  nat_eq, ◌≡◌, ◌↔◌, refl, true, false, List, [], ◌∷◌, ◌++◌, Option, some, none, Str, String, str_eq,
  str_beq, codes, split, strip_prefix, rsplit_once, rsplitn, decimal, Result, ok, if◌then◌else◌,
}
use open_tf_mirror.Base.Map.{get, insert, remove}
use open_tf_mirror.Registry.Types.{RegistryVersion}
use open_tf_mirror.Metadata.Types.{MetadataError, ProviderKey, provider_eq}
use open_tf_mirror.Metadata.Validate.{
  normalize_version, valid_component, valid_version, validate_hostname, validate_component,
  validate_version, validate_registry_version, validate_registry_versions,
}
use open_tf_mirror.Metadata.Index.{IndexEntry}
use open_tf_mirror.Metadata.Versions.{Versions}
use open_tf_mirror.Storage.Disk.{Disk}
use open_tf_mirror.Storage.Fetch.{join_path, append_file, rename}
use open_tf_mirror.Metadata.Files.{
  parent, metadata_temp, WriteCall, discard, write_file, write_json_atomic, read_json,
}
use open_tf_mirror.Metadata.Files.Written.{
  IsAtomic, write_json_atomic-IsAtomic, read_json-write_json_atomic,
}
use open_tf_mirror.Metadata.Discover.{
  DirEntry, Directories, visit_all, discover_provider, discover_namespace, discover_hostname,
  discover_indices, validate_hostnames, with_registry_client,
}
use open_tf_mirror.Metadata.Discover.Listed.{HasDirectory, index_on_disk}
use open_tf_mirror.Metadata.Discover.Found.{discover_indices_iff}

program : Unit {0}
unfolding get insert remove split strip_prefix rsplit_once rsplitn decimal join_path append_file
    rename parent metadata_temp discard write_file write_json_atomic read_json normalize_version
    valid_component valid_version validate_hostname validate_component validate_version
    validate_registry_version validate_registry_versions visit_all discover_provider
    discover_namespace discover_hostname discover_indices validate_hostnames with_registry_client
program = tt

-- A value is its text.
abbrev to_vec : Str → Option Str
to_vec value = some value

abbrev write : WriteCall
write = record {
  create_dir_fails = false;
  open_fails = false;
  write_fails = false;
  partial = λ bytes. [];
  sync_fails = false;
  rename_fails = false;
  remove_fails = false;
  sync_parent_fails = false;
  identity = record { len = 0; modified = none; dev = 1; ino = 5 };
}

abbrev stem : Str
stem = codes "/data/index"

abbrev no_files : Disk
no_files = []

write_json_atomic-IsAtomic_example :
    IsAtomic
      (record write { sync_fails = true })
      (metadata_temp (stem ++ codes ".json") 7 0)
      (stem ++ codes ".json")
      (codes "{}")
      no_files
      (write_json_atomic to_vec
        (record write { sync_fails = true })
        7
        0
        (stem ++ codes ".json")
        (codes "{}")
        no_files).1
write_json_atomic-IsAtomic_example =
    write_json_atomic-IsAtomic to_vec (record write { sync_fails = true }) 7 0 stem (codes "{}")
      (codes "{}") no_files refl

written :
    (write_json_atomic to_vec write 7 0 (stem ++ codes ".json") (codes "{}") no_files).1.1 ≡ ok tt
unfolding program
written = refl

read_json-write_json_atomic_example :
    read_json to_vec false
      (stem ++ codes ".json")
      (write_json_atomic to_vec write 7 0 (stem ++ codes ".json") (codes "{}") no_files).1.0
    ≡ ok (some (codes "{}"))
read_json-write_json_atomic_example =
    read_json-write_json_atomic to_vec to_vec write 7 0 stem (codes "{}") (codes "{}") no_files refl
      refl written

abbrev one_version : List RegistryVersion
one_version = record { version = codes "1.2.3"; platforms = [] } ∷ []

abbrev index : IndexEntry
index = record { fetched_at = 100; complete = true; value = one_version }

abbrev from_slice : Str → Option IndexEntry
from_slice bytes = some index

abbrev folder : String → List (Option DirEntry)
folder name = some (record { name = codes name; is_dir = some true }) ∷ []

abbrev listings : Str → Result MetadataError (Option (List (Option DirEntry)))
listings path =
    if str_beq path (codes "/data/metadata")
    then ok (some (folder "a.io"))
    else if str_beq path (codes "/data/metadata/a.io")
    then ok (some (folder "n"))
    else if str_beq path (codes "/data/metadata/a.io/n")
    then ok (some (folder "t"))
    else ok none

abbrev files : Directories
files = record { read_dir = listings; read_index = λ path. ok (some (codes "{}")) }

abbrev allowed : List Str
allowed = codes "a.io" ∷ []

abbrev key : ProviderKey
key = record { hostname = codes "a.io"; namespace = codes "n"; provider_type = codes "t" }

found : discover_indices files from_slice (codes "/data/metadata") allowed ≡ ok ((key, index) ∷ [])
unfolding program
found = refl

discover_indices_iff_example : (get key ((key, index) ∷ []) ≡ some index) ↔ (
    HasDirectory files from_slice (codes "/data/metadata") allowed key
    × (index_on_disk files from_slice (codes "/data/metadata") allowed key ≡ some index))
discover_indices_iff_example =
    discover_indices_iff files from_slice (codes "/data/metadata") allowed ((key, index) ∷ []) key
      index found

abbrev built : Versions
built = record {
  service = record {
    freshness = 1800;
    partial_retry = 30;
    backoff = 30000000000;
    indices = (key, index) ∷ [];
    index_failures = [];
    syncing = false;
    requests = 0;
  };
  versions = [];
  version_failures = [];
  index_miss_refreshes = [];
}

builds : with_registry_client files from_slice (codes "/data") allowed 1800 ≡ ok built
unfolding program
builds = refl
