-- ===== src/Metadata/Discover.antt =====
-- src/metadata.rs: `discover_indices` and `with_registry_client`. A directory is what its listing gives,
-- and the names that the tests let through are ASCII, so that the path of an entry is that of its name.
pub mod Loop
pub mod Listed
pub mod Found
use open_tf_mirror.Base.{
  ℕ, Bool, true, false, not, List, [], ◌∷◌, any, Option, some, none, Str, str_beq, codes, Result,
  ok, err, ◌>>=◌, ◌>>◌, is_ok, if◌then◌else◌,
}
use open_tf_mirror.Base.Map.{Map, insert}
use open_tf_mirror.Metadata.Types.{MetadataError, io, ProviderKey, provider_eq}
use open_tf_mirror.Metadata.Validate.{
  valid_component, validate_hostname, validate_registry_versions,
}
use open_tf_mirror.Metadata.Index.{IndexEntry, Service}
use open_tf_mirror.Metadata.Versions.{Versions}
use open_tf_mirror.Storage.Fetch.{join_path}

-- `is_dir` is `none` where the type of the entry cannot be read.
pub record DirEntry : Type 0 where
  pub name : Str
  pub is_dir : Option Bool

-- What the file system answers: `none` for what is not there, and in a listing for an entry that
-- cannot be read. `read_index` is `std::fs::read`.
pub record Directories : Type 0 where
  pub read_dir : Str → Result MetadataError (Option (List (Option DirEntry)))
  pub read_index : Str → Result MetadataError (Option Str)

abbrev pub Indices : Type 0
Indices = Map ProviderKey IndexEntry

-- One round of the loop over a directory, where `enter` is its body.
abbrev pub visit :
    (accepts : Str → Bool)
    → (enter : Str → Indices → Result MetadataError Indices) → DirEntry
    → Indices
    → Result MetadataError Indices
visit accepts enter entry indices =
    if not (accepts entry.name) then ok indices else (elim entry.is_dir [
      | none ↦ err io
      | some false ↦ ok indices
      | some true ↦ enter entry.name indices
    ])

unfoldable pub visit_all :
    (accepts : Str → Bool)
    → (enter : Str → Indices → Result MetadataError Indices) → List (Option DirEntry)
    → Indices
    → Result MetadataError Indices
visit_all accepts enter [] indices = ok indices
visit_all accepts enter (none ∷ entries) indices = err io
visit_all accepts enter (some entry ∷ entries) indices =
    visit accepts enter entry indices >>= visit_all accepts enter entries

abbrev pub is_allowed : List Str → Str → Bool
is_allowed allowed_registries hostname = any (str_beq hostname) allowed_registries

-- `read_dir(..)?` below the root, where a directory that is gone is an error.
abbrev pub listing :
    Result MetadataError (Option (List (Option DirEntry)))
    → Result MetadataError (List (Option DirEntry))
listing (err error) = err error
listing (ok none) = err io
listing (ok (some entries)) = ok entries

-- A corrupt or invalid index is passed over.
abbrev pub accepted_index : Option IndexEntry → Option IndexEntry
accepted_index none = none
accepted_index (some entry) =
    if is_ok (validate_registry_versions entry.value) then some entry else none

abbrev pub add_index : ProviderKey → Option IndexEntry → Indices → Indices
add_index key none indices = indices
add_index key (some entry) indices = insert key entry indices

module _ (files : Directories) (from_slice : Str → Option IndexEntry) where
  unfoldable pub discover_provider :
      (path hostname namespace provider_type : Str) → Indices → Result MetadataError Indices
  discover_provider path hostname namespace provider_type indices =
      elim (files.read_index (join_path (join_path path provider_type) (codes "index.json"))) [
        | err error ↦ err error
        | ok none ↦ ok indices
        | ok (some bytes) ↦ ok (
            add_index
              (record { hostname = hostname; namespace = namespace; provider_type = provider_type })
              (accepted_index (from_slice bytes)) indices)
      ]

  unfoldable pub discover_namespace :
      (path hostname namespace : Str) → Indices → Result MetadataError Indices
  discover_namespace path hostname namespace indices = do
    entries ← listing (files.read_dir (join_path path namespace))
    visit_all valid_component (discover_provider (join_path path namespace) hostname namespace)
        entries indices

  unfoldable pub discover_hostname : (path hostname : Str) → Indices → Result MetadataError Indices
  discover_hostname path hostname indices = do
    entries ← listing (files.read_dir (join_path path hostname))
    visit_all valid_component (discover_namespace (join_path path hostname) hostname) entries
        indices

  unfoldable pub discover_indices :
      (root : Str) (allowed_registries : List Str) → Result MetadataError Indices
  discover_indices root allowed_registries = elim (files.read_dir root) [
    | err error ↦ err error
    | ok none ↦ ok []
    | ok (some entries) ↦
        visit_all (is_allowed allowed_registries) (discover_hostname root) entries []
  ]

  unfoldable pub validate_hostnames : List Str → Result MetadataError (Unit {0})
  validate_hostnames [] = ok tt
  validate_hostnames (hostname ∷ hostnames) =
      validate_hostname hostname >> validate_hostnames hostnames

  -- The delays are in seconds and, for the backoff, in nanoseconds.
  unfoldable pub with_registry_client :
      (data_dir : Str) (allowed_registries : List Str) (freshness : ℕ)
      → Result MetadataError Versions
  with_registry_client data_dir allowed_registries freshness = do
    validate_hostnames allowed_registries
    indices ← discover_indices (join_path data_dir (codes "metadata")) allowed_registries
    ok (record {
      service = record {
        freshness = freshness;
        partial_retry = 30;
        backoff = 30000000000;
        indices = indices;
        index_failures = [];
        syncing = false;
        requests = 0;
      };
      versions = [];
      version_failures = [];
      index_miss_refreshes = [];
    })
