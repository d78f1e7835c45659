-- ===== src/Metadata/Files.antt =====
-- src/metadata.rs: `read_json`, `write_json_atomic` and the paths of the metadata files. The text of a
-- value is made and read by `serde_json`, which is a parameter. Nobody else changes the files during
-- a call.
pub mod Written
use open_tf_mirror.Base.{
  ℕ, suc, ◌+◌, Bool, ◌||◌, List, [], ◌∷◌, ◌++◌, Option, some, none, Str, str_eq, codes, rsplit_once,
  decimal, Result, ok, err, if◌then◌else◌,
}
use open_tf_mirror.Base.Map.{get, insert, remove, contains_key}
use open_tf_mirror.Metadata.Types.{MetadataError, io, json, ProviderKey, VersionKey}
use open_tf_mirror.Storage.{FileIdentity}
use open_tf_mirror.Storage.Disk.{Disk}
use open_tf_mirror.Storage.Fetch.{join_path, new_file, append_file, rename}

unfoldable pub provider_dir : Str → ProviderKey → Str
provider_dir data_dir key =
    join_path (join_path (join_path data_dir key.hostname) key.namespace) key.provider_type

unfoldable pub index_path : Str → ProviderKey → Str
index_path data_dir key = join_path (provider_dir data_dir key) (codes "index.json")

unfoldable pub version_path : Str → VersionKey → Str
version_path data_dir key =
    join_path (provider_dir data_dir key.provider) (key.version ++ codes ".json")

-- `Path::parent` of a path with a file name.
unfoldable pub parent : Str → Str
parent path = elim (rsplit_once b'/' path) [ none ↦ [] | some (directory, _) ↦ directory ]

-- `.metadata-{pid}-{sequence}.tmp` beside the file
unfoldable pub metadata_temp : Str → (process_id sequence : ℕ) → Str
metadata_temp path process_id sequence =
    join_path (parent path)
      (codes ".metadata-" ++ decimal process_id ++ b'-' ∷ decimal sequence ++ codes ".tmp")

-- Which calls of the file system fail, what a failed write leaves in the file, and the identity of
-- the new file.
pub record WriteCall : Type 0 where
  pub create_dir_fails : Bool
  pub open_fails : Bool
  pub write_fails : Bool
  pub partial : Str → Str
  pub sync_fails : Bool
  pub rename_fails : Bool
  pub remove_fails : Bool
  pub sync_parent_fails : Bool
  pub identity : FileIdentity

abbrev pub Written : Type 0
Written = Disk × Result MetadataError (Unit {0})

-- `let _ = remove_file(&temp)`
unfoldable pub discard : WriteCall → Str → Disk → Disk
discard call temp disk = if call.remove_fails then disk else remove temp disk

-- From the creation of the temporary file on.
unfoldable pub write_file : WriteCall → (temp path bytes : Str) → Disk → Written
write_file call temp path bytes disk =
    let opened = insert temp (new_file call.identity) disk in
    let written = append_file temp bytes opened in
    if call.open_fails || contains_key temp disk
    then (disk, err io)
    else if call.write_fails
    then (discard call temp (append_file temp (call.partial bytes) opened), err io)
    else if call.sync_fails
    then (discard call temp written, err io)
    else if call.rename_fails
    then (discard call temp written, err io)
    else (rename temp path written, if call.sync_parent_fails then err io else ok tt)

module _ {T : Type 0} where
  -- `sequence` is TEMP_SEQUENCE, which is counted up once the directory is there.
  unfoldable pub write_json_atomic :
      (to_vec : T → Option Str)
      → WriteCall
      → (process_id sequence : ℕ) → Str
      → T
      → Disk
      → ℕ × Written
  write_json_atomic to_vec call process_id sequence path value disk =
      if call.create_dir_fails then (sequence, (disk, err io)) else (
        suc sequence,
        elim (to_vec value) [
          | none ↦ (disk, err json)
          | some bytes ↦ write_file call (metadata_temp path process_id sequence) path bytes disk
        ],
      )

  -- A file that the parser refuses is taken as missing.
  unfoldable pub read_json :
      (from_slice : Str → Option T)
      → (read_fails : Bool) → Str
      → Disk
      → Result MetadataError (Option T)
  read_json from_slice read_fails path disk =
      if read_fails
      then err io
      else (elim (get path disk) [ none ↦ ok none | some entry ↦ ok (from_slice entry.content) ])
