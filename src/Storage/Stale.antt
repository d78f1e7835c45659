-- ===== src/Storage/Stale.antt =====
-- src/storage.rs: `remove_stale_temp_files` over the tree below a directory, in the order of its
-- listings. Only this call changes the tree.
pub mod Pruned
use open_tf_mirror.Base.{
  ℕ, suc, Bool, true, false, ◌&&◌, List, [], ◌∷◌, Option, some, none, Str, codes, strip_prefix,
  strip_suffix, Result, ok, err, if◌then◌else◌,
}
use open_tf_mirror.Storage.{ProviderStorageError, io}

-- An entry of a directory: `removable` says whether a file can be removed, `other` is a link or a
-- device, `unknown` an entry whose type cannot be read, and `broken` one that cannot be read at all.
-- A directory that cannot be listed is `unreadable`, and one that is gone is `missing`.
mutual
  pub data Node : Type 0 where
    file : (name : Str) (removable : Bool) → Node
    directory : (name : Str) → Listing → Node
    other : (name : Str) → Node
    unknown : (name : Str) → Node
    broken : Node

  pub data Listing : Type 0 where
    missing : Listing
    unreadable : Listing
    entries : Entries → Listing

  pub data Entries : Type 0 where
    end : Entries
    entry : Node → Entries → Entries

abbrev pub has : Option Str → Bool
has none = false
has (some rest) = true

unfoldable pub is_temp : Str → Bool
is_temp name = has (strip_prefix (codes ".") name) && has (strip_suffix (codes ".tmp") name)

-- What is left, how many files are removed, and the outcome.
abbrev pub Walk : Type 0 → Type 0
Walk T = T × ℕ × Result ProviderStorageError (Unit {0})

abbrev pub map_left : {S T : Type 0} → (S → T) → Walk S → Walk T
map_left f (left, removed, result) = (f left, removed, result)

-- A file is kept, removed or an error.
abbrev pub walk_file : Str → Bool → Entries → (ℕ → Walk Entries) → ℕ → Walk Entries
walk_file name removable rest go removed =
    if is_temp name
    then (if removable
        then go (suc removed)
        else (entry (file name removable) rest, removed, err io))
    else map_left (entry (file name removable)) (go removed)

-- After a directory the loop goes on, unless it was left by an error.
abbrev pub and_then : Str → Walk Listing → Entries → (ℕ → Walk Entries) → Walk Entries
and_then name (left, removed, err error) rest go =
    (entry (directory name left) rest, removed, err error)
and_then name (left, removed, ok _) rest go = map_left (entry (directory name left)) (go removed)

unfoldable mutual
  pub walk : Listing → ℕ → Walk Listing
  walk missing removed = (missing, removed, ok tt)
  walk unreadable removed = (unreadable, removed, err io)
  walk (entries list) removed = map_left entries (walk_entries list removed)

  pub walk_entries : Entries → ℕ → Walk Entries
  walk_entries end removed = (end, removed, ok tt)
  walk_entries (entry (file name removable) rest) removed =
      walk_file name removable rest (walk_entries rest) removed
  walk_entries (entry (directory name list) rest) removed =
      and_then name (walk list removed) rest (walk_entries rest)
  walk_entries (entry (other name) rest) removed =
      map_left (entry (other name)) (walk_entries rest removed)
  walk_entries (entry (unknown name) rest) removed = (entry (unknown name) rest, removed, err io)
  walk_entries (entry broken rest) removed = (entry broken rest, removed, err io)

abbrev pub Trees : Type 0
Trees = Listing × Listing

-- `providers` and then `metadata`; an error in the first leaves the second as it is.
abbrev pub second_walk : Walk Listing → Listing → Trees × Result ProviderStorageError ℕ
second_walk (left, removed, err error) metadata = ((left, metadata), err error)
second_walk (left, removed, ok _) metadata =
    let (left', removed', result) = walk metadata removed in
    ((left, left'), elim result [ err error ↦ err error | ok _ ↦ ok removed' ])

unfoldable pub remove_stale_temp_files : Trees → Trees × Result ProviderStorageError ℕ
remove_stale_temp_files (providers, metadata) = second_walk (walk providers 0) metadata
