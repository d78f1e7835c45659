-- ===== src/Storage.antt =====
-- src/storage.rs: the keys of archives, their validation, and the table of verified files.
-- A path is its text; the device, the inode and the times of a file are numbers.
pub mod Examples
pub mod Disk
pub mod Fetch
pub mod Stale
use open_tf_mirror.Base.{
  ℕ, ◌≤◌, ◌≡◌, Bool, not, ◌&&◌, ◌||◌, ◌==◌, leb, List, [], length, all, any, is_empty, Option, some,
  Option-cases, inl, inr, Str, str_eq, codes, str_beq, split, is_ascii_alphanumeric, Result, guard,
  is_ok, if◌then◌else◌, arith,
}
use open_tf_mirror.Base.Map.{
  Map, get, insert, contains_key, get-insert_self, length-insert-le, length-insert_present,
}
use open_tf_mirror.Provider

abbrev pub max_verified_entries : ℕ
max_verified_entries = 16384

pub record ProviderArchiveKey : Type 0 where
  pub hostname : Str
  pub namespace : Str
  pub provider_type : Str
  pub filename : Str

-- The device and the inode are those of unix.
pub record FileIdentity : Type 0 where
  pub len : ℕ
  pub modified : Option ℕ
  pub dev : ℕ
  pub ino : ℕ

pub record VerifiedFile : Type 0 where
  pub identity : FileIdentity
  pub checksum : Str

abbrev is_name_byte : ℕ → Bool
is_name_byte byte = is_ascii_alphanumeric byte || byte == b'-' || byte == b'_'

unfoldable pub valid_component : Str → Bool
valid_component value =
    not (is_empty value)
    && not (str_beq value (codes "."))
    && not (str_beq value (codes ".."))
    && leb (length value) 100
    && all is_name_byte value

unfoldable pub valid_hostname : Str → Bool
valid_hostname value = not (is_empty value) && all valid_component (split b'.' value)

-- The errors, without their texts.
pub data ProviderStorageError : Type 0 where
  invalid_key missing_checksum checksum_mismatch too_large : ProviderStorageError
  policy redirect request outbound io : ProviderStorageError

-- `validate_key`; the separators are `/` and the backslash.
unfoldable pub validate_key :
    (Str → Bool) → ProviderArchiveKey → Result ProviderStorageError (Unit {0})
validate_key is_semver key =
    guard
      (valid_hostname key.hostname
        && valid_component key.namespace
        && valid_component key.provider_type
        && not (any (λ c. c == b'/' || c == 92) key.filename)
        && is_ok (Provider.parse is_semver key.provider_type key.filename))
      invalid_key

abbrev pub Table : Type 0
Table = Map Str VerifiedFile

-- A full table is emptied before a new path enters.
unfoldable pub make_space : Str → Table → Table
make_space path verified =
    if leb max_verified_entries (length verified) && not (contains_key path verified)
    then []
    else verified

unfoldable pub record_verified : Str → FileIdentity → Str → Table → Table
record_verified path identity checksum verified =
    insert path (record { identity = identity; checksum = checksum }) (make_space path verified)

length-insert-make_space :
    (path : Str) (file : VerifiedFile) (verified : Table)
    → length verified ≤ max_verified_entries
    → length (insert path file (make_space path verified)) ≤ max_verified_entries
unfolding make_space
length-insert-make_space path file verified h = elim (Option-cases (get path verified)) [
  | inr (there, found) ↦ ground (arith, length-insert_present path file there verified found)
  | inl missing ↦ ground (arith, length-insert-le path file verified, length-insert-le path file [])
]

-- Recording a verified file keeps the table within 16384 entries, and the path then has that file.
pub record_verified-length :
    (path : Str) (identity : FileIdentity) (checksum : Str) (verified : Table)
    → length verified ≤ max_verified_entries
    → (length (record_verified path identity checksum verified) ≤ max_verified_entries)
      × (get path (record_verified path identity checksum verified)
          ≡ some (record { identity = identity; checksum = checksum }))
unfolding record_verified
record_verified-length path identity checksum verified h =
    let file : VerifiedFile = record { identity = identity; checksum = checksum } in
    (
      length-insert-make_space path file verified h,
      get-insert_self path file (make_space path verified),
    )
