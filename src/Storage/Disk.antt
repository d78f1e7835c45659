-- ===== src/Storage/Disk.antt =====
-- src/storage.rs: the files that `ProviderStorage` meets, `hash_file` and `archive_matches_checksum`.
-- Between the calls of one operation nobody else changes the files.
pub mod Identified
pub mod Sound
use open_tf_mirror.Base.{
  ℕ, ◌≡◌, ◌↔◌, Bool, true, false, not, ◌&&◌, ◌||◌, ◌==◌, ltb, List, [], ◌∷◌, ◌++◌, length, is_empty,
  Option, some, none, Str, str_eq, str_beq, Result, ok, err, if◌then◌else◌, saturating_add, arith,
}
use open_tf_mirror.Base.Map.{Map, get, insert, remove}
use open_tf_mirror.Storage.{
  FileIdentity, VerifiedFile, ProviderStorageError, io, Table, record_verified,
}

abbrev opt_beq : Option ℕ → Option ℕ → Bool
opt_beq none none = true
opt_beq (some a) (some b) = a == b
opt_beq _ _ = false

-- The derived `==`.
abbrev pub identity_beq : FileIdentity → FileIdentity → Bool
identity_beq a b =
    a.len == b.len && opt_beq a.modified b.modified && a.dev == b.dev && a.ino == b.ino

opt_beq_iff : (a b : Option ℕ) → (opt_beq a b ≡ true) ↔ (a ≡ b)
opt_beq_iff none none = ground arith
opt_beq_iff (some a) (some b) = ground arith
opt_beq_iff none (some b) = ground arith
opt_beq_iff (some a) none = ground arith

pub identity_beq_iff : (a b : FileIdentity) → (identity_beq a b ≡ true) ↔ (a ≡ b)
identity_beq_iff a b = ground (arith, opt_beq_iff a.modified b.modified)

-- An entry of a directory, itself and not what a link leads to: its identity is that of its metadata.
pub record Entry : Type 0 where
  pub regular : Bool
  pub identity : FileIdentity
  pub content : Str

abbrev pub Disk : Type 0
Disk = Map Str Entry

-- How the calls of the file system turn out in one operation: which of them fail with an error other
-- than "not found", the pieces in which a file is read, and the identity that a new file will have.
pub record Io : Type 0 where
  pub stat_fails : Str → Bool
  pub read_fails : Str → Bool
  pub reads : Str → List Str
  pub create_dir_fails : Bool
  pub create_fails : Bool
  pub write_fails : ℕ → Bool
  pub sync_fails : Bool
  pub rename_fails : Bool
  pub sync_parent_fails : Bool
  pub identity : FileIdentity

-- `ProviderStorage` with the files; `sequence` is TEMP_SEQUENCE.
pub record Storage : Type 0 where
  pub root : Str
  pub bundled_mirror : Option Str
  pub max_archive_bytes : ℕ
  pub process_id : ℕ
  pub disk : Disk
  pub verified : Table
  pub sequence : ℕ

-- `symlink_metadata`
unfoldable pub symlink_metadata : Io → Str → Disk → Result ProviderStorageError (Option Entry)
symlink_metadata call path disk = if call.stat_fails path then err io else ok (get path disk)

-- The loop of `hash_file`, with the bytes that the hasher was given: an empty read ends it.
unfoldable pub hash_reads : (max_bytes total : ℕ) → Str → List Str → Option Str
hash_reads max_bytes total hashed [] = some hashed
hash_reads max_bytes total hashed (piece ∷ pieces) =
    let total' = saturating_add total (length piece) in
    let rest = hash_reads max_bytes total' (hashed ++ piece) pieces in
    if is_empty piece then some hashed else if ltb max_bytes total' then none else rest

abbrev pub fits : ℕ → Entry → Bool
fits max_bytes entry = entry.regular && not (ltb max_bytes entry.identity.len)

abbrev pub is_verified : Option VerifiedFile → FileIdentity → Str → Bool
is_verified none identity expected = false
is_verified (some file) identity expected =
    identity_beq file.identity identity && str_beq file.checksum expected

-- What the hash says: remember the file, or forget it.
unfoldable pub settle_hash : Str → Str → Storage → Option (Str × FileIdentity) → Storage × Bool
settle_hash path expected s none = (record s { verified = remove path s.verified }, false)
settle_hash path expected s (some (actual, identity)) =
    if str_beq actual expected
    then (record s { verified = record_verified path identity expected s.verified }, true)
    else (record s { verified = remove path s.verified }, false)

module _ (sha256_hex : Str → Str) where
  abbrev pub with_hash : FileIdentity → Option Str → Option (Str × FileIdentity)
  with_hash identity none = none
  with_hash identity (some hashed) = some (sha256_hex hashed, identity)

  unfoldable pub hash_file :
      Io → Str → ℕ → Disk → Result ProviderStorageError (Option (Str × FileIdentity))
  hash_file call path max_bytes disk =
      if call.read_fails path then err io else (elim (get path disk) [
        | none ↦ ok none
        | some entry ↦
            if fits max_bytes entry
            then ok
                (with_hash entry.identity (hash_reads max_bytes 0 [] (call.reads entry.content)))
            else ok none
      ])

  unfoldable pub match_hash : Io → Str → Str → Storage → Storage × Result ProviderStorageError Bool
  match_hash call path expected s = elim (hash_file call path s.max_archive_bytes s.disk) [
    | err error ↦ (s, err error)
    | ok hashed ↦ let (s', same) = settle_hash path expected s hashed in (s', ok same)
  ]

  unfoldable pub archive_matches_checksum :
      Io → Str → Str → Storage → Storage × Result ProviderStorageError Bool
  archive_matches_checksum call path expected s = elim (symlink_metadata call path s.disk) [
    | err error ↦ (s, err error)
    | ok none ↦ (s, ok false)
    | ok (some entry) ↦
        if fits s.max_archive_bytes entry
        then (if is_verified (get path s.verified) entry.identity expected
            then (s, ok true)
            else match_hash call path expected s)
        else (s, ok false)
  ]
