-- ===== src/Storage/Disk/Identified.antt =====
-- src/storage.rs: the table of verified files against the files on the disk.
use open_tf_mirror.Base.{
  ℕ, ◌≡◌, ◌≢◌, ◌⊎◌, inl, inr, ◌∙◌, ap, true, false, ltb, List, [], ◌∷◌, ◌++◌, append_assoc,
  append-nil, some, Bool-cases, Str, str_eq, str_beq, str_beq_iff, All, is_empty, arith, length,
  saturating_add,
}
use open_tf_mirror.Base.Map.{get, remove, get-insert, get-remove}
use open_tf_mirror.Storage.{FileIdentity, VerifiedFile, Table, make_space, record_verified}
use open_tf_mirror.Storage.Disk.{Entry, Disk, Io, Storage, hash_reads}

-- The bytes of the pieces, one after the other.
abbrev pub concat : List Str → Str
concat [] = []
concat (piece ∷ pieces) = piece ++ concat pieces

-- What reading a file to its end gives: its bytes, in pieces of which none is empty.
pub record ReadsAll (call : Io) : Type 0 where
  pub whole : (content : Str) → concat (call.reads content) ≡ content
  pub filled : (content : Str) → All (λ piece. is_empty piece ≡ false) (call.reads content)

pub hash_reads-some :
    (max_bytes total : ℕ) (hashed : Str) (pieces : List Str) (all_bytes : Str)
    → All (λ piece. is_empty piece ≡ false) pieces
    → hash_reads max_bytes total hashed pieces ≡ some all_bytes
    → all_bytes ≡ hashed ++ concat pieces
unfolding hash_reads
hash_reads-some max_bytes total hashed [] all_bytes h e = rw append-nil (cc)
hash_reads-some max_bytes total hashed (piece ∷ pieces) all_bytes (full, h) e =
    elim (Bool-cases (ltb max_bytes (saturating_add total (length piece)))) [
      | inl large ↦ absurd (ground arith)
      | inr small ↦
          hash_reads-some max_bytes (saturating_add total (length piece)) (hashed ++ piece) pieces
            all_bytes h (ground arith)
          ∙ append_assoc hashed piece (concat pieces)
    ]

-- No file has this identity, neither in the table nor on the disk.
pub record IsNew (identity : FileIdentity) (s : Storage) : Type 0 where
  pub unknown :
      (path : Str) (file : VerifiedFile)
      → get path s.verified ≡ some file
      → identity ≢ file.identity
  pub unused :
      (path : Str) (entry : Entry) → get path s.disk ≡ some entry → identity ≢ entry.identity

module _ (sha256_hex : Str → Str) where
  -- A regular file stands there, whose bytes have this hash.
  abbrev pub HasChecksum : Disk → Str → Str → Type 0
  HasChecksum disk path checksum =
      (entry : Entry) × (get path disk ≡ some entry)
      × (entry.regular ≡ true)
      × (sha256_hex entry.content ≡ checksum)

  -- A file that still has the identity in the table has the hash in the table.
  abbrev pub IsIdentified : Storage → Type 0
  IsIdentified s =
      (path : Str) (file : VerifiedFile) (entry : Entry)
      → get path s.verified ≡ some file
      → get path s.disk ≡ some entry
      → entry.identity ≡ file.identity
      → sha256_hex entry.content ≡ file.checksum

  get-record_verified :
      (path other : Str) (identity : FileIdentity) (checksum : Str) (m : Table)
      (file : VerifiedFile)
      → get other (record_verified path identity checksum m) ≡ some file
      → ((path ≡ other) × (file ≡ record { identity = identity; checksum = checksum }))
        ⊎ (get other m ≡ some file)
  unfolding record_verified make_space get
  get-record_verified path other identity checksum m file h =
      elim (Bool-cases (str_beq path other)) [
        | inl same ↦ inl (
          (str_beq_iff path other).0 same,
          ground (
            arith,
            get-insert path other (record { identity = identity; checksum = checksum })
                (make_space path m),
          ),
        )
        | inr differ ↦ inr (
            ground (
              arith,
              get-insert path other (record { identity = identity; checksum = checksum })
                  (make_space path m),
            ))
      ]

  pub remove-IsIdentified :
      (path : Str) (s : Storage)
      → IsIdentified s
      → IsIdentified (record s { verified = remove path s.verified })
  remove-IsIdentified path s h other file entry t d i =
      h other file entry (ground (arith, get-remove path other s.verified)) d i

  pub remove-IsNew :
      (path : Str) (s : Storage) (identity : FileIdentity)
      → IsNew identity s
      → IsNew identity (record s { verified = remove path s.verified })
  remove-IsNew path s identity n = record {
    unknown =
        λ other file t. n.unknown other file (ground (arith, get-remove path other s.verified));
    unused = n.unused;
  }

  pub record_verified-IsNew :
      (path : Str) (entry : Entry) (checksum : Str) (s : Storage) (identity : FileIdentity)
      → get path s.disk ≡ some entry
      → IsNew identity s
      → IsNew identity
          (record s { verified = record_verified path entry.identity checksum s.verified })
  record_verified-IsNew path entry checksum s identity here n = record {
    unknown = λ other file t.
        elim (get-record_verified path other entry.identity checksum s.verified file t) [
          | inr old ↦ n.unknown other file old
          | inl (_, new) ↦
              λ e. n.unused path entry here (e ∙ ap (λ (f : VerifiedFile). f.identity) new)
        ];
    unused = n.unused;
  }

  -- Recording a file with its own identity and hash keeps the table true.
  pub record_verified-IsIdentified :
      (path : Str) (entry : Entry) (checksum : Str) (s : Storage)
      → get path s.disk ≡ some entry
      → sha256_hex entry.content ≡ checksum
      → IsIdentified s
      → IsIdentified
          (record s { verified = record_verified path entry.identity checksum s.verified })
  record_verified-IsIdentified path entry checksum s here hashed h other file e t d i =
      elim (get-record_verified path other entry.identity checksum s.verified file t) [
        | inr old ↦ h other file e old d i
        | inl (same, new) ↦ let found : entry ≡ e = cc in rw (new, ← found) hashed
      ]
