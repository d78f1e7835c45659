-- ===== src/Storage/Fetch/Copy.antt =====
-- src/storage.rs: the body of a download is copied to the temporary file, whole or not at all.
use open_tf_mirror.Base.{
  ℕ, ◌≤◌, ◌<◌, ◌≡◌, ◌≢◌, inl, inr, refl, sym, ◌∙◌, ltb, List, [], ◌∷◌, ◌++◌, Option, some, none,
  Option-cases, Bool-cases, Str, str_eq, beq_ne, ok, arith, length, length-append, saturating_add,
  u64_max,
}
use open_tf_mirror.Base.Map.{
  get, insert, remove, get-insert, get-insert_self, get-remove, get-remove_self,
}
use open_tf_mirror.Storage.Disk.{Entry, Disk, Io}
use open_tf_mirror.Storage.Fetch.{append_file, copy_chunks, rename}

-- The two disks differ at this path at most.
abbrev pub SameBut : Str → Disk → Disk → Type 0
SameBut temp disk disk' = (path : Str) → path ≢ temp → get path disk' ≡ get path disk

pub get-insert_other :
    (temp path : Str) (entry : Entry) (disk : Disk)
    → path ≢ temp
    → get path (insert temp entry disk) ≡ get path disk
get-insert_other temp path entry disk ne =
    rw (get-insert temp path entry disk, beq_ne temp path (λ e. ne (sym e)))

pub get-remove_other :
    (temp path : Str) (disk : Disk) → path ≢ temp → get path (remove temp disk) ≡ get path disk
get-remove_other temp path disk ne =
    rw (get-remove temp path disk, beq_ne temp path (λ e. ne (sym e)))

pub append_file-SameBut :
    (temp chunk : Str) (disk : Disk) → SameBut temp disk (append_file temp chunk disk)
unfolding append_file
append_file-SameBut temp chunk disk path ne = elim (Option-cases (get temp disk)) [
  | inl missing ↦ rw (append_file, missing)
  | inr (entry, found) ↦
      rw (append_file, found)
        (get-insert_other temp path (record entry { content = entry.content ++ chunk }) disk ne)
]

pub get-append_file :
    (temp chunk : Str) (entry : Entry) (disk : Disk)
    → get temp disk ≡ some entry
    → get temp (append_file temp chunk disk)
      ≡ some (record entry { content = entry.content ++ chunk })
unfolding append_file
get-append_file temp chunk entry disk found =
    rw (append_file, found)
      (get-insert_self temp (record entry { content = entry.content ++ chunk }) disk)

-- The file has the bytes that were hashed, and no more than the limit.
abbrev pub HasBytes : ℕ → Str → Entry → Str → Disk → Type 0
HasBytes max_bytes temp entry hashed disk =
    (get temp disk ≡ some (record entry { content = hashed })) × (length hashed ≤ max_bytes)

module _ (call : Io) (max_bytes : ℕ) (temp : Str) where
  pub copy_chunks-SameBut :
      (total : ℕ) (hashed : Str) (chunks : List (Option Str)) (disk : Disk)
      → SameBut temp disk (copy_chunks call max_bytes total temp hashed chunks disk).0
  unfolding copy_chunks
  copy_chunks-SameBut total hashed [] disk path ne = refl
  copy_chunks-SameBut total hashed (none ∷ chunks) disk path ne = refl
  copy_chunks-SameBut total hashed (some chunk ∷ chunks) disk path ne =
      let total' = saturating_add total (length chunk) in
      let rest =
        copy_chunks-SameBut total' (hashed ++ chunk) chunks (append_file temp chunk disk) path ne
        ∙ append_file-SameBut temp chunk disk path ne in
      elim (Bool-cases (ltb max_bytes total')) [
        | inl large ↦ rw (copy_chunks, large)
        | inr small ↦ elim (Bool-cases (call.write_fails total')) [
          | inl fails ↦ rw (copy_chunks, small, fails)
          | inr works ↦ rw (copy_chunks, small, works) rest
        ]
      ]

  pub copy_chunks-HasBytes :
      (total : ℕ) (hashed : Str) (chunks : List (Option Str)) (disk : Disk) (entry : Entry)
      (bytes : Str)
      → max_bytes < u64_max
      → total ≡ length hashed
      → HasBytes max_bytes temp entry hashed disk
      → (copy_chunks call max_bytes total temp hashed chunks disk).1 ≡ ok bytes
      → HasBytes max_bytes temp entry bytes
          (copy_chunks call max_bytes total temp hashed chunks disk).0
  unfolding copy_chunks
  copy_chunks-HasBytes total hashed [] disk entry bytes lt l h e =
      let same : hashed ≡ bytes = cc in rw (← same) h
  copy_chunks-HasBytes total hashed (none ∷ chunks) disk entry bytes lt l h e = cc
  copy_chunks-HasBytes total hashed (some chunk ∷ chunks) disk entry bytes lt l (h, k) e =
      let total' = saturating_add total (length chunk) in
      elim (Bool-cases (ltb max_bytes total')) [
        | inl large ↦ absurd (ground arith)
        | inr small ↦ elim (Bool-cases (call.write_fails total')) [
          | inl fails ↦ absurd (ground arith)
          | inr works ↦
              let counted : total' ≡ length (hashed ++ chunk) =
                ground (arith, length-append hashed chunk) in
              let within : length (hashed ++ chunk) ≤ max_bytes = ground (arith, counted) in
              rw (copy_chunks, small, works)
                (copy_chunks-HasBytes total' (hashed ++ chunk) chunks (append_file temp chunk disk)
                  entry bytes lt counted
                  (get-append_file temp chunk (record entry { content = hashed }) disk h, within)
                  (ground arith))
        ]
      ]

-- The temporary file takes the place of the destination.
pub get-rename :
    (temp destination : Str) (entry : Entry) (disk : Disk)
    → temp ≢ destination
    → get temp disk ≡ some entry
    → (get destination (rename temp destination disk) ≡ some entry)
      × (get temp (rename temp destination disk) ≡ none)
unfolding rename
get-rename temp destination entry disk ne found = (
  rw (rename, found) (get-insert_self destination entry (remove temp disk)),
  rw (rename, found)
      (get-insert_other destination temp entry (remove temp disk) ne ∙ get-remove_self temp disk),
)

pub get-rename_other :
    (temp destination path : Str) (disk : Disk)
    → path ≢ temp
    → path ≢ destination
    → get path (rename temp destination disk) ≡ get path disk
unfolding rename
get-rename_other temp destination path disk ne ne' = elim (Option-cases (get temp disk)) [
  | inl missing ↦ rw (rename, missing)
  | inr (entry, found) ↦
      rw (rename, found)
        (get-insert_other destination path entry (remove temp disk) ne'
          ∙ get-remove_other temp path disk ne)
]
