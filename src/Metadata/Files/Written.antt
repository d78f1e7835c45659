-- ===== src/Metadata/Files/Written.antt =====
-- src/metadata.rs: `write_json_atomic` and `read_json` over the files on the disk.
use open_tf_mirror.Base.{
  ℕ, ◌≡◌, ◌≢◌, ◌⊎◌, inl, inr, refl, sym, ◌∙◌, ap, Bool, true, false, ◌||◌, if◌then◌else◌, [], ◌∷◌,
  ◌++◌, Option, some, none, Bool-cases, Str, str_eq, codes, decimal, Result, ok, err, arith,
}
use open_tf_mirror.Base.Map.{get, insert, contains_key, get-insert_self}
use open_tf_mirror.Metadata.Types.{MetadataError, io}
use open_tf_mirror.Storage.Disk.{Entry, Disk}
use open_tf_mirror.Storage.Fetch.{join_path, new_file, append_file, rename}
use open_tf_mirror.Storage.Fetch.Copy.{
  SameBut, get-insert_other, get-remove_other, append_file-SameBut, get-append_file, get-rename,
  get-rename_other,
}
use open_tf_mirror.Metadata.Files.{
  parent, metadata_temp, WriteCall, Written, discard, write_file, write_json_atomic, read_json,
}

last_byte : Str → Option ℕ
last_byte [] = none
last_byte (c ∷ []) = some c
last_byte (c ∷ d ∷ s) = last_byte (d ∷ s)

last_byte-append : (s : Str) (c : ℕ) (t : Str) → last_byte (s ++ c ∷ t) ≡ last_byte (c ∷ t)
unfolding last_byte
last_byte-append [] c t = refl
last_byte-append (a ∷ []) c t = refl
last_byte-append (a ∷ b ∷ s) c t = last_byte-append (b ∷ s) c t

abbrev byte_of : Option ℕ → ℕ
byte_of none = 0
byte_of (some c) = c

-- A temporary file ends in `.tmp`.
metadata_temp-ne :
    (path stem : Str) (process_id sequence : ℕ)
    → metadata_temp path process_id sequence ≢ stem ++ codes ".json"
unfolding metadata_temp join_path last_byte
metadata_temp-ne path stem process_id sequence same =
    let name = codes ".metadata-" ++ decimal process_id ++ b'-' ∷ decimal sequence in
    let left = last_byte-append (parent path) b'/' (name ++ codes ".tmp") in
    let left' = last_byte-append (b'/' ∷ name) b'.' (codes "tmp") in
    let right = last_byte-append stem b'.' (codes "json") in
    let both : b'p' ≡ b'n' = ap byte_of (sym (left ∙ left') ∙ ap last_byte same ∙ right) in
    absurd (omega (arith, both))

module _ (call : WriteCall) (temp path bytes : Str) (disk : Disk) where
  abbrev pub new_entry : Entry
  new_entry = record (new_file call.identity) { content = bytes }

  -- Either the file at the path is as it was and the call failed, or it is the new one and the
  -- temporary file is gone. No other file changes.
  pub record IsAtomic (run : Written) : Type 0 where
    pub others : (other : Str) → other ≢ temp → other ≢ path → get other run.0 ≡ get other disk
    pub outcome :
        ((get path run.0 ≡ get path disk) × (run.1 ≢ ok tt))
        ⊎ ((get path run.0 ≡ some new_entry) × (get temp run.0 ≡ none))

  failed-IsAtomic :
      (left : Disk) (error : MetadataError)
      → temp ≢ path
      → SameBut temp disk left
      → IsAtomic (left, err error)
  failed-IsAtomic left error ne same = record {
    others = λ other n _. same other n;
    outcome = inl (same path (λ e. ne (sym e)), λ e. cc);
  }

  discard-SameBut :
      (left : Disk) → SameBut temp disk left → SameBut temp disk (discard call temp left)
  unfolding discard
  discard-SameBut left same other n = elim (Bool-cases call.remove_fails) [
    | inl stays ↦ rw (discard, stays) (same other n)
    | inr goes ↦ rw (discard, goes) (get-remove_other temp other left n ∙ same other n)
  ]

  appended-SameBut :
      (text : Str)
      → SameBut temp disk (append_file temp text (insert temp (new_file call.identity) disk))
  appended-SameBut text other n =
      append_file-SameBut temp text (insert temp (new_file call.identity) disk) other n
      ∙ get-insert_other temp other (new_file call.identity) disk n

  written-IsAtomic :
      (result : Result MetadataError (Unit {0}))
      → temp ≢ path
      → IsAtomic (
        rename temp path (append_file temp bytes (insert temp (new_file call.identity) disk)),
        result,
      )
  written-IsAtomic result ne =
      let opened = insert temp (new_file call.identity) disk in
      let there =
        get-append_file temp bytes (new_file call.identity) opened
          (get-insert_self temp (new_file call.identity) disk) in
      let (here, gone) = get-rename temp path new_entry (append_file temp bytes opened) ne there in
      record {
        others = λ other n m.
            get-rename_other temp path other (append_file temp bytes opened) n m
            ∙ appended-SameBut bytes other n;
        outcome = inr (here, gone);
      }

  if-IsAtomic :
      (test : Bool) (x y : Written) → IsAtomic x → IsAtomic y → IsAtomic (if test then x else y)
  if-IsAtomic true x y h k = h
  if-IsAtomic false x y h k = k

  write_file-IsAtomic : temp ≢ path → IsAtomic (write_file call temp path bytes disk)
  unfolding write_file
  write_file-IsAtomic ne =
      let opened = insert temp (new_file call.identity) disk in
      let written = append_file temp bytes opened in
      let dropped =
        failed-IsAtomic (discard call temp written) io ne
          (discard-SameBut written (appended-SameBut bytes)) in
      let part = append_file temp (call.partial bytes) opened in
      if-IsAtomic (call.open_fails || contains_key temp disk) _ _
        (failed-IsAtomic disk io ne (λ other n. refl))
        (if-IsAtomic call.write_fails _ _
          (failed-IsAtomic (discard call temp part) io ne
            (discard-SameBut part (appended-SameBut (call.partial bytes))))
          (if-IsAtomic call.sync_fails _ _ dropped (
            if-IsAtomic call.rename_fails _ _ dropped
              (written-IsAtomic (if call.sync_parent_fails then err io else ok tt) ne))))

module _ {T : Type 0} (to_vec : T → Option Str) where
  -- However a call of `write_json_atomic` turns out at a path that ends in `.json`, with a value that has
  -- a text: no file changes but the one at the path and the temporary one; and at the path stands the
  -- text, with the temporary file gone, or what stood there before, and then the call fails.
  pub write_json_atomic-IsAtomic :
      (call : WriteCall) (process_id sequence : ℕ) (stem : Str) (value : T) (bytes : Str)
      (disk : Disk)
      → to_vec value ≡ some bytes
      → IsAtomic call
          (metadata_temp (stem ++ codes ".json") process_id sequence)
          (stem ++ codes ".json")
          bytes
          disk
          (write_json_atomic to_vec call process_id sequence (stem ++ codes ".json") value disk).1
  unfolding write_json_atomic
  write_json_atomic-IsAtomic call process_id sequence stem value bytes disk made =
      let path = stem ++ codes ".json" in
      let temp = metadata_temp path process_id sequence in
      let ne = metadata_temp-ne path stem process_id sequence in
      elim (Bool-cases call.create_dir_fails) [
        | inl fails ↦
            simp fails (failed-IsAtomic call temp path bytes disk disk io ne (λ other n. refl))
        | inr works ↦ simp (works, made) (write_file-IsAtomic call temp path bytes disk ne)
      ]

  -- If the parser reads the text of a value as that value: after a call of `write_json_atomic` that
  -- succeeds at a path that ends in `.json`, `read_json` at the path gives the value.
  pub read_json-write_json_atomic :
      (from_slice : Str → Option T) (call : WriteCall) (process_id sequence : ℕ) (stem : Str)
      (value : T) (bytes : Str) (disk : Disk)
      → to_vec value ≡ some bytes
      → from_slice bytes ≡ some value
      → (write_json_atomic to_vec call process_id sequence (stem ++ codes ".json") value disk).1.1
        ≡ ok tt
      → read_json from_slice false
          (stem ++ codes ".json")
          (write_json_atomic to_vec call process_id sequence (stem ++ codes ".json") value disk).1.0
        ≡ ok (some value)
  unfolding read_json
  read_json-write_json_atomic from_slice call process_id sequence stem value bytes disk made parsed
        done =
      let written =
        write_json_atomic-IsAtomic call process_id sequence stem value bytes disk made in
      elim written.outcome [
        | inl (same, failed) ↦ absurd (failed done)
        | inr (here, gone) ↦ rw here (ap ok parsed)
      ]
