-- ===== src/Http/Ready.antt =====
-- src/http_api.rs: `readyz`, which creates a file in the data directory and removes it.
use open_tf_mirror.Base.{
  ℕ, ◌≡◌, ◌≢◌, refl, ◌∙◌, ◌⊎◌, inl, inr, Bool, true, false, ◌||◌, ◌∷◌, ◌++◌, none, Option-cases,
  Str, str_eq, codes, decimal, Result, ok, err, if◌then◌else◌, arith,
}
use open_tf_mirror.Base.Map.{get, insert, remove, contains_key, get-remove_self}
use open_tf_mirror.Storage.{FileIdentity, ProviderStorageError, io}
use open_tf_mirror.Storage.Disk.{Disk}
use open_tf_mirror.Storage.Fetch.{join_path, new_file}
use open_tf_mirror.Storage.Fetch.Copy.{get-insert_other, get-remove_other}
use open_tf_mirror.Http.Response.{HttpResponse}
use open_tf_mirror.Http.Handlers.{ready_response}

-- `.readyz-{pid}-{sequence}` in the data directory
unfoldable pub probe_path : Str → (process_id sequence : ℕ) → Str
probe_path data_dir process_id sequence =
    join_path data_dir (codes ".readyz-" ++ decimal process_id ++ b'-' ∷ decimal sequence)

-- Which of the calls fail, and the identity of the new file.
pub record ProbeCall : Type 0 where
  pub open_fails : Bool
  pub sync_fails : Bool
  pub remove_fails : Bool
  pub identity : FileIdentity

unfoldable pub probe : ProbeCall → Str → Disk → Disk × Result ProviderStorageError (Unit {0})
probe call path disk =
    let opened = insert path (new_file call.identity) disk in
    if call.open_fails || contains_key path disk
    then (disk, err io)
    else if call.sync_fails
    then (opened, err io)
    else if call.remove_fails
    then (opened, err io)
    else (remove path opened, ok tt)

unfoldable pub readyz :
    ProbeCall → (data_dir : Str) → (process_id sequence : ℕ) → Disk → Disk × HttpResponse
readyz call data_dir process_id sequence disk =
    let (disk', result) = probe call (probe_path data_dir process_id sequence) disk in
    (disk', ready_response result)

-- No file but the probe changes, and the answer is 200 with every file as before, or 503.
abbrev pub IsProbe : Str → Disk → Disk × HttpResponse → Type 0
IsProbe path disk (disk', response) =
    ((other : Str) → other ≢ path → get other disk' ≡ get other disk)
    × (((response.status ≡ 200) × (get path disk' ≡ none) × (get path disk ≡ none))
        ⊎ (response.status ≡ 503))

absent :
    (path : Str) (disk : Disk) (fails : Bool)
    → (fails || contains_key path disk) ≡ false
    → get path disk ≡ none
absent path disk fails h = elim (Option-cases (get path disk)) [
  | inl missing ↦ missing
  | inr (entry, found) ↦ absurd (ground arith)
]

if-IsProbe :
    (path : Str) (disk : Disk) (test : Bool) (x y : Disk × Result ProviderStorageError (Unit {0}))
    → (test ≡ true → IsProbe path disk (x.0, ready_response x.1))
    → (test ≡ false → IsProbe path disk (y.0, ready_response y.1))
    → IsProbe path disk ((if test then x else y).0, ready_response (if test then x else y).1)
if-IsProbe path disk true x y h k = h refl
if-IsProbe path disk false x y h k = k refl

-- Whichever call of the file system fails, `readyz` changes no file but its probe; it answers with 200
-- only if the probe was not there before and is not there after, and else with 503.
pub readyz-IsProbe :
    (call : ProbeCall) (data_dir : Str) (process_id sequence : ℕ) (disk : Disk)
    → IsProbe
        (probe_path data_dir process_id sequence)
        disk
        (readyz call data_dir process_id sequence disk)
unfolding readyz probe ready_response
readyz-IsProbe call data_dir process_id sequence disk =
    let path = probe_path data_dir process_id sequence in
    let created = λ (other : Str) (ne : other ≢ path).
      get-insert_other path other (new_file call.identity) disk ne in
    if-IsProbe path disk (call.open_fails || contains_key path disk) _ _
      (λ _. (λ other ne. refl, inr refl))
      (λ new.
        if-IsProbe path disk call.sync_fails _ _ (λ _. (created, inr refl))
          (λ _.
            if-IsProbe path disk call.remove_fails _ _ (λ _. (created, inr refl))
              (λ _. (
                λ other ne.
                    get-remove_other path other (insert path (new_file call.identity) disk) ne
                    ∙ created other ne,
                inl (
                  refl,
                  get-remove_self path (insert path (new_file call.identity) disk),
                  absent path disk call.open_fails new,
                ),
              ))))
