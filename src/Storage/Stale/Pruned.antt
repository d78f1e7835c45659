-- ===== src/Storage/Stale/Pruned.antt =====
-- src/storage.rs: what `remove_stale_temp_files` removes, against a description of it.
use open_tf_mirror.Base.{
  ℕ, suc, ◌+◌, ◌≡◌, refl, ◌∙◌, ap, ◌⊎◌, inl, inr, Bool, Bool-cases, Str, Result, ok, err,
  if◌then◌else◌, arith,
}
use open_tf_mirror.Storage.{ProviderStorageError, io}
use open_tf_mirror.Storage.Stale.{
  file, directory, other, unknown, broken, Listing, missing, unreadable, entries, Entries, end,
  entry, is_temp, Walk, map_left, walk_file, and_then, walk, walk_entries, Trees, second_walk,
  remove_stale_temp_files,
}

-- The tree without its files whose names begin with a dot and end in `.tmp`, at any depth, and their
-- number.
unfoldable mutual
  pub without_temp : Listing → Listing
  without_temp missing = missing
  without_temp unreadable = unreadable
  without_temp (entries list) = entries (without_temp_entries list)

  pub without_temp_entries : Entries → Entries
  without_temp_entries end = end
  without_temp_entries (entry (file name removable) rest) =
      let left = without_temp_entries rest in
      if is_temp name then left else entry (file name removable) left
  without_temp_entries (entry (directory name list) rest) =
      entry (directory name (without_temp list)) (without_temp_entries rest)
  without_temp_entries (entry (other name) rest) = entry (other name) (without_temp_entries rest)
  without_temp_entries (entry (unknown name) rest) =
      entry (unknown name) (without_temp_entries rest)
  without_temp_entries (entry broken rest) = entry broken (without_temp_entries rest)

unfoldable mutual
  pub temp_count : Listing → ℕ
  temp_count missing = 0
  temp_count unreadable = 0
  temp_count (entries list) = temp_count_entries list

  pub temp_count_entries : Entries → ℕ
  temp_count_entries end = 0
  temp_count_entries (entry (file name removable) rest) =
      let count = temp_count_entries rest in if is_temp name then suc count else count
  temp_count_entries (entry (directory name list) rest) = temp_count list + temp_count_entries rest
  temp_count_entries (entry (other name) rest) = temp_count_entries rest
  temp_count_entries (entry (unknown name) rest) = temp_count_entries rest
  temp_count_entries (entry broken rest) = temp_count_entries rest

walk_file-without_temp :
    (name : Str) (removable : Bool) (rest : Entries) (go : ℕ → Walk Entries) (n : ℕ)
    → ((m : ℕ) → without_temp_entries (go m).0 ≡ without_temp_entries rest)
    → without_temp_entries (walk_file name removable rest go n).0
      ≡ without_temp_entries (entry (file name removable) rest)
unfolding without_temp
walk_file-without_temp name removable rest go n same = elim (Bool-cases (is_temp name)) [
  | inr kept ↦ rw kept (rw kept (ap (entry (file name removable)) (same n)))
  | inl temp ↦ elim (Bool-cases removable) [
    | inl goes ↦ rw (temp, goes) (same (suc n))
    | inr stays ↦ rw (temp, stays) (rw temp)
  ]
]

and_then-without_temp :
    (name : Str) (list : Listing) (walked : Walk Listing) (rest : Entries) (go : ℕ → Walk Entries)
    → without_temp walked.0 ≡ without_temp list
    → ((m : ℕ) → without_temp_entries (go m).0 ≡ without_temp_entries rest)
    → without_temp_entries (and_then name walked rest go).0
      ≡ without_temp_entries (entry (directory name list) rest)
unfolding without_temp
and_then-without_temp name list (left, n, ok _) rest go below same =
    rw below (ap (entry (directory name (without_temp list))) (same n))
and_then-without_temp name list (left, n, err error) rest go below same = rw below

-- Nothing but temporary files is gone.
mutual
  unfolding walk without_temp

  walk-without_temp : (list : Listing) (n : ℕ) → without_temp (walk list n).0 ≡ without_temp list
  walk-without_temp missing n = refl
  walk-without_temp unreadable n = refl
  walk-without_temp (entries list) n = ap entries (walk_entries-without_temp list n)

  walk_entries-without_temp :
      (list : Entries) (n : ℕ)
      → without_temp_entries (walk_entries list n).0 ≡ without_temp_entries list
  walk_entries-without_temp end n = refl
  walk_entries-without_temp (entry (file name removable) rest) n =
      walk_file-without_temp name removable rest (walk_entries rest) n
        (walk_entries-without_temp rest)
  walk_entries-without_temp (entry (directory name list) rest) n =
      and_then-without_temp name list (walk list n) rest (walk_entries rest)
        (walk-without_temp list n) (walk_entries-without_temp rest)
  walk_entries-without_temp (entry (other name) rest) n =
      ap (entry (other name)) (walk_entries-without_temp rest n)
  walk_entries-without_temp (entry (unknown name) rest) n = refl
  walk_entries-without_temp (entry broken rest) n = refl

-- The walk ends in an error, or with this tree and this count.
abbrev Ends : {T : Type 0} → Walk T → T → ℕ → Type 0
Ends walked left count =
    ((error : ProviderStorageError) × (walked.2 ≡ err error))
    ⊎ ((walked.0 ≡ left) × (walked.1 ≡ count) × (walked.2 ≡ ok tt))

map_left-Ends :
    {S T : Type 0} (f : S → T) (walked : Walk S) (left : S) (count : ℕ)
    → Ends walked left count
    → Ends (map_left f walked) (f left) count
map_left-Ends f walked left count (inl failed) = inl failed
map_left-Ends f walked left count (inr (a, b, c)) = inr (ap f a, b, c)

walk_file-Ends :
    (name : Str) (removable : Bool) (rest : Entries) (go : ℕ → Walk Entries) (n : ℕ)
    → ((m : ℕ) → Ends (go m) (without_temp_entries rest) (m + temp_count_entries rest))
    → Ends
        (walk_file name removable rest go n)
        (without_temp_entries (entry (file name removable) rest))
        (n + temp_count_entries (entry (file name removable) rest))
unfolding without_temp temp_count
walk_file-Ends name removable rest go n ends = elim (Bool-cases (is_temp name)) [
  | inr kept ↦
      rw kept (
        map_left-Ends (entry (file name removable)) (go n) _ (n + temp_count_entries rest) (ends n))
  | inl temp ↦ elim (Bool-cases removable) [
    | inr stays ↦ rw (temp, stays) (inl (io, refl))
    | inl goes ↦
        let next : suc n + temp_count_entries rest ≡ n + suc (temp_count_entries rest) =
          omega arith in
        rw (temp, goes) (rw next at (ends (suc n)))
  ]
]

and_then-Ends :
    (name : Str) (list : Listing) (walked : Walk Listing) (rest : Entries) (go : ℕ → Walk Entries)
    (n : ℕ)
    → Ends walked (without_temp list) (n + temp_count list)
    → ((m : ℕ) → Ends (go m) (without_temp_entries rest) (m + temp_count_entries rest))
    → Ends
        (and_then name walked rest go)
        (without_temp_entries (entry (directory name list) rest))
        (n + temp_count_entries (entry (directory name list) rest))
unfolding without_temp temp_count
and_then-Ends name list (left, m, err error) rest go n h ends = inl (error, refl)
and_then-Ends name list (left, m, ok _) rest go n (inl (error, h)) ends = absurd (ground arith)
and_then-Ends name list (left, m, ok _) rest go n (inr (a, b, _)) ends =
    let sum : m + temp_count_entries rest ≡ n + (temp_count list + temp_count_entries rest) =
      omega (arith, b) in
    rw a (
      map_left-Ends (entry (directory name (without_temp list))) (go m) (without_temp_entries rest)
        (n + (temp_count list + temp_count_entries rest)) (rw sum at (ends m)))

-- A walk that is not left by an error removes them all.
mutual
  unfolding walk without_temp temp_count

  walk-Ends :
      (list : Listing) (n : ℕ) → Ends (walk list n) (without_temp list) (n + temp_count list)
  walk-Ends missing n = inr (refl, omega arith, refl)
  walk-Ends unreadable n = inl (io, refl)
  walk-Ends (entries list) n =
      map_left-Ends entries (walk_entries list n) (without_temp_entries list)
        (n + temp_count_entries list) (walk_entries-Ends list n)

  walk_entries-Ends :
      (list : Entries) (n : ℕ)
      → Ends (walk_entries list n) (without_temp_entries list) (n + temp_count_entries list)
  walk_entries-Ends end n = inr (refl, omega arith, refl)
  walk_entries-Ends (entry (file name removable) rest) n =
      walk_file-Ends name removable rest (walk_entries rest) n (walk_entries-Ends rest)
  walk_entries-Ends (entry (directory name list) rest) n =
      and_then-Ends name list (walk list n) rest (walk_entries rest) n (walk-Ends list n)
        (walk_entries-Ends rest)
  walk_entries-Ends (entry (other name) rest) n =
      map_left-Ends (entry (other name)) (walk_entries rest n) (without_temp_entries rest)
        (n + temp_count_entries rest) (walk_entries-Ends rest n)
  walk_entries-Ends (entry (unknown name) rest) n = inl (io, refl)
  walk_entries-Ends (entry broken rest) n = inl (io, refl)

-- Nothing but temporary files is gone from the two trees; and either the call failed, or they are all
-- gone and the count is their number.
abbrev pub IsCleaned : Listing → Listing → Trees × Result ProviderStorageError ℕ → Type 0
IsCleaned providers metadata cleaned =
    (without_temp cleaned.0.0 ≡ without_temp providers)
    × (without_temp cleaned.0.1 ≡ without_temp metadata)
    × (((error : ProviderStorageError) × (cleaned.1 ≡ err error))
        ⊎ ((cleaned.0 ≡ (without_temp providers, without_temp metadata))
            × (cleaned.1 ≡ ok (temp_count providers + temp_count metadata))))

second_walk-IsCleaned :
    (providers metadata : Listing) (walked : Walk Listing)
    → without_temp walked.0 ≡ without_temp providers
    → Ends walked (without_temp providers) (temp_count providers)
    → IsCleaned providers metadata (second_walk walked metadata)
second_walk-IsCleaned providers metadata (left, n, err error) same ends =
    (same, refl, inl (error, refl))
second_walk-IsCleaned providers metadata (left, n, ok _) same (inl (error, h)) =
    absurd (ground arith)
second_walk-IsCleaned providers metadata (left, n, ok _) same (inr (a, b, _)) = (
  same,
  walk-without_temp metadata n,
  elim (walk-Ends metadata n) [
    | inl (error, h) ↦ inl (error, rw (h, second_walk))
    | inr (c, d, h) ↦
        inr (λ i. (a i, c i), rw (h, second_walk) (ap ok (d ∙ ap (λ t. t + temp_count metadata) b)))
  ],
)

-- Whatever cannot be read or removed, `remove_stale_temp_files` takes away nothing but files whose names
-- begin with a dot and end in `.tmp`, at any depth of the two trees; and if it does not fail, then they
-- are all gone, and the answer is their number.
pub remove_stale_temp_files-IsCleaned :
    (providers metadata : Listing)
    → IsCleaned providers metadata (remove_stale_temp_files (providers, metadata))
unfolding remove_stale_temp_files
remove_stale_temp_files-IsCleaned providers metadata =
    let zero_add : 0 + temp_count providers ≡ temp_count providers = omega arith in
    second_walk-IsCleaned providers metadata (walk providers 0) (walk-without_temp providers 0)
      (rw zero_add at (walk-Ends providers 0))
