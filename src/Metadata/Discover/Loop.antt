-- ===== src/Metadata/Discover/Loop.antt =====
-- src/metadata.rs: the loop over a directory in `discover_indices`.
use open_tf_mirror.Base.{
  ◌≡◌, refl, ◌⊎◌, inl, inr, Bool, true, false, List, [], ◌∷◌, Option, some, none, Option-cases,
  Bool-cases, Str, Result, ok, err, >>=-eq-ok, arith,
}
use open_tf_mirror.Metadata.Types.{MetadataError}
use open_tf_mirror.Metadata.Discover.{DirEntry, Indices, visit, visit_all, listing}

-- A directory of that name is listed.
abbrev pub InListing : Str → List (Option DirEntry) → Type 0
InListing name [] = ⊥
InListing name (none ∷ entries) = InListing name entries
InListing name (some entry ∷ entries) =
    ((entry.name ≡ name) × (entry.is_dir ≡ some true)) ⊎ InListing name entries

abbrev pub IsListed : Str → Result MetadataError (Option (List (Option DirEntry))) → Type 0
IsListed name (err error) = ⊥
IsListed name (ok none) = ⊥
IsListed name (ok (some entries)) = InListing name entries

pub listing-IsListed :
    (name : Str) (result : Result MetadataError (Option (List (Option DirEntry))))
    (entries : List (Option DirEntry))
    → listing result ≡ ok entries
    → InListing name entries
    → IsListed name result
listing-IsListed name (ok (some found)) entries e h =
    let same : found ≡ entries = ground arith in rw same h
listing-IsListed name (ok none) entries e h = cc
listing-IsListed name (err error) entries e h = cc

pub IsListed-listing :
    (name : Str) (result : Result MetadataError (Option (List (Option DirEntry))))
    (entries : List (Option DirEntry))
    → listing result ≡ ok entries
    → IsListed name result
    → InListing name entries
IsListed-listing name (ok (some found)) entries e h =
    let same : found ≡ entries = ground arith in rw (← same) h
IsListed-listing name (ok none) entries e h = absurd h
IsListed-listing name (err error) entries e h = absurd h

module _ (accepts : Str → Bool) (enter : Str → Indices → Result MetadataError Indices) where
  -- What the body of the loop keeps, the loop keeps.
  pub visit_all-keeps :
      (P : Indices → Type 0) (entries : List (Option DirEntry)) (m m' : Indices)
      → ((name : Str) (n n' : Indices)
          → accepts name ≡ true
          → InListing name entries
          → P n
          → enter name n ≡ ok n'
          → P n')
      → P m
      → visit_all accepts enter entries m ≡ ok m'
      → P m'
  unfolding visit_all
  visit_all-keeps P [] m m' keep p h = let same : m ≡ m' = ground arith in rw (← same) p
  visit_all-keeps P (none ∷ entries) m m' keep p h = absurd (ground arith)
  visit_all-keeps P (some entry ∷ entries) m m' keep p h =
      let (n, visited, rest) = >>=-eq-ok (visit accepts enter entry m) _ h in
      let later = λ (q : P n).
        visit_all-keeps P entries n m' (λ name a b ok listed. keep name a b ok (inr listed)) q
          rest in
      elim (Bool-cases (accepts entry.name)) [
        | inr no_name ↦ let same : m ≡ n = ground arith in later (rw (← same) p)
        | inl named ↦ elim (Option-cases entry.is_dir) [
          | inl unknown ↦ absurd (ground arith)
          | inr (false, file) ↦ let same : m ≡ n = ground arith in later (rw (← same) p)
          | inr (true, directory) ↦
              later (keep entry.name m n named (inl (refl, directory)) p (ground arith))
        ]
      ]

  -- What the body brings about at one name that is listed, and keeps at the others, holds at the end.
  pub visit_all-reaches :
      (Q : Indices → Type 0) (target : Str) (entries : List (Option DirEntry)) (m m' : Indices)
      → ((name : Str) (n n' : Indices) → Q n → enter name n ≡ ok n' → Q n')
      → ((n n' : Indices) → enter target n ≡ ok n' → Q n')
      → accepts target ≡ true
      → InListing target entries
      → visit_all accepts enter entries m ≡ ok m'
      → Q m'
  unfolding visit_all
  visit_all-reaches Q target [] m m' keep reach a listed h = absurd listed
  visit_all-reaches Q target (none ∷ entries) m m' keep reach a listed h = absurd (ground arith)
  visit_all-reaches Q target (some entry ∷ entries) m m' keep reach a (inr listed) h =
      let (n, visited, rest) = >>=-eq-ok (visit accepts enter entry m) _ h in
      visit_all-reaches Q target entries n m' keep reach a listed rest
  visit_all-reaches Q target (some entry ∷ entries) m m' keep reach a (inl (here, directory)) h =
      let (n, visited, rest) = >>=-eq-ok (visit accepts enter entry m) _ h in
      let entered : enter target m ≡ ok n = ground arith in
      visit_all-keeps Q entries n m' (λ name b c _ _ q e. keep name b c q e) (reach m n entered)
        rest
