-- ===== src/Metadata/Listing/Sorted.antt =====
-- src/metadata.rs: the list of a provider's versions is sorted and has every version.
use open_tf_mirror.Base.{
  ◌≡◌, refl, ◌∙◌, ap, inl, inr, Bool, true, false, ◌||◌, List, [], ◌∷◌, map, any, All, All-mono,
  Bool-cases, Str, str_beq, str_beq_iff, arith,
}
use open_tf_mirror.Registry.Types.{RegistryVersion}
use open_tf_mirror.Metadata.Validate.{normalize_version}
use open_tf_mirror.Metadata.Listing.{
  Semver, is_greater, distinct, compare_versions, insert_sorted, sort_versions, version_list,
}
use open_tf_mirror.Metadata.Listing.Order.{IsSemver, compare_versions-total, compare_versions_trans}

abbrev pub contains : Str → List Str → Bool
contains v versions = any (str_beq v) versions

contains-eq :
    (v x y : Str) (xs : List Str) → contains x xs ≡ true → str_beq v x ≡ true → contains v xs ≡ true
contains-eq v x y [] h e = cc
contains-eq v x y (z ∷ zs) h e =
    ground (arith, contains-eq v x y zs, str_beq_iff v x, str_beq_iff x z, str_beq_iff v z)

contains-distinct : (v : Str) (xs : List Str) → contains v (distinct xs) ≡ contains v xs
unfolding distinct
contains-distinct v [] = refl
contains-distinct v (x ∷ xs) = elim (Bool-cases (any (str_beq x) (distinct xs))) [
  | inr new ↦ ground (arith, contains-distinct v xs)
  | inl seen ↦ elim (Bool-cases (str_beq v x)) [
    | inr other ↦ ground (arith, contains-distinct v xs)
    | inl same ↦ ground (arith, contains-distinct v xs, contains-eq v x x (distinct xs) seen same)
  ]
]

module _ (semver : Semver) where
  abbrev pub NotAfter : Str → Str → Type 0
  NotAfter a b = is_greater (compare_versions semver a b) ≡ false

  abbrev pub IsSorted : List Str → Type 0
  IsSorted [] = Unit
  IsSorted (x ∷ xs) = All (NotAfter x) xs × IsSorted xs

  contains-insert_sorted :
      (v x : Str) (ys : List Str)
      → contains v (insert_sorted semver x ys) ≡ (str_beq v x || contains v ys)
  unfolding insert_sorted
  contains-insert_sorted v x [] = refl
  contains-insert_sorted v x (y ∷ ys) = ground (arith, contains-insert_sorted v x ys)

  contains-sort_versions :
      (v : Str) (xs : List Str) → contains v (sort_versions semver xs) ≡ contains v xs
  unfolding sort_versions
  contains-sort_versions v [] = refl
  contains-sort_versions v (x ∷ xs) =
      contains-insert_sorted v x (sort_versions semver xs)
      ∙ ap (◌||◌ (str_beq v x)) (contains-sort_versions v xs)

  insert_sorted-All :
      (P : Str → Type 0) (x : Str) (ys : List Str)
      → P x
      → All P ys
      → All P (insert_sorted semver x ys)
  unfolding insert_sorted
  insert_sorted-All P x [] p h = (p, tt)
  insert_sorted-All P x (y ∷ ys) p (q, h) =
      elim (Bool-cases (is_greater (compare_versions semver x y))) [
        | inl after ↦ rw (insert_sorted, after) (q, insert_sorted-All P x ys p h)
        | inr before ↦ rw (insert_sorted, before) (p, (q, h))
      ]

  module _ (laws : IsSemver semver) where
    insert_sorted-IsSorted :
        (x : Str) (ys : List Str) → IsSorted ys → IsSorted (insert_sorted semver x ys)
    unfolding insert_sorted
    insert_sorted-IsSorted x [] h = (tt, tt)
    insert_sorted-IsSorted x (y ∷ ys) (least, h) =
        elim (Bool-cases (is_greater (compare_versions semver x y))) [
          | inl after ↦
              rw (insert_sorted, after)
                (
                  insert_sorted-All (NotAfter y) x ys (compare_versions-total semver laws x y after)
                      least,
                  insert_sorted-IsSorted x ys h,
                )
          | inr before ↦
              rw (insert_sorted, before)
                (
                  (
                    before,
                    All-mono (NotAfter y) (NotAfter x)
                        (λ z after. compare_versions_trans semver laws x y z before after) ys least,
                  ),
                  (least, h),
                )
        ]

    sort_versions-IsSorted : (xs : List Str) → IsSorted (sort_versions semver xs)
    unfolding sort_versions
    sort_versions-IsSorted [] = tt
    sort_versions-IsSorted (x ∷ xs) =
        insert_sorted-IsSorted x (sort_versions semver xs) (sort_versions-IsSorted xs)

    -- Where the order of `semver` is total and transitive, and a hash set gives its members in some
    -- order: the list of versions is sorted by `compare_versions`, and a version is in it exactly if it
    -- is one of the registry's, without the leading `v`.
    pub version_list-IsSorted :
        (hash_order : List Str → List Str) (items : List RegistryVersion)
        → ((v : Str) (xs : List Str) → contains v (hash_order xs) ≡ contains v xs)
        → IsSorted (version_list semver hash_order items)
          × ((v : Str)
              → contains v (version_list semver hash_order items)
                ≡ contains v (map (λ item. normalize_version item.version) items))
    unfolding version_list
    version_list-IsSorted hash_order items same =
        let found = map (λ (item : RegistryVersion). normalize_version item.version) items in
        (
          sort_versions-IsSorted (hash_order (distinct found)),
          λ v.
              contains-sort_versions v (hash_order (distinct found))
              ∙ same v (distinct found)
              ∙ contains-distinct v found,
        )
