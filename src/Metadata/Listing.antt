-- ===== src/Metadata/Listing.antt =====
-- src/metadata.rs: `compare_versions` and `list_versions`. A version of the `semver` package and its
-- order are parameters, and so is the order in which a hash set gives its members.
pub mod Order
pub mod Sorted
use open_tf_mirror.Base.{
  Bool, true, false, List, [], ◌∷◌, map, any, Option, some, none, Str, str_beq, Result, ok, err,
  if◌then◌else◌,
}
use Prim.Native.Nat.{Ordering, compare}
use open_tf_mirror.Registry.Types.{RegistryVersion}
use open_tf_mirror.Metadata.Types.{MetadataError}
use open_tf_mirror.Metadata.Validate.{normalize_version, provider_key}
use open_tf_mirror.Metadata.Index.{Env, Service, load_index}

-- `Version::parse` and `cmp` of `semver`.
pub record Semver : Type 1 where
  pub Version : Type 0
  pub parse : Str → Option Version
  pub cmp : Version → Version → Ordering

-- `str::cmp`: the order of the bytes.
abbrev pub str_cmp : Str → Str → Ordering
str_cmp [] [] = Ordering.eq
str_cmp [] (b ∷ t) = Ordering.lt
str_cmp (a ∷ s) [] = Ordering.gt
str_cmp (a ∷ s) (b ∷ t) =
    let rest = str_cmp s t in
    elim (compare a b) [
      | Ordering.lt ↦ Ordering.lt
      | Ordering.eq ↦ rest
      | Ordering.gt ↦ Ordering.gt
    ]

abbrev pub is_greater : Ordering → Bool
is_greater Ordering.gt = true
is_greater _ = false

-- The members of a set, without the repetitions.
unfoldable pub distinct : List Str → List Str
distinct [] = []
distinct (x ∷ xs) = let rest = distinct xs in if any (str_beq x) rest then rest else x ∷ rest

module _ (semver : Semver) where
  open semver use {parse, cmp}

  unfoldable pub compare_versions : Str → Str → Ordering
  compare_versions a b = elim (parse a) [
    | some v ↦ elim (parse b) [ some w ↦ cmp v w | none ↦ Ordering.lt ]
    | none ↦ elim (parse b) [ some w ↦ Ordering.gt | none ↦ str_cmp a b ]
  ]

  -- `sort_by`, which is stable.
  unfoldable pub insert_sorted : Str → List Str → List Str
  insert_sorted x [] = x ∷ []
  insert_sorted x (y ∷ ys) =
      let rest = insert_sorted x ys in
      if is_greater (compare_versions x y) then y ∷ rest else x ∷ y ∷ ys

  unfoldable pub sort_versions : List Str → List Str
  sort_versions [] = []
  sort_versions (x ∷ xs) = insert_sorted x (sort_versions xs)

  -- `hash_order` is the order in which the set gives its members.
  unfoldable pub version_list : (hash_order : List Str → List Str) → List RegistryVersion → List Str
  version_list hash_order items =
      sort_versions (hash_order (distinct (map (λ item. normalize_version item.version) items)))

  unfoldable pub list_versions :
      (hash_order : List Str → List Str) (allowed_registries : List Str)
      → Env
      → Str
      → Str
      → Str
      → Service
      → Service × Result MetadataError (List Str)
  list_versions hash_order allowed_registries env hostname namespace provider_type s =
      elim (provider_key allowed_registries hostname namespace provider_type) [
        | err error ↦ (s, err error)
        | ok key ↦
            let (s', result) = load_index env key s in
            (
              s',
              elim result [
                | err error ↦ err error
                | ok entry ↦ ok (version_list hash_order entry.value)
              ],
            )
      ]
