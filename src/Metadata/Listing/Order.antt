-- ===== src/Metadata/Listing/Order.antt =====
-- src/metadata.rs: `compare_versions` is a total preorder.
use open_tf_mirror.Base.{◌≡◌, refl, inl, inr, true, false, [], ◌∷◌, Option-cases, Str, arith}
use open_tf_mirror.Metadata.Listing.{Semver, str_cmp, is_greater, compare_versions}

-- What `cmp` of `semver` is documented to be: of two versions one is not greater, and a version that is
-- not greater than one that is not greater than a third is not greater than the third.
pub record IsSemver (semver : Semver) : Type 0 where
  pub total :
      (v w : semver.Version)
      → is_greater (semver.cmp v w) ≡ true
      → is_greater (semver.cmp w v) ≡ false
  pub trans :
      (u v w : semver.Version)
      → is_greater (semver.cmp u v) ≡ false
      → is_greater (semver.cmp v w) ≡ false
      → is_greater (semver.cmp u w) ≡ false

str_cmp-total : (s t : Str) → is_greater (str_cmp s t) ≡ true → is_greater (str_cmp t s) ≡ false
str_cmp-total [] [] h = refl
str_cmp-total [] (b ∷ t) h = cc
str_cmp-total (a ∷ s) [] h = refl
str_cmp-total (a ∷ s) (b ∷ t) h = ground (arith, str_cmp-total s t)

str_cmp_trans :
    (s t u : Str)
    → is_greater (str_cmp s t) ≡ false
    → is_greater (str_cmp t u) ≡ false
    → is_greater (str_cmp s u) ≡ false
str_cmp_trans [] t [] h k = refl
str_cmp_trans [] t (c ∷ u) h k = refl
str_cmp_trans (a ∷ s) [] u h k = cc
str_cmp_trans (a ∷ s) (b ∷ t) [] h k = cc
str_cmp_trans (a ∷ s) (b ∷ t) (c ∷ u) h k = ground (arith, str_cmp_trans s t u)

module _ (semver : Semver) (laws : IsSemver semver) where
  open semver use {parse}

  pub compare_versions-total :
      (a b : Str)
      → is_greater (compare_versions semver a b) ≡ true
      → is_greater (compare_versions semver b a) ≡ false
  unfolding compare_versions
  compare_versions-total a b h = elim (Option-cases (parse a)) [
    | inl p ↦ elim (Option-cases (parse b)) [
      | inl q ↦ rw (compare_versions, q, p) (str_cmp-total a b (rw (compare_versions, p, q) at h))
      | inr (w, q) ↦ rw (compare_versions, q, p)
    ]
    | inr (v, p) ↦ elim (Option-cases (parse b)) [
      | inl q ↦ absurd (ground arith)
      | inr (w, q) ↦ rw (compare_versions, q, p) (laws.total v w (rw (compare_versions, p, q) at h))
    ]
  ]

  pub compare_versions_trans :
      (a b c : Str)
      → is_greater (compare_versions semver a b) ≡ false
      → is_greater (compare_versions semver b c) ≡ false
      → is_greater (compare_versions semver a c) ≡ false
  unfolding compare_versions
  compare_versions_trans a b c h k = elim (Option-cases (parse a)) [
    | inl p ↦ elim (Option-cases (parse b)) [
      | inl q ↦ elim (Option-cases (parse c)) [
        | inl r ↦
            rw (compare_versions, p, r)
              (str_cmp_trans a b c (rw (compare_versions, p, q) at h)
                (rw (compare_versions, q, r) at k))
        | inr (w, r) ↦ absurd (ground arith)
      ]
      | inr (v, q) ↦ absurd (ground arith)
    ]
    | inr (u, p) ↦ elim (Option-cases (parse c)) [
      | inl r ↦ rw (compare_versions, p, r)
      | inr (w, r) ↦ elim (Option-cases (parse b)) [
        | inl q ↦ absurd (ground arith)
        | inr (v, q) ↦
            rw (compare_versions, p, r)
              (laws.trans u v w (rw (compare_versions, p, q) at h)
                (rw (compare_versions, q, r) at k))
      ]
    ]
  ]
