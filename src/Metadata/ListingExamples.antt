-- ===== src/Metadata/ListingExamples.antt =====
-- src/metadata.rs: the versions of a provider of the repository's tests, and the theorem at them.
use open_tf_mirror.Base.{
  ℕ, ◌≡◌, refl, List, [], ◌∷◌, map, some, none, Str, codes, strip_prefix, arith,
}
use Prim.Native.Nat.{compare}
use open_tf_mirror.Registry.Types.{RegistryVersion}
use open_tf_mirror.Metadata.Validate.{normalize_version}
use open_tf_mirror.Metadata.Listing.{
  Semver, distinct, compare_versions, insert_sorted, sort_versions, version_list,
}
use open_tf_mirror.Metadata.Listing.Order.{IsSemver}
use open_tf_mirror.Metadata.Listing.Sorted.{contains, IsSorted, version_list-IsSorted}

-- A version is one digit.
abbrev digit : Semver
digit = record {
  Version = ℕ;
  parse = λ s. elim s [ [] ↦ none | c ∷ [] ↦ some c | _ ↦ none ];
  cmp = compare;
}

digit-IsSemver : IsSemver digit
digit-IsSemver = record { total = λ v w h. ground arith; trans = λ u v w h k. ground arith }

abbrev item : Str → RegistryVersion
item version = record { version = version; platforms = [] }

abbrev items : List RegistryVersion
items = item (codes "v3") ∷ item (codes "dev") ∷ item (codes "1") ∷ item (codes "3") ∷ []

listed : version_list digit (λ xs. xs) items ≡ codes "1" ∷ codes "3" ∷ codes "dev" ∷ []
unfolding strip_prefix normalize_version distinct compare_versions insert_sorted sort_versions
    version_list
listed = refl

version_list-IsSorted_example :
    IsSorted digit (version_list digit (λ xs. xs) items)
    × ((v : Str)
        → contains v (version_list digit (λ xs. xs) items)
          ≡ contains v (map (λ x. normalize_version x.version) items))
version_list-IsSorted_example =
    version_list-IsSorted digit digit-IsSemver (λ xs. xs) items (λ v xs. refl)
