-- ===== src/Metadata/Packages/Merge.antt =====
-- src/metadata.rs: where the platforms of a refreshed version come from.
use open_tf_mirror.Base.{
  ◌≡◌, refl, inl, inr, List, [], ◌∷◌, some, none, Option-cases, Result, ok, err, All, arith,
}
use open_tf_mirror.Base.Map.{Map, get, insert, remove, get-insert, get-remove}
use open_tf_mirror.Registry.Types.{RegistryPlatform}
use open_tf_mirror.Metadata.Types.{PlatformMetadata, MetadataError}
use open_tf_mirror.Metadata.Packages.{
  PlatformKey, platform_eq, key_of, summary_key, Refreshed, keep_result, keep_results, find_cached,
  merge_platforms,
}

-- Every value of the map has the property.
abbrev pub Holds : (PlatformMetadata → Type 0) → Map PlatformKey PlatformMetadata → Type 0
Holds P m = (k : PlatformKey) (fetched : PlatformMetadata) → get k m ≡ some fetched → P fetched

module _ (P : PlatformMetadata → Type 0) where
  Holds-insert :
      (k : PlatformKey) (fetched : PlatformMetadata) (m : Map PlatformKey PlatformMetadata)
      → P fetched
      → Holds P m
      → Holds P (insert k fetched m)
  Holds-insert k fetched m p h j found q = ground (arith, get-insert k j fetched m, h j found)

  Holds-remove :
      (k : PlatformKey) (m : Map PlatformKey PlatformMetadata) → Holds P m → Holds P (remove k m)
  Holds-remove k m h j found q = ground (arith, get-remove k j m, h j found)

  find_cached-member :
      (valid : List RegistryPlatform) (platform : RegistryPlatform) (items : List PlatformMetadata)
      (item : PlatformMetadata)
      → All P items
      → find_cached valid platform items ≡ some item
      → P item
  unfolding find_cached
  find_cached-member valid platform [] item h f = cc
  find_cached-member valid platform (i ∷ items) item (p, h) f =
      ground (arith, find_cached-member valid platform items item h)

  keep_results-Holds :
      (results : List (Result MetadataError PlatformMetadata)) (r : Refreshed)
      → All (λ result. (fetched : PlatformMetadata) → result ≡ ok fetched → P fetched) results
      → Holds P r.0
      → Holds P (keep_results results r).0
  unfolding keep_results keep_result
  keep_results-Holds [] r _ h = h
  keep_results-Holds (ok fetched ∷ results) (m, e) (p, ps) h =
      keep_results-Holds results (insert (key_of fetched) fetched m, e) ps
        (Holds-insert (key_of fetched) fetched m (p fetched refl) h)
  keep_results-Holds (err error ∷ results) (m, e) (p, ps) h = keep_results-Holds results _ ps h

  -- A merged platform has a property that the fetched and the cached ones have.
  pub merge_platforms-All :
      (valid platforms : List RegistryPlatform) (cached : List PlatformMetadata)
      (m : Map PlatformKey PlatformMetadata)
      → All P cached
      → Holds P m
      → All P (merge_platforms valid cached platforms m)
  unfolding merge_platforms
  merge_platforms-All valid [] cached m c h = tt
  merge_platforms-All valid (platform ∷ platforms) cached m c h =
      elim (Option-cases (get (summary_key platform) m)) [
        | inr (fetched, found) ↦
            rw (merge_platforms, found)
              (
                h (summary_key platform) fetched found,
                merge_platforms-All valid platforms cached (remove (summary_key platform) m) c
                    (Holds-remove (summary_key platform) m h),
              )
        | inl nothing ↦
            let rest = merge_platforms-All valid platforms cached m c h in
            elim (Option-cases (find_cached valid platform cached)) [
              | inl missing ↦ rw (merge_platforms, nothing, missing) rest
              | inr (item, found) ↦
                  rw (merge_platforms, nothing, found)
                    (find_cached-member valid platform cached item c found, rest)
            ]
      ]

  -- All merged platforms of a refresh have a property that every fetched one and every cached one has.
  pub merged-All :
      (platforms : List RegistryPlatform) (cached : List PlatformMetadata)
      (results : List (Result MetadataError PlatformMetadata))
      → All (λ result. (fetched : PlatformMetadata) → result ≡ ok fetched → P fetched) results
      → All P cached
      → All P (merge_platforms platforms cached platforms (keep_results results ([], none)).0)
  unfolding get
  merged-All platforms cached results rs c =
      merge_platforms-All platforms platforms cached _ c
        (keep_results-Holds results ([], none) rs (λ k fetched h. cc))
