-- ===== src/Metadata/Discover/Found.antt =====
-- src/metadata.rs: `discover_indices` against the indices on the disk.
use open_tf_mirror.Base.{
  ℕ, ◌≡◌, ◌↔◌, inl, inr, List, [], Option, some, none, Str, codes, ok, >>=-eq-ok, Result-cases,
  arith,
}
use open_tf_mirror.Base.Map.{get, get-insert_self}
use open_tf_mirror.Metadata.Types.{ProviderKey, provider_eq}
use open_tf_mirror.Metadata.Validate.{valid_component, validate_registry_versions}
use open_tf_mirror.Metadata.Index.{IndexEntry}
use open_tf_mirror.Metadata.Index.Validity.{IsAccepted, IsValid}
use open_tf_mirror.Metadata.Versions.{Versions}
use open_tf_mirror.Storage.Fetch.{join_path}
use open_tf_mirror.Metadata.Discover.Loop.{IsListed-listing, visit_all-keeps, visit_all-reaches}
use open_tf_mirror.Metadata.Discover.{
  Directories, Indices, is_allowed, listing, accepted_index, discover_provider, discover_namespace,
  discover_hostname, discover_indices, validate_hostnames, with_registry_client,
}
use open_tf_mirror.Metadata.Discover.Listed.{
  HasDirectory, index_file, index_on_disk, discover_provider-eq, add_index-keeps,
  discover_indices-AllFound,
}

accepted_index-IsAccepted :
    (parsed : Option IndexEntry) (entry : IndexEntry)
    → accepted_index parsed ≡ some entry
    → IsAccepted entry
accepted_index-IsAccepted none entry h = cc
accepted_index-IsAccepted (some found) entry h =
    elim (Result-cases (validate_registry_versions found.value)) [
      | inl (_, v) ↦ let same : found ≡ entry = ground arith in rw (← same) v
      | inr (error, v) ↦ absurd (ground arith)
    ]

module _ (files : Directories) (from_slice : Str → Option IndexEntry) (root : Str)
    (allowed_registries : List Str) where
  module _ (key : ProviderKey) (entry : IndexEntry)
      (found : index_on_disk files from_slice root allowed_registries key ≡ some entry) where
    abbrev HasEntry : Indices → Type 0
    HasEntry m = get key m ≡ some entry

    discover_provider-keeps :
        (hostname namespace provider_type : Str) (m m' : Indices)
        → HasEntry m
        → discover_provider files from_slice
            (join_path (join_path root hostname) namespace)
            hostname
            namespace
            provider_type
            m
          ≡ ok m'
        → HasEntry m'
    discover_provider-keeps hostname namespace provider_type m m' h e =
        let other : ProviderKey = record {
          hostname = hostname;
          namespace = namespace;
          provider_type = provider_type;
        } in
        rw (discover_provider-eq files from_slice root allowed_registries other m m' e)
          (add_index-keeps files from_slice root allowed_registries key other entry m found h)

    discover_namespace-keeps :
        (hostname namespace : Str) (m m' : Indices)
        → HasEntry m
        → discover_namespace files from_slice (join_path root hostname) hostname namespace m ≡ ok m'
        → HasEntry m'
    unfolding discover_namespace
    discover_namespace-keeps hostname namespace m m' h e =
        let directory = join_path (join_path root hostname) namespace in
        let (entries, listed, e') = >>=-eq-ok (listing (files.read_dir directory)) _ e in
        visit_all-keeps valid_component
          (discover_provider files from_slice directory hostname namespace) HasEntry entries m m'
          (λ name n n' c i q entered.
            discover_provider-keeps hostname namespace name n n' q entered)
          h e'

    discover_hostname-keeps :
        (hostname : Str) (m m' : Indices)
        → HasEntry m
        → discover_hostname files from_slice root hostname m ≡ ok m'
        → HasEntry m'
    unfolding discover_hostname
    discover_hostname-keeps hostname m m' h e =
        let directory = join_path root hostname in
        let (entries, listed, e') = >>=-eq-ok (listing (files.read_dir directory)) _ e in
        visit_all-keeps valid_component (discover_namespace files from_slice directory hostname)
          HasEntry entries m m'
          (λ name n n' c i q entered. discover_namespace-keeps hostname name n n' q entered) h e'

    discover_provider-reaches :
        (m m' : Indices)
        → discover_provider files from_slice
            (join_path (join_path root key.hostname) key.namespace)
            key.hostname
            key.namespace
            key.provider_type
            m
          ≡ ok m'
        → HasEntry m'
    discover_provider-reaches m m' e =
        rw (discover_provider-eq files from_slice root allowed_registries key m m' e, found)
          (get-insert_self key entry m)

    module _ (there : HasDirectory files from_slice root allowed_registries key) where
      discover_namespace-reaches :
          (m m' : Indices)
          → discover_namespace files from_slice
              (join_path root key.hostname)
              key.hostname
              key.namespace
              m
            ≡ ok m'
          → HasEntry m'
      unfolding discover_namespace
      discover_namespace-reaches m m' e =
          let directory = join_path (join_path root key.hostname) key.namespace in
          let (entries, listed, e') = >>=-eq-ok (listing (files.read_dir directory)) _ e in
          visit_all-reaches valid_component
            (discover_provider files from_slice directory key.hostname key.namespace) HasEntry
            key.provider_type entries m m'
            (λ name n n' q entered.
              discover_provider-keeps key.hostname key.namespace name n n' q entered)
            discover_provider-reaches there.is_type
            (IsListed-listing key.provider_type (files.read_dir directory) entries listed
              there.provider_type)
            e'

      discover_hostname-reaches :
          (m m' : Indices)
          → discover_hostname files from_slice root key.hostname m ≡ ok m'
          → HasEntry m'
      unfolding discover_hostname
      discover_hostname-reaches m m' e =
          let directory = join_path root key.hostname in
          let (entries, listed, e') = >>=-eq-ok (listing (files.read_dir directory)) _ e in
          visit_all-reaches valid_component
            (discover_namespace files from_slice directory key.hostname) HasEntry key.namespace
            entries m m'
            (λ name n n' q entered. discover_namespace-keeps key.hostname name n n' q entered)
            discover_namespace-reaches there.is_namespace
            (IsListed-listing key.namespace (files.read_dir directory) entries listed
              there.namespace)
            e'

      discover_indices-reaches :
          (m : Indices)
          → discover_indices files from_slice root allowed_registries ≡ ok m
          → HasEntry m
      unfolding discover_indices
      discover_indices-reaches m e = elim (Result-cases (files.read_dir root)) [
        | inr (error, r) ↦ absurd (ground arith)
        | inl (none, r) ↦ absurd (rw r at there.hostname)
        | inl (some entries, r) ↦
            visit_all-reaches (is_allowed allowed_registries)
              (discover_hostname files from_slice root) HasEntry key.hostname entries [] m
              (λ name n n' q entered. discover_hostname-keeps name n n' q entered)
              discover_hostname-reaches there.allowed (rw r at there.hostname) (ground arith)
      ]

  -- Where `discover_indices` succeeds, an index is in the map exactly if it is the valid content of
  -- `index.json` in a directory of its key: under a listed directory named like an allowed registry, and
  -- in it one below the other two listed directories with valid names.
  pub discover_indices_iff :
      (m : Indices) (key : ProviderKey) (entry : IndexEntry)
      → discover_indices files from_slice root allowed_registries ≡ ok m
      → (get key m ≡ some entry) ↔ (
          HasDirectory files from_slice root allowed_registries key
          × (index_on_disk files from_slice root allowed_registries key ≡ some entry))
  discover_indices_iff m key entry e = (
    λ h. discover_indices-AllFound files from_slice root allowed_registries m e key entry h,
    λ (there, found). discover_indices-reaches key entry found there m e,
  )

  -- Every index that `discover_indices` loads passes the validation of the registry's answers.
  pub discover_indices-IsAccepted :
      (m : Indices) (key : ProviderKey) (entry : IndexEntry)
      → discover_indices files from_slice root allowed_registries ≡ ok m
      → get key m ≡ some entry
      → IsAccepted entry
  discover_indices-IsAccepted m key entry e h =
      let (there, found) =
        discover_indices-AllFound files from_slice root allowed_registries m e key entry h in
      elim (Result-cases (index_file files from_slice root allowed_registries key)) [
        | inr (error, r) ↦ absurd (ground arith)
        | inl (none, r) ↦ absurd (ground arith)
        | inl (some bytes, r) ↦ accepted_index-IsAccepted (from_slice bytes) entry (ground arith)
      ]

-- A service that `with_registry_client` builds has only valid indices in memory, no versions, and the
-- freshness that it was given.
pub with_registry_client-IsValid :
    (files : Directories) (from_slice : Str → Option IndexEntry) (data_dir : Str)
    (allowed_registries : List Str) (freshness : ℕ) (s : Versions)
    → with_registry_client files from_slice data_dir allowed_registries freshness ≡ ok s
    → IsValid s.service × (s.versions ≡ []) × (s.service.freshness ≡ freshness)
unfolding with_registry_client
with_registry_client-IsValid files from_slice data_dir allowed_registries freshness s h =
    let root = join_path data_dir (codes "metadata") in
    let (_, _, h') = >>=-eq-ok (validate_hostnames files from_slice allowed_registries) _ h in
    let (indices, found, h₂) =
      >>=-eq-ok (discover_indices files from_slice root allowed_registries) _ h' in
    let same : indices ≡ s.service.indices = ground arith in
    (
      record {
        accepted = λ key entry k.
            discover_indices-IsAccepted files from_slice root allowed_registries indices key entry
              found (rw same k);
        bounded = record { is_map = ground arith; few = ground arith };
      },
      ground arith,
      ground arith,
    )
