-- ===== src/Metadata/Discover/Listed.antt =====
-- src/metadata.rs: the directories and files that `discover_indices` reads, and its answer from them.
use open_tf_mirror.Base.{
  ◌≡◌, ap, inl, inr, true, List, [], Option, some, none, Option-cases, Bool-cases, Str, codes,
  Result, ok, err, >>=-eq-ok, Result-cases, arith,
}
use open_tf_mirror.Base.Map.{get, get-insert}
use open_tf_mirror.Metadata.Types.{
  MetadataError, ProviderKey, provider_eq, provider_beq, provider_beq_iff,
}
use open_tf_mirror.Metadata.Validate.{valid_component}
use open_tf_mirror.Metadata.Index.{IndexEntry}
use open_tf_mirror.Storage.Fetch.{join_path}
use open_tf_mirror.Metadata.Discover.Loop.{IsListed, listing-IsListed, visit_all-keeps}
use open_tf_mirror.Metadata.Discover.{
  Directories, Indices, is_allowed, listing, accepted_index, add_index, discover_provider,
  discover_namespace, discover_hostname, discover_indices,
}

module _ (files : Directories) (from_slice : Str → Option IndexEntry) (root : Str)
    (allowed_registries : List Str) where
  abbrev pub index_file : ProviderKey → Result MetadataError (Option Str)
  index_file key = files.read_index (
      join_path
        (join_path (join_path (join_path root key.hostname) key.namespace) key.provider_type)
        (codes "index.json"))

  abbrev pub parsed : Result MetadataError (Option Str) → Option IndexEntry
  parsed (err error) = none
  parsed (ok none) = none
  parsed (ok (some bytes)) = accepted_index (from_slice bytes)

  -- The index that the file of the key holds, if it can be parsed and is valid.
  abbrev pub index_on_disk : ProviderKey → Option IndexEntry
  index_on_disk key = parsed (index_file key)

  -- Directories lead to the key, the first named like an allowed registry, the others like components.
  pub record HasDirectory (key : ProviderKey) : Type 0 where
    pub allowed : is_allowed allowed_registries key.hostname ≡ true
    pub hostname : IsListed key.hostname (files.read_dir root)
    pub is_namespace : valid_component key.namespace ≡ true
    pub namespace : IsListed key.namespace (files.read_dir (join_path root key.hostname))
    pub is_type : valid_component key.provider_type ≡ true
    pub provider_type :
        IsListed key.provider_type
          (files.read_dir (join_path (join_path root key.hostname) key.namespace))

  pub discover_provider-eq :
      (key : ProviderKey) (m m' : Indices)
      → discover_provider files from_slice
          (join_path (join_path root key.hostname) key.namespace)
          key.hostname
          key.namespace
          key.provider_type
          m
        ≡ ok m'
      → m' ≡ add_index key (index_on_disk key) m
  unfolding discover_provider
  discover_provider-eq key m m' h = elim (Result-cases (index_file key)) [
    | inr (error, e) ↦ absurd (ground arith)
    | inl (none, e) ↦ rw e (ground arith)
    | inl (some bytes, e) ↦ rw e (ground arith)
  ]

  -- Each entry is what the file of its key holds, and directories lead to it.
  abbrev pub AllFound : Indices → Type 0
  AllFound m =
      (key : ProviderKey) (entry : IndexEntry)
      → get key m ≡ some entry
      → HasDirectory key × (index_on_disk key ≡ some entry)

  add_index-AllFound :
      (key : ProviderKey) (m : Indices)
      → HasDirectory key
      → AllFound m
      → AllFound (add_index key (index_on_disk key) m)
  add_index-AllFound key m there h = elim (Option-cases (index_on_disk key)) [
    | inl missing ↦ rw missing h
    | inr (entry, found) ↦ rw found (λ other e k. elim (Bool-cases (provider_beq key other)) [
      | inl same ↦
          let here : entry ≡ e = ground (arith, get-insert key other entry m) in
          rw (← (provider_beq_iff key other).0 same, ← here) (there, found)
      | inr differs ↦ h other e (ground (arith, get-insert key other entry m))
    ])
  ]

  -- The entry of a key stays what the file of the key holds.
  pub add_index-keeps :
      (key other : ProviderKey) (entry : IndexEntry) (m : Indices)
      → index_on_disk key ≡ some entry
      → get key m ≡ some entry
      → get key (add_index other (index_on_disk other) m) ≡ some entry
  add_index-keeps key other entry m found h = elim (Option-cases (index_on_disk other)) [
    | inl missing ↦ rw missing h
    | inr (e, k) ↦ elim (Bool-cases (provider_beq other key)) [
      | inl same ↦
          let here : e ≡ entry =
            ground (arith, ap index_on_disk ((provider_beq_iff other key).0 same)) in
          rw k (ground (arith, get-insert other key e m))
      | inr differs ↦ rw k (ground (arith, get-insert other key e m))
    ]
  ]

  discover_namespace-AllFound :
      (hostname namespace : Str) (m m' : Indices)
      → is_allowed allowed_registries hostname ≡ true
      → IsListed hostname (files.read_dir root)
      → valid_component namespace ≡ true
      → IsListed namespace (files.read_dir (join_path root hostname))
      → AllFound m
      → discover_namespace files from_slice (join_path root hostname) hostname namespace m ≡ ok m'
      → AllFound m'
  unfolding discover_namespace
  discover_namespace-AllFound hostname namespace m m' a l b k h e =
      let directory = join_path (join_path root hostname) namespace in
      let (entries, listed, e') = >>=-eq-ok (listing (files.read_dir directory)) _ e in
      visit_all-keeps valid_component
        (discover_provider files from_slice directory hostname namespace) AllFound entries m m'
        (λ name n n' c i q entered.
          let key : ProviderKey = record {
            hostname = hostname;
            namespace = namespace;
            provider_type = name;
          } in
          let there : HasDirectory key = record {
            allowed = a;
            hostname = l;
            is_namespace = b;
            namespace = k;
            is_type = c;
            provider_type = listing-IsListed name (files.read_dir directory) entries listed i;
          } in
          rw (discover_provider-eq key n n' entered) (add_index-AllFound key n there q))
        h e'

  discover_hostname-AllFound :
      (hostname : Str) (m m' : Indices)
      → is_allowed allowed_registries hostname ≡ true
      → IsListed hostname (files.read_dir root)
      → AllFound m
      → discover_hostname files from_slice root hostname m ≡ ok m'
      → AllFound m'
  unfolding discover_hostname
  discover_hostname-AllFound hostname m m' a l h e =
      let directory = join_path root hostname in
      let (entries, listed, e') = >>=-eq-ok (listing (files.read_dir directory)) _ e in
      visit_all-keeps valid_component (discover_namespace files from_slice directory hostname)
        AllFound entries m m'
        (λ name n n' c i q entered.
          discover_namespace-AllFound hostname name n n' a l c
            (listing-IsListed name (files.read_dir directory) entries listed i) q entered)
        h e'

  empty-AllFound : AllFound []
  unfolding get
  empty-AllFound key entry h = cc

  pub discover_indices-AllFound :
      (m : Indices) → discover_indices files from_slice root allowed_registries ≡ ok m → AllFound m
  unfolding discover_indices
  discover_indices-AllFound m e = elim (Result-cases (files.read_dir root)) [
    | inr (error, r) ↦ absurd (ground arith)
    | inl (none, r) ↦ let same : [] ≡ m = ground arith in rw (← same) empty-AllFound
    | inl (some entries, r) ↦
        visit_all-keeps (is_allowed allowed_registries) (discover_hostname files from_slice root)
          AllFound entries [] m
          (λ name n n' c i q entered. discover_hostname-AllFound name n n' c (rw r i) q entered)
          empty-AllFound (ground arith)
  ]
