-- ===== src/Registry/Client/Origin.antt =====
-- src/registry.rs: the origins that discovery finds and remembers.
use open_tf_mirror.Base.{
  ℕ, ◌≡◌, ◌∙◌, ap, inl, inr, Bool, true, not, List, ◌++◌, some, none, Option-cases, Bool-cases, Str,
  str_eq, str_beq, codes, strip_suffix, strip_suffix_sound, Result, ok, err, guard, ok_or, map_err,
  >>=-eq-ok, ok_or-eq-ok, guard-eq-ok, arith,
}
use open_tf_mirror.Base.Map.{get, insert, get-insert}
use open_tf_mirror.Outbound.Client
use open_tf_mirror.Outbound.Client.{UrlLib, Response, OutboundClient}
use open_tf_mirror.Registry.Types.{RegistryError}
use open_tf_mirror.Registry.Decode.{decode_json}
use open_tf_mirror.Registry.Client.{
  OriginLib, DiscoveryEntry, Cache, RegistryClient, Call, Json, last_url, normalize_origin, cached,
  failed_entry, settle_discovery, is_https_origin, read_origin, fetch_origin, discover_locked,
  discover,
}

-- What `Url` says of `set_path`: a path with a slash added stays as it is, and so do scheme and host.
pub record IsOriginLib (urls : UrlLib) (lib : OriginLib urls) : Type 0 where
  pub path-set_path :
      (url : urls.Url)
      → lib.path (lib.set_path (lib.path url ++ codes "/") url) ≡ lib.path url ++ codes "/"
  pub scheme-set_path :
      (path : Str) (url : urls.Url) → urls.scheme (lib.set_path path url) ≡ urls.scheme url
  pub host-set_path :
      (path : Str) (url : urls.Url) → urls.host_str (lib.set_path path url) ≡ urls.host_str url

module _ (urls : UrlLib) (lib : OriginLib urls) (client : OutboundClient) where
  open urls use {Url}

  -- An origin with a host and the scheme that the client allows, whose path ends in a slash, so that
  -- the path of a request is added to it.
  abbrev pub IsSafe : Url → Type 0
  IsSafe origin =
      (is_https_origin urls lib client origin ≡ true)
      × ((stem : Str) × (lib.path origin ≡ stem ++ codes "/"))

  abbrev pub AllSafe : Cache urls → Type 0
  AllSafe cache =
      (hostname : Str) (entry : DiscoveryEntry urls) (origin : Url)
      → get hostname cache ≡ some entry
      → entry.origin ≡ some origin
      → IsSafe origin

  normalize_origin-IsSafe :
      (origin : Url)
      → IsOriginLib urls lib
      → is_https_origin urls lib client origin ≡ true
      → IsSafe (normalize_origin urls lib origin)
  unfolding normalize_origin
  normalize_origin-IsSafe origin laws h =
      elim (Option-cases (strip_suffix (codes "/") (lib.path origin))) [
        | inr (stem, e) ↦
            rw (normalize_origin, e)
              (h, (stem, strip_suffix_sound (codes "/") (lib.path origin) stem e))
        | inl e ↦
            let p = lib.path origin ++ codes "/" in
            rw (normalize_origin, e)
              (
                rw (laws.host-set_path p origin, laws.scheme-set_path p origin) h,
                (lib.path origin, laws.path-set_path origin),
              )
      ]

  insert-AllSafe :
      (hostname : Str) (entry : DiscoveryEntry urls) (cache : Cache urls)
      → AllSafe cache
      → ((origin : Url) → entry.origin ≡ some origin → IsSafe origin)
      → AllSafe (insert hostname entry cache)
  insert-AllSafe hostname entry cache h new other found origin e k =
      elim (Bool-cases (str_beq hostname other)) [
        | inl same ↦
            let here : entry ≡ found = ground (arith, get-insert hostname other entry cache) in
            new origin (ap (λ x. x.origin) here ∙ k)
        | inr differs ↦
            h other found origin (ground (arith, get-insert hostname other entry cache)) k
      ]

  -- What a discovery keeps and gives.
  abbrev pub IsSafeDiscovery : Cache urls × List Url × Result RegistryError Url → Type 0
  IsSafeDiscovery (cache, sent, result) =
      AllSafe cache × ((origin : Url) → result ≡ ok origin → IsSafe origin)

  failed_entry-IsSafe :
      (done : ℕ) (hostname : Str) (cache : Cache urls)
      → AllSafe cache
      → (origin : Url) → (failed_entry urls lib done (get hostname cache)).origin ≡ some origin
      → IsSafe origin
  failed_entry-IsSafe done hostname cache h origin e = elim (Option-cases (get hostname cache)) [
    | inl missing ↦ absurd (ground arith)
    | inr (entry, found) ↦ h hostname entry origin found (rw found at e)
  ]

  settle_discovery-IsSafe :
      (done : ℕ) (hostname : Str) (cache : Cache urls) (sent : List Url)
      (result : Result RegistryError Url)
      → AllSafe cache
      → ((origin : Url) → result ≡ ok origin → IsSafe origin)
      → IsSafeDiscovery (settle_discovery urls lib done hostname cache (sent, result))
  unfolding settle_discovery
  settle_discovery-IsSafe done hostname cache sent (ok found) h new = (
    insert-AllSafe hostname (record { origin = some found; fetched_at = done; retry_at = none })
        cache h (λ origin e. new origin (ground arith)),
    new,
  )
  settle_discovery-IsSafe done hostname cache sent (err error) h new =
      let entry = failed_entry urls lib done (get hostname cache) in
      let stale = failed_entry-IsSafe done hostname cache h in
      (
        insert-AllSafe hostname entry cache h stale,
        λ origin e. stale origin (ok_or-eq-ok entry.origin error e),
      )

  cached-IsSafe :
      (now : ℕ) (hostname : Str) (cache : Cache urls) (answer : Result RegistryError Url)
      → AllSafe cache
      → cached urls lib now (get hostname cache) ≡ some answer
      → (origin : Url) → answer ≡ ok origin
      → IsSafe origin
  cached-IsSafe now hostname cache answer h e origin k = elim (Option-cases (get hostname cache)) [
    | inl missing ↦ absurd (ground arith)
    | inr (entry, found) ↦ elim (Option-cases entry.origin) [
      | inl nothing ↦ absurd (ground arith)
      | inr (other, known) ↦
          let same : other ≡ origin = ground arith in
          h hostname entry origin found (rw same at known)
    ]
  ]

module _ (urls : UrlLib) (lib : OriginLib urls) (is_error_status : ℕ → Bool) (json : Json)
    (c : RegistryClient urls) (call : Call urls) where
  open urls use {Url}

  read_origin-IsSafe :
      (answered : Url) (response : Response) (origin : Url)
      → IsOriginLib urls lib
      → read_origin urls lib is_error_status json c call answered response ≡ ok origin
      → IsSafe urls lib c.outbound origin
  unfolding read_origin
  read_origin-IsSafe answered response origin laws h =
      let (_, _, h₁) = >>=-eq-ok (guard (not (is_error_status response.status)) _) _ h in
      let (document, _, h₂) = >>=-eq-ok (decode_json json.discovery 65536 response) _ h₁ in
      let (service, _, h₃) = >>=-eq-ok (ok_or document _) _ h₂ in
      let (found, _, h₄) = >>=-eq-ok (ok_or (urls.join answered service) _) _ h₃ in
      let (_, g, h₅) = >>=-eq-ok (guard (is_https_origin urls lib c.outbound found) _) _ h₄ in
      let same : normalize_origin urls lib found ≡ origin = ground arith in
      rw (← same) (
        normalize_origin-IsSafe urls lib c.outbound found laws
          (guard-eq-ok (is_https_origin urls lib c.outbound found) _ g))

  fetch_origin-IsSafe :
      (url origin : Url)
      → IsOriginLib urls lib
      → (fetch_origin urls lib is_error_status json c call url).1 ≡ ok origin
      → IsSafe urls lib c.outbound origin
  unfolding fetch_origin
  fetch_origin-IsSafe url origin laws h =
      let run = Client.get urls c.outbound call.send url in
      let (response, _, h') = >>=-eq-ok (map_err RegistryError.outbound run.1) _ h in
      read_origin-IsSafe (last_url url run.0) response origin laws h'

  discover_locked-IsSafe :
      (hostname : Str) (base : Url) (cache : Cache urls)
      → IsOriginLib urls lib
      → AllSafe urls lib c.outbound cache
      → IsSafeDiscovery urls lib c.outbound
          (discover_locked urls lib is_error_status json c call hostname base cache)
  unfolding discover_locked
  discover_locked-IsSafe hostname base cache laws h =
      elim (Option-cases (cached urls lib call.again (get hostname cache))) [
        | inr (answer, e) ↦
            rw (discover_locked, e)
              (h, cached-IsSafe urls lib c.outbound call.again hostname cache answer h e)
        | inl e ↦ elim (Option-cases (urls.join base (codes ".well-known/terraform.json"))) [
          | inl bad ↦ rw (discover_locked, e, bad) (h, λ origin k. cc)
          | inr (url, joined) ↦
              let run = fetch_origin urls lib is_error_status json c call url in
              rw (discover_locked, e, joined)
                (settle_discovery-IsSafe urls lib c.outbound call.done hostname cache run.0 run.1 h
                  (λ origin k. fetch_origin-IsSafe url origin laws k))
        ]
      ]

  -- From a cache whose origins all have a host, a scheme that the client allows and a path that ends
  -- in a slash: a discovery, whatever the registry answers and whenever it runs, keeps the cache so,
  -- and an origin that it gives is such a one.
  pub discover-IsSafe :
      (hostname : Str) (base : Url) (cache : Cache urls)
      → IsOriginLib urls lib
      → AllSafe urls lib c.outbound cache
      → IsSafeDiscovery urls lib c.outbound
          (discover urls lib is_error_status json c call hostname base cache)
  unfolding discover
  discover-IsSafe hostname base cache laws h =
      elim (Option-cases (cached urls lib call.first (get hostname cache))) [
        | inr (answer, e) ↦
            rw (discover, e)
              (h, cached-IsSafe urls lib c.outbound call.first hostname cache answer h e)
        | inl e ↦ rw (discover, e) (discover_locked-IsSafe hostname base cache laws h)
      ]
