-- ===== src/Registry/Client.antt =====
-- src/registry.rs: `RegistryClient` with `discover`, `versions` and `package`. The tables of
-- origins do not change; the cache of discovered origins is the state. The lock of a host is held
-- through a discovery, and the clock is read once for each look at the cache and for each result.
pub mod Origin
pub mod Backoff
pub mod Limits
use open_tf_mirror.Base.{
  ℕ, ◌+◌, ◌-◌, ◌≡◌, Bool, true, false, not, ◌&&◌, ◌||◌, ◌==◌, ltb, List, [], ◌∷◌, ◌++◌, any, length,
  Option, some, none, Str, str_eq, str_beq, codes, strip_suffix, Result, ok, err, ◌>>=◌, ◌>>◌,
  guard, ok_or, map_err, if◌then◌else◌,
}
use open_tf_mirror.Base.Map.{Map, get, insert}
use open_tf_mirror.Outbound.Client
use open_tf_mirror.Outbound.Client.{UrlLib, Response, OutboundClient, OutboundError}
use open_tf_mirror.Metadata.Types.{PlatformMetadata}
use open_tf_mirror.Registry.Types.{
  RegistryError, not_found, invalid_origin, request, invalid_response, discovery_backoff, outbound,
  RegistryVersion, RegistryPlatform,
}
use open_tf_mirror.Registry.Decode.{decode_json}

abbrev pub max_index_json_bytes : ℕ
max_index_json_bytes = 2097152

abbrev pub max_package_json_bytes : ℕ
max_package_json_bytes = 262144

abbrev pub max_provider_versions : ℕ
max_provider_versions = 4096

abbrev pub max_platforms_per_version : ℕ
max_platforms_per_version = 128

-- Instants and durations in nanoseconds.
abbrev pub origin_lifetime : ℕ
origin_lifetime = 1800000000000

abbrev pub retry_delay : ℕ
retry_delay = 30000000000

abbrev pub is_some : {A : Type 0} → Option A → Bool
is_some none = false
is_some (some a) = true

abbrev is_before : ℕ → Option ℕ → Bool
is_before now none = false
is_before now (some retry_at) = ltb now retry_at

-- The URL that answered, which is the last one that a request went to.
abbrev pub last_url : {U : Type 0} → U → List U → U
last_url url [] = url
last_url url (next ∷ sent) = last_url next sent

-- The paths of `Url`, and the root URL of a host, which the code takes to parse.
pub record OriginLib (urls : UrlLib) : Type 0 where
  pub path : urls.Url → Str
  pub set_path : Str → urls.Url → urls.Url
  pub host_url : Str → urls.Url

pub record DiscoveryEntry (urls : UrlLib) : Type 0 where
  pub origin : Option urls.Url
  pub fetched_at : ℕ
  pub retry_at : Option ℕ

abbrev pub Cache : UrlLib → Type 0
Cache urls = Map Str (DiscoveryEntry urls)

pub record RegistryClient (urls : UrlLib) : Type 0 where
  pub outbound : OutboundClient
  pub origins : Map Str urls.Url
  pub discovery_origins : Map Str urls.Url

-- What one operation meets: the instants at which it looks at the cache, looks again under the lock,
-- and has a result, and what the network answers.
pub record Call (urls : UrlLib) : Type 0 where
  pub first : ℕ
  pub again : ℕ
  pub done : ℕ
  pub send : urls.Url → Result OutboundError Response

-- The parsers of the JSON bodies.
pub record Json : Type 0 where
  pub discovery : Str → Option (Option Str)
  pub versions : Str → Option (List RegistryVersion)
  pub platform_metadata : Str → Option PlatformMetadata

module _ (urls : UrlLib) (lib : OriginLib urls) where
  open urls use {Url, parse, scheme, host_str, join}
  open lib use {path, set_path}

  unfoldable pub normalize_origin : Url → Url
  normalize_origin origin = elim (strip_suffix (codes "/") (path origin)) [
    | some _ ↦ origin
    | none ↦ set_path (path origin ++ codes "/") origin
  ]

  unfoldable pub parse_origin : Str → Result RegistryError Url
  parse_origin origin = do
    url ← ok_or (parse origin) invalid_origin
    guard
        ((str_beq (scheme url) (codes "http") || str_beq (scheme url) (codes "https"))
          && is_some (host_str url))
        invalid_origin
    ok (normalize_origin url)

  -- The answer of the cache, if it has one.
  abbrev pub cached : ℕ → Option (DiscoveryEntry urls) → Option (Result RegistryError Url)
  cached now none = none
  cached now (some entry) =
      if (is_some entry.origin && ltb (now - entry.fetched_at) origin_lifetime)
        || is_before now entry.retry_at
      then some (ok_or entry.origin discovery_backoff)
      else none

  -- After an error the entry stays, if there is one, and its origin is answered.
  abbrev pub failed_entry : ℕ → Option (DiscoveryEntry urls) → DiscoveryEntry urls
  failed_entry done none = record {
    origin = none;
    fetched_at = done;
    retry_at = some (done + retry_delay);
  }
  failed_entry done (some entry) = record entry { retry_at = some (done + retry_delay) }

  -- The cache, the requests that were sent, and the answer.
  abbrev pub Discovery : Type 0
  Discovery = Cache urls × List Url × Result RegistryError Url

  unfoldable pub settle_discovery :
      ℕ → Str → Cache urls → List Url × Result RegistryError Url → Discovery
  settle_discovery done hostname cache (sent, ok origin) =
      let entry : DiscoveryEntry urls = record {
        origin = some origin;
        fetched_at = done;
        retry_at = none;
      } in
      (insert hostname entry cache, sent, ok origin)
  settle_discovery done hostname cache (sent, err error) =
      let entry = failed_entry done (get hostname cache) in
      (insert hostname entry cache, sent, ok_or entry.origin error)

  abbrev pub is_https_origin : OutboundClient → Url → Bool
  is_https_origin client origin =
      is_some (host_str origin) && (client.allow_http || str_beq (scheme origin) (codes "https"))

  -- `is_error_status` is the test of `error_for_status`.
  module _ (is_error_status : ℕ → Bool) (json : Json) (c : RegistryClient urls)
      (call : Call urls) where
    unfoldable pub read_origin : Url → Response → Result RegistryError Url
    read_origin answered response = do
      guard (not (is_error_status response.status)) request
      document ← decode_json json.discovery 65536 response
      service ← ok_or document invalid_response
      origin ← ok_or (join answered service) invalid_origin
      guard (is_https_origin c.outbound origin) invalid_origin
      ok (normalize_origin origin)

    unfoldable pub fetch_origin : Url → List Url × Result RegistryError Url
    fetch_origin url =
        let (sent, result) = Client.get urls c.outbound call.send url in
        (sent, map_err outbound result >>= read_origin (last_url url sent))

    unfoldable pub discover_locked : Str → Url → Cache urls → Discovery
    discover_locked hostname base cache = elim (cached call.again (get hostname cache)) [
      | some answer ↦ (cache, [], answer)
      | none ↦ elim (join base (codes ".well-known/terraform.json")) [
        | none ↦ (cache, [], err invalid_origin)
        | some url ↦ settle_discovery call.done hostname cache (fetch_origin url)
      ]
    ]

    unfoldable pub discover : Str → Url → Cache urls → Discovery
    discover hostname base cache = elim (cached call.first (get hostname cache)) [
      | some answer ↦ (cache, [], answer)
      | none ↦ discover_locked hostname base cache
    ]

    abbrev pub base_of : Str → Url
    base_of hostname = elim (get hostname c.discovery_origins) [
      | some base ↦ base
      | none ↦ lib.host_url hostname
    ]

    unfoldable pub origin : Str → Cache urls → Discovery
    origin hostname cache = elim (get hostname c.origins) [
      | some found ↦ (cache, [], ok found)
      | none ↦ discover hostname (base_of hostname) cache
    ]

    -- The response to a request that has no answer where the status is 404.
    unfoldable pub request_answer : Url → Result RegistryError Response
    request_answer url = do
      response ← map_err outbound (Client.get urls c.outbound call.send url).1
      guard (not (response.status == 404)) not_found
      guard (not (is_error_status response.status)) request
      ok response

    unfoldable pub fetch_versions : Str → Str → Url → Result RegistryError (List RegistryVersion)
    fetch_versions namespace provider_type base = do
      url ←
          ok_or (join base (namespace ++ b'/' ∷ provider_type ++ codes "/versions")) invalid_origin
      response ← request_answer url
      versions ← decode_json json.versions max_index_json_bytes response
      guard (not (ltb max_provider_versions (length versions))) invalid_response
      guard
          (not (any (λ version. ltb max_platforms_per_version (length version.platforms)) versions))
          invalid_response
      ok versions

    unfoldable pub versions :
        Str → Str → Str → Cache urls → Cache urls × Result RegistryError (List RegistryVersion)
    versions hostname namespace provider_type cache =
        let (cache', sent, result) = origin hostname cache in
        (cache', result >>= fetch_versions namespace provider_type)

    unfoldable pub fetch_package :
        Str → Str → Str → RegistryPlatform → Url → Result RegistryError PlatformMetadata
    fetch_package namespace provider_type version platform base = do
      url ←
          ok_or
            (join base (
              namespace
              ++ b'/' ∷ provider_type
              ++ b'/' ∷ version
              ++ codes "/download/"
              ++ platform.os
              ++ b'/' ∷ platform.arch))
            invalid_origin
      response ← request_answer url
      decode_json json.platform_metadata max_package_json_bytes response

    unfoldable pub registry_package :
        Str
        → Str
        → Str
        → Str
        → RegistryPlatform
        → Cache urls
        → Cache urls × Result RegistryError PlatformMetadata
    registry_package hostname namespace provider_type version platform cache =
        let (cache', sent, result) = origin hostname cache in
        (cache', result >>= fetch_package namespace provider_type version platform)
