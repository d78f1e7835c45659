-- ===== src/Outbound/Client.antt =====
-- src/outbound.rs: `OutboundClient` and `PublicOnlyResolver`. URLs belong to the `url` package, and
-- the text of an IP address to the standard library's parser: both are parameters. A client sends
-- one request by `send`, which the network answers; the field `client` is the `Reqwest` beside it.
pub mod Policy
pub mod Connect
use open_tf_mirror.Base.{
  ℕ, zero, suc, Bool, true, false, not, ◌&&◌, ◌||◌, ◌==◌, ltb, if◌then◌else◌, List, [], ◌∷◌, any,
  is_empty, Option, some, none, Str, codes, str_beq, Result, ok, err, ◌>>=◌, ◌>>◌, guard, ok_or,
}
use open_tf_mirror.Outbound.Address.{IpAddr, is_public_ip}

pub data OutboundMode : Type 0 where
  direct trusted_proxy : OutboundMode

abbrev pub is_direct : OutboundMode → Bool
is_direct direct = true
is_direct trusted_proxy = false

-- `from_str`; `none` stands for the refusal.
unfoldable pub from_str : Str → Option OutboundMode
from_str value =
    if str_beq value (codes "direct")
    then some direct
    else if str_beq value (codes "trusted-proxy")
    then some trusted_proxy
    else none

-- The refusals of the client; `request` stands for the errors of the request itself.
pub data OutboundError : Type 0 where
  https_required host_required non_public_target : OutboundError
  too_many_redirects missing_location invalid_location invalid_location_url : OutboundError
  request dns : OutboundError
  not_resolved resolved_non_public : OutboundError
  proxy_required invalid_ca empty_ca : OutboundError

pub record UrlLib : Type 1 where
  pub Url : Type 0
  pub parse : Str → Option Url
  pub scheme : Url → Str
  pub host_str : Url → Option Str
  pub join : Url → Str → Option Url
  pub parse_ip : Str → Option IpAddr

-- `location` is the header, if there is one, as text, if it is text. The body comes in chunks, of
-- which `none` is an error of the stream.
pub record Response : Type 0 where
  pub status : ℕ
  pub location : Option (Option Str)
  pub content_length : Option ℕ
  pub chunks : List (Option Str)

-- The announced length is more than the limit.
abbrev pub is_longer : Option ℕ → ℕ → Bool
is_longer none maximum = false
is_longer (some length) maximum = ltb maximum length

abbrev pub max_redirects : ℕ
max_redirects = 5

pub record OutboundClient : Type 0 where
  pub mode : OutboundMode
  pub allow_http : Bool
  pub allow_non_public_ips : Bool

-- `resolve`, over what the lookup of the name gives.
unfoldable pub resolve :
    Bool → Result OutboundError (List IpAddr) → Result OutboundError (List IpAddr)
resolve allow_non_public_ips lookup = do
  addresses ← lookup
  guard (not (is_empty addresses)) not_resolved
  guard (not (not allow_non_public_ips && any (λ address. not (is_public_ip address)) addresses))
      resolved_non_public
  ok addresses

-- What the client of `reqwest` is built with. `dns_resolver` is the `PublicOnlyResolver`, by its
-- field; without a redirect policy of its own it would follow redirects.
pub record Reqwest (C : Type 0) : Type 0 where
  pub root_certificates : List C
  pub follows_redirects : Bool
  pub uses_proxy : Bool
  pub dns_resolver : Option Bool

-- `build_fails` is an error of `reqwest`.
unfoldable pub build :
    {C : Type 0}
    → (build_fails : Bool) → OutboundMode
    → List C
    → (allow_http allow_non_public_ips : Bool) → Result OutboundError (Reqwest C × OutboundClient)
build build_fails mode certificates allow_http allow_non_public_ips = do
  guard (not build_fails) invalid_ca
  ok (
    record {
      root_certificates = certificates;
      follows_redirects = false;
      uses_proxy = not (is_direct mode);
      dns_resolver = if is_direct mode then some allow_non_public_ips else none;
    },
    record { mode = mode; allow_http = allow_http; allow_non_public_ips = allow_non_public_ips },
  )

abbrev is_set : (trim : Str → Str) → Option Str → Bool
is_set trim none = false
is_set trim (some value) = not (is_empty (trim value))

-- `var` is the environment, and `trim` takes the white space away.
unfoldable pub proxy_configured : (var : Str → Option Str) → (trim : Str → Str) → Bool
proxy_configured var trim =
    any (λ name. is_set trim (var name))
      (codes "HTTP_PROXY" ∷ codes "HTTPS_PROXY" ∷ codes "http_proxy" ∷ codes "https_proxy" ∷ [])

-- The certificates of the CA file, if there is one.
abbrev pub ca_certificates :
    {C : Type 0} → Option (Result OutboundError (List C)) → Result OutboundError (List C)
ca_certificates none = ok []
ca_certificates (some bundle) = do
  certificates ← bundle
  guard (not (is_empty certificates)) empty_ca
  ok certificates

-- `new`: whether a proxy is configured, and what the CA file gives as its list of certificates.
unfoldable pub new :
    {C : Type 0}
    → (build_fails : Bool) → OutboundMode
    → (is_proxied : Bool) → Option (Result OutboundError (List C))
    → Result OutboundError (Reqwest C × OutboundClient)
new build_fails mode is_proxied ca_file = do
  guard (is_direct mode || is_proxied) proxy_required
  certificates ← ca_certificates ca_file
  build build_fails mode certificates false false

unfoldable pub for_tests : OutboundClient
for_tests = record { mode = direct; allow_http = true; allow_non_public_ips = true }

unfoldable pub is_redirect : ℕ → Bool
is_redirect status =
    status == 301 || status == 302 || status == 303 || status == 307 || status == 308

-- `trim_start_matches('[')` and `trim_end_matches(']')`
unfoldable pub trim_start : ℕ → Str → Str
trim_start c [] = []
trim_start c (d ∷ s) = let rest = trim_start c s in if d == c then rest else d ∷ s

trim_end : ℕ → Str → Str
trim_end c [] = []
trim_end c (d ∷ s) = let rest = trim_end c s in if d == c && is_empty rest then [] else d ∷ rest

abbrev pub is_forbidden : Option IpAddr → Bool
is_forbidden none = false
is_forbidden (some ip) = not (is_public_ip ip)

module _ (urls : UrlLib) where
  open urls use {Url, scheme, host_str, join, parse_ip}

  unfoldable pub literal_ip : Str → Option IpAddr
  unfolding trim_start trim_end
  literal_ip host = parse_ip (trim_end b']' (trim_start b'[' host))

  unfoldable pub validate_url : OutboundClient → Url → Result OutboundError (Unit {0})
  validate_url c url = do
    guard
        (str_beq (scheme url) (codes "https")
          || (c.allow_http && str_beq (scheme url) (codes "http")))
        https_required
    host ← ok_or (host_str url) host_required
    guard (not (is_direct c.mode && not c.allow_non_public_ips && is_forbidden (literal_ip host)))
        non_public_target

  -- `headers().get(LOCATION)`, `to_str`, `join`
  unfoldable pub next_url : Url → Response → Result OutboundError Url
  next_url url response = do
    header ← ok_or response.location missing_location
    location ← ok_or header invalid_location
    ok_or (join url location) invalid_location_url

  -- The requests that are sent, the last one last, and the outcome.
  abbrev pub Log : Type 0
  Log = List Url × Result OutboundError Response

  abbrev log : Url → Log → Log
  log url (sent, outcome) = (url ∷ sent, outcome)

  module _ (c : OutboundClient) (send : Url → Result OutboundError Response) where
    -- The rounds of `get` from `redirect_count` on, by the redirects that are left; the second
    -- test of the new URL is the first one of the next round as well.
    unfoldable pub get_from : ℕ → Url → Log
    get_from zero url = elim (validate_url c url) [
      | err e ↦ ([], err e)
      | ok _ ↦ elim (send url) [
        | err e ↦ (url ∷ [], err e)
        | ok response ↦
            if is_redirect response.status
            then (url ∷ [], err too_many_redirects)
            else (url ∷ [], ok response)
      ]
    ]
    get_from (suc left) url = elim (validate_url c url) [
      | err e ↦ ([], err e)
      | ok _ ↦ elim (send url) [
        | err e ↦ (url ∷ [], err e)
        | ok response ↦
            let followed : Log = elim (next_url url response) [
              | err e ↦ ([], err e)
              | ok next ↦ elim (validate_url c next) [
                | err e ↦ ([], err e)
                | ok _ ↦ get_from left next
              ]
            ] in
            if is_redirect response.status then log url followed else (url ∷ [], ok response)
      ]
    ]

    unfoldable pub get : Url → Log
    get url = get_from max_redirects url
