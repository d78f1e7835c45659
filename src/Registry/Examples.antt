-- ===== src/Registry/Examples.antt =====
-- src/registry.rs: a registry with one list of versions, and the theorems at it.
use open_tf_mirror.Base.{
  ℕ, ◌≡◌, ◌↔◌, refl, Bool, false, ltb, [], ◌∷◌, ◌++◌, some, none, Str, str_eq, codes, strip_suffix,
  strip_prefix, ok, err, ok_or, arith,
}
use open_tf_mirror.Base.Map.{get, insert}
use open_tf_mirror.Outbound.Client
use open_tf_mirror.Outbound.Client.{
  UrlLib, Response, OutboundClient, OutboundError, direct, dns, is_redirect, literal_ip,
  validate_url, get_from,
}
use open_tf_mirror.Registry.Types.{RegistryVersion, outbound, response_too_large, discovery_backoff}
use open_tf_mirror.Registry.Decode.{read_body, decode_json}
use open_tf_mirror.Registry.Decode.Body.{IsAnswer, decode_json_iff}
use open_tf_mirror.Registry.Client.{
  OriginLib, Cache, RegistryClient, Call, Json, max_index_json_bytes, normalize_origin,
  settle_discovery, read_origin, fetch_origin, discover_locked, discover, origin, request_answer,
  fetch_versions, versions,
}
use open_tf_mirror.Registry.Client.Origin.{IsOriginLib, AllSafe, IsSafeDiscovery, discover-IsSafe}
use open_tf_mirror.Registry.Client.Backoff.{known_origin, IsFailure, discover-backoff}
use open_tf_mirror.Registry.Client.Limits.{IsLimited, versions-IsLimited}

program : Unit {0}
unfolding get insert strip_suffix strip_prefix Client.get is_redirect literal_ip validate_url
    get_from read_body decode_json normalize_origin settle_discovery read_origin fetch_origin
    discover_locked discover origin request_answer fetch_versions versions
program = tt

-- URLs by their paths, all at one host.
abbrev web : UrlLib
web = record {
  Url = Str;
  parse = λ s. some s;
  scheme = λ url. codes "https";
  host_str = λ url. some (codes "registry.example");
  join = λ url s. some (url ++ s);
  parse_ip = λ s. none;
}

abbrev paths : OriginLib web
paths = record { path = λ url. url; set_path = λ path url. path; host_url = λ hostname. codes "/" }

paths-IsOriginLib : IsOriginLib web paths
paths-IsOriginLib = record {
  path-set_path = λ url. refl;
  scheme-set_path = λ path url. refl;
  host-set_path = λ path url. refl;
}

abbrev item : RegistryVersion
item = record {
  version = codes "3.6.3";
  platforms = record { os = codes "linux"; arch = codes "amd64" } ∷ [];
}

abbrev json : Json
json = record {
  discovery = λ body. some (some body);
  versions = λ body. some (item ∷ []);
  platform_metadata = λ body. none;
}

abbrev registry : RegistryClient web
registry = record {
  outbound = record { mode = direct; allow_http = false; allow_non_public_ips = false };
  origins = (codes "mirror.example", codes "/v1/") ∷ [];
  discovery_origins = [];
}

abbrev page : Response
page = record {
  status = 200;
  location = none;
  content_length = some 2;
  chunks = some (codes "v") ∷ some (codes "1") ∷ [];
}

abbrev is_error : ℕ → Bool
is_error status = ltb 399 status

abbrev online : Call web
online = record { first = 10; again = 20; done = 30; send = λ url. ok page }

abbrev offline : Call web
offline = record { first = 10; again = 20; done = 30; send = λ url. err dns }

decode_json_iff_example :
    (decode_json (λ body. some body) 64 page ≡ ok (codes "v1"))
    ↔ IsAnswer (λ body. some body) 64 page (codes "v1")
decode_json_iff_example = decode_json_iff (λ body. some body) 64 page (codes "v1") (omega arith)

decoded : decode_json (λ body. some body) 64 page ≡ ok (codes "v1")
unfolding program
decoded = refl

too_long :
    decode_json (λ body. some body) 1 (record page { content_length = none })
    ≡ err (response_too_large 1)
unfolding program
too_long = refl

empty-AllSafe : AllSafe web paths registry.outbound []
unfolding get
empty-AllSafe hostname entry origin h k = cc

discover-IsSafe_example :
    IsSafeDiscovery web paths registry.outbound
      (discover web paths is_error json registry online (codes "registry.example") (codes "/") [])
discover-IsSafe_example =
    discover-IsSafe web paths is_error json registry online (codes "registry.example") (codes "/")
      [] paths-IsOriginLib empty-AllSafe

discovered :
    (discover web paths is_error json registry online (codes "registry.example") (codes "/") []).2
    ≡ ok (codes "/.well-known/terraform.jsonv1/")
unfolding program
discovered = refl

offline-IsFailure :
    IsFailure web paths is_error json registry offline (codes "registry.example") (codes "/") []
unfolding program
offline-IsFailure = record {
  url = codes "/.well-known/terraform.json";
  error = outbound dns;
  no_answer = refl;
  no_answer_again = refl;
  joined = refl;
  failed = refl;
}

abbrev after : Cache web
after =
    (discover web paths is_error json registry offline (codes "registry.example") (codes "/") []).0

discover-backoff_example :
    discover web paths is_error json registry online (codes "registry.example") (codes "/") after
    ≡ (
      after,
      [],
      ok_or
          (known_origin web paths is_error json registry (get (codes "registry.example") []))
          discovery_backoff,
    )
discover-backoff_example =
    discover-backoff web paths is_error json registry offline online (codes "registry.example")
      (codes "/") [] offline-IsFailure (omega arith)

listed :
    (versions web paths is_error json registry online
      (codes "mirror.example")
      (codes "hashicorp")
      (codes "random")
      []).1
    ≡ ok (item ∷ [])
unfolding program
listed = refl

versions-IsLimited_example :
    IsLimited (item ∷ [])
    × ((response : Response) × IsAnswer json.versions max_index_json_bytes response (item ∷ []))
versions-IsLimited_example =
    versions-IsLimited web paths is_error json registry online (codes "mirror.example")
      (codes "hashicorp") (codes "random") [] (item ∷ []) listed
