-- ===== src/Outbound/Examples.antt =====
-- src/outbound.rs: addresses of the repository's tests, a small web, and the theorems at them.
use open_tf_mirror.Base.{
  ℕ, zero, suc, ◌≤◌, ◌≡◌, refl, ◌↔◌, Bool, true, false, [], ◌∷◌, length, All, some, none, codes,
  Result, ok, arith,
}
use open_tf_mirror.Outbound.Address.{
  IpAddr, Ipv4Addr, Ipv6Addr, v4, v6, is_public_v4, is_public_native, is_public_v6, is_public_ip,
}
use open_tf_mirror.Outbound.Address.Blocks.{IsOutside, value, reserved, is_public_v4_iff}
use open_tf_mirror.Outbound.Address.Embedded.{nat64, is_public_ip-Embeds}
use open_tf_mirror.Outbound.Client.{
  direct, build, Reqwest, OutboundClient, UrlLib, Response, OutboundError, resolve, new,
  is_redirect, literal_ip, validate_url, next_url, get_from, get,
}
use open_tf_mirror.Outbound.Client.Connect.{IsReqwest, get-public}
use open_tf_mirror.Outbound.Client.Policy.{IsAllowed, get-IsAllowed}

program : Unit {0}
unfolding is_public_v4 is_public_native is_public_v6 is_public_ip resolve build new is_redirect
    literal_ip validate_url next_url get_from get
program = tt

abbrev eights : Ipv4Addr
eights = record { first = 8; second = 8; third = 8; fourth = 8 }

abbrev loopback : Ipv4Addr
loopback = record { first = 127; second = 0; third = 0; fourth = 1 }

abbrev nat64_loopback : Ipv6Addr
nat64_loopback = record {
  s₀ = 0x64;
  s₁ = 0xff9b;
  s₂ = 0;
  s₃ = 0;
  s₄ = 0;
  s₅ = 0;
  s₆ = 0x7f00;
  s₇ = 1;
}

-- 64:ff9b::7f00:1, 2002:808:808::1 and 2606:4700:4700::1111
source_tests :
    (is_public_ip (v6 nat64_loopback) ≡ false)
    × (is_public_ip (
          v6 (record {
            s₀ = 0x2002;
            s₁ = 0x808;
            s₂ = 0x808;
            s₃ = 0;
            s₄ = 0;
            s₅ = 0;
            s₆ = 0;
            s₇ = 1;
          }))
        ≡ true)
    × (is_public_ip (
          v6 (record {
            s₀ = 0x2606;
            s₁ = 0x4700;
            s₂ = 0x4700;
            s₃ = 0;
            s₄ = 0;
            s₅ = 0;
            s₆ = 0;
            s₇ = 0x1111;
          }))
        ≡ true)
unfolding program
source_tests = (refl, refl, refl)

is_public_v4_iff_example : (is_public_v4 eights ≡ true) ↔ All (IsOutside (value eights)) reserved
is_public_v4_iff_example = is_public_v4_iff eights (omega arith)

is_public_ip-Embeds_example : is_public_ip (v6 nat64_loopback) ≡ is_public_ip (v4 loopback)
is_public_ip-Embeds_example = is_public_ip-Embeds loopback nat64_loopback (omega arith) nat64

abbrev client : OutboundClient
client = record { mode = direct; allow_http = false; allow_non_public_ips = false }

-- A web of numbered pages: 1 redirects to 2, 2 answers, and each other page redirects to itself.
abbrev web : UrlLib
web = record {
  Url = ℕ;
  parse = λ s. some (length s);
  scheme = λ url. codes "https";
  host_str = λ url. some (codes "registry.example");
  join = λ url s. some (length s);
  parse_ip = λ s. none;
}

abbrev page : ℕ → Result OutboundError Response
page url = elim url [
  | suc (suc zero) ↦
      ok (record { status = 200; location = none; content_length = none; chunks = [] })
  | suc zero ↦ ok (record {
    status = 302;
    location = some (some (codes "ab"));
    content_length = none;
    chunks = [];
  })
  | _ ↦ ok (record { status = 301; location = some (some []); content_length = none; chunks = [] })
]

followed : get web client page 1 ≡ (
  1 ∷ 2 ∷ [],
  ok (record { status = 200; location = none; content_length = none; chunks = [] }),
)
unfolding program
followed = refl

endless : length (get web client page 0).0 ≡ 6
unfolding program
endless = refl

get-IsAllowed_example :
    All (IsAllowed web) (get web client page 1).0
    × (length (get web client page 1).0 ≤ 6)
    × ((response : Response)
        → (get web client page 1).1 ≡ ok response
        → is_redirect response.status ≡ false)
get-IsAllowed_example =
    get-IsAllowed web client page 1 (record { mode = refl; no_http = refl; no_private = refl })

-- The one host of the web has the address 8.8.8.8, and every client connects there.
abbrev Connects : Reqwest ℕ → ℕ → IpAddr → Type 0
Connects reqwest url peer = peer ≡ v4 eights

eights_resolved :
    (allow_non_public_ips : Bool)
    → resolve allow_non_public_ips (ok (v4 eights ∷ [])) ≡ ok (v4 eights ∷ [])
unfolding program
eights_resolved true = refl
eights_resolved false = refl

Connects-IsReqwest : IsReqwest web Connects
unfolding program
Connects-IsReqwest = record {
  literal = λ reqwest url host ip peer a b c named here. cc;
  resolved = λ reqwest url host allow peer a b c d e here.
      (ok (v4 eights ∷ []), [], [], rw here (eights_resolved allow));
}

abbrev reqwest : Reqwest ℕ
reqwest = record {
  root_certificates = [];
  follows_redirects = false;
  uses_proxy = false;
  dns_resolver = some false;
}

built : new false direct true none ≡ ok (reqwest, client)
unfolding program
built = refl

get-public_example :
    All
      (λ sent. (peer : IpAddr) → Connects reqwest sent peer → is_public_ip peer ≡ true)
      (get web client page 1).0
get-public_example =
    get-public web Connects false true none reqwest client page 1 Connects-IsReqwest built
