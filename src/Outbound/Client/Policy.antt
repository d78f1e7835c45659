-- ===== src/Outbound/Client/Policy.antt =====
-- src/outbound.rs: every request that the client sends is one that the policy allows.
use open_tf_mirror.Base.{
  ℕ, zero, suc, ◌≤◌, ◌≡◌, refl, Bool, true, false, not, ◌||◌, List, [], ◌∷◌, any, all, is_empty,
  length, All, All-mono, all-All, Option, some, Str, codes, str_beq, str_beq_iff, Result, ok, err,
  guard, ok_or, >>=-eq-ok, ok_or-eq-ok, guard-eq-ok, Result-cases, Bool-cases, inl, inr, arith,
}
use open_tf_mirror.Outbound.Address.{IpAddr, is_public_ip}
use open_tf_mirror.Outbound.Client.{
  Reqwest, build, ca_certificates, OutboundMode, direct, trusted_proxy, OutboundError, UrlLib,
  Response, max_redirects, OutboundClient, resolve, new, is_redirect, is_forbidden, literal_ip,
  validate_url, next_url, Log, get_from, get,
}

-- A client as `new` builds it in direct mode.
pub record IsGuarded (c : OutboundClient) : Type 0 where
  pub mode : c.mode ≡ direct
  pub no_http : c.allow_http ≡ false
  pub no_private : c.allow_non_public_ips ≡ false

-- A client of `reqwest` as `new` builds it in direct mode.
pub record IsPinned {C : Type 0} (reqwest : Reqwest C) : Type 0 where
  pub no_redirects : reqwest.follows_redirects ≡ false
  pub no_proxy : reqwest.uses_proxy ≡ false
  pub resolver : reqwest.dns_resolver ≡ some false

-- `new` in direct mode builds a guarded client, whether or not a proxy is configured, and in the
-- other mode it succeeds only where a proxy is configured.
pub new_sound :
    {C : Type 0} (build_fails : Bool) (mode : OutboundMode) (is_proxied : Bool)
    (ca_file : Option (Result OutboundError (List C))) (reqwest : Reqwest C) (c : OutboundClient)
    → new build_fails mode is_proxied ca_file ≡ ok (reqwest, c)
    → (mode ≡ direct → IsPinned reqwest × IsGuarded c) × (mode ≡ trusted_proxy → is_proxied ≡ true)
unfolding new build
new_sound build_fails direct is_proxied ca_file reqwest c h =
    let (certificates, _, h₁) = >>=-eq-ok (ca_certificates ca_file) _ h in
    let (_, _, h₂) = >>=-eq-ok (guard (not build_fails) _) _ h₁ in
    (
      λ _. (
        record { no_redirects = ground arith; no_proxy = ground arith; resolver = ground arith },
        record { mode = ground arith; no_http = ground arith; no_private = ground arith },
      ),
      λ e. cc,
    )
new_sound build_fails trusted_proxy is_proxied ca_file reqwest c h =
    let (_, e, _) = >>=-eq-ok (guard is_proxied _) _ h in (λ e. cc, λ _. guard-eq-ok is_proxied _ e)

any-not :
    {A : Type 0} (p : A → Bool) (xs : List A) → any (λ a. not (p a)) xs ≡ false → all p xs ≡ true
any-not p [] h = refl
any-not p (x ∷ xs) h = ground (arith, any-not p xs)

-- Unless private addresses are allowed, what the resolver returns is not empty and every address is
-- public, so that a connection to a name goes to a public address.
pub resolve-public :
    (lookup : Result OutboundError (List IpAddr)) (addresses : List IpAddr)
    → resolve false lookup ≡ ok addresses
    → (is_empty addresses ≡ false) × All (λ address. is_public_ip address ≡ true) addresses
unfolding resolve
resolve-public lookup addresses h =
    let (found, e, h₁) = >>=-eq-ok lookup _ h in
    let (_, g₁, h₂) = >>=-eq-ok (guard (not (is_empty found)) _) _ h₁ in
    let (_, g₂, h₃) =
      >>=-eq-ok (guard (not (any (λ address. not (is_public_ip address)) found)) _) _ h₂ in
    let some_found : is_empty found ≡ false = ground arith in
    let none_private : any (λ address. not (is_public_ip address)) found ≡ false = ground arith in
    let same : found ≡ addresses = ground arith in
    (
      rw (← same) some_found,
      rw (← same) (all-All is_public_ip found (any-not is_public_ip found none_private)),
    )

module _ (urls : UrlLib) where
  open urls use {Url, scheme, host_str, join}

  -- An HTTPS URL with a host, which is no literal of an address that is not public.
  pub record IsAllowed (url : Url) : Type 0 where
    pub https : scheme url ≡ codes "https"
    pub host : Str
    pub has_host : host_str url ≡ some host
    pub public : is_forbidden (literal_ip urls host) ≡ false

  validate_url-IsAllowed :
      (c : OutboundClient) (url : Url)
      → IsGuarded c
      → validate_url urls c url ≡ ok tt
      → IsAllowed url
  unfolding validate_url
  validate_url-IsAllowed c url g h =
      let h' = rw (g.mode, g.no_http, g.no_private) at h in
      let (_, g₁, h₁) = >>=-eq-ok (guard (str_beq (scheme url) (codes "https") || false) _) _ h' in
      let (host, e, h₂) = >>=-eq-ok (ok_or (host_str url) _) _ h₁ in
      record {
        https = (str_beq_iff (scheme url) (codes "https")).0 (ground arith);
        host = host;
        has_host = ok_or-eq-ok (host_str url) _ e;
        public = ground arith;
      }

  module _ (c : OutboundClient) (send : Url → Result OutboundError Response) where
    -- What a run of the redirect loop promises.
    pub record IsFollowed (bound : ℕ) (run : Log urls) : Type 0 where
      pub valid : All (λ url. validate_url urls c url ≡ ok tt) run.0
      pub few : length run.0 ≤ bound
      pub final : (response : Response) → run.1 ≡ ok response → is_redirect response.status ≡ false

    refused : (n : ℕ) (e : OutboundError) → IsFollowed n ([], err e)
    refused n e = record { valid = tt; few = omega arith; final = λ response h. cc }

    failed :
        (n : ℕ) (url : Url) (e : OutboundError)
        → validate_url urls c url ≡ ok tt
        → IsFollowed (suc n) (url ∷ [], err e)
    failed n url e v = record { valid = (v, tt); few = omega arith; final = λ response h. cc }

    answered :
        (n : ℕ) (url : Url) (response : Response)
        → validate_url urls c url ≡ ok tt
        → is_redirect response.status ≡ false
        → IsFollowed (suc n) (url ∷ [], ok response)
    answered n url response v r = record {
      valid = (v, tt);
      few = omega arith;
      final = λ other h. ground arith;
    }

    logged :
        (n : ℕ) (url : Url) (run : Log urls)
        → validate_url urls c url ≡ ok tt
        → IsFollowed n run
        → IsFollowed (suc n) (url ∷ run.0, run.1)
    logged n url run v f = record {
      valid = (v, f.valid);
      few = omega (arith, f.few);
      final = f.final;
    }

    get_from-IsFollowed :
        (left : ℕ) (url : Url) → IsFollowed (suc left) (get_from urls c send left url)
    unfolding get_from
    get_from-IsFollowed zero url = elim (Result-cases (validate_url urls c url)) [
      | inr (e, v) ↦ rw (v, get_from) (refused 1 e)
      | inl (_, v) ↦ elim (Result-cases (send url)) [
        | inr (e, s) ↦ rw (v, s, get_from) (failed 0 url e v)
        | inl (response, s) ↦ elim (Bool-cases (is_redirect response.status)) [
          | inl r ↦ rw (v, s, r, get_from) (failed 0 url _ v)
          | inr r ↦ rw (v, s, r, get_from) (answered 0 url response v r)
        ]
      ]
    ]
    get_from-IsFollowed (suc left) url = elim (Result-cases (validate_url urls c url)) [
      | inr (e, v) ↦ rw (v, get_from) (refused _ e)
      | inl (_, v) ↦ elim (Result-cases (send url)) [
        | inr (e, s) ↦ rw (v, s, get_from) (failed _ url e v)
        | inl (response, s) ↦ elim (Bool-cases (is_redirect response.status)) [
          | inr r ↦ rw (v, s, r, get_from) (answered _ url response v r)
          | inl r ↦
              rw (v, s, r, get_from)
                (elim (Result-cases (next_url urls url response)) [
                  | inr (e, n) ↦ rw (n, get_from) (failed _ url e v)
                  | inl (next, n) ↦ elim (Result-cases (validate_url urls c next)) [
                    | inr (e, w) ↦ rw (n, w, get_from) (failed _ url e v)
                    | inl (_, w) ↦
                        rw (n, w, get_from)
                          (logged _ url (get_from urls c send left next) v
                            (get_from-IsFollowed left next))
                  ]
                ])
        ]
      ]
    ]

    -- Whatever the network answers, a guarded client sends at most six requests for one `get`, each
    -- to an HTTPS URL with a host that is no literal of an address that is not public, and the
    -- response that it returns is no redirect.
    pub get-IsAllowed :
        (url : Url)
        → IsGuarded c
        → All IsAllowed (get urls c send url).0
          × (length (get urls c send url).0 ≤ 6)
          × ((response : Response)
              → (get urls c send url).1 ≡ ok response
              → is_redirect response.status ≡ false)
    unfolding get
    get-IsAllowed url g =
        let run = get_from-IsFollowed max_redirects url in
        (
          All-mono _ IsAllowed (λ u v. validate_url-IsAllowed c u g v) _ run.valid,
          run.few,
          run.final,
        )
