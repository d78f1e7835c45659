-- ===== src/Outbound/Client/Connect.antt =====
-- src/outbound.rs: where a client in direct mode connects to. How `reqwest` connects is a parameter
-- with what its documentation promises of a client without redirects and proxies.
use open_tf_mirror.Base.{
  ◌≡◌, refl, Bool, true, false, List, ◌∷◌, ◌++◌, All, All-mono, All-append_right, Option, some,
  none, Option-cases, inl, inr, Str, Result, ok, arith,
}
use open_tf_mirror.Outbound.Address.{IpAddr, is_public_ip}
use open_tf_mirror.Outbound.Client.{
  direct, OutboundClient, OutboundError, UrlLib, Response, Reqwest, resolve, new, literal_ip, get,
}
use open_tf_mirror.Outbound.Client.Policy.{
  IsPinned, IsAllowed, new_sound, resolve-public, get-IsAllowed,
}

module _ {C : Type 0} (urls : UrlLib) (connects : Reqwest C → urls.Url → IpAddr → Type 0) where
  open urls use {Url, host_str}

  -- A peer is the address that the URL names, or, where its host is a name, one of those that the
  -- resolver returned for some answer to its lookup.
  pub record IsReqwest : Type 0 where
    pub literal :
        (reqwest : Reqwest C) (url : Url) (host : Str) (ip peer : IpAddr)
        → reqwest.follows_redirects ≡ false
        → reqwest.uses_proxy ≡ false
        → host_str url ≡ some host
        → literal_ip urls host ≡ some ip
        → connects reqwest url peer
        → peer ≡ ip
    pub resolved :
        (reqwest : Reqwest C) (url : Url) (host : Str) (allow_non_public_ips : Bool) (peer : IpAddr)
        → reqwest.follows_redirects ≡ false
        → reqwest.uses_proxy ≡ false
        → host_str url ≡ some host
        → literal_ip urls host ≡ none
        → reqwest.dns_resolver ≡ some allow_non_public_ips
        → connects reqwest url peer
        → (lookup : Result OutboundError (List IpAddr)) × (before : List IpAddr) × (after : List
            IpAddr)
          × (resolve allow_non_public_ips lookup ≡ ok (before ++ peer ∷ after))

  allowed-public :
      (reqwest : Reqwest C) (url : Url) (peer : IpAddr)
      → IsReqwest
      → IsPinned reqwest
      → IsAllowed urls url
      → connects reqwest url peer
      → is_public_ip peer ≡ true
  allowed-public reqwest url peer behaved pinned allowed connected =
      elim (Option-cases (literal_ip urls allowed.host)) [
        | inr (ip, named) ↦
            let same =
              behaved.literal reqwest url allowed.host ip peer pinned.no_redirects pinned.no_proxy
                allowed.has_host named connected in
            let public = rw named at allowed.public in rw same (ground arith)
        | inl unnamed ↦
            let (lookup, before, after, answer) =
              behaved.resolved reqwest url allowed.host false peer pinned.no_redirects
                pinned.no_proxy allowed.has_host unnamed pinned.resolver connected in
            let (_, public) = resolve-public lookup (before ++ peer ∷ after) answer in
            (All-append_right _ before (peer ∷ after) public).0
      ]

  -- Whatever the network and the name service answer, if `reqwest` connects as its documentation says:
  -- a client that `new` builds in direct mode, whether or not a proxy is configured, connects only to
  -- public addresses in a `get`, redirects included.
  pub get-public :
      (build_fails is_proxied : Bool) (ca_file : Option (Result OutboundError (List C)))
      (reqwest : Reqwest C) (c : OutboundClient) (send : Url → Result OutboundError Response)
      (url : Url)
      → IsReqwest
      → new build_fails direct is_proxied ca_file ≡ ok (reqwest, c)
      → All
          (λ sent. (peer : IpAddr) → connects reqwest sent peer → is_public_ip peer ≡ true)
          (get urls c send url).0
  get-public build_fails is_proxied ca_file reqwest c send url behaved built =
      let (pinned, guarded) =
        (new_sound build_fails direct is_proxied ca_file reqwest c built).0 refl in
      All-mono (IsAllowed urls) _
        (λ sent allowed peer connected.
          allowed-public reqwest sent peer behaved pinned allowed connected)
        _ (get-IsAllowed urls c send url guarded).0
