-- ===== src/Server/Start/Sound.antt =====
-- src/main.rs: the state and the listeners that `main` sets up.
use mathlib.Core.Option
use mathlib.Core.Path.{subst}
use open_tf_mirror.Base.{
  ℕ, ◌≡◌, ◌≤◌, ◌<◌, ◌⊎◌, inl, inr, refl, Bool, true, false, not, ltb, is_empty, ◌&&◌, ◌||◌, Option,
  some, none, Result, ok, err, guard, ok_or, map_err, >>=-eq-ok, guard-eq-ok, if◌then◌else◌,
  u64_max, arith,
}
use open_tf_mirror.Outbound.Client
use open_tf_mirror.Outbound.Client.{
  proxy_configured, OutboundMode, direct, trusted_proxy, OutboundClient, OutboundError,
}
use open_tf_mirror.Outbound.Client.Policy.{IsGuarded, IsPinned, new_sound}
use open_tf_mirror.Metadata.Index.Validity.{IsValid}
use open_tf_mirror.Metadata.Discover.{with_registry_client}
use open_tf_mirror.Metadata.Discover.Found.{with_registry_client-IsValid}
use open_tf_mirror.Http.Handlers.{Deps}
use open_tf_mirror.Http.Session.{Session, start}
use open_tf_mirror.Server.Start.{
  Args, StartError, crypto_provider, ttl_too_short, acme, cert_required, key_required, tls,
  prepare_data_dir, max_provider_archive_bytes, with_bundled_mirror, Startup, Endpoint, Running,
  is_none, bind_addr, bind_listener, Listeners, start_tls, start_plain, main,
}

ok-injective :
    {E A : Type 0} (result : Result E A) {a b : A} → result ≡ ok a → result ≡ ok b → a ≡ b
ok-injective result h k = ground arith

not_short : (n : ℕ) {u : Unit {0}} → guard (not (ltb n 30)) ttl_too_short ≡ ok u → 30 ≤ n
not_short n h = let long = guard-eq-ok (not (ltb n 30)) ttl_too_short h in ground arith

map_err-eq-ok :
    {E F A : Type 0} (f : E → F) (result : Result E A) (a : A)
    → map_err f result ≡ ok a
    → result ≡ ok a
map_err-eq-ok f (ok b) a h = ground arith
map_err-eq-ok f (err e) a h = cc

module _ {Cert Key Addr : Type 0} (env : Startup Cert Key Addr) where
  -- With TLS the plain listener redirects and the other one has a key; without, there is one listener.
  abbrev pub HasListeners : Bool → Endpoint Key Addr → Option (Endpoint Key Addr) → Type 0
  HasListeners enable_tls http https =
      ((enable_tls ≡ false) × (http.redirect ≡ none) × (https ≡ none))
      ⊎ ((enable_tls ≡ true)
          × ((port : ℕ) × (http.redirect ≡ some port))
          × ((endpoint : Endpoint Key Addr) × (key : Key) × (https ≡ some endpoint)
              × (endpoint.acceptor ≡ some key)))

  start_tls-HasListeners :
      (args : Args) (http_addr : Addr) (listeners : Listeners env)
      → start_tls env args http_addr ≡ ok listeners
      → HasListeners true listeners.0 listeners.1
  unfolding start_tls
  start_tls-HasListeners args http_addr listeners h =
      let (_, _, h₁) =
        >>=-eq-ok
          (guard
            (not (
              not (is_empty args.tls_auto_cert_domains)
              && (is_none args.tls_cert_file || is_none args.tls_private_key_file)))
            acme)
          _ h in
      let (cert, _, h₂) = >>=-eq-ok (ok_or args.tls_cert_file cert_required) _ h₁ in
      let (key, _, h₃) = >>=-eq-ok (ok_or args.tls_private_key_file key_required) _ h₂ in
      let (https_addr, _, h₄) = >>=-eq-ok (bind_addr env args.bind_address args.https_port) _ h₃ in
      let (acceptor, _, h₅) = >>=-eq-ok (map_err tls (env.resolver cert key)) _ h₄ in
      let (_, _, h₆) = >>=-eq-ok (bind_listener env https_addr) _ h₅ in
      let (_, _, h₇) = >>=-eq-ok (bind_listener env http_addr) _ h₆ in
      subst (λ found. HasListeners true found.0 found.1) (ok-injective _ refl h₇)
        (inr (refl, (_, refl), (_, _, refl, refl)))

  start_plain-HasListeners :
      (args : Args) (http_addr : Addr) (listeners : Listeners env)
      → start_plain env args http_addr ≡ ok listeners
      → HasListeners false listeners.0 listeners.1
  unfolding start_plain
  start_plain-HasListeners args http_addr listeners h =
      let (_, _, h₁) = >>=-eq-ok (bind_listener env http_addr) _ h in
      subst (λ found. HasListeners false found.0 found.1) (ok-injective _ refl h₁)
        (inl (refl, refl, refl))

  if-HasListeners :
      (enable_tls : Bool) (args : Args) (http_addr : Addr) (listeners : Listeners env)
      → (if enable_tls then start_tls env args http_addr else start_plain env args http_addr)
        ≡ ok listeners
      → HasListeners enable_tls listeners.0 listeners.1
  if-HasListeners true args http_addr listeners h =
      start_tls-HasListeners args http_addr listeners h
  if-HasListeners false args http_addr listeners h =
      start_plain-HasListeners args http_addr listeners h

  -- What a server that has started is like.
  pub record IsStarted (args : Args) (running : Running Cert Key Addr) : Type 1 where
    pub freshness : running.app.metadata.service.freshness ≡ args.metadata_ttl_seconds
    pub fresh : 30 ≤ running.app.metadata.service.freshness
    pub options :
        (running.options.conn_qps ≡ args.conn_qps) × (running.options.conn_burst ≡ args.conn_burst)
    pub client : args.outbound_mode ≡ direct → IsPinned running.reqwest × IsGuarded running.client
    pub indices : IsValid running.app.metadata.service
    pub session : (deps : Deps) → Session deps running.app
    pub limit : running.app.provider_storage.max_archive_bytes < u64_max
    pub listeners : HasListeners args.enable_tls running.http running.https

  -- A server that starts: the freshness of its metadata service is the one of the arguments, 30 seconds at
  -- least, and the numbers of its rate limit are those of the arguments; its client in direct mode is
  -- guarded and pinned, its indices in memory are valid, its state starts a session over any packages,
  -- the limit on an archive is below 2^64 - 1, and with TLS there is a listener with a key beside one
  -- that redirects, without TLS one listener that does not.
  pub main-IsStarted :
      (args : Args) (running : Running Cert Key Addr)
      → main env args ≡ ok running
      → IsStarted args running
  unfolding main with_bundled_mirror
  main-IsStarted args running h =
      let (_, _, h₁) = >>=-eq-ok (guard (not env.crypto_provider_fails) crypto_provider) _ h in
      let (_, long, h₂) =
        >>=-eq-ok (guard (not (ltb args.metadata_ttl_seconds 30)) ttl_too_short) _ h₁ in
      let ((reqwest, client), c, h₃) =
        >>=-eq-ok
          (map_err StartError.outbound (
            Client.new env.build_fails args.outbound_mode (proxy_configured env.var env.trim)
              (Option.map env.read_ca args.upstream_ca_file)))
          _ h₂ in
      let (_, _, h₄) =
        >>=-eq-ok (prepare_data_dir env.prepare args.data_source_dir env.stale).1 _ h₃ in
      let (service, v, h₅) =
        >>=-eq-ok
          (map_err StartError.metadata (
            with_registry_client env.directories env.from_slice args.data_source_dir
              args.allowed_registries args.metadata_ttl_seconds))
          _ h₄ in
      let (http_addr, _, h₆) = >>=-eq-ok (bind_addr env args.bind_address args.http_port) _ h₅ in
      let (listeners, l, h₇) =
        >>=-eq-ok
          (if args.enable_tls then start_tls env args http_addr else start_plain env args http_addr)
          _ h₆ in
      let guarded =
        new_sound env.build_fails args.outbound_mode (proxy_configured env.var env.trim)
          (Option.map env.read_ca args.upstream_ca_file) reqwest client
          (map_err-eq-ok _ _ (reqwest, client) c) in
      let valid =
        with_registry_client-IsValid env.directories env.from_slice args.data_source_dir
          args.allowed_registries args.metadata_ttl_seconds service (map_err-eq-ok _ _ service v) in
      let below : max_provider_archive_bytes < u64_max = ground arith in
      subst (IsStarted args) (ok-injective _ refl h₇) (record {
        freshness = valid.2;
        fresh = rw valid.2 (not_short args.metadata_ttl_seconds long);
        options = (refl, refl);
        client = guarded.0;
        indices = valid.0;
        session = λ deps. start _ valid.1 refl;
        limit = below;
        listeners = if-HasListeners args.enable_tls args http_addr listeners l;
      })
