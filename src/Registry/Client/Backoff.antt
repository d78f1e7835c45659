-- ===== src/Registry/Client/Backoff.antt =====
-- src/registry.rs: after a failed discovery the registry is left in peace for a while.
use open_tf_mirror.Base.{
  ℕ, ◌+◌, ◌<◌, ◌≡◌, refl, Bool, lt→ltb, [], Option, some, none, Str, str_eq, codes, err, ok_or,
  arith,
}
use open_tf_mirror.Base.Map.{get, insert, get-insert_self}
use open_tf_mirror.Outbound.Client.{UrlLib}
use open_tf_mirror.Registry.Types.{RegistryError, discovery_backoff}
use open_tf_mirror.Registry.Client.{
  OriginLib, DiscoveryEntry, Cache, RegistryClient, Call, Json, retry_delay, cached, failed_entry,
  settle_discovery, fetch_origin, discover_locked, discover,
}

module _ (urls : UrlLib) (lib : OriginLib urls) (is_error_status : ℕ → Bool) (json : Json)
    (c : RegistryClient urls) where
  open urls use {Url}

  -- The origin that was known, however old.
  abbrev pub known_origin : Option (DiscoveryEntry urls) → Option Url
  known_origin none = none
  known_origin (some entry) = entry.origin

  -- A discovery that finds nothing usable in the cache, asks the registry, and fails.
  pub record IsFailure (call : Call urls) (hostname : Str) (base : Url) (cache : Cache urls)
      : Type 0 where
    pub url : Url
    pub error : RegistryError
    pub no_answer : cached urls lib call.first (get hostname cache) ≡ none
    pub no_answer_again : cached urls lib call.again (get hostname cache) ≡ none
    pub joined : urls.join base (codes ".well-known/terraform.json") ≡ some url
    pub failed : (fetch_origin urls lib is_error_status json c call url).1 ≡ err error

  cached-failed_entry :
      (now done : ℕ) (old : Option (DiscoveryEntry urls))
      → now < done + retry_delay
      → cached urls lib now (some (failed_entry urls lib done old))
        ≡ some (ok_or (failed_entry urls lib done old).origin discovery_backoff)
  cached-failed_entry now done none h = rw (lt→ltb now (done + retry_delay) h)
  cached-failed_entry now done (some entry) h = ground (arith, lt→ltb now (done + retry_delay) h)

  failed_entry-origin :
      (done : ℕ) (old : Option (DiscoveryEntry urls))
      → (failed_entry urls lib done old).origin ≡ known_origin old
  failed_entry-origin done none = refl
  failed_entry-origin done (some entry) = refl

  discover-refused :
      (later : Call urls) (done : ℕ) (hostname : Str) (base : Url)
      (old : Option (DiscoveryEntry urls)) (cache : Cache urls)
      → later.first < done + retry_delay
      → discover urls lib is_error_status json c later hostname base
          (insert hostname (failed_entry urls lib done old) cache)
        ≡ (
          insert hostname (failed_entry urls lib done old) cache,
          [],
          ok_or (known_origin old) discovery_backoff,
        )
  unfolding discover
  discover-refused later done hostname base old cache h =
      let entry = failed_entry urls lib done old in
      let answer = cached-failed_entry later.first done old h in
      rw (discover, get-insert_self hostname entry cache, answer, failed_entry-origin done old)

  discover-failed :
      (call : Call urls) (hostname : Str) (base : Url) (cache : Cache urls)
      → IsFailure call hostname base cache
      → (discover urls lib is_error_status json c call hostname base cache).0
        ≡ insert hostname (failed_entry urls lib call.done (get hostname cache)) cache
  unfolding discover discover_locked settle_discovery
  discover-failed call hostname base cache f = rw (
    discover, f.no_answer, discover_locked, f.no_answer_again, f.joined, settle_discovery, f.failed,
  )

  -- If a discovery asked the registry and failed, then for the next 30 seconds a discovery for that
  -- host sends no request and leaves the cache as it is; it answers with the origin that was known
  -- before, however old, and with the error of the backoff where there was none.
  pub discover-backoff :
      (call later : Call urls) (hostname : Str) (base : Url) (cache : Cache urls)
      → IsFailure call hostname base cache
      → later.first < call.done + retry_delay
      → discover urls lib is_error_status json c later hostname base
          (discover urls lib is_error_status json c call hostname base cache).0
        ≡ (
          (discover urls lib is_error_status json c call hostname base cache).0,
          [],
          ok_or (known_origin (get hostname cache)) discovery_backoff,
        )
  discover-backoff call later hostname base cache f h =
      rw (discover-failed call hostname base cache f)
        (discover-refused later call.done hostname base (get hostname cache) cache h)
