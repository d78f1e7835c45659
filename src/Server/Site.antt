-- ===== src/Server/Site.antt =====
-- src/http_api.rs, src/main.rs: the router of `build_router_with_options`, and the plain listener that
-- has the redirect before it. Which route a request matches is axum's.
use open_tf_mirror.Base.{
  ℕ, ◌+◌, ◌≡◌, ◌≢◌, ◌⊎◌, inl, inr, refl, Bool, true, false, [], ◌∷◌, ◌++◌, Option, some, none,
  Option-cases, Bool-cases, Str, str_eq, codes,
}
use open_tf_mirror.Base.Map.{get}
use open_tf_mirror.Http.Bucket.{Double, TokenBucket, enforce_rate_limit}
use open_tf_mirror.Http.Bucket
use open_tf_mirror.Http.Response.{HttpResponse, status_only}
use open_tf_mirror.Http.Handlers.{Deps, Call, App, livez}
use open_tf_mirror.Http.Session.{ProviderRoute, serve}
use open_tf_mirror.Http.Ready.{ProbeCall, probe_path, readyz, readyz-IsProbe}
use open_tf_mirror.Server.Redirect.{
  Request, is_probe, is_safe, bracketed, with_port, target, redirect_location, redirected,
  redirect_http_to_https,
}

pub record RouterOptions : Type 0 where
  pub conn_qps : ℕ
  pub conn_burst : ℕ

abbrev pub default_options : RouterOptions
default_options = record { conn_qps = 100; conn_burst = 200 }

-- What a request matches; `wrong_method` is one for the path of a provider route.
pub data Route : Type 0 where
  ready live : Route
  provider : ProviderRoute → Route
  wrong_method : Route
  unmatched : (status : ℕ) → Route

-- The state behind the router. `ready_sequence` is READY_SEQUENCE.
pub record Site (F : Type 0) : Type 0 where
  pub app : App
  pub bucket : TokenBucket F
  pub ready_sequence : ℕ

-- What one request meets, and the instant at which it asks for a token.
pub record Moment : Type 0 where
  pub call : Call
  pub probe : ProbeCall
  pub now : ℕ

module _ {F : Type 0} (double : Double F) (deps : Deps) where
  unfoldable pub build_router_with_options : RouterOptions → ℕ → App → Site F
  build_router_with_options options now app = record {
    app = app;
    bucket = Bucket.new double options.conn_qps options.conn_burst now;
    ready_sequence = 0;
  }

  -- The limit is before the provider routes only.
  unfoldable pub limited : Moment → (App → App × HttpResponse) → Site F → Site F × HttpResponse
  limited moment next s =
      let (bucket, app, response) = enforce_rate_limit double moment.now next s.bucket s.app in
      (record s { app = app; bucket = bucket }, response)

  unfoldable pub serve_ready : Moment → Site F → Site F × HttpResponse
  serve_ready moment s =
      let storage = s.app.provider_storage in
      let (disk, response) =
        readyz moment.probe storage.root storage.process_id s.ready_sequence storage.disk in
      (
        record s {
          app = record s.app { provider_storage = record storage { disk = disk } };
          ready_sequence = s.ready_sequence + 1;
        },
        response,
      )

  unfoldable pub serve_site : Moment → Route → Site F → Site F × HttpResponse
  serve_site moment live s = (s, livez)
  serve_site moment ready s = serve_ready moment s
  serve_site moment (provider route) s = limited moment (serve deps moment.call route) s
  serve_site moment wrong_method s = limited moment (λ app. (app, status_only 405)) s
  serve_site moment (unmatched status) s = (s, status_only status)

  abbrev pub is_api : Route → Bool
  is_api (provider route) = true
  is_api wrong_method = true
  is_api _ = false

  -- The paths of the probes match no provider route.
  pub record IsRouted (route : Request → Route) : Type 0 where
    pub probes : (request : Request) → is_probe request.path ≡ true → is_api (route request) ≡ false

  module _ (authority_host : Str → Option Str) (is_header_value : Str → Bool)
      (route : Request → Route) where
    -- The plain listener of a server with TLS.
    unfoldable pub serve_plain : ℕ → Moment → Request → Site F → Site F × HttpResponse
    serve_plain https_port moment =
        redirect_http_to_https authority_host is_header_value https_port
          (λ request. serve_site moment (route request))

    -- A refusal, or the way to the same host, at the port of the listener with TLS, by HTTPS.
    abbrev pub IsRedirect : ℕ → Request → HttpResponse → Type 0
    IsRedirect https_port request response =
        ((response.status ≡ 400) × (response.headers ≡ []))
        ⊎ ((response.status ≡ 302)
            × ((host : Str) × (hostname : Str) × (request.host ≡ some host)
                × (authority_host host ≡ some hostname)
                × (response.headers
                    ≡ (
                      codes "location",
                      codes "https://"
                          ++ with_port (bracketed hostname) https_port
                          ++ target request.path_and_query,
                    )
                      ∷ [])))

    redirect_location_cases :
        (host path_and_query : Str) (https_port : ℕ)
        → (redirect_location authority_host is_header_value host path_and_query https_port ≡ none)
          ⊎ ((hostname : Str) × (authority_host host ≡ some hostname)
              × (redirect_location authority_host is_header_value host path_and_query https_port
                  ≡ some (
                      codes "https://"
                      ++ with_port (bracketed hostname) https_port
                      ++ path_and_query)))
    unfolding redirect_location
    redirect_location_cases host path_and_query https_port =
        elim (Option-cases (authority_host host)) [
          | inl bad ↦ inl (rw (redirect_location, bad))
          | inr (hostname, parsed) ↦
              let location =
                codes "https://" ++ with_port (bracketed hostname) https_port ++ path_and_query in
              elim (Bool-cases (is_header_value location)) [
                | inr odd ↦ inl (rw (redirect_location, parsed, odd))
                | inl good ↦ inr (hostname, parsed, rw (redirect_location, parsed, good))
              ]
        ]

    redirected-IsRedirect :
        (https_port : ℕ) (request : Request)
        → IsRedirect https_port request
            (redirected authority_host is_header_value https_port request)
    unfolding redirected
    redirected-IsRedirect https_port request = elim (Bool-cases (is_safe request.method)) [
      | inr writes ↦ rw (redirected, writes) (inl (refl, refl))
      | inl reads ↦ elim (Option-cases request.host) [
        | inl nobody ↦ simp (reads, nobody) (inl (refl, refl))
        | inr (host, named) ↦
            elim (redirect_location_cases host (target request.path_and_query) https_port) [
              | inl bad ↦ simp (reads, named, bad) (inl (refl, refl))
              | inr (hostname, parsed, good) ↦
                  simp (reads, named, good) (inr (refl, (host, hostname, refl, parsed, refl)))
            ]
      ]
    ]

    -- Nothing behind the router has changed but the file of the readiness probe.
    abbrev pub IsUntouched : Site F → Site F → Type 0
    IsUntouched s s' =
        let storage = s.app.provider_storage in
        (s'.app.metadata ≡ s.app.metadata)
        × (s'.app.provider_storage.verified ≡ storage.verified)
        × (s'.bucket ≡ s.bucket)
        × ((path : Str)
            → path ≢ probe_path storage.root storage.process_id s.ready_sequence
            → get path s'.app.provider_storage.disk ≡ get path storage.disk)

    serve_site-IsUntouched :
        (moment : Moment) (r : Route) (s : Site F)
        → is_api r ≡ false
        → IsUntouched s (serve_site moment r s).0
    unfolding serve_site serve_ready
    serve_site-IsUntouched moment ready s no_api =
        let storage = s.app.provider_storage in
        (
          refl,
          refl,
          refl,
          (readyz-IsProbe moment.probe storage.root storage.process_id s.ready_sequence
              storage.disk).0,
        )
    serve_site-IsUntouched moment live s no_api = (refl, refl, refl, λ path ne. refl)
    serve_site-IsUntouched moment (unmatched status) s no_api = (refl, refl, refl, λ path ne. refl)
    serve_site-IsUntouched moment (provider r) s no_api = cc
    serve_site-IsUntouched moment wrong_method s no_api = cc

    -- Where the paths of the probes match no provider route: a request to the plain listener of a server
    -- with TLS leaves the metadata, the table of verified files, the tokens of the limit and all files
    -- but the readiness probe's as they are; and unless it is for a probe, it is refused with 400 or
    -- sent to the same host and path by HTTPS.
    pub serve_plain-IsUntouched :
        (https_port : ℕ) (moment : Moment) (request : Request) (s : Site F)
        → IsRouted route
        → IsUntouched s (serve_plain https_port moment request s).0
          × ((is_probe request.path ≡ true)
              ⊎ IsRedirect https_port request (serve_plain https_port moment request s).1)
    unfolding serve_plain redirect_http_to_https
    serve_plain-IsUntouched https_port moment request s routed =
        elim (Bool-cases (is_probe request.path)) [
          | inl probe ↦ simp probe (
            serve_site-IsUntouched moment (route request) s (routed.probes request probe),
            inl refl,
          )
          | inr page ↦
              simp page (
                (refl, refl, refl, λ path ne. refl),
                inr (redirected-IsRedirect https_port request),
              )
        ]
