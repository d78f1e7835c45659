-- ===== src/Server/Examples.antt =====
-- src/main.rs: a server at its start and its plain listener, and the theorems at them.
use open_tf_mirror.Base.{
  ℕ, nat_eq, ◌+◌, ◌*◌, ◌≤◌, ◌≡◌, ◌⊎◌, ◌↔◌, refl, max, length, Bool, true, false, [], ◌∷◌, Option,
  some, none, Str, str_eq, str_beq, codes, split, strip_prefix, strip_suffix, decimal, ok,
  if◌then◌else◌, arith,
}
use open_tf_mirror.Base.Map.{get, insert, remove}
use open_tf_mirror.Outbound.Client
use open_tf_mirror.Outbound.Client.{direct, build, proxy_configured}
use open_tf_mirror.Metadata.Validate
use open_tf_mirror.Metadata.Validate.{validate_hostname}
use open_tf_mirror.Metadata.Discover.{discover_indices, validate_hostnames, with_registry_client}
use open_tf_mirror.Storage.Fetch.{join_path}
use open_tf_mirror.Storage.Stale.{Listing, is_temp, walk, walk_entries, remove_stale_temp_files}
use open_tf_mirror.Http.Session.{download}
use open_tf_mirror.Http.Examples.{thousandths, deps, app, request_call, stuck}
use open_tf_mirror.Server.Redirect.{Method, Request, is_probe}
use open_tf_mirror.Server.Preface.{peeked, shutdown, wait_for_protocol_preface}
use open_tf_mirror.Server.Preface.Decided.{IsLetThrough, wait_for_protocol_preface_iff}
use open_tf_mirror.Server.Listener
use open_tf_mirror.Server.Listener.{
  Listener, Connection, opening, Phase, accepting, stopped, serve_listener, held, leave_loop,
  OwnStep, own, grace_over, cancel, aborted, Step, signal, acquire, accept, shut, finish, drained,
  Reach, later,
}
use open_tf_mirror.Server.Listener.Permits.{Reach-total}
use open_tf_mirror.Server.Listener.Stops.{Run, rest, step, Run-stops}
use open_tf_mirror.Server.Site.{
  Site, Moment, Route, live, ready, provider, serve_plain, IsRouted, IsUntouched, IsRedirect,
  serve_plain-IsUntouched,
}
use open_tf_mirror.Server.Start.{
  Args, Startup, Running, prepare_data_dir, with_bundled_mirror, bind_addr, start_tls, start_plain,
  main,
}
use open_tf_mirror.Server.Start.Sound.{IsStarted, main-IsStarted}

wait_for_protocol_preface_iff_example :
    (wait_for_protocol_preface (peeked (codes "PRI") ∷ peeked (codes "PRI /") ∷ shutdown ∷ [])
      ≡ some true)
    ↔ IsLetThrough (peeked (codes "PRI") ∷ peeked (codes "PRI /") ∷ shutdown ∷ [])
wait_for_protocol_preface_iff_example =
    wait_for_protocol_preface_iff (peeked (codes "PRI") ∷ peeked (codes "PRI /") ∷ shutdown ∷ [])

-- A listener with one permit, which the accepting task has taken and given to a connection.
abbrev taken : Listener
taken = record (serve_listener 0) { phase = Phase.ready; permits = 0 }

abbrev busy : Listener
busy = record (serve_listener 0) { phase = accepting; permits = 0; connections = opening ∷ [] }

busy-Reach : Reach 0 busy
unfolding serve_listener
busy-Reach =
    later (later Listener.start (acquire (serve_listener 0) 0 refl refl)) (accept taken refl)

Reach-total_example :
    (busy.permits + held busy.phase + length busy.connections ≡ max 0 1)
    × (length busy.connections ≤ max 0 1)
Reach-total_example = Reach-total 0 busy busy-Reach

-- After the shutdown the connection goes on for longer than the grace period, and is cancelled.
abbrev left : Listener
left = record { phase = Phase.draining; permits = 0; connections = opening ∷ []; shutdown = true }

left-Reach : Reach 0 left
unfolding serve_listener leave_loop
left-Reach =
    later (later busy-Reach (signal busy refl))
      (own (shut (record busy { shutdown = true }) refl refl))

abbrev late : Listener
late = record left { phase = Phase.aborting }

abbrev empty : Listener
empty = record late { permits = 1; connections = [] }

abbrev over : Listener
over = record empty { phase = stopped }

left-Run : Run 3 left over
left-Run = step (own (grace_over left refl)) (
    step (own (cancel late [] [] opening refl refl))
      (step (own (aborted empty refl refl)) (rest over)))

Run-stops_example :
    (left.shutdown ≡ true)
    × (3 ≤ 3 * length left.connections + 2)
    × ((over.phase ≡ stopped) ⊎ ((u : Listener) × OwnStep over u))
Run-stops_example = Run-stops left-Reach refl left-Run

abbrev site : Site ℕ
site = record {
  app = app;
  bucket = record { qps = 1000; burst = 2000; tokens = 500; last_refill = 0 };
  ready_sequence = 0;
}

abbrev moment : Moment
moment = record { call = request_call; probe = stuck; now = 500000000 }

abbrev route : Request → Route
route request =
    if str_beq request.path (codes "/readyz")
    then ready
    else if str_beq request.path (codes "/livez")
    then live
    else provider (download (codes "a.io") (codes "n") (codes "t") request.path)

route-IsRouted : IsRouted thousandths deps route
route-IsRouted = record { probes = λ request h. ground arith }

abbrev page : Request
page = record {
  method = Method.get;
  path = codes "/v1";
  path_and_query = some (codes "/v1?x");
  host = some (codes "mirror:80");
}

abbrev authority_host : Str → Option Str
authority_host host = some (codes "mirror")

abbrev is_header_value : Str → Bool
is_header_value value = true

serve_plain-IsUntouched_example :
    IsUntouched thousandths deps authority_host is_header_value route site
      (serve_plain thousandths deps authority_host is_header_value route 8443 moment page site).0
    × ((is_probe page.path ≡ true)
        ⊎ IsRedirect thousandths deps authority_host is_header_value route 8443 page
            (serve_plain thousandths deps authority_host is_header_value route 8443 moment page
              site).1)
serve_plain-IsUntouched_example =
    serve_plain-IsUntouched thousandths deps authority_host is_header_value route 8443 moment page
      site route-IsRouted

program : Unit {0}
unfolding get insert remove split strip_prefix strip_suffix decimal Client.new build
    Validate.valid_component validate_hostname discover_indices validate_hostnames
    with_registry_client join_path is_temp walk walk_entries remove_stale_temp_files
    prepare_data_dir with_bundled_mirror bind_addr start_tls start_plain main
program = tt

-- A server with TLS, over an empty data directory.
abbrev args : Args
args = record {
  bind_address = codes "0.0.0.0";
  http_port = 80;
  https_port = 443;
  https_redirect_port = none;
  enable_tls = true;
  tls_cert_file = some (codes "c");
  tls_private_key_file = some (codes "k");
  tls_auto_cert_domains = [];
  data_source_dir = codes "/data";
  allowed_registries = codes "a.io" ∷ [];
  metadata_ttl_seconds = 1800;
  outbound_mode = direct;
  upstream_ca_file = none;
  log_debug = false;
  log_verbosity = 0;
  conn_qps = 100;
  conn_burst = 200;
  max_connections = 64;
}

-- A certificate, a key and an address are texts.
abbrev startup : Startup Str Str Str
startup = record {
  crypto_provider_fails = false;
  build_fails = false;
  var = λ name. none;
  trim = λ value. value;
  read_ca = λ path. ok [];
  prepare = record {
    create_fails = λ path. false;
    join_fails = false;
    write_fails = false;
    remove_fails = false;
  };
  stale = (Listing.missing, Listing.missing);
  directories = record { read_dir = λ path. ok none; read_index = λ path. ok none };
  from_slice = λ bytes. none;
  bundled_mirror = none;
  process_id = 7;
  disk = [];
  parse_addr = λ text. some text;
  resolver = λ cert key. ok key;
  bind_fails = λ addr. false;
}

started : (running : Running Str Str Str) × (main startup args ≡ ok running)
unfolding program
started = (_, refl)

main-IsStarted_example : IsStarted startup args started.0
main-IsStarted_example = main-IsStarted startup args started.0 started.1
