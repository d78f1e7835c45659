-- ===== src/Server/Start.antt =====
-- src/main.rs: `main` up to the listeners, `prepare_data_dir` and `bind_addr`. The command line, the
-- environment and what the system answers are parameters.
pub mod Sound
use mathlib.Core.Option
use open_tf_mirror.Base.{
  ℕ, Bool, true, false, not, ◌&&◌, ◌||◌, ltb, List, [], ◌∷◌, ◌++◌, any, is_empty, Option, some,
  none, Str, codes, decimal, Result, ok, err, ◌>>=◌, ◌>>◌, guard, ok_or, map_err, if◌then◌else◌,
}
use open_tf_mirror.Outbound.Client
use open_tf_mirror.Outbound.Client.{
  OutboundMode, OutboundClient, OutboundError, Reqwest, proxy_configured,
}
use open_tf_mirror.Tls.Errors.{TlsError}
use open_tf_mirror.Metadata.Types.{MetadataError}
use open_tf_mirror.Metadata.Index.{IndexEntry}
use open_tf_mirror.Metadata.Discover.{Directories, with_registry_client}
use open_tf_mirror.Storage.Disk.{Disk, Storage}
use open_tf_mirror.Storage.Fetch.{join_path}
use open_tf_mirror.Storage.Stale.{Trees, remove_stale_temp_files}
use open_tf_mirror.Http.Handlers.{App}
use open_tf_mirror.Server.Listener.{Listener, serve_listener}
use open_tf_mirror.Server.Site.{RouterOptions}

pub record Args : Type 0 where
  pub bind_address : Str
  pub http_port : ℕ
  pub https_port : ℕ
  pub https_redirect_port : Option ℕ
  pub enable_tls : Bool
  pub tls_cert_file : Option Str
  pub tls_private_key_file : Option Str
  pub tls_auto_cert_domains : List Str
  pub data_source_dir : Str
  pub allowed_registries : List Str
  pub metadata_ttl_seconds : ℕ
  pub outbound_mode : OutboundMode
  pub upstream_ca_file : Option Str
  pub log_debug : Bool
  pub log_verbosity : ℕ
  pub conn_qps : ℕ
  pub conn_burst : ℕ
  pub max_connections : ℕ

pub data StartError : Type 0 where
  crypto_provider ttl_too_short cache_directory address acme cert_required key_required bind :
      StartError
  outbound : OutboundError → StartError
  metadata : MetadataError → StartError
  tls : TlsError → StartError

-- Which calls of `prepare_data_dir` fail; `join_fails` is a panic of the clean-up.
pub record PrepareCall : Type 0 where
  pub create_fails : Str → Bool
  pub join_fails : Bool
  pub write_fails : Bool
  pub remove_fails : Bool

-- An error of the clean-up does not count.
unfoldable pub prepare_data_dir : PrepareCall → Str → Trees → Trees × Result StartError (Unit {0})
prepare_data_dir call root trees =
    if any call.create_fails
      (root ∷ join_path root (codes "metadata") ∷ join_path root (codes "providers") ∷ [])
    then (trees, err cache_directory)
    else if call.join_fails
    then ((remove_stale_temp_files trees).0, err cache_directory)
    else (
      (remove_stale_temp_files trees).0,
      guard (not (call.write_fails || call.remove_fails)) cache_directory,
    )

-- MAX_PROVIDER_ARCHIVE_BYTES
abbrev pub max_provider_archive_bytes : ℕ
max_provider_archive_bytes = 1073741824

-- `with_bundled_mirror_and_outbound`; the client is kept beside the storage.
unfoldable pub with_bundled_mirror : Str → Option Str → (process_id : ℕ) → Disk → Storage
with_bundled_mirror root bundled_mirror process_id disk = record {
  root = root;
  bundled_mirror = bundled_mirror;
  max_archive_bytes = max_provider_archive_bytes;
  process_id = process_id;
  disk = disk;
  verified = [];
  sequence = 0;
}

-- What the start meets: the packages, the environment, the disk, and the sockets. `resolver` is what
-- `ReloadingCertResolver::new` gives for the two files.
pub record Startup (Cert : Type 0) (Key : Type 0) (Addr : Type 0) : Type 0 where
  pub crypto_provider_fails : Bool
  pub build_fails : Bool
  pub var : Str → Option Str
  pub trim : Str → Str
  pub read_ca : Str → Result OutboundError (List Cert)
  pub prepare : PrepareCall
  pub stale : Trees
  pub directories : Directories
  pub from_slice : Str → Option IndexEntry
  pub bundled_mirror : Option Str
  pub process_id : ℕ
  pub disk : Disk
  pub parse_addr : Str → Option Addr
  pub resolver : (cert key : Str) → Result TlsError Key
  pub bind_fails : Addr → Bool

-- A listener with its address; `redirect` is the port of the redirect before the router.
pub record Endpoint (Key : Type 0) (Addr : Type 0) : Type 0 where
  pub addr : Addr
  pub acceptor : Option Key
  pub redirect : Option ℕ
  pub listener : Listener

-- The listeners that run, with what they share.
pub record Running (Cert : Type 0) (Key : Type 0) (Addr : Type 0) : Type 0 where
  pub reqwest : Reqwest Cert
  pub client : OutboundClient
  pub app : App
  pub options : RouterOptions
  pub http : Endpoint Key Addr
  pub https : Option (Endpoint Key Addr)

abbrev pub is_none : Option Str → Bool
is_none none = true
is_none (some s) = false

abbrev pub unwrap_or : Option ℕ → ℕ → ℕ
unwrap_or none default = default
unwrap_or (some n) default = n

module _ {Cert Key Addr : Type 0} (env : Startup Cert Key Addr) where
  unfoldable pub bind_addr : Str → ℕ → Result StartError Addr
  bind_addr bind_address port = ok_or (env.parse_addr (bind_address ++ b':' ∷ decimal port)) address

  abbrev pub bind_listener : Addr → Result StartError (Unit {0})
  bind_listener addr = guard (not (env.bind_fails addr)) bind

  abbrev pub Listeners : Type 0
  Listeners = Endpoint Key Addr × Option (Endpoint Key Addr)

  -- With TLS: the plain listener redirects.
  unfoldable pub start_tls : Args → Addr → Result StartError Listeners
  start_tls args http_addr = do
    guard
        (not (
          not (is_empty args.tls_auto_cert_domains)
          && (is_none args.tls_cert_file || is_none args.tls_private_key_file)))
        acme
    cert ← ok_or args.tls_cert_file cert_required
    key ← ok_or args.tls_private_key_file key_required
    https_addr ← bind_addr args.bind_address args.https_port
    acceptor ← map_err tls (env.resolver cert key)
    bind_listener https_addr
    bind_listener http_addr
    ok (
      record {
        addr = http_addr;
        acceptor = none;
        redirect = some (unwrap_or args.https_redirect_port args.https_port);
        listener = serve_listener args.max_connections;
      },
      some (record {
        addr = https_addr;
        acceptor = some acceptor;
        redirect = none;
        listener = serve_listener args.max_connections;
      }),
    )

  unfoldable pub start_plain : Args → Addr → Result StartError Listeners
  start_plain args http_addr = do
    bind_listener http_addr
    ok (
      record {
        addr = http_addr;
        acceptor = none;
        redirect = none;
        listener = serve_listener args.max_connections;
      },
      none,
    )

  -- `main`, with the state that it hands to the listeners.
  unfoldable pub main : Args → Result StartError (Running Cert Key Addr)
  main args = do
    guard (not env.crypto_provider_fails) crypto_provider
    guard (not (ltb args.metadata_ttl_seconds 30)) ttl_too_short
    (reqwest, client) ← map_err outbound (
        Client.new env.build_fails args.outbound_mode (proxy_configured env.var env.trim)
          (Option.map env.read_ca args.upstream_ca_file))
    (prepare_data_dir env.prepare args.data_source_dir env.stale).1
    service ← map_err metadata (
        with_registry_client env.directories env.from_slice args.data_source_dir
          args.allowed_registries args.metadata_ttl_seconds)
    let storage =
        with_bundled_mirror args.data_source_dir env.bundled_mirror env.process_id env.disk
    http_addr ← bind_addr args.bind_address args.http_port
    (http, https) ← if args.enable_tls then start_tls args http_addr else start_plain args http_addr
    ok (record {
      reqwest = reqwest;
      client = client;
      app = record { metadata = service; provider_storage = storage };
      options = record { conn_qps = args.conn_qps; conn_burst = args.conn_burst };
      http = http;
      https = https;
    })
