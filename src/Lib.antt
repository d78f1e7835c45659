-- ===== src/Lib.antt =====
-- open-tf-mirror: a caching mirror of Terraform provider registries, as functions with their laws.
--
-- A request names a provider; `src/metadata.rs` checks the address, keeps the list of the provider's
-- versions and the packages of each version in memory and on disk, and asks `src/registry.rs` when
-- they are old. The registry is reached through the client of `src/outbound.rs`, which bounds
-- redirects and refuses non-public addresses; archive names are read by `src/provider.rs`. The TLS
-- listener takes its key from `src/tls_reload.rs`.
--
-- Base: lists, strings of bytes (`Str`), results, association maps, integers with the checks of i64,
--   decimal digits.
-- Provider: src/provider.rs, `ArchiveName::parse` and `from_parts`.
-- Outbound: src/outbound.rs. Address is `is_public_ip`; Client is `OutboundMode`, `new` with `build`,
--   `get`, `validate_url`, `proxy_configured` and `PublicOnlyResolver::resolve`. The `url` crate is the record `UrlLib`, and what
--   a request or a name lookup gives is a parameter. `get` is its loop over the redirects that are
--   left, from `MAX_REDIRECTS`, with the log of the requests sent.
-- Tls: src/tls_reload.rs. Der is `read_der_tlv` and `read_der_value`, Civil `days_from_civil` and the
--   calendar, Time `parse_certificate_time`, Validity `parse_certificate_validity` and
--   `validate_certificate_validity`, Resolver `load_certified_key` and the reloading resolver. Bytes
--   are numbers; i64 arithmetic is the integers with `checked`; `usize` has 64 bits.
-- Registry: src/registry.rs. Decode is `decode_json` over a parser, Client is `discover` with its cache,
--   `origin`, `versions` and `package` (here `registry_package`). The parsers of JSON are the record
--   `Json`, the paths of URLs `OriginLib` with the laws `IsOriginLib`. The clock is read once for each
--   look at the cache.
-- Metadata: src/metadata.rs. Types, Validate, Backoff (the map of failures), and Index (`load_index`,
--   `refresh_index_unlocked`, `sync_known`), Packages (the platforms of a version, fetched and merged),
--   Versions (`load_version`, `refresh_version`) and Lookup (`get_version`,
--   `get_platform_by_archive`, `insert_version`). The clock, the registry and the disk are the record `Env`
--   of an operation. The lock of a key is held through an operation, so operations follow each other.
--   Locks is `lock_for` and the drop of its guard, with the steps of several tasks in any order; Listing
--   is `list_versions` and `compare_versions`, over the order of `semver`. Files is `read_json` and
--   `write_json_atomic` over a map of paths to files; Discover is `discover_indices` and
--   `with_registry_client` over the listings of directories.
-- Storage: src/storage.rs, `validate_key` and `record_verified`; Disk is `archive_matches_checksum` and
--   `hash_file` over a map of paths to files, Fetch is `load_or_fetch`, `locked_load_or_fetch` and
--   `download`, Stale is `remove_stale_temp_files` over a tree of directories. The record `Io` says which calls of the file system fail in an operation, in which
--   pieces a file is read, and which identity a new file gets; nobody else changes a file during an
--   operation. A total of bytes saturates at `u64::MAX`.
-- Http: src/http_api.rs. Response is the JSON bodies and the status of an error, Handlers the handlers
--   over the state of Metadata and Storage, Ready is `readyz`, Bucket the rate limit, Session the provider routes and a
--   server over many requests. Numbers of the type f64 are the record `Double` with the laws `IsDouble`.
--
-- Server: src/main.rs. Start is `main` up to the listeners, with `prepare_data_dir`; Listener is
--   `serve_listener` and its connections as steps in any order, Preface `wait_for_protocol_preface`,
--   Redirect `redirect_http_to_https`, and Site the router of `build_router_with_options`, of
--   src/http_api.rs, behind it. What the command line, the environment, the disk and the sockets answer
--   is a parameter.
--
-- Loops are over the pieces of a body or a file, a list, or the redirects left. Only `decimal` has fuel,
-- one more than the number, which has fewer digits than that.
--
-- Texts of errors and logging are left out. Not modelled: the permits of downloads; the command line,
-- tracing and signals; the matching of paths by axum; HTTP itself and the set-up of hyper and rustls.
-- Parsing of PEM, JSON, signing keys, URLs and semantic versions, SHA-256 and the arithmetic of f64 are
-- third-party.
pub mod Base
pub mod Http
pub mod Metadata
pub mod Outbound
pub mod Provider
pub mod Registry
pub mod Server
pub mod Storage
pub mod Tls
