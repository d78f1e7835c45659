-- ===== src/Http/Handlers.antt =====
-- src/http_api.rs: `get_provider_metadata`, `download_provider_archive`, `sync_providers`, `livez` and
-- `readyz`. Routing and the extraction of path segments are axum's.
use open_tf_mirror.Base.{
  ℕ, Bool, true, false, not, List, [], ◌∷◌, ◌++◌, map, Option, some, none, Str, str_eq, codes,
  str_beq, strip_suffix, decimal, Result, ok, err, is_ok, if◌then◌else◌,
}
use open_tf_mirror.Base.Map.{get}
use open_tf_mirror.Provider
use open_tf_mirror.Outbound.Client.{UrlLib, Response, OutboundClient, OutboundError, trim_start}
use open_tf_mirror.Metadata.Types.{
  PlatformMetadata, VersionMetadata, MetadataError, sync_in_progress,
}
use open_tf_mirror.Metadata.Index.{sync_known}
use open_tf_mirror.Metadata.Versions.{VersionEnv, Versions}
use open_tf_mirror.Metadata.Lookup.{get_version, get_platform_by_archive}
use open_tf_mirror.Metadata.Listing.{Semver, list_versions}
use open_tf_mirror.Storage.{ProviderArchiveKey, ProviderStorageError}
use open_tf_mirror.Storage.Disk.{Entry, Disk, Io, Storage}
use open_tf_mirror.Storage.Fetch.{load_or_fetch}
use open_tf_mirror.Http.Response.{
  Body, HttpResponse, status_only, json, btree_collect, archive_entry, metadata_error_response,
}
use open_tf_mirror.Http.Response

-- What the server is built with: the packages that it calls, its outbound client with the network,
-- and the allowed registries. `trim` is the one of `str`, over Unicode white space; `is_header_value`
-- tells which texts a header may have.
pub record Deps : Type 1 where
  pub semver : Semver
  pub urls : UrlLib
  pub client : OutboundClient
  pub send : urls.Url → Result OutboundError Response
  pub is_error_status : ℕ → Bool
  pub sha256_hex : Str → Str
  pub is_header_value : Str → Bool
  pub trim : Str → Str
  pub hash_order : List Str → List Str
  pub allowed_registries : List Str

abbrev pub is_semver : Deps → Str → Bool
is_semver deps version = elim (deps.semver.parse version) [ some _ ↦ true | none ↦ false ]

-- What one request meets: the metadata service's environment, the file system before and under the
-- lock of an archive, and then the opening of the file.
pub record Call : Type 0 where
  pub metadata : VersionEnv
  pub first : Io
  pub again : Io
  pub open_fails : Bool
  pub length_fails : Bool

pub record App : Type 0 where
  pub metadata : Versions
  pub provider_storage : Storage

abbrev pub Reply : Type 0
Reply = App × HttpResponse

unfoldable pub livez : HttpResponse
livez = record { status = 200; headers = []; body = Response.text (codes "ok") }

-- The answer of `readyz`, over how the probe of the data directory ends.
unfoldable pub ready_response : Result ProviderStorageError (Unit {0}) → HttpResponse
ready_response (ok _) = record { status = 200; headers = []; body = Response.text (codes "ok") }
ready_response (err _) = record {
  status = 503;
  headers = [];
  body = Response.text (codes "cache unavailable");
}

module _ (deps : Deps) (call : Call) where
  open deps use {sha256_hex, trim, hash_order, allowed_registries}

  unfoldable pub index_response : Result MetadataError (List Str) → HttpResponse
  index_response (err error) = metadata_error_response error
  index_response (ok versions) =
      json (Response.versions (btree_collect (map (λ version. (version, tt)) versions)))

  unfoldable pub version_response : Result MetadataError (Option VersionMetadata) → HttpResponse
  version_response (err error) = metadata_error_response error
  version_response (ok none) = status_only 404
  version_response (ok (some metadata)) =
      json (Response.archives (btree_collect (map archive_entry metadata.platforms)))

  -- The name that an action asks for, without `.json` and the leading `v`s.
  unfoldable pub action_version : Str → Option Str
  action_version action = elim (strip_suffix (codes ".json") action) [
    | none ↦ none
    | some version ↦ some (trim_start b'v' (trim version))
  ]

  unfoldable pub get_index : Str → Str → Str → App → Reply
  get_index hostname namespace provider_type s =
      let (service, result) =
        list_versions deps.semver hash_order allowed_registries call.metadata.first hostname
          namespace provider_type s.metadata.service in
      (record s { metadata = record s.metadata { service = service } }, index_response result)

  unfoldable pub get_archives : Str → Str → Str → Str → App → Reply
  get_archives hostname namespace provider_type version s =
      let (metadata, result) =
        get_version (is_semver deps) deps.urls call.metadata allowed_registries hostname namespace
          provider_type version s.metadata in
      (record s { metadata = metadata }, version_response result)

  unfoldable pub get_provider_metadata : Str → Str → Str → Str → App → Reply
  get_provider_metadata hostname namespace provider_type action s = elim (action_version action) [
    | none ↦ (s, status_only 400)
    | some version ↦
        if str_beq version (codes "index")
        then get_index hostname namespace provider_type s
        else get_archives hostname namespace provider_type version s
  ]

  -- The headers of an archive, the last of which the name may not allow.
  unfoldable pub archive_response : Str → Entry → HttpResponse
  archive_response archive file =
      let disposition = codes "attachment; filename=\"" ++ archive ++ codes "\"" in
      if deps.is_header_value disposition
      then record {
        status = 200;
        headers =
            (codes "content-length", decimal file.identity.len)
            ∷ (codes "content-type", codes "application/zip")
            ∷ (codes "content-disposition", disposition)
            ∷ [];
        body = Response.stream file.content;
      }
      else status_only 500

  unfoldable pub open_archive : Str → Str → Disk → HttpResponse
  open_archive archive path disk =
      if call.open_fails then status_only 500 else (elim (get path disk) [
        | none ↦ status_only 404
        | some entry ↦ if call.length_fails then status_only 500 else archive_response archive entry
      ])

  unfoldable pub send_archive : Str → PlatformMetadata → ProviderArchiveKey → App → Reply
  send_archive archive platform key s =
      let (storage, result) =
        load_or_fetch (is_semver deps) sha256_hex deps.is_error_status deps.urls deps.client
          deps.send call.first call.again key platform s.provider_storage in
      (
        record s { provider_storage = storage },
        elim result [
          | err error ↦ status_only 502
          | ok path ↦ open_archive archive path storage.disk
        ],
      )

  unfoldable pub answer_platform :
      Str → Str → Str → Str → App × Result MetadataError (Option PlatformMetadata) → Reply
  answer_platform hostname namespace provider_type archive (s, err error) =
      (s, metadata_error_response error)
  answer_platform hostname namespace provider_type archive (s, ok none) = (s, status_only 404)
  answer_platform hostname namespace provider_type archive (s, ok (some platform)) =
      if not (str_beq platform.filename archive)
      then (s, status_only 404)
      else send_archive archive platform
          (record {
            hostname = hostname;
            namespace = namespace;
            provider_type = provider_type;
            filename = archive;
          })
          s

  unfoldable pub download_provider_archive : Str → Str → Str → Str → App → Reply
  download_provider_archive hostname namespace provider_type archive s =
      if not (is_ok (Provider.parse (is_semver deps) provider_type archive))
      then (s, status_only 400)
      else (let (metadata, result) =
            get_platform_by_archive (is_semver deps) deps.urls call.metadata allowed_registries
              hostname namespace provider_type archive s.metadata in
          answer_platform hostname namespace provider_type archive
            (record s { metadata = metadata }, result))

  unfoldable pub sync_providers : App → Reply
  sync_providers s =
      let (service, result) = sync_known call.metadata.first s.metadata.service in
      (
        record s { metadata = record s.metadata { service = service } },
        elim result [
          | ok _ ↦ status_only 204
          | err sync_in_progress ↦ status_only 409
          | err _ ↦ status_only 502
        ],
      )
