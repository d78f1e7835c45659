-- ===== src/Http/Response.antt =====
-- src/http_api.rs: responses, their JSON bodies, and the status of each error.
use open_tf_mirror.Base.{ℕ, List, [], ◌∷◌, ◌++◌, Option, some, none, Str, codes}
use Prim.Native.Nat.{Ordering}
use open_tf_mirror.Metadata.Types.{
  PlatformMetadata, MetadataError, not_found, invalid_address, registry_not_allowed,
  sync_in_progress,
}
use open_tf_mirror.Metadata.Listing.{str_cmp}

pub record ArchiveResponse : Type 0 where
  pub url : Str
  pub hashes : List Str

-- The JSON objects as their sorted entries; the value of a version is the empty object.
pub data Body : Type 0 where
  empty : Body
  text : Str → Body
  versions : List (Str × Unit {0}) → Body
  archives : List (Str × ArchiveResponse) → Body
  stream : Str → Body

pub record HttpResponse : Type 0 where
  pub status : ℕ
  pub headers : List (Str × Str)
  pub body : Body

abbrev pub status_only : ℕ → HttpResponse
status_only status = record { status = status; headers = []; body = empty }

abbrev pub json : Body → HttpResponse
json body = record {
  status = 200;
  headers = (codes "content-type", codes "application/json") ∷ [];
  body = body;
}

-- `BTreeMap::insert`: the keys stay sorted, and an old value is replaced.
unfoldable pub btree_insert {ℓ} : {V : Type ℓ} → Str → V → List (Str × V) → List (Str × V)
btree_insert k v [] = (k, v) ∷ []
btree_insert k v ((j, w) ∷ m) =
    let rest = btree_insert k v m in
    elim (str_cmp k j) [
      | Ordering.lt ↦ (k, v) ∷ (j, w) ∷ m
      | Ordering.eq ↦ (k, v) ∷ m
      | Ordering.gt ↦ (j, w) ∷ rest
    ]

btree_extend {ℓ} : {V : Type ℓ} → List (Str × V) → List (Str × V) → List (Str × V)
btree_extend m [] = m
btree_extend m ((k, v) ∷ entries) = btree_extend (btree_insert k v m) entries

-- `collect` into a `BTreeMap`
unfoldable pub btree_collect {ℓ} : {V : Type ℓ} → List (Str × V) → List (Str × V)
unfolding btree_extend
btree_collect entries = btree_extend [] entries

abbrev pub hashes_of : Option Str → List Str
hashes_of none = []
hashes_of (some shasum) = (codes "zh:" ++ shasum) ∷ []

unfoldable pub archive_entry : PlatformMetadata → Str × ArchiveResponse
archive_entry platform = (
  platform.os ++ b'_' ∷ platform.arch,
  record { url = codes "download/" ++ platform.filename; hashes = hashes_of platform.shasum },
)

unfoldable pub metadata_error_response : MetadataError → HttpResponse
metadata_error_response not_found = status_only 404
metadata_error_response invalid_address = status_only 400
metadata_error_response registry_not_allowed = status_only 400
metadata_error_response sync_in_progress = status_only 409
metadata_error_response _ = status_only 502
