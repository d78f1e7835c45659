-- ===== src/Metadata/Examples.antt =====
-- src/metadata.rs: a service with one provider, and the theorems at it.
use open_tf_mirror.Base.{
  nat_eq, ◌+◌, ◌≡◌, refl, true, false, List, [], ◌∷◌, some, none, codes, split, strip_prefix, ok,
  err, arith,
}
use open_tf_mirror.Base.Map.{get, insert, remove, retain}
use open_tf_mirror.Registry.Types.{RegistryVersion, request}
use open_tf_mirror.Metadata.Types.{ProviderKey, provider_eq, fresh}
use open_tf_mirror.Metadata.Validate.{
  normalize_version, valid_component, valid_version, validate_hostname, validate_component,
  validate_version, validate_registry_version, validate_registry_versions, provider_key,
}
use open_tf_mirror.Metadata.Validate.Safe.{IsSafeKey, provider_key-IsSafeKey}
use open_tf_mirror.Metadata.Backoff.{refresh_allowed, make_room, record_refresh_failure}
use open_tf_mirror.Metadata.Index.{
  IndexEntry, Env, Service, map_registry, should_backoff, record_index_failure, clear_index_failure,
  fresh_index, refresh_index_unlocked, load_index, sync_keys, sync_known,
}
use open_tf_mirror.Metadata.Index.Refresh.{IsCachedOrFetched, load_index-available}
use open_tf_mirror.Metadata.Index.Backoff.{load_all, load_index-backoff}
use open_tf_mirror.Metadata.Index.Validity.{
  IsValid, IsSound, load_index-IsSound, sync_known-IsValid,
}

program : Unit {0}
unfolding get insert remove retain split strip_prefix fresh normalize_version valid_component
    valid_version validate_hostname validate_component validate_version validate_registry_version
    validate_registry_versions provider_key refresh_allowed make_room record_refresh_failure
    map_registry should_backoff record_index_failure clear_index_failure fresh_index
    refresh_index_unlocked load_index sync_keys sync_known
program = tt

abbrev random : ProviderKey
random = record {
  hostname = codes "registry.terraform.io";
  namespace = codes "hashicorp";
  provider_type = codes "random";
}

key_of_request :
    provider_key
      (codes "registry.terraform.io" ∷ [])
      (codes "registry.terraform.io")
      (codes "hashicorp")
      (codes "random")
    ≡ ok random
unfolding program
key_of_request = refl

provider_key-IsSafeKey_example :
    IsSafeKey (codes "registry.terraform.io" ∷ []) random
    × (random ≡ record {
      hostname = codes "registry.terraform.io";
      namespace = codes "hashicorp";
      provider_type = codes "random";
    })
provider_key-IsSafeKey_example =
    provider_key-IsSafeKey (codes "registry.terraform.io" ∷ []) (codes "registry.terraform.io")
      (codes "hashicorp") (codes "random") random key_of_request

abbrev one_version : List RegistryVersion
one_version = record { version = codes "1.2.3"; platforms = [] } ∷ []

abbrev old : IndexEntry
old = record { fetched_at = 100; complete = true; value = one_version }

abbrev service : Service
service = record {
  freshness = 1800;
  partial_retry = 30;
  backoff = 30;
  indices = (random, old) ∷ [];
  index_failures = [];
  syncing = false;
  requests = 0;
}

-- The origin is down, and the cached index is stale.
abbrev down : Env
down = record {
  now = 5;
  now_epoch = 9000;
  versions = λ key. err request;
  read_json = λ key. ok none;
  write_json = λ key entry. ok tt;
}

abbrev later : Env
later = record down { now = 20; versions = λ key. ok one_version }

service-IsValid : IsValid service
unfolding program
service-IsValid = record {
  accepted = λ key entry h. ground arith;
  bounded = record { is_map = tt; few = omega arith };
}

cached_here : get random service.indices ≡ some old
unfolding program
cached_here = refl

load_index-available_example :
    (entry : IndexEntry) × ((load_index down random service).1 ≡ ok entry)
    × IsCachedOrFetched down random old entry
load_index-available_example = load_index-available down random service old cached_here

asked_once : (load_index down random service).0.requests ≡ 0 + 1
unfolding program
asked_once = refl

-- Another index is loaded in between.
abbrev null_key : ProviderKey
null_key = record random { provider_type = codes "null" }

load_index-backoff_example :
    (load_index later random
      (load_all ((down, null_key) ∷ []) (load_index down random service).0)).0.requests
    ≡ (load_all ((down, null_key) ∷ []) (load_index down random service).0).requests
unfolding should_backoff map_registry
load_index-backoff_example =
    load_index-backoff down later random service request ((down, null_key) ∷ []) refl refl
      asked_once (omega arith) tt (omega arith) (omega arith, tt) (omega arith)

load_index-IsSound_example : IsSound (load_index later random service)
load_index-IsSound_example = load_index-IsSound later random service service-IsValid

sync_known-IsValid_example :
    IsValid (sync_known later service).0 × ((sync_known later service).0.syncing ≡ false)
sync_known-IsValid_example = sync_known-IsValid later service service-IsValid
