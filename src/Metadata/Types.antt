-- ===== src/Metadata/Types.antt =====
-- src/metadata.rs: the records of the metadata service and its errors, with the equality of keys.
use open_tf_mirror.Base.{
  ℕ, ◌-◌, Bool, true, ◌&&◌, ltb, if◌then◌else◌, List, Option, Str, Eq, str_beq, str_beq_iff, ◌≡◌,
  ◌↔◌, arith,
}
use open_tf_mirror.Registry.Types.{RegistryError}

pub record PlatformMetadata : Type 0 where
  pub os : Str
  pub arch : Str
  pub filename : Str
  pub shasum : Option Str
  pub download_url : Str

pub record VersionMetadata : Type 0 where
  pub hostname : Str
  pub namespace : Str
  pub provider_type : Str
  pub version : Str
  pub platforms : List PlatformMetadata

pub data MetadataError : Type 0 where
  not_found invalid_address registry_not_allowed sync_in_progress refresh_backoff : MetadataError
  sync_failed : ℕ → MetadataError
  registry : RegistryError → MetadataError
  io json : MetadataError

pub record ProviderKey : Type 0 where
  pub hostname : Str
  pub namespace : Str
  pub provider_type : Str

pub record VersionKey : Type 0 where
  pub provider : ProviderKey
  pub version : Str

abbrev pub provider_beq : ProviderKey → ProviderKey → Bool
provider_beq a b =
    str_beq a.hostname b.hostname
    && str_beq a.namespace b.namespace
    && str_beq a.provider_type b.provider_type

pub provider_beq_iff : (a b : ProviderKey) → (provider_beq a b ≡ true) ↔ (a ≡ b)
provider_beq_iff a b = ground (
  arith,
  str_beq_iff a.hostname b.hostname,
  str_beq_iff a.namespace b.namespace,
  str_beq_iff a.provider_type b.provider_type,
)

instance abbrev pub provider_eq : Eq ProviderKey
provider_eq = record { beq = provider_beq; beq_iff = provider_beq_iff }

-- Times in seconds of the epoch; `complete` is false for a partial platform result.
pub record CacheEntry (T : Type 0) : Type 0 where
  pub fetched_at : ℕ
  pub complete : Bool
  pub value : T

-- `fresh`, where `saturating_sub` is `-`.
unfoldable pub fresh : {T : Type 0} → CacheEntry T → (freshness partial_retry now_epoch : ℕ) → Bool
fresh entry freshness partial_retry now_epoch =
    let ttl = if entry.complete then freshness else partial_retry in
    ltb (now_epoch - entry.fetched_at) ttl
