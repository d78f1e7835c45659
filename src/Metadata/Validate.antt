-- ===== src/Metadata/Validate.antt =====
-- src/metadata.rs: the validation of addresses, versions, packages and persisted metadata.
pub mod Safe
use open_tf_mirror.Base.{
  ℕ, Bool, true, false, not, ◌&&◌, ◌||◌, ◌==◌, ltb, leb, List, [], ◌∷◌, length, all, any, is_empty,
  Option, some, none, Str, codes, str_beq, strip_prefix, split, is_ascii_lowercase, is_ascii_digit,
  is_ascii_alphanumeric, is_ascii_hexdigit, Result, ok, err, ◌>>=◌, ◌>>◌, guard, ok_or, map_err,
  if◌then◌else◌,
}
use open_tf_mirror.Provider
use open_tf_mirror.Provider.{ArchiveName}
use open_tf_mirror.Outbound.Client.{UrlLib}
use open_tf_mirror.Registry.Types.{RegistryPlatform, RegistryVersion}
use open_tf_mirror.Metadata.Types.{
  PlatformMetadata, VersionMetadata, MetadataError, ProviderKey, VersionKey, invalid_address,
  registry_not_allowed,
}

unfoldable pub normalize_version : Str → Str
normalize_version value = elim (strip_prefix (codes "v") value) [ some rest ↦ rest | none ↦ value ]

abbrev pub is_component_byte : ℕ → Bool
is_component_byte byte = is_ascii_alphanumeric byte || byte == b'-' || byte == b'_' || byte == b'.'

unfoldable pub valid_component : Str → Bool
valid_component value =
    not (is_empty value)
    && leb (length value) 100
    && all is_component_byte value
    && not (str_beq value (codes "."))
    && not (str_beq value (codes ".."))

abbrev pub is_version_byte : ℕ → Bool
is_version_byte byte = is_ascii_alphanumeric byte || byte == b'.' || byte == b'-' || byte == b'+'

unfoldable pub valid_version : Str → Bool
valid_version value =
    not (is_empty value)
    && leb (length value) 100
    && all is_version_byte value
    && not (str_beq value (codes "."))
    && not (str_beq value (codes ".."))

unfoldable pub validate_hostname : Str → Result MetadataError (Unit {0})
validate_hostname value =
    guard
      (not (
        is_empty value
        || ltb 253 (length value)
        || any (λ part. not (valid_component part)) (split b'.' value)))
      invalid_address

unfoldable pub validate_component : Str → Result MetadataError (Unit {0})
validate_component value = guard (valid_component value) invalid_address

unfoldable pub validate_version : Str → Result MetadataError (Unit {0})
validate_version value = guard (valid_version (normalize_version value)) invalid_address

abbrev pub is_platform_byte : ℕ → Bool
is_platform_byte byte =
    is_ascii_lowercase byte || is_ascii_digit byte || byte == b'_' || byte == b'-'

unfoldable pub validate_platform_component : Str → Result MetadataError (Unit {0})
validate_platform_component value =
    guard (not (is_empty value || ltb 32 (length value) || not (all is_platform_byte value)))
      invalid_address

-- A loop that ends at the first error.
abbrev pub each :
    {A : Type 0} → (A → Result MetadataError (Unit {0})) → List A → Result MetadataError (Unit {0})
each check [] = ok tt
each check (x ∷ xs) = check x >> each check xs

unfoldable pub validate_platform : RegistryPlatform → Result MetadataError (Unit {0})
validate_platform platform = do
  validate_platform_component platform.os
  validate_platform_component platform.arch

unfoldable pub validate_registry_version : RegistryVersion → Result MetadataError (Unit {0})
validate_registry_version version = do
  validate_version version.version
  guard (not (ltb 128 (length version.platforms))) invalid_address
  each validate_platform version.platforms

unfoldable pub validate_registry_versions : List RegistryVersion → Result MetadataError (Unit {0})
validate_registry_versions versions = do
  guard (not (ltb 4096 (length versions))) invalid_address
  each validate_registry_version versions

-- `provider_key`; the allowed registries are a set.
unfoldable pub provider_key : List Str → Str → Str → Str → Result MetadataError ProviderKey
provider_key allowed_registries hostname namespace provider_type = do
  validate_hostname hostname
  validate_component namespace
  validate_component provider_type
  guard (any (str_beq hostname) allowed_registries) registry_not_allowed
  ok (record { hostname = hostname; namespace = namespace; provider_type = provider_type })

abbrev pub is_checksum : Option Str → Bool
is_checksum none = false
is_checksum (some checksum) = length checksum == 64 && all is_ascii_hexdigit checksum

abbrev has_host : {A : Type 0} → Option A → Bool
has_host none = false
has_host (some _) = true

module _ (is_semver : Str → Bool) (urls : UrlLib) where
  open urls use {parse, scheme, host_str}

  unfoldable pub validate_package :
      VersionKey → RegistryPlatform → PlatformMetadata → Result MetadataError (Unit {0})
  validate_package key requested fetched = do
    guard (str_beq fetched.os requested.os && str_beq fetched.arch requested.arch) invalid_address
    archive ←
        map_err (λ _. invalid_address)
          (Provider.parse is_semver key.provider.provider_type fetched.filename)
    guard
        (str_beq archive.version key.version
          && str_beq archive.os requested.os
          && str_beq archive.arch requested.arch
          && str_beq archive.provider_type key.provider.provider_type)
        invalid_address
    guard (is_checksum fetched.shasum) invalid_address
    url ← ok_or (parse fetched.download_url) invalid_address
    guard (str_beq (scheme url) (codes "https") && has_host (host_str url)) invalid_address

  unfoldable pub validate_version_metadata :
      VersionKey → VersionMetadata → Result MetadataError (Unit {0})
  validate_version_metadata key metadata = do
    guard
        (str_beq metadata.hostname key.provider.hostname
          && str_beq metadata.namespace key.provider.namespace
          && str_beq metadata.provider_type key.provider.provider_type)
        invalid_address
    validate_version metadata.version
    guard (str_beq (normalize_version metadata.version) key.version) invalid_address
    guard (not (ltb 128 (length metadata.platforms))) invalid_address
    each
        (λ platform.
          validate_package key (record { os = platform.os; arch = platform.arch }) platform)
        metadata.platforms
