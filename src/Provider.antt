-- ===== src/Provider.antt =====
-- src/provider.rs: `ArchiveName::parse` and `from_parts`. Whether a text is a semantic version is
-- decided by the `semver` package, so `Version::parse` is the parameter `is_semver`.
pub mod Format
mod Examples
use open_tf_mirror.Base.{
  ℕ, Bool, ◌&&◌, ◌||◌, List, [], ◌∷◌, Option, some, none, Str, codes, Result, ok, err, ◌>>=◌, ◌>>◌,
  guard, ok_or, all, is_ascii_lowercase, is_ascii_digit, strip_prefix, strip_suffix, rsplitn, ◌++◌,
}

pub record ArchiveName : Type 0 where
  pub provider_type : Str
  pub version : Str
  pub os : Str
  pub arch : Str

pub data ArchiveError : Type 0 where
  invalid_type invalid_archive invalid_archive_suffix invalid_platform : ArchiveError
  invalid_semantic_version : ArchiveError

abbrev pub is_os : Str → Bool
is_os = all is_ascii_lowercase

abbrev pub is_arch : Str → Bool
is_arch = all (λ byte. is_ascii_lowercase byte || is_ascii_digit byte)

-- `value.strip_prefix('v').unwrap_or(value)`
unfoldable pub strip_v : Str → Str
strip_v value = elim (strip_prefix (codes "v") value) [ some rest ↦ rest | none ↦ value ]

-- Three calls of `next` on `rsplitn(3, sep)`: architecture, system and version, in this order.
unfoldable pub three_fields : List Str → Result ArchiveError (Str × Str × Str)
three_fields (arch ∷ os ∷ version ∷ _) = ok (arch, os, version)
three_fields _ = err invalid_archive

abbrev pub type_prefix : Str → Str
type_prefix route_type = codes "terraform-provider-" ++ route_type

module _ (is_semver : Str → Bool) where
  unfoldable pub from_parts : Str → Str → Str → Str → Result ArchiveError ArchiveName
  from_parts route_type version os arch = do
    guard (is_os os && is_arch arch) invalid_platform
    let plain = strip_v version
    guard (is_semver plain) invalid_semantic_version
    ok (record { provider_type = route_type; version = plain; os = os; arch = arch })

  unfoldable pub parse_fields : ℕ → Str → Str → Result ArchiveError ArchiveName
  parse_fields sep route_type remainder = do
    (arch, os, version) ← three_fields (rsplitn 3 sep remainder)
    from_parts route_type version os arch

  -- What stands between the type and `.zip`, in the one style or the other.
  unfoldable pub parse_remainder : Str → Str → Result ArchiveError ArchiveName
  parse_remainder route_type remainder = elim (strip_prefix (codes "_") remainder) [
    | some fields ↦ parse_fields b'_' route_type fields
    | none ↦ do
      dashed ← ok_or (strip_prefix (codes "-") remainder) invalid_archive
      fields ← ok_or (strip_suffix (codes "-bin") dashed) invalid_archive_suffix
      parse_fields b'-' route_type fields
  ]

  unfoldable pub parse : Str → Str → Result ArchiveError ArchiveName
  parse route_type archive = do
    unprefixed ← ok_or (strip_prefix (type_prefix route_type) archive) invalid_type
    remainder ← ok_or (strip_suffix (codes ".zip") unprefixed) invalid_archive
    parse_remainder route_type remainder
