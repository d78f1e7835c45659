-- ===== src/Provider/Examples.antt =====
-- src/provider.rs: archive names of the repository's tests, and the theorem at one of them.
use open_tf_mirror.Base.{
  ◌≡◌, refl, ◌↔◌, Bool, Str, codes, ok, err, strip_prefix, strip_suffix, rsplitn, rsplit_once,
  is_empty, not,
}
use open_tf_mirror.Provider.{
  ArchiveName, invalid_archive_suffix, strip_v, three_fields, from_parts, parse_fields,
  parse_remainder, parse,
}
use open_tf_mirror.Provider.Format.{HasFields, IsNameOf, parse_iff}

-- Stands for the `semver` package in tests: a version is a text that is not empty.
abbrev any_version : Str → Bool
any_version version = not (is_empty version)

abbrev beta : ArchiveName
beta = record {
  provider_type = codes "google-beta";
  version = codes "1.2.3";
  os = codes "linux";
  arch = codes "amd64";
}

parse_underscore :
    parse any_version
      (codes "google-beta")
      (codes "terraform-provider-google-beta_1.2.3_linux_amd64.zip")
    ≡ ok beta
unfolding parse parse_remainder parse_fields from_parts three_fields strip_v strip_prefix
    strip_suffix rsplitn rsplit_once
parse_underscore = refl

parse_dash :
    parse any_version
      (codes "google-beta")
      (codes "terraform-provider-google-beta-v1.2.3-linux-amd64-bin.zip")
    ≡ ok beta
unfolding parse parse_remainder parse_fields from_parts three_fields strip_v strip_prefix
    strip_suffix rsplitn rsplit_once
parse_dash = refl

parse_suffix :
    parse any_version (codes "random") (codes "terraform-provider-random-1.2.3-linux-amd64.zip")
    ≡ err invalid_archive_suffix
unfolding parse parse_remainder parse_fields from_parts three_fields strip_v strip_prefix
    strip_suffix rsplitn rsplit_once
parse_suffix = refl

parse_iff_example :
    (parse any_version
        (codes "google-beta")
        (codes "terraform-provider-google-beta_1.2.3_linux_amd64.zip")
      ≡ ok beta)
    ↔ (HasFields any_version (codes "google-beta") beta
        × IsNameOf beta
            (codes "google-beta")
            (codes "terraform-provider-google-beta_1.2.3_linux_amd64.zip"))
parse_iff_example =
    parse_iff any_version (codes "google-beta")
      (codes "terraform-provider-google-beta_1.2.3_linux_amd64.zip") beta
