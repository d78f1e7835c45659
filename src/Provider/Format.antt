-- ===== src/Provider/Format.antt =====
-- src/provider.rs: which archive names `ArchiveName::parse` accepts, and what it reads from them.
use open_tf_mirror.Base.{
  ℕ, ◌≡◌, refl, ◌∙◌, ap, ◌↔◌, ◌≢◌, ◌⊎◌, inl, inr, Bool, true, [], ◌∷◌, ◌++◌, Str, codes, ok, ok_or,
  ok_or-eq-ok, >>=-eq-ok, Option-cases, Bool-cases, strip_prefix, strip_suffix, strip_prefix_sound,
  strip_prefix-append, strip_suffix_sound, strip_suffix-append, rsplit_once, rsplit_once_sound,
  rsplit_once-append, rsplitn, Lacks, arith, ◌==◌,
}
use open_tf_mirror.Provider.{
  ArchiveName, is_os, is_arch, strip_v, three_fields, type_prefix, from_parts, parse_fields,
  parse_remainder, parse,
}

-- `<version><sep><os><sep><arch>`
abbrev pub fields_of : ℕ → Str → Str → Str → Str
fields_of sep version os arch = (version ++ sep ∷ os) ++ sep ∷ arch

-- `terraform-provider-<type>_<version>_<os>_<arch>.zip`
abbrev pub underscore_name : Str → Str → Str → Str → Str
underscore_name route_type version os arch =
    type_prefix route_type ++ ((codes "_" ++ fields_of b'_' version os arch) ++ codes ".zip")

-- `terraform-provider-<type>-<version>-<os>-<arch>-bin.zip`
abbrev pub dash_name : Str → Str → Str → Str → Str
dash_name route_type version os arch =
    type_prefix route_type
    ++ ((codes "-" ++ (fields_of b'-' version os arch ++ codes "-bin")) ++ codes ".zip")

-- The version as it is written: behind one `v`, or as it is if it does not begin with `v`.
abbrev pub IsWritten : Str → Str → Type 0
IsWritten version raw =
    (raw ≡ b'v' ∷ version) ⊎ ((raw ≡ version) × ((rest : Str) → raw ≢ b'v' ∷ rest))

abbrev pub HasFields : (Str → Bool) → Str → ArchiveName → Type 0
HasFields is_semver route_type a =
    (a.provider_type ≡ route_type)
    × (is_semver a.version ≡ true)
    × (is_os a.os ≡ true)
    × (is_arch a.arch ≡ true)

-- The names of an archive, in the two styles of registries.
abbrev pub IsNameOf : ArchiveName → Str → Str → Type 0
IsNameOf a route_type archive =
    (raw : Str) × (IsWritten a.version raw)
    × ((archive ≡ underscore_name route_type raw a.os a.arch)
        ⊎ (archive ≡ dash_name route_type raw a.os a.arch))

strip_v-IsWritten : (raw : Str) → IsWritten (strip_v raw) raw
unfolding strip_v strip_prefix
strip_v-IsWritten [] = inr (refl, λ rest e. cc)
strip_v-IsWritten (c ∷ raw) = elim (Bool-cases (b'v' == c)) [
  | inl e ↦ rw (e, strip_v, strip_prefix) (inl (ground arith))
  | inr e ↦ rw (e, strip_v, strip_prefix) (inr (refl, λ rest k. ground arith))
]

IsWritten-strip_v : (version raw : Str) → IsWritten version raw → strip_v raw ≡ version
unfolding strip_v strip_prefix
IsWritten-strip_v version raw (inl e) = rw e
IsWritten-strip_v version [] (inr (e, h)) = e
IsWritten-strip_v version (c ∷ raw) (inr (e, h)) = ground (arith, h raw)

three_fields_sound :
    (sep : ℕ) (s arch os version : Str)
    → three_fields (rsplitn 3 sep s) ≡ ok (arch, os, version)
    → s ≡ fields_of sep version os arch
unfolding three_fields rsplitn
three_fields_sound sep s arch os version h = elim (Option-cases (rsplit_once sep s)) [
  | inl e ↦ absurd (ground arith)
  | inr ((l, r), e) ↦
      ground (arith, rsplit_once_sound sep s l r e, rsplit_once_sound sep l version os)
]

three_fields-append :
    (sep : ℕ) (version os arch : Str)
    → Lacks sep os
    → Lacks sep arch
    → three_fields (rsplitn 3 sep (fields_of sep version os arch)) ≡ ok (arch, os, version)
unfolding three_fields rsplitn
three_fields-append sep version os arch h k = rw (
  rsplitn,
  rsplit_once-append sep (version ++ sep ∷ os) arch k,
  rsplitn,
  rsplit_once-append sep version os h,
)

is_os-Lacks : (sep : ℕ) (s : Str) → is_os s ≡ true → (sep ≡ b'_') ⊎ (sep ≡ b'-') → Lacks sep s
is_os-Lacks sep [] h k = tt
is_os-Lacks sep (c ∷ s) h k = ground (arith, is_os-Lacks sep s)

is_arch-Lacks : (sep : ℕ) (s : Str) → is_arch s ≡ true → (sep ≡ b'_') ⊎ (sep ≡ b'-') → Lacks sep s
is_arch-Lacks sep [] h k = tt
is_arch-Lacks sep (c ∷ s) h k = ground (arith, is_arch-Lacks sep s)

module _ (is_semver : Str → Bool) where
  from_parts_sound :
      (route_type version os arch : Str) (a : ArchiveName)
      → from_parts is_semver route_type version os arch ≡ ok a
      → HasFields is_semver route_type a
        × (a.version ≡ strip_v version)
        × (a.os ≡ os)
        × (a.arch ≡ arch)
  unfolding from_parts
  from_parts_sound route_type version os arch a h = ground arith

  from_parts-HasFields :
      (route_type version : Str) (a : ArchiveName)
      → HasFields is_semver route_type a
      → strip_v version ≡ a.version
      → from_parts is_semver route_type version a.os a.arch ≡ ok a
  unfolding from_parts
  from_parts-HasFields route_type version a h e = ground arith

  parse_fields_sound :
      (sep : ℕ) (route_type s : Str) (a : ArchiveName)
      → parse_fields is_semver sep route_type s ≡ ok a
      → HasFields is_semver route_type a
        × ((raw : Str) × IsWritten a.version raw × (s ≡ fields_of sep raw a.os a.arch))
  unfolding parse_fields
  parse_fields_sound sep route_type s a h =
      let ((arch, os, version), found, made) = >>=-eq-ok (three_fields (rsplitn 3 sep s)) _ h in
      let (fields, v, o, r) = from_parts_sound route_type version os arch a made in
      let e = three_fields_sound sep s arch os version found in
      (fields, (version, rw v (strip_v-IsWritten version), rw (o, r) e))

  parse_fields_complete :
      (sep : ℕ) (route_type raw : Str) (a : ArchiveName)
      → (sep ≡ b'_') ⊎ (sep ≡ b'-')
      → HasFields is_semver route_type a
      → IsWritten a.version raw
      → parse_fields is_semver sep route_type (fields_of sep raw a.os a.arch) ≡ ok a
  unfolding parse_fields
  parse_fields_complete sep route_type raw a one_of h w =
      rw
        (three_fields-append sep raw a.os a.arch (is_os-Lacks sep a.os h.2 one_of)
          (is_arch-Lacks sep a.arch h.3 one_of))
        (from_parts-HasFields route_type raw a h (IsWritten-strip_v a.version raw w))

  parse_remainder_sound :
      (route_type remainder : Str) (a : ArchiveName)
      → parse_remainder is_semver route_type remainder ≡ ok a
      → HasFields is_semver route_type a
        × ((raw : Str) × IsWritten a.version raw
            × ((remainder ≡ codes "_" ++ fields_of b'_' raw a.os a.arch)
                ⊎ (remainder ≡ codes "-" ++ (fields_of b'-' raw a.os a.arch ++ codes "-bin"))))
  unfolding parse_remainder
  parse_remainder_sound route_type remainder a h =
      elim (Option-cases (strip_prefix (codes "_") remainder)) [
        | inr (fields, e) ↦
            let h' = rw (e, parse_remainder) at h in
            let (good, (raw, w, eq)) = parse_fields_sound b'_' route_type fields a h' in
            (
              good,
              (
                raw,
                w,
                inl (
                    strip_prefix_sound (codes "_") remainder fields e
                    ∙ ap (λ s. codes "_" ++ s) eq),
              ),
            )
        | inl e ↦
            let h' = rw (e, parse_remainder) at h in
            let (dashed, e₁, h₁) = >>=-eq-ok (ok_or (strip_prefix (codes "-") remainder) _) _ h' in
            let (fields, e₂, h₂) = >>=-eq-ok (ok_or (strip_suffix (codes "-bin") dashed) _) _ h₁ in
            let (good, (raw, w, eq)) = parse_fields_sound b'-' route_type fields a h₂ in
            let d = strip_prefix_sound (codes "-") remainder dashed (ok_or-eq-ok _ _ e₁) in
            let f = strip_suffix_sound (codes "-bin") dashed fields (ok_or-eq-ok _ _ e₂) in
            (good, (raw, w, inr (rw (d, f, eq))))
      ]

  parse_remainder-underscore :
      (route_type raw : Str) (a : ArchiveName)
      → HasFields is_semver route_type a
      → IsWritten a.version raw
      → parse_remainder is_semver route_type (codes "_" ++ fields_of b'_' raw a.os a.arch) ≡ ok a
  unfolding parse_remainder
  parse_remainder-underscore route_type raw a h w =
      rw (strip_prefix-append (codes "_") (fields_of b'_' raw a.os a.arch), parse_remainder)
        (parse_fields_complete b'_' route_type raw a (inl refl) h w)

  parse_remainder-dash :
      (route_type raw : Str) (a : ArchiveName)
      → HasFields is_semver route_type a
      → IsWritten a.version raw
      → parse_remainder is_semver route_type
          (codes "-" ++ (fields_of b'-' raw a.os a.arch ++ codes "-bin"))
        ≡ ok a
  unfolding parse_remainder strip_prefix
  parse_remainder-dash route_type raw a h w =
      rw (strip_suffix-append (codes "-bin") (fields_of b'-' raw a.os a.arch))
        (parse_fields_complete b'-' route_type raw a (inr refl) h w)

  parse-remainder :
      (route_type remainder : Str)
      → parse is_semver route_type (type_prefix route_type ++ (remainder ++ codes ".zip"))
        ≡ parse_remainder is_semver route_type remainder
  unfolding parse
  parse-remainder route_type remainder = rw (
    strip_prefix-append (type_prefix route_type) (remainder ++ codes ".zip"),
    strip_suffix-append (codes ".zip") remainder,
  )

  parse_sound :
      (route_type archive : Str) (a : ArchiveName)
      → parse is_semver route_type archive ≡ ok a
      → HasFields is_semver route_type a × IsNameOf a route_type archive
  unfolding parse
  parse_sound route_type archive a h =
      let (unprefixed, e₁, h₁) =
        >>=-eq-ok (ok_or (strip_prefix (type_prefix route_type) archive) _) _ h in
      let (remainder, e₂, h₂) = >>=-eq-ok (ok_or (strip_suffix (codes ".zip") unprefixed) _) _ h₁ in
      let d = strip_prefix_sound (type_prefix route_type) archive unprefixed (ok_or-eq-ok _ _ e₁) in
      let f = strip_suffix_sound (codes ".zip") unprefixed remainder (ok_or-eq-ok _ _ e₂) in
      let (good, (raw, w, shape)) = parse_remainder_sound route_type remainder a h₂ in
      let whole = d ∙ ap (λ s. type_prefix route_type ++ s) f in
      let extend = λ (s : Str) (e : remainder ≡ s).
        whole ∙ ap (λ r. type_prefix route_type ++ (r ++ codes ".zip")) e in
      (good, (raw, w, elim shape [ inl e ↦ inl (extend _ e) | inr e ↦ inr (extend _ e) ]))

  parse_complete :
      (route_type archive : Str) (a : ArchiveName)
      → HasFields is_semver route_type a × IsNameOf a route_type archive
      → parse is_semver route_type archive ≡ ok a
  parse_complete route_type archive a (h, (raw, w, inl e)) =
      ap (parse is_semver route_type) e
      ∙ (parse-remainder route_type (codes "_" ++ fields_of b'_' raw a.os a.arch)
          ∙ parse_remainder-underscore route_type raw a h w)
  parse_complete route_type archive a (h, (raw, w, inr e)) =
      ap (parse is_semver route_type) e
      ∙ (parse-remainder route_type (codes "-" ++ (fields_of b'-' raw a.os a.arch ++ codes "-bin"))
          ∙ parse_remainder-dash route_type raw a h w)

  -- For every archive name and provider type, `parse` succeeds with `a` exactly when the name is
  -- `terraform-provider-<type>` and the version (behind at most one `v`), system and architecture
  -- of `a` in the one style or the other, where the version is a semantic version, the system is
  -- lowercase letters and the architecture lowercase letters and digits.
  pub parse_iff :
      (route_type archive : Str) (a : ArchiveName)
      → (parse is_semver route_type archive ≡ ok a)
        ↔ (HasFields is_semver route_type a × IsNameOf a route_type archive)
  parse_iff route_type archive a =
      (parse_sound route_type archive a, parse_complete route_type archive a)
