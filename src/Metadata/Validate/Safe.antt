-- ===== src/Metadata/Validate/Safe.antt =====
-- src/metadata.rs: a provider key that is accepted names no path outside the metadata directory.
use open_tf_mirror.Base.{
  ℕ, ◌≤◌, ◌≡◌, ◌≢◌, refl, sym, Bool, true, false, not, List, [], ◌∷◌, length, all, any, All,
  All-mono, Str, codes, str_beq, str_beq_iff, split, Lacks, ok, guard, guard-eq-ok, >>=-eq-ok,
  arith, split-Lacks,
}
use mathlib.Core.Path.{subst}
use open_tf_mirror.Metadata.Types.{ProviderKey}
use open_tf_mirror.Metadata.Validate.{
  is_component_byte, valid_component, validate_hostname, validate_component, provider_key,
}

-- One component of a path: it has no separator of either style, and is not empty, `.` or `..`.
pub record IsPathSafe (s : Str) : Type 0 where
  pub non_empty : s ≢ []
  pub not_dot : s ≢ codes "."
  pub not_dot_dot : s ≢ codes ".."
  pub no_slash : Lacks b'/' s
  pub no_backslash : Lacks b'\\' s

component-Lacks :
    (sep : ℕ) (s : Str)
    → is_component_byte sep ≡ false
    → all is_component_byte s ≡ true
    → Lacks sep s
component-Lacks sep [] h k = tt
component-Lacks sep (c ∷ s) h k = ground (arith, component-Lacks sep s h)

component_bytes : (s : Str) → valid_component s ≡ true → all is_component_byte s ≡ true
unfolding valid_component
component_bytes s h = ground arith

valid_component-IsPathSafe : (s : Str) → valid_component s ≡ true → IsPathSafe s
unfolding valid_component
valid_component-IsPathSafe s h = record {
  non_empty = λ e. ground arith;
  not_dot = λ e. ground (arith, str_beq_iff s (codes "."));
  not_dot_dot = λ e. ground (arith, str_beq_iff s (codes ".."));
  no_slash = component-Lacks b'/' s refl (component_bytes s h);
  no_backslash = component-Lacks b'\\' s refl (component_bytes s h);
}

any-not-All :
    (p : Str → Bool) (parts : List Str)
    → any (λ part. not (p part)) parts ≡ false
    → All (λ part. p part ≡ true) parts
any-not-All p [] h = tt
any-not-All p (x ∷ xs) h = ground (arith, any-not-All p xs)

refused_names :
    (validate_hostname [] ≢ ok tt)
    × (validate_hostname (codes ".") ≢ ok tt)
    × (validate_hostname (codes "..") ≢ ok tt)
unfolding validate_hostname split valid_component
refused_names = (λ h. cc, λ h. cc, λ h. cc)

validate_hostname-IsPathSafe :
    (value : Str) → validate_hostname value ≡ ok tt → IsPathSafe value × (length value ≤ 253)
unfolding validate_hostname
validate_hostname-IsPathSafe value h =
    let parts : All (λ part. valid_component part ≡ true) (split b'.' value) =
      any-not-All valid_component (split b'.' value) (ground arith) in
    let safe = All-mono _ IsPathSafe valid_component-IsPathSafe (split b'.' value) parts in
    (
      record {
        non_empty = λ e. refused_names.0 (rw e at h);
        not_dot = λ e. refused_names.1 (rw e at h);
        not_dot_dot = λ e. refused_names.2 (rw e at h);
        no_slash =
            split-Lacks b'.' b'/' value (omega arith)
              (All-mono IsPathSafe (Lacks b'/') (λ s p. p.no_slash) (split b'.' value) safe);
        no_backslash =
            split-Lacks b'.' b'\\' value (omega arith)
              (All-mono IsPathSafe (Lacks b'\\') (λ s p. p.no_backslash) (split b'.' value) safe);
      },
      ground arith,
    )

-- What `provider_key` accepts: an allowed registry, and three parts that are path components.
pub record IsSafeKey (allowed_registries : List Str) (key : ProviderKey) : Type 0 where
  pub allowed : any (str_beq key.hostname) allowed_registries ≡ true
  pub hostname : IsPathSafe key.hostname
  pub namespace : IsPathSafe key.namespace
  pub provider_type : IsPathSafe key.provider_type

-- Whatever the request, a key that `provider_key` returns is of an allowed registry, has the parts
-- of the request, and each part is a single path component: not empty, not `.` or `..`, and with no
-- slash or backslash.
pub provider_key-IsSafeKey :
    (allowed : List Str) (hostname namespace provider_type : Str) (key : ProviderKey)
    → provider_key allowed hostname namespace provider_type ≡ ok key
    → IsSafeKey allowed key
      × (key ≡ record { hostname = hostname; namespace = namespace; provider_type = provider_type })
unfolding provider_key validate_component
provider_key-IsSafeKey allowed hostname namespace provider_type key h =
    let (_, a, h₁) = >>=-eq-ok (validate_hostname hostname) _ h in
    let (_, b, h₂) = >>=-eq-ok (guard (valid_component namespace) _) _ h₁ in
    let (_, c, h₃) = >>=-eq-ok (guard (valid_component provider_type) _) _ h₂ in
    let (_, d, h₄) = >>=-eq-ok (guard (any (str_beq hostname) allowed) _) _ h₃ in
    let requested : ProviderKey = record {
      hostname = hostname;
      namespace = namespace;
      provider_type = provider_type;
    } in
    let same : requested ≡ key = ground arith in
    let safe : IsSafeKey allowed requested = record {
      allowed = guard-eq-ok (any (str_beq hostname) allowed) _ d;
      hostname = (validate_hostname-IsPathSafe hostname a).0;
      namespace = valid_component-IsPathSafe namespace (guard-eq-ok _ _ b);
      provider_type = valid_component-IsPathSafe provider_type (guard-eq-ok _ _ c);
    } in
    (subst (IsSafeKey allowed) same safe, sym same)
