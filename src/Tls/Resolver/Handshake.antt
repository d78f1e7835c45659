-- ===== src/Tls/Resolver/Handshake.antt =====
-- src/tls_reload.rs: what a handshake is served, and how often the files are read.
use open_tf_mirror.Base.{
  ℕ, ◌+◌, ◌≤◌, ◌<◌, ◌⊎◌, refl, none, List, [], ◌∷◌, ◌≡◌, Bool, true, false, not, Option, some,
  Result, ok, err, guard, ok_or, >>=-eq-ok, Bool-cases, Result-cases, inl, inr, is_empty,
  if◌then◌else◌, arith,
}
use open_tf_mirror.Base.Int.{ℤ, ◌≤ℤ◌, leb_ℤ, i64_max}
use open_tf_mirror.Tls.Errors.{TlsError}
use open_tf_mirror.Tls.Validity.{validate_certificate_validity}
use open_tf_mirror.Tls.Validity.Chain.{IsEarliest, validate_certificate_validity-IsEarliest}
use open_tf_mirror.Tls.Resolver.{
  CertifiedKey, Files, load_certified_key, Resolver, serve_if_valid, read_cached, claim, finish,
  resolve,
}

-- A pair that was loaded has a chain that is not empty, every certificate of which is valid, and a
-- key that matches it; the time stored with it is not behind the end of any certificate.
pub load_certified_key_sound :
    {S : Type 0} (files : Files S) (now : ℤ) (loaded : CertifiedKey S) (not_after : ℤ)
    → now ≤ℤ i64_max
    → load_certified_key files now ≡ ok (loaded, not_after)
    → (is_empty loaded.chain ≡ false)
      × (files.keys_match loaded.chain loaded.signing_key ≡ true)
      × IsEarliest now loaded.chain not_after
unfolding load_certified_key
load_certified_key_sound files now loaded not_after l h =
    let (certs, e, h₁) = >>=-eq-ok files.certs _ h in
    let (_, g, h₂) = >>=-eq-ok (guard (not (is_empty certs)) _) _ h₁ in
    let (na, v, h₃) = >>=-eq-ok (validate_certificate_validity certs now) _ h₂ in
    let (key, k, h₄) = >>=-eq-ok files.private_key _ h₃ in
    let (signing, s, h₅) = >>=-eq-ok (ok_or (files.any_supported_type key) _) _ h₄ in
    let (_, m, h₆) = >>=-eq-ok (guard (files.keys_match certs signing) _) _ h₅ in
    let good = validate_certificate_validity-IsEarliest certs now na l v in
    let some_cert : is_empty certs ≡ false = ground arith in
    let same : certs ≡ loaded.chain = ground arith in
    let same_end : na ≡ not_after = ground arith in
    let matching : files.keys_match certs signing ≡ true = ground arith in
    let same_key : signing ≡ loaded.signing_key = ground arith in
    (rw (← same) some_cert, rw (← same, ← same_key) matching, rw (← same, ← same_end) good)

-- Whatever the cache holds and whenever it was checked, a key that a handshake is served, with the
-- files loaded no earlier than the handshake reads the clock, is the cached key afterwards, and the
-- time stored with it is not before the handshake's.
pub resolve-unexpired :
    {S : Type 0} (files : Files S) (now : ℕ) (now_epoch load_epoch : ℤ)
    (r r' : Resolver (CertifiedKey S)) (key : CertifiedKey S) (was_read : Bool)
    → now_epoch ≤ℤ load_epoch
    → load_epoch ≤ℤ i64_max
    → resolve (load_certified_key files load_epoch) now now_epoch r ≡ (r', some key, was_read)
    → (r'.key ≡ key) × (now_epoch ≤ℤ r'.not_after)
unfolding resolve read_cached claim finish
resolve-unexpired files now now_epoch load_epoch r r' key was_read l m h =
    elim (Result-cases (load_certified_key files load_epoch)) [
      | inl ((k, na), e) ↦
          let ahead = (load_certified_key_sound files load_epoch k na m e).2.ahead in
          let h' = rw e at h in ground arith
      | inr (x, e) ↦ let h' = rw e at h in ground arith
    ]

-- Each instant lies at least the interval behind the one before.
abbrev pub IsSpaced : ℕ → ℕ → List ℕ → Type 0
IsSpaced interval before [] = Unit
IsSpaced interval before (t ∷ times) = (before + interval ≤ t) × IsSpaced interval t times

-- One handshake: when it comes, and what the files give if it reads them.
pub record Arrival (K : Type 0) : Type 0 where
  pub now : ℕ
  pub now_epoch : ℤ
  pub loaded : Result TlsError (K × ℤ)

module _ {K : Type 0} where
  -- The instants at which the files are read, in a sequence of handshakes.
  unfoldable pub attempts : List (Arrival K) → Resolver K → List ℕ
  attempts [] r = []
  attempts (a ∷ arrivals) r =
      let (r', _, was_read) = resolve a.loaded a.now a.now_epoch r in
      let rest = attempts arrivals r' in if was_read then a.now ∷ rest else rest

  resolve-interval :
      (loaded : Result TlsError (K × ℤ)) (now : ℕ) (now_epoch : ℤ) (r : Resolver K)
      → (resolve loaded now now_epoch r).0.reload_interval ≡ r.reload_interval
  unfolding resolve read_cached claim finish
  resolve-interval (ok l) now now_epoch r = ground arith
  resolve-interval (err e) now now_epoch r = ground arith

  resolve-cached :
      (loaded : Result TlsError (K × ℤ)) (now : ℕ) (now_epoch : ℤ) (r : Resolver K)
      → (resolve loaded now now_epoch r).2 ≡ false
      → (resolve loaded now now_epoch r).0 ≡ r
  unfolding resolve read_cached claim finish
  resolve-cached (ok l) now now_epoch r h = ground arith
  resolve-cached (err e) now now_epoch r h = ground arith

  resolve-read :
      (loaded : Result TlsError (K × ℤ)) (now : ℕ) (now_epoch : ℤ) (r : Resolver K)
      → 0 < r.reload_interval
      → (resolve loaded now now_epoch r).2 ≡ true
      → (r.checked_at + r.reload_interval ≤ now)
        × ((resolve loaded now now_epoch r).0.checked_at ≡ now)
  unfolding resolve read_cached claim finish
  resolve-read (ok l) now now_epoch r p h = ground arith
  resolve-read (err e) now now_epoch r p h = ground arith

  -- In every sequence of handshakes, at whatever instants, with a positive interval: between two
  -- reads of the files, failed ones included, lies at least the interval, and so does it between
  -- the check that the cache holds and the first of them.
  pub attempts-IsSpaced :
      (arrivals : List (Arrival K)) (r : Resolver K)
      → 0 < r.reload_interval
      → IsSpaced r.reload_interval r.checked_at (attempts arrivals r)
  unfolding attempts
  attempts-IsSpaced [] r p = tt
  attempts-IsSpaced (a ∷ arrivals) r p =
      let r' = (resolve a.loaded a.now a.now_epoch r).0 in
      let same = resolve-interval a.loaded a.now a.now_epoch r in
      let ih = attempts-IsSpaced arrivals r' (rw same p) in
      elim (Bool-cases (resolve a.loaded a.now a.now_epoch r).2) [
        | inl e ↦
            let (late, stamped) = resolve-read a.loaded a.now a.now_epoch r p e in
            rw e (late, rw (same, stamped) at ih)
        | inr e ↦
            let kept = resolve-cached a.loaded a.now a.now_epoch r e in
            rw (e, kept) (attempts-IsSpaced arrivals r p)
      ]

module _ {K : Type 0} where
  -- What the handshakes of a sequence are served.
  unfoldable pub answers : List (Arrival K) → Resolver K → List (Option K)
  answers [] r = []
  answers (a ∷ arrivals) r =
      let (r', answer, _) = resolve a.loaded a.now a.now_epoch r in answer ∷ answers arrivals r'

  -- The key up to the end of the pair, and nothing behind it.
  abbrev pub IsServed : K → ℤ → ℤ → Option K → Type 0
  IsServed key not_after now_epoch answer =
      ((now_epoch ≤ℤ not_after) × (answer ≡ some key))
      ⊎ ((¬ (now_epoch ≤ℤ not_after)) × (answer ≡ none))

  abbrev pub AllServed : K → ℤ → List (Arrival K) → List (Option K) → Type 0
  AllServed key not_after [] [] = Unit
  AllServed key not_after (a ∷ arrivals) (answer ∷ rest) =
      IsServed key not_after a.now_epoch answer × AllServed key not_after arrivals rest
  AllServed key not_after _ _ = ⊥

  abbrev pub AllFailed : List (Arrival K) → Type 0
  AllFailed [] = Unit
  AllFailed (a ∷ arrivals) = ((error : TlsError) × (a.loaded ≡ err error)) × AllFailed arrivals

  serve_if_valid-IsServed :
      (now_epoch : ℤ) (r : Resolver K)
      → IsServed r.key r.not_after now_epoch (serve_if_valid now_epoch r)
  serve_if_valid-IsServed now_epoch r = elim (Bool-cases (leb_ℤ now_epoch r.not_after)) [
    | inl valid ↦ rw valid (inl (ground arith, refl))
    | inr over ↦ rw over (inr (λ ahead. ground arith, refl))
  ]

  resolve-failed :
      (error : TlsError) (now : ℕ) (now_epoch : ℤ) (r : Resolver K)
      → ((resolve (err error) now now_epoch r).0.key ≡ r.key)
        × ((resolve (err error) now now_epoch r).0.not_after ≡ r.not_after)
        × ((resolve (err error) now now_epoch r).1 ≡ serve_if_valid now_epoch r)
  unfolding resolve read_cached claim finish
  resolve-failed error now now_epoch r = ground arith

  -- As long as every reload fails, whenever the handshakes come and whatever the errors are, each one
  -- is served the key of the beginning if its time is not behind the end of that pair, and nothing if
  -- it is.
  pub answers-AllServed :
      (arrivals : List (Arrival K)) (r : Resolver K)
      → AllFailed arrivals
      → AllServed r.key r.not_after arrivals (answers arrivals r)
  unfolding answers
  answers-AllServed [] r failed = tt
  answers-AllServed (a ∷ arrivals) r ((error, e), failed) =
      let (same_key, same_end, answer) = resolve-failed error a.now a.now_epoch r in
      let rest = answers-AllServed arrivals (resolve (err error) a.now a.now_epoch r).0 failed in
      rw (e, answer) (serve_if_valid-IsServed a.now_epoch r, rw (same_key, same_end) at rest)
