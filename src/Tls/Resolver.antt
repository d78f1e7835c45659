-- ===== src/Tls/Resolver.antt =====
-- src/tls_reload.rs: `ReloadingCertResolver`. An instant is a number of nanoseconds, and
-- `duration_since` stops at zero, as `-` does. The lock makes each of the three parts of a handshake
-- one step on the shared state: the read, the claim, and the store behind the load. What PEM files
-- hold, what keys the crypto provider supports and whether they match is decided by `rustls`, so the
-- files' contents and these tests are parameters.
pub mod Handshake
pub mod Race
use open_tf_mirror.Base.{
  ℕ, ◌-◌, Bool, true, false, not, List, is_empty, ltb, if◌then◌else◌, Option, some, none, Result,
  ok, err, ◌>>=◌, ◌>>◌, guard, ok_or,
}
use open_tf_mirror.Base.Int.{ℤ, leb_ℤ}
use open_tf_mirror.Tls.Errors.{TlsError, no_certificate, unsupported_key, key_mismatch}
use open_tf_mirror.Tls.Validity.{validate_certificate_validity}

-- A key with its chain, as `CertifiedKey`.
pub record CertifiedKey (S : Type 0) : Type 0 where
  pub chain : List (List ℕ)
  pub signing_key : S

-- What the two files give when they are read, and what the provider says of the key.
pub record Files (S : Type 0) : Type 1 where
  pub PrivateKey : Type 0
  pub certs : Result TlsError (List (List ℕ))
  pub private_key : Result TlsError PrivateKey
  pub any_supported_type : PrivateKey → Option S
  pub keys_match : List (List ℕ) → S → Bool

unfoldable pub load_certified_key :
    {S : Type 0} → Files S → ℤ → Result TlsError (CertifiedKey S × ℤ)
load_certified_key files now = do
  certs ← files.certs
  guard (not (is_empty certs)) no_certificate
  not_after ← validate_certificate_validity certs now
  key ← files.private_key
  signing_key ← ok_or (files.any_supported_type key) unsupported_key
  guard (files.keys_match certs signing_key) key_mismatch
  ok (record { chain = certs; signing_key = signing_key }, not_after)

-- The cached pair, and the instant of the last reload that was claimed.
pub record Resolver (K : Type 0) : Type 0 where
  pub key : K
  pub not_after : ℤ
  pub checked_at : ℕ
  pub reload_interval : ℕ

module _ {K : Type 0} where
  -- `new_with_reload_interval`
  unfoldable pub new_with_reload_interval :
      Result TlsError (K × ℤ) → ℕ → ℕ → Result TlsError (Resolver K)
  new_with_reload_interval loaded now interval = do
    (key, not_after) ← loaded
    ok (record { key = key; not_after = not_after; checked_at = now; reload_interval = interval })

  -- `(now_epoch <= cached.0.not_after).then(…)`
  abbrev pub serve_if_valid : ℤ → Resolver K → Option K
  serve_if_valid now_epoch r = if leb_ℤ now_epoch r.not_after then some r.key else none

  abbrev pub is_within : ℕ → Resolver K → Bool
  is_within now r = ltb (now - r.checked_at) r.reload_interval

  -- Under the read lock: an answer, if the interval has not passed.
  unfoldable pub read_cached : ℕ → ℤ → Resolver K → Option (Option K)
  read_cached now now_epoch r = if is_within now r then some (serve_if_valid now_epoch r) else none

  -- Under the write lock: the same test again, and then the claim.
  unfoldable pub claim : ℕ → ℤ → Resolver K → Resolver K × Option (Option K)
  claim now now_epoch r =
      if is_within now r
      then (r, some (serve_if_valid now_epoch r))
      else (record r { checked_at = now }, none)

  -- Behind the load: store the pair and serve it, or fall back to the cached one.
  unfoldable pub finish : Result TlsError (K × ℤ) → ℕ → ℤ → Resolver K → Resolver K × Option K
  finish (ok (key, not_after)) now now_epoch r =
      (record r { key = key; not_after = not_after; checked_at = now }, some key)
  finish (err e) now now_epoch r = (r, serve_if_valid now_epoch r)

  load_and_finish :
      Result TlsError (K × ℤ)
      → ℕ
      → ℤ
      → Resolver K × Option (Option K)
      → Resolver K × Option K × Bool
  load_and_finish loaded now now_epoch (r, some answer) = (r, answer, false)
  load_and_finish loaded now now_epoch (r, none) =
      let (r', answer) = finish loaded now now_epoch r in (r', answer, true)

  -- `resolve_current_cert_option` with no other handshake in between. The last part of the result
  -- says whether the files were read; `loaded` is what reading them gives.
  unfoldable pub resolve :
      Result TlsError (K × ℤ) → ℕ → ℤ → Resolver K → Resolver K × Option K × Bool
  unfolding load_and_finish
  resolve loaded now now_epoch r = elim (read_cached now now_epoch r) [
    | some answer ↦ (r, answer, false)
    | none ↦ load_and_finish loaded now now_epoch (claim now now_epoch r)
  ]
