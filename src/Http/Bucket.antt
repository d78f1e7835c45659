-- ===== src/Http/Bucket.antt =====
-- src/http_api.rs: `TokenBucket` and `enforce_rate_limit`. Numbers of the type f64 and their operations
-- are a parameter.
pub mod Rate
use open_tf_mirror.Base.{
  ℕ, ◌-◌, max, ◌≡◌, refl, ◌⊎◌, inl, inr, Bool, true, false, Bool-cases, if◌then◌else◌, ◌∷◌, [],
  codes, List,
}
use open_tf_mirror.Http.Response.{HttpResponse, empty}

-- `of_u32` is `as f64`, and `seconds` is `as_secs_f64` of a duration in nanoseconds.
pub record Double (F : Type 0) : Type 0 where
  pub of_u32 : ℕ → F
  pub seconds : ℕ → F
  pub add : F → F → F
  pub mul : F → F → F
  pub sub : F → F → F
  pub min : F → F → F
  pub lt : F → F → Bool

-- Instants in nanoseconds.
pub record TokenBucket (F : Type 0) : Type 0 where
  pub qps : F
  pub burst : F
  pub tokens : F
  pub last_refill : ℕ

module _ {F : Type 0} (d : Double F) where
  open d use {of_u32, seconds, add, mul, sub, min, lt}

  unfoldable pub new : (qps burst now : ℕ) → TokenBucket F
  new qps burst now = record {
    qps = of_u32 (max qps 1);
    burst = of_u32 (max burst 1);
    tokens = of_u32 (max burst 1);
    last_refill = now;
  }

  -- `duration_since` stops at zero.
  abbrev pub refill : ℕ → TokenBucket F → TokenBucket F
  refill now b = record b {
    tokens = min (add b.tokens (mul (seconds (now - b.last_refill)) b.qps)) b.burst;
    last_refill = now;
  }

  unfoldable pub try_acquire : ℕ → TokenBucket F → TokenBucket F × Bool
  try_acquire now b =
      let filled = refill now b in
      if lt filled.tokens (of_u32 1)
      then (filled, false)
      else (record filled { tokens = sub filled.tokens (of_u32 1) }, true)

  abbrev pub too_many_requests : HttpResponse
  too_many_requests = record {
    status = 429;
    headers = (codes "retry-after", codes "1") ∷ [];
    body = empty;
  }

  -- `next` is the handler behind the limit.
  unfoldable pub enforce_rate_limit :
      {S : Type 0}
      → ℕ
      → (S → S × HttpResponse)
      → TokenBucket F
      → S
      → TokenBucket F × S × HttpResponse
  enforce_rate_limit now next b s =
      let (b', allowed) = try_acquire now b in
      if allowed
      then (let (s', response) = next s in (b', s', response))
      else (b', s, too_many_requests)

  -- Requests at the instants, one after the other.
  unfoldable pub limit_all :
      {S : Type 0} → List ℕ → (S → S × HttpResponse) → TokenBucket F → S → TokenBucket F × S
  limit_all [] next b s = (b, s)
  limit_all (now ∷ times) next b s =
      let (b', s', _) = enforce_rate_limit now next b s in limit_all times next b' s'
