-- ===== src/Http/Bucket/Rate.antt =====
-- src/http_api.rs: how many requests `enforce_rate_limit` lets through. The laws are those of f64 at the
-- numbers that occur: they are finite and not negative, and `units` counts the least steps of f64 in
-- them, of which a token has `one`.
use open_tf_mirror.Base.{
  ℕ, zero, suc, ◌+◌, ◌*◌, ◌-◌, max, ◌≤◌, ◌<◌, ◌≡◌, refl, ◌⊎◌, inl, inr, ltb, Bool-cases, List, [],
  ◌∷◌, length, arith,
}
use open_tf_mirror.Http.Response.{HttpResponse}
use open_tf_mirror.Http.Bucket.{
  Double, TokenBucket, new, refill, try_acquire, enforce_rate_limit, limit_all,
}

-- `earned` bounds what a time adds at a rate to a number of tokens up to the limit, rounded; a token
-- is taken, and a u32 converted, without rounding.
pub record IsDouble (F : Type 0) (d : Double F) (units : F → ℕ) (one : ℕ)
    (earned : (nanoseconds : ℕ) (qps limit : F) → ℕ) : Type 0 where
  pub of_u32 : (n : ℕ) → n < 4294967296 → units (d.of_u32 n) ≡ n * one
  pub lt_lem : (x y : F) → d.lt x y ≡ ltb (units x) (units y)
  pub min-le_left : (x y : F) → units (d.min x y) ≤ units x
  pub min-le_right : (x y : F) → units (d.min x y) ≤ units y
  pub min-greatest : (n : ℕ) (x y : F) → n ≤ units x → n ≤ units y → n ≤ units (d.min x y)
  pub sub_one : (x : F) → one ≤ units x → units (d.sub x (d.of_u32 1)) + one ≡ units x
  pub add-le :
      (ns : ℕ) (x qps limit : F)
      → units x ≤ units limit
      → units (d.add x (d.mul (d.seconds ns) qps)) ≤ units x + earned ns qps limit
  pub add-ge : (ns : ℕ) (x qps : F) → units x ≤ units (d.add x (d.mul (d.seconds ns) qps))

-- A handler with the number of its runs.
abbrev pub counted : {S : Type 0} → (S → S × HttpResponse) → S × ℕ → (S × ℕ) × HttpResponse
counted next (s, n) = (((next s).0, n + 1), (next s).1)

-- What the times from one request to the next earn.
unfoldable pub earned_all :
    {F : Type 0} → (ℕ → F → F → ℕ) → (qps limit : F) → (last : ℕ) → List ℕ → ℕ
earned_all earned qps limit last [] = 0
earned_all earned qps limit last (now ∷ times) =
    earned (now - last) qps limit + earned_all earned qps limit now times

module _ {F : Type 0} (d : Double F) (units : F → ℕ) (one : ℕ) (earned : ℕ → F → F → ℕ)
    (laws : IsDouble F d units one earned) where
  -- What one request does to a bucket and to the number of runs.
  record IsTaken (now n : ℕ) (b b' : TokenBucket F) (n' : ℕ) : Type 0 where
    same_qps : b'.qps ≡ b.qps
    same_burst : b'.burst ≡ b.burst
    refilled : b'.last_refill ≡ now
    within : units b'.tokens ≤ units b.burst
    paid :
        n' * one + units b'.tokens
        ≤ n * one + units b.tokens + earned (now - b.last_refill) b.qps b.burst
    served :
        ((n' ≡ n + 1) × (units b.tokens ≤ units b'.tokens + one))
        ⊎ ((n' ≡ n) × (units b.tokens < one))

  refill-bounds :
      (now : ℕ) (b : TokenBucket F)
      → units b.tokens ≤ units b.burst
      → (units b.tokens ≤ units (refill d now b).tokens)
        × (units (refill d now b).tokens ≤ units b.burst)
        × (units (refill d now b).tokens
            ≤ units b.tokens + earned (now - b.last_refill) b.qps b.burst)
  refill-bounds now b w =
      let sum = d.add b.tokens (d.mul (d.seconds (now - b.last_refill)) b.qps) in
      (
        laws.min-greatest (units b.tokens) sum b.burst
            (laws.add-ge (now - b.last_refill) b.tokens b.qps) w,
        laws.min-le_right sum b.burst,
        omega (
          arith,
          laws.min-le_left sum b.burst,
          laws.add-le (now - b.last_refill) b.tokens b.qps b.burst w,
        ),
      )

  module _ {S : Type 0} (next : S → S × HttpResponse) where
    enforce_rate_limit-IsTaken :
        (now : ℕ) (b : TokenBucket F) (s : S) (n : ℕ)
        → units b.tokens ≤ units b.burst
        → IsTaken now n b
            (enforce_rate_limit d now (counted next) b (s, n)).0
            (enforce_rate_limit d now (counted next) b (s, n)).1.1
    unfolding enforce_rate_limit try_acquire
    enforce_rate_limit-IsTaken now b s n w =
        let filled = refill d now b in
        let (more, within, few) = refill-bounds now b w in
        let test = laws.lt_lem filled.tokens (d.of_u32 1) in
        let token : units (d.of_u32 1) ≡ one = omega (arith, laws.of_u32 1 (omega arith)) in
        elim (Bool-cases (d.lt filled.tokens (d.of_u32 1))) [
          | inl short ↦
              let below : units filled.tokens < one = ground (arith, test, short, token) in
              rw (enforce_rate_limit, try_acquire, short)
                (record {
                  same_qps = refl;
                  same_burst = refl;
                  refilled = refl;
                  within = within;
                  paid = omega (arith, few);
                  served = inr (refl, omega (arith, more, below));
                })
          | inr enough ↦
              let above : one ≤ units filled.tokens = ground (arith, test, enough, token) in
              let taken = laws.sub_one filled.tokens above in
              rw (enforce_rate_limit, try_acquire, enough)
                (record {
                  same_qps = refl;
                  same_burst = refl;
                  refilled = refl;
                  within = omega (arith, taken, within);
                  paid = omega (arith, taken, few);
                  served = inl (refl, omega (arith, taken, more));
                })
        ]

    limit_all-paid :
        (times : List ℕ) (b : TokenBucket F) (s : S) (n : ℕ)
        → units b.tokens ≤ units b.burst
        → (limit_all d times (counted next) b (s, n)).1.1 * one
          ≤ n * one + units b.tokens + earned_all earned b.qps b.burst b.last_refill times
    unfolding limit_all earned_all
    limit_all-paid [] b s n w = omega arith
    limit_all-paid (now ∷ times) b s n w =
        let run = enforce_rate_limit d now (counted next) b (s, n) in
        let taken = enforce_rate_limit-IsTaken now b s n w in
        let rest = limit_all-paid times run.0 run.1.0 run.1.1 (rw taken.same_burst taken.within) in
        let rest' = rw (taken.same_qps, taken.same_burst, taken.refilled) at rest in
        omega (arith, taken.paid, rest')

    limit_all-served :
        (times : List ℕ) (k : ℕ) (b : TokenBucket F) (s : S) (n : ℕ)
        → units b.tokens ≤ units b.burst
        → k * one ≤ units b.tokens
        → let runs = (limit_all d times (counted next) b (s, n)).1.1 in
          (n + length times ≤ runs) ⊎ (n + k ≤ runs)
    unfolding limit_all
    limit_all-served [] k b s n w enough = inl (omega arith)
    limit_all-served (now ∷ times) zero b s n w enough =
        let run = enforce_rate_limit d now (counted next) b (s, n) in
        let taken = enforce_rate_limit-IsTaken now b s n w in
        let rest =
          limit_all-served times zero run.0 run.1.0 run.1.1 (rw taken.same_burst taken.within)
            (omega arith) in
        inr (ground (arith, taken.served, rest))
    limit_all-served (now ∷ times) (suc k) b s n w enough =
        let run = enforce_rate_limit d now (counted next) b (s, n) in
        let taken = enforce_rate_limit-IsTaken now b s n w in
        let within : units run.0.tokens ≤ units run.0.burst = rw taken.same_burst taken.within in
        elim taken.served [
          | inr (refused, short) ↦ absurd (omega (arith, short, enough))
          | inl (ran, left) ↦
              elim (limit_all-served times k run.0 run.1.0 run.1.1 within
                (omega (arith, left, enough))) [
                  | inl all ↦ inl (omega (arith, ran, all))
                  | inr many ↦ inr (omega (arith, ran, many))
                ]
        ]

    -- How many handlers run: no more tokens than the burst and what the times earn, and all of the
    -- requests or as many as the burst.
    abbrev pub IsLimited : (qps burst start : ℕ) → (times : List ℕ) → (runs : ℕ) → Type 0
    IsLimited qps burst start times runs =
        (runs * one
          ≤ max burst 1 * one
            + earned_all earned (d.of_u32 (max qps 1)) (d.of_u32 (max burst 1)) start times)
        × ((length times ≤ runs) ⊎ (max burst 1 ≤ runs))

    -- Where the numbers have the laws of `IsDouble`: with a new bucket, requests at any instants run at
    -- most as many handlers as there are tokens in the burst, which is one at least, and in what the
    -- times earn, each from one request to the next, at the rate; and every request runs its handler, or
    -- at least as many as the burst do. The burst has 32 bits.
    pub limit_all-IsLimited :
        (qps burst start : ℕ) (times : List ℕ) (s : S)
        → burst < 4294967296
        → IsLimited qps burst start times
            (limit_all d times (counted next) (new d qps burst start) (s, 0)).1.1
    unfolding new
    limit_all-IsLimited qps burst start times s small =
        let full : units (d.of_u32 (max burst 1)) ≡ max burst 1 * one =
          laws.of_u32 (max burst 1) (ground arith) in
        let b = new d qps burst start in
        (
          omega (arith, limit_all-paid times b s 0 (omega arith), full),
          elim (limit_all-served times (max burst 1) b s 0 (omega arith) (omega (arith, full))) [
            | inl all ↦ inl (omega (arith, all))
            | inr many ↦ inr (omega (arith, many))
          ],
        )
