-- ===== src/Tls/Resolver/Race.antt =====
-- src/tls_reload.rs: two handshakes whose reloads overlap. The load itself runs without the lock, so
-- the steps of other handshakes may come between a claim and its store.
use open_tf_mirror.Base.{ℕ, ◌+◌, ◌≤◌, ◌<◌, ◌≡◌, none, ok, arith}
use open_tf_mirror.Base.Int.{ℤ}
use open_tf_mirror.Tls.Resolver.{Resolver, claim, finish}

module _ {K : Type 0} where
  -- One handshake claims at `first`, another at `second`; the second stores its pair, then the first.
  abbrev pub overlap :
      (first second : ℕ) (epoch : ℤ) (older newer : K × ℤ) → Resolver K → Resolver K
  overlap first second epoch older newer r =
      (finish (ok older) first epoch
        (finish (ok newer) second epoch (claim second epoch (claim first epoch r).0).0).0).0

  -- If the first reload lasts longer than the interval, so that another handshake claims a reload
  -- and stores its pair before, then both claims succeed, the pair that was loaded first replaces
  -- the newer one, the time of the check goes back to the first claim, and a third handshake at the
  -- instant of the second claims a reload again.
  pub overlap-overwrites :
      (first second : ℕ) (epoch : ℤ) (older newer : K × ℤ) (r : Resolver K)
      → 0 < r.reload_interval
      → r.checked_at + r.reload_interval ≤ first
      → first + r.reload_interval ≤ second
      → ((claim first epoch r).1 ≡ none)
        × ((claim second epoch (claim first epoch r).0).1 ≡ none)
        × ((overlap first second epoch older newer r).key ≡ older.0)
        × ((overlap first second epoch older newer r).checked_at ≡ first)
        × ((claim second epoch (overlap first second epoch older newer r)).1 ≡ none)
  unfolding claim finish
  overlap-overwrites first second epoch older newer r p h k =
      (ground arith, ground arith, ground arith, ground arith, ground arith)
