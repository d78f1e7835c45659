-- ===== src/Metadata/Locks.antt =====
-- src/metadata.rs: `lock_for` and `ManagedKeyLock`, the map of mutexes by key. Other tasks run between
-- any two of the steps below: taking the mutex of a key, the body of `drop`, which holds the write
-- lock of the map, and the release of the guard's own `Arc`, which Rust does after that body.
pub mod Shared
pub mod Leak
use open_tf_mirror.Base.{
  ℕ, ◌+◌, ◌≡◌, Bool, true, false, ◌&&◌, ◌==◌, if◌then◌else◌, List, [], ◌∷◌, ◌++◌, Option, some,
  none, Eq,
}
use open_tf_mirror.Base.Map.{Map, get, insert, remove}

-- A mutex is a number. `dropped` says that the body of `drop` has run and the `Arc` is still held.
pub record ManagedKeyLock (K : Type 0) : Type 0 where
  pub key : K
  pub mutex : ℕ
  pub dropped : Bool

pub record Locks (K : Type 0) : Type 0 where
  pub locks : Map K ℕ
  pub held : List (ManagedKeyLock K)
  pub next : ℕ

abbrev pub no_locks : (K : Type 0) → Locks K
no_locks K = record { locks = []; held = []; next = 0 }

-- How many of the guards, and how many entries of the map, hold the mutex.
unfoldable pub guard_count : {K : Type 0} → ℕ → List (ManagedKeyLock K) → ℕ
guard_count mutex [] = 0
guard_count mutex (g ∷ gs) =
    let rest = guard_count mutex gs in if g.mutex == mutex then rest + 1 else rest

unfoldable pub entry_count : {K : Type 0} → ℕ → Map K ℕ → ℕ
entry_count mutex [] = 0
entry_count mutex ((k, m) ∷ locks) =
    let rest = entry_count mutex locks in if m == mutex then rest + 1 else rest

-- `Arc::strong_count`
abbrev pub strong_count : {K : Type 0} → ℕ → Locks K → ℕ
strong_count mutex s = guard_count mutex s.held + entry_count mutex s.locks

module _ {K : Type 0} ⦃e : Eq K⦄ where
  unfoldable pub lock_for : K → Locks K → Locks K
  lock_for key s = elim (get key s.locks) [
    | some mutex ↦ record s { held = record { key = key; mutex = mutex; dropped = false } ∷ s.held }
    | none ↦ record {
      locks = insert key s.next s.locks;
      held = record { key = key; mutex = s.next; dropped = false } ∷ s.held;
      next = s.next + 1;
    }
  ]

  abbrev pub is_entry : ManagedKeyLock K → Locks K → Bool
  is_entry g s = elim (get g.key s.locks) [ none ↦ false | some mutex ↦ mutex == g.mutex ]

  -- The body of `drop`
  unfoldable pub drop_entry : ManagedKeyLock K → Locks K → Map K ℕ
  drop_entry g s =
      if strong_count g.mutex s == 2 && is_entry g s then remove g.key s.locks else s.locks

  -- The body of `drop` for the guard between `before` and `after`
  abbrev pub drop_guard :
      (before : List (ManagedKeyLock K))
      → ManagedKeyLock K
      → (after : List (ManagedKeyLock K)) → Locks K
      → Locks K
  drop_guard before g after s = record s {
    locks = drop_entry g s;
    held = before ++ record g { dropped = true } ∷ after;
  }

  -- The release of the `Arc` of the guard between them
  abbrev pub release_guard : (before after : List (ManagedKeyLock K)) → Locks K → Locks K
  release_guard before after s = record s { held = before ++ after }

  -- One step of some task.
  pub data Step : Locks K → Locks K → Type 0 where
    acquire : (s : Locks K) (key : K) → Step s (lock_for key s)
    drop :
        (s : Locks K) (before after : List (ManagedKeyLock K)) (g : ManagedKeyLock K)
        → s.held ≡ before ++ g ∷ after
        → g.dropped ≡ false
        → Step s (drop_guard before g after s)
    release :
        (s : Locks K) (before after : List (ManagedKeyLock K)) (g : ManagedKeyLock K)
        → s.held ≡ before ++ g ∷ after
        → g.dropped ≡ true
        → Step s (release_guard before after s)

  pub data Reach : Locks K → Type 0 where
    start : Reach (no_locks K)
    later : {s t : Locks K} → Reach s → Step s t → Reach t
