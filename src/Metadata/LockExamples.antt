-- ===== src/Metadata/LockExamples.antt =====
-- src/metadata.rs: two tasks at the lock of one key, and the theorems at it.
use open_tf_mirror.Base.{ℕ, nat_eq, ◌≡◌, refl, false, [], ◌∷◌, some}
use open_tf_mirror.Base.Map.{get, insert}
use open_tf_mirror.Metadata.Locks.{
  ManagedKeyLock, Locks, no_locks, lock_for, acquire, Reach, start, later,
}
use open_tf_mirror.Metadata.Locks.Shared.{Reach-mutex}
use open_tf_mirror.Metadata.Locks.Leak.{taken, in_turn, overlapping, overlap-leaks}

program : Unit {0}
unfolding get insert lock_for
program = tt

abbrev guard : ManagedKeyLock ℕ
guard = record { key = 7; mutex = 0; dropped = false }

abbrev two_guards : Locks ℕ
two_guards = lock_for 7 (lock_for 7 (no_locks ℕ))

two_guards-Reach : Reach two_guards
two_guards-Reach =
    later (later start (acquire (no_locks ℕ) 7)) (acquire (lock_for 7 (no_locks ℕ)) 7)

two_guards-held : two_guards.held ≡ guard ∷ guard ∷ []
unfolding lock_for get insert
two_guards-held = refl

Reach-mutex_example : guard.mutex ≡ guard.mutex
Reach-mutex_example =
    Reach-mutex two_guards [] (guard ∷ []) (guard ∷ []) [] guard guard two_guards-Reach
      two_guards-held two_guards-held refl refl refl

overlap-leaks_example :
    ((taken {K = ℕ} 7).held ≡ guard ∷ guard ∷ [])
    × ((in_turn {K = ℕ} 7).held ≡ [])
    × ((in_turn {K = ℕ} 7).locks ≡ [])
    × Reach {K = ℕ} (overlapping {K = ℕ} 7)
    × ((overlapping {K = ℕ} 7).held ≡ [])
    × (get 7 (overlapping {K = ℕ} 7).locks ≡ some 0)
overlap-leaks_example = overlap-leaks 7
