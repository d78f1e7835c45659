-- ===== src/Metadata/Locks/Leak.antt =====
-- src/metadata.rs: two guards of one key that are dropped in turn, and at once.
use open_tf_mirror.Base.{◌≡◌, refl, ap, true, false, List, [], ◌∷◌, some, Eq, beq_refl}
use open_tf_mirror.Base.Map.{get, insert, remove}
use open_tf_mirror.Metadata.Locks.{
  ManagedKeyLock, Locks, no_locks, guard_count, entry_count, lock_for, drop_entry, is_entry,
  drop_guard, release_guard, acquire, drop, release, Reach, start, later,
}

module _ {K : Type 0} ⦃e : Eq K⦄ where
  abbrev pub guard : K → ManagedKeyLock K
  guard key = record { key = key; mutex = 0; dropped = false }

  abbrev with_guards : K → List (ManagedKeyLock K) → Locks K
  with_guards key held = record { locks = (key, 0) ∷ []; held = held; next = 1 }

  lock_for-again :
      (key : K) (held : List (ManagedKeyLock K))
      → lock_for key (with_guards key held) ≡ with_guards key (guard key ∷ held)
  unfolding lock_for get
  lock_for-again key held = rw (beq_refl key, lock_for)

  -- Two tasks have taken the lock of the key.
  abbrev pub taken : K → Locks K
  taken key = lock_for key (lock_for key (no_locks K))

  -- One guard is dropped and its `Arc` released, and then the other.
  abbrev pub in_turn : K → Locks K
  in_turn key =
      let g = guard key in
      release_guard [] []
        (drop_guard [] g [] (release_guard [] (g ∷ []) (drop_guard [] g (g ∷ []) (taken key))))

  -- The body of `drop` runs for both before either `Arc` is released.
  abbrev pub overlapping : K → Locks K
  overlapping key =
      let g = guard key in
      let d = record g { dropped = true } in
      release_guard [] [] (
        release_guard [] (d ∷ []) (drop_guard (d ∷ []) g [] (drop_guard [] g (g ∷ []) (taken key))))

  taken_lem : (key : K) → taken key ≡ with_guards key (guard key ∷ guard key ∷ [])
  unfolding lock_for get insert
  taken_lem key = lock_for-again key (guard key ∷ [])

  taken-Reach : (key : K) → Reach (taken key)
  taken-Reach key = later (later start (acquire (no_locks K) key)) (acquire _ key)

  overlapping-Reach : (key : K) → Reach (overlapping key)
  overlapping-Reach key =
      let g = guard key in
      let d = record g { dropped = true } in
      let held : (taken key).held ≡ g ∷ g ∷ [] = ap (λ s. s.held) (taken_lem key) in
      later
        (later
          (later (later (taken-Reach key) (drop _ [] (g ∷ []) g held refl))
            (drop _ (d ∷ []) [] g refl refl))
          (release _ [] (d ∷ []) d refl refl))
        (release _ [] [] d refl refl)

  -- For every key whose lock two tasks have taken: if their guards are dropped in turn, then no guard and
  -- no entry is left; but if the body of `drop` runs for both before either `Arc` is released, which
  -- can happen, then no guard is left while the map still has the entry of the key.
  pub overlap-leaks :
      (key : K)
      → ((taken key).held ≡ guard key ∷ guard key ∷ [])
        × ((in_turn key).held ≡ [])
        × ((in_turn key).locks ≡ [])
        × Reach (overlapping key)
        × ((overlapping key).held ≡ [])
        × (get key (overlapping key).locks ≡ some 0)
  unfolding drop_entry guard_count entry_count get remove
  overlap-leaks key = (
    ap (λ s. s.held) (taken_lem key),
    refl,
    rw (taken_lem key, beq_refl key) (rw (beq_refl key, is_entry) refl),
    overlapping-Reach key,
    refl,
    rw (taken_lem key, beq_refl key) refl,
  )
