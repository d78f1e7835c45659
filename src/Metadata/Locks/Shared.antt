-- ===== src/Metadata/Locks/Shared.antt =====
-- src/metadata.rs: guards of one key share one mutex, as long as they are not dropped.
use open_tf_mirror.Base.{
  ℕ, ◌+◌, ◌≤◌, ◌≡◌, inl, inr, ◌∙◌, ap, false, Bool-cases, ◌&&◌, ◌==◌, List, [], ◌∷◌, ◌++◌, some,
  none, Option-cases, Eq, All, All-append, All-append_left, All-append_right, arith,
}
use open_tf_mirror.Base.Map.{Map, get, insert, remove, get-insert, get-insert_self, get-remove}
use open_tf_mirror.Metadata.Locks.{
  ManagedKeyLock, Locks, guard_count, entry_count, strong_count, lock_for, is_entry, drop_entry,
  Step, acquire, drop, release, Reach, start, later,
}

guard_count-append :
    {K : Type 0} (m : ℕ) (xs ys : List (ManagedKeyLock K))
    → guard_count m (xs ++ ys) ≡ guard_count m xs + guard_count m ys
unfolding guard_count
guard_count-append m [] ys = omega arith
guard_count-append m (x ∷ xs) ys = ground (arith, guard_count-append m xs ys)

module _ {K : Type 0} ⦃e : Eq K⦄ where
  entry_count-pos :
      (k : K) (m : ℕ) (locks : Map K ℕ) → get k locks ≡ some m → 1 ≤ entry_count m locks
  unfolding entry_count get
  entry_count-pos k m [] h = cc
  entry_count-pos k m ((j, n) ∷ locks) h = ground (arith, entry_count-pos k m locks)

  -- A guard that is not dropped has the mutex of the map.
  abbrev pub IsRegistered : Map K ℕ → ManagedKeyLock K → Type 0
  IsRegistered locks g = g.dropped ≡ false → get g.key locks ≡ some g.mutex

  remove-IsRegistered :
      (k : K) (m : ℕ) (locks : Map K ℕ) (gs : List (ManagedKeyLock K))
      → get k locks ≡ some m
      → guard_count m gs ≡ 0
      → All (IsRegistered locks) gs
      → All (IsRegistered (remove k locks)) gs
  unfolding guard_count
  remove-IsRegistered k m locks [] found c h = tt
  remove-IsRegistered k m locks (g ∷ gs) found c (p, h) = (
    λ live.
        ground (arith, p live, get-remove k g.key locks, e.beq_iff k g.key, ap (λ j. get j locks)),
    remove-IsRegistered k m locks gs found (ground arith) h,
  )

  insert-IsRegistered :
      (k : K) (m : ℕ) (locks : Map K ℕ) (gs : List (ManagedKeyLock K))
      → get k locks ≡ none
      → All (IsRegistered locks) gs
      → All (IsRegistered (insert k m locks)) gs
  insert-IsRegistered k m locks [] missing h = tt
  insert-IsRegistered k m locks (g ∷ gs) missing (p, h) = (
    λ live. ground (arith, p live, get-insert k g.key m locks, e.beq_iff k g.key),
    insert-IsRegistered k m locks gs missing h,
  )

  lock_for-All :
      (key : K) (s : Locks K)
      → All (IsRegistered s.locks) s.held
      → All (IsRegistered (lock_for key s).locks) (lock_for key s).held
  unfolding lock_for
  lock_for-All key s h = elim (Option-cases (get key s.locks)) [
    | inr (mutex, found) ↦ rw (lock_for, found) (λ live. found, h)
    | inl missing ↦
        rw (lock_for, missing)
          (
            λ live. get-insert_self key s.next s.locks,
            insert-IsRegistered key s.next s.locks s.held missing h,
          )
  ]

  -- The entry goes only if no other guard has its mutex.
  drop_entry-All :
      (s : Locks K) (before after : List (ManagedKeyLock K)) (g : ManagedKeyLock K)
      → s.held ≡ before ++ g ∷ after
      → All (IsRegistered s.locks) before
      → All (IsRegistered s.locks) after
      → All (IsRegistered (drop_entry g s)) before × All (IsRegistered (drop_entry g s)) after
  unfolding drop_entry guard_count
  drop_entry-All s before after g split h k =
      elim (Bool-cases (strong_count g.mutex s == 2 && is_entry g s)) [
        | inr kept ↦ rw (drop_entry, kept) (h, k)
        | inl last ↦
            let found : get g.key s.locks ≡ some g.mutex = ground arith in
            let entries = entry_count-pos g.key g.mutex s.locks found in
            let guards : guard_count g.mutex s.held
                ≡ guard_count g.mutex before + guard_count g.mutex (g ∷ after) =
              ap (guard_count g.mutex) split ∙ guard_count-append g.mutex before (g ∷ after) in
            let none_before : guard_count g.mutex before ≡ 0 = ground (arith, entries, guards) in
            let none_after : guard_count g.mutex after ≡ 0 = ground (arith, entries, guards) in
            rw (drop_entry, last)
              (
                remove-IsRegistered g.key g.mutex s.locks before found none_before h,
                remove-IsRegistered g.key g.mutex s.locks after found none_after k,
              )
      ]

  Step-All :
      {s t : Locks K}
      → Step s t
      → All (IsRegistered s.locks) s.held
      → All (IsRegistered t.locks) t.held
  Step-All (acquire s key) h = lock_for-All key s h
  Step-All (drop s before after g split live) h =
      let parts : All (IsRegistered s.locks) (before ++ g ∷ after) = rw (← split) h in
      let left = All-append_left (IsRegistered s.locks) before (g ∷ after) parts in
      let right = All-append_right (IsRegistered s.locks) before (g ∷ after) parts in
      let (b, a) = drop_entry-All s before after g split left right.1 in
      All-append (IsRegistered (drop_entry g s)) before _ b (λ gone. cc, a)
  Step-All (release s before after g split gone) h =
      let parts : All (IsRegistered s.locks) (before ++ g ∷ after) = rw (← split) h in
      All-append (IsRegistered s.locks) before after
        (All-append_left (IsRegistered s.locks) before (g ∷ after) parts)
        (All-append_right (IsRegistered s.locks) before (g ∷ after) parts).1

  Reach-All : {s : Locks K} → Reach s → All (IsRegistered s.locks) s.held
  Reach-All start = tt
  Reach-All (later r st) = Step-All st (Reach-All r)

  member-IsRegistered :
      (s : Locks K) (before after : List (ManagedKeyLock K)) (g : ManagedKeyLock K)
      → Reach s
      → s.held ≡ before ++ g ∷ after
      → IsRegistered s.locks g
  member-IsRegistered s before after g r split =
      let parts : All (IsRegistered s.locks) (before ++ g ∷ after) = rw (← split) (Reach-All r) in
      (All-append_right (IsRegistered s.locks) before (g ∷ after) parts).0

  -- However tasks take and drop the locks of keys, two guards of one key that are not dropped have the
  -- same mutex.
  pub Reach-mutex :
      (s : Locks K) (before after before' after' : List (ManagedKeyLock K)) (g h : ManagedKeyLock K)
      → Reach s
      → s.held ≡ before ++ g ∷ after
      → s.held ≡ before' ++ h ∷ after'
      → g.dropped ≡ false
      → h.dropped ≡ false
      → g.key ≡ h.key
      → g.mutex ≡ h.mutex
  Reach-mutex s before after before' after' g h r split split' live live' same =
      let found = member-IsRegistered s before after g r split live in
      let found' = member-IsRegistered s before' after' h r split' live' in
      cc (found, found', ap (λ k. get k s.locks) same)
