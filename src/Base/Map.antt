-- ===== src/Base/Map.antt =====
-- `HashMap` as an association list whose keys differ, over keys with `Eq`.
use Prim.Native.Nat.{◌+◌, ◌≤◌, ◌<◌}
use mathlib.Core.Path.{◌≡◌, refl}
use mathlib.Core.Bool.{Bool, true, false}
use mathlib.Core.List.{List, [], ◌∷◌}
use mathlib.Core.Option.{Option, none, some}
use native.Mathlib.Omega.{arith}
use open_tf_mirror.Base.Tests.{Eq, if◌then◌else◌, beq_refl}
use open_tf_mirror.Base.Lists.{length}

abbrev pub Map {ℓ κ} : Type ℓ → Type κ → Type (ℓ ⊔ κ)
Map K V = List (K × V)

module _ {ℓ κ} {K : Type ℓ} {V : Type κ} ⦃e : Eq K⦄ where
  unfoldable pub get : K → Map K V → Option V
  get k [] = none
  get k ((j, v) ∷ m) = if e.beq j k then some v else get k m

  abbrev pub contains_key : K → Map K V → Bool
  contains_key k m = elim (get k m) [ none ↦ false | some v ↦ true ]

  unfoldable pub insert : K → V → Map K V → Map K V
  insert k v [] = (k, v) ∷ []
  insert k v ((j, w) ∷ m) = if e.beq j k then (k, v) ∷ m else (j, w) ∷ insert k v m

  unfoldable pub remove : K → Map K V → Map K V
  remove k [] = []
  remove k ((j, v) ∷ m) = let rest = remove k m in if e.beq j k then rest else (j, v) ∷ rest

  unfoldable pub retain : (V → Bool) → Map K V → Map K V
  retain p [] = []
  retain p ((j, v) ∷ m) = let rest = retain p m in if p v then (j, v) ∷ rest else rest

  -- No key stands twice.
  abbrev pub IsMap : Map K V → Type κ
  IsMap [] = Unit
  IsMap ((k, v) ∷ m) = (get k m ≡ none) × IsMap m

  pub get-insert :
      (k j : K) (v : V) (m : Map K V)
      → get j (insert k v m) ≡ (if e.beq k j then some v else get j m)
  unfolding get insert
  get-insert k j v [] = refl
  get-insert k j v ((i, w) ∷ m) =
      ground (arith, e.beq_iff k j, e.beq_iff i k, e.beq_iff i j, get-insert k j v m)

  pub get-insert_self : (k : K) (v : V) (m : Map K V) → get k (insert k v m) ≡ some v
  get-insert_self k v m = rw (get-insert k k v m, beq_refl k)

  pub get-remove :
      (k j : K) (m : Map K V) → get j (remove k m) ≡ (if e.beq k j then none else get j m)
  unfolding get remove
  get-remove k j [] = ground arith
  get-remove k j ((i, w) ∷ m) =
      ground (arith, e.beq_iff k j, e.beq_iff i k, e.beq_iff i j, get-remove k j m)

  pub get-remove_self : (k : K) (m : Map K V) → get k (remove k m) ≡ none
  get-remove_self k m = rw (get-remove k k m, beq_refl k)

  pub get-retain-none :
      (p : V → Bool) (k : K) (m : Map K V) → get k m ≡ none → get k (retain p m) ≡ none
  unfolding get retain
  get-retain-none p k [] h = refl
  get-retain-none p k ((i, w) ∷ m) h = ground (arith, get-retain-none p k m)

  -- What `retain` keeps is what was there and passes the test.
  pub get-retain :
      (p : V → Bool) (k : K) (m : Map K V)
      → IsMap m
      → get k (retain p m)
        ≡ elim (get k m) [ none ↦ none | some v ↦ (if p v then some v else none) ]
  unfolding get retain
  get-retain p k [] h = refl
  get-retain p k ((i, w) ∷ m) (new, h) =
      ground (arith, e.beq_iff i k, get-retain p k m h, get-retain-none p i m new)

  pub insert-IsMap : (k : K) (v : V) (m : Map K V) → IsMap m → IsMap (insert k v m)
  unfolding get insert
  insert-IsMap k v [] h = (refl, tt)
  insert-IsMap k v ((i, w) ∷ m) (new, h) =
      ground (arith, e.beq_iff i k, e.beq_iff k i, get-insert k i v m, insert-IsMap k v m h)

  pub remove-IsMap : (k : K) (m : Map K V) → IsMap m → IsMap (remove k m)
  unfolding get remove
  remove-IsMap k [] h = tt
  remove-IsMap k ((i, w) ∷ m) (new, h) = ground (arith, get-remove k i m, remove-IsMap k m h)

  pub retain-IsMap : (p : V → Bool) (m : Map K V) → IsMap m → IsMap (retain p m)
  unfolding retain
  retain-IsMap p [] h = tt
  retain-IsMap p ((i, w) ∷ m) (new, h) =
      ground (arith, get-retain-none p i m new, retain-IsMap p m h)

  pub length-insert-le : (k : K) (v : V) (m : Map K V) → length (insert k v m) ≤ length m + 1
  unfolding insert
  length-insert-le k v [] = omega arith
  length-insert-le k v ((i, w) ∷ m) = ground (arith, length-insert-le k v m)

  pub length-insert_present :
      (k : K) (v w : V) (m : Map K V) → get k m ≡ some w → length (insert k v m) ≡ length m
  unfolding get insert
  length-insert_present k v w [] h = cc
  length-insert_present k v w ((i, u) ∷ m) h = ground (arith, length-insert_present k v w m)

  pub length-remove-le : (k : K) (m : Map K V) → length (remove k m) ≤ length m
  unfolding remove
  length-remove-le k [] = omega arith
  length-remove-le k ((i, w) ∷ m) = ground (arith, length-remove-le k m)

  pub length-remove-lt :
      (k : K) (v : V) (m : Map K V) → get k m ≡ some v → length (remove k m) < length m
  unfolding get remove
  length-remove-lt k v [] h = cc
  length-remove-lt k v ((i, w) ∷ m) h = ground (arith, length-remove-le k m, length-remove-lt k v m)

  pub length-retain-le : (p : V → Bool) (m : Map K V) → length (retain p m) ≤ length m
  unfolding retain
  length-retain-le p [] = omega arith
  length-retain-le p ((i, w) ∷ m) = ground (arith, length-retain-le p m)
