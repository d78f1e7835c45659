-- ===== src/Base/Bytes.antt =====
-- `str` as the list of its UTF-8 bytes, with the methods of the standard library that the code uses.
use Prim.Native.Nat.{ℕ, zero, suc}
use Prim.Native.Char.{code}
use Prim.Native.String.{String}
use mathlib.Core.Path.{◌≡◌, refl, sym, ap, ◌∙◌}
use mathlib.Core.Logic.{◌↔◌, ◌≢◌, inl, inr}
use mathlib.Core.Bool.{Bool, true, false, ◌&&◌, ◌||◌}
use mathlib.Core.List.{List, [], ◌∷◌, ◌++◌, reverse, reverse-append, reverse-reverse}
use mathlib.Core.Option
use mathlib.Core.Option.{Option, none, some}
use native.Mathlib.Omega.{arith}
use open_tf_mirror.Base.Tests.{leb, ◌==◌, if◌then◌else◌, Eq, Option-cases, Bool-cases}
use open_tf_mirror.Base.Lists.{All}

abbrev pub Str : Type 0
Str = List ℕ

-- The bytes of an ASCII literal.
abbrev pub codes : String → Str
codes String.[] = []
codes (String.◌∷◌ c s) = code c ∷ codes s

abbrev pub str_beq : Str → Str → Bool
str_beq [] [] = true
str_beq (a ∷ s) (b ∷ t) = a == b && str_beq s t
str_beq _ _ = false

pub str_beq_iff : (s t : Str) → (str_beq s t ≡ true) ↔ (s ≡ t)
str_beq_iff [] [] = ground arith
str_beq_iff (a ∷ s) (b ∷ t) = ground (arith, str_beq_iff s t)
str_beq_iff s t = ground arith

instance abbrev pub str_eq : Eq Str
str_eq = record { beq = str_beq; beq_iff = str_beq_iff }

abbrev pub is_ascii_lowercase : ℕ → Bool
is_ascii_lowercase c = leb b'a' c && leb c b'z'

abbrev pub is_ascii_uppercase : ℕ → Bool
is_ascii_uppercase c = leb b'A' c && leb c b'Z'

abbrev pub is_ascii_digit : ℕ → Bool
is_ascii_digit c = leb b'0' c && leb c b'9'

abbrev pub is_ascii_alphanumeric : ℕ → Bool
is_ascii_alphanumeric c = is_ascii_lowercase c || is_ascii_uppercase c || is_ascii_digit c

abbrev pub is_ascii_hexdigit : ℕ → Bool
is_ascii_hexdigit c = is_ascii_digit c || (leb b'a' c && leb c b'f') || (leb b'A' c && leb c b'F')

-- `strip_prefix`
unfoldable pub strip_prefix : Str → Str → Option Str
strip_prefix [] s = some s
strip_prefix (p ∷ ps) [] = none
strip_prefix (p ∷ ps) (c ∷ s) = if p == c then strip_prefix ps s else none

pub strip_prefix_sound : (p s r : Str) → strip_prefix p s ≡ some r → s ≡ p ++ r
unfolding strip_prefix
strip_prefix_sound [] s r h = ground arith
strip_prefix_sound (p ∷ ps) [] r h = cc
strip_prefix_sound (p ∷ ps) (c ∷ s) r h = ground (arith, strip_prefix_sound ps s r)

pub strip_prefix-append : (p r : Str) → strip_prefix p (p ++ r) ≡ some r
unfolding strip_prefix
strip_prefix-append [] r = refl
strip_prefix-append (p ∷ ps) r = ground (arith, strip_prefix-append ps r)

-- `strip_suffix`
unfoldable pub strip_suffix : Str → Str → Option Str
strip_suffix p s = Option.map reverse (strip_prefix (reverse p) (reverse s))

pub strip_suffix_sound : (p s r : Str) → strip_suffix p s ≡ some r → s ≡ r ++ p
unfolding strip_suffix
strip_suffix_sound p s r h =
    let (r', found, same) = (Option.map-eq-some_iff _ _).0 h in
    let e = strip_prefix_sound (reverse p) (reverse s) r' found in
    sym (reverse-reverse s)
    ∙ ap reverse e
    ∙ reverse-append (reverse p) r'
    ∙ rw (reverse-reverse p, same)

pub strip_suffix-append : (p r : Str) → strip_suffix p (r ++ p) ≡ some r
unfolding strip_suffix
strip_suffix-append p r = rw (reverse-append, strip_prefix-append) (rw reverse-reverse)

abbrev pub Lacks : ℕ → Str → Type 0
Lacks sep [] = Unit
Lacks sep (c ∷ s) = (c ≢ sep) × Lacks sep s

-- The parts before and after the last separator.
unfoldable pub rsplit_once : ℕ → Str → Option (Str × Str)
rsplit_once sep [] = none
rsplit_once sep (c ∷ s) = elim (rsplit_once sep s) [
  | some (l, r) ↦ some (c ∷ l, r)
  | none ↦ if c == sep then some ([], s) else none
]

rsplit_once-none : (sep : ℕ) (s : Str) → rsplit_once sep s ≡ none → Lacks sep s
unfolding rsplit_once
rsplit_once-none sep [] h = tt
rsplit_once-none sep (c ∷ s) h = ground (arith, rsplit_once-none sep s)

rsplit_once-Lacks : (sep : ℕ) (s : Str) → Lacks sep s → rsplit_once sep s ≡ none
unfolding rsplit_once
rsplit_once-Lacks sep [] h = refl
rsplit_once-Lacks sep (c ∷ s) (p, h) = rw (rsplit_once-Lacks sep s h) (ground arith)

pub rsplit_once_sound :
    (sep : ℕ) (s l r : Str) → rsplit_once sep s ≡ some (l, r) → (s ≡ l ++ sep ∷ r) × Lacks sep r
unfolding rsplit_once
rsplit_once_sound sep [] l r h = cc
rsplit_once_sound sep (c ∷ s) l r h = elim (Option-cases (rsplit_once sep s)) [
  | inl e ↦ ground (arith, rsplit_once-none sep s e)
  | inr ((l', r'), e) ↦ ground (arith, rsplit_once_sound sep s l' r' e)
]

pub rsplit_once-append :
    (sep : ℕ) (l r : Str) → Lacks sep r → rsplit_once sep (l ++ sep ∷ r) ≡ some (l, r)
unfolding rsplit_once
rsplit_once-append sep [] r h = rw (rsplit_once-Lacks sep r h) (ground arith)
rsplit_once-append sep (c ∷ l) r h = rw (rsplit_once-append sep l r h)

-- `rsplitn(n, sep)`: the parts from the right, the last of which is all that is left.
unfoldable pub rsplitn : ℕ → ℕ → Str → List Str
rsplitn zero sep s = []
rsplitn (suc zero) sep s = s ∷ []
rsplitn (suc (suc n)) sep s = elim (rsplit_once sep s) [
  | none ↦ s ∷ []
  | some (l, r) ↦ r ∷ rsplitn (suc n) sep l
]

push_head : ℕ → List Str → List Str
push_head c [] = (c ∷ []) ∷ []
push_head c (part ∷ parts) = (c ∷ part) ∷ parts

-- `split(sep)`
unfoldable pub split : ℕ → Str → List Str
unfolding push_head
split sep [] = [] ∷ []
split sep (c ∷ s) = let parts = split sep s in if c == sep then [] ∷ parts else push_head c parts

push_head-Lacks :
    (other c : ℕ) (parts : List Str)
    → All (Lacks other) (push_head c parts)
    → (c ≢ other) × All (Lacks other) parts
unfolding push_head
push_head-Lacks other c [] ((h, _), k) = (h, tt)
push_head-Lacks other c (part ∷ parts) ((h, k), l) = (h, (k, l))

-- A byte that is in no part and is not the separator is not in the whole.
pub split-Lacks :
    (sep other : ℕ) (s : Str) → sep ≢ other → All (Lacks other) (split sep s) → Lacks other s
unfolding split
split-Lacks sep other [] h k = tt
split-Lacks sep other (c ∷ s) h k = elim (Bool-cases (c == sep)) [
  | inl here ↦
      let rest = (rw (here, split) at k).1 in (ground arith, split-Lacks sep other s h rest)
  | inr there ↦
      let (ne, rest) = push_head-Lacks other c (split sep s) (rw (there, split) at k) in
      (ne, split-Lacks sep other s h rest)
]
