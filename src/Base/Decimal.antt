-- ===== src/Base/Decimal.antt =====
-- Numbers in decimal, as `format!` writes them, and sums of `u64` that stop at the largest.
use Prim.Native.Nat.{ℕ, zero, suc, ◌+◌, ◌/◌, ◌%◌, min}
use mathlib.Core.List.{[], ◌∷◌, ◌++◌}
use open_tf_mirror.Base.Tests.{ltb, if◌then◌else◌}
use open_tf_mirror.Base.Bytes.{Str}

digits : ℕ → ℕ → Str
digits zero n = []
digits (suc fuel) n =
    let rest = digits fuel (n / 10) in
    if ltb n 10 then (b'0' + n) ∷ [] else (rest ++ (b'0' + n % 10) ∷ [])

-- A number has fewer digits than its successor counts.
unfoldable pub decimal : ℕ → Str
unfolding digits
decimal n = digits (suc n) n

abbrev pub u64_max : ℕ
u64_max = 18446744073709551615

-- `saturating_add`
abbrev pub saturating_add : ℕ → ℕ → ℕ
saturating_add a b = min (a + b) u64_max
