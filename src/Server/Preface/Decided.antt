-- ===== src/Server/Preface/Decided.antt =====
-- src/main.rs: when `wait_for_protocol_preface` lets a connection through.
use open_tf_mirror.Base.{
  ℕ, zero, suc, ◌∙◌, ◌≡◌, ◌≢◌, ◌↔◌, inl, inr, refl, sym, ap, true, false, ◌<◌, ◌≤◌, List, [], ◌∷◌,
  ◌++◌, map, take, drop, length, length-take, length-append, take-append, take-append-drop,
  is_empty, All, some, Str, str_beq, str_beq_iff, Bool-cases, arith,
}
use open_tf_mirror.Server.Preface.{
  h2_preface, Event, peeked, peek_failed, shutdown, timeout, read_of, is_decidable,
  wait_for_protocol_preface,
}

-- A proper part of the preface, from its start.
abbrev pub IsPartial : Str → Type 0
IsPartial bytes = (bytes ≢ []) × ((c : ℕ) × (rest : Str) × (h2_preface ≡ bytes ++ c ∷ rest))

abbrev pub IsDecided : Str → Type 0
IsDecided bytes = (bytes ≢ []) × ¬ IsPartial bytes

drop_cases :
    {A : Type 0} (n : ℕ) (xs : List A)
    → n < length xs
    → (x : A) × (rest : List A) × (drop n xs ≡ x ∷ rest)
drop_cases zero [] h = absurd (omega arith)
drop_cases zero (x ∷ xs) h = (x, xs, refl)
drop_cases (suc n) [] h = absurd (omega arith)
drop_cases (suc n) (x ∷ xs) h = drop_cases n xs (omega arith)

undecidable-IsPartial :
    (bytes : Str) → bytes ≢ [] → length bytes ≤ 24 → is_decidable bytes ≡ false → IsPartial bytes
unfolding is_decidable
undecidable-IsPartial bytes ne short h =
    let same : bytes ≡ take (length bytes) h2_preface = (str_beq_iff bytes _).0 (ground arith) in
    let less : length bytes < length h2_preface = ground arith in
    let (c, rest, e) = drop_cases (length bytes) h2_preface less in
    (ne, (c, rest, sym (take-append-drop (length bytes) h2_preface) ∙ (λ i. sym same i ++ e i)))

IsPartial-undecidable : (bytes : Str) → IsPartial bytes → is_decidable bytes ≡ false
unfolding is_decidable
IsPartial-undecidable bytes (ne, (c, rest, e)) =
    let sizes : length h2_preface ≡ length (bytes ++ c ∷ rest) = ap length e in
    let less : length bytes < 24 = omega (arith, sizes, length-append bytes (c ∷ rest)) in
    let start : take (length bytes) h2_preface ≡ bytes =
      ap (take (length bytes)) e ∙ take-append bytes (c ∷ rest) in
    let same : str_beq bytes (take (length bytes) h2_preface) ≡ true =
      (str_beq_iff bytes (take (length bytes) h2_preface)).1 (sym start) in
    ground arith

read_of-short : (available : Str) → length (read_of available) ≤ 24
read_of-short available = omega (arith, length-take 24 available)

read_of-ne : (available : Str) → is_empty available ≡ false → read_of available ≢ []
read_of-ne [] h = cc
read_of-ne (c ∷ s) h = λ e. cc

-- The waits so far, each with a part of the preface, and then bytes that tell.
abbrev pub IsLetThrough : List Event → Type 0
IsLetThrough events =
    (parts : List Str) × (last : Str) × (rest : List Event) × (events
      ≡ map peeked parts ++ peeked last ∷ rest)
    × All (λ part. IsPartial (read_of part)) parts
    × IsDecided (read_of last)

wait-IsLetThrough :
    (events : List Event) → wait_for_protocol_preface events ≡ some true → IsLetThrough events
unfolding wait_for_protocol_preface
wait-IsLetThrough [] h = cc
wait-IsLetThrough (shutdown ∷ events) h = absurd (ground arith)
wait-IsLetThrough (timeout ∷ events) h = absurd (ground arith)
wait-IsLetThrough (peek_failed ∷ events) h = absurd (ground arith)
wait-IsLetThrough (peeked available ∷ events) h = elim (Bool-cases (is_empty available)) [
  | inl gone ↦ absurd (ground arith)
  | inr there ↦
      let ne = read_of-ne available there in
      elim (Bool-cases (is_decidable (read_of available))) [
        | inl told ↦ (
          [],
          available,
          events,
          refl,
          tt,
          (
            ne,
            λ part.
                let no = IsPartial-undecidable (read_of available) part in absurd (ground arith),
          ),
        )
        | inr waits ↦
            let (parts, last, rest, e, a, d) = wait-IsLetThrough events (ground arith) in
            (
              available ∷ parts,
              last,
              rest,
              ap (◌∷◌ (peeked available)) e,
              (undecidable-IsPartial (read_of available) ne (read_of-short available) waits, a),
              d,
            )
      ]
]

IsPartial-there : (available : Str) → read_of available ≢ [] → is_empty available ≡ false
IsPartial-there [] ne = absurd (ne refl)
IsPartial-there (c ∷ s) ne = refl

let_through-wait :
    (parts : List Str) (last : Str) (rest : List Event)
    → All (λ part. IsPartial (read_of part)) parts
    → IsDecided (read_of last)
    → wait_for_protocol_preface (map peeked parts ++ peeked last ∷ rest) ≡ some true
unfolding wait_for_protocol_preface
let_through-wait [] last rest a (ne, whole) = elim (Bool-cases (is_decidable (read_of last))) [
  | inl told ↦ rw (IsPartial-there last ne, told)
  | inr waits ↦ absurd (whole (undecidable-IsPartial (read_of last) ne (read_of-short last) waits))
]
let_through-wait (part ∷ parts) last rest (p, a) d =
    rw (IsPartial-there part p.0, IsPartial-undecidable (read_of part) p)
      (let_through-wait parts last rest a d)

-- A connection is let through exactly if, before the shutdown, the timeout and any failed look, a look
-- finds bytes that are no proper part of the HTTP/2 preface, and each look before it found such a part.
pub wait_for_protocol_preface_iff :
    (events : List Event) → (wait_for_protocol_preface events ≡ some true) ↔ IsLetThrough events
wait_for_protocol_preface_iff events = (
  wait-IsLetThrough events,
  λ (parts, last, rest, e, a, d). rw e (let_through-wait parts last rest a d),
)
