-- ===== src/Registry/Decode/Body.antt =====
-- src/registry.rs: what `decode_json` accepts.
use open_tf_mirror.Base.{
  ℕ, ◌≤◌, ◌<◌, ◌≡◌, ◌↔◌, refl, sym, ap, ◌∙◌, inl, inr, false, not, ltb, List, [], ◌∷◌, ◌++◌,
  append_assoc, append-nil, length, length-append, Option, some, none, Option-cases, Bool-cases,
  Str, ok, guard, >>=-eq-ok, ok_or-eq-ok, saturating_add, u64_max, arith,
}
use open_tf_mirror.Outbound.Client.{Response, is_longer}
use open_tf_mirror.Registry.Decode.{read_body, decode_json}

-- The whole body, if the stream ends without an error.
abbrev pub arrived : List (Option Str) → Option Str
arrived [] = some []
arrived (none ∷ chunks) = none
arrived (some chunk ∷ chunks) = elim (arrived chunks) [
  | none ↦ none
  | some rest ↦ some (chunk ++ rest)
]

read_body_sound :
    (maximum : ℕ) (body : Str) (chunks : List (Option Str)) (whole : Str)
    → maximum < u64_max
    → length body ≤ maximum
    → read_body maximum body chunks ≡ ok whole
    → (rest : Str) × (arrived chunks ≡ some rest)
      × (body ++ rest ≡ whole)
      × (length whole ≤ maximum)
unfolding read_body
read_body_sound maximum body [] whole lt l h =
    let same : body ≡ whole = cc in ([], refl, append-nil body ∙ same, rw (← same) l)
read_body_sound maximum body (none ∷ chunks) whole lt l h = cc
read_body_sound maximum body (some chunk ∷ chunks) whole lt l h =
    elim (Bool-cases (ltb maximum (saturating_add (length body) (length chunk)))) [
      | inl large ↦ absurd (ground arith)
      | inr small ↦
          let within : length (body ++ chunk) ≤ maximum =
            ground (arith, length-append body chunk) in
          let (rest, e, whole_is, few) =
            read_body_sound maximum (body ++ chunk) chunks whole lt within (ground arith) in
          (chunk ++ rest, rw e, sym (append_assoc body chunk rest) ∙ whole_is, few)
    ]

read_body-arrived :
    (maximum : ℕ) (body : Str) (chunks : List (Option Str)) (rest : Str)
    → arrived chunks ≡ some rest
    → length (body ++ rest) ≤ maximum
    → read_body maximum body chunks ≡ ok (body ++ rest)
unfolding read_body
read_body-arrived maximum body [] rest e l =
    let same : [] ≡ rest = cc in rw (← same) (ap ok (sym (append-nil body)))
read_body-arrived maximum body (none ∷ chunks) rest e l = cc
read_body-arrived maximum body (some chunk ∷ chunks) rest e l =
    elim (Option-cases (arrived chunks)) [
      | inl lost ↦ absurd (ground arith)
      | inr (tail, found) ↦
          let same : chunk ++ tail ≡ rest = ground arith in
          let moved : (body ++ chunk) ++ tail ≡ body ++ rest =
            append_assoc body chunk tail ∙ ap (◌++◌ body) same in
          let within : length ((body ++ chunk) ++ tail) ≤ maximum = rw moved l in
          let small : ltb maximum (saturating_add (length body) (length chunk)) ≡ false =
            ground (arith, within, length-append (body ++ chunk) tail, length-append body chunk) in
          rw (read_body, small)
            (read_body-arrived maximum (body ++ chunk) chunks tail found within ∙ ap ok moved)
    ]

-- The announced length and the body are within the limit, and the body is whole and parses.
abbrev pub IsAnswer {ℓ} : {T : Type ℓ} → (Str → Option T) → ℕ → Response → T → Type ℓ
IsAnswer parse maximum response value =
    (is_longer response.content_length maximum ≡ false)
    × ((body : Str) × (arrived response.chunks ≡ some body)
        × (length body ≤ maximum)
        × (parse body ≡ some value))

-- For every parser and every limit below the largest `usize`: `decode_json` gives a value exactly when
-- no length above the limit is announced, the stream ends without an error, the whole body has at most
-- the limit of bytes, and the parser gives the value for the whole body.
pub decode_json_iff {ℓ} :
    {T : Type ℓ} (parse : Str → Option T) (maximum : ℕ) (response : Response) (value : T)
    → maximum < u64_max
    → (decode_json parse maximum response ≡ ok value) ↔ IsAnswer parse maximum response value
unfolding decode_json
decode_json_iff parse maximum response value lt = (
  λ h.
      let (_, g, h₁) = >>=-eq-ok (guard (not (is_longer response.content_length maximum)) _) _ h in
      let (whole, r, h₂) = >>=-eq-ok (read_body maximum [] response.chunks) _ h₁ in
      let (body, e, same, few) =
        read_body_sound maximum [] response.chunks whole lt (omega arith) r in
      (ground arith, (whole, rw (← same) e, few, ok_or-eq-ok (parse whole) _ h₂)),
  λ (short, (body, e, few, parsed)).
      rw (decode_json, short, read_body-arrived maximum [] response.chunks body e few, parsed) refl,
)
