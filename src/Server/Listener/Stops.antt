-- ===== src/Server/Listener/Stops.antt =====
-- src/main.rs: the end of a listener that has left its loop.
use open_tf_mirror.Base.{
  ℕ, suc, ◌+◌, ◌*◌, ◌≤◌, ◌≡◌, ◌⊎◌, inl, inr, refl, ap, true, false, List, [], ◌∷◌, ◌++◌, length,
  arith,
}
use open_tf_mirror.Server.Listener.{
  Connection, opening, serving, closing, Phase, accepting, ready, pausing, draining, aborting,
  stopped, Listener, is_looping, leave_loop, serve_listener, OwnStep, cancel, own, Step, signal,
  acquire, accept, accept_failed, resume, shut, opened, close, finish, drained, grace_over, aborted,
  Reach, start, later,
}

abbrev weight_of : Connection → ℕ
weight_of opening = 3
weight_of serving = 2
weight_of closing = 1

weight : List Connection → ℕ
weight [] = 0
weight (c ∷ cs) = weight_of c + weight cs

weight-middle :
    (before after : List Connection) (c : Connection)
    → weight (before ++ c ∷ after) ≡ weight_of c + weight (before ++ after)
unfolding weight
weight-middle [] after c = refl
weight-middle (b ∷ before) after c = omega (arith, weight-middle before after c)

weight-le : (cs : List Connection) → weight cs ≤ 3 * length cs
unfolding weight
weight-le [] = omega arith
weight-le (opening ∷ cs) = omega (arith, weight-le cs)
weight-le (serving ∷ cs) = omega (arith, weight-le cs)
weight-le (closing ∷ cs) = omega (arith, weight-le cs)

weight-pos : (c : Connection) → 1 ≤ weight_of c
weight-pos opening = omega arith
weight-pos serving = omega arith
weight-pos closing = omega arith

abbrev phase_weight : Phase → ℕ
phase_weight draining = 2
phase_weight aborting = 1
phase_weight _ = 0

phase_weight-le : (phase : Phase) → phase_weight phase ≤ 2
phase_weight-le phase = ground arith

-- How many steps are left at most.
abbrev measure : Listener → ℕ
measure s = weight s.connections + phase_weight s.phase

-- Only the shutdown ends the loop, and it is not taken back.
abbrev IsAsked : Listener → Type 0
IsAsked s = (is_looping s.phase ≡ true) ⊎ (s.shutdown ≡ true)

OwnStep-IsAsked : {s t : Listener} → OwnStep s t → IsAsked s → IsAsked t
unfolding leave_loop
OwnStep-IsAsked (shut s looping asked) h = inr asked
OwnStep-IsAsked (drained s here empty) h = ground arith
OwnStep-IsAsked (grace_over s here) h = ground arith
OwnStep-IsAsked (cancel s before after c here those) h = h
OwnStep-IsAsked (aborted s here empty) h = ground arith

Step-IsAsked : {s t : Listener} → Step s t → IsAsked s → IsAsked t
Step-IsAsked (own step) h = OwnStep-IsAsked step h
Step-IsAsked (signal s unasked) h = inr refl
Step-IsAsked (acquire s permits here some_left) h = inl refl
Step-IsAsked (accept s here) h = inl refl
Step-IsAsked (accept_failed s here) h = inl refl
Step-IsAsked (resume s here) h = inl refl
Step-IsAsked (opened s before after here) h = h
Step-IsAsked (close s before after here asked) h = h
Step-IsAsked (finish s before after c here) h = h

Reach-IsAsked : {max_connections : ℕ} {s : Listener} → Reach max_connections s → IsAsked s
unfolding serve_listener
Reach-IsAsked start = inl refl
Reach-IsAsked (later r step) = Step-IsAsked step (Reach-IsAsked r)

-- Outside the loop after the shutdown.
abbrev IsLeft : Listener → Type 0
IsLeft s = (is_looping s.phase ≡ false) × (s.shutdown ≡ true)

OwnStep-measure :
    {s t : Listener} → OwnStep s t → IsLeft s → (suc (measure t) ≤ measure s) × IsLeft t
OwnStep-measure (shut s looping asked) out = absurd (ground arith)
OwnStep-measure (drained s here empty) out = (ground arith, (refl, out.1))
OwnStep-measure (grace_over s here) out = (ground arith, (refl, out.1))
OwnStep-measure (cancel s before after c here those) out =
    (omega (arith, ap weight those, weight-middle before after c, weight-pos c), out)
OwnStep-measure (aborted s here empty) out = (ground arith, (refl, out.1))

-- Outside the loop no connection comes in, and each step leaves fewer.
Step-measure : {s t : Listener} → Step s t → IsLeft s → (suc (measure t) ≤ measure s) × IsLeft t
Step-measure (own step) out = OwnStep-measure step out
Step-measure (signal s unasked) out = absurd (ground arith)
Step-measure (acquire s permits here some_left) out = absurd (ground arith)
Step-measure (accept s here) out = absurd (ground arith)
Step-measure (accept_failed s here) out = absurd (ground arith)
Step-measure (resume s here) out = absurd (ground arith)
Step-measure (opened s before after here) out = (
  omega (
    arith,
    ap weight here,
    weight-middle before after opening,
    weight-middle before after serving,
  ),
  out,
)
Step-measure (close s before after here asked) out = (
  omega (
    arith,
    ap weight here,
    weight-middle before after serving,
    weight-middle before after closing,
  ),
  out,
)
Step-measure (finish s before after c here) out =
    (omega (arith, ap weight here, weight-middle before after c, weight-pos c), out)

-- A run of so many steps.
pub data Run : ℕ → Listener → Listener → Type 0 where
  rest : (s : Listener) → Run 0 s s
  step : {n : ℕ} {s t u : Listener} → Step s t → Run n t u → Run (suc n) s u

Run-measure :
    {n : ℕ} {s t : Listener} → Run n s t → IsLeft s → (n + measure t ≤ measure s) × IsLeft t
Run-measure (rest s) out = (omega arith, out)
Run-measure (step first run) out =
    let (a, out') = Step-measure first out in
    let (b, out'') = Run-measure run out' in (omega (arith, a, b), out'')

-- Until the end the listener has a step of its own: the grace period passes, or it cancels.
progress_at :
    (s : Listener) (phase : Phase) (cs : List Connection)
    → s.phase ≡ phase
    → s.connections ≡ cs
    → is_looping phase ≡ false
    → (s.phase ≡ stopped) ⊎ ((t : Listener) × OwnStep s t)
progress_at s stopped cs here those out = inl here
progress_at s draining cs here those out = inr (record s { phase = aborting }, grace_over s here)
progress_at s aborting [] here those out = inr (record s { phase = stopped }, aborted s here those)
progress_at s aborting (c ∷ cs) here those out =
    inr (record s { permits = suc s.permits; connections = cs }, cancel s [] cs c here those)
progress_at s accepting cs here those out = cc
progress_at s ready cs here those out = cc
progress_at s pausing cs here those out = cc

-- A listener that has left its loop was asked to shut down. From there, however its connections behave,
-- it takes at most three steps for each of them and two more; and wherever it is on the way, it has
-- stopped, or it has a step of its own, for which no connection has to do anything.
pub Run-stops :
    {max_connections n : ℕ} {s t : Listener}
    → Reach max_connections s
    → is_looping s.phase ≡ false
    → Run n s t
    → (s.shutdown ≡ true)
      × (n ≤ 3 * length s.connections + 2)
      × ((t.phase ≡ stopped) ⊎ ((u : Listener) × OwnStep t u))
Run-stops {max_connections} {n} {s} {t} reached out run =
    let asked : s.shutdown ≡ true = ground (arith, Reach-IsAsked reached) in
    let (few, (out', _)) = Run-measure run (out, asked) in
    (
      asked,
      omega (arith, few, weight-le s.connections, phase_weight-le s.phase),
      progress_at t t.phase t.connections refl refl out',
    )
