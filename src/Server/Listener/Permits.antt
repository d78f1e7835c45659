-- ===== src/Server/Listener/Permits.antt =====
-- src/main.rs: the connections of a listener and its permits.
use open_tf_mirror.Base.{
  ℕ, suc, ◌+◌, ◌≤◌, ◌≡◌, ap, ◌∙◌, List, ◌∷◌, ◌++◌, length, length-append, max, arith,
}
use open_tf_mirror.Server.Listener.{
  Connection, opening, serving, closing, Listener, serve_listener, held, leave_loop, OwnStep,
  cancel, own, Step, signal, acquire, accept, accept_failed, resume, shut, opened, close, finish,
  drained, grace_over, aborted, Reach, start, later,
}

abbrev total : Listener → ℕ
total s = s.permits + held s.phase + length s.connections

length-middle :
    {A : Type 0} (before after : List A) (x : A)
    → length (before ++ x ∷ after) ≡ suc (length (before ++ after))
length-middle before after x =
    omega (arith, length-append before (x ∷ after), length-append before after)

same_length :
    (before after : List Connection) (c d : Connection)
    → length (before ++ c ∷ after) ≡ length (before ++ d ∷ after)
same_length before after c d =
    omega (arith, length-middle before after c, length-middle before after d)

OwnStep-total : {s t : Listener} → OwnStep s t → total t ≡ total s
unfolding leave_loop
OwnStep-total (shut s looping asked) = ground arith
OwnStep-total (drained s here empty) = ground arith
OwnStep-total (grace_over s here) = ground arith
OwnStep-total (cancel s before after c here those) =
    omega (arith, ap length those, length-middle before after c)
OwnStep-total (aborted s here empty) = ground arith

-- No step makes or loses a permit.
Step-total : {s t : Listener} → Step s t → total t ≡ total s
Step-total (own step) = OwnStep-total step
Step-total (signal s unasked) = ground arith
Step-total (acquire s permits here some_left) = ground arith
Step-total (accept s here) = ground arith
Step-total (accept_failed s here) = ground arith
Step-total (resume s here) = ground arith
Step-total (opened s before after here) =
    omega (arith, ap length here, same_length before after opening serving)
Step-total (close s before after here asked) =
    omega (arith, ap length here, same_length before after serving closing)
Step-total (finish s before after c here) =
    omega (arith, ap length here, length-middle before after c)

-- However connections come, go and fail, and whenever the shutdown comes: the free permits, the one in
-- the hand of the accepting task and the connections make up the limit, so no more connections are open
-- than the limit, which is at least one.
pub Reach-total :
    (max_connections : ℕ) (s : Listener)
    → Reach max_connections s
    → (s.permits + held s.phase + length s.connections ≡ max max_connections 1)
      × (length s.connections ≤ max max_connections 1)
unfolding serve_listener
Reach-total max_connections s start = ground arith
Reach-total max_connections s (later r step) =
    let (a, b) = Reach-total max_connections _ r in
    (Step-total step ∙ a, omega (arith, Step-total step, a))
