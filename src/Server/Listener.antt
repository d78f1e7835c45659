-- ===== src/Server/Listener.antt =====
-- src/main.rs: `serve_listener` with its connections, as the steps of the accepting task and of the
-- connections in any order. `select!` may take any branch that is ready; the semaphore is never closed.
pub mod Permits
pub mod Stops
use open_tf_mirror.Base.{ℕ, suc, ◌+◌, ◌≤◌, ◌≡◌, Bool, true, false, List, [], ◌∷◌, ◌++◌, max}

-- Where a connection's task is: it waits for the TLS handshake or for the first bytes, serves, or
-- ends its requests after the shutdown. It holds its permit until it is done.
pub data Connection : Type 0 where
  opening serving closing : Connection

-- Where the accepting task is: before `acquire_owned`, at `accept` with a permit, in the pause after a
-- failed `accept`, which still holds the permit, and after the loop.
pub data Phase : Type 0 where
  accepting ready pausing draining aborting stopped : Phase

pub record Listener : Type 0 where
  pub phase : Phase
  pub permits : ℕ
  pub connections : List Connection
  pub shutdown : Bool

-- `Semaphore::new(max_connections.max(1))`
unfoldable pub serve_listener : (max_connections : ℕ) → Listener
serve_listener max_connections = record {
  phase = accepting;
  permits = max max_connections 1;
  connections = [];
  shutdown = false;
}

-- The permit that the accepting task holds.
abbrev pub held : Phase → ℕ
held ready = 1
held pausing = 1
held _ = 0

abbrev pub is_looping : Phase → Bool
is_looping accepting = true
is_looping ready = true
is_looping pausing = true
is_looping _ = false

-- After `break` the permit at hand is given back.
unfoldable pub leave_loop : Listener → Listener
leave_loop s = record s { phase = draining; permits = s.permits + held s.phase }

-- What the listener does by itself, whatever its connections do: it sees the shutdown, all its
-- connections are gone, the grace period passes, and `abort_all` cancels a connection.
pub data OwnStep : Listener → Listener → Type 0 where
  shut : (s : Listener) → is_looping s.phase ≡ true → s.shutdown ≡ true → OwnStep s (leave_loop s)
  drained :
      (s : Listener)
      → s.phase ≡ draining
      → s.connections ≡ []
      → OwnStep s (record s { phase = stopped })
  grace_over : (s : Listener) → s.phase ≡ draining → OwnStep s (record s { phase = aborting })
  cancel :
      (s : Listener) (before after : List Connection) (c : Connection)
      → s.phase ≡ aborting
      → s.connections ≡ before ++ c ∷ after
      → OwnStep s (record s { permits = suc s.permits; connections = before ++ after })
  aborted :
      (s : Listener)
      → s.phase ≡ aborting
      → s.connections ≡ []
      → OwnStep s (record s { phase = stopped })

-- A connection may stay where it is for ever; `finish` is its end by itself.
pub data Step : Listener → Listener → Type 0 where
  own : {s t : Listener} → OwnStep s t → Step s t
  signal : (s : Listener) → s.shutdown ≡ false → Step s (record s { shutdown = true })
  acquire :
      (s : Listener) (permits : ℕ)
      → s.phase ≡ accepting
      → s.permits ≡ suc permits
      → Step s (record s { phase = ready; permits = permits })
  accept :
      (s : Listener)
      → s.phase ≡ ready
      → Step s (record s { phase = accepting; connections = opening ∷ s.connections })
  accept_failed : (s : Listener) → s.phase ≡ ready → Step s (record s { phase = pausing })
  resume :
      (s : Listener)
      → s.phase ≡ pausing
      → Step s (record s { phase = accepting; permits = suc s.permits })
  opened :
      (s : Listener) (before after : List Connection)
      → s.connections ≡ before ++ opening ∷ after
      → Step s (record s { connections = before ++ serving ∷ after })
  close :
      (s : Listener) (before after : List Connection)
      → s.connections ≡ before ++ serving ∷ after
      → s.shutdown ≡ true
      → Step s (record s { connections = before ++ closing ∷ after })
  finish :
      (s : Listener) (before after : List Connection) (c : Connection)
      → s.connections ≡ before ++ c ∷ after
      → Step s (record s { permits = suc s.permits; connections = before ++ after })

pub data Reach (max_connections : ℕ) : Listener → Type 0 where
  start : Reach max_connections (serve_listener max_connections)
  later : {s t : Listener} → Reach max_connections s → Step s t → Reach max_connections t
