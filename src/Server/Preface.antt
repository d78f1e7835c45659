-- ===== src/Server/Preface.antt =====
-- src/main.rs: `wait_for_protocol_preface`. What the task meets while it waits comes as a list: each
-- `peek` that returns, with the bytes that are there, and the first of the shutdown and the timeout.
-- The pause between two looks is part of the wait.
pub mod Decided
use open_tf_mirror.Base.{
  ℕ, Bool, true, false, not, ◌&&◌, ◌||◌, ◌==◌, List, [], ◌∷◌, ◌++◌, take, length, is_empty, Option,
  some, none, Str, str_beq, codes, if◌then◌else◌,
}

-- The 24 bytes that an HTTP/2 client sends first.
abbrev pub h2_preface : Str
h2_preface = codes "PRI * HTTP/2.0" ++ 13 ∷ 10 ∷ 13 ∷ 10 ∷ b'S' ∷ b'M' ∷ 13 ∷ 10 ∷ 13 ∷ 10 ∷ []

pub data Event : Type 0 where
  peeked : (available : Str) → Event
  peek_failed shutdown timeout : Event

abbrev pub read_of : Str → Str
read_of available = take 24 available

-- Whether the bytes that were read tell the protocol.
unfoldable pub is_decidable : Str → Bool
is_decidable bytes = (length bytes == 24) || not (str_beq bytes (take (length bytes) h2_preface))

-- `none` while the task waits.
unfoldable pub wait_for_protocol_preface : List Event → Option Bool
wait_for_protocol_preface [] = none
wait_for_protocol_preface (shutdown ∷ events) = some false
wait_for_protocol_preface (timeout ∷ events) = some false
wait_for_protocol_preface (peek_failed ∷ events) = some false
wait_for_protocol_preface (peeked available ∷ events) =
    let rest = wait_for_protocol_preface events in
    if is_empty available
    then some false
    else if is_decidable (read_of available)
    then some true
    else rest
