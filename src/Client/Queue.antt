-- ===== src/Client/Queue.antt =====
-- client/response_queue.go: the queue between the receive loop and the consumers. The mutex is held in
-- the part of `push`, `pop` and `close` that a function here models; the signal comes after it, so
-- another goroutine may run in between.
pub mod Steps
use txmlconnector.Common.{
  ℕ, Bool, true, false, Option, none, some, List, [], ◌∷◌, ◌++◌, Bytes, if◌then◌else◌,
}

-- `notify` is a channel of one place: whether its token is there.
pub record ResponseQueue : Type 0 where
  pub messages : List Bytes
  pub notify : Bool
  pub closed : Bool

abbrev pub new_response_queue : ResponseQueue
new_response_queue = record { messages = []; notify = false; closed = false }

-- `push` up to its signal, and whether the message is taken.
abbrev pub push : Bytes → ResponseQueue → ResponseQueue × Bool
push message q =
    if q.closed then (q, false) else (record q { messages = q.messages ++ (message ∷ []) }, true)

abbrev pub close : ResponseQueue → ResponseQueue
close q = record q { closed = true }

abbrev pub signal : ResponseQueue → ResponseQueue
signal q = record q { notify = true }

-- What a round of `pop` finds behind the lock.
pub data Found : Type 0 where
  message : Bytes → Found
  closed_empty : Found
  nothing : Found

abbrev pub found : List Bytes → Bool → Found
found (m ∷ ms) closed = message m
found [] true = closed_empty
found [] false = nothing

abbrev pub rest : List Bytes → List Bytes
rest [] = []
rest (m ∷ ms) = ms

-- One round of `pop` under the lock.
abbrev pub look : ResponseQueue → ResponseQueue × Found
look q = (record q { messages = rest q.messages }, found q.messages q.closed)
