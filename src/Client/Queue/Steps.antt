-- ===== src/Client/Queue/Steps.antt =====
-- The interleavings of the pushing goroutines, the closing one and the one consumer.
use txmlconnector.Common.{
  ℕ, Bool-cases, inl, inr, arith, suc, ◌≡◌, refl, sym, ap, ◌∙◌, Bool, true, false, ◌||◌, List, [],
  ◌∷◌, ◌++◌, append_assoc, Bytes, ltb, if◌then◌else◌,
}
use mathlib.Core.Path.{subst}
use txmlconnector.Client.Queue.{
  ResponseQueue, new_response_queue, push, close, signal, Found, message, closed_empty, nothing,
  found, look,
}

-- Where the consumer is: outside of `pop`, at the lock, or waiting for the token.
pub data Consumer : Type 0 where
  away locking waiting : Consumer

-- The queue, the signals that are still to come, the consumer, and the messages taken in and handed out
-- so far.
pub record System : Type 0 where
  pub queue : ResponseQueue
  pub pending : ℕ
  pub consumer : Consumer
  pub accepted : List Bytes
  pub delivered : List Bytes

abbrev pub started : System
started = record {
  queue = new_response_queue;
  pending = 0;
  consumer = away;
  accepted = [];
  delivered = [];
}

abbrev pub pushed : Bytes → System → System
pushed m s = if s.queue.closed then s else record s {
  queue = (push m s.queue).0;
  pending = suc s.pending;
  accepted = s.accepted ++ (m ∷ []);
}

-- What `pop` does with what it found.
abbrev pub settled : Found → System → System
settled (message m) s = record s {
  queue = (look s.queue).0;
  consumer = away;
  delivered = s.delivered ++ (m ∷ []);
}
settled closed_empty s = record s { consumer = away }
settled nothing s = record s { consumer = waiting }

pub data Step : System → System → Type 0 where
  pushes : (m : Bytes) (s : System) → Step s (pushed m s)
  closes : (s : System) → Step s (record s { queue = close s.queue; pending = suc s.pending })
  signals :
      (s : System) (n : ℕ)
      → s.pending ≡ suc n
      → Step s (record s { queue = signal s.queue; pending = n })
  enters : (s : System) → s.consumer ≡ away → Step s (record s { consumer = locking })
  looks : (s : System) → s.consumer ≡ locking → Step s (settled (look s.queue).1 s)
  wakes :
      (s : System)
      → s.consumer ≡ waiting
      → s.queue.notify ≡ true
      → Step s (record s { queue = record (s.queue) { notify = false }; consumer = locking })
  leaves : (s : System) → Step s (record s { consumer = away })

pub data Reachable : System → Type 0 where
  start : Reachable started
  step : (s t : System) → Reachable s → Step s t → Reachable t

abbrev is_empty : List Bytes → Bool
is_empty [] = true
is_empty (m ∷ ms) = false

-- There is something for the consumer to find.
abbrev pub ready : ResponseQueue → Bool
ready q = elim (found q.messages q.closed) [
  | message m ↦ true
  | closed_empty ↦ true
  | nothing ↦ false
]

-- The token is there, or a goroutine is about to put it.
abbrev pub armed : System → Bool
armed s = s.queue.notify || ltb 0 s.pending

pub record IsSound (s : System) : Type 0 where
  pub in_order : s.accepted ≡ s.delivered ++ s.queue.messages
  pub awake : s.consumer ≡ waiting → ready s.queue ≡ true → armed s ≡ true

armed_soon : (n : Bool) (p : ℕ) → (n || ltb 0 (suc p)) ≡ true
armed_soon true p = refl
armed_soon false p = ground arith

pushed-IsSound : (m : Bytes) (s : System) → IsSound s → IsSound (pushed m s)
pushed-IsSound m s i = elim (Bool-cases s.queue.closed) [
  | inl e ↦
      subst IsSound
        (sym (
          ap
            (λ (b : Bool). if b then s else record s {
              queue = (push m s.queue).0;
              pending = suc s.pending;
              accepted = s.accepted ++ (m ∷ []);
            })
            e))
        i
  | inr e ↦ rw e (record {
    in_order =
        ap (λ x. x ++ (m ∷ [])) i.in_order ∙ append_assoc s.delivered s.queue.messages (m ∷ []);
    awake = λ c r. armed_soon s.queue.notify s.pending;
  })
]

abbrev system : List Bytes → Bool → Bool → ℕ → Consumer → List Bytes → List Bytes → System
system ms n c p w acc del = record {
  queue = record { messages = ms; notify = n; closed = c };
  pending = p;
  consumer = w;
  accepted = acc;
  delivered = del;
}

settled-IsSound :
    (ms : List Bytes) (n c : Bool) (p : ℕ) (w : Consumer) (acc del : List Bytes)
    → acc ≡ del ++ ms
    → IsSound (settled (found ms c) (system ms n c p w acc del))
settled-IsSound (m ∷ ms) n c p w acc del h = record {
  in_order = h ∙ sym (append_assoc del (m ∷ []) ms);
  awake = λ q r. cc;
}
settled-IsSound [] n true p w acc del h = record { in_order = h; awake = λ q r. cc }
settled-IsSound [] n false p w acc del h = record { in_order = h; awake = λ q r. cc }

Step-IsSound : {s t : System} → Step s t → IsSound s → IsSound t
Step-IsSound (pushes m s) i = pushed-IsSound m s i
Step-IsSound (closes s) i = record {
  in_order = i.in_order;
  awake = λ c r. armed_soon s.queue.notify s.pending;
}
Step-IsSound (signals s n e) i = record { in_order = i.in_order; awake = λ c r. refl }
Step-IsSound (enters s e) i = record { in_order = i.in_order; awake = λ c r. cc }
Step-IsSound (looks s e) i =
    settled-IsSound s.queue.messages s.queue.notify s.queue.closed s.pending s.consumer s.accepted
      s.delivered i.in_order
Step-IsSound (wakes s e f) i = record { in_order = i.in_order; awake = λ c r. cc }
Step-IsSound (leaves s) i = record { in_order = i.in_order; awake = λ c r. cc }

-- In every interleaving, the messages taken in are those handed out and then those in the queue, in the
-- order of the pushes; and a consumer that waits while there is a message or the queue is closed has its
-- token there, or a goroutine is about to put it.
pub Reachable-IsSound : {s : System} → Reachable s → IsSound s
Reachable-IsSound start = record { in_order = refl; awake = λ c r. cc }
Reachable-IsSound (step s t h k) = Step-IsSound k (Reachable-IsSound h)
