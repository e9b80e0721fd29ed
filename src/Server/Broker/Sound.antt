-- ===== src/Server/Broker/Sound.antt =====
-- Whatever the goroutines do, no channel is closed twice, none is over-full, and the ids differ.
use txmlconnector.Common.{
  ℕ, suc, ◌+◌, ◌^◌, ◌≤◌, ◌<◌, ◌≡◌, refl, ap, arith, Bool, true, false, List, [], ◌∷◌, ◌++◌, Bytes,
}
use txmlconnector.Common.{
  All, All-append, Bool-cases, inl, inr, length, length-append, length-drop, drop, ltb→lt, ◌==◌,
  if◌then◌else◌,
}
use txmlconnector.Server.Broker.{
  Subscription, Broker, new_broker, finished, new_subscription, raised, subscribe, has_room,
  offered, detached, deliver, publish, finish_all, close, without, unsubscribe, received, receive,
}

-- What goes on, in any order.
pub data Step : Broker → Broker → Type 0 where
  subscribes : (buffer : ℕ) (b : Broker) → b.next_id + 1 < 2 ^ 64 → Step b (subscribe buffer b)
  publishes : (m : Bytes) (b : Broker) → Step b (publish m b)
  closes : (b : Broker) → Step b (close b)
  unsubscribes : (id : ℕ) (b : Broker) → Step b (unsubscribe id b)
  receives : (id : ℕ) (b : Broker) → Step b (receive id b)

pub data Arises : Broker → Type 0 where
  starts : Arises new_broker
  steps : {b b' : Broker} → Arises b → Step b b' → Arises b'

-- A subscription whose channel was closed so often, with an id up to `n`.
abbrev pub IsOpen : ℕ → ℕ → Subscription → Type 0
IsOpen times n s = (s.done ≡ times) × (s.id ≤ n) × (1 ≤ s.room) × (length s.messages ≤ s.room)

-- Newer subscriptions stand first.
abbrev pub IsOrdered : List Subscription → Type 0
IsOrdered [] = Unit {0}
IsOrdered (s ∷ ss) = All (λ t. t.id < s.id) ss × IsOrdered ss

-- Each channel of the map is open, and each other one was closed once.
pub record IsSound (b : Broker) : Type 0 where
  pub in_map : All (IsOpen 0 b.next_id) b.subscribers
  pub off_map : All (IsOpen 1 b.next_id) b.others
  pub distinct : IsOrdered b.subscribers
  pub empty_closed : b.closed ≡ true → b.subscribers ≡ []

pub deliver-All :
    (P Q R : Subscription → Type 0) (m : Bytes)
    → ((s : Subscription) → has_room s ≡ true → P s → Q (offered m s))
    → ((s : Subscription) → P s → R (detached s))
    → (ss : List Subscription) → All P ss
    → All Q (deliver m ss).0 × All R (deliver m ss).1
unfolding deliver
deliver-All P Q R m o d [] h = (tt, tt)
deliver-All P Q R m o d (s ∷ ss) (h, hs) =
    let (q, r) = deliver-All P Q R m o d ss hs in
    elim (Bool-cases (has_room s)) [ inl e ↦ rw e ((o s e h, q), r) | inr e ↦ rw e (q, (d s h, r)) ]

pub without-All :
    (P : Subscription → Type 0) (id : ℕ) (ss : List Subscription)
    → All P ss
    → All P (without id ss).0 × All P (without id ss).1
unfolding without
without-All P id [] h = (tt, tt)
without-All P id (s ∷ ss) (h, hs) =
    let (f, l) = without-All P id ss hs in
    elim (Bool-cases (s.id == id)) [ inl e ↦ rw e ((h, f), l) | inr e ↦ rw e (f, (h, l)) ]

finish_all-All :
    (P Q : Subscription → Type 0)
    → ((s : Subscription) → P s → Q (finished s))
    → (ss : List Subscription) → All P ss
    → All Q (finish_all ss)
unfolding finish_all
finish_all-All P Q f [] h = tt
finish_all-All P Q f (s ∷ ss) (h, hs) = (f s h, finish_all-All P Q f ss hs)

pub received-All :
    (P : Subscription → Type 0) (id : ℕ)
    → ((s : Subscription) → P s → P (record s { messages = drop 1 s.messages }))
    → (ss : List Subscription) → All P ss
    → All P (received id ss)
unfolding received
received-All P id f [] h = tt
received-All P id f (s ∷ ss) (h, hs) =
    let rest = received-All P id f ss hs in
    elim (Bool-cases (s.id == id)) [ inl e ↦ rw e (f s h, rest) | inr e ↦ rw e (h, rest) ]

deliver-IsOrdered : (m : Bytes) (ss : List Subscription) → IsOrdered ss → IsOrdered (deliver m ss).0
unfolding deliver
deliver-IsOrdered m [] h = tt
deliver-IsOrdered m (s ∷ ss) (h, hs) =
    let below =
      deliver-All (λ t. t.id < s.id) (λ t. t.id < s.id) (λ t. Unit {0}) m (λ t e k. k) (λ t k. tt)
        ss h in
    elim (Bool-cases (has_room s)) [
      | inl e ↦ rw e (below.0, deliver-IsOrdered m ss hs)
      | inr e ↦ rw e (deliver-IsOrdered m ss hs)
    ]

without-IsOrdered : (id : ℕ) (ss : List Subscription) → IsOrdered ss → IsOrdered (without id ss).1
unfolding without
without-IsOrdered id [] h = tt
without-IsOrdered id (s ∷ ss) (h, hs) = elim (Bool-cases (s.id == id)) [
  | inl e ↦ rw e (without-IsOrdered id ss hs)
  | inr e ↦ rw e ((without-All (λ t. t.id < s.id) id ss h).1, without-IsOrdered id ss hs)
]

received-IsOrdered : (id : ℕ) (ss : List Subscription) → IsOrdered ss → IsOrdered (received id ss)
unfolding received
received-IsOrdered id [] h = tt
received-IsOrdered id (s ∷ ss) (h, hs) =
    let below = received-All (λ t. t.id < s.id) id (λ t k. k) ss h in
    elim (Bool-cases (s.id == id)) [
      | inl e ↦ rw e (below, received-IsOrdered id ss hs)
      | inr e ↦ rw e (below, received-IsOrdered id ss hs)
    ]

offered-IsOpen :
    (m : Bytes) (n : ℕ) (s : Subscription)
    → has_room s ≡ true
    → IsOpen 0 n s
    → IsOpen 0 n (offered m s)
offered-IsOpen m n s e (d, i, r, l) =
    (d, i, r, omega (arith, length-append s.messages (m ∷ []), ltb→lt (length s.messages) s.room e))

detached-IsOpen : (n : ℕ) (s : Subscription) → IsOpen 0 n s → IsOpen 1 n (detached s)
detached-IsOpen n s (d, i, r, l) = (ap (λ x. suc x) d, i, r, l)

finished-IsOpen : (n : ℕ) (s : Subscription) → IsOpen 0 n s → IsOpen 1 n (finished s)
finished-IsOpen n s (d, i, r, l) = (ap (λ x. suc x) d, i, r, l)

shorter-IsOpen :
    (k n : ℕ) (s : Subscription)
    → IsOpen k n s
    → IsOpen k n (record s { messages = drop 1 s.messages })
shorter-IsOpen k n s (d, i, r, l) = (d, i, r, omega (arith, l, length-drop 1 s.messages))

-- An open subscription of a smaller id.
raise-IsOpen : (k n : ℕ) (ss : List Subscription) → All (IsOpen k n) ss → All (IsOpen k (n + 1)) ss
raise-IsOpen k n [] h = tt
raise-IsOpen k n (s ∷ ss) ((d, i, r, l), hs) = ((d, omega (arith, i), r, l), raise-IsOpen k n ss hs)

pub below_next : (n : ℕ) (ss : List Subscription) → All (IsOpen 0 n) ss → All (λ t. t.id < n + 1) ss
below_next n [] h = tt
below_next n (s ∷ ss) ((d, i, r, l), hs) = (omega (arith, i), below_next n ss hs)

new-IsOpen : (id buffer : ℕ) → IsOpen 0 id (new_subscription id buffer)
new-IsOpen id buffer = (refl, omega arith, ground arith, omega arith)

pub subscribe-IsSound :
    (buffer : ℕ) (b : Broker) → b.next_id + 1 < 2 ^ 64 → IsSound b → IsSound (subscribe buffer b)
unfolding subscribe
subscribe-IsSound buffer b small s =
    let next : raised b ≡ b.next_id + 1 = omega (arith, small) in
    let others = raise-IsOpen 1 b.next_id b.others s.off_map in
    let fresh = new-IsOpen (b.next_id + 1) buffer in
    rw (next, subscribe)
      (elim (Bool-cases b.closed) [
        | inl e ↦ rw e (record {
          in_map = raise-IsOpen 0 b.next_id b.subscribers s.in_map;
          off_map = (
            finished-IsOpen (b.next_id + 1) (new_subscription (b.next_id + 1) buffer) fresh,
            others,
          );
          distinct = s.distinct;
          empty_closed = λ h. s.empty_closed e;
        })
        | inr e ↦ rw e (record {
          in_map = (fresh, raise-IsOpen 0 b.next_id b.subscribers s.in_map);
          off_map = others;
          distinct = (below_next b.next_id b.subscribers s.in_map, s.distinct);
          empty_closed = λ h. cc;
        })
      ])

if-IsSound :
    (c : Bool) (x y : Broker) → IsSound x → (c ≡ false → IsSound y) → IsSound (if c then x else y)
if-IsSound true x y h k = h
if-IsSound false x y h k = k refl

pub publish-IsSound : (m : Bytes) (b : Broker) → IsSound b → IsSound (publish m b)
unfolding publish
publish-IsSound m b s =
    let (kept, dropped) =
      deliver-All (IsOpen 0 b.next_id) (IsOpen 0 b.next_id) (IsOpen 1 b.next_id) m
        (offered-IsOpen m b.next_id) (detached-IsOpen b.next_id) b.subscribers s.in_map in
    if-IsSound b.closed b
      (record b {
        subscribers = (deliver m b.subscribers).0;
        others = (deliver m b.subscribers).1 ++ b.others;
      })
      s
      (λ e. record {
        in_map = kept;
        off_map =
            All-append (IsOpen 1 b.next_id) (deliver m b.subscribers).1 b.others dropped s.off_map;
        distinct = deliver-IsOrdered m b.subscribers s.distinct;
        empty_closed = λ h. cc;
      })

pub close-IsSound : (b : Broker) → IsSound b → IsSound (close b)
unfolding close
close-IsSound b s =
    if-IsSound b.closed b
      (record b { closed = true; subscribers = []; others = finish_all b.subscribers ++ b.others })
      s
      (λ e. record {
        in_map = tt;
        off_map =
            All-append (IsOpen 1 b.next_id) (finish_all b.subscribers) b.others
              (finish_all-All (IsOpen 0 b.next_id) (IsOpen 1 b.next_id) (finished-IsOpen b.next_id)
                b.subscribers s.in_map)
              s.off_map;
        distinct = tt;
        empty_closed = λ h. refl;
      })

pub unsubscribe-IsSound : (id : ℕ) (b : Broker) → IsSound b → IsSound (unsubscribe id b)
unfolding unsubscribe without
unsubscribe-IsSound id b s =
    let (found, left) = without-All (IsOpen 0 b.next_id) id b.subscribers s.in_map in
    record {
      in_map = left;
      off_map =
          All-append (IsOpen 1 b.next_id) (finish_all (without id b.subscribers).0) b.others
            (finish_all-All (IsOpen 0 b.next_id) (IsOpen 1 b.next_id) (finished-IsOpen b.next_id)
              (without id b.subscribers).0 found)
            s.off_map;
      distinct = without-IsOrdered id b.subscribers s.distinct;
      empty_closed = λ h. ap (λ ss. (without id ss).1) (s.empty_closed h);
    }

pub receive-IsSound : (id : ℕ) (b : Broker) → IsSound b → IsSound (receive id b)
unfolding receive received
receive-IsSound id b s = record {
  in_map = received-All (IsOpen 0 b.next_id) id (shorter-IsOpen 0 b.next_id) b.subscribers s.in_map;
  off_map = received-All (IsOpen 1 b.next_id) id (shorter-IsOpen 1 b.next_id) b.others s.off_map;
  distinct = received-IsOrdered id b.subscribers s.distinct;
  empty_closed = λ h. ap (received id) (s.empty_closed h);
}

Step-IsSound : {b b' : Broker} → Step b b' → IsSound b → IsSound b'
Step-IsSound (subscribes buffer b small) s = subscribe-IsSound buffer b small s
Step-IsSound (publishes m b) s = publish-IsSound m b s
Step-IsSound (closes b) s = close-IsSound b s
Step-IsSound (unsubscribes id b) s = unsubscribe-IsSound id b s
Step-IsSound (receives id b) s = receive-IsSound id b s

-- In every state that subscribing, publishing, closing, unsubscribing and receiving reach, below 2^64
-- subscriptions, the channel `done` of a subscription in the map is open and that of one taken out was
-- closed exactly once, no message channel holds more than its room, the subscriptions in the map have
-- different ids up to the last given out, and a closed broker has none.
pub Arises-IsSound : {b : Broker} → Arises b → IsSound b
Arises-IsSound starts = record {
  in_map = tt;
  off_map = tt;
  distinct = tt;
  empty_closed = λ h. refl;
}
Arises-IsSound (steps r s) = Step-IsSound s (Arises-IsSound r)
