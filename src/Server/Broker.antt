-- ===== src/Server/Broker.antt =====
-- server/broker.go, and the channel receive of service.go. Each function is what one goroutine does
-- behind the lock, or the receive from one channel. A map is the list of its values; its order has no
-- part in what the functions do.
pub mod Sound
pub mod Delivery
use txmlconnector.Common.{
  ℕ, suc, ◌+◌, ◌%◌, ◌^◌, Bool, true, false, Option, none, some, List, [], ◌∷◌, ◌++◌, Bytes, length,
  drop, ltb, ◌==◌, if◌then◌else◌,
}

-- `done` is how often the channel was closed (a second time panics), and `slow` whether `err` is
-- `errSlowSubscriber`.
pub record Subscription : Type 0 where
  pub id : ℕ
  pub room : ℕ
  pub messages : List Bytes
  pub done : ℕ
  pub slow : Bool

-- `others` are the subscriptions that are not in the map and that their handlers still hold.
pub record Broker : Type 0 where
  pub next_id : ℕ
  pub closed : Bool
  pub subscribers : List Subscription
  pub others : List Subscription

abbrev pub new_broker : Broker
new_broker = record { next_id = 0; closed = false; subscribers = []; others = [] }

abbrev pub finished : Subscription → Subscription
finished s = record s { done = suc s.done }

abbrev pub new_subscription : ℕ → ℕ → Subscription
new_subscription id buffer = record {
  id = id;
  room = if ltb buffer 1 then 1 else buffer;
  messages = [];
  done = 0;
  slow = false;
}

abbrev pub raised : Broker → ℕ
raised b = (b.next_id + 1) % 2 ^ 64

unfoldable pub subscribe : ℕ → Broker → Broker
subscribe buffer b =
    let s = new_subscription (raised b) buffer in
    if b.closed
    then record b { next_id = raised b; others = finished s ∷ b.others }
    else record b { next_id = raised b; subscribers = s ∷ b.subscribers }

abbrev pub has_room : Subscription → Bool
has_room s = ltb (length s.messages) s.room

abbrev pub offered : Bytes → Subscription → Subscription
offered m s = record s { messages = s.messages ++ (m ∷ []) }

abbrev pub detached : Subscription → Subscription
detached s = record s { slow = true; done = suc s.done }

-- The subscribers that stay in the map, and those that are too slow for the message.
unfoldable pub deliver : Bytes → List Subscription → List Subscription × List Subscription
deliver m [] = ([], [])
deliver m (s ∷ ss) =
    let (kept, dropped) = deliver m ss in
    if has_room s then (offered m s ∷ kept, dropped) else (kept, detached s ∷ dropped)

unfoldable pub publish : Bytes → Broker → Broker
unfolding deliver
publish m b =
    if b.closed
    then b
    else let (kept, dropped) = deliver m b.subscribers in
      record b { subscribers = kept; others = dropped ++ b.others }

unfoldable pub finish_all : List Subscription → List Subscription
finish_all [] = []
finish_all (s ∷ ss) = finished s ∷ finish_all ss

unfoldable pub close : Broker → Broker
unfolding finish_all
close b =
    if b.closed
    then b
    else record b { closed = true; subscribers = []; others = finish_all b.subscribers ++ b.others }

-- The subscription of this id, and the others.
unfoldable pub without : ℕ → List Subscription → List Subscription × List Subscription
without id [] = ([], [])
without id (s ∷ ss) =
    let (found, left) = without id ss in if s.id == id then (s ∷ found, left) else (found, s ∷ left)

-- `close` of a subscription.
unfoldable pub unsubscribe : ℕ → Broker → Broker
unfolding without finish_all
unsubscribe id b =
    let (found, left) = without id b.subscribers in
    record b { subscribers = left; others = finish_all found ++ b.others }

-- A message is received from the channel of this id.
unfoldable pub received : ℕ → List Subscription → List Subscription
received id [] = []
received id (s ∷ ss) =
    let rest = received id ss in
    if s.id == id then record s { messages = drop 1 s.messages } ∷ rest else s ∷ rest

unfoldable pub receive : ℕ → Broker → Broker
unfolding received
receive id b = record b { subscribers = received id b.subscribers; others = received id b.others }
