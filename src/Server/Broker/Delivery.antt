-- ===== src/Server/Broker/Delivery.antt =====
-- What a subscriber receives while it is in the map.
use txmlconnector.Common.{
  ℕ, ◌+◌, ◌^◌, ◌≤◌, ◌<◌, ◌≡◌, ◌≢◌, refl, sym, ap, ◌∙◌, arith, Bool, true, false, Option, none, some,
  List, [], ◌∷◌, ◌++◌, append_assoc, Bytes,
}
use txmlconnector.Common.{All, Bool-cases, inl, inr, drop, ==_iff, ◌==◌, if◌then◌else◌}
use mathlib.Core.Path.{subst}
use txmlconnector.Server.Broker.{
  Subscription, Broker, raised, subscribe, deliver, publish, finish_all, close, without,
  unsubscribe, received, receive,
}
use txmlconnector.Server.Broker.Sound.{
  IsSound, IsOrdered, Arises, Arises-IsSound, below_next, deliver-All, without-All, received-All,
  subscribe-IsSound, publish-IsSound, close-IsSound, unsubscribe-IsSound, receive-IsSound,
}

abbrev pub head : List Bytes → Option Bytes
head [] = none
head (m ∷ ms) = some m

-- The message at the front of the channel of this id.
abbrev pub front : ℕ → List Subscription → Option Bytes
front id [] = none
front id (s ∷ ss) = let rest = front id ss in if s.id == id then head s.messages else rest

-- The subscription `id` from its beginning, with what was published since and what its handler received.
pub data Watched (id : ℕ) : Broker → List Bytes → List Bytes → Type 0 where
  begins :
      {b : Broker} (buffer : ℕ)
      → Arises b
      → b.next_id + 1 < 2 ^ 64
      → raised b ≡ id
      → Watched id (subscribe buffer b) [] []
  publishes :
      {b : Broker} {p r : List Bytes} (m : Bytes)
      → Watched id b p r
      → Watched id (publish m b) (p ++ (m ∷ [])) r
  takes :
      {b : Broker} {p r : List Bytes} (m : Bytes)
      → Watched id b p r
      → front id b.subscribers ≡ some m
      → Watched id (receive id b) p (r ++ (m ∷ []))
  subscribes :
      {b : Broker} {p r : List Bytes} (buffer : ℕ)
      → Watched id b p r
      → b.next_id + 1 < 2 ^ 64
      → Watched id (subscribe buffer b) p r
  closes : {b : Broker} {p r : List Bytes} → Watched id b p r → Watched id (close b) p r
  unsubscribes :
      {b : Broker} {p r : List Bytes} (other : ℕ)
      → Watched id b p r
      → Watched id (unsubscribe other b) p r
  others_take :
      {b : Broker} {p r : List Bytes} (other : ℕ)
      → Watched id b p r
      → other ≢ id
      → Watched id (receive other b) p r

Watched-IsSound : {id : ℕ} {b : Broker} {p r : List Bytes} → Watched id b p r → IsSound b
Watched-IsSound (begins buffer h small e) = subscribe-IsSound buffer _ small (Arises-IsSound h)
Watched-IsSound (publishes m w) = publish-IsSound m _ (Watched-IsSound w)
Watched-IsSound {id = id} (takes m w e) = receive-IsSound id _ (Watched-IsSound w)
Watched-IsSound (subscribes buffer w small) = subscribe-IsSound buffer _ small (Watched-IsSound w)
Watched-IsSound (closes w) = close-IsSound _ (Watched-IsSound w)
Watched-IsSound (unsubscribes other w) = unsubscribe-IsSound other _ (Watched-IsSound w)
Watched-IsSound (others_take other w n) = receive-IsSound other _ (Watched-IsSound w)

-- What this subscription received and what its channel holds are what was published.
abbrev pub IsKeptUp : ℕ → List Bytes → List Bytes → Subscription → Type 0
IsKeptUp id p r s = s.id ≡ id → r ++ s.messages ≡ p

deliver-IsKeptUp :
    (id : ℕ) (p r : List Bytes) (m : Bytes) (ss : List Subscription)
    → All (IsKeptUp id p r) ss
    → All (IsKeptUp id (p ++ (m ∷ [])) r) (deliver m ss).0
deliver-IsKeptUp id p r m ss h =
    (deliver-All (IsKeptUp id p r) (IsKeptUp id (p ++ (m ∷ [])) r) (λ s. Unit {0}) m
      (λ s e k i. sym (append_assoc r s.messages (m ∷ [])) ∙ ap (λ x. x ++ (m ∷ [])) (k i))
      (λ s k. tt) ss h).0

-- Where all ids are smaller, this id is not there.
below-IsKeptUp :
    (id k : ℕ) (p r : List Bytes) (ss : List Subscription)
    → All (λ t. t.id < k) ss
    → k ≡ id
    → All (IsKeptUp id p r) ss
below-IsKeptUp id k p r [] h e = tt
below-IsKeptUp id k p r (s ∷ ss) (h, hs) e = ((λ i. ground arith), below-IsKeptUp id k p r ss hs e)

taken-IsKeptUp :
    (id : ℕ) (p r : List Bytes) (m : Bytes) (ms : List Bytes)
    → head ms ≡ some m
    → r ++ ms ≡ p
    → (r ++ (m ∷ [])) ++ drop 1 ms ≡ p
taken-IsKeptUp id p r m [] e k = cc
taken-IsKeptUp id p r m (x ∷ ms) e k = append_assoc r (m ∷ []) ms ∙ ap (λ y. r ++ (y ∷ ms)) (cc) ∙ k

take-IsKeptUp :
    (id : ℕ) (p r : List Bytes) (m : Bytes) (ss : List Subscription)
    → IsOrdered ss
    → front id ss ≡ some m
    → All (IsKeptUp id p r) ss
    → All (IsKeptUp id p (r ++ (m ∷ []))) (received id ss)
unfolding received
take-IsKeptUp id p r m [] o e h = tt
take-IsKeptUp id p r m (s ∷ ss) (o, os) e (h, hs) = elim (Bool-cases (s.id == id)) [
  | inl y ↦ rw y (
    (λ i.
        taken-IsKeptUp id p r m s.messages
          (ap (λ b. if b then head s.messages else front id ss) (sym y) ∙ e) (h i)),
    below-IsKeptUp id s.id p (r ++ (m ∷ [])) (received id ss)
        (received-All (λ t. t.id < s.id) id (λ t k. k) ss o) ((==_iff s.id id).0 y),
  )
  | inr n ↦ rw n (
    (λ i. ground arith),
    take-IsKeptUp id p r m ss os (ap (λ b. if b then head s.messages else front id ss) (sym n) ∙ e)
        hs,
  )
]

others_take-IsKeptUp :
    (id other : ℕ) (p r : List Bytes) (ss : List Subscription)
    → other ≢ id
    → All (IsKeptUp id p r) ss
    → All (IsKeptUp id p r) (received other ss)
unfolding received
others_take-IsKeptUp id other p r [] n h = tt
others_take-IsKeptUp id other p r (s ∷ ss) n (h, hs) = elim (Bool-cases (s.id == other)) [
  | inl y ↦ rw y ((λ i. ground arith), others_take-IsKeptUp id other p r ss n hs)
  | inr y ↦ rw y (h, others_take-IsKeptUp id other p r ss n hs)
]

-- The id was given out, and its subscription is kept up.
abbrev IsServed : ℕ → List Bytes → List Bytes → Broker → Type 0
IsServed id p r b = (id ≤ b.next_id) × All (IsKeptUp id p r) b.subscribers

begins-IsServed :
    (id buffer : ℕ) (b : Broker)
    → b.next_id + 1 < 2 ^ 64
    → raised b ≡ id
    → IsSound b
    → IsServed id [] [] (subscribe buffer b)
unfolding subscribe
begins-IsServed id buffer b small e s =
    let next : b.next_id + 1 ≡ id = omega (arith, small, e) in
    let olds =
      below-IsKeptUp id (b.next_id + 1) [] [] b.subscribers
        (below_next b.next_id b.subscribers s.in_map) next in
    elim (Bool-cases b.closed) [
      | inl c ↦ rw (c, subscribe) (omega (arith, e), olds)
      | inr c ↦ rw (c, subscribe) (omega (arith, e), ((λ i. refl), olds))
    ]

subscribes-IsServed :
    (id buffer : ℕ) (p r : List Bytes) (b : Broker)
    → b.next_id + 1 < 2 ^ 64
    → IsServed id p r b
    → IsServed id p r (subscribe buffer b)
unfolding subscribe
subscribes-IsServed id buffer p r b small (l, h) =
    let more : id ≤ raised b = omega (arith, small, l) in
    elim (Bool-cases b.closed) [
      | inl c ↦ rw (c, subscribe) (more, h)
      | inr c ↦ rw (c, subscribe) (more, ((λ i. ground arith), h))
    ]

if-IsServed :
    (id : ℕ) (p r : List Bytes) (c : Bool) (x y : Broker)
    → (c ≡ true → IsServed id p r x)
    → IsServed id p r y
    → IsServed id p r (if c then x else y)
if-IsServed id p r true x y h k = h refl
if-IsServed id p r false x y h k = k

served : {id : ℕ} {b : Broker} {p r : List Bytes} → Watched id b p r → IsServed id p r b
unfolding publish close unsubscribe without receive
served {id = id} (begins {b} buffer h small e) =
    begins-IsServed id buffer b small e (Arises-IsSound h)
served {id = id} (publishes {b} {p} {r} m w) =
    let (l, h) = served w in
    if-IsServed id (p ++ (m ∷ [])) r b.closed b
      (record b {
        subscribers = (deliver m b.subscribers).0;
        others = (deliver m b.subscribers).1 ++ b.others;
      })
      (λ e. (
        l,
        subst (All (IsKeptUp id (p ++ (m ∷ [])) r)) (sym ((Watched-IsSound w).empty_closed e)) tt,
      ))
      (l, deliver-IsKeptUp id p r m b.subscribers h)
served {id = id} (takes {b} {p} {r} m w e) =
    let (l, h) = served w in
    (l, take-IsKeptUp id p r m b.subscribers (Watched-IsSound w).distinct e h)
served {id = id} (subscribes {b} {p} {r} buffer w small) =
    subscribes-IsServed id buffer p r b small (served w)
served {id = id} (closes {b} {p} {r} w) =
    let (l, h) = served w in
    if-IsServed id p r b.closed b
      (record b { closed = true; subscribers = []; others = finish_all b.subscribers ++ b.others })
      (λ e. (l, h)) (l, tt)
served {id = id} (unsubscribes {b} {p} {r} other w) =
    let (l, h) = served w in (l, (without-All (IsKeptUp id p r) other b.subscribers h).1)
served {id = id} (others_take {b} {p} {r} other w n) =
    let (l, h) = served w in (l, others_take-IsKeptUp id other p r b.subscribers n h)

-- For as long as a subscription stays in the map, what its handler has received followed by what its
-- channel holds is all that was published since it began, in order, whatever else goes on.
pub Watched-IsKeptUp :
    {id : ℕ} {b : Broker} {p r : List Bytes}
    → Watched id b p r
    → All (IsKeptUp id p r) b.subscribers
Watched-IsKeptUp w = (served w).1
