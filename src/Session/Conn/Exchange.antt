-- ===== src/Session/Conn/Exchange.antt =====
-- The exchanges of one connection over a network that brings whole frames.
use txmlconnector.Common.{
  ℕ, ◌≤◌, ◌≡◌, refl, sym, ap, ◌∙◌, Bool, true, ◌||◌, Option, none, some, List, [], ◌∷◌, ◌++◌,
  append_assoc, Bytes,
}
use txmlconnector.Common.{
  All, All-append, All-drop, Bool-cases, inl, inr, length, take, drop, ◌==◌, ==_refl, if◌then◌else◌,
  Result, ok, err,
}
use txmlconnector.Wire.Frame.{Frame, Keys, client_to_server, encode, max_payload}
use txmlconnector.Wire.Frame.RoundTrip.{encode_fits}
use txmlconnector.Session.Payloads.{rq_relogin, rq_recover}
use txmlconnector.Session.Conn.{
  answer, failed, cancelled, frame_error, closed, deadline_error, Socket, Net, Conn, read_reply,
  judge, receive, counted, request, write_and_read, talk, exchange,
}
use txmlconnector.Session.Conn.Pairing.{
  IsReply, stream, types, skipped, own_read, cut_short, wire_of,
}

-- A connection with these replies still to come, and nothing of them in the socket yet.
pub record IsWaiting (c : Conn) (owed : List Frame) : Type 0 where
  pub socket : Socket
  pub open_nc : c.nc ≡ some socket
  pub drained : socket.unread ≡ []
  pub listed : c.abandoned ≡ types owed
  pub replies : All IsReply owed

-- The network lets the request through, and so many bytes come back.
pub record IsGood (net : Net) (bytes : Bytes) : Type 0 where
  pub in_time : net.deadline_set ≡ true
  pub writes : net.write_limit ≡ none
  pub brings : net.arrives ≡ bytes

counted-nc : (type : ℕ) (c : Conn) → (counted type c).nc ≡ c.nc
counted-nc type c = elim (Bool-cases (type == rq_relogin || type == rq_recover)) [
  | inl e ↦ rw e refl
  | inr e ↦ rw e refl
]

pub counted-keys : (type : ℕ) (c : Conn) → (counted type c).keys ≡ c.keys
counted-keys type c = elim (Bool-cases (type == rq_relogin || type == rq_recover)) [
  | inl e ↦ rw e refl
  | inr e ↦ rw e refl
]

pub counted-abandoned : (type : ℕ) (c : Conn) → (counted type c).abandoned ≡ c.abandoned
counted-abandoned type c = elim (Bool-cases (type == rq_relogin || type == rq_recover)) [
  | inl e ↦ rw e refl
  | inr e ↦ rw e refl
]

-- The bytes of a request.
abbrev pub encoded : Keys → Frame → Bytes
encoded k f = elim (encode k client_to_server f) [ ok w ↦ w | err e ↦ [] ]

pub encode-encoded :
    (k : Keys) (f : Frame)
    → length f.payload ≤ max_payload
    → encode k client_to_server f ≡ ok (encoded k f)
encode-encoded k f l =
    let e = encode_fits k client_to_server f l in
    e ∙ ap ok (sym (ap (λ (r : Result Bytes). elim r [ ok w ↦ w | err x ↦ [] ]) e))

-- An exchange that is let through writes the request and reads on.
pub exchange_through :
    (net : Net) (type : ℕ) (payload : Bytes) (wait : Bool) (c : Conn) (s : Socket)
    → c.nc ≡ some s
    → net.deadline_set ≡ true
    → length payload ≤ max_payload
    → exchange net type payload wait c
      ≡ write_and_read net type wait s
          (counted type c)
          (encoded (counted type c).keys (request type payload))
unfolding exchange talk
exchange_through net type payload wait c s o d l =
    ap
      (λ (n : Option Socket). elim n [
        | none ↦ (failed closed, c)
        | some s ↦
            if net.deadline_set
            then talk net type payload wait s (counted type c)
            else (failed deadline_error, c)
      ])
      o
    ∙ ap
        (λ b.
          if b then talk net type payload wait s (counted type c) else (failed deadline_error, c))
        d
    ∙ ap
        (λ (r : Result Bytes). elim r [
          | err e ↦ (failed (frame_error e), counted type c)
          | ok out ↦ write_and_read net type wait s (counted type c) out
        ])
        (encode-encoded (counted type c).keys (request type payload) l)

read_through :
    (net : Net) (type : ℕ) (s : Socket) (c : Conn) (out : Bytes)
    → net.write_limit ≡ none
    → write_and_read net type true s c out
      ≡ receive net type c (s.sent ++ out) (read_reply c.keys c.abandoned (s.unread ++ net.arrives))
unfolding write_and_read
read_through net type s c out w = rw (w, write_and_read) refl

exchange_reads :
    (net : Net) (type : ℕ) (payload : Bytes) (c : Conn) (owed : List Frame) (bytes : Bytes)
    → IsWaiting c owed
    → IsGood net bytes
    → length payload ≤ max_payload
    → (sent : Bytes) × (exchange net type payload true c
        ≡ receive net type (counted type c) sent (read_reply c.keys (types owed) bytes))
exchange_reads net type payload c owed bytes w g l =
    let out = encoded (counted type c).keys (request type payload) in
    let e = exchange_through net type payload true c w.socket w.open_nc g.in_time l in
    (
      w.socket.sent ++ out,
      e
          ∙ read_through net type w.socket (counted type c) out g.writes
          ∙ ap (receive net type (counted type c) (w.socket.sent ++ out)) (
              ap (λ k. read_reply k (counted type c).abandoned (w.socket.unread ++ net.arrives))
                (counted-keys type c)
              ∙ ap (λ a. read_reply c.keys a (w.socket.unread ++ net.arrives))
                  (counted-abandoned type c ∙ w.listed)
              ∙ ap (λ u. read_reply c.keys (types owed) (u ++ net.arrives)) w.drained
              ∙ ap (read_reply c.keys (types owed)) g.brings),
    )

counted-IsWaiting :
    (type : ℕ) (c : Conn) (abandoned : List ℕ) (sent : Bytes) (owed : List Frame)
    → abandoned ≡ types owed
    → All IsReply owed
    → IsWaiting
        (record (counted type c) {
          nc = some (record { unread = []; sent = sent });
          abandoned = abandoned;
        })
        owed
counted-IsWaiting type c abandoned sent owed e h = record {
  socket = record { unread = []; sent = sent };
  open_nc = refl;
  drained = refl;
  listed = e;
  replies = h;
}

stream-append :
    (k : Keys) (fs : List Frame) (f : Frame)
    → stream k (fs ++ (f ∷ [])) ≡ stream k fs ++ (wire_of k f ++ [])
unfolding stream
stream-append k [] f = refl
stream-append k (g ∷ fs) f =
    ap (λ x. wire_of k g ++ x) (stream-append k fs f)
    ∙ sym (append_assoc (wire_of k g) (stream k fs) (wire_of k f ++ []))

types-append : (fs : List Frame) (f : Frame) → types (fs ++ (f ∷ [])) ≡ types fs ++ (f.type ∷ [])
types-append [] f = refl
types-append (g ∷ fs) f = ap (◌∷◌ g.type) (types-append fs f)

judge_own : (type : ℕ) (f : Frame) → IsReply f → f.type ≡ type → judge type f ≡ answer f
unfolding judge
judge_own type f h e = rw h.is_reply (rw e (rw (==_refl type) refl))

-- The connection behind an exchange that was answered.
abbrev pub answered : ℕ → Conn → Bytes → Conn
answered type c sent = record (counted type c) {
  nc = some (record { unread = []; sent = sent });
  abandoned = [];
}

pub answered-IsWaiting : (type : ℕ) (c : Conn) (sent : Bytes) → IsWaiting (answered type c sent) []
answered-IsWaiting type c sent = counted-IsWaiting type c [] sent [] refl tt

pub exchange_own :
    (net : Net) (type : ℕ) (payload : Bytes) (c : Conn) (owed : List Frame) (f : Frame)
    → IsWaiting c owed
    → IsReply f
    → f.type ≡ type
    → length payload ≤ max_payload
    → IsGood net (stream c.keys (owed ++ (f ∷ [])))
    → (sent : Bytes) × (exchange net type payload true c ≡ (answer f, answered type c sent))
unfolding receive
exchange_own net type payload c owed f w h e l g =
    let (sent, x) =
      exchange_reads net type payload c owed (stream c.keys (owed ++ (f ∷ []))) w g l in
    let reads =
      ap (read_reply c.keys (types owed)) (stream-append c.keys owed f)
      ∙ skipped c.keys owed (wire_of c.keys f ++ []) w.replies
      ∙ own_read c.keys f [] h in
    (
      sent,
      x
          ∙ ap (receive net type (counted type c) sent) reads
          ∙ ap (λ a. (a, answered type c sent)) (judge_own type f h e),
    )

-- On an open connection with nothing unread that owes the replies of its abandoned requests, with a
-- payload that fits a frame, if the network takes the request and brings those replies in order and
-- then a reply of the request's type, the exchange returns that reply and the connection owes
-- nothing.
pub exchange_answers :
    (net : Net) (type : ℕ) (payload : Bytes) (c : Conn) (owed : List Frame) (f : Frame)
    → IsWaiting c owed
    → IsReply f
    → f.type ≡ type
    → length payload ≤ max_payload
    → IsGood net (stream c.keys (owed ++ (f ∷ [])))
    → ((exchange net type payload true c).0 ≡ answer f)
      × IsWaiting (exchange net type payload true c).1 []
exchange_answers net type payload c owed f w h e l g =
    let (sent, x) = exchange_own net type payload c owed f w h e l g in
    rw x (refl, answered-IsWaiting type c sent)

-- On an open connection with nothing unread that owes replies, with a payload that fits a frame, if
-- the context ends when only the first of the owed replies have come, whole, the exchange fails with
-- the context's error, and the connection owes the replies that did not come and then that of this
-- request.
pub exchange_abandons :
    (net : Net) (type : ℕ) (payload : Bytes) (c : Conn) (owed : List Frame) (f : Frame) (n : ℕ)
    → IsWaiting c owed
    → IsReply f
    → f.type ≡ type
    → length payload ≤ max_payload
    → IsGood net (stream c.keys (take n owed))
    → net.ended ≡ true
    → ((exchange net type payload true c).0 ≡ failed cancelled)
      × IsWaiting (exchange net type payload true c).1 (drop n owed ++ (f ∷ []))
unfolding receive
exchange_abandons net type payload c owed f n w h e l g d =
    let (sent, x) = exchange_reads net type payload c owed (stream c.keys (take n owed)) w g l in
    rw (x ∙ ap (receive net type (counted type c) sent) (cut_short c.keys n owed w.replies)) (
      rw d (
        refl,
        counted-IsWaiting type c (types (drop n owed) ++ (type ∷ [])) sent (drop n owed ++ (f ∷ []))
            (ap (λ t. types (drop n owed) ++ (t ∷ [])) (sym e) ∙ sym (types-append (drop n owed) f))
            (All-append IsReply (drop n owed) (f ∷ []) (All-drop IsReply n owed w.replies) (h, tt)),
      ))
