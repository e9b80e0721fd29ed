-- ===== src/Session/Transact/Safety.antt =====
-- An ordinary error of a transaction means that nothing of it was written.
use txmlconnector.Common.{
  ℕ, ◌+◌, ◌%◌, ◌^◌, ◌≡◌, refl, sym, ◌∙◌, Bool, true, false, not, ◌||◌, Option, none, some, [], ◌∷◌,
  ◌++◌, Bytes,
}
use txmlconnector.Common.{Bool-cases, inl, inr, ◌==◌, if◌then◌else◌, Result, ok, err, List}
use txmlconnector.Wire.Reader.{Read, int32}
use txmlconnector.Wire.Frame.{Frame, kind, client_to_server, encode}
use txmlconnector.Session.Payloads.{rq_transact}
use txmlconnector.Session.Conn.{
  SessionError, closed, deadline_error, transaction_error, outcome_unknown, Answer, answer, failed,
  Socket, Net, Conn, read_reply, request, kind_reply, kind_bye,
}
use txmlconnector.Session.Transact.{
  judge_transact, receive_transact, send_transact, counted_transact, talk_transact,
  transact_exchange, with_id, transact_reply, transact,
}

-- Neither an unknown outcome nor a refusal of the server.
abbrev pub is_ordinary : SessionError → Bool
is_ordinary (outcome_unknown number e) = false
is_ordinary (transaction_error code) = false
is_ordinary e = true

abbrev pub has_ordinary : Option SessionError → Bool
has_ordinary none = false
has_ordinary (some e) = is_ordinary e

-- An ordinary error leaves the socket of `c`.
abbrev Leaves : Conn → Answer Bytes × Conn → Type 0
Leaves c (answer p, c') = Unit {0}
Leaves c (failed e, c') = is_ordinary e ≡ true → c'.nc ≡ c.nc

judged : (number : ℕ) (f : Frame) (c c' : Conn) → Leaves c (judge_transact number f, c')
unfolding judge_transact
judged number f c c' = elim (Bool-cases (kind f == kind_bye)) [
  | inl b ↦ rw b (λ h. cc)
  | inr b ↦ rw b (elim (Bool-cases (not (kind f == kind_reply) || not (f.type == rq_transact))) [
    | inl w ↦ rw w (λ h. cc)
    | inr w ↦ rw w tt
  ])
]

received :
    (net : Net) (number : ℕ) (c c0 : Conn) (sent : Bytes) (x : Result Frame × List ℕ × Bytes)
    → Leaves c0 (receive_transact net number c sent x)
unfolding receive_transact
received net number c c0 sent (ok f, abandoned, unread) = judged number f c0 _
received net number c c0 sent (err e, abandoned, unread) = λ h. cc

send_transact-Leaves :
    (net : Net) (number : ℕ) (s : Socket) (c c0 : Conn) (out : Bytes)
    → Leaves c0 (send_transact net number s c out)
unfolding send_transact
send_transact-Leaves net number s c c0 out = at_write net.write_limit refl
  where
    at_write : (w : Option ℕ) → net.write_limit ≡ w → Leaves c0 (send_transact net number s c out)
    at_write none e =
        rw (e, send_transact)
          (received net number c c0 (s.sent ++ out)
            (read_reply c.keys c.abandoned (s.unread ++ net.arrives)))
    at_write (some n) e = rw (e, send_transact) (λ h. cc)

talk_transact-Leaves :
    (net : Net) (number : ℕ) (payload : Bytes) (s : Socket) (c c0 : Conn)
    → c.nc ≡ c0.nc
    → Leaves c0 (talk_transact net number payload s c)
unfolding talk_transact
talk_transact-Leaves net number payload s c c0 same =
    at_encode (encode c.keys client_to_server (request rq_transact payload)) refl
  where
    at_encode :
        (r : Result Bytes)
        → encode c.keys client_to_server (request rq_transact payload) ≡ r
        → Leaves c0 (talk_transact net number payload s c)
    at_encode (ok out) e = rw (e, talk_transact) (send_transact-Leaves net number s c c0 out)
    at_encode (err x) e = rw (e, talk_transact) (λ h. same)

if-Leaves :
    (c : Conn) (b : Bool) (x y : Answer Bytes × Conn)
    → Leaves c x
    → Leaves c y
    → Leaves c (if b then x else y)
if-Leaves c true x y p q = p
if-Leaves c false x y p q = q

transact_exchange-Leaves :
    (net : Net) (number : ℕ) (payload : Bytes) (c : Conn)
    → Leaves c (transact_exchange net number payload c)
unfolding transact_exchange
transact_exchange-Leaves net number payload c = at_socket c.nc
  where
    at_socket :
        (n : Option Socket)
        → Leaves c (elim n [
          | none ↦ (failed closed, c)
          | some s ↦
              if net.deadline_set
              then talk_transact net number payload s (counted_transact c)
              else (failed deadline_error, c)
        ])
    at_socket none = λ h. refl
    at_socket (some s) =
        if-Leaves c net.deadline_set (talk_transact net number payload s (counted_transact c))
          (failed deadline_error, c)
          (talk_transact-Leaves net number payload s (counted_transact c) c refl) (λ h. refl)

-- The error of a reply is ordinary only where the exchange's was.
with_id_not : (number : ℕ) (x : Read ℕ) → has_ordinary (with_id number x).error ≡ false
with_id_not number (ok (tid, r)) = refl
with_id_not number (err e) = refl

reply_not : (number : ℕ) (p : Bytes) → has_ordinary (transact_reply number (answer p)).error ≡ false
unfolding transact_reply
reply_not number [] = refl
reply_not number (code ∷ r) = elim (Bool-cases (code == 0)) [
  | inl z ↦ rw z (with_id_not number (int32 r))
  | inr z ↦ rw z refl
]

transact_reply-Leaves :
    (number : ℕ) (c c' : Conn) (x : Answer Bytes)
    → Leaves c (x, c')
    → has_ordinary (transact_reply number x).error ≡ true
    → c'.nc ≡ c.nc
unfolding transact_reply
transact_reply-Leaves number c c' (failed f) l o = l o
transact_reply-Leaves number c c' (answer p) l o = cc (sym o ∙ reply_not number p)

-- Where a transaction ends with an error that is neither an unknown outcome nor a refusal of the
-- server, nothing was written to its socket.
pub transact_unsent :
    (net : Net) (kind : ℕ) (body : Bytes) (transaction_seq : ℕ) (c : Conn)
    → has_ordinary (transact net kind body transaction_seq c).0.error ≡ true
    → (transact net kind body transaction_seq c).1.nc ≡ c.nc
unfolding transact
transact_unsent net kind body transaction_seq c o =
    let number = (transaction_seq + 1) % 2 ^ 64 in
    let (x, c') = transact_exchange net number (kind ∷ body) c in
    transact_reply-Leaves number c c' x (transact_exchange-Leaves net number (kind ∷ body) c) o
