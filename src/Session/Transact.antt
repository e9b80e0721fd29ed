-- ===== src/Session/Transact.antt =====
-- native/session/transact.go: a transaction is sent once. When it may have reached the server and no
-- valid reply came, its outcome is unknown.
pub mod Safety
use txmlconnector.Common.{
  ℕ, ◌+◌, ◌%◌, ◌^◌, Bool, true, false, not, ◌||◌, Option, none, some, List, [], ◌∷◌, ◌++◌, Bytes,
}
use txmlconnector.Common.{take, ◌==◌, if◌then◌else◌, Error, Result, ok, err}
use txmlconnector.Wire.Words.{sign_extend}
use txmlconnector.Wire.Reader.{Read, int32}
use txmlconnector.Wire.Frame.{Frame, kind, client_to_server, encode}
use txmlconnector.Session.Payloads.{rq_transact}
use txmlconnector.Session.Conn.{
  SessionError, closed, deadline_error, write_error, frame_error, bye, incorrect_response,
  transaction_error, outcome_unknown, empty_reply, Answer, answer, failed, Socket, Net, Conn,
  ctx_err, read_reply, given_up, request, after_write, kind_reply, kind_bye,
}

-- The error of an exchange that has begun to write, in the transaction with this number.
abbrev pub unknown : ℕ → SessionError → Answer Bytes
unknown number e = failed (outcome_unknown number e)

unfoldable pub judge_transact : ℕ → Frame → Answer Bytes
judge_transact number f =
    if kind f == kind_bye
    then unknown number (bye [])
    else if not (kind f == kind_reply) || not (f.type == rq_transact)
    then unknown number (incorrect_response f.flags f.type)
    else answer f.payload

unfoldable pub receive_transact :
    Net → ℕ → Conn → Bytes → Result Frame × List ℕ × Bytes → Answer Bytes × Conn
receive_transact net number c sent (ok f, abandoned, unread) = (
  judge_transact number f,
  record c { nc = some (record { unread = unread; sent = sent }); abandoned = abandoned },
)
receive_transact net number c sent (err e, abandoned, unread) = (
  unknown number (ctx_err net (frame_error e)),
  record c {
    nc = some (record { unread = unread; sent = sent });
    abandoned = given_up net rq_transact abandoned;
  },
)

unfoldable pub send_transact : Net → ℕ → Socket → Conn → Bytes → Answer Bytes × Conn
unfolding read_reply receive_transact
send_transact net number s c out = elim (net.write_limit) [
  | some n ↦ (
    unknown number (ctx_err net write_error),
    record c { nc = some (record s { sent = s.sent ++ take n out }) },
  )
  | none ↦
      let s' = after_write net out s in
      receive_transact net number c s'.sent (read_reply c.keys c.abandoned s'.unread)
]

-- The request is counted before it is encoded.
abbrev pub counted_transact : Conn → Conn
counted_transact c = record c { seq = (c.seq + 1) % 2 ^ 32; last_type = rq_transact }

unfoldable pub talk_transact : Net → ℕ → Bytes → Socket → Conn → Answer Bytes × Conn
unfolding send_transact
talk_transact net number payload s c =
    elim (encode c.keys client_to_server (request rq_transact payload)) [
      | err e ↦ (failed (frame_error e), c)
      | ok out ↦ send_transact net number s c out
    ]

unfoldable pub transact_exchange : Net → ℕ → Bytes → Conn → Answer Bytes × Conn
unfolding talk_transact
transact_exchange net number payload c = elim (c.nc) [
  | none ↦ (failed closed, c)
  | some s ↦
      if net.deadline_set
      then talk_transact net number payload s (counted_transact c)
      else (failed deadline_error, c)
]

-- What `Transact` returns: a number in any case, and an error.
pub record Transacted : Type 0 where
  pub id : ℕ
  pub error : Option SessionError

abbrev pub with_id : ℕ → Read ℕ → Transacted
with_id number (ok (tid, r)) = record { id = sign_extend tid; error = none }
with_id number (err e) = record {
  id = number;
  error = some (outcome_unknown number (frame_error e));
}

unfoldable pub transact_reply : ℕ → Answer Bytes → Transacted
transact_reply number (failed e) = record { id = number; error = some e }
transact_reply number (answer []) = record {
  id = number;
  error = some (outcome_unknown number empty_reply);
}
transact_reply number (answer (code ∷ r)) =
    if code == 0
    then with_id number (int32 r)
    else record { id = number; error = some (transaction_error code) }

-- `transaction_seq` is the number of the last transaction of the process. It comes back raised.
unfoldable pub transact : Net → ℕ → Bytes → ℕ → Conn → Transacted × Conn × ℕ
unfolding transact_exchange transact_reply
transact net kind body transaction_seq c =
    let number = (transaction_seq + 1) % 2 ^ 64 in
    let (reply, c') = transact_exchange net number (kind ∷ body) c in
    (transact_reply number reply, c', number)
