-- ===== src/Session/Conn.antt =====
-- native/session/login.go: the connection and its exchanges. What the network and the context do during
-- an exchange is a parameter of it: `Net` has what the calls return and the bytes that come in time.
pub mod Pairing
pub mod Exchange
pub mod Judged
use txmlconnector.Common.{
  ℕ, ◌+◌, ◌%◌, ◌^◌, Bool, true, false, not, ◌||◌, Option, none, some, List, [], ◌∷◌, ◌++◌, Bytes,
}
use txmlconnector.Common.{
  take, drop, ◌==◌, if◌then◌else◌, Error, Result, ok, err, io_error, header_crc, too_large,
  payload_crc,
}
use txmlconnector.Wire.Frame.{
  Frame, Keys, kind, client_to_server, server_to_client, encode, decode, decrypt, uint16_at,
  header_size,
}
use txmlconnector.Session.Payloads.{rq_relogin, rq_recover}

abbrev pub kind_request : ℕ
kind_request = 1

abbrev pub kind_reply : ℕ
kind_reply = 2

abbrev pub kind_bye : ℕ
kind_bye = 3

-- The errors of this package, and those of the calls that it makes.
pub data SessionError : Type 0 where
  closed deadline_error write_error cancelled : SessionError
  frame_error : Error → SessionError
  bye : Bytes → SessionError
  incorrect_response : ℕ → ℕ → SessionError
  login_error : ℕ → Bytes → SessionError
  bad_payload : SessionError
  incorrect_relogin incorrect_recover : SessionError
  not_same_server : ℕ → ℕ → SessionError
  transaction_error : ℕ → SessionError
  outcome_unknown : ℕ → SessionError → SessionError
  empty_reply change_password_fatal : SessionError
  server_text_error : Bytes → SessionError

pub data Answer (A : Type 0) : Type 0 where
  answer : A → Answer A
  failed : SessionError → Answer A

-- A socket: the bytes that came and are not read, and all that was written.
pub record Socket : Type 0 where
  pub unread : Bytes
  pub sent : Bytes

pub record Net : Type 0 where
  -- `SetDeadline` succeeds.
  pub deadline_set : Bool
  -- `Write` fails behind so many bytes.
  pub write_limit : Option ℕ
  -- What comes before the deadline and before the context ends.
  pub arrives : Bytes
  -- The context has ended when an error is looked at.
  pub ended : Bool

pub record Conn : Type 0 where
  pub nc : Option Socket
  pub keys : Keys
  pub sid : ℕ
  pub seq : ℕ
  pub last_type : ℕ
  pub abandoned : List ℕ

abbrev pub ctx_err : Net → SessionError → SessionError
ctx_err net e = if net.ended then cancelled else e

-- The bytes that a failed `Decode` leaves.
unfoldable pub unread_after : Keys → Bytes → Error → Bytes
unread_after k r header_crc = drop header_size r
unread_after k r too_large = drop header_size r
unread_after k r (payload_crc flags type) =
    drop (header_size + uint16_at 2 (decrypt k server_to_client (take header_size r))) r
unread_after k r e = []

-- `readReply`: the frame or the error, the list of abandoned requests and the unread bytes.
unfoldable pub read_reply : Keys → List ℕ → Bytes → Result Frame × List ℕ × Bytes
unfolding unread_after
read_reply k [] r = elim (decode k server_to_client r) [
  | ok (f, r') ↦ (ok f, [], r')
  | err e ↦ (err e, [], unread_after k r e)
]
read_reply k (a ∷ others) r = elim (decode k server_to_client r) [
  | ok (f, r') ↦
      let next = read_reply k others r' in
      if not (kind f == kind_reply)
      then (ok f, a ∷ others, r')
      else if f.type == a
      then next
      else (ok f, [], r')
  | err e ↦ (err e, a ∷ others, unread_after k r e)
]

-- What a frame that was read means for a request of this type.
unfoldable pub judge : ℕ → Frame → Answer Frame
judge type f =
    if kind f == kind_bye
    then failed (bye f.payload)
    else if not (kind f == kind_reply) || not (f.type == type)
    then failed (incorrect_response f.flags f.type)
    else answer f

-- The list of abandoned requests when the wait for a reply fails.
abbrev pub given_up : Net → ℕ → List ℕ → List ℕ
given_up net type abandoned = if net.ended then abandoned ++ (type ∷ []) else abandoned

unfoldable pub receive :
    Net → ℕ → Conn → Bytes → Result Frame × List ℕ × Bytes → Answer Frame × Conn
receive net type c sent (ok f, abandoned, unread) = (
  judge type f,
  record c { nc = some (record { unread = unread; sent = sent }); abandoned = abandoned },
)
receive net type c sent (err e, abandoned, unread) = (
  failed (ctx_err net (frame_error e)),
  record c {
    nc = some (record { unread = unread; sent = sent });
    abandoned = given_up net type abandoned;
  },
)

-- Every request but the two of the recovery counts.
abbrev pub counted : ℕ → Conn → Conn
counted type c =
    if type == rq_relogin || type == rq_recover
    then c
    else record c { seq = (c.seq + 1) % 2 ^ 32; last_type = type }

abbrev pub request : ℕ → Bytes → Frame
request type payload = record { flags = kind_request; type = type; payload = payload }

abbrev pub empty_frame : Frame
empty_frame = record { flags = 0; type = 0; payload = [] }

-- A socket behind a write of `out`.
abbrev pub after_write : Net → Bytes → Socket → Socket
after_write net out s = record { unread = s.unread ++ net.arrives; sent = s.sent ++ out }

unfoldable pub write_and_read : Net → ℕ → Bool → Socket → Conn → Bytes → Answer Frame × Conn
unfolding read_reply receive
write_and_read net type wait s c out = elim (net.write_limit) [
  | some n ↦ (
    failed (ctx_err net write_error),
    record c { nc = some (record s { sent = s.sent ++ take n out }) },
  )
  | none ↦
      let s' = after_write net out s in
      if wait
      then receive net type c s'.sent (read_reply c.keys c.abandoned s'.unread)
      else (answer empty_frame, record c { nc = some s' })
]

unfoldable pub talk : Net → ℕ → Bytes → Bool → Socket → Conn → Answer Frame × Conn
unfolding write_and_read
talk net type payload wait s c = elim (encode c.keys client_to_server (request type payload)) [
  | err e ↦ (failed (frame_error e), c)
  | ok out ↦ write_and_read net type wait s c out
]

unfoldable pub exchange : Net → ℕ → Bytes → Bool → Conn → Answer Frame × Conn
unfolding talk
exchange net type payload wait c = elim (c.nc) [
  | none ↦ (failed closed, c)
  | some s ↦
      if net.deadline_set
      then talk net type payload wait s (counted type c)
      else (failed deadline_error, c)
]

abbrev pub payload_of : Answer Frame × Conn → Answer Bytes × Conn
payload_of (answer f, c) = (answer f.payload, c)
payload_of (failed e, c) = (failed e, c)

unfoldable pub request_reply : Net → ℕ → Bytes → Conn → Answer Bytes × Conn
unfolding exchange
request_reply net type payload c = payload_of (exchange net type payload true c)

unfoldable pub close : Conn → Conn
close c = record c { nc = none }
