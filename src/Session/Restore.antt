-- ===== src/Session/Restore.antt =====
-- native/session/recover.go: the short recovery over a new socket. Only where both requests are answered
-- well does the connection change.
pub mod Honest
pub mod Adopted
use txmlconnector.Common.{
  ℕ, Bool, true, false, not, ◌&&◌, ◌||◌, Option, none, some, List, [], ◌∷◌, ◌++◌, Bytes,
}
use txmlconnector.Common.{◌==◌, if◌then◌else◌, Error, Result, ok, err}
use txmlconnector.Wire.Frame.{
  Frame, Keys, kind, client_to_server, server_to_client, encode, decode, default_keys,
}
use txmlconnector.Session.Payloads.{rq_relogin, rq_recover, relogin_payload, recover_payload}
use txmlconnector.Session.Replies.{ReloginReply, parse_relogin_reply}
use txmlconnector.Session.Conn.{
  SessionError, deadline_error, write_error, frame_error, bye, incorrect_relogin, incorrect_recover,
  not_same_server, Answer, answer, failed, Socket, Net, Conn, ctx_err, request, after_write,
  kind_reply, kind_bye,
}

infixl 5 ◌>>=◌
abbrev pub ◌>>=◌ : {A B : Type 0} → Answer A → (A → Answer B) → Answer B
answer a >>= next = next a
failed e >>= next = failed e

-- A request and the frame that comes next, on these keys.
unfoldable pub ask : Net → Keys → Frame → Socket → Answer (Frame × Socket)
ask net k f s = elim (encode k client_to_server f) [
  | err e ↦ failed (frame_error e)
  | ok out ↦ elim (net.write_limit) [
    | some n ↦ failed (ctx_err net write_error)
    | none ↦
        let s' = after_write net out s in
        elim (decode k server_to_client s'.unread) [
          | err e ↦ failed (ctx_err net (frame_error e))
          | ok (f', r) ↦ answer (f', record { unread = r; sent = s'.sent })
        ]
  ]
]

unfoldable pub judge_relogin : ℕ → Frame → Answer ReloginReply
judge_relogin sid f =
    if kind f == kind_bye
    then failed (bye [])
    else if not (kind f == kind_reply) || not (f.type == rq_relogin)
    then failed incorrect_relogin
    else elim (parse_relogin_reply f.payload) [
      | err e ↦ failed incorrect_relogin
      | ok reply ↦ if reply.sid == sid then answer reply else failed (not_same_server reply.sid sid)
    ]

unfoldable pub judge_recover : ℕ → Frame → Answer (Unit {0})
judge_recover last_type f =
    if not (kind f == kind_reply) || not (f.type == rq_recover) && not (f.type == last_type)
    then failed incorrect_recover
    else answer tt

-- The two exchanges, and the new socket behind them.
unfoldable pub recovered : Net → Net → Socket → Bytes → Conn → Answer Socket
recovered net net' nc login c = do
  (f, s) ← ask net default_keys (request rq_relogin (relogin_payload login)) nc
  reply ← judge_relogin c.sid f
  (f', s') ← ask net' c.keys (request rq_recover (recover_payload reply.token c.seq)) s
  judge_recover c.last_type f' >>= λ _. answer s'

abbrev pub adopted : Conn → Answer Socket → Option SessionError × Conn
adopted c (answer s) = (none, record c { nc = some s; abandoned = [] })
adopted c (failed e) = (some e, c)

-- `net` is the network of the first exchange and `net'` that of the second.
unfoldable pub restore : Net → Net → Socket → Bytes → Conn → Option SessionError × Conn
unfolding recovered
restore net net' nc login c =
    if net.deadline_set then adopted c (recovered net net' nc login c) else (some deadline_error, c)
