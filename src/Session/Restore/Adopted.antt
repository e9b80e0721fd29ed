-- ===== src/Session/Restore/Adopted.antt =====
-- The socket that the recovery takes over, with any network.
use txmlconnector.Common.{◌≡◌, refl, sym, ap, ◌∙◌, arith, Bool, true, false, Option, none, some}
use txmlconnector.Common.{ℕ, [], ◌++◌, Bytes, if◌then◌else◌, ok}
use txmlconnector.Wire.Frame.{Frame, Keys, server_to_client, decode, default_keys}
use txmlconnector.Session.Payloads.{rq_relogin, rq_recover, relogin_payload, recover_payload}
use txmlconnector.Session.Replies.{ReloginReply, parse_relogin_reply}
use txmlconnector.Session.Conn.{
  SessionError, deadline_error, Answer, answer, failed, Socket, Net, Conn, request,
}
use txmlconnector.Session.Conn.Exchange.{encoded}
use txmlconnector.Session.Restore.{
  ◌>>=◌ as then_answer, ask, judge_relogin, judge_recover, recovered, adopted, restore,
}

-- The connection's socket is this one with the two requests written to it, the first under the default
-- keys and the second, with the server's token and the count of requests, under those of the session.
-- The token comes with the id of the connection in what the server sent.
pub record IsOpened (net : Net) (login : Bytes) (nc : Socket) (c c' : Conn) : Type 0 where
  pub socket : Socket
  pub first : Frame
  pub rest : Bytes
  pub reply : ReloginReply
  pub open_nc : c'.nc ≡ some socket
  pub brought : decode default_keys server_to_client (nc.unread ++ net.arrives) ≡ ok (first, rest)
  pub parsed : parse_relogin_reply first.payload ≡ ok reply
  pub same_sid : reply.sid ≡ c.sid
  pub written :
      socket.sent
      ≡ (nc.sent ++ encoded default_keys (request rq_relogin (relogin_payload login)))
        ++ encoded c.keys (request rq_recover (recover_payload reply.token c.seq))

-- A request that is answered was written, and the answer is the frame that came.
ask_writes :
    (net : Net) (k : Keys) (f g : Frame) (s s' : Socket)
    → ask net k f s ≡ answer (g, s')
    → (s'.sent ≡ s.sent ++ encoded k f)
      × (decode k server_to_client (s.unread ++ net.arrives) ≡ ok (g, s'.unread))
unfolding ask
ask_writes net k f g s s' h = (ground arith, ground arith)

-- Both parts of a sequence that is answered are.
then_answered :
    {A B : Type 0} (m : Answer A) (next : A → Answer B) (b : B)
    → then_answer m next ≡ answer b
    → (a : A) × (m ≡ answer a) × (next a ≡ answer b)
then_answered (answer a) next b h = (a, refl, h)
then_answered (failed e) next b h = cc

judge_relogin_answered :
    (sid : ℕ) (f : Frame) (reply : ReloginReply)
    → judge_relogin sid f ≡ answer reply
    → (parse_relogin_reply f.payload ≡ ok reply) × (reply.sid ≡ sid)
unfolding judge_relogin
judge_relogin_answered sid f reply h = (ground arith, ground arith)

answer_injective : (s t : Socket) → answer s ≡ answer t → s ≡ t
answer_injective s t h = cc

-- The facts of the two exchanges, put together.
exchanged-IsOpened :
    (net net' : Net) (nc s t s' : Socket) (login : Bytes) (c : Conn) (f g : Frame)
    (reply : ReloginReply)
    → ask net default_keys (request rq_relogin (relogin_payload login)) nc ≡ answer (f, s)
    → judge_relogin c.sid f ≡ answer reply
    → ask net' c.keys (request rq_recover (recover_payload reply.token c.seq)) s ≡ answer (g, t)
    → answer t ≡ answer s'
    → IsOpened net login nc c (record c { nc = some s'; abandoned = [] })
exchanged-IsOpened net net' nc s t s' login c f g reply e1 e2 e3 e4 =
    let (w1, d1) =
      ask_writes net default_keys (request rq_relogin (relogin_payload login)) f nc s e1 in
    let (p, sid) = judge_relogin_answered c.sid f reply e2 in
    let recover = request rq_recover (recover_payload reply.token c.seq) in
    let (w2, d2) = ask_writes net' c.keys recover g s t e3 in
    record {
      socket = s';
      first = f;
      rest = s.unread;
      reply = reply;
      open_nc = refl;
      brought = d1;
      parsed = p;
      same_sid = sid;
      written =
          ap (λ (x : Socket). x.sent) (sym (answer_injective t s' e4))
          ∙ w2
          ∙ ap (λ x. x ++ encoded c.keys recover) w1;
    }

recovered-IsOpened :
    (net net' : Net) (nc s : Socket) (login : Bytes) (c : Conn)
    → recovered net net' nc login c ≡ answer s
    → IsOpened net login nc c (record c { nc = some s; abandoned = [] })
unfolding recovered
recovered-IsOpened net net' nc s login c h =
    let relogin = request rq_relogin (relogin_payload login) in
    let (x, e1, h1) = then_answered (ask net default_keys relogin nc) _ s h in
    let (reply, e2, h2) = then_answered (judge_relogin c.sid x.0) _ s h1 in
    let recover = request rq_recover (recover_payload reply.token c.seq) in
    let (y, e3, h3) = then_answered (ask net' c.keys recover x.1) _ s h2 in
    let (u, e4, h4) = then_answered (judge_recover c.last_type y.0) _ s h3 in
    exchanged-IsOpened net net' nc x.1 y.1 s login c x.0 y.0 reply e1 e2 e3 h4

-- A recovery that succeeds opened its socket.
abbrev pub IsTaken : Net → Bytes → Socket → Conn → Option SessionError × Conn → Type 0
IsTaken net login nc c (none, c') = IsOpened net login nc c c'
IsTaken net login nc c (some e, c') = Unit {0}

adopted-IsTaken :
    (net : Net) (nc : Socket) (login : Bytes) (c : Conn) (a : Answer Socket)
    → ((s : Socket)
        → a ≡ answer s
        → IsOpened net login nc c (record c { nc = some s; abandoned = [] }))
    → IsTaken net login nc c (adopted c a)
adopted-IsTaken net nc login c (answer s) h = h s refl
adopted-IsTaken net nc login c (failed e) h = tt

pub restore-IsTaken :
    (net net' : Net) (nc : Socket) (login : Bytes) (c : Conn)
    → IsTaken net login nc c (restore net net' nc login c)
unfolding restore
restore-IsTaken net net' nc login c = at_deadline net.deadline_set
  where
    at_deadline :
        (b : Bool)
        → IsTaken net login nc c
            (if b then adopted c (recovered net net' nc login c) else (some deadline_error, c))
    at_deadline true =
        adopted-IsTaken net nc login c (recovered net net' nc login c)
          (λ s. recovered-IsOpened net net' nc s login c)
    at_deadline false = tt
