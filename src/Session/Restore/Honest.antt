-- ===== src/Session/Restore/Honest.antt =====
-- The recovery with the server that issued the keys, and with any network.
use txmlconnector.Common.{
  ℕ, ◌≤◌, ◌≡◌, refl, sym, ap, ◌∙◌, arith, Bool, true, false, ◌||◌, Option, none, some, [], ◌∷◌,
  ◌++◌, Bytes,
}
use txmlconnector.Common.{
  Bool-cases, inl, inr, length, length-append, length-take, take, ◌==◌, ==_refl, if◌then◌else◌, ok,
}
use txmlconnector.Wire.Frame.{Frame, Keys, server_to_client, decode, default_keys, max_payload}
use txmlconnector.Wire.Writer.{write_string, before_nul}
use txmlconnector.Session.Payloads.{
  max_login, rq_relogin, rq_recover, relogin_payload, recover_payload,
}
use txmlconnector.Session.Replies.{ReloginReply, parse_relogin_reply}
use txmlconnector.Session.Conn.{
  SessionError, deadline_error, Answer, answer, failed, Socket, Net, Conn, request,
}
use txmlconnector.Session.Conn.Pairing.{IsReply, wire_of, stream, decode-wire_of}
use txmlconnector.Session.Conn.Exchange.{encoded, encode-encoded}
use txmlconnector.Session.Restore.{
  ◌>>=◌ as then_answer, ask, judge_relogin, judge_recover, recovered, adopted, restore,
}

-- A request that is let through and answered with one frame, on a socket without unread bytes.
ask_answered :
    (net : Net) (k : Keys) (f g : Frame) (s : Socket)
    → length f.payload ≤ max_payload
    → net.write_limit ≡ none
    → s.unread ≡ []
    → IsReply g
    → net.arrives ≡ stream k (g ∷ [])
    → ask net k f s ≡ answer (g, record { unread = []; sent = s.sent ++ encoded k f })
unfolding ask stream
ask_answered net k f g s l w u h a =
    let come : s.unread ++ net.arrives ≡ wire_of k g ++ [] = ap (λ x. x ++ net.arrives) u ∙ a in
    rw (encode-encoded k f l, ask)
      (rw (w, ask) (rw (ap (decode k server_to_client) come ∙ decode-wire_of k g [] h, ask) refl))

-- What the server of this connection sends on the new socket: the token and its id under the default
-- keys, and a reply under the keys of the session.
pub record IsSame (net net' : Net) (c : Conn) (first second : Frame) (reply : ReloginReply)
    : Type 0 where
  pub in_time : net.deadline_set ≡ true
  pub writes : net.write_limit ≡ none
  pub first_reply : IsReply first
  pub first_type : first.type ≡ rq_relogin
  pub first_brought : net.arrives ≡ stream default_keys (first ∷ [])
  pub parsed : parse_relogin_reply first.payload ≡ ok reply
  pub same_sid : reply.sid ≡ c.sid
  pub token_fits : length (recover_payload reply.token c.seq) ≤ max_payload
  pub writes_again : net'.write_limit ≡ none
  pub second_reply : IsReply second
  pub second_type : (second.type == rq_recover || second.type == c.last_type) ≡ true
  pub second_brought : net'.arrives ≡ stream c.keys (second ∷ [])

judge_relogin_same :
    (sid : ℕ) (f : Frame) (reply : ReloginReply)
    → IsReply f
    → f.type ≡ rq_relogin
    → parse_relogin_reply f.payload ≡ ok reply
    → reply.sid ≡ sid
    → judge_relogin sid f ≡ answer reply
unfolding judge_relogin
judge_relogin_same sid f reply h t p s =
    rw h.is_reply (rw t (rw (p, judge_relogin) (rw s (rw (==_refl sid) refl))))

judge_recover_own :
    (last_type : ℕ) (f : Frame)
    → IsReply f
    → (f.type == rq_recover || f.type == last_type) ≡ true
    → judge_recover last_type f ≡ answer tt
unfolding judge_recover
judge_recover_own last_type f h t = elim (Bool-cases (f.type == rq_recover)) [
  | inl e ↦ rw h.is_reply (rw e refl)
  | inr e ↦
      let last : (f.type == last_type) ≡ true = ap (λ b. b || f.type == last_type) (sym e) ∙ t in
      rw h.is_reply (rw e (rw last refl))
]

relogin_payload-fits : (login : Bytes) → length (relogin_payload login) ≤ max_payload
unfolding relogin_payload write_string
relogin_payload-fits login =
    let text = take max_login (before_nul login) in
    omega (arith, length-append text (0 ∷ []), length-take max_login (before_nul login))

-- If the server has the id of the connection and answers both requests, the recovery succeeds on the
-- new socket: the keys, the id and the counts stay, no reply is owed, and what was written are the two
-- requests, the first under the default keys and the second, with the token and the count of requests,
-- under those of the session.
pub restore_resumes :
    (net net' : Net) (nc : Socket) (login : Bytes) (c : Conn) (first second : Frame)
    (reply : ReloginReply)
    → nc.unread ≡ []
    → IsSame net net' c first second reply
    → restore net net' nc login c ≡ (
      none,
      record c {
        nc = some (record {
          unread = [];
          sent =
              (nc.sent ++ encoded default_keys (request rq_relogin (relogin_payload login)))
              ++ encoded c.keys (request rq_recover (recover_payload reply.token c.seq));
        });
        abandoned = [];
      },
    )
unfolding restore recovered
restore_resumes net net' nc login c first second reply empty same =
    let relogin = request rq_relogin (relogin_payload login) in
    let recover = request rq_recover (recover_payload reply.token c.seq) in
    let s : Socket = record { unread = []; sent = nc.sent ++ encoded default_keys relogin } in
    let s' : Socket = record { unread = []; sent = s.sent ++ encoded c.keys recover } in
    let then_recover = λ (f : Frame) (s : Socket) (reply : ReloginReply).
      then_answer (ask net' c.keys (request rq_recover (recover_payload reply.token c.seq)) s)
        (λ x. then_answer (judge_recover c.last_type x.0) (λ _. answer x.1)) in
    ap (λ b. if b then adopted c (recovered net net' nc login c) else (some deadline_error, c))
      same.in_time
    ∙ ap (adopted c) (
        ap (λ r. then_answer r (λ x. then_answer (judge_relogin c.sid x.0) (then_recover x.0 x.1)))
          (ask_answered net default_keys relogin first nc (relogin_payload-fits login) same.writes
            empty same.first_reply same.first_brought)
        ∙ ap (λ r. then_answer r (then_recover first s))
            (judge_relogin_same c.sid first reply same.first_reply same.first_type same.parsed
              same.same_sid)
        ∙ ap
            (λ r.
              then_answer r (λ x. then_answer (judge_recover c.last_type x.0) (λ _. answer x.1)))
            (ask_answered net' c.keys recover second s same.token_fits same.writes_again refl
              same.second_reply same.second_brought)
        ∙ ap (λ r. then_answer r (λ _. answer s'))
            (judge_recover_own c.last_type second same.second_reply same.second_type))

-- A recovery keeps the keys, the id and the counts.
pub record IsKept (c c' : Conn) : Type 0 where
  pub keys_kept : c'.keys ≡ c.keys
  pub sid_kept : c'.sid ≡ c.sid
  pub seq_kept : c'.seq ≡ c.seq
  pub type_kept : c'.last_type ≡ c.last_type

-- The connection did not change, or it has a new socket and nothing abandoned.
abbrev pub IsSettled : Conn → Option SessionError × Conn → Type 0
IsSettled c (some e, c') = c' ≡ c
IsSettled c (none, c') = IsKept c c' × (c'.abandoned ≡ [])

adopted-IsSettled : (c : Conn) (a : Answer Socket) → IsSettled c (adopted c a)
adopted-IsSettled c (answer s) =
    (record { keys_kept = refl; sid_kept = refl; seq_kept = refl; type_kept = refl }, refl)
adopted-IsSettled c (failed e) = refl

-- Whatever the network does, a recovery that fails leaves the connection as it was, and one that
-- succeeds keeps its keys, its id and its counts and forgets the abandoned requests.
pub restore-IsSettled :
    (net net' : Net) (nc : Socket) (login : Bytes) (c : Conn)
    → IsSettled c (restore net net' nc login c)
unfolding restore
restore-IsSettled net net' nc login c = at_deadline net.deadline_set
  where
    at_deadline :
        (b : Bool)
        → IsSettled c
            (if b then adopted c (recovered net net' nc login c) else (some deadline_error, c))
    at_deadline true = adopted-IsSettled c (recovered net net' nc login c)
    at_deadline false = refl
