-- ===== src/Session/Requests/Closed.antt =====
-- A session that was left sends nothing more.
use txmlconnector.Common.{
  ℕ, ◌≡◌, refl, ap, ◌+◌, ◌%◌, ◌^◌, Bool, false, if◌then◌else◌, Option, none, some, [], ◌∷◌, Bytes,
}
use txmlconnector.Wire.Frame.{Frame}
use txmlconnector.Session.Payloads.{rq_logout}
use txmlconnector.Session.Conn.{
  closed, Answer, answer, failed, deadline_error, Socket, Net, Conn, counted, talk, exchange, close,
}
use txmlconnector.Session.Transact.{
  transact, counted_transact, talk_transact, transact_exchange, transact_reply,
}
use txmlconnector.Session.Requests.{left, logout}

left-closed : (x : Answer Frame × Conn) → (left x).1.nc ≡ none
unfolding close
left-closed (answer f, c) = refl
left-closed (failed e, c) = refl

exchange_closed :
    (net : Net) (type : ℕ) (payload : Bytes) (wait : Bool) (c : Conn)
    → c.nc ≡ none
    → exchange net type payload wait c ≡ (failed closed, c)
unfolding exchange
exchange_closed net type payload wait c e =
    ap
      (λ (n : Option Socket). elim n [
        | none ↦ (failed closed, c)
        | some s ↦
            if net.deadline_set
            then talk net type payload wait s (counted type c)
            else (failed deadline_error, c)
      ])
      e

transact_closed :
    (net : Net) (number : ℕ) (payload : Bytes) (c : Conn)
    → c.nc ≡ none
    → transact_exchange net number payload c ≡ (failed closed, c)
unfolding transact_exchange
transact_closed net number payload c e =
    ap
      (λ (n : Option Socket). elim n [
        | none ↦ (failed closed, c)
        | some s ↦
            if net.deadline_set
            then talk_transact net number payload s (counted_transact c)
            else (failed deadline_error, c)
      ])
      e

-- Behind a logout, whether it went through or not, every exchange and every transaction fails with
-- `closed` and leaves the connection, so that nothing is written.
pub logout_final :
    (net net' : Net) (c : Conn) (type : ℕ) (payload : Bytes) (wait : Bool)
    (kind transaction_seq : ℕ)
    → (exchange net' type payload wait (logout net c).1 ≡ (failed closed, (logout net c).1))
      × ((transact net' kind payload transaction_seq (logout net c).1).0.error ≡ some closed)
      × ((transact net' kind payload transaction_seq (logout net c).1).1 ≡ (logout net c).1)
unfolding logout transact transact_reply
logout_final net net' c type payload wait kind transaction_seq =
    let shut = left-closed (exchange net rq_logout [] false c) in
    let c' = (logout net c).1 in
    let e = transact_closed net' ((transaction_seq + 1) % 2 ^ 64) (kind ∷ payload) c' shut in
    (
      exchange_closed net' type payload wait c' shut,
      ap (λ x. (transact_reply ((transaction_seq + 1) % 2 ^ 64) x.0).error) e,
      ap (λ x. x.1) e,
    )
