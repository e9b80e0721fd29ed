-- ===== src/Native/Runs.antt =====
-- Concrete runs of the recovery.
use txmlconnector.Common.{
  ℕ, ◌+◌, ◌*◌, ◌^◌, ◌≤◌, ◌<◌, ◌≡◌, refl, arith, true, false, none, some, List, [], ◌∷◌, ◌++◌, ap,
}
use txmlconnector.Wire.Frame.{default_keys}
use txmlconnector.Session.Conn.{Net, Conn, request}
use txmlconnector.Session.Conn.Pairing.{stream}
use txmlconnector.Session.Conn.Exchange.{encoded}
use txmlconnector.Session.Payloads.{rq_relogin, rq_recover, relogin_payload, recover_payload}
use txmlconnector.Session.Restore.Honest.{restore_resumes}
use txmlconnector.Session.Runs.{
  new_socket, busy, reply_of, good_net, token_reply, token_reply-IsSame,
}
use txmlconnector.Native.Recovery.{
  millisecond, second, effective_session_ttl, normalize_request_timeout, dial_error, Try,
  short_recover, restored, running, recovery_error, as_attempt, decided, recover_from, recover,
}
use txmlconnector.Native.Recovery.Timeouts.{timeouts_in_order}
use txmlconnector.Native.Recovery.Outcomes.{IsResult, recover-IsResult}
use txmlconnector.Native.Recovery.Loop.{IsOver, recover-IsOver}

abbrev dead_net : Net
dead_net = record { deadline_set = true; write_limit = some 0; arrives = []; ended = false }

abbrev lost : Conn
lost = record { nc = none; keys = default_keys; sid = 3; seq = 9; last_type = 7; abandoned = [] }

abbrev no_dial : ℕ → Try
no_dial now = record {
  ended = false;
  cut_off = false;
  now = now;
  fatal = false;
  dialled = none;
  net = dead_net;
  net_again = dead_net;
}

timeouts_in_order_example :
    (300 * millisecond ≤ effective_session_ttl (300 * second) none)
    × (effective_session_ttl (300 * second) none < 2 ^ 63)
    × (0 < normalize_request_timeout 0 (effective_session_ttl (300 * second) none))
    × (normalize_request_timeout 0 (effective_session_ttl (300 * second) none)
        < effective_session_ttl (300 * second) none)
timeouts_in_order_example = timeouts_in_order (300 * second) 0 none

-- A round that cannot dial, and one with the server of the session.
abbrev two_rounds : List Try
two_rounds =
    no_dial 0
    ∷ record (no_dial second) {
      dialled = some new_socket;
      net = good_net (stream default_keys (token_reply ∷ []));
      net_again = good_net (stream default_keys (reply_of 7 [] ∷ []));
    }
    ∷ []

-- The second round restores.
second_restores : recover (65 ∷ []) 0 (2 * second) (some busy) two_rounds ≡ (
  restored,
  some (record busy {
    nc = some (record {
      unread = [];
      sent =
          encoded default_keys (request rq_relogin (relogin_payload (65 ∷ [])))
          ++ encoded default_keys (request rq_recover (recover_payload (10 ∷ 11 ∷ []) 9));
    });
    abandoned = [];
  }),
)
unfolding recover recover_from short_recover
second_restores =
    ap (λ x. decided (as_attempt x).0 (as_attempt x).1 (running, (as_attempt x).1))
      (restore_resumes (good_net (stream default_keys (token_reply ∷ [])))
        (good_net (stream default_keys (reply_of 7 [] ∷ []))) new_socket (65 ∷ []) busy token_reply
        (reply_of 7 []) (record { token = 10 ∷ 11 ∷ []; sid = 3 }) refl token_reply-IsSame)

recover-IsResult_example :
    IsResult
      (65 ∷ [])
      (0 + 2 * second)
      two_rounds
      (some busy)
      (recover (65 ∷ []) 0 (2 * second) (some busy) two_rounds)
recover-IsResult_example = recover-IsResult (65 ∷ []) 0 (2 * second) (some busy) two_rounds

recover-IsOver_example :
    IsOver (recover [] 0 millisecond (some lost) (no_dial 0 ∷ no_dial second ∷ []))
recover-IsOver_example =
    recover-IsOver [] 0 millisecond 1 (some lost) (no_dial 0 ∷ no_dial second ∷ []) refl
      (omega arith) (omega arith)

-- Five minutes in the configuration are 300 milliseconds.
minutes_are_short : effective_session_ttl (300 * second) none ≡ 300 * millisecond
unfolding effective_session_ttl
minutes_are_short = refl

-- The last error is reported when the time is over.
given_up_late :
    recover [] 0 millisecond (some lost) (no_dial 0 ∷ no_dial second ∷ [])
    ≡ (recovery_error (some dial_error), some lost)
unfolding recover recover_from short_recover
given_up_late = refl
