-- ===== src/Native/Recovery.antt =====
-- native/recover.go: the timeouts of a session, and the loop that takes it up again over new sockets.
-- A `time.Duration` is the bit pattern of its nanoseconds. What the clock, the context, the dialler and
-- the network do during an attempt is a parameter of it.
pub mod Timeouts
pub mod Loop
pub mod Outcomes
use txmlconnector.Common.{
  ℕ, ◌+◌, ◌*◌, ◌/◌, Bool, true, false, not, ◌&&◌, ◌||◌, Option, none, some, List, [], ◌∷◌, Bytes,
}
use txmlconnector.Common.{ltb, leb, ◌==◌, if◌then◌else◌, payload_crc}
use txmlconnector.Wire.Words.{is_negative, is_negative32}
use txmlconnector.Session.Payloads.{rq_recover}
use txmlconnector.Session.Conn.{
  SessionError, bye, incorrect_relogin, incorrect_recover, frame_error, Socket, Net, Conn,
}
use txmlconnector.Session.Restore.{restore}

abbrev pub millisecond : ℕ
millisecond = 1000000

abbrev pub second : ℕ
second = 1000000000

abbrev pub recovery_retry_pause : ℕ
recovery_retry_pause = second

abbrev pub default_session_ttl : ℕ
default_session_ttl = 120 * second

abbrev pub default_request_timeout : ℕ
default_request_timeout = 20 * second

-- The override in nanoseconds, where it is not 0.
abbrev pub overridden_ttl : ℕ → ℕ
overridden_ttl override =
    if is_negative override || ltb override (20 * second)
    then 20 * second
    else if ltb override (300 * second)
    then override
    else override / second * millisecond

-- The int32 of the RQ_PWD reply.
abbrev pub announced_ttl : ℕ → ℕ
announced_ttl v =
    if is_negative32 v || ltb v 20
    then 20 * second
    else if ltb v 300
    then v * second
    else v * millisecond

-- `info` is the session timeout of the login's reply, where there is one.
unfoldable pub effective_session_ttl : ℕ → Option ℕ → ℕ
effective_session_ttl override info =
    if override == 0
    then elim info [ none ↦ default_session_ttl | some v ↦ announced_ttl v ]
    else overridden_ttl override

-- For a `session_ttl` that is not negative.
unfoldable pub normalize_request_timeout : ℕ → ℕ → ℕ
normalize_request_timeout request session_ttl =
    let asked = if is_negative request || request == 0 then default_request_timeout else request in
    if ltb 0 session_ttl && leb session_ttl asked then session_ttl / 2 else asked

abbrev pub is_fatal_recover_error : SessionError → Bool
is_fatal_recover_error (bye p) = true
is_fatal_recover_error incorrect_relogin = true
is_fatal_recover_error incorrect_recover = true
is_fatal_recover_error (frame_error (payload_crc flags type)) = type == rq_recover
is_fatal_recover_error e = false

-- An error of an attempt.
pub data AttemptError : Type 0 where
  fatal_set gone dial_error : AttemptError
  not_restored : SessionError → AttemptError

abbrev pub is_fatal : AttemptError → Bool
is_fatal (not_restored e) = is_fatal_recover_error e
is_fatal e = false

-- One round of the loop: whether the context has ended at its start and in its pause, what the clock
-- shows behind the pause, whether the client has a fatal error, the socket that `Dial` gives, and the
-- network of the two exchanges.
pub record Try : Type 0 where
  pub ended : Bool
  pub cut_off : Bool
  pub now : ℕ
  pub fatal : Bool
  pub dialled : Option Socket
  pub net : Net
  pub net_again : Net

abbrev pub as_attempt : Option SessionError × Conn → Option AttemptError × Option Conn
as_attempt (none, c) = (none, some c)
as_attempt (some e, c) = (some (not_restored e), some c)

-- `shortRecover`; the client's connection may be gone.
unfoldable pub short_recover : Bytes → Try → Option Conn → Option AttemptError × Option Conn
short_recover login t none = (some (if t.fatal then fatal_set else gone), none)
short_recover login t (some c) = if t.fatal then (some fatal_set, some c) else elim (t.dialled) [
  | none ↦ (some dial_error, some c)
  | some nc ↦ as_attempt (restore t.net t.net_again nc login c)
]

-- How the loop ends; `running` where the rounds are over before it does. With no error behind it, no
-- attempt was made within the timeout.
pub data Outcome : Type 0 where
  restored context_ended running : Outcome
  recovery_error : Option AttemptError → Outcome

-- The result of an attempt, with what follows if the loop goes on.
abbrev pub decided :
    Option AttemptError → Option Conn → Outcome × Option Conn → Outcome × Option Conn
decided none c rest = (restored, c)
decided (some e) c rest = if is_fatal e then (recovery_error (some e), c) else rest

-- The loop behind the first attempt where `again` holds.
unfoldable pub recover_from :
    Bytes → ℕ → Bool → Option AttemptError → Option Conn → List Try → Outcome × Option Conn
unfolding short_recover
recover_from login deadline again last c [] = (running, c)
recover_from login deadline again last c (t ∷ ts) =
    let (e, c') = short_recover login t c in
    let rest = recover_from login deadline true e c' ts in
    if t.ended
    then (context_ended, c)
    else if again && t.cut_off
    then (context_ended, c)
    else if ltb deadline t.now
    then (recovery_error last, c)
    else decided e c' rest

-- `recover`, begun at this time.
unfoldable pub recover : Bytes → ℕ → ℕ → Option Conn → List Try → Outcome × Option Conn
unfolding recover_from
recover login started limit c tries = recover_from login (started + limit) false none c tries
