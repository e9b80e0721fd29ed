-- ===== src/Client/Reconnect.antt =====
-- client/reconnect.go: the loop that makes a client again when its session fails. A `time.Duration` is
-- the bit pattern of its nanoseconds. What the factory, the session and the context do in a round of the
-- loop is a parameter.
pub mod Delays
pub mod Growth
use txmlconnector.Common.{
  ℕ, ◌*◌, ◌/◌, ◌^◌, Bool, true, false, ◌||◌, List, [], ◌∷◌, ltb, leb, ◌==◌, if◌then◌else◌,
}
use txmlconnector.Wire.Words.{is_negative}

pub record ReconnectConfig : Type 0 where
  pub retry_min : ℕ
  pub retry_max : ℕ
  pub session_stable_after : ℕ
  pub disconnect_timeout : ℕ

abbrev pub second : ℕ
second = 1000000000

abbrev pub default_reconnect_config : ReconnectConfig
default_reconnect_config = record {
  retry_min = second;
  retry_max = 30 * second;
  session_stable_after = 60 * second;
  disconnect_timeout = 2 * second;
}

-- `x <= 0`.
abbrev pub not_positive : ℕ → Bool
not_positive x = is_negative x || x == 0

abbrev pub positive_or : ℕ → ℕ → ℕ
positive_or default x = if not_positive x then default else x

-- Both delays are positive where they are compared.
unfoldable pub normalize_reconnect_config : ReconnectConfig → ReconnectConfig
normalize_reconnect_config config =
    let low = positive_or default_reconnect_config.retry_min config.retry_min in
    let high = positive_or default_reconnect_config.retry_max config.retry_max in
    record {
      retry_min = low;
      retry_max = if ltb high low then low else high;
      session_stable_after =
          positive_or default_reconnect_config.session_stable_after config.session_stable_after;
      disconnect_timeout =
          if config.disconnect_timeout == 0
          then default_reconnect_config.disconnect_timeout
          else config.disconnect_timeout;
    }

-- For delays that are positive.
abbrev pub next_retry_delay : ℕ → ℕ → ℕ
next_retry_delay current maximum = if leb (maximum / 2) current then maximum else current * 2

-- What comes of making a client and running its session: no client, or a session that ends, with an
-- error or not, behind so many nanoseconds.
pub data Attempt : Type 0 where
  no_client : Attempt
  session : Bool → ℕ → Attempt

-- One round of the loop: whether the context has ended at its start, the attempt, and whether the
-- context has ended when the session returns and when the wait does.
pub record Round : Type 0 where
  pub ended : Bool
  pub attempt : Attempt
  pub ended_after : Bool
  pub ended_waiting : Bool

-- The waits of the loop, and whether it returned; it has not where the rounds are over.
pub record Supervised : Type 0 where
  pub waits : List ℕ
  pub returned : Bool

abbrev pub stopped : Supervised
stopped = record { waits = []; returned = true }

-- A wait, and what follows if it is not cut off.
abbrev pub waited : ℕ → Bool → Supervised → Supervised
waited delay cut_off rest =
    if cut_off
    then record { waits = delay ∷ []; returned = true }
    else record { waits = delay ∷ rest.waits; returned = rest.returned }

-- The delay behind an attempt: a stable session resets it.
abbrev pub delay_after : ReconnectConfig → ℕ → Attempt → ℕ
delay_after config delay no_client = delay
delay_after config delay (session error lasted) =
    if leb config.session_stable_after lasted then config.retry_min else delay

-- Whether the loop returns behind the attempt.
abbrev pub is_over : Round → Attempt → Bool
is_over r no_client = false
is_over r (session true lasted) = r.ended_after
is_over r (session false lasted) = true

unfoldable pub supervise : ReconnectConfig → ℕ → List Round → Supervised
supervise config delay [] = record { waits = []; returned = false }
supervise config delay (r ∷ rounds) =
    let now = delay_after config delay r.attempt in
    let rest = supervise config (next_retry_delay now config.retry_max) rounds in
    if r.ended
    then stopped
    else if is_over r r.attempt
    then stopped
    else waited now r.ended_waiting rest

-- `RunWithReconnect` with a context, a factory and a session.
unfoldable pub run_with_reconnect : ReconnectConfig → List Round → Supervised
unfolding supervise
run_with_reconnect config rounds =
    let normal = normalize_reconnect_config config in supervise normal normal.retry_min rounds
