-- ===== src/Client/Reconnect/Delays.antt =====
-- The delays of the loop grow from the least to the greatest and stay between them.
use txmlconnector.Common.{ℕ, ◌*◌, ◌^◌, ◌≤◌, ◌<◌, arith, Bool, true, false, List, [], ◌∷◌}
use txmlconnector.Common.{All, ltb, if◌then◌else◌}
use txmlconnector.Client.Reconnect.{
  ReconnectConfig, second, positive_or, default_reconnect_config, normalize_reconnect_config,
  next_retry_delay, Attempt, no_client, session, Round, Supervised, stopped, waited, delay_after,
  is_over, supervise, run_with_reconnect,
}

-- The delays are positive int64s in order.
pub record IsUsable (c : ReconnectConfig) : Type 0 where
  pub min_positive : 0 < c.retry_min
  pub in_order : c.retry_min ≤ c.retry_max
  pub max_fits : c.retry_max < 2 ^ 63
  pub stable_positive : 0 < c.session_stable_after

positive_or_lem :
    (d x : ℕ) → 0 < d → d < 2 ^ 63 → (0 < positive_or d x) × (positive_or d x < 2 ^ 63)
positive_or_lem d x h k = ground arith

larger_lem :
    (low high : ℕ)
    → low < 2 ^ 63
    → high < 2 ^ 63
    → (low ≤ (if ltb high low then low else high)) × ((if ltb high low then low else high) < 2 ^ 63)
larger_lem low high h k = ground arith

pub normalize-IsUsable : (c : ReconnectConfig) → IsUsable (normalize_reconnect_config c)
unfolding normalize_reconnect_config
normalize-IsUsable c =
    let (lp, lf) =
      positive_or_lem default_reconnect_config.retry_min c.retry_min (omega arith) (omega arith) in
    let (hp, hf) =
      positive_or_lem default_reconnect_config.retry_max c.retry_max (omega arith) (omega arith) in
    let (sp, sf) =
      positive_or_lem default_reconnect_config.session_stable_after c.session_stable_after
        (omega arith) (omega arith) in
    let ordered =
      larger_lem (positive_or second c.retry_min) (positive_or (30 * second) c.retry_max) lf hf in
    record { min_positive = lp; in_order = ordered.0; max_fits = ordered.1; stable_positive = sp }

abbrev pub IsBetween : ReconnectConfig → ℕ → Type 0
IsBetween c d = (c.retry_min ≤ d) × (d ≤ c.retry_max)

next-IsBetween :
    (low high d : ℕ)
    → low ≤ d
    → d ≤ high
    → (low ≤ next_retry_delay d high) × (next_retry_delay d high ≤ high)
next-IsBetween low high d h k = ground arith

delay_after-IsBetween :
    (c : ReconnectConfig) (d : ℕ) (a : Attempt)
    → c.retry_min ≤ c.retry_max
    → c.retry_min ≤ d
    → d ≤ c.retry_max
    → (c.retry_min ≤ delay_after c d a) × (delay_after c d a ≤ c.retry_max)
delay_after-IsBetween c d no_client o h k = (h, k)
delay_after-IsBetween c d (session e lasted) o h k = ground arith

waited-All :
    (P : ℕ → Type 0) (d : ℕ) (cut_off : Bool) (rest : Supervised)
    → P d
    → All P rest.waits
    → All P (waited d cut_off rest).waits
waited-All P d true rest h k = (h, tt)
waited-All P d false rest h k = (h, k)

if-All :
    (P : ℕ → Type 0) (b : Bool) (s : Supervised)
    → All P s.waits
    → All P (if b then stopped else s).waits
if-All P true s h = tt
if-All P false s h = h

supervise-IsBetween :
    (c : ReconnectConfig) (d : ℕ) (rounds : List Round)
    → IsUsable c
    → IsBetween c d
    → All (IsBetween c) (supervise c d rounds).waits
unfolding supervise
supervise-IsBetween c d [] u h = tt
supervise-IsBetween c d (r ∷ rounds) u (l, k) =
    let now = delay_after c d r.attempt in
    let later = supervise c (next_retry_delay now c.retry_max) rounds in
    let (l', k') = delay_after-IsBetween c d r.attempt u.in_order l k in
    if-All (IsBetween c) r.ended
      (if is_over r r.attempt then stopped else waited now r.ended_waiting later)
      (if-All (IsBetween c) (is_over r r.attempt) (waited now r.ended_waiting later) (
        waited-All (IsBetween c) now r.ended_waiting later (l', k')
          (supervise-IsBetween c (next_retry_delay now c.retry_max) rounds u
            (next-IsBetween c.retry_min c.retry_max now l' k'))))

-- With any configuration and whatever fails, each wait between two clients is positive and lies between
-- the least and the greatest delay of the normalised configuration.
pub run_with_reconnect-IsBetween :
    (config : ReconnectConfig) (rounds : List Round)
    → (0 < (normalize_reconnect_config config).retry_min)
      × All (IsBetween (normalize_reconnect_config config)) (run_with_reconnect config rounds).waits
unfolding run_with_reconnect
run_with_reconnect-IsBetween config rounds =
    let u = normalize-IsUsable config in
    let normal = normalize_reconnect_config config in
    (u.min_positive, supervise-IsBetween normal normal.retry_min rounds u (omega arith, u.in_order))
