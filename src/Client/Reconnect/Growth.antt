-- ===== src/Client/Reconnect/Growth.antt =====
-- While every session fails soon, the wait doubles until it is the greatest.
use txmlconnector.Common.{
  ℕ, zero, suc, ◌*◌, ◌/◌, ◌≤◌, ◌<◌, min, ◌≡◌, refl, sym, ap, ◌∙◌, arith, true, false, List, [], ◌∷◌,
}
use txmlconnector.Common.{All, Bool-cases, inl, inr, length, get_or, leb, if◌then◌else◌}
use txmlconnector.Client.Reconnect.{
  ReconnectConfig, normalize_reconnect_config, next_retry_delay, Attempt, no_client, session, Round,
  stopped, waited, delay_after, is_over, supervise, run_with_reconnect,
}
use txmlconnector.Client.Reconnect.Delays.{normalize-IsUsable}

-- A round that fails: no client, or a session that ends with an error before it counts as stable; the
-- context does not end.
abbrev pub HasFailed : ReconnectConfig → Attempt → Type 0
HasFailed c no_client = Unit {0}
HasFailed c (session error lasted) = (error ≡ true) × (lasted < c.session_stable_after)

pub record IsFailing (c : ReconnectConfig) (r : Round) : Type 0 where
  pub begun : r.ended ≡ false
  pub failed : HasFailed c r.attempt
  pub not_ended_after : r.ended_after ≡ false
  pub not_cut_off : r.ended_waiting ≡ false

abbrev pub doubled : ℕ → ℕ → ℕ
doubled zero x = x
doubled (suc n) x = doubled n (x * 2)

doubled_grows : (n x : ℕ) → x ≤ doubled n x
doubled_grows zero x = omega arith
doubled_grows (suc n) x = omega (arith, doubled_grows n (x * 2))

failing_delay : (c : ReconnectConfig) (d : ℕ) (a : Attempt) → HasFailed c a → delay_after c d a ≡ d
failing_delay c d no_client h = refl
failing_delay c d (session e lasted) (h, k) = ground arith

failing_goes_on :
    (c : ReconnectConfig) (r : Round) (a : Attempt)
    → HasFailed c a
    → r.ended_after ≡ false
    → is_over r a ≡ false
failing_goes_on c r no_client h k = refl
failing_goes_on c r (session true lasted) h k = k
failing_goes_on c r (session false lasted) (h, l) k = sym h

-- A failing round waits and goes on.
supervise_failing :
    (c : ReconnectConfig) (d : ℕ) (r : Round) (rounds : List Round)
    → IsFailing c r
    → supervise c d (r ∷ rounds)
      ≡ waited d false (supervise c (next_retry_delay d c.retry_max) rounds)
unfolding supervise
supervise_failing c d r rounds f =
    let now = delay_after c d r.attempt in
    let rest = λ (x : ℕ). supervise c (next_retry_delay x c.retry_max) rounds in
    ap
      (λ b.
        if b
        then stopped
        else if is_over r r.attempt
        then stopped
        else waited now r.ended_waiting (rest now))
      f.begun
    ∙ ap (λ b. if b then stopped else waited now r.ended_waiting (rest now))
        (failing_goes_on c r r.attempt f.failed f.not_ended_after)
    ∙ ap (λ b. waited now b (rest now)) f.not_cut_off
    ∙ ap (λ x. waited x false (rest x)) (failing_delay c d r.attempt f.failed)

grows :
    (c : ReconnectConfig) (x d n : ℕ) (rounds : List Round)
    → All (IsFailing c) rounds
    → n < length rounds
    → x ≤ d
    → d ≤ c.retry_max
    → min (doubled n x) c.retry_max ≤ get_or (supervise c d rounds).waits n 0
grows c x d n [] f h k m = ground arith
grows c x d zero (r ∷ rounds) (f, fs) h k m = rw (supervise_failing c d r rounds f) (omega arith)
grows c x d (suc n) (r ∷ rounds) (f, fs) h k m =
    rw (supervise_failing c d r rounds f) (elim (Bool-cases (leb (c.retry_max / 2) d)) [
      | inl e ↦ rw e (
          omega (
            arith,
            doubled_grows n c.retry_max,
            grows c c.retry_max c.retry_max n rounds fs (omega (arith, h)) (omega arith)
                (omega arith),
          ))
      | inr e ↦
          rw e (
            grows c (x * 2) (d * 2) n rounds fs (omega (arith, h)) (omega (arith, k))
              (ground arith))
    ])

-- If every round fails, with no stable session and a context that does not end, then the loop goes on
-- with a wait in each round, and the wait of round n, from 0, is at least the least delay doubled n
-- times, or the greatest delay where that is less.
pub run_with_reconnect_grows :
    (config : ReconnectConfig) (rounds : List Round) (n : ℕ)
    → All (IsFailing (normalize_reconnect_config config)) rounds
    → n < length rounds
    → min
        (doubled n (normalize_reconnect_config config).retry_min)
        (normalize_reconnect_config config).retry_max
      ≤ get_or (run_with_reconnect config rounds).waits n 0
unfolding run_with_reconnect
run_with_reconnect_grows config rounds n f h =
    let normal = normalize_reconnect_config config in
    grows normal normal.retry_min normal.retry_min n rounds f h (omega arith)
      (normalize-IsUsable config).in_order
