-- ===== src/Native/Recovery/Timeouts.antt =====
-- The timeout of a request is within that of the session.
use txmlconnector.Common.{ℕ, ◌*◌, ◌^◌, ◌≤◌, ◌<◌, arith, Option, none, some}
use txmlconnector.Common.{Bool-cases, inl, inr, ◌==◌}
use txmlconnector.Native.Recovery.{
  millisecond, default_session_ttl, overridden_ttl, announced_ttl, effective_session_ttl,
  normalize_request_timeout,
}

overridden_ttl_lem : (x : ℕ) → (300 * millisecond ≤ overridden_ttl x) × (overridden_ttl x < 2 ^ 63)
overridden_ttl_lem x = ground arith

announced_ttl_lem : (v : ℕ) → (300 * millisecond ≤ announced_ttl v) × (announced_ttl v < 2 ^ 63)
announced_ttl_lem v = ground arith

effective_session_ttl_lem :
    (override : ℕ) (info : Option ℕ)
    → (300 * millisecond ≤ effective_session_ttl override info)
      × (effective_session_ttl override info < 2 ^ 63)
unfolding effective_session_ttl
effective_session_ttl_lem override info = elim (Bool-cases (override == 0)) [
  | inr e ↦ rw e (overridden_ttl_lem override)
  | inl e ↦ rw e (announced info)
]
  where
    announced :
        (info : Option ℕ)
        → (300 * millisecond
            ≤ (elim info [ none ↦ default_session_ttl | some v ↦ announced_ttl v ]))
          × ((elim info [ none ↦ default_session_ttl | some v ↦ announced_ttl v ]) < 2 ^ 63)
    announced none = (omega arith, omega arith)
    announced (some v) = announced_ttl_lem v

normalize_lem :
    (request ttl : ℕ)
    → 300 * millisecond ≤ ttl
    → (0 < normalize_request_timeout request ttl) × (normalize_request_timeout request ttl < ttl)
unfolding normalize_request_timeout
normalize_lem request ttl h = ground arith

-- Whatever is configured and whatever the server announced, the session's timeout is an int64 of 300
-- milliseconds at least, and the timeout of a request is positive and below it.
pub timeouts_in_order :
    (override request : ℕ) (info : Option ℕ)
    → (300 * millisecond ≤ effective_session_ttl override info)
      × (effective_session_ttl override info < 2 ^ 63)
      × (0 < normalize_request_timeout request (effective_session_ttl override info))
      × (normalize_request_timeout request (effective_session_ttl override info)
          < effective_session_ttl override info)
timeouts_in_order override request info =
    let (low, fits) = effective_session_ttl_lem override info in
    let (some_time, below) = normalize_lem request (effective_session_ttl override info) low in
    (low, fits, some_time, below)
