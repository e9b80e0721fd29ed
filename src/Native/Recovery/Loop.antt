-- ===== src/Native/Recovery/Loop.antt =====
-- The recovery loop ends soon behind the session's timeout.
use txmlconnector.Common.{
  ℕ, zero, suc, ◌+◌, ◌*◌, ◌≤◌, ◌<◌, ◌≡◌, refl, arith, Bool, true, false, ◌&&◌, Option, none, some,
  List, [], ◌∷◌, Bytes,
}
use txmlconnector.Common.{length, ltb, ltb→le, if◌then◌else◌}
use txmlconnector.Session.Conn.{Conn}
use txmlconnector.Native.Recovery.{
  AttemptError, is_fatal, Try, short_recover, Outcome, context_ended, running, recovery_error,
  decided, recover_from, recover, recovery_retry_pause,
}

-- The clock shows this time at least in the first round, and a pause more in each that follows.
abbrev pub IsPaced : ℕ → List Try → Type 0
IsPaced base [] = Unit {0}
IsPaced base (t ∷ ts) = (base ≤ t.now) × IsPaced (base + recovery_retry_pause) ts

abbrev pub IsOver : Outcome × Option Conn → Type 0
IsOver (running, c) = ⊥
IsOver (o, c) = Unit {0}

if-IsOver :
    (b : Bool) (x y : Outcome × Option Conn)
    → IsOver x
    → (b ≡ false → IsOver y)
    → IsOver (if b then x else y)
if-IsOver true x y h k = h
if-IsOver false x y h k = k refl

decided-IsOver :
    (a : Option AttemptError × Option Conn) (rest : Outcome × Option Conn)
    → IsOver rest
    → IsOver (decided a.0 a.1 rest)
decided-IsOver (none, c) rest h = tt
decided-IsOver (some e, c) rest h =
    if-IsOver (is_fatal e) (recovery_error (some e), c) rest tt (λ b. h)

-- A round after which the loop is over, unless the deadline has not passed.
round-IsOver :
    (login : Bytes) (deadline : ℕ) (again : Bool) (last : Option AttemptError) (c : Option Conn)
    (t : Try) (ts : List Try)
    → (t.now ≤ deadline
        → IsOver (
            recover_from login deadline true
              (short_recover login t c).0
              (short_recover login t c).1
              ts))
    → IsOver (recover_from login deadline again last c (t ∷ ts))
unfolding recover_from
round-IsOver login deadline again last c t ts later =
    let a = short_recover login t c in
    let rest = recover_from login deadline true a.0 a.1 ts in
    if-IsOver t.ended (context_ended, c)
      (if again && t.cut_off
        then (context_ended, c)
        else if ltb deadline t.now
        then (recovery_error last, c)
        else decided a.0 a.1 rest)
      tt
      (λ b.
        if-IsOver (again && t.cut_off) (context_ended, c)
          (if ltb deadline t.now then (recovery_error last, c) else decided a.0 a.1 rest) tt
          (λ b.
            if-IsOver (ltb deadline t.now) (recovery_error last, c) (decided a.0 a.1 rest) tt
              (λ b. decided-IsOver a rest (later (ltb→le deadline t.now b)))))

recover_from-IsOver :
    (login : Bytes) (deadline base n : ℕ) (again : Bool) (last : Option AttemptError)
    (c : Option Conn) (tries : List Try)
    → length tries ≡ suc n
    → deadline < base + recovery_retry_pause * n
    → IsPaced base tries
    → IsOver (recover_from login deadline again last c tries)
recover_from-IsOver login deadline base n again last c [] e l p = ground arith
recover_from-IsOver login deadline base zero again last c (t ∷ ts) e l (q, p) =
    round-IsOver login deadline again last c t ts (λ k. ground arith)
recover_from-IsOver login deadline base (suc n) again last c (t ∷ ts) e l (q, p) =
    round-IsOver login deadline again last c t ts (λ k.
      recover_from-IsOver login deadline (base + recovery_retry_pause) n true
        (short_recover login t c).0 (short_recover login t c).1 ts (omega (arith, e))
        (omega (arith, l)) p)

-- If the clock goes on by the pause from round to round, the loop has ended behind n + 1 rounds, for any
-- n pauses that are longer than the session's timeout.
pub recover-IsOver :
    (login : Bytes) (started limit n : ℕ) (c : Option Conn) (tries : List Try)
    → length tries ≡ suc n
    → limit < recovery_retry_pause * n
    → IsPaced started tries
    → IsOver (recover login started limit c tries)
unfolding recover
recover-IsOver login started limit n c tries e l p =
    recover_from-IsOver login (started + limit) started n false none c tries e (omega (arith, l)) p
