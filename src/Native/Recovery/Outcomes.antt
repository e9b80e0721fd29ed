-- ===== src/Native/Recovery/Outcomes.antt =====
-- What a recovery comes to: the connection changes only where it succeeds.
use txmlconnector.Common.{
  ℕ, ◌+◌, ◌≤◌, ◌≡◌, refl, ap, Bool, true, false, ◌&&◌, ◌⊎◌, inl, inr, Option, none, some, List, [],
  ◌∷◌, Bytes,
}
use txmlconnector.Common.{ltb, ltb→le, if◌then◌else◌}
use mathlib.Core.Path.{subst}
use txmlconnector.Session.Conn.{SessionError, Socket, Conn}
use txmlconnector.Session.Restore.{restore}
use txmlconnector.Session.Restore.Honest.{IsKept, IsSettled, restore-IsSettled}
use txmlconnector.Session.Restore.Adopted.{IsOpened, IsTaken, restore-IsTaken}
use txmlconnector.Native.Recovery.{
  AttemptError, fatal_set, dial_error, is_fatal, Try, as_attempt, short_recover, Outcome, restored,
  context_ended, running, recovery_error, decided, recover_from, recover,
}

-- The connection that an attempt with this socket makes of another.
pub record IsResumed (login : Bytes) (t : Try) (nc : Socket) (c c' : Conn) : Type 0 where
  pub not_fatal : t.fatal ≡ false
  pub dialled : t.dialled ≡ some nc
  pub kept : IsKept c c'
  pub forgotten : c'.abandoned ≡ []
  pub opened : IsOpened t.net login nc c c'

abbrev pub IsTakenUp : Bytes → Try → Option Conn → Option Conn → Type 0
IsTakenUp login t (some c) (some c') = (nc : Socket) × IsResumed login t nc c c'
IsTakenUp login t c c' = ⊥

-- One of the rounds took the connection up again: its context had not ended and its time was not over.
abbrev pub IsRestored : Bytes → ℕ → List Try → Option Conn → Option Conn → Type 0
IsRestored login deadline [] c c' = ⊥
IsRestored login deadline (t ∷ ts) c c' =
    ((t.ended ≡ false) × (t.now ≤ deadline) × IsTakenUp login t c c')
    ⊎ IsRestored login deadline ts c c'

abbrev pub IsResult : Bytes → ℕ → List Try → Option Conn → Outcome × Option Conn → Type 0
IsResult login deadline tries c (restored, c') = IsRestored login deadline tries c c'
IsResult login deadline tries c (o, c') = c' ≡ c

-- An attempt that fails leaves the connection.
abbrev IsTried : Bytes → Try → Option Conn → Option AttemptError × Option Conn → Type 0
IsTried login t c (none, c') = IsTakenUp login t c c'
IsTried login t c (some e, c') = c' ≡ c

as_attempt-IsTried :
    (login : Bytes) (t : Try) (nc : Socket) (c : Conn) (x : Option SessionError × Conn)
    → t.fatal ≡ false
    → t.dialled ≡ some nc
    → IsSettled c x
    → IsTaken t.net login nc c x
    → IsTried login t (some c) (as_attempt x)
as_attempt-IsTried login t nc c (none, c') f d h k =
    (nc, record { not_fatal = f; dialled = d; kept = h.0; forgotten = h.1; opened = k })
as_attempt-IsTried login t nc c (some e, c') f d h k = ap (λ x. some x) h

dialled-IsTried :
    (login : Bytes) (t : Try) (c : Conn) (n : Option Socket)
    → t.fatal ≡ false
    → t.dialled ≡ n
    → IsTried login t (some c) (elim n [
      | none ↦ (some dial_error, some c)
      | some nc ↦ as_attempt (restore t.net t.net_again nc login c)
    ])
dialled-IsTried login t c none f d = refl
dialled-IsTried login t c (some nc) f d =
    as_attempt-IsTried login t nc c (restore t.net t.net_again nc login c) f d
      (restore-IsSettled t.net t.net_again nc login c)
      (restore-IsTaken t.net t.net_again nc login c)

short_recover-IsTried :
    (login : Bytes) (t : Try) (c : Option Conn) → IsTried login t c (short_recover login t c)
unfolding short_recover
short_recover-IsTried login t none = refl
short_recover-IsTried login t (some c) = by_fatal t.fatal refl
  where
    by_fatal :
        (b : Bool)
        → t.fatal ≡ b
        → IsTried login t (some c) (
            if b then (some fatal_set, some c) else elim (t.dialled) [
              | none ↦ (some dial_error, some c)
              | some nc ↦ as_attempt (restore t.net t.net_again nc login c)
            ])
    by_fatal true f = refl
    by_fatal false f = dialled-IsTried login t c t.dialled f refl

-- A test between two results of the loop; the second may use that it failed.
if-IsResult :
    (login : Bytes) (deadline : ℕ) (tries : List Try) (c : Option Conn) (b : Bool)
    (x y : Outcome × Option Conn)
    → IsResult login deadline tries c x
    → (b ≡ false → IsResult login deadline tries c y)
    → IsResult login deadline tries c (if b then x else y)
if-IsResult login deadline tries c true x y h k = h
if-IsResult login deadline tries c false x y h k = k refl

-- What later rounds come to is a result of all of them.
later-IsResult :
    (login : Bytes) (deadline : ℕ) (t : Try) (ts : List Try) (c : Option Conn)
    (x : Outcome × Option Conn)
    → IsResult login deadline ts c x
    → IsResult login deadline (t ∷ ts) c x
later-IsResult login deadline t ts c (restored, c') h = inr h
later-IsResult login deadline t ts c (context_ended, c') h = h
later-IsResult login deadline t ts c (running, c') h = h
later-IsResult login deadline t ts c (recovery_error e, c') h = h

decided-IsResult :
    (login : Bytes) (deadline : ℕ) (t : Try) (ts : List Try) (c : Option Conn)
    (a : Option AttemptError × Option Conn) (rest : Outcome × Option Conn)
    → t.ended ≡ false
    → t.now ≤ deadline
    → IsTried login t c a
    → (a.1 ≡ c → IsResult login deadline ts c rest)
    → IsResult login deadline (t ∷ ts) c (decided a.0 a.1 rest)
decided-IsResult login deadline t ts c (none, c') rest n l h k = inl (n, l, h)
decided-IsResult login deadline t ts c (some e, c') rest n l h k =
    if-IsResult login deadline (t ∷ ts) c (is_fatal e) (recovery_error (some e), c') rest h
      (λ b. later-IsResult login deadline t ts c rest (k h))

recover_from-IsResult :
    (login : Bytes) (deadline : ℕ) (again : Bool) (last : Option AttemptError) (c : Option Conn)
    (tries : List Try)
    → IsResult login deadline tries c (recover_from login deadline again last c tries)
unfolding recover_from
recover_from-IsResult login deadline again last c [] = refl
recover_from-IsResult login deadline again last c (t ∷ ts) =
    let a = short_recover login t c in
    let rest = recover_from login deadline true a.0 a.1 ts in
    let late = if ltb deadline t.now then (recovery_error last, c) else decided a.0 a.1 rest in
    if-IsResult login deadline (t ∷ ts) c t.ended (context_ended, c)
      (if again && t.cut_off then (context_ended, c) else late) refl
      λ going.
        if-IsResult login deadline (t ∷ ts) c (again && t.cut_off) (context_ended, c) late refl
          λ _.
            if-IsResult login deadline (t ∷ ts) c (ltb deadline t.now) (recovery_error last, c)
              (decided a.0 a.1 rest) refl
              λ early.
                decided-IsResult login deadline t ts c a rest going (ltb→le deadline t.now early)
                  (short_recover-IsTried login t c)
                  λ e.
                    subst (λ x. IsResult login deadline ts x rest) e
                      (recover_from-IsResult login deadline true a.0 a.1 ts)

-- Whatever happens in the attempts: a recovery that restores does so in a round in which the context had
-- not ended, the session's timeout was not over and the client had no fatal error. The connection then
-- has the socket dialled in this round, on which the server gave the connection's id with its token and
-- on which RQ_RELOGIN and then RQ_RECOVER with the token were written; its keys, id and counts are kept
-- and it owes no reply. A recovery that ends in any other way leaves the connection as it was.
pub recover-IsResult :
    (login : Bytes) (started limit : ℕ) (c : Option Conn) (tries : List Try)
    → IsResult login (started + limit) tries c (recover login started limit c tries)
unfolding recover
recover-IsResult login started limit c tries =
    recover_from-IsResult login (started + limit) false none c tries
