-- ===== src/Records/Split/History.antt =====
-- R_HISTORY: the walk over the candles ends, for a round takes a byte at least.
use txmlconnector.Common.{ℕ, zero, suc, ◌≤◌, ◌<◌, ◌≡◌, ◌≢◌, refl, arith, not, [], ◌∷◌, Bytes}
use txmlconnector.Common.{Bool-cases, inl, inr, ◌∙◌, length, leb, ◌==◌, ok, err, stuck}
use txmlconnector.Wire.Reader.{Read, int32}
use txmlconnector.Records.Parser.{Parser, ◌>>=◌, ◌>>◌, pure, optional}
use txmlconnector.Records.Parser.Local.{bind_cases, bind_steady}
use txmlconnector.Records.Parser.Basic.{byte-Local, uint16-Local, int32-Local}
use txmlconnector.Records.Parser.Loop.{Consumes, bind-Consumes, int32-Consumes}
use txmlconnector.Records.Bodies.{cut, skip_int32s, skip_candles, skip_history, history_body}
use txmlconnector.Records.Split.Locals.{skip_int32s-Local}
use txmlconnector.Records.Split.Ends.{
  Ends, Local-Ends, bind-Ends, then-Ends, if-Ends, pure-Ends, cut-Ends,
}

-- The candles of a history.
seven : Parser (Unit {0})
seven = skip_int32s 7

one_status-Ends : Ends (int32 >> pure tt)
one_status-Ends = then-Ends (Local-Ends int32-Local) (pure-Ends tt)

open_interest : ℕ → Parser (Unit {0})
open_interest flag = optional (not (flag == 0)) (skip_int32s 1) tt

open_interest-Ends : (flag : ℕ) → Ends (open_interest flag)
unfolding open_interest
open_interest-Ends flag =
    if-Ends (not (flag == 0)) (Local-Ends (skip_int32s-Local 1)) (pure-Ends tt)

seven-Consumes : Consumes seven
unfolding seven skip_int32s ◌>>◌
seven-Consumes = bind-Consumes int32-Consumes (λ _. skip_int32s-Local 6)

candles_shorter :
    (fuel flag : ℕ) (r : Bytes) (a : Unit {0}) (r' : Bytes)
    → skip_candles fuel flag r ≡ ok (a, r')
    → length r' ≤ length r
unfolding skip_candles seven open_interest ◌>>◌
candles_shorter zero flag r a r' h = cc
candles_shorter (suc fuel) flag [] a r' h = ground arith
candles_shorter (suc fuel) flag (b ∷ r) a r' h = elim (Bool-cases (leb (length (b ∷ r)) 5)) [
  | inl e ↦ one_status-Ends.shorter (b ∷ r) a r' (rw (e, skip_candles) at h)
  | inr e ↦
      let (_, r1, e1, h1) =
        bind_cases seven (λ _. open_interest flag >>= λ _. skip_candles fuel flag) (b ∷ r)
          (rw (e, skip_candles) at h) in
      let (_, r2, e2, h2) = bind_cases (open_interest flag) (λ _. skip_candles fuel flag) r1 h1 in
      omega (
        arith,
        seven-Consumes.shrinks (b ∷ r) tt r1 e1,
        (open_interest-Ends flag).shorter r1 tt r2 e2,
        candles_shorter fuel flag r2 a r' h2,
      )
]

candles_unstuck :
    (fuel flag : ℕ) (r : Bytes) → length r < fuel → skip_candles fuel flag r ≢ err stuck
unfolding skip_candles seven open_interest ◌>>◌
candles_unstuck zero flag r f h = elim f [ ]
candles_unstuck (suc fuel) flag [] f h = cc
candles_unstuck (suc fuel) flag (b ∷ r) f h = elim (Bool-cases (leb (length (b ∷ r)) 5)) [
  | inl e ↦ one_status-Ends.unstuck (b ∷ r) (rw (e, skip_candles) at h)
  | inr e ↦
      bind_steady seven (λ _. open_interest flag >>= λ _. skip_candles fuel flag) (b ∷ r)
        ((skip_int32s-Local 7).steady (b ∷ r))
        (λ a r1 e1.
          bind_steady (open_interest flag) (λ _. skip_candles fuel flag) r1
            ((open_interest-Ends flag).unstuck r1)
            (λ a' r2 e2. candles_unstuck fuel flag r2 (
              omega (
                arith,
                seven-Consumes.shrinks (b ∷ r) a r1 e1,
                (open_interest-Ends flag).shorter r1 a' r2 e2,
              ))))
        (rw (e, skip_candles) at h)
]

skip_history-Ends : Ends skip_history
unfolding skip_history ◌>>◌
skip_history-Ends = bind-Ends (Local-Ends uint16-Local) (λ _.
    bind-Ends (Local-Ends uint16-Local) (λ _. bind-Ends (Local-Ends byte-Local) (λ _.
      bind-Ends (Local-Ends byte-Local) (λ flag. record {
        shorter = λ r. candles_shorter (suc (length r)) flag r;
        unstuck = λ r. candles_unstuck (suc (length r)) flag r (omega arith);
      }))))

pub history_body-Ends : Ends history_body
unfolding history_body
history_body-Ends = record {
  shorter = λ r. shorter_at r (cut skip_history r) refl;
  unstuck = λ r. unstuck_at r (cut skip_history r) refl;
}
  where
    shorter_at :
        (r : Bytes) (x : Read Bytes)
        → cut skip_history r ≡ x
        → (a r' : Bytes) → history_body r ≡ ok (a, r')
        → length r' ≤ length r
    shorter_at r (ok (body, [])) e a r' h =
        (cut-Ends skip_history-Ends).shorter r a r' (e ∙ (rw (e, history_body) at h))
    shorter_at r (ok (body, b ∷ s)) e a r' h = cc (rw (e, history_body) at h)
    shorter_at r (err f) e a r' h = cc (rw (e, history_body) at h)

    unstuck_at : (r : Bytes) (x : Read Bytes) → cut skip_history r ≡ x → history_body r ≢ err stuck
    unstuck_at r (ok (body, [])) e h = cc (rw (e, history_body) at h)
    unstuck_at r (ok (body, b ∷ s)) e h = cc (rw (e, history_body) at h)
    unstuck_at r (err f) e h =
        (cut-Ends skip_history-Ends).unstuck r (e ∙ (rw (e, history_body) at h))
