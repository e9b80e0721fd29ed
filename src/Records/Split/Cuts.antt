-- ===== src/Records/Split/Cuts.antt =====
-- Splitting without fuel: what the loop of `records` comes to, as a finite derivation of its rounds and of
-- both splittings of each wrapper.
use txmlconnector.Common.{
  ℕ, zero, suc, ◌-◌, ◌≤◌, ◌<◌, ◌≡◌, ◌≢◌, refl, sym, ap, ◌∙◌, arith, Bool, true, false, Option, none,
  some, List, [], ◌∷◌, ◌++◌, Bytes,
}
use txmlconnector.Common.{
  Bool-cases, inl, inr, length, take, drop, length-take, ◌==◌, Error, ok, err, stuck,
  unknown_record, ==_iff,
}
use txmlconnector.Wire.Reader.{Read}
use txmlconnector.Records.Split.Bounds.{body_of-Ends, wrapper_fits}
use txmlconnector.Records.Split.Steady.{records_unstuck}
use txmlconnector.Records.Split.{
  Record, Split, records, records_from, put, joined, settle, salvage, unwrapped, body_of,
  tag_wrapper,
}
use mathlib.Core.Path.{subst}

-- The records of a splitting that has no error.
abbrev pub cleared : Split → List Record
cleared s = elim (s.fault) [ none ↦ s.out | some e ↦ [] ]

-- `s` is what the bytes `r` of a payload of this size are split into. A payload is over, or its next body
-- has an error, or it has a body and the rest is split. A wrapper is split with the bound; where that
-- stops at an unknown record, the bytes in front of it are split again without the bound.
pub data Splits (inflate : Bytes → Option ℕ) : Bool → ℕ → Bytes → Split → Type 0 where
  over :
      {bounded : Bool} {size : ℕ}
      → Splits inflate bounded size [] (record { out = []; fault = none })
  refused :
      {bounded : Bool} {size tag : ℕ} {r : Bytes} {e : Error}
      → body_of inflate bounded (size - length r) tag r ≡ err e
      → e ≢ stuck
      → Splits inflate bounded size (tag ∷ r) (record { out = []; fault = some e })
  plain :
      {bounded : Bool} {size tag : ℕ} {r body r' : Bytes} {next : Split}
      → body_of inflate bounded (size - length r) tag r ≡ ok (body, r')
      → tag ≢ tag_wrapper
      → Splits inflate bounded size r' next
      → Splits inflate bounded size
          (tag ∷ r)
          (record { out = record { tag = tag; body = body } ∷ next.out; fault = next.fault })
  opened :
      {bounded : Bool} {size : ℕ} {r body r' : Bytes} {nested next : Split}
      → body_of inflate bounded (size - length r) tag_wrapper r ≡ ok (body, r')
      → Splits inflate true (length body) body nested
      → nested.fault ≡ none
      → Splits inflate bounded size r' next
      → Splits inflate bounded size
          (tag_wrapper ∷ r)
          (record { out = nested.out ++ next.out; fault = next.fault })
  salvaged :
      {bounded : Bool} {size tag offset : ℕ} {r body r' : Bytes} {nested inner next : Split}
      → body_of inflate bounded (size - length r) tag_wrapper r ≡ ok (body, r')
      → Splits inflate true (length body) body nested
      → nested.fault ≡ some (unknown_record tag offset)
      → Splits inflate false (length (take offset body)) (take offset body) inner
      → Splits inflate bounded size r' next
      → Splits inflate bounded size (tag_wrapper ∷ r) (record {
        out = (cleared inner ++ (record { tag = tag; body = drop offset body } ∷ [])) ++ next.out;
        fault = next.fault;
      })
  broken :
      {bounded : Bool} {size : ℕ} {r body r' : Bytes} {nested : Split} {e : Error}
      → body_of inflate bounded (size - length r) tag_wrapper r ≡ ok (body, r')
      → Splits inflate true (length body) body nested
      → nested.fault ≡ some e
      → ((tag offset : ℕ) → e ≢ unknown_record tag offset)
      → Splits inflate bounded size (tag_wrapper ∷ r) (record { out = []; fault = some e })

module _ (inflate : Bytes → Option ℕ) (bounded : Bool) (size : ℕ) (r body r' : Bytes) where
  -- A round with a wrapper.
  wrapper_round :
      (again : Bytes → Split) (next : Split)
      → body_of inflate bounded (size - length r) tag_wrapper r ≡ ok (body, r')
      → (nested : Split) → Splits inflate true (length body) body nested
      → ((part : Bytes)
          → length part ≤ length body
          → Splits inflate false (length part) part (again part))
      → Splits inflate bounded size r' next
      → Splits inflate bounded size (tag_wrapper ∷ r) (joined (unwrapped again body nested) next)
  unfolding joined unwrapped put
  wrapper_round again next cut nested d parts rest = onward nested.fault refl
    where
      onward :
          (x : Option Error)
          → nested.fault ≡ x
          → Splits inflate bounded size
              (tag_wrapper ∷ r)
              (joined (unwrapped again body nested) next)
      onward none e = rw (e, unwrapped, joined, put) (opened cut d e rest)
      onward (some (unknown_record tag offset)) e =
          let front = parts (take offset body) (omega (arith, length-take offset body)) in
          unfold salvage in rw (e, unwrapped, joined, put) (salvaged cut d e front rest)
      onward (some x) e = rw (e, unwrapped, joined, put) (broken cut d e (λ t o q. cc))

-- A round.
settle_round :
    (inflate : Bytes → Option ℕ) (again : Bool → Bytes → Split) (next : Bytes → Split)
    (bounded : Bool) (size tag : ℕ) (r : Bytes) (x : Read Bytes)
    → body_of inflate bounded (size - length r) tag r ≡ x
    → x ≢ err stuck
    → ((body r' : Bytes) → x ≡ ok (body, r') → Splits inflate bounded size r' (next r'))
    → ((body r' : Bytes)
        → x ≡ ok (body, r')
        → tag ≡ tag_wrapper
        → (b : Bool) (part : Bytes) → length part ≤ length body
        → Splits inflate b (length part) part (again b part))
    → Splits inflate bounded size (tag ∷ r) (settle again next tag x)
unfolding settle put
settle_round inflate again next bounded size tag r (err e) cut hx hn ha =
    refused cut (λ q. hx (ap err q))
settle_round inflate again next bounded size tag r (ok (body, r')) cut hx hn ha =
    elim (Bool-cases (tag == tag_wrapper)) [
      | inl e ↦
          let w = (==_iff tag tag_wrapper).0 e in
          let parts = ha body r' refl w in
          let cut' =
            subst (λ t. body_of inflate bounded (size - length r) t r ≡ ok (body, r')) w cut in
          rw e (
            subst
              (λ t.
                Splits inflate bounded size (t ∷ r)
                  (joined (unwrapped (again false) body (again true body)) (next r')))
              (sym w)
              (wrapper_round inflate bounded size r body r' (again false) (next r') cut'
                (again true body) (parts true body (omega arith)) (parts false) (hn body r' refl)))
      | inr e ↦
          rw e
            (plain cut (λ same. cc (sym ((==_iff tag tag_wrapper).1 same) ∙ e)) (hn body r' refl))
    ]

records_from-Splits :
    (inflate : Bytes → Option ℕ) (fuel : ℕ) (bounded : Bool) (size : ℕ) (r : Bytes)
    → length r < fuel
    → Splits inflate bounded size r (records_from inflate fuel bounded size r)
unfolding records_from
records_from-Splits inflate zero bounded size r h = elim h [ ]
records_from-Splits inflate (suc fuel) bounded size [] h = over
records_from-Splits inflate (suc fuel) bounded size (tag ∷ r) h =
    let ends = body_of-Ends inflate bounded (size - length r) tag in
    settle_round inflate (λ limit part. records_from inflate fuel limit (length part) part)
      (λ r'. records_from inflate fuel bounded size r') bounded size tag r
      (body_of inflate bounded (size - length r) tag r) refl (ends.unstuck r)
      (λ body r' e.
        records_from-Splits inflate fuel bounded size r' (omega (arith, ends.shorter r body r' e)))
      (λ body r' e w b part small.
        let fits =
          wrapper_fits inflate bounded (size - length r) r body r'
            (subst (λ t. body_of inflate bounded (size - length r) t r ≡ ok (body, r')) w e) in
        records_from-Splits inflate fuel b (length part) part (omega (arith, fits)))

-- On any payload, and whatever the zlib reader finds, the splitting ends, with no loop short of fuel: it
-- comes to what a finite number of rounds come to, in which each wrapper is split with the bound and,
-- where that stops at an unknown record, the bytes in front of that record once more without the bound.
pub records-Splits :
    (inflate : Bytes → Option ℕ) (p : Bytes)
    → Splits inflate false (length p) p (records inflate p)
      × ((records inflate p).fault ≢ some stuck)
unfolding records
records-Splits inflate p = (
  records_from-Splits inflate (suc (length p)) false (length p) p (omega arith),
  records_unstuck inflate p,
)
