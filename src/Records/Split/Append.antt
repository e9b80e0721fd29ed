-- ===== src/Records/Split/Append.antt =====
-- A payload that is split whole can stand in front of another one.
use txmlconnector.Common.{
  ℕ, zero, suc, ◌-◌, ◌<◌, ◌≡◌, ◌≢◌, refl, sym, ap, ◌∙◌, arith, Bool, true, false, Option, none,
  List, [], ◌∷◌, ◌++◌, Bytes,
}
use txmlconnector.Common.{
  Bool-cases, inl, inr, length, All, length-append, append_assoc, ◌==◌, Result, ok, err, ==_iff,
}
use txmlconnector.Wire.Reader.{Read}
use txmlconnector.Records.Split.Bounds.{body_of-Ends}
use txmlconnector.Records.Split.Stable.{Delimits}
use txmlconnector.Records.Split.Prefix.{body_of-Stable}
use txmlconnector.Records.Split.{
  Record, Split, records, records_from, put, joined, settle, unwrapped, body_of, tag_wrapper,
  tag_candles,
}
use mathlib.Core.Path.{subst}
use txmlconnector.Records.Split.Enough.{records_from-enough}
use txmlconnector.Records.Split.Moved.{records_from-size}

-- No record is an R_HISTORY.
abbrev pub NoHistory : List Record → Type 0
NoHistory = All (λ rec. rec.tag == tag_candles ≡ false)

ok_body :
    (again : Bool → Bytes → Split) (next : Bytes → Split) (tag : ℕ) (x : Read Bytes)
    → (settle again next tag x).fault ≡ none
    → (body : Bytes) × (r' : Bytes) × (x ≡ ok (body, r'))
unfolding settle
ok_body again next tag (err e) h = cc
ok_body again next tag (ok (body, r')) h = (body, r', refl)

-- The records that one round yields.
joined_parts :
    (x : Result (List Record)) (next : Split)
    → (joined x next).fault ≡ none
    → (new : List Record) × (x ≡ ok new) × (next.fault ≡ none)
unfolding joined put
joined_parts (err e) next h = cc
joined_parts (ok new) next h = (new, refl, h)

settle_parts :
    (again : Bool → Bytes → Split) (next : Bytes → Split) (tag : ℕ) (body r' : Bytes)
    → (settle again next tag (ok (body, r'))).fault ≡ none
    → (new : List Record) × ((next' : Bytes → Split) (s : Bytes)
        → settle again next' tag (ok (body, s)) ≡ put new (next' s))
      × ((next r').fault ≡ none)
unfolding settle joined put
settle_parts again next tag body r' h = elim (Bool-cases (tag == tag_wrapper)) [
  | inl e ↦
      let (new, en, f) =
        joined_parts (unwrapped (again false) body (again true body)) (next r') (rw e at h) in
      (new, λ next' s. rw (e, en) refl, f)
  | inr e ↦ (record { tag = tag; body = body } ∷ [], λ next' s. rw e refl, rw (e, put) at h)
]

true_is_not : true ≢ false
true_is_not h = cc

-- The first record of a round has the tag that was read, unless it is a wrapper's.
not_candles :
    (again : Bool → Bytes → Split) (next : Bytes → Split) (tag : ℕ) (body r' : Bytes)
    → NoHistory (settle again next tag (ok (body, r'))).out
    → tag == tag_candles ≡ false
unfolding settle put
not_candles again next tag body r' h = elim (Bool-cases (tag == tag_candles)) [
  | inl e ↦ absurd (
      true_is_not
        (subst (λ t. NoHistory (settle again next t (ok (body, r'))).out)
          ((==_iff tag tag_candles).0 e) h).0)
  | inr e ↦ e
]

All-tail : (P : Record → Type 0) (xs ys : List Record) → All P (xs ++ ys) → All P ys
All-tail P [] ys h = h
All-tail P (x ∷ xs) ys h = All-tail P xs ys h.1

-- What a splitting without an error yields stays in front, and the rest is split with the same size.
records_from-append :
    (inflate : Bytes → Option ℕ) (f size size' : ℕ) (a b : Bytes)
    → Delimits inflate
    → length (a ++ b) < f
    → (records_from inflate f false size a).fault ≡ none
    → NoHistory (records_from inflate f false size a).out
    → (records_from inflate f false size' (a ++ b)).out
      ≡ (records_from inflate f false size a).out ++ (records_from inflate f false size' b).out
unfolding records_from put
records_from-append inflate zero size size' a b d h e n = elim h [ ]
records_from-append inflate (suc f) size size' [] b d h e n = refl
records_from-append inflate (suc f) size size' (tag ∷ a) b d h e n =
    let (body, r', ex) = ok_body again next tag (body_of inflate false (size - length a) tag a) e in
    let (new, same, rest) =
      settle_parts again next tag body r'
        (ap (λ x. (settle again next tag x).fault) (sym ex) ∙ e) in
    let whole = ap (settle again next tag) ex ∙ same next r' in
    let n' = subst (λ (s : Split). NoHistory s.out) (ap (settle again next tag) ex) n in
    let c = not_candles again next tag body r' n' in
    let ex' =
      (body_of-Stable inflate (size - length a) (size' - length (a ++ b)) tag d c).stays a body r' b
        ex in
    let shorter = (body_of-Ends inflate false (size - length a) tag).shorter a body r' ex in
    let small : length (r' ++ b) < f =
      omega (arith, shorter, length-append a b, length-append r' b) in
    let tail =
      All-tail (λ rec. rec.tag == tag_candles ≡ false) new (next r').out
        (subst (λ (s : Split). NoHistory s.out) whole n) in
    ap (λ x. (settle again next' tag x).out) ex'
    ∙ ap (λ (s : Split). s.out) (same next' (r' ++ b))
    ∙ ap (λ x. new ++ x) (records_from-append inflate f size size' r' b d small rest tail)
    ∙ sym (append_assoc new (next r').out (records_from inflate f false size' b).out)
    ∙ ap (λ x. (new ++ (next r').out) ++ x)
        (ap (λ (s : Split). s.out)
          (records_from-enough inflate f (suc f) false size' b (omega (arith, length-append a b))
            (omega (arith, length-append a b))))
    ∙ ap (λ (s : Split). s.out ++ (records_from inflate (suc f) false size' b).out) (sym whole)
  where
    again : Bool → Bytes → Split
    again limit part = records_from inflate f limit (length part) part

    next : Bytes → Split
    next r' = records_from inflate f false size r'

    next' : Bytes → Split
    next' r' = records_from inflate f false size' r'

-- A payload that is split without an error and holds no R_HISTORY can stand in front of any other: the
-- records of the two together are those of the first and then those of the second. The zlib reader must
-- find the same end of a stream whatever stands behind it.
pub records-append :
    (inflate : Bytes → Option ℕ) (a b : Bytes)
    → Delimits inflate
    → (records inflate a).fault ≡ none
    → NoHistory (records inflate a).out
    → (records inflate (a ++ b)).out ≡ (records inflate a).out ++ (records inflate b).out
unfolding records
records-append inflate a b d e n =
    let f = suc (length (a ++ b)) in
    let sizes = length-append a b in
    let same_a =
      records_from-enough inflate (suc (length a)) f false (length a) a (omega arith)
        (omega (arith, sizes)) in
    let same_b =
      records_from-enough inflate (suc (length b)) f false (length b) b (omega arith)
        (omega (arith, sizes)) in
    records_from-append inflate f (length a) (length (a ++ b)) a b d (omega arith)
      (ap (λ (s : Split). s.fault) (sym same_a) ∙ e)
      (subst (λ (s : Split). NoHistory s.out) same_a n)
    ∙ ap (λ (s : Split). s.out ++ (records_from inflate f false (length (a ++ b)) b).out)
        (sym same_a)
    ∙ ap (λ x. (records_from inflate (suc (length a)) false (length a) a).out ++ x)
        (records_from-size inflate f (length (a ++ b)) (length b) b d
          ∙ ap (λ (s : Split). s.out) (sym same_b))
