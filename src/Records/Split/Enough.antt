-- ===== src/Records/Split/Enough.antt =====
-- Any fuel above the number of bytes gives the same splitting.
use txmlconnector.Common.{
  ℕ, zero, suc, ◌-◌, ◌≤◌, ◌<◌, ◌≡◌, refl, ap, arith, Bool, true, false, Option, none, some, [], ◌∷◌,
  ◌++◌, Bytes,
}
use txmlconnector.Common.{
  Bool-cases, inl, inr, length, take, drop, length-take, ◌==◌, Error, ok, err, unknown_record,
  ==_iff,
}
use txmlconnector.Wire.Reader.{Read}
use txmlconnector.Records.Split.Bounds.{body_of-Ends, wrapper_fits}
use txmlconnector.Records.Split.{
  Split, records_from, joined, settle, salvage, unwrapped, body_of, tag_wrapper,
}
use mathlib.Core.Path.{subst}

-- Two splittings of a wrapper agree where they agree on its bytes and on parts of them.
salvage_same :
    (again again' : Bytes → Split) (tag offset : ℕ) (body : Bytes)
    → ((part : Bytes) → length part ≤ length body → again part ≡ again' part)
    → salvage again tag offset body ≡ salvage again' tag offset body
unfolding salvage
salvage_same again again' tag offset body h =
    ap
      (λ (s : Split).
        elim (s.fault) [ none ↦ s.out | some e ↦ [] ]
        ++ (record { tag = tag; body = drop offset body } ∷ []))
      (h (take offset body) (omega (arith, length-take offset body)))

unwrapped_same :
    (again again' : Bytes → Split) (body : Bytes) (nested : Split)
    → ((part : Bytes) → length part ≤ length body → again part ≡ again' part)
    → unwrapped again body nested ≡ unwrapped again' body nested
unfolding unwrapped
unwrapped_same again again' body nested h = onward nested.fault
  where
    onward :
        (x : Option Error)
        → elim x [
          | none ↦ ok nested.out
          | some (unknown_record tag offset) ↦ ok (salvage again tag offset body)
          | some e ↦ err e
        ]
          ≡ elim x [
            | none ↦ ok nested.out
            | some (unknown_record tag offset) ↦ ok (salvage again' tag offset body)
            | some e ↦ err e
          ]
    onward none = refl
    onward (some (unknown_record tag offset)) = ap ok (salvage_same again again' tag offset body h)
    onward (some e) = refl

settle_same :
    (again again' : Bool → Bytes → Split) (next next' : Bytes → Split) (tag : ℕ) (x : Read Bytes)
    → ((body r' : Bytes) → x ≡ ok (body, r') → next r' ≡ next' r')
    → ((body r' : Bytes)
        → x ≡ ok (body, r')
        → tag ≡ tag_wrapper
        → (b : Bool) (part : Bytes) → length part ≤ length body
        → again b part ≡ again' b part)
    → settle again next tag x ≡ settle again' next' tag x
unfolding settle
settle_same again again' next next' tag (err e) hn ha = refl
settle_same again again' next next' tag (ok (body, r')) hn ha =
    elim (Bool-cases (tag == tag_wrapper)) [
      | inl e ↦
          let parts = ha body r' refl ((==_iff tag tag_wrapper).0 e) in
          rw (e, hn body r' refl, parts true body (omega arith))
            (ap (λ x. joined x (next' r'))
              (unwrapped_same (again false) (again' false) body (again' true body) (parts false)))
      | inr e ↦ rw (e, hn body r' refl) refl
    ]

-- Any fuel above the number of bytes gives the same.
pub records_from-enough :
    (inflate : Bytes → Option ℕ) (f g : ℕ) (bounded : Bool) (size : ℕ) (r : Bytes)
    → length r < f
    → length r < g
    → records_from inflate f bounded size r ≡ records_from inflate g bounded size r
unfolding records_from
records_from-enough inflate zero g bounded size r h k = elim h [ ]
records_from-enough inflate (suc f) zero bounded size r h k = elim k [ ]
records_from-enough inflate (suc f) (suc g) bounded size [] h k = refl
records_from-enough inflate (suc f) (suc g) bounded size (tag ∷ r) h k =
    let shorter = (body_of-Ends inflate bounded (size - length r) tag).shorter r in
    settle_same _ _ _ _ tag (body_of inflate bounded (size - length r) tag r)
      (λ body r' e.
        records_from-enough inflate f g bounded size r' (omega (arith, shorter body r' e))
          (omega (arith, shorter body r' e)))
      (λ body r' e w b part small.
        let fits =
          wrapper_fits inflate bounded (size - length r) r body r'
            (subst (λ t. body_of inflate bounded (size - length r) t r ≡ ok (body, r')) w e) in
        records_from-enough inflate f g b (length part) part (omega (arith, fits))
          (omega (arith, fits)))
