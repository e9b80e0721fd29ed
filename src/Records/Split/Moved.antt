-- ===== src/Records/Split/Moved.antt =====
-- The offset at which a body stands decides only what an error says.
use txmlconnector.Common.{
  ℕ, zero, suc, ◌-◌, ◌≡◌, refl, sym, ap, ◌∙◌, ◌⊎◌, Bool, true, false, Option, List, [], ◌∷◌, ◌++◌,
  Bytes,
}
use txmlconnector.Common.{
  Bool-cases, inl, inr, length, append-nil, ◌==◌, Error, Result, ok, err, ==_iff,
}
use txmlconnector.Wire.Reader.{Read}
use txmlconnector.Records.Split.Stable.{Delimits}
use txmlconnector.Records.Split.Prefix.{body_of-Stable}
use txmlconnector.Records.Split.{
  Record, Split, records_from, put, joined, settle, option_body, state_body, market_body, unwrapped,
  body_of, tag_wrapper, tag_candles,
}
use mathlib.Core.Path.{subst}

at_history :
    (inflate : Bytes → Option ℕ) (o o' : ℕ) (r : Bytes)
    → body_of inflate false o tag_candles r ≡ body_of inflate false o' tag_candles r
unfolding body_of option_body state_body market_body
at_history inflate o o' r = refl

-- A body at two offsets.
body_moved :
    (inflate : Bytes → Option ℕ) (o o' tag : ℕ) (r : Bytes)
    → Delimits inflate
    → (body_of inflate false o tag r ≡ body_of inflate false o' tag r)
      ⊎ ((e : Error) × (e' : Error) × (body_of inflate false o tag r ≡ err e)
          × (body_of inflate false o' tag r ≡ err e'))
body_moved inflate o o' tag r d = elim (Bool-cases (tag == tag_candles)) [
  | inl c ↦ inl (
      subst (λ t. body_of inflate false o t r ≡ body_of inflate false o' t r)
        (sym ((==_iff tag tag_candles).0 c)) (at_history inflate o o' r))
  | inr c ↦ onward c (body_of inflate false o tag r) (body_of inflate false o' tag r) refl refl
]
  where
    moves :
        (p q : ℕ) (body r' : Bytes)
        → tag == tag_candles ≡ false
        → body_of inflate false p tag r ≡ ok (body, r')
        → body_of inflate false q tag r ≡ ok (body, r')
    moves p q body r' c e =
        ap (body_of inflate false q tag) (sym (append-nil r))
        ∙ (body_of-Stable inflate p q tag d c).stays r body r' [] e
        ∙ ap (λ x. ok (body, x)) (append-nil r')

    onward :
        tag == tag_candles ≡ false
        → (x y : Read Bytes) → body_of inflate false o tag r ≡ x
        → body_of inflate false o' tag r ≡ y
        → (body_of inflate false o tag r ≡ body_of inflate false o' tag r)
          ⊎ ((e : Error) × (e' : Error) × (body_of inflate false o tag r ≡ err e)
              × (body_of inflate false o' tag r ≡ err e'))
    onward c (ok (body, r')) y e f = inl (e ∙ sym (moves o o' body r' c e))
    onward c (err x) (ok (body, r')) e f = cc (sym e ∙ moves o' o body r' c f)
    onward c (err x) (err y) e f = inr (x, y, e, f)

settle_out :
    (again : Bool → Bytes → Split) (next next' : Bytes → Split) (tag : ℕ) (x : Read Bytes)
    → ((r : Bytes) → (next r).out ≡ (next' r).out)
    → (settle again next tag x).out ≡ (settle again next' tag x).out
unfolding settle joined put
settle_out again next next' tag (err e) h = refl
settle_out again next next' tag (ok (body, r')) h = elim (Bool-cases (tag == tag_wrapper)) [
  | inl e ↦ rw e (joined_out (unwrapped (again false) body (again true body)))
  | inr e ↦ rw e (ap (λ x. (record { tag = tag; body = body }) ∷ x) (h r'))
]
  where
    joined_out : (x : Result (List Record)) → (joined x (next r')).out ≡ (joined x (next' r')).out
    joined_out (err e) = refl
    joined_out (ok new) = ap (λ x. new ++ x) (h r')

pub records_from-size :
    (inflate : Bytes → Option ℕ) (f size size' : ℕ) (r : Bytes)
    → Delimits inflate
    → (records_from inflate f false size r).out ≡ (records_from inflate f false size' r).out
unfolding records_from
records_from-size inflate zero size size' r d = refl
records_from-size inflate (suc f) size size' [] d = refl
records_from-size inflate (suc f) size size' (tag ∷ r) d =
    elim (body_moved inflate (size - length r) (size' - length r) tag r d) [
      | inl same ↦
          ap (λ x. (settle again (λ r'. records_from inflate f false size r') tag x).out) same
          ∙ settle_out again (λ r'. records_from inflate f false size r')
              (λ r'. records_from inflate f false size' r') tag
              (body_of inflate false (size' - length r) tag r)
              (λ r'. records_from-size inflate f size size' r' d)
      | inr (e, e', h, h') ↦ rw (h, h') refl
    ]
  where
    again : Bool → Bytes → Split
    again limit part = records_from inflate f limit (length part) part
