-- ===== src/Native/Subscriptions/Commit.antt =====
-- The masks that are stored behind a subscription are those that were sent.
use txmlconnector.Common.{
  ℕ, zero, suc, ◌<◌, ◌≡◌, ◌≢◌, ◌⊎◌, refl, sym, ap, ◌∙◌, Bool, true, false, Option, none, some,
}
use txmlconnector.Common.{
  List, [], ◌∷◌, ◌==◌, ==_iff, if◌then◌else◌, Bool-cases, inl, inr, find, insert, delete, keys,
  Fresh, IsDistinct, keys-insert-appended, find-insert, find-delete,
}
use mathlib.Core.Path.{subst}
use txmlconnector.Records.Trades.{same_symbol}
use txmlconnector.Records.Catalog.Keys.{same_symbol-IsEquality}
use txmlconnector.Native.Subscriptions.{
  Symbol, Subscription, set_feed, mask_in, mask_next, apply_feed, commit,
}

-- A loop over a map visits each of its entries once.
abbrev pub Ranges : (List (Symbol × ℕ) → List (Symbol × ℕ)) → Type 0
Ranges range =
    (m : List (Symbol × ℕ))
    → IsDistinct same_symbol (keys m)
    → IsDistinct same_symbol (keys (range m))
      × ((s : Symbol) → find same_symbol s (range m) ≡ find same_symbol s m)

-- The stored masks have three bits, and none is 0.
abbrev pub AreMasks : List (Symbol × ℕ) → Type 0
AreMasks subs =
    (s : Symbol) (mask : ℕ) → find same_symbol s subs ≡ some mask → (mask < 8) × (mask ≢ 0)

-- The symbols of the feed with the bit `j`.
abbrev pub feed : Subscription → ℕ → List Symbol
feed sub zero = sub.quotations
feed sub (suc zero) = sub.quotes
feed sub (suc (suc j)) = sub.all_trades

pub apply_feed-IsDistinct :
    (on : Bool) (k : ℕ) (subs : List (Symbol × ℕ)) (ss : List Symbol) (next : List (Symbol × ℕ))
    → IsDistinct same_symbol (keys next)
    → IsDistinct same_symbol (keys (apply_feed on k subs ss next))
unfolding apply_feed
apply_feed-IsDistinct on k subs [] next d = d
apply_feed-IsDistinct on k subs (s ∷ ss) next d =
    let mask = set_feed on k (mask_next next subs s) in
    let (eq, dist, _) = keys-insert-appended same_symbol same_symbol-IsEquality next s mask d in
    apply_feed-IsDistinct on k subs ss (insert same_symbol s mask next)
      (subst (IsDistinct same_symbol) (sym eq) dist)

-- What a mask that is sent leaves stored.
abbrev pub effect : Option ℕ → Option ℕ → Option ℕ
effect (some mask) old = if mask == 0 then none else some mask
effect none old = old

find-put :
    (s t : Symbol) (mask : ℕ) (subs : List (Symbol × ℕ))
    → find same_symbol s
        (if mask == 0 then delete same_symbol t subs else insert same_symbol t mask subs)
      ≡ effect (if same_symbol s t then some mask else none) (find same_symbol s subs)
find-put s t mask subs = elim (Bool-cases (mask == 0)) [
  | inl e ↦
      rw e (find-delete same_symbol same_symbol-IsEquality s t subs ∙ zeroed (same_symbol s t) e)
  | inr e ↦
      rw e
        (find-insert same_symbol same_symbol-IsEquality s t mask subs ∙ written (same_symbol s t) e)
]
  where
    zeroed :
        (b : Bool)
        → (mask == 0) ≡ true
        → (if b then none else find same_symbol s subs)
          ≡ effect (if b then some mask else none) (find same_symbol s subs)
    zeroed true e = rw e
    zeroed false e = refl

    written :
        (b : Bool)
        → (mask == 0) ≡ false
        → (if b then some mask else find same_symbol s subs)
          ≡ effect (if b then some mask else none) (find same_symbol s subs)
    written true e = rw e
    written false e = refl

-- No entry of a list that lacks the key.
Fresh-find :
    (s t : Symbol) (es : List (Symbol × ℕ))
    → same_symbol s t ≡ true
    → Fresh same_symbol t (keys es)
    → find same_symbol s es ≡ none
Fresh-find s t [] e f = refl
Fresh-find s t ((u, m) ∷ es) e (d, f) =
    rw (ap (λ x. same_symbol x u) ((same_symbol-IsEquality s t).0 e) ∙ d) (Fresh-find s t es e f)

-- What is stored behind the masks of distinct symbols.
pub find-commit :
    (es subs : List (Symbol × ℕ)) (s : Symbol)
    → IsDistinct same_symbol (keys es)
    → find same_symbol s (commit es subs) ≡ effect (find same_symbol s es) (find same_symbol s subs)
unfolding commit
find-commit [] subs s d = refl
find-commit ((t, mask) ∷ es) subs s (f, d) =
    let put = if mask == 0 then delete same_symbol t subs else insert same_symbol t mask subs in
    find-commit es put s d
    ∙ ap (effect (find same_symbol s es)) (find-put s t mask subs)
    ∙ by_key (Bool-cases (same_symbol s t))
  where
    by_key :
        (same_symbol s t ≡ true) ⊎ (same_symbol s t ≡ false)
        → effect
            (find same_symbol s es)
            (effect (if same_symbol s t then some mask else none) (find same_symbol s subs))
          ≡ effect
              (if same_symbol s t then some mask else find same_symbol s es)
              (find same_symbol s subs)
    by_key (inl e) = rw (Fresh-find s t es e f) (rw e)
    by_key (inr e) = rw e

-- The masks that are stored are those that were sent.
pub mask_in-commit :
    (es next subs : List (Symbol × ℕ)) (s : Symbol)
    → IsDistinct same_symbol (keys es)
    → find same_symbol s es ≡ find same_symbol s next
    → mask_in (commit es subs) s ≡ mask_next next subs s
unfolding mask_in mask_next
mask_in-commit es next subs s d e =
    ap (λ x. elim x as (λ _. ℕ) [ some m ↦ m | none ↦ 0 ])
      (find-commit es subs s d ∙ ap (λ x. effect x (find same_symbol s subs)) e)
    ∙ by_mask (find same_symbol s next)
  where
    by_mask :
        (x : Option ℕ)
        → (elim (effect x (find same_symbol s subs)) as (λ _. ℕ) [ some m ↦ m | none ↦ 0 ])
          ≡ (elim x as (λ _. ℕ) [
            | some m ↦ m
            | none ↦ (elim (find same_symbol s subs) as (λ _. ℕ) [ some m ↦ m | none ↦ 0 ])
          ])
    by_mask (some m) = elim (Bool-cases (m == 0)) [
      | inl z ↦ rw z (sym ((==_iff m 0).0 z))
      | inr z ↦ rw z
    ]
    by_mask none = refl
