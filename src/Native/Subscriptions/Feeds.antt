-- ===== src/Native/Subscriptions/Feeds.antt =====
-- The bits of the masks: what a subscription adds and takes away.
use txmlconnector.Common.{
  ℕ, ◌/◌, ◌%◌, ◌^◌, ◌<◌, ◌≡◌, refl, sym, ap, ◌∙◌, arith, Bool, true, false, ◌&&◌, ◌||◌, none, some,
}
use txmlconnector.Common.{
  List, [], ◌∷◌, ◌==◌, if◌then◌else◌, Bool-cases, inl, inr, find, insert, find-insert,
}
use txmlconnector.Common.Checks.{passes, passes_each}
use mathlib.Core.Path.{subst}
use txmlconnector.Records.Parser.{has_bit}
use txmlconnector.Records.Trades.{same_symbol}
use txmlconnector.Records.Catalog.Keys.{same_symbol-IsEquality}
use txmlconnector.Native.Subscriptions.{Symbol, set_feed, mask_in, mask_next, apply_feed}

-- The bit `j` behind a change of the bit `k`, as a number.
abbrev bit_after : Bool → ℕ → ℕ → ℕ → ℕ
bit_after on k j mask = if j == k then if on then 1 else 0 else mask / 2 ^ j % 2

abbrev agrees : Bool → ℕ → ℕ → ℕ → Bool
agrees on k j mask =
    (set_feed on k mask / 2 ^ j % 2 == bit_after on k j mask) && set_feed on k mask / 8 == 0

feed_table :
    (on : Bool) → passes (λ k. passes (λ j. passes (λ mask. agrees on k j mask) 8) 3) 3 ≡ true
unfolding passes set_feed
feed_table true = refl
feed_table false = refl

feed_row : (on : Bool) (k j mask : ℕ) → k < 3 → j < 3 → mask < 8 → agrees on k j mask ≡ true
feed_row on k j mask hk hj hm =
    let rows =
      passes_each (λ a. passes (λ b. passes (λ m. agrees on a b m) 8) 3) 3 k (feed_table on) hk in
    let row = passes_each (λ b. passes (λ m. agrees on k b m) 8) 3 j rows hj in
    passes_each (λ m. agrees on k j m) 8 mask row hm

-- A change of one feed changes its bit alone.
pub set_feed-has_bit :
    (on : Bool) (k j mask : ℕ)
    → k < 3
    → j < 3
    → mask < 8
    → (has_bit (set_feed on k mask) j ≡ (if j == k then on else has_bit mask j))
      × (set_feed on k mask < 8)
set_feed-has_bit on k j mask hk hj hm =
    let row = feed_row on k j mask hk hj hm in
    let bits : set_feed on k mask / 2 ^ j % 2 ≡ bit_after on k j mask = ground (arith, row) in
    let small : set_feed on k mask < 8 = ground (arith, row) in
    (ap (λ n. n == 1) bits ∙ by_case (j == k) on, small)
  where
    by_case :
        (same : Bool) (b : Bool)
        → ((if same then if b then 1 else 0 else mask / 2 ^ j % 2) == 1)
          ≡ (if same then b else has_bit mask j)
    by_case true true = refl
    by_case true false = refl
    by_case false b = refl

-- A symbol of a list.
unfoldable pub is_in : Symbol → List Symbol → Bool
is_in s [] = false
is_in s (t ∷ ts) = same_symbol s t || is_in s ts

-- Every mask is one of three bits.
abbrev pub AreSmall : List (Symbol × ℕ) → List (Symbol × ℕ) → Type 0
AreSmall next subs = (s : Symbol) → mask_next next subs s < 8

-- A write of a mask.
mask_next-insert :
    (next subs : List (Symbol × ℕ)) (s t : Symbol) (mask : ℕ)
    → mask_next (insert same_symbol t mask next) subs s
      ≡ (if same_symbol s t then mask else mask_next next subs s)
unfolding mask_next
mask_next-insert next subs s t mask =
    let law = find-insert same_symbol same_symbol-IsEquality s t mask next in
    ap (λ x. elim x as (λ _. ℕ) [ some m ↦ m | none ↦ mask_in subs s ]) law
    ∙ by_case (same_symbol s t)
  where
    by_case :
        (b : Bool)
        → (elim (if b then some mask else find same_symbol s next) as (λ _. ℕ) [
          | some m ↦ m
          | none ↦ mask_in subs s
        ])
          ≡ (if b then mask else (elim (find same_symbol s next) as (λ _. ℕ) [
            | some m ↦ m
            | none ↦ mask_in subs s
          ]))
    by_case true = refl
    by_case false = refl

insert-AreSmall :
    (next subs : List (Symbol × ℕ)) (t : Symbol) (mask : ℕ)
    → mask < 8
    → AreSmall next subs
    → AreSmall (insert same_symbol t mask next) subs
insert-AreSmall next subs t mask h small s =
    subst (λ (n : ℕ). n < 8) (sym (mask_next-insert next subs s t mask)) (by_case (same_symbol s t))
  where
    by_case : (b : Bool) → (if b then mask else mask_next next subs s) < 8
    by_case true = h
    by_case false = small s

-- One bit of a symbol behind the write of another, or of its own.
written_bit :
    (on : Bool) (k j : ℕ) (next subs : List (Symbol × ℕ)) (s t : Symbol)
    → k < 3
    → j < 3
    → mask_next next subs t < 8
    → has_bit
        (mask_next (insert same_symbol t (set_feed on k (mask_next next subs t)) next) subs s)
        j
      ≡ (if same_symbol s t && j == k then on else has_bit (mask_next next subs s) j)
written_bit on k j next subs s t hk hj small =
    let law = mask_next-insert next subs s t (set_feed on k (mask_next next subs t)) in
    let one = (set_feed-has_bit on k j (mask_next next subs t) hk hj small).0 in
    elim (Bool-cases (same_symbol s t)) [
      | inl e ↦
          let place : s ≡ t = (same_symbol-IsEquality s t).0 e in
          rw e (
            ap (λ (n : ℕ). has_bit n j)
              (law
                ∙ ap
                    (λ b.
                      if b then set_feed on k (mask_next next subs t) else mask_next next subs s)
                    e)
            ∙ one
            ∙ ap (λ u. if j == k then on else has_bit (mask_next next subs u) j) (sym place))
      | inr e ↦ rw e (
          ap (λ (n : ℕ). has_bit n j)
            (law
              ∙ ap (λ b. if b then set_feed on k (mask_next next subs t) else mask_next next subs s)
                  e))
    ]

either :
    (a b c x y : Bool)
    → (if a && c then x else (if b && c then x else y)) ≡ (if (b || a) && c then x else y)
either true true true x y = refl
either true true false x y = refl
either true false true x y = refl
either true false false x y = refl
either false true true x y = refl
either false true false x y = refl
either false false true x y = refl
either false false false x y = refl

-- The masks behind the symbols of one feed.
pub apply_feed_bits :
    (on : Bool) (k : ℕ) (subs : List (Symbol × ℕ)) (ss : List Symbol) (next : List (Symbol × ℕ))
    → k < 3
    → AreSmall next subs
    → AreSmall (apply_feed on k subs ss next) subs
      × ((s : Symbol) (j : ℕ)
          → j < 3
          → has_bit (mask_next (apply_feed on k subs ss next) subs s) j
            ≡ (if is_in s ss && j == k then on else has_bit (mask_next next subs s) j))
unfolding apply_feed is_in
apply_feed_bits on k subs [] next hk small = (small, λ s j hj. refl)
apply_feed_bits on k subs (t ∷ ss) next hk small =
    let old = mask_next next subs t in
    let next' = insert same_symbol t (set_feed on k old) next in
    let small' =
      insert-AreSmall next subs t (set_feed on k old)
        (set_feed-has_bit on k 0 old hk (omega arith) (small t)).1 small in
    let (rest, bits) = apply_feed_bits on k subs ss next' hk small' in
    (
      rest,
      λ s j hj.
          bits s j hj
          ∙ ap (λ x. if is_in s ss && j == k then on else x)
              (written_bit on k j next subs s t hk hj (small t))
          ∙ either (is_in s ss) (same_symbol s t) (j == k) on (has_bit (mask_next next subs s) j),
    )
