-- ===== src/Native/Subscriptions/Change.antt =====
-- A change of the subscriptions against the sets of feeds that it names.
use txmlconnector.Common.{
  ℕ, zero, suc, ◌<◌, ◌≡◌, ◌≢◌, refl, sym, ap, ◌∙◌, arith, Bool, ◌&&◌, Option, none, some,
}
use txmlconnector.Common.{
  List, [], ◌==◌, ==_iff, if◌then◌else◌, Bool-cases, inl, inr, find, keys, IsDistinct,
}
use mathlib.Core.Path.{subst}
use txmlconnector.Session.Conn.{Net}
use txmlconnector.Records.Parser.{has_bit}
use txmlconnector.Records.Trades.{same_symbol}
use txmlconnector.Native.Subscriptions.{
  Symbol, Subscription, Subscriber, ClientError, mask_in, mask_next, apply_feed, next_masks, commit,
  change_subscription,
}
use txmlconnector.Native.Subscriptions.Feeds.{is_in, AreSmall, apply_feed_bits}
use txmlconnector.Native.Subscriptions.Stored.{Stored, change_subscription-Stored}
use txmlconnector.Native.Subscriptions.Commit.{
  Ranges, AreMasks, feed, effect, find-commit, mask_in-commit, apply_feed-IsDistinct,
}

next_masks-IsDistinct :
    (on : Bool) (sub : Subscription) (subs : List (Symbol × ℕ))
    → IsDistinct same_symbol (keys (next_masks on sub subs))
unfolding next_masks
next_masks-IsDistinct on sub subs = apply_feed-IsDistinct on 1 subs sub.quotes _ (
    apply_feed-IsDistinct on 0 subs sub.quotations _
      (apply_feed-IsDistinct on 2 subs sub.all_trades [] tt))

pick :
    (j : ℕ) (a b c on x : Bool)
    → j < 3
    → (if a && j == 1 then on else if b && j == 0 then on else if c && j == 2 then on else x)
      ≡ (if (if j == 0 then b else if j == 1 then a else c) then on else x)
pick j a b c on x h = ground arith

-- The feeds of the masks that are sent.
next_masks_bits :
    (on : Bool) (sub : Subscription) (subs : List (Symbol × ℕ))
    → AreMasks subs
    → AreSmall (next_masks on sub subs) subs
      × ((s : Symbol) (j : ℕ)
          → j < 3
          → has_bit (mask_next (next_masks on sub subs) subs s) j
            ≡ (if is_in s (feed sub j) then on else has_bit (mask_in subs s) j))
unfolding next_masks mask_next mask_in
next_masks_bits on sub subs masks =
    let (s1, b1) = apply_feed_bits on 2 subs sub.all_trades [] (omega arith) small in
    let (s2, b2) =
      apply_feed_bits on 0 subs sub.quotations (apply_feed on 2 subs sub.all_trades [])
        (omega arith) s1 in
    let (s3, b3) =
      apply_feed_bits on 1 subs sub.quotes
        (apply_feed on 0 subs sub.quotations (apply_feed on 2 subs sub.all_trades [])) (omega arith)
        s2 in
    (
      s3,
      λ s j hj.
          b3 s j hj
          ∙ ap (λ x. if is_in s sub.quotes && j == 1 then on else x)
              (b2 s j hj ∙ ap (λ x. if is_in s sub.quotations && j == 0 then on else x) (b1 s j hj))
          ∙ pick j (is_in s sub.quotes) (is_in s sub.quotations) (is_in s sub.all_trades) on
              (has_bit (mask_in subs s) j) hj
          ∙ ap (λ b. if b then on else has_bit (mask_in subs s) j) (by_feed s j hj),
    )
  where
    by_feed :
        (s : Symbol) (j : ℕ)
        → j < 3
        → (if j == 0
            then is_in s sub.quotations
            else if j == 1
            then is_in s sub.quotes
            else is_in s sub.all_trades)
          ≡ is_in s (feed sub j)
    by_feed s zero h = refl
    by_feed s (suc zero) h = refl
    by_feed s (suc (suc zero)) h = refl
    by_feed s (suc (suc (suc j))) h = absurd (omega arith)

    by_mask :
        (x : Option ℕ) (s : Symbol)
        → find same_symbol s subs ≡ x
        → (elim x as (λ _. ℕ) [ some m ↦ m | none ↦ 0 ]) < 8
    by_mask (some m) s e = (masks s m e).0
    by_mask none s e = omega arith

    small : (s : Symbol) → mask_next [] subs s < 8
    small s = by_mask (find same_symbol s subs) s refl

commit-AreMasks :
    (es next subs : List (Symbol × ℕ))
    → AreMasks subs
    → AreSmall next subs
    → IsDistinct same_symbol (keys es)
    → ((s : Symbol) → find same_symbol s es ≡ find same_symbol s next)
    → AreMasks (commit es subs)
unfolding mask_next
commit-AreMasks es next subs masks small d same s mask h =
    by_mask (find same_symbol s next) refl
      (sym (find-commit es subs s d ∙ ap (λ x. effect x (find same_symbol s subs)) (same s)) ∙ h)
  where
    by_mask :
        (x : Option ℕ)
        → find same_symbol s next ≡ x
        → effect x (find same_symbol s subs) ≡ some mask
        → (mask < 8) × (mask ≢ 0)
    by_mask none e f = masks s mask f
    by_mask (some m) e f = elim (Bool-cases (m == 0)) [
      | inl z ↦ cc (sym (ap (λ b. if b then none else some m) z) ∙ f)
      | inr z ↦
          let at : some m ≡ some mask = sym (ap (λ b. if b then none else some m) z) ∙ f in
          let eq : m ≡ mask = ground arith in
          let sent : m < 8 =
            subst (λ x. (elim x as (λ _. ℕ) [ some n ↦ n | none ↦ mask_in subs s ]) < 8) e
              (small s) in
          (omega (arith, eq, sent), λ zero_mask. cc (sym ((==_iff m 0).1 (eq ∙ zero_mask)) ∙ z))
    ]

-- With loops that visit each entry of a map once, and masks of three bits none of which is 0: where
-- `Subscribe` or `Unsubscribe` returns no error, each feed of each symbol is on or off as asked if the
-- subscription names the symbol for the feed, and as before if not, and the masks are such masks again;
-- where it returns an error, no mask is changed.
pub change_subscription_feeds :
    (ranges : ℕ → List (Symbol × ℕ) → List (Symbol × ℕ)) (net net_spec : Net) (on : Bool)
    (sub : Subscription) (c : Subscriber)
    → Ranges (ranges 1)
    → AreMasks c.subs
    → let (e, c') = change_subscription ranges net net_spec on sub c in
      (e ≡ none
        → ((s : Symbol) (j : ℕ)
            → j < 3
            → has_bit (mask_in c'.subs s) j
              ≡ (if is_in s (feed sub j) then on else has_bit (mask_in c.subs s) j))
          × AreMasks c'.subs)
      × (e ≢ none → c'.subs ≡ c.subs)
change_subscription_feeds ranges net net_spec on sub c visits masks =
    by_result (change_subscription ranges net net_spec on sub c)
      (change_subscription-Stored ranges net net_spec on sub c)
  where
    by_result :
        (x : Option ClientError × Subscriber)
        → Stored (ranges 1 (next_masks on sub c.subs)) c x
        → (x.0 ≡ none
            → ((s : Symbol) (j : ℕ)
                → j < 3
                → has_bit (mask_in x.1.subs s) j
                  ≡ (if is_in s (feed sub j) then on else has_bit (mask_in c.subs s) j))
              × AreMasks x.1.subs)
          × (x.0 ≢ none → x.1.subs ≡ c.subs)
    by_result (some e, c') h = (λ none_e. absurd (cc none_e), λ _. h)
    by_result (none, c') h =
        let next = next_masks on sub c.subs in
        let (small, bits) = next_masks_bits on sub c.subs masks in
        let (dist, same) = visits next (next_masks-IsDistinct on sub c.subs) in
        (
          λ _. (
            λ s j hj.
                ap (λ m. has_bit (mask_in m s) j) h
                ∙ ap (λ (n : ℕ). has_bit n j)
                    (mask_in-commit (ranges 1 next) next c.subs s dist (same s))
                ∙ bits s j hj,
            subst AreMasks (sym h)
                (commit-AreMasks (ranges 1 next) next c.subs masks small dist same),
          ),
          λ some_e. absurd (some_e refl),
        )
