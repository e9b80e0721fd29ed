-- ===== src/Native/Subscriptions/Stored.antt =====
-- What each branch of a change leaves stored.
use txmlconnector.Common.{ℕ, ◌≡◌, refl, Bool, true, false, Option, none, some}
use txmlconnector.Common.{List, [], ◌∷◌, if◌then◌else◌}
use txmlconnector.Session.Conn.{Answer, answer, failed, Net, Conn}
use txmlconnector.Session.Requests.{subscribe, sec_spec}
use txmlconnector.Records.Catalog.{Catalog}
use txmlconnector.Native.Subscriptions.{
  Symbol, Subscription, Subscriber, ClientError, being_recovered, not_connected, unknown_security,
  next_masks, Resolved, unresolved, resolved, resolve, sort_items, commit, reverse_ids,
  load_sec_specs, subscribed, send_masks, change_subscription,
}

load_sec_specs_subs :
    (net : Net) (ids : List ℕ) (c : Subscriber) → (load_sec_specs net ids c).subs ≡ c.subs
unfolding load_sec_specs
load_sec_specs_subs net [] c = refl
load_sec_specs_subs net (i ∷ ids) c = by_conn (c.conn)
  where
    by_conn :
        (x : Option Conn)
        → (elim x as (λ _. Subscriber) [
          | none ↦ c
          | some conn ↦ record c { conn = some (sec_spec net (i ∷ ids) conn).1 }
        ]).subs
          ≡ c.subs
    by_conn none = refl
    by_conn (some conn) = refl

-- The masks are stored where there is no error, and none is changed where there is one.
abbrev pub Stored : List (Symbol × ℕ) → Subscriber → Option ClientError × Subscriber → Type 0
Stored es c (none, c') = c'.subs ≡ commit es c.subs
Stored es c (some e, c') = c'.subs ≡ c.subs

module _ (ranges : ℕ → List (Symbol × ℕ) → List (Symbol × ℕ)) (net net_spec : Net) where
  subscribed-Stored :
      (on : Bool) (es : List (Symbol × ℕ)) (ids : List ℕ) (c : Subscriber)
      (x : Answer (Unit {0}) × Conn)
      → Stored es c (subscribed net_spec on es ids c x)
  unfolding subscribed
  subscribed-Stored on es ids c (failed e, conn) = refl
  subscribed-Stored true es ids c (answer a, conn) =
      load_sec_specs_subs net_spec (reverse_ids ids)
        (record c { conn = some conn; subs = commit es c.subs })
  subscribed-Stored false es ids c (answer a, conn) = refl

  send_masks-Stored :
      (on : Bool) (next : List (Symbol × ℕ)) (conn : Conn) (cat : Catalog) (c : Subscriber)
      → Stored (ranges 1 next) c (send_masks ranges net net_spec on next conn cat c)
  unfolding send_masks
  send_masks-Stored on next conn cat c = by_items (resolve on cat (ranges 0 next))
    where
      by_items :
          (x : Resolved)
          → Stored (ranges 1 next) c (elim x as (λ _. Option ClientError × Subscriber) [
            | unresolved s ↦ (some (unknown_security s), c)
            | resolved items ids ↦
                subscribed net_spec on (ranges 1 next) ids c (subscribe net (sort_items items) conn)
          ])
      by_items (unresolved s) = refl
      by_items (resolved items ids) =
          subscribed-Stored on (ranges 1 next) ids c (subscribe net (sort_items items) conn)

  pub change_subscription-Stored :
      (on : Bool) (sub : Subscription) (c : Subscriber)
      → Stored
          (ranges 1 (next_masks on sub c.subs))
          c
          (change_subscription ranges net net_spec on sub c)
  unfolding change_subscription
  change_subscription-Stored on sub c =
      if_Stored (c.recovering) (some being_recovered, c) _ refl (by_conn (c.conn))
    where
      es : List (Symbol × ℕ)
      es = ranges 1 (next_masks on sub c.subs)

      by_catalog :
          (conn : Conn) (x : Option Catalog)
          → Stored es c (elim x as (λ _. Option ClientError × Subscriber) [
            | none ↦ (some not_connected, c)
            | some cat ↦ send_masks ranges net net_spec on (next_masks on sub c.subs) conn cat c
          ])
      by_catalog conn none = refl
      by_catalog conn (some cat) = send_masks-Stored on (next_masks on sub c.subs) conn cat c

      by_conn :
          (x : Option Conn)
          → Stored es c (elim x as (λ _. Option ClientError × Subscriber) [
            | none ↦ (some not_connected, c)
            | some conn ↦ (elim (c.catalog) as (λ _. Option ClientError × Subscriber) [
              | none ↦ (some not_connected, c)
              | some cat ↦ send_masks ranges net net_spec on (next_masks on sub c.subs) conn cat c
            ])
          ])
      by_conn none = refl
      by_conn (some conn) = by_catalog conn (c.catalog)

      if_Stored :
          (b : Bool) (x y : Option ClientError × Subscriber)
          → Stored es c x
          → Stored es c y
          → Stored es c (if b then x else y)
      if_Stored true x y h k = h
      if_Stored false x y h k = k
