-- ===== src/Native/Orders/Arrivals.antt =====
-- Sequences of the records of accounts and orders, and what is listed behind them.
use txmlconnector.Common.{
  ℕ, ◌≡◌, refl, sym, ap, ◌∙◌, false, Option, none, some, List, [], ◌∷◌, Bytes, Result, ok, err, All,
}
use txmlconnector.Records.Catalog.Keys.{same_id-IsEquality}
use txmlconnector.Common.{keys-Has, find, Has, Fresh, IsDistinct}
use mathlib.Core.Path.{subst}
use txmlconnector.Records.Catalog.{Catalog, same_id}
use txmlconnector.Records.Orders.{Order, OrderNew, parse_order_new}
use txmlconnector.Records.Modify.{Change, parse_order_modify}
use txmlconnector.Records.Clients.{ClientNew, parse_client_new}
use txmlconnector.Native.Orders.{
  Store, Event, others, flush_pending, take_order, decode_order_new, apply_order_modify,
  decode_order_modify, account_from, store_account, take_client, decode_client_new, is_seen,
  orders_from, orders,
}
use txmlconnector.Native.Orders.Kept.{
  AllWait, IsKept, empty_store, empty_store-IsKept, take_order-IsKept, apply_order_modify-IsKept,
  store_account-IsStored, flush_from-IsStored, others-AllWait,
}

-- R_CLN_NEW, R_ORD_NEW and R_ORD_MODIFY with their bodies.
pub data Arrival : Type 0 where
  client_new order_new order_modify : Bytes → Arrival

unfoldable pub decode : Store → Arrival → Result (List Event) × Store
decode c (client_new body) = decode_client_new c body
decode c (order_new body) = decode_order_new c body
decode c (order_modify body) = decode_order_modify c body

-- The store behind the records; one that is refused leaves it.
unfoldable pub decode_all : Store → List Arrival → Store
unfolding decode
decode_all c [] = c
decode_all c (x ∷ xs) = decode_all (decode c x).1 xs

take_client-IsKept : (c : Store) (raw : ClientNew) → IsKept c → IsKept (take_client c raw).1
unfolding take_client flush_pending
take_client-IsKept c raw v =
    let (w, same) =
      flush_from-IsStored (store_account c raw) raw.id c.pending
        (store_account-IsStored c raw v.stored) in
    unfold store_account in
    record {
      stored = record {
        listed = w.listed;
        once = w.once;
        own = w.own;
        accounts = w.accounts;
        accounts_once = w.accounts_once;
      };
      waiting =
          subst (λ accounts. AllWait accounts (others raw.id c.pending)) (sym same)
            (others-AllWait c.accounts raw.id (record { account = account_from raw; raw = raw })
              c.pending v.waiting);
    }

decode-IsKept : (c : Store) (x : Arrival) → IsKept c → IsKept (decode c x).1
unfolding decode decode_client_new decode_order_new decode_order_modify
decode-IsKept c (client_new body) v = by_client (parse_client_new body)
  where
    by_client :
        (x : Result ClientNew)
        → IsKept
            (elim x as (λ _. Result (List Event) × Store) [
              | err e ↦ (err e, c)
              | ok raw ↦ (ok (take_client c raw).0, (take_client c raw).1)
            ]).1
    by_client (ok raw) = take_client-IsKept c raw v
    by_client (err e) = v
decode-IsKept c (order_new body) v = by_order (parse_order_new body)
  where
    by_order :
        (x : Result (Option OrderNew))
        → IsKept
            (elim x as (λ _. Result (List Event) × Store) [
              | err e ↦ (err e, c)
              | ok none ↦ (ok [], c)
              | ok (some parsed) ↦ (ok (take_order c parsed).0, (take_order c parsed).1)
            ]).1
    by_order (ok (some parsed)) = take_order-IsKept c parsed v
    by_order (ok none) = v
    by_order (err e) = v
decode-IsKept c (order_modify body) v = by_modify (parse_order_modify body)
  where
    by_modify :
        (x : Option (ℕ × List Change))
        → IsKept
            (elim x as (λ _. Result (List Event) × Store) [
              | none ↦ (ok [], c)
              | some (id, changes) ↦
                  (ok (apply_order_modify c id changes).0, (apply_order_modify c id changes).1)
            ]).1
    by_modify (some (id, changes)) = apply_order_modify-IsKept c id changes v
    by_modify none = v

decode_all-IsKept : (c : Store) (xs : List Arrival) → IsKept c → IsKept (decode_all c xs)
unfolding decode_all
decode_all-IsKept c [] v = v
decode_all-IsKept c (x ∷ xs) v = decode_all-IsKept (decode c x).1 xs (decode-IsKept c x v)

abbrev pub order_ids : List Order → List ℕ
order_ids [] = []
order_ids (o ∷ os) = o.transaction_id ∷ order_ids os

-- Ids that differ from one that is seen.
is_seen-Fresh :
    (id : ℕ) (seen ids : List ℕ)
    → Fresh same_id id ids
    → All (λ i. is_seen i seen ≡ false) ids
    → All (λ i. is_seen i (id ∷ seen) ≡ false) ids
unfolding is_seen
is_seen-Fresh id seen [] f h = tt
is_seen-Fresh id seen (j ∷ ids) (d, f) (n, h) = (rw d n, is_seen-Fresh id seen ids f h)

-- The listed orders of distinct ids that the map has, none of them seen.
order_ids-orders_from :
    (m : List (ℕ × Order)) (seen ids : List ℕ)
    → ((id : ℕ) (o : Order) → find same_id id m ≡ some o → o.transaction_id ≡ id)
    → IsDistinct same_id ids
    → All (λ i. Has same_id i m) ids
    → All (λ i. is_seen i seen ≡ false) ids
    → order_ids (orders_from m seen ids) ≡ ids
unfolding orders_from
order_ids-orders_from m seen [] own d has new = refl
order_ids-orders_from m seen (id ∷ ids) own (f, d) ((o, e), has) (n, new) =
    rw (e, orders_from)
      (rw (n, orders_from)
        (ap (λ x. x ∷ order_ids (orders_from m (id ∷ seen) ids)) (own id o e)
          ∙ ap (λ x. id ∷ x)
              (order_ids-orders_from m (id ∷ seen) ids own d has
                (is_seen-Fresh id seen ids f new))))

none_seen : (ids : List ℕ) → All (λ i. is_seen i [] ≡ false) ids
unfolding is_seen
none_seen [] = tt
none_seen (i ∷ ids) = (refl, none_seen ids)

-- Behind any records of accounts and orders, from a client that has none: the arrivals of the orders are
-- the ids of the stored ones, each once; an order stands under its own id; the arrivals of the accounts
-- are theirs, each once; no order waits whose client has an account; and `Orders` lists every stored
-- order once, in the order of the arrivals.
pub decode_all_keeps :
    (catalog : Option Catalog) (xs : List Arrival)
    → let c = decode_all (empty_store catalog) xs in
      IsKept c × (order_ids (orders c) ≡ c.order_order)
unfolding orders
decode_all_keeps catalog xs =
    let c = decode_all (empty_store catalog) xs in
    let v = decode_all-IsKept (empty_store catalog) xs (empty_store-IsKept catalog) in
    (
      v,
      order_ids-orders_from c.orders [] c.order_order v.stored.own v.stored.once
          (subst (All (λ i. Has same_id i c.orders)) v.stored.listed
            (keys-Has same_id same_id-IsEquality c.orders))
          (none_seen c.order_order),
    )
