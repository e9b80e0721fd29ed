-- ===== src/Native/Orders/Kept.antt =====
-- What the store of the orders keeps, whatever records arrive.
use txmlconnector.Common.{ℕ, ◌≡◌, refl, sym, ap, ◌∙◌, Option, none, some}
use txmlconnector.Common.{
  List, [], ◌∷◌, ◌++◌, ◌==◌, if◌then◌else◌, Bool-cases, inl, inr, All, All-append,
}
use txmlconnector.Common.{
  appended, find, insert, keys, IsDistinct, find-insert, keys-insert, keys-insert-appended,
  find-insert_own,
}
use mathlib.Core.Path.{subst}
use txmlconnector.Records.Catalog.{Catalog, same_id}
use txmlconnector.Records.Catalog.Keys.{same_id-IsEquality}
use txmlconnector.Records.Orders.{Order, OrderNew}
use txmlconnector.Records.Modify.{
  Change, change, change_all, set_status, set_order_no, set_price, set_quantity, set_balance,
  set_condition_value, set_broker_ref, set_valid_after, set_valid_before,
}
use txmlconnector.Records.Clients.{ClientNew}
use txmlconnector.Native.Orders.{
  AccountState, Store, Event, order, account_of, store_order, build_order_event, order_client_match,
  ClientMatch, unknown, ours, foreign, others, flush_from, take_order, apply_order_modify,
  account_from, store_account,
}

-- The arrivals of the orders are the ids of the stored ones, each once; an order stands under its own id;
-- the arrivals of the accounts are theirs, each once.
pub record IsStored (c : Store) : Type 0 where
  pub listed : keys c.orders ≡ c.order_order
  pub once : IsDistinct same_id c.order_order
  pub own : (id : ℕ) (o : Order) → find same_id id c.orders ≡ some o → o.transaction_id ≡ id
  pub accounts : keys c.accounts ≡ c.account_order
  pub accounts_once : IsDistinct same_id c.account_order

-- No order waits whose client has an account.
abbrev pub AllWait : List (ℕ × AccountState) → List OrderNew → Type 0
AllWait accounts pending = All (λ p. find same_id p.client_id accounts ≡ none) pending

pub record IsKept (c : Store) : Type 0 where
  pub stored : IsStored c
  pub waiting : AllWait c.accounts c.pending

abbrev pub empty_store : Option Catalog → Store
empty_store catalog = record {
  catalog = catalog;
  accounts = [];
  account_order = [];
  orders = [];
  order_order = [];
  pending = [];
}

pub empty_store-IsKept : (catalog : Option Catalog) → IsKept (empty_store catalog)
empty_store-IsKept catalog = record {
  stored = record {
    listed = refl;
    once = tt;
    own = λ id o h. absurd (cc h);
    accounts = refl;
    accounts_once = tt;
  };
  waiting = tt;
}

store_order-IsStored : (c : Store) (o : Order) → IsStored c → IsStored (store_order c o)
unfolding store_order
store_order-IsStored c o v =
    let ids = ap (appended o.transaction_id (find same_id o.transaction_id c.orders)) v.listed in
    let written =
      keys-insert-appended same_id same_id-IsEquality c.orders o.transaction_id o
        (subst (IsDistinct same_id) (sym v.listed) v.once) in
    record {
      listed = written.0 ∙ ids;
      once = subst (IsDistinct same_id) ids written.1;
      own =
          find-insert_own same_id same_id-IsEquality (λ t. t.transaction_id) c.orders
            o.transaction_id o refl v.own;
      accounts = v.accounts;
      accounts_once = v.accounts_once;
    }

change_id : (x : Change) (o : Order) → (change x o).transaction_id ≡ o.transaction_id
unfolding change
change_id (set_status v) o = refl
change_id (set_order_no v) o = refl
change_id (set_price v) o = refl
change_id (set_quantity v) o = refl
change_id (set_balance v) o = refl
change_id (set_condition_value v) o = refl
change_id (set_broker_ref v) o = refl
change_id (set_valid_after v) o = refl
change_id (set_valid_before v) o = refl

-- An update leaves the id of its order.
change_all_id : (xs : List Change) (o : Order) → (change_all xs o).transaction_id ≡ o.transaction_id
unfolding change_all
change_all_id [] o = refl
change_all_id (x ∷ xs) o = change_all_id xs (change x o) ∙ change_id x o

pub take_order-IsKept : (c : Store) (parsed : OrderNew) → IsKept c → IsKept (take_order c parsed).1
unfolding take_order order_client_match
take_order-IsKept c parsed v = by_accounts c.accounts refl
  where
    by_match :
        (x : Option AccountState)
        → IsKept
            (elim (elim x as (λ _. ClientMatch) [ some state ↦ ours | none ↦ foreign ])
              as (λ _. List Event × Store) [
                | unknown ↦ ([], record c { pending = c.pending ++ parsed ∷ [] })
                | foreign ↦ ([], c)
                | ours ↦ (
                  order (build_order_event c parsed) ∷ [],
                  store_order c (build_order_event c parsed),
                )
              ]).1
    by_match (some state) =
        unfold store_order in
        record {
          stored = store_order-IsStored c (build_order_event c parsed) v.stored;
          waiting = v.waiting;
        }
    by_match none = v

    by_accounts :
        (xs : List (ℕ × AccountState))
        → c.accounts ≡ xs
        → IsKept
            (elim (elim xs as (λ _. ClientMatch) [
              | [] ↦ unknown
              | entry ∷ rest ↦ (elim (account_of c.accounts c.account_order parsed.client_id) [
                | some state ↦ ours
                | none ↦ foreign
              ])
            ])
              as (λ _. List Event × Store) [
                | unknown ↦ ([], record c { pending = c.pending ++ parsed ∷ [] })
                | foreign ↦ ([], c)
                | ours ↦ (
                  order (build_order_event c parsed) ∷ [],
                  store_order c (build_order_event c parsed),
                )
              ]).1
    by_accounts [] e = record {
      stored = record {
        listed = v.stored.listed;
        once = v.stored.once;
        own = v.stored.own;
        accounts = v.stored.accounts;
        accounts_once = v.stored.accounts_once;
      };
      waiting =
          All-append (λ p. find same_id p.client_id c.accounts ≡ none) c.pending (parsed ∷ [])
            v.waiting (ap (find same_id parsed.client_id) e, tt);
    }
    by_accounts (entry ∷ rest) e = by_match (account_of c.accounts c.account_order parsed.client_id)

pub apply_order_modify-IsKept :
    (c : Store) (id : ℕ) (xs : List Change) → IsKept c → IsKept (apply_order_modify c id xs).1
unfolding apply_order_modify
apply_order_modify-IsKept c id xs v = split (find same_id id c.orders) refl
  where
    split :
        (x : Option Order)
        → find same_id id c.orders ≡ x
        → IsKept
            (elim x as (λ _. List Event × Store) [
              | none ↦ ([], c)
              | some o ↦ (
                order (change_all xs o) ∷ [],
                record c { orders = insert same_id id (change_all xs o) c.orders },
              )
            ]).1
    split none e = v
    split (some o) e = record {
      stored = record {
        listed = keys-insert same_id id (change_all xs o) o c.orders e ∙ v.stored.listed;
        once = v.stored.once;
        own =
            find-insert_own same_id same_id-IsEquality (λ t. t.transaction_id) c.orders id
              (change_all xs o) (change_all_id xs o ∙ v.stored.own id o e) v.stored.own;
        accounts = v.stored.accounts;
        accounts_once = v.stored.accounts_once;
      };
      waiting = v.waiting;
    }

pub store_account-IsStored :
    (c : Store) (raw : ClientNew) → IsStored c → IsStored (store_account c raw)
unfolding store_account
store_account-IsStored c raw v =
    let ids = ap (appended raw.id (find same_id raw.id c.accounts)) v.accounts in
    let written =
      keys-insert-appended same_id same_id-IsEquality c.accounts raw.id
        (record { account = account_from raw; raw = raw })
        (subst (IsDistinct same_id) (sym v.accounts) v.accounts_once) in
    record {
      listed = v.listed;
      once = v.once;
      own = v.own;
      accounts = written.0 ∙ ids;
      accounts_once = subst (IsDistinct same_id) ids written.1;
    }

pub flush_from-IsStored :
    (c : Store) (id : ℕ) (ps : List OrderNew)
    → IsStored c
    → IsStored (flush_from c id ps).1 × ((flush_from c id ps).1.accounts ≡ c.accounts)
unfolding flush_from
flush_from-IsStored c id [] v = (v, refl)
flush_from-IsStored c id (p ∷ ps) v = elim (Bool-cases (p.client_id == id)) [
  | inl e ↦ rw e (
      let (w, same) =
        flush_from-IsStored (store_order c (build_order_event c p)) id ps
          (store_order-IsStored c (build_order_event c p) v) in
      (w, unfold store_order in same))
  | inr e ↦ rw e (flush_from-IsStored c id ps v)
]

-- Behind an account of their client no order waits, and the others go on waiting.
pub others-AllWait :
    (accounts : List (ℕ × AccountState)) (id : ℕ) (state : AccountState) (ps : List OrderNew)
    → AllWait accounts ps
    → AllWait (insert same_id id state accounts) (others id ps)
unfolding others
others-AllWait accounts id state [] h = tt
others-AllWait accounts id state (p ∷ ps) (h, hs) = elim (Bool-cases (p.client_id == id)) [
  | inl e ↦ rw e (others-AllWait accounts id state ps hs)
  | inr e ↦ rw e (
    find-insert same_id same_id-IsEquality p.client_id id state accounts
        ∙ ap (λ b. if b then some state else find same_id p.client_id accounts) e
        ∙ h,
    others-AllWait accounts id state ps hs,
  )
]
