-- ===== src/Native/Orders.antt =====
-- native/client_orders.go, events_order.go and client_accounts.go: the orders and the accounts that the
-- client keeps. A nil map is an empty one. The stored orders are the client's own copies: an event has
-- a copy of its own.
pub mod Kept
pub mod Arrivals
mod Runs
use txmlconnector.Common.{ℕ, Bool, true, false, not, ◌&&◌, Option, none, some}
use txmlconnector.Common.{
  List, [], ◌∷◌, ◌++◌, Bytes, ◌==◌, if◌then◌else◌, appended, find, insert, Result, ok, err,
}
use txmlconnector.Records.Orders.{Order, OrderNew, parse_order_new}
use txmlconnector.Records.Modify.{Change, change_all, parse_order_modify}
use txmlconnector.Records.Trades.{same_bytes}
use txmlconnector.Records.Clients.{ClientNew, parse_client_new, client_type_name, currency_name}
use txmlconnector.Records.Securities.{SecNew}
use txmlconnector.Records.Dictionary.{Board}
use txmlconnector.Records.Catalog.{Catalog, same_id, security, board}

pub record ClientAccount : Type 0 where
  pub id : Bytes
  pub type : Bytes
  pub currency : Bytes
  pub union : Bytes
  pub forts_acc : Bytes
  pub market : ℕ
  pub removed : Bool

pub record AccountState : Type 0 where
  pub account : ClientAccount
  pub raw : ClientNew

-- The fields of the client that the orders need.
pub record Store : Type 0 where
  pub catalog : Option Catalog
  pub accounts : List (ℕ × AccountState)
  pub account_order : List ℕ
  pub orders : List (ℕ × Order)
  pub order_order : List ℕ
  pub pending : List OrderNew

-- `*model.ClientAccount` and `*model.Order`.
pub data Event : Type 0 where
  account : ClientAccount → Event
  order : Order → Event

-- The first account with the numeric id, in the order of the arrivals.
unfoldable pub account_of : List (ℕ × AccountState) → List ℕ → ℕ → Option AccountState
account_of accounts [] client_id = none
account_of accounts (id ∷ ids) client_id =
    let rest = account_of accounts ids client_id in
    elim (find same_id id accounts) [
      | some state ↦ if state.raw.id == client_id then some state else rest
      | none ↦ rest
    ]

-- The first account with the code, or where there is no code with the union.
unfoldable pub numeric_id : List (ℕ × AccountState) → List ℕ → Bytes → Bytes → Option ℕ
numeric_id accounts [] client union = none
numeric_id accounts (id ∷ ids) client union =
    let rest = numeric_id accounts ids client union in
    elim (find same_id id accounts) [
      | none ↦ rest
      | some state ↦
          if not (same_bytes client []) && same_bytes state.raw.code client
          then some state.raw.id
          else if same_bytes client []
              && (not (same_bytes union []) && same_bytes state.raw.union union)
          then some state.raw.id
          else rest
    ]

-- `clientNumericIDLocked`.
unfoldable pub client_numeric_id : Store → Bytes → Bytes → Option ℕ
unfolding numeric_id
client_numeric_id c client union = numeric_id c.accounts c.account_order client union

-- `storeOrderLocked`.
unfoldable pub store_order : Store → Order → Store
store_order c o = record c {
  order_order = appended o.transaction_id (find same_id o.transaction_id c.orders) c.order_order;
  orders = insert same_id o.transaction_id o c.orders;
}

-- The account, the security and the board that an order names.
abbrev pub with_account : Option AccountState → Order → Order
with_account (some state) o = record o { client = state.account.id; union = state.account.union }
with_account none o = o

abbrev pub with_security : Option SecNew → Order → Order
with_security (some s) o = record o { sec_code = s.sec_code }
with_security none o = o

abbrev pub with_board : Option Board → Order → Order
with_board (some b) o = record o { board = b.code }
with_board none o = o

abbrev pub with_names : Option Catalog → ℕ → Order → Order
with_names none board_id o = o
with_names (some cat) board_id o =
    with_board (board cat board_id) (with_security (security cat o.sec_id) o)

-- `buildOrderEventLocked`.
unfoldable pub build_order_event : Store → OrderNew → Order
unfolding account_of
build_order_event c parsed =
    with_names c.catalog parsed.board_id
      (with_account (account_of c.accounts c.account_order parsed.client_id) parsed.order)

-- What `orderClientMatchLocked` says: the accounts are not known yet, or the client is one of them or
-- not.
pub data ClientMatch : Type 0 where
  unknown ours foreign : ClientMatch

unfoldable pub order_client_match : Store → ℕ → ClientMatch
unfolding account_of
order_client_match c client_id = elim c.accounts [
  | [] ↦ unknown
  | entry ∷ rest ↦ (elim (account_of c.accounts c.account_order client_id) [
    | some state ↦ ours
    | none ↦ foreign
  ])
]

-- The pending orders that stay.
unfoldable pub others : ℕ → List OrderNew → List OrderNew
others client_id [] = []
others client_id (p ∷ ps) =
    let rest = others client_id ps in if not (p.client_id == client_id) then p ∷ rest else rest

-- The pending orders of the client are stored and reported. `build` and the stores read the accounts and
-- the catalog, which stay the same.
unfoldable pub flush_from : Store → ℕ → List OrderNew → List Event × Store
unfolding build_order_event store_order
flush_from c client_id [] = ([], c)
flush_from c client_id (p ∷ ps) =
    let o = build_order_event c p in
    let c' = if not (p.client_id == client_id) then c else store_order c o in
    let (events, c'') = flush_from c' client_id ps in
    (if not (p.client_id == client_id) then events else order o ∷ events, c'')

-- `flushPendingOrdersLocked`.
unfoldable pub flush_pending : Store → ℕ → List Event × Store
unfolding flush_from others
flush_pending c client_id =
    let (events, c') = flush_from c client_id c.pending in
    (events, record c' { pending = others client_id c.pending })

-- `decodeOrderNew` behind the parser.
unfoldable pub take_order : Store → OrderNew → List Event × Store
unfolding build_order_event store_order order_client_match
take_order c parsed = elim (order_client_match c parsed.client_id) [
  | unknown ↦ ([], record c { pending = c.pending ++ parsed ∷ [] })
  | foreign ↦ ([], c)
  | ours ↦ let o = build_order_event c parsed in (order o ∷ [], store_order c o)
]

unfoldable pub decode_order_new : Store → Bytes → Result (List Event) × Store
unfolding take_order
decode_order_new c body = elim (parse_order_new body) [
  | err e ↦ (err e, c)
  | ok none ↦ (ok [], c)
  | ok (some parsed) ↦ let (events, c') = take_order c parsed in (ok events, c')
]

-- `applyOrderModifyLocked`, and the event of the order that it returns.
unfoldable pub apply_order_modify : Store → ℕ → List Change → List Event × Store
apply_order_modify c id changes = elim (find same_id id c.orders) [
  | none ↦ ([], c)
  | some o ↦
      let updated = change_all changes o in
      (order updated ∷ [], record c { orders = insert same_id id updated c.orders })
]

unfoldable pub decode_order_modify : Store → Bytes → Result (List Event) × Store
unfolding apply_order_modify
decode_order_modify c body = elim (parse_order_modify body) [
  | none ↦ (ok [], c)
  | some (id, changes) ↦ let (events, c') = apply_order_modify c id changes in (ok events, c')
]

abbrev pub account_from : ClientNew → ClientAccount
account_from raw = record {
  id = raw.code;
  type = client_type_name raw.type;
  currency = currency_name raw.currency_id;
  union = raw.union;
  forts_acc = [];
  market = raw.market;
  removed = false;
}

-- The account of a record, which replaces one with its id.
unfoldable pub store_account : Store → ClientNew → Store
store_account c raw = record c {
  account_order = appended raw.id (find same_id raw.id c.accounts) c.account_order;
  accounts = insert same_id raw.id (record { account = account_from raw; raw = raw }) c.accounts;
}

-- `decodeClientNew` behind the parser: the pending orders of the client come with the account.
unfoldable pub take_client : Store → ClientNew → List Event × Store
unfolding store_account flush_pending
take_client c raw =
    let (events, c') = flush_pending (store_account c raw) raw.id in
    (account (account_from raw) ∷ events, c')

unfoldable pub decode_client_new : Store → Bytes → Result (List Event) × Store
unfolding take_client
decode_client_new c body = elim (parse_client_new body) [
  | err e ↦ (err e, c)
  | ok raw ↦ let (events, c') = take_client c raw in (ok events, c')
]

-- `Orders`: the stored orders in the order of their arrival; `seen` has the ids in front.
unfoldable pub is_seen : ℕ → List ℕ → Bool
is_seen id [] = false
is_seen id (x ∷ xs) = let rest = is_seen id xs in if x == id then true else rest

unfoldable pub orders_from : List (ℕ × Order) → List ℕ → List ℕ → List Order
unfolding is_seen
orders_from orders seen [] = []
orders_from orders seen (id ∷ ids) =
    let skipped = orders_from orders seen ids in
    let taken = orders_from orders (id ∷ seen) ids in
    elim (find same_id id orders) [
      | none ↦ skipped
      | some o ↦ if is_seen id seen then skipped else o ∷ taken
    ]

unfoldable pub orders : Store → List Order
unfolding orders_from
orders c = orders_from c.orders [] c.order_order
