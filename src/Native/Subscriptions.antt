-- ===== src/Native/Subscriptions.antt =====
-- native/client_subscribe.go: the feeds of the session, by symbol. Go ranges over a map in any order:
-- `ranges` has the entries in the order of each loop. The cache of the specifications, which a
-- successful subscription refreshes, is left out; the request for them is not.
pub mod Feeds
pub mod Commit
pub mod Stored
pub mod Change
mod Runs
use txmlconnector.Common.{ℕ, ◌-◌, ◌^◌, Bool, true, false, not, ◌&&◌, ◌||◌, Option, none, some}
use txmlconnector.Common.{
  List, [], ◌∷◌, ◌++◌, Bytes, ltb, ◌==◌, if◌then◌else◌, find, insert, delete,
}
use Prim.Native.Nat.{bit_and, bit_or}
use txmlconnector.Session.Conn.{SessionError, Answer, answer, failed, Net, Conn}
use txmlconnector.Session.Payloads.{SubscribeItem}
use txmlconnector.Session.Requests.{subscribe, sec_spec}
use txmlconnector.Records.Trades.{same_symbol}
use txmlconnector.Records.Dictionary.{Board}
use txmlconnector.Records.Securities.{SecNew}
use txmlconnector.Records.Catalog.{Catalog, lookup}

-- The board and the code.
abbrev pub Symbol : Type 0
Symbol = Bytes × Bytes

pub record Subscription : Type 0 where
  pub all_trades : List Symbol
  pub quotations : List Symbol
  pub quotes : List Symbol

-- The fields of the client that the subscriptions need.
pub record Subscriber : Type 0 where
  pub recovering : Bool
  pub conn : Option Conn
  pub catalog : Option Catalog
  pub subs : List (Symbol × ℕ)

pub data ClientError : Type 0 where
  being_recovered not_connected : ClientError
  unknown_security : Symbol → ClientError
  session_error : SessionError → ClientError

-- `mask |= bit` and `mask &^= bit` on a byte, for the bit `k`.
unfoldable pub set_feed : Bool → ℕ → ℕ → ℕ
set_feed on k mask = if on then bit_or mask (2 ^ k) else bit_and mask (255 - 2 ^ k)

-- `c.subs[s]`.
unfoldable pub mask_in : List (Symbol × ℕ) → Symbol → ℕ
mask_in subs s = elim (find same_symbol s subs) [ some mask ↦ mask | none ↦ 0 ]

-- The mask that is to be sent so far.
unfoldable pub mask_next : List (Symbol × ℕ) → List (Symbol × ℕ) → Symbol → ℕ
unfolding mask_in
mask_next next subs s = elim (find same_symbol s next) [ some mask ↦ mask | none ↦ mask_in subs s ]

-- `apply` of `changeSubscription`.
unfoldable pub apply_feed :
    Bool → ℕ → List (Symbol × ℕ) → List Symbol → List (Symbol × ℕ) → List (Symbol × ℕ)
unfolding set_feed mask_next
apply_feed on k subs [] next = next
apply_feed on k subs (s ∷ ss) next =
    apply_feed on k subs ss (insert same_symbol s (set_feed on k (mask_next next subs s)) next)

-- `SubAllTrades`, `SubQuotations` and `SubQuotes` are the bits 2, 0 and 1.
unfoldable pub next_masks : Bool → Subscription → List (Symbol × ℕ) → List (Symbol × ℕ)
unfolding apply_feed
next_masks on sub subs =
    apply_feed on 1 subs sub.quotes
      (apply_feed on 0 subs sub.quotations (apply_feed on 2 subs sub.all_trades []))

-- What the catalog makes of the masks: the first symbol that it does not know, or the items and the ids
-- whose specifications are asked for.
pub data Resolved : Type 0 where
  unresolved : Symbol → Resolved
  resolved : List SubscribeItem → List ℕ → Resolved

-- The id and the number of the zero values are 0.
abbrev pub id_of : Option SecNew → ℕ
id_of (some s) = s.sec_id
id_of none = 0

abbrev pub num_of : Option Board → ℕ
num_of (some b) = b.num
num_of none = 0

abbrev pub item_of : Option SecNew → Option Board → ℕ → SubscribeItem
item_of sec board mask = record { sec_id = id_of sec; board = num_of board; mask = mask }

abbrev pub and_item : Bool → Option SecNew → Option Board → ℕ → Resolved → Resolved
and_item on sec board mask (unresolved s) = unresolved s
and_item on sec board mask (resolved items ids) =
    resolved (item_of sec board mask ∷ items)
      (if on && not (mask == 0) then id_of sec ∷ ids else ids)

unfoldable pub resolve : Bool → Catalog → List (Symbol × ℕ) → Resolved
resolve on cat [] = resolved [] []
resolve on cat (((board, code), mask) ∷ es) =
    let rest = resolve on cat es in
    elim (lookup cat board code) [
      | none ↦ unresolved (board, code)
      | some (sec, b) ↦ and_item on sec b mask rest
    ]

-- `sort.Slice` by the id and then the board.
abbrev pub comes_before : SubscribeItem → SubscribeItem → Bool
comes_before a b = if not (a.sec_id == b.sec_id) then ltb a.sec_id b.sec_id else ltb a.board b.board

unfoldable pub insert_item : SubscribeItem → List SubscribeItem → List SubscribeItem
insert_item a [] = a ∷ []
insert_item a (b ∷ bs) =
    let rest = insert_item a bs in if comes_before b a then b ∷ rest else a ∷ b ∷ bs

unfoldable pub sort_items : List SubscribeItem → List SubscribeItem
unfolding insert_item
sort_items [] = []
sort_items (a ∷ rest) = insert_item a (sort_items rest)

-- The masks that the server has taken: those that are 0 are forgotten.
unfoldable pub commit : List (Symbol × ℕ) → List (Symbol × ℕ) → List (Symbol × ℕ)
commit [] subs = subs
commit ((s, mask) ∷ es) subs =
    commit es (if mask == 0 then delete same_symbol s subs else insert same_symbol s mask subs)

-- `reverseIDs`.
unfoldable pub reverse_ids : List ℕ → List ℕ
reverse_ids [] = []
reverse_ids (x ∷ xs) = reverse_ids xs ++ x ∷ []

-- The exchange of `loadSecSpecs`, whose error the callers drop.
unfoldable pub load_sec_specs : Net → List ℕ → Subscriber → Subscriber
load_sec_specs net [] c = c
load_sec_specs net (i ∷ ids) c = elim (c.conn) [
  | none ↦ c
  | some conn ↦ record c { conn = some (sec_spec net (i ∷ ids) conn).1 }
]

-- Behind the exchange of the subscription, with the masks of the second loop.
unfoldable pub subscribed :
    Net
    → Bool
    → List (Symbol × ℕ)
    → List ℕ
    → Subscriber
    → Answer (Unit {0}) × Conn
    → Option ClientError × Subscriber
unfolding commit reverse_ids load_sec_specs
subscribed net on es ids c (failed e, conn) =
    (some (session_error e), record c { conn = some conn })
subscribed net on es ids c (answer a, conn) =
    let c' = record c { conn = some conn; subs = commit es c.subs } in
    (none, if on then load_sec_specs net (reverse_ids ids) c' else c')

module _ (ranges : ℕ → List (Symbol × ℕ) → List (Symbol × ℕ)) (net net_spec : Net) where
  unfoldable pub send_masks :
      Bool → List (Symbol × ℕ) → Conn → Catalog → Subscriber → Option ClientError × Subscriber
  unfolding resolve sort_items subscribed
  send_masks on next conn cat c = elim (resolve on cat (ranges 0 next)) [
    | unresolved s ↦ (some (unknown_security s), c)
    | resolved items ids ↦
        subscribed net_spec on (ranges 1 next) ids c (subscribe net (sort_items items) conn)
  ]

  -- `changeSubscription`.
  unfoldable pub change_subscription :
      Bool → Subscription → Subscriber → Option ClientError × Subscriber
  unfolding send_masks next_masks
  change_subscription on sub c =
      if c.recovering then (some being_recovered, c) else (elim (c.conn) [
        | none ↦ (some not_connected, c)
        | some conn ↦ (elim (c.catalog) [
          | none ↦ (some not_connected, c)
          | some cat ↦ send_masks on (next_masks on sub c.subs) conn cat c
        ])
      ])
