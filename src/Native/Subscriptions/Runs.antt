-- ===== src/Native/Subscriptions/Runs.antt =====
-- A client with one security subscribes and unsubscribes, and the theorem at it.
use txmlconnector.Common.{
  ℕ, ◌<◌, ◌≡◌, ◌≢◌, refl, arith, true, false, none, some, List, [], ◌∷◌, if◌then◌else◌,
}
use txmlconnector.Records.Parser.{has_bit}
use txmlconnector.Records.Catalog.{Catalog, lookup}
use txmlconnector.Crypto.{encrypt as cipher_encrypt, gamma, cfb_encrypt, cfb_decrypt, new_cipher}
use txmlconnector.Crypto.Tables.{default_key, default_sync}
use txmlconnector.Wire.Writer.{write_byte, write_uint16}
use txmlconnector.Wire.Frame.{
  encode, decode, decode_payload, default_keys, new_keys, kind, server_to_client, encrypt, decrypt,
  crc16,
}
use txmlconnector.Session.Payloads.{subscribe_payload, write_subscribe_items}
use txmlconnector.Session.Requests.{subscribe}
use txmlconnector.Session.Conn.{
  Net, request_reply, exchange, talk, write_and_read, receive, read_reply, unread_after, judge,
}
use txmlconnector.Common.{◌⊎◌, inl, inr, sym, ap, ◌∙◌, Bool-cases, ok, err}
use txmlconnector.Records.Trades.{same_symbol}
use txmlconnector.Records.Dictionary.{Board}
use txmlconnector.Native.Subscriptions.{
  Symbol, Subscription, Subscriber, set_feed, mask_in, mask_next, apply_feed, next_masks,
  change_subscription, commit, send_masks, resolve, sort_items, insert_item, subscribed,
  reverse_ids, load_sec_specs,
}
use txmlconnector.Native.Subscriptions.Feeds.{is_in}
use txmlconnector.Native.Subscriptions.Commit.{AreMasks, feed}
use txmlconnector.Native.Subscriptions.Change.{change_subscription_feeds}

abbrev in_order : ℕ → List (Symbol × ℕ) → List (Symbol × ℕ)
in_order k m = m

abbrev quiet : Net
quiet = record { deadline_set = true; write_limit = none; arrives = []; ended = false }

abbrev sber : Symbol
sber = (0x54 ∷ [], 0x41 ∷ [])

abbrev gazp : Symbol
gazp = (0x54 ∷ [], 0x42 ∷ [])

abbrev trades_and_quotes : Subscription
trades_and_quotes = record { all_trades = sber ∷ gazp ∷ []; quotations = []; quotes = sber ∷ [] }

-- The masks that are sent, and those that are stored when the trades of one are given up.
masks_sent : next_masks true trades_and_quotes [] ≡ (sber, 6) ∷ (gazp, 4) ∷ []
unfolding set_feed mask_in mask_next apply_feed next_masks
masks_sent = refl

masks_stored :
    commit
      (next_masks false
        (record { all_trades = gazp ∷ []; quotations = []; quotes = [] })
        ((sber, 6) ∷ (gazp, 4) ∷ []))
      ((sber, 6) ∷ (gazp, 4) ∷ [])
    ≡ (sber, 6) ∷ []
unfolding set_feed mask_in mask_next apply_feed next_masks commit
masks_stored = refl

gazp_mask : AreMasks ((gazp, 1) ∷ [])
gazp_mask s mask h = by_key (Bool-cases (same_symbol s gazp))
  where
    by_key : (same_symbol s gazp ≡ true) ⊎ (same_symbol s gazp ≡ false) → (mask < 8) × (mask ≢ 0)
    by_key (inl e) =
        let at : some 1 ≡ some mask = sym (ap (λ b. if b then some 1 else none) e) ∙ h in
        let eq : 1 ≡ mask = ground arith in (omega (arith, eq), λ z. absurd (omega (arith, eq, z)))
    by_key (inr e) = cc (sym (ap (λ b. if b then some 1 else none) e) ∙ h)

-- The catalog of one board with both securities.
abbrev board_t : Board
board_t = record {
  num = 1;
  market = 1;
  code = 0x54 ∷ [];
  name = [];
  word = 0;
  byte1 = 0;
  text = [];
  byte2 = 0;
  type = 1;
}

abbrev two_securities : Catalog
two_securities = record {
  startup = record {
    markets = [];
    markets_tail = 0;
    board_types = [];
    boards = board_t ∷ [];
    sec_types = [];
    candle_kinds = [];
    columns = [];
  };
  boards = (1, board_t) ∷ [];
  codes = (0x54 ∷ [], board_t) ∷ [];
  secs = [];
  symbols = (sber, 7) ∷ (gazp, 9) ∷ [];
  order = [];
  delivered = 0;
  trade_date = 0;
}

abbrev online : Subscriber
online = record {
  recovering = false;
  conn = some (record {
    nc = some (record { unread = []; sent = [] });
    keys = default_keys;
    sid = 3;
    seq = 9;
    last_type = 7;
    abandoned = [];
  });
  catalog = some two_securities;
  subs = (gazp, 1) ∷ [];
}

-- The server takes the subscription: what `encode` makes of an empty reply.
abbrev accepting : Net
accepting = record {
  deadline_set = true;
  write_limit = none;
  arrives =
      elim (encode default_keys server_to_client (record { flags = 2; type = 10; payload = [] })) [
        | ok wire ↦ wire
        | err e ↦ []
      ];
  ended = false;
}

online_subscribed :
    (change_subscription in_order accepting quiet true trades_and_quotes online).0 ≡ none
unfolding change_subscription send_masks next_masks apply_feed set_feed mask_next mask_in resolve
    lookup sort_items insert_item subscribe subscribe_payload write_subscribe_items request_reply
    exchange talk write_and_read receive read_reply unread_after encode decode decode_payload
    encrypt decrypt gamma cfb_encrypt cfb_decrypt cipher_encrypt crc16 new_cipher default_keys
    new_keys default_key default_sync judge kind subscribed commit reverse_ids load_sec_specs
    write_byte write_uint16
online_subscribed = refl

change_subscription_feeds_example :
    let (e, c') = change_subscription in_order accepting quiet true trades_and_quotes online in
    (e ≡ none
      → ((s : Symbol) (j : ℕ)
          → j < 3
          → has_bit (mask_in c'.subs s) j ≡ (
              if is_in s (feed trades_and_quotes j)
              then true
              else has_bit (mask_in ((gazp, 1) ∷ []) s) j))
        × AreMasks c'.subs)
    × (e ≢ none → c'.subs ≡ (gazp, 1) ∷ [])
change_subscription_feeds_example =
    change_subscription_feeds in_order accepting quiet true trades_and_quotes online
      (λ m d. (d, λ s. refl)) gazp_mask
