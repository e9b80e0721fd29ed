-- ===== src/Native/Orders/Runs.antt =====
-- An order that waits for its account, its update, and the theorems at them.
use txmlconnector.Common.{ℕ, ◌≡◌, refl, none, List, [], ◌∷◌, Bytes}
use txmlconnector.Wire.Reader.{
  byte, uint16, raw, string, little_endian, extra_bytes, packed_word, packed, int32, int64,
}
use txmlconnector.Records.Parser.{◌>>=◌, ◌>>◌, pure, fail}
use txmlconnector.Records.Orders.{
  Order, read_cents, read_order_header, read_condition, read_value, read_settle_code, skip_blocks,
  skip_order_end, read_order_body, parse_order_new,
}
use txmlconnector.Records.Modify.{
  order_status_result, change, change_all, skip_special, read_changes, read_modify,
  parse_order_modify,
}
use txmlconnector.Records.Clients.{
  read_extra, read_client_new, parse_client_new, client_type_name, currency_name,
}
use txmlconnector.Native.Orders.{
  account_of, store_order, build_order_event, order_client_match, others, flush_from, flush_pending,
  take_order, decode_order_new, apply_order_modify, decode_order_modify, store_account, take_client,
  decode_client_new, is_seen, orders_from, orders,
}
use txmlconnector.Native.Orders.Kept.{IsKept, empty_store}
use txmlconnector.Native.Orders.Arrivals.{
  Arrival, client_new, order_new, order_modify, decode, decode_all, order_ids, decode_all_keeps,
}

-- The transaction 5 of the client 9: 3 pieces for 1.00.
abbrev new_body : Bytes
new_body =
    0x50 ∷ 0 ∷ 7 ∷ 0 ∷ 1 ∷ 0x90 ∷ b'B' ∷ 0 ∷ 0x41 ∷ 6 ∷ 0 ∷ 0 ∷ 0x30 ∷ 0 ∷ 0 ∷ b'x' ∷ 0 ∷ 0 ∷ 0x20
    ∷ 1 ∷ 0 ∷ 0x30 ∷ 0 ∷ 0 ∷ 0 ∷ 0 ∷ 0 ∷ 0 ∷ 0 ∷ 0 ∷ 0 ∷ []

abbrev client_body : Bytes
client_body = 0x90 ∷ b'c' ∷ 0 ∷ 0 ∷ 0 ∷ 0 ∷ 1 ∷ b'u' ∷ 0 ∷ 0 ∷ 1 ∷ 0 ∷ 0 ∷ 0 ∷ 0 ∷ []

-- The status 2, by the bit 0 of the mask.
abbrev cancel_body : Bytes
cancel_body = 0x50 ∷ 0 ∷ 0 ∷ 0 ∷ 1 ∷ 2 ∷ []

abbrev records : List Arrival
records =
    order_new new_body ∷ client_new client_body ∷ order_modify cancel_body ∷ order_new new_body ∷ []

abbrev names_of : List Order → List (ℕ × ℕ × Bytes × Bytes)
names_of [] = []
names_of (o ∷ os) = (o.transaction_id, o.status, o.client, o.union) ∷ names_of os

-- The order waits, is stored with the account, and is cancelled.
order_cancelled :
    names_of (
      orders (
        decode_all
          (empty_store none)
          (order_new new_body ∷ client_new client_body ∷ order_modify cancel_body ∷ [])))
    ≡ (5, 2, b'c' ∷ [], b'u' ∷ []) ∷ []
unfolding byte uint16 raw string little_endian extra_bytes packed_word packed int32 int64 ◌>>=◌ ◌>>◌
    pure fail read_cents read_order_header read_condition read_value read_settle_code skip_blocks
    skip_order_end read_order_body parse_order_new order_status_result change change_all
    skip_special read_changes read_modify parse_order_modify read_extra read_client_new
    parse_client_new client_type_name currency_name account_of store_order build_order_event
    order_client_match others flush_from flush_pending take_order decode_order_new
    apply_order_modify decode_order_modify store_account take_client decode_client_new is_seen
    orders_from orders decode decode_all
order_cancelled = refl

-- With no account the order waits.
order_waits : orders (decode_all (empty_store none) (order_new new_body ∷ [])) ≡ []
unfolding byte uint16 raw string little_endian extra_bytes packed_word packed int32 int64 ◌>>=◌ ◌>>◌
    pure fail read_cents read_order_header read_condition read_value read_settle_code skip_blocks
    skip_order_end read_order_body parse_order_new order_client_match take_order decode_order_new
    orders_from orders decode decode_all
order_waits = refl

decode_all_keeps_example :
    let c = decode_all (empty_store none) records in
    IsKept c × (order_ids (orders c) ≡ c.order_order)
decode_all_keeps_example = decode_all_keeps none records
