-- ===== src/Records/Orders.antt =====
-- native/model/order.go and native/records/order.go: the orders of the session, R_ORD_NEW.
-- A body that ran out is skipped: what the source marks as short is no value here.
use txmlconnector.Common.{ℕ, Bool, false, not, Option, none, some}
use txmlconnector.Common.{[], Bytes, ◌==◌, if◌then◌else◌, Result, ok, err}
use txmlconnector.Wire.Words.{sign_extend}
use txmlconnector.Wire.Reader.{Read, byte, uint16, int32, int64, string}
use txmlconnector.Records.Parser.{Parser, ◌>>=◌, ◌>>◌, pure, fail, has_bit, optional}
use txmlconnector.Model.Decimal.{Decimal}
use txmlconnector.Common.{bad_value}

pub record Order : Type 0 where
  pub transaction_id : ℕ
  pub order_no : ℕ
  pub sec_id : ℕ
  pub board : Bytes
  pub sec_code : Bytes
  pub union : Bytes
  pub client : Bytes
  pub status : ℕ
  pub buy_sell : ℕ
  pub time : ℕ
  pub accept_time : ℕ
  pub withdraw_time : ℕ
  pub broker_ref : Bytes
  pub settle_code : Bytes
  pub value : Decimal
  pub within_pos : Bool
  pub balance : ℕ
  pub price : Decimal
  pub quantity : ℕ
  pub yield_price : Decimal
  pub condition : ℕ
  pub condition_value : Decimal
  pub valid_after : ℕ
  pub valid_before : ℕ
  pub hidden : ℕ
  pub result : Bytes

pub record OrderNew : Type 0 where
  pub order : Order
  pub board_id : ℕ
  pub client_id : ℕ

-- `model.Decimal{}`, and `model.Decimal{Units: int64(v), Scale: 2}` of an int32.
abbrev pub no_decimal : Decimal
no_decimal = record { units = 0; scale = 0 }

abbrev pub cents : ℕ → Decimal
cents v = record { units = v; scale = 2 }

unfoldable pub read_cents : Parser Decimal
read_cents = do v ← int32; pure (cents (sign_extend v))

-- The order id, the security, the board and the client.
unfoldable pub read_order_header : Parser (ℕ × ℕ × ℕ × ℕ)
read_order_header = do
  id ← int32
  sec_id ← uint16
  board_id ← uint16
  client_id ← int64
  pure (id, sec_id, board_id, client_id)

-- The fields of a conditional order: the value, the times, and whether it is within the position.
unfoldable pub read_condition : Parser (Decimal × ℕ × ℕ × Bool)
unfolding read_cents
read_condition = do
  value ← read_cents
  valid_after ← int32
  valid_before ← int32
  within ← byte
  int32
  pure (value, valid_after, valid_before, not (within == 0))

unfoldable pub read_value : Parser Decimal
read_value = do v ← int64; pure (cents v)

unfoldable pub read_settle_code : Parser Bytes
read_settle_code = do byte; string 12

abbrev pub skip_with : {A : Type 0} → Parser A → Parser (Unit {0})
skip_with read = do read; pure tt

-- The blocks of the bits 3 to 5 of the mask.
unfoldable pub skip_blocks : ℕ → Parser (Unit {0})
skip_blocks mask = do
  optional (has_bit mask 3) (skip_with int32) tt
  optional (has_bit mask 4) (skip_with (int32 >> byte)) tt
  optional (has_bit mask 5) (skip_with (int32 >> int64)) tt

-- The end of the body, behind the reason of a rejected order.
unfoldable pub skip_order_end : ℕ → Parser (Unit {0})
skip_order_end mask = do
  optional (has_bit mask 6) (skip_with int32) tt
  optional (has_bit mask 7) (skip_with byte) tt
  byte
  byte
  byte
  byte
  kind ← byte
  optional (kind == 0x52) (skip_with (int32 >> int32 >> int32 >> int64 >> int64 >> int64)) tt
  byte
  byte
  optional (has_bit mask 8) (skip_with (uint16 >> uint16)) tt

-- The body behind the header. An order that was denied (4) is skipped: what follows is not known.
unfoldable pub read_order_body : ℕ → ℕ → Parser Order
unfolding read_cents read_condition read_value read_settle_code skip_blocks skip_order_end
read_order_body id sec_id = do
  buy_sell ← byte
  byte
  price ← read_cents
  mask ← uint16
  yield_price ← optional (has_bit mask 0) read_cents no_decimal
  quantity ← int32
  broker_ref ← string 20
  condition ← byte
  (condition_value, valid_after, valid_before, within_pos) ←
      optional (not (condition == 0)) read_condition (no_decimal, 0, 0, false)
  value ← optional (has_bit mask 1) read_value no_decimal
  client ← string 12
  accept_time ← int32
  order_no ← int64
  status ← byte
  time ← int32
  balance ← int32
  string 12
  int32
  settle_code ← optional (has_bit mask 1) read_settle_code []
  withdraw_time ← optional (has_bit mask 2) int32 0
  skip_blocks mask
  result ← if status == 4 then fail bad_value else optional (status == 6) (string 512) []
  skip_order_end mask
  pure (record {
    transaction_id = id;
    order_no = order_no;
    sec_id = sec_id;
    board = [];
    sec_code = [];
    union = [];
    client = client;
    status = status;
    buy_sell = buy_sell;
    time = time;
    accept_time = accept_time;
    withdraw_time = withdraw_time;
    broker_ref = broker_ref;
    settle_code = settle_code;
    value = value;
    within_pos = within_pos;
    balance = sign_extend balance;
    price = price;
    quantity = sign_extend quantity;
    yield_price = yield_price;
    condition = condition;
    condition_value = condition_value;
    valid_after = valid_after;
    valid_before = valid_before;
    hidden = 0;
    result = result;
  })

abbrev pub order_of : ℕ → ℕ → Read Order → Option OrderNew
order_of board_id client_id (ok (o, r)) =
    some (record { order = o; board_id = board_id; client_id = client_id })
order_of board_id client_id (err e) = none

-- `ParseOrderNew`: a header that ran out is an error; `none` stands for `Short`.
unfoldable pub parse_order_new : Bytes → Result (Option OrderNew)
unfolding read_order_body
parse_order_new body = elim (read_order_header body) [
  | ok ((id, sec_id, board_id, client_id), r) ↦
      ok (order_of board_id client_id (read_order_body id sec_id r))
  | err e ↦ err e
]
