-- ===== src/Records/Ticks.antt =====
-- native/records/ticks.go: the ticks of RQ_MAIN and of the RQ_TICKS reply.
use txmlconnector.Common.{ℕ, Option, none, some, List, [], ◌∷◌, Bytes, Result, ◌==◌, if◌then◌else◌}
use txmlconnector.Wire.Words.{sign_extend, add64}
use txmlconnector.Wire.Reader.{byte, uint16, int32, int64}
use txmlconnector.Records.Parser.{Parser, ◌>>=◌, pure, read_all, finished, value_of}

pub record TickRecord : Type 0 where
  pub sec_id : ℕ
  pub board : ℕ
  pub trade_no : ℕ
  pub time : ℕ
  pub price : ℕ
  pub volume : ℕ
  pub period : ℕ
  pub buy_sell : ℕ
  pub x : ℕ
  pub y : ℕ

unfoldable pub read_tick_fields : ℕ → Parser (Option TickRecord)
read_tick_fields sec_id = do
  board ← uint16
  trade_no ← int64
  time ← int32
  price ← int32
  volume ← int32
  period ← byte
  buy_sell ← byte
  x ← int32
  y ← int32
  pure (
      some (record {
        sec_id = sec_id;
        board = board;
        trade_no = trade_no;
        time = sign_extend time;
        price = sign_extend price;
        volume = sign_extend volume;
        period = period;
        buy_sell = buy_sell;
        x = sign_extend x;
        y = sign_extend y;
      }))

unfoldable pub read_tick : Parser (Option TickRecord)
read_tick = do sec_id ← uint16; if sec_id == 0xffff then pure none else read_tick_fields sec_id

unfoldable pub read_ticks : Parser (List TickRecord)
read_ticks = read_all read_tick

unfoldable pub parse_tick_record : Bytes → Result (List TickRecord)
parse_tick_record body = finished (read_ticks body)

pub record Tick : Type 0 where
  pub sec_id : ℕ
  pub board : ℕ
  pub trade_no : ℕ
  pub time : ℕ
  pub price : ℕ
  pub field : ℕ
  pub volume : ℕ

-- A tick of the reply as it is sent: number, time and price are deltas.
unfoldable pub read_delta_fields : ℕ → Parser (Option Tick)
read_delta_fields sec_id = do
  board ← uint16
  trade_no ← int64
  time ← int32
  price ← int32
  field ← byte
  volume ← int32
  pure (
      some (record {
        sec_id = sec_id;
        board = board;
        trade_no = trade_no;
        time = sign_extend time;
        price = sign_extend price;
        field = field;
        volume = sign_extend volume;
      }))

unfoldable pub read_delta : Parser (Option Tick)
read_delta = do sec_id ← uint16; if sec_id == 0xffff then pure none else read_delta_fields sec_id

-- The running sums of the loop. They do not change what the loop reads, so they are taken after it.
unfoldable pub accumulate : ℕ → ℕ → ℕ → List Tick → List Tick
accumulate trade_no time price [] = []
accumulate trade_no time price (t ∷ ticks) =
    let trade_no' = add64 trade_no t.trade_no in
    let time' = add64 time t.time in
    let price' = add64 price t.price in
    record t { trade_no = trade_no'; time = time'; price = price' }
    ∷ accumulate trade_no' time' price' ticks

unfoldable pub read_ticks_reply : Parser (List Tick)
read_ticks_reply = do deltas ← read_all read_delta; pure (accumulate 0 0 0 deltas)

unfoldable pub parse_ticks_reply : Bytes → Result (List Tick)
parse_ticks_reply payload = value_of (read_ticks_reply payload)
