-- ===== src/Records/Trades.antt =====
-- native/records/alltrade.go: the trades of the market feed, and the check that drops repeated ones. A
-- map is an association list with the newest entry first.
pub mod Rising
use txmlconnector.Common.{
  ℕ, ◌+◌, ◌%◌, ◌^◌, Bool, true, false, not, ◌&&◌, Option, none, some, List, [], ◌∷◌, Bytes, Result,
  leb, ◌==◌, if◌then◌else◌,
}
use txmlconnector.Wire.Words.{sign_extend}
use txmlconnector.Wire.Reader.{byte, uint16, int32, int64, string}
use txmlconnector.Records.Parser.{Parser, ◌>>=◌, pure, has_bit, optional, value_of}

pub record AllTrade : Type 0 where
  pub sec_id : ℕ
  pub board : ℕ
  pub trade_no : ℕ
  pub time : ℕ
  pub price : ℕ
  pub quantity : ℕ
  pub flags : ℕ
  pub period : ℕ
  pub buy_sell : ℕ
  pub open_int : ℕ
  pub millis : ℕ
  pub field2 : ℕ
  pub field2_long : ℕ
  pub field4 : ℕ
  pub text : Bytes
  pub block20 : List ℕ
  pub currency : Bytes

unfoldable pub read_block20 : Parser (List ℕ)
read_block20 = do
  a ← int32
  b ← int32
  c ← int64
  d ← int64
  pure (sign_extend a ∷ sign_extend b ∷ c ∷ d ∷ [])

-- The fields in the order of the body; what its flags leave out is 0, and the milliseconds are 1000.
unfoldable pub read_all_trade : Parser AllTrade
read_all_trade = do
  sec_id ← uint16
  board ← uint16
  trade_no ← int64
  time ← int32
  price ← int32
  quantity ← int32
  flags ← uint16
  period ← optional (has_bit flags 0) byte 0
  field2 ← optional (has_bit flags 1) int32 0
  field4 ← optional (has_bit flags 2) int64 0
  field2_long ← optional (has_bit flags 1) int64 0
  buy_sell ← optional (has_bit flags 3) byte 0
  text ← optional (has_bit flags 4) (string 0xc) []
  block20 ← optional (has_bit flags 5) read_block20 (0 ∷ 0 ∷ 0 ∷ 0 ∷ [])
  open_int ← optional (has_bit flags 6) int32 0
  currency ← optional (has_bit flags 7) (string 4) []
  millis ← optional (has_bit flags 8) uint16 1000
  pure (record {
    sec_id = sec_id;
    board = board;
    trade_no = trade_no;
    time = sign_extend time;
    price = sign_extend price;
    quantity = sign_extend quantity;
    flags = flags;
    period = period;
    buy_sell = buy_sell;
    open_int = sign_extend open_int;
    millis = millis;
    field2 = field2;
    field2_long = field2_long;
    field4 = field4;
    text = text;
    block20 = block20;
    currency = currency;
  })

unfoldable pub parse_all_trade : Bytes → Result AllTrade
parse_all_trade body = value_of (read_all_trade body)

-- Moves the order of int64 to that of numbers.
abbrev pub biased64 : ℕ → ℕ
biased64 x = (x + 2 ^ 63) % 2 ^ 64

abbrev pub lookup : {K : Type 0} → (K → K → Bool) → K → List (K × ℕ) → Option ℕ
lookup same key [] = none
lookup same key ((k, n) ∷ m) = let rest = lookup same key m in if same key k then some n else rest

-- The number is above the last one.
abbrev pub is_above : Option ℕ → ℕ → Bool
is_above none n = true
is_above (some last) n = not (leb (biased64 n) (biased64 last))

-- Whether the trade number is new for the key, and the map behind the check.
unfoldable pub check_fresh :
    {K : Type 0} → (K → K → Bool) → List (K × ℕ) → K → ℕ → Bool × List (K × ℕ)
check_fresh same m key n =
    if is_above (lookup same key m) n then (true, (key, n) ∷ m) else (false, m)

-- A symbol is its board and its code.
pub record TradeDedup : Type 0 where
  pub last : List ((Bytes × Bytes) × ℕ)
  pub last_raw : List ((ℕ × ℕ) × ℕ)

abbrev pub same_bytes : Bytes → Bytes → Bool
same_bytes [] [] = true
same_bytes (a ∷ xs) (b ∷ ys) = let rest = same_bytes xs ys in a == b && rest
same_bytes x y = false

abbrev pub same_symbol : Bytes × Bytes → Bytes × Bytes → Bool
same_symbol (a, b) (c, d) = same_bytes a c && same_bytes b d

abbrev pub same_raw : ℕ × ℕ → ℕ × ℕ → Bool
same_raw (a, b) (c, d) = a == c && b == d

unfoldable pub fresh_symbol : TradeDedup → AllTrade → Bytes × Bytes → Bool × TradeDedup
unfolding check_fresh
fresh_symbol d t sym =
    let (new, last) = check_fresh same_symbol d.last sym t.trade_no in
    (new, record d { last = last })

unfoldable pub fresh : TradeDedup → AllTrade → Bool × TradeDedup
unfolding check_fresh
fresh d t =
    let (new, last_raw) = check_fresh same_raw d.last_raw (t.sec_id, t.board) t.trade_no in
    (new, record d { last_raw = last_raw })
