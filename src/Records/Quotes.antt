-- ===== src/Records/Quotes.antt =====
-- native/records/quote.go and quotation.go: the order book feed and the quotations.
use txmlconnector.Common.{
  ℕ, zero, suc, ◌+◌, ◌/◌, ◌%◌, Bool, not, ◌&&◌, ◌||◌, Option, none, some, List, [], ◌∷◌,
}
use txmlconnector.Common.{Bytes, Result, bad_value, ◌==◌, if◌then◌else◌}
use txmlconnector.Wire.Words.{sign_extend, add64, is_negative}
use txmlconnector.Wire.Reader.{byte, uint16, int32, int64}
use txmlconnector.Records.Parser.{Parser, ◌>>=◌, pure, fail, read_all, value_of}

pub record QuoteLevel : Type 0 where
  pub side : ℕ
  pub price : ℕ
  pub qty : ℕ
  pub deleted : Bool

pub record Quotes : Type 0 where
  pub sec_id : ℕ
  pub board : ℕ
  pub levels : List QuoteLevel

-- What is sent for a level: the price is a delta.
pub record QuoteDelta : Type 0 where
  pub side : ℕ
  pub delta : ℕ
  pub qty : ℕ

unfoldable pub quote_fields : ℕ → Parser (Option QuoteDelta)
quote_fields side = do
  delta ← int32
  qty ← int32
  pure (some (record { side = side; delta = delta; qty = qty }))

unfoldable pub quote_item : Parser (Option QuoteDelta)
quote_item = do
  side ← byte
  if side == 0xff
      then pure none
      else if not (side == b'B') && not (side == b'S')
      then fail bad_value
      else quote_fields side

-- `price < 1` on int64.
abbrev pub below_one : ℕ → Bool
below_one price = is_negative price || price == 0

-- The running price. It does not change what the loop reads, so it is taken after it.
unfoldable pub quote_levels : ℕ → List QuoteDelta → List QuoteLevel
quote_levels price [] = []
quote_levels price (d ∷ ds) =
    let price' = add64 price (sign_extend d.delta) in
    record { side = d.side; price = price'; qty = sign_extend d.qty; deleted = below_one price' }
    ∷ quote_levels price' ds

unfoldable pub read_quotes : Parser Quotes
read_quotes = do
  sec_id ← uint16
  board ← uint16
  deltas ← read_all quote_item
  pure (record { sec_id = sec_id; board = board; levels = quote_levels 0 deltas })

unfoldable pub parse_quotes : Bytes → Result Quotes
parse_quotes body = value_of (read_quotes body)

-- The values of a quotation with the bits of the mask that they stand for.
pub record Quotation : Type 0 where
  pub sec_id : ℕ
  pub board : ℕ
  pub mask : ℕ
  pub values : List (ℕ × ℕ)

-- The loop over the bits from `bit` on: `mask` is what is left of the mask, shifted down.
unfoldable pub quotation_values : ℕ → ℕ → ℕ → Parser (List (ℕ × ℕ))
quotation_values zero bit mask = pure []
quotation_values (suc left) bit mask =
    let rest = quotation_values left (bit + 1) (mask / 2) in
    if mask % 2 == 1
    then (int32 >>= λ value. rest >>= λ values. pure ((bit, sign_extend value) ∷ values))
    else rest

unfoldable pub read_quotation : Parser Quotation
read_quotation = do
  sec_id ← uint16
  board ← uint16
  mask ← int64
  values ← quotation_values 64 0 mask
  pure (record { sec_id = sec_id; board = board; mask = mask; values = values })

unfoldable pub parse_quotation : Bytes → Result Quotation
parse_quotation body = value_of (read_quotation body)
