-- ===== src/Records/Options.antt =====
-- native/records/options.go: the unsized records of option families and strikes.
use txmlconnector.Common.{ℕ, Option, none, some, List, [], ◌∷◌, Bytes, Result}
use txmlconnector.Wire.Words.{sign_extend}
use txmlconnector.Wire.Reader.{byte, uint16, int32}
use txmlconnector.Records.Parser.{Parser, ◌>>=◌, pure, read_all, read_cstring, finished}

pub record FamilyRecord : Type 0 where
  pub sec_id : ℕ
  pub opt_code : Bytes
  pub first : ℕ
  pub second : ℕ

pub record EndOfFamilyRecord : Type 0 where
  pub sec_id : ℕ
  pub opt_code : Bytes
  pub code : ℕ
  pub text : Bytes

pub record EndOfFamiliesRecord : Type 0 where
  pub sec_id : ℕ
  pub text : Bytes

pub record StrikeItem : Type 0 where
  pub opt_code : Bytes
  pub cp : ℕ
  pub price : ℕ

pub record StrikesRecord : Type 0 where
  pub sec_id : ℕ
  pub family_id : ℕ
  pub items : List StrikeItem
  pub final : ℕ

unfoldable pub read_end_of_families : Parser EndOfFamiliesRecord
read_end_of_families = do
  sec_id ← uint16
  text ← read_cstring 0x200
  pure (record { sec_id = sec_id; text = text })

unfoldable pub read_family : Parser FamilyRecord
read_family = do
  sec_id ← uint16
  code ← read_cstring 6
  first ← int32
  second ← int32
  pure (record {
    sec_id = sec_id;
    opt_code = code;
    first = sign_extend first;
    second = sign_extend second;
  })

unfoldable pub read_end_of_family : Parser EndOfFamilyRecord
read_end_of_family = do
  sec_id ← uint16
  code ← read_cstring 6
  value ← int32
  text ← read_cstring 512
  pure (record { sec_id = sec_id; opt_code = code; code = sign_extend value; text = text })

-- One strike, or the empty code that ends them.
unfoldable pub strike_item : Bytes → Parser (Option StrikeItem)
strike_item [] = pure none
strike_item (c ∷ code) = do
  cp ← byte
  price ← int32
  pure (some (record { opt_code = c ∷ code; cp = cp; price = sign_extend price }))

unfoldable pub read_strike : Parser (Option StrikeItem)
read_strike = do code ← read_cstring 26; strike_item code

unfoldable pub read_strikes : Parser StrikesRecord
read_strikes = do
  sec_id ← uint16
  family ← int32
  items ← read_all read_strike
  final ← byte
  pure (record { sec_id = sec_id; family_id = sign_extend family; items = items; final = final })

unfoldable pub parse_family : Bytes → Result FamilyRecord
parse_family body = finished (read_family body)

unfoldable pub parse_end_of_family : Bytes → Result EndOfFamilyRecord
parse_end_of_family body = finished (read_end_of_family body)

unfoldable pub parse_end_of_families : Bytes → Result EndOfFamiliesRecord
parse_end_of_families body = finished (read_end_of_families body)

unfoldable pub parse_strikes : Bytes → Result StrikesRecord
parse_strikes body = finished (read_strikes body)
