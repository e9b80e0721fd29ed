-- ===== src/Records/Misc.antt =====
-- native/records/misc.go, client.go, margin.go and records.go: small unsized records.
use txmlconnector.Common.{
  ℕ, ◌/◌, not, Option, none, some, List, [], Bytes, Result, bad_value, ◌==◌, if◌then◌else◌,
}
use txmlconnector.Wire.Reader.{byte, uint16, int32, int64, string}
use txmlconnector.Records.Parser.{
  Parser, ◌>>=◌, ◌>>◌, pure, fail, read_all, read_cstring, finished, value_of, has_bit, optional,
}

pub record EdpRate : Type 0 where
  pub pair : Bytes
  pub name : Bytes
  pub byte_field : ℕ
  pub rate : ℕ

unfoldable pub read_edp_rate : Parser EdpRate
read_edp_rate = do
  pair ← string 4
  name ← string 25
  b ← byte
  rate ← int32
  pure (record { pair = pair; name = name; byte_field = b; rate = rate })

unfoldable pub parse_edp_rate : Bytes → Result EdpRate
parse_edp_rate body = value_of (read_edp_rate body)

pub record AmBookLevel : Type 0 where
  pub flags : ℕ
  pub byte_field : ℕ
  pub int1 : ℕ
  pub int2 : ℕ
  pub text : Bytes
  pub int3 : ℕ

pub record AmBook : Type 0 where
  pub sec_id : ℕ
  pub levels : List AmBookLevel

-- The fields that the flags select.
unfoldable pub am_book_fields : ℕ → Parser (Option AmBookLevel)
am_book_fields flags = do
  b ← optional (has_bit flags 0) byte 0
  int1 ← optional (has_bit flags 1) int32 0
  int2 ← optional (has_bit flags 2) int32 0
  text ← optional (has_bit flags 3) (string 4) []
  int3 ← optional (has_bit flags 4) int32 0
  pure (
      some (record {
        flags = flags;
        byte_field = b;
        int1 = int1;
        int2 = int2;
        text = text;
        int3 = int3;
      }))

unfoldable pub am_book_level : Parser (Option AmBookLevel)
am_book_level = do
  flags ← byte
  if flags == 0xff
      then pure none
      else if not (flags / 32 == 0)
      then fail bad_value
      else am_book_fields flags

unfoldable pub read_am_book : Parser AmBook
read_am_book = do
  sec_id ← uint16
  levels ← read_all am_book_level
  pure (record { sec_id = sec_id; levels = levels })

unfoldable pub parse_am_book : Bytes → Result AmBook
parse_am_book body = value_of (read_am_book body)

unfoldable pub parse_forts_session : Bytes → Result ℕ
parse_forts_session body = value_of (int32 body)

-- The name and the category of a union.
unfoldable pub read_union : Parser (Bytes × ℕ)
read_union = do
  id ← int64
  name ← string 20
  category ← string 32
  unicat ← byte
  pure (name, unicat)

unfoldable pub parse_union_category : Bytes → Result (Bytes × ℕ)
parse_union_category body = value_of (read_union body)

pub record SecRate : Type 0 where
  pub sec_id : ℕ
  pub value : ℕ

unfoldable pub read_sec_rate : Parser SecRate
read_sec_rate = do sec_id ← uint16; value ← int64; pure (record { sec_id = sec_id; value = value })

unfoldable pub parse_sec_rate : Bytes → Result SecRate
parse_sec_rate body = finished (read_sec_rate body)

unfoldable pub skip_board : Parser (Unit {0})
skip_board = do
  uint16
  byte
  read_cstring 7
  read_cstring 0x1e
  uint16
  byte
  read_cstring 8
  byte
  byte
  pure tt
