-- ===== src/Records/Bodies.antt =====
-- native/records/records.go and news.go: where the body of a record ends. Only some tags carry a size,
-- so the others are read field by field.
use txmlconnector.Common.{
  ℕ, zero, suc, ◌+◌, ◌-◌, ◌/◌, ◌%◌, Bool, true, false, not, ◌&&◌, ◌||◌, Option, none, some,
}
use txmlconnector.Common.{List, [], ◌∷◌, Bytes, length, take, drop, ltb, leb, ◌==◌, if◌then◌else◌}
use txmlconnector.Common.{
  Error, Result, ok, err, bad_value, trailing_bytes, stuck, unknown_record, unknown_layout,
}
use txmlconnector.Wire.Words.{is_negative32}
use txmlconnector.Wire.Reader.{byte, uint16, raw, skip, string, int32, int64}
use txmlconnector.Records.Parser.{
  Parser, ◌>>=◌, ◌>>◌, pure, fail, read_all, read_cstring, has_bit, optional,
}
use txmlconnector.Records.Messages.{read_news_header_fields}

-- `sizedTags`, the wrapper aside.
abbrev pub is_sized : ℕ → Bool
is_sized t =
    t == 0x02
    || t == 0x03
    || t == 0x04
    || t == 0x08
    || t == 0x10
    || t == 0x28
    || t == 0x3a
    || t == 0x3b
    || t == 0x54
    || t == 0x5e
    || t == 0x66

-- `attrTags`.
abbrev pub is_attr : ℕ → Bool
is_attr t = t == 0x0b || t == 0x0c || t == 0x0d || t == 0x0e

-- A body behind its 16-bit size, and one behind its 8-bit size.
unfoldable pub sized_body : Parser Bytes
sized_body = uint16 >>= λ n. raw n

unfoldable pub read_ica : Parser Bytes
read_ica = byte >>= λ n. raw n

-- `p[start : len(p)-r.Len()]`, where `p[start:]` is what `skipped` is given.
unfoldable pub cut : {A : Type 0} → Parser A → Parser Bytes
cut skipped r = elim (skipped r) [
  | ok (a, r') ↦ ok (take (length r - length r') r, r')
  | err e ↦ err e
]

-- `r.Skip(n)`.
unfoldable pub skip_bytes : ℕ → Parser (Unit {0})
skip_bytes n r = elim (skip n r) [ ok r' ↦ ok (tt, r') | err e ↦ err e ]

-- R_RES: the types 1 and 2 end behind the transaction id. The offset is that behind the tag.
unfoldable pub skip_server_message : ℕ → Parser (Unit {0})
skip_server_message offset = do
  type ← byte
  status ← byte
  read_cstring 512
  int64
  if not (type == 1) && not (type == 2) || status == 4
      then fail (unknown_record 0x0f offset)
      else pure tt

-- `n` packed values.
unfoldable pub skip_int32s : ℕ → Parser (Unit {0})
skip_int32s zero = pure tt
skip_int32s (suc n) = let rest = skip_int32s n in int32 >> rest

-- The candles of R_HISTORY until only the status is left. A round takes seven bytes at least.
unfoldable pub skip_candles : ℕ → ℕ → Parser (Unit {0})
skip_candles zero flag r = err stuck
skip_candles (suc fuel) flag [] = ok (tt, [])
skip_candles (suc fuel) flag (b ∷ r) = elim (leb (length (b ∷ r)) 5) [
  | true ↦ (int32 >> pure tt) (b ∷ r)
  | false ↦
      (skip_int32s 7 >> (optional (not (flag == 0)) (skip_int32s 1) tt >> skip_candles fuel flag))
        (b ∷ r)
]

unfoldable pub skip_history : Parser (Unit {0})
skip_history = do uint16; uint16; byte; flag ← byte; λ r. skip_candles (suc (length r)) flag r

-- R_HISTORY has to be the last record: its end cannot be told from what follows.
unfoldable pub history_body : Parser Bytes
history_body r = elim (cut skip_history r) [
  | ok (body, []) ↦ ok (body, [])
  | ok (body, b ∷ r') ↦ err trailing_bytes
  | err e ↦ err e
]

-- R_FORTS_SESSION: a byte more where the record is bounded and bytes are left.
unfoldable pub more_byte : Bool → Parser (Unit {0})
more_byte bounded [] = ok (tt, [])
more_byte bounded (b ∷ r) = if bounded then ok (tt, r) else ok (tt, b ∷ r)

unfoldable pub skip_forts_session : Bool → Parser (Unit {0})
skip_forts_session bounded = int32 >> more_byte bounded

-- `bits.OnesCount64`.
unfoldable pub ones_count : ℕ → ℕ → ℕ
ones_count zero m = 0
ones_count (suc n) m = m % 2 + ones_count n (m / 2)

unfoldable pub skip_quotation : Parser (Unit {0})
skip_quotation = do uint16; uint16; mask ← int64; skip_int32s (ones_count 64 mask)

-- ReadURTUpdate: the bytes up to 0xff.
unfoldable pub skip_urt : ℕ → Parser (Unit {0})
skip_urt offset [] = err (unknown_record 0x69 offset)
skip_urt offset (b ∷ r) = let rest = skip_urt offset r in if b == 0xff then ok (tt, r) else rest

-- A block of `size` bytes, refused with `e` where fewer are left.
unfoldable pub block : Error → ℕ → Parser (Unit {0})
block e size r = if is_negative32 size || ltb (length r) size then err e else ok (tt, drop size r)

unfoldable pub skip_sys_params : Parser (Unit {0})
skip_sys_params = int32 >>= λ size. block bad_value size

-- R_QUOTES: the levels up to the side 0xff.
unfoldable pub skip_quote_level : Parser (Option (Unit {0}))
skip_quote_level = do
  side ← byte
  if side == 0xff then pure none else (int32 >> (int32 >> pure (some tt)))

unfoldable pub skip_quotes : Parser (List (Unit {0}))
skip_quotes = uint16 >> (uint16 >> read_all skip_quote_level)

-- `newsBodyPackageLen`: `inflate` says how many bytes of its input a zlib stream takes.
unfoldable pub news_body_package_len : (Bytes → Option ℕ) → Bytes → Result ℕ
news_body_package_len inflate rest =
    if ltb (length rest) 8
    then err unknown_layout
    else elim (inflate (drop 4 rest)) [ some n ↦ ok (4 + n) | none ↦ err unknown_layout ]

unfoldable pub skip_package : (Bytes → Option ℕ) → Parser (Unit {0})
skip_package inflate r = elim (news_body_package_len inflate r) [
  | ok n ↦ skip_bytes n r
  | err e ↦ err e
]

-- The body of an upload: behind a header its length is sent, and without one a zlib stream shows it.
unfoldable pub skip_news_body : (Bytes → Option ℕ) → ℕ → Parser (Unit {0})
skip_news_body inflate flags =
    if has_bit flags 0
    then (int32 >>= λ size. block (unknown_record 0x36 0) size)
    else (int32 >> (block (unknown_record 0x36 0) 4 >> skip_package inflate))

unfoldable pub skip_news_upload : (Bytes → Option ℕ) → Parser (Unit {0})
skip_news_upload inflate = do
  flags ← byte
  optional (has_bit flags 0) (read_news_header_fields >> pure tt) tt
  optional (has_bit flags 1) (skip_news_body inflate flags) tt

unfoldable pub skip_sec_rate : Parser (Unit {0})
skip_sec_rate = uint16 >> (int64 >> pure tt)

unfoldable pub skip_union : Parser (Unit {0})
skip_union = int64 >> (string 20 >> (string 32 >> (byte >> pure tt)))

unfoldable pub skip_edp_rate : Parser (Unit {0})
skip_edp_rate = string 4 >> (string 25 >> (byte >> (int32 >> pure tt)))

-- AmBOOK: the fields that the flags select, until the flags are 0xff.
unfoldable pub skip_am_book_fields : ℕ → Parser (Option (Unit {0}))
skip_am_book_fields flags = do
  optional (has_bit flags 0) byte 0
  optional (has_bit flags 1) int32 0
  optional (has_bit flags 2) int32 0
  optional (has_bit flags 3) (string 4) []
  optional (has_bit flags 4) int32 0
  pure (some tt)

unfoldable pub skip_am_book_level : Parser (Option (Unit {0}))
skip_am_book_level = do
  flags ← byte
  if flags == 0xff
      then pure none
      else if not (flags / 32 == 0)
      then fail bad_value
      else skip_am_book_fields flags

unfoldable pub skip_am_book : Parser (List (Unit {0}))
skip_am_book = uint16 >> read_all skip_am_book_level
