-- ===== src/Records/Dictionary.antt =====
-- native/model/dictionary.go and native/records/startup.go: the dictionaries of the RQ_STARTUP reply.
-- `cp1251` stands for the decoder of golang.org/x/text, which turns the bytes of the server into UTF-8.
use txmlconnector.Common.{ℕ, zero, suc, Option, none, some, List, [], ◌∷◌, Bytes}
use txmlconnector.Common.{Result, ◌==◌, if◌then◌else◌}
use txmlconnector.Wire.Reader.{byte, uint16, int32, string}
use txmlconnector.Records.Parser.{Parser, ◌>>=◌, pure, read_all, finished}

pub record Market : Type 0 where
  pub id : ℕ
  pub code : Bytes
  pub name : Bytes
  pub raw : Bytes

pub record BoardType : Type 0 where
  pub id : ℕ
  pub name : Bytes
  pub text : Bytes
  pub raw : ℕ

pub record Board : Type 0 where
  pub num : ℕ
  pub market : ℕ
  pub code : Bytes
  pub name : Bytes
  pub word : ℕ
  pub byte1 : ℕ
  pub text : Bytes
  pub byte2 : ℕ
  pub type : ℕ

pub record SecType : Type 0 where
  pub id : ℕ
  pub short_name : Bytes
  pub name : Bytes
  pub raw : Bytes

pub record CandleKind : Type 0 where
  pub id : ℕ
  pub name : Bytes
  pub period : ℕ
  pub extra : ℕ

pub record SymbolColumn : Type 0 where
  pub id : ℕ
  pub group : ℕ
  pub title : Bytes
  pub code : Bytes

pub record Startup : Type 0 where
  pub markets : List Market
  pub markets_tail : ℕ
  pub board_types : List BoardType
  pub boards : List Board
  pub sec_types : List SecType
  pub candle_kinds : List CandleKind
  pub columns : List SymbolColumn

-- `for i := range m.Raw { m.Raw[i] = r.byte() }`.
unfoldable pub read_bytes : ℕ → Parser Bytes
read_bytes zero = pure []
read_bytes (suc n) = let rest = read_bytes n in byte >>= λ b. rest >>= λ bs. pure (b ∷ bs)

-- An item behind its id; the id `last` ends the section.
unfoldable pub item_after : {A : Type 0} → Parser ℕ → ℕ → (ℕ → Parser A) → Parser (Option A)
item_after read last item =
    read >>= λ id. if id == last then pure none else (item id >>= λ a. pure (some a))

-- `for id := read(); r.err == nil && id != last; id = read() { … }`.
unfoldable pub read_section : {A : Type 0} → Parser ℕ → ℕ → (ℕ → Parser A) → Parser (List A)
unfolding item_after
read_section read last item = read_all (item_after read last item)

module _ (cp1251 : Bytes → Bytes) where
  -- `r.str(max)`.
  unfoldable pub str : ℕ → Parser Bytes
  str max = string max >>= λ s. pure (cp1251 s)

  unfoldable pub read_market : ℕ → Parser Market
  read_market id = do
    code ← str 10
    name ← str 0x18
    raw ← read_bytes 4
    pure (record { id = id; code = code; name = name; raw = raw })

  unfoldable pub read_board_type : ℕ → Parser BoardType
  read_board_type id = do
    name ← str 0x20
    text ← str 8
    raw ← byte
    pure (record { id = id; name = name; text = text; raw = raw })

  unfoldable pub read_board : ℕ → Parser Board
  read_board num = do
    market ← byte
    code ← str 7
    name ← str 0x1e
    word ← uint16
    byte1 ← byte
    text ← str 8
    byte2 ← byte
    type ← byte
    pure (record {
      num = num;
      market = market;
      code = code;
      name = name;
      word = word;
      byte1 = byte1;
      text = text;
      byte2 = byte2;
      type = type;
    })

  unfoldable pub read_sec_type : ℕ → Parser SecType
  read_sec_type id = do
    short_name ← str 10
    name ← str 0x18
    raw ← read_bytes 3
    pure (record { id = id; short_name = short_name; name = name; raw = raw })

  unfoldable pub read_candle_kind : ℕ → Parser CandleKind
  read_candle_kind id = do
    name ← str 12
    period ← int32
    extra ← int32
    pure (record { id = id; name = name; period = period; extra = extra })

  unfoldable pub read_column : ℕ → Parser SymbolColumn
  read_column id = do
    group ← byte
    title ← str 0x20
    code ← str 0x10
    pure (record { id = id; group = group; title = title; code = code })

  unfoldable pub read_startup : Parser Startup
  read_startup = do
    markets ← read_section byte 0xff read_market
    markets_tail ← uint16
    board_types ← read_section byte 0xff read_board_type
    boards ← read_section uint16 0xffff read_board
    sec_types ← read_section byte 0xff read_sec_type
    candle_kinds ← read_section byte 0xff read_candle_kind
    columns ← read_section byte 0xff read_column
    pure (record {
      markets = markets;
      markets_tail = markets_tail;
      board_types = board_types;
      boards = boards;
      sec_types = sec_types;
      candle_kinds = candle_kinds;
      columns = columns;
    })

  -- `ParseStartup`: bytes behind the last section are an error.
  unfoldable pub parse_startup : Bytes → Result Startup
  parse_startup p = finished (read_startup p)

-- `BoardByNum`, `BoardCode` and `SecTypeByID`: the first record with the number.
unfoldable pub first_board : ℕ → List Board → Option Board
first_board num [] = none
first_board num (b ∷ bs) = let rest = first_board num bs in if b.num == num then some b else rest

unfoldable pub board_by_num : Startup → ℕ → Option Board
unfolding first_board
board_by_num s num = first_board num s.boards

unfoldable pub board_code : Startup → ℕ → Bytes
unfolding board_by_num
board_code s num = elim (board_by_num s num) [ some b ↦ b.code | none ↦ [] ]

unfoldable pub first_sec_type : ℕ → List SecType → Option SecType
first_sec_type id [] = none
first_sec_type id (t ∷ ts) = let rest = first_sec_type id ts in if t.id == id then some t else rest

unfoldable pub sec_type_by_id : Startup → ℕ → Option SecType
unfolding first_sec_type
sec_type_by_id s id = first_sec_type id s.sec_types
