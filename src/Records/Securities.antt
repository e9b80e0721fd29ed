-- ===== src/Records/Securities.antt =====
-- native/records/security.go: the R_SEC_NEW record. A float is kept as its 64 bits.
pub mod Prints
pub mod Pits
pub mod Ends
pub mod Layout
use txmlconnector.Common.{ℕ, Bool, true, false, not, ◌||◌, Option, none, some}
use txmlconnector.Common.{List, [], ◌∷◌, Bytes, length, Result, ◌==◌, if◌then◌else◌}
use txmlconnector.Wire.Reader.{byte, uint16, int32, raw, little_endian}
use txmlconnector.Records.Parser.{Parser, ◌>>=◌, pure, has_bit, optional, value_of}
use txmlconnector.Records.Dictionary.{read_section, str}

pub record Pit : Type 0 where
  pub board : ℕ
  pub lot_size : ℕ
  pub lot_divider : ℕ
  pub min_step : ℕ
  pub decimals : ℕ
  pub byte1 : ℕ
  pub point_cost : ℕ
  pub text : Bytes
  pub is_default : Bool
  pub int1 : ℕ
  pub currency : Bytes

-- The optional end of the record: what is missing is zero or empty, the time zone 16 bytes of zero.
pub record Tail : Type 0 where
  pub tail1 : ℕ
  pub tail2 : ℕ
  pub tail3 : ℕ
  pub time_zone : Bytes
  pub has_time_zone : Bool
  pub mic : Bytes
  pub ticker : Bytes
  pub tail4 : ℕ
  pub tail5 : ℕ
  pub text1 : Bytes
  pub text2 : Bytes
  pub tail6 : ℕ
  pub extra : Bytes

pub record SecNew : Type 0 where
  pub sec_id : ℕ
  pub market : ℕ
  pub kind : ℕ
  pub class : ℕ
  pub sec_code : Bytes
  pub short_name : Bytes
  pub isin : Bytes
  pub byte1 : ℕ
  pub int1 : ℕ
  pub flags : ℕ
  pub int2 : ℕ
  pub deriv_flags : ℕ
  pub underlying : Bytes
  pub props : ℕ
  pub pits : List Pit
  pub currency : Bytes
  pub tail : Tail

abbrev pub no_zone : Bytes
no_zone = 0 ∷ 0 ∷ 0 ∷ 0 ∷ 0 ∷ 0 ∷ 0 ∷ 0 ∷ 0 ∷ 0 ∷ 0 ∷ 0 ∷ 0 ∷ 0 ∷ 0 ∷ 0 ∷ []

-- `if r.err == nil && r.Len() > 0 { … }`.
unfoldable pub if_more : {A : Type 0} → Parser A → A → Parser A
if_more read absent [] = pure absent []
if_more read absent (b ∷ r) = read (b ∷ r)

-- `r.raw(r.Len())`.
unfoldable pub rest_of : Parser Bytes
rest_of r = raw (length r) r

module _ (cp1251 : Bytes → Bytes) where
  unfoldable pub read_pit : ℕ → Parser Pit
  read_pit board = do
    lot_size ← int32
    lot_divider ← int32
    min_step ← int32
    decimals ← byte
    byte1 ← byte
    point_cost ← raw 8
    text ← str cp1251 0xc
    default ← byte
    int1 ← int32
    currency ← str cp1251 4
    pure (record {
      board = board;
      lot_size = lot_size;
      lot_divider = lot_divider;
      min_step = min_step;
      decimals = decimals;
      byte1 = byte1;
      point_cost = little_endian point_cost;
      text = text;
      is_default = not (default == 0);
      int1 = int1;
      currency = currency;
    })

  unfoldable pub read_tail12 : Parser (ℕ × ℕ)
  read_tail12 = do a ← byte; b ← byte; pure (a, b)

  unfoldable pub read_zone : Parser (ℕ × Bytes × Bool)
  read_zone = do a ← int32; zone ← raw 16; pure (a, zone, true)

  unfoldable pub read_names : Parser (Bytes × Bytes)
  read_names = do mic ← str cp1251 5; ticker ← str cp1251 0x19; pure (mic, ticker)

  unfoldable pub read_texts : Parser (ℕ × ℕ × Bytes × Bytes)
  read_texts = do
    a ← int32
    b ← int32
    text1 ← str cp1251 0x19
    text2 ← str cp1251 6
    pure (a, b, text1, text2)

  unfoldable pub read_tail : Parser Tail
  read_tail = do
    (tail1, tail2) ← if_more read_tail12 (0, 0)
    (tail3, time_zone, has_time_zone) ← if_more read_zone (0, no_zone, false)
    (mic, ticker) ← if_more read_names ([], [])
    (tail4, tail5, text1, text2) ← if_more read_texts (0, 0, [], [])
    tail6 ← if_more byte 0
    extra ← if_more rest_of []
    pure (record {
      tail1 = tail1;
      tail2 = tail2;
      tail3 = tail3;
      time_zone = time_zone;
      has_time_zone = has_time_zone;
      mic = mic;
      ticker = ticker;
      tail4 = tail4;
      tail5 = tail5;
      text1 = text1;
      text2 = text2;
      tail6 = tail6;
      extra = extra;
    })

  -- The fields of futures and options.
  unfoldable pub read_derivative : ℕ → Parser (ℕ × Bytes)
  read_derivative kind =
      optional (kind == 4 || kind == 5)
        (byte >>= λ flags.
          optional (has_bit flags 2 || has_bit flags 3) (str cp1251 0x19) [] >>= λ underlying.
          pure (flags, underlying))
        (0, [])

  unfoldable pub read_sec_new : Parser SecNew
  read_sec_new = do
    sec_id ← uint16
    market ← byte
    kind ← byte
    class ← byte
    sec_code ← str cp1251 0x19
    short_name ← str cp1251 0x1e
    isin ← str cp1251 0xc
    byte1 ← byte
    int1 ← int32
    flags ← byte
    int2 ← int32
    (deriv_flags, underlying) ← read_derivative kind
    props ← byte
    pits ← read_section uint16 0xffff read_pit
    currency ← str cp1251 4
    tail ← read_tail
    pure (record {
      sec_id = sec_id;
      market = market;
      kind = kind;
      class = class;
      sec_code = sec_code;
      short_name = short_name;
      isin = isin;
      byte1 = byte1;
      int1 = int1;
      flags = flags;
      int2 = int2;
      deriv_flags = deriv_flags;
      underlying = underlying;
      props = props;
      pits = pits;
      currency = currency;
      tail = tail;
    })

  -- `ParseSecNew`.
  unfoldable pub parse_sec_new : Bytes → Result SecNew
  parse_sec_new body = value_of (read_sec_new body)

unfoldable pub flagged_pit : List Pit → Option Pit
flagged_pit [] = none
flagged_pit (p ∷ ps) = let rest = flagged_pit ps in if p.is_default then some p else rest

abbrev pub first_pit : List Pit → Option Pit
first_pit [] = none
first_pit (p ∷ ps) = some p

-- `DefaultPit`: the pit that is flagged, or the first one.
unfoldable pub default_pit : SecNew → Option Pit
unfolding flagged_pit
default_pit s = elim (flagged_pit s.pits) [ some p ↦ some p | none ↦ first_pit s.pits ]
