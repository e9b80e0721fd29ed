-- ===== src/Records/Catalog/Runs.antt =====
-- A catalog of two boards and a security on both, and the theorems at it.
use txmlconnector.Common.{
  ℕ, ◌≡◌, ◌≢◌, refl, arith, false, some, List, [], ◌∷◌, Bytes, ok, find, ◌<◌, ◌++◌, ◌==◌, take,
  IsDistinct, if◌then◌else◌,
}
use txmlconnector.Records.Trades.{same_bytes, same_symbol}
use txmlconnector.Wire.Reader.{
  byte, uint16, raw, string, little_endian, extra_bytes, packed_word, packed, int32,
}
use txmlconnector.Records.Parser.{◌>>=◌, ◌>>◌, pure, read_until, read_all}
use txmlconnector.Records.Dictionary.{Board, Startup, item_after, read_section, str}
use txmlconnector.Records.Securities.{
  Pit, Tail, SecNew, no_zone, if_more, rest_of, read_pit, read_tail12, read_zone, read_names,
  read_texts, read_tail, read_derivative, read_sec_new, parse_sec_new,
}
use txmlconnector.Records.Catalog.{
  Catalog, same_id, add_boards, new_catalog, add_symbols, add_security, securities, drain_pending,
  lookup, security, decimals, pit_for, apply, apply_mutations, new_flags, set_flags,
}
use txmlconnector.Records.Catalog.Calls.{Call, add, mutate, drain, call, calls}
use txmlconnector.Records.Catalog.Draining.{ids, calls_drained}
use txmlconnector.Records.Catalog.Resolving.{lookup-add_security}
use txmlconnector.Records.Catalog.Flags.{apply_mutations-flags}
use txmlconnector.Wire.Writer.{before_nul}
use txmlconnector.Records.Securities.Pits.{FitsPit}
use txmlconnector.Records.Securities.Layout.{
  sec_new_bytes, decoded, FitsSecNew, parse_sec_new-sec_new_bytes,
}

abbrev same_text : Bytes → Bytes
same_text s = s

abbrev board_of : ℕ → Bytes → Board
board_of num code = record {
  num = num;
  market = 1;
  code = code;
  name = [];
  word = 0;
  byte1 = 0;
  text = [];
  byte2 = 0;
  type = 1;
}

abbrev two_boards : Startup
two_boards = record {
  markets = [];
  markets_tail = 0;
  board_types = [];
  boards = board_of 1 (0x54 ∷ []) ∷ board_of 2 (0x46 ∷ []) ∷ [];
  sec_types = [];
  candle_kinds = [];
  columns = [];
}

abbrev pit_of : ℕ → ℕ → Pit
pit_of num decimals = record {
  board = num;
  lot_size = 10;
  lot_divider = 1;
  min_step = 1;
  decimals = decimals;
  byte1 = 0;
  point_cost = 0;
  text = [];
  is_default = false;
  int1 = 0;
  currency = [];
}

abbrev no_tail : Tail
no_tail = record {
  tail1 = 0;
  tail2 = 0;
  tail3 = 0;
  time_zone = no_zone;
  has_time_zone = false;
  mic = [];
  ticker = [];
  tail4 = 0;
  tail5 = 0;
  text1 = [];
  text2 = [];
  tail6 = 0;
  extra = [];
}

abbrev share_of : ℕ → Bytes → SecNew
share_of id code = record {
  sec_id = id;
  market = 1;
  kind = 1;
  class = 0;
  sec_code = code;
  short_name = [];
  isin = [];
  byte1 = 0;
  int1 = 0;
  flags = 0;
  int2 = 0;
  deriv_flags = 0;
  underlying = [];
  props = 0;
  pits = pit_of 1 2 ∷ pit_of 2 4 ∷ [];
  currency = [];
  tail = no_tail;
}

abbrev some_calls : List Call
some_calls =
    add (share_of 7 (0x41 ∷ []))
    ∷ drain
    ∷ mutate 0x0e (0 ∷ 7 ∷ 1 ∷ [])
    ∷ add (share_of 9 (0x42 ∷ []))
    ∷ add (share_of 7 (0x43 ∷ []))
    ∷ drain
    ∷ []

-- Both are drained once, and the second code of the first is found.
some_calls_drained : ids (calls same_text (new_catalog two_boards) some_calls).0 ≡ 7 ∷ 9 ∷ []
unfolding add_boards new_catalog add_symbols add_security securities drain_pending call calls apply
    apply_mutations new_flags set_flags
some_calls_drained = refl

some_decimals : decimals (calls same_text (new_catalog two_boards) some_calls).1 7 2 ≡ some 4
unfolding add_boards new_catalog add_symbols add_security securities drain_pending call calls apply
    apply_mutations new_flags set_flags decimals pit_for
some_decimals = refl

-- The body of a security with one pit, and what it is parsed to.
abbrev share_body : Bytes
share_body =
    0 ∷ 7 ∷ 1 ∷ 1 ∷ 0 ∷ 0x41 ∷ 0 ∷ 0 ∷ 0 ∷ 0 ∷ 0 ∷ 0 ∷ 0 ∷ 0 ∷ 0 ∷ 1 ∷ 0xa0 ∷ 0x10 ∷ 0x10 ∷ 2 ∷ 0
    ∷ 0 ∷ 0 ∷ 0 ∷ 0 ∷ 0 ∷ 0 ∷ 0 ∷ 0 ∷ 0 ∷ 0 ∷ 0 ∷ 0 ∷ 0xff ∷ 0xff ∷ 0 ∷ []

abbrev parsed_share : SecNew
parsed_share = record (share_of 7 (0x41 ∷ [])) { pits = pit_of 1 2 ∷ [] }

share_parsed : parse_sec_new same_text share_body ≡ ok parsed_share
unfolding byte uint16 raw string little_endian extra_bytes packed_word packed int32 ◌>>=◌ ◌>>◌ pure
    read_until read_all item_after read_section str if_more rest_of read_pit read_tail12 read_zone
    read_names read_texts read_tail read_derivative read_sec_new parse_sec_new
share_parsed = refl

-- An option with two pits and an end of two groups.
abbrev some_option : SecNew
some_option = record (share_of 7 (0x41 ∷ [])) {
  kind = 5;
  deriv_flags = 4;
  underlying = 0x42 ∷ [];
  tail = record no_tail { tail1 = 3; tail3 = 300 };
}

some_pit-FitsPit : (board decimals : ℕ) → board < 0xffff → FitsPit (pit_of board decimals)
unfolding before_nul
some_pit-FitsPit board decimals h = record {
  board = h;
  lot_size = omega arith;
  lot_divider = omega arith;
  min_step = omega arith;
  point_cost = omega arith;
  text = refl;
  int1 = omega arith;
  currency = refl;
}

some_option-FitsSecNew : FitsSecNew some_option
unfolding before_nul
some_option-FitsSecNew = record {
  sec_id = omega arith;
  sec_code = refl;
  short_name = refl;
  isin = refl;
  int1 = omega arith;
  int2 = omega arith;
  underlying = refl;
  pits = (some_pit-FitsPit 1 2 (omega arith), (some_pit-FitsPit 2 4 (omega arith), tt));
  currency = refl;
  tail = record {
    tail3 = omega arith;
    time_zone = refl;
    mic = refl;
    ticker = refl;
    tail4 = omega arith;
    tail5 = omega arith;
    text1 = refl;
    text2 = refl;
  };
}

parse_sec_new-sec_new_bytes_example :
    parse_sec_new same_text (sec_new_bytes 2 some_option) ≡ ok (decoded same_text 2 some_option)
parse_sec_new-sec_new_bytes_example =
    parse_sec_new-sec_new_bytes same_text 2 some_option (omega arith) some_option-FitsSecNew

calls_drained_example :
    let (out, c) = calls same_text (new_catalog two_boards) some_calls in
    (ids out ≡ take c.delivered c.order)
    × (ids out ++ ids (drain_pending c).0 ≡ c.order)
    × IsDistinct same_id c.order
calls_drained_example = calls_drained same_text two_boards some_calls

abbrev with_share : Catalog
with_share = add_security (new_catalog two_boards) (share_of 7 (0x41 ∷ []))

abbrev another : SecNew
another = share_of 7 (0x43 ∷ [])

lookup-add_security_example :
    ((p : Pit) (b : Board) (before after : List Pit)
      → pit_of 1 2 ∷ pit_of 2 4 ∷ [] ≡ before ++ p ∷ after
      → find same_id p.board with_share.boards ≡ some b
      → lookup (add_security with_share another) b.code (0x43 ∷ [])
        ≡ some (some another, find same_bytes b.code with_share.codes))
    × ((id : ℕ)
        → security (add_security with_share another) id
          ≡ (if id == 7 then some another else security with_share id))
    × ((board code : Bytes)
        → find same_symbol (board, code) with_share.symbols ≡ some 7
        → code ≢ 0x43 ∷ []
        → lookup (add_security with_share another) board code
          ≡ some (some another, find same_bytes board with_share.codes))
lookup-add_security_example = lookup-add_security with_share another

-- Both the old and the new symbol of the security are found.
old_symbol_found :
    lookup (add_security with_share another) (0x46 ∷ []) (0x41 ∷ [])
    ≡ some (some another, some (board_of 2 (0x46 ∷ [])))
unfolding new_catalog add_boards add_security add_symbols lookup
old_symbol_found = refl

apply_mutations-flags_example :
    (1 < 4
      → (i : ℕ)
      → security (apply_mutations same_text with_share 0x0d (0 ∷ 7 ∷ 1 ∷ [])).1 i ≡ (
          if i == 7
          then some (record (share_of 7 (0x41 ∷ [])) { flags = 1 })
          else security with_share i))
    × ((i : ℕ)
        → security (apply_mutations same_text with_share 0x0e (0 ∷ 7 ∷ 1 ∷ [])).1 i ≡ (
            if i == 7
            then some (record (share_of 7 (0x41 ∷ [])) { flags = 4 })
            else security with_share i))
unfolding new_catalog add_boards add_security add_symbols security
apply_mutations-flags_example =
    apply_mutations-flags same_text with_share (share_of 7 (0x41 ∷ [])) 0 7 1 refl (omega arith)
