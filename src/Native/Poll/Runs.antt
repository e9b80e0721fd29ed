-- ===== src/Native/Poll/Runs.antt =====
-- A payload of two messages around a date, and the theorem at it.
use txmlconnector.Common.{
  ℕ, ◌≡◌, refl, Option, none, some, List, [], ◌∷◌, ◌++◌, Bytes, Result, ok, ◌==◌, if◌then◌else◌,
}
use txmlconnector.Wire.Reader.{
  byte, uint16, raw, little_endian, extra_bytes, packed_word, packed, int32,
}
use txmlconnector.Records.Parser.{◌>>=◌, ◌>>◌, pure}
use txmlconnector.Records.Bodies.{cut}
use txmlconnector.Records.Split.{
  option_body, state_body, market_body, body_of, put, joined, settle, unwrapped, records_from,
  records,
}
use txmlconnector.Records.Split.Parses.{trade_date}
use txmlconnector.Records.Catalog.{empty_catalog, apply, apply_mutations}
use txmlconnector.Records.Dictionary.{Startup}
use txmlconnector.Native.Poll.{
  PollEvent, other, message, messages, Poller, split_messages, place, batch, tail_event,
  decode_record, decode_records, counted_fault, finish_poll, decode_reply,
}
use txmlconnector.Native.Poll.Batch.{gathered, decode_reply-gathered}

abbrev same_text : Bytes → Bytes
same_text s = s

abbrev no_zlib : Bytes → Option ℕ
no_zlib _ = none

abbrev Client : Type 0
Client = Poller (Unit {0})

abbrev give : PollEvent ℕ ℕ → Client → Bytes → Result (List (PollEvent ℕ ℕ)) × Client
give e c body = (ok (e ∷ []), c)

-- A state record stands for a message, and a date for another event.
abbrev two_decoders : ℕ → Option (Client → Bytes → Result (List (PollEvent ℕ ℕ)) × Client)
two_decoders tag =
    if tag == 0x05
    then some (give (message 1))
    else if tag == 0x3d
    then some (give (other 2))
    else none

abbrev empty_startup : Startup
empty_startup = record {
  markets = [];
  markets_tail = 0;
  board_types = [];
  boards = [];
  sec_types = [];
  candle_kinds = [];
  columns = [];
}

abbrev fresh : Client
fresh = record {
  catalog = empty_catalog empty_startup;
  polls = 0;
  unknown_records = 0;
  last_unknown_tag = 0;
  rest = tt;
}

abbrev dated : Bytes
dated = 0x3d ∷ 0x10 ∷ 0x05 ∷ 0x3d ∷ 0x20 ∷ 0x05 ∷ []

dated_events :
    (decode_reply same_text no_zlib two_decoders dated fresh).0
    ≡ other 2 ∷ messages (1 ∷ 1 ∷ []) ∷ other 2 ∷ []
unfolding byte uint16 raw little_endian extra_bytes packed_word packed int32 ◌>>=◌ ◌>>◌ pure cut
    option_body state_body market_body body_of put joined settle unwrapped records_from records
    trade_date apply apply_mutations split_messages place batch tail_event decode_record
    decode_records counted_fault finish_poll decode_reply
dated_events = refl

dated_error : (decode_reply same_text no_zlib two_decoders dated fresh).1 ≡ none
unfolding byte uint16 raw little_endian extra_bytes packed_word packed int32 ◌>>=◌ ◌>>◌ pure cut
    option_body state_body market_body body_of put joined settle unwrapped records_from records
    trade_date apply apply_mutations split_messages place batch tail_event decode_record
    decode_records counted_fault finish_poll decode_reply
dated_error = refl

decode_reply-gathered_example :
    (es : List (PollEvent ℕ ℕ)) × (c' : Client) × (decode_records same_text no_zlib two_decoders
        (records no_zlib dated).out
        []
        c'
      ≡ (es, none, (decode_reply same_text no_zlib two_decoders dated fresh).2))
    × ((decode_reply same_text no_zlib two_decoders dated fresh).0
        ≡ gathered es ++ tail_event dated (records no_zlib dated).fault)
decode_reply-gathered_example =
    decode_reply-gathered same_text no_zlib two_decoders dated fresh dated_error
