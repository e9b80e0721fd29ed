-- ===== src/Records/Runs.antt =====
-- Payloads of several records, and the records' theorems at them.
use txmlconnector.Records.Trades.{lookup, check_fresh, same_raw}
use txmlconnector.Records.Trades.Rising.{
  IsRising, Sifted, passed, numbers, passed-IsRising, same_raw_sound,
}
use txmlconnector.Common.{
  ℕ, some, ◌≢◌, ap, stuck, ◌≡◌, refl, true, false, Option, none, List, arith, [], ◌∷◌, ◌++◌, Bytes,
  ok, length,
}
use txmlconnector.Records.Split.Cuts.{Splits, records-Splits}
use txmlconnector.Records.Split.Stable.{Delimits}
use txmlconnector.Records.Split.Append.{records-append, NoHistory}
use txmlconnector.Wire.Reader.{
  byte, uint16, raw, little_endian, extra_bytes, packed_word, packed, int32, int64, skip,
}
use txmlconnector.Records.Parser.{◌>>=◌, ◌>>◌, pure, read_until, read_all, fail, read_cstring}
use txmlconnector.Records.Bodies.{
  sized_body, cut, more_byte, skip_forts_session, skip_am_book_fields, skip_am_book_level,
  skip_am_book, skip_server_message, block, skip_news_upload, skip_news_body, skip_package,
  news_body_package_len, skip_bytes,
}
use txmlconnector.Records.Split.{
  Split, option_body, state_body, market_body, body_of, put, joined, settle, unwrapped,
  records_from, records, salvage,
}
use txmlconnector.Records.Ticks.{read_ticks, read_tick, read_tick_fields}
use txmlconnector.Records.Split.Parses.{parses}
use txmlconnector.Records.Split.Decodes.{parses-body_of}

abbrev no_zlib : Bytes → Option ℕ
no_zlib _ = none

-- A state record, a wrapper with a session and two state bytes, an order book, a date.
abbrev mixed : Bytes
mixed =
    0x05 ∷ 0x5f ∷ 0 ∷ 6 ∷ 0x6b ∷ 0x10 ∷ 4 ∷ 0x62 ∷ 7 ∷ 8 ∷ 0x5c ∷ 0x20 ∷ 0x86 ∷ 1 ∷ 9 ∷ 0xff ∷ 0x3d
    ∷ 0x21 ∷ 3 ∷ []

mixed_split : records no_zlib mixed ≡ record {
  out =
      record { tag = 0x05; body = [] }
      ∷ record { tag = 0x6b; body = 0x10 ∷ 4 ∷ [] }
      ∷ record { tag = 0x62; body = 7 ∷ 8 ∷ [] }
      ∷ record { tag = 0x5c; body = 0x20 ∷ 0x86 ∷ 1 ∷ 9 ∷ 0xff ∷ [] }
      ∷ record { tag = 0x3d; body = 0x21 ∷ 3 ∷ [] }
      ∷ [];
  fault = none;
}
unfolding byte uint16 raw little_endian extra_bytes packed_word packed int32 ◌>>=◌ ◌>>◌ pure
    read_until read_all sized_body cut more_byte skip_forts_session skip_am_book_fields
    skip_am_book_level skip_am_book option_body state_body market_body body_of put joined settle
    unwrapped records_from records
mixed_split = refl

-- A wrapper with a state record and a server message of an unknown type.
abbrev nested_message : Bytes
nested_message = 0x5f ∷ 0 ∷ 6 ∷ 0x05 ∷ 0x0f ∷ 3 ∷ 0 ∷ 0 ∷ 0 ∷ []

-- The nested server message loses the state record in front of it.
lost_record :
    records no_zlib nested_message
    ≡ record { out = record { tag = 0x0f; body = 3 ∷ 0 ∷ 0 ∷ 0 ∷ [] } ∷ []; fault = none }
unfolding byte uint16 raw little_endian extra_bytes packed_word packed int64 ◌>>=◌ ◌>>◌ pure fail
    read_cstring sized_body cut skip_server_message option_body state_body market_body body_of put
    joined settle salvage unwrapped records_from records
lost_record = refl

-- A tick and the end of the ticks, with a record behind them.
abbrev ticks_body : Bytes
ticks_body = 0 ∷ 1 ∷ 0 ∷ 2 ∷ 0x10 ∷ 0x20 ∷ 0x30 ∷ 0x40 ∷ 5 ∷ 1 ∷ 0 ∷ 0 ∷ 0xff ∷ 0xff ∷ []

ticks_cut : body_of no_zlib false 1 0x5a (ticks_body ++ (5 ∷ [])) ≡ ok (ticks_body, 5 ∷ [])
unfolding byte uint16 extra_bytes int32 int64 packed ◌>>=◌ pure read_all read_until cut option_body
    body_of read_ticks read_tick read_tick_fields
ticks_cut = refl

parses-body_of_example : parses 0x5a ticks_body ≡ true
parses-body_of_example =
    parses-body_of no_zlib false 1 0x5a (ticks_body ++ (5 ∷ [])) ticks_body (5 ∷ []) ticks_cut

-- A zlib reader whose streams are one byte long.
abbrev short_zlib : Bytes → Option ℕ
short_zlib [] = none
short_zlib (b ∷ bs) = some 1

short_zlib-Delimits : Delimits short_zlib
short_zlib-Delimits [] ys n h = cc
short_zlib-Delimits (x ∷ xs) ys n h = h

-- A news body with a stream, then two state bytes.
abbrev upload : Bytes
upload = 0x36 ∷ 2 ∷ 0x10 ∷ 0 ∷ 0 ∷ 0 ∷ 0 ∷ 1 ∷ 2 ∷ 3 ∷ 4 ∷ 5 ∷ 0x62 ∷ 1 ∷ 2 ∷ []

upload_whole : records short_zlib upload ≡ record {
  out =
      record { tag = 0x36; body = 2 ∷ 0x10 ∷ 0 ∷ 0 ∷ 0 ∷ 0 ∷ 1 ∷ 2 ∷ 3 ∷ 4 ∷ 5 ∷ [] }
      ∷ record { tag = 0x62; body = 1 ∷ 2 ∷ [] }
      ∷ [];
  fault = none;
}
unfolding byte raw extra_bytes packed little_endian packed_word int32 skip ◌>>=◌ ◌>>◌ pure fail cut
    block skip_news_upload skip_news_body skip_package news_body_package_len skip_bytes option_body
    state_body market_body body_of put settle records_from records
upload_whole = refl

upload-NoHistory : NoHistory (records short_zlib upload).out
upload-NoHistory = rw upload_whole (refl, (refl, tt))

records-append_example :
    (records short_zlib (upload ++ mixed)).out
    ≡ (records short_zlib upload).out ++ (records short_zlib mixed).out
records-append_example =
    records-append short_zlib upload mixed short_zlib-Delimits
      (ap (λ (s : Split). s.fault) upload_whole) upload-NoHistory

records-Splits_example :
    Splits no_zlib false (length nested_message) nested_message (records no_zlib nested_message)
    × ((records no_zlib nested_message).fault ≢ some stuck)
records-Splits_example = records-Splits no_zlib nested_message

abbrev four_trades : List ((ℕ × ℕ) × ℕ)
four_trades = ((26, 1), 7) ∷ ((27, 1), 9) ∷ ((26, 1), 7) ∷ ((26, 1), 8) ∷ []

passed-IsRising_example :
    IsRising
      (lookup same_raw (26, 1) [])
      (numbers same_raw (26, 1) (passed same_raw [] four_trades))
    × Sifted
        (lookup same_raw (26, 1) [])
        (numbers same_raw (26, 1) four_trades)
        (numbers same_raw (26, 1) (passed same_raw [] four_trades))
passed-IsRising_example =
    passed-IsRising same_raw same_raw_sound (26, 1) [] four_trades tt (omega arith)

-- The repeated trade is dropped.
repeated_dropped : passed same_raw [] four_trades ≡ ((26, 1), 7) ∷ ((27, 1), 9) ∷ ((26, 1), 8) ∷ []
unfolding check_fresh
repeated_dropped = refl
