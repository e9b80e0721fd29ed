-- ===== src/Records/Split/Parses.antt =====
-- The parsers that the package has for the bodies of records, by the record's tag. A body of another tag,
-- or one whose parser asks for more than its extent (0x07, 0x36), counts as parsed.
use txmlconnector.Common.{ℕ, Bool, true, false, Bytes, Result, ok, err, ◌==◌, if◌then◌else◌}
use txmlconnector.Wire.Reader.{int32}
use txmlconnector.Records.Parser.{value_of}
use txmlconnector.Records.Options.{
  parse_family, parse_end_of_family, parse_end_of_families, parse_strikes,
}
use txmlconnector.Records.Ticks.{parse_tick_record}
use txmlconnector.Records.Messages.{parse_rmsg, parse_news_header}
use txmlconnector.Records.Misc.{
  parse_sec_rate, parse_union_category, parse_edp_rate, parse_am_book, parse_forts_session,
}
use txmlconnector.Records.Quotes.{parse_quotation}

abbrev pub is_ok : {A : Type 0} → Result A → Bool
is_ok (ok a) = true
is_ok (err e) = false

unfoldable pub trade_date : Bytes → Result ℕ
trade_date body = value_of (int32 body)

unfoldable pub parses : ℕ → Bytes → Bool
parses tag body =
    if tag == 0x6f
    then is_ok (parse_family body)
    else if tag == 0x71
    then is_ok (parse_end_of_family body)
    else if tag == 0x70
    then is_ok (parse_end_of_families body)
    else if tag == 0x78
    then is_ok (parse_strikes body)
    else if tag == 0x5a
    then is_ok (parse_tick_record body)
    else if tag == 0x01
    then is_ok (parse_rmsg body)
    else if tag == 0x35
    then is_ok (parse_news_header body)
    else if tag == 0x0a
    then is_ok (parse_sec_rate body)
    else if tag == 0x3d
    then is_ok (trade_date body)
    else if tag == 0x68
    then is_ok (parse_union_category body)
    else if tag == 0x6b
    then is_ok (parse_forts_session body)
    else if tag == 0x6e
    then is_ok (parse_edp_rate body)
    else if tag == 0x5c
    then is_ok (parse_am_book body)
    else if tag == 0x06
    then is_ok (parse_quotation body)
    else true
