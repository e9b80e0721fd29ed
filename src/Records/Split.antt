-- ===== src/Records/Split.antt =====
-- native/records/records.go: cutting an RQ_MAIN payload into records. A slice of the payload is kept as
-- its bytes, and an offset as what the payload's length leaves of the unread bytes.
pub mod Parses
pub mod Locals
pub mod Agree
pub mod Decodes
pub mod Ends
pub mod History
pub mod Bounds
pub mod Steady
pub mod Cuts
pub mod Stable
pub mod Prefix
pub mod Enough
pub mod Moved
pub mod Append
use txmlconnector.Common.{
  ℕ, zero, suc, ◌+◌, ◌-◌, Bool, true, false, not, ◌&&◌, ◌||◌, Option, none, some,
}
use txmlconnector.Common.{
  List, [], ◌∷◌, ◌++◌, Bytes, length, take, drop, ltb, leb, ◌==◌, if◌then◌else◌,
}
use txmlconnector.Common.{
  Error, Result, ok, err, bad_value, trailing_bytes, stuck, unknown_record, unknown_layout,
}
use txmlconnector.Wire.Reader.{Read, byte, uint16, raw, skip, string, int32, int64}
use txmlconnector.Records.Parser.{Parser, pure, fail}
use txmlconnector.Records.Options.{
  read_family, read_end_of_family, read_end_of_families, read_strikes,
}
use txmlconnector.Records.Ticks.{read_ticks}
use txmlconnector.Records.Messages.{skip_message, read_news_header_fields}
use txmlconnector.Records.Misc.{skip_board}
use txmlconnector.Records.Bodies.{
  is_sized, is_attr, sized_body, read_ica, cut, skip_server_message, history_body,
  skip_forts_session, skip_quotation, skip_urt, skip_sys_params, skip_quotes, skip_news_upload,
  skip_sec_rate, skip_union, skip_edp_rate, skip_am_book,
}

-- One record: its tag and the bytes of its body.
pub record Record : Type 0 where
  pub tag : ℕ
  pub body : Bytes

-- What `records` returns: the records cut, and the error that stopped it.
pub record Split : Type 0 where
  pub out : List Record
  pub fault : Option Error

abbrev pub tag_wrapper : ℕ
tag_wrapper = 0x5f

abbrev pub tag_candles : ℕ
tag_candles = 0x09

-- The body of a record with this tag. `offset` is where the body begins. The source tests the tags in
-- the order of the four parts.
unfoldable pub option_body : ℕ → Parser Bytes → Parser Bytes
option_body tag other =
    if tag == 0x6f
    then cut read_family
    else if tag == 0x71
    then cut read_end_of_family
    else if tag == 0x70
    then cut read_end_of_families
    else if tag == 0x78
    then cut read_strikes
    else other

unfoldable pub market_body : Bool → ℕ → ℕ → Parser Bytes
market_body bounded offset tag =
    if tag == tag_candles
    then history_body
    else if tag == 0x68
    then cut skip_union
    else if tag == 0x07
    then cut skip_quotes
    else if tag == 0x6b
    then cut (skip_forts_session bounded)
    else if tag == 0x6e
    then cut skip_edp_rate
    else if tag == 0x5c
    then cut skip_am_book
    else if tag == 0x06
    then cut skip_quotation
    else if tag == 0x69
    then cut (skip_urt offset)
    else if tag == 0x5b
    then cut skip_sys_params
    else if tag == 0x05
    then pure []
    else fail (unknown_record tag (offset - 1))

unfoldable pub state_body : (Bytes → Option ℕ) → Bool → ℕ → ℕ → Parser Bytes
state_body inflate bounded offset tag =
    if tag == 0x34
    then cut skip_board
    else if tag == 0x01
    then cut skip_message
    else if tag == 0x35
    then cut read_news_header_fields
    else if tag == 0x36
    then cut (skip_news_upload inflate)
    else if tag == 0x0a
    then cut skip_sec_rate
    else if is_attr tag
    then raw 3
    else if tag == 0x18
    then raw 1
    else if tag == 0x62 || tag == 0x67
    then raw 2
    else market_body bounded offset tag

unfoldable pub body_of : (Bytes → Option ℕ) → Bool → ℕ → ℕ → Parser Bytes
body_of inflate bounded offset tag =
    if is_sized tag || tag == tag_wrapper
    then sized_body
    else if tag == 0x3d
    then cut int32
    else option_body tag (
        if tag == 0x5a
        then cut read_ticks
        else if tag == 0x0f
        then cut (skip_server_message offset)
        else if tag == 0x7c
        then read_ica
        else state_body inflate bounded offset tag)

-- A body in front of the records that follow.
unfoldable pub put : List Record → Split → Split
put new s = record { out = new ++ s.out; fault = s.fault }

abbrev pub stopped : Error → Split
stopped e = record { out = []; fault = some e }

-- The records of a wrapper whose splitting gave `nested`. `again` splits the bytes up to the offset of
-- an unknown record without the bound. With `none` the wrapper stops the splitting.
unfoldable pub salvage : (Bytes → Split) → ℕ → ℕ → Bytes → List Record
salvage again tag offset body =
    let inner = again (take offset body) in
    elim (inner.fault) [ none ↦ inner.out | some e ↦ [] ]
    ++ (record { tag = tag; body = drop offset body } ∷ [])

unfoldable pub unwrapped : (Bytes → Split) → Bytes → Split → Result (List Record)
unwrapped again body nested = elim (nested.fault) [
  | none ↦ ok nested.out
  | some (unknown_record tag offset) ↦ ok (salvage again tag offset body)
  | some e ↦ err e
]

-- The records `new` of a wrapper in front of the records that follow, unless it stopped.
unfoldable pub joined : Result (List Record) → Split → Split
joined (err e) next = stopped e
joined (ok new) next = put new next

-- The rest of a round: `again` splits the bytes of a wrapper, `next` those behind the body.
unfoldable pub settle : (Bool → Bytes → Split) → (Bytes → Split) → ℕ → Read Bytes → Split
unfolding unwrapped joined
settle again next tag (err e) = stopped e
settle again next tag (ok (body, r')) =
    if tag == tag_wrapper
    then joined (unwrapped (again false) body (again true body)) (next r')
    else put (record { tag = tag; body = body } ∷ []) (next r')

-- The loop of `records`. A round takes the tag at least, and what a wrapper holds is shorter than it.
unfoldable pub records_from : (Bytes → Option ℕ) → ℕ → Bool → ℕ → Bytes → Split
unfolding body_of settle
records_from inflate zero bounded size r = stopped stuck
records_from inflate (suc fuel) bounded size [] = record { out = []; fault = none }
records_from inflate (suc fuel) bounded size (tag ∷ r) =
    settle (λ limit part. records_from inflate fuel limit (length part) part)
      (λ r'. records_from inflate fuel bounded size r') tag
      (body_of inflate bounded (size - length r) tag r)

unfoldable pub records : (Bytes → Option ℕ) → Bytes → Split
unfolding records_from
records inflate p = records_from inflate (suc (length p)) false (length p) p
