-- ===== src/Records/Split/Bounds.antt =====
-- The reader of any body ends.
use txmlconnector.Common.{
  ℕ, ◌+◌, ◌≤◌, ◌≡◌, ap, ◌*◌, length-take, arith, Bool, Option, [], ◌∷◌, Bytes,
}
use txmlconnector.Common.{length, ok, unknown_record, bad_value}
use txmlconnector.Wire.Reader.{byte, uint16, raw, int32, int64}
use txmlconnector.Records.Parser.{Parser, read_cstring, ◌>>=◌}
use txmlconnector.Records.Parser.Local.{Local}
use txmlconnector.Records.Parser.Basic.{
  local_rules, raw_cut, byte-Local, uint16-Local, raw-Local, int32-Local, int64-Local,
  read_cstring-Local,
}
use txmlconnector.Records.Messages.{read_news_header_fields}
use txmlconnector.Records.Bodies.{
  sized_body, read_ica, skip_server_message, skip_forts_session, block, skip_sys_params,
  skip_news_body, skip_news_upload,
}
use txmlconnector.Records.Split.{body_of, option_body, state_body, market_body}
use txmlconnector.Records.Split.Locals.{
  read_family-Local, read_end_of_family-Local, read_end_of_families-Local, read_strikes-Local,
  read_ticks-Local, skip_message-Local, read_news_header_fields-Local, skip_board-Local,
  skip_sec_rate-Local, skip_union-Local, skip_edp_rate-Local, skip_am_book-Local,
  skip_quotation-Local, skip_quotes-Local,
}
use txmlconnector.Records.Split.Ends.{
  Ends, Local-Ends, bind-Ends, then-Ends, if-Ends, fail-Ends, pure-Ends, cut-Ends, more_byte-Ends,
  skip_urt-Ends, block-Ends, skip_package-Ends,
}
use txmlconnector.Records.Split.History.{history_body-Ends}
use txmlconnector.Records.Split.{tag_wrapper}

byte-Ends : Ends (byte)
byte-Ends = Local-Ends (byte-Local)

uint16-Ends : Ends (uint16)
uint16-Ends = Local-Ends (uint16-Local)

raw-Ends : (n : ℕ) → Ends (raw n)
raw-Ends n = Local-Ends (raw-Local n)

int32-Ends : Ends (int32)
int32-Ends = Local-Ends (int32-Local)

int64-Ends : Ends (int64)
int64-Ends = Local-Ends (int64-Local)

read_cstring-Ends : (max : ℕ) → Ends (read_cstring max)
read_cstring-Ends max = Local-Ends (read_cstring-Local max)

read_news_header_fields-Ends : Ends (read_news_header_fields)
read_news_header_fields-Ends = Local-Ends (read_news_header_fields-Local)

upload_block-Ends : (size : ℕ) → Ends (block (unknown_record 0x36 0) size)
upload_block-Ends size = block-Ends (unknown_record 0x36 0) size (λ h. cc)

-- The rules by which `search` shows that a reader ends.
ruleset end_rules = (
  bind-Ends, then-Ends, if-Ends, fail-Ends, pure-Ends, cut-Ends, more_byte-Ends, skip_urt-Ends,
  skip_package-Ends, history_body-Ends, byte-Ends, uint16-Ends, raw-Ends, int32-Ends, int64-Ends,
  read_cstring-Ends,
)

pub skip_server_message-Ends : (offset : ℕ) → Ends (skip_server_message offset)
unfolding skip_server_message
skip_server_message-Ends offset = search end_rules depth 16

pub skip_news_upload-Ends : (inflate : Bytes → Option ℕ) → Ends (skip_news_upload inflate)
unfolding skip_news_upload skip_news_body
skip_news_upload-Ends inflate =
    search (end_rules, upload_block-Ends, read_news_header_fields-Ends) depth 16

pub skip_sys_params-Ends : Ends skip_sys_params
unfolding skip_sys_params
skip_sys_params-Ends = bind-Ends int32-Ends (λ size. block-Ends bad_value size (λ h. cc))

pub skip_forts_session-Ends : (bounded : Bool) → Ends (skip_forts_session bounded)
unfolding skip_forts_session
skip_forts_session-Ends bounded = then-Ends int32-Ends (more_byte-Ends bounded)

-- The bodies that are cut by local readers.
ruleset extent_rules = (
  if-Ends, fail-Ends, pure-Ends, cut-Ends, skip_urt-Ends, history_body-Ends, raw-Ends, Local-Ends,
  int32-Local, read_family-Local, read_end_of_family-Local, read_end_of_families-Local,
  read_strikes-Local, read_ticks-Local, skip_message-Local, read_news_header_fields-Local,
  skip_board-Local, skip_sec_rate-Local, skip_union-Local, skip_edp_rate-Local, skip_am_book-Local,
  skip_quotation-Local, skip_quotes-Local, skip_server_message-Ends, skip_news_upload-Ends,
  skip_sys_params-Ends, skip_forts_session-Ends,
)

market_body-Ends : (bounded : Bool) (offset tag : ℕ) → Ends (market_body bounded offset tag)
unfolding market_body
market_body-Ends bounded offset tag = search extent_rules depth 20

state_body-Ends :
    (inflate : Bytes → Option ℕ) (bounded : Bool) (offset tag : ℕ)
    → Ends (state_body inflate bounded offset tag)
unfolding state_body
state_body-Ends inflate bounded offset tag = search (extent_rules, market_body-Ends) depth 20

option_body-Ends : (tag : ℕ) {other : Parser Bytes} → Ends other → Ends (option_body tag other)
unfolding option_body
option_body-Ends tag l = search extent_rules depth 20

pub sized_body-Local : Local sized_body
unfolding sized_body
sized_body-Local = search local_rules

pub read_ica-Local : Local read_ica
unfolding read_ica
read_ica-Local = search local_rules

pub body_of-Ends :
    (inflate : Bytes → Option ℕ) (bounded : Bool) (offset tag : ℕ)
    → Ends (body_of inflate bounded offset tag)
unfolding body_of
body_of-Ends inflate bounded offset tag =
    search (extent_rules, state_body-Ends, option_body-Ends, sized_body-Local, read_ica-Local) depth
      20

-- The body of a wrapper is shorter than what it was read from.
pub wrapper_fits :
    (inflate : Bytes → Option ℕ) (bounded : Bool) (offset : ℕ) (r body r' : Bytes)
    → body_of inflate bounded offset tag_wrapper r ≡ ok (body, r')
    → length body ≤ length r
unfolding body_of sized_body uint16 ◌>>=◌
wrapper_fits inflate bounded offset [] body r' h = cc
wrapper_fits inflate bounded offset (a ∷ []) body r' h = cc
wrapper_fits inflate bounded offset (a ∷ b ∷ r) body r' h =
    let (eb, er, _) = raw_cut (a * 256 + b) r h in
    omega (arith, ap {B = ℕ} length eb, length-take (a * 256 + b) r)
