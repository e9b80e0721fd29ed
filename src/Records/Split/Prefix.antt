-- ===== src/Records/Split/Prefix.antt =====
-- The body of every record but R_HISTORY is stable.
use txmlconnector.Common.{ℕ, ◌≡◌, refl, sym, Bool, false, Option, [], ◌∷◌, Bytes}
use txmlconnector.Common.{◌∙◌, ◌==◌, if◌then◌else◌, ok}
use txmlconnector.Records.Parser.{Parser}
use txmlconnector.Records.Parser.Local.{pure-Local}
use txmlconnector.Records.Parser.Basic.{
  byte-Local, uint16-Local, raw-Local, int32-Local, int64-Local, read_cstring-Local,
}
use txmlconnector.Records.Bodies.{
  skip_server_message, history_body, more_byte, skip_forts_session, skip_sys_params, skip_news_body,
  skip_news_upload,
}
use txmlconnector.Records.Split.{body_of, option_body, state_body, market_body}
use txmlconnector.Records.Split.Locals.{
  read_family-Local, read_end_of_family-Local, read_end_of_families-Local, read_strikes-Local,
  read_ticks-Local, skip_message-Local, read_news_header_fields-Local, skip_board-Local,
  skip_sec_rate-Local, skip_union-Local, skip_edp_rate-Local, skip_am_book-Local,
  skip_quotation-Local, skip_quotes-Local,
}
use txmlconnector.Records.Split.Ends.{Local-Ends, skip_urt-Ends}
use txmlconnector.Records.Split.{tag_candles}
use txmlconnector.Records.Split.Bounds.{
  skip_server_message-Ends, skip_news_upload-Ends, skip_sys_params-Ends, skip_forts_session-Ends,
  sized_body-Local, read_ica-Local,
}
use txmlconnector.Records.Split.Stable.{
  Stable, Local-Stable, bind-Stable, then-Stable, if-Stable, fail-Stable, cut-Stable, block-Stable,
  skip_urt-Stable, skip_package-Stable, Delimits, behind,
}
use txmlconnector.Common.{◌++◌}

ruleset stable_rules = (
  bind-Stable, then-Stable, if-Stable, fail-Stable, Local-Stable, byte-Local, uint16-Local,
  int32-Local, int64-Local, read_cstring-Local, read_news_header_fields-Local, block-Stable,
  pure-Local,
)

skip_server_message-Stable : (o o' : ℕ) → Stable (skip_server_message o) (skip_server_message o')
unfolding skip_server_message
skip_server_message-Stable o o' = search stable_rules depth 20

skip_sys_params-Stable : Stable skip_sys_params skip_sys_params
unfolding skip_sys_params
skip_sys_params-Stable = search stable_rules depth 20

skip_news_upload-Stable :
    (inflate : Bytes → Option ℕ)
    → Delimits inflate
    → Stable (skip_news_upload inflate) (skip_news_upload inflate)
unfolding skip_news_upload skip_news_body
skip_news_upload-Stable inflate d = search (stable_rules, skip_package-Stable) depth 20

more_byte-Stable : Stable (more_byte false) (more_byte false)
unfolding more_byte
more_byte-Stable = record { stays = at_bytes }
  where
    unread : (r : Bytes) → more_byte false r ≡ ok (tt, r)
    unread [] = refl
    unread (b ∷ r) = refl

    at_bytes :
        (r : Bytes) (a : Unit {0}) (r' more : Bytes)
        → more_byte false r ≡ ok (a, r')
        → more_byte false (r ++ more) ≡ ok (a, r' ++ more)
    at_bytes r a r' more h = unread (r ++ more) ∙ behind more (sym (unread r) ∙ h)

skip_forts_session-Stable : Stable (skip_forts_session false) (skip_forts_session false)
unfolding skip_forts_session
skip_forts_session-Stable = search (stable_rules, more_byte-Stable) depth 20

ruleset body_rules = (
  if-Stable, fail-Stable, Local-Stable, pure-Local, raw-Local, cut-Stable, Local-Ends, int32-Local,
  read_family-Local, read_end_of_family-Local, read_end_of_families-Local, read_strikes-Local,
  read_ticks-Local, skip_message-Local, read_news_header_fields-Local, skip_board-Local,
  skip_sec_rate-Local, skip_union-Local, skip_edp_rate-Local, skip_am_book-Local,
  skip_quotation-Local, skip_quotes-Local, skip_server_message-Ends, skip_news_upload-Ends,
  skip_sys_params-Ends, skip_forts_session-Ends, skip_urt-Ends, skip_server_message-Stable,
  skip_sys_params-Stable, skip_news_upload-Stable, skip_forts_session-Stable, skip_urt-Stable,
  sized_body-Local, read_ica-Local,
)

other-Stable :
    {A : Type 0} (p p' : Parser A) {q q' : Parser A} {b : Bool}
    → b ≡ false
    → Stable q q'
    → Stable (if b then p else q) (if b then p' else q')
other-Stable p p' e k = rw e k

market_body-Stable :
    (o o' tag : ℕ)
    → tag == tag_candles ≡ false
    → Stable (market_body false o tag) (market_body false o' tag)
unfolding market_body
market_body-Stable o o' tag e =
    other-Stable history_body history_body e (search body_rules depth 20)

state_body-Stable :
    (inflate : Bytes → Option ℕ) (o o' tag : ℕ)
    → Delimits inflate
    → tag == tag_candles ≡ false
    → Stable (state_body inflate false o tag) (state_body inflate false o' tag)
unfolding state_body
state_body-Stable inflate o o' tag d e = search (body_rules, market_body-Stable) depth 20

option_body-Stable :
    (tag : ℕ) (p q : Parser Bytes) → Stable p q → Stable (option_body tag p) (option_body tag q)
unfolding option_body
option_body-Stable tag p q k = search body_rules depth 20

pub body_of-Stable :
    (inflate : Bytes → Option ℕ) (o o' tag : ℕ)
    → Delimits inflate
    → tag == tag_candles ≡ false
    → Stable (body_of inflate false o tag) (body_of inflate false o' tag)
unfolding body_of
body_of-Stable inflate o o' tag d e =
    search (body_rules, option_body-Stable, state_body-Stable) depth 20
