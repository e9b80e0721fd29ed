-- ===== src/Records/Split/Locals.antt =====
-- The readers by which bodies are cut are local.
use txmlconnector.Common.{ℕ, zero, suc, [], ◌∷◌}
use txmlconnector.Records.Parser.Local.{Local, bind-Local, then-Local, pure-Local}
use txmlconnector.Records.Parser.Basic.{local_rules, int32-Local}
use txmlconnector.Records.Parser.Loop.{
  loop_rules, Consumes, bind-Consumes, read_cstring-Consumes, read_all-Local,
}
use txmlconnector.Records.Options.{
  read_family, read_end_of_family, read_end_of_families, read_strikes, read_strike, strike_item,
}
use txmlconnector.Records.Ticks.{read_ticks, read_tick, read_tick_fields}
use txmlconnector.Records.Messages.{skip_message, read_news_header_fields}
use txmlconnector.Records.Misc.{skip_board}
use txmlconnector.Records.Bodies.{
  skip_int32s, skip_quotation, skip_quotes, skip_quote_level, skip_sec_rate, skip_union,
  skip_edp_rate, skip_am_book, skip_am_book_level, skip_am_book_fields,
}

pub read_family-Local : Local read_family
unfolding read_family
read_family-Local = search loop_rules depth 16

pub read_end_of_family-Local : Local read_end_of_family
unfolding read_end_of_family
read_end_of_family-Local = search loop_rules depth 16

pub read_end_of_families-Local : Local read_end_of_families
unfolding read_end_of_families
read_end_of_families-Local = search loop_rules depth 16

strike_item-Local : (code : _) → Local (strike_item code)
unfolding strike_item
strike_item-Local [] = search loop_rules depth 16
strike_item-Local (c ∷ code) = search loop_rules depth 16

read_strike-Local : Local read_strike
unfolding read_strike
read_strike-Local = bind-Local (search local_rules) strike_item-Local

read_strike-Consumes : Consumes read_strike
unfolding read_strike
read_strike-Consumes = bind-Consumes (read_cstring-Consumes 26) strike_item-Local

pub read_strikes-Local : Local read_strikes
unfolding read_strikes
read_strikes-Local = search (loop_rules, read_strike-Local, read_strike-Consumes) depth 16

read_tick-Local : Local read_tick
unfolding read_tick read_tick_fields
read_tick-Local = search loop_rules depth 16

read_tick-Consumes : Consumes read_tick
unfolding read_tick read_tick_fields
read_tick-Consumes = search loop_rules depth 16

pub read_ticks-Local : Local read_ticks
unfolding read_ticks
read_ticks-Local = read_all-Local read_tick-Local read_tick-Consumes

pub skip_message-Local : Local skip_message
unfolding skip_message
skip_message-Local = search loop_rules depth 16

pub read_news_header_fields-Local : Local read_news_header_fields
unfolding read_news_header_fields
read_news_header_fields-Local = search loop_rules depth 16

pub skip_board-Local : Local skip_board
unfolding skip_board
skip_board-Local = search loop_rules depth 16

pub skip_sec_rate-Local : Local skip_sec_rate
unfolding skip_sec_rate
skip_sec_rate-Local = search loop_rules depth 16

pub skip_union-Local : Local skip_union
unfolding skip_union
skip_union-Local = search loop_rules depth 16

pub skip_edp_rate-Local : Local skip_edp_rate
unfolding skip_edp_rate
skip_edp_rate-Local = search loop_rules depth 16

skip_am_book_level-Local : Local skip_am_book_level
unfolding skip_am_book_level skip_am_book_fields
skip_am_book_level-Local = search loop_rules depth 16

skip_am_book_level-Consumes : Consumes skip_am_book_level
unfolding skip_am_book_level skip_am_book_fields
skip_am_book_level-Consumes = search loop_rules depth 16

pub skip_am_book-Local : Local skip_am_book
unfolding skip_am_book
skip_am_book-Local =
    search (loop_rules, skip_am_book_level-Local, skip_am_book_level-Consumes) depth 16

pub skip_int32s-Local : (n : ℕ) → Local (skip_int32s n)
unfolding skip_int32s
skip_int32s-Local zero = pure-Local tt
skip_int32s-Local (suc n) = then-Local int32-Local (skip_int32s-Local n)

pub skip_quotation-Local : Local skip_quotation
unfolding skip_quotation
skip_quotation-Local = search (loop_rules, skip_int32s-Local) depth 16

skip_quote_level-Local : Local skip_quote_level
unfolding skip_quote_level
skip_quote_level-Local = search loop_rules depth 16

skip_quote_level-Consumes : Consumes skip_quote_level
unfolding skip_quote_level
skip_quote_level-Consumes = search loop_rules depth 16

pub skip_quotes-Local : Local skip_quotes
unfolding skip_quotes
skip_quotes-Local = search (loop_rules, skip_quote_level-Local, skip_quote_level-Consumes) depth 16
