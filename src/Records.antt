-- ===== src/Records.antt =====
-- native/records: the records of an RQ_MAIN reply.
pub mod Parser
pub mod Options
pub mod Ticks
pub mod Trades
pub mod Quotes
pub mod Messages
pub mod Misc
pub mod Bodies
pub mod Dictionary
pub mod Securities
pub mod Catalog
pub mod Orders
pub mod Modify
pub mod Clients
pub mod Split
mod Runs
