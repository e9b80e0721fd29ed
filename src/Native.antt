-- ===== src/Native.antt =====
-- native: the client over the session.
pub mod Recovery
pub mod Orders
pub mod Subscriptions
pub mod Poll
mod Runs
