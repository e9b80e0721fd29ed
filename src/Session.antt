-- ===== src/Session.antt =====
-- native/session: one connection to the server, from the login to the short recovery.
pub mod Payloads
pub mod Replies
pub mod Conn
pub mod Transact
pub mod Restore
pub mod Login
pub mod Inquire
pub mod Requests
pub mod Runs
