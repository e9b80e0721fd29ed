-- ===== src/Server.antt =====
-- server: the broker between the connector's callback and the subscribed clients.
pub mod Broker
mod Runs
