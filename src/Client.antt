-- ===== src/Client.antt =====
-- client: the connector's side of the gRPC service.
pub mod Queue
pub mod Reconnect
mod Runs
