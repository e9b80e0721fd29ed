-- ===== src/Model.antt =====
-- native/model: the values of the domain.
pub mod Decimal
mod Runs
