-- ===== src/Decision.antt =====
-- internal/decision: the gates that a signal passes before a trade is written.
pub mod Sizing
pub mod Filters
pub mod Engine
pub mod Postgres
