-- ===== src/Binance.antt =====
-- internal/binance: the classification of errors, the retries of a write, and order placement.
pub mod Errors
pub mod Retry
pub mod Orders
