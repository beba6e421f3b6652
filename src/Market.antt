-- ===== src/Market.antt =====
-- internal/market: the technical indicators over bars, and the uptrend signal that joins them.
pub mod Float
pub mod Indicators
pub mod Uptrend
