-- ===== src/Storage.antt =====
-- internal/storage/postgres: the tables, as the statements of the queries change them.
pub mod Breaker
pub mod Trades
pub mod Db
pub mod Positions
