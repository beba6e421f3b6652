-- ===== src/Signal.antt =====
-- internal/signal: the two signals of an entry, and the decision that joins them.
pub mod OiSurge
pub mod SquareHot
pub mod Compound
