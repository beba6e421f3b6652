-- ===== src/Execution.antt =====
-- internal/execution: the code that keeps an open trade protected, and closes it.
pub mod Algo
pub mod Entry
pub mod Sync
pub mod Trail
pub mod Exit
pub mod Breaker
pub mod Sigfail
pub mod Recovery
pub mod OrphanAlgo
