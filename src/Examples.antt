-- ===== src/Examples.antt =====
-- Runs of the model on concrete data, with decimals of eight places.
mod Data
mod Decisions
mod Signals
mod Market
mod Requests
mod Positions
mod Entries
mod Reconciliation
mod Trips
