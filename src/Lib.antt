-- ===== src/Lib.antt =====
-- The core of a trading program for perpetual futures. It reads open interest and the heat of posts,
-- decides on entries, keeps open trades protected, and stops trading after losses.
--
-- Parts, with the files of the repository that they model:
--   Decimal            github.com/shopspring/decimal: a record of operations, a parameter, with the
--                      laws of one order (IsDecimal). Decimal/Fixed has eight places and meets them.
--   Binance/Errors     internal/binance/errors.go (ClassifyError), client.go (recordAPIError)
--   Binance/Retry      internal/binance/retry.go (doWriteRetry), against a server that is a function
--                      of the attempt
--   Binance/Orders     internal/binance/orders.go: what a write method makes of its reply
--   Storage/Breaker    internal/storage/postgres/gen/circuit_breaker.sql.go: statements over one row
--   Storage/Trades     internal/storage/postgres/gen/trades.sql.go: statements over the trades
--   Storage/Positions  the same file: statements over position_states
--   Storage/Db         the tables together, and a session on them
--   Signal             internal/signal: OiSurge (OISurge), SquareHot (SquareHot), Compound (Evaluate)
--   Indicator          internal/pkg/indicator: ATR and EMA
--   Market             internal/market: Indicators (indicators.go), Uptrend (CheckUptrend). Float has
--                      float64 as a record of operations, a parameter, with IEEE 754's order
--   Decision           internal/decision: Filters, Sizing, Engine (RunTick), over the interfaces of
--                      the source; Postgres is the adapter of internal/collector/decision_engine.go
--   Execution/Entry    internal/execution/order.go: Fill (waitFill), Placing (PlaceEntry and its
--                      steps), over an Executor that also holds the requests sent so far
--   Execution/Algo     internal/execution/algo_reconciler.go; Polling is one tick
--   Execution/Sync     internal/execution/position_manager.go
--   Execution/Sigfail, Execution/Recovery, Execution/OrphanAlgo
--                      internal/execution: sigfail_detector.go, recovery.go, orphan_algo_cleaner.go
--   Execution/Trail    internal/execution/trail_upgrader.go
--   Execution/Exit     internal/execution/exit_manager.go
--   Execution/Breaker  internal/execution/circuit_breaker.go
--   Examples           runs on concrete data
--
-- How they interact: the engine asks the filters, which read the breaker's row and the trades, and
-- inserts a trade; the executor buys and places the stops of that trade; the reconciler and the
-- position manager compare the open trades with the exchange and close what has ended there; the
-- exit manager and the detector of failed signals close trades and roll their result into the
-- breaker's row; the trips read that row and halt trading, which the filters see. At a start the
-- recovery runs before the first ticks of these. The uptrend of Market is computed beside them, from
-- bars alone. The others run on one Session: the
-- tables, Redis' set positions_active, and a clock of the calls so far. A query fails where the
-- environment says so (`faults`, by the number of the call) and then changes nothing; what is read
-- outside of the database (prices, the exchange, the runtime configuration) is a function of that
-- number, so it may differ from one read to the next. Proofs hold for every such environment.
--
-- Conventions: instants and durations are nanoseconds in ℕ, and a subtraction stops at 0, where Go's
-- would give a time before the epoch. A date is a number of days. Integers of a configuration that
-- the code compares with 0 are integers, others natural numbers; leverage keeps its conversion to an
-- int16, and consecutive_losses its smallint. An error is `none` or `false`, an outcome that the code
-- names by a text with a prefix is a constructor. Loops over lists are structural, and the retries
-- recurse on the list of their backoffs. The wait for a fill has 21 polls as its fuel, which is
-- enough: its ticker of half a second passes the deadline of ten seconds by then.
--
-- Not modelled: metrics, logs, alerts, audit rows and JSON; HTTP, signing and the forms of requests;
-- the collectors, streams, admin API and commands, which read or show what the parts above keep; the
-- context of a call, save in the wait for a fill, since its end is one more error of a request.
pub mod Prelude
pub mod Decimal
pub mod Binance
pub mod Storage
pub mod Decision
pub mod Signal
pub mod Market
pub mod Execution
pub mod Indicator
pub mod Examples
