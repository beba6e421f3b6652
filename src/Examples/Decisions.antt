-- ===== src/Examples/Decisions.antt =====
-- The decision engine and the rows it keeps, on the small database.
use binance_oi_square_trader.Prelude.{
  ◌⊎◌, ℕ, ◌+◌, ◌*◌, ◌≤◌, ◌≡◌, refl, true, false, some, [], ◌∷◌, ◌++◌, arith, hour, length, pos,
  neg_ℤ,
}
use binance_oi_square_trader.Examples.Data.{
  noon, running, halted_until, whole, percent, empty_db, session_on, filters, sizing_zero,
  filter_zero, engine_zero, eth_signal, world_with,
}
use binance_oi_square_trader.Decimal.Fixed.{Fixed, fixed_decimal, Fixed-IsDecimal}
use binance_oi_square_trader.Storage.Breaker.{
  BreakerState, update_after_trade_close, update_daily_pnl_partial,
}
use binance_oi_square_trader.Storage.Breaker.Backoff.{fail_at, fail_at-backoff}
use binance_oi_square_trader.Storage.Breaker.Losses.{
  terminal, partly, roll, roll_all, terminals, roll_all-losing_streak,
}
use binance_oi_square_trader.Storage.Trades.{
  count_active, has_active_position, has_client_order_id, insert_entering_trade,
}
use binance_oi_square_trader.Storage.Trades.Active.{OnePerSymbol}
use binance_oi_square_trader.Storage.Db.{Session, outside, select, exec, query}
use binance_oi_square_trader.Decision.Sizing.{
  SizingResult, size_trade, IsTradable, margin_for, sizing_defaults, size_trade-IsTradable, sized,
  bad_config, step_round_down, checked,
}
use binance_oi_square_trader.Decision.Filters.{
  filter_defaults, evaluate_global_filters, maintain_halt_state, step_circuit_breaker, check_btc,
  step_position_limit, step_active_position,
}
use binance_oi_square_trader.Decision.Engine.{
  run_tick, evaluate_one, filter_signal, size_signal, process, write_trade, run_signals, tick_over,
  sized_outcome, count_outcome, EvaluateResult, TickReport, fresh_result, no_stats, rejected,
}
use binance_oi_square_trader.Decision.Engine.Accounts.{counted, run_tick-accounts}
use binance_oi_square_trader.Decision.Postgres.{
  postgres_engine, postgres_filters, insert_trade, to_int16,
}
use binance_oi_square_trader.Decision.Postgres.Gates.{
  IsUnder, ReadCalm, evaluate_global_filters-passed, evaluate_global_filters-btc_calm,
}
use binance_oi_square_trader.Decision.Postgres.Ticks.{
  run_tick-position_limit, run_tick-OnePerSymbol, run_tick-halted,
}

abbrev calm : Session Fixed
calm = session_on (empty_db running)

abbrev halted : Session Fixed
halted = session_on (empty_db (halted_until (noon + hour)))

-- both signals of the tick are of one symbol, and one trade is written
two_signals :
    count_active
      (run_tick (postgres_engine (world_with (whole 0))) noon engine_zero calm).1.db.trades.rows
    ≡ 1
unfolding run_tick evaluate_one evaluate_global_filters maintain_halt_state step_circuit_breaker
    check_btc step_position_limit step_active_position filter_defaults filter_signal size_signal
    size_trade process write_trade run_signals tick_over sized_outcome sized margin_for
    sizing_defaults bad_config insert_trade insert_entering_trade count_active has_active_position
    has_client_order_id outside select exec query step_round_down checked count_outcome to_int16
two_signals = refl

run_tick-position_limit_example :
    count_active
      (run_tick (postgres_engine (world_with (whole 0))) noon engine_zero calm).1.db.trades.rows
    ≤ 5
unfolding filter_defaults count_active
run_tick-position_limit_example =
    run_tick-position_limit (world_with (whole 0)) noon engine_zero calm 5 (omega arith)
      (omega arith)

run_tick-OnePerSymbol_example :
    OnePerSymbol
      (run_tick (postgres_engine (world_with (whole 0))) noon engine_zero calm).1.db.trades.rows
run_tick-OnePerSymbol_example =
    run_tick-OnePerSymbol (world_with (whole 0)) noon engine_zero calm tt

run_tick-halted_example :
    (run_tick (postgres_engine (world_with (whole 0))) noon engine_zero halted).1.db ≡ halted.db
run_tick-halted_example = run_tick-halted (world_with (whole 0)) noon engine_zero halted refl refl

abbrev refused : ℕ → EvaluateResult Fixed
refused id = record (fresh_result (eth_signal id)) {
  filter = record { passed = false; reason = "consecutive_losses" };
  outcome = rejected "consecutive_losses";
}

abbrev halted_report : TickReport Fixed
halted_report = record {
  stats = record no_stats { signals_read = 2; rejected_by_filter = 2 };
  results = refused 1 ∷ refused 2 ∷ [];
}

run_tick-accounts_example :
    (counted halted_report.stats ≡ length halted_report.results)
    × (halted_report.stats.signals_read ≡ length halted_report.results)
unfolding run_tick evaluate_one evaluate_global_filters maintain_halt_state step_circuit_breaker
    filter_defaults filter_signal process write_trade run_signals tick_over outside select exec
    query count_outcome
run_tick-accounts_example =
    run_tick-accounts (postgres_engine (world_with (whole 0))) noon engine_zero halted
      {report = halted_report} refl

evaluate_global_filters-passed_example :
    let s' =
      (evaluate_global_filters
        (postgres_filters (world_with (whole 0)))
        "ETHUSDT"
        noon
        filter_zero
        calm).1 in
    (s'.db.breaker.trading_halted ≡ false)
    × IsUnder (count_active s'.db.trades.rows) (filter_defaults filter_zero).position_limit
    × (has_active_position s'.db.trades.rows "ETHUSDT" ≡ false)
    × (s'.db.trades ≡ calm.db.trades)
unfolding evaluate_global_filters step_circuit_breaker check_btc step_position_limit
    step_active_position filter_defaults count_active has_active_position outside select exec query
evaluate_global_filters-passed_example =
    evaluate_global_filters-passed (world_with (whole 0)) "ETHUSDT" noon filter_zero calm refl

evaluate_global_filters-btc_calm_example :
    ReadCalm (world_with (whole 0)) (filter_defaults filter_zero) (calm.clock + 1)
    ⊎ ReadCalm (world_with (whole 0)) (filter_defaults filter_zero) (calm.clock + 1 + 1)
unfolding evaluate_global_filters step_circuit_breaker select check_btc outside filter_defaults
    step_position_limit count_active step_active_position has_active_position
evaluate_global_filters-btc_calm_example =
    evaluate_global_filters-btc_calm (world_with (whole 0)) "ETHUSDT" noon filter_zero calm refl

abbrev full_size : SizingResult Fixed
full_size = record {
  ok = true;
  reason = "";
  quantity = whole 5;
  margin = whole 50;
  notional = whole 500;
  target_notional = whole 500;
  entry_price = whole 100;
  leverage = pos 10;
  tick_size = percent 1;
  step_size = percent 10;
}

size_trade-IsTradable_example :
    IsTradable (whole 100) filters full_size
    × (margin_for "entered_full" (sizing_defaults sizing_zero) ≡ some full_size.margin)
    × (full_size.leverage ≡ (sizing_defaults sizing_zero).leverage)
unfolding size_trade sizing_defaults bad_config margin_for sized checked step_round_down
size_trade-IsTradable_example =
    size_trade-IsTradable Fixed-IsDecimal "entered_full" (whole 100) filters sizing_zero refl refl

abbrev failing : BreakerState Fixed
failing = record running { last_disaster_stop_failed_ts = some noon }

fail_at-backoff_example :
    let s' = fail_at (((noon + hour) ∷ []) ++ (noon + 2 * hour) ∷ []) failing in
    (s'.consecutive_disaster_stop_failures ≡ 2)
    × (s'.halt_until ≡ some (noon + 2 * hour + 4 * hour))
    × (s'.trading_halted ≡ true)
fail_at-backoff_example =
    fail_at-backoff noon ((noon + hour) ∷ []) (noon + 2 * hour) failing refl refl
      (omega arith, (omega arith, tt))

abbrev minus_ten : Fixed
minus_ten = neg_ℤ (whole 10)

abbrev after_losses : BreakerState Fixed
after_losses = record running {
  consecutive_losses = 1;
  daily_pnl = neg_ℤ (whole 6);
  daily_pnl_date = some 7;
  last_loss_at = some noon;
}

roll_all-losing_streak_example : after_losses.consecutive_losses ≡ 1
unfolding roll_all roll update_after_trade_close update_daily_pnl_partial terminals
roll_all-losing_streak_example =
    roll_all-losing_streak (whole 3) 7 noon (terminal minus_ten 7 noon ∷ partly (whole 1) 7 ∷ [])
      running after_losses refl (refl, (tt, tt)) refl
