-- ===== src/Examples/Trips.antt =====
-- Ticks of the circuit breaker.
use binance_oi_square_trader.Prelude.{◌≡◌, refl, true, none, some, pos, neg_ℤ}
use binance_oi_square_trader.Examples.Data.{
  noon, running, halted_until, whole, percent, empty_db, session_on,
}
use binance_oi_square_trader.Decimal.Fixed.{Fixed, fixed_decimal}
use binance_oi_square_trader.Storage.Breaker.{BreakerState}
use binance_oi_square_trader.Storage.Db.{Session, outside, select, query}
use binance_oi_square_trader.Execution.Breaker.{
  TripWorld, CircuitBreakerConfig, thresholds, is_loss_over, sum_open_unrealized_snapshot,
}
use binance_oi_square_trader.Execution.Breaker.Tick.{
  fetch_balance, sum_unrealized, update_unrealized_gauge, update_btc_drop_gauge,
  trip_api_error_rate, trip_consecutive_losses, trip_daily_loss, trip_total_float_loss,
  trip_btc_crash, evaluate_trips, evaluate_all,
}
use binance_oi_square_trader.Execution.Breaker.Trips.{
  IsHaltedBy, evaluate_all-quiet, evaluate_all-IsHaltedBy, evaluate_trips-any_day,
}

abbrev limits : CircuitBreakerConfig Fixed
limits = record {
  daily_loss_halt_pct = percent 8;
  consecutive_loss_count = pos 8;
  btc_crash_halt_pct = percent 3;
  total_float_loss_halt_pct = percent 12;
  api_error_rate_limit = pos 3;
}

abbrev quiet_world : TripWorld Fixed
quiet_world = record {
  now = λ n. noon;
  runtime = λ n. none;
  usdt_balance = λ n. some (whole 1000);
  count_api_errors_since = λ n since. some 0;
  latest_price = λ n symbol. none;
  latest_btc_klines = λ n. none;
}

-- a loss of 90 that stands in the row since an earlier day
abbrev stale : BreakerState Fixed
stale = record running { daily_pnl = neg_ℤ (whole 90); daily_pnl_date = some 20_000 }

evaluate_all-quiet_example :
    (evaluate_all quiet_world limits (session_on (empty_db running))).1.db ≡ empty_db running
unfolding evaluate_all evaluate_trips fetch_balance update_unrealized_gauge sum_unrealized
    update_btc_drop_gauge trip_api_error_rate trip_consecutive_losses trip_daily_loss
    trip_total_float_loss trip_btc_crash thresholds is_loss_over outside select query
    sum_open_unrealized_snapshot
evaluate_all-quiet_example =
    evaluate_all-quiet quiet_world limits (session_on (empty_db running)) refl

evaluate_all-IsHaltedBy_example :
    IsHaltedBy quiet_world limits (evaluate_all quiet_world limits (session_on (empty_db stale))).1
unfolding evaluate_all evaluate_trips fetch_balance update_unrealized_gauge sum_unrealized
    update_btc_drop_gauge trip_api_error_rate trip_consecutive_losses trip_daily_loss
    trip_total_float_loss trip_btc_crash thresholds is_loss_over outside select query
    sum_open_unrealized_snapshot
evaluate_all-IsHaltedBy_example =
    evaluate_all-IsHaltedBy quiet_world limits (session_on (empty_db stale)) (λ n. refl) refl

abbrev halted : Session Fixed
halted = session_on (empty_db (halted_until noon))

evaluate_trips-any_day_example :
    (evaluate_trips quiet_world limits stale
      (some (whole 1000))
      (whole 0)
      none
      (session_on (empty_db stale))).0
    ≡ true
unfolding thresholds is_loss_over
evaluate_trips-any_day_example =
    evaluate_trips-any_day quiet_world limits stale (whole 1000) (whole 0) none
      (session_on (empty_db stale)) refl
