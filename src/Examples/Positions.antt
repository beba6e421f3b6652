-- ===== src/Examples/Positions.antt =====
-- An open trade that is closed, and one whose trailing stop moves.
use binance_oi_square_trader.Execution.Trail.Sweep.{Issues, IsTrailing, reconcile_tick-IsTrailing}
use binance_oi_square_trader.Prelude.{
  ◌≤◌, arith, ℕ, All, inl, refl, ◌-◌, ◌*◌, true, none, some, [], ◌∷◌, hour,
}
use binance_oi_square_trader.Examples.Data.{noon, whole, percent, btc_trade, one_open}
use binance_oi_square_trader.Decimal.Fixed.{Fixed, fixed_decimal, Fixed-IsDecimal}
use binance_oi_square_trader.Storage.Trades.{algo}
use binance_oi_square_trader.Execution.Exit.{ExitWorld, ExitRow, hard_timeout}
use binance_oi_square_trader.Execution.Exit.Close.{close_position}
use binance_oi_square_trader.Execution.Exit.Closing.{Closes, close_position-Closes}
use binance_oi_square_trader.Execution.Trail.{TrailWorld, TrailConfig, TrailRow}
use binance_oi_square_trader.Execution.Trail.Upgrade.{reconcile_tick, handle_row}
use binance_oi_square_trader.Execution.Trail.Stages.{Steps, handle_row-Steps}

abbrev pub exchange : ExitWorld Fixed
exchange = record {
  now = λ n. noon;
  database_now = λ n. noon;
  latest_price = λ n symbol. some (whole 90);
  cancel_algo_order = λ n symbol id. true;
  place_market_order_reduce_only = λ n symbol qty. some (record {
    order_id = 9;
    client_order_id = "exit_1_0";
    symbol = symbol;
    status = "FILLED";
    avg_price = whole 90;
    executed_qty = qty;
    cum_quote = whole 450;
    update_time = noon;
  });
  fees_fetcher = true;
  get_user_trades = λ n symbol order. some (percent 18 ∷ []);
}

abbrev pub exit_of_btc : ExitRow Fixed
exit_of_btc = record {
  id = 1;
  symbol = "BTCUSDT";
  entry_ts = some (noon - 80 * hour);
  entry_price = some (whole 100);
  binance_disaster_stop_order_id = some (algo 7);
  initial_oi = none;
  exit_reason = none;
  current_qty = some (whole 5);
}

close_position-Closes_example :
    Closes exchange exit_of_btc hard_timeout
      (one_open btc_trade)
      (close_position exchange exit_of_btc hard_timeout (one_open btc_trade))
close_position-Closes_example =
    close_position-Closes exchange exit_of_btc hard_timeout (one_open btc_trade)

abbrev trail_config : TrailConfig Fixed
trail_config = record {
  stage1_activate_pct = percent 3;
  stage1_callback_rate = percent 3;
  stage2_upgrade_pct = percent 15;
  stage2_callback_rate = percent 5;
  stage3_upgrade_pct = percent 30;
  stage3_callback_rate = percent 10;
  stage4_upgrade_pct = percent 60;
  stage4_callback_rate = percent 15;
  ratchet_min_pct = percent 1;
}

abbrev rising : TrailWorld Fixed
rising = record {
  runtime = λ n. none;
  latest_price = λ n symbol. some (whole 140);
  tick_size = λ n symbol. some (percent 1);
  place_algo_trailing_stop = λ n symbol qty price rate. some 21;
  place_algo_conditional_stop = λ n symbol qty price. some 22;
  cancel_algo_order = λ n symbol id. true;
}

abbrev trail_of_btc : TrailRow Fixed
trail_of_btc = record {
  id = 1;
  symbol = "BTCUSDT";
  entry_price = some (whole 100);
  trail_stage = 2;
  binance_trail_algo_id = some (algo 20);
  trail_high_price = some (whole 120);
  current_qty = some (whole 5);
}

handle_row-Steps_example :
    Steps Fixed-IsDecimal rising trail_config trail_of_btc
      (one_open btc_trade)
      (handle_row rising trail_config trail_of_btc (one_open btc_trade))
handle_row-Steps_example =
    handle_row-Steps Fixed-IsDecimal rising trail_config trail_of_btc (one_open btc_trade)

abbrev FromTwenty : ℕ → Type 0
FromTwenty id = 20 ≤ id

rising-Issues : Issues FromTwenty rising
rising-Issues = record {
  trailing_stop = λ n symbol qty activation rate id h. ground arith;
  conditional_stop = λ n symbol qty stop id h. ground arith;
}

reconcile_tick-IsTrailing_example :
    All
      (IsTrailing FromTwenty)
      (reconcile_tick rising trail_config (one_open btc_trade)).db.trades.rows
reconcile_tick-IsTrailing_example =
    reconcile_tick-IsTrailing FromTwenty rising rising-Issues Fixed-IsDecimal trail_config
      (one_open btc_trade) ((omega arith, inl refl), tt)

abbrev refusing : ExitWorld Fixed
refusing = record exchange { place_market_order_reduce_only = λ n symbol qty. none }
