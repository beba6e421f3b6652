-- ===== src/Examples/Entries.antt =====
-- An entry whose stop is accepted, and one whose stop is refused.
use mathlib.Core.List.{Memᴰ}
use binance_oi_square_trader.Prelude.{
  List, ◌∷◌, ◌++◌, ◌+◌, ◌*◌, ◌≡◌, refl, inl, Bool, false, none, some, [], arith, All, pos,
}
use binance_oi_square_trader.Decimal.Fixed.{Fixed, fixed_decimal, Fixed-IsDecimal}
use binance_oi_square_trader.Examples.Data.{noon, whole, percent, btc_trade, one_open}
use binance_oi_square_trader.Binance.Orders.{OrderResult}
use binance_oi_square_trader.Storage.Trades.{entering}
use binance_oi_square_trader.Execution.Entry.{
  EntryConfig, EntryWorld, Executor, Call, max_stop_pct, stop_pct_of, market_sell, trailing_stop,
  trail_stage1_activate_pct, trail_stage1_callback_rate,
}
use binance_oi_square_trader.Execution.Entry.Bounds.{Within, stop_pct_of-Within}
use binance_oi_square_trader.Execution.Entry.Fill.{wait_fill}
use binance_oi_square_trader.Execution.Entry.Fill.Ending.{Ends, wait_fill-Ends}
use binance_oi_square_trader.Execution.Entry.Placing.{Entry, place_entry, protect}
use binance_oi_square_trader.Execution.Entry.Placing.Guarded.{
  Guarded, bought as after_buy, place_entry-Guarded,
}
use binance_oi_square_trader.Execution.Entry.Placing.Stopped.{HasStop, rows}
use binance_oi_square_trader.Execution.Entry.Placing.Invariant.{place_entry-HasStop}
use binance_oi_square_trader.Execution.Entry.Placing.Refused.{protect-trailing_after_sell}

abbrev bought : OrderResult Fixed
bought = record {
  order_id = 3;
  client_order_id = "t1_r0";
  symbol = "BTCUSDT";
  status = "FILLED";
  avg_price = whole 100;
  executed_qty = whole 5;
  cum_quote = whole 500;
  update_time = noon;
}

-- an order that is not filled at once
abbrev accepted : OrderResult Fixed
accepted = record bought { status = "NEW"; avg_price = whole 0 }

abbrev entry_config : EntryConfig Fixed
entry_config = record {
  disaster_stop_pct = percent 6;
  atr_stop_mult = whole 2;
  min_stop_pct = percent 3;
  max_stop_pct = percent 10;
  leverage = pos 10;
  trail_stage1_activate_pct = percent 3;
  trail_stage1_callback_rate = percent 3;
  tp1_pct = percent 10;
  tp1_ratio = percent 20;
  tp2_pct = percent 25;
  tp2_ratio = percent 20;
}

abbrev calm : EntryWorld Fixed
calm = record {
  now = λ n. noon;
  database_now = λ n. noon;
  runtime = λ n. none;
  atr = λ n symbol. some (whole 2);
  set_margin_type = λ n symbol. some tt;
  set_leverage = λ n symbol times. some tt;
  place_market_buy = λ n symbol qty id. some bought;
  cancel_order = λ n symbol id. some tt;
  tick = λ n k. noon + k * 500_000_000;
  context_done = λ n k. false;
  get_order = λ n symbol id. some bought;
  get_position_risk = λ n symbol. some [];
  place_algo_conditional_stop = λ n symbol qty price. some 31;
  place_algo_trailing_stop = λ n symbol qty price rate. some 32;
  place_algo_take_profit = λ n symbol qty price. some 33;
  place_market_order_reduce_only = λ n symbol qty. some bought;
  get_open_interest = λ n symbol. some (whole 1000);
}

abbrev without_stops : EntryWorld Fixed
without_stops = record calm { place_algo_conditional_stop = λ n symbol qty price. none }

abbrev entry_of_btc : Entry Fixed
entry_of_btc = record {
  trade_id = 1;
  signal_id = 1;
  symbol = "BTCUSDT";
  qty = whole 5;
  tick_size = percent 1;
  step_size = percent 10;
}

abbrev starting : Executor Fixed
starting = record {
  session = one_open (record btc_trade {
    status = entering;
    entry_ts = none;
    entry_price = none;
    binance_disaster_stop_order_id = none;
  });
  sent = [];
  entry_cooldown = λ symbol. none;
}

place_entry-Guarded_example :
    Guarded calm entry_config entry_of_btc bought
      (wait_fill calm "BTCUSDT" bought (after_buy calm entry_config entry_of_btc starting)).0
      (place_entry calm entry_config entry_of_btc starting)
place_entry-Guarded_example =
    place_entry-Guarded calm entry_config (λ n k. omega arith) entry_of_btc starting tt tt bought
      refl refl refl

place_entry-HasStop_example :
    All HasStop (rows (place_entry calm entry_config entry_of_btc starting))
place_entry-HasStop_example =
    place_entry-HasStop calm entry_config entry_of_btc starting (λ n. refl) (inl refl, tt)

wait_fill-Ends_example : Ends (wait_fill calm "BTCUSDT" accepted starting).0
wait_fill-Ends_example = wait_fill-Ends calm (λ n k. omega arith) "BTCUSDT" accepted starting

protect-trailing_after_sell_example :
    (newer : List (Call Fixed)) × (older : List (Call Fixed)) × (activation : Fixed)
    × (rate : Fixed) × (placed : Bool) × (sold : Bool) × ((protect without_stops entry_config
          entry_of_btc
          (whole 5)
          (whole 100)
          starting).sent
        ≡ newer
          ++ (record {
            request = trailing_stop "BTCUSDT" (whole 5) activation rate;
            accepted = placed;
          }
              ∷ older))
    × Memᴰ (record { request = market_sell "BTCUSDT" (whole 5); accepted = sold }) older
unfolding trail_stage1_activate_pct trail_stage1_callback_rate
protect-trailing_after_sell_example =
    protect-trailing_after_sell without_stops entry_config entry_of_btc (whole 5) (whole 100)
      starting (λ n stop. refl) (λ n. refl) (λ n. refl)

stop_pct_of-Within_example :
    Within Fixed-IsDecimal
      (percent 6)
      (percent 3)
      (max_stop_pct none entry_config)
      (stop_pct_of none entry_config (whole 100) (some (whole 2)))
unfolding max_stop_pct
stop_pct_of-Within_example =
    stop_pct_of-Within Fixed-IsDecimal none entry_config (whole 100) (some (whole 2)) refl
