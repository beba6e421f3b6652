-- ===== src/Storage/Trades/Columns.antt =====
-- internal/storage/postgres/gen/trades.sql.go: the statements that set single columns of a trade,
-- as what they make of the row.
use binance_oi_square_trader.Prelude.{
  ◌+◌, String, Bool, true, false, ◌&&◌, Option, none, some, str_eq, Time, second, if◌then◌else◌,
}
use binance_oi_square_trader.Storage.Trades.{
  AlgoText, ClientOrderId, Trade, Status, entering, failed,
}

abbrev is_tp : String → String → Bool
is_tp kind name = str_eq kind name

is_null_time : Option Time → Bool
is_null_time none = true
is_null_time (some _) = false

is_null_id : Option ClientOrderId → Bool
is_null_id none = true
is_null_id (some _) = false

is_entering : Status → Bool
is_entering entering = true
is_entering _ = false

module _ {D : Type 0} where
  unfoldable pub update_trade_disaster_stop : AlgoText → Trade D → Trade D
  update_trade_disaster_stop id t = record t { binance_disaster_stop_order_id = some id }

  unfoldable pub update_trade_initial_disaster_levels : D → Option D → Trade D → Trade D
  update_trade_initial_disaster_levels stop atr t = record t {
    initial_stop_loss = some stop;
    initial_atr = atr;
  }

  unfoldable pub update_trade_initial_tp_levels : Option D → Option D → Trade D → Trade D
  update_trade_initial_tp_levels first second t = record t {
    initial_take_profit_1 = first;
    initial_take_profit_2 = second;
  }

  unfoldable pub update_trade_tp_algos : Option AlgoText → Option AlgoText → Trade D → Trade D
  update_trade_tp_algos first second t = record t {
    binance_tp1_algo_id = first;
    binance_tp2_algo_id = second;
  }

  unfoldable pub update_initial_oi : D → Trade D → Trade D
  update_initial_oi oi t = record t { initial_oi = some oi }

  -- the two CASE expressions
  unfoldable pub clear_tp_algo_id : String → Trade D → Trade D
  clear_tp_algo_id kind t = record t {
    binance_tp1_algo_id = if is_tp kind "tp1" then none else t.binance_tp1_algo_id;
    binance_tp2_algo_id = if is_tp kind "tp2" then none else t.binance_tp2_algo_id;
  }

  unfoldable pub clear_trail_algo_id : Trade D → Trade D
  clear_trail_algo_id t = record t { binance_trail_algo_id = none }

  unfoldable pub clear_disaster_stop_order_id : Trade D → Trade D
  clear_disaster_stop_order_id t = record t { binance_disaster_stop_order_id = none }

  unfoldable pub bump_trade_retry_count : ClientOrderId → Trade D → Trade D
  bump_trade_retry_count c t = record t {
    retry_count = t.retry_count + 1;
    client_order_id = some c;
  }

  unfoldable pub update_trade_client_order_id : ClientOrderId → Trade D → Trade D
  update_trade_client_order_id c t = record t { client_order_id = some c }

  -- CleanupOrphanEnteringTrades, at one row; `now` is the statement's NOW()
  unfoldable pub cleanup_orphan_entering_trade : Time → Trade D → Trade D
  unfolding is_null_time is_null_id is_entering
  cleanup_orphan_entering_trade now t =
      if is_entering t.status && is_null_time t.entry_ts && is_null_id t.client_order_id
      then record t {
        status = failed;
        exit_reason = some "orphan_cleanup_startup";
        exit_ts = some now;
      }
      else t
