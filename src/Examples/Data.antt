-- ===== src/Examples/Data.antt =====
-- A small database, and surroundings that answer every question.
use binance_oi_square_trader.Prelude.{
  ℕ, ◌-◌, ◌*◌, true, false, none, some, [], ◌∷◌, Time, hour, drop, pos,
}
use binance_oi_square_trader.Decimal.Fixed.{Fixed, from_int_fixed, fixed_decimal}
use binance_oi_square_trader.Storage.Breaker.{BreakerState}
use binance_oi_square_trader.Storage.Trades.{Trade, opened, algo, entering_row}
use binance_oi_square_trader.Storage.Db.{Db, Session}
use binance_oi_square_trader.Decision.Sizing.{TradingFilters, SizingConfig}
use binance_oi_square_trader.Decision.Filters.{FilterConfig}
use binance_oi_square_trader.Decision.Engine.{Signal, EngineConfig}
use binance_oi_square_trader.Decision.Postgres.{Surroundings}

abbrev pub whole : ℕ → Fixed
whole n = from_int_fixed (pos n)

-- n / 100
abbrev pub percent : ℕ → Fixed
percent n = pos (n * 1_000_000)

abbrev pub noon : Time
noon = 500_000 * hour

abbrev pub running : BreakerState Fixed
running = record {
  trading_halted = false;
  halt_reason = none;
  halt_until = none;
  daily_pnl = whole 0;
  daily_pnl_date = none;
  consecutive_losses = 0;
  last_btc_crash_ts = none;
  last_loss_at = none;
  consecutive_disaster_stop_failures = 0;
  last_disaster_stop_failed_ts = none;
}

abbrev pub halted_until : Time → BreakerState Fixed
halted_until t = record running {
  trading_halted = true;
  halt_reason = some "consecutive_losses";
  halt_until = some t;
}

abbrev pub btc_trade : Trade Fixed
btc_trade =
    let row : Trade Fixed = entering_row 1 (record {
      signal_id = 1;
      symbol = "BTCUSDT";
      direction = "LONG";
      margin = whole 50;
      notional = whole 500;
      leverage = pos 10;
      client_order_id = record { signal = 1; retry = 0 };
    }) in
    record row {
      status = opened;
      entry_ts = some (noon - 80 * hour);
      entry_price = some (whole 100);
      binance_disaster_stop_order_id = some (algo 7);
    }

abbrev pub empty_db : BreakerState Fixed → Db Fixed
empty_db breaker = record {
  breaker = breaker;
  trades = record { rows = []; next_id = 1 };
  trade_exits = [];
  position_states = [];
  halt_rca = [];
}

abbrev pub session_on : Db Fixed → Session Fixed
session_on db = record { db = db; faults = λ n. false; clock = 0; positions_active = [] }

-- one open trade of five coins
abbrev pub one_open : Trade Fixed → Session Fixed
one_open t =
    let db : Db Fixed = record (empty_db running) {
      trades = record { rows = t ∷ []; next_id = 2 };
      position_states =
          record {
            trade_id = 1;
            current_qty = some (whole 5);
            highest_price = some (whole 100);
            last_check_ts = some (noon - 80 * hour);
          }
          ∷ [];
    } in
    session_on db

abbrev pub filters : TradingFilters Fixed
filters = record {
  step_size = percent 10;
  min_qty = percent 10;
  min_notional = whole 5;
  tick_size = percent 1;
}

abbrev pub sizing_zero : SizingConfig Fixed
sizing_zero = record { full_margin_usdt = whole 0; half_margin_usdt = whole 0; leverage = pos 0 }

abbrev pub filter_zero : FilterConfig Fixed
filter_zero = record { btc_drop_threshold = whole 0; halt_duration = 0; position_limit = pos 0 }

abbrev pub engine_zero : EngineConfig Fixed
engine_zero = record { signal_window = 0; filter = filter_zero; sizing = sizing_zero }

abbrev pub eth_signal : ℕ → Signal
eth_signal id = record { id = id; symbol = "ETHUSDT"; decision = "entered_full" }

abbrev pub world_with : Fixed → Surroundings Fixed
world_with drop = record {
  btc_regime = λ n. some drop;
  recent_signals = λ n since. some (eth_signal 1 ∷ eth_signal 2 ∷ []);
  latest_close = λ n symbol. some (whole 100);
  trading_filters = λ n symbol. some filters;
  in_cooldown = λ n symbol. false;
}
