-- ===== src/Decision/Engine.antt =====
-- internal/decision/engine.go: one tick over the recent entered signals. An outcome is a value of
-- `Outcome`; the source writes `rejected_` or `sizing_` before the reason.
pub mod Accounts
use binance_oi_square_trader.Prelude.{
  ℕ, ◌+◌, ◌-◌, ◌*◌, String, Bool, false, not, Option, none, some, List, [], ◌∷◌, ◌++◌, Time,
  Duration, minute, Effect, pure, ◌>>=◌, ◌>>◌, on_error, length, ◌==◌, if◌then◌else◌,
}
use binance_oi_square_trader.Decimal.{Decimal}
use binance_oi_square_trader.Storage.Trades.{NewTrade}
use binance_oi_square_trader.Decision.Sizing.{
  SizingConfig, SizingResult, TradingFilters, zero_price, zero_step_size, size_trade, no_sizing,
}
use binance_oi_square_trader.Decision.Filters.{
  FilterDeps, FilterConfig, FilterResult, evaluate_global_filters, maintain_halt_state,
}

-- gen.GetRecentEnteredSignalsRow
pub record Signal : Type 0 where
  pub id : ℕ
  pub symbol : String
  pub decision : String

pub record EngineDeps (D S : Type 0) : Type 0 where
  pub filter_deps : FilterDeps D S
  pub get_recent_entered_signals : Time → Effect S (Option (List Signal))
  pub get_latest_close : String → Effect S (Option D)
  pub get_trading_filters : String → Effect S (Option (TradingFilters D))
  pub insert_entering_trade : NewTrade D → Effect S (Option ℕ)
  -- the optional probe of the configuration, which answers no where it is nil
  pub is_in_entry_cooldown : String → Effect S Bool

pub record EngineConfig (D : Type 0) : Type 0 where
  pub signal_window : Duration
  pub filter : FilterConfig D
  pub sizing : SizingConfig D

pub data Outcome : Type 0 where
  trade_entering internal_error : Outcome
  rejected sizing : String → Outcome

pub record EvaluateResult (D : Type 0) : Type 0 where
  pub signal : Signal
  pub outcome : Outcome
  -- 0 until a trade is written
  pub trade_id : ℕ
  pub filter : FilterResult
  pub sizing : SizingResult D

pub record TickStats : Type 0 where
  pub signals_read : ℕ
  pub trade_entering : ℕ
  pub rejected_by_filter : ℕ
  pub rejected_by_sizing : ℕ
  pub internal_error : ℕ

pub record TickReport (D : Type 0) : Type 0 where
  pub stats : TickStats
  pub results : List (EvaluateResult D)

abbrev pub no_filter : FilterResult
no_filter = record { passed = false; reason = "" }

abbrev pub no_stats : TickStats
no_stats = record {
  signals_read = 0;
  trade_entering = 0;
  rejected_by_filter = 0;
  rejected_by_sizing = 0;
  internal_error = 0;
}

-- the counter of the outcome
unfoldable pub count_outcome : Outcome → TickStats → TickStats
count_outcome trade_entering s = record s { trade_entering = s.trade_entering + 1 }
count_outcome internal_error s = record s { internal_error = s.internal_error + 1 }
count_outcome (rejected _) s = record s { rejected_by_filter = s.rejected_by_filter + 1 }
count_outcome (sizing _) s = record s { rejected_by_sizing = s.rejected_by_sizing + 1 }

module _ {D : Type 0} ⦃d : Decimal D⦄ where
  abbrev pub engine_defaults : EngineConfig D → EngineConfig D
  engine_defaults cfg = record cfg {
    signal_window = if cfg.signal_window == 0 then 5 * minute else cfg.signal_window;
  }

  abbrev pub fresh_result : Signal → EvaluateResult D
  fresh_result signal = record {
    signal = signal;
    outcome = internal_error;
    trade_id = 0;
    filter = no_filter;
    sizing = no_sizing;
  }

  -- the end of EvaluateOne; `none`, the error of the sizing, becomes `internal_error`
  unfoldable pub sized_outcome : EvaluateResult D → Option (SizingResult D) → EvaluateResult D
  sized_outcome res none = record res { outcome = internal_error }
  sized_outcome res (some r) = record res {
    sizing = r;
    outcome = if r.ok then trade_entering else sizing r.reason;
  }

  abbrev pub new_trade : EvaluateResult D → NewTrade D
  new_trade r = record {
    signal_id = r.signal.id;
    symbol = r.signal.symbol;
    direction = "LONG";
    margin = r.sizing.margin;
    notional = r.sizing.notional;
    leverage = r.sizing.leverage;
    client_order_id = record { signal = r.signal.id; retry = 0 };
  }

  abbrev pub append : EvaluateResult D → TickReport D → TickReport D
  append r report = record {
    stats = count_outcome r.outcome report.stats;
    results = report.results ++ r ∷ [];
  }

  module _ {S : Type 0} (deps : EngineDeps D S) where
    open deps use {
      filter_deps, get_recent_entered_signals, get_latest_close, get_trading_filters,
      insert_entering_trade, is_in_entry_cooldown,
    }

    unfoldable pub size_signal :
        Signal → EngineConfig D → EvaluateResult D → Effect S (EvaluateResult D)
    size_signal signal cfg res = do
      price_read ← get_latest_close signal.symbol
      on_error price_read (pure (record res { outcome = sizing zero_price })) λ price. do
        filters_read ← get_trading_filters signal.symbol
        on_error filters_read (pure (record res { outcome = sizing zero_step_size })) λ filters.
            pure (sized_outcome res (size_trade signal.decision price filters cfg.sizing))

    unfoldable pub filter_signal : Signal → Time → EngineConfig D → Effect S (EvaluateResult D)
    filter_signal signal now cfg = do
      filter ← evaluate_global_filters filter_deps signal.symbol now cfg.filter
      let res = record (fresh_result signal) { filter = filter }
      if not filter.passed
          then pure (record res { outcome = rejected filter.reason })
          else size_signal signal cfg res

    -- An error of the source is the outcome `internal_error`, which its one caller gives to it.
    unfoldable pub evaluate_one : Signal → Time → EngineConfig D → Effect S (EvaluateResult D)
    evaluate_one signal now config = do
      let cfg = engine_defaults config
      cooling ← is_in_entry_cooldown signal.symbol
      if cooling
          then pure (record (fresh_result signal) { outcome = rejected "entry_cooldown" })
          else filter_signal signal now cfg

    unfoldable pub write_trade : EvaluateResult D → Effect S (EvaluateResult D)
    write_trade result = do
      written ← insert_entering_trade (new_trade result)
      on_error written (pure (record result { outcome = internal_error }))
          λ id. pure (record result { trade_id = id })

    abbrev pub act : Outcome → EvaluateResult D → Effect S (EvaluateResult D)
    act trade_entering result = write_trade result
    act _ result = pure result

    -- the body of the loop: evaluate, and write the trade of an accepted signal
    unfoldable pub process : Signal → Time → EngineConfig D → Effect S (EvaluateResult D)
    unfolding write_trade
    process signal now cfg = do result ← evaluate_one signal now cfg; act result.outcome result

    unfoldable pub run_signals :
        List Signal → Time → EngineConfig D → TickReport D → Effect S (TickReport D)
    run_signals [] now cfg report s = (report, s)
    run_signals (signal ∷ signals) now cfg report s =
        let (result, s') = process signal now cfg s in
        run_signals signals now cfg (append result report) s'

    -- the part of RunTick behind the query of the signals; `none` is the error of that query
    unfoldable pub tick_over :
        Option (List Signal) → Time → EngineConfig D → Effect S (Option (TickReport D))
    tick_over none now cfg = pure none
    tick_over (some signals) now cfg = do
      report ←
          run_signals signals now cfg
            (record { stats = record no_stats { signals_read = length signals }; results = [] })
      pure (some report)

    unfoldable pub run_tick : Time → EngineConfig D → Effect S (Option (TickReport D))
    run_tick now config = do
      let cfg = engine_defaults config
      maintain_halt_state filter_deps now
      read ← get_recent_entered_signals (now - cfg.signal_window)
      tick_over read now cfg
