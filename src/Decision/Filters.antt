-- ===== src/Decision/Filters.antt =====
-- internal/decision/filters.go: the global filters of an entry. The interface `FilterDeps` of the
-- source is the record `FilterDeps`; `none` and `false` are the errors of its methods. Counters of
-- metrics are left out.
use binance_oi_square_trader.Prelude.{
  ℕ, ℤ, pos, eq_ℤ, leb_ℤ, ◌+◌, ◌*◌, String, Bool, true, false, not, ◌&&◌, ◌||◌, Option, none, some,
  str_eq, Time, Duration, minute, Effect, pure, ◌>>=◌, ◌>>◌, on_error, ltb, ◌==◌, if◌then◌else◌,
}
use binance_oi_square_trader.Decimal.{Decimal}
use binance_oi_square_trader.Storage.Breaker.{BreakerState}

pub record FilterDeps (D S : Type 0) : Type 0 where
  pub get_btc_regime : Effect S (Option D)
  pub get_state : Effect S (Option (BreakerState D))
  pub trip_btc_halt : Time → Time → Effect S Bool
  pub reset_halt : Effect S Bool
  pub count_active : Effect S (Option ℕ)
  pub has_active_position : String → Effect S (Option Bool)

pub record FilterResult : Type 0 where
  pub passed : Bool
  pub reason : String

pub record FilterConfig (D : Type 0) : Type 0 where
  pub btc_drop_threshold : D
  pub halt_duration : Duration
  -- an int, which may be negative
  pub position_limit : ℤ

abbrev reject : String → FilterResult
reject reason = record { passed = false; reason = reason }

abbrev passes : FilterResult
passes = record { passed = true; reason = "" }

-- the label of a halt, by its `halt_reason` or a text for NULL and the empty one
halt_label : String → Option String → String
halt_label otherwise none = otherwise
halt_label otherwise (some r) = if str_eq r "" then otherwise else r

-- `HaltUntil.Valid && now.After(HaltUntil.Time)`
abbrev pub is_over : Option Time → Time → Bool
is_over none now = false
is_over (some t) now = ltb t now

module _ {D : Type 0} ⦃d : Decimal D⦄ where
  unfoldable pub filter_defaults : FilterConfig D → FilterConfig D
  filter_defaults cfg = record {
    btc_drop_threshold =
        if d.is_zero cfg.btc_drop_threshold then d.from_float 3 2 else cfg.btc_drop_threshold;
    halt_duration = if cfg.halt_duration == 0 then 30 * minute else cfg.halt_duration;
    position_limit = if eq_ℤ cfg.position_limit (pos 0) then pos 5 else cfg.position_limit;
  }

  module _ {S : Type 0} (deps : FilterDeps D S) where
    open deps use {
      get_btc_regime, get_state, trip_btc_halt, reset_halt, count_active, has_active_position,
    }

    unfoldable pub maintain_halt_state : Time → Effect S (Unit {0})
    maintain_halt_state now = do
      read ← get_state
      on_error read (pure tt) λ state.
          if not state.trading_halted || not (is_over state.halt_until now)
          then pure tt
          else (do reset_halt; pure tt)

    unfoldable pub check_btc : Time → FilterConfig D → Effect S FilterResult
    check_btc now cfg = do
      read ← get_btc_regime
      on_error read (pure (reject "btc_regime_unavailable")) λ drop_pct.
          if d.greater_than drop_pct cfg.btc_drop_threshold
          then (do trip_btc_halt (now + cfg.halt_duration) now; pure (reject "btc_5m_crash"))
          else pure passes

    unfoldable pub step_circuit_breaker : Time → FilterConfig D → Effect S FilterResult
    unfolding halt_label
    step_circuit_breaker now cfg = do
      read ← get_state
      on_error read (pure (reject "circuit_breaker_state_unavailable")) λ state.
          let refusal = pure (reject (halt_label "already_halted" state.halt_reason)) in
          if state.trading_halted && is_over state.halt_until now
          then (do done ← reset_halt; if done then check_btc now cfg else refusal)
          else if state.trading_halted
          then refusal
          else check_btc now cfg

    unfoldable pub step_position_limit : FilterConfig D → Effect S FilterResult
    step_position_limit cfg = do
      read ← count_active
      on_error read (pure (reject "trades_count_unavailable")) λ count.
          if leb_ℤ cfg.position_limit (pos count)
          then pure (reject "position_limit")
          else pure passes

    unfoldable pub step_active_position : String → Effect S FilterResult
    step_active_position symbol = do
      read ← has_active_position symbol
      on_error read (pure (reject "active_position_lookup_unavailable"))
          λ has. if has then pure (reject "symbol_has_active_position") else pure passes

    -- The error of the source's signature is always nil.
    unfoldable pub evaluate_global_filters : String → Time → FilterConfig D → Effect S FilterResult
    evaluate_global_filters symbol now config = do
      let cfg = filter_defaults config
      halt ← step_circuit_breaker now cfg
      if not halt.passed then pure halt else do
        limit ← step_position_limit cfg
        if not limit.passed then pure limit else do
          position ← step_active_position symbol
          if not position.passed then pure position else pure passes
