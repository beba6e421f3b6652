-- ===== src/Decision/Postgres/Gates.antt =====
-- What a passed gate guarantees of the database, and what the gates leave alone.
use binance_oi_square_trader.Prelude.{
  ℕ, ◌⊎◌, ◌&&◌, inl, inr, Bool-cases, Option-cases, some, ◌+◌, String, false, ◌≡◌, true, arith,
  Time, ℤ, pos, leb_ℤ,
}
use binance_oi_square_trader.Decimal.{Decimal}
use binance_oi_square_trader.Storage.Db.{exec, select, Session, outside}
use binance_oi_square_trader.Decision.Filters.{
  filter_defaults, is_over, step_position_limit, maintain_halt_state, evaluate_global_filters,
  step_active_position, step_circuit_breaker, FilterDeps, FilterConfig, check_btc,
}
use binance_oi_square_trader.Decision.Postgres.{Surroundings, postgres_filters}
use binance_oi_square_trader.Storage.Breaker.{reset_halt, trip_btc_halt}
use binance_oi_square_trader.Storage.Trades.{count_active, has_active_position}

-- fewer than a limit
abbrev pub IsUnder : ℕ → ℤ → Type 0
IsUnder count limit = leb_ℤ limit (pos count) ≡ false

module _ {D : Type 0} ⦃d : Decimal D⦄ (world : Surroundings D) where
  abbrev deps : FilterDeps D (Session D)
  deps = postgres_filters world

  check_btc-keeps :
      (now : Time) (cfg : FilterConfig D) (s : Session D)
      → let (r, s') = check_btc deps now cfg s in
        (s'.db.trades ≡ s.db.trades) × (r.passed ≡ true → s'.db.breaker ≡ s.db.breaker)
  unfolding check_btc exec outside
  check_btc-keeps now cfg s = ground arith

  step_circuit_breaker-keeps :
      (now : Time) (cfg : FilterConfig D) (s : Session D)
      → let (r, s') = step_circuit_breaker deps now cfg s in
        (s'.db.trades ≡ s.db.trades) × (r.passed ≡ true → s'.db.breaker.trading_halted ≡ false)
  unfolding step_circuit_breaker exec select reset_halt
  step_circuit_breaker-keeps now cfg s =
      let read : Session D = record s { clock = s.clock + 1 } in
      let cleared : Session D = record read {
        clock = read.clock + 1;
        db = record s.db { breaker = reset_halt s.db.breaker };
      } in
      ground (arith, check_btc-keeps now cfg read, check_btc-keeps now cfg cleared)

  step_position_limit-keeps :
      (cfg : FilterConfig D) (s : Session D)
      → let (r, s') = step_position_limit deps cfg s in
        (s'.db ≡ s.db)
        × (r.passed ≡ true → IsUnder (count_active s.db.trades.rows) cfg.position_limit)
  unfolding step_position_limit select
  step_position_limit-keeps cfg s = ground arith

  step_active_position-keeps :
      (symbol : String) (s : Session D)
      → let (r, s') = step_active_position deps symbol s in
        (s'.db ≡ s.db) × (r.passed ≡ true → has_active_position s.db.trades.rows symbol ≡ false)
  unfolding step_active_position select
  step_active_position-keeps symbol s = ground arith

  pub evaluate_global_filters-gates :
      (symbol : String) (now : Time) (cfg : FilterConfig D) (s : Session D)
      → let (r, s') = evaluate_global_filters deps symbol now cfg s in
        (s'.db.trades ≡ s.db.trades)
        × (r.passed ≡ true
            → (s'.db.breaker.trading_halted ≡ false)
              × (IsUnder (count_active s'.db.trades.rows) (filter_defaults cfg).position_limit)
              × (has_active_position s'.db.trades.rows symbol ≡ false))
  unfolding evaluate_global_filters
  evaluate_global_filters-gates symbol now cfg s =
      let c = filter_defaults cfg in
      let s₁ = (step_circuit_breaker deps now c s).1 in
      let s₂ = (step_position_limit deps c s₁).1 in
      ground (
        arith,
        step_circuit_breaker-keeps now c s,
        step_position_limit-keeps c s₁,
        step_active_position-keeps symbol s₂,
      )

  -- While trading is halted and the halt is not over, no signal passes and the database stays as it
  -- is, whichever queries fail.
  pub evaluate_global_filters-halted :
      (symbol : String) (now : Time) (cfg : FilterConfig D) (s : Session D)
      → s.db.breaker.trading_halted ≡ true
      → is_over s.db.breaker.halt_until now ≡ false
      → let (r, s') = evaluate_global_filters deps symbol now cfg s in
        (r.passed ≡ false) × (s'.db ≡ s.db)
  unfolding evaluate_global_filters step_circuit_breaker select
  evaluate_global_filters-halted symbol now cfg s h o = ground arith

  evaluate_global_filters-crash :
      (symbol : String) (now : Time) (cfg : FilterConfig D) (s : Session D) (drop_pct : D)
      → s.db.breaker.trading_halted ≡ false
      → world.btc_regime (s.clock + 1) ≡ some drop_pct
      → d.greater_than drop_pct (filter_defaults cfg).btc_drop_threshold ≡ true
      → let (r, s') = evaluate_global_filters deps symbol now cfg s in
        (r.passed ≡ false)
        × (s.faults s.clock ≡ false
            → s.faults (s.clock + 2) ≡ false
            → (s'.db.breaker.trading_halted ≡ true)
              × (s'.db.breaker.halt_until ≡ some (now + (filter_defaults cfg).halt_duration)))
  unfolding evaluate_global_filters step_circuit_breaker check_btc select exec outside trip_btc_halt
  evaluate_global_filters-crash symbol now cfg s drop_pct run seen big = ground arith

  pub maintain_halt_state-keeps :
      (now : Time) (s : Session D) → (maintain_halt_state deps now s).1.db.trades ≡ s.db.trades
  unfolding maintain_halt_state select exec
  maintain_halt_state-keeps now s = ground arith

  maintain_halt_state_lem :
      (now : Time) (s : Session D)
      → let b = s.db.breaker in
        let s' = (maintain_halt_state deps now s).1 in
        (is_over b.halt_until now ≡ false → s'.db ≡ s.db)
        × (is_over b.halt_until now ≡ true
            → s.faults s.clock ≡ false
            → s.faults (s.clock + 1) ≡ false
            → s'.db.breaker.trading_halted ≡ false)
  unfolding maintain_halt_state select exec reset_halt
  maintain_halt_state_lem now s = ground arith

  -- Where the filters pass, whichever queries failed, trading is not halted afterwards, fewer
  -- positions are counted than the limit, the symbol has no trade that is entering, open, partial
  -- or closing, and the trades are those of before.
  pub evaluate_global_filters-passed :
      (symbol : String) (now : Time) (cfg : FilterConfig D) (s : Session D)
      → (evaluate_global_filters deps symbol now cfg s).0.passed ≡ true
      → let s' = (evaluate_global_filters deps symbol now cfg s).1 in
        (s'.db.breaker.trading_halted ≡ false)
        × (IsUnder (count_active s'.db.trades.rows) (filter_defaults cfg).position_limit)
        × (has_active_position s'.db.trades.rows symbol ≡ false)
        × (s'.db.trades ≡ s.db.trades)
  evaluate_global_filters-passed symbol now cfg s h =
      let (same, gates) = evaluate_global_filters-gates symbol now cfg s in
      let (running, room, free) = gates h in (running, room, free, same)

  -- The drop of BTC was read at this call, and is not above the threshold.
  abbrev pub ReadCalm : FilterConfig D → ℕ → Type 0
  ReadCalm cfg n =
      (drop_pct : D) × (world.btc_regime n ≡ some drop_pct)
      × (d.greater_than drop_pct cfg.btc_drop_threshold ≡ false)

  check_btc-ReadCalm :
      (now : Time) (cfg : FilterConfig D) (s : Session D)
      → (check_btc deps now cfg s).0.passed ≡ true
      → ReadCalm cfg s.clock
  unfolding check_btc outside
  check_btc-ReadCalm now cfg s h = elim (Option-cases (world.btc_regime s.clock)) [
    | inl e ↦ absurd (ground arith)
    | inr (drop_pct, e) ↦ (drop_pct, e, ground arith)
  ]

  step_circuit_breaker-ReadCalm :
      (now : Time) (cfg : FilterConfig D) (s : Session D)
      → (step_circuit_breaker deps now cfg s).0.passed ≡ true
      → ReadCalm cfg (s.clock + 1) ⊎ ReadCalm cfg (s.clock + 1 + 1)
  unfolding step_circuit_breaker exec select
  step_circuit_breaker-ReadCalm now cfg s h =
      let read : Session D = record s { clock = s.clock + 1 } in
      let cleared : Session D = record read {
        clock = read.clock + 1;
        db = record s.db { breaker = reset_halt s.db.breaker };
      } in
      elim (Bool-cases (s.db.breaker.trading_halted && is_over s.db.breaker.halt_until now)) [
        | inl over ↦ inr (check_btc-ReadCalm now cfg cleared (ground arith))
        | inr running ↦ inl (check_btc-ReadCalm now cfg read (ground arith))
      ]

  -- A signal passes only on a drop of BTC that its own filtering has read, in its second or its
  -- third call, and that is not above the threshold: an unknown drop lets nothing through.
  pub evaluate_global_filters-btc_calm :
      (symbol : String) (now : Time) (cfg : FilterConfig D) (s : Session D)
      → (evaluate_global_filters deps symbol now cfg s).0.passed ≡ true
      → ReadCalm (filter_defaults cfg) (s.clock + 1)
        ⊎ ReadCalm (filter_defaults cfg) (s.clock + 1 + 1)
  unfolding evaluate_global_filters
  evaluate_global_filters-btc_calm symbol now cfg s passed =
      step_circuit_breaker-ReadCalm now (filter_defaults cfg) s (ground arith)

  -- Housekeeping leaves the database as it is while there is no halt that is over.
  pub maintain_halt_state-kept :
      (now : Time) (s : Session D)
      → is_over s.db.breaker.halt_until now ≡ false
      → (maintain_halt_state deps now s).1.db ≡ s.db
  maintain_halt_state-kept now s h = (maintain_halt_state_lem now s).0 h

  -- A halt that is over is gone after a housekeeping whose two queries succeed.
  pub maintain_halt_state-cleared :
      (now : Time) (s : Session D)
      → is_over s.db.breaker.halt_until now ≡ true
      → s.faults s.clock ≡ false
      → s.faults (s.clock + 1) ≡ false
      → (maintain_halt_state deps now s).1.db.breaker.trading_halted ≡ false
  maintain_halt_state-cleared now s h f g = (maintain_halt_state_lem now s).1 h f g
