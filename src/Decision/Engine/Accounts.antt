-- ===== src/Decision/Engine/Accounts.antt =====
-- The statistics of a tick account for every signal that was read, over any implementation of the
-- interfaces.
use binance_oi_square_trader.Prelude.{
  ℕ, ◌+◌, ◌-◌, ◌≡◌, Option, none, some, List, [], ◌∷◌, arith, Time, length, length-append,
}
use mathlib.Core.Path.{subst}
use mathlib.Core.Option.{some-injective}
use binance_oi_square_trader.Decimal.{Decimal}
use binance_oi_square_trader.Decision.Engine.{
  no_stats, engine_defaults, tick_over, Signal, EngineDeps, EngineConfig, TickReport, TickStats,
  Outcome, process, run_signals, run_tick, count_outcome, append,
}
use binance_oi_square_trader.Decision.Filters.{maintain_halt_state}

abbrev pub counted : TickStats → ℕ
counted t = t.trade_entering + t.rejected_by_filter + t.rejected_by_sizing + t.internal_error

counted-count_outcome :
    (o : Outcome) (t : TickStats)
    → (counted (count_outcome o t) ≡ counted t + 1)
      × ((count_outcome o t).signals_read ≡ t.signals_read)
unfolding count_outcome
counted-count_outcome o t = ground arith

module _ {D : Type 0} ⦃d : Decimal D⦄ {S : Type 0} (deps : EngineDeps D S) where
  run_signals-accounts :
      (signals : List Signal) (now : Time) (cfg : EngineConfig D) (report : TickReport D) (s : S)
      → counted report.stats ≡ length report.results
      → report.stats.signals_read ≡ length report.results + length signals
      → let out = (run_signals deps signals now cfg report s).0 in
        (counted out.stats ≡ length out.results) × (out.stats.signals_read ≡ length out.results)
  unfolding run_signals
  run_signals-accounts [] now cfg report s c n = omega arith
  run_signals-accounts (signal ∷ signals) now cfg report s c n =
      let (r, s₁) = process deps signal now cfg s in
      let longer = length-append report.results (r ∷ []) in
      let one = counted-count_outcome r.outcome report.stats in
      run_signals-accounts signals now cfg (append r report) s₁ (omega arith) (omega arith)

  tick_over-accounts :
      (read : Option (List Signal)) (now : Time) (cfg : EngineConfig D) (s : S)
      {report : TickReport D}
      → (tick_over deps read now cfg s).0 ≡ some report
      → (counted report.stats ≡ length report.results)
        × (report.stats.signals_read ≡ length report.results)
  unfolding tick_over
  tick_over-accounts none now cfg s h = absurd (ground arith)
  tick_over-accounts (some signals) now cfg s h =
      let first : TickReport D = record {
        stats = record no_stats { signals_read = length signals };
        results = [];
      } in
      subst
        (λ (r : TickReport D).
          (counted r.stats ≡ length r.results) × (r.stats.signals_read ≡ length r.results))
        (some-injective _ _ h)
        (run_signals-accounts signals now cfg first s (omega arith) (omega arith))

  -- In the report of a tick there is a result for each signal that was read, and the four counters
  -- add up to their number.
  pub run_tick-accounts :
      (now : Time) (cfg : EngineConfig D) (s : S) {report : TickReport D}
      → (run_tick deps now cfg s).0 ≡ some report
      → (counted report.stats ≡ length report.results)
        × (report.stats.signals_read ≡ length report.results)
  unfolding run_tick
  run_tick-accounts now cfg s {report} h =
      let s₁ = (maintain_halt_state deps.filter_deps now s).1 in
      let since : Time = now - (engine_defaults cfg).signal_window in
      let (read, s₂) = deps.get_recent_entered_signals since s₁ in
      tick_over-accounts read now (engine_defaults cfg) s₂ h
