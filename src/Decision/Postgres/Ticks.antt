-- ===== src/Decision/Postgres/Ticks.antt =====
-- What a whole tick of the engine keeps of the table trades, whichever queries fail.
use binance_oi_square_trader.Prelude.{
  ◌∙◌, ap, String, true, ℕ, ℤ, pos, negsuc, pos_part, ◌+◌, ◌-◌, ◌≤◌, ◌<◌, ◌≡◌, refl, sym, ◌⊎◌, inl,
  inr, false, List, [], ◌∷◌, arith, Time, length, Bool-cases, Option-cases,
}
use mathlib.Core.Path.{subst}
use binance_oi_square_trader.Decimal.{Decimal}
use binance_oi_square_trader.Storage.Trades.{Trades, NewTrade, count_active, has_active_position}
use binance_oi_square_trader.Storage.Trades.Active.{
  OnePerSymbol, count_active-insert, insert-OnePerSymbol,
}
use binance_oi_square_trader.Storage.Db.{Session, outside}
use binance_oi_square_trader.Decision.Filters.{
  is_over, filter_defaults, evaluate_global_filters, maintain_halt_state,
}
use binance_oi_square_trader.Decision.Engine.{
  tick_over, no_stats, append, act, new_trade, engine_defaults, fresh_result, write_trade, Signal,
  EngineDeps, EngineConfig, EvaluateResult, TickReport, Outcome, trade_entering, internal_error,
  rejected, sizing, sized_outcome, size_signal, filter_signal, evaluate_one, process, run_signals,
  run_tick,
}
use binance_oi_square_trader.Decision.Postgres.{
  to_int16, Surroundings, postgres_filters, postgres_engine, insert_trade,
}
use binance_oi_square_trader.Decision.Postgres.Gates.{
  evaluate_global_filters-halted, maintain_halt_state-kept, evaluate_global_filters-gates,
  maintain_halt_state-keeps, IsUnder,
}

module _ {D : Type 0} ⦃d : Decimal D⦄ (world : Surroundings D) where
  abbrev deps : EngineDeps D (Session D)
  deps = postgres_engine world

  size_signal-keeps :
      (signal : Signal) (cfg : EngineConfig D) (res : EvaluateResult D) (s : Session D)
      → let (r, s') = size_signal deps signal cfg res s in
        (s'.db ≡ s.db) × (r.signal ≡ res.signal) × (r.filter ≡ res.filter)
  unfolding size_signal outside sized_outcome
  size_signal-keeps signal cfg res s = ground arith

  filter_signal-gates :
      (signal : Signal) (now : Time) (cfg : EngineConfig D) (s : Session D)
      → let (r, s') = filter_signal deps signal now cfg s in
        (s'.db.trades ≡ s.db.trades)
        × (r.signal ≡ signal)
        × (r.outcome ≡ trade_entering
            → (s'.db.breaker.trading_halted ≡ false)
              × IsUnder (count_active s'.db.trades.rows) (filter_defaults cfg.filter).position_limit
              × (has_active_position s'.db.trades.rows signal.symbol ≡ false))
  unfolding filter_signal
  filter_signal-gates signal now cfg s =
      let filter =
        (evaluate_global_filters (postgres_filters world) signal.symbol now cfg.filter s).0 in
      let s₁ =
        (evaluate_global_filters (postgres_filters world) signal.symbol now cfg.filter s).1 in
      let res : EvaluateResult D = record (fresh_result signal) { filter = filter } in
      ground (
        arith,
        evaluate_global_filters-gates world signal.symbol now cfg.filter s,
        size_signal-keeps signal cfg res s₁,
      )

  evaluate_one-gates :
      (signal : Signal) (now : Time) (cfg : EngineConfig D) (s : Session D)
      → let (r, s') = evaluate_one deps signal now cfg s in
        (s'.db.trades ≡ s.db.trades)
        × (r.signal ≡ signal)
        × (r.outcome ≡ trade_entering
            → (s'.db.breaker.trading_halted ≡ false)
              × IsUnder (count_active s'.db.trades.rows) (filter_defaults cfg.filter).position_limit
              × (has_active_position s'.db.trades.rows signal.symbol ≡ false))
  unfolding evaluate_one outside
  evaluate_one-gates signal now cfg s =
      let s₁ : Session D = record s { clock = s.clock + 1 } in
      ground (arith, filter_signal-gates signal now (engine_defaults cfg) s₁)

  insert_trade-rows :
      (n : NewTrade D) (s : Session D) (L : ℕ)
      → let s' = (insert_trade n s).1 in
        (count_active s.db.trades.rows < L → count_active s'.db.trades.rows ≤ L)
        × (has_active_position s.db.trades.rows n.symbol ≡ false
            → OnePerSymbol s.db.trades.rows
            → OnePerSymbol s'.db.trades.rows)
  unfolding insert_trade
  insert_trade-rows n s L =
      let n' : NewTrade D = record n { leverage = to_int16 n.leverage } in
      elim (Bool-cases (s.faults s.clock)) [
        | inl e ↦ rw e ((λ h. omega arith), (λ h one. one))
        | inr e ↦ rw e (
          (λ h. omega (arith, count_active-insert n' s.db.trades)),
          (λ h one. insert-OnePerSymbol n' s.db.trades h one),
        )
      ]

  write_trade-store :
      (r : EvaluateResult D) (s : Session D)
      → (write_trade deps r s).1 ≡ (insert_trade (new_trade r) s).1
  unfolding write_trade
  write_trade-store r s = ground arith

  act-other :
      (o : Outcome)
      → (o ≡ trade_entering) ⊎ ((r : EvaluateResult D) (s : Session D) → act deps o r s ≡ (r, s))
  act-other trade_entering = inl refl
  act-other internal_error = inr (λ r s. refl)
  act-other (rejected reason) = inr (λ r s. refl)
  act-other (sizing reason) = inr (λ r s. refl)

  bound : {n L : ℕ} (limit : ℤ) → IsUnder n limit → pos_part limit ≤ L → n < L
  bound (pos k) under low = ground arith
  bound (negsuc k) under low = ground arith

  -- One signal, whatever comes of it.
  process-rows :
      (signal : Signal) (now : Time) (cfg : EngineConfig D) (s : Session D) (L : ℕ)
      → pos_part (filter_defaults cfg.filter).position_limit ≤ L
      → let s' = (process deps signal now cfg s).1 in
        (count_active s.db.trades.rows ≤ L → count_active s'.db.trades.rows ≤ L)
        × (OnePerSymbol s.db.trades.rows → OnePerSymbol s'.db.trades.rows)
  unfolding process
  process-rows signal now cfg s L low =
      let r = (evaluate_one deps signal now cfg s).0 in
      let s₁ = (evaluate_one deps signal now cfg s).1 in
      let gates = evaluate_one-gates signal now cfg s in
      elim (act-other r.outcome) [
        | inl e ↦
            let (_, count, free) = gates.2 e in
            let rows = insert_trade-rows (new_trade r) s₁ L in
            rw e (
              rw (write_trade-store r s₁) (
                (λ h. rows.0 (bound (filter_defaults cfg.filter).position_limit count low)),
                (λ one.
                    rows.1
                      (subst (λ g. has_active_position s₁.db.trades.rows g.symbol ≡ false)
                        (sym gates.1) free)
                      (subst (λ (t : Trades D). OnePerSymbol t.rows) (sym gates.0) one)),
              ))
        | inr e ↦ rw (e r s₁) (rw gates.0 ((λ h. h), (λ one. one)))
      ]

  run_signals-rows :
      (signals : List Signal) (now : Time) (cfg : EngineConfig D) (report : TickReport D)
      (s : Session D) (L : ℕ)
      → pos_part (filter_defaults cfg.filter).position_limit ≤ L
      → let s' = (run_signals deps signals now cfg report s).1 in
        (count_active s.db.trades.rows ≤ L → count_active s'.db.trades.rows ≤ L)
        × (OnePerSymbol s.db.trades.rows → OnePerSymbol s'.db.trades.rows)
  unfolding run_signals
  run_signals-rows [] now cfg report s L low = ((λ h. h), (λ one. one))
  run_signals-rows (signal ∷ signals) now cfg report s L low =
      let (result, s₁) = process deps signal now cfg s in
      let step = process-rows signal now cfg s L low in
      let rest = run_signals-rows signals now cfg (append result report) s₁ L low in
      ((λ h. rest.0 (step.0 h)), (λ one. rest.1 (step.1 one)))

  abbrev first_report : List Signal → TickReport D
  first_report signals = record {
    stats = record no_stats { signals_read = length signals };
    results = [];
  }

  run_tick-store :
      (now : Time) (cfg : EngineConfig D) (s : Session D)
      → let s₁ = (maintain_halt_state (postgres_filters world) now s).1 in
        ((signals : List Signal) × (report : TickReport D) × ((run_tick deps now cfg s).1
            ≡ (run_signals deps signals now
                (engine_defaults cfg)
                report
                (record s₁ { clock = s₁.clock + 1 })).1))
  unfolding run_tick tick_over outside
  run_tick-store now cfg s =
      let s₁ = (maintain_halt_state (postgres_filters world) now s).1 in
      let since : Time = now - (engine_defaults cfg).signal_window in
      elim (Option-cases (world.recent_signals s₁.clock since)) [
        | inl e ↦ ([], first_report [], rw e (unfold run_signals in refl))
        | inr (signals, e) ↦ (signals, first_report signals, rw e)
      ]

  run_tick-rows :
      (now : Time) (cfg : EngineConfig D) (s : Session D) (L : ℕ)
      → pos_part (filter_defaults cfg.filter).position_limit ≤ L
      → let s' = (run_tick deps now cfg s).1 in
        (count_active s.db.trades.rows ≤ L → count_active s'.db.trades.rows ≤ L)
        × (OnePerSymbol s.db.trades.rows → OnePerSymbol s'.db.trades.rows)
  run_tick-rows now cfg s L low =
      let s₁ = (maintain_halt_state (postgres_filters world) now s).1 in
      let (signals, report, same) = run_tick-store now cfg s in
      let kept = maintain_halt_state-keeps world now s in
      let loop =
        run_signals-rows signals now (engine_defaults cfg) report
          (record s₁ { clock = s₁.clock + 1 }) L low in
      rw same (
        (λ h. loop.0 (subst (λ (t : Trades D). count_active t.rows ≤ L) (sym kept) h)),
        (λ one. loop.1 (subst (λ (t : Trades D). OnePerSymbol t.rows) (sym kept) one)),
      )

  filter_signal-halted :
      (signal : Signal) (now : Time) (cfg : EngineConfig D) (s : Session D)
      → s.db.breaker.trading_halted ≡ true
      → is_over s.db.breaker.halt_until now ≡ false
      → let (r, s') = filter_signal deps signal now cfg s in
        (s'.db ≡ s.db) × ((reason : String) × (r.outcome ≡ rejected reason))
  unfolding filter_signal
  filter_signal-halted signal now cfg s h o =
      let filter =
        (evaluate_global_filters (postgres_filters world) signal.symbol now cfg.filter s).0 in
      let (p, q) = evaluate_global_filters-halted world signal.symbol now cfg.filter s h o in
      (ground arith, (filter.reason, ground arith))

  process-halted :
      (signal : Signal) (now : Time) (cfg : EngineConfig D) (s : Session D)
      → s.db.breaker.trading_halted ≡ true
      → is_over s.db.breaker.halt_until now ≡ false
      → (process deps signal now cfg s).1.db ≡ s.db
  unfolding process evaluate_one outside
  process-halted signal now cfg s h o =
      let s₁ : Session D = record s { clock = s.clock + 1 } in
      let (kept, (reason, refused)) =
        filter_signal-halted signal now (engine_defaults cfg) s₁ h o in
      elim (Bool-cases (world.in_cooldown s.clock signal.symbol)) [
        | inl e ↦ rw e
        | inr e ↦ rw (e, refused) kept
      ]

  run_signals-halted :
      (signals : List Signal) (now : Time) (cfg : EngineConfig D) (report : TickReport D)
      (s : Session D)
      → s.db.breaker.trading_halted ≡ true
      → is_over s.db.breaker.halt_until now ≡ false
      → (run_signals deps signals now cfg report s).1.db ≡ s.db
  unfolding run_signals
  run_signals-halted [] now cfg report s h o = refl
  run_signals-halted (signal ∷ signals) now cfg report s h o =
      let (result, s₁) = process deps signal now cfg s in
      let kept = process-halted signal now cfg s h o in
      let rest =
        run_signals-halted signals now cfg (append result report) s₁
          (ap (λ b. b.breaker.trading_halted) kept ∙ h)
          (ap (λ b. is_over b.breaker.halt_until now) kept ∙ o) in
      rest ∙ kept

  -- While trading is halted and the halt is not over, a whole tick leaves the database as it is:
  -- no trade is written, whatever the signals, and whichever queries fail.
  pub run_tick-halted :
      (now : Time) (cfg : EngineConfig D) (s : Session D)
      → s.db.breaker.trading_halted ≡ true
      → is_over s.db.breaker.halt_until now ≡ false
      → (run_tick deps now cfg s).1.db ≡ s.db
  run_tick-halted now cfg s h o =
      let s₁ = (maintain_halt_state (postgres_filters world) now s).1 in
      let (signals, report, same) = run_tick-store now cfg s in
      let kept = (maintain_halt_state-kept world now s) o in
      rw same (
        run_signals-halted signals now (engine_defaults cfg) report
          (record s₁ { clock = s₁.clock + 1 }) (ap (λ b. b.breaker.trading_halted) kept ∙ h)
          (ap (λ b. is_over b.breaker.halt_until now) kept ∙ o)
        ∙ kept)

  -- Where the limit is at least the configured one (a negative one counted as 0) and no more
  -- positions than the limit are entering, open or partial before a tick, no more are afterwards, however many signals the tick
  -- reads, and whichever queries fail.
  pub run_tick-position_limit :
      (now : Time) (cfg : EngineConfig D) (s : Session D) (L : ℕ)
      → pos_part (filter_defaults cfg.filter).position_limit ≤ L
      → count_active s.db.trades.rows ≤ L
      → count_active (run_tick deps now cfg s).1.db.trades.rows ≤ L
  run_tick-position_limit now cfg s L h n = (run_tick-rows now cfg s L h).0 n

  -- If no symbol has two trades that are entering, open, partial or closing before a tick, none has
  -- afterwards, also where the tick reads two signals of one symbol, and whichever queries fail.
  pub run_tick-OnePerSymbol :
      (now : Time) (cfg : EngineConfig D) (s : Session D)
      → OnePerSymbol s.db.trades.rows
      → OnePerSymbol (run_tick deps now cfg s).1.db.trades.rows
  run_tick-OnePerSymbol now cfg s one =
      (run_tick-rows now cfg s (pos_part (filter_defaults cfg.filter).position_limit)
          (omega arith)).1
        one
