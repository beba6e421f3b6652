-- ===== src/Execution/Entry/Placing/Invariant.antt =====
-- A whole entry keeps the open trades under a disaster stop.
use mathlib.Core.Path.{subst}
use binance_oi_square_trader.Prelude.{if-elim, Option-elim, String, refl, sym, inl, none, some, All}
use binance_oi_square_trader.Decimal.{Decimal}
use binance_oi_square_trader.Storage.Trades.{update_trade_open, update_trade_failed}
use binance_oi_square_trader.Storage.Trades.Rows.{ButFor, All-broken}
use binance_oi_square_trader.Storage.Db.{Db, exec}
use binance_oi_square_trader.Storage.Db.Effects.{exec-done}
use binance_oi_square_trader.Binance.Orders.{OrderResult}
use binance_oi_square_trader.Execution.Trail.{on_trade}
use binance_oi_square_trader.Execution.Entry.{
  EntryConfig, EntryWorld, Executor, send, on_session, mark_entry_cooldown, margin_type,
  set_leverage, market_buy, cancel_order, leverage,
}
use binance_oi_square_trader.Execution.Entry.Fill.{filled, unfilled, polling, wait_fill}
use binance_oi_square_trader.Execution.Entry.Placing.{
  Entry, mark_failed, emergency_close, protect, entry_filled, entry_placed, entry_refused,
  place_entry, time_of, first_order_id,
}
use binance_oi_square_trader.Execution.Entry.Fill.Quiet.{wait_fill-Quiet}
use binance_oi_square_trader.Execution.Entry.Placing.Stopped.{
  HasStop, NoFaults, rows, run-faults, run-All, emergency_close-HasStop, protect-HasStop,
}

module _ {D : Type 0} ⦃d : Decimal D⦄ (world : EntryWorld D) where
  mark_failed-HasStop :
      (e : Entry D) (reason : String) (x : Executor D)
      → All HasStop (rows x)
      → All HasStop (rows (mark_failed world e reason x))
  unfolding mark_failed update_trade_failed
  mark_failed-HasStop e reason x all =
      run-All HasStop e.trade_id (update_trade_failed reason (time_of world x)) x (λ t h. inl refl)
        all

  module _ (cfg : EntryConfig D) where
    entry_filled-HasStop :
        (e : Entry D) (o : OrderResult D) (x : Executor D)
        → NoFaults x
        → All HasStop (rows x)
        → All HasStop (rows (entry_filled world cfg e o x))
    unfolding entry_filled on_session on_trade update_trade_open
    entry_filled-HasStop e o x ok all =
        let open_it = on_trade e.trade_id (update_trade_open (time_of world x) o.avg_price) in
        let (done, x1) = on_session (exec open_it) x in
        let (_, wrote) = exec-done open_it x.session (ok x.session.clock) in
        let but : All (ButFor e.trade_id HasStop) (rows x1) =
          subst (λ (db : Db D). All (ButFor e.trade_id HasStop) db.trades.rows) (sym wrote)
            (All-broken HasStop e.trade_id _ (rows x) (λ t. refl) all) in
        let ok1 : NoFaults x1 = run-faults open_it x ok in
        if-elim (λ (y : Executor D). All HasStop (rows y)) done
          (protect world cfg e o.executed_qty o.avg_price x1)
          (emergency_close world e o.executed_qty o.avg_price "db_update_open_failed" x1)
          (protect-HasStop world cfg e o.executed_qty o.avg_price x1 ok1 but)
          (emergency_close-HasStop world e o.executed_qty o.avg_price "db_update_open_failed" x1 ok1
            but)

    entry_placed-HasStop :
        (e : Entry D) (o : OrderResult D) (x : Executor D)
        → NoFaults x
        → All HasStop (rows x)
        → All HasStop (rows (entry_placed world cfg e o x))
    unfolding entry_placed send
    entry_placed-HasStop e o x ok all =
        let (fill, x1) = wait_fill world e.symbol o x in
        let (same_db, same_faults, _) = wait_fill-Quiet world e.symbol o x in
        let ok1 : NoFaults x1 = λ n. rw same_faults (ok n) in
        let all1 = subst (λ (db : Db D). All HasStop db.trades.rows) (sym same_db) all in
        elim fill
          as (λ f. All HasStop (
            rows (elim f [
              | filled r ↦ entry_filled world cfg e r x1
              | unfilled ↦
                  let x2 =
                    (send (cancel_order e.symbol o.order_id)
                      (λ n. world.cancel_order n e.symbol o.order_id) x1).1 in
                  mark_failed world e "fill_timeout" x2
              | polling ↦ x1
            ]))) [
              | filled r ↦ entry_filled-HasStop e r x1 ok1 all1
              | unfilled ↦ mark_failed-HasStop e "fill_timeout" _ all1
              | polling ↦ all1
            ]

    entry_refused-HasStop :
        (e : Entry D) (reason : String) (x : Executor D)
        → All HasStop (rows x)
        → All HasStop (rows (entry_refused world e reason x))
    unfolding entry_refused mark_entry_cooldown
    entry_refused-HasStop e reason x all = mark_failed-HasStop e reason x all

    -- If every open trade has the id of a disaster stop and no statement fails, so it is after an
    -- entry, whichever requests the exchange refuses and however the wait for the fill goes.
    pub place_entry-HasStop :
        (e : Entry D) (x : Executor D)
        → NoFaults x
        → All HasStop (rows x)
        → All HasStop (rows (place_entry world cfg e x))
    unfolding place_entry send
    place_entry-HasStop e x ok all =
        let (isolated, x1) =
          send (margin_type e.symbol) (λ n. world.set_margin_type n e.symbol) x in
        let times = leverage (world.runtime x1.session.clock) cfg in
        let (levered, x2) =
          send (set_leverage e.symbol times) (λ n. world.set_leverage n e.symbol times) x1 in
        let (placed, x3) =
          send (market_buy e.symbol e.qty (first_order_id e))
            (λ n. world.place_market_buy n e.symbol e.qty (first_order_id e)) x2 in
        let bought : Executor D = elim placed [
          | none ↦ mark_failed world e "place_order_failed" x3
          | some o ↦ entry_placed world cfg e o x3
        ] in
        Option-elim (λ (y : Executor D). All HasStop (rows y)) isolated
          (entry_refused world e "set_margin_type_failed" x1)
          (λ _. elim levered [
            | none ↦ entry_refused world e "set_leverage_failed" x2
            | some _ ↦ bought
          ])
          (entry_refused-HasStop e "set_margin_type_failed" x1 all)
          (λ _.
            Option-elim (λ (y : Executor D). All HasStop (rows y)) levered
              (entry_refused world e "set_leverage_failed" x2) (λ _. bought)
              (entry_refused-HasStop e "set_leverage_failed" x2 all)
              (λ _.
                Option-elim (λ (y : Executor D). All HasStop (rows y)) placed
                  (mark_failed world e "place_order_failed" x3) (λ o. entry_placed world cfg e o x3)
                  (mark_failed-HasStop e "place_order_failed" x3 all)
                  (λ o. entry_placed-HasStop e o x3 ok all)))
