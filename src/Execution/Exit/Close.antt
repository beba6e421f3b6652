-- ===== src/Execution/Exit/Close.antt =====
-- The close of a trade and the tick of the exits, in internal/execution/exit_manager.go.
use binance_oi_square_trader.Prelude.{
  ℕ, ◌+◌, ◌*◌, String, not, ◌||◌, Option, none, some, List, [], ◌∷◌, Time, hour, Effect, leb, ◌==◌,
  if◌then◌else◌,
}
use binance_oi_square_trader.Decimal.{Decimal, zero_dec}
use binance_oi_square_trader.Storage.Breaker.{Date, update_after_trade_close}
use binance_oi_square_trader.Storage.Trades.{update_trade_closing, update_trade_closed}
use binance_oi_square_trader.Storage.Db.{Db, Session, outside, exec, select, query}
use binance_oi_square_trader.Execution.Trail.{on_trade, decimal_from_pg_numeric}
use binance_oi_square_trader.Binance.Orders.{OrderResult}
use binance_oi_square_trader.Execution.Exit.{
  ExitReason, ExitRow, ExitWorld, asks_manual_close, cancel_disaster_stop, day_of,
  delete_position_state, hard_timeout, insert_trade_exit, list_open_trades_for_exit, manual_close,
  mark_close_failed, now_at, reason_text, soft_timeout, trip_close_halt, zrem,
}

module _ {D : Type 0} ⦃d : Decimal D⦄ where
  sum_commissions : D → List D → D
  sum_commissions total [] = total
  sum_commissions total (c ∷ cs) = sum_commissions (d.add total c) cs

  total_of : Option (List D) → D
  total_of none = zero_dec
  total_of (some cs) = sum_commissions zero_dec cs

  unfoldable pub roll : D → Date → Time → Db D → Option (Db D) × Db D
  roll pnl day sql_now db = elim (update_after_trade_close pnl day sql_now db.breaker) [
    | none ↦ (none, db)
    | some b ↦ (some db, record db { breaker = b })
  ]

  -- after the trade was set to closed
  unfoldable pub clean_up : (ℕ → Time) → ℕ → D → Time → Session D → Session D
  unfolding roll
  clean_up sql_now id pnl now s =
      let s1 = zrem id (exec (delete_position_state id) s).1 in
      (query (roll pnl (day_of now) (sql_now s1.clock)) s1).1

  unfoldable pub close_price : OrderResult D → D → D
  close_price o qty = if d.is_zero o.avg_price then d.div o.cum_quote qty else o.avg_price

  pnl_at : Option D → Option D → Option D → D
  pnl_at (some price) (some entry) (some qty) = d.mul (d.sub price entry) qty
  pnl_at _ _ _ = zero_dec

  module _ (world : ExitWorld D) where
    unfoldable pub sum_fees : String → ℕ → Effect (Session D) D
    unfolding total_of sum_commissions
    sum_fees symbol order s =
        if not world.fees_fetcher || order == 0
        then (zero_dec, s)
        else outside (λ n. total_of (world.get_user_trades n symbol order)) s

    unfoldable pub persist_close : ExitRow D → ExitReason → D → D → ℕ → Session D → Session D
    persist_close t reason price qty order s =
        let now = now_at world s in
        let (fees, s1) = sum_fees t.symbol order s in
        let pnl = d.mul (d.sub price (decimal_from_pg_numeric t.entry_price)) qty in
        let s2 =
          (exec
            (insert_trade_exit (record {
              trade_id = t.id;
              ts = now;
              kind = reason_text reason;
              qty = qty;
              price = price;
              pnl = pnl;
            }))
            s1).1 in
        let (done, s3) =
          exec (on_trade t.id (update_trade_closed now price (reason_text reason) pnl fees)) s2 in
        if not done then trip_close_halt world s3 else clean_up world.database_now t.id pnl now s3

    -- steps 3 and 4: the order and what it leads to
    unfoldable pub sell : ExitRow D → ExitReason → D → Session D → Session D
    sell t reason qty s =
        let (placed, s1) = outside (λ n. world.place_market_order_reduce_only n t.symbol qty) s in
        elim placed [
          | none ↦ trip_close_halt world s1
          | some o ↦
              if d.is_zero (close_price o qty)
              then trip_close_halt world s1
              else persist_close t reason (close_price o qty) qty o.order_id s1
        ]

    unfoldable pub close_position : ExitRow D → ExitReason → Session D → Session D
    close_position t reason s =
        let (done, s1) = exec (on_trade t.id update_trade_closing) s in
        let s2 = cancel_disaster_stop world t s1 in
        let qty = decimal_from_pg_numeric t.current_qty in
        if not done
        then s1
        else if d.is_zero qty
        then mark_close_failed world t.id "current_qty_zero" s2
        else sell t reason qty s2

    -- a read of Redis, where the row has an entry price and a quantity
    unfoldable pub compute_unrealized_pnl : ExitRow D → Effect (Session D) D
    unfolding pnl_at
    compute_unrealized_pnl t s = elim t.entry_price [
      | none ↦ (zero_dec, s)
      | some entry ↦ elim t.current_qty [
        | none ↦ (zero_dec, s)
        | some qty ↦ outside (λ n. pnl_at (world.latest_price n t.symbol) (some entry) (some qty)) s
      ]
    ]

    -- why a trade is closed in a tick; the unrealized result is read for the soft timeout only
    unfoldable pub reason_to_close : Time → ExitRow D → Effect (Session D) (Option ExitReason)
    unfolding asks_manual_close
    reason_to_close now t s =
        if asks_manual_close t.exit_reason then (some manual_close, s) else elim t.entry_ts [
          | none ↦ (none, s)
          | some entered ↦
              if leb (entered + 72 * hour) now
              then (some hard_timeout, s)
              else if leb (entered + 24 * hour) now
              then (let (unrealized, s1) = compute_unrealized_pnl t s in
                  (if d.is_negative unrealized then some soft_timeout else none, s1))
              else (none, s)
        ]

    unfoldable pub evaluate_trade : Time → ExitRow D → Session D → Session D
    evaluate_trade now t s =
        let (reason, s1) = reason_to_close now t s in
        elim reason [ none ↦ s1 | some r ↦ close_position t r s1 ]

    unfoldable pub evaluate_trades : Time → List (ExitRow D) → Session D → Session D
    evaluate_trades now [] s = s
    evaluate_trades now (t ∷ ts) s = evaluate_trades now ts (evaluate_trade now t s)

    unfoldable pub evaluate_tick : Session D → Session D
    evaluate_tick s =
        let now = now_at world s in
        let (rows, s1) = select list_open_trades_for_exit s in
        elim rows [ none ↦ s1 | some rows ↦ evaluate_trades now rows s1 ]
