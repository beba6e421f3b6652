-- ===== src/Execution/Exit/Closing.antt =====
-- What a close leaves of the table trades.
use binance_oi_square_trader.Prelude.{
  Option-cases, Bool-cases, inl, inr, Option-elim, refl, ℕ, ◌+◌, String, ◌≡◌, refl, ap, ◌∙◌, inl,
  inr, true, false, Option, none, some, arith, Time, Bool-cases, Option-cases,
}
use binance_oi_square_trader.Decimal.{Decimal}
use binance_oi_square_trader.Storage.Trades.{
  Trade, Trades, update_where_id, update_trade_closing, update_trade_closed, update_trade_failed,
}
use binance_oi_square_trader.Storage.Db.{TradeExit, Db, Session, outside, exec}
use binance_oi_square_trader.Storage.Db.Effects.{exec-db, exec-keeps, query-keeps}
use binance_oi_square_trader.Binance.Orders.{OrderResult}
use binance_oi_square_trader.Execution.Trail.{on_trade, decimal_from_pg_numeric}
use binance_oi_square_trader.Execution.Exit.{
  day_of, ExitWorld, ExitReason, reason_text, ExitRow, insert_trade_exit, delete_position_state,
  insert_halt_rca, zrem, breaker_halt, now_at, trip_close_halt, mark_close_failed,
  cancel_disaster_stop,
}
use binance_oi_square_trader.Execution.Exit.Close.{
  sum_fees, roll, clean_up, persist_close, close_price, sell, close_position,
}

module _ {D : Type 0} ⦃d : Decimal D⦄ where
  pub clean_up-exits :
      (sql_now : ℕ → Time) (id : ℕ) (pnl : D) (now : Time) (s : Session D)
      → (clean_up sql_now id pnl now s).db.trade_exits ≡ s.db.trade_exits
  unfolding clean_up roll zrem delete_position_state
  clean_up-exits sql_now id pnl now s =
      let s1 = (exec (delete_position_state id) s).1 in
      let s2 = zrem id s1 in
      let kept : s2.db.trade_exits ≡ s1.db.trade_exits = ground arith in
      query-keeps (λ db. db.trade_exits) (roll pnl (day_of now) (sql_now s2.clock)) s2
        (Option-elim (λ (r : Option (Db D) × Db D). r.1.trade_exits ≡ s2.db.trade_exits) _
          (none, s2.db) _ refl (λ b. refl))
      ∙ kept
      ∙ exec-keeps (λ db. db.trade_exits) (delete_position_state id) s (λ db. refl)

pub data ExitWrite (D : Type 0) : Type 0 where
  untouched left_closing : ExitWrite D
  -- time, price, result and fees
  marked_closed : Time → D → D → D → ExitWrite D
  marked_failed : Time → ExitWrite D

module _ {D : Type 0} ⦃d : Decimal D⦄ (world : ExitWorld D) (t : ExitRow D)
    (reason : ExitReason) where
  abbrev closed_rows : ExitWrite D → Db D → Db D
  closed_rows untouched db = db
  closed_rows left_closing db = on_trade t.id update_trade_closing db
  closed_rows (marked_closed now price pnl fees) db =
      on_trade t.id (update_trade_closed now price (reason_text reason) pnl fees)
        (on_trade t.id update_trade_closing db)
  closed_rows (marked_failed now) db =
      on_trade t.id (update_trade_failed "current_qty_zero" now)
        (on_trade t.id update_trade_closing db)

  abbrev qty : D
  qty = decimal_from_pg_numeric t.current_qty

  -- A trade is closed only at the price of an accepted sell of its whole quantity, with the result
  -- of that price against the entry; it fails only where there is nothing to sell.
  unfoldable pub Justified : ExitWrite D → Type 0
  Justified untouched = Unit {0}
  Justified left_closing = Unit {0}
  Justified (marked_closed now price pnl fees) =
      (n : ℕ) × (o : OrderResult D) × (world.place_market_order_reduce_only n t.symbol qty ≡ some o)
      × (price ≡ close_price o qty)
      × (d.is_zero price ≡ false)
      × (pnl ≡ d.mul (d.sub price (decimal_from_pg_numeric t.entry_price)) qty)
      × (d.is_zero qty ≡ false)
  Justified (marked_failed now) = d.is_zero qty ≡ true

  -- From one session to the other the trades change as one justified write changes them.
  abbrev pub Closes : Session D → Session D → Type 0
  Closes s s' = (w : ExitWrite D) × (s'.db.trades ≡ (closed_rows w s.db).trades) × Justified w

  trip_close_halt-trades : (s : Session D) → (trip_close_halt world s).db.trades ≡ s.db.trades
  unfolding trip_close_halt insert_halt_rca breaker_halt
  trip_close_halt-trades s =
      let s1 = (exec (insert_halt_rca "close_failed") s).1 in
      exec-keeps (λ db. db.trades) _ s1 (λ db. refl)
      ∙ exec-keeps (λ db. db.trades) (insert_halt_rca "close_failed") s (λ db. refl)

  zrem-db : (s : Session D) → (zrem t.id s).db ≡ s.db
  unfolding zrem
  zrem-db s = ground arith

  delete-trades : (s : Session D) → (exec (delete_position_state t.id) s).1.db.trades ≡ s.db.trades
  unfolding delete_position_state
  delete-trades s = exec-keeps (λ db. db.trades) (delete_position_state t.id) s (λ db. refl)

  clean_up-trades :
      (sql_now : ℕ → Time) (pnl : D) (now : Time) (s : Session D)
      → (clean_up sql_now t.id pnl now s).db.trades ≡ s.db.trades
  unfolding clean_up roll
  clean_up-trades sql_now pnl now s =
      let s1 = (exec (delete_position_state t.id) s).1 in
      let s2 = zrem t.id s1 in
      query-keeps (λ db. db.trades) (roll pnl (day_of now) (sql_now s2.clock)) s2
        (Option-elim (λ (r : Option (Db D) × Db D). r.1.trades ≡ s2.db.trades) _ (none, s2.db) _
          refl (λ b. refl))
      ∙ ap (λ db. db.trades) (zrem-db s1)
      ∙ delete-trades s

  insert_trade_exit-trades : (e : _) (db : Db D) → (insert_trade_exit e db).trades ≡ db.trades
  unfolding insert_trade_exit
  insert_trade_exit-trades e db = ground arith

  sum_fees-db :
      (symbol : String) (order : ℕ) (s : Session D) → (sum_fees world symbol order s).1.db ≡ s.db
  unfolding sum_fees outside
  sum_fees-db symbol order s = ground arith

  cancel_disaster_stop-db : (s : Session D) → (cancel_disaster_stop world t s).db ≡ s.db
  unfolding cancel_disaster_stop outside
  cancel_disaster_stop-db s = ground arith

  on_trade-trades :
      (f : Trade D → Trade D) (a b : Db D)
      → a.trades ≡ b.trades
      → (on_trade t.id f a).trades ≡ (on_trade t.id f b).trades
  unfolding on_trade
  on_trade-trades f a b e =
      ap (λ (x : Trades D). record x { rows = update_where_id t.id f x.rows }) e

  -- after the intermediate state was written
  persist_close-Closes :
      (price : D) (order : ℕ) (s s1 : Session D)
      → s1.db.trades ≡ (on_trade t.id update_trade_closing s.db).trades
      → ((now : Time) (fees : D)
          → Justified (
              marked_closed now price
                (d.mul (d.sub price (decimal_from_pg_numeric t.entry_price)) qty)
                fees))
      → Closes s (persist_close world t reason price qty order s1)
  unfolding persist_close Justified
  persist_close-Closes price order s s1 at ok =
      let now = now_at world s1 in
      let (fees, s2) = sum_fees world t.symbol order s1 in
      let pnl = d.mul (d.sub price (decimal_from_pg_numeric t.entry_price)) qty in
      let row : TradeExit D = record {
        trade_id = t.id;
        ts = now;
        kind = reason_text reason;
        qty = qty;
        price = price;
        pnl = pnl;
      } in
      let s3 = (exec (insert_trade_exit row) s2).1 in
      let at3 =
        exec-keeps (λ db. db.trades) (insert_trade_exit row) s2 (insert_trade_exit-trades row)
        ∙ ap (λ db. db.trades) (sum_fees-db t.symbol order s1)
        ∙ at in
      let close = update_trade_closed now price (reason_text reason) pnl fees in
      let s4 = (exec (on_trade t.id close) s3).1 in
      elim (exec-db (on_trade t.id close) s3) [
        | inl (failed, same) ↦
            rw failed
              (left_closing, trip_close_halt-trades s4 ∙ ap (λ db. db.trades) same ∙ at3, tt)
        | inr (done, wrote) ↦ rw done (
          marked_closed now price pnl fees,
          clean_up-trades world.database_now pnl now s4
              ∙ ap (λ db. db.trades) wrote
              ∙ on_trade-trades close s3.db (on_trade t.id update_trade_closing s.db) at3,
          ok now fees,
        )
      ]

  sell-Closes :
      (s s1 : Session D)
      → s1.db.trades ≡ (on_trade t.id update_trade_closing s.db).trades
      → d.is_zero qty ≡ false
      → Closes s (sell world t reason qty s1)
  unfolding sell outside Justified
  sell-Closes s s1 at some_qty =
      let s2 = record s1 { clock = s1.clock + 1 } in
      let halted : Closes s (trip_close_halt world s2) =
        (left_closing, trip_close_halt-trades s2 ∙ at, tt) in
      elim (Option-cases (world.place_market_order_reduce_only s1.clock t.symbol qty)) [
        | inl e ↦ rw e halted
        | inr (o, e) ↦ elim (Bool-cases (d.is_zero (close_price o qty))) [
          | inl zero_price ↦ rw e (rw zero_price halted)
          | inr priced ↦ rw e (
              rw priced (
                persist_close-Closes (close_price o qty) o.order_id s s2 at
                  (λ now fees. (s1.clock, o, e, refl, priced, refl, some_qty))))
        ]
      ]

  mark_close_failed-Closes :
      (s s1 : Session D)
      → s1.db.trades ≡ (on_trade t.id update_trade_closing s.db).trades
      → d.is_zero qty ≡ true
      → Closes s (mark_close_failed world t.id "current_qty_zero" s1)
  unfolding mark_close_failed Justified
  mark_close_failed-Closes s s1 at none_left =
      let now = now_at world s1 in
      let fail = update_trade_failed "current_qty_zero" now in
      let s2 = (exec (on_trade t.id fail) s1).1 in
      let kept =
        ap (λ db. db.trades) (zrem-db (exec (delete_position_state t.id) s2).1)
        ∙ delete-trades s2 in
      elim (exec-db (on_trade t.id fail) s1) [
        | inl (failed, same) ↦ (left_closing, kept ∙ ap (λ db. db.trades) same ∙ at, tt)
        | inr (done, wrote) ↦ (
          marked_failed now,
          kept
              ∙ ap (λ db. db.trades) wrote
              ∙ on_trade-trades fail s1.db (on_trade t.id update_trade_closing s.db) at,
          none_left,
        )
      ]

  -- Whatever fails, closing a position leaves the trades as they were, or the trade `closing`, or
  -- `failed` where its quantity is zero, or `closed`; and `closed` only with the price, not zero, of
  -- a reduce-only sell of its whole quantity that the exchange accepted, and with the result of
  -- that price against the entry.
  pub close_position-Closes : (s : Session D) → Closes s (close_position world t reason s)
  unfolding close_position Justified
  close_position-Closes s =
      let s1 = (exec (on_trade t.id update_trade_closing) s).1 in
      let s2 = cancel_disaster_stop world t s1 in
      elim (exec-db (on_trade t.id update_trade_closing) s) [
        | inl (failed, same) ↦ rw failed (untouched, ap (λ db. db.trades) same, tt)
        | inr (done, wrote) ↦
            let at = ap (λ db. db.trades) (cancel_disaster_stop-db s1 ∙ wrote) in
            elim (Bool-cases (d.is_zero qty)) [
              | inl e ↦ rw done (rw e (mark_close_failed-Closes s s2 at e))
              | inr e ↦ rw done (rw e (sell-Closes s s2 at e))
            ]
      ]
