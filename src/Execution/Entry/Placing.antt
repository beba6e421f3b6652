-- ===== src/Execution/Entry/Placing.antt =====
-- internal/execution/order.go: an entry, from the margin type to the snapshot of the open interest.
-- A query of the algo after the trailing stop was placed only feeds a metric and is left out.
pub mod Guarded
pub mod Refused
pub mod Stopped
pub mod Invariant
use binance_oi_square_trader.Prelude.{
  if-elim_eq, Option-elim_eq, if-elim, Option-elim, ℕ, zero, suc, ◌+◌, ◌-◌, ◌*◌, ◌/◌, ◌%◌, ◌^◌, ◌≤◌,
  ◌<◌, min, String, ◌≡◌, refl, sym, ap, ◌∙◌, ◌≢◌, ◌↔◌, ◌⊎◌, inl, inr, Bool, true, false, not, ◌&&◌,
  ◌||◌, Option, none, some, List, [], ◌∷◌, ◌++◌, map, arith, str_eq, eq_iff, Time, Duration, second,
  minute, hour, Effect, pure, ◌>>=◌, ◌>>◌, on_error, length, get_elem?, take, drop, last_or, window,
  length-append, length-drop, length-window, All, ltb, leb, ◌==◌, if◌then◌else◌, ltb→lt, lt→ltb,
  leb→le, ==_iff, tests, Bool-cases, Option-cases, ℤ, pos, negsuc, pos_part, neg_part, sub_ℕ, neg_ℤ,
  ◌+ℤ◌, ◌-ℤ◌, ◌*ℤ◌, ltb_ℤ, eq_ℤ, leb_ℤ, size_ℤ,
}
use binance_oi_square_trader.Decimal.{Decimal, zero_dec}
use binance_oi_square_trader.Storage.Breaker.{
  trip_disaster_stop_fail_halt, reset_disaster_stop_fail_counter,
}
use binance_oi_square_trader.Storage.Trades.{
  AlgoText, algo, ClientOrderId, update_trade_open, update_trade_failed,
  update_trade_trail_activate,
}
use binance_oi_square_trader.Storage.Trades.Columns.{
  update_trade_disaster_stop, update_trade_initial_disaster_levels, update_trade_initial_tp_levels,
  update_trade_tp_algos, update_initial_oi,
}
use binance_oi_square_trader.Storage.Positions.{insert_position_state}
use binance_oi_square_trader.Storage.Db.{Db, Session, exec}
use binance_oi_square_trader.Binance.Orders.{OrderResult}
use binance_oi_square_trader.Execution.Trail.{on_trade}
use binance_oi_square_trader.Execution.Exit.{insert_trade_exit}
use binance_oi_square_trader.Execution.Entry.{
  EntryConfig, EntryWorld, Executor, margin_type, set_leverage, market_buy, cancel_order,
  conditional_stop, trailing_stop, take_profit, market_sell, send, on_session, ask,
  mark_entry_cooldown, leverage, trail_stage1_activate_pct, trail_stage1_callback_rate,
  round_to_tick, compute_stop_pct,
}
use binance_oi_square_trader.Execution.Entry.Fill.{filled, unfilled, polling, wait_fill}

-- the trade of an entry
pub record Entry (D : Type 0) : Type 0 where
  pub trade_id : ℕ
  pub signal_id : ℕ
  pub symbol : String
  pub qty : D
  pub tick_size : D
  pub step_size : D

module _ {D : Type 0} where
  unfoldable pub trip_breaker : Time → Db D → Db D
  trip_breaker now db = record db { breaker = trip_disaster_stop_fail_halt now db.breaker }

  unfoldable pub reset_failures : Db D → Db D
  reset_failures db = record db { breaker = reset_disaster_stop_fail_counter db.breaker }

  -- a statement whose error is only logged
  abbrev pub run : (Db D → Db D) → Executor D → Executor D
  run f x = (on_session (exec f) x).1

  -- the id of a placed algo, and its price
  id_text : Option (ℕ × D) → Option AlgoText
  id_text none = none
  id_text (some (id, price)) = some (algo id)

  price_placed : Option (ℕ × D) → Option D
  price_placed none = none
  price_placed (some (id, price)) = some price

  is_placed : Option (ℕ × D) → Bool
  is_placed none = false
  is_placed (some _) = true

  with_price : D → Option ℕ → Option (ℕ × D)
  with_price price none = none
  with_price price (some id) = some (id, price)

  close_price_of : D → Option (OrderResult D) → D
  close_price_of approx none = approx
  close_price_of approx (some o) = o.avg_price

  abbrev pub first_order_id : Entry D → ClientOrderId
  first_order_id e = record { signal = e.signal_id; retry = 0 }

module _ {D : Type 0} ⦃d : Decimal D⦄ where
  partial_qty : D → D → D
  partial_qty step raw =
      if not (d.is_zero step) then d.mul (d.truncate (d.div raw step)) step else d.truncate_to raw 8

  stop_price : Entry D → D → D → D
  stop_price e price pct = round_to_tick e.tick_size (d.mul price (d.sub (d.from_int (pos 1)) pct))

module _ {D : Type 0} ⦃d : Decimal D⦄ (world : EntryWorld D) where
  abbrev pub time_of : Executor D → Time
  time_of x = world.now x.session.clock

  unfoldable pub mark_failed : Entry D → String → Executor D → Executor D
  mark_failed e reason x = run (on_trade e.trade_id (update_trade_failed reason (time_of x))) x

  unfoldable pub emergency_close : Entry D → D → D → String → Executor D → Executor D
  unfolding close_price_of
  emergency_close e qty approx reason x =
      let (closed, x1) =
        send (market_sell e.symbol qty) (λ n. world.place_market_order_reduce_only n e.symbol qty)
          x in
      let x2 =
        run
          (insert_trade_exit (record {
            trade_id = e.trade_id;
            ts = time_of x1;
            kind = "emergency_close";
            qty = qty;
            price = close_price_of approx closed;
            pnl = zero_dec;
          }))
          x1 in
      mark_failed e reason x2

  entry_refused : Entry D → String → Executor D → Executor D
  entry_refused e reason x =
      let x1 = mark_failed e reason x in mark_entry_cooldown e.symbol (time_of x1) x1

  -- steps 7 and 8, after the stop was accepted
  unfoldable pub disaster_stop_placed : Entry D → D → D → D → D → ℕ → Executor D → Executor D
  disaster_stop_placed e qty price stop atr id x =
      let x1 = run reset_failures x in
      let x2 = run (on_trade e.trade_id (update_trade_disaster_stop (algo id))) x1 in
      let atr_param = if not (d.is_zero atr) then some atr else none in
      let x3 = run (on_trade e.trade_id (update_trade_initial_disaster_levels stop atr_param)) x2 in
      run
        (insert_position_state (record {
          trade_id = e.trade_id;
          current_qty = some qty;
          highest_price = some price;
          last_check_ts = some (time_of x3);
        }))
        x3

  unfoldable pub snapshot_initial_oi : Entry D → Executor D → Executor D
  snapshot_initial_oi e x =
      let (oi, x1) = ask (λ n. world.get_open_interest n e.symbol) x in
      elim oi [
        | none ↦ x1
        | some v ↦
            if d.is_zero v || d.is_negative v
            then x1
            else run (on_trade e.trade_id (update_initial_oi v)) x1
      ]

  -- the id and the price of a placed algo
  unfoldable pub place_one_tp : Entry D → D → D → D → D → Effect (Executor D) (Option (ℕ × D))
  unfolding partial_qty with_price
  place_one_tp e qty price pct ratio x =
      let stop = round_to_tick e.tick_size (d.mul price (d.add (d.from_int (pos 1)) pct)) in
      let part = partial_qty e.step_size (d.mul qty ratio) in
      if d.is_zero pct || d.is_zero ratio || d.is_zero part
      then (none, x)
      else (let (id, x1) =
            send (take_profit e.symbol part stop)
              (λ n. world.place_algo_take_profit n e.symbol part stop) x in
          (with_price stop id, x1))

  unfoldable pub take_profits_placed :
      Entry D → Option (ℕ × D) → Option (ℕ × D) → Executor D → Executor D
  unfolding is_placed id_text price_placed
  take_profits_placed e first second x =
      if not (is_placed first) && not (is_placed second)
      then x
      else run
          (on_trade e.trade_id
            (update_trade_initial_tp_levels (price_placed first) (price_placed second)))
          (run (on_trade e.trade_id (update_trade_tp_algos (id_text first) (id_text second))) x)

  module _ (cfg : EntryConfig D) where
    unfoldable pub place_disaster_stop : Entry D → D → D → Executor D → Executor D
    unfolding stop_price
    place_disaster_stop e qty price x =
        let ((pct, atr), x1) = compute_stop_pct world cfg e.symbol price x in
        let stop = stop_price e price pct in
        let (placed, x2) =
          send (conditional_stop e.symbol qty stop)
            (λ n. world.place_algo_conditional_stop n e.symbol qty stop) x1 in
        elim placed [
          | none ↦
              let x3 = emergency_close e qty price "disaster_stop_placement_failed" x2 in
              run (trip_breaker (world.database_now x3.session.clock)) x3
          | some id ↦ disaster_stop_placed e qty price stop atr id x2
        ]

    unfoldable pub place_trailing_stop : Entry D → D → D → Executor D → Executor D
    place_trailing_stop e qty price x =
        let rt = world.runtime x.session.clock in
        let activate = trail_stage1_activate_pct rt cfg in
        let callback = trail_stage1_callback_rate rt cfg in
        let activation =
          round_to_tick e.tick_size (d.mul price (d.add (d.from_int (pos 1)) activate)) in
        let rate = d.mul callback (d.from_int (pos 100)) in
        if d.is_zero activate || d.is_zero callback
        then x
        else (let (placed, x1) =
              send (trailing_stop e.symbol qty activation rate)
                (λ n. world.place_algo_trailing_stop n e.symbol qty activation rate) x in
            elim placed [
              | none ↦ x1
              | some id ↦
                  run (on_trade e.trade_id (update_trade_trail_activate (algo id) activation)) x1
            ])

    unfoldable pub place_take_profits : Entry D → D → D → Executor D → Executor D
    place_take_profits e qty price x =
        if d.is_zero cfg.tp1_pct && d.is_zero cfg.tp2_pct
        then x
        else (let (first, x1) = place_one_tp e qty price cfg.tp1_pct cfg.tp1_ratio x in
            let (second, x2) = place_one_tp e qty price cfg.tp2_pct cfg.tp2_ratio x1 in
            take_profits_placed e first second x2)

    -- steps 6 to 13, each whatever the one before it did
    unfoldable pub protect : Entry D → D → D → Executor D → Executor D
    protect e qty price x =
        let x1 = place_disaster_stop e qty price x in
        let x2 = place_trailing_stop e qty price x1 in
        let x3 = place_take_profits e qty price x2 in snapshot_initial_oi e x3

    unfoldable pub entry_filled : Entry D → OrderResult D → Executor D → Executor D
    entry_filled e o x =
        let (done, x1) =
          on_session (exec (on_trade e.trade_id (update_trade_open (time_of x) o.avg_price))) x in
        if done
        then protect e o.executed_qty o.avg_price x1
        else emergency_close e o.executed_qty o.avg_price "db_update_open_failed" x1

    -- Step 5. A wait that is still polling has not returned.
    unfoldable pub entry_placed : Entry D → OrderResult D → Executor D → Executor D
    entry_placed e o x =
        let (fill, x1) = wait_fill world e.symbol o x in
        elim fill [
          | filled r ↦ entry_filled e r x1
          | unfilled ↦
              let x2 =
                (send (cancel_order e.symbol o.order_id)
                  (λ n. world.cancel_order n e.symbol o.order_id) x1).1 in
              mark_failed e "fill_timeout" x2
          | polling ↦ x1
        ]

    unfoldable pub place_entry : Entry D → Executor D → Executor D
    unfolding entry_refused
    place_entry e x =
        let (isolated, x1) =
          send (margin_type e.symbol) (λ n. world.set_margin_type n e.symbol) x in
        elim isolated [
          | none ↦ entry_refused e "set_margin_type_failed" x1
          | some _ ↦
              let times = leverage (world.runtime x1.session.clock) cfg in
              let (levered, x2) =
                send (set_leverage e.symbol times) (λ n. world.set_leverage n e.symbol times) x1 in
              elim levered [
                | none ↦ entry_refused e "set_leverage_failed" x2
                | some _ ↦
                    let (placed, x3) =
                      send (market_buy e.symbol e.qty (first_order_id e))
                        (λ n. world.place_market_buy n e.symbol e.qty (first_order_id e)) x2 in
                    elim placed [
                      | none ↦ mark_failed e "place_order_failed" x3
                      | some o ↦ entry_placed e o x3
                    ]
              ]
        ]
