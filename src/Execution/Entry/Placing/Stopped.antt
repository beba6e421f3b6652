-- ===== src/Execution/Entry/Placing/Stopped.antt =====
-- What an entry leaves of the disaster stops that the table trades records.
use binance_oi_square_trader.Storage.Positions.{insert_position_state}
use binance_oi_square_trader.Storage.Trades.Columns.{
  update_trade_initial_disaster_levels, update_trade_initial_tp_levels, update_trade_disaster_stop,
  update_initial_oi, update_trade_tp_algos,
}
use mathlib.Core.Path.{subst}
use binance_oi_square_trader.Prelude.{
  pos, Option, Option-elim, if-elim, ℕ, String, ◌≡◌, refl, sym, ◌⊎◌, inl, inr, Bool, true, false,
  some, List, arith, All, ◌&&◌, ◌||◌, not,
}
use binance_oi_square_trader.Decimal.{Decimal}
use binance_oi_square_trader.Storage.Trades.{
  update_trade_trail_activate, Status, opened, partly_closed, AlgoText, Trade, update_trade_failed,
}
use binance_oi_square_trader.Storage.Trades.Rows.{All-update_where_id, ButFor, All-restored}
use binance_oi_square_trader.Storage.Db.{outside, Db}
use binance_oi_square_trader.Storage.Positions.{insert_position_state}
use binance_oi_square_trader.Storage.Db.Effects.{exec-db, exec-keeps, exec-faults, exec-done}
use binance_oi_square_trader.Execution.Trail.{on_trade}
use binance_oi_square_trader.Execution.Exit.{insert_trade_exit}
use binance_oi_square_trader.Execution.Entry.{
  trailing_stop, trailing_stop, round_to_tick, trail_stage1_callback_rate, conditional_stop, ask,
  trail_stage1_activate_pct, compute_stop_pct, EntryConfig, market_sell, EntryWorld, Executor, send,
  on_session,
}
use binance_oi_square_trader.Execution.Entry.Placing.{
  is_placed, algo, stop_price, trip_breaker, reset_failures, place_disaster_stop, protect,
  place_trailing_stop, place_take_profits, place_one_tp, disaster_stop_placed, snapshot_initial_oi,
  take_profits_placed, Entry, run, mark_failed, emergency_close,
}

abbrev is_held : Status → Bool
is_held opened = true
is_held partly_closed = true
is_held _ = false

module _ {D : Type 0} where
  -- It is not open, or it has the id of a disaster stop.
  abbrev pub HasStop : Trade D → Type 0
  HasStop t =
      (is_held t.status ≡ false) ⊎ ((a : AlgoText) × (t.binance_disaster_stop_order_id ≡ some a))

  abbrev pub NoFaults : Executor D → Type 0
  NoFaults x = (n : ℕ) → x.session.faults n ≡ false

  abbrev pub rows : Executor D → List (Trade D)
  rows x = x.session.db.trades.rows

  pub run-faults : (f : Db D → Db D) (x : Executor D) → NoFaults x → NoFaults (run f x)
  unfolding on_session
  run-faults f x ok n = rw (exec-faults f x.session) (ok n)

  pub run-All :
      (P : Trade D → Type 0) (id : ℕ) (f : Trade D → Trade D) (x : Executor D)
      → ((t : Trade D) → P t → P (f t))
      → All P (rows x)
      → All P (rows (run (on_trade id f) x))
  unfolding on_session on_trade
  run-All P id f x keeps all = elim (exec-db (on_trade id f) x.session) [
    | inl (failed, same) ↦ subst (λ (db : Db D). All P db.trades.rows) (sym same) all
    | inr (done, wrote) ↦
        subst (λ (db : Db D). All P db.trades.rows) (sym wrote)
          (All-update_where_id P id f (rows x) keeps all)
  ]

  -- a statement on another table
  run-elsewhere :
      (P : Trade D → Type 0) (f : Db D → Db D) (x : Executor D)
      → ((db : Db D) → (f db).trades ≡ db.trades)
      → All P (rows x)
      → All P (rows (run f x))
  unfolding on_session
  run-elsewhere P f x leaves all =
      subst (λ (t : _). All P t.rows) (sym (exec-keeps (λ db. db.trades) f x.session leaves)) all

  pub run-restores :
      (P : Trade D → Type 0) (id : ℕ) (f : Trade D → Trade D) (x : Executor D)
      → NoFaults x
      → ((t : Trade D) → P (f t))
      → All (ButFor id P) (rows x)
      → All P (rows (run (on_trade id f) x))
  unfolding on_session on_trade
  run-restores P id f x ok makes all =
      subst (λ (db : Db D). All P db.trades.rows)
        (sym (exec-done (on_trade id f) x.session (ok x.session.clock)).1)
        (All-restored P id f (rows x) makes all)

module _ {D : Type 0} ⦃d : Decimal D⦄ (world : EntryWorld D) where
  pub emergency_close-HasStop :
      (e : Entry D) (qty approx : D) (reason : String) (x : Executor D)
      → NoFaults x
      → All (ButFor e.trade_id HasStop) (rows x)
      → All HasStop (rows (emergency_close world e qty approx reason x))
  unfolding emergency_close mark_failed send update_trade_failed insert_trade_exit
  emergency_close-HasStop e qty approx reason x ok all =
      let (closed, x1) =
        send (market_sell e.symbol qty) (λ n. world.place_market_order_reduce_only n e.symbol qty)
          x in
      run-restores HasStop e.trade_id _ _ (run-faults _ x1 ok) (λ t. inl refl)
        (run-elsewhere (ButFor e.trade_id HasStop) _ x1 (λ db. ground arith) all)

  disaster_stop_placed-HasStop :
      (e : Entry D) (qty price stop atr : D) (id : ℕ) (x : Executor D)
      → NoFaults x
      → All (ButFor e.trade_id HasStop) (rows x)
      → All HasStop (rows (disaster_stop_placed world e qty price stop atr id x))
  unfolding disaster_stop_placed reset_failures update_trade_disaster_stop
      update_trade_initial_disaster_levels insert_position_state
  disaster_stop_placed-HasStop e qty price stop atr id x ok all =
      let x1 = run reset_failures x in
      let x2 = run (on_trade e.trade_id (update_trade_disaster_stop (algo id))) x1 in
      run-elsewhere HasStop _ _ (λ db. ground arith)
        (run-All HasStop e.trade_id _ x2 (λ t h. h)
          (run-restores HasStop e.trade_id _ x1 (run-faults reset_failures x ok)
            (λ t. inr (algo id, refl))
            (run-elsewhere (ButFor e.trade_id HasStop) reset_failures x (λ db. refl) all)))

  snapshot_initial_oi-HasStop :
      (e : Entry D) (x : Executor D)
      → All HasStop (rows x)
      → All HasStop (rows (snapshot_initial_oi world e x))
  unfolding snapshot_initial_oi update_initial_oi on_session outside
  snapshot_initial_oi-HasStop e x all =
      let (oi, x1) = ask (λ n. world.get_open_interest n e.symbol) x in
      Option-elim (λ (y : Executor D). All HasStop (rows y)) oi x1 _ all
        (λ v.
          if-elim (λ (y : Executor D). All HasStop (rows y)) (d.is_zero v || d.is_negative v) x1
            (run (on_trade e.trade_id (update_initial_oi v)) x1) all
            (run-All HasStop e.trade_id (update_initial_oi v) x1 (λ t h. h) all))

  take_profits_placed-HasStop :
      (e : Entry D) (first second : Option (ℕ × D)) (x : Executor D)
      → All HasStop (rows x)
      → All HasStop (rows (take_profits_placed world e first second x))
  unfolding take_profits_placed update_trade_tp_algos update_trade_initial_tp_levels
  take_profits_placed-HasStop e first second x all =
      if-elim (λ (y : Executor D). All HasStop (rows y))
        (not (is_placed first) && not (is_placed second)) x _ all
        (run-All HasStop e.trade_id _ _ (λ t h. h) (run-All HasStop e.trade_id _ x (λ t h. h) all))

  place_one_tp-rows :
      (e : Entry D) (qty price pct ratio : D) (x : Executor D)
      → rows (place_one_tp world e qty price pct ratio x).1 ≡ rows x
  unfolding place_one_tp send
  place_one_tp-rows e qty price pct ratio x = ground arith

  module _ (cfg : EntryConfig D) where
    place_disaster_stop-HasStop :
        (e : Entry D) (qty price : D) (x : Executor D)
        → NoFaults x
        → All (ButFor e.trade_id HasStop) (rows x)
        → All HasStop (rows (place_disaster_stop world cfg e qty price x))
    unfolding place_disaster_stop send compute_stop_pct on_session outside trip_breaker
    place_disaster_stop-HasStop e qty price x ok all =
        let ((pct, atr), x1) = compute_stop_pct world cfg e.symbol price x in
        let stop = stop_price e price pct in
        let (placed, x2) =
          send (conditional_stop e.symbol qty stop)
            (λ n. world.place_algo_conditional_stop n e.symbol qty stop) x1 in
        let x3 = emergency_close world e qty price "disaster_stop_placement_failed" x2 in
        let now = world.database_now x3.session.clock in
        Option-elim (λ (y : Executor D). All HasStop (rows y)) placed (run (trip_breaker now) x3)
          (λ id. disaster_stop_placed world e qty price stop atr id x2)
          (run-elsewhere HasStop (trip_breaker now) x3 (λ db. refl)
            (emergency_close-HasStop e qty price "disaster_stop_placement_failed" x2 ok all))
          (λ id. disaster_stop_placed-HasStop e qty price stop atr id x2 ok all)

    place_trailing_stop-HasStop :
        (e : Entry D) (qty price : D) (x : Executor D)
        → All HasStop (rows x)
        → All HasStop (rows (place_trailing_stop world cfg e qty price x))
    unfolding place_trailing_stop send update_trade_trail_activate
    place_trailing_stop-HasStop e qty price x all =
        let rt = world.runtime x.session.clock in
        let activate = trail_stage1_activate_pct rt cfg in
        let callback = trail_stage1_callback_rate rt cfg in
        let activation =
          round_to_tick e.tick_size (d.mul price (d.add (d.from_int (pos 1)) activate)) in
        let rate = d.mul callback (d.from_int (pos 100)) in
        let (placed, x1) =
          send (trailing_stop e.symbol qty activation rate)
            (λ n. world.place_algo_trailing_stop n e.symbol qty activation rate) x in
        if-elim (λ (y : Executor D). All HasStop (rows y))
          (d.is_zero activate || d.is_zero callback) x _ all
          (Option-elim (λ (y : Executor D). All HasStop (rows y)) placed x1
            (λ id. run (on_trade e.trade_id (update_trade_trail_activate (algo id) activation)) x1)
            all
            (λ id.
              run-All HasStop e.trade_id (update_trade_trail_activate (algo id) activation) x1
                (λ t h. h) all))

    place_take_profits-HasStop :
        (e : Entry D) (qty price : D) (x : Executor D)
        → All HasStop (rows x)
        → All HasStop (rows (place_take_profits world cfg e qty price x))
    unfolding place_take_profits
    place_take_profits-HasStop e qty price x all =
        let (first, x1) = place_one_tp world e qty price cfg.tp1_pct cfg.tp1_ratio x in
        let (second, x2) = place_one_tp world e qty price cfg.tp2_pct cfg.tp2_ratio x1 in
        if-elim (λ (y : Executor D). All HasStop (rows y))
          (d.is_zero cfg.tp1_pct && d.is_zero cfg.tp2_pct) x
          (take_profits_placed world e first second x2) all
          (take_profits_placed-HasStop e first second x2 (
            subst (All HasStop) (sym (place_one_tp-rows e qty price cfg.tp2_pct cfg.tp2_ratio x1)) (
              subst (All HasStop) (sym (place_one_tp-rows e qty price cfg.tp1_pct cfg.tp1_ratio x))
                all)))

    pub protect-HasStop :
        (e : Entry D) (qty price : D) (x : Executor D)
        → NoFaults x
        → All (ButFor e.trade_id HasStop) (rows x)
        → All HasStop (rows (protect world cfg e qty price x))
    unfolding protect
    protect-HasStop e qty price x ok all = snapshot_initial_oi-HasStop e _ (
        place_take_profits-HasStop e qty price _ (
          place_trailing_stop-HasStop e qty price _
            (place_disaster_stop-HasStop e qty price x ok all)))
