-- ===== src/Execution/Entry/Placing/Guarded.antt =====
-- The requests that an entry leaves behind once its order to buy was accepted.
use mathlib.Core.List.{Memᴰ}
use binance_oi_square_trader.Prelude.{
  Option-elim_eq, if-elim, Option-elim, ℕ, ◌+◌, String, ◌≡◌, refl, ◌⊎◌, inl, inr, Bool, true, not,
  ◌&&◌, ◌||◌, Option, none, some, ◌∙◌, second, pos,
}
use binance_oi_square_trader.Decimal.{Decimal}
use binance_oi_square_trader.Storage.Trades.{algo, update_trade_open, update_trade_trail_activate}
use binance_oi_square_trader.Storage.Trades.Columns.{update_initial_oi}
use binance_oi_square_trader.Storage.Db.{exec, outside}
use binance_oi_square_trader.Binance.Orders.{OrderResult}
use binance_oi_square_trader.Execution.Trail.{on_trade}
use binance_oi_square_trader.Execution.Entry.{
  is_answer, Request, Call, EntryConfig, EntryWorld, Executor, send, on_session, ask, cancel_order,
  margin_type, set_leverage, market_buy, market_sell, conditional_stop, trailing_stop, leverage,
  trail_stage1_activate_pct, trail_stage1_callback_rate, round_to_tick, compute_stop_pct,
}
use binance_oi_square_trader.Execution.Entry.Fill.{
  Fill, filled, unfilled, polling, wait_fill, is_filled, Ticks,
}
use binance_oi_square_trader.Execution.Entry.Fill.Ending.{Ends, wait_fill-Ends}
use binance_oi_square_trader.Execution.Entry.Placing.{
  Entry, run, time_of, trip_breaker, mark_failed, emergency_close, disaster_stop_placed,
  snapshot_initial_oi, partial_qty, place_one_tp, is_placed, take_profits_placed, stop_price,
  place_disaster_stop, place_trailing_stop, place_take_profits, protect, entry_filled, entry_placed,
  place_entry, first_order_id,
}

elim-some {ℓ κ} :
    {A : Type ℓ} {B : Type κ} (o : Option A) (x : B) (f : A → B) (a : A)
    → o ≡ some a
    → (elim o [ none ↦ x | some b ↦ f b ]) ≡ f a
elim-some o x f a h = rw h refl

module _ {D : Type 0} where
  -- The request was sent, with this answer.
  abbrev pub Sent : Executor D → Request D → Bool → Type 0
  Sent x q ok = Memᴰ (record { request = q; accepted = ok }) x.sent

  -- What was sent stays sent.
  abbrev pub Later : Executor D → Executor D → Type 0
  Later x y = (c : Call D) → Memᴰ c x.sent → Memᴰ c y.sent

module _ {D : Type 0} ⦃d : Decimal D⦄ (world : EntryWorld D) where
  pub emergency_close-sells :
      (e : Entry D) (qty approx : D) (reason : String) (x : Executor D)
      → (ok : Bool) × Sent
          (emergency_close world e qty approx reason x)
          (market_sell e.symbol qty)
          ok
  unfolding emergency_close mark_failed on_session send
  emergency_close-sells e qty approx reason x = (_, Memᴰ.head refl)

  pub snapshot_initial_oi-Later :
      (e : Entry D) (x : Executor D) → Later x (snapshot_initial_oi world e x)
  unfolding snapshot_initial_oi on_session outside
  snapshot_initial_oi-Later e x =
      let (oi, x1) = ask (λ n. world.get_open_interest n e.symbol) x in
      Option-elim (λ (y : Executor D). Later x y) oi x1 _ (λ c m. m)
        (λ v.
          if-elim (λ (y : Executor D). Later x y) (d.is_zero v || d.is_negative v) x1
            (run (on_trade e.trade_id (update_initial_oi v)) x1) (λ c m. m) (λ c m. m))

  take_profits_placed-Later :
      (e : Entry D) (first second : Option (ℕ × D)) (x : Executor D)
      → Later x (take_profits_placed world e first second x)
  unfolding take_profits_placed on_session
  take_profits_placed-Later e first second x =
      if-elim (λ (y : Executor D). Later x y) (not (is_placed first) && not (is_placed second)) x _
        (λ c m. m) (λ c m. m)

  place_one_tp-Later :
      (e : Entry D) (qty price pct ratio : D) (x : Executor D)
      → Later x (place_one_tp world e qty price pct ratio x).1
  unfolding place_one_tp send
  place_one_tp-Later e qty price pct ratio x =
      let part = partial_qty e.step_size (d.mul qty ratio) in
      if-elim (λ (r : Option (ℕ × D) × Executor D). Later x r.1)
        (d.is_zero pct || d.is_zero ratio || d.is_zero part) _ _ (λ c m. m) (λ c m. Memᴰ.tail m)

  module _ (cfg : EntryConfig D) where
    -- A stop over the quantity was accepted, or a sell of the quantity was sent.
    abbrev pub Covered : Entry D → D → Executor D → Type 0
    Covered e qty y =
        ((stop : D) × Sent y (conditional_stop e.symbol qty stop) true)
        ⊎ ((ok : Bool) × Sent y (market_sell e.symbol qty) ok)

    Covered-Later :
        (e : Entry D) (qty : D) (x y : Executor D) → Later x y → Covered e qty x → Covered e qty y
    Covered-Later e qty x y later (inl (stop, m)) = inl (stop, later _ m)
    Covered-Later e qty x y later (inr (ok, m)) = inr (ok, later _ m)

    place_disaster_stop-Covered :
        (e : Entry D) (qty price : D) (x : Executor D)
        → Covered e qty (place_disaster_stop world cfg e qty price x)
    unfolding place_disaster_stop send disaster_stop_placed on_session is_answer
    place_disaster_stop-Covered e qty price x =
        let ((pct, atr), x1) = compute_stop_pct world cfg e.symbol price x in
        let stop = stop_price e price pct in
        let (placed, x2) =
          send (conditional_stop e.symbol qty stop)
            (λ n. world.place_algo_conditional_stop n e.symbol qty stop) x1 in
        let x3 = emergency_close world e qty price "disaster_stop_placement_failed" x2 in
        let now = world.database_now x3.session.clock in
        Option-elim_eq (λ (y : Executor D). Covered e qty y) placed (run (trip_breaker now) x3)
          (λ id. disaster_stop_placed world e qty price stop atr id x2)
          (λ refused. inr (emergency_close-sells e qty price "disaster_stop_placement_failed" x2))
          (λ id accepted. inl (stop, Memᴰ.head (rw accepted refl)))

    pub place_trailing_stop-Later :
        (e : Entry D) (qty price : D) (x : Executor D)
        → Later x (place_trailing_stop world cfg e qty price x)
    unfolding place_trailing_stop send on_session
    place_trailing_stop-Later e qty price x =
        let rt = world.runtime x.session.clock in
        let activate = trail_stage1_activate_pct rt cfg in
        let callback = trail_stage1_callback_rate rt cfg in
        let activation =
          round_to_tick e.tick_size (d.mul price (d.add (d.from_int (pos 1)) activate)) in
        let rate = d.mul callback (d.from_int (pos 100)) in
        let (placed, x1) =
          send (trailing_stop e.symbol qty activation rate)
            (λ n. world.place_algo_trailing_stop n e.symbol qty activation rate) x in
        if-elim (λ (y : Executor D). Later x y) (d.is_zero activate || d.is_zero callback) x _
          (λ c m. m)
          (Option-elim (λ (y : Executor D). Later x y) placed x1
            (λ id. run (on_trade e.trade_id (update_trade_trail_activate (algo id) activation)) x1)
            (λ c m. Memᴰ.tail m) (λ id c m. Memᴰ.tail m))

    pub place_take_profits-Later :
        (e : Entry D) (qty price : D) (x : Executor D)
        → Later x (place_take_profits world cfg e qty price x)
    unfolding place_take_profits
    place_take_profits-Later e qty price x =
        let (first, x1) = place_one_tp world e qty price cfg.tp1_pct cfg.tp1_ratio x in
        let (second, x2) = place_one_tp world e qty price cfg.tp2_pct cfg.tp2_ratio x1 in
        if-elim (λ (y : Executor D). Later x y) (d.is_zero cfg.tp1_pct && d.is_zero cfg.tp2_pct) x
          (take_profits_placed world e first second x2) (λ c m. m)
          (λ c m. take_profits_placed-Later e first second x2 c (
            place_one_tp-Later e qty price cfg.tp2_pct cfg.tp2_ratio x1 c
              (place_one_tp-Later e qty price cfg.tp1_pct cfg.tp1_ratio x c m)))

    pub protect-Covered :
        (e : Entry D) (qty price : D) (x : Executor D)
        → Covered e qty (protect world cfg e qty price x)
    unfolding protect
    protect-Covered e qty price x =
        let x1 = place_disaster_stop world cfg e qty price x in
        let x2 = place_trailing_stop world cfg e qty price x1 in
        let x3 = place_take_profits world cfg e qty price x2 in
        Covered-Later e qty x1 (snapshot_initial_oi world e x3)
          (λ c m. snapshot_initial_oi-Later e x3 c (
            place_take_profits-Later e qty price x2 c
              (place_trailing_stop-Later e qty price x1 c m)))
          (place_disaster_stop-Covered e qty price x)

    -- What the wait for the fill leads to: a filled order is covered over the quantity that it
    -- executed, and the order of a wait that ends without one is asked to be cancelled.
    pub data Guarded (e : Entry D) (o : OrderResult D) (fill : Fill D) (y : Executor D)
        : Type 0 where
      covered :
          (r : OrderResult D)
          → fill ≡ filled r
          → is_filled r ≡ true
          → Covered e r.executed_qty y
          → Guarded e o fill y
      cancelled :
          (ok : Bool)
          → fill ≡ unfilled
          → Sent y (cancel_order e.symbol o.order_id) ok
          → Guarded e o fill y

    entry_filled-Covered :
        (e : Entry D) (r : OrderResult D) (x : Executor D)
        → Covered e r.executed_qty (entry_filled world cfg e r x)
    unfolding entry_filled
    entry_filled-Covered e r x =
        let open_it = on_trade e.trade_id (update_trade_open (time_of world x) r.avg_price) in
        let (done, x1) = on_session (exec open_it) x in
        if-elim (λ (y : Executor D). Covered e r.executed_qty y) done
          (protect world cfg e r.executed_qty r.avg_price x1)
          (emergency_close world e r.executed_qty r.avg_price "db_update_open_failed" x1)
          (protect-Covered e r.executed_qty r.avg_price x1)
          (inr (emergency_close-sells e r.executed_qty r.avg_price "db_update_open_failed" x1))

    entry_placed-Guarded :
        (ticks : Ticks world) (e : Entry D) (o : OrderResult D) (x : Executor D)
        → Guarded e o (wait_fill world e.symbol o x).0 (entry_placed world cfg e o x)
    unfolding entry_placed send mark_failed on_session
    entry_placed-Guarded ticks e o x =
        let (fill, x1) = wait_fill world e.symbol o x in
        let x2 =
          (send (cancel_order e.symbol o.order_id) (λ n. world.cancel_order n e.symbol o.order_id)
            x1).1 in
        (elim fill
            as (λ f.
              Ends f
              → fill ≡ f
              → Guarded e o fill (elim f [
                | filled r ↦ entry_filled world cfg e r x1
                | unfilled ↦ mark_failed world e "fill_timeout" x2
                | polling ↦ x1
              ])) [
                | filled r ↦ λ (is, priced) same. covered r same is (entry_filled-Covered e r x1)
                | unfilled ↦ λ _ same. cancelled _ same (Memᴰ.head refl)
                | polling ↦ λ never same. absurd never
              ])
          (wait_fill-Ends world ticks e.symbol o x) refl

    -- the executor when the order to buy has been answered
    abbrev pub bought : Entry D → Executor D → Executor D
    bought e x =
        let x1 = (send (margin_type e.symbol) (λ n. world.set_margin_type n e.symbol) x).1 in
        let times = leverage (world.runtime x1.session.clock) cfg in
        let x2 =
          (send (set_leverage e.symbol times) (λ n. world.set_leverage n e.symbol times) x1).1 in
        (send (market_buy e.symbol e.qty (first_order_id e))
          (λ n. world.place_market_buy n e.symbol e.qty (first_order_id e)) x2).1

    place_entry-placed :
        (e : Entry D) (x : Executor D) (u v : Unit {0}) (o : OrderResult D)
        → world.set_margin_type x.session.clock e.symbol ≡ some u
        → world.set_leverage
            (x.session.clock + 1)
            e.symbol
            (leverage (world.runtime (x.session.clock + 1)) cfg)
          ≡ some v
        → world.place_market_buy (x.session.clock + 1 + 1) e.symbol e.qty (first_order_id e)
          ≡ some o
        → place_entry world cfg e x ≡ entry_placed world cfg e o (bought e x)
    unfolding place_entry send
    place_entry-placed e x u v o isolated levered placed =
        elim-some _ _ _ u isolated ∙ elim-some _ _ _ v levered ∙ elim-some _ _ _ o placed

    -- If the ticker's k-th tick comes no earlier than k half seconds after its start, then an entry
    -- whose margin type, leverage and order to buy the exchange accepts comes to an end. Where its
    -- wait for the fill returned a filled order, by then either a stop over the quantity that this
    -- order executed was accepted or a reduce-only sell of that quantity has been sent; where the
    -- wait ended without one, the order has been sent a cancel.
    pub place_entry-Guarded :
        (ticks : Ticks world) (e : Entry D) (x : Executor D) (u v : Unit {0}) (o : OrderResult D)
        → world.set_margin_type x.session.clock e.symbol ≡ some u
        → world.set_leverage
            (x.session.clock + 1)
            e.symbol
            (leverage (world.runtime (x.session.clock + 1)) cfg)
          ≡ some v
        → world.place_market_buy (x.session.clock + 1 + 1) e.symbol e.qty (first_order_id e)
          ≡ some o
        → Guarded e o (wait_fill world e.symbol o (bought e x)).0 (place_entry world cfg e x)
    place_entry-Guarded ticks e x u v o isolated levered placed =
        rw (place_entry-placed e x u v o isolated levered placed)
          (entry_placed-Guarded ticks e o (bought e x))
