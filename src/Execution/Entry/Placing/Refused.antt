-- ===== src/Execution/Entry/Placing/Refused.antt =====
-- What an entry does when the exchange refuses its disaster stop.
use mathlib.Core.List.{Memᴰ, append_assoc}
use binance_oi_square_trader.Storage.Trades.Columns.{update_initial_oi}
use binance_oi_square_trader.Prelude.{
  if-elim, Option-elim, ℕ, ◌+◌, ◌≡◌, refl, sym, ap, ◌∙◌, Bool, false, none, pos, not, ◌&&◌, ◌||◌,
  Option, List, [], ◌∷◌, ◌++◌,
}
use binance_oi_square_trader.Decimal.{Decimal}
use binance_oi_square_trader.Storage.Db.{outside}
use binance_oi_square_trader.Execution.Trail.{on_trade}
use binance_oi_square_trader.Storage.Trades.{algo, update_trade_trail_activate}
use binance_oi_square_trader.Execution.Entry.{
  Call, ask, is_answer, round_to_tick, EntryConfig, EntryWorld, Executor, send, on_session,
  conditional_stop, market_sell, trailing_stop, trail_stage1_activate_pct,
  trail_stage1_callback_rate, compute_stop_pct,
}
use binance_oi_square_trader.Execution.Entry.Placing.{
  is_placed, partial_qty, take_profits_placed, place_one_tp, Entry, snapshot_initial_oi,
  place_trailing_stop, place_take_profits, protect, run, stop_price, place_disaster_stop,
  place_trailing_stop, protect, place_take_profits,
}
use binance_oi_square_trader.Execution.Entry.Placing.Guarded.{Sent, emergency_close-sells}

module _ {D : Type 0} where
  -- The requests of the first executor are the older ones of the second.
  abbrev Extends : Executor D → Executor D → Type 0
  Extends x y = (newer : List (Call D)) × (y.sent ≡ newer ++ x.sent)

  Extends-trans : (x y z : Executor D) → Extends x y → Extends y z → Extends x z
  Extends-trans x y z (ns, e) (ms, f) =
      (ms ++ ns, f ∙ ap (λ cs. ms ++ cs) e ∙ sym (append_assoc ms ns x.sent))

module _ {D : Type 0} ⦃d : Decimal D⦄ (world : EntryWorld D) (e : Entry D) where
  snapshot_initial_oi-Extends : (x : Executor D) → Extends x (snapshot_initial_oi world e x)
  unfolding snapshot_initial_oi on_session outside
  snapshot_initial_oi-Extends x =
      let (oi, x1) = ask (λ n. world.get_open_interest n e.symbol) x in
      Option-elim (λ (y : Executor D). Extends x y) oi x1 _ ([], refl)
        (λ v.
          if-elim (λ (y : Executor D). Extends x y) (d.is_zero v || d.is_negative v) x1
            (run (on_trade e.trade_id (update_initial_oi v)) x1) ([], refl) ([], refl))

  take_profits_placed-Extends :
      (first second : Option (ℕ × D)) (x : Executor D)
      → Extends x (take_profits_placed world e first second x)
  unfolding take_profits_placed on_session
  take_profits_placed-Extends first second x =
      if-elim (λ (y : Executor D). Extends x y) (not (is_placed first) && not (is_placed second)) x
        _ ([], refl) ([], refl)

  place_one_tp-Extends :
      (qty price pct ratio : D) (x : Executor D)
      → Extends x (place_one_tp world e qty price pct ratio x).1
  unfolding place_one_tp send
  place_one_tp-Extends qty price pct ratio x =
      let part = partial_qty e.step_size (d.mul qty ratio) in
      if-elim (λ (r : Option (ℕ × D) × Executor D). Extends x r.1)
        (d.is_zero pct || d.is_zero ratio || d.is_zero part) _ _ ([], refl) (_ ∷ [], refl)

  place_take_profits-Extends :
      (cfg : EntryConfig D) (qty price : D) (x : Executor D)
      → Extends x (place_take_profits world cfg e qty price x)
  unfolding place_take_profits
  place_take_profits-Extends cfg qty price x =
      let (first, x1) = place_one_tp world e qty price cfg.tp1_pct cfg.tp1_ratio x in
      let (second, x2) = place_one_tp world e qty price cfg.tp2_pct cfg.tp2_ratio x1 in
      let x3 = take_profits_placed world e first second x2 in
      if-elim (λ (y : Executor D). Extends x y) (d.is_zero cfg.tp1_pct && d.is_zero cfg.tp2_pct) x
        x3 ([], refl)
        (Extends-trans x x2 x3
          (Extends-trans x x1 x2 (place_one_tp-Extends qty price cfg.tp1_pct cfg.tp1_ratio x)
            (place_one_tp-Extends qty price cfg.tp2_pct cfg.tp2_ratio x1))
          (take_profits_placed-Extends first second x2))

module _ {D : Type 0} ⦃d : Decimal D⦄ (world : EntryWorld D) (cfg : EntryConfig D) (e : Entry D)
    (qty price : D) where
  place_disaster_stop-sells :
      (x : Executor D)
      → ((n : ℕ) (stop : D) → world.place_algo_conditional_stop n e.symbol qty stop ≡ none)
      → (sold : Bool) × Sent
          (place_disaster_stop world cfg e qty price x)
          (market_sell e.symbol qty)
          sold
  unfolding place_disaster_stop send compute_stop_pct on_session outside
  place_disaster_stop-sells x refuses =
      let ((pct, atr), x1) = compute_stop_pct world cfg e.symbol price x in
      let stop = stop_price e price pct in
      let x2 =
        (send (conditional_stop e.symbol qty stop)
          (λ n. world.place_algo_conditional_stop n e.symbol qty stop) x1).1 in
      rw (refuses (x.session.clock + 1) stop)
        (emergency_close-sells world e qty price "disaster_stop_placement_failed" x2)

  place_trailing_stop-sends :
      (x : Executor D)
      → ((n : ℕ) → d.is_zero (trail_stage1_activate_pct (world.runtime n) cfg) ≡ false)
      → ((n : ℕ) → d.is_zero (trail_stage1_callback_rate (world.runtime n) cfg) ≡ false)
      → (activation : D) × (rate : D) × (placed : Bool) × ((place_trailing_stop world cfg e qty
            price x).sent
          ≡ record { request = trailing_stop e.symbol qty activation rate; accepted = placed }
            ∷ x.sent)
  unfolding place_trailing_stop send on_session
  place_trailing_stop-sends x activate callback =
      let rt = world.runtime x.session.clock in
      let activation =
        round_to_tick e.tick_size
          (d.mul price (d.add (d.from_int (pos 1)) (trail_stage1_activate_pct rt cfg))) in
      let rate = d.mul (trail_stage1_callback_rate rt cfg) (d.from_int (pos 100)) in
      let (placed, x1) =
        send (trailing_stop e.symbol qty activation rate)
          (λ n. world.place_algo_trailing_stop n e.symbol qty activation rate) x in
      (
        activation,
        rate,
        is_answer placed,
        rw (activate x.session.clock) (
            rw (callback x.session.clock) (
              Option-elim (λ (y : Executor D). y.sent ≡ x1.sent) placed x1
                (λ id.
                  run (on_trade e.trade_id (update_trade_trail_activate (algo id) activation)) x1)
                refl (λ id. refl))),
      )

  -- The entry goes on after the sell: if the exchange refuses the stop, and the thresholds of the
  -- first stage are not zero, then a trailing stop over the quantity is sent, and among the requests
  -- that were sent before it there is the sell of that quantity.
  pub protect-trailing_after_sell :
      (x : Executor D)
      → ((n : ℕ) (stop : D) → world.place_algo_conditional_stop n e.symbol qty stop ≡ none)
      → ((n : ℕ) → d.is_zero (trail_stage1_activate_pct (world.runtime n) cfg) ≡ false)
      → ((n : ℕ) → d.is_zero (trail_stage1_callback_rate (world.runtime n) cfg) ≡ false)
      → (newer : List (Call D)) × (older : List (Call D)) × (activation : D) × (rate : D)
        × (placed : Bool) × (sold : Bool) × ((protect world cfg e qty price x).sent
            ≡ newer
              ++ (record { request = trailing_stop e.symbol qty activation rate; accepted = placed }
                  ∷ older))
        × Memᴰ (record { request = market_sell e.symbol qty; accepted = sold }) older
  unfolding protect
  protect-trailing_after_sell x refuses activate callback =
      let x1 = place_disaster_stop world cfg e qty price x in
      let x2 = place_trailing_stop world cfg e qty price x1 in
      let x3 = place_take_profits world cfg e qty price x2 in
      let (sold, m) = place_disaster_stop-sells x refuses in
      let (activation, rate, placed, sent) = place_trailing_stop-sends x1 activate callback in
      let (newer, after) =
        Extends-trans x2 x3 (snapshot_initial_oi world e x3)
          (place_take_profits-Extends world e cfg qty price x2)
          (snapshot_initial_oi-Extends world e x3) in
      (newer, x1.sent, activation, rate, placed, sold, after ∙ ap (λ cs. newer ++ cs) sent, m)
