-- ===== src/Execution/Entry/Fill/Quiet.antt =====
-- The wait for a fill touches neither the database nor the requests sent.
use binance_oi_square_trader.Prelude.{
  if-elim, Option-elim, ℕ, zero, suc, ◌+◌, String, ◌≡◌, refl, Option, none, some, ltb,
  if◌then◌else◌,
}
use binance_oi_square_trader.Decimal.{Decimal}
use binance_oi_square_trader.Storage.Db.{outside}
use binance_oi_square_trader.Binance.Orders.{OrderResult}
use binance_oi_square_trader.Execution.Entry.{EntryWorld, Executor, on_session, ask}
use binance_oi_square_trader.Execution.Entry.Fill.{
  Fill, filled, unfilled, wait_fill, poll, at_deadline, position_entry_price_fallback, is_priced,
  settles, remember, fill_timeout, fill_polls,
}

module _ {D : Type 0} ⦃d : Decimal D⦄ (world : EntryWorld D) where
  -- neither the database nor a request
  abbrev pub Quiet : Executor D → Executor D → Type 0
  Quiet x y =
      (y.session.db ≡ x.session.db) × (y.session.faults ≡ x.session.faults) × (y.sent ≡ x.sent)

  at_deadline-Quiet :
      (symbol : String) (last : Option (OrderResult D)) (x : Executor D)
      → Quiet x (at_deadline world symbol last x).1
  unfolding at_deadline position_entry_price_fallback on_session outside
  at_deadline-Quiet symbol none x = (refl, refl, refl)
  at_deadline-Quiet symbol (some last) x =
      let (price, x1) = position_entry_price_fallback world symbol x in
      Option-elim (λ (r : Fill D × Executor D). Quiet x r.1) price (unfilled, x1)
        (λ p. (filled (record last { avg_price = p }), x1)) (refl, refl, refl)
        (λ p. (refl, refl, refl))

  poll-Quiet :
      (symbol : String) (order started fuel k : ℕ) (last : Option (OrderResult D)) (x : Executor D)
      → Quiet x (poll world symbol order started fuel k last x).1
  unfolding poll on_session outside
  poll-Quiet symbol order started zero k last x = (refl, refl, refl)
  poll-Quiet symbol order started (suc fuel) k last x =
      let deadline = world.now started + fill_timeout in
      let (answer, x1) = ask (λ n. world.get_order n symbol order) x in
      let go_on = poll world symbol order started fuel (k + 1) (remember last answer) x1 in
      let polled : Fill D × Executor D = elim (settles answer) [
        | some r ↦ (filled r, x1)
        | none ↦ go_on
      ] in
      let past = at_deadline world symbol last x in
      if-elim (λ (r : Fill D × Executor D). Quiet x r.1) (world.context_done started k)
        (unfilled, x) (if ltb deadline (world.tick started k) then past else polled)
        (refl, refl, refl)
        (if-elim (λ (r : Fill D × Executor D). Quiet x r.1) (ltb deadline (world.tick started k))
          past polled (at_deadline-Quiet symbol last x)
          (Option-elim (λ (r : Fill D × Executor D). Quiet x r.1) (settles answer) go_on
            (λ r. (filled r, x1))
            (poll-Quiet symbol order started fuel (k + 1) (remember last answer) x1)
            (λ r. (refl, refl, refl))))

  pub wait_fill-Quiet :
      (symbol : String) (initial : OrderResult D) (x : Executor D)
      → Quiet x (wait_fill world symbol initial x).1
  unfolding wait_fill
  wait_fill-Quiet symbol initial x =
      if-elim (λ (r : Fill D × Executor D). Quiet x r.1) (is_priced initial) (filled initial, x)
        (poll world symbol initial.order_id x.session.clock fill_polls 1 none x) (refl, refl, refl)
        (poll-Quiet symbol initial.order_id x.session.clock fill_polls 1 none x)
