-- ===== src/Execution/Entry/Fill/Ending.antt =====
-- How the wait for a fill ends.
use binance_oi_square_trader.Prelude.{
  if-elim_eq, Option-elim_eq, ℕ, zero, suc, ◌+◌, ◌-◌, ◌*◌, ◌≤◌, String, ◌≡◌, refl, inl, inr, true,
  false, Option, none, some, List, [], ◌∷◌, arith, ltb, Bool-cases,
}
use binance_oi_square_trader.Decimal.{Decimal}
use binance_oi_square_trader.Binance.Orders.{OrderResult}
use binance_oi_square_trader.Storage.Db.{outside}
use binance_oi_square_trader.Execution.Entry.{on_session, PositionRisk, EntryWorld, Executor, ask}
use binance_oi_square_trader.Execution.Entry.Fill.{
  Fill, filled, unfilled, polling, fill_timeout, is_filled, is_priced, settles, remember,
  is_entered, position_entry_price, price_of, position_entry_price_fallback, at_deadline, poll,
  wait_fill, half_second, fill_polls, Ticks,
}

module _ {D : Type 0} ⦃d : Decimal D⦄ where
  -- It ends, and with a filled order only at a price.
  abbrev pub Ends : Fill D → Type 0
  Ends (filled o) = (is_filled o ≡ true) × (d.is_zero o.avg_price ≡ false)
  Ends unfilled = Unit {0}
  Ends polling = ⊥

  abbrev Seen : Option (OrderResult D) → Type 0
  Seen none = Unit {0}
  Seen (some r) = is_filled r ≡ true

  remember-Seen : (last answer : Option (OrderResult D)) → Seen last → Seen (remember last answer)
  unfolding remember
  remember-Seen last none h = h
  remember-Seen last (some r) h = elim (Bool-cases (is_filled r)) [
    | inl e ↦ rw e e
    | inr e ↦ rw e h
  ]

  settles-priced :
      (answer : Option (OrderResult D)) (r : OrderResult D)
      → settles answer ≡ some r
      → (is_filled r ≡ true) × (d.is_zero r.avg_price ≡ false)
  unfolding settles is_priced
  settles-priced none r h = ground arith
  settles-priced (some o) r h = ground arith

  position_entry_price-nonzero :
      (symbol : String) (ps : List (PositionRisk D)) (p : D)
      → position_entry_price symbol ps ≡ some p
      → d.is_zero p ≡ false
  unfolding position_entry_price is_entered
  position_entry_price-nonzero symbol [] p h = ground arith
  position_entry_price-nonzero symbol (q ∷ ps) p h =
      ground (arith, position_entry_price-nonzero symbol ps p)

  module _ (world : EntryWorld D) where
    price_of-nonzero :
        (symbol : String) (ps : Option (List (PositionRisk D))) (p : D)
        → price_of world symbol ps ≡ some p
        → d.is_zero p ≡ false
    unfolding price_of
    price_of-nonzero symbol none p h = ground arith
    price_of-nonzero symbol (some ps) p h = position_entry_price-nonzero symbol ps p h

    at_deadline-Ends :
        (symbol : String) (last : Option (OrderResult D)) (x : Executor D)
        → Seen last
        → Ends (at_deadline world symbol last x).0
    unfolding at_deadline position_entry_price_fallback is_filled on_session outside
    at_deadline-Ends symbol none x seen = tt
    at_deadline-Ends symbol (some last) x seen =
        Option-elim_eq (λ (r : Fill D × Executor D). Ends r.0)
          (position_entry_price_fallback world symbol x).0 _ _ (λ e. tt)
          (λ p e.
            (seen, price_of-nonzero symbol (world.get_position_risk x.session.clock symbol) p e))

    module _ (ticks : Ticks world) (symbol : String) (order started : ℕ) where
      poll-Ends :
          (fuel k : ℕ) (last : Option (OrderResult D)) (x : Executor D)
          → fuel + k ≡ suc fill_polls
          → (k - 1) * half_second ≤ fill_timeout
          → Seen last
          → Ends (poll world symbol order started fuel k last x).0
      unfolding poll
      poll-Ends zero k last x count early seen = omega arith
      poll-Ends (suc fuel) k last x count early seen =
          let deadline = world.now started + fill_timeout in
          let (answer, x1) = ask (λ n. world.get_order n symbol order) x in
          if-elim_eq (λ (r : Fill D × Executor D). Ends r.0) (world.context_done started k) _ _
            (λ e. tt)
            (λ e.
              if-elim_eq (λ (r : Fill D × Executor D). Ends r.0)
                (ltb deadline (world.tick started k)) _ _
                (λ late. at_deadline-Ends symbol last x seen)
                (λ early.
                  Option-elim_eq (λ (r : Fill D × Executor D). Ends r.0) (settles answer) _ _
                    (λ none_yet.
                      poll-Ends fuel (k + 1) (remember last answer) x1 (omega arith)
                        (ground (arith, ticks started k)) (remember-Seen last answer seen))
                    (λ r found. settles-priced answer r found)))

    -- If the ticker's k-th tick comes no earlier than k half seconds after its start, the wait for a
    -- fill ends within its 21 polls, whatever the exchange answers: with an error, or with an order
    -- whose status is FILLED and whose price is not zero.
    pub wait_fill-Ends :
        (ticks : Ticks world) (symbol : String) (initial : OrderResult D) (x : Executor D)
        → Ends (wait_fill world symbol initial x).0
    unfolding wait_fill is_priced
    wait_fill-Ends ticks symbol initial x = elim (Bool-cases (is_priced initial)) [
      | inl e ↦ rw e (ground arith)
      | inr e ↦ rw e (
          poll-Ends ticks symbol initial.order_id x.session.clock fill_polls 1 none x refl
            (omega arith) tt)
    ]
