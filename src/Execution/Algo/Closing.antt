-- ===== src/Execution/Algo/Closing.antt =====
-- A close by an algo that is tried again, as the reconciler and the position manager both may.
use binance_oi_square_trader.Prelude.{
  Option-elim_eq, if-elim, ℕ, String, ◌≡◌, refl, ◌∙◌, ◌⊎◌, inl, inr, Bool, true, false, not, ◌||◌,
  Option, none, some, List, ◌∷◌, arith, Time, ◌==◌, if◌then◌else◌, Bool-cases,
}
use binance_oi_square_trader.Decimal.{Decimal}
use binance_oi_square_trader.Storage.Trades.{AlgoText, malformed, algo, update_trade_closed}
use binance_oi_square_trader.Storage.Db.{Session, TradeExit, outside, exec, query}
use binance_oi_square_trader.Storage.Db.Effects.{exec-keeps}
use binance_oi_square_trader.Execution.Trail.{on_trade}
use binance_oi_square_trader.Execution.Exit.{has_exit}
use binance_oi_square_trader.Execution.Exit.Close.{clean_up}
use binance_oi_square_trader.Execution.Exit.Closing.{clean_up-exits}
use text.Mathlib.TextPositions.{eq_refl}
use binance_oi_square_trader.Execution.Algo.{
  AlgoQuery, AlgoWorld, insert_trade_exit_idempotent, sum_algo_fees, auto_close_from_fields,
  close_recorded, algo_close_price, algo_close_qty, clock_of,
}

module _ {D : Type 0} where
  has_exit-head :
      (e : TradeExit D) (es : List (TradeExit D)) → has_exit e.trade_id e.kind (e ∷ es) ≡ true
  unfolding has_exit
  has_exit-head e es = rw (eq_refl e.kind) (ground arith)

  -- A row that is there already is not inserted again.
  insert-again :
      (e : TradeExit D) (s : Session D)
      → has_exit e.trade_id e.kind s.db.trade_exits ≡ true
      → ((query (insert_trade_exit_idempotent e) s).1.db ≡ s.db)
        × (((query (insert_trade_exit_idempotent e) s).0 ≡ none)
            ⊎ ((query (insert_trade_exit_idempotent e) s).0 ≡ some 0))
  unfolding query insert_trade_exit_idempotent
  insert-again e s recorded = ground arith

  insert-records :
      (e : TradeExit D) (s : Session D)
      → ((query (insert_trade_exit_idempotent e) s).0 ≡ none)
        ⊎ (has_exit e.trade_id e.kind (query (insert_trade_exit_idempotent e) s).1.db.trade_exits
            ≡ true)
  unfolding query insert_trade_exit_idempotent
  insert-records e s = ground (arith, has_exit-head e s.db.trade_exits)

module _ {D : Type 0} ⦃d : Decimal D⦄ where
  module _ (world : AlgoWorld D) where
    sum_algo_fees-db :
        (symbol : String) (order : Option AlgoText) (s : Session D)
        → (sum_algo_fees world symbol order s).1.db ≡ s.db
    unfolding sum_algo_fees outside
    sum_algo_fees-db symbol none s = refl
    sum_algo_fees-db symbol (some malformed) s = refl
    sum_algo_fees-db symbol (some (algo order)) s = ground arith

    close_recorded-exits :
        (id : ℕ) (price pnl fees : D) (reason : String) (now : Time) (s : Session D)
        → (close_recorded world id price pnl fees reason now s).1.db.trade_exits ≡ s.db.trade_exits
    unfolding close_recorded on_trade
    close_recorded-exits id price pnl fees reason now s =
        let (done, s1) = exec (on_trade id (update_trade_closed now price reason pnl fees)) s in
        let kept : s1.db.trade_exits ≡ s.db.trade_exits =
          exec-keeps (λ db. db.trade_exits)
            (on_trade id (update_trade_closed now price reason pnl fees)) s (λ db. refl) in
        if-elim (λ (r : Bool × Session D). r.1.db.trade_exits ≡ s.db.trade_exits) (not done)
          (false, s1) (true, clean_up world.database_now id pnl now s1) kept
          (clean_up-exits world.database_now id pnl now s1 ∙ kept)

    module _ (id : ℕ) (symbol reason : String) where
      abbrev Closed : Bool × Session D → Type 0
      Closed (closed, s) = closed ≡ true → has_exit id reason s.db.trade_exits ≡ true

      -- a second record is not made
      auto_close-recorded :
          (q : AlgoQuery D) (entry_price qty : D) (s : Session D)
          → has_exit id reason s.db.trade_exits ≡ true
          → (auto_close_from_fields world id symbol q entry_price qty reason s).1.db ≡ s.db
      unfolding auto_close_from_fields
      auto_close-recorded q entry_price qty s recorded =
          let price = algo_close_price q in
          let sold = algo_close_qty qty q in
          let (fees, s1) = sum_algo_fees world symbol q.actual_order_id s in
          let row : TradeExit D = record {
            trade_id = id;
            ts = clock_of world s;
            kind = reason;
            qty = sold;
            price = price;
            pnl = d.mul (d.sub price entry_price) sold;
          } in
          let same1 = sum_algo_fees-db symbol q.actual_order_id s in
          let (same, answer) = insert-again row s1 (rw same1 recorded) in
          let s2 = (query (insert_trade_exit_idempotent row) s1).1 in
          elim (Bool-cases (d.is_zero price || d.is_zero sold)) [
            | inl e ↦ rw e refl
            | inr e ↦ elim answer [
              | inl failed ↦ rw (e, failed) (same ∙ same1)
              | inr twice ↦ rw (e, twice) (same ∙ same1)
            ]
          ]

      auto_close-records :
          (q : AlgoQuery D) (entry_price qty : D) (s : Session D)
          → (auto_close_from_fields world id symbol q entry_price qty reason s).0 ≡ true
          → has_exit id reason
              (auto_close_from_fields world id symbol q entry_price qty reason s).1.db.trade_exits
            ≡ true
      unfolding auto_close_from_fields
      auto_close-records q entry_price qty s closed =
          let price = algo_close_price q in
          let sold = algo_close_qty qty q in
          let (fees, s1) = sum_algo_fees world symbol q.actual_order_id s in
          let pnl = d.mul (d.sub price entry_price) sold in
          let row : TradeExit D = record {
            trade_id = id;
            ts = clock_of world s;
            kind = reason;
            qty = sold;
            price = price;
            pnl = pnl;
          } in
          let (inserted, s2) = query (insert_trade_exit_idempotent row) s1 in
          let go_on = close_recorded world id price pnl fees reason (clock_of world s) s2 in
          let had = insert-records row s1 in
          let has : (n : ℕ) → inserted ≡ some n → has_exit id reason s2.db.trade_exits ≡ true =
            λ n e. elim had [ inl failed ↦ absurd (ground arith) | inr h ↦ h ] in
          if-elim Closed (d.is_zero price || d.is_zero sold) (false, s) _ (λ f. ground arith)
            (Option-elim_eq Closed inserted (false, s2) (λ n. if n == 0 then (true, s2) else go_on)
              (λ _ f. ground arith)
              (λ n e.
                if-elim Closed (n == 0) (true, s2) go_on (λ _. has n e)
                  (λ _.
                    rw (close_recorded-exits id price pnl fees reason (clock_of world s) s2)
                      (has n e))))
            closed

      -- If a close by an algo reports the trade closed, a second one for the same trade and reason,
      -- whatever the exchange says then, changes nothing in the database.
      pub auto_close-once :
          (q q' : AlgoQuery D) (entry_price qty entry_price' qty' : D) (s : Session D)
          → (auto_close_from_fields world id symbol q entry_price qty reason s).0 ≡ true
          → (auto_close_from_fields world id symbol q' entry_price' qty' reason
              (auto_close_from_fields world id symbol q entry_price qty reason s).1).1.db
            ≡ (auto_close_from_fields world id symbol q entry_price qty reason s).1.db
      auto_close-once q q' entry_price qty entry_price' qty' s closed =
          auto_close-recorded q' entry_price' qty' _ (auto_close-records q entry_price qty s closed)
