-- ===== src/Execution/Sync/Drift.antt =====
-- Trades whose quantity is not that of the exchange.
use binance_oi_square_trader.Prelude.{
  if-elim, Option-elim, ℕ, ◌+◌, ◌≡◌, refl, ap, ◌∙◌, Bool, true, false, not, Option, none, some,
  List, arith, Time, second, hour, if◌then◌else◌,
}
use binance_oi_square_trader.Decimal.{Decimal}
use binance_oi_square_trader.Storage.Trades.{AlgoText, malformed, algo}
use binance_oi_square_trader.Storage.Db.{Db, Session, PositionState, outside, exec}
use binance_oi_square_trader.Storage.Db.Effects.{exec-keeps}
use binance_oi_square_trader.Execution.Exit.{insert_halt_rca, breaker_halt}
use binance_oi_square_trader.Execution.Entry.{PositionRisk}
use binance_oi_square_trader.Execution.Algo.{AlgoWorld, is_algo_still_open}
use binance_oi_square_trader.Execution.Algo.Polling.{is_finished_tp, has_finished_tp_for_trade}
use binance_oi_square_trader.Execution.Sync.{
  SyncWorld, SyncRow, HaltType, drift_exceed, halt_type_text, halt_reason_text, trip_reconcile_halt,
  is_drifted, is_wrong_way,
}
use binance_oi_square_trader.Execution.Sync.Tick.{is_tp_race, halt_on_drift, sync_present}

module _ {D : Type 0} where
  abbrev states : Session D → List (PositionState D)
  states s = s.db.position_states

  trip_reconcile_halt-states :
      (now : ℕ → Time) (kind : HaltType) (s : Session D)
      → states (trip_reconcile_halt now kind s) ≡ states s
  unfolding trip_reconcile_halt breaker_halt insert_halt_rca
  trip_reconcile_halt-states now kind s =
      let halt = breaker_halt (halt_reason_text kind) (now s.clock + hour) in
      let (done, s1) = exec halt s in
      let kept : states s1 ≡ states s = exec-keeps (λ db. db.position_states) halt s (λ db. refl) in
      if-elim (λ (x : Session D). states x ≡ states s) (not done) s1
        (exec (insert_halt_rca (halt_type_text kind)) s1).1 kept
        (exec-keeps (λ db. db.position_states) (insert_halt_rca (halt_type_text kind)) s1
            (λ db. refl)
          ∙ kept)

module _ {D : Type 0} ⦃d : Decimal D⦄ where
  is_finished_tp-db :
      (algos : AlgoWorld D) (text : Option AlgoText) (s : Session D)
      → ((is_finished_tp algos text s).1.db ≡ s.db)
        × ((is_finished_tp algos text s).1.faults ≡ s.faults)
  unfolding is_finished_tp outside is_algo_still_open
  is_finished_tp-db algos none s = (refl, refl)
  is_finished_tp-db algos (some malformed) s = (refl, refl)
  is_finished_tp-db algos (some (algo id)) s = ground arith

  has_finished_tp-db :
      (algos : AlgoWorld D) (first second : Option AlgoText) (s : Session D)
      → ((has_finished_tp_for_trade algos first second s).1.db ≡ s.db)
        × ((has_finished_tp_for_trade algos first second s).1.faults ≡ s.faults)
  unfolding has_finished_tp_for_trade
  has_finished_tp-db algos first second s =
      let (found, s1) = is_finished_tp algos first s in
      let (same, faults) = is_finished_tp-db algos first s in
      let (same2, faults2) = is_finished_tp-db algos second s1 in
      if-elim (λ (r : Bool × Session D). (r.1.db ≡ s.db) × (r.1.faults ≡ s.faults)) found (true, s1)
        (is_finished_tp algos second s1) (same, faults) (same2 ∙ same, faults2 ∙ faults)

  module _ (world : SyncWorld D) (t : SyncRow D) where
    is_tp_race-db :
        (s : Session D)
        → ((is_tp_race world t s).1.db ≡ s.db) × ((is_tp_race world t s).1.faults ≡ s.faults)
    unfolding is_tp_race
    is_tp_race-db s =
        Option-elim (λ (r : Bool × Session D). (r.1.db ≡ s.db) × (r.1.faults ≡ s.faults))
          world.algo_reconciler (false, s)
          (λ algos. has_finished_tp_for_trade algos t.binance_tp1_algo_id t.binance_tp2_algo_id s)
          (refl, refl)
          (λ algos. has_finished_tp-db algos t.binance_tp1_algo_id t.binance_tp2_algo_id s)

    halt_on_drift-states : (s : Session D) → states (halt_on_drift world t s) ≡ states s
    unfolding halt_on_drift
    halt_on_drift-states s =
        let (race, s1) = is_tp_race world t s in
        let same = ap (λ (db : Db D). db.position_states) (is_tp_race-db s).0 in
        if-elim (λ (x : Session D). states x ≡ states s) race s1
          (trip_reconcile_halt world.now drift_exceed s1) same
          (trip_reconcile_halt-states world.now drift_exceed s1 ∙ same)

    -- Where the quantity of a trade is off by more than 5 %, a sync leaves the table of the positions
    -- as it is, whatever the exchange says of the take-profits and whichever statements fail.
    pub sync_present-keeps_drifted :
        (now : Time) (p : PositionRisk D) (s : Session D)
        → is_drifted t.current_qty (d.abs p.position_amt) ≡ true
        → states (sync_present world now t p s) ≡ states s
    unfolding sync_present
    sync_present-keeps_drifted now p s drifted =
        let s1 = if is_wrong_way t p then trip_reconcile_halt world.now drift_exceed s else s in
        let kept : states s1 ≡ states s =
          if-elim (λ (x : Session D). states x ≡ states s) (is_wrong_way t p)
            (trip_reconcile_halt world.now drift_exceed s) s
            (trip_reconcile_halt-states world.now drift_exceed s) refl in
        rw drifted (halt_on_drift-states s1 ∙ kept)
