-- ===== src/Execution/Sync.antt =====
-- internal/execution/position_manager.go: the state of the position manager and its single writes,
-- with which Tick syncs the open trades. Metrics, log lines and alerts are left out.
pub mod Tick
pub mod Orphans
pub mod Drift
use binance_oi_square_trader.Prelude.{
  if-elim_eq, Option-elim_eq, if-elim, Option-elim, ℕ, zero, suc, ◌+◌, ◌-◌, ◌*◌, ◌/◌, ◌%◌, ◌^◌, ◌≤◌,
  ◌<◌, min, String, ◌≡◌, refl, sym, ap, ◌∙◌, ◌≢◌, ◌↔◌, ◌⊎◌, inl, inr, Bool, true, false, not, ◌&&◌,
  ◌||◌, Option, none, some, List, [], ◌∷◌, ◌++◌, map, arith, str_eq, eq_iff, Time, Duration, second,
  minute, hour, Effect, pure, ◌>>=◌, ◌>>◌, on_error, length, get_elem?, take, drop, last_or, window,
  length-append, length-drop, length-window, All, ltb, leb, ◌==◌, if◌then◌else◌, ltb→lt, lt→ltb,
  leb→le, ==_iff, tests, Bool-cases, Option-cases, ℤ, pos, negsuc, pos_part, neg_part, sub_ℕ, neg_ℤ,
  ◌+ℤ◌, ◌-ℤ◌, ◌*ℤ◌, ltb_ℤ, eq_ℤ, leb_ℤ, size_ℤ,
}
use binance_oi_square_trader.Decimal.{Decimal, zero_dec}
use binance_oi_square_trader.Storage.Trades.{
  AlgoText, Trade, update_trade_closed, update_trade_failed,
}
use binance_oi_square_trader.Storage.Positions.{update_position_state_sync}
use binance_oi_square_trader.Storage.Db.{Db, Session, outside, exec, select}
use binance_oi_square_trader.Binance.Orders.{OrderResult}
use binance_oi_square_trader.Execution.Trail.{on_trade, qty_of, decimal_from_pg_numeric}
use binance_oi_square_trader.Execution.Exit.{
  exitable_by_entry, insert_trade_exit, delete_position_state, insert_halt_rca, zrem, breaker_halt,
}
use binance_oi_square_trader.Execution.Entry.{PositionRisk}
use binance_oi_square_trader.Execution.Algo.{AlgoWorld, trail_exit_reason_for_stage}
use binance_oi_square_trader.Execution.Algo.Polling.{try_reconcile, has_finished_tp_for_trade}

pub record SyncWorld (D : Type 0) : Type 0 where
  pub now : ℕ → Time
  pub get_position_risk : ℕ → Option (List (PositionRisk D))
  -- a MARKET SELL, not reduceOnly
  pub place_market_sell : ℕ → String → D → Option (OrderResult D)
  -- the reconciler, where one is set
  pub algo_reconciler : Option (AlgoWorld D)

-- a row of ListOpenTradesForSync, with what the code reads
pub record SyncRow (D : Type 0) : Type 0 where
  pub id : ℕ
  pub symbol : String
  pub direction : String
  pub entry_ts : Option Time
  pub entry_price : Option D
  pub margin : D
  pub binance_disaster_stop_order_id : Option AlgoText
  pub binance_trail_algo_id : Option AlgoText
  pub trail_stage : ℕ
  pub binance_tp1_algo_id : Option AlgoText
  pub binance_tp2_algo_id : Option AlgoText
  pub current_qty : Option D

pub record Manager (D : Type 0) : Type 0 where
  pub session : Session D
  pub pending_orphans : ℕ → Option Time
  pub binance_only_dedup : String → Option Time

pub data HaltType : Type 0 where
  binance_only drift_exceed : HaltType

abbrev pub halt_type_text : HaltType → String
halt_type_text binance_only = "binance_only_unknown"
halt_type_text drift_exceed = "drift_exceeded"

abbrev pub halt_reason_text : HaltType → String
halt_reason_text binance_only = "position_binance_only_unknown"
halt_reason_text drift_exceed = "position_drift_exceeded"

abbrev pub orphan_confirm_delay : Duration
orphan_confirm_delay = 50 * second

abbrev pub binance_only_dedup_window : Duration
binance_only_dedup_window = 60 * minute

unfoldable pub with_pending : ℕ → Option Time → (ℕ → Option Time) → ℕ → Option Time
with_pending id t pending other = if id == other then t else pending other

unfoldable pub with_dedup : String → Time → (String → Option Time) → String → Option Time
with_dedup symbol t dedup other = if str_eq symbol other then some t else dedup other

unfoldable pub is_recent : Option Time → Time → Bool
is_recent none now = false
is_recent (some t) now = ltb (now - t) binance_only_dedup_window

same_bool : Bool → Bool → Bool
same_bool true b = b
same_bool false b = not b

module _ {D : Type 0} where
  sync_row : Db D → Trade D → SyncRow D
  sync_row db t = record {
    id = t.id;
    symbol = t.symbol;
    direction = t.direction;
    entry_ts = t.entry_ts;
    entry_price = t.entry_price;
    margin = t.margin;
    binance_disaster_stop_order_id = t.binance_disaster_stop_order_id;
    binance_trail_algo_id = t.binance_trail_algo_id;
    trail_stage = t.trail_stage;
    binance_tp1_algo_id = t.binance_tp1_algo_id;
    binance_tp2_algo_id = t.binance_tp2_algo_id;
    current_qty = qty_of db.position_states t.id;
  }

  unfoldable pub list_open_trades_for_sync : Db D → List (SyncRow D)
  unfolding sync_row
  list_open_trades_for_sync db = map (sync_row db) (exitable_by_entry db.trades.rows)

  -- positionsBySymbol, where a later row of a symbol replaces an earlier one
  unfoldable pub position_of : String → List (PositionRisk D) → Option (PositionRisk D)
  position_of symbol [] = none
  position_of symbol (p ∷ ps) = elim (position_of symbol ps) [
    | some later ↦ some later
    | none ↦ if str_eq p.symbol symbol then some p else none
  ]

  is_local : List (SyncRow D) → String → Bool
  is_local [] symbol = false
  is_local (t ∷ ts) symbol = str_eq t.symbol symbol || is_local ts symbol

  entered_ids : List (SyncRow D) → List ℕ
  entered_ids [] = []
  entered_ids (t ∷ ts) =
      let rest = entered_ids ts in elim t.entry_ts [ none ↦ rest | some _ ↦ t.id ∷ rest ]

  -- DEL and the ZADDs, in one transaction
  unfoldable pub rebuild_redis_zset : List (SyncRow D) → Session D → Session D
  unfolding entered_ids
  rebuild_redis_zset ts s =
      let next = record s { clock = s.clock + 1 } in
      if s.faults s.clock then next else record next { positions_active = entered_ids ts }

  unfoldable pub trip_reconcile_halt : (ℕ → Time) → HaltType → Session D → Session D
  trip_reconcile_halt now kind s =
      let (done, s1) = exec (breaker_halt (halt_reason_text kind) (now s.clock + hour)) s in
      if not done then s1 else (exec (insert_halt_rca (halt_type_text kind)) s1).1

  abbrev pub pending_set : ℕ → Option Time → Session D → Manager D → Manager D
  pending_set id t s m = record m {
    session = s;
    pending_orphans = with_pending id t m.pending_orphans;
  }

  abbrev pub dedup_set : String → Time → Session D → Manager D → Manager D
  dedup_set symbol now s m = record m {
    session = s;
    binance_only_dedup = with_dedup symbol now m.binance_only_dedup;
  }

module _ {D : Type 0} ⦃d : Decimal D⦄ where
  is_wrong_way : SyncRow D → PositionRisk D → Bool
  is_wrong_way t p = not (same_bool (d.is_positive p.position_amt) (str_eq t.direction "LONG"))

  -- more than 5 % off, where there is a quantity to compare with
  unfoldable pub is_drifted : Option D → D → Bool
  is_drifted none size = false
  is_drifted (some db_qty) size =
      not (d.is_zero db_qty)
      && d.greater_than (d.div (d.abs (d.sub db_qty size)) db_qty) (d.from_float 5 2)

module _ {D : Type 0} ⦃d : Decimal D⦄ (world : SyncWorld D) where
  unfoldable pub auto_sync_orphan : SyncRow D → Session D → Session D
  auto_sync_orphan t s =
      let now = world.now s.clock in
      let (recorded, s1) =
        exec
          (insert_trade_exit (record {
            trade_id = t.id;
            ts = now;
            kind = "orphan_synced";
            qty = decimal_from_pg_numeric t.current_qty;
            price = zero_dec;
            pnl = zero_dec;
          }))
          s in
      let (done, s2) =
        exec (on_trade t.id (update_trade_closed now zero_dec "orphan_synced" zero_dec zero_dec))
          s1 in
      if not recorded
      then s1
      else if not done
      then s2
      else zrem t.id (exec (delete_position_state t.id) s2).1

  -- for the reason margin_call
  unfoldable pub emergency_exit : SyncRow D → D → D → Session D → Session D
  emergency_exit t qty approx s =
      let (placed, s1) = outside (λ n. world.place_market_sell n t.symbol qty) s in
      elim placed [
        | none ↦ s1
        | some o ↦
            let s2 =
              (exec
                (insert_trade_exit (record {
                  trade_id = t.id;
                  ts = world.now s1.clock;
                  kind = "margin_call";
                  qty = qty;
                  price = if d.is_zero o.avg_price then approx else o.avg_price;
                  pnl = zero_dec;
                }))
                s1).1 in
            let s3 =
              (exec (on_trade t.id (update_trade_failed "margin_call" (world.now s2.clock)))
                s2).1 in
            zrem t.id (exec (delete_position_state t.id) s3).1
      ]
