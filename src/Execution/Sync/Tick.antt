-- ===== src/Execution/Sync/Tick.antt =====
-- The tick of the position manager over its rows: SyncTick in internal/execution/position_manager.go.
use binance_oi_square_trader.Prelude.{
  ◌-◌, Bool, true, false, not, none, some, List, [], ◌∷◌, Time, Effect, leb, if◌then◌else◌,
}
use binance_oi_square_trader.Decimal.{Decimal, zero_dec}
use binance_oi_square_trader.Storage.Positions.{update_position_state_sync}
use binance_oi_square_trader.Storage.Db.{Session, outside, exec, select}
use binance_oi_square_trader.Execution.Trail.{decimal_from_pg_numeric}
use binance_oi_square_trader.Execution.Entry.{PositionRisk}
use binance_oi_square_trader.Execution.Algo.{trail_exit_reason_for_stage}
use binance_oi_square_trader.Execution.Algo.Polling.{try_reconcile, has_finished_tp_for_trade}
use binance_oi_square_trader.Execution.Sync.{
  SyncWorld, Manager, SyncRow, auto_sync_orphan, binance_only, dedup_set, drift_exceed,
  emergency_exit, is_drifted, is_local, is_recent, is_wrong_way, list_open_trades_for_sync,
  orphan_confirm_delay, pending_set, position_of, rebuild_redis_zset, same_bool,
  trip_reconcile_halt,
}

module _ {D : Type 0} ⦃d : Decimal D⦄ (world : SyncWorld D) where
  -- whether one of the two algos that close the trade has finished, and the trade is closed
  unfoldable pub resolve_by_algo : SyncRow D → Effect (Session D) Bool
  resolve_by_algo t s = elim world.algo_reconciler [
    | none ↦ (false, s)
    | some algos ↦
        let entry = decimal_from_pg_numeric t.entry_price in
        let qty = decimal_from_pg_numeric t.current_qty in
        let (by_trail, s1) =
          try_reconcile algos t.id t.symbol t.binance_trail_algo_id
            (trail_exit_reason_for_stage t.trail_stage) entry qty s in
        if by_trail
        then (true, s1)
        else try_reconcile algos t.id t.symbol t.binance_disaster_stop_order_id "disaster" entry qty
            s1
  ]

  -- a trade that has no position on the exchange
  unfoldable pub sync_orphan : Time → SyncRow D → Manager D → Manager D
  sync_orphan now t m =
      let (resolved, s1) = resolve_by_algo t m.session in
      if resolved then pending_set t.id none s1 m else elim (m.pending_orphans t.id) [
        | none ↦ pending_set t.id (some now) s1 m
        | some first_seen ↦
            if leb orphan_confirm_delay (now - first_seen)
            then pending_set t.id none (auto_sync_orphan world t s1) m
            else pending_set t.id (some now) s1 m
      ]

  unfoldable pub is_tp_race : SyncRow D → Effect (Session D) Bool
  is_tp_race t s = elim world.algo_reconciler [
    | none ↦ (false, s)
    | some algos ↦ has_finished_tp_for_trade algos t.binance_tp1_algo_id t.binance_tp2_algo_id s
  ]

  margin_ratio : SyncRow D → PositionRisk D → D
  margin_ratio t p =
      if d.is_positive t.margin then d.div (d.neg p.unrealized_profit) t.margin else zero_dec

  unfoldable pub overwrite_position : Time → SyncRow D → PositionRisk D → Session D → Session D
  unfolding margin_ratio
  overwrite_position now t p s =
      let size = d.abs p.position_amt in
      let (done, s1) = exec (update_position_state_sync t.id size p.mark_price now) s in
      if not done
      then s1
      else if d.greater_than (margin_ratio t p) (d.from_float 8 1)
      then emergency_exit world t size p.mark_price s1
      else s1

  -- the quantity is off by more than 5 %
  unfoldable pub halt_on_drift : SyncRow D → Session D → Session D
  unfolding is_tp_race
  halt_on_drift t s =
      let (race, s1) = is_tp_race t s in
      if race then s1 else trip_reconcile_halt world.now drift_exceed s1

  -- a trade with a position
  unfoldable pub sync_present : Time → SyncRow D → PositionRisk D → Session D → Session D
  unfolding is_wrong_way same_bool
  sync_present now t p s =
      let s1 = if is_wrong_way t p then trip_reconcile_halt world.now drift_exceed s else s in
      if is_drifted t.current_qty (d.abs p.position_amt)
      then halt_on_drift t s1
      else overwrite_position now t p s1

  unfoldable pub sync_trade : Time → List (PositionRisk D) → SyncRow D → Manager D → Manager D
  sync_trade now ps t m = elim (position_of t.symbol ps) [
    | none ↦ sync_orphan now t m
    | some p ↦ record m { session = sync_present now t p m.session }
  ]

  unfoldable pub sync_trades :
      Time → List (PositionRisk D) → List (SyncRow D) → Manager D → Manager D
  sync_trades now ps [] m = m
  sync_trades now ps (t ∷ ts) m = sync_trades now ps ts (sync_trade now ps t m)

  -- a position without a trade
  unfoldable pub sync_unknown : Time → PositionRisk D → Manager D → Manager D
  unfolding is_recent
  sync_unknown now p m =
      let hit = is_recent (m.binance_only_dedup p.symbol) now in
      if hit
      then m
      else if d.is_negative p.position_amt
      then dedup_set p.symbol now m.session m
      else dedup_set p.symbol now (trip_reconcile_halt world.now binance_only m.session) m

  unfoldable pub sync_unknowns :
      Time → List (SyncRow D) → List (PositionRisk D) → Manager D → Manager D
  unfolding is_local
  sync_unknowns now ts [] m = m
  sync_unknowns now ts (p ∷ ps) m =
      let next = if is_local ts p.symbol then m else sync_unknown now p m in
      sync_unknowns now ts ps next

  abbrev on_manager : (Session D → Session D) → Manager D → Manager D
  on_manager f m = record m { session = f m.session }

  sync_with : Time → List (SyncRow D) → List (PositionRisk D) → Manager D → Manager D
  sync_with now ts ps m =
      on_manager (rebuild_redis_zset ts) (sync_unknowns now ts ps (sync_trades now ps ts m))

  sync_listed : Time → List (SyncRow D) → Manager D → Manager D
  sync_listed now [] m = on_manager (rebuild_redis_zset []) m
  sync_listed now (t ∷ ts) m =
      let (positions, s1) = outside world.get_position_risk m.session in
      let m1 = record m { session = s1 } in
      elim positions [ none ↦ m1 | some ps ↦ sync_with now (t ∷ ts) ps m1 ]

  unfoldable pub sync_tick : Manager D → Manager D
  unfolding sync_listed sync_with
  sync_tick m =
      let now = world.now m.session.clock in
      let (rows, s1) = select list_open_trades_for_sync m.session in
      let m1 = record m { session = s1 } in
      elim rows [ none ↦ m1 | some ts ↦ sync_listed now ts m1 ]
