-- ===== src/Execution/Sync/Orphans.antt =====
-- Open trades without a position, and positions without a trade.
use text.Mathlib.TextPositions.{eq_refl}
use binance_oi_square_trader.Prelude.{
  str_eq, Option-cases, inl, inr, if-elim, ℕ, ◌+◌, ◌-◌, ◌≤◌, ◌<◌, String, ◌≡◌, refl, ap, ◌∙◌, true,
  false, Option, none, some, List, arith, Time, leb, if◌then◌else◌,
}
use binance_oi_square_trader.Decimal.{Decimal}
use binance_oi_square_trader.Storage.Db.{Session, outside}
use binance_oi_square_trader.Storage.Trades.{AlgoText, algo, malformed}
use binance_oi_square_trader.Binance.Retry.{ok}
use binance_oi_square_trader.Execution.Trail.{decimal_from_pg_numeric}
use binance_oi_square_trader.Execution.Algo.{AlgoWorld, AlgoQuery, trail_exit_reason_for_stage}
use binance_oi_square_trader.Execution.Algo.Gone.{Outcome-cases}
use binance_oi_square_trader.Execution.Algo.Polling.{try_reconcile}
use binance_oi_square_trader.Execution.Entry.{PositionRisk}
use binance_oi_square_trader.Execution.Sync.{
  binance_only, SyncWorld, SyncRow, Manager, orphan_confirm_delay, binance_only_dedup_window,
  with_pending, with_dedup, is_recent, position_of, auto_sync_orphan, pending_set, dedup_set,
  trip_reconcile_halt,
}
use binance_oi_square_trader.Execution.Sync.Tick.{
  resolve_by_algo, sync_orphan, sync_present, sync_trade, sync_unknown,
}

pending-with_pending :
    (id : ℕ) (t : Option Time) (pending : ℕ → Option Time) → with_pending id t pending id ≡ t
unfolding with_pending
pending-with_pending id t pending = ground arith

lt_confirm :
    (first now : Time)
    → first + orphan_confirm_delay ≤ now
    → leb orphan_confirm_delay (now - first) ≡ true
lt_confirm first now late = ground arith

early_confirm :
    (first now : Time)
    → now < first + orphan_confirm_delay
    → leb orphan_confirm_delay (now - first) ≡ false
early_confirm first now early = ground arith

still_recent :
    (symbol other : String) (now later : Time) (dedup : String → Option Time)
    → other ≡ symbol
    → later < now + binance_only_dedup_window
    → is_recent (with_dedup symbol now dedup other) later ≡ true
unfolding is_recent with_dedup
still_recent symbol other now later dedup same soon = rw same (rw (eq_refl symbol) (ground arith))

-- No query about an algo is answered with one that has finished. The reconciler may be set or not.
pub record Unfinished {D : Type 0} (world : SyncWorld D) : Type 0 where
  pub never :
      (algos : AlgoWorld D) (n id : ℕ) (q : AlgoQuery D)
      → world.algo_reconciler ≡ some algos
      → algos.query_algo_order n id ≡ ok q
      → str_eq q.algo_status "FINISHED" ≡ false

module _ {D : Type 0} ⦃d : Decimal D⦄ (algos : AlgoWorld D)
    (never : (n id : ℕ) (q : AlgoQuery D)
      → algos.query_algo_order n id ≡ ok q
      → str_eq q.algo_status "FINISHED" ≡ false) where
  try_reconcile-false :
      (id : ℕ) (symbol : String) (text : Option AlgoText) (reason : String) (entry_price qty : D)
      (s : Session D)
      → ((try_reconcile algos id symbol text reason entry_price qty s).0 ≡ false)
        × ((try_reconcile algos id symbol text reason entry_price qty s).1.db ≡ s.db)
  unfolding try_reconcile outside
  try_reconcile-false id symbol none reason entry_price qty s = (refl, refl)
  try_reconcile-false id symbol (some malformed) reason entry_price qty s = (refl, refl)
  try_reconcile-false id symbol (some (algo n)) reason entry_price qty s =
      elim (Outcome-cases (algos.query_algo_order s.clock n)) [
        | inl (q, e) ↦ ground (arith, never s.clock n q e)
        | inr (failure, e) ↦ ground arith
      ]

module _ {D : Type 0} ⦃d : Decimal D⦄ (world : SyncWorld D) (unfinished : Unfinished world)
    (t : SyncRow D) where
  unresolved :
      (s : Session D)
      → ((resolve_by_algo world t s).0 ≡ false) × ((resolve_by_algo world t s).1.db ≡ s.db)
  unfolding resolve_by_algo
  unresolved s = elim (Option-cases world.algo_reconciler) [
    | inl e ↦ rw e (refl, refl)
    | inr (algos, e) ↦
        let tried = try_reconcile-false algos (λ n id q. unfinished.never algos n id q e) in
        let entry = decimal_from_pg_numeric t.entry_price in
        let qty = decimal_from_pg_numeric t.current_qty in
        let reason = trail_exit_reason_for_stage t.trail_stage in
        let (open_still, same) = tried t.id t.symbol t.binance_trail_algo_id reason entry qty s in
        let s1 = (try_reconcile algos t.id t.symbol t.binance_trail_algo_id reason entry qty s).1 in
        let (still, again) =
          tried t.id t.symbol t.binance_disaster_stop_order_id "disaster" entry qty s1 in
        rw e (rw open_still (still, again ∙ same))
  ]

  orphan_noted :
      (now : Time) (m : Manager D)
      → m.pending_orphans t.id ≡ none
      → sync_orphan world now t m
        ≡ pending_set t.id (some now) (resolve_by_algo world t m.session).1 m
  unfolding sync_orphan
  orphan_noted now m fresh =
      let (open_still, same) = unresolved m.session in rw (open_still, fresh) refl

  orphan_seen_again :
      (first now : Time) (m : Manager D)
      → m.pending_orphans t.id ≡ some first
      → let s1 = (resolve_by_algo world t m.session).1 in
        (sync_orphan world now t m).session
        ≡ (if leb orphan_confirm_delay (now - first) then auto_sync_orphan world t s1 else s1)
  unfolding sync_orphan
  orphan_seen_again first now m seen =
      let (open_still, same) = unresolved m.session in rw (open_still, seen) (ground arith)

  -- Where no algo of a trade is reported as finished, a first look at a missing position leaves the
  -- database as it is, and so does a second one within 50 seconds; a second look from then on hands
  -- the trade, in the database as it was at the first look, to the close of an orphan.
  pub sync_orphan-confirmed :
      (now later : Time) (m : Manager D)
      → m.pending_orphans t.id ≡ none
      → let m1 = sync_orphan world now t m in
        let m2 = sync_orphan world later t m1 in
        (m1.session.db ≡ m.session.db)
        × (later < now + orphan_confirm_delay → m2.session.db ≡ m.session.db)
        × (now + orphan_confirm_delay ≤ later
            → (s : Session D) × (s.db ≡ m.session.db) × (m2.session ≡ auto_sync_orphan world t s))
  sync_orphan-confirmed now later m fresh =
      let s1 = (resolve_by_algo world t m.session).1 in
      let m1 = pending_set t.id (some now) s1 m in
      let s2 = (resolve_by_algo world t s1).1 in
      let same : s2.db ≡ m.session.db = (unresolved s1).1 ∙ (unresolved m.session).1 in
      let again =
        orphan_seen_again now later m1 (pending-with_pending t.id (some now) m.pending_orphans) in
      rw (orphan_noted now m fresh) (
        (unresolved m.session).1,
        (λ early.
            let left : (if leb orphan_confirm_delay (later - now)
                  then auto_sync_orphan world t s2
                  else s2)
                ≡ s2 =
              rw (early_confirm now later early) refl in
            ap (λ (s : Session D). s.db) (again ∙ left) ∙ same),
        (λ late. (s2, same, again ∙ rw (lt_confirm now later late) refl)),
      )

  present :
      (now : Time) (ps : List (PositionRisk D)) (p : PositionRisk D) (m : Manager D)
      → position_of t.symbol ps ≡ some p
      → sync_trade world now ps t m ≡ record m { session = sync_present world now t p m.session }
  unfolding sync_trade
  present now ps p m there = rw (there, sync_trade) refl

  absent :
      (now : Time) (ps : List (PositionRisk D)) (m : Manager D)
      → position_of t.symbol ps ≡ none
      → sync_trade world now ps t m ≡ sync_orphan world now t m
  unfolding sync_trade
  absent now ps m missing = rw (missing, sync_trade) refl

  -- A missing position that comes back leaves its note behind: where no algo of a trade is reported
  -- as finished, a trade that was noted, was then seen with a position and is missing again 50
  -- seconds after the note is handed to the close of an orphan at that first look.
  pub sync_trade-stale_note :
      (first back now : Time) (ps qs : List (PositionRisk D)) (p : PositionRisk D) (m : Manager D)
      → m.pending_orphans t.id ≡ some first
      → position_of t.symbol ps ≡ some p
      → position_of t.symbol qs ≡ none
      → first + orphan_confirm_delay ≤ now
      → let seen = sync_present world back t p m.session in
        (s : Session D) × (s.db ≡ seen.db)
        × ((sync_trade world now qs t (sync_trade world back ps t m)).session
            ≡ auto_sync_orphan world t s)
  sync_trade-stale_note first back now ps qs p m noted there missing late =
      let seen = sync_present world back t p m.session in
      let m1 = record m { session = seen } in
      (
        (resolve_by_algo world t seen).1,
        (unresolved seen).1,
        rw (present back ps p m there) (
            rw (absent now qs m1 missing)
              (orphan_seen_again first now m1 noted ∙ (rw (lt_confirm first now late) refl))),
      )

module _ {D : Type 0} ⦃d : Decimal D⦄ (world : SyncWorld D) where
  sync_unknown-recent :
      (later : Time) (q : PositionRisk D) (m : Manager D)
      → is_recent (m.binance_only_dedup q.symbol) later ≡ true
      → sync_unknown world later q m ≡ m
  unfolding sync_unknown
  sync_unknown-recent later q m hit = rw hit refl

  -- A position without a trade is reported at most once in 60 minutes: a second one with its symbol
  -- within that time changes nothing.
  pub sync_unknown-once :
      (now later : Time) (p q : PositionRisk D) (m : Manager D)
      → q.symbol ≡ p.symbol
      → is_recent (m.binance_only_dedup p.symbol) now ≡ false
      → later < now + binance_only_dedup_window
      → sync_unknown world later q (sync_unknown world now p m) ≡ sync_unknown world now p m
  unfolding sync_unknown
  sync_unknown-once now later p q m same fresh soon =
      let s1 = trip_reconcile_halt world.now binance_only m.session in
      let quiet : (s : Session D)
          → sync_unknown world later q (dedup_set p.symbol now s m) ≡ dedup_set p.symbol now s m =
        λ s.
          sync_unknown-recent later q (dedup_set p.symbol now s m)
            (still_recent p.symbol q.symbol now later m.binance_only_dedup same soon) in
      rw fresh (
        if-elim (λ (x : Manager D). sync_unknown world later q x ≡ x) (d.is_negative p.position_amt)
          (dedup_set p.symbol now m.session m) (dedup_set p.symbol now s1 m) (quiet m.session)
          (quiet s1))
