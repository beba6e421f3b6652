-- ===== src/Execution/Trail/Sweep.antt =====
-- What a whole sweep of the trailing stops keeps of the table trades.
use binance_oi_square_trader.Prelude.{
  String, if-elim, Option-elim, ℕ, ◌≤◌, ◌≡◌, refl, sym, ◌⊎◌, inl, inr, none, some, List, [], ◌∷◌,
  arith, All, ◌==◌,
}
use mathlib.Core.Path.{subst}
use binance_oi_square_trader.Decimal.{Decimal, IsDecimal}
use binance_oi_square_trader.Storage.Trades.{
  algo, Trade, update_where_id, update_trade_trail_activate, update_trade_trail_stage,
  update_trade_trail_high,
}
use binance_oi_square_trader.Storage.Db.{Db, Session, select}
use binance_oi_square_trader.Storage.Db.Effects.{select-db}
use binance_oi_square_trader.Execution.Trail.{
  TrailConfig, TrailWorld, TrailRow, on_trade, list_open_trades_for_trail,
}
use binance_oi_square_trader.Execution.Trail.Upgrade.{handle_row, handle_rows, reconcile_tick}
use binance_oi_square_trader.Execution.Trail.Stages.{
  TrailWrite, no_write, raised, activated, cleared, staged, staged_raised, written, Allowed,
  Trailed, Stopped, handle_row-Steps,
}

module _ {D : Type 0} (Issued : ℕ → Type 0) where
  -- The stage is one of five, and past stage 0 the trade holds the id of an algo order that the
  -- exchange has issued.
  abbrev pub IsTrailing : Trade D → Type 0
  IsTrailing t =
      (t.trail_stage ≤ 4)
      × ((t.trail_stage ≡ 0) ⊎ ((a : ℕ) × (t.binance_trail_algo_id ≡ some (algo a)) × Issued a))

  All-update_where_id :
      (id : ℕ) (f : Trade D → Trade D) (ts : List (Trade D))
      → ((t : Trade D) → IsTrailing t → IsTrailing (f t))
      → All IsTrailing ts
      → All IsTrailing (update_where_id id f ts)
  unfolding update_where_id
  All-update_where_id id f [] keeps all = tt
  All-update_where_id id f (t ∷ ts) keeps (h, all) =
      (if-elim IsTrailing (t.id == id) (f t) t (keeps t h) h, All-update_where_id id f ts keeps all)

-- `Issued` holds of every id that the exchange answers with.
pub record Issues {D : Type 0} (Issued : ℕ → Type 0) (world : TrailWorld D) : Type 0 where
  pub trailing_stop :
      (n : ℕ) (symbol : String) (qty activation rate : D) (id : ℕ)
      → world.place_algo_trailing_stop n symbol qty activation rate ≡ some id
      → Issued id
  pub conditional_stop :
      (n : ℕ) (symbol : String) (qty stop : D) (id : ℕ)
      → world.place_algo_conditional_stop n symbol qty stop ≡ some id
      → Issued id

module _ {D : Type 0} ⦃d : Decimal D⦄ (Issued : ℕ → Type 0) (world : TrailWorld D)
    (issues : Issues Issued world) where
  written_id-Issued :
      (r : TrailRow D) (n a : ℕ)
      → (((n ≡ 2) × (activation : D) × Trailed world r a activation)
          ⊎ ((3 ≤ n) × Stopped world r a))
      → Issued a
  written_id-Issued r n a (inl (two, activation, (k, rate, accepted))) =
      issues.trailing_stop k r.symbol _ activation rate a accepted
  written_id-Issued r n a (inr (three, (k, stop, accepted))) =
      issues.conditional_stop k r.symbol _ stop a accepted

  written-IsTrailing :
      (r : TrailRow D) (w : TrailWrite D) (db : Db D)
      → Allowed world r w
      → All (IsTrailing Issued) db.trades.rows
      → All (IsTrailing Issued) (written r.id w db).trades.rows
  unfolding written Allowed on_trade update_trade_trail_activate update_trade_trail_stage
      update_trade_trail_high
  written-IsTrailing r no_write db ok all = all
  written-IsTrailing r (raised high) db ok all =
      All-update_where_id Issued r.id (update_trade_trail_high high) db.trades.rows (λ t h. h) all
  written-IsTrailing r (activated a price) db (zeroth, (n, rate, accepted)) all =
      let issued = issues.trailing_stop n r.symbol _ price rate a accepted in
      All-update_where_id Issued r.id (update_trade_trail_activate (algo a) price) db.trades.rows
        (λ t h. (omega arith, inr (a, refl, issued))) all
  written-IsTrailing r cleared db ok all =
      All-update_where_id Issued r.id (update_trade_trail_stage 0 none) db.trades.rows
        (λ t h. (omega arith, inl refl)) all
  written-IsTrailing r (staged n a) db (started, four, next, accepted) all =
      let issued = written_id-Issued r n a accepted in
      All-update_where_id Issued r.id (update_trade_trail_stage n (some (algo a))) db.trades.rows
        (λ t h. (four, inr (a, refl, issued))) all
  written-IsTrailing r (staged_raised n a high) db
        ((started, four, next, above), (k, stop, accepted)) all =
      let issued = issues.conditional_stop k r.symbol _ stop a accepted in
      All-update_where_id Issued r.id (update_trade_trail_high high) _ (λ t h. h)
        (All-update_where_id Issued r.id (update_trade_trail_stage n (some (algo a))) db.trades.rows
          (λ t h. (four, inr (a, refl, issued))) all)

  module _ (laws : IsDecimal D) (cfg : TrailConfig D) where
    handle_rows-IsTrailing :
        (rs : List (TrailRow D)) (s : Session D)
        → All (IsTrailing Issued) s.db.trades.rows
        → All (IsTrailing Issued) (handle_rows world cfg rs s).db.trades.rows
    unfolding handle_rows
    handle_rows-IsTrailing [] s all = all
    handle_rows-IsTrailing (r ∷ rs) s all =
        let (w, same, ok) = handle_row-Steps laws world cfg r s in
        handle_rows-IsTrailing rs (handle_row world cfg r s) (
          subst (λ (db : Db D). All (IsTrailing Issued) db.trades.rows) (sym same)
            (written-IsTrailing r w s.db ok all))

    -- If every trade has a stage of 0 to 4, and past stage 0 holds the id of an algo order that the
    -- exchange has issued, so it is after a sweep, whichever queries and requests fail. The order
    -- itself may be gone by then.
    pub reconcile_tick-IsTrailing :
        (s : Session D)
        → All (IsTrailing Issued) s.db.trades.rows
        → All (IsTrailing Issued) (reconcile_tick world cfg s).db.trades.rows
    unfolding reconcile_tick
    reconcile_tick-IsTrailing s all =
        let (rows, s1) = select list_open_trades_for_trail s in
        let kept =
          subst (λ (db : Db D). All (IsTrailing Issued) db.trades.rows)
            (sym (select-db list_open_trades_for_trail s)) all in
        Option-elim (λ (s' : Session D). All (IsTrailing Issued) s'.db.trades.rows) rows s1
          (λ rows. handle_rows world cfg rows s1) kept (λ rows. handle_rows-IsTrailing rows s1 kept)
