-- ===== src/Execution/Trail/Upgrade.antt =====
-- The upgrades of the trailing stop and their sweep, in internal/execution/trail_upgrader.go.
use binance_oi_square_trader.Prelude.{
  ℕ, zero, suc, String, Bool, true, false, not, ◌||◌, Option, none, some, List, [], ◌∷◌, Effect,
  if◌then◌else◌, pos,
}
use binance_oi_square_trader.Decimal.{Decimal}
use binance_oi_square_trader.Storage.Trades.{
  AlgoText, malformed, algo, update_trade_trail_activate, update_trade_trail_stage,
  update_trade_trail_high,
}
use binance_oi_square_trader.Storage.Db.{Session, outside, exec, select}
use binance_oi_square_trader.Execution.Trail.{
  TrailConfig, TrailRow, TrailWorld, callback_rate, decimal_from_pg_numeric,
  list_open_trades_for_trail, new_high, on_trade, should_ratchet, upgrade_pct,
}

module _ {D : Type 0} ⦃d : Decimal D⦄ where
  module _ (world : TrailWorld D) (cfg : TrailConfig D) where
    valid_price : Option D → Option D
    valid_price none = none
    valid_price (some p) = if d.is_zero p || d.is_negative p then none else some p

    unfoldable pub get_current_price : String → Effect (Session D) (Option D)
    unfolding valid_price
    get_current_price symbol = outside (λ n. valid_price (world.latest_price n symbol))

    to_tick : D → Option D → D
    to_tick price none = price
    to_tick price (some tick) =
        if d.is_zero tick then price else d.mul (d.truncate (d.div price tick)) tick

    unfoldable pub round_price : String → D → Effect (Session D) D
    unfolding to_tick
    round_price symbol price = outside (λ n. to_tick price (world.tick_size n symbol))

    unfoldable pub persist_trail_high : ℕ → D → D → Session D → Session D
    persist_trail_high id prev next s =
        if not (d.greater_than next prev)
        then s
        else (exec (on_trade id (update_trade_trail_high next)) s).1

    unfoldable pub activate_s1 : TrailRow D → D → D → Session D → Session D
    activate_s1 r current qty s =
        let (activation, s1) = round_price r.symbol current s in
        let cb = d.mul (callback_rate (world.runtime s1.clock) cfg 1) (d.from_int (pos 100)) in
        let (placed, s2) =
          outside (λ n. world.place_algo_trailing_stop n r.symbol qty activation cb) s1 in
        elim placed [
          | none ↦ s2
          | some id ↦ (exec (on_trade r.id (update_trade_trail_activate (algo id) activation)) s2).1
        ]

    -- after the old algo was cancelled; a failed placing clears the stage
    unfoldable pub replace_native : TrailRow D → ℕ → D → D → D → Session D → Session D
    replace_native r to_stage rate current qty s =
        let (activation, s1) = round_price r.symbol current s in
        let cb = d.mul rate (d.from_int (pos 100)) in
        let (placed, s2) =
          outside (λ n. world.place_algo_trailing_stop n r.symbol qty activation cb) s1 in
        elim placed [
          | none ↦ (exec (on_trade r.id (update_trade_trail_stage 0 none)) s2).1
          | some id ↦
              (exec (on_trade r.id (update_trade_trail_stage to_stage (some (algo id)))) s2).1
        ]

    -- CancelAlgoOrder for a column that may hold no algo's id: whether there was an error
    unfoldable pub cancel_old : TrailRow D → Effect (Session D) Bool
    cancel_old r s = elim r.binance_trail_algo_id [
      | some (algo id) ↦
          let (done, s1) = outside (λ n. world.cancel_algo_order n r.symbol id) s in (not done, s1)
      | some malformed ↦ (false, s)
      | none ↦ (false, s)
    ]

    has_algo : Option AlgoText → Bool
    has_algo (some (algo id)) = true
    has_algo _ = false

    unfoldable pub upgrade_binance_native : TrailRow D → ℕ → D → D → D → Session D → Session D
    unfolding has_algo
    upgrade_binance_native r to_stage rate current qty s =
        let (failed, s1) = cancel_old r s in
        if not (has_algo r.binance_trail_algo_id)
        then s
        else if failed
        then s1
        else replace_native r to_stage rate current qty s1

    unfoldable pub place_trader_managed_stop : TrailRow D → ℕ → D → D → D → Session D → Session D
    place_trader_managed_stop r stage rate high qty s =
        let (stop, s1) = round_price r.symbol (d.mul high (d.sub (d.from_int (pos 1)) rate)) s in
        let (placed, s2) =
          outside (λ n. world.place_algo_conditional_stop n r.symbol qty stop) s1 in
        elim placed [
          | none ↦ s2
          | some id ↦
              let (staged, s3) =
                exec (on_trade r.id (update_trade_trail_stage stage (some (algo id)))) s2 in
              if not staged then s3 else (exec (on_trade r.id (update_trade_trail_high high)) s3).1
        ]

    -- upgradeToTraderManaged and upgradeTraderManagedStage, which differ in their log texts
    unfoldable pub upgrade_trader_managed : TrailRow D → ℕ → D → D → D → Session D → Session D
    upgrade_trader_managed r to_stage rate high qty s =
        let (failed, s1) = cancel_old r s in
        if failed then s1 else place_trader_managed_stop r to_stage rate high qty s1

    unfoldable pub rearm_trader_managed : TrailRow D → ℕ → D → D → D → Session D → Session D
    rearm_trader_managed r stage rate high qty s =
        place_trader_managed_stop r stage rate high qty (cancel_old r s).1

    -- the `switch` of `handleRow`
    unfoldable pub dispatch : ℕ → TrailRow D → D → D → D → D → D → Session D → Session D
    dispatch zero r current qty prev next gain s =
        let rt = world.runtime s.clock in
        if d.greater_than_or_equal gain (upgrade_pct rt cfg 0)
        then activate_s1 r current qty s
        else s
    dispatch (suc zero) r current qty prev next gain s =
        let rt = world.runtime s.clock in
        if d.greater_than_or_equal gain (upgrade_pct rt cfg 1)
        then upgrade_binance_native r 2 (callback_rate rt cfg 2) current qty s
        else persist_trail_high r.id prev next s
    dispatch (suc (suc zero)) r current qty prev next gain s =
        let rt = world.runtime s.clock in
        if d.greater_than_or_equal gain (upgrade_pct rt cfg 2)
        then upgrade_trader_managed r 3 (callback_rate rt cfg 3) next qty s
        else persist_trail_high r.id prev next s
    dispatch (suc (suc (suc zero))) r current qty prev next gain s =
        let rt = world.runtime s.clock in
        if d.greater_than_or_equal gain (upgrade_pct rt cfg 3)
        then upgrade_trader_managed r 4 (callback_rate rt cfg 4) next qty s
        else if should_ratchet cfg prev next
        then rearm_trader_managed r 3 (callback_rate rt cfg 3) next qty s
        else persist_trail_high r.id prev next s
    dispatch (suc (suc (suc (suc zero)))) r current qty prev next gain s =
        let rt = world.runtime s.clock in
        if should_ratchet cfg prev next
        then rearm_trader_managed r 4 (callback_rate rt cfg 4) next qty s
        else persist_trail_high r.id prev next s
    dispatch _ r current qty prev next gain s = s

    unfoldable pub handle_row : TrailRow D → Session D → Session D
    handle_row r s =
        let (price, s1) = get_current_price r.symbol s in
        let entry = decimal_from_pg_numeric r.entry_price in
        let qty = decimal_from_pg_numeric r.current_qty in
        let prev = decimal_from_pg_numeric r.trail_high_price in
        elim price [
          | none ↦ s1
          | some current ↦
              if d.is_zero entry || d.is_zero qty
              then s1
              else dispatch r.trail_stage r current qty prev (new_high current prev)
                  (d.div (d.sub current entry) entry) s1
        ]

    unfoldable pub handle_rows : List (TrailRow D) → Session D → Session D
    handle_rows [] s = s
    handle_rows (r ∷ rs) s = handle_rows rs (handle_row r s)

    -- ReconcileTick
    unfoldable pub reconcile_tick : Session D → Session D
    reconcile_tick s =
        let (rows, s1) = select list_open_trades_for_trail s in
        elim rows [ none ↦ s1 | some rows ↦ handle_rows rows s1 ]
