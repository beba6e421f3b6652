-- ===== src/Execution/Breaker/Tick.antt =====
-- The trips of the circuit breaker and its tick, in internal/execution/circuit_breaker.go.
use binance_oi_square_trader.Prelude.{
  ℕ, ◌+◌, ◌-◌, Bool, true, false, not, ◌&&◌, Option, none, some, List, [], ◌∷◌, second, Effect,
  if◌then◌else◌, ℤ, pos, ltb_ℤ, leb_ℤ,
}
use binance_oi_square_trader.Decimal.{Decimal, zero_dec}
use binance_oi_square_trader.Storage.Breaker.{BreakerState}
use binance_oi_square_trader.Storage.Db.{Session, outside, exec, select}
use binance_oi_square_trader.Execution.Exit.{insert_halt_rca, breaker_halt}
use binance_oi_square_trader.Execution.Breaker.{
  CircuitBreakerConfig, OpenPosition, TripType, TripWorld, api_error, api_error_rate_window,
  btc_crash, cb_halt_duration, consec_losses, daily_loss, drop_of, is_loss_over, is_recent,
  last_bar, mark_or, positive_balance, sum_open_unrealized_snapshot, thresholds, total_float_loss,
  trip_text,
}

module _ {D : Type 0} ⦃d : Decimal D⦄ where
  module _ (world : TripWorld D) (cfg : CircuitBreakerConfig D) where
    abbrev active : Session D → CircuitBreakerConfig D
    active s = thresholds (world.runtime s.clock) cfg

    unfoldable pub fetch_balance : Effect (Session D) (Option D)
    unfolding positive_balance
    fetch_balance = outside (λ n. positive_balance (world.usdt_balance n))

    -- one Redis read for each position with a price and a quantity
    unfoldable pub sum_unrealized : D → List (OpenPosition D) → Effect (Session D) D
    unfolding mark_or
    sum_unrealized total [] s = (total, s)
    sum_unrealized total (r ∷ rs) s = elim r.entry_price [
      | none ↦ sum_unrealized total rs s
      | some entry ↦ elim r.current_qty [
        | none ↦ sum_unrealized total rs s
        | some qty ↦
            let (mark, s1) = outside (λ n. mark_or entry (world.latest_price n r.symbol)) s in
            sum_unrealized (d.add total (d.mul (d.sub mark entry) qty)) rs s1
      ]
    ]

    unfoldable pub update_unrealized_gauge : Effect (Session D) D
    update_unrealized_gauge s =
        let (rows, s1) = select sum_open_unrealized_snapshot s in
        elim rows [ none ↦ (zero_dec, s1) | some rows ↦ sum_unrealized zero_dec rows s1 ]

    unfoldable pub update_btc_drop_gauge : Effect (Session D) (Option D)
    unfolding drop_of last_bar
    update_btc_drop_gauge = outside (λ n. drop_of (world.latest_btc_klines n))

    -- the halt, and then its record; a failed halt ends it
    unfoldable pub fire_trip : TripType → Session D → Session D
    fire_trip trip s =
        let until = world.now s.clock + cb_halt_duration in
        let (done, s1) = exec (breaker_halt (trip_text trip) until) s in
        if not done then s1 else (exec (insert_halt_rca (trip_text trip)) s1).1

    -- a trip whose condition is known: fires and says so, or leaves it
    abbrev pub fire_if : Bool → TripType → Effect (Session D) Bool
    fire_if hit trip s = if hit then (true, fire_trip trip s) else (false, s)

    reaches : Option ℕ → ℤ → Bool
    reaches none limit = false
    reaches (some n) limit = leb_ℤ limit (pos n)

    unfoldable pub trip_api_error_rate : Effect (Session D) Bool
    unfolding reaches
    trip_api_error_rate s =
        let since = world.now s.clock - api_error_rate_window in
        let (count, s1) = outside (λ n. world.count_api_errors_since n since) s in
        fire_if (reaches count (active s1).api_error_rate_limit) api_error s1

    unfoldable pub trip_consecutive_losses : BreakerState D → Effect (Session D) Bool
    trip_consecutive_losses state s =
        fire_if
          (not (ltb_ℤ (pos state.consecutive_losses) (active s).consecutive_loss_count)
            && is_recent state.last_loss_at (world.now s.clock))
          consec_losses s

    -- a trip over a share of the balance, which is skipped without one
    unfoldable pub trip_daily_loss : D → Option D → Effect (Session D) Bool
    trip_daily_loss daily_pnl none s = (false, s)
    trip_daily_loss daily_pnl (some balance) s =
        fire_if (is_loss_over daily_pnl balance (active s).daily_loss_halt_pct) daily_loss s

    unfoldable pub trip_total_float_loss : D → Option D → Effect (Session D) Bool
    trip_total_float_loss unrealized none s = (false, s)
    trip_total_float_loss unrealized (some balance) s =
        fire_if (is_loss_over unrealized balance (active s).total_float_loss_halt_pct)
          total_float_loss s

    unfoldable pub trip_btc_crash : Option D → Effect (Session D) Bool
    trip_btc_crash none s = (false, s)
    trip_btc_crash (some drop_pct) s =
        fire_if (not (d.less_than drop_pct (active s).btc_crash_halt_pct)) btc_crash s

    abbrev pub or_else : Effect (Session D) Bool → Effect (Session D) Bool → Effect (Session D) Bool
    or_else first second s = let (fired, s1) = first s in if fired then (true, s1) else second s1

    unfoldable pub evaluate_trips :
        BreakerState D → Option D → D → Option D → Effect (Session D) Bool
    evaluate_trips state balance unrealized drop_pct = or_else trip_api_error_rate (
        or_else (trip_consecutive_losses state) (
          or_else (trip_daily_loss state.daily_pnl balance)
            (or_else (trip_total_float_loss unrealized balance) (trip_btc_crash drop_pct))))

    unfoldable pub evaluate_all : Effect (Session D) Bool
    evaluate_all s =
        let (read, s1) = select (λ db. db.breaker) s in
        elim read [
          | none ↦ (false, s1)
          | some state ↦
              let (balance, s2) = fetch_balance s1 in
              let (unrealized, s3) = update_unrealized_gauge s2 in
              let (drop_pct, s4) = update_btc_drop_gauge s3 in
              if state.trading_halted
              then (false, s4)
              else evaluate_trips state balance unrealized drop_pct s4
        ]
