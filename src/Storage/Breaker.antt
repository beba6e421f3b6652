-- ===== src/Storage/Breaker.antt =====
-- internal/storage/postgres/gen/circuit_breaker.sql.go: the one row of circuit_breaker_state.
-- `none` is SQL's NULL. A date is a day number. `now` is the statement's NOW().
pub mod Backoff
pub mod Losses
use binance_oi_square_trader.Prelude.{
  ℕ, zero, suc, ◌+◌, ◌-◌, ◌*◌, ◌/◌, ◌%◌, ◌^◌, ◌≤◌, ◌<◌, min, String, ◌≡◌, refl, sym, ap, ◌∙◌, ◌≢◌,
  ◌↔◌, ◌⊎◌, inl, inr, Bool, true, false, not, ◌&&◌, ◌||◌, Option, none, some, List, [], ◌∷◌, ◌++◌,
  map, arith, str_eq, eq_iff, Time, Duration, second, minute, hour, Effect, pure, ◌>>=◌, ◌>>◌,
  on_error, length, get_elem?, take, drop, last_or, window, length-append, length-drop,
  length-window, All, ltb, leb, ◌==◌, if◌then◌else◌, ltb→lt, lt→ltb, leb→le, ==_iff, tests,
  Bool-cases, Option-cases, ℤ, pos, negsuc, pos_part, neg_part, sub_ℕ, neg_ℤ, ◌+ℤ◌, ◌-ℤ◌, ◌*ℤ◌,
  ltb_ℤ, eq_ℤ, leb_ℤ, size_ℤ,
}
use binance_oi_square_trader.Decimal.{Decimal, zero_dec}

abbrev pub Date : Type 0
Date = ℕ

pub record BreakerState (D : Type 0) : Type 0 where
  pub trading_halted : Bool
  pub halt_reason : Option String
  pub halt_until : Option Time
  pub daily_pnl : D
  pub daily_pnl_date : Option Date
  -- smallint, at most 32767
  pub consecutive_losses : ℕ
  pub last_btc_crash_ts : Option Time
  pub last_loss_at : Option Time
  pub consecutive_disaster_stop_failures : ℕ
  pub last_disaster_stop_failed_ts : Option Time

abbrev pub seven_days : Duration
seven_days = 7 * 24 * hour

abbrev is_date : Option Date → Date → Bool
is_date none day = false
is_date (some d) day = d == day

-- the last failure is more than seven days ago
is_stale : Option Time → Time → Bool
is_stale none now = false
is_stale (some t) now = ltb (t + seven_days) now

-- the two CASE expressions, over the counter before the update
next_failures : Bool → ℕ → ℕ
next_failures stale n = if stale then 1 else min (n + 1) 3

backoff : Bool → ℕ → Duration
backoff stale n =
    if stale then hour else if n == 0 then hour else if n == 1 then 4 * hour else 24 * hour

module _ {D : Type 0} where
  -- the new row; its `halt_until` and counter are what the statement returns
  unfoldable pub trip_disaster_stop_fail_halt : Time → BreakerState D → BreakerState D
  unfolding is_stale next_failures backoff
  trip_disaster_stop_fail_halt now s =
      let stale = is_stale s.last_disaster_stop_failed_ts now in
      let n = s.consecutive_disaster_stop_failures in
      record s {
        consecutive_disaster_stop_failures = next_failures stale n;
        halt_until = some (now + backoff stale n);
        last_disaster_stop_failed_ts = some now;
        trading_halted = true;
        halt_reason = some "disaster_stop_placement_failed";
      }

  unfoldable pub trip_generic_halt : String → Time → BreakerState D → BreakerState D
  trip_generic_halt reason until s = record s {
    trading_halted = true;
    halt_reason = some reason;
    halt_until = some until;
  }

  unfoldable pub trip_btc_halt : Time → Time → BreakerState D → BreakerState D
  trip_btc_halt until crash s = record s {
    trading_halted = true;
    halt_reason = some "btc_5m_crash";
    halt_until = some until;
    last_btc_crash_ts = some crash;
  }

  unfoldable pub reset_halt : BreakerState D → BreakerState D
  reset_halt s = record s { trading_halted = false; halt_reason = none; halt_until = none }

  unfoldable pub reset_disaster_stop_fail_counter : BreakerState D → BreakerState D
  reset_disaster_stop_fail_counter s =
      if ltb 0 s.consecutive_disaster_stop_failures
      then record s { consecutive_disaster_stop_failures = 0 }
      else s

module _ {D : Type 0} ⦃d : Decimal D⦄ where
  rolled_pnl : D → Date → BreakerState D → D
  rolled_pnl pnl day s = if is_date s.daily_pnl_date day then d.add s.daily_pnl pnl else pnl

  -- `none` is the error of a counter that leaves its smallint.
  unfoldable pub update_after_trade_close :
      D → Date → Time → BreakerState D → Option (BreakerState D)
  unfolding rolled_pnl
  update_after_trade_close pnl day now s =
      let loss = d.less_than pnl zero_dec in
      if loss && leb 32767 s.consecutive_losses
      then none
      else some (record s {
        consecutive_losses = if loss then s.consecutive_losses + 1 else 0;
        daily_pnl = rolled_pnl pnl day s;
        daily_pnl_date = some day;
        last_loss_at = if loss then some now else s.last_loss_at;
      })

  unfoldable pub update_daily_pnl_partial : D → Date → BreakerState D → BreakerState D
  unfolding rolled_pnl
  update_daily_pnl_partial pnl day s = record s {
    daily_pnl = rolled_pnl pnl day s;
    daily_pnl_date = some day;
  }
