-- ===== src/Execution/Breaker.antt =====
-- internal/execution/circuit_breaker.go: what the five trips read, and their thresholds. Gauges of
-- metrics are left out, and the texts of an alert; what a trip reads of the exchange, Redis and
-- klines is `TripWorld`'s answer.
pub mod Tick
pub mod Trips
use binance_oi_square_trader.Storage.Trades.{Trade, is_open_or_partial}
use binance_oi_square_trader.Prelude.{
  ◌==◌, ℕ, ◌+◌, ◌-◌, ◌*◌, String, Bool, true, false, not, ◌&&◌, ◌||◌, Option, none, some, List, [],
  ◌∷◌, Time, Duration, second, minute, hour, Effect, length, ltb, leb, if◌then◌else◌, ℤ, pos, ltb_ℤ,
  leb_ℤ,
}
use binance_oi_square_trader.Decimal.{Decimal, zero_dec}
use binance_oi_square_trader.Storage.Breaker.{BreakerState}
use binance_oi_square_trader.Storage.Db.{PositionState, Db, Session, outside, exec, select}
use binance_oi_square_trader.Execution.Exit.{insert_halt_rca, breaker_halt}

abbrev pub consecutive_loss_window : Duration
consecutive_loss_window = 24 * hour

abbrev pub api_error_rate_window : Duration
api_error_rate_window = minute

abbrev pub cb_halt_duration : Duration
cb_halt_duration = 24 * hour

abbrev pub btc_crash_30min_bar_count : ℕ
btc_crash_30min_bar_count = 6

pub record CircuitBreakerConfig (D : Type 0) : Type 0 where
  pub daily_loss_halt_pct : D
  pub consecutive_loss_count : ℤ
  pub btc_crash_halt_pct : D
  pub total_float_loss_halt_pct : D
  pub api_error_rate_limit : ℤ

pub data TripType : Type 0 where
  daily_loss consec_losses btc_crash total_float_loss api_error : TripType

abbrev pub trip_text : TripType → String
trip_text daily_loss = "circuit_breaker_daily_loss"
trip_text consec_losses = "circuit_breaker_consec_losses"
trip_text btc_crash = "circuit_breaker_btc_crash"
trip_text total_float_loss = "circuit_breaker_total_float_loss"
trip_text api_error = "circuit_breaker_api_error"

-- a bar of a kline
pub record Bar (D : Type 0) : Type 0 where
  pub open_price : D
  pub close_price : D

-- a row of SumOpenUnrealizedSnapshot
pub record OpenPosition (D : Type 0) : Type 0 where
  pub symbol : String
  pub entry_price : Option D
  pub current_qty : Option D

pub record TripWorld (D : Type 0) : Type 0 where
  pub now : ℕ → Time
  -- the thresholds of the runtime configuration, under the names of the startup one
  pub runtime : ℕ → Option (CircuitBreakerConfig D)
  pub usdt_balance : ℕ → Option D
  pub count_api_errors_since : ℕ → Time → Option ℕ
  pub latest_price : ℕ → String → Option D
  -- the last six 5m bars of BTCUSDT, the newest first
  pub latest_btc_klines : ℕ → Option (List (Bar D))

abbrev positive_int_or : Option ℤ → ℤ → ℤ
positive_int_or none y = y
positive_int_or (some x) y = if ltb_ℤ (pos 0) x then x else y

-- `now.Sub(last) > window`, for a last loss that is there
abbrev is_recent : Option Time → Time → Bool
is_recent none now = false
is_recent (some last) now = leb now (last + consecutive_loss_window)

module _ {D : Type 0} where
  with_state : Trade D → List (PositionState D) → List (OpenPosition D) → List (OpenPosition D)
  with_state t [] rest = rest
  with_state t (p ∷ ps) rest =
      if p.trade_id == t.id
      then record { symbol = t.symbol; entry_price = t.entry_price; current_qty = p.current_qty }
        ∷ rest
      else with_state t ps rest

  joined : List (PositionState D) → List (Trade D) → List (OpenPosition D)
  joined ps [] = []
  joined ps (t ∷ ts) =
      if is_open_or_partial t.status then with_state t ps (joined ps ts) else joined ps ts

  -- trades that are open or partial, with their rows of position_states
  unfoldable pub sum_open_unrealized_snapshot : Db D → List (OpenPosition D)
  unfolding joined with_state
  sum_open_unrealized_snapshot db = joined db.position_states db.trades.rows

module _ {D : Type 0} ⦃d : Decimal D⦄ where
  abbrev nonzero_or : Option D → D → D
  nonzero_or none y = y
  nonzero_or (some x) y = if d.is_zero x then y else x

  knob : {A : Type 0} → Option (CircuitBreakerConfig D) → (CircuitBreakerConfig D → A) → Option A
  knob none f = none
  knob (some rt) f = some (f rt)

  -- the getters: the startup configuration with the runtime's values over it
  unfoldable pub thresholds :
      Option (CircuitBreakerConfig D) → CircuitBreakerConfig D → CircuitBreakerConfig D
  unfolding knob
  thresholds rt cfg = record {
    daily_loss_halt_pct = nonzero_or (knob rt (λ k. k.daily_loss_halt_pct)) cfg.daily_loss_halt_pct;
    consecutive_loss_count =
        positive_int_or (knob rt (λ k. k.consecutive_loss_count)) cfg.consecutive_loss_count;
    btc_crash_halt_pct = nonzero_or (knob rt (λ k. k.btc_crash_halt_pct)) cfg.btc_crash_halt_pct;
    total_float_loss_halt_pct =
        nonzero_or (knob rt (λ k. k.total_float_loss_halt_pct)) cfg.total_float_loss_halt_pct;
    api_error_rate_limit =
        positive_int_or (knob rt (λ k. k.api_error_rate_limit)) cfg.api_error_rate_limit;
  }

  positive_balance : Option D → Option D
  positive_balance none = none
  positive_balance (some b) = if d.is_positive b then some b else none

  last_bar : Bar D → List (Bar D) → Bar D
  last_bar b [] = b
  last_bar b (c ∷ cs) = last_bar c cs

  drop_of : Option (List (Bar D)) → Option D
  drop_of none = none
  drop_of (some []) = none
  drop_of (some (b ∷ bs)) =
      let oldest = (last_bar b bs).open_price in
      if ltb (length (b ∷ bs)) btc_crash_30min_bar_count || not (d.is_positive oldest)
      then none
      else some (d.div (d.sub oldest b.close_price) oldest)

  mark_or : D → Option D → D
  mark_or entry none = entry
  mark_or entry (some mark) = mark

  -- whether a loss, a negative amount, reaches a share of the balance
  unfoldable pub is_loss_over : D → D → D → Bool
  is_loss_over loss balance pct =
      d.is_negative loss && not (d.greater_than (d.div loss balance) (d.neg pct))
