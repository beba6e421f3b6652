-- ===== src/Examples/Market.antt =====
-- The uptrend signal on fifty bars of an hour and twenty-one of four hours.
use binance_oi_square_trader.Prelude.{
  ℕ, zero, suc, ◌+◌, ◌-◌, ◌*◌, ◌^◌, ◌≤◌, ◌≡◌, refl, ◌≢◌, ◌⊎◌, ◌↔◌, true, List, [], ◌∷◌, ◌++◌, arith,
  pos,
}
use binance_oi_square_trader.Decimal.Fixed.{Fixed}
use binance_oi_square_trader.Market.Float.{IsFloat64, fixed_float}
use binance_oi_square_trader.Market.Indicators.{
  sma, ema, rma, rsi, changes, moves, dx_series, dmi, highest,
}
use binance_oi_square_trader.Market.Uptrend.{
  UptrendItem, Readings, breakout, snapshot_of, judge_uptrend, judge_readings, any_nan,
  signal_type_of, check_uptrend, read_indicators, indicator_not_finite, volume_ma20_not_positive,
  breakout_and_pullback, no_signal,
}
use binance_oi_square_trader.Market.Uptrend.Verdict.{
  OfBars, IsUptrend, check_uptrend-IsUptrend, check_uptrend_complete,
}

mul_mono : (m n k : ℕ) → m ≤ n → m * k ≤ n * k
mul_mono m n zero h = omega arith
mul_mono m n (suc k) h = omega (arith, mul_mono m n k h)

Fixed-IsFloat64 : IsFloat64 Fixed
Fixed-IsFloat64 = record {
  lt_irrefl = λ x. ground arith;
  lt_of_lt-le = λ x y z p q. ground arith;
  literal-le = λ m n e h. ground (arith, mul_mono m n (10 ^ (8 - e)) h);
}

-- values one step apart
abbrev rising : ℕ → ℕ → ℕ → List Fixed
rising zero from step = []
rising (suc n) from step = pos (from * 10 ^ 8) ∷ rising n (from + step) step

abbrev flat : ℕ → ℕ → List Fixed
flat n v = rising n v 0

-- The last bar has twice the volume of the others.
abbrev volumes_up : List Fixed
volumes_up = flat 49 10 ++ (pos (20 * 10 ^ 8) ∷ [])

abbrev readings_up : Readings Fixed
readings_up = record {
  ema20 = pos 13_949_999_942;
  ema20_prev3 = pos 13_649_999_942;
  ema50 = pos 12_450_000_000;
  ema20_4h = pos 14_199_999_978;
  highest20 = pos 14_800_000_000;
  volume_ma20 = pos 1_000_000_000;
  rsi14 = pos 10_000_000_000;
  dmi14 = record { adx = pos 10_000_000_000; plus_di = pos 10_000_000_000; minus_di = pos 0 };
}

abbrev item_up : UptrendItem Fixed
item_up =
    judge_uptrend
      (snapshot_of "BTCUSDT" (rising 50 100 1) (rising 50 99 1) volumes_up (rising 21 100 4)
        (pos 5_000_000) (pos 1_000_000))
      readings_up

breaks_out : (item_up.pass ≡ true) × (item_up.signal_type ≡ breakout)
unfolding judge_uptrend snapshot_of signal_type_of
breaks_out = (refl, refl)

check_uptrend-IsUptrend_example :
    OfBars "BTCUSDT"
      (rising 50 100 1)
      (rising 50 100 1)
      (rising 50 99 1)
      volumes_up
      (rising 21 100 4)
      (pos 5_000_000)
      (pos 1_000_000)
      item_up
    × ((item_up.pass ≡ true) ↔ IsUptrend item_up)
    × (item_up.pass ≡ true → item_up.signal_type ≢ no_signal)
    × (item_up.signal_type ≢ breakout_and_pullback)
unfolding check_uptrend judge_uptrend judge_readings any_nan read_indicators ema sma highest rsi rma
    changes dmi moves dx_series
check_uptrend-IsUptrend_example =
    check_uptrend-IsUptrend "BTCUSDT" (rising 50 100 1) (rising 50 100 1) (rising 50 99 1)
      volumes_up (rising 21 100 4) (pos 5_000_000) (pos 1_000_000) Fixed-IsFloat64 {i = item_up}
      refl

-- Without any volume the symbol is refused.
check_uptrend_complete_example :
    (volume_ma20_not_positive ≡ indicator_not_finite)
    ⊎ (volume_ma20_not_positive ≡ volume_ma20_not_positive)
unfolding check_uptrend judge_uptrend judge_readings any_nan read_indicators ema sma highest rsi rma
    changes dmi moves dx_series
check_uptrend_complete_example =
    check_uptrend_complete "BTCUSDT" (rising 50 100 1) (rising 50 100 1) (rising 50 99 1)
      (flat 50 0) (rising 21 100 4) (pos 5_000_000) (pos 1_000_000) (omega arith) refl refl refl
      (omega arith) volume_ma20_not_positive refl
