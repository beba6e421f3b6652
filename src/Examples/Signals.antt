-- ===== src/Examples/Signals.antt =====
-- The signals on short series.
use binance_oi_square_trader.Prelude.{
  ℤ, ◌*ℤ◌, ltb_ℤ, false, ◌≤◌, ◌≡◌, refl, ◌≢◌, ◌↔◌, true, none, some, List, [], ◌∷◌, arith, hour,
  length, pos,
}
use binance_oi_square_trader.Examples.Data.{whole, percent}
use binance_oi_square_trader.Decimal.Fixed.{div_fixed, Fixed, scale, fixed_decimal, Fixed-IsDecimal}
use binance_oi_square_trader.Signal.OiSurge.{
  OiSurgeConfig, OiSurgeResult, oi_surge_defaults, oi_surge, surge_over, judge, min_from,
  growing_from,
}
use binance_oi_square_trader.Signal.OiSurge.Trigger.{IsSurge, oi_surge-triggered}
use binance_oi_square_trader.Signal.SquareHot.{
  short, fallback, SquareHotConfig, SquareHotResult, panic, square_hot_defaults, mean, sum, median,
  sorted, insert_sorted, compute_n_period_deltas,
}
use binance_oi_square_trader.Signal.SquareHot.Modes.{
  recent_of, accel_source, pick_mode, mode_params, baseline, square_hot, hot_in_mode, hot_over,
  judge_hot, ratio_over, acceleration_of,
}
use binance_oi_square_trader.Signal.SquareHot.Verdict.{IsHot, square_hot-IsHot, square_hot-in_range}
use binance_oi_square_trader.Signal.Compound.{SignalRecord, CompoundConfig, SignalDataAccess}

abbrev growing_oi : List Fixed
growing_oi = whole 100 ∷ whole 101 ∷ whole 102 ∷ whole 103 ∷ whole 104 ∷ whole 120 ∷ []

abbrev oi_zero : OiSurgeConfig Fixed
oi_zero = record {
  lookback_periods = pos 0;
  recent_periods = pos 0;
  growth_from_min_min = whole 0;
  recent_growth_min = whole 0;
  min_growing_periods = pos 0;
}

abbrev surge : OiSurgeResult Fixed
surge = record {
  triggered = true;
  growth_from_min = percent 20;
  recent_growth = percent 20;
  growing_periods = 5;
  recent_periods_count = 5;
  price_moved_up = true;
  failed_reason = none;
}

oi_surge-triggered_example :
    ((surge.triggered ≡ true) ↔ (
      (6 ≤ length growing_oi)
      × IsSurge Fixed-IsDecimal growing_oi (whole 11) (whole 10) (oi_surge_defaults oi_zero)))
    × ((surge.triggered ≡ true) ↔ (surge.failed_reason ≡ none))
unfolding oi_surge oi_surge_defaults surge_over judge min_from growing_from
oi_surge-triggered_example =
    oi_surge-triggered Fixed-IsDecimal growing_oi (whole 11) (whole 10) oi_zero {r = surge} refl

abbrev posts : List Fixed
posts = whole 0 ∷ whole 1 ∷ whole 5 ∷ whole 9 ∷ whole 13 ∷ whole 17 ∷ whole 21 ∷ whole 25 ∷ []

abbrev hot_zero : SquareHotConfig Fixed
hot_zero = record {
  standard_ratio_threshold = whole 0;
  standard_acceleration_threshold = whole 0;
  medium_ratio_threshold = whole 0;
  medium_acceleration_threshold = whole 0;
  short_ratio_threshold = whole 0;
  min_data_points = pos 0;
  sample_period = pos 0;
}

abbrev fixed_hours : ℤ → Fixed
fixed_hours t = div_fixed (t *ℤ pos scale) (pos hour *ℤ pos scale)

abbrev hot : SquareHotResult Fixed
hot = record {
  hot = true;
  mode = short;
  ratio = whole 4;
  acceleration = whole 0;
  sample_count = 8;
  data_span_hours = percent 175;
  failed_reason = none;
}

square_hot-IsHot_example :
    let cfg = square_hot_defaults hot_zero in
    let p = mode_params short posts 4 cfg in
    (base : List Fixed) × (recent : List Fixed) × (baseline p 4 cfg.sample_period ≡ some base)
    × (recent_of p ≡ some recent)
    × (ltb_ℤ (pos (length posts)) (pos 8) ≡ false)
    × (short ≢ fallback)
    × IsHot short p base recent hot
unfolding square_hot square_hot_defaults hot_in_mode pick_mode mode_params baseline recent_of
    accel_source hot_over judge_hot ratio_over acceleration_of mean sum median sorted insert_sorted
    compute_n_period_deltas
square_hot-IsHot_example = square_hot-IsHot fixed_hours posts hot_zero {r = hot} refl refl

square_hot-in_range_example : square_hot fixed_hours posts hot_zero ≢ panic
square_hot-in_range_example = square_hot-in_range fixed_hours posts hot_zero 0 refl (omega arith)

-- what was written so far is the store
abbrev access : SignalDataAccess (List (SignalRecord Fixed)) Fixed
access = record {
  get_oi_history = λ symbol limit s. (some growing_oi, s);
  get_hashtag_history = λ symbol limit s. (some posts, s);
  get_klines_close_now_and_prior = λ symbol ago s. (some (whole 11, whole 10), s);
  runtime = λ s. none;
  insert_signal = λ rec s. (true, rec ∷ s);
}

abbrev compound_zero : CompoundConfig Fixed
compound_zero = record {
  oi_history_limit = 0;
  hashtag_history_limit = 0;
  prior_ago = 0;
  oi_surge_cfg = oi_zero;
  square_hot_cfg = hot_zero;
}
