-- ===== src/Signal/SquareHot/Modes.antt =====
-- The modes of internal/signal/square_hot.go and the verdict of each: SquareHot.
use binance_oi_square_trader.Prelude.{
  ◌&&◌, ℤ, sub_ℕ, ◌-ℤ◌, ltb_ℤ, ℕ, ◌+◌, ◌-◌, ◌*◌, Bool, true, false, ◌||◌, Option, none, some, List,
  hour, length, ltb, leb, if◌then◌else◌, pos,
}
use binance_oi_square_trader.Decimal.{Decimal, zero_dec}
use binance_oi_square_trader.Signal.SquareHot.{
  div_int, slice_to, slice_from, Mode, Outcome, Params, SquareHotConfig, SquareHotResult,
  compute_n_period_deltas, fallback, insufficient_deltas, insufficient_samples, invalid_config,
  is_short, low_acceleration, low_ratio, mean, median, medium, ok, panic, periods_in_60_min,
  pos_ratio, second_order_diff, short, square_hot_defaults, standard, zero_baseline_median,
}

module _ {D : Type 0} ⦃d : Decimal D⦄ where
  -- the mode by the span, and the two downgrades where the deltas are too few
  unfoldable pub pick_mode : D → ℕ → ℕ → Mode
  pick_mode span_hours n periods =
      if d.less_than span_hours (d.from_int (pos 6))
      then short
      else if d.less_than span_hours (d.from_int (pos 24)) || ltb n (periods + 6)
      then (if ltb n (periods + 4) then short else medium)
      else standard

  unfoldable pub mode_params : Mode → List D → ℕ → SquareHotConfig D → Params D
  mode_params standard counts periods cfg = record {
    deltas = compute_n_period_deltas counts periods;
    recent_k = 3;
    accel_window = 6;
    ratio_threshold = cfg.standard_ratio_threshold;
    accel_threshold = cfg.standard_acceleration_threshold;
    use_last_24h = true;
  }
  mode_params medium counts periods cfg = record {
    deltas = compute_n_period_deltas counts periods;
    recent_k = 3;
    accel_window = 4;
    ratio_threshold = cfg.medium_ratio_threshold;
    accel_threshold = cfg.medium_acceleration_threshold;
    use_last_24h = false;
  }
  mode_params _ counts periods cfg = record {
    deltas = compute_n_period_deltas counts 1;
    recent_k = 6;
    accel_window = 0;
    ratio_threshold = cfg.short_ratio_threshold;
    accel_threshold = zero_dec;
    use_last_24h = false;
  }

  -- the slices that the verdict reads
  unfoldable pub baseline : Params D → ℕ → ℤ → Option (List D)
  baseline p periods sample_period = elim (slice_to (sub_ℕ (length p.deltas) p.recent_k) p.deltas) [
    | none ↦ none
    | some raw ↦
        let lookback = div_int (24 * hour) sample_period -ℤ pos periods in
        if p.use_last_24h && ltb_ℤ lookback (pos (length raw))
        then slice_from (pos (length raw) -ℤ lookback) raw
        else some raw
  ]

  unfoldable pub recent_of : Params D → Option (List D)
  recent_of p = slice_from (sub_ℕ (length p.deltas) p.recent_k) p.deltas

  unfoldable pub accel_source : Params D → Option (List D)
  accel_source p =
      if ltb p.accel_window (length p.deltas)
      then slice_from (sub_ℕ (length p.deltas) p.accel_window) p.deltas
      else some p.deltas

  unfoldable pub judge_hot : Params D → SquareHotResult D → SquareHotResult D
  judge_hot p r =
      if d.less_than r.ratio p.ratio_threshold
      then record r { failed_reason = some low_ratio }
      else if is_short r.mode
      then record r { hot = true }
      else if d.less_than r.acceleration p.accel_threshold
      then record r { failed_reason = some low_acceleration }
      else record r { hot = true }

  unfoldable pub acceleration_of : Mode → Params D → Option D
  acceleration_of mode p = if is_short mode then some zero_dec else elim (accel_source p) [
    | none ↦ none
    | some source ↦ some (pos_ratio (second_order_diff source))
  ]

  unfoldable pub ratio_over : List D → List D → D
  ratio_over recent base = d.div (mean recent) (median base)

  -- with more deltas than the recent ones, over a baseline
  unfoldable pub hot_over : Mode → Params D → List D → List D → SquareHotResult D → Outcome D
  hot_over mode p base recent r =
      if d.is_zero (median base)
      then ok (record r { failed_reason = some zero_baseline_median })
      else elim (acceleration_of mode p) [
        | none ↦ panic
        | some acceleration ↦
            ok (
              judge_hot p
                (record r { ratio = ratio_over recent base; acceleration = acceleration }))
      ]

  any_negative : SquareHotConfig D → Bool
  any_negative cfg =
      d.is_negative cfg.standard_ratio_threshold
      || d.is_negative cfg.standard_acceleration_threshold
      || d.is_negative cfg.medium_ratio_threshold
      || d.is_negative cfg.medium_acceleration_threshold
      || d.is_negative cfg.short_ratio_threshold

  abbrev pub blank : Mode → ℕ → D → SquareHotResult D
  blank mode n span = record {
    hot = false;
    mode = mode;
    ratio = zero_dec;
    acceleration = zero_dec;
    sample_count = n;
    data_span_hours = span;
    failed_reason = none;
  }

  -- with the samples that the configuration asks for
  unfoldable pub hot_in_mode : List D → Mode → D → ℕ → SquareHotConfig D → Outcome D
  hot_in_mode counts mode span periods cfg =
      let p = mode_params mode counts periods cfg in
      let r = blank mode (length counts) span in
      if leb (length p.deltas) p.recent_k
      then ok (record r { failed_reason = some (insufficient_deltas (length p.deltas) p.recent_k) })
      else elim (baseline p periods cfg.sample_period) [
        | none ↦ panic
        | some base ↦ elim (recent_of p) [
          | none ↦ panic
          | some recent ↦ hot_over mode p base recent r
        ]
      ]

  module _ (hours : ℤ → D) where
    abbrev pub span_of : List D → SquareHotConfig D → D
    span_of counts cfg = d.mul (d.from_int (pos (length counts - 1))) (hours cfg.sample_period)

    unfoldable pub square_hot : List D → SquareHotConfig D → Outcome D
    unfolding any_negative
    square_hot counts config =
        let cfg = square_hot_defaults config in
        let n = length counts in
        let span = span_of counts cfg in
        let periods = periods_in_60_min cfg.sample_period in
        if any_negative cfg
        then invalid_config
        else if ltb_ℤ (pos n) cfg.min_data_points
        then ok (record (blank fallback n span) {
          failed_reason = some (insufficient_samples n cfg.min_data_points);
        })
        else hot_in_mode counts (pick_mode span n periods) span periods cfg
