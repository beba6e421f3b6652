-- ===== src/Signal/SquareHot/Verdict.antt =====
-- What a hot verdict means, and that the slices stay in range.
use mathlib.Core.Path.{subst}
use native.Mathlib.Nat.{le-div_iff_mul-le}
use binance_oi_square_trader.Prelude.{
  sym, refl, zero, suc, minute, ℤ, pos, sub_ℕ, ◌-ℤ◌, ltb_ℤ, leb, Option-elim_eq, if-elim_eq,
  if◌then◌else◌, Bool, Option, ◌&&◌, ◌-◌, ◌⊎◌, ℕ, ◌*◌, ◌/◌, ◌≤◌, ◌<◌, ◌≡◌, ◌≢◌, inl, inr, true,
  false, none, some, List, arith, Duration, hour, length, Bool-cases, Option-cases,
}
use binance_oi_square_trader.Decimal.{Decimal, ◌≼◌}
use binance_oi_square_trader.Signal.SquareHot.{
  slice_to, slice_from, Mode, fallback, SquareHotConfig, SquareHotResult, ok, panic, Params,
  is_short, periods_in_60_min, square_hot_defaults, median,
}
use binance_oi_square_trader.Signal.SquareHot.Modes.{
  recent_of, accel_source, pick_mode, mode_params, baseline, judge_hot, acceleration_of, ratio_over,
  hot_over, blank, hot_in_mode, span_of, square_hot,
}

samples-ge-periods :
    (sample_period : Duration)
    → 0 < sample_period
    → sample_period ≤ 24 * hour
    → periods_in_60_min (pos sample_period) ≤ 24 * hour / sample_period
samples-ge-periods sp low high =
    let one : 1 ≤ 24 * hour / sp =
      (le-div_iff_mul-le {k = sp} {x = 1} {y = 24 * hour} low).1 (omega arith) in
    let whole : hour / sp * sp ≤ hour =
      (le-div_iff_mul-le {k = sp} {x = hour / sp} {y = hour} low).0 (omega arith) in
    let more : hour / sp ≤ 24 * hour / sp =
      (le-div_iff_mul-le {k = sp} {x = hour / sp} {y = 24 * hour} low).1 (omega arith) in
    ground arith

sub_ℕ-pos : (a b : ℕ) → b ≤ a → sub_ℕ a b ≡ pos (a - b)
sub_ℕ-pos a b h = ground arith

diff-pos : (a b : ℕ) → b ≤ a → pos a -ℤ pos b ≡ pos (a - b)
diff-pos a b h = ground arith

module _ {ℓ} {A : Type ℓ} where
  -- the last day of a list, for a lookback that is not negative
  last_day-some :
      (last : Bool) (n : ℕ) (xs : List A)
      → (if last && ltb_ℤ (pos n) (pos (length xs))
          then slice_from (pos (length xs) -ℤ pos n) xs
          else some xs)
        ≢ none
  last_day-some last n xs =
      if-elim_eq (λ (o : Option (List A)). o ≢ none) (last && ltb_ℤ (pos n) (pos (length xs))) _ _
        (λ shorter. rw (diff-pos (length xs) n (ground arith)) (λ e. ground arith))
        (λ _ e. ground arith)

  slice_from_end-some :
      (k : ℕ) (xs : List A) → k ≤ length xs → slice_from (sub_ℕ (length xs) k) xs ≢ none
  slice_from_end-some k xs h = rw (sub_ℕ-pos (length xs) k h) (λ e. ground arith)

  slice_to_end-some :
      (k : ℕ) (xs : List A) → k ≤ length xs → slice_to (sub_ℕ (length xs) k) xs ≢ none
  slice_to_end-some k xs h = rw (sub_ℕ-pos (length xs) k h) (λ e. ground arith)

module _ {D : Type 0} ⦃d : Decimal D⦄ where
  -- What the samples must show in a mode.
  pub record IsHot (mode : Mode) (p : Params D) (base recent : List D) (r : SquareHotResult D)
      : Type 0 where
    pub same_mode : r.mode ≡ mode
    pub enough : p.recent_k < length p.deltas
    pub nonzero : d.is_zero (median base) ≡ false
    pub ratio_exact : r.ratio ≡ ratio_over recent base
    pub ratio_reached : p.ratio_threshold ≼ r.ratio
    pub acceleration_exact : acceleration_of mode p ≡ some r.acceleration
    pub accelerating : (is_short mode ≡ true) ⊎ (p.accel_threshold ≼ r.acceleration)
    pub unfailed : r.failed_reason ≡ none

  judge_hot-IsHot :
      (mode : Mode) (p : Params D) (base recent : List D) (n : ℕ) (span acceleration : D)
      → p.recent_k < length p.deltas
      → d.is_zero (median base) ≡ false
      → acceleration_of mode p ≡ some acceleration
      → let r = judge_hot p (record (blank mode n span) {
        ratio = ratio_over recent base;
        acceleration = acceleration;
      }) in
        r.hot ≡ true → IsHot mode p base recent r
  unfolding judge_hot
  judge_hot-IsHot mode p base recent n span acceleration e z a h = ground arith

  hot_over-IsHot :
      (mode : Mode) (p : Params D) (base recent : List D) (n : ℕ) (span : D) {r : SquareHotResult D}
      → p.recent_k < length p.deltas
      → hot_over mode p base recent (blank mode n span) ≡ ok r
      → r.hot ≡ true
      → IsHot mode p base recent r
  unfolding hot_over
  hot_over-IsHot mode p base recent n span {r} e h t = elim (Bool-cases (d.is_zero (median base))) [
    | inl zero_median ↦ absurd (ground arith)
    | inr nonzero ↦ elim (Option-cases (acceleration_of mode p)) [
      | inl missing ↦ absurd (ground arith)
      | inr (acceleration, found) ↦
          let result = judge_hot p (record (blank mode n span) {
            ratio = ratio_over recent base;
            acceleration = acceleration;
          }) in
          let same : result ≡ r = ground arith in
          subst (IsHot mode p base recent) same
            (judge_hot-IsHot mode p base recent n span acceleration e nonzero found (rw same t))
    ]
  ]

  hot_in_mode-IsHot :
      (counts : List D) (mode : Mode) (span : D) (periods : ℕ) (cfg : SquareHotConfig D)
      {r : SquareHotResult D}
      → hot_in_mode counts mode span periods cfg ≡ ok r
      → r.hot ≡ true
      → let p = mode_params mode counts periods cfg in
        (base : List D) × (recent : List D) × (baseline p periods cfg.sample_period ≡ some base)
        × (recent_of p ≡ some recent)
        × IsHot mode p base recent r
  unfolding hot_in_mode
  hot_in_mode-IsHot counts mode span periods cfg {r} h t =
      let p = mode_params mode counts periods cfg in
      elim (Option-cases (baseline p periods cfg.sample_period)) [
        | inl e ↦ absurd (ground arith)
        | inr (base, e) ↦ elim (Option-cases (recent_of p)) [
          | inl g ↦ absurd (ground arith)
          | inr (recent, g) ↦
              let more : p.recent_k < length p.deltas = ground arith in
              let same : hot_over mode p base recent (blank mode (length counts) span) ≡ ok r =
                ground arith in
              (
                base,
                recent,
                e,
                g,
                hot_over-IsHot mode p base recent (length counts) span more same t,
              )
        ]
      ]

  pick_mode-ne-fallback : (span : D) (n periods : ℕ) → pick_mode span n periods ≢ fallback
  unfolding pick_mode
  pick_mode-ne-fallback span n periods h = ground arith

  accel_source-some : (p : Params D) → accel_source p ≢ none
  unfolding accel_source
  accel_source-some p e = ground (arith, slice_from_end-some p.accel_window p.deltas)

  acceleration_of-some : (mode : Mode) (p : Params D) → acceleration_of mode p ≢ none
  unfolding acceleration_of
  acceleration_of-some mode p e = ground (arith, accel_source-some p)

  baseline-some :
      (p : Params D) (periods sp : ℕ)
      → p.recent_k ≤ length p.deltas
      → periods ≤ 24 * hour / sp
      → baseline p periods (pos sp) ≢ none
  unfolding baseline
  baseline-some p periods sp k fits =
      let lookback = 24 * hour / sp - periods in
      let same : pos (24 * hour / sp) -ℤ pos periods ≡ pos lookback =
        diff-pos (24 * hour / sp) periods fits in
      let shifted : ℤ → List D → Option (List D) = λ back raw.
        if p.use_last_24h && ltb_ℤ back (pos (length raw))
        then slice_from (pos (length raw) -ℤ back) raw
        else some raw in
      Option-elim_eq (λ (o : Option (List D)). o ≢ none)
        (slice_to (sub_ℕ (length p.deltas) p.recent_k) p.deltas) none
        (shifted (pos (24 * hour / sp) -ℤ pos periods))
        (λ out _. slice_to_end-some p.recent_k p.deltas k out)
        (λ raw cut.
          subst (λ (back : ℤ). shifted back raw ≢ none) (sym same)
            (last_day-some p.use_last_24h lookback raw))

  hot_over-in_range :
      (mode : Mode) (p : Params D) (base recent : List D) (r : SquareHotResult D)
      → hot_over mode p base recent r ≢ panic
  unfolding hot_over
  hot_over-in_range mode p base recent r h = ground (arith, acceleration_of-some mode p)

  hot_in_mode-in_range :
      (counts : List D) (mode : Mode) (span : D) (periods sp : ℕ) (cfg : SquareHotConfig D)
      → cfg.sample_period ≡ pos sp
      → periods ≤ 24 * hour / sp
      → hot_in_mode counts mode span periods cfg ≢ panic
  unfolding hot_in_mode recent_of
  hot_in_mode-in_range counts mode span periods sp cfg exact fits h =
      let p = mode_params mode counts periods cfg in
      elim (Bool-cases (leb (length p.deltas) p.recent_k)) [
        | inl few ↦ ground arith
        | inr many ↦
            let k : p.recent_k ≤ length p.deltas = ground arith in
            elim (Option-cases (baseline p periods cfg.sample_period)) [
              | inl out ↦ baseline-some p periods sp k fits (rw (sym exact) out)
              | inr (base, found) ↦ elim (Option-cases (recent_of p)) [
                | inl out ↦ slice_from_end-some p.recent_k p.deltas k out
                | inr (recent, got) ↦
                    hot_over-in_range mode p base recent (blank mode (length counts) span)
                      (ground arith)
              ]
            ]
      ]

  sample_period-default :
      (config : SquareHotConfig D) (n : ℕ)
      → config.sample_period ≡ pos n
      → n ≤ 24 * hour
      → (sp : ℕ) × ((square_hot_defaults config).sample_period ≡ pos sp)
        × (0 < sp)
        × (sp ≤ 24 * hour)
  unfolding square_hot_defaults
  sample_period-default config zero given high =
      (15 * minute, rw given refl, omega arith, omega arith)
  sample_period-default config (suc n) given high =
      (suc n, rw given (ground arith), omega arith, high)

  module _ (hours : ℤ → D) where
    -- A hot verdict comes with a full configuration's worth of samples, in a mode that is not
    -- the fallback: more deltas than the recent ones, a baseline whose median is not zero, a ratio
    -- of the recent mean to it that reaches the mode's threshold, and, but for the short mode, an
    -- acceleration that reaches the mode's.
    pub square_hot-IsHot :
        (counts : List D) (config : SquareHotConfig D) {r : SquareHotResult D}
        → square_hot hours counts config ≡ ok r
        → r.hot ≡ true
        → let cfg = square_hot_defaults config in
          let periods = periods_in_60_min cfg.sample_period in
          let mode = pick_mode (span_of hours counts cfg) (length counts) periods in
          let p = mode_params mode counts periods cfg in
          (base : List D) × (recent : List D) × (baseline p periods cfg.sample_period ≡ some base)
          × (recent_of p ≡ some recent)
          × (ltb_ℤ (pos (length counts)) cfg.min_data_points ≡ false)
          × (mode ≢ fallback)
          × IsHot mode p base recent r
    unfolding square_hot
    square_hot-IsHot counts config {r} h t =
        let cfg = square_hot_defaults config in
        let periods = periods_in_60_min cfg.sample_period in
        let span = span_of hours counts cfg in
        let mode = pick_mode span (length counts) periods in
        elim (Bool-cases (ltb_ℤ (pos (length counts)) cfg.min_data_points)) [
          | inl few ↦ absurd (ground arith)
          | inr many ↦
              let at : hot_in_mode counts mode span periods cfg ≡ ok r = ground arith in
              let (base, recent, e, g, is_hot) =
                hot_in_mode-IsHot counts mode span periods cfg at t in
              (base, recent, e, g, many, pick_mode-ne-fallback span (length counts) periods, is_hot)
        ]

    -- With a sample period of at most a day that is not negative, no slice of the computation is out
    -- of range: those of the baseline, of its last day, of the recent deltas and of the acceleration.
    pub square_hot-in_range :
        (counts : List D) (config : SquareHotConfig D) (n : ℕ)
        → config.sample_period ≡ pos n
        → n ≤ 24 * hour
        → square_hot hours counts config ≢ panic
    unfolding square_hot
    square_hot-in_range counts config n given high h =
        let cfg = square_hot_defaults config in
        let periods = periods_in_60_min cfg.sample_period in
        let span = span_of hours counts cfg in
        let (sp, exact, low, day) = sample_period-default config n given high in
        let fits : periods ≤ 24 * hour / sp = rw exact (samples-ge-periods sp low day) in
        let fine =
          hot_in_mode-in_range counts (pick_mode span (length counts) periods) span periods sp cfg
            exact fits in
        elim (Bool-cases (ltb_ℤ (pos (length counts)) cfg.min_data_points)) [
          | inl few ↦ ground arith
          | inr many ↦ ground arith
        ]
