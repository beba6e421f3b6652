-- ===== src/Signal/OiSurge/Trigger.antt =====
-- When an OI surge triggers.
use binance_oi_square_trader.Prelude.{
  ◌↔◌, ℕ, ◌-◌, ◌≤◌, ◌<◌, min, ◌≡◌, true, false, none, some, List, [], ◌∷◌, arith, length, last_or,
  window, length-window, All, if◌then◌else◌, pos, pos_part, ltb_ℤ,
}
use binance_oi_square_trader.Decimal.Order.{smaller-le}
use binance_oi_square_trader.Decimal.{Decimal, IsDecimal, zero_dec, ◌≼◌, ◌≺◌}
use binance_oi_square_trader.Signal.OiSurge.{
  OiSurgeConfig, OiSurgeResult, oi_surge_defaults, min_from, growing_from, head_or, rest_of, judge,
  min_val, recent_start, growing_periods_of, growth, surge_over, oi_surge,
}

module _ {D : Type 0} ⦃d : Decimal D⦄ where
  growing_from-le : (before : D) (xs : List D) → growing_from before xs ≤ length xs
  unfolding growing_from
  growing_from-le before [] = omega arith
  growing_from-le before (x ∷ xs) = ground (arith, growing_from-le x xs)

  growing_periods_of-lt :
      (series : List D) (recent : ℕ) → 0 < recent → growing_periods_of series recent ≤ recent - 1
  growing_periods_of-lt series recent h = go (window recent series) (length-window recent series)
    where
      go :
          (w : List D)
          → length w ≡ min recent (length series)
          → growing_from (head_or zero_dec w) (rest_of w) ≤ recent - 1
      go [] e = unfold growing_from in omega arith
      go (x ∷ xs) e = omega (arith, growing_from-le x xs)

  module _ (laws : IsDecimal D) where
    open laws use {lt_irrefl, lt_trans, le_trans, greater_than_lem, is_zero_lem}

    -- The loop's value is no larger than the first one and every other value of the window.
    min_from-least :
        (least : D) (xs : List D)
        → (min_from least xs ≼ least) × All (λ x. min_from least xs ≼ x) xs
    unfolding min_from
    min_from-least least [] = (lt_irrefl least, tt)
    min_from-least least (x ∷ xs) =
        let m = if d.less_than x least then x else least in
        let (low, rest) = min_from-least m xs in
        let (below, under) = smaller-le laws x least in
        (le_trans _ m least low under, (le_trans _ m x low below, rest))

    -- The four conditions, over values of the two windows that are not zero.
    pub record IsSurge (series : List D) (now prior : D) (cfg : OiSurgeConfig D) : Type 0 where
      pub nonzero_min : d.is_zero (min_val series (pos_part cfg.lookback_periods)) ≡ false
      pub nonzero_start : d.is_zero (recent_start series (pos_part cfg.recent_periods)) ≡ false
      pub grown :
          cfg.growth_from_min_min
          ≼ growth (last_or zero_dec series) (min_val series (pos_part cfg.lookback_periods))
      pub grown_recently :
          cfg.recent_growth_min
          ≼ growth (last_or zero_dec series) (recent_start series (pos_part cfg.recent_periods))
      pub growing :
          ltb_ℤ
            (pos (growing_periods_of series (pos_part cfg.recent_periods)))
            cfg.min_growing_periods
          ≡ false
      pub moved_up : prior ≺ now

    surge_over-triggered :
        (series : List D) (now prior : D) (cfg : OiSurgeConfig D)
        → let r =
            surge_over series now prior cfg
              (pos_part cfg.lookback_periods)
              (pos_part cfg.recent_periods) in
          (r.triggered ≡ true → IsSurge series now prior cfg)
          × (IsSurge series now prior cfg → r.triggered ≡ true)
          × (r.triggered ≡ true → r.failed_reason ≡ none)
          × (r.failed_reason ≡ none → r.triggered ≡ true)
    unfolding surge_over judge
    surge_over-triggered series now prior cfg = (
      (λ h. ground (arith, greater_than_lem now prior)),
      (λ c. ground (arith, greater_than_lem now prior)),
      (λ h. ground arith),
      (λ h. ground arith),
    )

    -- A series with a valid configuration triggers exactly when it has the values of the recent
    -- window, the windows do not start at zero, and the four conditions hold: the growth from the
    -- lowest value of the lookback window, the recent growth, the number of growing periods, and
    -- the price. It has a reason of failure exactly when it does not trigger.
    pub oi_surge-triggered :
        (series : List D) (now prior : D) (config : OiSurgeConfig D) {r : OiSurgeResult D}
        → oi_surge series now prior config ≡ some r
        → let cfg = oi_surge_defaults config in
          ((r.triggered ≡ true)
            ↔ ((pos_part cfg.recent_periods ≤ length series) × IsSurge series now prior cfg))
          × ((r.triggered ≡ true) ↔ (r.failed_reason ≡ none))
    unfolding oi_surge
    oi_surge-triggered series now prior config {r} h =
        let (a, b, c, e) = surge_over-triggered series now prior (oi_surge_defaults config) in
        (
          ((λ t. (ground arith, a (ground arith))), (λ (n, s). ground (arith, b s))),
          ((λ t. ground (arith, c)), (λ f. ground (arith, e))),
        )

    -- The value that condition 1 starts from is the least one of the lookback window.
    pub min_val-least :
        (series : List D) (lookback : ℕ)
        → All (λ x. min_val series lookback ≼ x) (window (min lookback (length series)) series)
    min_val-least series lookback = go (window (min lookback (length series)) series)
      where
        go : (w : List D) → All (λ x. min_from (head_or zero_dec w) (rest_of w) ≼ x) w
        go [] = tt
        go (x ∷ xs) = min_from-least x xs
