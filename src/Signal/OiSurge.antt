-- ===== src/Signal/OiSurge.antt =====
-- internal/signal/oi_surge.go. `none` is the error of a bad configuration. The texts of
-- `FailedReason` are the values of `OiFailure`, and the empty text is `none`.
pub mod Trigger
use binance_oi_square_trader.Prelude.{
  ℕ, zero, suc, ◌+◌, ◌-◌, ◌*◌, ◌/◌, ◌%◌, ◌^◌, ◌≤◌, ◌<◌, min, String, ◌≡◌, refl, sym, ap, ◌∙◌, ◌≢◌,
  ◌↔◌, ◌⊎◌, inl, inr, Bool, true, false, not, ◌&&◌, ◌||◌, Option, none, some, List, [], ◌∷◌, ◌++◌,
  map, arith, str_eq, eq_iff, Time, Duration, second, minute, hour, Effect, pure, ◌>>=◌, ◌>>◌,
  on_error, length, get_elem?, take, drop, last_or, window, length-append, length-drop,
  length-window, All, ltb, leb, ◌==◌, if◌then◌else◌, ltb→lt, lt→ltb, leb→le, ==_iff, tests,
  Bool-cases, Option-cases, ℤ, pos, negsuc, pos_part, neg_part, sub_ℕ, neg_ℤ, ◌+ℤ◌, ◌-ℤ◌, ◌*ℤ◌,
  ltb_ℤ, eq_ℤ, leb_ℤ, size_ℤ,
}
use binance_oi_square_trader.Decimal.{Decimal, zero_dec}

-- the `int` fields may be negative
pub record OiSurgeConfig (D : Type 0) : Type 0 where
  pub lookback_periods : ℤ
  pub recent_periods : ℤ
  pub growth_from_min_min : D
  pub recent_growth_min : D
  pub min_growing_periods : ℤ

pub data OiFailure : Type 0 where
  insufficient_oi_history : ℕ → ℕ → OiFailure
  zero_min_oi zero_recent_start_oi low_growth_from_min recent_flat no_uptrend price_not_moved_up :
      OiFailure

pub record OiSurgeResult (D : Type 0) : Type 0 where
  pub triggered : Bool
  pub growth_from_min : D
  pub recent_growth : D
  pub growing_periods : ℕ
  pub recent_periods_count : ℕ
  pub price_moved_up : Bool
  pub failed_reason : Option OiFailure

-- Go's `/ 2` on an int
half : ℤ → ℤ
half (pos n) = pos (n / 2)
half (negsuc n) = neg_ℤ (pos ((n + 1) / 2))

module _ {D : Type 0} ⦃d : Decimal D⦄ where
  unfoldable pub oi_surge_defaults : OiSurgeConfig D → OiSurgeConfig D
  unfolding half
  oi_surge_defaults cfg =
      let recent = if eq_ℤ cfg.recent_periods (pos 0) then pos 6 else cfg.recent_periods in
      record {
        lookback_periods =
            if eq_ℤ cfg.lookback_periods (pos 0) then pos 10 else cfg.lookback_periods;
        recent_periods = recent;
        growth_from_min_min =
            if d.is_zero cfg.growth_from_min_min then d.from_float 5 2 else cfg.growth_from_min_min;
        recent_growth_min =
            if d.is_zero cfg.recent_growth_min then d.from_float 3 2 else cfg.recent_growth_min;
        min_growing_periods =
            if eq_ℤ cfg.min_growing_periods (pos 0) then half recent else cfg.min_growing_periods;
      }

  -- the loop of condition 1, from the first value of its window
  unfoldable pub min_from : D → List D → D
  min_from least [] = least
  min_from least (x ∷ xs) = min_from (if d.less_than x least then x else least) xs

  -- the loop of condition 3: how often a value of the window is above the one before it
  unfoldable pub growing_from : D → List D → ℕ
  growing_from before [] = 0
  growing_from before (x ∷ xs) = (if d.greater_than x before then 1 else 0) + growing_from x xs

  abbrev pub head_or : D → List D → D
  head_or z [] = z
  head_or z (x ∷ xs) = x

  abbrev pub rest_of : List D → List D
  rest_of [] = []
  rest_of (x ∷ xs) = xs

  abbrev no_surge : OiSurgeResult D
  no_surge = record {
    triggered = false;
    growth_from_min = zero_dec;
    recent_growth = zero_dec;
    growing_periods = 0;
    recent_periods_count = 0;
    price_moved_up = false;
    failed_reason = none;
  }

  -- the `switch` at the end
  unfoldable pub judge : OiSurgeConfig D → OiSurgeResult D → OiSurgeResult D
  judge cfg r =
      if d.less_than r.growth_from_min cfg.growth_from_min_min
      then record r { failed_reason = some low_growth_from_min }
      else if d.less_than r.recent_growth cfg.recent_growth_min
      then record r { failed_reason = some recent_flat }
      else if ltb_ℤ (pos r.growing_periods) cfg.min_growing_periods
      then record r { failed_reason = some no_uptrend }
      else if not r.price_moved_up
      then record r { failed_reason = some price_not_moved_up }
      else record r { triggered = true }

  -- the lowest value of the lookback window, and the first one of the recent window
  abbrev pub min_val : List D → ℕ → D
  min_val series lookback =
      let w = window (min lookback (length series)) series in
      min_from (head_or zero_dec w) (rest_of w)

  abbrev pub recent_start : List D → ℕ → D
  recent_start series recent = head_or zero_dec (window recent series)

  abbrev pub growing_periods_of : List D → ℕ → ℕ
  growing_periods_of series recent =
      let w = window recent series in growing_from (head_or zero_dec w) (rest_of w)

  abbrev pub growth : D → D → D
  growth current start = d.div (d.sub current start) start

  -- with both periods positive, and `recent` values at hand
  unfoldable pub surge_over : List D → D → D → OiSurgeConfig D → ℕ → ℕ → OiSurgeResult D
  unfolding judge
  surge_over series close_now close_minus_one_hour cfg lookback recent =
      let current = last_or zero_dec series in
      let least = min_val series lookback in
      let start = recent_start series recent in
      if d.is_zero least
      then record no_surge { failed_reason = some zero_min_oi }
      else if d.is_zero start
      then record no_surge { failed_reason = some zero_recent_start_oi }
      else judge cfg (record no_surge {
        growth_from_min = growth current least;
        recent_growth = growth current start;
        growing_periods = growing_periods_of series recent;
        recent_periods_count = recent - 1;
        price_moved_up = d.greater_than close_now close_minus_one_hour;
      })

  unfoldable pub oi_surge : List D → D → D → OiSurgeConfig D → Option (OiSurgeResult D)
  oi_surge series close_now close_minus_one_hour config =
      let cfg = oi_surge_defaults config in
      let lookback = pos_part cfg.lookback_periods in
      let recent = pos_part cfg.recent_periods in
      if leb_ℤ cfg.lookback_periods (pos 0) || leb_ℤ cfg.recent_periods (pos 0)
      then none
      else if ltb (length series) recent
      then some (record no_surge {
        failed_reason = some (insufficient_oi_history (length series) recent);
      })
      else some (surge_over series close_now close_minus_one_hour cfg lookback recent)
