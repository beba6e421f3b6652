-- ===== src/Signal/SquareHot.antt =====
-- internal/signal/square_hot.go: its configuration, results and statistics. In Modes `hours` is the
-- decimal of `SamplePeriod.Hours()`, a float.
pub mod Modes
pub mod Verdict
use binance_oi_square_trader.Prelude.{
  ℕ, zero, suc, ◌+◌, ◌-◌, ◌*◌, ◌/◌, ◌%◌, ◌^◌, ◌≤◌, ◌<◌, min, String, ◌≡◌, refl, sym, ap, ◌∙◌, ◌≢◌,
  ◌↔◌, ◌⊎◌, inl, inr, Bool, true, false, not, ◌&&◌, ◌||◌, Option, none, some, List, [], ◌∷◌, ◌++◌,
  map, arith, str_eq, eq_iff, Time, Duration, second, minute, hour, Effect, pure, ◌>>=◌, ◌>>◌,
  on_error, length, get_elem?, take, drop, last_or, window, length-append, length-drop,
  length-window, All, ltb, leb, ◌==◌, if◌then◌else◌, ltb→lt, lt→ltb, leb→le, ==_iff, tests,
  Bool-cases, Option-cases, ℤ, pos, negsuc, pos_part, neg_part, sub_ℕ, neg_ℤ, ◌+ℤ◌, ◌-ℤ◌, ◌*ℤ◌,
  ltb_ℤ, eq_ℤ, leb_ℤ, size_ℤ,
}
use binance_oi_square_trader.Decimal.{Decimal, zero_dec}

pub data Mode : Type 0 where
  fallback short medium standard : Mode

pub record SquareHotConfig (D : Type 0) : Type 0 where
  pub standard_ratio_threshold : D
  pub standard_acceleration_threshold : D
  pub medium_ratio_threshold : D
  pub medium_acceleration_threshold : D
  pub short_ratio_threshold : D
  -- an int, and a time.Duration, which may be negative
  pub min_data_points : ℤ
  pub sample_period : ℤ

pub data HotFailure : Type 0 where
  insufficient_samples : ℕ → ℤ → HotFailure
  insufficient_deltas : ℕ → ℕ → HotFailure
  zero_baseline_median low_ratio low_acceleration : HotFailure

pub record SquareHotResult (D : Type 0) : Type 0 where
  pub hot : Bool
  pub mode : Mode
  pub ratio : D
  pub acceleration : D
  pub sample_count : ℕ
  pub data_span_hours : D
  pub failed_reason : Option HotFailure

-- A result, the error of a bad configuration, or a slice out of range.
pub data Outcome (D : Type 0) : Type 0 where
  ok : SquareHotResult D → Outcome D
  invalid_config panic : Outcome D

-- What the `switch` on the mode chooses.
pub record Params (D : Type 0) : Type 0 where
  pub deltas : List D
  pub recent_k : ℕ
  pub accel_window : ℕ
  pub ratio_threshold : D
  pub accel_threshold : D
  pub use_last_24h : Bool

abbrev pub is_short : Mode → Bool
is_short short = true
is_short _ = false

-- Go's `a / b` of two durations, cut off towards zero
abbrev pub div_int : Duration → ℤ → ℤ
div_int a (pos n) = pos (a / n)
div_int a (negsuc n) = neg_ℤ (pos (a / (n + 1)))

abbrev pub periods_in_60_min : ℤ → ℕ
periods_in_60_min sample_period =
    if ltb_ℤ (div_int hour sample_period) (pos 1) then 1 else pos_part (div_int hour sample_period)

-- the slices `xs[:i]` and `xs[i:]`, where `none` is an index out of range
abbrev pub slice_to {ℓ} : {A : Type ℓ} → ℤ → List A → Option (List A)
slice_to (pos i) xs = if leb i (length xs) then some (take i xs) else none
slice_to (negsuc i) xs = none

abbrev pub slice_from {ℓ} : {A : Type ℓ} → ℤ → List A → Option (List A)
slice_from (pos i) xs = if leb i (length xs) then some (drop i xs) else none
slice_from (negsuc i) xs = none

module _ {D : Type 0} ⦃d : Decimal D⦄ where
  unfoldable pub square_hot_defaults : SquareHotConfig D → SquareHotConfig D
  square_hot_defaults cfg =
      let or = λ (x y : D). if d.is_zero x then y else x in
      record {
        standard_ratio_threshold = or cfg.standard_ratio_threshold (d.from_float 2 0);
        standard_acceleration_threshold = or cfg.standard_acceleration_threshold (d.from_float 6 1);
        medium_ratio_threshold = or cfg.medium_ratio_threshold (d.from_float 2 0);
        medium_acceleration_threshold = or cfg.medium_acceleration_threshold (d.from_float 6 1);
        short_ratio_threshold = or cfg.short_ratio_threshold (d.from_float 25 1);
        min_data_points = if eq_ℤ cfg.min_data_points (pos 0) then pos 8 else cfg.min_data_points;
        sample_period =
            if eq_ℤ cfg.sample_period (pos 0) then pos (15 * minute) else cfg.sample_period;
      }

  -- the loop of `computeNPeriodDeltas`: two walks over the list, n places apart
  differences : List D → List D → List D
  differences (later ∷ ls) (earlier ∷ es) = d.sub later earlier ∷ differences ls es
  differences _ _ = []

  unfoldable pub compute_n_period_deltas : List D → ℕ → List D
  unfolding differences
  compute_n_period_deltas c n = if leb (length c) n || ltb n 1 then [] else differences (drop n c) c

  unfoldable pub second_order_diff : List D → List D
  unfolding differences
  second_order_diff xs =
      let first = differences (drop 1 xs) xs in
      if ltb (length xs) 3 then [] else differences (drop 1 first) first

  unfoldable pub sum : D → List D → D
  sum total [] = total
  sum total (x ∷ xs) = sum (d.add total x) xs

  unfoldable pub mean : List D → D
  unfolding sum
  mean [] = zero_dec
  mean (x ∷ xs) = d.div (sum zero_dec (x ∷ xs)) (d.from_int (pos (length (x ∷ xs))))

  unfoldable pub insert_sorted : D → List D → List D
  insert_sorted x [] = x ∷ []
  insert_sorted x (y ∷ ys) = if d.less_than y x then y ∷ insert_sorted x ys else x ∷ y ∷ ys

  -- `sort.Slice` by `LessThan`
  unfoldable pub sorted : List D → List D
  unfolding insert_sorted
  sorted [] = []
  sorted (x ∷ xs) = insert_sorted x (sorted xs)

  abbrev nth : List D → ℕ → D
  nth [] i = zero_dec
  nth (x ∷ xs) zero = x
  nth (x ∷ xs) (suc i) = nth xs i

  unfoldable pub median : List D → D
  unfolding sorted
  median [] = zero_dec
  median (x ∷ xs) =
      let s = sorted (x ∷ xs) in
      let n = length (x ∷ xs) in
      if n % 2 == 1
      then nth s (n / 2)
      else d.div (d.add (nth s (n / 2 - 1)) (nth s (n / 2))) (d.from_int (pos 2))

  unfoldable pub count_positive : List D → ℕ
  count_positive [] = 0
  count_positive (x ∷ xs) = (if d.is_positive x then 1 else 0) + count_positive xs

  unfoldable pub pos_ratio : List D → D
  unfolding count_positive
  pos_ratio [] = zero_dec
  pos_ratio (x ∷ xs) =
      d.div (d.from_int (pos (count_positive (x ∷ xs)))) (d.from_int (pos (length (x ∷ xs))))
