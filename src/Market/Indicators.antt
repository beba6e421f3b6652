-- ===== src/Market/Indicators.antt =====
-- internal/market/indicators.go: the indicators over values ordered from the oldest to the newest.
-- `none` is one of the errors ErrInvalidPeriod, ErrInsufficientData and a mismatch of lengths.
pub mod Bounds
use binance_oi_square_trader.Prelude.{
  ℕ, zero, suc, ◌+◌, ◌-◌, ◌*◌, not, ◌&&◌, ◌||◌, Option, none, some, List, [], ◌∷◌, map, length,
  take, drop, window, ltb, ◌==◌, if◌then◌else◌, ℤ, pos, pos_part, leb_ℤ,
}
use binance_oi_square_trader.Market.Float.{Float64}

-- ADX, +DI and -DI at the last bar
pub record Dmi (F : Type 0) : Type 0 where
  pub adx : F
  pub plus_di : F
  pub minus_di : F

-- one index of the slices tr, plusDM and minusDM, and one triple of their smoothed values
pub record Move (F : Type 0) : Type 0 where
  pub tr : F
  pub plus : F
  pub minus : F

-- the guards on the period and on the number of values
abbrev pub enough {ℓ κ} : {A : Type ℓ} {B : Type κ} → ℤ → ℕ → List A → Option B → Option B
enough period least values answer =
    if leb_ℤ period (pos 0) then none else if ltb (length values) least then none else answer

module _ {F : Type 0} ⦃f : Float64 F⦄ where
  abbrev pub zero_float : F
  zero_float = f.literal 0 0

  abbrev pub one : F
  one = f.literal 1 0

  abbrev pub hundred : F
  hundred = f.literal 100 0

  sum_from : F → List F → F
  sum_from sum [] = sum
  sum_from sum (v ∷ vs) = sum_from (f.add sum v) vs

  abbrev blend : F → F → F → F
  blend alpha v before = f.add (f.mul v alpha) (f.mul before (f.sub one alpha))

  -- the loop `for i := period; i < len(values); i++`
  smooth_from : F → F → List F → F
  smooth_from alpha acc [] = acc
  smooth_from alpha acc (v ∷ vs) = smooth_from alpha (blend alpha v acc) vs

  unfoldable pub sma : List F → ℤ → Option F
  unfolding sum_from
  sma values period =
      let n = pos_part period in
      enough period n values
        (some (f.div (sum_from zero_float (window n values)) (f.float64 period)))

  -- the mean of the first values
  seed_of : List F → ℤ → F
  unfolding sum_from
  seed_of values period =
      f.div (sum_from zero_float (take (pos_part period) values)) (f.float64 period)

  unfoldable pub ema : List F → ℤ → Option F
  unfolding seed_of smooth_from
  ema values period =
      let n = pos_part period in
      let alpha = f.div (f.literal 2 0) (f.float64 (pos (n + 1))) in
      enough period n values (some (smooth_from alpha (seed_of values period) (drop n values)))

  unfoldable pub rma : List F → ℤ → Option F
  unfolding seed_of smooth_from
  rma values period =
      let n = pos_part period in
      let alpha = f.div one (f.float64 period) in
      enough period n values (some (smooth_from alpha (seed_of values period) (drop n values)))

  -- the changes from each close to the next one
  unfoldable pub changes : List F → List F
  changes (c ∷ c' ∷ cs) = f.sub c' c ∷ changes (c' ∷ cs)
  changes _ = []

  abbrev pub gain : F → F
  gain ch = if f.lt zero_float ch then ch else zero_float

  abbrev pub loss : F → F
  loss ch = if f.lt zero_float ch then zero_float else f.neg ch

  abbrev rsi_of : F → F → F
  rsi_of avg_gain avg_loss =
      if f.eq avg_loss zero_float
      then if f.eq avg_gain zero_float then f.literal 50 0 else hundred
      else f.sub hundred (f.div hundred (f.add one (f.div avg_gain avg_loss)))

  unfoldable pub rsi : List F → ℤ → Option F
  rsi closes period =
      let gains = map gain (changes closes) in
      let losses = map loss (changes closes) in
      enough period (pos_part period + 1) closes (elim (rma gains period) [
        | none ↦ none
        | some avg_gain ↦ elim (rma losses period) [
          | none ↦ none
          | some avg_loss ↦ some (rsi_of avg_gain avg_loss)
        ]
      ])

  move : F → F → F → F → F → Move F
  move h h' l l' c =
      let up = f.sub h' h in
      let dn = f.sub l l' in
      record {
        tr = f.max (f.sub h' l') (f.max (f.abs (f.sub h' c)) (f.abs (f.sub l' c)));
        plus = if f.lt dn up && f.lt zero_float up then up else zero_float;
        minus = if f.lt up dn && f.lt zero_float dn then dn else zero_float;
      }

  -- the slices of the loop `for i := 1; i < n; i++`
  unfoldable pub moves : List F → List F → List F → List (Move F)
  unfolding move
  moves (h ∷ h' ∷ hs) (l ∷ l' ∷ ls) (c ∷ cs) = move h h' l l' c ∷ moves (h' ∷ hs) (l' ∷ ls) cs
  moves _ _ _ = []

  sum_moves : Move F → List (Move F) → Move F
  sum_moves sum [] = sum
  sum_moves sum (m ∷ ms) =
      sum_moves
        (record {
          tr = f.add sum.tr m.tr;
          plus = f.add sum.plus m.plus;
          minus = f.add sum.minus m.minus;
        })
        ms

  pub mean_move : List (Move F) → ℤ → Move F
  unfolding sum_moves
  mean_move ms period =
      let sum = sum_moves (record { tr = zero_float; plus = zero_float; minus = zero_float }) ms in
      record {
        tr = f.div sum.tr (f.float64 period);
        plus = f.div sum.plus (f.float64 period);
        minus = f.div sum.minus (f.float64 period);
      }

  blend_move : F → Move F → Move F → Move F
  blend_move alpha m s = record {
    tr = blend alpha m.tr s.tr;
    plus = blend alpha m.plus s.plus;
    minus = blend alpha m.minus s.minus;
  }

  abbrev pub di : F → F → F
  di smoothed atr = f.div (f.mul hundred smoothed) atr

  -- what appendDX appends
  dx : Move F → F
  dx s =
      let p = di s.plus s.tr in
      let m = di s.minus s.tr in
      if f.eq s.tr zero_float
      then zero_float
      else if f.eq (f.add p m) zero_float
      then zero_float
      else f.div (f.mul hundred (f.abs (f.sub p m))) (f.add p m)

  unfoldable pub dx_series : F → Move F → List (Move F) → List F
  unfolding dx blend_move
  dx_series alpha s [] = dx s ∷ []
  dx_series alpha s (m ∷ ms) = dx s ∷ dx_series alpha (blend_move alpha m s) ms

  smooth_moves : F → Move F → List (Move F) → Move F
  unfolding blend_move
  smooth_moves alpha s [] = s
  smooth_moves alpha s (m ∷ ms) = smooth_moves alpha (blend_move alpha m s) ms

  unfoldable pub dmi : List F → List F → List F → ℤ → Option (Dmi F)
  unfolding mean_move smooth_moves
  dmi highs lows closes period =
      let n = pos_part period in
      let ms = moves highs lows closes in
      let alpha = f.div one (f.float64 period) in
      let seed = mean_move (take n ms) period in
      let series = dx_series alpha seed (drop n ms) in
      let last = smooth_moves alpha seed (drop n ms) in
      if leb_ℤ period (pos 0)
      then none
      else if not (length highs == length lows) || not (length highs == length closes)
      then none
      else if ltb (length highs) (2 * n + 1)
      then none
      else if ltb (length series) n
      then none
      else elim (rma series period) [
        | none ↦ none
        | some adx ↦ some (record {
          adx = adx;
          plus_di = if f.lt zero_float last.tr then di last.plus last.tr else zero_float;
          minus_di = if f.lt zero_float last.tr then di last.minus last.tr else zero_float;
        })
      ]

  pub largest : F → List F → F
  largest best [] = best
  largest best (v ∷ vs) = largest (if f.lt best v then v else best) vs

  -- A window without a value would be an index out of range.
  unfoldable pub highest : List F → ℤ → Option F
  unfolding largest
  highest values period =
      let n = pos_part period in
      enough period n values (elim (window n values) [ [] ↦ none | v ∷ vs ↦ some (largest v vs) ])
