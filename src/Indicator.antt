-- ===== src/Indicator.antt =====
-- internal/pkg/indicator: the averages over bars, oldest first. `none` is an error of the arguments.
use binance_oi_square_trader.Prelude.{
  ℕ, ◌+◌, ◌-◌, ◌≡◌, refl, not, ◌||◌, Option, none, some, List, [], ◌∷◌, arith, length, take, drop,
  ltb, ◌==◌, if◌then◌else◌, ℤ, pos, pos_part, leb_ℤ,
}
use binance_oi_square_trader.Decimal.{Decimal, IsDecimal, zero_dec, ◌≼◌}
use binance_oi_square_trader.Decimal.Order.{larger-ge}

-- digits after the point
abbrev decimal_precision : ℕ
decimal_precision = 18

module _ {D : Type 0} ⦃d : Decimal D⦄ where
  larger : D → D → D
  larger x y = if d.greater_than x y then x else y

  -- one TR, of a bar and the close before it
  unfoldable pub true_range : D → D → D → D
  unfolding larger
  true_range high low close =
      larger (d.abs (d.sub low close)) (larger (d.abs (d.sub high close)) (d.sub high low))

  -- TR_1, TR_2, …, along three lists of one length
  unfoldable pub true_ranges : List D → List D → List D → List D
  true_ranges (h ∷ h' ∷ hs) (l ∷ l' ∷ ls) (c ∷ cs) =
      true_range h' l' c ∷ true_ranges (h' ∷ hs) (l' ∷ ls) cs
  true_ranges _ _ _ = []

  unfoldable pub sum_of : D → List D → D
  sum_of total [] = total
  sum_of total (x ∷ xs) = sum_of (d.add total x) xs

  -- Wilder's recursion over the values behind the seed
  unfoldable pub smooth : ℕ → D → List D → D
  smooth period atr [] = atr
  smooth period atr (tr ∷ trs) =
      smooth period
        (d.div_round (d.add (d.mul atr (d.from_int (pos (period - 1)))) tr)
          (d.from_int (pos period)) decimal_precision)
        trs

  unfoldable pub atr : List D → List D → List D → ℤ → Option D
  atr highs lows closes period =
      let n = pos_part period in
      let trs = true_ranges highs lows closes in
      let seed =
        d.div_round (sum_of zero_dec (take n trs)) (d.from_int (pos n)) decimal_precision in
      if leb_ℤ period (pos 0)
      then none
      else if not (length lows == length highs) || not (length closes == length highs)
      then none
      else if ltb (length highs) (n + 1)
      then none
      else some (smooth n seed (drop n trs))

  unfoldable pub smooth_ema : D → D → List D → D
  smooth_ema multiplier ema [] = ema
  smooth_ema multiplier ema (v ∷ vs) =
      smooth_ema multiplier (d.round (d.add (d.mul (d.sub v ema) multiplier) ema) decimal_precision)
        vs

  unfoldable pub ema : List D → ℤ → Option D
  ema values period =
      let n = pos_part period in
      let size = d.from_int (pos n) in
      let multiplier =
        d.div_round (d.from_int (pos 2)) (d.add size (d.from_int (pos 1))) decimal_precision in
      let seed = d.div_round (sum_of zero_dec (take n values)) size decimal_precision in
      if leb_ℤ period (pos 0)
      then none
      else if ltb (length values) n
      then none
      else some (smooth_ema multiplier seed (drop n values))

  -- A true range is no smaller than the range of its bar and the distances of both ends of the bar
  -- from the close before it.
  pub true_range-ge :
      (laws : IsDecimal D) (high low close : D)
      → (d.sub high low ≼ true_range high low close)
        × (d.abs (d.sub high close) ≼ true_range high low close)
        × (d.abs (d.sub low close) ≼ true_range high low close)
  unfolding true_range larger
  true_range-ge laws high low close =
      let hc = d.abs (d.sub high close) in
      let lc = d.abs (d.sub low close) in
      let (outer, inner) = larger-ge laws lc (larger hc (d.sub high low)) in
      let (mid, least) = larger-ge laws hc (d.sub high low) in
      (laws.le_trans _ _ _ least inner, laws.le_trans _ _ _ mid inner, outer)

  -- In three lists of one length there is a true range for each bar but the first.
  pub length-true_ranges :
      (highs lows closes : List D)
      → length lows ≡ length highs
      → length closes ≡ length highs
      → length (true_ranges highs lows closes) ≡ length highs - 1
  unfolding true_ranges
  length-true_ranges [] lows closes e f = refl
  length-true_ranges (h ∷ []) lows closes e f = refl
  length-true_ranges (h ∷ h' ∷ hs) [] closes e f = absurd (omega arith)
  length-true_ranges (h ∷ h' ∷ hs) (l ∷ []) closes e f = absurd (omega arith)
  length-true_ranges (h ∷ h' ∷ hs) (l ∷ l' ∷ ls) [] e f = absurd (omega arith)
  length-true_ranges (h ∷ h' ∷ hs) (l ∷ l' ∷ ls) (c ∷ cs) e f =
      omega (arith, length-true_ranges (h' ∷ hs) (l' ∷ ls) cs (omega arith) (omega arith))
