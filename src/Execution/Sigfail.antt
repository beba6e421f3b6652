-- ===== src/Execution/Sigfail.antt =====
-- internal/execution/sigfail_detector.go: trades whose signal has failed. What the tables of the
-- market, Redis and the clock say is `SigfailWorld` at the time of the call.
use mathlib.Core.List.{reverse}
use binance_oi_square_trader.Prelude.{
  ℕ, ◌-◌, ◌*◌, String, ◌≡◌, refl, ◌∙◌, Bool, true, false, not, ◌&&◌, ◌||◌, Option, none, some, List,
  [], ◌∷◌, arith, str_eq, Time, minute, Effect, length, take, ltb, if◌then◌else◌, ℤ, pos, pos_part,
  ltb_ℤ,
}
use binance_oi_square_trader.Decimal.{Decimal}
use binance_oi_square_trader.Indicator.{ema}
use binance_oi_square_trader.Storage.Db.{Session, outside, select}
use binance_oi_square_trader.Execution.Trail.{decimal_from_pg_numeric}
use binance_oi_square_trader.Execution.Exit.{ExitWorld, ExitRow, sigfail, list_open_trades_for_exit}
use binance_oi_square_trader.Execution.Exit.Close.{close_position}

pub record SigfailConfig (D : Type 0) : Type 0 where
  pub oi_drop_pct : D
  pub ema20_klines : ℤ
  pub logic : String
  pub low_break_buffer_pct : D
  pub low_lookback_min : ℤ

pub record SigfailWorld (D : Type 0) : Type 0 where
  pub now : ℕ → Time
  pub latest_oi : ℕ → String → Option D
  -- the newest closes first, at most so many
  pub last_closes : ℕ → String → ℕ → Option (List D)
  pub lowest_low_since : ℕ → String → Time → Option D
  -- the number under latest_price:{symbol}
  pub latest_price : ℕ → String → Option D

-- A condition, which is not available where its data is missing.
pub record Condition : Type 0 where
  pub trigger : Bool
  pub available : Bool

abbrev skipped : Condition
skipped = record { trigger = false; available = false }

abbrev seen : Bool → Condition
seen trigger = record { trigger = trigger; available = true }

abbrev ema_period : ℕ
ema_period = 20

unfoldable pub fires : String → Condition → Condition → Condition → Bool
fires logic a b c =
    if str_eq logic "OR"
    then (a.available && a.trigger) || (b.available && b.trigger) || (c.available && c.trigger)
    else a.available && b.available && c.available && a.trigger && b.trigger && c.trigger

module _ {D : Type 0} ⦃d : Decimal D⦄ where
  oi_drop : D → D → Option D → Condition
  oi_drop threshold initial none = skipped
  oi_drop threshold initial (some current) =
      if d.is_zero current
      then skipped
      else seen (d.greater_than_or_equal (d.div (d.sub initial current) initial) threshold)

  unfoldable pub all_below : D → List D → Bool
  all_below level [] = true
  all_below level (c ∷ cs) = if not (d.less_than c level) then false else all_below level cs

  below_ema : ℤ → List D → Option D → Condition
  below_ema klines closes none = skipped
  below_ema klines closes (some level) =
      if d.is_zero level then skipped else seen (all_below level (take (pos_part klines) closes))

  ema_break : ℤ → Option (List D) → Condition
  ema_break klines none = skipped
  ema_break klines (some closes) =
      if ltb (length closes) ema_period
      then skipped
      else if ltb_ℤ (pos (length closes)) klines
      then skipped
      else below_ema klines closes (ema (reverse closes) (pos ema_period))

  low_break : D → D → Option D → Condition
  low_break buffer current none = skipped
  low_break buffer current (some low) =
      if d.is_zero low
      then skipped
      else seen (d.less_than current (d.mul low (d.sub (d.from_int (pos 1)) buffer)))

  module _ (world : SigfailWorld D) (exits : ExitWorld D) (cfg : SigfailConfig D) where
    unfoldable pub check_oi_drop : ExitRow D → Effect (Session D) Condition
    unfolding oi_drop
    check_oi_drop r s =
        let initial = decimal_from_pg_numeric r.initial_oi in
        if d.is_zero initial
        then (skipped, s)
        else outside (λ n. oi_drop cfg.oi_drop_pct initial (world.latest_oi n r.symbol)) s

    unfoldable pub check_ema20_break : ExitRow D → Effect (Session D) Condition
    unfolding ema_break below_ema
    check_ema20_break r =
        outside (λ n. ema_break cfg.ema20_klines (world.last_closes n r.symbol 30))

    window_low : ExitRow D → D → Effect (Session D) Condition
    window_low r current s =
        let cutoff = world.now s.clock - pos_part cfg.low_lookback_min * minute in
        outside
          (λ n.
            low_break cfg.low_break_buffer_pct current (world.lowest_low_since n r.symbol cutoff))
          s

    unfoldable pub check_price_low_break : ExitRow D → Effect (Session D) Condition
    unfolding window_low low_break
    check_price_low_break r s =
        let (price, s1) = outside (λ n. world.latest_price n r.symbol) s in
        if not (ltb_ℤ (pos 0) cfg.low_lookback_min) || d.is_zero cfg.low_break_buffer_pct
        then (skipped, s)
        else elim price [
          | none ↦ (skipped, s1)
          | some current ↦ if d.is_zero current then (skipped, s1) else window_low r current s1
        ]

    unfoldable pub eval_and_maybe_close : ExitRow D → Effect (Session D) Bool
    eval_and_maybe_close r s =
        let (oi, s1) = check_oi_drop r s in
        let (below, s2) = check_ema20_break r s1 in
        let (low, s3) = check_price_low_break r s2 in
        if fires cfg.logic oi below low
        then (true, close_position exits r sigfail s3)
        else (false, s3)

    unfoldable pub eval_rows : List (ExitRow D) → Session D → Session D
    eval_rows [] s = s
    eval_rows (r ∷ rs) s = eval_rows rs (eval_and_maybe_close r s).1

    unfoldable pub detect_tick : Session D → Session D
    detect_tick s =
        let (rows, s1) = select list_open_trades_for_exit s in
        elim rows [ none ↦ s1 | some rs ↦ eval_rows rs s1 ]

    check_price_low_break-db :
        (r : ExitRow D) (s : Session D) → (check_price_low_break r s).1.db ≡ s.db
    unfolding check_price_low_break window_low outside
    check_price_low_break-db r s = ground arith

    check_ema20_break-db : (r : ExitRow D) (s : Session D) → (check_ema20_break r s).1.db ≡ s.db
    unfolding check_ema20_break outside
    check_ema20_break-db r s = refl

    check_oi_drop-missing :
        (r : ExitRow D) (s : Session D)
        → d.is_zero (decimal_from_pg_numeric r.initial_oi) ≡ true
        → ((check_oi_drop r s).0.available ≡ false) × ((check_oi_drop r s).1.db ≡ s.db)
    unfolding check_oi_drop
    check_oi_drop-missing r s missing = rw missing (refl, refl)

    no_oi :
        (a b c : Condition)
        → a.available ≡ false
        → str_eq cfg.logic "OR" ≡ false
        → fires cfg.logic a b c ≡ false
    unfolding fires
    no_oi a b c missing all = rw (all, missing) refl

    -- Unless the logic is OR, a trade whose open interest at its entry is missing or zero is never
    -- closed by the detector, whatever the other two conditions say.
    pub eval_and_maybe_close-no_oi :
        (r : ExitRow D) (s : Session D)
        → d.is_zero (decimal_from_pg_numeric r.initial_oi) ≡ true
        → str_eq cfg.logic "OR" ≡ false
        → ((eval_and_maybe_close r s).0 ≡ false) × ((eval_and_maybe_close r s).1.db ≡ s.db)
    unfolding eval_and_maybe_close
    eval_and_maybe_close-no_oi r s missing all =
        let (oi, s1) = check_oi_drop r s in
        let (below, s2) = check_ema20_break r s1 in
        let (low, s3) = check_price_low_break r s2 in
        let (skip, same) = check_oi_drop-missing r s missing in
        rw (no_oi oi below low skip all)
          (refl, check_price_low_break-db r s2 ∙ check_ema20_break-db r s1 ∙ same)
