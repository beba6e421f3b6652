-- ===== src/Market/Uptrend.antt =====
-- internal/market/uptrend.go: the composite signal of an uptrend on closed bars. The item that the
-- code returns beside an error is left out, and so are the fields that the collector sets.
pub mod Verdict
use binance_oi_square_trader.Prelude.{
  ℕ, ◌-◌, String, Bool, true, false, not, ◌&&◌, ◌||◌, Option, none, some, List, [], ◌∷◌, length,
  take, last_or, ltb, ◌==◌, if◌then◌else◌, pos,
}
use binance_oi_square_trader.Market.Float.{Float64}
use binance_oi_square_trader.Market.Indicators.{Dmi, zero_float, sma, ema, rsi, dmi, highest}

pub data SignalType : Type 0 where
  breakout_and_pullback breakout pullback no_signal : SignalType

pub data UptrendError : Type 0 where
  need_1h_bars need_4h_bars indicator_error indicator_not_finite volume_ma20_not_positive :
      UptrendError

-- what the indicators say of the bars
pub record Readings (F : Type 0) : Type 0 where
  pub ema20 : F
  pub ema20_prev3 : F
  pub ema50 : F
  pub ema20_4h : F
  pub highest20 : F
  pub volume_ma20 : F
  pub rsi14 : F
  pub dmi14 : Dmi F

-- the last bars, and the changes of the last 4h bar
pub record Snapshot (F : Type 0) : Type 0 where
  pub symbol : String
  pub close : F
  pub low : F
  pub volume : F
  pub close_4h : F
  pub pct_4h : F
  pub btc_pct_4h : F

pub record UptrendItem (F : Type 0) : Type 0 where
  pub snapshot : Snapshot F
  pub readings : Readings F
  pub rel_strength : F
  pub breakout_ratio : F
  pub vol_ratio : F
  pub close_to_ema20 : F
  pub close_to_ema50 : F
  pub cond_close_above_ema50 : Bool
  pub cond_ema20_above_ema50 : Bool
  pub cond_ema20_rising : Bool
  pub cond_mtf_close4h_above_ema20 : Bool
  pub cond_base_trend : Bool
  pub cond_rel_strength : Bool
  pub cond_breakout_high : Bool
  pub cond_breakout_vol : Bool
  pub cond_breakout_rsi : Bool
  pub cond_breakout_adx : Bool
  pub cond_breakout_di_plus : Bool
  pub cond_breakout : Bool
  pub cond_pullback_close : Bool
  pub cond_pullback_low : Bool
  pub cond_pullback_above_ema50 : Bool
  pub cond_pullback_rsi_min : Bool
  pub cond_pullback_rsi_max : Bool
  pub cond_pullback_vol : Bool
  pub cond_pullback : Bool
  pub pass : Bool
  pub signal_type : SignalType

pub data Checked (F : Type 0) : Type 0 where
  judged : UptrendItem F → Checked F
  refused : UptrendError → Checked F

unfoldable pub signal_type_of : Bool → Bool → SignalType
signal_type_of out back =
    if out && back
    then breakout_and_pullback
    else if out
    then breakout
    else if back
    then pullback
    else no_signal

infixl 5 ◌>>=◌
abbrev pub ◌>>=◌ {ℓ κ} : {A : Type ℓ} {B : Type κ} → Option A → (A → Option B) → Option B
none >>= k = none
some a >>= k = k a

module _ {F : Type 0} ⦃f : Float64 F⦄ where
  abbrev pub rel_strength_tolerance : F
  rel_strength_tolerance = f.neg (f.literal 5 3)

  abbrev pub breakout_high_buffer : F
  breakout_high_buffer = f.literal 1002 3

  abbrev pub breakout_vol_multi : F
  breakout_vol_multi = f.literal 15 1

  abbrev pub breakout_rsi_min : F
  breakout_rsi_min = f.literal 550 1

  abbrev pub breakout_adx_min : F
  breakout_adx_min = f.literal 200 1

  abbrev pub pullback_ema20_floor : F
  pullback_ema20_floor = f.literal 98 2

  abbrev pub pullback_low_touch : F
  pullback_low_touch = f.literal 101 2

  abbrev pub pullback_rsi_min : F
  pullback_rsi_min = f.literal 450 1

  abbrev pub pullback_rsi_max : F
  pullback_rsi_max = f.literal 700 1

  abbrev pub pullback_vol_max : F
  pullback_vol_max = f.literal 13 1

  unfoldable pub any_nan : List F → Bool
  any_nan [] = false
  any_nan (v ∷ vs) = (f.is_nan v || f.is_inf v) || any_nan vs

  abbrev readings_list : Readings F → List F
  readings_list r =
      r.ema20 ∷ r.ema20_prev3 ∷ r.ema50 ∷ r.ema20_4h ∷ r.highest20 ∷ r.volume_ma20 ∷ r.rsi14
      ∷ r.dmi14.adx ∷ r.dmi14.plus_di ∷ r.dmi14.minus_di ∷ []

  unfoldable pub read_indicators : List F → List F → List F → List F → List F → Option (Readings F)
  read_indicators closes1h highs lows volumes closes4h = do
    let n = length closes1h
    ema20 ← ema closes1h (pos 20)
    ema20_prev3 ← ema (take (n - 3) closes1h) (pos 20)
    ema50 ← ema closes1h (pos 50)
    ema20_4h ← ema closes4h (pos 20)
    highest20 ← highest (take (n - 1) highs) (pos 20)
    volume_ma20 ← sma (take (n - 1) volumes) (pos 20)
    rsi14 ← rsi closes1h (pos 14)
    dmi14 ← dmi highs lows closes1h (pos 14)
    some (record {
      ema20 = ema20;
      ema20_prev3 = ema20_prev3;
      ema50 = ema50;
      ema20_4h = ema20_4h;
      highest20 = highest20;
      volume_ma20 = volume_ma20;
      rsi14 = rsi14;
      dmi14 = dmi14;
    })

  -- `a / b` where the code tests that b is positive, and the zero value elsewhere
  abbrev ratio_to : F → F → F
  ratio_to a b = if f.lt zero_float b then f.div a b else zero_float

  unfoldable pub judge_uptrend : Snapshot F → Readings F → UptrendItem F
  judge_uptrend s r =
      let vol_ratio = f.div s.volume r.volume_ma20 in
      let above_ema50 = f.lt r.ema50 s.close in
      let ordered = f.lt r.ema50 r.ema20 in
      let rising = f.lt r.ema20_prev3 r.ema20 in
      let above_4h = f.lt r.ema20_4h s.close_4h in
      let base_trend = above_ema50 && ordered && rising && above_4h in
      let strong = f.le (f.add s.btc_pct_4h rel_strength_tolerance) s.pct_4h in
      let out_high = f.lt (f.mul r.highest20 breakout_high_buffer) s.close in
      let out_vol = f.lt breakout_vol_multi vol_ratio in
      let out_rsi = f.lt breakout_rsi_min r.rsi14 in
      let out_adx = f.lt breakout_adx_min r.dmi14.adx in
      let out_di = f.lt r.dmi14.minus_di r.dmi14.plus_di in
      let out = out_high && out_vol && out_rsi && out_adx && out_di in
      let back_close = f.le (f.mul r.ema20 pullback_ema20_floor) s.close in
      let back_low = f.le s.low (f.mul r.ema20 pullback_low_touch) in
      let back_rsi_min = f.lt pullback_rsi_min r.rsi14 in
      let back_rsi_max = f.lt r.rsi14 pullback_rsi_max in
      let back_vol = f.le vol_ratio pullback_vol_max in
      let back =
        back_close && back_low && above_ema50 && back_rsi_min && back_rsi_max && back_vol in
      record {
        snapshot = s;
        readings = r;
        rel_strength = f.sub s.pct_4h s.btc_pct_4h;
        breakout_ratio = ratio_to s.close r.highest20;
        vol_ratio = vol_ratio;
        close_to_ema20 = ratio_to s.close r.ema20;
        close_to_ema50 = ratio_to s.close r.ema50;
        cond_close_above_ema50 = above_ema50;
        cond_ema20_above_ema50 = ordered;
        cond_ema20_rising = rising;
        cond_mtf_close4h_above_ema20 = above_4h;
        cond_base_trend = base_trend;
        cond_rel_strength = strong;
        cond_breakout_high = out_high;
        cond_breakout_vol = out_vol;
        cond_breakout_rsi = out_rsi;
        cond_breakout_adx = out_adx;
        cond_breakout_di_plus = out_di;
        cond_breakout = out;
        cond_pullback_close = back_close;
        cond_pullback_low = back_low;
        cond_pullback_above_ema50 = above_ema50;
        cond_pullback_rsi_min = back_rsi_min;
        cond_pullback_rsi_max = back_rsi_max;
        cond_pullback_vol = back_vol;
        cond_pullback = back;
        pass = base_trend && strong && (out || back);
        signal_type = signal_type_of out back;
      }

  unfoldable pub judge_readings : Snapshot F → Option (Readings F) → Checked F
  judge_readings s none = refused indicator_error
  judge_readings s (some r) =
      if any_nan (readings_list r)
      then refused indicator_not_finite
      else if f.le r.volume_ma20 zero_float
      then refused volume_ma20_not_positive
      else judged (judge_uptrend s r)

  unfoldable pub snapshot_of : String → List F → List F → List F → List F → F → F → Snapshot F
  snapshot_of symbol closes1h lows volumes closes4h token_pct_4h btc_pct_4h = record {
    symbol = symbol;
    close = last_or zero_float closes1h;
    low = last_or zero_float lows;
    volume = last_or zero_float volumes;
    close_4h = last_or zero_float closes4h;
    pct_4h = token_pct_4h;
    btc_pct_4h = btc_pct_4h;
  }

  unfoldable pub check_uptrend :
      String → List F → List F → List F → List F → List F → F → F → Checked F
  unfolding judge_readings snapshot_of
  check_uptrend symbol closes1h highs lows volumes closes4h token_pct_4h btc_pct_4h =
      let n = length closes1h in
      if ltb n 50 || not (length highs == n) || not (length lows == n) || not (length volumes == n)
      then refused need_1h_bars
      else if ltb (length closes4h) 21
      then refused need_4h_bars
      else judge_readings
          (snapshot_of symbol closes1h lows volumes closes4h token_pct_4h btc_pct_4h)
          (read_indicators closes1h highs lows volumes closes4h)
