-- ===== src/Market/Uptrend/Verdict.antt =====
-- What the composite signal means, and when it is given.
use binance_oi_square_trader.Prelude.{
  ℕ, ◌-◌, ◌≤◌, String, ◌≡◌, refl, sym, ◌≢◌, ◌⊎◌, ◌↔◌, true, Option, none, some, List, [], ◌∷◌, zero,
  suc, arith, length, take, last_or, pos,
}
use binance_oi_square_trader.Market.Float.{Float64, IsFloat64}
use mathlib.Core.Option.{some-injective, none-ne-some}
use binance_oi_square_trader.Market.Indicators.{zero_float, ema, sma, rsi, dmi, highest}
use binance_oi_square_trader.Market.Indicators.Bounds.{
  ema-some, sma-some, rsi-some, dmi-some, highest-some,
}
use binance_oi_square_trader.Market.Uptrend.{
  UptrendError, judged, refused, UptrendItem, breakout_and_pullback, no_signal, Snapshot, Readings,
  judge_uptrend, check_uptrend, snapshot_of, judge_readings, indicator_not_finite,
  volume_ma20_not_positive, read_indicators, ◌>>=◌, breakout_vol_multi, pullback_vol_max,
  signal_type_of, rel_strength_tolerance, breakout_high_buffer, breakout_rsi_min, breakout_adx_min,
  pullback_ema20_floor, pullback_low_touch, pullback_rsi_min, pullback_rsi_max,
}

take-enough {ℓ} :
    {A : Type ℓ} (j m : ℕ) (xs : List A) → m ≤ j → j ≤ length xs → m ≤ length (take j xs)
take-enough zero m xs h k = h
take-enough (suc j) m [] h k = absurd (omega arith)
take-enough (suc j) zero (x ∷ xs) h k = omega arith
take-enough (suc j) (suc m) (x ∷ xs) h k =
    omega (arith, take-enough j m xs (omega arith) (omega arith))

bind-some {ℓ κ} :
    {A : Type ℓ} {B : Type κ} (o : Option A) (k : A → Option B)
    → o ≢ none
    → ((a : A) → k a ≢ none)
    → (o >>= k) ≢ none
bind-some none k h g e = h refl
bind-some (some a) k h g e = g a e

bind-inv {ℓ κ} :
    {A : Type ℓ} {B : Type κ} (o : Option A) (k : A → Option B) (b : B)
    → (o >>= k) ≡ some b
    → (a : A) × (o ≡ some a) × (k a ≡ some b)
bind-inv none k b h = absurd (none-ne-some b h)
bind-inv (some a) k b h = (a, refl, h)

module _ {F : Type 0} ⦃f : Float64 F⦄ where
  vol_gap :
      (laws : IsFloat64 F) (v : F)
      → f.lt breakout_vol_multi v ≡ true
      → f.le v pullback_vol_max ≡ true
      → ⊥
  vol_gap laws v out back =
      let low = laws.lt_of_lt-le breakout_vol_multi v pullback_vol_max out back in
      let up =
        laws.lt_of_lt-le breakout_vol_multi pullback_vol_max breakout_vol_multi low
          (laws.literal-le 13 15 1 (omega arith)) in
      ground (arith, laws.lt_irrefl breakout_vol_multi)

  -- The last close is above the highest high of the 20 bars before it, on a volume above 1.5 times
  -- their mean, with momentum, strength and direction.
  pub record IsBreakout (i : UptrendItem F) : Type 0 where
    pub high : f.lt (f.mul i.readings.highest20 breakout_high_buffer) i.snapshot.close ≡ true
    pub loud : f.lt breakout_vol_multi i.vol_ratio ≡ true
    pub momentum : f.lt breakout_rsi_min i.readings.rsi14 ≡ true
    pub strength : f.lt breakout_adx_min i.readings.dmi14.adx ≡ true
    pub upwards : f.lt i.readings.dmi14.minus_di i.readings.dmi14.plus_di ≡ true

  -- The last bar has come back to the EMA20 on a volume of at most 1.3 times the mean.
  pub record IsPullback (i : UptrendItem F) : Type 0 where
    pub held : f.le (f.mul i.readings.ema20 pullback_ema20_floor) i.snapshot.close ≡ true
    pub touched : f.le i.snapshot.low (f.mul i.readings.ema20 pullback_low_touch) ≡ true
    pub calm : f.le i.vol_ratio pullback_vol_max ≡ true
    pub not_weak : f.lt pullback_rsi_min i.readings.rsi14 ≡ true
    pub not_overheated : f.lt i.readings.rsi14 pullback_rsi_max ≡ true

  pub record IsUptrend (i : UptrendItem F) : Type 0 where
    pub above : f.lt i.readings.ema50 i.snapshot.close ≡ true
    pub ordered : f.lt i.readings.ema50 i.readings.ema20 ≡ true
    pub rising : f.lt i.readings.ema20_prev3 i.readings.ema20 ≡ true
    pub above_4h : f.lt i.readings.ema20_4h i.snapshot.close_4h ≡ true
    pub strong : f.le (f.add i.snapshot.btc_pct_4h rel_strength_tolerance) i.snapshot.pct_4h ≡ true
    pub shape : IsBreakout i ⊎ IsPullback i

  judge_uptrend-IsUptrend :
      (s : Snapshot F) (r : Readings F)
      → ((judge_uptrend s r).pass ≡ true) ↔ IsUptrend (judge_uptrend s r)
  unfolding judge_uptrend
  judge_uptrend-IsUptrend s r = ((λ h. ground arith), (λ h. ground arith))

  judge_uptrend-type :
      (laws : IsFloat64 F) (s : Snapshot F) (r : Readings F)
      → ((judge_uptrend s r).signal_type ≢ breakout_and_pullback)
        × ((judge_uptrend s r).pass ≡ true → (judge_uptrend s r).signal_type ≢ no_signal)
  unfolding judge_uptrend signal_type_of
  judge_uptrend-type laws s r =
      ((λ e. ground (arith, vol_gap laws (f.div s.volume r.volume_ma20))), (λ h e. ground arith))

  judge_readings-judged :
      (s : Snapshot F) (o : Option (Readings F)) (i : UptrendItem F)
      → judge_readings s o ≡ judged i
      → (r : Readings F) × (o ≡ some r) × (judge_uptrend s r ≡ i)
  unfolding judge_readings
  judge_readings-judged s none i h = absurd (ground arith)
  judge_readings-judged s (some r) i h = (r, refl, ground arith)

  judge_readings-refused :
      (s : Snapshot F) (o : Option (Readings F)) (e : UptrendError)
      → o ≢ none
      → judge_readings s o ≡ refused e
      → (e ≡ indicator_not_finite) ⊎ (e ≡ volume_ma20_not_positive)
  unfolding judge_readings
  judge_readings-refused s none e some_read h = absurd (some_read refl)
  judge_readings-refused s (some r) e some_read h = ground arith

  module _ (symbol : String) (closes1h highs lows volumes closes4h : List F) (token btc : F) where
    -- What an item takes from the bars: the last close, low and volume of an hour and the last close
    -- of four hours; the indicators over the periods of the signal, where the average that shows the
    -- slope leaves out the last three bars, and the highest high and the mean volume the last one;
    -- and the ratio of the last volume to that mean.
    pub record OfBars (i : UptrendItem F) : Type 0 where
      pub last_close : i.snapshot.close ≡ last_or zero_float closes1h
      pub last_low : i.snapshot.low ≡ last_or zero_float lows
      pub last_close_4h : i.snapshot.close_4h ≡ last_or zero_float closes4h
      pub token_change : i.snapshot.pct_4h ≡ token
      pub btc_change : i.snapshot.btc_pct_4h ≡ btc
      pub ema20 : ema closes1h (pos 20) ≡ some i.readings.ema20
      pub ema20_prev3 :
          ema (take (length closes1h - 3) closes1h) (pos 20) ≡ some i.readings.ema20_prev3
      pub ema50 : ema closes1h (pos 50) ≡ some i.readings.ema50
      pub ema20_4h : ema closes4h (pos 20) ≡ some i.readings.ema20_4h
      pub highest20 :
          highest (take (length closes1h - 1) highs) (pos 20) ≡ some i.readings.highest20
      pub volume_ma20 :
          sma (take (length closes1h - 1) volumes) (pos 20) ≡ some i.readings.volume_ma20
      pub rsi14 : rsi closes1h (pos 14) ≡ some i.readings.rsi14
      pub dmi14 : dmi highs lows closes1h (pos 14) ≡ some i.readings.dmi14
      pub ratio : i.vol_ratio ≡ f.div (last_or zero_float volumes) i.readings.volume_ma20

    judge_uptrend-OfBars :
        (r : Readings F)
        → read_indicators closes1h highs lows volumes closes4h ≡ some r
        → OfBars (judge_uptrend (snapshot_of symbol closes1h lows volumes closes4h token btc) r)
    unfolding judge_uptrend snapshot_of read_indicators
    judge_uptrend-OfBars r read =
        let (a, ea, ka) = bind-inv (ema closes1h (pos 20)) _ r read in
        let (b, eb, kb) = bind-inv (ema (take (length closes1h - 3) closes1h) (pos 20)) _ r ka in
        let (c, ec, kc) = bind-inv (ema closes1h (pos 50)) _ r kb in
        let (g, eg, kg) = bind-inv (ema closes4h (pos 20)) _ r kc in
        let (m, em, km) = bind-inv (highest (take (length closes1h - 1) highs) (pos 20)) _ r kg in
        let (v, ev, kv) = bind-inv (sma (take (length closes1h - 1) volumes) (pos 20)) _ r km in
        let (q, eq, kq) = bind-inv (rsi closes1h (pos 14)) _ r kv in
        let (t, et, kt) = bind-inv (dmi highs lows closes1h (pos 14)) _ r kq in
        let same = some-injective _ _ kt in
        rw (sym same) (record {
          last_close = refl;
          last_low = refl;
          last_close_4h = refl;
          token_change = refl;
          btc_change = refl;
          ema20 = ea;
          ema20_prev3 = eb;
          ema50 = ec;
          ema20_4h = eg;
          highest20 = em;
          volume_ma20 = ev;
          rsi14 = eq;
          dmi14 = et;
          ratio = refl;
        })

    check_uptrend-judged :
        (i : UptrendItem F)
        → check_uptrend symbol closes1h highs lows volumes closes4h token btc ≡ judged i
        → (r : Readings F) × (read_indicators closes1h highs lows volumes closes4h ≡ some r)
          × (judge_uptrend (snapshot_of symbol closes1h lows volumes closes4h token btc) r ≡ i)
    unfolding check_uptrend
    check_uptrend-judged i h =
        judge_readings-judged (snapshot_of symbol closes1h lows volumes closes4h token btc)
          (read_indicators closes1h highs lows volumes closes4h) i (ground arith)

    -- An item that the check gives is that of the bars: their last values and their indicators. It
    -- passes exactly when these make an uptrend, and then its signal type names a signal; no item has
    -- the type of a breakout and a pullback at once.
    pub check_uptrend-IsUptrend :
        (laws : IsFloat64 F) {i : UptrendItem F}
        → check_uptrend symbol closes1h highs lows volumes closes4h token btc ≡ judged i
        → OfBars i
          × ((i.pass ≡ true) ↔ IsUptrend i)
          × (i.pass ≡ true → i.signal_type ≢ no_signal)
          × (i.signal_type ≢ breakout_and_pullback)
    check_uptrend-IsUptrend laws {i} h =
        let (r, read, e) = check_uptrend-judged i h in
        let s = snapshot_of symbol closes1h lows volumes closes4h token btc in
        let (never_both, named) = judge_uptrend-type laws s r in
        rw (sym e) (judge_uptrend-OfBars r read, judge_uptrend-IsUptrend s r, named, never_both)

    read_indicators-some :
        50 ≤ length closes1h
        → length highs ≡ length closes1h
        → length lows ≡ length closes1h
        → length volumes ≡ length closes1h
        → 21 ≤ length closes4h
        → read_indicators closes1h highs lows volumes closes4h ≢ none
    unfolding read_indicators
    read_indicators-some n eh el ev n4 =
        bind-some _ _ (ema-some closes1h 20 (omega arith) (omega arith)) (λ ema20.
          bind-some _ _
            (ema-some (take (length closes1h - 3) closes1h) 20 (omega arith)
              (take-enough (length closes1h - 3) 20 closes1h (omega arith) (omega arith)))
            (λ ema20_prev3. bind-some _ _ (ema-some closes1h 50 (omega arith) n) (λ ema50.
              bind-some _ _ (ema-some closes4h 20 (omega arith) (omega arith)) (λ ema20_4h.
                bind-some _ _
                  (highest-some (take (length closes1h - 1) highs) 20 (omega arith)
                    (take-enough (length closes1h - 1) 20 highs (omega arith) (omega arith)))
                  (λ highest20.
                    bind-some _ _
                      (sma-some (take (length closes1h - 1) volumes) 20 (omega arith)
                        (take-enough (length closes1h - 1) 20 volumes (omega arith) (omega arith)))
                      (λ volume_ma20.
                        bind-some _ _ (rsi-some closes1h 14 (omega arith) (omega arith)) (λ rsi14.
                          bind-some _ _
                            (dmi-some highs lows closes1h 14 (omega arith) (omega arith)
                              (omega arith) (omega arith))
                            (λ dmi14 e. ground arith))))))))

    -- On at least 50 bars of one length and at least 21 bars of four hours no indicator lacks data:
    -- a symbol is refused only for a value that is not finite or a mean volume that is not positive.
    pub check_uptrend_complete :
        50 ≤ length closes1h
        → length highs ≡ length closes1h
        → length lows ≡ length closes1h
        → length volumes ≡ length closes1h
        → 21 ≤ length closes4h
        → (e : UptrendError)
        → check_uptrend symbol closes1h highs lows volumes closes4h token btc ≡ refused e
        → (e ≡ indicator_not_finite) ⊎ (e ≡ volume_ma20_not_positive)
    unfolding check_uptrend
    check_uptrend_complete n eh el ev n4 e h =
        judge_readings-refused (snapshot_of symbol closes1h lows volumes closes4h token btc)
          (read_indicators closes1h highs lows volumes closes4h) e
          (read_indicators-some n eh el ev n4) (ground arith)
