-- ===== src/Execution/Entry/Bounds.antt =====
-- The bounds of the stop fraction of an entry.
use binance_oi_square_trader.Prelude.{
  if-elim_eq, ◌≡◌, refl, ◌⊎◌, inl, inr, true, ◌||◌, Option, none, some, arith,
}
use binance_oi_square_trader.Decimal.{Decimal, IsDecimal, zero_dec, ◌≼◌}
use binance_oi_square_trader.Execution.Entry.{
  EntryConfig, EntryKnobs, max_stop_pct, clip, stop_pct_of,
}

module _ {D : Type 0} ⦃d : Decimal D⦄ (laws : IsDecimal D) where
  open laws use {lt_irrefl, greater_than_lem, is_zero_lem, is_negative_lem, is_positive_lem}

  clip-within : (low high x : D) → low ≼ high → (low ≼ clip low high x) × (clip low high x ≼ high)
  unfolding clip
  clip-within low high x ordered =
      ground
        (arith, lt_irrefl low, lt_irrefl high, greater_than_lem low high, greater_than_lem x high)

  -- The fallback with an ATR of zero, or a fraction between the two limits with an ATR that is
  -- positive.
  abbrev pub Within : D → D → D → D × D → Type 0
  Within fallback low high r =
      ((r.0 ≡ fallback) × (r.1 ≡ zero_dec))
      ⊎ ((low ≼ r.0) × (r.0 ≼ high) × (d.is_positive r.1 ≡ true))

  -- If the lower limit is not above the upper one in force, the stop fraction of an entry lies
  -- between them with a positive ATR, or is the configured fallback with an ATR of zero.
  pub stop_pct_of-Within :
      (rt : Option (EntryKnobs D)) (cfg : EntryConfig D) (entry_price : D) (atr : Option D)
      → cfg.min_stop_pct ≼ max_stop_pct rt cfg
      → Within cfg.disaster_stop_pct cfg.min_stop_pct
          (max_stop_pct rt cfg)
          (stop_pct_of rt cfg entry_price atr)
  unfolding stop_pct_of
  stop_pct_of-Within rt cfg entry_price none ordered = inl (refl, refl)
  stop_pct_of-Within rt cfg entry_price (some atr) ordered =
      if-elim_eq (Within cfg.disaster_stop_pct cfg.min_stop_pct (max_stop_pct rt cfg))
        (d.is_zero atr || d.is_negative atr) _ _ (λ _. inl (refl, refl))
        (λ usable.
          let (above, below) =
            clip-within cfg.min_stop_pct (max_stop_pct rt cfg)
              (d.mul (d.div atr entry_price) cfg.atr_stop_mult) ordered in
          inr (
            above,
            below,
            ground (arith, is_zero_lem atr, is_negative_lem atr, is_positive_lem atr),
          ))
