-- ===== src/Decision/Sizing.antt =====
-- internal/decision/sizing.go: the quantity of a trade. `none` is the error of a bad configuration.
use binance_oi_square_trader.Prelude.{
  inr, inl, Option-cases, String, ◌≡◌, Bool, true, false, ◌||◌, Option, none, some, arith, str_eq,
  if◌then◌else◌, ℤ, pos, eq_ℤ, leb_ℤ,
}
use mathlib.Core.Path.{subst}
use binance_oi_square_trader.Decimal.{Decimal, IsDecimal, zero_dec, ◌≼◌, ◌≺◌}

pub record SizingConfig (D : Type 0) : Type 0 where
  pub full_margin_usdt : D
  pub half_margin_usdt : D
  -- int32
  pub leverage : ℤ

-- binance.TradingFilters
pub record TradingFilters (D : Type 0) : Type 0 where
  pub step_size : D
  pub min_qty : D
  pub min_notional : D
  pub tick_size : D

pub record SizingResult (D : Type 0) : Type 0 where
  pub ok : Bool
  pub reason : String
  pub quantity : D
  pub margin : D
  pub notional : D
  pub target_notional : D
  pub entry_price : D
  pub leverage : ℤ
  pub tick_size : D
  pub step_size : D

abbrev pub invalid_decision : String
invalid_decision = "invalid_decision"

abbrev pub zero_price : String
zero_price = "zero_price"

abbrev pub zero_step_size : String
zero_step_size = "zero_step_size"

abbrev pub below_min_qty : String
below_min_qty = "below_min_qty"

abbrev pub below_min_notional : String
below_min_notional = "below_min_notional"

module _ {D : Type 0} ⦃d : Decimal D⦄ where
  unfoldable pub sizing_defaults : SizingConfig D → SizingConfig D
  sizing_defaults cfg = record {
    full_margin_usdt =
        if d.is_zero cfg.full_margin_usdt then d.from_int (pos 50) else cfg.full_margin_usdt;
    half_margin_usdt =
        if d.is_zero cfg.half_margin_usdt then d.from_int (pos 25) else cfg.half_margin_usdt;
    leverage = if eq_ℤ cfg.leverage (pos 0) then pos 10 else cfg.leverage;
  }

  -- Go's zero value
  abbrev pub no_sizing : SizingResult D
  no_sizing = record {
    ok = false;
    reason = "";
    quantity = zero_dec;
    margin = zero_dec;
    notional = zero_dec;
    target_notional = zero_dec;
    entry_price = zero_dec;
    leverage = pos 0;
    tick_size = zero_dec;
    step_size = zero_dec;
  }

  unfoldable pub step_round_down : D → D → D
  step_round_down qty step =
      if d.is_zero step then zero_dec else d.mul (d.truncate (d.div qty step)) step

  -- the margin that the `switch` chooses
  unfoldable pub margin_for : String → SizingConfig D → Option D
  margin_for decision_type cfg =
      if str_eq decision_type "entered_full"
      then some cfg.full_margin_usdt
      else if str_eq decision_type "entered_half"
      then some cfg.half_margin_usdt
      else none

  -- the two tests at the end
  unfoldable pub checked : TradingFilters D → SizingResult D → SizingResult D
  checked filters r =
      if d.less_than r.quantity filters.min_qty
      then record r { reason = below_min_qty }
      else if d.less_than r.notional filters.min_notional
      then record r { reason = below_min_notional }
      else record r { ok = true }

  unfoldable pub sized : D → D → TradingFilters D → SizingConfig D → SizingResult D
  unfolding checked step_round_down
  sized margin price filters cfg =
      let target = d.mul margin (d.from_int cfg.leverage) in
      let refused = record no_sizing {
        margin = margin;
        target_notional = target;
        leverage = cfg.leverage;
      } in
      if d.less_than_or_equal price zero_dec
      then record refused { reason = zero_price }
      else if d.less_than_or_equal filters.step_size zero_dec
      then record refused { reason = zero_step_size; entry_price = price }
      else let quantity = step_round_down (d.div target price) filters.step_size in
        checked filters (record refused {
          quantity = quantity;
          notional = d.mul quantity price;
          entry_price = price;
          tick_size = filters.tick_size;
          step_size = filters.step_size;
        })

  unfoldable pub bad_config : SizingConfig D → Bool
  bad_config cfg =
      leb_ℤ cfg.leverage (pos 0)
      || d.less_than_or_equal cfg.full_margin_usdt zero_dec
      || d.less_than_or_equal cfg.half_margin_usdt zero_dec

  unfoldable pub size_trade :
      String → D → TradingFilters D → SizingConfig D → Option (SizingResult D)
  size_trade decision_type price filters config =
      let cfg = sizing_defaults config in
      if bad_config cfg then none else elim (margin_for decision_type cfg) [
        | none ↦ some (record no_sizing {
          reason = invalid_decision;
          entry_price = price;
          leverage = cfg.leverage;
        })
        | some margin ↦ some (sized margin price filters cfg)
      ]

  -- What an accepted size promises to the order that is placed with it.
  pub record IsTradable (price : D) (filters : TradingFilters D) (r : SizingResult D) : Type 0 where
    pub positive_price : zero_dec ≺ price
    pub positive_step : zero_dec ≺ filters.step_size
    pub min_qty_met : filters.min_qty ≼ r.quantity
    pub min_notional_met : filters.min_notional ≼ r.notional
    pub on_step :
        r.quantity
        ≡ d.mul
            (d.truncate (d.div (d.div r.target_notional price) filters.step_size))
            filters.step_size
    pub worth : r.notional ≡ d.mul r.quantity price
    pub leveraged : r.target_notional ≡ d.mul r.margin (d.from_int r.leverage)
    pub steps : (r.step_size ≡ filters.step_size) × (r.tick_size ≡ filters.tick_size)

  module _ (laws : IsDecimal D) where
    open laws use {less_than_or_equal_lem, is_zero_lem}

    sized-IsTradable :
        (margin price : D) (filters : TradingFilters D) (cfg : SizingConfig D)
        → (sized margin price filters cfg).ok ≡ true
        → IsTradable price filters (sized margin price filters cfg)
    unfolding sized
    sized-IsTradable margin price filters cfg h = ground (
      arith,
      less_than_or_equal_lem price zero_dec,
      less_than_or_equal_lem filters.step_size zero_dec,
      is_zero_lem filters.step_size,
    )

    sized_kept :
        (margin price : D) (filters : TradingFilters D) (cfg : SizingConfig D)
        → ((sized margin price filters cfg).margin ≡ margin)
          × ((sized margin price filters cfg).leverage ≡ cfg.leverage)
    unfolding sized
    sized_kept margin price filters cfg = ground arith

    -- An accepted size has a positive price and step, meets both minima of the symbol, is the
    -- quotient of the leveraged margin by the price, cut down to whole steps, and its margin is the
    -- one that the configuration gives for `entered_full` or `entered_half`.
    pub size_trade-IsTradable :
        (decision_type : String) (price : D) (filters : TradingFilters D) (cfg : SizingConfig D)
        {r : SizingResult D}
        → size_trade decision_type price filters cfg ≡ some r
        → r.ok ≡ true
        → IsTradable price filters r
          × (margin_for decision_type (sizing_defaults cfg) ≡ some r.margin)
          × (r.leverage ≡ (sizing_defaults cfg).leverage)
    unfolding size_trade
    size_trade-IsTradable decision_type price filters cfg {r} h o =
        elim (Option-cases (margin_for decision_type (sizing_defaults cfg))) [
          | inl e ↦ absurd (ground arith)
          | inr (m, e) ↦
              let same : sized m price filters (sizing_defaults cfg) ≡ r = ground arith in
              let (p, q) = sized_kept m price filters (sizing_defaults cfg) in
              let accepted : (sized m price filters (sizing_defaults cfg)).ok ≡ true = rw same o in
              (
                subst (IsTradable price filters) same
                    (sized-IsTradable m price filters (sizing_defaults cfg) accepted),
                rw (e, ← same, p),
                rw (← same, q),
              )
        ]
