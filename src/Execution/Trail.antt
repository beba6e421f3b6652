-- ===== src/Execution/Trail.antt =====
-- internal/execution/trail_upgrader.go: its rows, thresholds and environment. Prices, tick sizes and
-- the exchange's answers are those of `TrailWorld` at the time of the call; the percentages sent to
-- the exchange stay decimals.
pub mod Upgrade
pub mod Stages
pub mod Sweep
use binance_oi_square_trader.Prelude.{
  ℕ, zero, suc, ◌+◌, ◌-◌, ◌*◌, ◌/◌, ◌%◌, ◌^◌, ◌≤◌, ◌<◌, min, String, ◌≡◌, refl, sym, ap, ◌∙◌, ◌≢◌,
  ◌↔◌, ◌⊎◌, inl, inr, Bool, true, false, not, ◌&&◌, ◌||◌, Option, none, some, List, [], ◌∷◌, ◌++◌,
  map, arith, str_eq, eq_iff, Time, Duration, second, minute, hour, Effect, pure, ◌>>=◌, ◌>>◌,
  on_error, length, get_elem?, take, drop, last_or, window, length-append, length-drop,
  length-window, All, ltb, leb, ◌==◌, if◌then◌else◌, ltb→lt, lt→ltb, leb→le, ==_iff, tests,
  Bool-cases, Option-cases, ℤ, pos, negsuc, pos_part, neg_part, sub_ℕ, neg_ℤ, ◌+ℤ◌, ◌-ℤ◌, ◌*ℤ◌,
  ltb_ℤ, eq_ℤ, leb_ℤ, size_ℤ,
}
use binance_oi_square_trader.Decimal.{Decimal, zero_dec}
use binance_oi_square_trader.Storage.Trades.{
  Status, opened, AlgoText, malformed, algo, Trade, update_where_id, update_trade_trail_activate,
  update_trade_trail_stage, update_trade_trail_high,
}
use binance_oi_square_trader.Storage.Db.{Db, Session, PositionState, outside, exec, select}

pub record TrailConfig (D : Type 0) : Type 0 where
  pub stage1_activate_pct : D
  pub stage1_callback_rate : D
  pub stage2_upgrade_pct : D
  pub stage2_callback_rate : D
  pub stage3_upgrade_pct : D
  pub stage3_callback_rate : D
  pub stage4_upgrade_pct : D
  pub stage4_callback_rate : D
  pub ratchet_min_pct : D

-- The fields Trail… of the runtime configuration.
pub record TrailKnobs (D : Type 0) : Type 0 where
  pub stage1_activate_pct : D
  pub stage1_callback_rate : D
  pub stage2_upgrade_pct : D
  pub stage2_callback_rate : D
  pub stage3_upgrade_pct : D
  pub stage3_callback_rate : D
  pub stage4_upgrade_pct : D
  pub stage4_callback_rate : D

pub record TrailWorld (D : Type 0) : Type 0 where
  pub runtime : ℕ → Option (TrailKnobs D)
  -- the number under latest_price:{symbol}
  pub latest_price : ℕ → String → Option D
  pub tick_size : ℕ → String → Option D
  -- quantity, then activation price and callback rate, or trigger price
  pub place_algo_trailing_stop : ℕ → String → D → D → D → Option ℕ
  pub place_algo_conditional_stop : ℕ → String → D → D → Option ℕ
  pub cancel_algo_order : ℕ → String → ℕ → Bool

-- a row of ListOpenTradesForTrail, with what the code reads
pub record TrailRow (D : Type 0) : Type 0 where
  pub id : ℕ
  pub symbol : String
  pub entry_price : Option D
  pub trail_stage : ℕ
  pub binance_trail_algo_id : Option AlgoText
  pub trail_high_price : Option D
  pub current_qty : Option D

abbrev is_open : Status → Bool
is_open opened = true
is_open _ = false

-- ORDER BY entry_ts ASC, where NULL comes last
abbrev pub enters_before : Option Time → Option Time → Bool
enters_before (some a) (some b) = leb a b
enters_before none (some b) = false
enters_before _ none = true

module _ {D : Type 0} where
  pub qty_of : List (PositionState D) → ℕ → Option D
  qty_of [] id = none
  qty_of (p ∷ ps) id = if p.trade_id == id then p.current_qty else qty_of ps id

  pub insert_by_entry : Trade D → List (Trade D) → List (Trade D)
  insert_by_entry t [] = t ∷ []
  insert_by_entry t (u ∷ us) =
      if enters_before t.entry_ts u.entry_ts then t ∷ u ∷ us else u ∷ insert_by_entry t us

  trail_row : Db D → Trade D → TrailRow D
  trail_row db t = record {
    id = t.id;
    symbol = t.symbol;
    entry_price = t.entry_price;
    trail_stage = t.trail_stage;
    binance_trail_algo_id = t.binance_trail_algo_id;
    trail_high_price = t.trail_high_price;
    current_qty = qty_of db.position_states t.id;
  }

  open_by_entry : List (Trade D) → List (Trade D)
  open_by_entry [] = []
  open_by_entry (t ∷ ts) =
      if is_open t.status then insert_by_entry t (open_by_entry ts) else open_by_entry ts

  unfoldable pub list_open_trades_for_trail : Db D → List (TrailRow D)
  unfolding open_by_entry trail_row
  list_open_trades_for_trail db = map (trail_row db) (open_by_entry db.trades.rows)

  -- UPDATE trades … WHERE id = $1
  unfoldable pub on_trade : ℕ → (Trade D → Trade D) → Db D → Db D
  on_trade id f db = record db {
    trades = record db.trades { rows = update_where_id id f db.trades.rows };
  }

module _ {D : Type 0} ⦃d : Decimal D⦄ where
  -- a getter of a threshold: a positive runtime value wins over the configuration
  abbrev positive_or : Option D → D → D
  positive_or none y = y
  positive_or (some x) y = if d.is_positive x then x else y

  abbrev knob : Option (TrailKnobs D) → (TrailKnobs D → D) → Option D
  knob none f = none
  knob (some rt) f = some (f rt)

  abbrev pub decimal_from_pg_numeric : Option D → D
  decimal_from_pg_numeric none = zero_dec
  decimal_from_pg_numeric (some x) = x

  -- the percentage at which a stage is left for the next
  unfoldable pub upgrade_pct : Option (TrailKnobs D) → TrailConfig D → ℕ → D
  upgrade_pct rt cfg zero =
      positive_or (knob rt (λ k. k.stage1_activate_pct)) cfg.stage1_activate_pct
  upgrade_pct rt cfg (suc zero) =
      positive_or (knob rt (λ k. k.stage2_upgrade_pct)) cfg.stage2_upgrade_pct
  upgrade_pct rt cfg (suc (suc zero)) =
      positive_or (knob rt (λ k. k.stage3_upgrade_pct)) cfg.stage3_upgrade_pct
  upgrade_pct rt cfg _ = positive_or (knob rt (λ k. k.stage4_upgrade_pct)) cfg.stage4_upgrade_pct

  unfoldable pub callback_rate : Option (TrailKnobs D) → TrailConfig D → ℕ → D
  callback_rate rt cfg (suc zero) =
      positive_or (knob rt (λ k. k.stage1_callback_rate)) cfg.stage1_callback_rate
  callback_rate rt cfg (suc (suc zero)) =
      positive_or (knob rt (λ k. k.stage2_callback_rate)) cfg.stage2_callback_rate
  callback_rate rt cfg (suc (suc (suc zero))) =
      positive_or (knob rt (λ k. k.stage3_callback_rate)) cfg.stage3_callback_rate
  callback_rate rt cfg _ =
      positive_or (knob rt (λ k. k.stage4_callback_rate)) cfg.stage4_callback_rate

  unfoldable pub new_high : D → D → D
  new_high current prev = if d.greater_than current prev then current else prev

  unfoldable pub should_ratchet : TrailConfig D → D → D → Bool
  should_ratchet cfg prev next =
      if not (d.greater_than next prev)
      then false
      else if d.is_zero cfg.ratchet_min_pct || d.is_zero prev
      then true
      else d.greater_than_or_equal (d.div (d.sub next prev) prev) cfg.ratchet_min_pct
