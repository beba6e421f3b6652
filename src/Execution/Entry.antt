-- ===== src/Execution/Entry.antt =====
-- internal/execution/order.go: the executor's state, its thresholds and its stop fraction. What the
-- exchange, Redis and the clocks say is `EntryWorld` at the time of the call.
pub mod Bounds
pub mod Fill
pub mod Placing
use binance_oi_square_trader.Prelude.{
  if-elim, Option-elim, ℕ, zero, suc, ◌+◌, ◌-◌, ◌*◌, ◌/◌, ◌%◌, ◌^◌, ◌≤◌, ◌<◌, min, String, ◌≡◌,
  refl, sym, ap, ◌∙◌, ◌≢◌, ◌↔◌, ◌⊎◌, inl, inr, Bool, true, false, not, ◌&&◌, ◌||◌, Option, none,
  some, List, [], ◌∷◌, ◌++◌, map, arith, str_eq, eq_iff, Time, Duration, second, minute, hour,
  Effect, pure, ◌>>=◌, ◌>>◌, on_error, length, get_elem?, take, drop, last_or, window,
  length-append, length-drop, length-window, All, ltb, leb, ◌==◌, if◌then◌else◌, ltb→lt, lt→ltb,
  leb→le, ==_iff, tests, Bool-cases, Option-cases, ℤ, pos, negsuc, pos_part, neg_part, sub_ℕ, neg_ℤ,
  ◌+ℤ◌, ◌-ℤ◌, ◌*ℤ◌, ltb_ℤ, eq_ℤ, leb_ℤ, size_ℤ,
}
use binance_oi_square_trader.Decimal.{Decimal, zero_dec}
use binance_oi_square_trader.Storage.Trades.{ClientOrderId}
use binance_oi_square_trader.Storage.Db.{Session, outside}
use binance_oi_square_trader.Binance.Orders.{OrderResult}

-- a row of positionRisk, with what the code reads
pub record PositionRisk (D : Type 0) : Type 0 where
  pub symbol : String
  pub position_amt : D
  pub entry_price : D
  pub mark_price : D
  pub unrealized_profit : D

pub record EntryConfig (D : Type 0) : Type 0 where
  pub disaster_stop_pct : D
  pub atr_stop_mult : D
  pub min_stop_pct : D
  pub max_stop_pct : D
  pub leverage : ℤ
  pub trail_stage1_activate_pct : D
  pub trail_stage1_callback_rate : D
  pub tp1_pct : D
  pub tp1_ratio : D
  pub tp2_pct : D
  pub tp2_ratio : D

-- the runtime configuration, with what the code reads
pub record EntryKnobs (D : Type 0) : Type 0 where
  pub max_stop_pct : D
  pub leverage : ℤ
  pub trail_stage1_activate_pct : D
  pub trail_stage1_callback_rate : D

pub record EntryWorld (D : Type 0) : Type 0 where
  pub now : ℕ → Time
  -- NOW() of a statement
  pub database_now : ℕ → Time
  pub runtime : ℕ → Option (EntryKnobs D)
  -- the number under atr:{symbol}
  pub atr : ℕ → String → Option D
  pub set_margin_type : ℕ → String → Option (Unit {0})
  pub set_leverage : ℕ → String → ℤ → Option (Unit {0})
  pub place_market_buy : ℕ → String → D → ClientOrderId → Option (OrderResult D)
  pub cancel_order : ℕ → String → ℕ → Option (Unit {0})
  -- the k-th tick of the ticker of 500 ms that was started at a time, and whether the context is
  -- done by then
  pub tick : ℕ → ℕ → Time
  pub context_done : ℕ → ℕ → Bool
  pub get_order : ℕ → String → ℕ → Option (OrderResult D)
  pub get_position_risk : ℕ → String → Option (List (PositionRisk D))
  -- quantity and trigger price
  pub place_algo_conditional_stop : ℕ → String → D → D → Option ℕ
  -- quantity, activation price and callback rate
  pub place_algo_trailing_stop : ℕ → String → D → D → D → Option ℕ
  pub place_algo_take_profit : ℕ → String → D → D → Option ℕ
  pub place_market_order_reduce_only : ℕ → String → D → Option (OrderResult D)
  pub get_open_interest : ℕ → String → Option D

-- The requests that change something on the exchange.
pub data Request (D : Type 0) : Type 0 where
  margin_type : String → Request D
  set_leverage : String → ℤ → Request D
  market_buy : String → D → ClientOrderId → Request D
  cancel_order : String → ℕ → Request D
  conditional_stop : String → D → D → Request D
  trailing_stop : String → D → D → D → Request D
  take_profit : String → D → D → Request D
  -- reduceOnly
  market_sell : String → D → Request D

pub record Call (D : Type 0) : Type 0 where
  pub request : Request D
  pub accepted : Bool

-- `sent` holds the calls so far, the newest first; `entry_cooldown` is the executor's map.
pub record Executor (D : Type 0) : Type 0 where
  pub session : Session D
  pub sent : List (Call D)
  pub entry_cooldown : String → Option Time

abbrev pub entry_cooldown_ttl : Duration
entry_cooldown_ttl = 1800 * second

stored : String → Option Time → (String → Option Time) → String → Option Time
stored symbol t cooldown other = if str_eq symbol other then t else cooldown other

is_answer {ℓ} : {A : Type ℓ} → Option A → Bool
is_answer none = false
is_answer (some _) = true

module _ {D : Type 0} where
  -- A request, and whether its answer is an error.
  unfoldable pub send {ℓ} :
      {A : Type ℓ} → Request D → (ℕ → Option A) → Effect (Executor D) (Option A)
  unfolding is_answer
  send request answer x =
      let a = answer x.session.clock in
      (
        a,
        record x {
          session = record x.session { clock = x.session.clock + 1 };
          sent = record { request = request; accepted = is_answer a } ∷ x.sent;
        },
      )

  -- What touches the database only.
  unfoldable pub on_session {ℓ} : {A : Type ℓ} → Effect (Session D) A → Effect (Executor D) A
  on_session m x = ((m x.session).0, record x { session = (m x.session).1 })

  -- A read of something outside the database.
  abbrev pub ask {ℓ} : {A : Type ℓ} → (ℕ → A) → Effect (Executor D) A
  ask f = on_session (outside f)

  unfoldable pub mark_entry_cooldown : String → Time → Executor D → Executor D
  unfolding stored
  mark_entry_cooldown symbol now x = record x {
    entry_cooldown = stored symbol (some now) x.entry_cooldown;
  }

  -- An entry that is old enough is dropped.
  unfoldable pub is_in_cooldown : String → Time → Effect (Executor D) Bool
  unfolding stored
  is_in_cooldown symbol now x = elim (x.entry_cooldown symbol) [
    | none ↦ (false, x)
    | some t ↦
        if leb entry_cooldown_ttl (now - t)
        then (false, record x { entry_cooldown = stored symbol none x.entry_cooldown })
        else (true, x)
  ]

  unfoldable pub leverage : Option (EntryKnobs D) → EntryConfig D → ℤ
  leverage none cfg = cfg.leverage
  leverage (some rt) cfg = if ltb_ℤ (pos 0) rt.leverage then rt.leverage else cfg.leverage

module _ {D : Type 0} ⦃d : Decimal D⦄ where
  unfoldable pub max_stop_pct : Option (EntryKnobs D) → EntryConfig D → D
  max_stop_pct none cfg = cfg.max_stop_pct
  max_stop_pct (some rt) cfg =
      if not (d.is_zero rt.max_stop_pct) then rt.max_stop_pct else cfg.max_stop_pct

  unfoldable pub trail_stage1_activate_pct : Option (EntryKnobs D) → EntryConfig D → D
  trail_stage1_activate_pct none cfg = cfg.trail_stage1_activate_pct
  trail_stage1_activate_pct (some rt) cfg =
      if d.is_positive rt.trail_stage1_activate_pct
      then rt.trail_stage1_activate_pct
      else cfg.trail_stage1_activate_pct

  unfoldable pub trail_stage1_callback_rate : Option (EntryKnobs D) → EntryConfig D → D
  trail_stage1_callback_rate none cfg = cfg.trail_stage1_callback_rate
  trail_stage1_callback_rate (some rt) cfg =
      if d.is_positive rt.trail_stage1_callback_rate
      then rt.trail_stage1_callback_rate
      else cfg.trail_stage1_callback_rate

  unfoldable pub clip : D → D → D → D
  clip low high x =
      let raised = if d.less_than x low then low else x in
      if d.greater_than raised high then high else raised

  -- the stop fraction, and the ATR, which is zero where the fallback is taken
  unfoldable pub stop_pct_of : Option (EntryKnobs D) → EntryConfig D → D → Option D → D × D
  unfolding clip max_stop_pct
  stop_pct_of rt cfg entry_price none = (cfg.disaster_stop_pct, zero_dec)
  stop_pct_of rt cfg entry_price (some atr) =
      if d.is_zero atr || d.is_negative atr then (cfg.disaster_stop_pct, zero_dec) else (
        clip cfg.min_stop_pct (max_stop_pct rt cfg)
            (d.mul (d.div atr entry_price) cfg.atr_stop_mult),
        atr,
      )

  unfoldable pub round_to_tick : D → D → D
  round_to_tick tick price =
      if not (d.is_zero tick) then d.mul (d.truncate (d.div price tick)) tick else price

  module _ (world : EntryWorld D) (cfg : EntryConfig D) where
    -- a read of Redis
    unfoldable pub compute_stop_pct : String → D → Effect (Executor D) (D × D)
    unfolding stop_pct_of
    compute_stop_pct symbol entry_price =
        ask (λ n. stop_pct_of (world.runtime n) cfg entry_price (world.atr n symbol))
