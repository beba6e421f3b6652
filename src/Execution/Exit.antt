-- ===== src/Execution/Exit.antt =====
-- internal/execution/exit_manager.go: its rows, statements and halts. Times, prices and the
-- exchange's answers are those of `ExitWorld` at the time of the call; `fees_fetcher` is false where
-- `em.ff` is nil.
pub mod Close
pub mod Closing
pub mod Refusal
pub mod Reasons
use binance_oi_square_trader.Prelude.{
  ℕ, zero, suc, ◌+◌, ◌-◌, ◌*◌, ◌/◌, ◌%◌, ◌^◌, ◌≤◌, ◌<◌, min, String, ◌≡◌, refl, sym, ap, ◌∙◌, ◌≢◌,
  ◌↔◌, ◌⊎◌, inl, inr, Bool, true, false, not, ◌&&◌, ◌||◌, Option, none, some, List, [], ◌∷◌, ◌++◌,
  map, arith, str_eq, eq_iff, Time, Duration, second, minute, hour, Effect, pure, ◌>>=◌, ◌>>◌,
  on_error, length, get_elem?, take, drop, last_or, window, length-append, length-drop,
  length-window, All, ltb, leb, ◌==◌, if◌then◌else◌, ltb→lt, lt→ltb, leb→le, ==_iff, tests,
  Bool-cases, Option-cases, ℤ, pos, negsuc, pos_part, neg_part, sub_ℕ, neg_ℤ, ◌+ℤ◌, ◌-ℤ◌, ◌*ℤ◌,
  ltb_ℤ, eq_ℤ, leb_ℤ, size_ℤ,
}
use binance_oi_square_trader.Decimal.{Decimal, zero_dec}
use binance_oi_square_trader.Storage.Breaker.{
  Date, BreakerState, trip_generic_halt, update_after_trade_close,
}
use binance_oi_square_trader.Storage.Trades.{
  Status, opened, partly_closed, closing, AlgoText, malformed, algo, Trade, update_where_id,
  update_trade_closing, update_trade_closed, update_trade_failed,
}
use binance_oi_square_trader.Storage.Db.{
  Db, Session, PositionState, TradeExit, outside, exec, select, query,
}
use binance_oi_square_trader.Execution.Trail.{
  on_trade, qty_of, insert_by_entry, decimal_from_pg_numeric,
}
use binance_oi_square_trader.Binance.Orders.{OrderResult}

pub record ExitWorld (D : Type 0) : Type 0 where
  pub now : ℕ → Time
  -- NOW() of a statement
  pub database_now : ℕ → Time
  pub latest_price : ℕ → String → Option D
  pub cancel_algo_order : ℕ → String → ℕ → Bool
  -- a MARKET SELL, reduceOnly, of a quantity
  pub place_market_order_reduce_only : ℕ → String → D → Option (OrderResult D)
  pub fees_fetcher : Bool
  -- the commissions of an order's fills
  pub get_user_trades : ℕ → String → ℕ → Option (List D)

pub data ExitReason : Type 0 where
  manual_close hard_timeout soft_timeout sigfail : ExitReason

abbrev pub reason_text : ExitReason → String
reason_text manual_close = "manual_close"
reason_text hard_timeout = "hard_timeout"
reason_text soft_timeout = "soft_timeout"
reason_text sigfail = "sigfail"

-- a row of ListOpenTradesForExit, with what the code reads
pub record ExitRow (D : Type 0) : Type 0 where
  pub id : ℕ
  pub symbol : String
  pub entry_ts : Option Time
  pub entry_price : Option D
  pub binance_disaster_stop_order_id : Option AlgoText
  pub initial_oi : Option D
  pub exit_reason : Option String
  pub current_qty : Option D

abbrev pub is_exitable : Status → Bool
is_exitable opened = true
is_exitable partly_closed = true
is_exitable closing = true
is_exitable _ = false

abbrev pub day_of : Time → Date
day_of now = (now + 8 * hour) / (24 * hour)

without : ℕ → List ℕ → List ℕ
without id [] = []
without id (n ∷ ns) = if n == id then without id ns else n ∷ without id ns

unfoldable pub asks_manual_close : Option String → Bool
asks_manual_close none = false
asks_manual_close (some text) = str_eq text "manual_close"

module _ {D : Type 0} where
  exit_row : Db D → Trade D → ExitRow D
  exit_row db t = record {
    id = t.id;
    symbol = t.symbol;
    entry_ts = t.entry_ts;
    entry_price = t.entry_price;
    binance_disaster_stop_order_id = t.binance_disaster_stop_order_id;
    initial_oi = t.initial_oi;
    exit_reason = t.exit_reason;
    current_qty = qty_of db.position_states t.id;
  }

  unfoldable pub exitable_by_entry : List (Trade D) → List (Trade D)
  exitable_by_entry [] = []
  exitable_by_entry (t ∷ ts) =
      if is_exitable t.status
      then insert_by_entry t (exitable_by_entry ts)
      else exitable_by_entry ts

  unfoldable pub list_open_trades_for_exit : Db D → List (ExitRow D)
  unfolding exit_row exitable_by_entry
  list_open_trades_for_exit db = map (exit_row db) (exitable_by_entry db.trades.rows)

  unfoldable pub has_exit : ℕ → String → List (TradeExit D) → Bool
  has_exit id kind [] = false
  has_exit id kind (e ∷ es) = (e.trade_id == id && str_eq e.kind kind) || has_exit id kind es

  -- ON CONFLICT (trade_id, type) DO NOTHING
  unfoldable pub insert_trade_exit : TradeExit D → Db D → Db D
  unfolding has_exit
  insert_trade_exit e db =
      if has_exit e.trade_id e.kind db.trade_exits
      then db
      else record db { trade_exits = e ∷ db.trade_exits }

  without_state : ℕ → List (PositionState D) → List (PositionState D)
  without_state id [] = []
  without_state id (p ∷ ps) =
      if p.trade_id == id then without_state id ps else p ∷ without_state id ps

  unfoldable pub delete_position_state : ℕ → Db D → Db D
  unfolding without_state
  delete_position_state id db = record db { position_states = without_state id db.position_states }

  unfoldable pub insert_halt_rca : String → Db D → Db D
  insert_halt_rca kind db = record db { halt_rca = kind ∷ db.halt_rca }

  -- ZREM positions_active
  unfoldable pub zrem : ℕ → Session D → Session D
  unfolding without
  zrem id s =
      let next = record s { clock = s.clock + 1 } in
      if s.faults s.clock
      then next
      else record next { positions_active = without id s.positions_active }

  unfoldable pub breaker_halt : String → Time → Db D → Db D
  breaker_halt reason until db = record db { breaker = trip_generic_halt reason until db.breaker }

  module _ (world : ExitWorld D) where
    abbrev pub now_at : Session D → Time
    now_at s = world.now s.clock

    unfoldable pub trip_close_halt : Session D → Session D
    trip_close_halt s =
        let s1 = (exec (insert_halt_rca "close_failed") s).1 in
        (exec (breaker_halt "exit_closing_failed" (now_at s1 + hour)) s1).1

    unfoldable pub mark_close_failed : ℕ → String → Session D → Session D
    mark_close_failed id reason s =
        let s1 = (exec (on_trade id (update_trade_failed reason (now_at s))) s).1 in
        zrem id (exec (delete_position_state id) s1).1

    -- The cancel of the disaster stop, whose error is only logged.
    unfoldable pub cancel_disaster_stop : ExitRow D → Session D → Session D
    cancel_disaster_stop t s = elim t.binance_disaster_stop_order_id [
      | some (algo id) ↦ (outside (λ n. world.cancel_algo_order n t.symbol id) s).1
      | some malformed ↦ s
      | none ↦ s
    ]
