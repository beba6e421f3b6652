-- ===== src/Storage/Db.antt =====
-- The database of a process: the tables that the modelled queries touch. Any query can fail: the
-- environment chooses which, by the number of the query, and a failed one changes nothing.
pub mod Effects
use binance_oi_square_trader.Prelude.{
  true, false, some, ℕ, ◌+◌, String, Bool, Option, none, List, Time, Effect, if◌then◌else◌, ◌>>=◌,
  pure, true, false, some,
}
use binance_oi_square_trader.Storage.Breaker.{BreakerState}
use binance_oi_square_trader.Storage.Trades.{Trades}

-- a row of trade_exits, unique in (trade_id, type)
pub record TradeExit (D : Type 0) : Type 0 where
  pub trade_id : ℕ
  pub ts : Time
  pub kind : String
  pub qty : D
  pub price : D
  pub pnl : D

-- a row of position_states, with what the modelled code reads; its key is the trade
pub record PositionState (D : Type 0) : Type 0 where
  pub trade_id : ℕ
  pub current_qty : Option D
  pub highest_price : Option D
  pub last_check_ts : Option Time

pub record Db (D : Type 0) : Type 0 where
  pub breaker : BreakerState D
  pub trades : Trades D
  pub trade_exits : List (TradeExit D)
  pub position_states : List (PositionState D)
  -- halt_type of each row of halt_rca
  pub halt_rca : List String

pub record Session (D : Type 0) : Type 0 where
  pub db : Db D
  pub faults : ℕ → Bool
  pub clock : ℕ
  -- the members of Redis' positions_active
  pub positions_active : List ℕ

module _ {D : Type 0} where
  -- A statement that reads and writes the tables.
  unfoldable pub query {ℓ} : {A : Type ℓ} → (Db D → Option A × Db D) → Effect (Session D) (Option A)
  query f s =
      let next = record s { clock = s.clock + 1 } in
      if s.faults s.clock then (none, next) else ((f s.db).0, record next { db = (f s.db).1 })

  -- A read of something outside the database, as it is at that time.
  unfoldable pub outside {ℓ} : {A : Type ℓ} → (ℕ → A) → Effect (Session D) A
  outside f s = (f s.clock, record s { clock = s.clock + 1 })

  is_ok : Option (Db D) → Bool
  is_ok none = false
  is_ok (some _) = true

  -- a statement whose only result is its error
  unfoldable pub exec : (Db D → Db D) → Effect (Session D) Bool
  unfolding query is_ok
  exec f = query (λ db. (some db, f db)) >>= λ done. pure (is_ok done)

  unfoldable pub select {ℓ} : {A : Type ℓ} → (Db D → A) → Effect (Session D) (Option A)
  unfolding query
  select f = query (λ db. (some (f db), db))
