-- ===== src/Storage/Positions.antt =====
-- internal/storage/postgres/gen/trades.sql.go: the table position_states, keyed by the trade.
use binance_oi_square_trader.Prelude.{
  ℕ, Bool, true, false, ◌&&◌, ◌||◌, Option, none, some, List, [], ◌∷◌, Time, ◌==◌, if◌then◌else◌,
}
use binance_oi_square_trader.Decimal.{Decimal, zero_dec}
use binance_oi_square_trader.Storage.Trades.{Status, closed, failed, Trade}
use binance_oi_square_trader.Storage.Db.{Db, PositionState}

is_terminal : Status → Bool
is_terminal closed = true
is_terminal failed = true
is_terminal _ = false

module _ {D : Type 0} where
  has_state : ℕ → List (PositionState D) → Bool
  has_state id [] = false
  has_state id (p ∷ ps) = p.trade_id == id || has_state id ps

  -- ON CONFLICT (trade_id) DO NOTHING
  unfoldable pub insert_position_state : PositionState D → Db D → Db D
  unfolding has_state
  insert_position_state p db =
      if has_state p.trade_id db.position_states
      then db
      else record db { position_states = p ∷ db.position_states }

  -- UPDATE … WHERE trade_id = $1
  update_where_trade :
      ℕ → (PositionState D → PositionState D) → List (PositionState D) → List (PositionState D)
  update_where_trade id f [] = []
  update_where_trade id f (p ∷ ps) =
      (if p.trade_id == id then f p else p) ∷ update_where_trade id f ps

  ended : List (Trade D) → ℕ → Bool
  ended [] id = false
  ended (t ∷ ts) id = (t.id == id && is_terminal t.status) || ended ts id

  without_ended : List (Trade D) → List (PositionState D) → List (PositionState D)
  without_ended ts [] = []
  without_ended ts (p ∷ ps) =
      let rest = without_ended ts ps in if ended ts p.trade_id then rest else p ∷ rest

  unfoldable pub cleanup_orphan_position_states : Db D → Db D
  unfolding without_ended ended is_terminal
  cleanup_orphan_position_states db = record db {
    position_states = without_ended db.trades.rows db.position_states;
  }

module _ {D : Type 0} ⦃d : Decimal D⦄ where
  greatest : D → D → D
  greatest x y = if d.less_than x y then y else x

  -- GREATEST(COALESCE(highest_price, $3), $3)
  higher : Option D → D → D
  higher none price = price
  higher (some h) price = greatest h price

  unfoldable pub update_position_state_sync : ℕ → D → D → Time → Db D → Db D
  unfolding update_where_trade higher greatest
  update_position_state_sync id qty price now db = record db {
    position_states =
        update_where_trade id
          (λ p. record p {
            current_qty = some qty;
            highest_price = some (higher p.highest_price price);
            last_check_ts = some now;
          })
          db.position_states;
  }

  -- GREATEST(current_qty - $2, 0), where GREATEST skips a NULL
  less : Option D → D → D
  less none delta = zero_dec
  less (some qty) delta = greatest (d.sub qty delta) zero_dec

  unfoldable pub decrement_position_qty : ℕ → D → Time → Db D → Db D
  unfolding update_where_trade less greatest
  decrement_position_qty id delta now db = record db {
    position_states =
        update_where_trade id
          (λ p. record p {
            current_qty = some (less p.current_qty delta);
            last_check_ts = some now;
          })
          db.position_states;
  }
