-- ===== src/Storage/Trades/Active.antt =====
-- Active positions: their number, and at most one for a symbol.
use binance_oi_square_trader.Prelude.{
  ◌+◌, ◌≤◌, ◌≡◌, inl, inr, true, false, List, [], ◌∷◌, arith, Bool-cases,
}
use binance_oi_square_trader.Storage.Trades.{
  Trade, Trades, NewTrade, count_active, has_active_position, has_client_order_id,
  insert_entering_trade, is_active,
}

module _ {D : Type 0} where
  -- No symbol has two trades that are entering, open, partial or closing.
  abbrev pub OnePerSymbol : List (Trade D) → Type 0
  OnePerSymbol [] = Unit
  OnePerSymbol (t ∷ ts) =
      (is_active t.status ≡ true → has_active_position ts t.symbol ≡ false) × OnePerSymbol ts

  -- An insert adds one to the count at most.
  pub count_active-insert :
      (n : NewTrade D) (t : Trades D)
      → count_active (insert_entering_trade n t).1.rows ≤ count_active t.rows + 1
  unfolding insert_entering_trade count_active
  count_active-insert n t = ground arith

  -- An insert for a symbol without an active position leaves one position for a symbol at most.
  pub insert-OnePerSymbol :
      (n : NewTrade D) (t : Trades D)
      → has_active_position t.rows n.symbol ≡ false
      → OnePerSymbol t.rows
      → OnePerSymbol (insert_entering_trade n t).1.rows
  unfolding insert_entering_trade
  insert-OnePerSymbol n t free one =
      elim (Bool-cases (has_client_order_id t.rows n.client_order_id)) [
        | inl e ↦ rw e one
        | inr e ↦ rw e ((λ _. free), one)
      ]
