-- ===== src/Execution/Exit/Refusal.antt =====
-- What a close does when the exchange refuses its sell.
use binance_oi_square_trader.Prelude.{some, true, ℕ, ◌+◌, ◌≡◌, false, hour}
use binance_oi_square_trader.Decimal.{Decimal}
use binance_oi_square_trader.Binance.Orders.{OrderResult}
use binance_oi_square_trader.Storage.Db.{Db, Session}
use binance_oi_square_trader.Execution.Trail.{decimal_from_pg_numeric}
use binance_oi_square_trader.Execution.Exit.{ExitWorld, ExitRow}
use binance_oi_square_trader.Execution.Exit.Close.{close_price}

module _ {D : Type 0} ⦃d : Decimal D⦄ (world : ExitWorld D) where
  abbrev NoFaults : Session D → Type 0
  NoFaults s = (n : ℕ) → s.faults n ≡ false

  -- The exchange accepted a sell of the whole quantity of the row, at a price.
  abbrev pub Sold : ExitRow D → Type 0
  Sold t =
      let qty = decimal_from_pg_numeric t.current_qty in
      (n : ℕ) × (o : OrderResult D) × (world.place_market_order_reduce_only n t.symbol qty ≡ some o)
      × (d.is_zero (close_price o qty) ≡ false)

  -- Trading is halted until an hour after a time that the close read, no close of a trade has been
  -- recorded, and the daily result is as it was.
  pub record HaltedUnsold (s s' : Session D) : Type 0 where
    pub halted : s'.db.breaker.trading_halted ≡ true
    pub for_an_hour : (n : ℕ) × (s'.db.breaker.halt_until ≡ some (world.now n + hour))
    pub same_exits : s'.db.trade_exits ≡ s.db.trade_exits
    pub same_result : s'.db.breaker.daily_pnl ≡ s.db.breaker.daily_pnl
