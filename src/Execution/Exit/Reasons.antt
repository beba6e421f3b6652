-- ===== src/Execution/Exit/Reasons.antt =====
-- Why a tick of the exit manager closes a trade.
use binance_oi_square_trader.Prelude.{
  List, [], ◌∷◌, ◌+◌, ◌*◌, ◌≤◌, ◌<◌, ◌≡◌, true, some, Time, hour,
}
use binance_oi_square_trader.Decimal.{Decimal}
use binance_oi_square_trader.Storage.Db.{Session}
use binance_oi_square_trader.Execution.Exit.{
  ExitWorld, ExitReason, manual_close, hard_timeout, soft_timeout, sigfail, ExitRow,
  asks_manual_close,
}
use binance_oi_square_trader.Execution.Exit.Close.{compute_unrealized_pnl, close_position}

module _ {D : Type 0} ⦃d : Decimal D⦄ (world : ExitWorld D) (now : Time) (t : ExitRow D)
    (s : Session D) where
  -- What each reason asks of the row, and for the soft timeout of the price.
  unfoldable pub IsDue : ExitReason → Type 0
  IsDue manual_close = asks_manual_close t.exit_reason ≡ true
  IsDue hard_timeout = (entered : Time) × (t.entry_ts ≡ some entered) × (entered + 72 * hour ≤ now)
  IsDue soft_timeout =
      (entered : Time) × (t.entry_ts ≡ some entered)
      × (entered + 24 * hour ≤ now)
      × (now < entered + 72 * hour)
      × (d.is_negative (compute_unrealized_pnl world t s).0 ≡ true)
  IsDue sigfail = ⊥

module _ {D : Type 0} ⦃d : Decimal D⦄ (world : ExitWorld D) where
  -- What a visit of a row does: it leaves the database as it is, or it closes the trade for a
  -- reason that holds of the row when it is visited.
  pub data Visit (now : Time) (t : ExitRow D) (s s' : Session D) : Type 0 where
    kept : s'.db ≡ s.db → Visit now t s s'
    closed :
        (reason : ExitReason) (s1 : Session D)
        → IsDue world now t s reason
        → s1.db ≡ s.db
        → close_position world t reason s1 ≡ s'
        → Visit now t s s'

  -- The rows are visited in their order, each once.
  unfoldable pub Visits : Time → List (ExitRow D) → Session D → Session D → Type 0
  Visits now [] s s' = s ≡ s'
  Visits now (t ∷ ts) s s' = (s1 : Session D) × Visit now t s s1 × Visits now ts s1 s'
