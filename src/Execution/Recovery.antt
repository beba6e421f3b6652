-- ===== src/Execution/Recovery.antt =====
-- internal/execution/recovery.go: the trades that were still entering when the process stopped.
pub mod Settling
use binance_oi_square_trader.Prelude.{
  if-elim_eq, Option-elim_eq, if-elim, Option-elim, ℕ, zero, suc, ◌+◌, ◌-◌, ◌*◌, ◌/◌, ◌%◌, ◌^◌, ◌≤◌,
  ◌<◌, min, String, ◌≡◌, refl, sym, ap, ◌∙◌, ◌≢◌, ◌↔◌, ◌⊎◌, inl, inr, Bool, true, false, not, ◌&&◌,
  ◌||◌, Option, none, some, List, [], ◌∷◌, ◌++◌, map, arith, str_eq, eq_iff, Time, Duration, second,
  minute, hour, Effect, pure, ◌>>=◌, ◌>>◌, on_error, length, get_elem?, take, drop, last_or, window,
  length-append, length-drop, length-window, All, ltb, leb, ◌==◌, if◌then◌else◌, ltb→lt, lt→ltb,
  leb→le, ==_iff, tests, Bool-cases, Option-cases, ℤ, pos, negsuc, pos_part, neg_part, sub_ℕ, neg_ℤ,
  ◌+ℤ◌, ◌-ℤ◌, ◌*ℤ◌, ltb_ℤ, eq_ℤ, leb_ℤ, size_ℤ,
}
use binance_oi_square_trader.Binance.Errors.{Failure, treat_as_canceled}
use binance_oi_square_trader.Binance.Retry.{Outcome, ok, err}
use binance_oi_square_trader.Binance.Orders.{OrderResult, is_treated_as}
use binance_oi_square_trader.Storage.Trades.{
  Status, entering, ClientOrderId, Trade, update_trade_open, update_trade_failed,
}
use binance_oi_square_trader.Storage.Positions.{cleanup_orphan_position_states}
use binance_oi_square_trader.Storage.Db.{Db, Session, outside, exec, select}
use binance_oi_square_trader.Execution.Trail.{on_trade}

pub record RecoveryWorld (D : Type 0) : Type 0 where
  pub now : ℕ → Time
  pub get_order_by_client_id : ℕ → String → ClientOrderId → Outcome (OrderResult D)
  pub cancel_order : ℕ → String → ℕ → Bool

-- a row of GetEnteringTradesForRecovery, with what the code reads
pub record RecoveryRow : Type 0 where
  pub id : ℕ
  pub symbol : String
  pub client_order_id : ClientOrderId

unfoldable pub is_entering : Status → Bool
is_entering entering = true
is_entering _ = false

-- the reasons by which the code marks a trade failed, by the order's status
unfoldable pub failure_reason : String → String
failure_reason status =
    if str_eq status "NEW"
    then "startup_recovery_NEW"
    else if str_eq status "PARTIALLY_FILLED"
    then "startup_recovery_PARTIALLY_FILLED"
    else if str_eq status "CANCELED"
    then "startup_recovery_CANCELED"
    else if str_eq status "EXPIRED"
    then "startup_recovery_EXPIRED"
    else if str_eq status "REJECTED"
    then "startup_recovery_REJECTED"
    else "startup_recovery_unknown"

-- an order that is cancelled first
is_pending : String → Bool
is_pending status = str_eq status "NEW" || str_eq status "PARTIALLY_FILLED"

-- ORDER BY id
unfoldable pub insert_by_id : RecoveryRow → List RecoveryRow → List RecoveryRow
insert_by_id r [] = r ∷ []
insert_by_id r (q ∷ qs) = if leb r.id q.id then r ∷ q ∷ qs else q ∷ insert_by_id r qs

module _ {D : Type 0} where
  -- the row of an entering trade with a client order id
  unfoldable pub recovery_row : Trade D → Option RecoveryRow
  recovery_row t = elim t.client_order_id [
    | none ↦ none
    | some c ↦
        if is_entering t.status
        then some (record { id = t.id; symbol = t.symbol; client_order_id = c })
        else none
  ]

  unfoldable pub recovery_rows : List (Trade D) → List RecoveryRow
  recovery_rows [] = []
  recovery_rows (t ∷ ts) = elim (recovery_row t) [
    | none ↦ recovery_rows ts
    | some r ↦ insert_by_id r (recovery_rows ts)
  ]

  unfoldable pub get_entering_trades_for_recovery : Db D → List RecoveryRow
  get_entering_trades_for_recovery db = recovery_rows db.trades.rows

  module _ (world : RecoveryWorld D) where
    unfoldable pub mark_failed_row : RecoveryRow → String → Session D → Session D
    mark_failed_row r reason s =
        (exec (on_trade r.id (update_trade_failed reason (world.now s.clock))) s).1

    unfoldable pub recover_found : RecoveryRow → OrderResult D → Session D → Session D
    unfolding is_pending
    recover_found r o s =
        if str_eq o.status "FILLED"
        then (exec (on_trade r.id (update_trade_open o.update_time o.avg_price)) s).1
        else if is_pending o.status
        then mark_failed_row r (failure_reason o.status)
            (outside (λ n. world.cancel_order n r.symbol o.order_id) s).1
        else mark_failed_row r (failure_reason o.status) s

    unfoldable pub recover_row : RecoveryRow → Session D → Session D
    recover_row r s =
        let (answer, s1) =
          outside (λ n. world.get_order_by_client_id n r.symbol r.client_order_id) s in
        elim answer [
          | ok o ↦ recover_found r o s1
          | err f ↦
              if is_treated_as treat_as_canceled f
              then mark_failed_row r "startup_recovery_not_found" s1
              else s1
        ]

    unfoldable pub recover_rows : List RecoveryRow → Session D → Session D
    recover_rows [] s = s
    recover_rows (r ∷ rs) s = recover_rows rs (recover_row r s)

    unfoldable pub recover_entering_trades : Session D → Session D
    recover_entering_trades s =
        let (rows, s1) = select get_entering_trades_for_recovery s in
        elim rows [ none ↦ s1 | some rs ↦ recover_rows rs s1 ]

    -- The ticks of the position manager, the exit manager and the circuit breaker are arguments; the
    -- last one answers whether trading is halted.
    unfoldable pub run_startup_recovery :
        (Session D → Session D)
        → (Session D → Session D)
        → Effect (Session D) Bool
        → Effect (Session D) Bool
    run_startup_recovery sync exits evaluate s =
        let s1 = (exec cleanup_orphan_position_states s).1 in
        evaluate (exits (sync (recover_entering_trades s1)))
