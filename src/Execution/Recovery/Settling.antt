-- ===== src/Execution/Recovery/Settling.antt =====
-- A recovery whose requests are answered leaves no trade entering.
use mathlib.Core.Path.{subst}
use mathlib.Core.Option.{some-injective}
use binance_oi_square_trader.Prelude.{
  if-elim_eq, Option-elim_eq, if-elim, ℕ, ◌+◌, String, ◌≡◌, refl, sym, ap, ◌∙◌, ◌⊎◌, inl, inr, Bool,
  true, false, ◌||◌, Option, none, some, List, [], ◌∷◌, arith, str_eq, All, ◌==◌, if◌then◌else◌,
  Bool-cases, Option-cases,
}
use binance_oi_square_trader.Binance.Errors.{treat_as_canceled}
use binance_oi_square_trader.Binance.Retry.{Outcome, ok, err}
use binance_oi_square_trader.Binance.Orders.{OrderResult, is_treated_as}
use binance_oi_square_trader.Storage.Trades.{
  ClientOrderId, Trade, update_where_id, update_trade_open, update_trade_failed,
}
use binance_oi_square_trader.Storage.Db.{Db, Session, outside, exec}
use binance_oi_square_trader.Storage.Db.Effects.{select-done, exec-faults, exec-done}
use binance_oi_square_trader.Execution.Trail.{on_trade}
use binance_oi_square_trader.Execution.Recovery.{
  RecoveryWorld, RecoveryRow, is_entering, failure_reason, is_pending, recovery_row, insert_by_id,
  recovery_rows, get_entering_trades_for_recovery, mark_failed_row, recover_found, recover_row,
  recover_rows, recover_entering_trades,
}

waits : List RecoveryRow → ℕ → Bool
waits [] id = false
waits (r ∷ rs) id = id == r.id || waits rs id

waits-insert_by_id :
    (r : RecoveryRow) (qs : List RecoveryRow) (id : ℕ)
    → waits (insert_by_id r qs) id ≡ (id == r.id || waits qs id)
unfolding waits insert_by_id
waits-insert_by_id r [] id = refl
waits-insert_by_id r (q ∷ qs) id = ground (arith, waits-insert_by_id r qs id)

module _ {D : Type 0} where
  -- It is not entering, or the exchange cannot be asked about it.
  abbrev pub Settled : Trade D → Type 0
  Settled t = (is_entering t.status ≡ false) ⊎ (t.client_order_id ≡ none)

  abbrev Waiting : List RecoveryRow → Trade D → Type 0
  Waiting rs t = Settled t ⊎ (waits rs t.id ≡ true)

  All-inserted :
      (r : RecoveryRow) (qs : List RecoveryRow) (ts : List (Trade D))
      → All (Waiting qs) ts
      → All (Waiting (insert_by_id r qs)) ts
  All-inserted r qs [] all = tt
  All-inserted r qs (t ∷ ts) (h, all) = (
    elim h [
      | inl settled ↦ inl settled
      | inr waiting ↦ inr (waits-insert_by_id r qs t.id ∙ (ground arith))
    ],
    All-inserted r qs ts all,
  )

  recovery_row-Waiting :
      (t : Trade D) (qs : List RecoveryRow) (r : RecoveryRow)
      → recovery_row t ≡ some r
      → waits (insert_by_id r qs) t.id ≡ true
  unfolding recovery_row
  recovery_row-Waiting t qs r e = elim (Option-cases t.client_order_id) [
    | inl none_yet ↦ absurd (ground (arith, (rw none_yet at e)))
    | inr (c, is) ↦ elim (Bool-cases (is_entering t.status)) [
      | inl b ↦
          let row : RecoveryRow = record { id = t.id; symbol = t.symbol; client_order_id = c } in
          let same : row ≡ r = some-injective _ _ (rw (is, b) at e) in
          let number : t.id ≡ r.id = ap (λ (q : RecoveryRow). q.id) same in
          waits-insert_by_id r qs t.id ∙ ground arith
      | inr b ↦ absurd (ground (arith, (rw (is, b) at e)))
    ]
  ]

  recovery_row-Settled : (t : Trade D) → recovery_row t ≡ none → Settled t
  unfolding recovery_row
  recovery_row-Settled t e = elim (Option-cases t.client_order_id) [
    | inl none_yet ↦ inr none_yet
    | inr (c, is) ↦ elim (Bool-cases (is_entering t.status)) [
      | inl b ↦ absurd (ground (arith, (rw (is, b) at e)))
      | inr b ↦ inl b
    ]
  ]

  recovery_rows-Waiting : (ts : List (Trade D)) → All (Waiting (recovery_rows ts)) ts
  unfolding recovery_rows
  recovery_rows-Waiting [] = tt
  recovery_rows-Waiting (t ∷ ts) =
      Option-elim_eq (λ (rs : List RecoveryRow). All (Waiting rs) (t ∷ ts)) (recovery_row t)
        (recovery_rows ts) (λ r. insert_by_id r (recovery_rows ts))
        (λ e. (inl (recovery_row-Settled t e), recovery_rows-Waiting ts))
        (λ r e. (
          inr (recovery_row-Waiting t (recovery_rows ts) r e),
          All-inserted r (recovery_rows ts) ts (recovery_rows-Waiting ts),
        ))

  All-answered :
      (r : RecoveryRow) (rs : List RecoveryRow) (f : Trade D → Trade D) (ts : List (Trade D))
      → ((t : Trade D) → Settled (f t))
      → All (Waiting (r ∷ rs)) ts
      → All (Waiting rs) (update_where_id r.id f ts)
  unfolding update_where_id waits
  All-answered r rs f [] settles all = tt
  All-answered r rs f (t ∷ ts) settles (h, all) = (
    if-elim_eq (Waiting rs) (t.id == r.id) (f t) t (λ _. inl (settles t))
        (λ other. elim h [ inl settled ↦ inl settled | inr waiting ↦ inr (ground arith) ]),
    All-answered r rs f ts settles all,
  )

  abbrev pub NoFaults : Session D → Type 0
  NoFaults s = (n : ℕ) → s.faults n ≡ false

  -- the rows and the faults after a recovery of one row
  abbrev Left : List RecoveryRow → Session D → Type 0
  Left rs s = All (Waiting rs) s.db.trades.rows × NoFaults s

  exec-Left :
      (r : RecoveryRow) (rs : List RecoveryRow) (f : Trade D → Trade D) (s : Session D)
      → ((t : Trade D) → Settled (f t))
      → Left (r ∷ rs) s
      → Left rs (exec (on_trade r.id f) s).1
  unfolding on_trade
  exec-Left r rs f s settles (all, fine) = (
    subst (λ (db : Db D). All (Waiting rs) db.trades.rows)
        (sym (exec-done (on_trade r.id f) s (fine s.clock)).1)
        (All-answered r rs f s.db.trades.rows settles all),
    λ n. rw (exec-faults (on_trade r.id f) s) (fine n),
  )

  All-over : (ts : List (Trade D)) → All (Waiting []) ts → All Settled ts
  unfolding waits
  All-over [] all = tt
  All-over (t ∷ ts) (h, all) =
      (elim h [ inl settled ↦ settled | inr waiting ↦ absurd (ground arith) ], All-over ts all)

  module _ (world : RecoveryWorld D) where
    -- What the exchange answers about an order: a state, or that it does not know it.
    abbrev pub Answers : Outcome (OrderResult D) → Type 0
    Answers (ok o) = Unit {0}
    Answers (err f) = is_treated_as treat_as_canceled f ≡ true

    mark_failed_row-Left :
        (r : RecoveryRow) (rs : List RecoveryRow) (reason : String) (s : Session D)
        → Left (r ∷ rs) s
        → Left rs (mark_failed_row world r reason s)
    unfolding mark_failed_row update_trade_failed is_entering
    mark_failed_row-Left r rs reason s left =
        exec-Left r rs (update_trade_failed reason (world.now s.clock)) s (λ t. inl refl) left

    recover_found-Left :
        (r : RecoveryRow) (rs : List RecoveryRow) (o : OrderResult D) (s : Session D)
        → Left (r ∷ rs) s
        → Left rs (recover_found world r o s)
    unfolding recover_found outside update_trade_open is_entering
    recover_found-Left r rs o s left =
        let asked = (outside (λ n. world.cancel_order n r.symbol o.order_id) s).1 in
        let cancelled = mark_failed_row world r (failure_reason o.status) asked in
        let failed = mark_failed_row world r (failure_reason o.status) s in
        if-elim (Left rs) (str_eq o.status "FILLED")
          (exec (on_trade r.id (update_trade_open o.update_time o.avg_price)) s).1
          (if is_pending o.status then cancelled else failed)
          (exec-Left r rs (update_trade_open o.update_time o.avg_price) s (λ t. inl refl) left)
          (if-elim (Left rs) (is_pending o.status) cancelled failed
            (mark_failed_row-Left r rs (failure_reason o.status) asked left)
            (mark_failed_row-Left r rs (failure_reason o.status) s left))

    recover_row-Left :
        (answers : (n : ℕ) (symbol : String) (c : ClientOrderId)
          → Answers (world.get_order_by_client_id n symbol c))
        (r : RecoveryRow) (rs : List RecoveryRow) (s : Session D)
        → Left (r ∷ rs) s
        → Left rs (recover_row world r s)
    unfolding recover_row outside
    recover_row-Left answers r rs s left =
        let s1 = record s { clock = s.clock + 1 } in
        (elim (world.get_order_by_client_id s.clock r.symbol r.client_order_id)
            as (λ a.
              Answers a
              → Left rs (elim a [
                | ok o ↦ recover_found world r o s1
                | err f ↦
                    if is_treated_as treat_as_canceled f
                    then mark_failed_row world r "startup_recovery_not_found" s1
                    else s1
              ])) [
                | ok o ↦ λ _. recover_found-Left r rs o s1 left
                | err f ↦ λ known.
                    rw known (mark_failed_row-Left r rs "startup_recovery_not_found" s1 left)
              ])
          (answers s.clock r.symbol r.client_order_id)

    recover_rows-Left :
        (answers : (n : ℕ) (symbol : String) (c : ClientOrderId)
          → Answers (world.get_order_by_client_id n symbol c))
        (rs : List RecoveryRow) (s : Session D)
        → Left rs s
        → Left [] (recover_rows world rs s)
    unfolding recover_rows
    recover_rows-Left answers [] s left = left
    recover_rows-Left answers (r ∷ rs) s left =
        recover_rows-Left answers rs (recover_row world r s) (recover_row-Left answers r rs s left)

    -- If no statement fails and the exchange answers every lookup, with an order or with the error
    -- that there is none, then after a recovery no trade with a client order id is entering.
    pub recover_entering_trades-Settled :
        (answers : (n : ℕ) (symbol : String) (c : ClientOrderId)
          → Answers (world.get_order_by_client_id n symbol c))
        (s : Session D)
        → NoFaults s
        → All Settled (recover_entering_trades world s).db.trades.rows
    unfolding recover_entering_trades get_entering_trades_for_recovery
    recover_entering_trades-Settled answers s fine =
        let listed = get_entering_trades_for_recovery s.db in
        let s1 = record s { clock = s.clock + 1 } in
        let next : Option (List RecoveryRow) × Session D → Session D =
          λ r. elim r.0 [ none ↦ r.1 | some rs ↦ recover_rows world rs r.1 ] in
        subst (λ (r : Option (List RecoveryRow) × Session D). All Settled (next r).db.trades.rows)
          (sym (select-done get_entering_trades_for_recovery s (fine s.clock)))
          (All-over _
            (recover_rows-Left answers listed s1 (recovery_rows-Waiting s.db.trades.rows, fine)).0)
