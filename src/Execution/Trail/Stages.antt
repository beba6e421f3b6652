-- ===== src/Execution/Trail/Stages.antt =====
-- The state machine of the trailing stop, and that `handle_row` takes its steps only.
use binance_oi_square_trader.Decimal.Order.{larger-ge}
use binance_oi_square_trader.Prelude.{
  if-elim, Option-elim_eq, Option-elim, refl, zero, suc, ◌||◌, ℕ, ◌+◌, ◌≤◌, ◌≡◌, sym, ap, ◌∙◌, ◌⊎◌,
  inl, inr, not, none, some, arith, if◌then◌else◌, Bool-cases, pos,
}
use binance_oi_square_trader.Decimal.{Decimal, IsDecimal, ◌≼◌, ◌≺◌}
use binance_oi_square_trader.Storage.Trades.{
  algo, update_trade_trail_activate, update_trade_trail_stage, update_trade_trail_high,
}
use binance_oi_square_trader.Storage.Db.{Db, Session, outside, exec}
use binance_oi_square_trader.Storage.Db.Effects.{exec-db}
use binance_oi_square_trader.Execution.Trail.{
  callback_rate, new_high, TrailConfig, TrailWorld, TrailRow, on_trade, decimal_from_pg_numeric,
}
use binance_oi_square_trader.Execution.Trail.Upgrade.{
  get_current_price, dispatch, rearm_trader_managed, upgrade_binance_native, handle_row,
  upgrade_trader_managed, round_price, persist_trail_high, activate_s1, replace_native, cancel_old,
  place_trader_managed_stop,
}

-- What one visit of a row leaves in the database.
pub data TrailWrite (D : Type 0) : Type 0 where
  no_write : TrailWrite D
  -- trail_high_price alone
  raised : D → TrailWrite D
  -- the first algo, with its activation price
  activated : ℕ → D → TrailWrite D
  -- stage 0 with no algo
  cleared : TrailWrite D
  -- a stage with its new algo, and with the high that its stop stands on
  staged : ℕ → ℕ → TrailWrite D
  staged_raised : ℕ → ℕ → D → TrailWrite D

module _ {D : Type 0} where
  unfoldable pub written : ℕ → TrailWrite D → Db D → Db D
  written id no_write db = db
  written id (raised high) db = on_trade id (update_trade_trail_high high) db
  written id (activated a price) db = on_trade id (update_trade_trail_activate (algo a) price) db
  written id cleared db = on_trade id (update_trade_trail_stage 0 none) db
  written id (staged n a) db = on_trade id (update_trade_trail_stage n (some (algo a))) db
  written id (staged_raised n a high) db =
      on_trade id (update_trade_trail_high high)
        (on_trade id (update_trade_trail_stage n (some (algo a))) db)

module _ {D : Type 0} ⦃d : Decimal D⦄ where
  module _ (world : TrailWorld D) (r : TrailRow D) where
    -- The exchange accepted, under this id, an order for the row's symbol over its whole quantity: a
    -- trailing stop from an activation price, or a stop; or it refused a trailing stop.
    abbrev pub Trailed : ℕ → D → Type 0
    Trailed id activation =
        (n : ℕ) × (rate : D) × (world.place_algo_trailing_stop n r.symbol
            (decimal_from_pg_numeric r.current_qty) activation rate
          ≡ some id)

    abbrev pub Stopped : ℕ → Type 0
    Stopped id =
        (n : ℕ) × (stop : D) × (world.place_algo_conditional_stop n r.symbol
            (decimal_from_pg_numeric r.current_qty) stop
          ≡ some id)

    abbrev pub Refused : Type 0
    Refused =
        (n : ℕ) × (activation : D) × (rate : D) × (world.place_algo_trailing_stop n r.symbol
            (decimal_from_pg_numeric r.current_qty) activation rate
          ≡ none)

  -- One stage up, or the same trader-managed stage again, with a high that does not fall.
  abbrev pub Climbs : TrailRow D → ℕ → D → Type 0
  Climbs r n high =
      (2 ≤ r.trail_stage)
      × (n ≤ 4)
      × ((n ≡ r.trail_stage + 1) ⊎ ((n ≡ r.trail_stage) × (3 ≤ n)))
      × (decimal_from_pg_numeric r.trail_high_price ≼ high)

  -- The steps that a row allows: one stage up, or the same trader-managed stage again, with the id
  -- of an order that the exchange accepted; back to the start from stage 1 alone, after a refusal;
  -- and a high that does not fall.
  unfoldable pub Allowed : TrailWorld D → TrailRow D → TrailWrite D → Type 0
  Allowed world r no_write = Unit {0}
  Allowed world r (raised high) = decimal_from_pg_numeric r.trail_high_price ≺ high
  Allowed world r (activated a price) = (r.trail_stage ≡ 0) × Trailed world r a price
  Allowed world r cleared = (r.trail_stage ≡ 1) × Refused world r
  Allowed world r (staged n a) =
      (1 ≤ r.trail_stage)
      × (n ≤ 4)
      × ((n ≡ r.trail_stage + 1) ⊎ ((n ≡ r.trail_stage) × (3 ≤ n)))
      × (((n ≡ 2) × (activation : D) × Trailed world r a activation)
          ⊎ ((3 ≤ n) × Stopped world r a))
  Allowed world r (staged_raised n a high) = Climbs r n high × Stopped world r a

  module _ (laws : IsDecimal D) (world : TrailWorld D) (cfg : TrailConfig D) where
    -- From one session to the other the database makes an allowed step.
    abbrev pub Steps : TrailRow D → Session D → Session D → Type 0
    Steps r s s' = (w : TrailWrite D) × (s'.db ≡ written r.id w s.db) × Allowed world r w

    abbrev qty_in : TrailRow D → D
    qty_in r = decimal_from_pg_numeric r.current_qty

    new_high-ge : (current prev : D) → prev ≼ new_high current prev
    unfolding new_high
    new_high-ge current prev = (larger-ge laws current prev).1

    still : (r : TrailRow D) (s s' : Session D) → s'.db ≡ s.db → Steps r s s'
    unfolding written Allowed
    still r s s' e = (no_write, e, tt)

    exec-Steps :
        (r : TrailRow D) (w : TrailWrite D) (s s1 : Session D)
        → s1.db ≡ s.db
        → Allowed world r w
        → Steps r s (exec (written r.id w) s1).1
    exec-Steps r w s s1 e ok = elim (exec-db (written r.id w) s1) [
      | inl (f, same) ↦ still r s (exec (written r.id w) s1).1 (same ∙ e)
      | inr (f, wrote) ↦ (w, wrote ∙ ap (written r.id w) e, ok)
    ]

    persist_trail_high-Steps :
        (r : TrailRow D) (next : D) (s s1 : Session D)
        → s1.db ≡ s.db
        → Steps r s
            (persist_trail_high world cfg r.id (decimal_from_pg_numeric r.trail_high_price) next s1)
    unfolding persist_trail_high Allowed written
    persist_trail_high-Steps r next s s1 same =
        let prev = decimal_from_pg_numeric r.trail_high_price in
        elim (Bool-cases (d.greater_than next prev)) [
          | inr e ↦ rw e (still r s s1 same)
          | inl e ↦
              let above : prev ≺ next = rw (sym (laws.greater_than_lem next prev)) e in
              rw e (exec-Steps r (raised next) s s1 same above)
        ]

    activate_s1-Steps :
        (r : TrailRow D) (current : D) (s s1 : Session D)
        → s1.db ≡ s.db
        → r.trail_stage ≡ 0
        → Steps r s (activate_s1 world cfg r current (qty_in r) s1)
    unfolding activate_s1 round_price outside Allowed written
    activate_s1-Steps r current s s1 same zeroth =
        let (activation, s2) = round_price world cfg r.symbol current s1 in
        let s3 = record s2 { clock = s2.clock + 1 } in
        let cb = d.mul (callback_rate (world.runtime s2.clock) cfg 1) (d.from_int (pos 100)) in
        Option-elim_eq (Steps r s)
          (world.place_algo_trailing_stop s2.clock r.symbol (qty_in r) activation cb) s3
          (λ id. (exec (written r.id (activated id activation)) s3).1) (λ _. still r s s3 same)
          (λ id accepted.
            exec-Steps r (activated id activation) s s3 same (zeroth, (s2.clock, cb, accepted)))

    replace_native-Steps :
        (r : TrailRow D) (rate current : D) (s s1 : Session D)
        → s1.db ≡ s.db
        → r.trail_stage ≡ 1
        → Steps r s (replace_native world cfg r 2 rate current (qty_in r) s1)
    unfolding replace_native round_price outside Allowed written
    replace_native-Steps r rate current s s1 same first =
        let (activation, s2) = round_price world cfg r.symbol current s1 in
        let s3 = record s2 { clock = s2.clock + 1 } in
        let cb = d.mul rate (d.from_int (pos 100)) in
        Option-elim_eq (Steps r s)
          (world.place_algo_trailing_stop s2.clock r.symbol (qty_in r) activation cb)
          (exec (written r.id cleared) s3).1 (λ id. (exec (written r.id (staged 2 id)) s3).1)
          (λ refused. exec-Steps r cleared s s3 same (first, (s2.clock, activation, cb, refused)))
          (λ id accepted. exec-Steps r (staged 2 id) s s3 same (
            ground arith,
            ground arith,
            inl (ground arith),
            inl (refl, activation, (s2.clock, cb, accepted)),
          ))

    cancel_old-db : (r : TrailRow D) (s : Session D) → (cancel_old world cfg r s).1.db ≡ s.db
    unfolding cancel_old outside
    cancel_old-db r s = ground arith

    -- the two writes that follow a stop
    staged_then_raised :
        (r : TrailRow D) (n a : ℕ) (high : D) (s s1 : Session D)
        → s1.db ≡ s.db
        → Climbs r n high
        → Stopped world r a
        → let (done, s2) = exec (written r.id (staged n a)) s1 in
          Steps r s (if not done then s2 else (exec (written r.id (raised high)) s2).1)
    unfolding Allowed written
    staged_then_raised r n a high s s1 same (two, four, next, above) accepted =
        let s2 = (exec (written r.id (staged n a)) s1).1 in
        elim (exec-db (written r.id (staged n a)) s1) [
          | inl (f, unmoved) ↦ rw f (still r s s2 (unmoved ∙ same))
          | inr (f, wrote) ↦
              let at = wrote ∙ ap (written r.id (staged n a)) same in
              rw f (elim (exec-db (written r.id (raised high)) s2) [
                | inl (g, unmoved) ↦ (
                  staged n a,
                  unmoved ∙ at,
                  (omega arith, four, next, inr (ground arith, accepted)),
                )
                | inr (g, again) ↦ (
                  staged_raised n a high,
                  again ∙ ap (written r.id (raised high)) at,
                  ((two, four, next, above), accepted),
                )
              ])
        ]

    place_trader_managed_stop-Steps :
        (r : TrailRow D) (stage : ℕ) (rate high : D) (s s1 : Session D)
        → s1.db ≡ s.db
        → Climbs r stage high
        → Steps r s (place_trader_managed_stop world cfg r stage rate high (qty_in r) s1)
    unfolding place_trader_managed_stop round_price outside Allowed written
    place_trader_managed_stop-Steps r stage rate high s s1 same ok =
        let (stop, s2) =
          round_price world cfg r.symbol (d.mul high (d.sub (d.from_int (pos 1)) rate)) s1 in
        let (placed, s3) =
          outside (λ n. world.place_algo_conditional_stop n r.symbol (qty_in r) stop) s2 in
        Option-elim_eq (Steps r s) placed s3
          (λ id.
            let (done, s4) = exec (written r.id (staged stage id)) s3 in
            if not done then s4 else (exec (written r.id (raised high)) s4).1)
          (λ _. still r s s3 same)
          (λ id accepted.
            staged_then_raised r stage id high s s3 same ok (s2.clock, stop, accepted))

    upgrade_binance_native-Steps :
        (r : TrailRow D) (rate current : D) (s s1 : Session D)
        → s1.db ≡ s.db
        → r.trail_stage ≡ 1
        → Steps r s (upgrade_binance_native world cfg r 2 rate current (qty_in r) s1)
    unfolding upgrade_binance_native
    upgrade_binance_native-Steps r rate current s s1 same first =
        let (failed, s2) = cancel_old world cfg r s1 in
        let at = cancel_old-db r s1 ∙ same in
        if-elim (Steps r s) _ s1
          (if failed then s2 else replace_native world cfg r 2 rate current (qty_in r) s2)
          (still r s s1 same)
          (if-elim (Steps r s) failed s2 (replace_native world cfg r 2 rate current (qty_in r) s2)
            (still r s s2 at) (replace_native-Steps r rate current s s2 at first))

    upgrade_trader_managed-Steps :
        (r : TrailRow D) (stage : ℕ) (rate high : D) (s s1 : Session D)
        → s1.db ≡ s.db
        → Climbs r stage high
        → Steps r s (upgrade_trader_managed world cfg r stage rate high (qty_in r) s1)
    unfolding upgrade_trader_managed
    upgrade_trader_managed-Steps r stage rate high s s1 same ok =
        let (failed, s2) = cancel_old world cfg r s1 in
        let at = cancel_old-db r s1 ∙ same in
        if-elim (Steps r s) failed s2
          (place_trader_managed_stop world cfg r stage rate high (qty_in r) s2) (still r s s2 at)
          (place_trader_managed_stop-Steps r stage rate high s s2 at ok)

    rearm_trader_managed-Steps :
        (r : TrailRow D) (stage : ℕ) (rate high : D) (s s1 : Session D)
        → s1.db ≡ s.db
        → Climbs r stage high
        → Steps r s (rearm_trader_managed world cfg r stage rate high (qty_in r) s1)
    unfolding rearm_trader_managed
    rearm_trader_managed-Steps r stage rate high s s1 same ok =
        place_trader_managed_stop-Steps r stage rate high s (cancel_old world cfg r s1).1
          (cancel_old-db r s1 ∙ same) ok

    dispatch-Steps :
        (n : ℕ) (r : TrailRow D) (current gain : D) (s s1 : Session D)
        → s1.db ≡ s.db
        → r.trail_stage ≡ n
        → let prev = decimal_from_pg_numeric r.trail_high_price in
          Steps r s (dispatch world cfg n r current (qty_in r) prev (new_high current prev) gain s1)
    unfolding dispatch Allowed
    dispatch-Steps zero r current gain s s1 same e =
        if-elim (Steps r s) _ _ s1 (activate_s1-Steps r current s s1 same e) (still r s s1 same)
    dispatch-Steps (suc zero) r current gain s s1 same e =
        if-elim (Steps r s) _ _ _ (upgrade_binance_native-Steps r _ current s s1 same e)
          (persist_trail_high-Steps r _ s s1 same)
    dispatch-Steps (suc (suc zero)) r current gain s s1 same e =
        let above = new_high-ge current (decimal_from_pg_numeric r.trail_high_price) in
        if-elim (Steps r s) _ _ _
          (upgrade_trader_managed-Steps r 3 _ _ s s1 same
            (omega arith, omega arith, inl (omega arith), above))
          (persist_trail_high-Steps r _ s s1 same)
    dispatch-Steps (suc (suc (suc zero))) r current gain s s1 same e =
        let above = new_high-ge current (decimal_from_pg_numeric r.trail_high_price) in
        if-elim (Steps r s) _ _ _
          (upgrade_trader_managed-Steps r 4 _ _ s s1 same
            (omega arith, omega arith, inl (omega arith), above))
          (if-elim (Steps r s) _ _ _
            (rearm_trader_managed-Steps r 3 _ _ s s1 same
              (omega arith, omega arith, inr (omega arith, omega arith), above))
            (persist_trail_high-Steps r _ s s1 same))
    dispatch-Steps (suc (suc (suc (suc zero)))) r current gain s s1 same e =
        let above = new_high-ge current (decimal_from_pg_numeric r.trail_high_price) in
        if-elim (Steps r s) _ _ _
          (rearm_trader_managed-Steps r 4 _ _ s s1 same
            (omega arith, omega arith, inr (omega arith, omega arith), above))
          (persist_trail_high-Steps r _ s s1 same)
    dispatch-Steps (suc (suc (suc (suc (suc n))))) r current gain s s1 same e = still r s s1 same

    -- A visit of a row leaves the database as one allowed step leaves it: the stage moves up by one
    -- or is armed again from 3 on, and is written with the id of an order for the row's symbol and
    -- quantity that the exchange accepted; it falls only from 1 to 0, and only where the exchange has
    -- refused the new order; from stage 1 on the high never falls.
    pub handle_row-Steps : (r : TrailRow D) (s : Session D) → Steps r s (handle_row world cfg r s)
    unfolding handle_row get_current_price outside
    handle_row-Steps r s =
        let (price, s1) = get_current_price world cfg r.symbol s in
        let entry = decimal_from_pg_numeric r.entry_price in
        let qty = decimal_from_pg_numeric r.current_qty in
        let prev = decimal_from_pg_numeric r.trail_high_price in
        let visit : D → Session D = λ current.
          dispatch world cfg r.trail_stage r current qty prev (new_high current prev)
            (d.div (d.sub current entry) entry) s1 in
        Option-elim (Steps r s) price s1
          (λ current. if d.is_zero entry || d.is_zero qty then s1 else visit current)
          (still r s s1 refl)
          (λ current.
            if-elim (Steps r s) (d.is_zero entry || d.is_zero qty) s1 (visit current)
              (still r s s1 refl)
              (dispatch-Steps r.trail_stage r current (d.div (d.sub current entry) entry) s s1 refl
                refl))
