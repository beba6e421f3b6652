-- ===== src/Execution/Breaker/Trips.antt =====
-- What a tick of the circuit breaker leaves in the database.
use binance_oi_square_trader.Prelude.{
  Option-elim, if-elim, ℕ, ◌+◌, ◌≡◌, refl, ap, ◌∙◌, inl, inr, Bool, true, false, not, Option, none,
  some, List, [], ◌∷◌, arith, second, Effect, if◌then◌else◌, Bool-cases, Option-cases,
}
use binance_oi_square_trader.Decimal.{Decimal, zero_dec}
use binance_oi_square_trader.Storage.Breaker.{BreakerState, trip_generic_halt}
use binance_oi_square_trader.Storage.Db.{Db, Session, outside, exec, select}
use binance_oi_square_trader.Storage.Db.Effects.{exec-faults, exec-done, exec-keeps}
use binance_oi_square_trader.Execution.Exit.{insert_halt_rca, breaker_halt}
use binance_oi_square_trader.Execution.Breaker.{
  sum_open_unrealized_snapshot, is_loss_over, thresholds, TripType, TripWorld, CircuitBreakerConfig,
  OpenPosition, trip_text, cb_halt_duration,
}
use binance_oi_square_trader.Execution.Breaker.Tick.{
  fetch_balance, sum_unrealized, update_unrealized_gauge, update_btc_drop_gauge, fire_trip, fire_if,
  trip_api_error_rate, trip_consecutive_losses, trip_daily_loss, trip_total_float_loss,
  trip_btc_crash, or_else, evaluate_trips, evaluate_all,
}

module _ {D : Type 0} ⦃d : Decimal D⦄ (world : TripWorld D) (cfg : CircuitBreakerConfig D) where
  -- Trading is halted for the duration of the breaker from a time that was read.
  abbrev pub IsHaltedBy : Session D → Type 0
  IsHaltedBy s =
      (s.db.breaker.trading_halted ≡ true)
      × (n : ℕ) × (s.db.breaker.halt_until ≡ some (world.now n + cb_halt_duration))

  -- What a trip promises of the session it ends in.
  record IsTrip (s : Session D) (r : Bool × Session D) : Type 0 where
    quiet : r.0 ≡ false → r.1.db ≡ s.db
    same_faults : r.1.faults ≡ s.faults
    halts : ((n : ℕ) → s.faults n ≡ false) → r.0 ≡ true → IsHaltedBy r.1

  still : (s s' : Session D) → s'.db ≡ s.db → s'.faults ≡ s.faults → IsTrip s (false, s')
  still s s' e f = record {
    quiet = λ h. e;
    same_faults = f;
    halts = λ fine h. absurd (ground arith);
  }

  fire_trip-IsTrip : (trip : TripType) (s : Session D) → IsTrip s (true, fire_trip world cfg trip s)
  unfolding fire_trip insert_halt_rca breaker_halt trip_generic_halt
  fire_trip-IsTrip trip s =
      let f = breaker_halt (trip_text trip) (world.now s.clock + cb_halt_duration) in
      let s1 = (exec f s).1 in
      record {
        quiet = λ h. absurd (ground arith);
        same_faults =
            if-elim (λ (r : Session D). r.faults ≡ s.faults) (not (exec f s).0) s1 _
              (exec-faults f s)
              (exec-faults (insert_halt_rca (trip_text trip)) s1 ∙ exec-faults f s);
        halts = λ fine h.
            let (done, wrote) = exec-done f s (fine s.clock) in
            let kept =
              exec-keeps (λ db. db.breaker) (insert_halt_rca (trip_text trip)) s1 (λ db. refl) in
            let now_halted = kept ∙ ap (λ db. db.breaker) wrote in
            rw done
              (ap (λ b. b.trading_halted) now_halted, s.clock, ap (λ b. b.halt_until) now_halted);
      }

  fire_if-IsTrip :
      (hit : Bool) (trip : TripType) (s : Session D) → IsTrip s (fire_if world cfg hit trip s)
  fire_if-IsTrip true trip s = fire_trip-IsTrip trip s
  fire_if-IsTrip false trip s = still s s refl refl

  or_else-IsTrip :
      (first second : Effect (Session D) Bool) (s : Session D)
      → IsTrip s (first s)
      → IsTrip (first s).1 (second (first s).1)
      → IsTrip s (or_else world cfg first second s)
  or_else-IsTrip first second s a b = elim (Bool-cases (first s).0) [
    | inl e ↦ rw e (record {
      quiet = λ h. absurd (ground arith);
      same_faults = a.same_faults;
      halts = λ fine h. a.halts fine e;
    })
    | inr e ↦ rw e (record {
      quiet = λ h. b.quiet h ∙ a.quiet e;
      same_faults = b.same_faults ∙ a.same_faults;
      halts = λ fine h. b.halts (λ n. ap (λ f. f n) a.same_faults ∙ fine n) h;
    })
  ]

  abbrev Same : Session D → Session D → Type 0
  Same s s' = (s'.db ≡ s.db) × (s'.faults ≡ s.faults)

  IsTrip-Same : (s s1 : Session D) (r : Bool × Session D) → Same s s1 → IsTrip s1 r → IsTrip s r
  IsTrip-Same s s1 r (same, faults) t = record {
    quiet = λ h. t.quiet h ∙ same;
    same_faults = t.same_faults ∙ faults;
    halts = λ fine h. t.halts (λ n. ap (λ f. f n) faults ∙ fine n) h;
  }

  trip_api_error_rate-IsTrip : (s : Session D) → IsTrip s (trip_api_error_rate world cfg s)
  unfolding trip_api_error_rate outside
  trip_api_error_rate-IsTrip s =
      IsTrip-Same s (record s { clock = s.clock + 1 }) _ (refl, refl) (fire_if-IsTrip _ _ _)

  trip_daily_loss-IsTrip :
      (pnl : D) (balance : Option D) (s : Session D)
      → IsTrip s (trip_daily_loss world cfg pnl balance s)
  unfolding trip_daily_loss
  trip_daily_loss-IsTrip pnl none s = still s s refl refl
  trip_daily_loss-IsTrip pnl (some b) s = fire_if-IsTrip _ _ s

  trip_total_float_loss-IsTrip :
      (loss : D) (balance : Option D) (s : Session D)
      → IsTrip s (trip_total_float_loss world cfg loss balance s)
  unfolding trip_total_float_loss
  trip_total_float_loss-IsTrip loss none s = still s s refl refl
  trip_total_float_loss-IsTrip loss (some b) s = fire_if-IsTrip _ _ s

  trip_btc_crash-IsTrip :
      (drop_pct : Option D) (s : Session D) → IsTrip s (trip_btc_crash world cfg drop_pct s)
  unfolding trip_btc_crash
  trip_btc_crash-IsTrip none s = still s s refl refl
  trip_btc_crash-IsTrip (some x) s = fire_if-IsTrip _ _ s

  evaluate_trips-IsTrip :
      (state : BreakerState D) (balance : Option D) (unrealized : D) (drop_pct : Option D)
      (s : Session D)
      → IsTrip s (evaluate_trips world cfg state balance unrealized drop_pct s)
  unfolding evaluate_trips trip_consecutive_losses
  evaluate_trips-IsTrip state balance unrealized drop_pct s =
      let crash = trip_btc_crash world cfg drop_pct in
      let float_loss = trip_total_float_loss world cfg unrealized balance in
      let loss = trip_daily_loss world cfg state.daily_pnl balance in
      let streak = trip_consecutive_losses world cfg state in
      let last_two = or_else world cfg float_loss crash in
      let last_three = or_else world cfg loss last_two in
      or_else-IsTrip (trip_api_error_rate world cfg) (or_else world cfg streak last_three) s
        (trip_api_error_rate-IsTrip s)
        (or_else-IsTrip streak last_three _ (fire_if-IsTrip _ _ _) (
          or_else-IsTrip loss last_two _ (trip_daily_loss-IsTrip state.daily_pnl balance _) (
            or_else-IsTrip float_loss crash _ (trip_total_float_loss-IsTrip unrealized balance _)
              (trip_btc_crash-IsTrip drop_pct _))))

  sum_unrealized-Same :
      (rows : List (OpenPosition D)) (total : D) (s : Session D)
      → Same s (sum_unrealized world cfg total rows s).1
  unfolding sum_unrealized outside
  sum_unrealized-Same [] total s = (refl, refl)
  sum_unrealized-Same (r ∷ rs) total s =
      let s1 = record s { clock = s.clock + 1 } in
      elim (Option-cases r.entry_price) [
        | inl e ↦ rw e (sum_unrealized-Same rs total s)
        | inr (entry, e) ↦ elim (Option-cases r.current_qty) [
          | inl q ↦ rw e (rw q (sum_unrealized-Same rs total s))
          | inr (qty, q) ↦ rw e (rw q (sum_unrealized-Same rs _ s1))
        ]
      ]

  select-Same : {A : Type 0} (f : Db D → A) (s : Session D) → Same s (select f s).1
  unfolding select
  select-Same f s = ground arith

  update_unrealized_gauge-Same : (s : Session D) → Same s (update_unrealized_gauge world cfg s).1
  unfolding update_unrealized_gauge
  update_unrealized_gauge-Same s =
      let (rows, s1) = select sum_open_unrealized_snapshot s in
      let (same, faults) = select-Same sum_open_unrealized_snapshot s in
      Option-elim (λ (r : D × Session D). Same s r.1) rows (zero_dec, s1)
        (λ rows. sum_unrealized world cfg zero_dec rows s1) (same, faults)
        (λ rows. let (a, b) = sum_unrealized-Same rows zero_dec s1 in (a ∙ same, b ∙ faults))

  -- the three reads before the trips
  reads-Same :
      (s : Session D)
      → let s1 = (fetch_balance world cfg s).1 in
        Same s (update_btc_drop_gauge world cfg (update_unrealized_gauge world cfg s1).1).1
  unfolding fetch_balance update_btc_drop_gauge outside
  reads-Same s = update_unrealized_gauge-Same (record s { clock = s.clock + 1 })

  evaluate_all-IsTrip : (s : Session D) → IsTrip s (evaluate_all world cfg s)
  unfolding evaluate_all
  evaluate_all-IsTrip s =
      let (read, s1) = select (λ db. db.breaker) s in
      let (same, faults) = select-Same (λ (db : Db D). db.breaker) s in
      let (balance, s2) = fetch_balance world cfg s1 in
      let (unrealized, s3) = update_unrealized_gauge world cfg s2 in
      let (drop_pct, s4) = update_btc_drop_gauge world cfg s3 in
      let (same4, faults4) = reads-Same s1 in
      Option-elim (IsTrip s) read (false, s1)
        (λ state.
          if state.trading_halted
          then (false, s4)
          else evaluate_trips world cfg state balance unrealized drop_pct s4)
        (still s s1 same faults)
        (λ state.
          if-elim (IsTrip s) state.trading_halted (false, s4)
            (evaluate_trips world cfg state balance unrealized drop_pct s4)
            (still s s4 (same4 ∙ same) (faults4 ∙ faults))
            (IsTrip-Same s s4 _ (same4 ∙ same, faults4 ∙ faults)
              (evaluate_trips-IsTrip state balance unrealized drop_pct s4)))

  -- A tick that fires no trip leaves the database as it is, whichever queries fail.
  pub evaluate_all-quiet :
      (s : Session D)
      → (evaluate_all world cfg s).0 ≡ false
      → (evaluate_all world cfg s).1.db ≡ s.db
  evaluate_all-quiet s h = (evaluate_all-IsTrip s).quiet h

  -- A tick that fires a trip, and whose queries succeed, leaves trading halted for 24 hours from a
  -- time that it read.
  pub evaluate_all-IsHaltedBy :
      (s : Session D)
      → ((n : ℕ) → s.faults n ≡ false)
      → (evaluate_all world cfg s).0 ≡ true
      → IsHaltedBy (evaluate_all world cfg s).1
  evaluate_all-IsHaltedBy s fine h = (evaluate_all-IsTrip s).halts fine h

  -- While trading is halted a tick fires nothing and leaves the database as it is.
  pub evaluate_all-halted :
      (s : Session D)
      → s.db.breaker.trading_halted ≡ true
      → ((evaluate_all world cfg s).0 ≡ false) × ((evaluate_all world cfg s).1.db ≡ s.db)
  unfolding evaluate_all select
  evaluate_all-halted s h =
      let silent : (evaluate_all world cfg s).0 ≡ false = ground arith in
      (silent, (evaluate_all-IsTrip s).quiet silent)

  -- The daily loss is judged whatever day daily_pnl_date is: with a balance, a result in the row
  -- that reaches the limit fires a trip, also where it is the result of an earlier day.
  pub evaluate_trips-any_day :
      (state : BreakerState D) (balance unrealized : D) (drop_pct : Option D) (s : Session D)
      → is_loss_over state.daily_pnl balance
          (thresholds (world.runtime (s.clock + 1)) cfg).daily_loss_halt_pct
        ≡ true
      → (evaluate_trips world cfg state (some balance) unrealized drop_pct s).0 ≡ true
  unfolding evaluate_trips trip_api_error_rate trip_consecutive_losses trip_daily_loss outside
  evaluate_trips-any_day state balance unrealized drop_pct s h = ground arith
