-- ===== src/Storage/Breaker/Backoff.antt =====
-- The exponential backoff of failed disaster stops: 1h, 4h, 24h.
use binance_oi_square_trader.Prelude.{
  ℕ, zero, suc, ◌+◌, ◌*◌, ◌≤◌, ◌<◌, min, ◌≡◌, ap, ◌∙◌, ◌⊎◌, inl, inr, true, some, List, [], ◌∷◌,
  ◌++◌, arith, Time, Duration, hour, length,
}
use binance_oi_square_trader.Storage.Breaker.{
  BreakerState, seven_days, trip_disaster_stop_fail_halt, reset_disaster_stop_fail_counter,
}

reset_zero :
    {D : Type 0} (s : BreakerState D)
    → (reset_disaster_stop_fail_counter s).consecutive_disaster_stop_failures ≡ 0
unfolding reset_disaster_stop_fail_counter
reset_zero s = ground arith

-- the halt after the n-th failure of a series
abbrev pub halt_window : ℕ → Duration
halt_window zero = 0
halt_window (suc zero) = hour
halt_window (suc (suc zero)) = 4 * hour
halt_window _ = 24 * hour

-- every failure is within seven days of the one before it
abbrev pub IsSeries : Time → List Time → Type 0
IsSeries last [] = Unit
IsSeries last (t ∷ ts) = (t ≤ last + seven_days) × IsSeries t ts

module _ {D : Type 0} where
  -- the row after failures at the given times, the first one first
  unfoldable pub fail_at : List Time → BreakerState D → BreakerState D
  fail_at [] s = s
  fail_at (t ∷ ts) s = fail_at ts (trip_disaster_stop_fail_halt t s)

  trip_in_series :
      (n : ℕ) (last t : Time) (s : BreakerState D)
      → s.consecutive_disaster_stop_failures ≡ min n 3
      → s.last_disaster_stop_failed_ts ≡ some last
      → t ≤ last + seven_days
      → let s' = trip_disaster_stop_fail_halt t s in
        (s'.consecutive_disaster_stop_failures ≡ min (n + 1) 3)
        × (s'.last_disaster_stop_failed_ts ≡ some t)
        × (s'.halt_until ≡ some (t + halt_window (min (n + 1) 3)))
        × (s'.trading_halted ≡ true)
  unfolding trip_disaster_stop_fail_halt
  trip_in_series n last t s c l h = ground arith

  -- After n failures that left the counter at min n 3, each further failure of the series takes the
  -- counter to min (n + 1) 3, and so on; the last one halts for the window of the counter.
  fail_at-series :
      (n : ℕ) (last : Time) (ts : List Time) (t : Time) (s : BreakerState D)
      → s.consecutive_disaster_stop_failures ≡ min n 3
      → s.last_disaster_stop_failed_ts ≡ some last
      → IsSeries last (ts ++ t ∷ [])
      → let s' = fail_at (ts ++ t ∷ []) s in
        (s'.consecutive_disaster_stop_failures ≡ min (n + 1 + length ts) 3)
        × (s'.halt_until ≡ some (t + halt_window (min (n + 1 + length ts) 3)))
        × (s'.trading_halted ≡ true)
  unfolding fail_at
  fail_at-series n last [] t s c l (h, _) =
      let (x, _, z, w) = trip_in_series n last t s c l h in
      let e : n + 1 + 0 ≡ n + 1 = omega arith in rw e (x, z, w)
  fail_at-series n last (u ∷ us) t s c l (h, hs) =
      let (x, y, _, _) = trip_in_series n last u s c l h in
      let e : n + 1 + suc (length us) ≡ n + 1 + 1 + length us = omega arith in
      rw e (fail_at-series (n + 1) u us t (trip_disaster_stop_fail_halt u s) x y hs)

  -- From a row whose counter is 0, a series of failures, each within seven days of the one before,
  -- leaves the counter at their number, 3 at most, and the last one halts trading for 1h, 4h or 24h
  -- from its time as it is the first, the second, or a later one.
  pub fail_at-backoff :
      (last : Time) (ts : List Time) (t : Time) (s : BreakerState D)
      → s.consecutive_disaster_stop_failures ≡ 0
      → s.last_disaster_stop_failed_ts ≡ some last
      → IsSeries last (ts ++ t ∷ [])
      → let s' = fail_at (ts ++ t ∷ []) s in
        (s'.consecutive_disaster_stop_failures ≡ min (1 + length ts) 3)
        × (s'.halt_until ≡ some (t + halt_window (min (1 + length ts) 3)))
        × (s'.trading_halted ≡ true)
  fail_at-backoff last ts t s c l h = fail_at-series 0 last ts t s (rw c (omega arith)) l h

  -- Whatever the row was: a failure more than seven days after the last one, or after the counter
  -- was reset by a stop that was placed, halts for one hour and leaves the counter at 1.
  pub backoff_restarts :
      (now : Time) (s : BreakerState D)
      → ((last : Time) × (s.last_disaster_stop_failed_ts ≡ some last) × (last + seven_days < now))
        ⊎ ((before : BreakerState D) × (s ≡ reset_disaster_stop_fail_counter before))
      → let s' = trip_disaster_stop_fail_halt now s in
        (s'.consecutive_disaster_stop_failures ≡ 1) × (s'.halt_until ≡ some (now + hour))
  unfolding trip_disaster_stop_fail_halt
  backoff_restarts now s (inl (last, l, h)) = ground arith
  backoff_restarts now s (inr (before, e)) =
      let z : s.consecutive_disaster_stop_failures ≡ 0 =
        ap (λ r. r.consecutive_disaster_stop_failures) e ∙ reset_zero before in
      ground arith
