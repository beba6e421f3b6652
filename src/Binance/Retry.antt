-- ===== src/Binance/Retry.antt =====
-- internal/binance/retry.go. What the server answers, and whether the context ends during a wait,
-- is the environment's choice: a function of the attempt.
pub mod Policy
use binance_oi_square_trader.Prelude.{
  ℕ, ◌+◌, ◌*◌, Bool, true, false, ◌&&◌, List, [], ◌∷◌, ltb, if◌then◌else◌, Duration, second,
}
use binance_oi_square_trader.Binance.Errors.{
  Action, permanent, retry_now, retry_backoff, maybe_succeeded, treat_as_canceled, treat_as_success,
  treat_as_existing, fatal, Failure, api, transport, context_done, action_of, record_api_error,
}

pub data Outcome (B : Type 0) : Type 0 where
  ok : B → Outcome B
  err : Failure → Outcome B

pub record Server (B : Type 0) : Type 0 where
  -- the result of `doWrite` in the given attempt
  pub reply : ℕ → Outcome B
  -- whether the context is done before the wait of the given attempt is over
  pub done_waiting : ℕ → Duration → Bool

-- The result, with the requests sent and the rows written to api_errors.
pub record Run (B : Type 0) : Type 0 where
  pub outcome : Outcome B
  pub calls : ℕ
  pub recorded : List Failure

abbrev pub retry_backoffs : List Duration
retry_backoffs = 0 ∷ second ∷ 2 * second ∷ 4 * second ∷ []

-- What the loop does after a failed attempt; `again` carries the new `minus1021Retried`.
pub data Verdict : Type 0 where
  again : Bool → Verdict
  stop : Verdict

after_action : Action → Bool → Verdict
after_action retry_backoff retried = again retried
after_action retry_now retried = if retried then stop else again true
after_action _ retried = stop

unfoldable pub verdict : Failure → Bool → Verdict
unfolding after_action
verdict (api e) retried = after_action (action_of e) retried
verdict _ retried = again retried

module _ {B : Type 0} (srv : Server B) where
  -- one clause of the `for`, with the backoffs of the attempts that are left
  unfoldable pub attempts : ℕ → List Duration → Bool → Failure → Run B
  unfolding verdict record_api_error
  attempts n [] retried last = record {
    outcome = err last;
    calls = n;
    recorded = record_api_error last;
  }
  attempts n (wait ∷ waits) retried last =
      if ltb 0 n && srv.done_waiting n wait
      then record { outcome = err context_done; calls = n; recorded = [] }
      else elim (srv.reply n) [
        | ok body ↦ record { outcome = ok body; calls = n + 1; recorded = [] }
        | err e ↦ elim (verdict e retried) [
          | again retried' ↦ attempts (n + 1) waits retried' e
          | stop ↦ record { outcome = err e; calls = n + 1; recorded = record_api_error e }
        ]
      ]

  -- `lastErr` is nil before the first attempt, and is read after the last one only
  unfoldable pub do_write_retry : Run B
  do_write_retry = attempts 0 retry_backoffs false transport
