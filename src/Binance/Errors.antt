-- ===== src/Binance/Errors.antt =====
-- internal/binance/errors.go, and the filter of `recordAPIError` in client.go. An error value is
-- an `*APIError`, or another one (network, context): the code tells no more of it.
use binance_oi_square_trader.Prelude.{
  ℕ, Bool, true, false, ◌&&◌, ◌||◌, List, [], ◌∷◌, ltb, leb, ◌==◌, if◌then◌else◌, ℤ, pos, neg_ℤ,
  eq_ℤ,
}

pub data Action : Type 0 where
  permanent retry_now retry_backoff maybe_succeeded treat_as_canceled treat_as_success
        treat_as_existing fatal :
      Action

pub record ApiError : Type 0 where
  pub http_code : ℕ
  pub biz_code : ℤ

pub data Failure : Type 0 where
  api : ApiError → Failure
  -- connection refused, timeout, EOF, and the errors of the context inside a request
  transport : Failure
  -- `ctx.Err()`, returned while waiting for the next attempt
  context_done : Failure

-- the code -n of Binance
abbrev pub minus : ℕ → ℤ
minus n = neg_ℤ (pos n)

by_biz_code : ℤ → Action
by_biz_code c =
    if eq_ℤ c (minus 1006) || eq_ℤ c (minus 1007)
    then maybe_succeeded
    else if eq_ℤ c (minus 2011) || eq_ℤ c (minus 2013)
    then treat_as_canceled
    else if eq_ℤ c (minus 4046) || eq_ℤ c (minus 4059)
    then treat_as_success
    else if eq_ℤ c (minus 4116)
    then treat_as_existing
    else if eq_ℤ c (minus 1021)
    then retry_now
    else if eq_ℤ c (minus 1022) || eq_ℤ c (minus 2014) || eq_ℤ c (minus 2015)
    then fatal
    else permanent

unfoldable pub classify_error : ℕ → ℤ → Action
unfolding by_biz_code
classify_error http_code biz_code =
    if http_code == 418
    then fatal
    else if http_code == 429
    then retry_backoff
    else if leb 500 http_code && ltb http_code 600
    then retry_backoff
    else by_biz_code biz_code

abbrev pub action_of : ApiError → Action
action_of e = classify_error e.http_code e.biz_code

abbrev counted_action : Action → Bool
counted_action treat_as_success = false
counted_action treat_as_canceled = false
counted_action _ = true

-- `recordAPIError`: what is written to api_errors, whose rows the circuit breaker counts.
unfoldable pub record_api_error : Failure → List Failure
record_api_error (api e) = if counted_action (action_of e) then api e ∷ [] else []
record_api_error f = f ∷ []
