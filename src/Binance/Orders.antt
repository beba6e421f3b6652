-- ===== src/Binance/Orders.antt =====
-- internal/binance/orders.go: the idempotent results of the write methods. The body's JSON decoder
-- and the lookup of an existing order are arguments.
use binance_oi_square_trader.Prelude.{
  refl, ℕ, String, ◌≡◌, Bool, true, false, Option, none, List, [], arith, Time, if◌then◌else◌,
}
use binance_oi_square_trader.Binance.Errors.{
  Action, treat_as_success, treat_as_canceled, treat_as_existing, Failure, api, action_of,
  record_api_error,
}
use binance_oi_square_trader.Binance.Retry.{Outcome, ok, err, Server, do_write_retry}

pub record OrderResult (D : Type 0) : Type 0 where
  pub order_id : ℕ
  pub client_order_id : String
  pub symbol : String
  pub status : String
  pub avg_price : D
  pub executed_qty : D
  pub cum_quote : D
  pub update_time : Time

is_action : Action → Action → Bool
is_action treat_as_success treat_as_success = true
is_action treat_as_canceled treat_as_canceled = true
is_action treat_as_existing treat_as_existing = true
is_action _ _ = false

unfoldable pub is_treated_as : Action → Failure → Bool
unfolding is_action
is_treated_as a (api e) = is_action a (action_of e)
is_treated_as a _ = false

module _ {B D : Type 0} (parse : B → Option (OrderResult D)) where
  -- `placeMarket` after its request was built; `none` is an error.
  unfoldable pub place_market : Server B → Option (OrderResult D) → Option (OrderResult D)
  place_market srv existing = elim (do_write_retry srv).outcome [
    | ok body ↦ parse body
    | err e ↦ if is_treated_as treat_as_existing e then existing else none
  ]

-- Methods whose error is nil, or wraps the failure, with what they write to api_errors.
pub record WriteResult : Type 0 where
  pub succeeded : Bool
  pub recorded : List Failure

module _ {B : Type 0} where
  write_once : Action → Outcome B → WriteResult
  write_once a (ok body) = record { succeeded = true; recorded = [] }
  write_once a (err e) = record { succeeded = is_treated_as a e; recorded = record_api_error e }

  -- SetMarginType: -4046 is a success
  unfoldable pub set_margin_type : Outcome B → WriteResult
  unfolding write_once is_treated_as
  set_margin_type = write_once treat_as_success

  -- CancelOrder: -2011 and -2013 are successes
  unfoldable pub cancel_order : Outcome B → WriteResult
  unfolding write_once is_treated_as
  cancel_order = write_once treat_as_canceled

  -- CancelAlgoOrder, which goes through the retries
  unfoldable pub cancel_algo_order : Server B → WriteResult
  unfolding is_treated_as
  cancel_algo_order srv =
      let run = do_write_retry srv in
      record {
        succeeded = elim run.outcome [ ok body ↦ true | err e ↦ is_treated_as treat_as_canceled e ];
        recorded = run.recorded;
      }

  -- A cancel that succeeds writes nothing to api_errors: what it takes for success, a body or the
  -- refusal of an order that is gone, is what the recording leaves out.
  pub cancel_order-unrecorded :
      (o : Outcome B) → (cancel_order o).succeeded ≡ true → (cancel_order o).recorded ≡ []
  unfolding cancel_order record_api_error
  cancel_order-unrecorded (ok body) h = refl
  cancel_order-unrecorded (err e) h = ground arith
