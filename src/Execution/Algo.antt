-- ===== src/Execution/Algo.antt =====
-- internal/execution/algo_reconciler.go: the polls of the stops and take-profits of the open trades.
-- What the exchange and the clocks say is `AlgoWorld` at the time of the call.
pub mod Closing
pub mod Gone
pub mod Polling
use binance_oi_square_trader.Prelude.{
  if-elim_eq, Option-elim_eq, if-elim, Option-elim, ℕ, zero, suc, ◌+◌, ◌-◌, ◌*◌, ◌/◌, ◌%◌, ◌^◌, ◌≤◌,
  ◌<◌, min, String, ◌≡◌, refl, sym, ap, ◌∙◌, ◌≢◌, ◌↔◌, ◌⊎◌, inl, inr, Bool, true, false, not, ◌&&◌,
  ◌||◌, Option, none, some, List, [], ◌∷◌, ◌++◌, map, arith, str_eq, eq_iff, Time, Duration, second,
  minute, hour, Effect, pure, ◌>>=◌, ◌>>◌, on_error, length, get_elem?, take, drop, last_or, window,
  length-append, length-drop, length-window, All, ltb, leb, ◌==◌, if◌then◌else◌, ltb→lt, lt→ltb,
  leb→le, ==_iff, tests, Bool-cases, Option-cases, ℤ, pos, negsuc, pos_part, neg_part, sub_ℕ, neg_ℤ,
  ◌+ℤ◌, ◌-ℤ◌, ◌*ℤ◌, ltb_ℤ, eq_ℤ, leb_ℤ, size_ℤ,
}
use binance_oi_square_trader.Decimal.{Decimal, zero_dec}
use binance_oi_square_trader.Binance.Errors.{Failure, api, minus}
use binance_oi_square_trader.Binance.Retry.{Outcome, ok, err}
use binance_oi_square_trader.Storage.Breaker.{update_daily_pnl_partial}
use binance_oi_square_trader.Storage.Trades.{AlgoText, malformed, algo, Trade, update_trade_closed}
use binance_oi_square_trader.Storage.Trades.Columns.{clear_tp_algo_id}
use binance_oi_square_trader.Storage.Positions.{decrement_position_qty}
use binance_oi_square_trader.Storage.Db.{Db, Session, TradeExit, outside, exec, query}
use binance_oi_square_trader.Execution.Trail.{on_trade, decimal_from_pg_numeric}
use binance_oi_square_trader.Execution.Exit.{has_exit, day_of}
use binance_oi_square_trader.Execution.Exit.Close.{clean_up}
use binance_oi_square_trader.Execution.Entry.{PositionRisk}

-- an answer about one algo, with what the code reads; no id is the empty `actualOrderId`
pub record AlgoQuery (D : Type 0) : Type 0 where
  pub algo_id : ℕ
  pub algo_status : String
  pub quantity : D
  pub trigger_price : D
  pub actual_price : D
  pub actual_order_id : Option AlgoText

pub record AlgoWorld (D : Type 0) : Type 0 where
  pub now : ℕ → Time
  -- NOW() of a statement
  pub database_now : ℕ → Time
  pub query_algo_order : ℕ → ℕ → Outcome (AlgoQuery D)
  -- the ids of the open algos
  pub list_open_algo_orders : ℕ → Option (List ℕ)
  pub get_position_risk : ℕ → String → Option (List (PositionRisk D))
  -- whether there is a fetcher, and the commissions of an order's fills
  pub fees_fetcher : Bool
  pub get_user_trades : ℕ → String → ℕ → Option (List D)

-- a row of ListOpenTradesWithAlgo, with what the code reads; `none` is an empty or missing id
pub record AlgoRow (D : Type 0) : Type 0 where
  pub id : ℕ
  pub symbol : String
  pub entry_price : Option D
  pub binance_disaster_stop_order_id : Option AlgoText
  pub binance_trail_algo_id : Option AlgoText
  pub trail_stage : ℕ
  pub binance_tp1_algo_id : Option AlgoText
  pub binance_tp2_algo_id : Option AlgoText
  pub initial_take_profit_1 : Option D
  pub initial_take_profit_2 : Option D
  pub current_qty : Option D

abbrev algo_status_gone : String
algo_status_gone = "GONE"

unfoldable pub is_order_not_found_err : Failure → Bool
is_order_not_found_err (api e) = eq_ℤ e.biz_code (minus 2011) || eq_ℤ e.biz_code (minus 2013)
is_order_not_found_err _ = false

unfoldable pub is_listed : List ℕ → ℕ → Bool
is_listed [] id = false
is_listed (n ∷ ns) id = n == id || is_listed ns id

unfoldable pub trail_exit_reason_for_stage : ℕ → String
trail_exit_reason_for_stage stage =
    if stage == 2
    then "trail_s2"
    else if stage == 3
    then "trail_s3"
    else if stage == 4
    then "trail_s4"
    else "trail_s1"

-- the states in which the caller looks further
is_pollable : String → Bool
is_pollable status = str_eq status "WORKING" || str_eq status "NEW" || str_eq status "FINISHED"

module _ {D : Type 0} where
  -- custom.go: the number of rows inserted
  unfoldable pub insert_trade_exit_idempotent : TradeExit D → Db D → Option ℕ × Db D
  insert_trade_exit_idempotent e db =
      if has_exit e.trade_id e.kind db.trade_exits
      then (some 0, db)
      else (some 1, record db { trade_exits = e ∷ db.trade_exits })

  polled : AlgoQuery D → Option (AlgoQuery D)
  polled q = if is_pollable q.algo_status then some q else none

module _ {D : Type 0} ⦃d : Decimal D⦄ where
  -- the synthetic answer about an algo that is no longer there
  abbrev pub gone : ℕ → AlgoQuery D
  gone id = record {
    algo_id = id;
    algo_status = algo_status_gone;
    quantity = zero_dec;
    trigger_price = zero_dec;
    actual_price = zero_dec;
    actual_order_id = none;
  }

  unfoldable pub algo_close_price : AlgoQuery D → D
  algo_close_price q = if d.is_zero q.actual_price then q.trigger_price else q.actual_price

  unfoldable pub algo_close_qty : D → AlgoQuery D → D
  algo_close_qty current q = if d.is_zero current then q.quantity else current

  add_commissions : D → List D → D
  add_commissions total [] = total
  add_commissions total (c ∷ cs) = add_commissions (d.add total c) cs

  commissions : Option (List D) → D
  commissions none = zero_dec
  commissions (some cs) = add_commissions zero_dec cs

  abbrev pub roll_partial : D → Time → Db D → Db D
  roll_partial delta now db = record db {
    breaker = update_daily_pnl_partial delta (day_of now) db.breaker;
  }

  module _ (world : AlgoWorld D) where
    abbrev pub clock_of : Session D → Time
    clock_of s = world.now s.clock

    unfoldable pub is_algo_still_open : ℕ → Effect (Session D) (Option Bool)
    is_algo_still_open id = outside (λ n. elim (world.list_open_algo_orders n) [
      | none ↦ none
      | some ids ↦ some (is_listed ids id)
    ])

    unfoldable pub sum_algo_fees : String → Option AlgoText → Effect (Session D) D
    unfolding commissions add_commissions
    sum_algo_fees symbol none s = (zero_dec, s)
    sum_algo_fees symbol (some malformed) s = (zero_dec, s)
    sum_algo_fees symbol (some (algo order)) s =
        if not world.fees_fetcher
        then (zero_dec, s)
        else outside (λ n. commissions (world.get_user_trades n symbol order)) s

    -- after an answer that the order does not exist
    confirm_gone : ℕ → Effect (Session D) (Option (AlgoQuery D))
    confirm_gone id s =
        let (still_open, s1) = is_algo_still_open id s in
        (
          elim still_open [ none ↦ none | some listed ↦ if listed then none else some (gone id) ],
          s1,
        )

    unfoldable pub query_algo : AlgoText → Effect (Session D) (Option (AlgoQuery D))
    unfolding confirm_gone polled is_pollable
    query_algo malformed s = (none, s)
    query_algo (algo id) s =
        let (answer, s1) = outside (λ n. world.query_algo_order n id) s in
        elim answer [
          | ok q ↦ (polled q, s1)
          | err e ↦ if is_order_not_found_err e then confirm_gone id s1 else (none, s1)
        ]

    -- after the exit was recorded
    unfoldable pub partial_recorded :
        AlgoRow D → D → D → Option AlgoText → String → Time → Session D → Session D
    partial_recorded r qty pnl order reason now s =
        let (fees, s1) = sum_algo_fees r.symbol order s in
        let s2 = (exec (decrement_position_qty r.id qty now) s1).1 in
        let s3 = (exec (on_trade r.id (clear_tp_algo_id reason)) s2).1 in
        (exec (roll_partial (d.sub pnl fees) now) s3).1

    -- the quantity sold
    unfoldable pub partial_close : AlgoRow D → AlgoQuery D → String → Effect (Session D) (Option D)
    partial_close r q reason s =
        let now = clock_of s in
        let price = algo_close_price q in
        let pnl = d.mul (d.sub price (decimal_from_pg_numeric r.entry_price)) q.quantity in
        let (inserted, s1) =
          query
            (insert_trade_exit_idempotent (record {
              trade_id = r.id;
              ts = now;
              kind = reason;
              qty = q.quantity;
              price = price;
              pnl = pnl;
            }))
            s in
        if d.is_zero price || d.is_zero q.quantity then (none, s) else elim inserted [
          | none ↦ (none, s1)
          | some n ↦ if n == 0 then (none, s1) else (
            some q.quantity,
            partial_recorded r q.quantity pnl q.actual_order_id reason now s1,
          )
        ]

    -- after the exit was recorded
    unfoldable pub close_recorded : ℕ → D → D → D → String → Time → Session D → Bool × Session D
    close_recorded id price pnl fees reason now s =
        let (done, s1) = exec (on_trade id (update_trade_closed now price reason pnl fees)) s in
        if not done then (false, s1) else (true, clean_up world.database_now id pnl now s1)

    -- whether the trade is closed, now or before
    unfoldable pub auto_close_from_fields :
        ℕ → String → AlgoQuery D → D → D → String → Effect (Session D) Bool
    unfolding algo_close_qty
    auto_close_from_fields id symbol q entry_price current_qty reason s =
        let now = clock_of s in
        let price = algo_close_price q in
        let qty = algo_close_qty current_qty q in
        let pnl = d.mul (d.sub price entry_price) qty in
        let (fees, s1) = sum_algo_fees symbol q.actual_order_id s in
        let (inserted, s2) =
          query
            (insert_trade_exit_idempotent (record {
              trade_id = id;
              ts = now;
              kind = reason;
              qty = qty;
              price = price;
              pnl = pnl;
            }))
            s1 in
        if d.is_zero price || d.is_zero qty then (false, s) else elim inserted [
          | none ↦ (false, s2)
          | some n ↦ if n == 0 then (true, s2) else close_recorded id price pnl fees reason now s2
        ]
