-- ===== src/Execution/Algo/Polling.antt =====
-- internal/execution/algo_reconciler.go: one tick over the open trades, and what the position
-- manager asks of the reconciler.
use binance_oi_square_trader.Prelude.{
  ℕ, String, Bool, true, false, not, ◌&&◌, ◌||◌, Option, none, some, List, [], ◌∷◌, map, str_eq,
  second, Effect, if◌then◌else◌,
}
use binance_oi_square_trader.Decimal.{Decimal, zero_dec}
use binance_oi_square_trader.Binance.Retry.{ok, err}
use binance_oi_square_trader.Storage.Trades.{Status, opened, AlgoText, malformed, algo, Trade}
use binance_oi_square_trader.Storage.Trades.Columns.{
  clear_tp_algo_id, clear_trail_algo_id, clear_disaster_stop_order_id,
}
use binance_oi_square_trader.Storage.Db.{Db, Session, outside, exec, select}
use binance_oi_square_trader.Execution.Trail.{
  on_trade, qty_of, insert_by_entry, decimal_from_pg_numeric,
}
use binance_oi_square_trader.Execution.Entry.{PositionRisk}
use binance_oi_square_trader.Execution.Algo.{
  AlgoQuery, AlgoWorld, AlgoRow, algo_status_gone, is_order_not_found_err,
  trail_exit_reason_for_stage, is_algo_still_open, query_algo, partial_close,
  auto_close_from_fields,
}

is_opened : Status → Bool
is_opened opened = true
is_opened _ = false

has_text : Option AlgoText → Bool
has_text none = false
has_text (some _) = true

-- the two algos that close the whole trade
pub data FullAlgo : Type 0 where
  disaster trail : FullAlgo

-- the two that close a part of it
pub data PartAlgo : Type 0 where
  tp1 tp2 : PartAlgo

abbrev pub tp_reason : PartAlgo → String
tp_reason tp1 = "tp1"
tp_reason tp2 = "tp2"

-- the id that `toInt64` gives to the synthetic answer
id_of_text : Option AlgoText → ℕ
id_of_text (some (algo id)) = id
id_of_text _ = 0

module _ {D : Type 0} where
  has_algo : Trade D → Bool
  has_algo t =
      has_text t.binance_disaster_stop_order_id
      || has_text t.binance_trail_algo_id
      || has_text t.binance_tp1_algo_id
      || has_text t.binance_tp2_algo_id

  algo_row : Db D → Trade D → AlgoRow D
  algo_row db t = record {
    id = t.id;
    symbol = t.symbol;
    entry_price = t.entry_price;
    binance_disaster_stop_order_id = t.binance_disaster_stop_order_id;
    binance_trail_algo_id = t.binance_trail_algo_id;
    trail_stage = t.trail_stage;
    binance_tp1_algo_id = t.binance_tp1_algo_id;
    binance_tp2_algo_id = t.binance_tp2_algo_id;
    initial_take_profit_1 = t.initial_take_profit_1;
    initial_take_profit_2 = t.initial_take_profit_2;
    current_qty = qty_of db.position_states t.id;
  }

  with_algo_by_entry : List (Trade D) → List (Trade D)
  with_algo_by_entry [] = []
  with_algo_by_entry (t ∷ ts) =
      let rest = with_algo_by_entry ts in
      if is_opened t.status && has_algo t then insert_by_entry t rest else rest

  unfoldable pub list_open_trades_with_algo : Db D → List (AlgoRow D)
  unfolding algo_row with_algo_by_entry has_algo has_text is_opened
  list_open_trades_with_algo db = map (algo_row db) (with_algo_by_entry db.trades.rows)

  -- the statement that forgets an algo which is gone
  unfoldable pub forget : FullAlgo → Trade D → Trade D
  forget disaster t = clear_disaster_stop_order_id t
  forget trail t = clear_trail_algo_id t

  stored_price : PartAlgo → AlgoRow D → Option D
  stored_price tp1 r = r.initial_take_profit_1
  stored_price tp2 r = r.initial_take_profit_2

  tp_text : PartAlgo → AlgoRow D → Option AlgoText
  tp_text tp1 r = r.binance_tp1_algo_id
  tp_text tp2 r = r.binance_tp2_algo_id

module _ {D : Type 0} ⦃d : Decimal D⦄ where
  -- the size of the first position with the symbol
  unfoldable pub position_size : String → List (PositionRisk D) → D
  position_size symbol [] = zero_dec
  position_size symbol (p ∷ ps) =
      let rest = position_size symbol ps in
      if str_eq p.symbol symbol then d.abs p.position_amt else rest

  synthetic : AlgoRow D → PartAlgo → D → D → AlgoQuery D
  synthetic r part qty price = record {
    algo_id = id_of_text (tp_text part r);
    algo_status = "FINISHED";
    quantity = qty;
    trigger_price = price;
    actual_price = zero_dec;
    actual_order_id = none;
  }

  -- what is left of the running quantity
  unfoldable pub left_after : D → Option D → D
  left_after qty none = qty
  left_after qty (some sold) =
      let rest = d.sub qty sold in if d.is_negative rest then zero_dec else rest

  module _ (world : AlgoWorld D) where
    clear_tp : AlgoRow D → PartAlgo → Session D → Session D
    clear_tp r part s = (exec (on_trade r.id (clear_tp_algo_id (tp_reason part))) s).1

    unfoldable pub reconcile_tp_gone : AlgoRow D → PartAlgo → Effect (Session D) (Option D)
    unfolding clear_tp stored_price synthetic id_of_text tp_text
    reconcile_tp_gone r part s =
        let price = decimal_from_pg_numeric (stored_price part r) in
        let (positions, s1) = outside (λ n. world.get_position_risk n r.symbol) s in
        if d.is_zero price then (none, clear_tp r part s) else elim positions [
          | none ↦ (none, s1)
          | some ps ↦
              let fill =
                d.sub (decimal_from_pg_numeric r.current_qty) (position_size r.symbol ps) in
              if d.less_than_or_equal fill zero_dec
              then (none, clear_tp r part s1)
              else partial_close world r (synthetic r part fill price) (tp_reason part) s1
        ]

    after_part_query : AlgoRow D → PartAlgo → AlgoQuery D → Effect (Session D) (Option D)
    after_part_query r part q s =
        if str_eq q.algo_status algo_status_gone
        then reconcile_tp_gone r part s
        else if not (str_eq q.algo_status "FINISHED")
        then (none, s)
        else partial_close world r q (tp_reason part) s

    unfoldable pub poll_one_partial :
        AlgoRow D → Option AlgoText → PartAlgo → Effect (Session D) (Option D)
    unfolding after_part_query
    poll_one_partial r none part s = (none, s)
    poll_one_partial r (some text) part s =
        let (found, s1) = query_algo world text s in
        elim found [ none ↦ (none, s1) | some q ↦ after_part_query r part q s1 ]

    after_full_query : AlgoRow D → FullAlgo → String → D → AlgoQuery D → Effect (Session D) Bool
    after_full_query r full reason qty q s =
        if str_eq q.algo_status algo_status_gone
        then (false, (exec (on_trade r.id (forget full)) s).1)
        else if not (str_eq q.algo_status "FINISHED")
        then (false, s)
        else auto_close_from_fields world r.id r.symbol q (decimal_from_pg_numeric r.entry_price)
            qty reason s

    unfoldable pub poll_one_full :
        AlgoRow D → Option AlgoText → FullAlgo → String → D → Effect (Session D) Bool
    unfolding after_full_query
    poll_one_full r none full reason qty s = (false, s)
    poll_one_full r (some text) full reason qty s =
        let (found, s1) = query_algo world text s in
        elim found [ none ↦ (false, s1) | some q ↦ after_full_query r full reason qty q s1 ]

    unfoldable pub reconcile_row : AlgoRow D → Session D → Session D
    reconcile_row r s =
        let q0 = decimal_from_pg_numeric r.current_qty in
        let (sold1, s1) = poll_one_partial r r.binance_tp1_algo_id tp1 s in
        let q1 = left_after q0 sold1 in
        let (sold2, s2) = poll_one_partial r r.binance_tp2_algo_id tp2 s1 in
        let q2 = left_after q1 sold2 in
        let (closed, s3) =
          poll_one_full r r.binance_disaster_stop_order_id disaster "disaster" q2 s2 in
        if closed
        then s3
        else (poll_one_full r r.binance_trail_algo_id trail
            (trail_exit_reason_for_stage r.trail_stage) q2 s3).1

    unfoldable pub reconcile_rows : List (AlgoRow D) → Session D → Session D
    reconcile_rows [] s = s
    reconcile_rows (r ∷ rs) s = reconcile_rows rs (reconcile_row r s)

    unfoldable pub reconcile_algos : Session D → Session D
    reconcile_algos s =
        let (rows, s1) = select list_open_trades_with_algo s in
        elim rows [ none ↦ s1 | some rs ↦ reconcile_rows rs s1 ]

    -- without a second look at an order that does not exist; an empty reason is not modelled, since
    -- no caller gives one
    unfoldable pub try_reconcile :
        ℕ → String → Option AlgoText → String → D → D → Effect (Session D) Bool
    try_reconcile id symbol none reason entry_price qty s = (false, s)
    try_reconcile id symbol (some malformed) reason entry_price qty s = (false, s)
    try_reconcile id symbol (some (algo n)) reason entry_price qty s =
        let (answer, s1) = outside (λ k. world.query_algo_order k n) s in
        elim answer [
          | err e ↦ (false, s1)
          | ok q ↦
              if not (str_eq q.algo_status "FINISHED")
              then (false, s1)
              else auto_close_from_fields world id symbol q entry_price qty reason s1
        ]

    unfoldable pub is_finished_tp : Option AlgoText → Effect (Session D) Bool
    is_finished_tp none s = (false, s)
    is_finished_tp (some malformed) s = (false, s)
    is_finished_tp (some (algo id)) s =
        let (answer, s1) = outside (λ n. world.query_algo_order n id) s in
        elim answer [
          | ok q ↦ (str_eq q.algo_status "FINISHED", s1)
          | err e ↦
              let (still_open, s2) = is_algo_still_open world id s1 in
              if is_order_not_found_err e
              then (elim still_open [ none ↦ false | some listed ↦ not listed ], s2)
              else (false, s1)
        ]

    unfoldable pub has_finished_tp_for_trade :
        Option AlgoText → Option AlgoText → Effect (Session D) Bool
    has_finished_tp_for_trade first second s =
        let (found, s1) = is_finished_tp first s in
        if found then (true, s1) else is_finished_tp second s1
