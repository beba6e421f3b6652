-- ===== src/Examples/Reconciliation.antt =====
-- A trade whose algos and position the exchange reports on, and a recovery.
use mathlib.Core.List.{Memᴰ}
use mathlib.Core.Option.{some-injective}
use binance_oi_square_trader.Prelude.{
  String, sym, ap, ◌∙◌, ◌≤◌, ◌<◌, ◌+◌, ◌-◌, ◌*◌, ◌≡◌, refl, true, false, Option, none, some, List,
  [], ◌∷◌, arith, Time, minute, hour, All, pos,
}
use binance_oi_square_trader.Decimal.Fixed.{Fixed, fixed_decimal}
use binance_oi_square_trader.Examples.Data.{noon, whole, percent, btc_trade, one_open}
use binance_oi_square_trader.Examples.Positions.{exchange, exit_of_btc}
use binance_oi_square_trader.Binance.Errors.{api, minus}
use binance_oi_square_trader.Binance.Retry.{Outcome, ok, err}
use binance_oi_square_trader.Storage.Trades.{algo, entering}
use binance_oi_square_trader.Execution.Entry.{PositionRisk}
use binance_oi_square_trader.Execution.Exit.{has_exit}
use binance_oi_square_trader.Storage.Db.{Session, exec, query, outside}
use binance_oi_square_trader.Execution.Algo.{
  algo_close_price, sum_algo_fees, insert_trade_exit_idempotent, close_recorded,
  is_order_not_found_err, is_listed, is_algo_still_open, AlgoQuery, AlgoWorld,
  auto_close_from_fields, query_algo, is_order_not_found_err, is_listed, is_algo_still_open, gone,
}
use binance_oi_square_trader.Execution.Algo.Closing.{auto_close-once}
use binance_oi_square_trader.Execution.Algo.Gone.{Confirmed, query_algo-Confirmed}
use binance_oi_square_trader.Execution.Sync.{
  orphan_confirm_delay, is_recent, SyncWorld, SyncRow, Manager, auto_sync_orphan, is_drifted,
  position_of,
}
use binance_oi_square_trader.Execution.Sync.Tick.{
  sync_orphan, sync_trade, sync_present, sync_unknown,
}
use binance_oi_square_trader.Execution.Sync.Orphans.{
  Unfinished, sync_orphan-confirmed, sync_trade-stale_note, sync_unknown-once,
}
use binance_oi_square_trader.Execution.Sync.Drift.{sync_present-keeps_drifted}
use binance_oi_square_trader.Execution.Sigfail.{
  SigfailConfig, SigfailWorld, eval_and_maybe_close, eval_and_maybe_close-no_oi,
}
use binance_oi_square_trader.Execution.OrphanAlgo.{
  AlgoOpenOrder, Cleaner, ClosesNothing, cancel_orphans, cancel_orphans_exact,
}
use binance_oi_square_trader.Execution.Recovery.{RecoveryWorld, recover_entering_trades}
use binance_oi_square_trader.Execution.Recovery.Settling.{Settled, recover_entering_trades-Settled}

abbrev finished : AlgoQuery Fixed
finished = record {
  algo_id = 7;
  algo_status = "FINISHED";
  quantity = whole 5;
  trigger_price = whole 94;
  actual_price = whole 93;
  actual_order_id = some (algo 12);
}

-- no query about one algo is answered, and no algo is open
abbrev forgetful : AlgoWorld Fixed
forgetful = record {
  now = λ n. noon;
  database_now = λ n. noon;
  query_algo_order = λ n id. err (api (record { http_code = 400; biz_code = minus 2013 }));
  list_open_algo_orders = λ n. some [];
  get_position_risk = λ n symbol. some [];
  fees_fetcher = true;
  get_user_trades = λ n symbol order. some (percent 18 ∷ []);
}

auto_close-once_example :
    (auto_close_from_fields forgetful 1 "BTCUSDT" finished
      (whole 100)
      (whole 5)
      "disaster"
      (auto_close_from_fields forgetful 1 "BTCUSDT" finished
        (whole 100)
        (whole 5)
        "disaster"
        (one_open btc_trade)).1).1.db
    ≡ (auto_close_from_fields forgetful 1 "BTCUSDT" finished
        (whole 100)
        (whole 5)
        "disaster"
        (one_open btc_trade)).1.db
unfolding auto_close_from_fields algo_close_price sum_algo_fees insert_trade_exit_idempotent
    has_exit close_recorded exec query outside
auto_close-once_example =
    auto_close-once forgetful 1 "BTCUSDT" "disaster" finished finished (whole 100) (whole 5)
      (whole 100) (whole 5) (one_open btc_trade) refl

query_algo-Confirmed_example : Confirmed forgetful 7 (one_open btc_trade).clock
unfolding query_algo outside is_order_not_found_err is_algo_still_open is_listed
query_algo-Confirmed_example =
    query_algo-Confirmed forgetful 7 (one_open btc_trade) (gone 7) refl refl

abbrev quiet_exchange : SyncWorld Fixed
quiet_exchange = record {
  now = λ n. noon;
  get_position_risk = λ n. some [];
  place_market_sell = λ n symbol qty. none;
  algo_reconciler = none;
}

abbrev btc_position : Fixed → PositionRisk Fixed
btc_position size = record {
  symbol = "BTCUSDT";
  position_amt = size;
  entry_price = whole 100;
  mark_price = whole 101;
  unrealized_profit = whole 5;
}

abbrev sync_of_btc : SyncRow Fixed
sync_of_btc = record {
  id = 1;
  symbol = "BTCUSDT";
  direction = "LONG";
  entry_ts = some (noon - 80 * hour);
  entry_price = some (whole 100);
  margin = whole 50;
  binance_disaster_stop_order_id = some (algo 7);
  binance_trail_algo_id = none;
  trail_stage = 0;
  binance_tp1_algo_id = none;
  binance_tp2_algo_id = none;
  current_qty = some (whole 5);
}

abbrev manager : Option Time → Manager Fixed
manager noted = record {
  session = one_open btc_trade;
  pending_orphans = λ id. noted;
  binance_only_dedup = λ symbol. none;
}

-- the stop of the trade still works
abbrev working : AlgoWorld Fixed
working = record forgetful {
  query_algo_order = λ n id. ok (record finished { algo_status = "WORKING" });
}

abbrev watched_exchange : SyncWorld Fixed
watched_exchange = record quiet_exchange { algo_reconciler = some working }

abbrev status_of : Outcome (AlgoQuery Fixed) → String
status_of (ok q) = q.algo_status
status_of (err e) = ""

still_working : Unfinished watched_exchange
still_working = record {
  never = λ algos n id q set answered.
      let same : working ≡ algos = some-injective _ _ set in
      let at : working.query_algo_order n id ≡ ok q =
        ap (λ (w : AlgoWorld Fixed). w.query_algo_order n id) same ∙ answered in
      let status : "WORKING" ≡ q.algo_status = ap status_of at in rw (sym status) refl;
}

sync_orphan-confirmed_example :
    let m1 = sync_orphan watched_exchange noon sync_of_btc (manager none) in
    let m2 = sync_orphan watched_exchange (noon + minute) sync_of_btc m1 in
    (m1.session.db ≡ (one_open btc_trade).db)
    × (noon + minute < noon + orphan_confirm_delay → m2.session.db ≡ (one_open btc_trade).db)
    × (noon + orphan_confirm_delay ≤ noon + minute
        → (s : Session Fixed) × (s.db ≡ (one_open btc_trade).db)
          × (m2.session ≡ auto_sync_orphan watched_exchange sync_of_btc s))
sync_orphan-confirmed_example =
    sync_orphan-confirmed watched_exchange still_working sync_of_btc noon (noon + minute)
      (manager none) refl

sync_trade-stale_note_example :
    let seen =
      sync_present watched_exchange
        (noon + minute)
        sync_of_btc
        (btc_position (whole 5))
        (one_open btc_trade) in
    (s : Session Fixed) × (s.db ≡ seen.db)
    × ((sync_trade watched_exchange (noon + 2 * minute) [] sync_of_btc (
          sync_trade watched_exchange
            (noon + minute)
            (btc_position (whole 5) ∷ [])
            sync_of_btc
            (manager (some noon)))).session
        ≡ auto_sync_orphan watched_exchange sync_of_btc s)
unfolding position_of
sync_trade-stale_note_example =
    sync_trade-stale_note watched_exchange still_working sync_of_btc noon (noon + minute)
      (noon + 2 * minute) (btc_position (whole 5) ∷ []) [] (btc_position (whole 5))
      (manager (some noon)) refl refl refl (omega arith)

sync_unknown-once_example :
    sync_unknown quiet_exchange
      (noon + minute)
      (btc_position (whole 4))
      (sync_unknown quiet_exchange noon (btc_position (whole 5)) (manager none))
    ≡ sync_unknown quiet_exchange noon (btc_position (whole 5)) (manager none)
unfolding is_recent
sync_unknown-once_example =
    sync_unknown-once quiet_exchange noon (noon + minute) (btc_position (whole 5))
      (btc_position (whole 4)) (manager none) refl refl (omega arith)

sync_present-keeps_drifted_example :
    (sync_present quiet_exchange noon sync_of_btc
      (btc_position (whole 4))
      (one_open btc_trade)).db.position_states
    ≡ (one_open btc_trade).db.position_states
unfolding is_drifted
sync_present-keeps_drifted_example =
    sync_present-keeps_drifted quiet_exchange sync_of_btc noon (btc_position (whole 4))
      (one_open btc_trade) refl

abbrev sigfail_config : SigfailConfig Fixed
sigfail_config = record {
  oi_drop_pct = percent 8;
  ema20_klines = pos 5;
  logic = "AND";
  low_break_buffer_pct = percent 1;
  low_lookback_min = pos 30;
}

abbrev falling : SigfailWorld Fixed
falling = record {
  now = λ n. noon;
  latest_oi = λ n symbol. some (whole 10);
  last_closes = λ n symbol limit. none;
  lowest_low_since = λ n symbol since. some (whole 100);
  latest_price = λ n symbol. some (whole 50);
}

eval_and_maybe_close-no_oi_example :
    ((eval_and_maybe_close falling exchange sigfail_config exit_of_btc (one_open btc_trade)).0
      ≡ false)
    × ((eval_and_maybe_close falling exchange sigfail_config exit_of_btc (one_open btc_trade)).1.db
        ≡ (one_open btc_trade).db)
eval_and_maybe_close-no_oi_example =
    eval_and_maybe_close-no_oi falling exchange sigfail_config exit_of_btc (one_open btc_trade) refl
      refl

abbrev open_stop : AlgoOpenOrder
open_stop = record {
  algo_id = 7;
  symbol = "BTCUSDT";
  side = "SELL";
  status = "NEW";
  reduce_only = true;
  close_position = false;
}

abbrev no_positions : List (PositionRisk Fixed)
no_positions = []

abbrev swept : Cleaner
swept = cancel_orphans no_positions (open_stop ∷ []) (record { clock = 0; asked = [] })

cancel_orphans_exact_example :
    All (ClosesNothing no_positions) swept.asked
    × ((a : AlgoOpenOrder)
        → Memᴰ a (open_stop ∷ [])
        → ClosesNothing no_positions a
        → Memᴰ a swept.asked)
cancel_orphans_exact_example =
    cancel_orphans_exact no_positions (open_stop ∷ []) (record { clock = 0; asked = [] }) refl

abbrev restarted : RecoveryWorld Fixed
restarted = record {
  now = λ n. noon;
  get_order_by_client_id = λ n symbol id. ok (record {
    order_id = 3;
    client_order_id = "t1_r0";
    symbol = symbol;
    status = "FILLED";
    avg_price = whole 100;
    executed_qty = whole 5;
    cum_quote = whole 500;
    update_time = noon;
  });
  cancel_order = λ n symbol id. true;
}

recover_entering_trades-Settled_example :
    All Settled
      (recover_entering_trades restarted
        (one_open (record btc_trade { status = entering }))).db.trades.rows
recover_entering_trades-Settled_example =
    recover_entering_trades-Settled restarted (λ n symbol id. tt)
      (one_open (record btc_trade { status = entering })) (λ n. refl)
