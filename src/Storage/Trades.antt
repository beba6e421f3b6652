-- ===== src/Storage/Trades.antt =====
-- internal/storage/postgres/gen/trades.sql.go: the table trades. `none` is SQL's NULL.
pub mod Active
pub mod Columns
pub mod Rows
use binance_oi_square_trader.Prelude.{
  ℕ, zero, suc, ◌+◌, ◌-◌, ◌*◌, ◌/◌, ◌%◌, ◌^◌, ◌≤◌, ◌<◌, min, String, ◌≡◌, refl, sym, ap, ◌∙◌, ◌≢◌,
  ◌↔◌, ◌⊎◌, inl, inr, Bool, true, false, not, ◌&&◌, ◌||◌, Option, none, some, List, [], ◌∷◌, ◌++◌,
  map, arith, str_eq, eq_iff, Time, Duration, second, minute, hour, Effect, pure, ◌>>=◌, ◌>>◌,
  on_error, length, get_elem?, take, drop, last_or, window, length-append, length-drop,
  length-window, All, ltb, leb, ◌==◌, if◌then◌else◌, ltb→lt, lt→ltb, leb→le, ==_iff, tests,
  Bool-cases, Option-cases, ℤ, pos, negsuc, pos_part, neg_part, sub_ℕ, neg_ℤ, ◌+ℤ◌, ◌-ℤ◌, ◌*ℤ◌,
  ltb_ℤ, eq_ℤ, leb_ℤ, size_ℤ,
}

-- the texts of the column `status`
pub data Status : Type 0 where
  entering opened partly_closed closing closed failed : Status

-- the text `t{signal_id}_r{retry_count}`
pub record ClientOrderId : Type 0 where
  pub signal : ℕ
  pub retry : ℕ

-- The text of a column with an algo's id, as `strconv.ParseInt` reads it.
pub data AlgoText : Type 0 where
  malformed : AlgoText
  algo : ℕ → AlgoText

pub record Trade (D : Type 0) : Type 0 where
  pub id : ℕ
  pub signal_id : ℕ
  pub symbol : String
  pub direction : String
  pub margin : D
  pub notional : D
  pub leverage : ℤ
  pub status : Status
  pub client_order_id : Option ClientOrderId
  pub entry_ts : Option Time
  pub entry_price : Option D
  pub exit_ts : Option Time
  pub exit_price : Option D
  pub exit_reason : Option String
  pub realized_pnl : Option D
  pub fees : Option D
  pub binance_disaster_stop_order_id : Option AlgoText
  pub binance_trail_algo_id : Option AlgoText
  pub trail_stage : ℕ
  pub trail_high_price : Option D
  pub trail_activation_price : Option D
  pub initial_oi : Option D
  pub retry_count : ℕ
  pub binance_tp1_algo_id : Option AlgoText
  pub binance_tp2_algo_id : Option AlgoText
  pub initial_stop_loss : Option D
  pub initial_atr : Option D
  pub initial_take_profit_1 : Option D
  pub initial_take_profit_2 : Option D

-- `next_id` is the sequence of the primary key.
pub record Trades (D : Type 0) : Type 0 where
  pub rows : List (Trade D)
  pub next_id : ℕ

abbrev pub is_counted : Status → Bool
is_counted entering = true
is_counted opened = true
is_counted partly_closed = true
is_counted _ = false

abbrev pub is_active : Status → Bool
is_active entering = true
is_active opened = true
is_active partly_closed = true
is_active closing = true
is_active _ = false

abbrev same_client_order_id : Option ClientOrderId → ClientOrderId → Bool
same_client_order_id none c = false
same_client_order_id (some b) c = b.signal == c.signal && b.retry == c.retry

abbrev pub is_open_or_partial : Status → Bool
is_open_or_partial opened = true
is_open_or_partial partly_closed = true
is_open_or_partial _ = false

abbrev is_null : {A : Type 0} → Option A → Bool
is_null none = true
is_null (some _) = false

-- What an INSERT gives.
pub record NewTrade (D : Type 0) : Type 0 where
  pub signal_id : ℕ
  pub symbol : String
  pub direction : String
  pub margin : D
  pub notional : D
  pub leverage : ℤ
  pub client_order_id : ClientOrderId

module _ {D : Type 0} where
  unfoldable pub count_active : List (Trade D) → ℕ
  count_active [] = 0
  count_active (t ∷ ts) = (if is_counted t.status then 1 else 0) + count_active ts

  unfoldable pub has_active_position : List (Trade D) → String → Bool
  has_active_position [] symbol = false
  has_active_position (t ∷ ts) symbol =
      (str_eq t.symbol symbol && is_active t.status) || has_active_position ts symbol

  unfoldable pub has_client_order_id : List (Trade D) → ClientOrderId → Bool
  has_client_order_id [] c = false
  has_client_order_id (t ∷ ts) c =
      same_client_order_id t.client_order_id c || has_client_order_id ts c

  abbrev pub entering_row : ℕ → NewTrade D → Trade D
  entering_row id n = record {
    id = id;
    signal_id = n.signal_id;
    symbol = n.symbol;
    direction = n.direction;
    margin = n.margin;
    notional = n.notional;
    leverage = n.leverage;
    status = entering;
    client_order_id = some n.client_order_id;
    entry_ts = none;
    entry_price = none;
    exit_ts = none;
    exit_price = none;
    exit_reason = none;
    realized_pnl = none;
    fees = none;
    binance_disaster_stop_order_id = none;
    binance_trail_algo_id = none;
    trail_stage = 0;
    trail_high_price = none;
    trail_activation_price = none;
    initial_oi = none;
    retry_count = 0;
    binance_tp1_algo_id = none;
    binance_tp2_algo_id = none;
    initial_stop_loss = none;
    initial_atr = none;
    initial_take_profit_1 = none;
    initial_take_profit_2 = none;
  }

  -- InsertEnteringTradeWithClientID, under trades_client_order_id_unique; a refused row still
  -- takes a number of the sequence.
  unfoldable pub insert_entering_trade : NewTrade D → Trades D → Option ℕ × Trades D
  insert_entering_trade n t =
      if has_client_order_id t.rows n.client_order_id
      then (none, record t { next_id = t.next_id + 1 })
      else (
        some t.next_id,
        record { rows = entering_row t.next_id n ∷ t.rows; next_id = t.next_id + 1 },
      )

  -- UPDATE … WHERE id = $1
  unfoldable pub update_where_id : ℕ → (Trade D → Trade D) → List (Trade D) → List (Trade D)
  update_where_id id f [] = []
  update_where_id id f (t ∷ ts) = (if t.id == id then f t else t) ∷ update_where_id id f ts

  unfoldable pub update_trade_open : Time → D → Trade D → Trade D
  update_trade_open ts price t = record t {
    status = opened;
    entry_ts = some ts;
    entry_price = some price;
  }

  unfoldable pub update_trade_failed : String → Time → Trade D → Trade D
  update_trade_failed reason ts t = record t {
    status = failed;
    exit_reason = some reason;
    exit_ts = some ts;
  }

  unfoldable pub update_trade_closing : Trade D → Trade D
  update_trade_closing t = if is_open_or_partial t.status then record t { status = closing } else t

  unfoldable pub request_manual_close : Trade D → Trade D
  request_manual_close t =
      if is_open_or_partial t.status && is_null t.exit_reason
      then record t { status = closing; exit_reason = some "manual_close" }
      else t

  unfoldable pub update_trade_closed : Time → D → String → D → D → Trade D → Trade D
  update_trade_closed ts price reason pnl fees t = record t {
    status = closed;
    exit_ts = some ts;
    exit_price = some price;
    exit_reason = some reason;
    realized_pnl = some pnl;
    fees = some fees;
  }

  unfoldable pub update_trade_trail_activate : AlgoText → D → Trade D → Trade D
  update_trade_trail_activate id price t = record t {
    trail_stage = 1;
    binance_trail_algo_id = some id;
    trail_activation_price = some price;
    trail_high_price = some price;
  }

  unfoldable pub update_trade_trail_stage : ℕ → Option AlgoText → Trade D → Trade D
  update_trade_trail_stage stage id t = record t { trail_stage = stage; binance_trail_algo_id = id }

  unfoldable pub update_trade_trail_high : D → Trade D → Trade D
  update_trade_trail_high price t = record t { trail_high_price = some price }
