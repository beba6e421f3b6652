-- ===== src/Decision/Postgres.antt =====
-- internal/collector/decision_engine.go: the adapter `decisionDataAccess`, which runs the engine on
-- the database, and what it reads elsewhere (Redis, klines, the symbol cache, the executor's
-- cooldowns), as these answer at the time of each read.
pub mod Gates
pub mod Ticks
use binance_oi_square_trader.Prelude.{
  ℕ, zero, suc, ◌+◌, ◌-◌, ◌*◌, ◌/◌, ◌%◌, ◌^◌, ◌≤◌, ◌<◌, min, String, ◌≡◌, refl, sym, ap, ◌∙◌, ◌≢◌,
  ◌↔◌, ◌⊎◌, inl, inr, Bool, true, false, not, ◌&&◌, ◌||◌, Option, none, some, List, [], ◌∷◌, ◌++◌,
  map, arith, str_eq, eq_iff, Time, Duration, second, minute, hour, Effect, pure, ◌>>=◌, ◌>>◌,
  on_error, length, get_elem?, take, drop, last_or, window, length-append, length-drop,
  length-window, All, ltb, leb, ◌==◌, if◌then◌else◌, ltb→lt, lt→ltb, leb→le, ==_iff, tests,
  Bool-cases, Option-cases, ℤ, pos, negsuc, pos_part, neg_part, sub_ℕ, neg_ℤ, ◌+ℤ◌, ◌-ℤ◌, ◌*ℤ◌,
  ltb_ℤ, eq_ℤ, leb_ℤ, size_ℤ,
}
use binance_oi_square_trader.Storage.Breaker.{trip_btc_halt, reset_halt}
use binance_oi_square_trader.Storage.Trades.{
  NewTrade, Trades, count_active, has_active_position, insert_entering_trade,
}
use binance_oi_square_trader.Storage.Db.{Db, Session, query, outside, exec, select}
use binance_oi_square_trader.Decision.Sizing.{TradingFilters}
use binance_oi_square_trader.Decision.Filters.{FilterDeps}
use binance_oi_square_trader.Decision.Engine.{Signal, EngineDeps}

pub record Surroundings (D : Type 0) : Type 0 where
  pub btc_regime : ℕ → Option D
  pub recent_signals : ℕ → Time → Option (List Signal)
  pub latest_close : ℕ → String → Option D
  pub trading_filters : ℕ → String → Option (TradingFilters D)
  pub in_cooldown : ℕ → String → Bool

-- Go's conversion of an int32 to an int16.
unfoldable pub to_int16 : ℤ → ℤ
to_int16 n = sub_ℕ ((pos_part n + 65536 - neg_part n % 65536 + 32768) % 65536) 32768

module _ {D : Type 0} where
  insert_row : NewTrade D → Db D → Option ℕ × Db D
  insert_row n db =
      let n' = record n { leverage = to_int16 n.leverage } in
      let (id, trades) = insert_entering_trade n' db.trades in (id, record db { trades = trades })

  abbrev pub postgres_filters : Surroundings D → FilterDeps D (Session D)
  postgres_filters world = record {
    get_btc_regime = outside world.btc_regime;
    get_state = select (λ db. db.breaker);
    trip_btc_halt =
        λ until crash. exec (λ db. record db { breaker = trip_btc_halt until crash db.breaker });
    reset_halt = exec (λ db. record db { breaker = reset_halt db.breaker });
    count_active = select (λ db. count_active db.trades.rows);
    has_active_position = λ symbol. select (λ db. has_active_position db.trades.rows symbol);
  }

  unfoldable pub insert_trade : NewTrade D → Effect (Session D) (Option ℕ)
  unfolding query insert_row
  insert_trade n = query (insert_row n)

  abbrev pub postgres_engine : Surroundings D → EngineDeps D (Session D)
  postgres_engine world = record {
    filter_deps = postgres_filters world;
    get_recent_entered_signals = λ since. outside (λ n. world.recent_signals n since);
    get_latest_close = λ symbol. outside (λ n. world.latest_close n symbol);
    get_trading_filters = λ symbol. outside (λ n. world.trading_filters n symbol);
    insert_entering_trade = insert_trade;
    is_in_entry_cooldown = λ symbol. outside (λ n. world.in_cooldown n symbol);
  }
