-- ===== src/Signal/Compound.antt =====
-- internal/signal/compound.go. The reads of the data, the insert and the runtime configuration are
-- the interface `SignalDataAccess`; an empty rejection reason is `none`.
use binance_oi_square_trader.Prelude.{
  ℤ, ℕ, ◌*◌, String, ◌≡◌, Bool, true, false, not, Option, none, some, List, Time, Duration, minute,
  Effect, pure, ◌>>=◌, on_error, ◌==◌, if◌then◌else◌,
}
use binance_oi_square_trader.Decimal.{Decimal}
use binance_oi_square_trader.Signal.OiSurge.{OiSurgeConfig, OiSurgeResult, OiFailure, oi_surge}
use binance_oi_square_trader.Signal.SquareHot.{
  SquareHotConfig, SquareHotResult, ok, invalid_config, panic,
}
use binance_oi_square_trader.Signal.SquareHot.Modes.{square_hot}

pub data Verdict : Type 0 where
  entered_full entered_half rejected : Verdict

pub record SignalRecord (D : Type 0) : Type 0 where
  pub ts : Time
  pub symbol : String
  pub oi_triggered : Bool
  pub oi_data : OiSurgeResult D
  pub square_hot : Bool
  pub square_data : SquareHotResult D
  pub decision : Verdict
  pub rejection_reason : Option OiFailure

pub record CompoundConfig (D : Type 0) : Type 0 where
  pub oi_history_limit : ℕ
  pub hashtag_history_limit : ℕ
  pub prior_ago : Duration
  pub oi_surge_cfg : OiSurgeConfig D
  pub square_hot_cfg : SquareHotConfig D

-- the two knobs of the runtime configuration that a signal reads
pub record RuntimeKnobs (D : Type 0) : Type 0 where
  pub oi_growth_from_min_pct : D
  pub square_hot_multiplier : D

pub record SignalDataAccess (S D : Type 0) : Type 0 where
  pub get_oi_history : String → ℕ → Effect S (Option (List D))
  pub get_hashtag_history : String → ℕ → Effect S (Option (List D))
  pub get_klines_close_now_and_prior : String → Duration → Effect S (Option (D × D))
  pub runtime : S → Option (RuntimeKnobs D)
  pub insert_signal : SignalRecord D → Effect S Bool

-- Why an evaluation gives an error, or does not return (`slice_out_of_range`).
pub data SignalError : Type 0 where
  oi_history_failed hashtag_history_failed klines_failed : SignalError
  oi_surge_failed square_hot_failed insert_failed slice_out_of_range : SignalError

pub data Evaluated (D : Type 0) : Type 0 where
  evaluated : SignalRecord D → Evaluated D
  stopped : SignalError → Evaluated D

unfoldable pub decide : Bool → Bool → Verdict
decide true true = entered_full
decide true false = entered_half
decide false _ = rejected

module _ {D : Type 0} ⦃d : Decimal D⦄ where
  unfoldable pub compound_defaults : CompoundConfig D → CompoundConfig D
  compound_defaults cfg = record cfg {
    oi_history_limit = if cfg.oi_history_limit == 0 then 15 else cfg.oi_history_limit;
    hashtag_history_limit =
        if cfg.hashtag_history_limit == 0 then 100 else cfg.hashtag_history_limit;
    prior_ago = if cfg.prior_ago == 0 then 60 * minute else cfg.prior_ago;
  }

  unfoldable pub override_oi : Option (RuntimeKnobs D) → OiSurgeConfig D → OiSurgeConfig D
  override_oi none oi = oi
  override_oi (some rt) oi =
      if not (d.is_zero rt.oi_growth_from_min_pct)
      then record oi { growth_from_min_min = rt.oi_growth_from_min_pct }
      else oi

  unfoldable pub override_hot : Option (RuntimeKnobs D) → SquareHotConfig D → SquareHotConfig D
  override_hot none hot = hot
  override_hot (some rt) hot =
      if not (d.is_zero rt.square_hot_multiplier)
      then record hot {
        standard_ratio_threshold = rt.square_hot_multiplier;
        medium_ratio_threshold = rt.square_hot_multiplier;
        short_ratio_threshold = rt.square_hot_multiplier;
      }
      else hot

  unfoldable pub make_record : Time → String → OiSurgeResult D → SquareHotResult D → SignalRecord D
  unfolding decide
  make_record ts symbol oi hot = record {
    ts = ts;
    symbol = symbol;
    oi_triggered = oi.triggered;
    oi_data = oi;
    square_hot = hot.hot;
    square_data = hot;
    decision = decide oi.triggered hot.hot;
    rejection_reason = if oi.triggered then none else oi.failed_reason;
  }

  module _ {S : Type 0} (hours : ℤ → D) (deps : SignalDataAccess S D) where
    unfoldable pub store_signal : SignalRecord D → Effect S (Evaluated D)
    store_signal rec s =
        let (written, after) = deps.insert_signal rec s in
        (if written then evaluated rec else stopped insert_failed, after)

    -- the pure algorithms, on the data that was read
    unfoldable pub judge_signal :
        CompoundConfig D → String → Time → List D → List D → D × D → Effect S (Evaluated D)
    judge_signal cfg symbol ts oi hashtags closes s =
        let rt = deps.runtime s in
        elim (oi_surge oi closes.0 closes.1 (override_oi rt cfg.oi_surge_cfg)) [
          | none ↦ (stopped oi_surge_failed, s)
          | some surge ↦ elim (square_hot hours hashtags (override_hot rt cfg.square_hot_cfg)) [
            | ok hot ↦ store_signal (make_record ts symbol surge hot) s
            | invalid_config ↦ (stopped square_hot_failed, s)
            | panic ↦ (stopped slice_out_of_range, s)
          ]
        ]

    unfoldable pub evaluate : CompoundConfig D → String → Time → Effect S (Evaluated D)
    unfolding store_signal
    evaluate config symbol ts =
        let cfg = compound_defaults config in
        deps.get_oi_history symbol cfg.oi_history_limit >>= λ oi.
        on_error oi (pure (stopped oi_history_failed)) λ oi.
          deps.get_hashtag_history symbol cfg.hashtag_history_limit >>= λ hashtags.
          on_error hashtags (pure (stopped hashtag_history_failed)) λ hashtags.
            deps.get_klines_close_now_and_prior symbol cfg.prior_ago >>= λ closes.
            on_error closes (pure (stopped klines_failed))
              λ closes. judge_signal cfg symbol ts oi hashtags closes

    -- What the pure algorithms make of data, and its insert, which ends in the given state.
    record IsJudged (cfg : CompoundConfig D) (symbol : String) (ts : Time) (oi hashtags : List D)
        (closes : D × D) (before : S) (rec : SignalRecord D) (after : S) : Type 0 where
      surge_exact :
          oi_surge oi closes.0 closes.1 (override_oi (deps.runtime before) cfg.oi_surge_cfg)
          ≡ some rec.oi_data
      hot_exact :
          square_hot hours hashtags (override_hot (deps.runtime before) cfg.square_hot_cfg)
          ≡ ok rec.square_data
      made : rec ≡ make_record ts symbol rec.oi_data rec.square_data
      inserted : deps.insert_signal rec before ≡ (true, after)

    -- What a record comes from, when its evaluation starts in one state and ends in the other: the
    -- history of the open interest, that of the hashtag and the two closes, read in this order, each
    -- from the state that the read before it left.
    pub record IsEvaluated (cfg : CompoundConfig D) (symbol : String) (ts : Time) (start : S)
        (rec : SignalRecord D) (after : S) : Type 0 where
      pub first : S
      pub second : S
      pub before : S
      pub oi : List D
      pub hashtags : List D
      pub closes : D × D
      pub oi_read : deps.get_oi_history symbol cfg.oi_history_limit start ≡ (some oi, first)
      pub hashtags_read :
          deps.get_hashtag_history symbol cfg.hashtag_history_limit first ≡ (some hashtags, second)
      pub closes_read :
          deps.get_klines_close_now_and_prior symbol cfg.prior_ago second ≡ (some closes, before)
      pub surge_exact :
          oi_surge oi closes.0 closes.1 (override_oi (deps.runtime before) cfg.oi_surge_cfg)
          ≡ some rec.oi_data
      pub hot_exact :
          square_hot hours hashtags (override_hot (deps.runtime before) cfg.square_hot_cfg)
          ≡ ok rec.square_data
      pub made : rec ≡ make_record ts symbol rec.oi_data rec.square_data
      pub inserted : deps.insert_signal rec before ≡ (true, after)
