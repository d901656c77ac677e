-- ===== src/Risk.antt =====
-- app/core/risk_config.py and the data of app/services/risk_engine.py: the last checks between the
-- AI's decision and an order. The settings are validated: the boundaries of the trading window are
-- the minutes of the day that their "HH:MM" texts stand for, and `now` is the minute of the local
-- time of day. Messages are without the numbers that the source prints in some of them.
pub mod Technical
pub mod Answer
pub mod Gates
pub mod Evaluate
pub mod Closed
pub mod Allowed
pub mod Buy
pub mod Regime
pub mod Layers
use trade_ai_server.Prelude.{
  ℕ, Bool, true, false, not, ◌&&◌, ◌||◌, Option, none, some, List, [], ◌∷◌, String, select,
  if◌then◌else◌, ltb, leb, map, is_none,
}
use trade_ai_server.Prelude.Int.{ℤ}
use trade_ai_server.Prelude.Text.{str_eq, upper, strip, split, member}
use trade_ai_server.Number.{Number}
use trade_ai_server.Sizing.{AccountSizingContext, TradeSizingContext, PositionSizingResult}

-- the settings of `RiskConfig` that the engine reads
pub record RiskConfig (D : Type 0) : Type 0 where
  pub allowed_symbols : String
  pub decline_symbols : String
  pub locked_long_term_symbols : String
  pub max_position_value_per_symbol : D
  pub max_daily_trade_count : ℕ
  pub min_confidence_for_buy : D
  pub min_confidence_for_sell : D
  pub require_alpha_trend_alignment : Bool
  pub require_indicator_consensus_alignment : Bool
  pub min_indicator_consensus_count : ℕ
  pub max_natr_for_buy : D
  pub max_depth_queue_drop_pct_for_buy : D
  pub max_spread_pct_for_buy : D
  pub min_depth_bid_ask_ratio_top10_for_buy : D
  pub max_depth_sell_pressure_score_for_buy : D
  pub block_buy_on_strong_sell_pressure : Bool
  pub block_buy_on_near_ask_wall : Bool
  pub near_wall_distance_pct : D
  pub max_quote_age_seconds_for_buy : D
  pub max_depth_age_seconds_for_buy : D
  pub allow_sell_long_term : Bool
  pub allow_short_selling : Bool
  pub enable_trading_after : ℕ
  pub disable_trading_after : ℕ

-- `SignalAction`
pub data SignalAction : Type 0 where
  buy : SignalAction
  sell : SignalAction
  wait : SignalAction

abbrev pub is_buy : SignalAction → Bool
is_buy buy = true
is_buy sell = false
is_buy wait = false

abbrev pub is_sell : SignalAction → Bool
is_sell buy = false
is_sell sell = true
is_sell wait = false

-- `action in (SignalAction.BUY, SignalAction.SELL)`
abbrev pub is_trade : SignalAction → Bool
is_trade buy = true
is_trade sell = true
is_trade wait = false

-- `action.value`
abbrev pub value : SignalAction → String
value buy = "BUY"
value sell = "SELL"
value wait = "WAIT"

-- `OrderType`
pub data OrderType : Type 0 where
  market_order : OrderType
  limit_order : OrderType
  no_order : OrderType

-- `EntryRange`
pub record EntryRange (D : Type 0) : Type 0 where
  pub min : D
  pub max : D

-- the fields of `SignalRequest` that the engine reads
pub record SignalRequest (D : Type 0) : Type 0 where
  pub request_id : String
  pub symbol : String
  pub last_price : D
  pub bot_position_qty : ℤ
  pub total_account_qty : ℤ
  pub account_available_qty : ℤ
  pub locked_long_term_qty : ℤ
  pub daily_trade_count : ℕ
  pub trade_eligible : Bool
  pub account_sizing_context : Option (AccountSizingContext D)
  pub quote_age_seconds : Option D
  pub depth_reliable : Option Bool
  pub depth_age_seconds : Option D
  pub spread_pct : Option D
  pub depth_bid_ask_ratio_top10 : Option D
  pub depth_sell_pressure_score : Option D
  pub depth_order_book_signal : Option String
  pub depth_nearest_ask_wall_distance_pct : Option D
  pub natr : Option D
  pub depth_bid_top5_drop_metric_ready : Option Bool
  pub depth_bid_top5_drop_pct : Option D
  pub depth_bid_top5_drop_recent_pcts : Option (List (Option D))
  pub depth_queue_drop_pct : Option D
  pub alpha_trend_signal : Option String
  pub indicator_consensus : Option String
  pub indicator_buy_count : Option ℕ
  pub indicator_sell_count : Option ℕ

-- `RiskDecision`
pub record RiskDecision (D : Type 0) : Type 0 where
  pub action : SignalAction
  pub confidence : D
  pub risk_score : D
  pub reason : String
  pub qty : ℤ
  pub entry_range : Option (EntryRange D)
  pub stop_loss : Option D
  pub target_price : Option D
  pub target_allocation_pct : Option D

-- `SignalResponse`
pub record SignalResponse (D : Type 0) : Type 0 where
  pub request_id : String
  pub symbol : String
  pub action : SignalAction
  pub qty : ℤ
  pub order_type : OrderType
  pub price : Option D
  pub confidence_score : D
  pub risk_score : D
  pub allow_order : Bool
  pub reason : String
  pub entry_range : Option (EntryRange D)
  pub stop_loss : Option D
  pub target_price : Option D
  pub target_allocation_pct : Option D

-- the response, and what `evaluate` leaves in the engine
pub record Evaluation (D : Type 0) : Type 0 where
  pub response : SignalResponse D
  pub last_sizing_result : Option (PositionSizingResult D)
  pub last_sizing_trade : Option (TradeSizingContext D)
  pub last_buy_viability_passed : Bool

-- `_to_set`
unfoldable pub to_set : String → List String
to_set raw = map (λ s. upper (strip s)) (select (λ s. not (str_eq (strip s) "")) (split b',' raw))

abbrev pub is_empty {ℓ} : {A : Type ℓ} → List A → Bool
is_empty [] = true
is_empty (_ ∷ _) = false

module _ {D : Type 0} ⦃n : Number D⦄ (config : RiskConfig D) where
  unfoldable pub is_symbol_declined : String → Bool
  unfolding to_set
  is_symbol_declined symbol = member (upper (strip symbol)) (to_set config.decline_symbols)

  unfoldable pub is_symbol_allowed : String → Bool
  unfolding to_set
  is_symbol_allowed symbol =
      let normalized = upper (strip symbol) in
      let allowed = to_set config.allowed_symbols in
      if member normalized (to_set config.decline_symbols)
      then false
      else if is_empty allowed
      then true
      else member normalized allowed

  unfoldable pub is_long_term_locked : String → Bool
  unfolding to_set
  is_long_term_locked symbol =
      member (upper (strip symbol)) (to_set config.locked_long_term_symbols)

  unfoldable pub can_trade_now : ℕ → Bool
  can_trade_now now = leb config.enable_trading_after now && ltb now config.disable_trading_after

  unfoldable pub get_min_confidence : String → D
  get_min_confidence action =
      let word = upper (strip action) in
      if str_eq word "BUY"
      then config.min_confidence_for_buy
      else if str_eq word "SELL"
      then config.min_confidence_for_sell
      else n.literal 100 0
