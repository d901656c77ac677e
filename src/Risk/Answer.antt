-- ===== src/Risk/Answer.antt =====
-- The answers of `RiskEngine` (app/services/risk_engine.py), and what `evaluate` builds for the sizing.
use trade_ai_server.Prelude.{
  Bool, false, ◌&&◌, ◌||◌, none, some, List, [], ◌∷◌, String, if◌then◌else◌, is_none,
}
use trade_ai_server.Prelude.Int.{pos}
use trade_ai_server.Prelude.Text.{str_eq, join, is_part}
use trade_ai_server.Number.{Number, nought}
use trade_ai_server.Sizing.{TradeSizingContext, RiskLimits}
use trade_ai_server.EffectiveRisk.{EffectiveRiskConfig}
use trade_ai_server.Risk.{
  wait, no_order, EntryRange, SignalRequest, RiskDecision, SignalResponse, Evaluation,
}

-- the longer text, unless the decision says nothing or what it says is a part of the text
unfoldable pub with_reason : String → String → String → String
with_reason said text longer = if str_eq said "" || is_part said text then text else longer

-- the texts whose test holds
unfoldable pub noted : List (Bool × String) → List String
noted [] = []
noted ((test, text) ∷ rest) = if test then text ∷ noted rest else noted rest

module _ {D : Type 0} ⦃n : Number D⦄ where
  open n use {literal, add, sub, mul, div, lt, le, of_int, to_decimal}

  -- the effective configuration as the argument `limits` of `calculate_buy_size`
  unfoldable pub sizing_limits : EffectiveRiskConfig D → RiskLimits D
  sizing_limits config = record {
    risk_per_trade_pct = config.limits.risk_per_trade_pct;
    total_bot_capital_budget_tl = config.limits.total_bot_capital_budget_tl;
    max_cash_utilization_pct = config.limits.max_cash_utilization_pct;
    max_position_value_per_symbol = config.limits.max_position_value_per_symbol;
    max_order_value_tl = config.limits.max_order_value_tl;
    max_qty_per_order = config.limits.max_qty_per_order;
    min_order_value_tl = config.limits.min_order_value_tl;
    min_stop_distance_pct = config.limits.min_stop_distance_pct;
    max_stop_distance_pct = config.limits.max_stop_distance_pct;
    minimum_stop_slippage_pct = config.limits.minimum_stop_slippage_pct;
    maximum_stop_slippage_pct = config.limits.maximum_stop_slippage_pct;
    profile_stop_slippage_pct = config.limits.profile_stop_slippage_pct;
    max_account_data_age_seconds = config.limits.max_account_data_age_seconds;
    minimum_buy_confidence = config.limits.minimum_buy_confidence;
    sizing_enabled = config.limits.sizing_enabled;
    system_config_version = some config.system_config_version;
    trade_profile_code = some config.trade_profile_code;
  }

  -- `_research_only`
  unfoldable pub research_only : SignalRequest D → RiskDecision D → String → SignalResponse D
  unfolding with_reason
  research_only request decision reason = record {
    request_id = request.request_id;
    symbol = request.symbol;
    action = decision.action;
    qty = pos 0;
    order_type = no_order;
    price = none;
    confidence_score = decision.confidence;
    risk_score = decision.risk_score;
    allow_order = false;
    reason = with_reason decision.reason reason (join "; " (decision.reason ∷ reason ∷ []));
    entry_range = decision.entry_range;
    stop_loss = decision.stop_loss;
    target_price = decision.target_price;
    target_allocation_pct = decision.target_allocation_pct;
  }

  -- `_block`
  unfoldable pub block : SignalRequest D → String → SignalResponse D
  block request reason = record {
    request_id = request.request_id;
    symbol = request.symbol;
    action = wait;
    qty = pos 0;
    order_type = no_order;
    price = none;
    confidence_score = nought;
    risk_score = nought;
    allow_order = false;
    reason = reason;
    entry_range = none;
    stop_loss = none;
    target_price = none;
    target_allocation_pct = none;
  }

  -- a response of a call that does not reach the sizing
  unfoldable pub unsized : SignalResponse D → Evaluation D
  unsized response = record {
    response = response;
    last_sizing_result = none;
    last_sizing_trade = none;
    last_buy_viability_passed = false;
  }

  -- The relations of a BUY's prices.
  unfoldable pub price_checks : EntryRange D → D → D → List (Bool × String)
  price_checks entry stop target =
      let reward = sub (to_decimal target) (to_decimal entry.max) in
      let risk = sub (to_decimal entry.max) (to_decimal stop) in
      (lt entry.max entry.min, "BUY blocked: entryRange.min > entryRange.max")
      ∷ (le entry.min stop, "BUY blocked: stopLoss must be below entryRange.min")
      ∷ (le target entry.max, "BUY blocked: targetPrice must be above entryRange.max")
      ∷ (
        lt nought risk && lt (div reward risk) (literal 15 1),
        "BUY blocked: reward/risk below minimum",
      )
      ∷ []

  -- the names of the levels that a BUY lacks
  unfoldable pub missing_levels : RiskDecision D → List String
  unfolding noted
  missing_levels decision = noted (
      (is_none decision.entry_range, "entryRange")
      ∷ (is_none decision.stop_loss, "stopLoss")
      ∷ (is_none decision.target_price, "targetPrice")
      ∷ [])

  -- the trade that is sized
  unfoldable pub sizing_trade :
      SignalRequest D → RiskDecision D → EntryRange D → D → D → TradeSizingContext D
  sizing_trade request decision entry stop target = record {
    symbol = request.symbol;
    entry_price = entry.max;
    stop_loss = stop;
    target_price = target;
    confidence = to_decimal decision.confidence;
    current_price = to_decimal request.last_price;
    target_allocation_pct = decision.target_allocation_pct;
  }
