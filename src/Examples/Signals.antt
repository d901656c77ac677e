-- ===== src/Examples/Signals.antt =====
-- The answers of the risk engine at concrete inputs, over whole numbers.
use trade_ai_server.Prelude.{◌≡◌, true, false, none, some, refl}
use trade_ai_server.Prelude.Int.{ℤ, pos, ◌+ℤ◌, ◌-ℤ◌, ◌*ℤ◌}
use trade_ai_server.Number.Whole.{whole_number, div_ℤ, ℤ-IsOrdered, ℤ-IsExact}
use trade_ai_server.EffectiveRisk.{resolved, effective}
use trade_ai_server.EffectiveRisk.Layer.{profile_values}
use trade_ai_server.Sizing.{AccountSizingContext, smallest}
use trade_ai_server.Risk.{
  RiskConfig, SignalRequest, RiskDecision, buy, sell, is_symbol_allowed, is_symbol_declined,
  is_long_term_locked, can_trade_now, get_min_confidence, to_set,
}
use trade_ai_server.Risk.Answer.{sizing_trade, sizing_limits, price_checks}
use trade_ai_server.Risk.Gates.{
  Call, allow_order, confidence_ok, research_checks, trade_checks, threshold, clamped_qty,
  is_regime, is_demo_override, sellable_qty, projected_value,
}
use trade_ai_server.Risk.Evaluate.{evaluate, trade_reason, order_price, reasons}
use trade_ai_server.Risk.Technical.{technical_block_reason, normalise_signal}
use trade_ai_server.Preflight.{is_percent, parse_finite, first_reason, bid_liquidity_block_reason}
use trade_ai_server.Prelude.Text.{split, strip, upper, is_part, join}
use trade_ai_server.Sizing.Calculate.{
  known, lots, guards, capital_base, risk_budget, raw_stop_distance, raw_stop_pct, slippage_pct,
  slippage_buffer, effective_stop_distance, cash_budget, committed_symbol_value,
  remaining_symbol_capacity, committed_bot_capital, remaining_bot_budget, target_position_value,
  remaining_ai_target, candidates, final_qty, order_value, estimated_loss, accepted, sized,
  measured, calculate_buy_size,
}
use trade_ai_server.Risk.Closed.{IsClosed, evaluate-IsClosed}
use trade_ai_server.Risk.Allowed.{IsSafeSell, sell-IsSafeSell}
use trade_ai_server.Risk.Buy.{IsSafeBuy, buy-IsSafeBuy}
use trade_ai_server.Risk.Regime.{sell_in_any_regime}
use trade_ai_server.Risk.Layers.{IsWithin, buy-IsWithin_layers}
use trade_ai_server.Examples.Limits.{
  environment, system, profile, print_of, limits, resolved_limits,
}

abbrev config : RiskConfig ℤ
config = record {
  allowed_symbols = "THYAO,akbnk ";
  decline_symbols = "";
  locked_long_term_symbols = "ASELS,EREGL";
  max_position_value_per_symbol = pos 3000;
  max_daily_trade_count = 3;
  min_confidence_for_buy = pos 75;
  min_confidence_for_sell = pos 70;
  require_alpha_trend_alignment = true;
  require_indicator_consensus_alignment = true;
  min_indicator_consensus_count = 4;
  max_natr_for_buy = pos 8;
  max_depth_queue_drop_pct_for_buy = pos 35;
  max_spread_pct_for_buy = pos 1;
  min_depth_bid_ask_ratio_top10_for_buy = pos 1;
  max_depth_sell_pressure_score_for_buy = pos 80;
  block_buy_on_strong_sell_pressure = true;
  block_buy_on_near_ask_wall = false;
  near_wall_distance_pct = pos 1;
  max_quote_age_seconds_for_buy = pos 30;
  max_depth_age_seconds_for_buy = pos 15;
  allow_sell_long_term = false;
  allow_short_selling = false;
  enable_trading_after = 570;
  disable_trading_after = 1050;
}

abbrev account : AccountSizingContext ℤ
account = record {
  account_equity_tl = some (pos 100000);
  effective_available_cash_tl = some (pos 50000);
  reserved_cash_tl = pos 0;
  current_symbol_qty = pos 0;
  current_symbol_value_tl = some (pos 0);
  total_account_exposure_tl = some (pos 0);
  current_bot_symbol_value_tl = some (pos 0);
  total_bot_exposure_tl = some (pos 0);
  account_data_age_seconds = some (pos 1);
  account_data_reliable = true;
  current_symbol_reserved_cash_tl = pos 0;
}

abbrev request : SignalRequest ℤ
request = record {
  request_id = "r1";
  symbol = "thyao";
  last_price = pos 100;
  bot_position_qty = pos 7;
  total_account_qty = pos 12;
  account_available_qty = pos 10;
  locked_long_term_qty = pos 5;
  daily_trade_count = 1;
  trade_eligible = true;
  account_sizing_context = some account;
  quote_age_seconds = some (pos 2);
  depth_reliable = some true;
  depth_age_seconds = some (pos 2);
  spread_pct = some (pos 0);
  depth_bid_ask_ratio_top10 = some (pos 1);
  depth_sell_pressure_score = none;
  depth_order_book_signal = some "BALANCED";
  depth_nearest_ask_wall_distance_pct = none;
  natr = some (pos 3);
  depth_bid_top5_drop_metric_ready = none;
  depth_bid_top5_drop_pct = none;
  depth_bid_top5_drop_recent_pcts = none;
  depth_queue_drop_pct = none;
  alpha_trend_signal = none;
  indicator_consensus = some "neutral";
  indicator_buy_count = some 2;
  indicator_sell_count = some 1;
}

abbrev buy_decision : RiskDecision ℤ
buy_decision = record {
  action = buy;
  confidence = pos 90;
  risk_score = pos 20;
  reason = "breakout";
  qty = pos 0;
  entry_range = some (record { min = pos 99; max = pos 100 });
  stop_loss = some (pos 95);
  target_price = some (pos 110);
  target_allocation_pct = some (pos 20);
}

abbrev buy_call : Call ℤ
buy_call = record {
  config = config;
  effective_config = some limits;
  now = 600;
  request = request;
  decision = buy_decision;
  market_regime = some " downtrend ";
  account_type = some "DEMO";
  allow_demo_downtrend_buy = true;
}

abbrev sell_call : Call ℤ
sell_call = record buy_call { decision = record buy_decision { action = sell } }

abbrev real_call : Call ℤ
real_call = record buy_call { account_type = some "REAL" }

buy_allowed : (evaluate buy_call).response.allow_order ≡ true
unfolding evaluate allow_order confidence_ok research_checks trade_checks trade_reason threshold
    clamped_qty is_regime is_demo_override sellable_qty projected_value order_price reasons
    sizing_trade sizing_limits price_checks is_symbol_allowed is_symbol_declined is_long_term_locked
    can_trade_now get_min_confidence to_set split strip upper is_part join technical_block_reason
    normalise_signal first_reason bid_liquidity_block_reason known lots guards capital_base
    risk_budget raw_stop_distance raw_stop_pct slippage_pct slippage_buffer effective_stop_distance
    cash_budget committed_symbol_value remaining_symbol_capacity committed_bot_capital
    remaining_bot_budget target_position_value remaining_ai_target candidates final_qty order_value
    estimated_loss accepted sized measured calculate_buy_size effective resolved profile_values
    smallest div_ℤ ◌*ℤ◌ ◌-ℤ◌ ◌+ℤ◌ is_percent parse_finite
buy_allowed = refl

sell_allowed : (evaluate sell_call).response.allow_order ≡ true
unfolding evaluate allow_order confidence_ok research_checks trade_checks trade_reason threshold
    clamped_qty is_regime is_demo_override sellable_qty projected_value order_price reasons
    sizing_trade sizing_limits price_checks is_symbol_allowed is_symbol_declined is_long_term_locked
    can_trade_now get_min_confidence to_set split strip upper is_part join technical_block_reason
    normalise_signal first_reason bid_liquidity_block_reason known lots guards capital_base
    risk_budget raw_stop_distance raw_stop_pct slippage_pct slippage_buffer effective_stop_distance
    cash_budget committed_symbol_value remaining_symbol_capacity committed_bot_capital
    remaining_bot_budget target_position_value remaining_ai_target candidates final_qty order_value
    estimated_loss accepted sized measured calculate_buy_size effective resolved profile_values
    smallest div_ℤ ◌*ℤ◌ ◌-ℤ◌ ◌+ℤ◌
sell_allowed = refl

real_refused : (evaluate real_call).response.allow_order ≡ false
unfolding evaluate allow_order confidence_ok research_checks trade_checks trade_reason threshold
    clamped_qty is_regime is_demo_override sellable_qty projected_value order_price reasons
    sizing_trade sizing_limits price_checks is_symbol_allowed is_symbol_declined is_long_term_locked
    can_trade_now get_min_confidence to_set split strip upper is_part join technical_block_reason
    normalise_signal first_reason bid_liquidity_block_reason known lots guards capital_base
    risk_budget raw_stop_distance raw_stop_pct slippage_pct slippage_buffer effective_stop_distance
    cash_budget committed_symbol_value remaining_symbol_capacity committed_bot_capital
    remaining_bot_budget target_position_value remaining_ai_target candidates final_qty order_value
    estimated_loss accepted sized measured calculate_buy_size effective resolved profile_values
    smallest div_ℤ ◌*ℤ◌ ◌-ℤ◌ ◌+ℤ◌
real_refused = refl

evaluate-IsClosed_example : IsClosed (evaluate real_call).response
evaluate-IsClosed_example = evaluate-IsClosed real_call real_refused

sell-IsSafeSell_example : IsSafeSell sell_call
sell-IsSafeSell_example = sell-IsSafeSell sell_call refl sell_allowed

sell_in_any_regime_example :
    evaluate (record sell_call {
      market_regime = none;
      account_type = none;
      allow_demo_downtrend_buy = false;
    })
    ≡ evaluate sell_call
sell_in_any_regime_example = sell_in_any_regime sell_call none none false refl

buy-IsSafeBuy_example : IsSafeBuy buy_call limits
buy-IsSafeBuy_example = buy-IsSafeBuy buy_call limits refl refl buy_allowed

buy-IsWithin_layers_example :
    (price : ℤ) × ((evaluate buy_call).response.price ≡ some price)
    × IsWithin (evaluate buy_call).response.qty price environment
    × IsWithin (evaluate buy_call).response.qty price system
    × IsWithin (evaluate buy_call).response.qty price (profile_values profile)
buy-IsWithin_layers_example =
    buy-IsWithin_layers ℤ-IsOrdered ℤ-IsExact buy_call limits print_of environment system "v1"
      profile resolved_limits refl refl buy_allowed
