-- ===== src/Risk/Evaluate.antt =====
-- `RiskEngine.evaluate` of app/services/risk_engine.py after its gates, and as a whole. The action is
-- always a `SignalAction`, so that the branch for an unknown action is not there; the quantities are
-- integers, so that the one for a sellable quantity below one lot is not there either.
use trade_ai_server.Prelude.{
  true, not, ◌&&◌, Option, none, some, List, [], ◌∷◌, String, if◌then◌else◌, first_block, is_none,
}
use trade_ai_server.Prelude.Int.{ℤ, pos}
use trade_ai_server.Prelude.Text.{str_eq, join}
use trade_ai_server.Number.{Number}
use trade_ai_server.Sizing.{AccountSizingContext, TradeSizingContext, RiskLimits}
use trade_ai_server.Sizing.Calculate.{calculate_buy_size}
use trade_ai_server.Preflight.{first_reason}
use trade_ai_server.EffectiveRisk.{EffectiveRiskConfig}
use trade_ai_server.Risk.{
  SignalAction, buy, sell, wait, is_buy, is_sell, is_trade, value, limit_order, no_order,
  EntryRange, SignalResponse, Evaluation,
}
use trade_ai_server.Risk.Technical.{technical_block_reason}
use trade_ai_server.Risk.Answer.{
  with_reason, noted, sizing_limits, research_only, block, unsized, price_checks, missing_levels,
  sizing_trade,
}
use trade_ai_server.Risk.Gates.{
  Call, research_checks, is_regime, clamped_qty, trade_checks, confidence_ok, allow_order,
}

module _ {D : Type 0} ⦃n : Number D⦄ (call : Call D) where
  open n use {literal, add, mul, lt, le, of_int}
  open call use {
    config, effective_config, now, request, decision, market_regime, account_type,
    allow_demo_downtrend_buy,
  }

  -- `reasons`
  unfoldable pub reasons : List String
  unfolding noted
  reasons = noted (
      (
        is_buy decision.action && is_regime call "DOWNTREND",
        "DEMO policy override: BUY allowed while market index is in DOWNTREND",
      )
      ∷ (
        is_buy decision.action && is_regime call "HIGH_VOLATILITY",
        "Market index HIGH_VOLATILITY — BUY confidence threshold +15",
      )
      ∷ (is_sell decision.action, "SELL qty deterministically clamped")
      ∷ (not (confidence_ok call), "Confidence < threshold")
      ∷ [])

  -- `base_reason`
  unfoldable pub final_reason : List String → String
  unfolding with_reason
  final_reason [] = if str_eq decision.reason "" then "Risk checks passed" else decision.reason
  final_reason (r ∷ rs) =
      with_reason decision.reason (join "; " (r ∷ rs)) (join "; " (decision.reason ∷ r ∷ rs))

  -- the limit price: the end of the entry range of a BUY, the last price of a SELL
  unfoldable pub order_price : SignalAction → Option (EntryRange D) → Option D
  order_price buy (some entry) = some entry.max
  order_price buy none = none
  order_price sell _ = some request.last_price
  order_price wait _ = none

  -- the response that follows the gates, with this quantity
  unfoldable pub passed : ℤ → SignalResponse D
  unfolding order_price final_reason reasons
  passed qty =
      let price = order_price decision.action decision.entry_range in
      if allow_order call && (is_trade decision.action && is_none price)
      then block request
          (join " " (value decision.action ∷ "blocked: cannot determine limit price" ∷ []))
      else record {
        request_id = request.request_id;
        symbol = request.symbol;
        action = decision.action;
        qty = if allow_order call then qty else pos 0;
        order_type = if allow_order call then limit_order else no_order;
        price = if allow_order call then price else none;
        confidence_score = decision.confidence;
        risk_score = decision.risk_score;
        allow_order = allow_order call;
        reason = final_reason reasons;
        entry_range = if allow_order call then decision.entry_range else none;
        stop_loss = if allow_order call then decision.stop_loss else none;
        target_price = if allow_order call then decision.target_price else none;
        target_allocation_pct = if allow_order call then decision.target_allocation_pct else none;
      }

  -- A BUY whose trade is sized.
  unfoldable pub sized_buy :
      AccountSizingContext D → TradeSizingContext D → RiskLimits D → Evaluation D
  unfolding block passed
  sized_buy account trade limits =
      let result = calculate_buy_size account trade limits in
      record {
        response = if result.allowed then passed result.qty else block request result.reason;
        last_sizing_result = some result;
        last_sizing_trade = some trade;
        last_buy_viability_passed = true;
      }

  -- A BUY whose prices have passed, with an effective configuration or without.
  unfoldable pub viable_buy :
      Option (EffectiveRiskConfig D)
      → Option (AccountSizingContext D)
      → TradeSizingContext D
      → Evaluation D
  unfolding unsized sized_buy
  viable_buy none _ _ =
      let result = unsized (passed decision.qty) in
      record result { last_buy_viability_passed = true }
  viable_buy (some _) none _ =
      unsized
        (block request "BUY blocked: AccountSizingContext unavailable; TASK 1B adapter required")
  viable_buy (some effective) (some account) trade =
      sized_buy account trade (sizing_limits effective)

  -- ... after the checks of its prices
  unfoldable pub checked_buy : Option String → TradeSizingContext D → Evaluation D
  unfolding viable_buy
  checked_buy (some reason) trade = unsized (block request reason)
  checked_buy none trade =
      if allow_order call
      then viable_buy effective_config request.account_sizing_context trade
      else unsized (passed decision.qty)

  unfoldable pub priced_buy : Option (EntryRange D) → Option D → Option D → Evaluation D
  unfolding checked_buy
  priced_buy (some entry) (some stop) (some target) =
      checked_buy (first_block (price_checks entry stop target))
        (sizing_trade request decision entry stop target)
  priced_buy _ _ _ =
      unsized (
        block request
          (join " " ("BUY blocked: missing" ∷ join ", " (missing_levels decision) ∷ [])))

  -- the part of `evaluate` that follows the confidence
  unfoldable pub decided : SignalAction → Evaluation D
  unfolding priced_buy
  decided buy = priced_buy decision.entry_range decision.stop_loss decision.target_price
  decided sell = unsized (passed (clamped_qty call sell))
  decided wait = unsized (passed (clamped_qty call wait))

  unfoldable pub trade_reason : Option String
  trade_reason =
      first_reason (first_block (trade_checks call))
        (technical_block_reason config request decision.action)

  unfoldable pub traded : Option String → Evaluation D
  unfolding decided
  traded (some reason) = unsized (block request reason)
  traded none = decided decision.action

  unfoldable pub researched : Option String → Evaluation D
  unfolding traded
  researched (some reason) = unsized (research_only request decision reason)
  researched none = traded trade_reason

  unfoldable pub evaluate : Evaluation D
  unfolding researched
  evaluate = researched (first_block (research_checks call))
