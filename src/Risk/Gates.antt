-- ===== src/Risk/Gates.antt =====
-- The gates of `RiskEngine.evaluate` of app/services/risk_engine.py up to the confidence. `now` is the
-- clock that `can_trade_now` reads.
use trade_ai_server.Prelude.{
  ℕ, Bool, not, ◌&&◌, ◌||◌, Option, List, [], ◌∷◌, String, if◌then◌else◌, on_some, ltb, is_none,
}
use trade_ai_server.Prelude.Int.{ℤ, pos, ◌-ℤ◌, min_ℤ, max_ℤ, leb_ℤ, ltb_ℤ}
use trade_ai_server.Prelude.Text.{str_eq, upper, strip}
use trade_ai_server.Number.{Number, nought, max_of}
use trade_ai_server.EffectiveRisk.{EffectiveRiskConfig}
use trade_ai_server.Risk.{
  RiskConfig, SignalAction, buy, sell, wait, is_buy, is_sell, is_trade, value, SignalRequest,
  RiskDecision, is_symbol_declined, is_symbol_allowed, is_long_term_locked, can_trade_now,
  get_min_confidence,
}

-- the engine and the arguments of a call of `evaluate`; where no decision is given it is a WAIT
pub record Call (D : Type 0) : Type 0 where
  pub config : RiskConfig D
  pub effective_config : Option (EffectiveRiskConfig D)
  pub now : ℕ
  pub request : SignalRequest D
  pub decision : RiskDecision D
  pub market_regime : Option String
  pub account_type : Option String
  pub allow_demo_downtrend_buy : Bool

module _ {D : Type 0} ⦃n : Number D⦄ (call : Call D) where
  open n use {literal, add, mul, lt, le, of_int}
  open call use {
    config, effective_config, now, request, decision, market_regime, account_type,
    allow_demo_downtrend_buy,
  }

  -- The gates that keep the analysis.
  unfoldable pub research_checks : List (Bool × String)
  research_checks =
      let liquidation_sell =
        is_sell decision.action && not (leb_ℤ request.bot_position_qty (pos 0)) in
      let is_open = is_symbol_allowed config request.symbol || liquidation_sell in
      (
        not is_open && is_symbol_declined config request.symbol,
        "Research-only: symbol is on the decline blacklist — analysis kept, order dispatch blocked",
      )
      ∷ (
        not is_open,
        "Research-only: symbol is not in the allowed order list — analysis kept, order dispatch blocked",
      )
      ∷ (
        is_buy decision.action && not request.trade_eligible,
        "Research-only: symbol is not in the active Trade Watchlist — BUY dispatch blocked",
      )
      ∷ []

  unfoldable pub is_regime : String → Bool
  is_regime word = on_some (λ r. str_eq (upper (strip r)) word) market_regime

  unfoldable pub is_demo_override : Bool
  is_demo_override = on_some (λ t. str_eq t "DEMO") account_type && allow_demo_downtrend_buy

  unfoldable pub account_free_qty : ℤ
  account_free_qty = max_ℤ (pos 0) (request.account_available_qty -ℤ request.locked_long_term_qty)

  unfoldable pub sellable_qty : ℤ
  unfolding account_free_qty
  sellable_qty = min_ℤ request.bot_position_qty account_free_qty

  -- the quantity after the clamp of a SELL
  unfoldable pub clamped_qty : SignalAction → ℤ
  unfolding sellable_qty
  clamped_qty sell = sellable_qty
  clamped_qty buy = decision.qty
  clamped_qty wait = decision.qty

  -- `max(0.0, bot_position_qty, total_account_qty) + qty`, at the last price
  unfoldable pub projected_value : D
  projected_value =
      mul
        (add
          (max_of (max_of nought (of_int request.bot_position_qty))
            (of_int request.total_account_qty))
          (of_int decision.qty))
        request.last_price

  -- The gates from the market's regime to the value of the position.
  unfoldable pub trade_checks : List (Bool × String)
  unfolding is_regime is_demo_override sellable_qty projected_value
  trade_checks =
      let action = decision.action in
      (
        is_buy action && (is_regime "DOWNTREND" && not is_demo_override),
        "BUY blocked: market index is in DOWNTREND (bear regime) — no new long positions while the broad market falls",
      )
      ∷ (
        is_sell action
            && (is_long_term_locked config request.symbol && not config.allow_sell_long_term),
        "SELL blocked: a locked long-term symbol",
      )
      ∷ (
        is_trade action && not (can_trade_now config now),
        "Trading blocked: outside trading window",
      )
      ∷ (
        is_trade action && not (ltb request.daily_trade_count config.max_daily_trade_count),
        "Trading blocked: daily trade count limit reached",
      )
      ∷ (
        not config.allow_short_selling
            && (leb_ℤ request.bot_position_qty (pos 0) && is_sell action),
        "SELL blocked: no bot position to sell",
      )
      ∷ (is_sell action && leb_ℤ sellable_qty (pos 0), "SELL blocked: no sellable qty")
      ∷ (
        is_buy action
            && (ltb_ℤ (pos 0) decision.qty
                && (is_none effective_config
                    && lt config.max_position_value_per_symbol projected_value)),
        "BUY blocked: projected position value exceeds max",
      )
      ∷ []

  -- The threshold of the action, 15 higher for a BUY in a volatile market.
  unfoldable pub threshold : D
  unfolding is_regime
  threshold =
      let penalty =
        if is_buy decision.action && is_regime "HIGH_VOLATILITY" then literal 15 0 else nought in
      add (get_min_confidence config (value decision.action)) penalty

  unfoldable pub confidence_ok : Bool
  confidence_ok = not (is_trade decision.action) || le threshold decision.confidence

  unfoldable pub allow_order : Bool
  allow_order = confidence_ok && is_trade decision.action
