-- ===== src/Sizing/Calculate.antt =====
-- `PositionSizingService.calculate_buy_size` of app/services/position_sizing.py.
use trade_ai_server.Prelude.{
  Bool, true, false, not, ◌&&◌, Option, none, some, List, [], ◌∷◌, String, or_else, is_none,
  on_some, first_block, if◌then◌else◌,
}
use trade_ai_server.Prelude.Int.{ℤ, pos, leb_ℤ}
use trade_ai_server.Number.{Number, nought, hundred, max_of, min_of}
use trade_ai_server.Sizing.{
  AccountSizingContext, TradeSizingContext, RiskLimits, SizingDetails, PositionSizingResult,
  smallest, binding,
}

module _ {D : Type 0} ⦃n : Number D⦄ where
  -- the nested `blocked`, with the four amounts that a caller may report
  unfoldable pub blocked : String → D → D → D → D → PositionSizingResult D
  blocked reason risk_budget raw_stop slippage effective_stop = record {
    allowed = false;
    qty = pos 0;
    order_value_tl = nought;
    risk_budget_tl = risk_budget;
    raw_stop_distance_tl = raw_stop;
    slippage_buffer_tl = slippage;
    effective_stop_distance_tl = effective_stop;
    estimated_loss_at_stop_tl = nought;
    binding_limits = [];
    reason = reason;
    calculation_details = none;
  }

  -- An amount that the guards have shown to be there.
  unfoldable pub known : Option D → D
  known o = or_else o nought

  -- `floor_decimal(a / b)`
  unfoldable pub lots : D → D → ℤ
  lots a b = n.whole (n.div a b)

module _ {D : Type 0} ⦃n : Number D⦄ (account : AccountSizingContext D)
    (trade : TradeSizingContext D) (limits : RiskLimits D) where
  open n use {add, sub, mul, div, lt, le, of_int, whole}

  -- The guards before any amount is computed, in the order of the source.
  unfoldable pub guards : List (Bool × String)
  guards =
      (not limits.sizing_enabled, "BUY blocked: deterministic sizing is disabled")
      ∷ (not account.account_data_reliable, "BUY blocked: account sizing data is unreliable")
      ∷ (
        is_none account.account_data_age_seconds,
        "BUY blocked: account sizing data age is unknown",
      )
      ∷ (
        on_some (λ age. lt limits.max_account_data_age_seconds age)
            account.account_data_age_seconds,
        "BUY blocked: account sizing data is stale",
      )
      ∷ (is_none account.account_equity_tl, "BUY blocked: account equity is unknown")
      ∷ (
        on_some (λ e. le e nought) account.account_equity_tl,
        "BUY blocked: account equity must be positive",
      )
      ∷ (is_none account.effective_available_cash_tl, "BUY blocked: available cash is unknown")
      ∷ (
        on_some (λ c. le c nought) account.effective_available_cash_tl,
        "BUY blocked: available cash must be positive",
      )
      ∷ (lt account.reserved_cash_tl nought, "BUY blocked: reserved cash cannot be negative")
      ∷ (
        lt account.current_symbol_reserved_cash_tl nought,
        "BUY blocked: symbol reserved cash cannot be negative",
      )
      ∷ (is_none account.current_symbol_value_tl, "BUY blocked: current symbol value is unknown")
      ∷ (
        on_some (λ v. lt v nought) account.current_symbol_value_tl,
        "BUY blocked: current symbol value cannot be negative",
      )
      ∷ (
        is_none account.total_account_exposure_tl,
        "BUY blocked: total account exposure is unknown",
      )
      ∷ (
        on_some (λ v. lt v nought) account.total_account_exposure_tl,
        "BUY blocked: total account exposure is invalid",
      )
      ∷ (
        le limits.total_bot_capital_budget_tl nought,
        "BUY blocked: total bot capital budget is not configured",
      )
      ∷ (is_none account.total_bot_exposure_tl, "BUY blocked: total bot exposure is unknown")
      ∷ (
        on_some (λ v. lt v nought) account.total_bot_exposure_tl,
        "BUY blocked: total bot exposure is invalid",
      )
      ∷ (
        is_none account.current_bot_symbol_value_tl,
        "BUY blocked: current bot symbol value is unknown",
      )
      ∷ (
        on_some (λ v. lt v nought) account.current_bot_symbol_value_tl,
        "BUY blocked: current bot symbol value is invalid",
      )
      ∷ (is_none trade.target_allocation_pct, "BUY blocked: AI target allocation is unavailable")
      ∷ (
        on_some (λ a. not (lt nought a && le a hundred)) trade.target_allocation_pct,
        "BUY blocked: AI target allocation is invalid",
      )
      ∷ (
        le (min_of (min_of trade.entry_price trade.stop_loss) trade.target_price) nought,
        "BUY blocked: entry, stop and target must be positive",
      )
      ∷ (le trade.current_price nought, "BUY blocked: current price must be positive")
      ∷ (le trade.entry_price trade.stop_loss, "BUY blocked: stop loss must be below entry price")
      ∷ (
        le trade.target_price trade.entry_price,
        "BUY blocked: target price must be above entry price",
      )
      ∷ (
        lt trade.confidence limits.minimum_buy_confidence,
        "BUY blocked: confidence is below the effective minimum",
      )
      ∷ []

  unfoldable pub capital_base : D
  unfolding known
  capital_base = min_of (known account.account_equity_tl) limits.total_bot_capital_budget_tl

  unfoldable pub risk_budget : D
  unfolding capital_base
  risk_budget = div (mul capital_base limits.risk_per_trade_pct) hundred

  unfoldable pub raw_stop_distance : D
  raw_stop_distance = sub trade.entry_price trade.stop_loss

  unfoldable pub raw_stop_pct : D
  unfolding raw_stop_distance
  raw_stop_pct = div (mul raw_stop_distance hundred) trade.entry_price

  unfoldable pub slippage_pct : D
  slippage_pct =
      min_of limits.maximum_stop_slippage_pct
        (max_of limits.minimum_stop_slippage_pct limits.profile_stop_slippage_pct)

  unfoldable pub slippage_buffer : D
  unfolding slippage_pct
  slippage_buffer = div (mul trade.entry_price slippage_pct) hundred

  unfoldable pub effective_stop_distance : D
  unfolding raw_stop_distance slippage_buffer
  effective_stop_distance = add raw_stop_distance slippage_buffer

  unfoldable pub cash_budget : D
  unfolding known
  cash_budget =
      div (mul (known account.effective_available_cash_tl) limits.max_cash_utilization_pct) hundred

  unfoldable pub committed_symbol_value : D
  unfolding known
  committed_symbol_value =
      add (known account.current_symbol_value_tl) account.current_symbol_reserved_cash_tl

  unfoldable pub remaining_symbol_capacity : D
  unfolding committed_symbol_value
  remaining_symbol_capacity =
      max_of nought (sub limits.max_position_value_per_symbol committed_symbol_value)

  unfoldable pub committed_bot_capital : D
  unfolding known
  committed_bot_capital = add (known account.total_bot_exposure_tl) account.reserved_cash_tl

  unfoldable pub remaining_bot_budget : D
  unfolding capital_base committed_bot_capital
  remaining_bot_budget = max_of nought (sub capital_base committed_bot_capital)

  unfoldable pub target_position_value : D
  unfolding capital_base known
  target_position_value = div (mul capital_base (known trade.target_allocation_pct)) hundred

  unfoldable pub remaining_ai_target : D
  unfolding target_position_value known
  remaining_ai_target = max_of nought (
      sub (sub target_position_value (known account.current_bot_symbol_value_tl))
        account.current_symbol_reserved_cash_tl)

  unfoldable pub candidates : List (String × ℤ)
  unfolding lots
  candidates =
      ("risk_budget", lots risk_budget effective_stop_distance)
      ∷ ("cash_budget", lots cash_budget trade.entry_price)
      ∷ ("symbol_position", lots remaining_symbol_capacity trade.entry_price)
      ∷ ("bot_budget", lots remaining_bot_budget trade.entry_price)
      ∷ ("ai_target", lots remaining_ai_target trade.entry_price)
      ∷ ("order_value", lots limits.max_order_value_tl trade.entry_price)
      ∷ ("profile_max_qty", limits.max_qty_per_order)
      ∷ []

  unfoldable pub final_qty : ℤ
  unfolding candidates smallest
  final_qty = smallest (lots risk_budget effective_stop_distance) candidates

  unfoldable pub details : SizingDetails D
  details = record {
    effective_slippage_pct = slippage_pct;
    raw_stop_distance_pct = raw_stop_pct;
    cash_budget_tl = cash_budget;
    committed_symbol_value_tl = committed_symbol_value;
    remaining_symbol_capacity_tl = remaining_symbol_capacity;
    capital_base_tl = capital_base;
    committed_bot_capital_tl = committed_bot_capital;
    remaining_bot_budget_tl = remaining_bot_budget;
    target_position_value_tl = target_position_value;
    remaining_ai_target_tl = remaining_ai_target;
    candidates = candidates;
  }

  -- a refusal that reports the limits and the details
  unfoldable pub blocked_with_details : String → PositionSizingResult D
  unfolding blocked details
  blocked_with_details reason =
      let result =
        blocked reason risk_budget raw_stop_distance slippage_buffer effective_stop_distance in
      record result {
        binding_limits = binding final_qty candidates;
        calculation_details = some details;
      }

  unfoldable pub order_value : D
  order_value = mul (of_int final_qty) trade.entry_price

  unfoldable pub estimated_loss : D
  estimated_loss = mul (of_int final_qty) effective_stop_distance

  unfoldable pub accepted : PositionSizingResult D
  unfolding details
  accepted = record {
    allowed = true;
    qty = final_qty;
    order_value_tl = order_value;
    risk_budget_tl = risk_budget;
    raw_stop_distance_tl = raw_stop_distance;
    slippage_buffer_tl = slippage_buffer;
    effective_stop_distance_tl = effective_stop_distance;
    estimated_loss_at_stop_tl = estimated_loss;
    binding_limits = binding final_qty candidates;
    reason = "BUY size calculated deterministically";
    calculation_details = some details;
  }

  -- the last three guards, on the final quantity
  unfoldable pub sized : PositionSizingResult D
  unfolding blocked_with_details accepted
  sized =
      if leb_ℤ final_qty (pos 0)
      then blocked_with_details "BUY blocked: deterministic sizing produced zero quantity"
      else if lt order_value limits.min_order_value_tl
      then blocked_with_details "BUY blocked: order value is below the effective minimum"
      else if lt risk_budget estimated_loss
      then blocked "BUY blocked: estimated stop loss exceeds risk budget invariant" risk_budget
          raw_stop_distance slippage_buffer effective_stop_distance
      else accepted

  -- the three guards on the stop's distance
  unfoldable pub measured : PositionSizingResult D
  unfolding blocked
  measured =
      if lt raw_stop_pct limits.min_stop_distance_pct
      then blocked "BUY blocked: stop distance is below the effective minimum" risk_budget
          raw_stop_distance nought nought
      else if lt limits.max_stop_distance_pct raw_stop_pct
      then blocked "BUY blocked: stop distance exceeds the effective maximum" risk_budget
          raw_stop_distance nought nought
      else if le effective_stop_distance nought
      then blocked "BUY blocked: effective stop distance is invalid" nought nought nought nought
      else sized

  unfoldable pub calculate_buy_size : PositionSizingResult D
  unfolding blocked
  calculate_buy_size = elim (first_block guards) [
    | some reason ↦ blocked reason nought nought nought nought
    | none ↦ measured
  ]
