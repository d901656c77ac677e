-- ===== src/Examples/Decisions.antt =====
-- Sizes of orders and exits of positions at concrete inputs.
use trade_ai_server.Prelude.{◌≡◌, ◌↔◌, true, false, none, some, refl, All, on_some}
use trade_ai_server.Prelude.Int.{ℤ, pos, ◌≤ℤ◌, ◌+ℤ◌, ◌-ℤ◌, ◌*ℤ◌}
use trade_ai_server.Prelude.Text.{str_eq}
use trade_ai_server.Number.Whole.{whole_number, div_ℤ, ℤ-IsOrdered, ℤ-IsExact}
use trade_ai_server.Sizing.{AccountSizingContext, TradeSizingContext, RiskLimits, smallest}
use trade_ai_server.Sizing.Calculate.{
  known, lots, guards, capital_base, risk_budget, raw_stop_distance, raw_stop_pct, slippage_pct,
  slippage_buffer, effective_stop_distance, cash_budget, committed_symbol_value,
  remaining_symbol_capacity, committed_bot_capital, remaining_bot_budget, target_position_value,
  remaining_ai_target, candidates, final_qty, order_value, estimated_loss, accepted, sized,
  measured, calculate_buy_size,
}
use trade_ai_server.Sizing.Caps.{allowed_result}
use trade_ai_server.Sizing.Cleared.{IsCleared, allowed-IsCleared}
use trade_ai_server.Sizing.Budgets.{budgets_kept}
use trade_ai_server.Exit.{ExitPolicy, evaluate_exit}
use trade_ai_server.Exit.Rules.{IsHeldOn, evaluate_exit_stop, evaluate_exit-IsHeldOn}

abbrev pub account : AccountSizingContext ℤ
account = record {
  account_equity_tl = some (pos 100000);
  effective_available_cash_tl = some (pos 50000);
  reserved_cash_tl = pos 0;
  current_symbol_qty = pos 0;
  current_symbol_value_tl = some (pos 0);
  total_account_exposure_tl = some (pos 0);
  current_bot_symbol_value_tl = some (pos 0);
  total_bot_exposure_tl = some (pos 0);
  account_data_age_seconds = some (pos 1);
  account_data_reliable = true;
  current_symbol_reserved_cash_tl = pos 0;
}

abbrev pub trade : TradeSizingContext ℤ
trade = record {
  symbol = "THYAO";
  entry_price = pos 100;
  stop_loss = pos 95;
  target_price = pos 110;
  confidence = pos 90;
  current_price = pos 100;
  target_allocation_pct = some (pos 20);
}

abbrev pub limits : RiskLimits ℤ
limits = record {
  risk_per_trade_pct = pos 1;
  total_bot_capital_budget_tl = pos 40000;
  max_cash_utilization_pct = pos 50;
  max_position_value_per_symbol = pos 20000;
  max_order_value_tl = pos 10000;
  max_qty_per_order = pos 500;
  min_order_value_tl = pos 1000;
  min_stop_distance_pct = pos 1;
  max_stop_distance_pct = pos 10;
  minimum_stop_slippage_pct = pos 0;
  maximum_stop_slippage_pct = pos 2;
  profile_stop_slippage_pct = pos 1;
  max_account_data_age_seconds = pos 30;
  minimum_buy_confidence = pos 70;
  sizing_enabled = true;
  system_config_version = none;
  trade_profile_code = none;
}

size_example : (calculate_buy_size account trade limits).allowed ≡ true
unfolding known lots guards capital_base risk_budget raw_stop_distance raw_stop_pct slippage_pct
    slippage_buffer effective_stop_distance cash_budget committed_symbol_value
    remaining_symbol_capacity committed_bot_capital remaining_bot_budget target_position_value
    remaining_ai_target candidates final_qty order_value estimated_loss accepted sized measured
    calculate_buy_size div_ℤ ◌*ℤ◌ ◌-ℤ◌ ◌+ℤ◌ smallest
size_example = refl

abbrev pub policy : ExitPolicy ℤ
policy = record {
  version = "exit-policy-v1";
  hard_target_r = pos 2;
  breakeven_activation_r = pos 1;
  trailing_activation_r = pos 1;
  trailing_distance_r = pos 1;
  stagnation_minutes = pos 15;
  stagnation_mfe_r_ceiling = pos 1;
  max_holding_minutes = pos 60;
  entry_order_timeout_seconds = pos 60;
  urgent_reprice_seconds = pos 15;
  passive_reprice_seconds = pos 90;
  reentry_cooldown_take_profit_minutes = pos 5;
  reentry_cooldown_time_exit_minutes = pos 10;
  reentry_cooldown_stop_minutes = pos 17;
}

evaluate_exit_stop_example :
    on_some
      (λ t. str_eq t.reason "STOP")
      (evaluate_exit policy (pos 100) (pos 95) (pos 94) (pos 3) (pos 70))
    ≡ whole_number.le (pos 94) (pos 95)
evaluate_exit_stop_example = evaluate_exit_stop policy (pos 100) (pos 95) (pos 94) (pos 3) (pos 70)

evaluate_exit-IsHeldOn_example : IsHeldOn policy (pos 100) (pos 95) (pos 101) (pos 0) (pos 5)
unfolding evaluate_exit ◌-ℤ◌ div_ℤ
evaluate_exit-IsHeldOn_example =
    evaluate_exit-IsHeldOn policy (pos 100) (pos 95) (pos 101) (pos 0) (pos 5) refl

allowed-IsCleared_example :
    ((calculate_buy_size account trade limits).allowed ≡ true) ↔ IsCleared account trade limits
allowed-IsCleared_example = allowed-IsCleared account trade limits

allowed_result_example :
    let r = calculate_buy_size account trade limits in
    (pos 1 ≤ℤ r.qty)
    × All (λ c. r.qty ≤ℤ c.1) (candidates account trade limits)
    × (r.order_value_tl ≡ whole_number.mul (whole_number.of_int r.qty) (pos 100))
    × (r.estimated_loss_at_stop_tl
        ≡ whole_number.mul
            (whole_number.of_int r.qty)
            (effective_stop_distance account trade limits))
    × (whole_number.lt r.order_value_tl (pos 1000) ≡ false)
    × (whole_number.lt r.risk_budget_tl r.estimated_loss_at_stop_tl ≡ false)
allowed_result_example = allowed_result account trade limits size_example

budgets_kept_example :
    let spent = (calculate_buy_size account trade limits).order_value_tl in
    (whole_number.le spent (cash_budget account trade limits) ≡ true)
    × (whole_number.le
          (whole_number.add (committed_symbol_value account trade limits) spent)
          (pos 20000)
        ≡ true)
    × (whole_number.le
          (whole_number.add (committed_bot_capital account trade limits) spent)
          (capital_base account trade limits)
        ≡ true)
    × (whole_number.le spent (pos 10000) ≡ true)
budgets_kept_example =
    budgets_kept ℤ-IsOrdered ℤ-IsExact account trade limits refl refl size_example
