-- ===== src/Examples/Limits.antt =====
-- The layers of limits at concrete inputs, over whole numbers.
use trade_ai_server.Prelude.{◌≡◌, ◌↔◌, true, false, none, some, refl, String}
use trade_ai_server.Prelude.Int.{ℤ, pos}
use trade_ai_server.Prelude.Result.{Ensures, ok}
use trade_ai_server.Number.Whole.{whole_number, ℤ-IsOrdered}
use trade_ai_server.EffectiveRisk.{EffectiveRiskConfig, resolve, resolved, effective}
use trade_ai_server.EffectiveRisk.Layer.{RiskConfigLayer, TradeProfile, profile_values, is_valid}
use trade_ai_server.EffectiveRisk.Strictest.{IsNoLooser, resolve-strictest, resolve-ranges}
use trade_ai_server.EffectiveRisk.Succeeds.{resolve-ok}

abbrev pub environment : RiskConfigLayer ℤ
environment = record {
  risk_per_trade_pct = pos 1;
  total_bot_capital_budget_tl = pos 40000;
  max_cash_utilization_pct = pos 50;
  max_account_exposure_pct = pos 100;
  max_position_value_per_symbol = pos 20000;
  max_order_value_tl = pos 10000;
  max_qty_per_order = pos 500;
  min_order_value_tl = pos 1000;
  min_stop_distance_pct = pos 1;
  max_stop_distance_pct = pos 10;
  minimum_stop_slippage_pct = pos 0;
  maximum_stop_slippage_pct = pos 2;
  profile_stop_slippage_pct = pos 1;
  max_account_data_age_seconds = pos 30;
  minimum_buy_confidence = pos 70;
  minimum_sell_confidence = pos 60;
  daily_order_limit = pos 5;
  per_symbol_daily_order_limit = pos 3;
  sizing_enabled = true;
  demo_orders_enabled = true;
  real_orders_enabled = true;
  allow_margin_buying = true;
}

abbrev pub system : RiskConfigLayer ℤ
system = record {
  risk_per_trade_pct = pos 1;
  total_bot_capital_budget_tl = pos 40000;
  max_cash_utilization_pct = pos 50;
  max_account_exposure_pct = pos 100;
  max_position_value_per_symbol = pos 20000;
  max_order_value_tl = pos 9000;
  max_qty_per_order = pos 400;
  min_order_value_tl = pos 1000;
  min_stop_distance_pct = pos 1;
  max_stop_distance_pct = pos 10;
  minimum_stop_slippage_pct = pos 0;
  maximum_stop_slippage_pct = pos 2;
  profile_stop_slippage_pct = pos 1;
  max_account_data_age_seconds = pos 30;
  minimum_buy_confidence = pos 70;
  minimum_sell_confidence = pos 60;
  daily_order_limit = pos 5;
  per_symbol_daily_order_limit = pos 3;
  sizing_enabled = true;
  demo_orders_enabled = true;
  real_orders_enabled = true;
  allow_margin_buying = true;
}

abbrev pub profile : TradeProfile ℤ
profile = record {
  id = some 1;
  code = some "NORMAL";
  version = some 2;
  risk_per_trade_pct = some (pos 1);
  max_cash_utilization_pct = some (pos 40);
  max_account_exposure_pct = some (pos 80);
  max_position_value_per_symbol = some (pos 15000);
  max_order_value_tl = some (pos 8000);
  max_qty_per_order = some (pos 300);
  min_order_value_tl = some (pos 1000);
  min_stop_distance_pct = some (pos 2);
  max_stop_distance_pct = some (pos 8);
  minimum_stop_slippage_pct = some (pos 0);
  maximum_stop_slippage_pct = some (pos 1);
  profile_stop_slippage_pct = none;
  max_account_data_age_seconds = some (pos 30);
  min_confidence_for_buy = some (pos 75);
  min_confidence_for_sell = some (pos 70);
  max_orders_per_day = some (pos 3);
  max_orders_per_symbol_per_day = some (pos 1);
  sizing_enabled = none;
  allow_demo_live = some true;
  allow_real_live = some false;
  allow_margin_buying = some false;
}

abbrev pub print_of : RiskConfigLayer ℤ → String
print_of _ = "fingerprint"

abbrev pub limits : EffectiveRiskConfig ℤ
limits =
    effective print_of environment system "v1" profile
      (resolved environment system (profile_values profile))

pub resolved_limits : resolve print_of environment system "v1" profile ≡ ok limits
unfolding resolve resolved effective profile_values
resolved_limits = refl

resolve-strictest_example :
    Ensures
      (λ (e : EffectiveRiskConfig ℤ). IsNoLooser system e.limits ↔ (
        IsNoLooser system environment
        × IsNoLooser system system
        × IsNoLooser system (profile_values profile)))
      (resolve print_of environment system "v1" profile)
resolve-strictest_example =
    resolve-strictest ℤ-IsOrdered print_of environment system "v1" profile system

resolve-ranges_example :
    Ensures
      (λ (e : EffectiveRiskConfig ℤ).
        (e.limits.total_bot_capital_budget_tl ≡ system.total_bot_capital_budget_tl)
        × (whole_number.le e.limits.min_stop_distance_pct e.limits.max_stop_distance_pct ≡ true)
        × (whole_number.le e.limits.minimum_stop_slippage_pct e.limits.profile_stop_slippage_pct
            ≡ true)
        × (whole_number.le e.limits.profile_stop_slippage_pct e.limits.maximum_stop_slippage_pct
            ≡ true))
      (resolve print_of environment system "v1" profile)
resolve-ranges_example = resolve-ranges ℤ-IsOrdered print_of environment system "v1" profile

resolve-ok_example : resolve print_of environment system "v1" profile ≡ ok limits
unfolding is_valid profile_values resolved
resolve-ok_example =
    resolve-ok ℤ-IsOrdered print_of environment system "v1" profile refl refl refl refl refl
