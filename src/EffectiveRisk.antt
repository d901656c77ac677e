-- ===== src/EffectiveRisk.antt =====
-- app/services/effective_risk_config.py: the limits of a trade are the strictest of three layers, the
-- environment's, the system's and the trade profile's. An attribute of the profile is an `Option`,
-- empty where it is missing or None. The readers of the environment and of the database are not
-- modelled: the layers that they build are arguments. `fingerprint` (a hash) is a parameter.
pub mod Layer
pub mod Fields
pub mod Strictest
pub mod Succeeds
use trade_ai_server.Prelude.{
  ℕ, Bool, true, false, not, ◌&&◌, Option, none, some, List, [], ◌∷◌, ◌++◌, String, or_else, every,
  if◌then◌else◌, ◌==◌,
}
use trade_ai_server.Prelude.Int.{ℤ, pos, leb_ℤ, min_ℤ}
use trade_ai_server.Prelude.Result.{Result, ok, raised, raise_if, value_error, ◌>>=◌, ◌>>◌}
use trade_ai_server.Number.{Number, nought, max_of, min_of}
use trade_ai_server.EffectiveRisk.Layer.{
  is_positive, defaults, maximum_limits, limit_fields, minimum_safety, other_fields, permissions,
  decimal_fields, is_amount, is_valid, validated, profile_values, profile_layer, RiskConfigLayer,
  TradeProfile,
}

-- `EffectiveRiskConfig`; `limits` are the fields that it has from `RiskConfigLayer`
pub record EffectiveRiskConfig (D : Type 0) : Type 0 where
  pub limits : RiskConfigLayer D
  pub environment_config_fingerprint : String
  pub system_config_version : String
  pub trade_profile_id : Option ℕ
  pub trade_profile_code : String
  pub trade_profile_version : ℕ

unfoldable pub least_int : ℤ → ℤ → ℤ → ℤ
least_int a b c = min_ℤ (min_ℤ a b) c

-- `all(...)` over the three layers
unfoldable pub all_of : Bool → Bool → Bool → Bool
all_of a b c = a && b && c

module _ {D : Type 0} ⦃n : Number D⦄ where
  -- `min(...)` and `max(...)` over the three layers
  unfoldable pub least : D → D → D → D
  least a b c = min_of (min_of a b) c

  unfoldable pub most : D → D → D → D
  most a b c = max_of (max_of a b) c

  -- the loops of `resolve`, with the layer of the profile
  unfoldable pub resolved :
      RiskConfigLayer D → RiskConfigLayer D → RiskConfigLayer D → RiskConfigLayer D
  unfolding least most least_int all_of
  resolved environment system layer =
      let maximum_slippage =
        least environment.maximum_stop_slippage_pct system.maximum_stop_slippage_pct
          layer.maximum_stop_slippage_pct in
      let minimum_slippage =
        most environment.minimum_stop_slippage_pct system.minimum_stop_slippage_pct
          layer.minimum_stop_slippage_pct in
      let requested_slippage =
        most environment.profile_stop_slippage_pct system.profile_stop_slippage_pct
          layer.profile_stop_slippage_pct in
      record {
        risk_per_trade_pct =
            least environment.risk_per_trade_pct system.risk_per_trade_pct layer.risk_per_trade_pct;
        total_bot_capital_budget_tl = system.total_bot_capital_budget_tl;
        max_cash_utilization_pct =
            least environment.max_cash_utilization_pct system.max_cash_utilization_pct
              layer.max_cash_utilization_pct;
        max_account_exposure_pct =
            least environment.max_account_exposure_pct system.max_account_exposure_pct
              layer.max_account_exposure_pct;
        max_position_value_per_symbol =
            least environment.max_position_value_per_symbol system.max_position_value_per_symbol
              layer.max_position_value_per_symbol;
        max_order_value_tl =
            least environment.max_order_value_tl system.max_order_value_tl layer.max_order_value_tl;
        max_qty_per_order =
            least_int environment.max_qty_per_order system.max_qty_per_order
              layer.max_qty_per_order;
        min_order_value_tl =
            most environment.min_order_value_tl system.min_order_value_tl layer.min_order_value_tl;
        min_stop_distance_pct =
            most environment.min_stop_distance_pct system.min_stop_distance_pct
              layer.min_stop_distance_pct;
        max_stop_distance_pct =
            least environment.max_stop_distance_pct system.max_stop_distance_pct
              layer.max_stop_distance_pct;
        minimum_stop_slippage_pct = minimum_slippage;
        maximum_stop_slippage_pct = maximum_slippage;
        profile_stop_slippage_pct =
            min_of maximum_slippage (max_of minimum_slippage requested_slippage);
        max_account_data_age_seconds =
            least environment.max_account_data_age_seconds system.max_account_data_age_seconds
              layer.max_account_data_age_seconds;
        minimum_buy_confidence =
            most environment.minimum_buy_confidence system.minimum_buy_confidence
              layer.minimum_buy_confidence;
        minimum_sell_confidence =
            most environment.minimum_sell_confidence system.minimum_sell_confidence
              layer.minimum_sell_confidence;
        daily_order_limit =
            least_int environment.daily_order_limit system.daily_order_limit
              layer.daily_order_limit;
        per_symbol_daily_order_limit =
            least_int environment.per_symbol_daily_order_limit system.per_symbol_daily_order_limit
              layer.per_symbol_daily_order_limit;
        sizing_enabled =
            all_of environment.sizing_enabled system.sizing_enabled layer.sizing_enabled;
        demo_orders_enabled =
            all_of environment.demo_orders_enabled system.demo_orders_enabled
              layer.demo_orders_enabled;
        real_orders_enabled =
            all_of environment.real_orders_enabled system.real_orders_enabled
              layer.real_orders_enabled;
        allow_margin_buying =
            all_of environment.allow_margin_buying system.allow_margin_buying
              layer.allow_margin_buying;
      }

module _ {D : Type 0} ⦃n : Number D⦄ (fingerprint : RiskConfigLayer D → String)
    (environment system : RiskConfigLayer D) (system_version : String)
    (profile : TradeProfile D) where
  open n use {lt}

  -- the configuration that `resolve` builds of validated values
  unfoldable pub effective : RiskConfigLayer D → EffectiveRiskConfig D
  effective values = record {
    limits = values;
    environment_config_fingerprint = fingerprint environment;
    system_config_version = system_version;
    trade_profile_id = profile.id;
    trade_profile_code = or_else profile.code "UNKNOWN";
    trade_profile_version =
        (let version = or_else profile.version 1 in if version == 0 then 1 else version);
  }

  -- the two checks of `resolve`, and the validation of the result
  unfoldable pub checked : RiskConfigLayer D → Result (EffectiveRiskConfig D)
  unfolding effective validated
  checked values =
      raise_if (lt values.max_stop_distance_pct values.min_stop_distance_pct)
        (value_error "Effective minimum stop distance exceeds maximum")
      >> (raise_if (lt values.maximum_stop_slippage_pct values.minimum_stop_slippage_pct)
            (value_error "Effective minimum slippage exceeds maximum")
          >> (validated values >>= (λ valid. ok (effective valid))))

  unfoldable pub resolve : Result (EffectiveRiskConfig D)
  unfolding profile_layer resolved checked
  resolve = profile_layer profile >>= (λ layer. checked (resolved environment system layer))
