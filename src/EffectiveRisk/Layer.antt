-- ===== src/EffectiveRisk/Layer.antt =====
-- A layer of limits, its validators and the layer of a trade profile.
use trade_ai_server.Prelude.{
  ℕ, Bool, true, false, not, ◌&&◌, Option, List, [], ◌∷◌, ◌++◌, String, or_else, every,
  if◌then◌else◌,
}
use trade_ai_server.Prelude.Int.{ℤ, pos, leb_ℤ}
use trade_ai_server.Prelude.Result.{Result, ok, raised, value_error}
use trade_ai_server.Number.{Number, nought}

-- `RiskConfigLayer`
pub record RiskConfigLayer (D : Type 0) : Type 0 where
  pub risk_per_trade_pct : D
  pub total_bot_capital_budget_tl : D
  pub max_cash_utilization_pct : D
  pub max_account_exposure_pct : D
  pub max_position_value_per_symbol : D
  pub max_order_value_tl : D
  pub max_qty_per_order : ℤ
  pub min_order_value_tl : D
  pub min_stop_distance_pct : D
  pub max_stop_distance_pct : D
  pub minimum_stop_slippage_pct : D
  pub maximum_stop_slippage_pct : D
  pub profile_stop_slippage_pct : D
  pub max_account_data_age_seconds : D
  pub minimum_buy_confidence : D
  pub minimum_sell_confidence : D
  pub daily_order_limit : ℤ
  pub per_symbol_daily_order_limit : ℤ
  pub sizing_enabled : Bool
  pub demo_orders_enabled : Bool
  pub real_orders_enabled : Bool
  pub allow_margin_buying : Bool

-- The attributes that `_profile_layer` and `resolve` read of a trade profile; `none` is an attribute
-- that is missing or `None`. `code` and `sizing_enabled`, where the code tells the two apart, are only
-- missing: a `None` there is not modelled.
pub record TradeProfile (D : Type 0) : Type 0 where
  pub id : Option ℕ
  pub code : Option String
  pub version : Option ℕ
  pub risk_per_trade_pct : Option D
  pub max_cash_utilization_pct : Option D
  pub max_account_exposure_pct : Option D
  pub max_position_value_per_symbol : Option D
  pub max_order_value_tl : Option D
  pub max_qty_per_order : Option ℤ
  pub min_order_value_tl : Option D
  pub min_stop_distance_pct : Option D
  pub max_stop_distance_pct : Option D
  pub minimum_stop_slippage_pct : Option D
  pub maximum_stop_slippage_pct : Option D
  pub profile_stop_slippage_pct : Option D
  pub max_account_data_age_seconds : Option D
  pub min_confidence_for_buy : Option D
  pub min_confidence_for_sell : Option D
  pub max_orders_per_day : Option ℤ
  pub max_orders_per_symbol_per_day : Option ℤ
  pub sizing_enabled : Option Bool
  pub allow_demo_live : Option Bool
  pub allow_real_live : Option Bool
  pub allow_margin_buying : Option Bool

abbrev pub is_positive : ℤ → Bool
is_positive i = not (leb_ℤ i (pos 0))

module _ {D : Type 0} ⦃n : Number D⦄ where
  open n use {literal, lt, is_finite}

  -- `RiskConfigLayer()`
  unfoldable pub defaults : RiskConfigLayer D
  defaults = record {
    risk_per_trade_pct = literal 50 2;
    total_bot_capital_budget_tl = nought;
    max_cash_utilization_pct = literal 25 0;
    max_account_exposure_pct = literal 50 0;
    max_position_value_per_symbol = literal 3000 0;
    max_order_value_tl = literal 1000 0;
    max_qty_per_order = pos 3;
    min_order_value_tl = literal 1 0;
    min_stop_distance_pct = literal 10 2;
    max_stop_distance_pct = literal 10 0;
    minimum_stop_slippage_pct = literal 5 2;
    maximum_stop_slippage_pct = literal 1 0;
    profile_stop_slippage_pct = literal 20 2;
    max_account_data_age_seconds = literal 60 0;
    minimum_buy_confidence = literal 75 0;
    minimum_sell_confidence = literal 70 0;
    daily_order_limit = pos 3;
    per_symbol_daily_order_limit = pos 1;
    sizing_enabled = true;
    demo_orders_enabled = true;
    real_orders_enabled = false;
    allow_margin_buying = false;
  }

  -- the decimals of `_MAXIMUM_LIMITS`, and its integers
  unfoldable pub maximum_limits : RiskConfigLayer D → List D
  maximum_limits layer =
      layer.maximum_stop_slippage_pct ∷ layer.risk_per_trade_pct ∷ layer.max_cash_utilization_pct
      ∷ layer.max_account_exposure_pct ∷ layer.max_position_value_per_symbol
      ∷ layer.max_order_value_tl ∷ layer.max_stop_distance_pct ∷ layer.max_account_data_age_seconds
      ∷ []

  unfoldable pub limit_fields : RiskConfigLayer D → List ℤ
  limit_fields layer =
      layer.max_qty_per_order ∷ layer.daily_order_limit ∷ layer.per_symbol_daily_order_limit ∷ []

  -- `_MINIMUM_SAFETY`
  unfoldable pub minimum_safety : RiskConfigLayer D → List D
  minimum_safety layer =
      layer.minimum_stop_slippage_pct ∷ layer.min_order_value_tl ∷ layer.minimum_buy_confidence
      ∷ layer.minimum_sell_confidence ∷ layer.min_stop_distance_pct ∷ []

  -- the decimals that are in neither set
  unfoldable pub other_fields : RiskConfigLayer D → List D
  other_fields layer = layer.total_bot_capital_budget_tl ∷ layer.profile_stop_slippage_pct ∷ []

  -- `_BOOLEAN_PERMISSIONS`
  unfoldable pub permissions : RiskConfigLayer D → List Bool
  permissions layer =
      layer.sizing_enabled ∷ layer.demo_orders_enabled ∷ layer.real_orders_enabled
      ∷ layer.allow_margin_buying ∷ []

  -- `_DECIMAL_FIELDS`
  unfoldable pub decimal_fields : RiskConfigLayer D → List D
  unfolding maximum_limits minimum_safety other_fields
  decimal_fields layer = maximum_limits layer ++ minimum_safety layer ++ other_fields layer

  -- what the field validators accept
  abbrev pub is_amount : D → Bool
  is_amount d = is_finite d && not (lt d nought)

  unfoldable pub is_valid : RiskConfigLayer D → Bool
  unfolding decimal_fields limit_fields
  is_valid layer = every is_amount (decimal_fields layer) && every is_positive (limit_fields layer)

  -- `RiskConfigLayer.model_validate`
  unfoldable pub validated : RiskConfigLayer D → Result (RiskConfigLayer D)
  unfolding is_valid
  validated layer =
      if is_valid layer then ok layer else raised (value_error "Risk configuration is invalid")

  -- the values that `_profile_layer` collects
  unfoldable pub profile_values : TradeProfile D → RiskConfigLayer D
  unfolding defaults
  profile_values profile = record {
    risk_per_trade_pct = or_else profile.risk_per_trade_pct defaults.risk_per_trade_pct;
    total_bot_capital_budget_tl = defaults.total_bot_capital_budget_tl;
    max_cash_utilization_pct =
        or_else profile.max_cash_utilization_pct defaults.max_cash_utilization_pct;
    max_account_exposure_pct =
        or_else profile.max_account_exposure_pct defaults.max_account_exposure_pct;
    max_position_value_per_symbol =
        or_else profile.max_position_value_per_symbol defaults.max_position_value_per_symbol;
    max_order_value_tl = or_else profile.max_order_value_tl defaults.max_order_value_tl;
    max_qty_per_order = or_else profile.max_qty_per_order defaults.max_qty_per_order;
    min_order_value_tl = or_else profile.min_order_value_tl defaults.min_order_value_tl;
    min_stop_distance_pct = or_else profile.min_stop_distance_pct defaults.min_stop_distance_pct;
    max_stop_distance_pct = or_else profile.max_stop_distance_pct defaults.max_stop_distance_pct;
    minimum_stop_slippage_pct =
        or_else profile.minimum_stop_slippage_pct defaults.minimum_stop_slippage_pct;
    maximum_stop_slippage_pct =
        or_else profile.maximum_stop_slippage_pct defaults.maximum_stop_slippage_pct;
    profile_stop_slippage_pct =
        or_else profile.profile_stop_slippage_pct defaults.profile_stop_slippage_pct;
    max_account_data_age_seconds =
        or_else profile.max_account_data_age_seconds defaults.max_account_data_age_seconds;
    minimum_buy_confidence = or_else profile.min_confidence_for_buy defaults.minimum_buy_confidence;
    minimum_sell_confidence =
        or_else profile.min_confidence_for_sell defaults.minimum_sell_confidence;
    daily_order_limit = or_else profile.max_orders_per_day defaults.daily_order_limit;
    per_symbol_daily_order_limit =
        or_else profile.max_orders_per_symbol_per_day defaults.per_symbol_daily_order_limit;
    sizing_enabled = or_else profile.sizing_enabled true;
    demo_orders_enabled = or_else profile.allow_demo_live defaults.demo_orders_enabled;
    real_orders_enabled = or_else profile.allow_real_live defaults.real_orders_enabled;
    allow_margin_buying = or_else profile.allow_margin_buying defaults.allow_margin_buying;
  }

  unfoldable pub profile_layer : TradeProfile D → Result (RiskConfigLayer D)
  unfolding profile_values validated
  profile_layer profile = validated (profile_values profile)
