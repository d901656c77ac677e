-- ===== src/Sizing.antt =====
-- app/services/position_sizing.py: the size of a BUY order, computed from the account, the trade
-- and the effective limits. A refusal is a result with quantity 0 and its reason.
pub mod Calculate
pub mod Caps
pub mod Cleared
pub mod Budgets
use trade_ai_server.Prelude.{
  Bool, true, false, not, ◌&&◌, Option, none, some, List, [], ◌∷◌, String, or_else, is_none,
  on_some, first_block, if◌then◌else◌, map, select,
}
use trade_ai_server.Prelude.Int.{ℤ, pos, min_ℤ, leb_ℤ, eqb_ℤ}
use trade_ai_server.Number.{Number, nought, hundred, max_of, min_of}

-- `AccountSizingContext`
pub record AccountSizingContext (D : Type 0) : Type 0 where
  pub account_equity_tl : Option D
  pub effective_available_cash_tl : Option D
  pub reserved_cash_tl : D
  pub current_symbol_qty : ℤ
  pub current_symbol_value_tl : Option D
  pub total_account_exposure_tl : Option D
  pub current_bot_symbol_value_tl : Option D
  pub total_bot_exposure_tl : Option D
  pub account_data_age_seconds : Option D
  pub account_data_reliable : Bool
  pub current_symbol_reserved_cash_tl : D

-- `TradeSizingContext`
pub record TradeSizingContext (D : Type 0) : Type 0 where
  pub symbol : String
  pub entry_price : D
  pub stop_loss : D
  pub target_price : D
  pub confidence : D
  pub current_price : D
  pub target_allocation_pct : Option D

-- the fields of `RiskConfigLayer` (app/services/effective_risk_config.py) that sizing reads
pub record RiskLimits (D : Type 0) : Type 0 where
  pub risk_per_trade_pct : D
  pub total_bot_capital_budget_tl : D
  pub max_cash_utilization_pct : D
  pub max_position_value_per_symbol : D
  pub max_order_value_tl : D
  pub max_qty_per_order : ℤ
  pub min_order_value_tl : D
  pub min_stop_distance_pct : D
  pub max_stop_distance_pct : D
  pub minimum_stop_slippage_pct : D
  pub maximum_stop_slippage_pct : D
  pub profile_stop_slippage_pct : D
  pub max_account_data_age_seconds : D
  pub minimum_buy_confidence : D
  pub sizing_enabled : Bool
  pub system_config_version : Option String
  pub trade_profile_code : Option String

-- `calculation_details`
pub record SizingDetails (D : Type 0) : Type 0 where
  pub effective_slippage_pct : D
  pub raw_stop_distance_pct : D
  pub cash_budget_tl : D
  pub committed_symbol_value_tl : D
  pub remaining_symbol_capacity_tl : D
  pub capital_base_tl : D
  pub committed_bot_capital_tl : D
  pub remaining_bot_budget_tl : D
  pub target_position_value_tl : D
  pub remaining_ai_target_tl : D
  pub candidates : List (String × ℤ)  -- the `qty_by_…` entries

-- `PositionSizingResult`
pub record PositionSizingResult (D : Type 0) : Type 0 where
  pub allowed : Bool
  pub qty : ℤ
  pub order_value_tl : D
  pub risk_budget_tl : D
  pub raw_stop_distance_tl : D
  pub slippage_buffer_tl : D
  pub effective_stop_distance_tl : D
  pub estimated_loss_at_stop_tl : D
  pub binding_limits : List String
  pub reason : String
  pub calculation_details : Option (SizingDetails D)

-- the smallest of the candidates; `min` of a dictionary's values, which are never empty here
unfoldable pub smallest : ℤ → List (String × ℤ) → ℤ
smallest q [] = q
smallest q ((_, c) ∷ cs) = smallest (min_ℤ q c) cs

-- the names of the candidates that equal the final quantity
unfoldable pub binding : ℤ → List (String × ℤ) → List String
binding q cs = map (λ e. e.0) (select (λ e. eqb_ℤ e.1 q) cs)
