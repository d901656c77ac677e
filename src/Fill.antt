-- ===== src/Fill.antt =====
-- app/services/fill_ledger.py and app/models/db/order_fill.py: the fills of an order, one row for
-- each new quantity that a callback reports, with its costs and its slippage. `sha256` is a
-- parameter, and so are the configured fees.
pub mod Ledger
pub mod Delta
pub mod Gap
use trade_ai_server.Prelude.{ℕ, Bool, true, false, Option, none, some, String, ◌||◌, if◌then◌else◌}
use trade_ai_server.Prelude.Text.{str_eq, upper}
use trade_ai_server.Number.{Number, nought, hundred, max_of}
use trade_ai_server.Order.Row.{Time}

-- `OrderFill`
pub record OrderFill (D : Type 0) : Type 0 where
  pub order_log_id : ℕ
  pub request_id : String
  pub order_id : Option String
  pub account_ref : Option String
  pub symbol : String
  pub action : String
  pub fill_qty : D
  pub fill_price : D
  pub limit_price : Option D
  pub gross_value_tl : D
  pub commission_tl : D
  pub exchange_fee_tl : D
  pub other_fee_tl : D
  pub total_cost_tl : D
  pub slippage_tl : Option D
  pub slippage_pct : Option D
  pub fill_event_key : String
  pub fill_source : String
  pub filled_at : Time

-- `FeeConfig`, as `get_fee_config` reads it from the admin configuration
pub record FeeConfig (D : Type 0) : Type 0 where
  pub commission_bps : D
  pub minimum_commission_tl : D
  pub exchange_fee_bps : D
  pub other_fee_bps : D

-- `(commission_tl, exchange_fee_tl, other_fee_tl, total_cost_tl)`
pub record FillCosts (D : Type 0) : Type 0 where
  pub commission : D
  pub exchange_fee : D
  pub other_fee : D
  pub total : D

module _ {D : Type 0} ⦃n : Number D⦄ where
  open n use {literal, add, sub, mul, div, lt, le, is_finite}

  -- `to_decimal`
  unfoldable pub to_decimal : Option D → Option D
  to_decimal none = none
  to_decimal (some value) =
      let result = n.to_decimal value in if is_finite result then some result else none

  unfoldable pub compute_fill_costs : FeeConfig D → D → FillCosts D
  compute_fill_costs fees gross =
      let ten_thousand = literal 10000 0 in
      let commission =
        if lt nought fees.commission_bps
        then max_of fees.minimum_commission_tl (div (mul gross fees.commission_bps) ten_thousand)
        else nought in
      let exchange_fee = div (mul gross fees.exchange_fee_bps) ten_thousand in
      let other_fee = div (mul gross fees.other_fee_bps) ten_thousand in
      record {
        commission = commission;
        exchange_fee = exchange_fee;
        other_fee = other_fee;
        total = add (add commission exchange_fee) other_fee;
      }

  -- `(slippage_tl, slippage_pct)`; both are `None` if the limit price is not known
  unfoldable pub compute_slippage : String → D → Option D → Option D × Option D
  compute_slippage action fill_price none = (none, none)
  compute_slippage action fill_price (some limit_price) =
      let slippage =
        if str_eq (upper action) "BUY"
        then sub fill_price limit_price
        else sub limit_price fill_price in
      if le limit_price nought
      then (none, none)
      else (some slippage, some (mul (div slippage limit_price) hundred))
