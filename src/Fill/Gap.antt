-- ===== src/Fill/Gap.antt =====
-- `find_missing_fill_gap` and `record_reconciliation_fill` of app/services/fill_ledger.py: the quantity
-- that an order has filled and no fill of the ledger has recorded.
pub mod Closed
use Prim.Native.String
use trade_ai_server.Prelude.{
  Bool, not, ◌||◌, Option, none, some, List, [], ◌∷◌, String, if◌then◌else◌, or_else, select, ◌==◌,
}
use trade_ai_server.Prelude.Text.{upper}
use trade_ai_server.Number.{Number, nought, or_nought}
use trade_ai_server.Order.Row.{OrderLog, Time}
use trade_ai_server.Fill.{OrderFill, FeeConfig, to_decimal}
use trade_ai_server.Fill.Ledger.{is_side, insert_fill_if_new, fill_event_key, new_fill}

-- `(missing_qty, missing_price)`
pub record MissingFill (D : Type 0) : Type 0 where
  pub qty : D
  pub price : D

module _ {D : Type 0} ⦃n : Number D⦄ where
  open n use {literal, add, sub, mul, div, lt, le, is_finite}

  -- `func.coalesce(func.sum(...), 0)` over the fills
  unfoldable pub sum_fills : (OrderFill D → D) → D → List (OrderFill D) → D
  sum_fills amount acc [] = acc
  sum_fills amount acc (fill ∷ fills) = sum_fills amount (add acc (amount fill)) fills

  -- `OrderFill.order_log_id == row.id`
  unfoldable pub fills_of : OrderLog D → List (OrderFill D) → List (OrderFill D)
  fills_of row fills = select (λ f. f.order_log_id == row.id) fills

  -- `to_decimal(recorded) or Decimal("0")`
  unfoldable pub recorded_qty : OrderLog D → List (OrderFill D) → D
  unfolding sum_fills fills_of
  recorded_qty row fills =
      or_nought (to_decimal (some (sum_fills (λ f. f.fill_qty) nought (fills_of row fills))))

  unfoldable pub recorded_cost : OrderLog D → List (OrderFill D) → D
  unfolding sum_fills fills_of
  recorded_cost row fills =
      or_nought (
        to_decimal
          (some (sum_fills (λ f. mul f.fill_qty f.fill_price) nought (fills_of row fills))))

  -- the checks of the price of what is missing
  unfoldable pub priced_gap : D → D → D → D → Option (MissingFill D)
  priced_gap expected_qty expected_price missing_qty recorded_cost =
      let price = div (sub (mul expected_price expected_qty) recorded_cost) missing_qty in
      if le price nought || not (is_finite price)
      then none
      else if lt (mul expected_price (literal 10 0)) price
          || lt price (mul expected_price (literal 1 1))
      then none
      else some (record { qty = missing_qty; price = price })

  unfoldable pub gap_of : Option D → Option D → D → D → Option (MissingFill D)
  gap_of none _ recorded_qty recorded_cost = none
  gap_of (some expected_qty) none recorded_qty recorded_cost = none
  gap_of (some expected_qty) (some expected_price) recorded_qty recorded_cost =
      if le expected_qty nought
      then none
      else if le expected_price nought
      then none
      else if le (sub expected_qty recorded_qty) nought
      then none
      else priced_gap expected_qty expected_price (sub expected_qty recorded_qty) recorded_cost

  -- `find_missing_fill_gap`
  unfoldable pub find_missing_fill_gap : OrderLog D → List (OrderFill D) → Option (MissingFill D)
  find_missing_fill_gap row fills =
      gap_of (to_decimal (some row.filled_qty)) (to_decimal row.avg_price) (recorded_qty row fills)
        (recorded_cost row fills)

module _ {D : Type 0} ⦃n : Number D⦄ (sha256 : String → String) (fees : FeeConfig D) where
  unfoldable pub reconciliation_fill : OrderLog D → Time → MissingFill D → OrderFill D
  reconciliation_fill row filled_at gap =
      new_fill sha256 fees row (upper row.action) row.order_id gap.qty gap.price
        (to_decimal row.limit_price)
        (fill_event_key sha256 fees (String.◌++◌ row.request_id "|RECONCILIATION")
          (or_nought (to_decimal (some row.filled_qty))) (or_nought (to_decimal row.avg_price)))
        "RECONCILIATION" filled_at

  unfoldable pub record_gap :
      OrderLog D
      → Time
      → Option (MissingFill D)
      → List (OrderFill D)
      → Option (OrderFill D) × List (OrderFill D)
  record_gap row filled_at none fills = (none, fills)
  record_gap row filled_at (some gap) fills =
      insert_fill_if_new (reconciliation_fill row filled_at gap) fills

  -- `record_reconciliation_fill`; `updated_at` is `row.updated_at or now`
  unfoldable pub record_reconciliation_fill :
      OrderLog D → Time → List (OrderFill D) → Option (OrderFill D) × List (OrderFill D)
  record_reconciliation_fill row updated_at fills =
      if not (is_side (upper row.action))
      then (none, fills)
      else record_gap row (or_else row.finalized_at updated_at) (find_missing_fill_gap row fills)
          fills
