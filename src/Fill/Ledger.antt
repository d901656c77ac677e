-- ===== src/Fill/Ledger.antt =====
-- `record_fill_delta`, `_insert_fill_if_new` and `_fill_event_key` of app/services/fill_ledger.py.
use Prim.Native.String
use trade_ai_server.Prelude.{
  Bool, not, ◌||◌, Option, none, some, List, [], ◌∷◌, ◌++◌, String, if◌then◌else◌,
}
use trade_ai_server.Prelude.Text.{str_eq, upper}
use trade_ai_server.Prelude.Table.{row_at}
use trade_ai_server.Number.{Number, nought, or_nought}
use trade_ai_server.Order.Row.{OrderLog, Time}
use trade_ai_server.Fill.{OrderFill, FeeConfig, to_decimal, compute_fill_costs, compute_slippage}

-- `action in ("BUY", "SELL")`
unfoldable pub is_side : String → Bool
is_side action = str_eq action "BUY" || str_eq action "SELL"

-- `order_id or row.order_id`
abbrev pub or_text : Option String → Option String → Option String
or_text none t = t
or_text (some s) t = if str_eq s "" then t else some s

-- A fill's quantity and price, and the cumulative quantity and price of its callback.
pub record FillDelta (D : Type 0) : Type 0 where
  pub delta_qty : D
  pub delta_price : D
  pub new_qty : D
  pub new_price : D

module _ {D : Type 0} ⦃n : Number D⦄ where
  open n use {literal, add, sub, mul, div, lt, le, is_finite, text}

  -- the price of the new quantity alone
  unfoldable pub delta_fill_price : D → Option D → D → D → D → D
  delta_fill_price old_qty none new_qty new_price delta = new_price
  delta_fill_price old_qty (some old_price) new_qty new_price delta =
      if le old_qty nought || le old_price nought
      then new_price
      else div (sub (mul new_price new_qty) (mul old_price old_qty)) delta

  unfoldable pub priced_delta : D → Option D → D → D → Option (FillDelta D)
  unfolding delta_fill_price
  priced_delta old_qty old_price new_qty new_price =
      let delta = sub new_qty old_qty in
      let price = delta_fill_price old_qty old_price new_qty new_price delta in
      if le new_price nought
      then none
      else if le price nought
      then none
      else some (record {
        delta_qty = delta;
        delta_price = price;
        new_qty = new_qty;
        new_price = new_price;
      })

  -- after the numbers are read
  unfoldable pub read_delta : D → Option D → Option D → Option D → Option (FillDelta D)
  unfolding priced_delta
  read_delta old_qty old_price none new_price = none
  read_delta old_qty old_price (some new_qty) none = none
  read_delta old_qty old_price (some new_qty) (some new_price) =
      if le (sub new_qty old_qty) nought
      then none
      else priced_delta old_qty old_price new_qty new_price

  -- The new quantity of a callback, or `None` where nothing is to be recorded.
  unfoldable pub fill_delta : Option D → Option D → Option D → Option D → Option (FillDelta D)
  unfolding read_delta
  fill_delta old_filled old_avg new_filled new_avg =
      read_delta (or_nought (to_decimal old_filled)) (to_decimal old_avg) (to_decimal new_filled)
        (to_decimal new_avg)

  -- the query by key and, if it finds nothing, the insertion
  unfoldable pub insert_unless :
      Option (OrderFill D)
      → OrderFill D
      → List (OrderFill D)
      → Option (OrderFill D) × List (OrderFill D)
  insert_unless (some _) fill fills = (none, fills)
  insert_unless none fill fills = (some fill, fills ++ (fill ∷ []))

  -- `_insert_fill_if_new`: the key of a fill is unique
  unfoldable pub insert_fill_if_new :
      OrderFill D → List (OrderFill D) → Option (OrderFill D) × List (OrderFill D)
  unfolding insert_unless
  insert_fill_if_new fill fills =
      insert_unless (row_at (λ f. f.fill_event_key) fill.fill_event_key fills) fill fills

module _ {D : Type 0} ⦃n : Number D⦄ (sha256 : String → String) (fees : FeeConfig D) where
  open n use {literal, add, sub, mul, div, lt, le, is_finite, text}

  -- `_fill_event_key`
  unfoldable pub fill_event_key : String → D → D → String
  fill_event_key request_id qty avg_price = sha256 (
      String.◌++◌ request_id
        (String.◌++◌ "|" (String.◌++◌ (text qty) (String.◌++◌ "|" (text avg_price)))))

  unfoldable pub new_fill :
      OrderLog D → String → Option String → D → D → Option D → String → String → Time → OrderFill D
  new_fill row action order_id qty price limit_price key source filled_at =
      let gross = mul qty price in
      let costs = compute_fill_costs fees gross in
      let slippage = compute_slippage action price limit_price in
      record {
        order_log_id = row.id;
        request_id = row.request_id;
        order_id = order_id;
        account_ref = row.account_ref;
        symbol = upper row.symbol;
        action = action;
        fill_qty = qty;
        fill_price = price;
        limit_price = limit_price;
        gross_value_tl = gross;
        commission_tl = costs.commission;
        exchange_fee_tl = costs.exchange_fee;
        other_fee_tl = costs.other_fee;
        total_cost_tl = costs.total;
        slippage_tl = slippage.0;
        slippage_pct = slippage.1;
        fill_event_key = key;
        fill_source = source;
        filled_at = filled_at;
      }

  -- The recorded fill, if any, and the table of fills.
  unfoldable pub record_fill_delta :
      OrderLog D
      → Option D
      → Option D
      → Option D
      → Option D
      → Option D
      → Option String
      → Time
      → List (OrderFill D)
      → Option (OrderFill D) × List (OrderFill D)
  unfolding fill_delta insert_fill_if_new new_fill fill_event_key is_side
  record_fill_delta row old_filled old_avg new_filled new_avg limit_price order_id filled_at fills =
      let action = upper row.action in
      if not (is_side action)
      then (none, fills)
      else elim (fill_delta old_filled old_avg new_filled new_avg) [
        | none ↦ (none, fills)
        | some d ↦
            insert_fill_if_new
              (new_fill row action (or_text order_id row.order_id) d.delta_qty d.delta_price
                (to_decimal limit_price) (fill_event_key row.request_id d.new_qty d.new_price)
                "CALLBACK_DELTA" filled_at)
              fills
      ]
