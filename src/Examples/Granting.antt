-- ===== src/Examples/Granting.antt =====
-- A BUY that is reserved, at concrete inputs.
use trade_ai_server.Prelude.{◌≡◌, true, false, none, some, [], ◌∷◌, String, refl}
use trade_ai_server.Prelude.Int.{ℤ, pos, ◌+ℤ◌, ◌-ℤ◌, ◌*ℤ◌}
use trade_ai_server.Prelude.Text.{upper, strip}
use trade_ai_server.Prelude.Table.{row_at, put}
use trade_ai_server.Prelude.Result.{ok, Ensures}
use trade_ai_server.Number.Whole.{whole_number, div_ℤ}
use trade_ai_server.Order.Row.{OrderLog, Reservation}
use trade_ai_server.Sizing.{smallest}
use trade_ai_server.Sizing.Calculate.{
  known, lots, guards, capital_base, risk_budget, raw_stop_distance, raw_stop_pct, slippage_pct,
  slippage_buffer, effective_stop_distance, cash_budget, committed_symbol_value,
  remaining_symbol_capacity, committed_bot_capital, remaining_bot_budget, target_position_value,
  remaining_ai_target, candidates, final_qty, order_value, estimated_loss, accepted, sized,
  measured, calculate_buy_size,
}
use trade_ai_server.Order.Ledger.{reserve_order, reserved_row}
use trade_ai_server.Order.Ledger.Sent.{write_synced, send_started}
use trade_ai_server.Order.Reservation.{sync_cash_reservation, is_released, is_open}
use trade_ai_server.Order.Reservation.Cash.{calculate_backend_reserved_cash, total_of}
use trade_ai_server.BuyReservation.{
  Adapter, BuyRequest, Tables, BuyReservationResult, reserve_sized_buy, order_request,
  reserved_cash, account_context, final_buy_qty, deducted, transient_reserved_cash,
  without_transient, reserve_sized, finish_buy, granted, check_account,
}
use trade_ai_server.BuyReservation.Held.{
  IsReserved, reserve_sized_buy-IsReserved, reserve_sized_buy_once,
}
use trade_ai_server.Examples.Orders.{outside}
use trade_ai_server.Examples.Decisions.{account, trade, limits}

abbrev account_ref : String
account_ref = "aaaaaaaaaaaaaaaaaaaaaaaaaaaaaaaaaaaaaaaaaaaaaaaaaaaaaaaaaaaaaaaa"

abbrev adapter : Adapter ℤ
adapter = record {
  normalize = λ reserved of_symbol.
      ok (record account {
        reserved_cash_tl = reserved;
        current_symbol_reserved_cash_tl = of_symbol;
      });
  broker_already_deducted = true;
  cutoff = λ now age. now;
}

abbrev request : BuyRequest ℤ
request = record {
  request_id = " r-9 ";
  symbol = "THYAO";
  original_decision_qty = pos 30;
  limit_price = pos 100;
  mode = "AUTO_TRADE";
  raw_account_ref = some account_ref;
  trade = trade;
  limits = limits;
  account_ref = some account_ref;
}

abbrev no_rows : Tables ℤ
no_rows = record { orders = []; reservations = [] }

reserve_sized_buy-IsReserved_example :
    Ensures
      (λ result. result.0.allowed ≡ true → IsReserved outside 3 request [] result)
      (reserve_sized_buy outside adapter 3 request no_rows)
reserve_sized_buy-IsReserved_example =
    reserve_sized_buy-IsReserved outside 3 request adapter no_rows

cash_lem : reserved_cash 3 request no_rows ≡ ok ((pos 0, pos 0), [])
unfolding reserved_cash calculate_backend_reserved_cash strip upper
cash_lem = refl

account_lem : account_context adapter 3 request no_rows (pos 0, pos 0) ≡ ok account
unfolding account_context deducted transient_reserved_cash without_transient total_of
account_lem = refl

qty_lem : final_buy_qty (pos 30) (calculate_buy_size account trade limits) ≡ pos 30
unfolding final_buy_qty known lots guards capital_base risk_budget raw_stop_distance raw_stop_pct
    slippage_pct slippage_buffer effective_stop_distance cash_budget committed_symbol_value
    remaining_symbol_capacity committed_bot_capital remaining_bot_budget target_position_value
    remaining_ai_target candidates final_qty order_value estimated_loss accepted sized measured
    calculate_buy_size div_ℤ ◌*ℤ◌ ◌-ℤ◌ ◌+ℤ◌ smallest
qty_lem = refl

abbrev row : OrderLog ℤ
row = send_started 3 (reserved_row outside 3 (order_request request (pos 30)) "r-9" 1)

order_lem :
    reserve_order outside 3 (order_request request (pos 30)) []
    ≡ ok (
      record {
        row = reserved_row outside 3 (order_request request (pos 30)) "r-9" 1;
        may_send = true;
        rejection = none;
      },
      reserved_row outside 3 (order_request request (pos 30)) "r-9" 1 ∷ [],
    )
unfolding reserve_order order_request strip upper row_at
order_lem = refl

abbrev reservation : Reservation ℤ
reservation = record {
  request_id = "r-9";
  symbol = "THYAO";
  side = "BUY";
  reserved_qty = pos 30;
  remaining_qty = pos 30;
  limit_price = pos 100;
  reserved_amount_tl = pos 3000;
  status = "SEND_IN_PROGRESS";
  created_at = 3;
  released_at = none;
}

written_lem :
    write_synced 3 row (reserved_row outside 3 (order_request request (pos 30)) "r-9" 1 ∷ []) []
    ≡ ok (row ∷ [], reservation ∷ [])
unfolding write_synced sync_cash_reservation reserved_row order_request send_started put row_at
    upper strip ◌*ℤ◌ is_released is_open ◌-ℤ◌
written_lem = refl

abbrev outcome : BuyReservationResult ℤ × Tables ℤ
outcome = (
  granted (pos 30) row (calculate_buy_size account trade limits) account,
  record { orders = row ∷ []; reservations = reservation ∷ [] },
)

sized_lem : reserve_sized outside 3 request no_rows account ≡ ok outcome
unfolding reserve_sized finish_buy
sized_lem = rw qty_lem (rw order_lem (rw written_lem refl))

outcome_lem : reserve_sized_buy outside adapter 3 request no_rows ≡ ok outcome
unfolding reserve_sized_buy check_account strip
outcome_lem = rw cash_lem (rw account_lem (rw sized_lem refl))

reserve_sized_buy_once_example :
    Ensures
      (λ again. again.0.allowed ≡ false)
      (reserve_sized_buy outside adapter 8 (record request { request_id = "r-9" }) outcome.1)
unfolding granted strip
reserve_sized_buy_once_example =
    reserve_sized_buy_once outside outside adapter adapter 3 8 request
      (record request { request_id = "r-9" }) no_rows outcome outcome_lem refl refl
