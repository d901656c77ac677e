-- ===== src/Examples/Orders.antt =====
-- Orders, reservations, callbacks and repairs at concrete inputs.
use trade_ai_server.Prelude.{
  ◌≡◌, ◌≤◌, ◌&&◌, true, false, none, some, List, [], ◌∷◌, All, select, length,
}
use trade_ai_server.Prelude.Int.{ℤ, pos}
use trade_ai_server.Prelude.Text.{upper, strip}
use trade_ai_server.Prelude.Table.{row_at}
use trade_ai_server.Prelude.Result.{ok, Ensures}
use trade_ai_server.Number.Whole.{whole_number}
use trade_ai_server.Order.Row.{OrderLog, Reservation}
use trade_ai_server.Order.Reservation.{sync_cash_reservation}
use trade_ai_server.Order.Reservation.Mirror.{Updates, sync-Updates}
use trade_ai_server.Order.Reservation.Branches.{Mirrors, sync-Mirrors}
use trade_ai_server.Order.Reservation.Cash.{
  is_open_row, is_counted, total_of, calculate_backend_reserved_cash,
}
use trade_ai_server.Order.Reservation.Total.{IsCounted, reserved_cash_covers}
use trade_ai_server.Order.Ledger.{Outside, OrderRequest, reserve_order}
use trade_ai_server.Order.Ledger.Once.{IsNew, reserve_order-MaySend}
use trade_ai_server.Order.Ledger.Trace.{
  LedgerStep, reserving, starting, answering, committing, KeepsOrders, IsKeeping, answers, is_for,
  reserve_order_once,
}

abbrev pub outside : Outside ℤ
outside = record {
  sha256 = λ s. s;
  int_text = λ _. "10";
  fixed_text = λ _. "25.00";
  new_id = λ rows. 1;
  committed = λ rows. rows;
}

abbrev request : OrderRequest ℤ
request = record {
  request_id = " r-1 ";
  symbol = "thyao";
  side = "buy";
  qty = pos 10;
  limit_price = pos 25;
  mode = "AUTO_TRADE";
  order_type = "LIMIT";
  config_version = none;
  profile_code = some "P1";
  account_ref = none;
}

abbrev pub order : OrderLog ℤ
order = record {
  id = 1;
  request_id = "r-1";
  request_fingerprint = some "f";
  symbol = "THYAO";
  action = "BUY";
  qty = pos 10;
  price = some (pos 25);
  order_qty = pos 10;
  limit_price = some (pos 25);
  order_id = some "o-1";
  status = "SENT_PENDING";
  state = "SENT_PENDING";
  mode = "AUTO_TRADE";
  order_type = "LIMIT";
  account_ref = none;
  rounded_limit_price = some (pos 25);
  filled_qty = pos 4;
  last_fill_qty = pos 4;
  avg_price = some (pos 25);
  reservation_created_at = some 0;
  send_started_at = some 1;
  sent_at = some 2;
  finalized_at = none;
  error_code = none;
  config_version = none;
  profile_code = none;
  matrix_message = none;
  error_message = none;
}

abbrev filled_order : OrderLog ℤ
filled_order = record order { status = "FILLED"; state = "FILLED"; filled_qty = pos 10 }

reserve_order-MaySend_example :
    Ensures
      (λ result. result.0.may_send ≡ true → IsNew outside 0 request [] result)
      (reserve_order outside 0 request [])
reserve_order-MaySend_example = reserve_order-MaySend outside 0 request []

-- a request, its sending and answer, another commit, and the request again
abbrev steps : List (LedgerStep ℤ)
steps =
    reserving outside 0 request
    ∷ starting 1 order []
    ∷ answering 2 order "FILLED" "done" false []
    ∷ committing (λ rows. rows)
    ∷ reserving outside 7 request
    ∷ []

reserve_order_once_example :
    length (select (λ (step, allowed). is_for "r-1" step && allowed) (answers steps [])) ≤ 1
unfolding KeepsOrders IsKeeping row_at
reserve_order_once_example =
    reserve_order_once "r-1" steps [] ((λ _ _ h. h), (tt, (tt, ((λ _ _ h. h), ((λ _ _ h. h), tt)))))

sync-Updates_example : Ensures (λ s. Updates "r-1" [] s.1) (sync_cash_reservation true 5 order [])
sync-Updates_example = sync-Updates true 5 order []

abbrev reservation : Reservation ℤ
reservation = record {
  request_id = "r-1";
  symbol = "THYAO";
  side = "BUY";
  reserved_qty = pos 10;
  remaining_qty = pos 6;
  limit_price = pos 25;
  reserved_amount_tl = pos 150;
  status = "SENT_PENDING";
  created_at = 10;
  released_at = none;
}

sync-Mirrors_example :
    Mirrors false 9 filled_order
      (reservation ∷ [])
      (sync_cash_reservation false 9 filled_order (reservation ∷ []))
sync-Mirrors_example = sync-Mirrors false 9 filled_order (reservation ∷ [])

reserved_cash_covers_example :
    Ensures
      (λ (total, t').
        (total_of (select (is_counted (order ∷ []) none (upper (strip "thyao"))) t') ≡ ok total)
        × All
            (λ o.
              is_open_row none (upper (strip "thyao")) o ≡ true
              → IsCounted (order ∷ []) none (upper (strip "thyao")) t' o)
            (order ∷ []))
      (calculate_backend_reserved_cash none "thyao" 5 (order ∷ []) (reservation ∷ []))
reserved_cash_covers_example =
    reserved_cash_covers none "thyao" 5 (order ∷ []) (reservation ∷ []) (tt, tt)
