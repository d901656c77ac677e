-- ===== src/Order/Ledger/Sent.antt =====
-- `mark_send_started` and `mark_send_result` of app/services/order_ledger.py: the order while it is sent,
-- and after.
use trade_ai_server.Prelude.{Bool, true, not, ◌&&◌, none, some, List, String, if◌then◌else◌}
use trade_ai_server.Prelude.Text.{str_eq, upper, member}
use trade_ai_server.Prelude.Table.{put}
use trade_ai_server.Prelude.Result.{Result, ok, ◌>>=◌}
use trade_ai_server.Number.{Number}
use trade_ai_server.Order.Row.{OrderLog, Reservation, Time}
use trade_ai_server.Order.StateMachine.{final_states}
use trade_ai_server.Order.Reservation.{sync_cash_reservation}

module _ {D : Type 0} ⦃n : Number D⦄ where
  unfoldable pub send_started : Time → OrderLog D → OrderLog D
  send_started now row = record row {
    status = "SEND_IN_PROGRESS";
    state = "SEND_IN_PROGRESS";
    send_started_at = some now;
  }

  unfoldable pub send_result : Time → String → String → Bool → OrderLog D → OrderLog D
  send_result now status message uncertain row =
      let state = if uncertain then "SEND_UNKNOWN" else upper status in
      record row {
        status = state;
        state = state;
        matrix_message = some message;
        error_message = if uncertain then some message else none;
        error_code = if uncertain then some "SEND_UNKNOWN" else row.error_code;
        sent_at = if not uncertain && str_eq state "SENT_PENDING" then some now else row.sent_at;
        finalized_at =
            if not uncertain && not (str_eq state "SENT_PENDING") && member state final_states
            then some now
            else row.finalized_at;
      }

  -- the row is written and its reservation synchronised, in one transaction
  unfoldable pub write_synced :
      Time
      → OrderLog D
      → List (OrderLog D)
      → List (Reservation D)
      → Result (List (OrderLog D) × List (Reservation D))
  write_synced now row table reservations = do
    synced ← sync_cash_reservation true now row reservations
    ok (put (λ r. r.request_id) row table, synced.1)

  -- `mark_send_started`
  unfoldable pub mark_send_started :
      Time
      → OrderLog D
      → List (OrderLog D)
      → List (Reservation D)
      → Result (List (OrderLog D) × List (Reservation D))
  unfolding send_started write_synced
  mark_send_started now row table reservations =
      write_synced now (send_started now row) table reservations

  -- `mark_send_result`
  unfoldable pub mark_send_result :
      Time
      → OrderLog D
      → String
      → String
      → Bool
      → List (OrderLog D)
      → List (Reservation D)
      → Result (List (OrderLog D) × List (Reservation D))
  unfolding send_result write_synced
  mark_send_result now row status message uncertain table reservations =
      write_synced now (send_result now status message uncertain row) table reservations
