-- ===== src/Order/Reservation.antt =====
-- app/services/cash_reservation.py: the cash that an open BUY order holds back. Each BUY row of the
-- ledger is mirrored into one reservation row, which `sync_cash_reservation` keeps up to date.
pub mod Mirror
pub mod Cash
pub mod Total
pub mod Branches
use trade_ai_server.Prelude.{
  ◌≡◌, Bool, true, false, not, ◌&&◌, ◌||◌, Option, none, some, List, [], ◌∷◌, String, if◌then◌else◌,
}
use trade_ai_server.Prelude.Int.{ℤ, pos, max_ℤ}
use trade_ai_server.Prelude.Text.{str_eq, upper, member}
use trade_ai_server.Prelude.Table.{row_at, put}
use trade_ai_server.Prelude.Result.{Result, ok, raised, value_error, ◌>>=◌, ◌>>◌, raise_if}
use trade_ai_server.Number.{Number, nought, max_of, is_truthy, or_value, truthy_or_nought}
use trade_ai_server.Order.Row.{OrderLog, Reservation, Time}
use trade_ai_server.Order.StateMachine.{final_states}

-- `ACTIVE_RESERVATION_STATES`
abbrev pub active_states : List String
active_states =
    "RESERVED" ∷ "SEND_STARTED" ∷ "SEND_IN_PROGRESS" ∷ "SENT_PENDING" ∷ "NEW" ∷ "PARTIALLY_FILLED"
    ∷ "SEND_UNKNOWN" ∷ "CANCEL_REQUESTED" ∷ []

-- `RELEASED_RESERVATION_STATES`, and `FINAL_STATES` of the ledger
abbrev pub released_states : List String
released_states = "FILLED" ∷ "REJECTED" ∷ "CANCELED" ∷ "CANCELLED" ∷ "EXPIRED" ∷ []

-- `PENDING_STATES` of the ledger
abbrev pub pending_states : List String
pending_states =
    "RESERVED" ∷ "SEND_IN_PROGRESS" ∷ "SENT_PENDING" ∷ "SEND_UNKNOWN" ∷ "NEW" ∷ "PARTIALLY_FILLED"
    ∷ "CANCEL_REQUESTED" ∷ []

-- the statuses that release a reservation
unfoldable pub is_released : String → Bool
is_released status = member status released_states || member status final_states

-- the statuses under which an order holds cash
unfoldable pub is_open : String → Bool
is_open status = member status active_states || member status pending_states

-- The reservation of a row, and the table of reservations, after a call.
abbrev pub Synced : Type 0 → Type 0
Synced D = Option (Reservation D) × List (Reservation D)

module _ {D : Type 0} ⦃n : Number D⦄ where
  open n use {sub, mul, le, eq, is_finite, whole, of_int, to_decimal}

  -- `_money`
  unfoldable pub money : D → Result D
  money value =
      let result = to_decimal value in
      if not (is_finite result)
      then raised (value_error "reservation value must be finite")
      else ok result

  -- `row.order_qty or row.qty`
  abbrev pub ordered : OrderLog D → D
  ordered row = if is_truthy row.order_qty then row.order_qty else row.qty

  unfoldable pub reservation_price : OrderLog D → Result D
  unfolding money
  reservation_price row =
      elim (or_value row.rounded_limit_price (or_value row.limit_price row.price)) [
        | none ↦ raised (value_error "BUY reservation requires a limit price")
        | some price_raw ↦ (do
          price ← money price_raw
          raise_if (le price nought) (value_error "BUY reservation price must be positive")
          ok price)
      ]

  -- `_remaining_order`
  unfoldable pub remaining_order : OrderLog D → Result (ℤ × D)
  unfolding money reservation_price
  remaining_order row = do
    order_qty ← money (truthy_or_nought (ordered row))
    filled_qty ← money (truthy_or_nought row.filled_qty)
    let remaining = max_of nought (sub order_qty filled_qty)
    raise_if (not (eq remaining (of_int (whole remaining))))
        (value_error "order remaining quantity must be an integer")
    price ← reservation_price row
    ok (whole remaining, price)

  -- `int(_money(row.order_qty or row.qty))`
  unfoldable pub ordered_qty : OrderLog D → Result ℤ
  unfolding money
  ordered_qty row = do qty ← money (ordered row); ok (whole qty)

  -- the row of a new reservation, or the old one brought up to date
  unfoldable pub mirrored :
      Time → OrderLog D → String → ℤ → ℤ → D → Option (Reservation D) → Reservation D
  mirrored now row status ordered remaining_qty price none = record {
    request_id = row.request_id;
    symbol = upper row.symbol;
    side = "BUY";
    reserved_qty = ordered;
    remaining_qty = remaining_qty;
    limit_price = price;
    reserved_amount_tl = mul (of_int remaining_qty) price;
    status = status;
    created_at = now;
    released_at = none;
  }
  mirrored now row status ordered remaining_qty price (some existing) = record existing {
    symbol = upper row.symbol;
    reserved_qty = max_ℤ existing.reserved_qty ordered;
    remaining_qty = remaining_qty;
    limit_price = price;
    reserved_amount_tl = mul (of_int remaining_qty) price;
    status = status;
    released_at = none;
  }

  -- `str(row.status or row.state or "").upper()`
  unfoldable pub row_status : OrderLog D → String
  row_status row = upper (if str_eq row.status "" then row.state else row.status)

  -- `str(row.action).upper() == "BUY"`
  unfoldable pub is_buy : OrderLog D → Bool
  is_buy row = str_eq (upper row.action) "BUY"

  unfoldable pub release : String → Time → Reservation D → Reservation D
  release status now existing = record existing {
    status = status;
    remaining_qty = pos 0;
    reserved_amount_tl = nought;
    released_at = some now;
  }

  unfoldable pub release_row :
      String → Time → Option (Reservation D) → List (Reservation D) → Synced D
  unfolding release
  release_row status now none table = (none, table)
  release_row status now (some existing) table = (
    some (release status now existing),
    put (λ r. r.request_id) (release status now existing) table,
  )

  unfoldable pub write_row :
      Time
      → OrderLog D
      → String
      → Option (Reservation D)
      → List (Reservation D)
      → ℤ × D
      → Result (Synced D)
  unfolding ordered_qty mirrored
  write_row now row status existing table (remaining_qty, price) = do
    ordered ← ordered_qty row
    let r = mirrored now row status ordered remaining_qty price existing
    ok (some r, put (λ x. x.request_id) r table)

  -- the `try`/`except ValueError` round `_remaining_order`
  unfoldable pub mirror_row :
      Bool
      → Time
      → OrderLog D
      → String
      → Option (Reservation D)
      → List (Reservation D)
      → Result (ℤ × D)
      → Result (Synced D)
  unfolding write_row
  mirror_row strict now row status existing table (raised e) =
      if strict then raised e else ok (existing, table)
  mirror_row strict now row status existing table (ok remaining) =
      write_row now row status existing table remaining

  unfoldable pub sync_cash_reservation :
      Bool → Time → OrderLog D → List (Reservation D) → Result (Synced D)
  unfolding row_status is_buy release_row mirror_row remaining_order
  sync_cash_reservation strict now row table =
      let existing = row_at (λ r. r.request_id) row.request_id table in
      let status = row_status row in
      if not (is_buy row)
      then ok (none, table)
      else if is_released status
      then ok (release_row status now existing table)
      else if not (is_open status)
      then ok (existing, table)
      else mirror_row strict now row status existing table (remaining_order row)
