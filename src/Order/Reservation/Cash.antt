-- ===== src/Order/Reservation/Cash.antt =====
-- `calculate_backend_reserved_cash` and `_transient_reserved_cash` of
-- app/services/cash_reservation.py: the cash that open BUY orders hold, for an account and a symbol.
use Prim.Native.String.{count}
use mathlib.Core.Option
use trade_ai_server.Prelude.{
  Bool, true, false, not, ◌&&◌, ◌||◌, Option, none, some, List, [], ◌∷◌, String, ◌==◌, select,
  exists, is_some,
}
use trade_ai_server.Prelude.Text.{str_eq, upper, strip, member}
use trade_ai_server.Prelude.Table.{row_at}
use trade_ai_server.Prelude.Result.{Result, ok, value_error, ◌>>=◌, ◌>>◌, raise_if}
use trade_ai_server.Number.{Number, nought}
use trade_ai_server.Order.Row.{OrderLog, Reservation, Time}
use trade_ai_server.Order.Reservation.{active_states, pending_states, money, sync_cash_reservation}

-- an account reference that is present and has 64 characters
abbrev pub is_account_ref : Option String → Bool
is_account_ref none = false
is_account_ref (some ref) = count ref == 64

-- `OrderLog.account_ref == ref`, which no null passes
abbrev pub is_of_account : String → Option String → Bool
is_of_account ref none = false
is_of_account ref (some r) = str_eq r ref

unfoldable pub check_ref : Option String → Option String → Result (Unit {0})
check_ref account_ref normalized_ref =
    raise_if (is_some account_ref && not (is_account_ref normalized_ref))
      (value_error "verified account_ref is required for scoped reservations")

module _ {D : Type 0} where
  -- `OrderLog.action == "BUY", OrderLog.status.in_(PENDING_STATES)`
  unfoldable pub is_pending_buy : OrderLog D → Bool
  is_pending_buy row = str_eq row.action "BUY" && member row.status pending_states

  unfoldable pub is_active : Reservation D → Bool
  is_active r = member r.status active_states

  -- the order that a reservation is joined with
  unfoldable pub order_of : List (OrderLog D) → Reservation D → Option (OrderLog D)
  order_of orders r = row_at (λ o. o.request_id) r.request_id orders

  -- an active reservation without an order, or whose order's account is not known
  unfoldable pub is_unowned : List (OrderLog D) → Reservation D → Bool
  unfolding order_of
  is_unowned orders r = elim (order_of orders r) [
    | none ↦ true
    | some o ↦ not (is_account_ref o.account_ref)
  ]

  -- the filters of `open_rows`
  unfoldable pub is_open_row : Option String → String → OrderLog D → Bool
  unfolding is_pending_buy
  is_open_row none symbol row = is_pending_buy row && (str_eq symbol "" || str_eq row.symbol symbol)
  is_open_row (some ref) symbol row =
      is_pending_buy row
      && (is_of_account ref row.account_ref && (str_eq symbol "" || str_eq row.symbol symbol))

  -- the filters of `total_statement`; the join is there only if one of them needs it
  unfoldable pub is_counted : List (OrderLog D) → Option String → String → Reservation D → Bool
  unfolding is_active order_of
  is_counted orders none symbol r =
      is_active r
      && (str_eq symbol ""
          || elim (order_of orders r) [ none ↦ false | some o ↦ str_eq o.symbol symbol ])
  is_counted orders (some ref) symbol r = is_active r && elim (order_of orders r) [
    | none ↦ false
    | some o ↦ is_of_account ref o.account_ref && (str_eq symbol "" || str_eq o.symbol symbol)
  ]

  -- `unknown_pending` and `unknown_reservation`
  unfoldable pub check_owned :
      Option String → List (OrderLog D) → List (Reservation D) → Result (Unit {0})
  unfolding is_pending_buy is_active is_unowned
  check_owned account_ref orders table =
      raise_if
        (is_some account_ref
          && (exists (λ o. is_pending_buy o && not (is_account_ref o.account_ref)) orders
              || exists (λ r. is_active r && is_unowned orders r) table))
        (value_error "active BUY reservation has unknown account ownership")

module _ {D : Type 0} ⦃n : Number D⦄ where
  open n use {add}

  unfoldable pub sum_from : D → List (Reservation D) → D
  sum_from acc [] = acc
  sum_from acc (r ∷ rs) = sum_from (add acc r.reserved_amount_tl) rs

  -- `func.sum(reserved_amount_tl)`, which is null over no row, with 0 in place of the null
  unfoldable pub total_of : List (Reservation D) → Result D
  unfolding sum_from money
  total_of [] = ok nought
  total_of (r ∷ rs) = money (sum_from r.reserved_amount_tl rs)

  -- `for row in open_rows: await sync_cash_reservation(session, row)`
  unfoldable pub sync_rows :
      Time → List (OrderLog D) → List (Reservation D) → Result (List (Reservation D))
  sync_rows now [] table = ok table
  sync_rows now (row ∷ rows) table = do
    s ← sync_cash_reservation true now row table
    sync_rows now rows s.1

  -- The total, and the table of reservations after the rows have been synchronised.
  unfoldable pub calculate_backend_reserved_cash :
      Option String
      → String
      → Time
      → List (OrderLog D)
      → List (Reservation D)
      → Result (D × List (Reservation D))
  unfolding check_ref check_owned is_open_row is_counted total_of sync_rows
  calculate_backend_reserved_cash account_ref symbol now orders table = do
    let normalized_ref = Option.map strip account_ref
    let normalized_symbol = upper (strip symbol)
    check_ref account_ref normalized_ref
    check_owned account_ref orders table
    synced ← sync_rows now (select (is_open_row normalized_ref normalized_symbol) orders) table
    total ← total_of (select (is_counted orders normalized_ref normalized_symbol) synced)
    ok (total, synced)
