-- ===== src/BuyReservation.antt =====
-- `reserve_sized_buy` and `_transient_reserved_cash` of app/services/cash_reservation.py: a BUY is sized
-- against the cash that is free, and its order and its cash are reserved, in one transaction under the
-- lock of the account. The adapter is an argument of the function, as in the source: `normalize` stands
-- for its call with the raw account, positions, orders and prices and with the lots that the bot owns,
-- `accountRef` is what the raw account has under that key. The audit rows are not modelled.
pub mod Held
use Prim.Native.String
use trade_ai_server.Prelude.{
  ◌≡◌, Bool, true, false, not, ◌&&◌, ◌||◌, Option, none, some, List, String, if◌then◌else◌, or_else,
  ltb, select,
}
use trade_ai_server.Prelude.Int.{ℤ, pos, min_ℤ, leb_ℤ}
use trade_ai_server.Prelude.Text.{str_eq, upper, strip}
use trade_ai_server.Prelude.Result.{Result, ok, raised, value_error, ◌>>=◌, ◌>>◌, raise_if}
use trade_ai_server.Number.{Number, nought, max_of, is_truthy}
use trade_ai_server.Order.Row.{OrderLog, Reservation, Time}
use trade_ai_server.Order.Ledger.{Outside, OrderRequest, Reserved, reserve_order}
use trade_ai_server.Order.Ledger.Sent.{send_started, write_synced}
use trade_ai_server.Order.Reservation.Cash.{
  is_active, order_of, is_of_account, total_of, calculate_backend_reserved_cash,
}
use trade_ai_server.Sizing.{
  AccountSizingContext, TradeSizingContext, RiskLimits, PositionSizingResult,
}
use trade_ai_server.Sizing.Calculate.{calculate_buy_size}

-- `MatriksAccountContextAdapter`, as far as the reservation uses it
pub record Adapter (D : Type 0) : Type 0 where
  pub normalize : D → D → Result (AccountSizingContext D)
  pub broker_already_deducted : Bool  -- `reservation_handling == "BROKER_ALREADY_DEDUCTED"`
  pub cutoff : Time → D → Time  -- `now - timedelta(seconds=float(age))`

-- the arguments of `reserve_sized_buy`
pub record BuyRequest (D : Type 0) : Type 0 where
  pub request_id : String
  pub symbol : String
  pub original_decision_qty : ℤ
  pub limit_price : D
  pub mode : String
  pub raw_account_ref : Option String
  pub trade : TradeSizingContext D
  pub limits : RiskLimits D
  pub account_ref : Option String

-- the two tables that the transaction writes
pub record Tables (D : Type 0) : Type 0 where
  pub orders : List (OrderLog D)
  pub reservations : List (Reservation D)

-- `BuyReservationResult`
pub record BuyReservationResult (D : Type 0) : Type 0 where
  pub allowed : Bool
  pub qty : ℤ
  pub reason : String
  pub ledger : Option (OrderLog D)
  pub sizing : PositionSizingResult D
  pub account_context : AccountSizingContext D

module _ {D : Type 0} ⦃n : Number D⦄ where
  open n use {sub, of_int}

  -- the filters of `_transient_reserved_cash`
  unfoldable pub is_transient : List (OrderLog D) → String → Time → Reservation D → Bool
  unfolding is_active order_of
  is_transient orders account_ref cutoff r =
      is_active r
      && (ltb cutoff r.created_at && elim (order_of orders r) [
        | none ↦ false
        | some o ↦ is_of_account account_ref o.account_ref
      ])

  -- `_transient_reserved_cash`
  unfoldable pub transient_reserved_cash :
      Adapter D → Time → Option D → String → Tables D → Result D
  transient_reserved_cash adapter now none account_ref tables = ok nought
  transient_reserved_cash adapter now (some age) account_ref tables =
      total_of (
        select (is_transient tables.orders account_ref (adapter.cutoff now age))
          tables.reservations)

  -- `account.model_copy(update=...)`
  unfoldable pub without_transient : AccountSizingContext D → Option D → D → AccountSizingContext D
  without_transient account none transient = account
  without_transient account (some cash) transient =
      if is_truthy transient
      then record account {
        effective_available_cash_tl = some (max_of nought (sub cash transient));
      }
      else account

  unfoldable pub deducted :
      Adapter D
      → Time
      → String
      → Tables D
      → AccountSizingContext D
      → Result (AccountSizingContext D)
  deducted adapter now account_ref tables account =
      if adapter.broker_already_deducted
      then (transient_reserved_cash adapter now account.account_data_age_seconds account_ref tables
          >>= (λ transient.
              ok (without_transient account account.effective_available_cash_tl transient)))
      else ok account

  -- the account of the order that is reserved
  unfoldable pub check_account : BuyRequest D → Result (Unit {0})
  check_account request = do
    raise_if (str_eq (or_else request.account_ref "") "")
        (value_error "verified account_ref is required for BUY reservation")
    raise_if
        (not (str_eq (strip (or_else request.raw_account_ref "")) (or_else request.account_ref "")))
        (value_error "fresh account_ref does not match dispatch account")

  -- the arguments of `reserve_order`
  unfoldable pub order_request : BuyRequest D → ℤ → OrderRequest D
  order_request request qty = record {
    request_id = request.request_id;
    symbol = request.symbol;
    side = "BUY";
    qty = of_int qty;
    limit_price = request.limit_price;
    mode = request.mode;
    order_type = "LIMIT";
    config_version = request.limits.system_config_version;
    profile_code = request.limits.trade_profile_code;
    account_ref = request.account_ref;
  }

  -- `min(original_decision_qty, sizing.qty) if sizing.allowed else 0`
  unfoldable pub final_buy_qty : ℤ → PositionSizingResult D → ℤ
  final_buy_qty decision_qty sizing =
      if sizing.allowed then min_ℤ decision_qty sizing.qty else pos 0

  unfoldable pub refused :
      String
      → Option (OrderLog D)
      → PositionSizingResult D
      → AccountSizingContext D
      → BuyReservationResult D
  refused reason ledger sizing account = record {
    allowed = false;
    qty = pos 0;
    reason = reason;
    ledger = ledger;
    sizing = sizing;
    account_context = account;
  }

  unfoldable pub granted :
      ℤ → OrderLog D → PositionSizingResult D → AccountSizingContext D → BuyReservationResult D
  granted qty row sizing account = record {
    allowed = true;
    qty = qty;
    reason = "BUY cash reserved atomically";
    ledger = some row;
    sizing = sizing;
    account_context = account;
  }

  -- the part after `reserve_order`
  unfoldable pub finish_buy :
      Time
      → ℤ
      → PositionSizingResult D
      → AccountSizingContext D
      → List (Reservation D)
      → Reserved D × List (OrderLog D)
      → Result (BuyReservationResult D × Tables D)
  finish_buy now qty sizing account reservations (reserved, orders) =
      if not reserved.may_send
      then ok (
        refused
            (or_else reserved.rejection
              (String.◌++◌ "request already reserved: " reserved.row.status))
            (some reserved.row) sizing account,
        record { orders = orders; reservations = reservations },
      )
      else (let row = send_started now reserved.row in
          write_synced now row orders reservations >>= (λ written. ok (
            granted qty row sizing account,
            record { orders = written.0; reservations = written.1 },
          )))

  -- the part after the sizing
  unfoldable pub reserve_sized :
      Outside D
      → Time
      → BuyRequest D
      → Tables D
      → AccountSizingContext D
      → Result (BuyReservationResult D × Tables D)
  reserve_sized env now request tables account =
      let sizing = calculate_buy_size account request.trade request.limits in
      let qty = final_buy_qty request.original_decision_qty sizing in
      if leb_ℤ qty (pos 0)
      then ok (refused sizing.reason none sizing account, tables)
      else (reserve_order env now (order_request request qty) tables.orders
          >>= finish_buy now qty sizing account tables.reservations)

  -- the cash that is reserved for the account and for the symbol, and the reservations brought up to date
  unfoldable pub reserved_cash :
      Time → BuyRequest D → Tables D → Result ((D × D) × List (Reservation D))
  reserved_cash now request tables = do
    backend ←
        calculate_backend_reserved_cash request.account_ref "" now tables.orders tables.reservations
    of_symbol ←
        calculate_backend_reserved_cash request.account_ref request.symbol now tables.orders
          backend.1
    ok ((backend.0, of_symbol.0), of_symbol.1)

  unfoldable pub account_context :
      Adapter D → Time → BuyRequest D → Tables D → D × D → Result (AccountSizingContext D)
  account_context adapter now request tables (backend, of_symbol) =
      adapter.normalize backend of_symbol
      >>= deducted adapter now (or_else request.account_ref "") tables

  -- `reserve_sized_buy`; an exception rolls the transaction back
  unfoldable pub reserve_sized_buy :
      Outside D
      → Adapter D
      → Time
      → BuyRequest D
      → Tables D
      → Result (BuyReservationResult D × Tables D)
  reserve_sized_buy env adapter now request tables =
      raise_if (leb_ℤ request.original_decision_qty (pos 0))
        (value_error "original_decision_qty must be a positive integer")
      >> (check_account request
          >> (reserved_cash now request tables >>= (λ known.
              let synced = record tables { reservations = known.1 } in
              account_context adapter now request synced known.0
              >>= reserve_sized env now request synced)))
