-- ===== src/BuyReservation/Held.antt =====
-- What a granted reservation guarantees.
use trade_ai_server.Prelude.{
  ◌≡◌, refl, true, false, none, some, List, inl, inr, arith, Bool-cases, ℕ,
}
use trade_ai_server.Prelude.Int.{ℤ, pos, ◌≤ℤ◌, leb_ℤ}
use trade_ai_server.Prelude.Text.{strip, upper}
use trade_ai_server.Prelude.Table.{row_at-put_self}
use trade_ai_server.Prelude.Result.{
  ok, raise_if, Ensures, returns, Ensures->>=, Ensures-ok_of, Ensures-map, ◌>>=◌,
}
use trade_ai_server.Number.{Number}
use trade_ai_server.Order.Row.{OrderLog, Reservation, Time}
use trade_ai_server.Order.Ledger.{Outside, Reserved, order_at, reserved_row, reserve_order}
use trade_ai_server.Order.Ledger.Sent.{send_started, write_synced}
use trade_ai_server.Order.Ledger.Once.{IsNew, reserve_order-MaySend}
use trade_ai_server.Order.Reservation.{
  is_buy, is_released, is_open, row_status, sync_cash_reservation,
}
use trade_ai_server.Order.Reservation.Mirror.{reservation_of, Holds, sync-IsHeld}
use trade_ai_server.Sizing.{AccountSizingContext, PositionSizingResult}
use trade_ai_server.Sizing.Calculate.{calculate_buy_size}
use trade_ai_server.BuyReservation.{
  Adapter, BuyRequest, Tables, BuyReservationResult, check_account, order_request, final_buy_qty,
  refused, granted, finish_buy, reserve_sized, reserved_cash, account_context, reserve_sized_buy,
}

module _ {D : Type 0} ⦃n : Number D⦄ where
  -- A BUY row that is written with an open status is in the ledger, and its cash is held.
  write_synced-IsHeld :
      (now : Time) (row : OrderLog D) (orders : List (OrderLog D))
      (reservations : List (Reservation D))
      → is_buy row ≡ true
      → is_released (row_status row) ≡ false
      → is_open (row_status row) ≡ true
      → Ensures
          (λ t.
            (order_at row.request_id t.0 ≡ some row)
            × ((r : Reservation D) × (reservation_of row.request_id t.1 ≡ some r) × Holds row r))
          (write_synced now row orders reservations)
  unfolding write_synced
  write_synced-IsHeld now row orders reservations buy live held =
      Ensures->>= (sync_cash_reservation true now row reservations) λ s e. returns (
        row_at-put_self (λ r. r.request_id) row orders,
        Ensures-ok_of (sync-IsHeld now row reservations buy live held) s e,
      )

module _ {D : Type 0} ⦃n : Number D⦄ (env : Outside D) (now : Time) (request : BuyRequest D) where
  open n use {of_int, to_float}

  -- What is known of a granted reservation, for the ledger before it.
  pub record IsReserved (orders : List (OrderLog D)) (result : BuyReservationResult D × Tables D)
      : Type 0 where
    pub some_lots : pos 1 ≤ℤ result.0.qty
    pub within_decision : result.0.qty ≤ℤ request.original_decision_qty
    pub within_sizing : result.0.qty ≤ℤ result.0.sizing.qty
    pub sizing_allowed : result.0.sizing.allowed ≡ true
    pub sizing_made :
        result.0.sizing ≡ calculate_buy_size result.0.account_context request.trade request.limits
    pub was_absent : order_at (strip request.request_id) orders ≡ none
    pub row : OrderLog D
    pub is_ledger : result.0.ledger ≡ some row
    pub is_stored : order_at (strip request.request_id) result.1.orders ≡ some row
    pub in_progress : row.status ≡ "SEND_IN_PROGRESS"
    pub right_qty : row.order_qty ≡ to_float (of_int result.0.qty)
    pub reservation : Reservation D
    pub is_mirrored :
        reservation_of (strip request.request_id) result.1.reservations ≡ some reservation
    pub is_held : Holds row reservation

  abbrev GrantedOnly : List (OrderLog D) → BuyReservationResult D × Tables D → Type 0
  GrantedOnly orders result = result.0.allowed ≡ true → IsReserved orders result

  -- The row of a new BUY order, once it is marked as being sent.
  record IsStarted (qty : ℤ) (row : OrderLog D) : Type 0 where
    same_id : (send_started now row).request_id ≡ strip request.request_id
    buy : is_buy (send_started now row) ≡ true
    live : is_released (row_status (send_started now row)) ≡ false
    held : is_open (row_status (send_started now row)) ≡ true
    qty_kept : (send_started now row).order_qty ≡ to_float (of_int qty)

  new-IsStarted :
      (qty : ℤ) (id : ℕ) (row : OrderLog D)
      → row ≡ reserved_row env now (order_request request qty) (strip request.request_id) id
      → IsStarted qty row
  unfolding reserved_row order_request send_started is_buy is_released is_open row_status strip
      upper
  new-IsStarted qty id row e = record {
    same_id = rw e refl;
    buy = rw e refl;
    live = refl;
    held = refl;
    qty_kept = rw e refl;
  }

  granted-IsReserved :
      (qty : ℤ) (account : AccountSizingContext D) (orders : List (OrderLog D))
      (reservations : List (Reservation D)) (reserved : Reserved D × List (OrderLog D))
      → let sizing = calculate_buy_size account request.trade request.limits in
        sizing.allowed ≡ true
        → pos 1 ≤ℤ qty
        → qty ≤ℤ request.original_decision_qty
        → qty ≤ℤ sizing.qty
        → IsNew env now (order_request request qty) orders reserved
        → let row = send_started now reserved.0.row in
          Ensures (IsReserved orders) (
            write_synced now row reserved.1 reservations >>= (λ written. ok (
              granted qty row sizing account,
              record { orders = written.0; reservations = written.1 },
            )))
  unfolding granted order_request
  granted-IsReserved qty account orders reservations reserved allowed some_lots decision size new =
      let row = send_started now reserved.0.row in
      let started = new-IsStarted qty new.new_id reserved.0.row new.is_reserved in
      Ensures->>= (write_synced now row reserved.1 reservations) λ written e.
        let (stored, (r, mirrored, held)) =
          Ensures-ok_of
            (write_synced-IsHeld now row reserved.1 reservations started.buy started.live
              started.held)
            written e in
        returns (record {
          some_lots = some_lots;
          within_decision = decision;
          within_sizing = size;
          sizing_allowed = allowed;
          sizing_made = refl;
          was_absent = new.was_absent;
          row = row;
          is_ledger = refl;
          is_stored = rw⁻¹ started.same_id stored;
          in_progress = unfold send_started in refl;
          right_qty = started.qty_kept;
          reservation = r;
          is_mirrored = rw⁻¹ started.same_id mirrored;
          is_held = held;
        })

  finish_buy-IsReserved :
      (qty : ℤ) (account : AccountSizingContext D) (orders : List (OrderLog D))
      (reservations : List (Reservation D)) (reserved : Reserved D × List (OrderLog D))
      → let sizing = calculate_buy_size account request.trade request.limits in
        sizing.allowed ≡ true
        → pos 1 ≤ℤ qty
        → qty ≤ℤ request.original_decision_qty
        → qty ≤ℤ sizing.qty
        → (reserved.0.may_send ≡ true → IsNew env now (order_request request qty) orders reserved)
        → Ensures (GrantedOnly orders) (finish_buy now qty sizing account reservations reserved)
  unfolding finish_buy refused
  finish_buy-IsReserved qty account orders reservations (reserved, after) allowed some_lots decision
        size new =
      elim (Bool-cases reserved.may_send) [
        | inr e ↦ rw e (returns (λ h. absurd (cc)))
        | inl e ↦ rw e (
            Ensures-map (λ result p _. p)
              (granted-IsReserved qty account orders reservations (reserved, after) allowed
                some_lots decision size (new e)))
      ]

  final_buy_qty_lem :
      (decision : ℤ) (sizing : PositionSizingResult D)
      → leb_ℤ (final_buy_qty decision sizing) (pos 0) ≡ false
      → (sizing.allowed ≡ true)
        × (pos 1 ≤ℤ final_buy_qty decision sizing)
        × (final_buy_qty decision sizing ≤ℤ decision)
        × (final_buy_qty decision sizing ≤ℤ sizing.qty)
  unfolding final_buy_qty
  final_buy_qty_lem decision sizing h = (ground arith, ground arith, ground arith, ground arith)

  reserve_sized-IsReserved :
      (tables : Tables D) (account : AccountSizingContext D)
      → Ensures (GrantedOnly tables.orders) (reserve_sized env now request tables account)
  unfolding reserve_sized refused
  reserve_sized-IsReserved tables account =
      let sizing = calculate_buy_size account request.trade request.limits in
      let qty = final_buy_qty request.original_decision_qty sizing in
      elim (Bool-cases (leb_ℤ qty (pos 0))) [
        | inl e ↦ rw e (returns (λ h. absurd (cc)))
        | inr e ↦ rw e (
            Ensures->>= (reserve_order env now (order_request request qty) tables.orders)
              λ reserved found.
                let (allowed, some_lots, decision, size) =
                  final_buy_qty_lem request.original_decision_qty sizing e in
                let new =
                  Ensures-ok_of
                    (reserve_order-MaySend env now (order_request request qty) tables.orders)
                    reserved found in
                finish_buy-IsReserved qty account tables.orders tables.reservations reserved allowed
                  some_lots decision size new)
      ]

  -- A granted reservation is for at least one lot, and for no more than the decision and the sizing
  -- allow, where the sizing is that of the account it was made for. Its request had no order before;
  -- afterwards its order is in the ledger with the status SEND_IN_PROGRESS and this quantity, and a
  -- reservation of the request holds exactly the cash that the order may still cost.
  pub reserve_sized_buy-IsReserved :
      (adapter : Adapter D) (tables : Tables D)
      → Ensures
          (λ result. result.0.allowed ≡ true → IsReserved tables.orders result)
          (reserve_sized_buy env adapter now request tables)
  unfolding reserve_sized_buy
  reserve_sized_buy-IsReserved adapter tables =
      Ensures->>= (raise_if (leb_ℤ request.original_decision_qty (pos 0)) _) λ _ _.
        Ensures->>= (check_account request) λ _ _.
          Ensures->>= (reserved_cash now request tables) λ known found.
            let synced = record tables { reservations = known.1 } in
            Ensures->>= (account_context adapter now request synced known.0)
              λ account _. reserve_sized-IsReserved synced account

  -- Where the request has an order already, nothing is granted.
  pub reserve_sized_buy-refused :
      (adapter : Adapter D) (tables : Tables D) (row : OrderLog D)
      → order_at (strip request.request_id) tables.orders ≡ some row
      → Ensures
          (λ result. result.0.allowed ≡ false)
          (reserve_sized_buy env adapter now request tables)
  reserve_sized_buy-refused adapter tables row e =
      Ensures-map
        (λ result granted. elim (Bool-cases result.0.allowed) [
          | inl h ↦ absurd (cc ((granted h).was_absent))
          | inr h ↦ h
        ])
        (reserve_sized_buy-IsReserved adapter tables)

-- A request is granted at most once: after a call that grants it, every later call with the same
-- request id on the tables that it leaves, at any time, with any other content, account and
-- surroundings, grants nothing, or raises.
pub reserve_sized_buy_once :
    {D : Type 0} ⦃n : Number D⦄ (env env' : Outside D) (adapter adapter' : Adapter D)
    (now now' : Time) (request request' : BuyRequest D) (tables : Tables D)
    (result : BuyReservationResult D × Tables D)
    → reserve_sized_buy env adapter now request tables ≡ ok result
    → result.0.allowed ≡ true
    → strip request'.request_id ≡ strip request.request_id
    → Ensures
        (λ again. again.0.allowed ≡ false)
        (reserve_sized_buy env' adapter' now' request' result.1)
reserve_sized_buy_once env env' adapter adapter' now now' request request' tables result e granted
      same =
    let reserved =
      Ensures-ok_of (reserve_sized_buy-IsReserved env now request adapter tables) result e
        granted in
    reserve_sized_buy-refused env' now' request' adapter' result.1 reserved.row
      (rw same reserved.is_stored)
