-- ===== src/Order/Ledger/Trace.antt =====
-- A request is let through at most once, whatever else happens to the ledger.
use trade_ai_server.Prelude.{
  ◌≡◌, ◌≤◌, Bool, true, false, ◌&&◌, Option, none, some, List, [], ◌∷◌, ◌++◌, String, refl, arith,
  select, length, and_true, Bool-cases, Option-cases, inl, inr, is_some, if◌then◌else◌, All,
}
use trade_ai_server.Prelude.Text.{str_eq, strip, upper, str_eq→path}
use trade_ai_server.Prelude.Table.{put, row_at-put, row_at-append_some}
use trade_ai_server.Prelude.Result.{
  Result, ok, raised, Ensures, returns, Ensures->>=, Ensures-ok, Ensures-ok_of,
}
use trade_ai_server.Number.{Number}
use trade_ai_server.Order.Row.{OrderLog, Reservation, Time}
use trade_ai_server.Order.Reservation.{sync_cash_reservation}
use trade_ai_server.Order.Ledger.{
  Outside, OrderRequest, Reserved, order_at, reserve_order, inserted, reserve_new, reserve_at,
  one_or_none, is_pending_of, check_request,
}
use trade_ai_server.Order.Ledger.Sent.{
  write_synced, mark_send_started, mark_send_result, send_started, send_result,
}
use trade_ai_server.Order.Ledger.Once.{reserve_order-MaySend}

-- A step of the ledger: a call of `reserve_order`, of `mark_send_started` or `mark_send_result` with
-- any reservations, or what any other transaction commits.
pub data LedgerStep (D : Type 0) : Type 0 where
  reserving : Outside D → Time → OrderRequest D → LedgerStep D
  starting : Time → OrderLog D → List (Reservation D) → LedgerStep D
  answering : Time → OrderLog D → String → String → Bool → List (Reservation D) → LedgerStep D
  committing : (List (OrderLog D) → List (OrderLog D)) → LedgerStep D

module _ {D : Type 0} where
  -- an exception leaves the ledger as it is
  unfoldable pub reserved_after :
      List (OrderLog D) → Result (Reserved D × List (OrderLog D)) → Bool × List (OrderLog D)
  reserved_after table (ok (reserved, after)) = (reserved.may_send, after)
  reserved_after table (raised _) = (false, table)

  unfoldable pub rows_after :
      List (OrderLog D) → Result (List (OrderLog D) × List (Reservation D)) → List (OrderLog D)
  rows_after table (ok (rows, reservations)) = rows
  rows_after table (raised _) = table

module _ {D : Type 0} ⦃n : Number D⦄ where
  -- Transactions that delete no order.
  unfoldable pub KeepsOrders : (List (OrderLog D) → List (OrderLog D)) → Type 0
  KeepsOrders f =
      (id : String) (rows : List (OrderLog D))
      → is_some (order_at id rows) ≡ true
      → is_some (order_at id (f rows)) ≡ true

  -- What a step is given from outside deletes no order.
  unfoldable pub IsKeeping : LedgerStep D → Type 0
  IsKeeping (reserving env now request) = KeepsOrders env.committed
  IsKeeping (starting now row reservations) = Unit
  IsKeeping (answering now row status message uncertain reservations) = Unit
  IsKeeping (committing f) = KeepsOrders f

module _ {D : Type 0} ⦃n : Number D⦄ where
  -- Whether a step lets an order be sent, and the ledger after it.
  unfoldable pub after_step : LedgerStep D → List (OrderLog D) → Bool × List (OrderLog D)
  after_step (reserving env now request) table =
      reserved_after table (reserve_order env now request table)
  after_step (starting now row reservations) table =
      (false, rows_after table (mark_send_started now row table reservations))
  after_step (answering now row status message uncertain reservations) table = (
    false,
    rows_after table (mark_send_result now row status message uncertain table reservations),
  )
  after_step (committing f) table = (false, f table)

  -- The answers to some steps, each with its step.
  unfoldable pub answers : List (LedgerStep D) → List (OrderLog D) → List (LedgerStep D × Bool)
  answers [] table = []
  answers (step ∷ steps) table =
      let result = after_step step table in (step, result.0) ∷ answers steps result.1

  -- Whether a step asks for a request.
  unfoldable pub is_for : String → LedgerStep D → Bool
  is_for id (reserving env now request) = str_eq (strip request.request_id) id
  is_for id (starting now row reservations) = false
  is_for id (answering now row status message uncertain reservations) = false
  is_for id (committing f) = false

  module _ (id : String) where
    abbrev Has : List (OrderLog D) → Type 0
    Has rows = is_some (order_at id rows) ≡ true

    append-Has : (rows : List (OrderLog D)) (row : OrderLog D) → Has rows → Has (rows ++ (row ∷ []))
    append-Has rows row h = elim (Option-cases (order_at id rows)) [
      | inl e ↦ absurd (let impossible : false ≡ true = rw e at h in cc)
      | inr (found, e) ↦ rw (row_at-append_some (λ r. r.request_id) id row found rows e) refl
    ]

    put-Has :
        (rows : List (OrderLog D)) (row : OrderLog D)
        → Has rows
        → Has (put (λ r. r.request_id) row rows)
    put-Has rows row h =
        rw (row_at-put (λ r. r.request_id) id row rows)
          (elim (Bool-cases (str_eq id row.request_id)) [ inl e ↦ rw e refl | inr e ↦ rw e h ])

    module _ (env : Outside D) (now : Time) (request : OrderRequest D)
        (committed-Keeps : KeepsOrders env.committed) where
      inserted-Has :
          (request_id : String) (table : List (OrderLog D)) (found : Option (OrderLog D))
          → Has table
          → Has (inserted env now request request_id table found).1
      unfolding inserted
      inserted-Has request_id table (some row) h = h
      inserted-Has request_id table none h = append-Has table _ h

      reserve_new-Has :
          (request_id : String) (table : List (OrderLog D)) (pending : Option (OrderLog D))
          → Has table
          → Has (reserve_new env now request request_id table pending).1
      unfolding reserve_new
      reserve_new-Has request_id table (some row) h = h
      reserve_new-Has request_id table none h =
          inserted-Has request_id (env.committed table) _
            (unfold KeepsOrders in committed-Keeps id table h)

      reserve_at-Has :
          (request_id : String) (table : List (OrderLog D)) (found : Option (OrderLog D))
          → Has table
          → Ensures (λ r. Has r.1) (reserve_at env now request request_id table found)
      unfolding reserve_at
      reserve_at-Has request_id table (some row) h = returns h
      reserve_at-Has request_id table none h =
          Ensures->>=
            (one_or_none (
              select (is_pending_of (upper (strip request.symbol)) (upper (strip request.side)))
                table))
            λ pending _. returns (reserve_new-Has request_id table pending h)

      reserve_order-Has :
          (table : List (OrderLog D))
          → Has table
          → Ensures (λ r. Has r.1) (reserve_order env now request table)
      unfolding reserve_order
      reserve_order-Has table h =
          Ensures->>= (check_request request)
            λ _ _. reserve_at-Has (strip request.request_id) table _ h

    write_synced-Has :
        (now : Time) (row : OrderLog D) (table : List (OrderLog D))
        (reservations : List (Reservation D))
        → Has table
        → Ensures (λ r. Has r.0) (write_synced now row table reservations)
    unfolding write_synced
    write_synced-Has now row table reservations h =
        Ensures->>= (sync_cash_reservation true now row reservations)
          λ synced _. returns (put-Has table row h)

    rows_after-Has :
        (table : List (OrderLog D)) (m : Result (List (OrderLog D) × List (Reservation D)))
        → Has table
        → Ensures (λ r. Has r.0) m
        → Has (rows_after table m)
    unfolding rows_after
    rows_after-Has table (ok r) h k = Ensures-ok k
    rows_after-Has table (raised e) h k = h

    reserved_after-Has :
        (table : List (OrderLog D)) (m : Result (Reserved D × List (OrderLog D)))
        → Has table
        → Ensures (λ r. Has r.1) m
        → Has (reserved_after table m).1
    unfolding reserved_after
    reserved_after-Has table (ok r) h k = Ensures-ok k
    reserved_after-Has table (raised e) h k = h

    -- A request that has a row keeps one.
    after_step-Has :
        (step : LedgerStep D) (table : List (OrderLog D))
        → IsKeeping step
        → Has table
        → Has (after_step step table).1
    unfolding after_step IsKeeping
    after_step-Has (reserving env now request) table keep h =
        reserved_after-Has table _ h (reserve_order-Has env now request keep table h)
    after_step-Has (starting now row reservations) table keep h = rows_after-Has table _ h (
        unfold mark_send_started in
        write_synced-Has now (send_started now row) table reservations h)
    after_step-Has (answering now row status message uncertain reservations) table keep h =
        rows_after-Has table _ h (
          unfold mark_send_result in
          write_synced-Has now (send_result now status message uncertain row) table reservations h)
    after_step-Has (committing f) table keep h = unfold KeepsOrders in keep id table h

    allowed_after :
        (env : Outside D) (now : Time) (request : OrderRequest D) (table : List (OrderLog D))
        (m : Result (Reserved D × List (OrderLog D)))
        → reserve_order env now request table ≡ m
        → strip request.request_id ≡ id
        → (reserved_after table m).0 ≡ true
        → (is_some (order_at id table) ≡ false) × Has (reserved_after table m).1
    unfolding reserved_after
    allowed_after env now request table (raised e) call same h = absurd (cc)
    allowed_after env now request table (ok result) call same h =
        let new = Ensures-ok_of (reserve_order-MaySend env now request table) result call h in
        rw (← same) (rw (new.was_absent, new.is_stored) (refl, refl))

    -- A request that is let through had no row before, and has one then.
    after_step-allowed :
        (step : LedgerStep D) (table : List (OrderLog D))
        → (is_for id step && (after_step step table).0) ≡ true
        → (is_some (order_at id table) ≡ false) × Has (after_step step table).1
    unfolding after_step is_for
    after_step-allowed (reserving env now request) table h =
        let (same, allowed) = and_true (str_eq (strip request.request_id) id) _ h in
        allowed_after env now request table _ refl (str_eq→path _ id same) allowed
    after_step-allowed (starting now row reservations) table h = absurd (cc)
    after_step-allowed (answering now row status message uncertain reservations) table h =
        absurd (cc)
    after_step-allowed (committing f) table h = absurd (cc)

    -- Over any sequence of calls of `reserve_order` for a request and for others, of
    -- `mark_send_started` and of `mark_send_result`, with any commits of other transactions between
    -- the calls and before the insertions of `reserve_order`, the request is let through at most once,
    -- and never if it had a row at the start, provided that those commits delete no order.
    pub reserve_order_once :
        (steps : List (LedgerStep D)) (table : List (OrderLog D))
        → All IsKeeping steps
        → length (select (λ (step, allowed). is_for id step && allowed) (answers steps table))
          ≤ (if is_some (order_at id table) then 0 else 1)
    unfolding answers
    reserve_order_once [] table keep = omega arith
    reserve_order_once (step ∷ steps) table (keep, others) =
        let rest = reserve_order_once steps (after_step step table).1 others in
        let kept = after_step-Has step table keep in
        elim (Bool-cases (is_for id step && (after_step step table).0)) [
          | inl e ↦
              let (absent, has) = after_step-allowed step table e in
              ground (arith, e, absent, has, rest)
          | inr e ↦ ground (arith, e, kept, rest)
        ]
