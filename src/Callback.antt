-- ===== src/Callback.antt =====
-- app/services/order_lifecycle.py, `apply_callback`: a status report of the gateway is applied to the
-- ledger's row of its request, and then to the reservation, the fills and the lifecycles. Each call is
-- one transaction: an exception of it leaves the old store.
pub mod Progress
pub mod Isolation
pub mod Consistent
use trade_ai_server.Prelude.{
  ℕ, ◌≡◌, Bool, true, false, not, ◌&&◌, ◌||◌, Option, none, some, List, [], ◌∷◌, ◌++◌, String,
  if◌then◌else◌, or_else,
}
use trade_ai_server.Prelude.Text.{str_eq, upper, member}
use trade_ai_server.Prelude.Table.{row_at, put}
use trade_ai_server.Prelude.Result.{
  Result, ok, raised, Error, lifecycle_integrity, runtime_error, ◌>>=◌,
}
use trade_ai_server.Number.{Number, nought, max_of, or_value, truthy_or_nought}
use trade_ai_server.Order.Row.{OrderLog, Reservation, Time}
use trade_ai_server.Order.StateMachine.{is_final, transition}
use trade_ai_server.Order.Ledger.{order_at}
use trade_ai_server.Order.Reservation.{sync_cash_reservation}
use trade_ai_server.Fill.{OrderFill, FeeConfig}
use trade_ai_server.Fill.Ledger.{or_text, record_fill_delta}
use trade_ai_server.Lifecycle.{PositionLifecycle, Positions}
use trade_ai_server.Lifecycle.Engine.{apply_fill_to_lifecycle}
use trade_ai_server.Lifecycle.Rows.{Surroundings}
use trade_ai_server.Repair.{RepairJob, enqueue_repair_job}

-- The tables that a callback reads or writes.
pub record Store (D : Type 0) : Type 0 where
  pub orders : List (OrderLog D)
  pub reservations : List (Reservation D)
  pub fills : List (OrderFill D)
  pub positions : Positions D
  pub jobs : List RepairJob

-- The arguments of `apply_callback`.
pub record Callback (D : Type 0) : Type 0 where
  pub request_id : String
  pub symbol : String
  pub action : String
  pub status : String
  pub order_qty : D
  pub filled_qty : D
  pub last_fill_qty : D
  pub avg_price : Option D
  pub limit_price : Option D
  pub order_id : Option String
  pub message : String

-- The code outside: `hashlib.sha256`, `repr` of an exception, the configured fees, the id of a new
-- row, and what the lifecycle engine reads.
pub record CallbackEnv (D : Type 0) : Type 0 where
  pub sha256 : String → String
  pub error_text : Error → String
  pub fees : FeeConfig D
  pub new_id : List (OrderLog D) → ℕ
  pub surroundings : Surroundings D

unfoldable pub repair_type_of : Error → String
repair_type_of (lifecycle_integrity symbol ids) = "LIFECYCLE_RECONCILIATION"
repair_type_of _ = "FILL_RECONCILIATION"

-- the queue after `enqueue_repair_job`; its own exception is logged only
unfoldable pub jobs_after : Result (List RepairJob) → List RepairJob → List RepairJob
jobs_after (ok jobs) old = jobs
jobs_after (raised _) old = old

module _ {D : Type 0} where
  -- the store after a call; an exception rolls the transaction back
  unfoldable pub store_after : Store D → Result ((OrderLog D × Bool) × Store D) → Store D
  store_after old (ok result) = result.1
  store_after old (raised _) = old

module _ {D : Type 0} ⦃n : Number D⦄ where
  open n use {lt}

  -- the row that is inserted if the request has none
  unfoldable pub inserted_row : ℕ → Callback D → OrderLog D
  inserted_row id callback = record {
    id = id;
    request_id = callback.request_id;
    request_fingerprint = none;
    symbol = upper callback.symbol;
    action = upper callback.action;
    qty = callback.order_qty;
    price = callback.limit_price;
    order_qty = callback.order_qty;
    limit_price = callback.limit_price;
    order_id = none;
    status = "RESERVED";
    state = "RESERVED";
    mode = "OBSERVE_ONLY";
    order_type = "LIMIT";
    account_ref = none;
    rounded_limit_price = callback.limit_price;
    filled_qty = nought;
    last_fill_qty = nought;
    avg_price = none;
    reservation_created_at = none;
    send_started_at = none;
    sent_at = none;
    finalized_at = none;
    error_code = none;
    config_version = none;
    profile_code = none;
    matrix_message = some callback.message;
    error_message = none;
  }

  unfoldable pub is_allowed : Callback D → OrderLog D → Bool
  is_allowed callback row =
      (transition (some row.status) callback.status (truthy_or_nought row.filled_qty)
        callback.filled_qty).0

  unfoldable pub is_changed : Callback D → OrderLog D → Bool
  is_changed callback row =
      not (str_eq row.status (upper callback.status))
      || lt (truthy_or_nought row.filled_qty) callback.filled_qty

  -- the row after a report that is allowed
  unfoldable pub advanced : Time → Callback D → OrderLog D → OrderLog D
  advanced now callback row =
      let status = upper callback.status in
      record row {
        status = status;
        state = status;
        qty = max_of (truthy_or_nought row.qty) callback.order_qty;
        order_qty = max_of (truthy_or_nought row.order_qty) callback.order_qty;
        filled_qty = max_of (truthy_or_nought row.filled_qty) callback.filled_qty;
        last_fill_qty = callback.last_fill_qty;
        avg_price = or_value callback.avg_price row.avg_price;
        price = or_value callback.avg_price (or_value callback.limit_price row.price);
        limit_price = or_value callback.limit_price row.limit_price;
        rounded_limit_price = or_value callback.limit_price row.rounded_limit_price;
        order_id = or_text callback.order_id row.order_id;
        matrix_message = some callback.message;
        finalized_at = if is_final status then some now else row.finalized_at;
      }

module _ {D : Type 0} ⦃n : Number D⦄ (env : CallbackEnv D) (now : Time) where
  -- the new fill, if there is one, goes to its lifecycle
  unfoldable pub apply_recorded :
      OrderLog D
      → Positions D
      → Option (OrderFill D) × List (OrderFill D)
      → Result (List (OrderFill D) × Positions D)
  apply_recorded row positions (none, fills) = ok (fills, positions)
  apply_recorded row positions (some fill, fills) = do
    applied ← apply_fill_to_lifecycle env.surroundings row fill positions
    ok (fills, applied.1)

  -- the savepoint: the fill of the quantity that is new since `old`, and its lifecycle
  unfoldable pub record_fill :
      OrderLog D → OrderLog D → Store D → Result (List (OrderFill D) × Positions D)
  unfolding apply_recorded
  record_fill old row store = apply_recorded row store.positions (
      record_fill_delta env.sha256 env.fees row (some (truthy_or_nought old.filled_qty))
        old.avg_price (some row.filled_qty) row.avg_price row.limit_price row.order_id now
        store.fills)

  -- `except Exception`: the savepoint is rolled back, and a repair is queued
  unfoldable pub recorded :
      OrderLog D → Store D → Result (List (OrderFill D) × Positions D) → Store D
  unfolding jobs_after repair_type_of
  recorded row store (ok (fills, positions)) = record store { fills = fills; positions = positions }
  recorded row store (raised error) = record store {
    jobs =
        jobs_after
          (enqueue_repair_job now (repair_type_of error) (env.error_text error)
            (some row.request_id) (some row.id) (some row.symbol) store.jobs)
          store.jobs;
  }

  unfoldable pub measured : OrderLog D → OrderLog D → Bool → Store D → Store D
  unfolding record_fill recorded
  measured old row changed store =
      if changed then recorded row store (record_fill old row store) else store

  unfoldable pub apply_allowed :
      Callback D → OrderLog D → Store D → Result ((OrderLog D × Bool) × Store D)
  unfolding advanced is_changed measured
  apply_allowed callback old store = do
    let row = advanced now callback old
    let changed = is_changed callback old
    synced ← sync_cash_reservation false now row store.reservations
    let written = record store {
      orders = put (λ r. r.request_id) row store.orders;
      reservations = synced.1;
    }
    ok ((row, changed), measured old row changed written)

  unfoldable pub apply_to_row :
      Callback D → OrderLog D → Store D → Result ((OrderLog D × Bool) × Store D)
  unfolding is_allowed apply_allowed
  apply_to_row callback row store =
      if is_allowed callback row then apply_allowed callback row store else ok ((row, false), store)

  -- `on_conflict_do_nothing`, and the row of the request
  unfoldable pub apply_found :
      Callback D → Store D → Option (OrderLog D) → Result ((OrderLog D × Bool) × Store D)
  unfolding inserted_row apply_to_row
  apply_found callback store (some row) = apply_to_row callback row store
  apply_found callback store none =
      let row = inserted_row (env.new_id store.orders) callback in
      apply_to_row callback row (record store { orders = store.orders ++ (row ∷ []) })

  -- The row and whether it has changed, and the store.
  unfoldable pub apply_callback : Callback D → Store D → Result ((OrderLog D × Bool) × Store D)
  unfolding apply_found
  apply_callback callback store =
      apply_found callback store (order_at callback.request_id store.orders)

  -- the store after a sequence of reports
  unfoldable pub after_callbacks : List (Callback D) → Store D → Store D
  unfolding store_after
  after_callbacks [] store = store
  after_callbacks (callback ∷ rest) store =
      after_callbacks rest (store_after store (apply_callback callback store))
