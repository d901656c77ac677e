-- ===== src/Reconciliation.antt =====
-- app/services/measurement_reconciliation.py: what callbacks have not recorded is looked for and
-- recorded, and the queue of repairs is worked off. An exception of one order or job is caught, and
-- its savepoint rolled back. `minute` is a minute of the clock, `updated_at` the time of an order's
-- last update. The reconciliation of the quantities of lifecycles
-- and the counts for the log are not modelled.
pub mod Settled
use trade_ai_server.Prelude.{
  ℕ, Bool, true, false, not, ◌&&◌, ◌||◌, Option, none, some, List, [], ◌∷◌, String, if◌then◌else◌,
  leb, ◌==◌, ◌+◌, ◌*◌, ◌^◌, find, zero, suc, or_else, on_some, select,
}
use trade_ai_server.Prelude.Text.{str_eq}
use trade_ai_server.Prelude.Result.{Result, ok, raised, Error, runtime_error, ◌>>=◌}
use trade_ai_server.Number.{Number, nought}
use trade_ai_server.Order.Row.{OrderLog, Time}
use trade_ai_server.Order.Ledger.{order_at}
use trade_ai_server.Fill.{OrderFill}
use trade_ai_server.Fill.Gap.{record_reconciliation_fill}
use trade_ai_server.Lifecycle.{Positions}
use trade_ai_server.Repair.{RepairJob, clip, enqueue_repair_job}
use trade_ai_server.Callback.{Store, CallbackEnv, apply_recorded, jobs_after}

-- `MAX_REPAIR_ATTEMPTS`
abbrev pub max_repair_attempts : ℕ
max_repair_attempts = 8

-- `MeasurementRepairJob.next_attempt_at` is null or not later than now
unfoldable pub is_time : Time → Option Time → Bool
is_time now none = true
is_time now (some at) = leb at now

-- `MeasurementRepairJob.status.in_(("PENDING", "FAILED"))`
unfoldable pub is_waiting : RepairJob → Bool
is_waiting job = str_eq job.status "PENDING" || str_eq job.status "FAILED"

-- the jobs that `process_repair_jobs` selects
unfoldable pub is_due : Time → RepairJob → Bool
unfolding is_time is_waiting
is_due now job = is_waiting job && is_time now job.next_attempt_at

-- the job while it is worked on
unfoldable pub processing : RepairJob → RepairJob
processing job = record job { status = "PROCESSING"; attempt_count = suc job.attempt_count }

-- `timedelta(minutes=min(60, 2**job.attempt_count))`
unfoldable pub backoff : Time → ℕ → Time
backoff minute attempts =
    let exponential = 2 ^ attempts in (if leb 60 exponential then 60 else exponential) * minute

unfoldable pub failed : Time → Time → RepairJob → RepairJob
unfolding backoff
failed minute now job = record job {
  status = "FAILED";
  next_attempt_at = some (now + backoff minute job.attempt_count);
}

unfoldable pub escalated : RepairJob → RepairJob
escalated job = record job { status = "MANUAL_REVIEW" }

unfoldable pub completed_job : Time → RepairJob → RepairJob
completed_job now job = record job { status = "COMPLETED"; completed_at = some now }

unfoldable pub with_error : String → RepairJob → RepairJob
unfolding clip
with_error error job = record job { last_error = some (clip 4000 error) }

module _ {ℓ} {S : Type ℓ} (error_text : Error → String) (minute : Time)
    (process_one : RepairJob → S → Result (Bool × S)) where
  -- after `_process_one_repair_job`, for the job that is being worked on
  unfoldable pub attempted : Time → RepairJob → S → Result (Bool × S) → RepairJob × S
  unfolding failed escalated completed_job with_error
  attempted now job state (raised error) =
      let noted = with_error (error_text error) job in
      if leb max_repair_attempts job.attempt_count
      then (escalated noted, state)
      else (failed minute now noted, state)
  attempted now job state (ok (closed, after)) =
      if closed then (completed_job now job, after) else (failed minute now job, after)

  unfoldable pub process_job : Time → RepairJob → S → RepairJob × S
  unfolding attempted processing
  process_job now job state =
      let started = processing job in attempted now started state (process_one started state)

  -- the loop of `process_repair_jobs` over the queue
  unfoldable pub process_repair_jobs : Time → List RepairJob → S → List RepairJob × S
  unfolding process_job is_due
  process_repair_jobs now [] state = ([], state)
  process_repair_jobs now (job ∷ jobs) state =
      let result = if is_due now job then process_job now job state else (job, state) in
      let rest = process_repair_jobs now jobs result.1 in (result.0 ∷ rest.0, rest.1)

module _ {D : Type 0} ⦃n : Number D⦄ where
  -- `_resolve_order_log`
  unfoldable pub resolve_order_log :
      Option ℕ → Option String → List (OrderLog D) → Option (OrderLog D)
  resolve_order_log (some id) request_id orders = find (λ row. row.id == id) orders
  resolve_order_log none (some request_id) orders = order_at request_id orders
  resolve_order_log none none orders = none

module _ {D : Type 0} ⦃n : Number D⦄ (env : CallbackEnv D) (updated_at : OrderLog D → Time)
    (now : Time) where
  open n use {lt}

  -- the savepoint: the missing fill is recorded and applied to the position
  unfoldable pub reconcile_order : OrderLog D → Store D → Result (List (OrderFill D) × Positions D)
  reconcile_order row store =
      apply_recorded env now row store.positions
        (record_reconciliation_fill env.sha256 env.fees row (updated_at row) store.fills)

  -- one order of `run_fill_reconciliation`
  unfoldable pub reconciled :
      OrderLog D → Store D → Result (List (OrderFill D) × Positions D) → Store D
  reconciled row store (ok (fills, positions)) = record store {
    fills = fills;
    positions = positions;
  }
  reconciled row store (raised error) = record store {
    jobs =
        jobs_after
          (enqueue_repair_job now "FILL_RECONCILIATION" (env.error_text error) (some row.request_id)
            (some row.id) (some row.symbol) store.jobs)
          store.jobs;
  }

  unfoldable pub reconcile_orders : List (OrderLog D) → Store D → Store D
  unfolding reconciled reconcile_order
  reconcile_orders [] store = store
  reconcile_orders (row ∷ rows) store =
      reconcile_orders rows (reconciled row store (reconcile_order row store))

  -- `run_fill_reconciliation`, over the orders with `filled_qty > 0`
  unfoldable pub run_fill_reconciliation : Store D → Store D
  unfolding reconcile_orders
  run_fill_reconciliation store =
      reconcile_orders (select (λ row. lt nought row.filled_qty) store.orders) store

  unfoldable pub repaired : Option (OrderLog D) → Store D → Result (Bool × Store D)
  unfolding reconcile_order
  repaired none store = raised (runtime_error "order_log not found")
  repaired (some row) store =
      reconcile_order row store
      >>= (λ (fills, positions). ok (true, record store { fills = fills; positions = positions }))

  -- `_process_one_repair_job`
  unfoldable pub process_one_repair_job : RepairJob → Store D → Result (Bool × Store D)
  unfolding repaired resolve_order_log
  process_one_repair_job job store =
      if str_eq job.repair_type "FILL_RECONCILIATION"
      then repaired (resolve_order_log job.order_log_id job.request_id store.orders) store
      else raised (runtime_error "no handler implemented yet")
