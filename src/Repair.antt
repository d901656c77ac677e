-- ===== src/Repair.antt =====
-- app/services/measurement_repair.py, `enqueue_repair_job`, and app/models/db/measurement_repair_job.py:
-- the queue of repairs of the fill ledger and the lifecycles.
use text.Mathlib.TextPositions.{eq_refl}
use trade_ai_server.Prelude.{
  ◌∙◌, ap, ℕ, zero, suc, ◌≡◌, Bool, true, false, not, ◌&&◌, Option, none, some, List, [], ◌∷◌, ◌++◌,
  String, refl, arith, if◌then◌else◌, select, length, ◌==◌, on_some, Bool-cases, inl, inr,
}
use trade_ai_server.Prelude.Text.{str_eq, upper, strip, member}
use trade_ai_server.Prelude.Result.{
  Result, ok, raised, value_error, multiple_rows, Ensures, returns, raises,
}
use trade_ai_server.Order.Row.{Time}

-- `MeasurementRepairJob`
pub record RepairJob : Type 0 where
  pub request_id : Option String
  pub order_log_id : Option ℕ
  pub symbol : Option String
  pub repair_type : String
  pub status : String
  pub attempt_count : ℕ
  pub last_error : Option String
  pub next_attempt_at : Option Time
  pub completed_at : Option Time

-- `REPAIR_TYPES`
abbrev pub repair_types : List String
repair_types = "FILL_RECONCILIATION" ∷ "LIFECYCLE_RECONCILIATION" ∷ "OUTCOME_RECONCILIATION" ∷ []

-- `OPEN_STATUSES`
abbrev pub open_statuses : List String
open_statuses = "PENDING" ∷ "PROCESSING" ∷ "FAILED" ∷ []

-- `s[:n]`
unfoldable pub clip : ℕ → String → String
clip zero s = String.[]
clip (suc n) String.[] = String.[]
clip (suc n) (String.◌∷◌ c s) = String.◌∷◌ c (clip n s)

-- the open job of an order and a type; without an order there is none
unfoldable pub is_open_job : Option ℕ → String → RepairJob → Bool
is_open_job none repair_type job = false
is_open_job (some order_log_id) repair_type job =
    on_some (λ id. id == order_log_id) job.order_log_id
    && str_eq job.repair_type repair_type
    && member job.status open_statuses

unfoldable pub reactivated : Time → String → RepairJob → RepairJob
unfolding clip
reactivated now last_error job = record job {
  last_error = some (clip 4000 last_error);
  status = "PENDING";
  next_attempt_at = some now;
}

-- `symbol.strip().upper() if symbol else None`
abbrev job_symbol : Option String → Option String
job_symbol none = none
job_symbol (some s) = if str_eq s "" then none else some (upper (strip s))

unfoldable pub new_job :
    Time → String → String → Option String → Option ℕ → Option String → RepairJob
unfolding clip
new_job now repair_type last_error request_id order_log_id symbol = record {
  request_id = request_id;
  order_log_id = order_log_id;
  symbol = job_symbol symbol;
  repair_type = repair_type;
  status = "PENDING";
  attempt_count = 0;
  last_error = some (clip 4000 last_error);
  next_attempt_at = some now;
  completed_at = none;
}

-- an assignment to the row that was found
unfoldable pub update_job :
    (RepairJob → Bool) → (RepairJob → RepairJob) → List RepairJob → List RepairJob
update_job p f [] = []
update_job p f (job ∷ jobs) =
    let rest = update_job p f jobs in if p job then f job ∷ jobs else job ∷ rest

unfoldable pub enqueue_among :
    Time
    → String
    → String
    → Option String
    → Option ℕ
    → Option String
    → List RepairJob
    → List RepairJob
    → Result (List RepairJob)
unfolding update_job is_open_job reactivated new_job
enqueue_among now repair_type last_error request_id order_log_id symbol jobs [] =
    ok (jobs ++ (new_job now repair_type last_error request_id order_log_id symbol ∷ []))
enqueue_among now repair_type last_error request_id order_log_id symbol jobs (job ∷ []) =
    ok (update_job (is_open_job order_log_id repair_type) (reactivated now last_error) jobs)
enqueue_among now repair_type last_error request_id order_log_id symbol jobs (job ∷ other ∷ found) =
    raised multiple_rows

-- The queue after `enqueue_repair_job`.
unfoldable pub enqueue_repair_job :
    Time
    → String
    → String
    → Option String
    → Option ℕ
    → Option String
    → List RepairJob
    → Result (List RepairJob)
unfolding enqueue_among
enqueue_repair_job now repair_type last_error request_id order_log_id symbol jobs =
    if not (member repair_type repair_types)
    then raised (value_error "Unknown repair_type")
    else enqueue_among now repair_type last_error request_id order_log_id symbol jobs
        (select (is_open_job order_log_id repair_type) jobs)

length-select_update :
    (p : RepairJob → Bool) (f : RepairJob → RepairJob)
    → ((job : RepairJob) → p job ≡ true → p (f job) ≡ true)
    → (jobs : List RepairJob) → length (select p (update_job p f jobs)) ≡ length (select p jobs)
unfolding update_job
length-select_update p f keep [] = refl
length-select_update p f keep (job ∷ jobs) = elim (Bool-cases (p job)) [
  | inl e ↦ ground (arith, e, keep job e)
  | inr e ↦ ground (arith, e, length-select_update p f keep jobs)
]

length-select_append :
    (p : RepairJob → Bool) (new : RepairJob)
    → p new ≡ true
    → (jobs : List RepairJob)
    → length (select p (jobs ++ (new ∷ []))) ≡ suc (length (select p jobs))
length-select_append p new h [] = rw h refl
length-select_append p new h (job ∷ jobs) = ground (arith, length-select_append p new h jobs)

reactivated-is_open_job :
    (now : Time) (last_error : String) (id : ℕ) (repair_type : String) (job : RepairJob)
    → is_open_job (some id) repair_type job ≡ true
    → is_open_job (some id) repair_type (reactivated now last_error job) ≡ true
unfolding is_open_job reactivated
reactivated-is_open_job now last_error id repair_type job h = ground arith

enqueue_among-one :
    (now : Time) (repair_type last_error : String) (request_id : Option String) (id : ℕ)
    (symbol : Option String) (jobs found : List RepairJob)
    → select (is_open_job (some id) repair_type) jobs ≡ found
    → Ensures
        (λ jobs'. length (select (is_open_job (some id) repair_type) jobs') ≡ 1)
        (enqueue_among now repair_type last_error request_id (some id) symbol jobs found)
unfolding enqueue_among
enqueue_among-one now repair_type last_error request_id id symbol jobs [] h =
    let new = new_job now repair_type last_error request_id (some id) symbol in
    let p = is_open_job (some id) repair_type in
    let is_new : p new ≡ true = unfold new_job is_open_job in ground (arith, eq_refl repair_type) in
    returns (length-select_append p new is_new jobs ∙ ap (λ l. suc (length l)) h)
enqueue_among-one now repair_type last_error request_id id symbol jobs (job ∷ []) h = returns (
    length-select_update (is_open_job (some id) repair_type) (reactivated now last_error)
      (reactivated-is_open_job now last_error id repair_type) jobs
    ∙ ap length h)
enqueue_among-one now repair_type last_error request_id id symbol jobs (job ∷ other ∷ found) h =
    raises

-- After a call for an order that does not raise, exactly one open job has that order and type,
-- whether there was one before or not.
pub enqueue_one :
    (now : Time) (repair_type last_error : String) (request_id : Option String) (id : ℕ)
    (symbol : Option String) (jobs : List RepairJob)
    → Ensures
        (λ jobs'. length (select (is_open_job (some id) repair_type) jobs') ≡ 1)
        (enqueue_repair_job now repair_type last_error request_id (some id) symbol jobs)
unfolding enqueue_repair_job
enqueue_one now repair_type last_error request_id id symbol jobs =
    elim (Bool-cases (member repair_type repair_types)) [
      | inl e ↦ rw e (enqueue_among-one now repair_type last_error request_id id symbol jobs _ refl)
      | inr e ↦ rw e raises
    ]
