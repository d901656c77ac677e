-- ===== src/Reconciliation/Settled.antt =====
-- The queue of repairs comes to rest.
use native.Mathlib.Nat.{mul-le-mul_right}
use trade_ai_server.Prelude.{
  ◌≡◌, refl, ℕ, zero, suc, Bool, true, false, ◌⊎◌, inl, inr, List, [], ◌∷◌, String, arith, All,
  All-map, ◌≤◌, ◌+◌, ◌*◌, Bool-cases, if◌then◌else◌, leb, ◌^◌,
}
use trade_ai_server.Prelude.Result.{Result, ok, raised, Error, Ensures, Ensures-ok}
use trade_ai_server.Order.Row.{OrderLog, Time}
use trade_ai_server.Repair.{RepairJob}
use trade_ai_server.Number.{Number}
use trade_ai_server.Callback.{Store, CallbackEnv}
use trade_ai_server.Prelude.{Option, none, some}
use trade_ai_server.Prelude.Text.{str_eq}
use trade_ai_server.Prelude.Result.{returns, raises, Ensures->>=}
use trade_ai_server.Reconciliation.{
  repaired, reconcile_order, process_one_repair_job, resolve_order_log,
}
use trade_ai_server.Reconciliation.{
  is_waiting, is_due, processing, backoff, failed, escalated, completed_job, with_error, attempted,
  process_job, process_repair_jobs,
}

unshort : (k : ℕ) → leb 60 k ≡ false → k ≤ 60
unshort k h = ground arith

-- A wait is an hour at most.
backoff-le : (minute : Time) (attempts : ℕ) → backoff minute attempts ≤ 60 * minute
unfolding backoff
backoff-le minute attempts = elim (Bool-cases (leb 60 (2 ^ attempts))) [
  | inl e ↦ rw e (omega arith)
  | inr e ↦ rw e (mul-le-mul_right minute (unshort (2 ^ attempts) e))
]

module _ {ℓ} {S : Type ℓ} (error_text : Error → String) (minute : Time)
    (process_one : RepairJob → S → Result (Bool × S)) where
  -- The queue after a number of runs, each this long after the one before.
  unfoldable pub run_every : Time → ℕ → Time → List RepairJob × S → List RepairJob × S
  run_every gap zero now result = result
  run_every gap (suc runs) now (jobs, state) =
      run_every gap runs (now + gap)
        (process_repair_jobs error_text minute process_one now jobs state)

  -- A job that is at rest, or due and at most so many attempts from it.
  IsNear : ℕ → Time → RepairJob → Type 0
  IsNear runs now job =
      (is_waiting job ≡ false)
      ⊎ ((is_due now job ≡ true) × (8 ≤ job.attempt_count + runs) × (1 ≤ runs))

  failed-is_due :
      (gap now : Time) (job : RepairJob)
      → 60 * minute ≤ gap
      → is_due (now + gap) (failed minute now job) ≡ true
  unfolding is_due failed
  failed-is_due gap now job wide =
      let short = backoff-le minute job.attempt_count in ground (arith, short)

  attempted-IsNear :
      (runs : ℕ) (gap now : Time) (job : RepairJob) (state : S) (result : Result (Bool × S))
      → 60 * minute ≤ gap
      → 8 ≤ job.attempt_count + runs
      → Ensures (λ r. r.0 ≡ true) result
      → IsNear runs (now + gap) (attempted error_text minute process_one now job state result).0
  unfolding attempted IsNear
  attempted-IsNear runs gap now job state (ok (closed, after)) wide near done =
      let closed_true : closed ≡ true = Ensures-ok done in
      rw closed_true (inl (unfold completed_job is_waiting in refl))
  attempted-IsNear runs gap now job state (raised error) wide near done =
      elim (Bool-cases (leb 8 job.attempt_count)) [
        | inl e ↦ rw e (inl (unfold escalated is_waiting in refl))
        | inr e ↦ rw e (
            inr
              (failed-is_due gap now (with_error (error_text error) job) wide, near, ground arith))
      ]

  process_job-IsNear :
      (runs : ℕ) (gap now : Time) (job : RepairJob) (state : S)
      → ((job : RepairJob) (state : S) → Ensures (λ r. r.0 ≡ true) (process_one job state))
      → 60 * minute ≤ gap
      → 8 ≤ job.attempt_count + suc runs
      → IsNear runs (now + gap) (process_job error_text minute process_one now job state).0
  unfolding process_job
  process_job-IsNear runs gap now job state closes wide near =
      attempted-IsNear runs gap now (processing job) state (process_one (processing job) state) wide
        (unfold processing in omega (arith, near)) (closes (processing job) state)

  one_job-IsNear :
      (runs : ℕ) (gap now : Time) (job : RepairJob) (state : S)
      → ((job : RepairJob) (state : S) → Ensures (λ r. r.0 ≡ true) (process_one job state))
      → 60 * minute ≤ gap
      → IsNear (suc runs) now job
      → IsNear runs
          (now + gap)
          (if is_due now job
            then process_job error_text minute process_one now job state
            else (job, state)).0
  unfolding IsNear
  one_job-IsNear runs gap now job state closes wide (inl rest) =
      let idle : is_due now job ≡ false = (unfold is_due in rw rest refl) in rw idle (inl rest)
  one_job-IsNear runs gap now job state closes wide (inr (due, near, _)) =
      rw due (process_job-IsNear runs gap now job state closes wide near)

  queue-IsNear :
      (runs : ℕ) (gap now : Time) (jobs : List RepairJob) (state : S)
      → ((job : RepairJob) (state : S) → Ensures (λ r. r.0 ≡ true) (process_one job state))
      → 60 * minute ≤ gap
      → All (IsNear (suc runs) now) jobs
      → All
          (IsNear runs (now + gap))
          (process_repair_jobs error_text minute process_one now jobs state).0
  unfolding process_repair_jobs
  queue-IsNear runs gap now [] state closes wide near = tt
  queue-IsNear runs gap now (job ∷ jobs) state closes wide (near, others) = (
    one_job-IsNear runs gap now job state closes wide near,
    queue-IsNear runs gap now jobs _ closes wide others,
  )

  at_rest : (now : Time) (job : RepairJob) → IsNear zero now job → is_waiting job ≡ false
  unfolding IsNear
  at_rest now job (inl rest) = rest
  at_rest now job (inr (_, _, one)) = absurd (omega (arith, one))

  runs-IsNear :
      (runs : ℕ) (gap now : Time) (jobs : List RepairJob) (state : S)
      → ((job : RepairJob) (state : S) → Ensures (λ r. r.0 ≡ true) (process_one job state))
      → 60 * minute ≤ gap
      → All (IsNear runs now) jobs
      → All (λ job. is_waiting job ≡ false) (run_every gap runs now (jobs, state)).0
  unfolding run_every
  runs-IsNear zero gap now jobs state closes wide near =
      All-map (IsNear zero now) (λ job. is_waiting job ≡ false) jobs (λ job h. at_rest now job h)
        near
  runs-IsNear (suc runs) gap now jobs state closes wide near =
      runs-IsNear runs gap (now + gap) _ _ closes wide
        (queue-IsNear runs gap now jobs state closes wide near)

  -- If an attempt that does not raise closes its job, the queue comes to rest.
  queue_settles :
      (gap now : Time) (jobs : List RepairJob) (state : S)
      → ((job : RepairJob) (state : S) → Ensures (λ r. r.0 ≡ true) (process_one job state))
      → 60 * minute ≤ gap
      → All (λ job. (is_waiting job ≡ false) ⊎ (is_due now job ≡ true)) jobs
      → All (λ job. is_waiting job ≡ false) (run_every gap 8 now (jobs, state)).0
  unfolding IsNear
  queue_settles gap now jobs state closes wide due =
      runs-IsNear 8 gap now jobs state closes wide (All-map _ _ jobs near due)
    where
      near :
          (job : RepairJob) → (is_waiting job ≡ false) ⊎ (is_due now job ≡ true) → IsNear 8 now job
      near job (inl rest) = inl rest
      near job (inr d) = inr (d, omega arith, omega arith)

module _ {D : Type 0} ⦃n : Number D⦄ (env : CallbackEnv D) (updated_at : OrderLog D → Time)
    (acted : Time) (minute : Time) where
  repaired-closes :
      (row : Option (OrderLog D)) (store : Store D)
      → Ensures (λ r. r.0 ≡ true) (repaired env updated_at acted row store)
  unfolding repaired
  repaired-closes none store = raises
  repaired-closes (some row) store =
      Ensures->>= (reconcile_order env updated_at acted row store)
        λ (fills, positions) e. returns refl

  process_one-closes :
      (job : RepairJob) (store : Store D)
      → Ensures (λ r. r.0 ≡ true) (process_one_repair_job env updated_at acted job store)
  unfolding process_one_repair_job
  process_one-closes job store = elim (Bool-cases (str_eq job.repair_type "FILL_RECONCILIATION")) [
    | inl e ↦
        rw e
          (repaired-closes (resolve_order_log job.order_log_id job.request_id store.orders) store)
    | inr e ↦ rw e raises
  ]

  -- The queue of repairs comes to rest: after eight runs that are at least an hour apart no job waits
  -- any more, whichever attempts raise, provided that each job that waits is due at the first run and
  -- that no job is added meanwhile.
  pub repair_queue_settles :
      (gap now : Time) (jobs : List RepairJob) (store : Store D)
      → 60 * minute ≤ gap
      → All (λ job. (is_waiting job ≡ false) ⊎ (is_due now job ≡ true)) jobs
      → All
          (λ job. is_waiting job ≡ false)
          (run_every env.error_text minute
            (process_one_repair_job env updated_at acted)
            gap
            8
            now
            (jobs, store)).0
  repair_queue_settles gap now jobs store wide due =
      queue_settles env.error_text minute (process_one_repair_job env updated_at acted) gap now jobs
        store process_one-closes wide due
