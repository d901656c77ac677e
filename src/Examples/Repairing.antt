-- ===== src/Examples/Repairing.antt =====
-- What callbacks have not recorded and the queue of repairs, at concrete inputs.
use trade_ai_server.Prelude.{◌≡◌, false, none, some, List, [], ◌∷◌, refl, inl, inr, arith, All}
use trade_ai_server.Prelude.Int.{ℤ, pos, ◌+ℤ◌, ◌-ℤ◌, ◌*ℤ◌}
use trade_ai_server.Prelude.Text.{upper}
use trade_ai_server.Prelude.Table.{row_at}
use trade_ai_server.Number.Whole.{whole_number, div_ℤ, ℤ-IsOrdered, ℤ-IsExact, ℤ-IsDecimal}
use trade_ai_server.Fill.{OrderFill, FeeConfig, to_decimal}
use trade_ai_server.Fill.Ledger.{is_side, insert_fill_if_new}
use trade_ai_server.Fill.Gap.{
  MissingFill, sum_fills, fills_of, recorded_qty, recorded_cost, priced_gap, gap_of,
  find_missing_fill_gap, reconciliation_fill, record_gap, record_reconciliation_fill,
}
use trade_ai_server.Fill.Gap.Closed.{IsGap, find_missing_fill_gap-IsGap, reconciled_once}
use trade_ai_server.Repair.{RepairJob}
use trade_ai_server.Callback.{Store, CallbackEnv}
use trade_ai_server.Reconciliation.{process_one_repair_job, is_due, is_time, is_waiting}
use trade_ai_server.Reconciliation.Settled.{run_every, repair_queue_settles}
use trade_ai_server.Examples.Orders.{order}

abbrev gap : MissingFill ℤ
gap = record { qty = pos 4; price = pos 25 }

find_missing_fill_gap-IsGap_example : IsGap order [] gap
unfolding find_missing_fill_gap gap_of priced_gap recorded_qty recorded_cost fills_of sum_fills
    to_decimal div_ℤ ◌*ℤ◌ ◌-ℤ◌ ◌+ℤ◌
find_missing_fill_gap-IsGap_example = find_missing_fill_gap-IsGap order [] gap refl

abbrev fees : FeeConfig ℤ
fees = record {
  commission_bps = pos 0;
  minimum_commission_tl = pos 0;
  exchange_fee_bps = pos 0;
  other_fee_bps = pos 0;
}

abbrev missing : OrderFill ℤ
missing = reconciliation_fill (λ s. s) fees order 5 gap

reconciled_once_example :
    (find_missing_fill_gap order (missing ∷ []) ≡ none)
    × (record_reconciliation_fill (λ s. s) fees order 9 (missing ∷ []) ≡ (none, missing ∷ []))
unfolding record_reconciliation_fill record_gap find_missing_fill_gap gap_of priced_gap recorded_qty
    recorded_cost fills_of sum_fills to_decimal div_ℤ ◌*ℤ◌ ◌-ℤ◌ ◌+ℤ◌ insert_fill_if_new upper row_at
    is_side
reconciled_once_example =
    reconciled_once ℤ-IsOrdered ℤ-IsExact ℤ-IsDecimal (λ s. s) fees order 5 9 [] (missing ∷ [])
      missing refl

abbrev env : CallbackEnv ℤ
env = record {
  sha256 = λ s. s;
  error_text = λ _. "error";
  fees = fees;
  new_id = λ _. 7;
  surroundings = record {
    strategy_version = "s1";
    prompt_version = "p1";
    schema_version = "d1";
    ai_provider = none;
    ai_model = none;
    risk_decision = λ _. none;
    decision_source = λ _. none;
    new_id = λ _. 2;
    committed = λ _ rows. rows;
  };
}

abbrev store : Store ℤ
store = record {
  orders = order ∷ [];
  reservations = [];
  fills = [];
  positions = record { rows = []; events = [] };
  jobs = [];
}

abbrev job : RepairJob
job = record {
  request_id = some "r-1";
  order_log_id = some 1;
  symbol = some "THYAO";
  repair_type = "FILL_RECONCILIATION";
  status = "PENDING";
  attempt_count = 0;
  last_error = none;
  next_attempt_at = some 100;
  completed_at = none;
}

-- one that is repaired, one that no handler repairs, and one that waits for a person
abbrev jobs : List RepairJob
jobs =
    job
    ∷ record job { repair_type = "LIFECYCLE_RECONCILIATION" }
    ∷ record job { status = "MANUAL_REVIEW"; attempt_count = 8 }
    ∷ []

repair_queue_settles_example :
    All
      (λ job. is_waiting job ≡ false)
      (run_every
        (λ _. "error")
        1
        (process_one_repair_job env (λ _. 5) 100)
        60
        8
        100
        (jobs, store)).0
unfolding is_due is_time is_waiting
repair_queue_settles_example =
    repair_queue_settles env (λ _. 5) 100 1 60 100 jobs store (omega arith)
      (inr refl, (inr refl, (inl refl, tt)))
