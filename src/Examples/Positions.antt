-- ===== src/Examples/Positions.antt =====
-- Fills, lifecycles, callbacks and repairs at concrete inputs.
use trade_ai_server.Prelude.{
  ◌≡◌, ℕ, zero, suc, true, false, none, some, List, [], ◌∷◌, refl, All, length, select,
  if◌then◌else◌,
}
use trade_ai_server.Prelude.Int.{ℤ, pos, ◌-ℤ◌}
use trade_ai_server.Prelude.Table.{Distinct}
use trade_ai_server.Prelude.Result.{Ensures}
use trade_ai_server.Number.Whole.{whole_number, ℤ-IsOrdered, ℤ-IsExact}
use trade_ai_server.Fill.{OrderFill, FeeConfig, to_decimal}
use trade_ai_server.Fill.Ledger.{record_fill_delta}
use trade_ai_server.Fill.Delta.{Outcome, record_fill_delta-Outcome}
use trade_ai_server.Lifecycle.{PositionLifecycle, Positions, is_open, is_open_of}
use trade_ai_server.Lifecycle.Engine.{apply_fill_to_lifecycle}
use trade_ai_server.Lifecycle.Rows.{Surroundings, sold}
use trade_ai_server.Lifecycle.OneOpen.{OneOpen, apply_fill-OneOpen}
use trade_ai_server.Lifecycle.Attempts.{is_contested}
use trade_ai_server.Lifecycle.Quantity.{IsSound, holds, sold_closes, apply_fill-IsSound}
use trade_ai_server.Lifecycle.Trail.{buy, sell, tighten, updated, IsKept, updated-IsKept}
use trade_ai_server.Repair.{is_open_job, enqueue_repair_job, enqueue_one}
use trade_ai_server.Callback.{Store, Callback, CallbackEnv, after_callbacks}
use trade_ai_server.Callback.Progress.{Tracks, after_callbacks-Tracks}
use trade_ai_server.Callback.Consistent.{IsConsistent, after_callbacks-IsConsistent}
use trade_ai_server.Callback.Isolation.{ledger_of, after_callbacks_isolated}
use trade_ai_server.Examples.Orders.{order}

abbrev surroundings : Surroundings ℤ
surroundings = record {
  strategy_version = "s1";
  prompt_version = "p1";
  schema_version = "d1";
  ai_provider = none;
  ai_model = none;
  risk_decision = λ _. some (some (pos 23), some (pos 30));
  decision_source = λ _. some "llm";
  new_id = λ _. 2;
  committed = λ _ rows. rows;
}

abbrev fees : FeeConfig ℤ
fees = record {
  commission_bps = pos 0;
  minimum_commission_tl = pos 0;
  exchange_fee_bps = pos 0;
  other_fee_bps = pos 0;
}

abbrev fill : OrderFill ℤ
fill = record {
  order_log_id = 1;
  request_id = "r-1";
  order_id = some "o-1";
  account_ref = none;
  symbol = "THYAO";
  action = "BUY";
  fill_qty = pos 4;
  fill_price = pos 25;
  limit_price = some (pos 25);
  gross_value_tl = pos 100;
  commission_tl = pos 0;
  exchange_fee_tl = pos 0;
  other_fee_tl = pos 0;
  total_cost_tl = pos 0;
  slippage_tl = none;
  slippage_pct = none;
  fill_event_key = "k-1";
  fill_source = "CALLBACK_DELTA";
  filled_at = 3;
}

abbrev pub position : PositionLifecycle ℤ
position = record {
  id = 1;
  symbol = "THYAO";
  status = "OPEN";
  opened_at = 1;
  closed_at = none;
  entry_request_id = some "r-0";
  entry_order_id = none;
  current_qty = pos 6;
  average_entry_price = some (pos 24);
  gross_buy_value_tl = pos 144;
  gross_sell_value_tl = pos 0;
  total_buy_cost_tl = pos 0;
  total_sell_cost_tl = pos 0;
  gross_realized_pnl_tl = pos 0;
  net_realized_pnl_tl = pos 0;
  initial_stop_loss = some (pos 22);
  active_stop_loss = some (pos 22);
  initial_target_price = none;
  active_target_price = none;
  strategy_version = none;
  prompt_version = none;
  decision_context_schema_version = none;
  config_hash = none;
  profile_code = none;
  ai_provider = none;
  ai_model = none;
  decision_source = none;
  data_quality = "VERIFIED";
  is_backfilled = false;
  pnl_verified = true;
  measurement_source = "FILL_LEDGER";
}

abbrev positions : Positions ℤ
positions = record { rows = position ∷ []; events = [] }

abbrev no_positions : Positions ℤ
no_positions = record { rows = []; events = [] }

apply_fill-OneOpen_example :
    Ensures
      (λ result. OneOpen result.1.rows)
      (apply_fill_to_lifecycle surroundings order fill positions)
unfolding is_open
apply_fill-OneOpen_example =
    apply_fill-OneOpen surroundings order fill (λ _ _ h. h) positions (tt, tt)

-- others open a lifecycle before the first two insertions, and close it before the next read
rivals : ℕ → List (PositionLifecycle ℤ) → List (PositionLifecycle ℤ)
rivals zero rows = rows
rivals (suc zero) rows = rows
rivals (suc (suc zero)) rows = record position { status = "CLOSED" } ∷ []
rivals (suc (suc (suc zero))) rows = position ∷ []
rivals (suc (suc (suc (suc k)))) rows = rivals (suc (suc k)) rows

abbrev busy : Surroundings ℤ
busy = record surroundings { committed = rivals }

-- the third attempt opens the lifecycle
third_attempt : is_contested busy "THYAO" 3 [] ≡ false
unfolding is_contested rivals is_open_of is_open
third_attempt = refl

apply_fill-IsSound_example :
    Ensures
      (λ result. All IsSound result.1.rows)
      (apply_fill_to_lifecycle surroundings order fill positions)
unfolding is_open
apply_fill-IsSound_example =
    apply_fill-IsSound ℤ-IsOrdered ℤ-IsExact surroundings order fill refl (λ _ _ h. h) positions
      (holds refl refl, tt)

sold_closes_example :
    IsSound (sold fill position)
    × (is_open (sold fill position) ≡ whole_number.lt (pos 4) (pos 6))
    × ((sold fill position).current_qty
        ≡ (if whole_number.lt (pos 4) (pos 6) then pos 6 -ℤ pos 4 else pos 0))
unfolding is_open
sold_closes_example = sold_closes ℤ-IsOrdered ℤ-IsExact fill position refl refl refl

updated-IsKept_example :
    IsKept
      (some (pos 22))
      (updated
        (buy fill (some (pos 20), none)
          ∷ tighten (pos 24) "BREAK_EVEN_ACTIVATED" "r"
          ∷ sell fill
          ∷ [])
        position).active_stop_loss
unfolding to_decimal
updated-IsKept_example =
    updated-IsKept ℤ-IsOrdered (λ x. refl)
      (buy fill (some (pos 20), none)
        ∷ tighten (pos 24) "BREAK_EVEN_ACTIVATED" "r"
        ∷ sell fill
        ∷ [])
      position

record_fill_delta-Outcome_example :
    let result =
      record_fill_delta
        (λ s. s)
        fees
        order
        (some (pos 0))
        none
        (some (pos 4))
        (some (pos 25))
        (some (pos 25))
        none
        3
        (fill ∷ []) in
    Outcome (fill ∷ []) result
    × (Distinct (λ f. f.fill_event_key) (fill ∷ []) → Distinct (λ f. f.fill_event_key) result.1)
record_fill_delta-Outcome_example =
    record_fill_delta-Outcome (λ s. s) fees order (some (pos 0)) none (some (pos 4)) (some (pos 25))
      (some (pos 25)) none 3 (fill ∷ [])

enqueue_one_example :
    Ensures
      (λ jobs'. length (select (is_open_job (some 1) "FILL_RECONCILIATION") jobs') ≡ 1)
      (enqueue_repair_job 4 "FILL_RECONCILIATION" "boom" none (some 1) none [])
enqueue_one_example = enqueue_one 4 "FILL_RECONCILIATION" "boom" none 1 none []

abbrev env : CallbackEnv ℤ
env = record {
  sha256 = λ s. s;
  error_text = λ _. "error";
  fees = fees;
  new_id = λ _. 7;
  surroundings = surroundings;
}

-- two open lifecycles of one symbol
abbrev store : Store ℤ
store = record {
  orders = order ∷ [];
  reservations = [];
  fills = [];
  positions = record { rows = position ∷ record position { id = 2 } ∷ []; events = [] };
  jobs = [];
}

abbrev callback : Callback ℤ
callback = record {
  request_id = "r-1";
  symbol = "THYAO";
  action = "BUY";
  status = "filled";
  order_qty = pos 10;
  filled_qty = pos 10;
  last_fill_qty = pos 6;
  avg_price = some (pos 25);
  limit_price = some (pos 25);
  order_id = some "o-1";
  message = "done";
}

after_callbacks-Tracks_example :
    Tracks (order ∷ []) (after_callbacks env 9 (callback ∷ callback ∷ []) store).orders
after_callbacks-Tracks_example =
    after_callbacks-Tracks ℤ-IsOrdered env 9 (callback ∷ callback ∷ []) store

-- other fees and lifecycles
abbrev other_env : CallbackEnv ℤ
other_env = record env { fees = record fees { commission_bps = pos 10 }; surroundings = busy }

abbrev other_store : Store ℤ
other_store = record store { fills = fill ∷ []; positions = positions }

after_callbacks_isolated_example :
    ledger_of (after_callbacks env 9 (callback ∷ callback ∷ []) store)
    ≡ ledger_of (after_callbacks other_env 9 (callback ∷ callback ∷ []) other_store)
after_callbacks_isolated_example =
    after_callbacks_isolated env other_env 9 (callback ∷ callback ∷ []) store other_store refl refl

abbrev sound_store : Store ℤ
sound_store = record store { positions = positions }

after_callbacks-IsConsistent_example :
    IsConsistent (after_callbacks env 9 (callback ∷ callback ∷ []) sound_store)
unfolding is_open
after_callbacks-IsConsistent_example =
    after_callbacks-IsConsistent env 9 (λ _ _ h. h) (callback ∷ callback ∷ []) sound_store
      (record { one_open = (tt, tt); distinct_keys = tt })
