-- ===== src/Lib.antt =====
-- trade-ai-server: the order and position core of a trading server.
--
-- A signal passes the risk engine and becomes a sized BUY or SELL order, the order is reserved in a ledger before it is sent, the
-- gateway reports its progress by callbacks, each callback may add a fill, and fills open, enlarge and
-- close the position of their symbol. Paths are from the repository's root.
--
-- Order/StateMachine   app/services/order_state_machine.py: `transition` and its tables.
-- Order/Row            the rows of app/models/db/order_log.py and order_cash_reservation.py.
-- Order/Reservation    app/services/cash_reservation.py: `sync_cash_reservation`; Cash has
--                      `calculate_backend_reserved_cash`.
-- Order/Ledger         app/services/order_ledger.py: `reserve_order`; Sent has `mark_send_started` and
--                      `mark_send_result`.
-- Fill, Fill/Ledger    app/services/fill_ledger.py: costs, slippage and `record_fill_delta`; Fill/Gap has
--                      `find_missing_fill_gap` and `record_reconciliation_fill`.
-- Lifecycle            app/services/position_lifecycle_engine.py: Stop has the levels and
--                      `tighten_active_stop`, Rows the rows that a fill gives, and Engine
--                      has `apply_fill_to_lifecycle`.
-- Repair               app/services/measurement_repair.py: `enqueue_repair_job`.
-- Reconciliation       app/services/measurement_reconciliation.py: `run_fill_reconciliation` and
--                      `process_repair_jobs`.
-- Callback             app/services/order_lifecycle.py: `apply_callback`, which uses all of these.
-- BlockReason          app/services/block_reason_classifier.py.
-- DecisionGate         app/services/decision_gate.py: `preflight_wait_reason`; Cache has `DecisionCache`.
-- AiCallGate           app/services/ai_call_gate.py: `resolve_bar_key` and `try_claim_ai_call`.
-- Sizing               app/services/position_sizing.py: `calculate_buy_size`, in Calculate.
-- EffectiveRisk        app/services/effective_risk_config.py: `resolve`; Layer has the layers.
-- Risk                 app/services/risk_engine.py: `evaluate`, in Evaluate, with its tests in Gates and
--                      Technical and its responses in Answer; the settings of app/core/risk_config.py
--                      and the requests of app/models/signal.py.
-- BuyReservation       app/services/cash_reservation.py: `reserve_sized_buy`, which sizes a BUY with the
--                      cash that is left and reserves its order.
-- Preflight            app/services/order_preflight.py: `validate_order_preflight`.
-- Exit                 app/services/position_exit_monitor.py: `evaluate_exit`, with the policy of
--                      exit_policy.py; Cooldown has `reentry_cooldown_block` of
--                      reentry_cooldown.py.
-- Prelude, Number      shared tests, lists, tables, results and texts, and the arithmetic.
-- Examples             the theorems at concrete inputs.
--
-- State and errors. A database table is a list of rows in order of insertion, and a handler is a
-- function from the tables to the tables; an exception is the value `raised`, and leaves the tables as
-- they were. `datetime.now` is an argument. Where a handler reads a row and inserts one later, what
-- other transactions commit in between is a function, over which the theorems quantify; the retry loop
-- of `_apply_buy_fill` has one commit before each insertion and one after each that is refused. Rows
-- that are locked by the handler do not change meanwhile.
--
-- Numbers. `Decimal` and `float` are an abstract type with the operations that the code uses
-- (`Number`). Most theorems hold of any such operations, rounding included; the others name what they
-- need, a total order (`IsOrdered`) or exact arithmetic (`IsExact`). The integers, with
-- division rounded to 0, are used in Examples. Texts are ASCII.
--
-- Loops. The retry loop of `_apply_buy_fill` counts down its 3 attempts, as in the code; all other
-- loops go through a list. There is no fuel.
--
-- Parameters: `hashlib.sha256`, the texts of numbers and exceptions, the ids that the database gives,
-- the configured fees, the rows of `risk_decisions` and `decision_outcomes`.
--
-- Not modelled: the check constraints of the database, the reconciliation of positions with the
-- gateway, the exit monitor's loop, the readers of the environment and the database that build the
-- layers of limits, audit rows and logs, the scanner, the AI provider, the gateway client, the reports,
-- the web application and the C# code under matriks/: they are further parts of the program, or input
-- and output. The validators of the settings and of requests are left out too: the model starts from
-- validated values, and a boundary of a trading window is the minute of the day that its text stands
-- for.
pub mod Prelude
pub mod Number
pub mod Order
pub mod Exit
pub mod Fill
pub mod Lifecycle
pub mod Callback
pub mod Examples
pub mod Preflight
pub mod Repair
pub mod Sizing
pub mod EffectiveRisk
pub mod Risk
pub mod BuyReservation
pub mod Reconciliation
pub mod BlockReason
pub mod DecisionGate
pub mod AiCallGate
