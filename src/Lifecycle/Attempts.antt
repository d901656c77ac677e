-- ===== src/Lifecycle/Attempts.antt =====
-- When the retry loop of `_apply_buy_fill` ends with a row, and when it gives up.
use trade_ai_server.Prelude.{
  ℕ, zero, suc, ◌+◌, Bool, not, ◌&&◌, ◌≡◌, true, false, List, String, exists,
}
use trade_ai_server.Prelude.Text.{upper, strip}
use trade_ai_server.Prelude.Result.{Result, ok, raised, Error}
use trade_ai_server.Number.{Number}
use trade_ai_server.Order.Row.{OrderLog}
use trade_ai_server.Fill.{OrderFill}
use trade_ai_server.Lifecycle.{PositionLifecycle, Positions, is_open_of}
use trade_ai_server.Lifecycle.Rows.{Surroundings}
use trade_ai_server.Lifecycle.OneOpen.{OneOpen}

module _ {D : Type 0} (env : Surroundings D) (symbol : String) where
  -- Every one of so many attempts is lost: its read finds no open row, but its insertion meets one,
  -- which is gone again or not when the next attempt reads.
  unfoldable pub is_contested : ℕ → List (PositionLifecycle D) → Bool
  is_contested zero rows = true
  is_contested (suc k) rows =
      let met = env.committed (suc (k + k)) rows in
      let rest = is_contested k (env.committed (k + k) met) in
      not (exists (is_open_of symbol) rows) && exists (is_open_of symbol) met && rest

module _ {D : Type 0} ⦃n : Number D⦄ (env : Surroundings D) (row : OrderLog D) (fill : OrderFill D)
    (symbol : String) (normal : upper (strip symbol) ≡ symbol) where
  Ends : Result (PositionLifecycle D × Positions D) → Type 0
  Ends m = (result : PositionLifecycle D × Positions D) × (m ≡ ok result)

  gave_up : Result (PositionLifecycle D × Positions D)
  gave_up = raised (Error.runtime_error "Could not resolve open-lifecycle insert conflict")

  -- how a call of the loop ends
  Outcome : Bool → Result (PositionLifecycle D × Positions D) → Type 0
  Outcome true m = m ≡ gave_up
  Outcome false m = Ends m
