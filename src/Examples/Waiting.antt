-- ===== src/Examples/Waiting.antt =====
-- The wait after an exit at concrete inputs.
use trade_ai_server.Prelude.{some, [], ◌∷◌}
use trade_ai_server.Prelude.Int.{ℤ, pos}
use trade_ai_server.Prelude.{List, ◌+◌, ◌*◌, ℕ}
use trade_ai_server.Lifecycle.{PositionLifecycle}
use trade_ai_server.Exit.Cooldown.{ExitIntent}
use trade_ai_server.Exit.Cooldown.Latest.{Waits, reentry_cooldown_block-Waits}
use trade_ai_server.Number.Whole.{whole_number}
use trade_ai_server.Examples.Decisions.{policy}
use trade_ai_server.Examples.Positions.{position}

abbrev minutes : ℤ → ℕ
minutes (pos n) = n
minutes (ℤ.negsuc n) = 0

-- an early close, a late one and an open position
abbrev rows : List (PositionLifecycle ℤ)
rows =
    record position { status = "CLOSED"; closed_at = some 40 }
    ∷ record position { id = 2; status = "CLOSED"; closed_at = some 90 }
    ∷ record position { id = 3 }
    ∷ []

abbrev intents : List ExitIntent
intents =
    record { position_lifecycle_id = some 2; trigger_at = 80; exit_reason = "STOP" }
    ∷ record { position_lifecycle_id = some 2; trigger_at = 88; exit_reason = "TRAILING" }
    ∷ []

reentry_cooldown_block-Waits_example :
    Waits
      (λ at d. at + 60 * minutes d)
      (λ at. "t")
      (λ s. "s")
      (λ d. "m")
      policy
      95
      "thyao"
      rows
      intents
reentry_cooldown_block-Waits_example =
    reentry_cooldown_block-Waits (λ at d. at + 60 * minutes d) (λ at. "t") (λ s. "s") (λ d. "m")
      policy 95 "thyao" rows intents
