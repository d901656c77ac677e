-- ===== src/Lifecycle/Stop.antt =====
-- The stop and the target of a position: the levels of the decision behind a fill, the event log,
-- and `tighten_active_stop` and `record_position_exit_trigger`.
use trade_ai_server.Prelude.{
  Bool, true, false, not, ◌||◌, Option, none, some, List, [], ◌∷◌, String, if◌then◌else◌,
}
use trade_ai_server.Prelude.Text.{member}
use trade_ai_server.Prelude.Result.{Result, ok, raised, Error}
use trade_ai_server.Number.{Number, nought}
use trade_ai_server.Fill.{to_decimal}
use trade_ai_server.Lifecycle.{PositionLifecycle, StopEvent}

-- `_POSITION_EXIT_TRIGGER_TYPES`
abbrev pub exit_trigger_types : List String
exit_trigger_types = "STOP_BREACHED" ∷ "TAKE_PROFIT_TRIGGERED" ∷ []

-- `_DETERMINISTIC_STOP_EVENT_TYPES`
abbrev pub stop_event_types : List String
stop_event_types = "BREAK_EVEN_ACTIVATED" ∷ "TRAILING_STOP_TIGHTENED" ∷ []

module _ {D : Type 0} ⦃n : Number D⦄ where
  open n use {literal, lt, le, quantize}

  -- a price that is not positive is no price
  unfoldable pub positive_price : Option D → Option D
  positive_price none = none
  positive_price (some price) = if le price nought then none else some price

  -- `_resolve_decision_stop_target`: the argument is the stop and the target of the row of
  -- `risk_decisions` with the fill's request
  unfoldable pub decision_stop_target : Option (Option D × Option D) → Option D × Option D
  decision_stop_target none = (none, none)
  decision_stop_target (some (stop, target)) =
      (positive_price (to_decimal stop), positive_price (to_decimal target))

  -- `_record_stop_event`
  unfoldable pub stop_event :
      PositionLifecycle D
      → Option D
      → Option D
      → String
      → Option String
      → Option String
      → String
      → StopEvent D
  stop_event lifecycle old_stop new_stop event_type source_request_id source_order_id reason =
      record {
        position_lifecycle_id = lifecycle.id;
        symbol = lifecycle.symbol;
        old_stop = old_stop;
        new_stop = new_stop;
        event_type = event_type;
        source_request_id = source_request_id;
        source_order_id = source_order_id;
        reason = reason;
      }

  -- The price that `tighten_active_stop` writes, if it writes one. `_STOP_PRICE_QUANTUM` is 10^-10
  -- and `_STOP_PRICE_MAX_EXCLUSIVE` is 10^18. `quantize` always gives a number here.
  unfoldable pub tighter_stop : Option D → D → Option D
  tighter_stop none candidate = none
  tighter_stop (some old_stop) candidate =
      let price = quantize 10 candidate in
      if le candidate nought
      then none
      else if le price nought || le (literal 1000000000000000000 0) price || le price old_stop
      then none
      else some price

  unfoldable pub tightened :
      PositionLifecycle D
      → String
      → String
      → Option D
      → Bool × PositionLifecycle D × List (StopEvent D)
  unfolding stop_event
  tightened lifecycle event_type reason none = (false, lifecycle, [])
  tightened lifecycle event_type reason (some price) = (
    true,
    record lifecycle { active_stop_loss = some price },
    stop_event lifecycle (to_decimal lifecycle.active_stop_loss) (some price) event_type none none
          reason
        ∷ [],
  )

  -- Whether the stop was tightened, the row, and the new events.
  unfoldable pub tighten_active_stop :
      PositionLifecycle D
      → D
      → String
      → String
      → Result (Bool × PositionLifecycle D × List (StopEvent D))
  unfolding tighter_stop tightened
  tighten_active_stop lifecycle candidate event_type reason =
      if not (member event_type stop_event_types)
      then raised (Error.value_error "Unsupported deterministic stop event type")
      else elim (to_decimal (some candidate)) [
        | none ↦ ok (false, lifecycle, [])
        | some price ↦ ok (
            tightened lifecycle event_type reason
              (tighter_stop (to_decimal lifecycle.active_stop_loss) price))
      ]

  unfoldable pub record_position_exit_trigger :
      PositionLifecycle D → String → Option String → String → Result (List (StopEvent D))
  unfolding stop_event
  record_position_exit_trigger lifecycle event_type source_request_id reason =
      if not (member event_type exit_trigger_types)
      then raised (Error.value_error "Unsupported position exit trigger type")
      else ok (
          stop_event lifecycle lifecycle.active_stop_loss lifecycle.active_stop_loss event_type
            source_request_id none reason
          ∷ [])
