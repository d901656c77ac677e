-- ===== src/Exit/Cooldown.antt =====
-- `reentry_cooldown_block` of app/services/reentry_cooldown.py, over the rows of the positions and of the
-- exit intents. `after_minutes` adds a `timedelta(minutes=...)`; the texts of a time, of whole seconds
-- and of minutes are parameters. Where two rows have the same time, the first is taken.
pub mod Latest
use Prim.Native.String
use trade_ai_server.Prelude.{
  ℕ, Bool, ◌&&◌, Option, none, some, List, [], ◌∷◌, String, if◌then◌else◌, ltb, leb, select,
  is_some, or_else, ◌-◌, ◌==◌, on_some,
}
use mathlib.Core.Option.{map as option_map}
use trade_ai_server.Prelude.Text.{str_eq, upper}
use trade_ai_server.Order.Row.{Time}
use trade_ai_server.Lifecycle.{PositionLifecycle}
use trade_ai_server.Number.{Number}
use trade_ai_server.Exit.{ExitPolicy, cooldown_minutes}

-- `ExitIntent`, as far as it is read here
pub record ExitIntent : Type 0 where
  pub position_lifecycle_id : Option ℕ
  pub trigger_at : Time
  pub exit_reason : String

module _ {ℓ} {A : Type ℓ} (at : A → Time) where
  unfoldable pub newer : A → Option A → Option A
  newer x none = some x
  newer x (some y) = if ltb (at x) (at y) then some y else some x

  -- `.order_by(....desc()).limit(1)`
  unfoldable pub newest : List A → Option A
  unfolding newer
  newest [] = none
  newest (x ∷ xs) = newer x (newest xs)

module _ {D : Type 0} where
  -- the condition of the query for closed positions
  unfoldable pub is_closed_of : String → PositionLifecycle D → Bool
  is_closed_of symbol row =
      str_eq row.symbol symbol && str_eq row.status "CLOSED" && is_some row.closed_at

  abbrev pub closed_time : PositionLifecycle D → Time
  closed_time row = or_else row.closed_at 0

  -- the reason of the newest intent of a position
  unfoldable pub exit_reason_of : PositionLifecycle D → List ExitIntent → Option String
  unfolding newest
  exit_reason_of lifecycle intents =
      option_map (λ i. i.exit_reason)
        (newest (λ i. i.trigger_at)
          (select (λ i. on_some (λ id. id == lifecycle.id) i.position_lifecycle_id) intents))

-- `reason or 'exit'`
abbrev reason_text : Option String → String
reason_text none = "exit"
reason_text (some reason) = if str_eq reason "" then "exit" else reason

module _ {D : Type 0} ⦃n : Number D⦄ (after_minutes : Time → D → Time) where
  -- `unblock_at`
  unfoldable pub unblock_at : ExitPolicy D → List ExitIntent → PositionLifecycle D → Time
  unfolding exit_reason_of
  unblock_at policy intents lifecycle =
      after_minutes (closed_time lifecycle)
        (cooldown_minutes (exit_reason_of lifecycle intents) policy)

module _ {D : Type 0} ⦃n : Number D⦄ (after_minutes : Time → D → Time) (time_text : Time → String)
    (seconds_text : ℕ → String) (minutes_text : D → String) where
  unfoldable pub block_after :
      ExitPolicy D → Time → List ExitIntent → Option (PositionLifecycle D) → Option String
  unfolding unblock_at
  block_after policy now intents none = none
  block_after policy now intents (some lifecycle) =
      let reason = exit_reason_of lifecycle intents in
      let ends = unblock_at after_minutes policy intents lifecycle in
      if leb ends now
      then none
      else some (
          String.◌++◌ "Re-entry cooldown after " (
            String.◌++◌ (reason_text reason) (
              String.◌++◌ ": " (
                String.◌++◌ (seconds_text (ends - now)) (
                  String.◌++◌ "s remaining (closed " (
                    String.◌++◌ (time_text (closed_time lifecycle)) (
                      String.◌++◌ ", " (
                        String.◌++◌ (minutes_text (cooldown_minutes reason policy))
                          "min window)"))))))))

  -- `reentry_cooldown_block`
  unfoldable pub reentry_cooldown_block :
      ExitPolicy D → Time → String → List (PositionLifecycle D) → List ExitIntent → Option String
  unfolding block_after newest is_closed_of
  reentry_cooldown_block policy now symbol rows intents =
      block_after policy now intents
        (newest closed_time (select (is_closed_of (upper symbol)) rows))
