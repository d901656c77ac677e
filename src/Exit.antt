-- ===== src/Exit.antt =====
-- app/services/exit_policy.py and position_exit_monitor.py: the deterministic exit of an open
-- position, in multiples of its initial risk, and the wait before the symbol is bought again
-- (app/services/reentry_cooldown.py). Reading a snapshot and sending the order are left out.
pub mod Rules
pub mod Cooldown
use trade_ai_server.Prelude.{
  Bool, true, false, not, ◌&&◌, ◌||◌, Option, none, some, List, [], ◌∷◌, String, if◌then◌else◌,
  first_block, is_none, on_some,
}
use trade_ai_server.Prelude.Text.{str_eq, member}
use trade_ai_server.Number.{Number, nought}

-- `ExitPolicy`
pub record ExitPolicy (D : Type 0) : Type 0 where
  pub version : String
  pub hard_target_r : D
  pub breakeven_activation_r : D
  pub trailing_activation_r : D
  pub trailing_distance_r : D
  pub stagnation_minutes : D
  pub stagnation_mfe_r_ceiling : D
  pub max_holding_minutes : D
  pub entry_order_timeout_seconds : D
  pub urgent_reprice_seconds : D
  pub passive_reprice_seconds : D
  pub reentry_cooldown_take_profit_minutes : D
  pub reentry_cooldown_time_exit_minutes : D
  pub reentry_cooldown_stop_minutes : D

-- `ExitTrigger`
pub record ExitTrigger (D : Type 0) : Type 0 where
  pub reason : String
  pub trigger_price : D

abbrev pub take_profit_reasons : List String
take_profit_reasons = "HARD_TARGET" ∷ "TRAILING" ∷ []

abbrev pub time_exit_reasons : List String
time_exit_reasons = "STAGNATION" ∷ "MAX_HOLD" ∷ []

abbrev pub stop_reasons : List String
stop_reasons = "STOP" ∷ "BREAKEVEN" ∷ []

module _ {D : Type 0} ⦃n : Number D⦄ where
  open n use {literal, add, sub, mul, div, lt, le, to_float}

  -- R: `float((best_bid - entry) / (entry - stop))`
  unfoldable pub multiple_of_risk : D → D → D → D
  multiple_of_risk entry stop best_bid = to_float (div (sub best_bid entry) (sub entry stop))

  abbrev pub trigger : String → D → ExitTrigger D
  trigger reason best_bid = record { reason = reason; trigger_price = best_bid }

  -- the rules of a position whose stop is not below its entry
  abbrev pub absolute_rules : ExitPolicy D → D → D → D → List (Bool × ExitTrigger D)
  absolute_rules policy stop best_bid held_minutes =
      (le best_bid stop, trigger "STOP" best_bid)
      ∷ (le policy.max_holding_minutes held_minutes, trigger "MAX_HOLD" best_bid)
      ∷ []

  -- the rules of the others, where `current_r` is R at the best bid
  abbrev pub ranked_rules : ExitPolicy D → D → D → D → D → D → List (Bool × ExitTrigger D)
  ranked_rules policy stop best_bid current_r peak_r held_minutes =
      (le best_bid stop, trigger "STOP" best_bid)
      ∷ (le policy.hard_target_r current_r, trigger "HARD_TARGET" best_bid)
      ∷ (
        le policy.trailing_activation_r peak_r
            && le current_r (sub peak_r policy.trailing_distance_r),
        trigger "TRAILING" best_bid,
      )
      ∷ (
        le policy.breakeven_activation_r peak_r && le current_r nought,
        trigger "BREAKEVEN" best_bid,
      )
      ∷ (
        le policy.stagnation_minutes held_minutes && lt peak_r policy.stagnation_mfe_r_ceiling,
        trigger "STAGNATION" best_bid,
      )
      ∷ (le policy.max_holding_minutes held_minutes, trigger "MAX_HOLD" best_bid)
      ∷ []

  -- `evaluate_exit(policy, entry, stop, best_bid, peak_r, held_minutes)`
  unfoldable pub evaluate_exit : ExitPolicy D → D → D → D → D → D → Option (ExitTrigger D)
  unfolding multiple_of_risk
  evaluate_exit policy entry stop best_bid peak_r held_minutes =
      if le (sub entry stop) nought
      then first_block (absolute_rules policy stop best_bid held_minutes)
      else first_block (
          ranked_rules policy stop best_bid (multiple_of_risk entry stop best_bid) peak_r
            held_minutes)

  -- `_cooldown_minutes`
  unfoldable pub cooldown_minutes : Option String → ExitPolicy D → D
  cooldown_minutes none policy = policy.reentry_cooldown_stop_minutes
  cooldown_minutes (some reason) policy =
      if member reason take_profit_reasons
      then policy.reentry_cooldown_take_profit_minutes
      else if member reason time_exit_reasons
      then policy.reentry_cooldown_time_exit_minutes
      else policy.reentry_cooldown_stop_minutes
