-- ===== src/Exit/Rules.antt =====
-- `evaluate_exit` of app/services/position_exit_monitor.py: which rule fires.
use trade_ai_server.Prelude.{◌≡◌, true, false, none, arith, on_some}
use trade_ai_server.Prelude.Text.{str_eq}
use trade_ai_server.Number.{Number, nought}
use trade_ai_server.Exit.{ExitPolicy, evaluate_exit, multiple_of_risk}

module _ {D : Type 0} ⦃n : Number D⦄ where
  open n use {sub, le, lt}

  -- What is known of a position that is not sold.
  pub record IsHeldOn (policy : ExitPolicy D) (entry stop best_bid peak_r held_minutes : D)
      : Type 0 where
    pub above_stop : le best_bid stop ≡ false
    pub in_time : le policy.max_holding_minutes held_minutes ≡ false
    pub below_target :
        le (sub entry stop) nought ≡ false
        → le policy.hard_target_r (multiple_of_risk entry stop best_bid) ≡ false
    pub not_given_back :
        le (sub entry stop) nought ≡ false
        → le policy.trailing_activation_r peak_r ≡ true
        → le (multiple_of_risk entry stop best_bid) (sub peak_r policy.trailing_distance_r) ≡ false

  module _ (policy : ExitPolicy D) (entry stop best_bid peak_r held_minutes : D) where
    -- Whatever the entry, the peak and the time held: a position is sold with the reason STOP if and
    -- only if the best bid is at or below its stop, so no other rule goes before the stop.
    pub evaluate_exit_stop :
        on_some
          (λ t. str_eq t.reason "STOP")
          (evaluate_exit policy entry stop best_bid peak_r held_minutes)
        ≡ le best_bid stop
    unfolding evaluate_exit
    evaluate_exit_stop = ground arith

    -- A position that is not sold has its best bid above the stop and has not been held for the longest
    -- time allowed; if its stop is below its entry, R is below the hard target, and once the peak has
    -- activated the trailing exit, R has not fallen back by the trailing distance.
    pub evaluate_exit-IsHeldOn :
        evaluate_exit policy entry stop best_bid peak_r held_minutes ≡ none
        → IsHeldOn policy entry stop best_bid peak_r held_minutes
    unfolding evaluate_exit
    evaluate_exit-IsHeldOn h = record {
      above_stop = ground arith;
      in_time = ground arith;
      below_target = λ k. ground arith;
      not_given_back = λ k l. ground arith;
    }
