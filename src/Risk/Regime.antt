-- ===== src/Risk/Regime.antt =====
-- What the market's regime decides.
use trade_ai_server.Prelude.{◌≡◌, refl, Bool, Option, String}
use trade_ai_server.Number.{Number}
use trade_ai_server.Risk.{sell}
use trade_ai_server.Risk.Gates.{
  Call, allow_order, clamped_qty, confidence_ok, research_checks, threshold, trade_checks,
}
use trade_ai_server.Risk.Evaluate.{evaluate, trade_reason}

module _ {D : Type 0} ⦃n : Number D⦄ (call : Call D) where
  -- A SELL does not depend on the market's regime, on the type of the account or on the policy for
  -- demo accounts: for any others, `evaluate` answers the same.
  pub sell_in_any_regime :
      (regime account_type : Option String) (allow : Bool)
      → call.decision.action ≡ sell
      → evaluate (record call {
        market_regime = regime;
        account_type = account_type;
        allow_demo_downtrend_buy = allow;
      })
        ≡ evaluate call
  unfolding evaluate allow_order clamped_qty confidence_ok trade_reason research_checks threshold
      trade_checks
  sell_in_any_regime regime account_type allow is = rw is refl
