-- ===== src/Risk/Layers.antt =====
-- From the three layers of limits to the order: what a BUY that may be sent costs.
use trade_ai_server.Prelude.{◌≡◌, true, some, String, arith}
use trade_ai_server.Prelude.Int.{ℤ, ◌≤ℤ◌}
use trade_ai_server.Prelude.Result.{ok, Ensures-ok_of}
use trade_ai_server.Number.{Number, nought}
use trade_ai_server.Number.Laws.{IsOrdered, IsExact, le_of_not_lt}
use trade_ai_server.EffectiveRisk.{EffectiveRiskConfig, resolve}
use trade_ai_server.EffectiveRisk.Layer.{
  RiskConfigLayer, TradeProfile, profile_values, is_valid, is_amount, maximum_limits, limit_fields,
}
use trade_ai_server.EffectiveRisk.Strictest.{IsNoLooser, resolve-IsNoLooser, resolve-limits}
use trade_ai_server.EffectiveRisk.Succeeds.{is_valid-IsAccepted}
use trade_ai_server.Sizing.Calculate.{candidates}
use trade_ai_server.Sizing.Caps.{allowed_result}
use trade_ai_server.Sizing.Budgets.{budgets_kept}
use trade_ai_server.Risk.{buy}
use trade_ai_server.Risk.Answer.{sizing_trade, sizing_limits}
use trade_ai_server.Risk.Gates.{Call}
use trade_ai_server.Risk.Evaluate.{evaluate}
use trade_ai_server.Risk.Buy.{buy-IsSafeBuy}

module _ {D : Type 0} ⦃n : Number D⦄ where
  open n use {le, mul, of_int}

  -- A quantity at a price within a layer's limits for one order.
  pub record IsWithin (qty : ℤ) (price : D) (layer : RiskConfigLayer D) : Type 0 where
    pub lots : qty ≤ℤ layer.max_qty_per_order
    pub value : le (mul (of_int qty) price) layer.max_order_value_tl ≡ true

module _ {D : Type 0} ⦃n : Number D⦄ (o : IsOrdered D) (x : IsExact D) (call : Call D)
    (effective : EffectiveRiskConfig D) where
  open n use {le, mul, of_int}
  open call use {request, decision}

  amount_nonneg : (d : D) → is_amount d ≡ true → le nought d ≡ true
  amount_nonneg d h = le_of_not_lt o d nought (ground arith)

  effective-IsWithin :
      is_valid effective.limits ≡ true
      → call.effective_config ≡ some effective
      → decision.action ≡ buy
      → (evaluate call).response.allow_order ≡ true
      → (price : D) × ((evaluate call).response.price ≡ some price)
        × IsWithin (evaluate call).response.qty price effective.limits
  unfolding sizing_limits candidates sizing_trade maximum_limits
  effective-IsWithin valid has is h =
      let s = buy-IsSafeBuy call effective has is h in
      let trade = sizing_trade request decision s.entry s.stop s.target in
      let limits = sizing_limits effective in
      let maxima = (is_valid-IsAccepted effective.limits valid).maxima in
      let (_, caps, value, _, _, _) = allowed_result s.account trade limits s.sized in
      let (_, _, _, order) =
        budgets_kept o x s.account trade limits (amount_nonneg _ maxima.1.1.0)
          (amount_nonneg _ maxima.1.1.1.1.1.0) s.sized in
      (
        s.entry.max,
        s.price,
        rw s.qty (record { lots = caps.1.1.1.1.1.1.0; value = rw⁻¹ value order }),
      )

  -- What is within limits is within looser limits.
  looser-IsWithin :
      (qty : ℤ) (price : D) (strict loose : RiskConfigLayer D)
      → IsNoLooser strict loose
      → IsWithin qty price strict
      → IsWithin qty price loose
  unfolding maximum_limits limit_fields
  looser-IsWithin qty price strict loose s w = record {
    lots = omega (arith, w.lots, s.ints.0);
    value = o.le_trans _ _ _ w.value s.maxima.1.1.1.1.1.0;
  }

  -- With exact arithmetic, a BUY that is allowed under a configuration that was resolved from the
  -- environment, the system and a trade profile has a limit price, and neither its quantity nor its
  -- value at that price exceeds the limit for one order of any of the three.
  pub buy-IsWithin_layers :
      (fingerprint : RiskConfigLayer D → String) (environment system : RiskConfigLayer D)
      (version : String) (profile : TradeProfile D)
      → resolve fingerprint environment system version profile ≡ ok effective
      → call.effective_config ≡ some effective
      → decision.action ≡ buy
      → (evaluate call).response.allow_order ≡ true
      → (price : D) × ((evaluate call).response.price ≡ some price)
        × IsWithin (evaluate call).response.qty price environment
        × IsWithin (evaluate call).response.qty price system
        × IsWithin (evaluate call).response.qty price (profile_values profile)
  buy-IsWithin_layers fingerprint environment system version profile resolved has is h =
      let (_, _, _, valid) =
        Ensures-ok_of (resolve-limits o fingerprint environment system version profile) effective
          resolved in
      let (e, s, p) =
        Ensures-ok_of (resolve-IsNoLooser o fingerprint environment system version profile)
          effective resolved in
      let (price, at, within) = effective-IsWithin valid has is h in
      let qty = (evaluate call).response.qty in
      (
        price,
        at,
        looser-IsWithin qty price effective.limits environment e within,
        looser-IsWithin qty price effective.limits system s within,
        looser-IsWithin qty price effective.limits (profile_values profile) p within,
      )
