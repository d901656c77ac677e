-- ===== src/EffectiveRisk/Succeeds.antt =====
-- When `resolve` succeeds.
use trade_ai_server.Prelude.{
  ◌≡◌, true, arith, String, All, All-every, every-All, and_true, ◌++◌, All-append, refl,
  All-of_append, every,
}
use trade_ai_server.Prelude.Int.{ℤ}
use trade_ai_server.Prelude.Result.{ok}
use trade_ai_server.Number.{Number, max_of, min_of}
use trade_ai_server.Number.Laws.{IsOrdered, not_lt_of_le}
use trade_ai_server.EffectiveRisk.Fields.{zip3, All-zip3}
use trade_ai_server.EffectiveRisk.{least, most, least_int, resolved, effective, checked, resolve}
use trade_ai_server.EffectiveRisk.Layer.{
  RiskConfigLayer, TradeProfile, is_valid, validated, profile_layer, profile_values, decimal_fields,
  limit_fields, other_fields, is_positive, is_amount, maximum_limits, minimum_safety,
}

valid_int :
    (a b c : ℤ)
    → is_positive a ≡ true
    → is_positive b ≡ true
    → is_positive c ≡ true
    → is_positive (least_int a b c) ≡ true
unfolding least_int
valid_int a b c h k l = ground arith

module _ {D : Type 0} ⦃n : Number D⦄ where
  open n use {lt, le, is_finite}

  abbrev pub IsAmount : D → Type 0
  IsAmount d = is_amount d ≡ true

  valid_least : (a b c : D) → IsAmount a → IsAmount b → IsAmount c → IsAmount (least a b c)
  unfolding least
  valid_least a b c h k l = ground arith

  valid_most : (a b c : D) → IsAmount a → IsAmount b → IsAmount c → IsAmount (most a b c)
  unfolding most
  valid_most a b c h k l = ground arith

  valid_envelope :
      (a b c : D) → IsAmount a → IsAmount b → IsAmount c → IsAmount (min_of a (max_of b c))
  valid_envelope a b c h k l = ground arith

  -- A layer that the validators accept.
  pub record IsAccepted (layer : RiskConfigLayer D) : Type 0 where
    pub maxima : All IsAmount (maximum_limits layer)
    minima : All IsAmount (minimum_safety layer)
    budget : IsAmount layer.total_bot_capital_budget_tl
    slippage : IsAmount layer.profile_stop_slippage_pct
    ints : All (λ i. is_positive i ≡ true) (limit_fields layer)

  pub is_valid-IsAccepted : (layer : RiskConfigLayer D) → is_valid layer ≡ true → IsAccepted layer
  unfolding is_valid decimal_fields other_fields
  is_valid-IsAccepted layer h =
      let (decimals, ints) =
        and_true (every is_amount (decimal_fields layer)) (every is_positive (limit_fields layer))
          h in
      let (both, (budget, (slippage, _))) =
        All-of_append IsAmount (maximum_limits layer ++ minimum_safety layer) (other_fields layer)
          (every-All is_amount (decimal_fields layer) decimals) in
      let (maxima, minima) =
        All-of_append IsAmount (maximum_limits layer) (minimum_safety layer) both in
      record {
        maxima = maxima;
        minima = minima;
        budget = budget;
        slippage = slippage;
        ints = every-All is_positive (limit_fields layer) ints;
      }

  IsAccepted-is_valid : (layer : RiskConfigLayer D) → IsAccepted layer → is_valid layer ≡ true
  unfolding is_valid decimal_fields other_fields
  IsAccepted-is_valid layer a =
      rw
        (All-every is_amount (decimal_fields layer) (
          All-append IsAmount (maximum_limits layer ++ minimum_safety layer) (other_fields layer)
            (All-append IsAmount (maximum_limits layer) (minimum_safety layer) a.maxima a.minima)
            (a.budget, (a.slippage, tt))))
        (All-every is_positive (limit_fields layer) a.ints)

  resolved-IsAccepted :
      (environment system layer : RiskConfigLayer D)
      → IsAccepted environment
      → IsAccepted system
      → IsAccepted layer
      → IsAccepted (resolved environment system layer)
  unfolding resolved maximum_limits minimum_safety limit_fields zip3
  resolved-IsAccepted environment system layer e s l = record {
    maxima =
        All-zip3 least (maximum_limits environment) (maximum_limits system) (maximum_limits layer)
          valid_least e.maxima s.maxima l.maxima;
    minima =
        All-zip3 most (minimum_safety environment) (minimum_safety system) (minimum_safety layer)
          valid_most e.minima s.minima l.minima;
    budget = s.budget;
    slippage =
        valid_envelope _ _ _ (valid_least _ _ _ e.maxima.0 s.maxima.0 l.maxima.0)
          (valid_most _ _ _ e.minima.0 s.minima.0 l.minima.0)
          (valid_most _ _ _ e.slippage s.slippage l.slippage);
    ints =
        All-zip3 least_int (limit_fields environment) (limit_fields system) (limit_fields layer)
          valid_int e.ints s.ints l.ints;
  }

module _ {D : Type 0} ⦃n : Number D⦄ (o : IsOrdered D) (fingerprint : RiskConfigLayer D → String)
    (environment system : RiskConfigLayer D) (version : String) (profile : TradeProfile D) where
  open n use {le}

  -- In the order of the numbers, for layers that the validators accept, a configuration is resolved
  -- unless the resolved stop distances or slippages exclude each other: the result of `resolve` is
  -- accepted by the validators too.
  pub resolve-ok :
      is_valid environment ≡ true
      → is_valid system ≡ true
      → is_valid (profile_values profile) ≡ true
      → let limits = resolved environment system (profile_values profile) in
        le limits.min_stop_distance_pct limits.max_stop_distance_pct ≡ true
        → le limits.minimum_stop_slippage_pct limits.maximum_stop_slippage_pct ≡ true
        → resolve fingerprint environment system version profile
          ≡ ok (effective fingerprint environment system version profile limits)
  unfolding resolve checked profile_layer validated
  resolve-ok e s l stops slips =
      let layer = profile_values profile in
      let accepted =
        resolved-IsAccepted environment system layer (is_valid-IsAccepted environment e)
          (is_valid-IsAccepted system s) (is_valid-IsAccepted layer l) in
      let valid = IsAccepted-is_valid (resolved environment system layer) accepted in
      rw l (rw (not_lt_of_le o _ _ stops) (rw (not_lt_of_le o _ _ slips) (rw valid refl)))
