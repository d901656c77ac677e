-- ===== src/EffectiveRisk/Strictest.antt =====
-- What the resolved configuration is: the strictest layer that respects the three.
use trade_ai_server.Prelude.{
  ◌≡◌, Bool, true, false, ◌&&◌, ◌↔◌, arith, refl, String, inl, inr, Bool-cases, and_true,
}
use trade_ai_server.Prelude.Int.{ℤ, ◌≤ℤ◌}
use trade_ai_server.Prelude.Result.{Ensures, returns, raises, Ensures-map}
use trade_ai_server.Number.{Number, max_of, min_of}
use trade_ai_server.Number.Laws.{
  IsOrdered, le_of_not_lt, le-max_left, le-max_right, min-le_left, min-le_right,
}
use trade_ai_server.EffectiveRisk.Fields.{Each, Each-refl, zip3, Each-zip3}
use trade_ai_server.EffectiveRisk.{
  EffectiveRiskConfig, least, most, least_int, all_of, resolved, effective, checked, resolve,
}
use trade_ai_server.EffectiveRisk.Layer.{
  maximum_limits, minimum_safety, limit_fields, permissions, RiskConfigLayer, TradeProfile,
  is_valid, validated, profile_layer, profile_values,
}

module _ {D : Type 0} ⦃n : Number D⦄ where
  -- `a` allows no trade that `b` forbids: each maximum is at most b's, each minimum at least b's, and
  -- what is permitted is permitted by `b`.
  pub record IsNoLooser (a b : RiskConfigLayer D) : Type 0 where
    pub maxima : Each (λ (x y : D). n.le x y ≡ true) (maximum_limits a) (maximum_limits b)
    pub ints : Each (λ (x y : ℤ). x ≤ℤ y) (limit_fields a) (limit_fields b)
    pub minima : Each (λ (x y : D). n.le y x ≡ true) (minimum_safety a) (minimum_safety b)
    pub permitted : Each (λ (x y : Bool). x ≡ true → y ≡ true) (permissions a) (permissions b)

module _ {D : Type 0} ⦃n : Number D⦄ (o : IsOrdered D) where
  le-min_of : (d a b : D) → n.le d a ≡ true → n.le d b ≡ true → n.le d (min_of a b) ≡ true
  le-min_of d a b h k = ground arith

  le-least :
      (d a b c : D)
      → (n.le d (least a b c) ≡ true) ↔ ((n.le d a ≡ true) × (n.le d b ≡ true) × (n.le d c ≡ true))
  unfolding least
  le-least d a b c = (
    λ h.
        let below = o.le_trans d _ c h (min-le_right o (min_of a b) c) in
        let both = o.le_trans d _ _ h (min-le_left o (min_of a b) c) in
        (
          o.le_trans d _ a both (min-le_left o a b),
          o.le_trans d _ b both (min-le_right o a b),
          below,
        ),
    λ (h, k, l). ground arith,
  )

  most-le :
      (d a b c : D)
      → (n.le (most a b c) d ≡ true) ↔ ((n.le a d ≡ true) × (n.le b d ≡ true) × (n.le c d ≡ true))
  unfolding most
  most-le d a b c = (
    λ h.
        let above = o.le_trans c _ d (le-max_right o (max_of a b) c) h in
        let both = o.le_trans _ _ d (le-max_left o (max_of a b) c) h in
        (
          o.le_trans a _ d (le-max_left o a b) both,
          o.le_trans b _ d (le-max_right o a b) both,
          above,
        ),
    λ (h, k, l). ground arith,
  )

le-least_int : (d a b c : ℤ) → (d ≤ℤ least_int a b c) ↔ ((d ≤ℤ a) × (d ≤ℤ b) × (d ≤ℤ c))
unfolding least_int
le-least_int d a b c = (λ h. (ground arith, ground arith, ground arith), λ (h, k, l). ground arith)

le-all_of :
    (d a b c : Bool)
    → (d ≡ true → all_of a b c ≡ true)
      ↔ ((d ≡ true → a ≡ true) × (d ≡ true → b ≡ true) × (d ≡ true → c ≡ true))
unfolding all_of
le-all_of d a b c = (
  λ h. (
    λ e. (and_true a b (and_true (a && b) c (h e)).0).0,
    λ e. (and_true a b (and_true (a && b) c (h e)).0).1,
    λ e. (and_true (a && b) c (h e)).1,
  ),
  λ (h, k, l) e. rw (h e) (rw (k e) (l e)),
)

module _ {D : Type 0} ⦃n : Number D⦄ (o : IsOrdered D)
    (environment system layer c : RiskConfigLayer D) where
  resolved-maxima :
      Each
        (λ (x y : D). n.le x y ≡ true)
        (maximum_limits c)
        (maximum_limits (resolved environment system layer))
      ↔ (Each (λ (x y : D). n.le x y ≡ true) (maximum_limits c) (maximum_limits environment)
          × Each (λ (x y : D). n.le x y ≡ true) (maximum_limits c) (maximum_limits system)
          × Each (λ (x y : D). n.le x y ≡ true) (maximum_limits c) (maximum_limits layer))
  unfolding resolved maximum_limits zip3
  resolved-maxima =
      Each-zip3 least (maximum_limits c) (maximum_limits environment) (maximum_limits system)
        (maximum_limits layer) (le-least o) tt

  resolved-minima :
      Each
        (λ (x y : D). n.le y x ≡ true)
        (minimum_safety c)
        (minimum_safety (resolved environment system layer))
      ↔ (Each (λ (x y : D). n.le y x ≡ true) (minimum_safety c) (minimum_safety environment)
          × Each (λ (x y : D). n.le y x ≡ true) (minimum_safety c) (minimum_safety system)
          × Each (λ (x y : D). n.le y x ≡ true) (minimum_safety c) (minimum_safety layer))
  unfolding resolved minimum_safety zip3
  resolved-minima =
      Each-zip3 most (minimum_safety c) (minimum_safety environment) (minimum_safety system)
        (minimum_safety layer) (most-le o) tt

  resolved-ints :
      Each (λ (x y : ℤ). x ≤ℤ y) (limit_fields c) (limit_fields (resolved environment system layer))
      ↔ (Each (λ (x y : ℤ). x ≤ℤ y) (limit_fields c) (limit_fields environment)
          × Each (λ (x y : ℤ). x ≤ℤ y) (limit_fields c) (limit_fields system)
          × Each (λ (x y : ℤ). x ≤ℤ y) (limit_fields c) (limit_fields layer))
  unfolding resolved limit_fields zip3
  resolved-ints =
      Each-zip3 least_int (limit_fields c) (limit_fields environment) (limit_fields system)
        (limit_fields layer) le-least_int tt

  resolved-permissions :
      Each
        (λ (x y : Bool). x ≡ true → y ≡ true)
        (permissions c)
        (permissions (resolved environment system layer))
      ↔ (Each (λ (x y : Bool). x ≡ true → y ≡ true) (permissions c) (permissions environment)
          × Each (λ (x y : Bool). x ≡ true → y ≡ true) (permissions c) (permissions system)
          × Each (λ (x y : Bool). x ≡ true → y ≡ true) (permissions c) (permissions layer))
  unfolding resolved permissions zip3
  resolved-permissions =
      Each-zip3 all_of (permissions c) (permissions environment) (permissions system)
        (permissions layer) le-all_of tt

  -- A layer is no looser than the resolved values exactly if it is no looser than each of the three.
  resolved-strictest :
      IsNoLooser c (resolved environment system layer)
      ↔ (IsNoLooser c environment × IsNoLooser c system × IsNoLooser c layer)
  resolved-strictest = (
    λ h.
        let maxima = resolved-maxima.0 h.maxima in
        let ints = resolved-ints.0 h.ints in
        let minima = resolved-minima.0 h.minima in
        let permitted = resolved-permissions.0 h.permitted in
        (
          record { maxima = maxima.0; ints = ints.0; minima = minima.0; permitted = permitted.0 },
          record { maxima = maxima.1; ints = ints.1; minima = minima.1; permitted = permitted.1 },
          record { maxima = maxima.2; ints = ints.2; minima = minima.2; permitted = permitted.2 },
        ),
    λ (e, s, l). record {
      maxima = resolved-maxima.1 (e.maxima, s.maxima, l.maxima);
      ints = resolved-ints.1 (e.ints, s.ints, l.ints);
      minima = resolved-minima.1 (e.minima, s.minima, l.minima);
      permitted = resolved-permissions.1 (e.permitted, s.permitted, l.permitted);
    },
  )

module _ {D : Type 0} ⦃n : Number D⦄ (o : IsOrdered D) (fingerprint : RiskConfigLayer D → String)
    (environment system : RiskConfigLayer D) (version : String) (profile : TradeProfile D) where
  open n use {le, lt}

  resolved-slippage :
      (layer : RiskConfigLayer D)
      → let limits = resolved environment system layer in
        lt limits.maximum_stop_slippage_pct limits.minimum_stop_slippage_pct ≡ false
        → (le limits.minimum_stop_slippage_pct limits.profile_stop_slippage_pct ≡ true)
          × (le limits.profile_stop_slippage_pct limits.maximum_stop_slippage_pct ≡ true)
  unfolding resolved
  resolved-slippage layer h =
      (le-min_of o _ _ _ (le_of_not_lt o _ _ h) (le-max_left o _ _), min-le_left o _ _)

  checked-limits :
      (values : RiskConfigLayer D)
      → Ensures
          (λ (e : EffectiveRiskConfig D).
            (e.limits ≡ values)
            × (lt e.limits.max_stop_distance_pct e.limits.min_stop_distance_pct ≡ false)
            × (lt e.limits.maximum_stop_slippage_pct e.limits.minimum_stop_slippage_pct ≡ false)
            × (is_valid e.limits ≡ true))
          (checked fingerprint environment system version profile values)
  unfolding checked validated effective
  checked-limits values =
      elim (Bool-cases (lt values.max_stop_distance_pct values.min_stop_distance_pct)) [
        | inl e ↦ rw e raises
        | inr e ↦
            elim (Bool-cases
              (lt values.maximum_stop_slippage_pct values.minimum_stop_slippage_pct)) [
                | inl f ↦ rw e (rw f raises)
                | inr f ↦ elim (Bool-cases (is_valid values)) [
                  | inl g ↦ rw e (rw f (rw g (returns (refl, e, f, g))))
                  | inr g ↦ rw e (rw f (rw g raises))
                ]
              ]
      ]

  pub resolve-limits :
      Ensures
        (λ (e : EffectiveRiskConfig D).
          (e.limits ≡ resolved environment system (profile_values profile))
          × (lt e.limits.max_stop_distance_pct e.limits.min_stop_distance_pct ≡ false)
          × (lt e.limits.maximum_stop_slippage_pct e.limits.minimum_stop_slippage_pct ≡ false)
          × (is_valid e.limits ≡ true))
        (resolve fingerprint environment system version profile)
  unfolding resolve profile_layer validated
  resolve-limits = elim (Bool-cases (is_valid (profile_values profile))) [
    | inl e ↦ rw e (checked-limits (resolved environment system (profile_values profile)))
    | inr e ↦ rw e raises
  ]

  -- In the order of the numbers, a configuration that is resolved is the strictest that the three
  -- layers allow: a layer is no looser than it exactly if it is no looser than the environment's, the
  -- system's and the profile's. The bot's budget and the slippage that a profile asks for are not
  -- compared.
  pub resolve-strictest :
      (c : RiskConfigLayer D)
      → Ensures
          (λ (e : EffectiveRiskConfig D). IsNoLooser c e.limits ↔ (
            IsNoLooser c environment × IsNoLooser c system × IsNoLooser c (profile_values profile)))
          (resolve fingerprint environment system version profile)
  resolve-strictest c =
      Ensures-map
        (λ e (same, _, _, _).
          rw same (resolved-strictest o environment system (profile_values profile) c))
        resolve-limits

  -- In the order of the numbers, a configuration that is resolved has the budget of the system, stop
  -- distances that do not exclude each other, and a slippage between its minimum and its maximum,
  -- whatever the profile asks for.
  pub resolve-ranges :
      Ensures
        (λ (e : EffectiveRiskConfig D).
          (e.limits.total_bot_capital_budget_tl ≡ system.total_bot_capital_budget_tl)
          × (le e.limits.min_stop_distance_pct e.limits.max_stop_distance_pct ≡ true)
          × (le e.limits.minimum_stop_slippage_pct e.limits.profile_stop_slippage_pct ≡ true)
          × (le e.limits.profile_stop_slippage_pct e.limits.maximum_stop_slippage_pct ≡ true))
        (resolve fingerprint environment system version profile)
  resolve-ranges =
      let limits = resolved environment system (profile_values profile) in
      Ensures-map
        (λ e (same, stops, slips, _).
          let slippage = resolved-slippage (profile_values profile) (rw same at slips) in
          rw same (
            unfold resolved in refl,
            le_of_not_lt o _ _ (rw same at stops),
            slippage.0,
            slippage.1,
          ))
        resolve-limits

  IsNoLooser-refl : (c : RiskConfigLayer D) → IsNoLooser c c
  unfolding maximum_limits minimum_safety limit_fields permissions
  IsNoLooser-refl c = record {
    maxima = Each-refl (λ (x y : D). le x y ≡ true) o.le_refl (maximum_limits c);
    ints = Each-refl (λ (x y : ℤ). x ≤ℤ y) (λ x. omega arith) (limit_fields c);
    minima = Each-refl (λ (x y : D). le y x ≡ true) o.le_refl (minimum_safety c);
    permitted = Each-refl (λ (x y : Bool). x ≡ true → y ≡ true) (λ x h. h) (permissions c);
  }

  -- ... so it is no looser than each of the three.
  pub resolve-IsNoLooser :
      Ensures
        (λ (e : EffectiveRiskConfig D).
          IsNoLooser e.limits environment
          × IsNoLooser e.limits system
          × IsNoLooser e.limits (profile_values profile))
        (resolve fingerprint environment system version profile)
  resolve-IsNoLooser =
      Ensures-map
        (λ e (same, _, _, _).
          (resolved-strictest o environment system (profile_values profile) e.limits).0
            (rw⁻¹ same (IsNoLooser-refl e.limits)))
        resolve-limits
