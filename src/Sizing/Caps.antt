-- ===== src/Sizing/Caps.antt =====
-- What an accepted and a refused size satisfy, for any arithmetic.
use trade_ai_server.Prelude.{
  ◌≡◌, refl, true, false, none, List, [], ◌∷◌, String, arith, All, first_block,
}
use trade_ai_server.Prelude.Int.{ℤ, pos, ◌≤ℤ◌, min_ℤ}
use trade_ai_server.Number.{Number, nought}
use trade_ai_server.Sizing.{AccountSizingContext, TradeSizingContext, RiskLimits, smallest}
use trade_ai_server.Sizing.Calculate.{
  guards, measured, sized, accepted, candidates, final_qty, risk_budget, raw_stop_pct,
  effective_stop_distance, order_value, estimated_loss, calculate_buy_size,
}

-- The smallest candidate is below every other.
pub smallest-le :
    (q : ℤ) (cs : List (String × ℤ)) → (smallest q cs ≤ℤ q) × All (λ e. smallest q cs ≤ℤ e.1) cs
unfolding smallest
smallest-le q [] = (omega arith, tt)
smallest-le q ((name, c) ∷ cs) =
    let (first, rest) = smallest-le (min_ℤ q c) cs in
    (le_min_left q c _ first, (le_min_right q c _ first, rest))
  where
    le_min_left : (a b m : ℤ) → m ≤ℤ min_ℤ a b → m ≤ℤ a
    le_min_left a b m h = ground arith

    le_min_right : (a b m : ℤ) → m ≤ℤ min_ℤ a b → m ≤ℤ b
    le_min_right a b m h = ground arith

module _ {D : Type 0} ⦃n : Number D⦄ (account : AccountSizingContext D)
    (trade : TradeSizingContext D) (limits : RiskLimits D) where
  open n use {lt, le, mul, of_int}

  pub sized_allowed :
      (sized account trade limits).allowed ≡ true
      → (pos 1 ≤ℤ final_qty account trade limits)
        × (lt (order_value account trade limits) limits.min_order_value_tl ≡ false)
        × (lt (risk_budget account trade limits) (estimated_loss account trade limits) ≡ false)
        × (sized account trade limits ≡ accepted account trade limits)
  unfolding sized
  sized_allowed h = ground arith

  pub measured_allowed :
      (measured account trade limits).allowed ≡ true
      → (lt (raw_stop_pct account trade limits) limits.min_stop_distance_pct ≡ false)
        × (lt limits.max_stop_distance_pct (raw_stop_pct account trade limits) ≡ false)
        × (le (effective_stop_distance account trade limits) nought ≡ false)
        × (measured account trade limits ≡ sized account trade limits)
  unfolding measured
  measured_allowed h = ground arith

  pub calculated_allowed :
      (calculate_buy_size account trade limits).allowed ≡ true
      → (first_block (guards account trade limits) ≡ none)
        × (calculate_buy_size account trade limits ≡ measured account trade limits)
  unfolding calculate_buy_size
  calculated_allowed h = ground arith

  -- The result of an accepted call: a positive number of lots that no candidate undercuts, its
  -- value and its loss at the stop.
  pub allowed_result :
      (calculate_buy_size account trade limits).allowed ≡ true
      → let r = calculate_buy_size account trade limits in
        (pos 1 ≤ℤ r.qty)
        × All (λ c. r.qty ≤ℤ c.1) (candidates account trade limits)
        × (r.order_value_tl ≡ mul (of_int r.qty) trade.entry_price)
        × (r.estimated_loss_at_stop_tl
            ≡ mul (of_int r.qty) (effective_stop_distance account trade limits))
        × (lt r.order_value_tl limits.min_order_value_tl ≡ false)
        × (lt r.risk_budget_tl r.estimated_loss_at_stop_tl ≡ false)
  unfolding accepted order_value estimated_loss final_qty
  allowed_result h =
      let (_, e) = calculated_allowed h in
      let (_, _, _, e') = measured_allowed (rw e at h) in
      let (some_lots, worth, loss, e'') = sized_allowed (rw (e, e') at h) in
      rw (e, e', e'')
        (some_lots, (smallest-le _ (candidates account trade limits)).1, refl, refl, worth, loss)

  -- A refusal orders nothing.
  pub refused_result :
      (calculate_buy_size account trade limits).allowed ≡ false
      → let r = calculate_buy_size account trade limits in
        (r.qty ≡ pos 0) × (r.order_value_tl ≡ nought) × (r.estimated_loss_at_stop_tl ≡ nought)
  unfolding calculate_buy_size measured sized
  refused_result h = ground arith
