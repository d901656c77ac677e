-- ===== src/Sizing/Budgets.antt =====
-- No accepted order exceeds a budget, where the arithmetic is exact.
use trade_ai_server.Prelude.{
  first_block-Passed, ◌≡◌, true, false, arith, inl, inr, Passed, Passed-test_at, on_some,
  Option-cases, Bool-cases,
}
use trade_ai_server.Prelude.Int.{ℤ, pos, ◌≤ℤ◌}
use trade_ai_server.Number.{Number, nought, hundred, max_of, min_of}
use trade_ai_server.Number.Laws.{
  IsOrdered, IsExact, not_lt_of_le, lt-le_trans, le-max_left, min-le_left,
}
use trade_ai_server.Sizing.{AccountSizingContext, TradeSizingContext, RiskLimits}
use trade_ai_server.Sizing.Calculate.{
  guards, known, capital_base, cash_budget, committed_symbol_value, remaining_symbol_capacity,
  committed_bot_capital, remaining_bot_budget, candidates, lots, calculate_buy_size,
}
use trade_ai_server.Sizing.Caps.{calculated_allowed, allowed_result}

module _ {D : Type 0} ⦃n : Number D⦄ (o : IsOrdered D) (x : IsExact D)
    (account : AccountSizingContext D) (trade : TradeSizingContext D) (limits : RiskLimits D) where
  open n use {lt, le, mul, add, sub, div, of_int, whole}

  lt_of_not_le : (a b : D) → le a b ≡ false → lt b a ≡ true
  lt_of_not_le a b h = ground (arith, o.lt-not-le b a)

  -- The guards leave a positive entry price, and cash that is positive.
  entry_pos : Passed (guards account trade limits) → lt nought trade.entry_price ≡ true
  unfolding guards
  entry_pos p =
      let least = min_of (min_of trade.entry_price trade.stop_loss) trade.target_price in
      lt-le_trans o nought least trade.entry_price
        (lt_of_not_le least nought (Passed-test_at 21 (guards account trade limits) p))
        (o.le_trans _ _ _
          (min-le_left o (min_of trade.entry_price trade.stop_loss) trade.target_price)
          (min-le_left o trade.entry_price trade.stop_loss))

  cash_nonneg :
      Passed (guards account trade limits)
      → le nought (known account.effective_available_cash_tl) ≡ true
  unfolding guards known
  cash_nonneg p = elim (Option-cases account.effective_available_cash_tl) [
    | inl missing ↦ rw missing (o.le_refl nought)
    | inr (c, e) ↦
        let positive : on_some (λ c. le c nought) account.effective_available_cash_tl ≡ false =
          Passed-test_at 7 (guards account trade limits) p in
        rw e (o.le_of_lt nought c (lt_of_not_le c nought (rw e at positive)))
  ]

  -- A quantity below a budget's number of lots costs at most the budget.
  value-le_budget :
      (q : ℤ) (budget : D)
      → lt nought trade.entry_price ≡ true
      → pos 1 ≤ℤ q
      → q ≤ℤ lots budget trade.entry_price
      → le nought budget ≡ true
      → le (mul (of_int q) trade.entry_price) budget ≡ true
  unfolding lots
  value-le_budget q budget entry some_lots cap nonneg =
      o.le_trans _ _ _
        (x.lots_mono q (whole (div budget trade.entry_price)) trade.entry_price (omega arith) cap
          entry)
        (x.floor_mul-le budget trade.entry_price nonneg entry)

  -- What fits into the rest of a limit keeps the limit together with what is committed.
  room :
      (b c v : D)
      → lt nought v ≡ true
      → le v (max_of nought (sub b c)) ≡ true
      → le (add c v) b ≡ true
  room b c v positive fits = elim (Bool-cases (lt nought (sub b c))) [
    | inl e ↦ x.add-le_of_le_sub v b c (rw e at fits)
    | inr e ↦
        let none_left : le v nought ≡ true = rw e at fits in
        absurd (cc (not_lt_of_le o nought v none_left))
  ]

  cash_budget_nonneg :
      Passed (guards account trade limits)
      → le nought limits.max_cash_utilization_pct ≡ true
      → le nought (cash_budget account trade limits) ≡ true
  unfolding cash_budget
  cash_budget_nonneg p util =
      x.div_nonneg _ hundred
        (x.mul_nonneg (known account.effective_available_cash_tl) _ (cash_nonneg p) util)
        x.hundred_pos

  -- With exact arithmetic and limits that are not negative, an accepted order stays within the cash
  -- budget, the limit per symbol, the capital base of the bot and the limit per order; what the
  -- account has committed already counts.
  pub budgets_kept :
      le nought limits.max_cash_utilization_pct ≡ true
      → le nought limits.max_order_value_tl ≡ true
      → (calculate_buy_size account trade limits).allowed ≡ true
      → let spent = (calculate_buy_size account trade limits).order_value_tl in
        (le spent (cash_budget account trade limits) ≡ true)
        × (le
              (add (committed_symbol_value account trade limits) spent)
              limits.max_position_value_per_symbol
            ≡ true)
        × (le
              (add (committed_bot_capital account trade limits) spent)
              (capital_base account trade limits)
            ≡ true)
        × (le spent limits.max_order_value_tl ≡ true)
  unfolding candidates remaining_symbol_capacity remaining_bot_budget
  budgets_kept util order_limit h =
      let p =
        first_block-Passed (guards account trade limits)
          (calculated_allowed account trade limits h).0 in
      let entry = entry_pos p in
      let (some_lots, caps, value, _, _, _) = allowed_result account trade limits h in
      let q = (calculate_buy_size account trade limits).qty in
      let positive = x.lots_pos q trade.entry_price some_lots entry in
      let zero_max = λ (r : D). le-max_left o nought r in
      rw value (
        value-le_budget q _ entry some_lots caps.1.0 (cash_budget_nonneg p util),
        room _ _ _ positive (value-le_budget q _ entry some_lots caps.1.1.0 (zero_max _)),
        room _ _ _ positive (value-le_budget q _ entry some_lots caps.1.1.1.0 (zero_max _)),
        value-le_budget q _ entry some_lots caps.1.1.1.1.1.0 order_limit,
      )
