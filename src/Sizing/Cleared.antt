-- ===== src/Sizing/Cleared.antt =====
-- When `calculate_buy_size` accepts a size, for any arithmetic.
use trade_ai_server.Prelude.{
  or_else, ◌≡◌, ◌↔◌, ◌∙◌, ap, refl, Bool, true, false, not, ◌&&◌, Option, none, some, List, [], ◌∷◌,
  String, arith, All, All-map, is_none, on_some, Passed, first_block-Passed, Passed-first_block,
}
use trade_ai_server.Prelude.Int.{ℤ, pos, ◌≤ℤ◌, min_ℤ}
use trade_ai_server.Number.{Number, nought, hundred, max_of, min_of}
use trade_ai_server.Sizing.{AccountSizingContext, TradeSizingContext, RiskLimits, smallest}
use trade_ai_server.Sizing.Calculate.{
  guards, measured, sized, accepted, candidates, lots, final_qty, capital_base, known, cash_budget,
  committed_symbol_value, remaining_symbol_capacity, committed_bot_capital, remaining_bot_budget,
  target_position_value, remaining_ai_target, risk_budget, raw_stop_distance, raw_stop_pct,
  slippage_pct, slippage_buffer, effective_stop_distance, order_value, estimated_loss,
  calculate_buy_size,
}
use trade_ai_server.Sizing.Caps.{smallest-le, sized_allowed, measured_allowed, calculated_allowed}

module _ {D : Type 0} ⦃n : Number D⦄ where
  -- An amount that is known and passes a test.
  abbrev pub Given : Option D → (D → Bool) → Type 0
  Given o fails = (x : D) × (o ≡ some x) × (fails x ≡ false)

  given :
      (o : Option D) (fails : D → Bool)
      → is_none o ≡ false
      → on_some fails o ≡ false
      → Given o fails
  given none fails h k = absurd (cc)
  given (some x) fails h k = (x, refl, k)

  not_none : (o : Option D) (fails : D → Bool) → Given o fails → is_none o ≡ false
  not_none o fails (x, e, h) = rw e refl

  passes : (o : Option D) (fails : D → Bool) → Given o fails → on_some fails o ≡ false
  passes o fails (x, e, h) = rw e h

not-path : (b : Bool) → not b ≡ false → b ≡ true
not-path true h = refl
not-path false h = absurd (cc)

lots-min :
    (q : ℤ) (cs : List (String × ℤ))
    → pos 1 ≤ℤ q
    → All (λ c. pos 1 ≤ℤ c.1) cs
    → pos 1 ≤ℤ smallest q cs
unfolding smallest
lots-min q [] h all = h
lots-min q ((name, c) ∷ cs) h all = lots-min (min_ℤ q c) cs (least q c h all.0) all.1
  where
    least : (a b : ℤ) → pos 1 ≤ℤ a → pos 1 ≤ℤ b → pos 1 ≤ℤ min_ℤ a b
    least a b h k = ground arith

le_trans_ℤ : (a b c : ℤ) → a ≤ℤ b → b ≤ℤ c → a ≤ℤ c
le_trans_ℤ a b c h k = omega (arith, h, k)

module _ {D : Type 0} ⦃n : Number D⦄ (account : AccountSizingContext D)
    (trade : TradeSizingContext D) (limits : RiskLimits D) where
  open n use {add, sub, mul, div, lt, le, of_int}

  -- the equity, or the budget of all positions if that is less
  abbrev pub own_capital : D
  own_capital = min_of (or_else account.account_equity_tl nought) limits.total_bot_capital_budget_tl

  abbrev pub risk_amount : D
  risk_amount = div (mul own_capital limits.risk_per_trade_pct) hundred

  -- from the entry to the stop, with the slippage within its limits
  abbrev pub stop_amount : D
  stop_amount = add (sub trade.entry_price trade.stop_loss) (
      div
        (mul trade.entry_price (
          min_of limits.maximum_stop_slippage_pct
            (max_of limits.minimum_stop_slippage_pct limits.profile_stop_slippage_pct)))
        hundred)

  -- The lots that the risk, the cash, the symbol, the bot, the answer's target, the value of an order
  -- and the number of lots in it allow.
  abbrev pub allowances : List (String × ℤ)
  allowances =
      ("risk_budget", lots risk_amount stop_amount)
      ∷ (
        "cash_budget",
        lots
            (div
              (mul (or_else account.effective_available_cash_tl nought)
                limits.max_cash_utilization_pct)
              hundred)
            trade.entry_price,
      )
      ∷ (
        "symbol_position",
        lots
            (max_of nought (
              sub limits.max_position_value_per_symbol (
                add (or_else account.current_symbol_value_tl nought)
                  account.current_symbol_reserved_cash_tl)))
            trade.entry_price,
      )
      ∷ (
        "bot_budget",
        lots
            (max_of nought (
              sub own_capital
                (add (or_else account.total_bot_exposure_tl nought) account.reserved_cash_tl)))
            trade.entry_price,
      )
      ∷ (
        "ai_target",
        lots
            (max_of nought (
              sub
                (sub (div (mul own_capital (or_else trade.target_allocation_pct nought)) hundred)
                  (or_else account.current_bot_symbol_value_tl nought))
                account.current_symbol_reserved_cash_tl))
            trade.entry_price,
      )
      ∷ ("order_value", lots limits.max_order_value_tl trade.entry_price)
      ∷ ("profile_max_qty", limits.max_qty_per_order)
      ∷ []

  abbrev pub fewest : ℤ
  fewest = smallest (lots risk_amount stop_amount) allowances

  -- What an accepted size needs of the account, the trade and the limits.
  pub record IsCleared : Type 0 where
    pub enabled : limits.sizing_enabled ≡ true
    pub reliable : account.account_data_reliable ≡ true
    pub fresh : Given account.account_data_age_seconds (lt limits.max_account_data_age_seconds)
    pub equity : Given account.account_equity_tl (λ e. le e nought)
    pub cash : Given account.effective_available_cash_tl (λ c. le c nought)
    pub reserved : lt account.reserved_cash_tl nought ≡ false
    pub symbol_reserved : lt account.current_symbol_reserved_cash_tl nought ≡ false
    pub symbol_value : Given account.current_symbol_value_tl (λ v. lt v nought)
    pub account_exposure : Given account.total_account_exposure_tl (λ v. lt v nought)
    pub budget : le limits.total_bot_capital_budget_tl nought ≡ false
    pub bot_exposure : Given account.total_bot_exposure_tl (λ v. lt v nought)
    pub bot_symbol_value : Given account.current_bot_symbol_value_tl (λ v. lt v nought)
    pub allocation : Given trade.target_allocation_pct (λ a. not (lt nought a && le a hundred))
    pub prices :
        le (min_of (min_of trade.entry_price trade.stop_loss) trade.target_price) nought ≡ false
    pub current_price : le trade.current_price nought ≡ false
    pub stop_below : le trade.entry_price trade.stop_loss ≡ false
    pub target_above : le trade.target_price trade.entry_price ≡ false
    pub confident : lt trade.confidence limits.minimum_buy_confidence ≡ false
    pub stop_wide :
        lt
          (div (mul (sub trade.entry_price trade.stop_loss) hundred) trade.entry_price)
          limits.min_stop_distance_pct
        ≡ false
    pub stop_narrow :
        lt limits.max_stop_distance_pct
          (div (mul (sub trade.entry_price trade.stop_loss) hundred) trade.entry_price)
        ≡ false
    pub stop_positive : le stop_amount nought ≡ false
    pub some_lots : All (λ c. pos 1 ≤ℤ c.1) allowances
    pub worth_it : lt (mul (of_int fewest) trade.entry_price) limits.min_order_value_tl ≡ false
    pub loss_within : lt risk_amount (mul (of_int fewest) stop_amount) ≡ false

  guards-IsCleared : IsCleared → Passed (guards account trade limits)
  unfolding guards
  guards-IsCleared c = (
    ap not c.enabled,
    (
      ap not c.reliable,
      (
        not_none _ _ c.fresh,
        (
          passes _ _ c.fresh,
          (
            not_none _ _ c.equity,
            (
              passes _ _ c.equity,
              (
                not_none _ _ c.cash,
                (
                  passes _ _ c.cash,
                  (
                    c.reserved,
                    (
                      c.symbol_reserved,
                      (
                        not_none _ _ c.symbol_value,
                        (
                          passes _ _ c.symbol_value,
                          (
                            not_none _ _ c.account_exposure,
                            (
                              passes _ _ c.account_exposure,
                              (
                                c.budget,
                                (
                                  not_none _ _ c.bot_exposure,
                                  (
                                    passes _ _ c.bot_exposure,
                                    (
                                      not_none _ _ c.bot_symbol_value,
                                      (
                                        passes _ _ c.bot_symbol_value,
                                        (
                                          not_none _ _ c.allocation,
                                          (
                                            passes _ _ c.allocation,
                                            (
                                              c.prices,
                                              (
                                                c.current_price,
                                                (c.stop_below, (c.target_above, (c.confident, tt))),
                                              ),
                                            ),
                                          ),
                                        ),
                                      ),
                                    ),
                                  ),
                                ),
                              ),
                            ),
                          ),
                        ),
                      ),
                    ),
                  ),
                ),
              ),
            ),
          ),
        ),
      ),
    ),
  )

  measured_cleared : IsCleared → (measured account trade limits).allowed ≡ true
  unfolding measured sized accepted raw_stop_pct raw_stop_distance effective_stop_distance
      slippage_buffer slippage_pct order_value estimated_loss final_qty candidates risk_budget
      capital_base known cash_budget committed_symbol_value remaining_symbol_capacity
      committed_bot_capital remaining_bot_budget target_position_value remaining_ai_target
  measured_cleared c =
      let lots_left : pos 1 ≤ℤ final_qty account trade limits =
        lots-min _ allowances c.some_lots.0 c.some_lots in
      ground
        (arith, c.stop_wide, c.stop_narrow, c.stop_positive, c.worth_it, c.loss_within, lots_left)

  calculated_cleared :
      IsCleared → calculate_buy_size account trade limits ≡ measured account trade limits
  unfolding calculate_buy_size
  calculated_cleared c =
      rw (Passed-first_block (guards account trade limits) (guards-IsCleared c), calculate_buy_size)

  -- A size is accepted exactly when sizing is enabled, the account's data are reliable and fresh, its
  -- amounts known and of the right sign, the target allocation in (0, 100], the prices positive with the
  -- stop below the entry and the target above it, the confidence high enough, the stop's distance
  -- within its limits and positive with its slippage, each limit leaves at least one lot, and the value
  -- and the loss of the least of them are within theirs.
  pub allowed-IsCleared : ((calculate_buy_size account trade limits).allowed ≡ true) ↔ IsCleared
  unfolding guards raw_stop_pct raw_stop_distance effective_stop_distance slippage_buffer
      slippage_pct order_value estimated_loss final_qty candidates risk_budget capital_base known
      cash_budget committed_symbol_value remaining_symbol_capacity committed_bot_capital
      remaining_bot_budget target_position_value remaining_ai_target
  allowed-IsCleared = (cleared, uncleared)
    where
      cleared : (calculate_buy_size account trade limits).allowed ≡ true → IsCleared
      cleared h =
          let (no_guard, e) = calculated_allowed account trade limits h in
          let (wide, narrow, positive, e') = measured_allowed account trade limits (rw e at h) in
          let (lots_left, worth, loss, _) = sized_allowed account trade limits (rw (e, e') at h) in
          let p = first_block-Passed (guards account trade limits) no_guard in
          record {
            enabled = not-path _ p.0;
            reliable = not-path _ p.1.0;
            fresh = given _ _ p.1.1.0 p.1.1.1.0;
            equity = given _ _ p.1.1.1.1.0 p.1.1.1.1.1.0;
            cash = given _ _ p.1.1.1.1.1.1.0 p.1.1.1.1.1.1.1.0;
            reserved = p.1.1.1.1.1.1.1.1.0;
            symbol_reserved = p.1.1.1.1.1.1.1.1.1.0;
            symbol_value = given _ _ p.1.1.1.1.1.1.1.1.1.1.0 p.1.1.1.1.1.1.1.1.1.1.1.0;
            account_exposure =
                given _ _ (p.1.1.1.1.1.1.1.1.1.1.1.1.0) (p.1.1.1.1.1.1.1.1.1.1.1.1.1.0);
            budget = p.1.1.1.1.1.1.1.1.1.1.1.1.1.1.0;
            bot_exposure =
                given _ _ (p.1.1.1.1.1.1.1.1.1.1.1.1.1.1.1.0) (p.1.1.1.1.1.1.1.1.1.1.1.1.1.1.1.1.0);
            bot_symbol_value =
                given _ _ (p.1.1.1.1.1.1.1.1.1.1.1.1.1.1.1.1.1.0)
                  (p.1.1.1.1.1.1.1.1.1.1.1.1.1.1.1.1.1.1.0);
            allocation =
                given _ _ (p.1.1.1.1.1.1.1.1.1.1.1.1.1.1.1.1.1.1.1.0)
                  (p.1.1.1.1.1.1.1.1.1.1.1.1.1.1.1.1.1.1.1.1.0);
            prices = p.1.1.1.1.1.1.1.1.1.1.1.1.1.1.1.1.1.1.1.1.1.0;
            current_price = p.1.1.1.1.1.1.1.1.1.1.1.1.1.1.1.1.1.1.1.1.1.1.0;
            stop_below = p.1.1.1.1.1.1.1.1.1.1.1.1.1.1.1.1.1.1.1.1.1.1.1.0;
            target_above = p.1.1.1.1.1.1.1.1.1.1.1.1.1.1.1.1.1.1.1.1.1.1.1.1.0;
            confident = p.1.1.1.1.1.1.1.1.1.1.1.1.1.1.1.1.1.1.1.1.1.1.1.1.1.0;
            stop_wide = wide;
            stop_narrow = narrow;
            stop_positive = positive;
            some_lots =
                All-map _ _ allowances (λ c k. le_trans_ℤ (pos 1) fewest c.1 lots_left k)
                  (smallest-le _ allowances).1;
            worth_it = worth;
            loss_within = loss;
          }

      uncleared : IsCleared → (calculate_buy_size account trade limits).allowed ≡ true
      uncleared c = ap (λ r. r.allowed) (calculated_cleared c) ∙ measured_cleared c
