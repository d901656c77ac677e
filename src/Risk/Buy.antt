-- ===== src/Risk/Buy.antt =====
-- What a BUY that `RiskEngine.evaluate` allows has shown.
use trade_ai_server.Prelude.{
  ◌≡◌, ◌∙◌, refl, sym, Bool, true, false, not, ◌&&◌, Option, none, some, String, arith, first_block,
  Passed, first_block-Passed, ltb, if◌then◌else◌, ap,
}
use trade_ai_server.Number.{Number}
use trade_ai_server.EffectiveRisk.{EffectiveRiskConfig}
use trade_ai_server.Sizing.{AccountSizingContext, TradeSizingContext}
use trade_ai_server.Sizing.Calculate.{calculate_buy_size}
use trade_ai_server.Risk.{
  SignalAction, buy, EntryRange, SignalResponse, Evaluation, can_trade_now, is_symbol_allowed,
}
use trade_ai_server.Risk.Technical.{technical_block_reason}
use trade_ai_server.Risk.Answer.{block, price_checks, sizing_trade, sizing_limits}
use trade_ai_server.Risk.Gates.{
  Call, allow_order, confidence_ok, research_checks, trade_checks, threshold, is_regime,
  is_demo_override,
}
use trade_ai_server.Risk.Evaluate.{
  checked_buy, passed, sized_buy, viable_buy, priced_buy, decided, evaluate, order_price,
}
use trade_ai_server.Risk.Allowed.{IsAllowed, evaluate-IsPassed, passed-allowed}

module _ {D : Type 0} ⦃n : Number D⦄ (call : Call D) where
  open call use {config, request, decision, now}

  unless_blocked :
      (test : Bool) (response : SignalResponse D) (reason : String)
      → (if test then response else block request reason).allow_order ≡ true
      → (test ≡ true) × ((if test then response else block request reason) ≡ response)
  unfolding block
  unless_blocked true response reason h = (refl, refl)
  unless_blocked false response reason h = absurd (cc)

  -- The trade was sized, and the response is for the size.
  record IsSized (effective : EffectiveRiskConfig D) (trade : TradeSizingContext D)
      (e : Evaluation D) : Type 0 where
    account : AccountSizingContext D
    has_account : request.account_sizing_context ≡ some account
    sized : (calculate_buy_size account trade (sizing_limits effective)).allowed ≡ true
    response :
        e.response ≡ passed call (calculate_buy_size account trade (sizing_limits effective)).qty

  viable-IsSized :
      (effective : EffectiveRiskConfig D) (account : Option (AccountSizingContext D))
      (trade : TradeSizingContext D)
      → request.account_sizing_context ≡ account
      → IsAllowed call (viable_buy call (some effective) account trade)
      → IsSized effective trade (viable_buy call (some effective) account trade)
  unfolding viable_buy sized_buy
  viable-IsSized effective none trade has h = absurd (cc)
  viable-IsSized effective (some account) trade has h =
      let result = calculate_buy_size account trade (sizing_limits effective) in
      let (sized, same) = unless_blocked result.allowed (passed call result.qty) result.reason h in
      record { account = account; has_account = has; sized = sized; response = same }

  unless_passed :
      (test : Bool) (viable other : Evaluation D)
      → (IsAllowed call other → test ≡ true)
      → IsAllowed call (if test then viable else other)
      → (if test then viable else other) ≡ viable
  unless_passed true viable other allowed h = refl
  unless_passed false viable other allowed h = absurd (cc (allowed h))

  checked-allowed :
      (reason : Option String) (trade : TradeSizingContext D)
      → IsAllowed call (checked_buy call reason trade)
      → (reason ≡ none)
        × (checked_buy call reason trade
            ≡ viable_buy call call.effective_config request.account_sizing_context trade)
  unfolding checked_buy
  checked-allowed (some reason) trade h = absurd (cc)
  checked-allowed none trade h =
      (refl, unless_passed (allow_order call) _ _ (λ p. (passed-allowed call decision.qty p).0) h)

  -- A BUY whose prices are there and in order, and whose trade was sized.
  record IsPriced (effective : EffectiveRiskConfig D) (e : Evaluation D) : Type 0 where
    entry : EntryRange D
    stop : D
    target : D
    has_entry : decision.entry_range ≡ some entry
    has_stop : decision.stop_loss ≡ some stop
    has_target : decision.target_price ≡ some target
    ordered : Passed (price_checks entry stop target)
    sized : IsSized effective (sizing_trade request decision entry stop target) e

  buy-IsPriced :
      (effective : EffectiveRiskConfig D) (entry : Option (EntryRange D)) (stop target : Option D)
      → call.effective_config ≡ some effective
      → decision.entry_range ≡ entry
      → decision.stop_loss ≡ stop
      → decision.target_price ≡ target
      → IsAllowed call (priced_buy call entry stop target)
      → IsPriced effective (priced_buy call entry stop target)
  unfolding priced_buy
  buy-IsPriced effective (some entry) (some stop) (some target) config is_entry is_stop is_target
        h =
      let trade = sizing_trade request decision entry stop target in
      let checks = price_checks entry stop target in
      let (clear, same) = checked-allowed (first_block checks) trade h in
      let same_viable : checked_buy call (first_block checks) trade
          ≡ viable_buy call (some effective) request.account_sizing_context trade =
        same ∙ ap (λ e. viable_buy call e request.account_sizing_context trade) config in
      record {
        entry = entry;
        stop = stop;
        target = target;
        has_entry = is_entry;
        has_stop = is_stop;
        has_target = is_target;
        ordered = first_block-Passed checks clear;
        sized = rw same_viable (
            viable-IsSized effective request.account_sizing_context trade refl
              (rw same_viable at h));
      }
  buy-IsPriced effective (some entry) (some stop) none config is_entry is_stop is_target h =
      absurd (cc)
  buy-IsPriced effective (some entry) none target config is_entry is_stop is_target h = absurd (cc)
  buy-IsPriced effective none stop target config is_entry is_stop is_target h = absurd (cc)

  -- What a BUY that may be sent has shown, under an effective configuration.
  pub record IsSafeBuy (effective : EffectiveRiskConfig D) : Type 0 where
    pub entry : EntryRange D
    pub stop : D
    pub target : D
    pub account : AccountSizingContext D
    pub has_entry : decision.entry_range ≡ some entry
    pub has_stop : decision.stop_loss ≡ some stop
    pub has_target : decision.target_price ≡ some target
    pub has_account : request.account_sizing_context ≡ some account
    pub sized :
        (calculate_buy_size account
          (sizing_trade request decision entry stop target)
          (sizing_limits effective)).allowed
        ≡ true
    pub qty :
        (evaluate call).response.qty
        ≡ (calculate_buy_size account
            (sizing_trade request decision entry stop target)
            (sizing_limits effective)).qty
    pub price : (evaluate call).response.price ≡ some entry.max
    pub prices_ordered : Passed (price_checks entry stop target)
    pub symbol_allowed : is_symbol_allowed config request.symbol ≡ true
    pub eligible : request.trade_eligible ≡ true
    pub no_downtrend : (is_regime call "DOWNTREND" && not (is_demo_override call)) ≡ false
    pub in_window : can_trade_now config now ≡ true
    pub below_daily_count : ltb request.daily_trade_count config.max_daily_trade_count ≡ true
    pub confident : n.le (threshold call) decision.confidence ≡ true
    pub no_warning : technical_block_reason config request buy ≡ none

  price_of_buy :
      (action : SignalAction) (range : Option (EntryRange D)) (entry : EntryRange D)
      → action ≡ buy
      → range ≡ some entry
      → order_price call action range ≡ some entry.max
  unfolding order_price
  price_of_buy action range entry h k = rw h (rw k refl)

  decided-IsPriced :
      (effective : EffectiveRiskConfig D)
      → call.effective_config ≡ some effective
      → IsAllowed call (decided call buy)
      → IsPriced effective (decided call buy)
  unfolding decided
  decided-IsPriced effective config h =
      buy-IsPriced effective decision.entry_range decision.stop_loss decision.target_price config
        refl refl refl h

  -- A BUY that is allowed under an effective configuration has its prices in order, a symbol that may
  -- be bought, no bear market (but in a DEMO account where that is permitted), an open trading window,
  -- a daily count below its maximum, enough confidence and no warning of the market's features; it buys
  -- at the end of its entry range the quantity that the sizing has accepted for this trade.
  pub buy-IsSafeBuy :
      (effective : EffectiveRiskConfig D)
      → call.effective_config ≡ some effective
      → decision.action ≡ buy
      → (evaluate call).response.allow_order ≡ true
      → IsSafeBuy effective
  unfolding research_checks trade_checks allow_order confidence_ok
  buy-IsSafeBuy effective has is h =
      let p = evaluate-IsPassed call h in
      let open_ : Passed (research_checks call) = p.researched_all in
      let gates : Passed (trade_checks call) = p.traded_all in
      let same : evaluate call ≡ decided call buy = p.result ∙ ap (decided call) is in
      let b = decided-IsPriced effective has (rw same at h) in
      let response = ap (λ e. e.response) same ∙ b.sized.response in
      let (allowed, qty, _, price) =
        passed-allowed call _ (sym (ap (λ r. r.allow_order) response) ∙ h) in
      record {
        entry = b.entry;
        stop = b.stop;
        target = b.target;
        account = b.sized.account;
        has_entry = b.has_entry;
        has_stop = b.has_stop;
        has_target = b.has_target;
        has_account = b.sized.has_account;
        sized = b.sized.sized;
        qty = ap (λ r. r.qty) response ∙ qty;
        price = ap (λ r. r.price) response ∙ price ∙ price_of_buy _ _ b.entry is b.has_entry;
        prices_ordered = b.ordered;
        symbol_allowed = ground arith;
        eligible = ground arith;
        no_downtrend = ground arith;
        in_window = ground arith;
        below_daily_count = ground arith;
        confident = ground arith;
        no_warning = ap (technical_block_reason config request) (sym is) ∙ p.technical;
      }
