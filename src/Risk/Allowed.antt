-- ===== src/Risk/Allowed.antt =====
-- What an order that `RiskEngine.evaluate` allows has shown.
use trade_ai_server.Prelude.{
  ◌≡◌, ◌∙◌, refl, true, false, not, ◌&&◌, Option, none, some, String, arith, first_block, Passed,
  first_block-Passed, ltb,
}
use trade_ai_server.Prelude.Int.{ℤ, pos, ◌≤ℤ◌, ◌-ℤ◌}
use trade_ai_server.Number.{Number}
use trade_ai_server.Preflight.Pass.{first_reason-none}
use trade_ai_server.Risk.{sell, Evaluation, is_long_term_locked, can_trade_now}
use trade_ai_server.Risk.Technical.{technical_block_reason}
use trade_ai_server.Risk.Answer.{block, research_only, unsized}
use trade_ai_server.Risk.Gates.{
  Call, allow_order, confidence_ok, sellable_qty, research_checks, trade_checks, clamped_qty,
  threshold,
}
use trade_ai_server.Risk.Evaluate.{
  traded, researched, passed, decided, evaluate, trade_reason, order_price,
}

module _ {D : Type 0} ⦃n : Number D⦄ (call : Call D) where
  open call use {config, request, decision, now}

  abbrev pub IsAllowed : Evaluation D → Type 0
  IsAllowed e = e.response.allow_order ≡ true

  researched-allowed :
      (reason : Option String)
      → IsAllowed (researched call reason)
      → (reason ≡ none) × (researched call reason ≡ traded call (trade_reason call))
  unfolding researched unsized research_only
  researched-allowed (some reason) h = absurd (cc)
  researched-allowed none h = (refl, refl)

  traded-allowed :
      (reason : Option String)
      → IsAllowed (traded call reason)
      → (reason ≡ none) × (traded call reason ≡ decided call decision.action)
  unfolding traded unsized block
  traded-allowed (some reason) h = absurd (cc)
  traded-allowed none h = (refl, refl)

  -- The way to a response that allows an order: no gate has answered.
  pub record IsPassed : Type 0 where
    pub researched_all : Passed (research_checks call)
    pub traded_all : Passed (trade_checks call)
    pub technical : technical_block_reason config request decision.action ≡ none
    pub result : evaluate call ≡ decided call decision.action

  pub evaluate-IsPassed : IsAllowed (evaluate call) → IsPassed
  unfolding evaluate trade_reason
  evaluate-IsPassed h =
      let (open_, first) = researched-allowed (first_block (research_checks call)) h in
      let (clear, second) = traded-allowed (trade_reason call) (rw first at h) in
      let (checks, technical) = first_reason-none (first_block (trade_checks call)) _ clear in
      record {
        researched_all = first_block-Passed (research_checks call) open_;
        traded_all = first_block-Passed (trade_checks call) checks;
        technical = technical;
        result = first ∙ second;
      }

  pub passed-allowed :
      (qty : ℤ)
      → (passed call qty).allow_order ≡ true
      → (allow_order call ≡ true)
        × ((passed call qty).qty ≡ qty)
        × ((passed call qty).action ≡ decision.action)
        × ((passed call qty).price ≡ order_price call decision.action decision.entry_range)
  unfolding passed block
  passed-allowed qty h = (ground arith, ground arith, ground arith, ground arith)

  sell-response :
      decision.action ≡ sell
      → IsAllowed (evaluate call)
      → (allow_order call ≡ true)
        × ((evaluate call).response.qty ≡ sellable_qty call)
        × ((evaluate call).response.price ≡ some request.last_price)
  unfolding decided order_price sellable_qty clamped_qty
  sell-response is h =
      let same : evaluate call ≡ unsized (passed call (sellable_qty call)) =
        rw (evaluate-IsPassed h).result (rw is refl) in
      let (allowed, qty, _, price) = passed-allowed (sellable_qty call) (rw same at h) in
      (allowed, rw same qty, rw same (rw price (rw is refl)))

  -- What a SELL that may be sent has shown.
  pub record IsSafeSell : Type 0 where
    pub some_lots : pos 1 ≤ℤ (evaluate call).response.qty
    pub owned : (evaluate call).response.qty ≤ℤ request.bot_position_qty
    pub unlocked :
        (evaluate call).response.qty
        ≤ℤ (request.account_available_qty -ℤ request.locked_long_term_qty)
    pub at_last_price : (evaluate call).response.price ≡ some request.last_price
    pub not_long_term :
        (is_long_term_locked config request.symbol && not config.allow_sell_long_term) ≡ false
    pub in_window : can_trade_now config now ≡ true
    pub below_daily_count : ltb request.daily_trade_count config.max_daily_trade_count ≡ true
    pub confident : n.le (threshold call) decision.confidence ≡ true

  -- A SELL that is allowed sells at least one lot at the last price, no more than the bot owns and no
  -- more than the account has beyond its locked long-term lots, of a symbol that may be sold, inside
  -- the trading window and below the daily count of trades, with the confidence that a SELL needs.
  pub sell-IsSafeSell :
      decision.action ≡ sell → (evaluate call).response.allow_order ≡ true → IsSafeSell
  unfolding trade_checks allow_order confidence_ok
  sell-IsSafeSell is h =
      let gates : Passed (trade_checks call) = (evaluate-IsPassed h).traded_all in
      let (allowed, qty, price) = sell-response is h in
      record {
        some_lots = ground arith;
        owned = ground arith;
        unlocked = ground arith;
        at_last_price = price;
        not_long_term = ground arith;
        in_window = ground arith;
        below_daily_count = ground arith;
        confident = ground arith;
      }
