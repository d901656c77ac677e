-- ===== src/Risk/Closed.antt =====
-- What every response of `RiskEngine.evaluate` satisfies, and how one that allows an order arose.
use trade_ai_server.Prelude.{
  ◌≡◌, refl, Bool, true, false, if◌then◌else◌, Option, none, some, String, inl, inr, arith,
  Bool-cases, first_block,
}
use trade_ai_server.Prelude.Int.{ℤ, pos}
use trade_ai_server.Number.{Number}
use trade_ai_server.EffectiveRisk.{EffectiveRiskConfig}
use trade_ai_server.Sizing.{AccountSizingContext, TradeSizingContext, RiskLimits}
use trade_ai_server.Sizing.Calculate.{calculate_buy_size}
use trade_ai_server.Risk.{
  SignalAction, buy, sell, wait, no_order, EntryRange, SignalRequest, RiskDecision, SignalResponse,
  Evaluation,
}
use trade_ai_server.Risk.Answer.{block, research_only, unsized, sizing_limits}
use trade_ai_server.Risk.Gates.{Call, allow_order, research_checks, clamped_qty}
use trade_ai_server.Risk.Evaluate.{
  checked_buy, traded, researched, passed, sized_buy, viable_buy, priced_buy, decided, evaluate,
  trade_reason,
}

module _ {D : Type 0} ⦃n : Number D⦄ where
  -- Where no order is allowed, there is nothing that could be sent as one.
  pub record IsClosed (response : SignalResponse D) : Type 0 where
    pub no_qty : response.qty ≡ pos 0
    pub no_type : response.order_type ≡ no_order
    pub no_price : response.price ≡ none

  abbrev ClosedUnless : SignalResponse D → Type 0
  ClosedUnless response = response.allow_order ≡ false → IsClosed response

  block-closed : (request : SignalRequest D) (reason : String) → ClosedUnless (block request reason)
  unfolding block
  block-closed request reason h = record { no_qty = refl; no_type = refl; no_price = refl }

  if-closed :
      (test : Bool) (e f : Evaluation D)
      → ClosedUnless e.response
      → ClosedUnless f.response
      → ClosedUnless (if test then e else f).response
  if-closed true e f h k = h
  if-closed false e f h k = k

  research-closed :
      (request : SignalRequest D) (decision : RiskDecision D) (reason : String)
      → ClosedUnless (research_only request decision reason)
  unfolding research_only
  research-closed request decision reason h = record {
    no_qty = refl;
    no_type = refl;
    no_price = refl;
  }

module _ {D : Type 0} ⦃n : Number D⦄ (call : Call D) where
  open call use {request, decision}

  passed-closed : (qty : ℤ) → ClosedUnless (passed call qty)
  unfolding passed block
  passed-closed qty h = record {
    no_qty = ground arith;
    no_type = ground arith;
    no_price = ground arith;
  }

  sized-closed :
      (account : AccountSizingContext D) (trade : TradeSizingContext D) (limits : RiskLimits D)
      → ClosedUnless (sized_buy call account trade limits).response
  unfolding sized_buy
  sized-closed account trade limits =
      let result = calculate_buy_size account trade limits in
      elim (Bool-cases result.allowed) [
        | inl e ↦ rw e (passed-closed result.qty)
        | inr e ↦ rw e (block-closed request result.reason)
      ]

  viable-closed :
      (effective : Option (EffectiveRiskConfig D)) (account : Option (AccountSizingContext D))
      (trade : TradeSizingContext D)
      → ClosedUnless (viable_buy call effective account trade).response
  unfolding viable_buy unsized
  viable-closed none account trade = passed-closed decision.qty
  viable-closed (some effective) none trade = block-closed request _
  viable-closed (some effective) (some account) trade =
      sized-closed account trade (sizing_limits effective)

  checked-closed :
      (reason : Option String) (trade : TradeSizingContext D)
      → ClosedUnless (checked_buy call reason trade).response
  unfolding checked_buy unsized
  checked-closed (some reason) trade = block-closed request reason
  checked-closed none trade =
      if-closed (allow_order call) _ _
        (viable-closed call.effective_config request.account_sizing_context trade)
        (passed-closed decision.qty)

  priced-closed :
      (entry : Option (EntryRange D)) (stop target : Option D)
      → ClosedUnless (priced_buy call entry stop target).response
  unfolding priced_buy unsized
  priced-closed (some entry) (some stop) (some target) = checked-closed _ _
  priced-closed (some entry) (some stop) none = block-closed request _
  priced-closed (some entry) none target = block-closed request _
  priced-closed none stop target = block-closed request _

  decided-closed : (action : SignalAction) → ClosedUnless (decided call action).response
  unfolding decided unsized
  decided-closed buy = priced-closed decision.entry_range decision.stop_loss decision.target_price
  decided-closed sell = passed-closed (clamped_qty call sell)
  decided-closed wait = passed-closed (clamped_qty call wait)

  traded-closed : (reason : Option String) → ClosedUnless (traded call reason).response
  unfolding traded unsized
  traded-closed (some reason) = block-closed request reason
  traded-closed none = decided-closed decision.action

  researched-closed : (reason : Option String) → ClosedUnless (researched call reason).response
  unfolding researched unsized
  researched-closed (some reason) = research-closed request decision reason
  researched-closed none = traded-closed (trade_reason call)

  -- A response that does not allow an order has quantity 0, no order type and no price, whichever
  -- check refused it.
  pub evaluate-IsClosed :
      (evaluate call).response.allow_order ≡ false → IsClosed (evaluate call).response
  unfolding evaluate
  evaluate-IsClosed = researched-closed (first_block (research_checks call))
