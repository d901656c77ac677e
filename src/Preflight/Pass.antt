-- ===== src/Preflight/Pass.antt =====
-- What an order that passes `validate_order_preflight` has shown.
use trade_ai_server.Prelude.{
  ◌≡◌, true, false, not, Option, none, some, String, refl, arith, first_block, Passed,
  first_block-Passed, on_some,
}
use trade_ai_server.Prelude.Int.{pos, leb_ℤ}
use trade_ai_server.Number.{Number, nought}
use trade_ai_server.Preflight.{
  MarketPayload, AccountState, PreflightOrder, is_true, is_false, valid_age, bid, ask, is_buy_side,
  max_spread, spread_pct, limit_price, price_drift_pct, same_account, market_checks, account_checks,
  liquidity_check, first_reason, validate_order_preflight, bid_liquidity_block_reason,
}

pub first_reason-none : (o p : Option String) → first_reason o p ≡ none → (o ≡ none) × (p ≡ none)
unfolding first_reason
first_reason-none none p h = (refl, h)
first_reason-none (some reason) p h = absurd (cc)

module _ {D : Type 0} ⦃n : Number D⦄ (payload : MarketPayload D) (account : AccountState D)
    (order : PreflightOrder D) where
  open n use {lt, le}

  -- What is known of an order that may be sent.
  pub record IsSendable : Type 0 where
    pub decision_fresh : lt order.max_decision_age_seconds order.decision_age_seconds ≡ false
    pub in_session : is_true payload.session_open ≡ true
    pub whole_qty : on_some (λ q. not (leb_ℤ q (pos 0))) order.qty ≡ true
    pub positive_price : le (limit_price payload account order) nought ≡ false
    pub quote_fresh : valid_age payload.quote_age_seconds order.max_quote_age_seconds ≡ true
    pub depth_fresh : valid_age payload.depth_age_seconds order.max_depth_age_seconds ≡ true
    pub bid_positive : le (bid payload account order) nought ≡ false
    pub uncrossed : le (ask payload account order) (bid payload account order) ≡ false
    pub narrow_spread :
        is_buy_side payload account order ≡ true
        → lt (max_spread payload account order) (spread_pct payload account order) ≡ false
    pub liquid :
        is_buy_side payload account order ≡ true
        → bid_liquidity_block_reason payload.top5_drop_metric_ready payload.top5_drop_pct
            payload.top5_drop_recent_pcts payload.queue_drop_pct order.max_depth_queue_drop_pct
          ≡ none
    pub small_drift : lt order.max_price_drift_pct (price_drift_pct payload account order) ≡ false
    pub same_owner : same_account payload account order ≡ true
    pub config_fresh : is_false account.config_stale ≡ true
    pub positions_known : is_true account.positions_loaded ≡ true

  -- An order that passes has a fresh decision, an open session, a positive whole quantity and limit
  -- price, a fresh quote and book, a positive bid below the ask, a limit price near the book, and the
  -- same account and session in the positions and in the health report, with a fresh configuration
  -- and loaded positions; a BUY has a spread within the profile's limit and no liquidity warning.
  pub validate-IsSendable : validate_order_preflight payload account order ≡ none → IsSendable
  unfolding validate_order_preflight market_checks account_checks
  validate-IsSendable h =
      let (market, rest) =
        first_reason-none (first_block (market_checks payload account order)) _ h in
      let (liquidity, accounts) =
        first_reason-none (liquidity_check payload account order) _ rest in
      let m : Passed (market_checks payload account order) =
        first_block-Passed (market_checks payload account order) market in
      let a : Passed (account_checks payload account order) =
        first_block-Passed (account_checks payload account order) accounts in
      record {
        decision_fresh = ground arith;
        in_session = ground arith;
        whole_qty = ground arith;
        positive_price = ground arith;
        quote_fresh = ground arith;
        depth_fresh = ground arith;
        bid_positive = ground arith;
        uncrossed = ground arith;
        narrow_spread = λ b. ground arith;
        liquid = λ b. (unfold liquidity_check in ground arith);
        small_drift = ground arith;
        same_owner = ground arith;
        config_fresh = ground arith;
        positions_known = ground arith;
      }
