-- ===== src/Preflight.antt =====
-- app/services/order_preflight.py: the last checks before an order is sent. A field of the gateway's
-- payload is an `Option`, empty where it is missing; a value of another type than the code expects is
-- not modelled. The messages are without the numbers that the source prints in some of them.
pub mod Pass
use Prim.Native.String.{count}
use trade_ai_server.Prelude.{
  ℕ, ◌≡◌, Bool, true, false, not, ◌&&◌, ◌||◌, Option, none, some, List, [], ◌∷◌, ◌++◌, String,
  if◌then◌else◌, first_block, on_some, is_some, is_none, or_else, every, length, ltb, ◌==◌,
}
use trade_ai_server.Prelude.Int.{ℤ, pos, leb_ℤ}
use trade_ai_server.Prelude.Text.{str_eq, upper, strip, member}
use trade_ai_server.Number.{Number, nought, hundred, abs_of, within, or_value}

-- the fields of `payload` that are read; those of `technicalFeatures` as `_payload_field` finds them
pub record MarketPayload (D : Type 0) : Type 0 where
  pub session_open : Option Bool
  pub quote_fresh : Option Bool
  pub quote_reliable : Option Bool
  pub quote_age_seconds : Option D
  pub depth_reliable : Option Bool
  pub depth_age_seconds : Option D
  pub bid_price : Option D
  pub best_bid : Option D
  pub ask_price : Option D
  pub bid_volume : Option D
  pub ask_volume : Option D
  pub top5_drop_metric_ready : Option Bool
  pub top5_drop_pct : Option D
  pub top5_drop_recent_pcts : Option (List (Option D))
  pub queue_drop_pct : Option D

-- `positions` and `health`
pub record AccountState (D : Type 0) : Type 0 where
  pub confidence : String
  pub snapshot_age_seconds : Option D
  pub position_ref : String
  pub position_session : String
  pub health_ref : String
  pub health_session : String
  pub config_stale : Option Bool
  pub positions_loaded : Option Bool

-- The order, the age of its decision in seconds, and the limits of the profile and of the module.
-- `qty` is empty where the source's value is no `int`.
pub record PreflightOrder (D : Type 0) : Type 0 where
  pub side : String
  pub qty : Option ℤ
  pub limit_price : Option D
  pub decision_age_seconds : D
  pub max_spread_pct : Option D
  pub max_depth_queue_drop_pct : Option D
  pub max_decision_age_seconds : D
  pub max_quote_age_seconds : D
  pub max_depth_age_seconds : D
  pub max_position_age_seconds : D
  pub max_price_drift_pct : D

-- `x is True` and `x is False`
unfoldable pub is_true : Option Bool → Bool
is_true o = on_some (λ b. b) o

unfoldable pub is_false : Option Bool → Bool
is_false o = on_some (λ b. not b) o

-- `recent[-2:]`
unfoldable pub last_two {ℓ} : {A : Type ℓ} → List A → List A
last_two [] = []
last_two (x ∷ xs) = let rest = last_two xs in if ltb 1 (length xs) then rest else x ∷ xs

-- the first reason of several checks
unfoldable pub first_reason : Option String → Option String → Option String
first_reason (some reason) rest = some reason
first_reason none rest = rest

-- `len(ref) == 64`
unfoldable pub is_ref : String → Bool
is_ref s = count s == 64

module _ {D : Type 0} ⦃n : Number D⦄ where
  open n use {literal, add, sub, mul, div, lt, le, is_finite}

  -- `parse_finite_decimal`
  unfoldable pub parse_finite : Option D → Option D
  parse_finite none = none
  parse_finite (some x) = if is_finite (n.to_decimal x) then some (n.to_decimal x) else none

  unfoldable pub valid_age : Option D → D → Bool
  valid_age age maximum = on_some (λ a. within nought a maximum) (parse_finite age)

  unfoldable pub is_percent : Option D → Bool
  is_percent value = on_some (λ x. within nought x hundred) (parse_finite value)

  unfoldable pub exceeds : D → Option D → Bool
  exceeds maximum value = on_some (λ x. lt maximum x) (parse_finite value)

  unfoldable pub legacy_reason : D → Option D → Option String
  legacy_reason maximum none = none
  legacy_reason maximum (some legacy) = first_block (
      (not (is_percent (some legacy)), "BUY blocked: legacy bid queue metric is invalid")
      ∷ (exceeds maximum (some legacy), "BUY blocked: bid queue dropped")
      ∷ [])

  unfoldable pub rolling_reason : D → Option D → Option (List (Option D)) → Option String
  unfolding last_two
  rolling_reason maximum current none =
      if not (is_percent current)
      then some "BUY blocked: rolling Top5 bid liquidity metric is invalid"
      else some "BUY blocked: rolling Top5 bid liquidity history is unavailable"
  rolling_reason maximum current (some recent) = first_block (
      (not (is_percent current), "BUY blocked: rolling Top5 bid liquidity metric is invalid")
      ∷ (
        not (every is_percent recent),
        "BUY blocked: rolling Top5 bid liquidity history is invalid",
      )
      ∷ (ltb (length recent) 2, "BUY blocked: rolling Top5 bid liquidity baseline is warming")
      ∷ (
        exceeds maximum current && every (exceeds maximum) (last_two recent),
        "BUY blocked: persistent Top5 bid liquidity drop",
      )
      ∷ [])

  unfoldable pub liquidity_at :
      Option Bool → Option D → Option (List (Option D)) → Option D → D → Option String
  unfolding legacy_reason rolling_reason
  liquidity_at none current recent legacy maximum =
      if is_some current || is_some recent
      then some "BUY blocked: rolling Top5 bid liquidity readiness is unavailable"
      else legacy_reason maximum legacy
  liquidity_at (some false) current recent legacy maximum =
      some "BUY blocked: rolling Top5 bid liquidity baseline is warming"
  liquidity_at (some true) current recent legacy maximum = rolling_reason maximum current recent

  -- `bid_liquidity_block_reason`
  unfoldable pub bid_liquidity_block_reason :
      Option Bool → Option D → Option (List (Option D)) → Option D → Option D → Option String
  unfolding liquidity_at
  bid_liquidity_block_reason metric_ready current recent legacy maximum =
      if not (is_percent maximum)
      then some "BUY blocked: invalid bid liquidity profile limit"
      else liquidity_at metric_ready current recent legacy (or_else (parse_finite maximum) nought)

module _ {D : Type 0} ⦃n : Number D⦄ (payload : MarketPayload D) (account : AccountState D)
    (order : PreflightOrder D) where
  open n use {literal, add, sub, mul, div, lt, le, is_finite}

  -- a price or a size of the book: `parse_finite_decimal(x or 0)`, where an unreadable one is not positive
  unfoldable pub book_value : Option D → D
  book_value value = or_else (parse_finite (or_value value (some nought))) nought

  unfoldable pub bid : D
  bid = book_value (or_value payload.bid_price payload.best_bid)

  unfoldable pub ask : D
  ask = book_value payload.ask_price

  unfoldable pub is_buy_side : Bool
  is_buy_side = str_eq (upper order.side) "BUY"

  unfoldable pub max_spread : D
  max_spread = or_else (parse_finite order.max_spread_pct) nought

  unfoldable pub spread_pct : D
  spread_pct = mul (div (sub ask bid) (div (add ask bid) (literal 2 0))) hundred

  unfoldable pub limit_price : D
  limit_price = or_else (parse_finite order.limit_price) nought

  unfoldable pub reference : D
  reference = if is_buy_side then ask else bid

  unfoldable pub price_drift_pct : D
  price_drift_pct = mul (div (abs_of (sub limit_price reference)) reference) hundred

  unfoldable pub same_account : Bool
  same_account =
      is_ref (strip account.position_ref)
      && is_ref (strip account.health_ref)
      && str_eq (strip account.position_ref) (strip account.health_ref)
      && is_ref (strip account.position_session)
      && is_ref (strip account.health_session)
      && str_eq (strip account.position_session) (strip account.health_session)

  -- the checks before the bid liquidity, in the order of the source
  unfoldable pub market_checks : List (Bool × String)
  market_checks =
      (lt order.max_decision_age_seconds order.decision_age_seconds, "decision is stale")
      ∷ (not (is_true payload.session_open), "trading session is closed or unknown")
      ∷ (
        not (on_some (λ q. not (leb_ℤ q (pos 0))) order.qty) || le limit_price nought,
        "invalid non-finite, non-positive, or fractional order value",
      )
      ∷ (
        is_false payload.quote_fresh
            || not (is_true payload.quote_reliable)
            || not (valid_age payload.quote_age_seconds order.max_quote_age_seconds),
        "quote is unavailable or stale",
      )
      ∷ (
        not (is_true payload.depth_reliable)
            || not (valid_age payload.depth_age_seconds order.max_depth_age_seconds)
            || le bid nought
            || le ask nought
            || le (book_value payload.bid_volume) nought
            || le (book_value payload.ask_volume) nought
            || le ask bid,
        "order book is invalid, crossed, or stale",
      )
      ∷ (not (member (upper order.side) ("BUY" ∷ "SELL" ∷ [])), "invalid order side")
      ∷ (
        is_none (parse_finite order.max_spread_pct) || lt max_spread nought,
        "invalid active profile spread limit",
      )
      ∷ (is_buy_side && lt max_spread spread_pct, "spread exceeds active profile limit")
      ∷ []

  -- the checks after it
  unfoldable pub account_checks : List (Bool × String)
  account_checks =
      (
        lt order.max_price_drift_pct price_drift_pct,
        "limit price drift exceeds order-time threshold",
      )
      ∷ (
        not (member account.confidence ("HIGH" ∷ "MEDIUM" ∷ []))
            || not (valid_age account.snapshot_age_seconds order.max_position_age_seconds),
        "position snapshot is stale or unreliable",
      )
      ∷ (not same_account, "positions snapshot and health account identity mismatch")
      ∷ (not (is_false account.config_stale), "gateway config is stale")
      ∷ (not (is_true account.positions_loaded), "gateway positions are not loaded")
      ∷ []

  unfoldable pub liquidity_check : Option String
  unfolding bid_liquidity_block_reason
  liquidity_check =
      if is_buy_side
      then bid_liquidity_block_reason payload.top5_drop_metric_ready payload.top5_drop_pct
          payload.top5_drop_recent_pcts payload.queue_drop_pct order.max_depth_queue_drop_pct
      else none

  -- `validate_order_preflight`
  unfoldable pub validate_order_preflight : Option String
  unfolding market_checks liquidity_check account_checks first_reason
  validate_order_preflight =
      first_reason (first_block market_checks)
        (first_reason liquidity_check (first_block account_checks))
