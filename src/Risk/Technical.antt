-- ===== src/Risk/Technical.antt =====
-- The market's features of `RiskEngine._technical_feature_block_reason`.
use trade_ai_server.Prelude.{
  ℕ, Bool, true, false, not, ◌&&◌, Option, none, some, List, [], ◌∷◌, String, if◌then◌else◌,
  first_block, on_some, ltb,
}
use trade_ai_server.Prelude.Text.{str_eq, upper, strip, member, join}
use trade_ai_server.Number.{Number, abs_of}
use trade_ai_server.Preflight.{is_true, first_reason, bid_liquidity_block_reason}
use trade_ai_server.Risk.{RiskConfig, SignalRequest, SignalAction, buy, sell, wait, value}

unfoldable pub normalised_word : String → Option SignalAction
normalised_word word =
    if member word ("BUY" ∷ "LONG" ∷ "AL" ∷ [])
    then some buy
    else if member word ("SELL" ∷ "SHORT" ∷ "SAT" ∷ [])
    then some sell
    else if member word ("WAIT" ∷ "NEUTRAL" ∷ "HOLD" ∷ "NONE" ∷ [])
    then some wait
    else none

-- `_normalise_signal`; the value of a `SignalAction` stands for it
unfoldable pub normalise_signal : Option String → Option SignalAction
unfolding normalised_word
normalise_signal none = none
normalise_signal (some raw) = if str_eq raw "" then none else normalised_word (upper (strip raw))

-- `_opposes_action`
unfoldable pub opposes_action : Option SignalAction → SignalAction → Bool
opposes_action (some buy) sell = true
opposes_action (some sell) buy = true
opposes_action _ _ = false

-- `indicator_sell_count if consensus == "SELL" else indicator_buy_count`
unfoldable pub consensus_count : Option SignalAction → Option ℕ → Option ℕ → Option ℕ
consensus_count (some sell) sells buys = sells
consensus_count _ sells buys = buys

-- `count is None or count >= minimum`
unfoldable pub is_strong : ℕ → Option ℕ → Bool
is_strong minimum none = true
is_strong minimum (some count) = not (ltb count minimum)

module _ {D : Type 0} ⦃n : Number D⦄ (config : RiskConfig D) (request : SignalRequest D) where
  open n use {lt, le}

  unfoldable pub buy_feature_checks : List (Bool × String)
  unfolding is_true
  buy_feature_checks =
      let reliable = is_true request.depth_reliable in
      (
        on_some (λ age. lt config.max_quote_age_seconds_for_buy age) request.quote_age_seconds,
        "BUY blocked: quote age exceeds max",
      )
      ∷ (
        reliable
            && on_some (λ age. lt config.max_depth_age_seconds_for_buy age)
                request.depth_age_seconds,
        "BUY blocked: depth age exceeds max",
      )
      ∷ (
        reliable && on_some (λ s. lt config.max_spread_pct_for_buy s) request.spread_pct,
        "BUY blocked: spread exceeds max",
      )
      ∷ (
        reliable
            && on_some (λ r. lt r config.min_depth_bid_ask_ratio_top10_for_buy)
                request.depth_bid_ask_ratio_top10,
        "BUY blocked: depth bid/ask ratio Top10 below profile minimum",
      )
      ∷ (
        reliable
            && on_some (λ s. lt config.max_depth_sell_pressure_score_for_buy s)
                request.depth_sell_pressure_score,
        "BUY blocked: depth sell pressure exceeds profile maximum",
      )
      ∷ (
        reliable
            && (config.block_buy_on_strong_sell_pressure
                && on_some (λ s. str_eq s "STRONG_SELL_PRESSURE") request.depth_order_book_signal),
        "BUY blocked: STRONG_SELL_PRESSURE in reliable depth",
      )
      ∷ (
        reliable
            && (config.block_buy_on_near_ask_wall
                && on_some (λ d. le (abs_of d) config.near_wall_distance_pct)
                    request.depth_nearest_ask_wall_distance_pct),
        "BUY blocked: concentrated ask wall is too close",
      )
      ∷ (on_some (λ r. lt config.max_natr_for_buy r) request.natr, "BUY blocked: nATR exceeds max")
      ∷ []

  unfoldable pub liquidity_reason : Option String
  liquidity_reason =
      bid_liquidity_block_reason request.depth_bid_top5_drop_metric_ready
        request.depth_bid_top5_drop_pct request.depth_bid_top5_drop_recent_pcts
        request.depth_queue_drop_pct (some config.max_depth_queue_drop_pct_for_buy)

  unfoldable pub alignment_checks : SignalAction → List (Bool × String)
  unfolding opposes_action consensus_count is_strong
  alignment_checks action =
      let alpha = normalise_signal request.alpha_trend_signal in
      let consensus = normalise_signal request.indicator_consensus in
      (
        config.require_alpha_trend_alignment && opposes_action alpha action,
        join " " (value action ∷ "blocked: alphaTrendSignal opposes action" ∷ []),
      )
      ∷ (
        config.require_indicator_consensus_alignment
            && (opposes_action consensus action
                && is_strong config.min_indicator_consensus_count (
                    consensus_count consensus request.indicator_sell_count
                      request.indicator_buy_count)),
        join " " (value action ∷ "blocked: indicatorConsensus opposes action" ∷ []),
      )
      ∷ []

  unfoldable pub technical_block_reason : SignalAction → Option String
  unfolding buy_feature_checks liquidity_reason alignment_checks first_reason
  technical_block_reason wait = none
  technical_block_reason sell = first_block (alignment_checks sell)
  technical_block_reason buy =
      first_reason (first_block buy_feature_checks)
        (first_reason liquidity_reason (first_block (alignment_checks buy)))
