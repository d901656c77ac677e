-- ===== src/Examples/Sending.antt =====
-- The checks before an order is sent, at a concrete SELL.
use trade_ai_server.Prelude.{true, false, none, some, refl}
use trade_ai_server.Prelude.Int.{ℤ, pos, ◌+ℤ◌, ◌-ℤ◌, ◌*ℤ◌}
use trade_ai_server.Prelude.Text.{upper, strip}
use trade_ai_server.Number.Whole.{whole_number, div_ℤ}
use trade_ai_server.Preflight.{
  MarketPayload, AccountState, PreflightOrder, validate_order_preflight, is_true, is_false,
  parse_finite, valid_age, book_value, bid, ask, limit_price, max_spread, is_buy_side,
  price_drift_pct, reference, same_account, is_ref, spread_pct,
}
use trade_ai_server.Preflight.Pass.{IsSendable, validate-IsSendable}

abbrev payload : MarketPayload ℤ
payload = record {
  session_open = some true;
  quote_fresh = none;
  quote_reliable = some true;
  quote_age_seconds = some (pos 2);
  depth_reliable = some true;
  depth_age_seconds = some (pos 2);
  bid_price = some (pos 100);
  best_bid = none;
  ask_price = some (pos 101);
  bid_volume = some (pos 50);
  ask_volume = some (pos 60);
  top5_drop_metric_ready = none;
  top5_drop_pct = none;
  top5_drop_recent_pcts = none;
  queue_drop_pct = none;
}

abbrev account_state : AccountState ℤ
account_state = record {
  confidence = "HIGH";
  snapshot_age_seconds = some (pos 5);
  position_ref = "0123456789abcdef0123456789abcdef0123456789abcdef0123456789abcdef";
  position_session = "fedcba9876543210fedcba9876543210fedcba9876543210fedcba9876543210";
  health_ref = "0123456789abcdef0123456789abcdef0123456789abcdef0123456789abcdef";
  health_session = "fedcba9876543210fedcba9876543210fedcba9876543210fedcba9876543210";
  config_stale = some false;
  positions_loaded = some true;
}

abbrev sell_order : PreflightOrder ℤ
sell_order = record {
  side = "sell";
  qty = some (pos 3);
  limit_price = some (pos 100);
  decision_age_seconds = pos 4;
  max_spread_pct = some (pos 1);
  max_depth_queue_drop_pct = some (pos 35);
  max_decision_age_seconds = pos 20;
  max_quote_age_seconds = pos 15;
  max_depth_age_seconds = pos 10;
  max_position_age_seconds = pos 60;
  max_price_drift_pct = pos 0;
}

validate-IsSendable_example : IsSendable payload account_state sell_order
unfolding validate_order_preflight is_true is_false parse_finite valid_age book_value bid ask
    limit_price max_spread is_buy_side price_drift_pct reference same_account is_ref spread_pct ◌*ℤ◌
    div_ℤ ◌-ℤ◌ ◌+ℤ◌ strip upper
validate-IsSendable_example = validate-IsSendable payload account_state sell_order refl
