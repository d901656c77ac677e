-- ===== src/Lifecycle/Rows.antt =====
-- The rows and stop events that a fill gives: of `_apply_buy_fill`, the row that it opens or enlarges,
-- of `_apply_sell_fill`, the row that it reduces or closes.
use Prim.Native.String
use trade_ai_server.Prelude.{
  ℕ, Bool, true, false, ◌&&◌, Option, none, some, List, [], ◌∷◌, String, if◌then◌else◌,
}
use trade_ai_server.Prelude.Text.{str_eq}
use trade_ai_server.Number.{Number, nought, max_of, truthy_or_nought, or_nought}
use trade_ai_server.Order.Row.{OrderLog}
use trade_ai_server.Fill.{OrderFill}
use trade_ai_server.Lifecycle.{PositionLifecycle, StopEvent}
use trade_ai_server.Lifecycle.Stop.{stop_event}

-- What the engine reads besides the two tables: `resolve_ai_provider_model()` and the constants of
-- `strategy_provenance`, the rows of `risk_decisions` and `decision_outcomes` by request, the ids
-- that the database gives, and what others commit between two statements of the retry loop, by the
-- number of statements that are left.
pub record Surroundings (D : Type 0) : Type 0 where
  pub strategy_version : String
  pub prompt_version : String
  pub schema_version : String
  pub ai_provider : Option String
  pub ai_model : Option String
  pub risk_decision : String → Option (Option D × Option D)
  pub decision_source : String → Option String
  pub new_id : List (PositionLifecycle D) → ℕ
  pub committed : ℕ → List (PositionLifecycle D) → List (PositionLifecycle D)

abbrev pub is_reconciled : String → Bool
is_reconciled fill_source = str_eq fill_source "RECONCILIATION"

module _ {D : Type 0} ⦃n : Number D⦄ where
  open n use {literal, add, sub, mul, div, lt, le, text}

  -- `_maybe_downgrade_data_quality`
  unfoldable pub maybe_downgrade : OrderFill D → PositionLifecycle D → String
  maybe_downgrade fill lifecycle =
      if is_reconciled fill.fill_source && str_eq lifecycle.data_quality "VERIFIED"
      then "RECONCILED"
      else lifecycle.data_quality

  -- the row that the first BUY fill opens
  unfoldable pub opened :
      Surroundings D
      → OrderLog D
      → OrderFill D
      → String
      → Option D × Option D
      → ℕ
      → PositionLifecycle D
  opened env row fill symbol (stop, target) id = record {
    id = id;
    symbol = symbol;
    status = "OPEN";
    opened_at = fill.filled_at;
    closed_at = none;
    entry_request_id = some fill.request_id;
    entry_order_id = fill.order_id;
    current_qty = fill.fill_qty;
    average_entry_price = some fill.fill_price;
    gross_buy_value_tl = fill.gross_value_tl;
    gross_sell_value_tl = nought;
    total_buy_cost_tl = fill.total_cost_tl;
    total_sell_cost_tl = nought;
    gross_realized_pnl_tl = nought;
    net_realized_pnl_tl = nought;
    initial_stop_loss = stop;
    active_stop_loss = stop;
    initial_target_price = target;
    active_target_price = target;
    strategy_version = some env.strategy_version;
    prompt_version = some env.prompt_version;
    decision_context_schema_version = some env.schema_version;
    config_hash = row.config_version;
    profile_code = row.profile_code;
    ai_provider = env.ai_provider;
    ai_model = env.ai_model;
    decision_source = env.decision_source fill.request_id;
    data_quality = if is_reconciled fill.fill_source then "RECONCILED" else "VERIFIED";
    is_backfilled = false;
    pnl_verified = true;
    measurement_source = if is_reconciled fill.fill_source then "RECONCILIATION" else "FILL_LEDGER";
  }

  unfoldable pub opened_events : OrderFill D → PositionLifecycle D → Option D → List (StopEvent D)
  opened_events fill lifecycle none = []
  opened_events fill lifecycle (some stop) =
      stop_event lifecycle none (some stop) "INITIAL_STOP_CREATED" (some fill.request_id)
        fill.order_id "First BUY fill opened the position"
      ∷ []

  -- the active stop of a position after another BUY fill, and the event that says so
  unfoldable pub merged_stop : Option D → Option D → Option D
  merged_stop old_stop none = old_stop
  merged_stop none (some stop) = some stop
  merged_stop (some old_stop) (some stop) =
      let new_stop = max_of old_stop stop in
      if lt old_stop new_stop then some new_stop else some old_stop

  unfoldable pub merged_events :
      OrderFill D → PositionLifecycle D → Option D → Option D → List (StopEvent D)
  merged_events fill lifecycle old_stop none =
      stop_event lifecycle old_stop none "STOP_UPDATE_REJECTED" (some fill.request_id) fill.order_id
        "New decision had no valid stop_loss; existing stop kept"
      ∷ []
  merged_events fill lifecycle none (some stop) =
      stop_event lifecycle none (some stop) "INITIAL_STOP_CREATED" (some fill.request_id)
        fill.order_id "First valid stop bound to an already-open position"
      ∷ []
  merged_events fill lifecycle (some old_stop) (some stop) =
      let new_stop = max_of old_stop stop in
      if lt old_stop new_stop
      then stop_event lifecycle (some old_stop) (some new_stop) "STOP_TIGHTENED"
          (some fill.request_id) fill.order_id "Additional BUY fill tightened the active stop"
        ∷ []
      else []

  -- the target: only a gap is filled
  abbrev pub filled_gap : Option D → Option D → Option D
  filled_gap none target = target
  filled_gap (some old) _ = some old

  abbrev pub initial_target : Option D → Option D → Option D → Option D
  initial_target (some active) initial target = initial
  initial_target none initial none = initial
  initial_target none initial (some target) = filled_gap initial (some target)

  unfoldable pub merged_average : PositionLifecycle D → OrderFill D → D
  merged_average lifecycle fill =
      let old_qty = truthy_or_nought lifecycle.current_qty in
      let old_avg = or_nought lifecycle.average_entry_price in
      let new_qty = add old_qty fill.fill_qty in
      if lt nought new_qty
      then div (add (mul old_qty old_avg) (mul fill.fill_qty fill.fill_price)) new_qty
      else old_avg

  -- another BUY fill of an open position
  unfoldable pub merged :
      OrderFill D → Option D × Option D → PositionLifecycle D → PositionLifecycle D
  unfolding merged_stop
  merged fill (stop, target) lifecycle = record lifecycle {
    data_quality = maybe_downgrade fill lifecycle;
    current_qty = add (truthy_or_nought lifecycle.current_qty) fill.fill_qty;
    average_entry_price = some (merged_average lifecycle fill);
    gross_buy_value_tl = add (truthy_or_nought lifecycle.gross_buy_value_tl) fill.gross_value_tl;
    total_buy_cost_tl = add (truthy_or_nought lifecycle.total_buy_cost_tl) fill.total_cost_tl;
    active_stop_loss = merged_stop lifecycle.active_stop_loss stop;
    active_target_price = filled_gap lifecycle.active_target_price target;
    initial_target_price =
        initial_target lifecycle.active_target_price lifecycle.initial_target_price target;
  }

  -- `_apply_sell_fill`: `fill_qty`, but no more than is held
  unfoldable pub sold_qty : OrderFill D → PositionLifecycle D → D
  sold_qty fill lifecycle =
      if lt lifecycle.current_qty fill.fill_qty then lifecycle.current_qty else fill.fill_qty

  unfoldable pub buy_cost_per_share : PositionLifecycle D → D
  buy_cost_per_share lifecycle =
      let avg_entry = or_nought lifecycle.average_entry_price in
      let gross = truthy_or_nought lifecycle.gross_buy_value_tl in
      if lt nought avg_entry && lt nought gross
      then div (mul (truthy_or_nought lifecycle.total_buy_cost_tl) avg_entry) gross
      else nought

  unfoldable pub gross_realized : OrderFill D → PositionLifecycle D → D
  gross_realized fill lifecycle =
      mul (sold_qty fill lifecycle) (sub fill.fill_price (or_nought lifecycle.average_entry_price))

  unfoldable pub net_realized : OrderFill D → PositionLifecycle D → D
  net_realized fill lifecycle =
      sub
        (sub (gross_realized fill lifecycle)
          (mul (sold_qty fill lifecycle) (buy_cost_per_share lifecycle)))
        fill.total_cost_tl

  unfoldable pub remaining_qty : OrderFill D → PositionLifecycle D → D
  remaining_qty fill lifecycle =
      sub (truthy_or_nought lifecycle.current_qty) (sold_qty fill lifecycle)

  unfoldable pub sold : OrderFill D → PositionLifecycle D → PositionLifecycle D
  sold fill lifecycle =
      let left = remaining_qty fill lifecycle in
      let lifecycle' = record lifecycle {
        data_quality = maybe_downgrade fill lifecycle;
        gross_realized_pnl_tl =
            add (truthy_or_nought lifecycle.gross_realized_pnl_tl) (gross_realized fill lifecycle);
        net_realized_pnl_tl =
            add (truthy_or_nought lifecycle.net_realized_pnl_tl) (net_realized fill lifecycle);
        gross_sell_value_tl =
            add (truthy_or_nought lifecycle.gross_sell_value_tl) fill.gross_value_tl;
        total_sell_cost_tl = add (truthy_or_nought lifecycle.total_sell_cost_tl) fill.total_cost_tl;
      } in
      if le (sold_qty fill lifecycle) nought
      then record lifecycle { data_quality = maybe_downgrade fill lifecycle }
      else if le left nought
      then record lifecycle' {
        current_qty = nought;
        status = "CLOSED";
        closed_at = some fill.filled_at;
      }
      else record lifecycle' { current_qty = left }

  unfoldable pub sold_events : OrderFill D → PositionLifecycle D → List (StopEvent D)
  sold_events fill lifecycle =
      if le (sold_qty fill lifecycle) nought
      then []
      else if le (remaining_qty fill lifecycle) nought
      then stop_event lifecycle lifecycle.active_stop_loss none "POSITION_CLOSED"
          (some fill.request_id) fill.order_id "SELL fill closed the remaining position"
        ∷ []
      else stop_event lifecycle lifecycle.active_stop_loss lifecycle.active_stop_loss
          "POSITION_PARTIALLY_CLOSED" (some fill.request_id) fill.order_id
          (String.◌++◌ "Partial SELL sold_qty=" (text (sold_qty fill lifecycle)))
        ∷ []
