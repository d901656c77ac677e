-- ===== src/Lifecycle.antt =====
-- app/services/position_lifecycle_engine.py, with app/models/db/position_lifecycle.py and
-- position_stop_event.py: one row per position of a symbol, from its first BUY fill to its full
-- close, and the log of its stops. The rows are a table, and what other transactions commit
-- between a read and an insertion is a parameter. The unique index on the open rows of a symbol is
-- the one of migrations/versions/20260716_09_observation_bar_bounds_and_open_lifecycle_index.py.
pub mod Stop
pub mod Rows
pub mod Engine
pub mod Kept
pub mod OneOpen
pub mod Attempts
pub mod Trail
pub mod Quantity
use trade_ai_server.Prelude.{
  ℕ, Bool, true, false, ◌&&◌, Option, none, some, List, [], ◌∷◌, String, if◌then◌else◌, select,
}
use trade_ai_server.Prelude.Text.{str_eq, upper, strip}
use trade_ai_server.Prelude.Result.{Result, ok, raised, Error}
use trade_ai_server.Order.Row.{Time}

-- `PositionLifecycle`, less the text of its backfill and the times of the row
pub record PositionLifecycle (D : Type 0) : Type 0 where
  pub id : ℕ
  pub symbol : String
  pub status : String
  pub opened_at : Time
  pub closed_at : Option Time
  pub entry_request_id : Option String
  pub entry_order_id : Option String
  pub current_qty : D
  pub average_entry_price : Option D
  pub gross_buy_value_tl : D
  pub gross_sell_value_tl : D
  pub total_buy_cost_tl : D
  pub total_sell_cost_tl : D
  pub gross_realized_pnl_tl : D
  pub net_realized_pnl_tl : D
  pub initial_stop_loss : Option D
  pub active_stop_loss : Option D
  pub initial_target_price : Option D
  pub active_target_price : Option D
  pub strategy_version : Option String
  pub prompt_version : Option String
  pub decision_context_schema_version : Option String
  pub config_hash : Option String
  pub profile_code : Option String
  pub ai_provider : Option String
  pub ai_model : Option String
  pub decision_source : Option String
  pub data_quality : String
  pub is_backfilled : Bool
  pub pnl_verified : Bool
  pub measurement_source : String

-- `PositionStopEvent`
pub record StopEvent (D : Type 0) : Type 0 where
  pub position_lifecycle_id : ℕ
  pub symbol : String
  pub old_stop : Option D
  pub new_stop : Option D
  pub event_type : String
  pub source_request_id : Option String
  pub source_order_id : Option String
  pub reason : String

-- The two tables.
pub record Positions (D : Type 0) : Type 0 where
  pub rows : List (PositionLifecycle D)
  pub events : List (StopEvent D)

module _ {D : Type 0} where
  -- `PositionLifecycle.status == "OPEN"`
  unfoldable pub is_open : PositionLifecycle D → Bool
  is_open row = str_eq row.status "OPEN"

  -- the condition of `get_open_lifecycle`, for a symbol in capitals
  unfoldable pub is_open_of : String → PositionLifecycle D → Bool
  is_open_of symbol row = str_eq row.symbol symbol && is_open row

  abbrev pub ids : List (PositionLifecycle D) → List ℕ
  ids [] = []
  ids (row ∷ rows) = row.id ∷ ids rows

  unfoldable pub single_open :
      String → List (PositionLifecycle D) → Result (Option (PositionLifecycle D))
  single_open symbol [] = ok none
  single_open symbol (row ∷ []) = ok (some row)
  single_open symbol (row ∷ other ∷ rows) =
      raised (Error.lifecycle_integrity symbol (ids (row ∷ other ∷ rows)))

  unfoldable pub get_open_lifecycle :
      String → List (PositionLifecycle D) → Result (Option (PositionLifecycle D))
  unfolding single_open
  get_open_lifecycle symbol rows =
      single_open symbol (select (is_open_of (upper (strip symbol))) rows)

  -- an assignment to the row that `get_open_lifecycle` has found
  unfoldable pub update_open :
      String
      → (PositionLifecycle D → PositionLifecycle D)
      → List (PositionLifecycle D)
      → List (PositionLifecycle D)
  update_open symbol f [] = []
  update_open symbol f (row ∷ rows) =
      let rest = update_open symbol f rows in
      if is_open_of symbol row then f row ∷ rows else row ∷ rest
