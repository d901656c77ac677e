-- ===== src/Lifecycle/Engine.antt =====
-- `apply_fill_to_lifecycle`, `_apply_buy_fill` and `_apply_sell_fill` over the table of positions.
use trade_ai_server.Prelude.{
  ℕ, zero, suc, ◌+◌, Option, none, some, [], ◌∷◌, ◌++◌, String, if◌then◌else◌, exists,
}
use trade_ai_server.Prelude.Text.{str_eq, upper, strip}
use trade_ai_server.Prelude.Result.{Result, ok, raised, Error, ◌>>=◌}
use trade_ai_server.Number.{Number}
use trade_ai_server.Order.Row.{OrderLog}
use trade_ai_server.Fill.{OrderFill}
use trade_ai_server.Lifecycle.{
  PositionLifecycle, Positions, is_open_of, get_open_lifecycle, update_open,
}
use trade_ai_server.Lifecycle.Stop.{decision_stop_target}
use trade_ai_server.Lifecycle.Rows.{
  opened, opened_events, merged_events, merged, sold, sold_events, Surroundings,
}

module _ {D : Type 0} ⦃n : Number D⦄ (env : Surroundings D) (row : OrderLog D)
    (fill : OrderFill D) where
  -- an insertion that the unique index on the open rows of a symbol refuses, or lets pass
  unfoldable pub insert_open :
      String → Option D × Option D → Positions D → Option (PositionLifecycle D × Positions D)
  insert_open symbol levels store =
      let lifecycle = opened env row fill symbol levels (env.new_id store.rows) in
      if exists (is_open_of symbol) store.rows
      then none
      else some (
        lifecycle,
        record {
          rows = store.rows ++ (lifecycle ∷ []);
          events = store.events ++ opened_events fill lifecycle levels.0;
        },
      )

  unfoldable pub merge_open :
      String
      → Option D × Option D
      → PositionLifecycle D
      → Positions D
      → PositionLifecycle D × Positions D
  merge_open symbol levels lifecycle store = (
    merged fill levels lifecycle,
    record {
      rows = update_open symbol (merged fill levels) store.rows;
      events = store.events ++ merged_events fill lifecycle lifecycle.active_stop_loss levels.0;
    },
  )

  -- an attempt that has inserted its row, or is repeated
  unfoldable pub inserted_or :
      Option (PositionLifecycle D × Positions D)
      → Result (PositionLifecycle D × Positions D)
      → Result (PositionLifecycle D × Positions D)
  inserted_or none retry = retry
  inserted_or (some result) retry = ok result

  -- the body of the loop of `_apply_buy_fill`, after the open row is read; `rival` is the store
  -- that the insertion meets
  unfoldable pub attempt :
      String
      → Option D × Option D
      → Positions D
      → Positions D
      → Result (PositionLifecycle D × Positions D)
      → Option (PositionLifecycle D)
      → Result (PositionLifecycle D × Positions D)
  unfolding insert_open merge_open inserted_or
  attempt symbol levels store rival retry (some lifecycle) =
      ok (merge_open symbol levels lifecycle store)
  attempt symbol levels store rival retry none = inserted_or (insert_open symbol levels rival) retry

  -- the loop, with the number of attempts that are left; others may commit before an insertion, and
  -- again after one that is refused
  unfoldable pub buy_attempts :
      ℕ → String → Option D × Option D → Positions D → Result (PositionLifecycle D × Positions D)
  unfolding attempt
  buy_attempts zero symbol levels store =
      raised (Error.runtime_error "Could not resolve open-lifecycle insert conflict")
  buy_attempts (suc k) symbol levels store =
      let rival = record store { rows = env.committed (suc (k + k)) store.rows } in
      let later = record rival { rows = env.committed (k + k) rival.rows } in
      let retry = buy_attempts k symbol levels later in
      get_open_lifecycle symbol store.rows >>= attempt symbol levels store rival retry

  -- `_apply_buy_fill`; `_MAX_OPEN_INSERT_ATTEMPTS` is 3
  unfoldable pub apply_buy_fill : String → Positions D → Result (PositionLifecycle D × Positions D)
  unfolding buy_attempts
  apply_buy_fill symbol store =
      buy_attempts 3 symbol (decision_stop_target (env.risk_decision fill.request_id)) store

  -- `_apply_sell_fill`
  unfoldable pub apply_sell_fill :
      String
      → Option (PositionLifecycle D)
      → Positions D
      → Option (PositionLifecycle D) × Positions D
  apply_sell_fill symbol none store = (none, store)
  apply_sell_fill symbol (some lifecycle) store = (
    some (sold fill lifecycle),
    record {
      rows = update_open symbol (sold fill) store.rows;
      events = store.events ++ sold_events fill lifecycle;
    },
  )

  -- The affected row, if any, and the tables.
  unfoldable pub apply_fill_to_lifecycle :
      Positions D → Result (Option (PositionLifecycle D) × Positions D)
  unfolding apply_buy_fill apply_sell_fill
  apply_fill_to_lifecycle store =
      let symbol = upper (strip fill.symbol) in
      if str_eq fill.action "BUY"
      then (apply_buy_fill symbol store >>= λ result. ok (some result.0, result.1))
      else (get_open_lifecycle symbol store.rows >>= λ found.
          ok (apply_sell_fill symbol found store))
