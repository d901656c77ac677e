-- ===== src/Lifecycle/Kept.antt =====
-- What `_apply_buy_fill`, its retries and `_apply_sell_fill` keep of the table of lifecycles: anything
-- that the three updates and the other transactions keep.
use trade_ai_server.Prelude.{
  ℕ, zero, suc, ◌+◌, ◌≡◌, false, Option, none, some, List, [], ◌∷◌, ◌++◌, String, Bool-cases, inl,
  inr, exists,
}
use trade_ai_server.Prelude.Text.{str_eq, upper, strip}
use trade_ai_server.Prelude.Result.{Result, Ensures, returns, raises, Ensures->>=, Ensures-ok_of}
use trade_ai_server.Number.{Number}
use trade_ai_server.Order.Row.{OrderLog}
use trade_ai_server.Fill.{OrderFill}
use trade_ai_server.Lifecycle.{
  PositionLifecycle, Positions, is_open_of, get_open_lifecycle, update_open,
}
use trade_ai_server.Lifecycle.Stop.{decision_stop_target}
use trade_ai_server.Lifecycle.Engine.{
  insert_open, merge_open, inserted_or, attempt, buy_attempts, apply_buy_fill, apply_sell_fill,
  apply_fill_to_lifecycle,
}
use trade_ai_server.Lifecycle.Rows.{Surroundings, opened, merged, sold}

module _ {D : Type 0} ⦃n : Number D⦄ (env : Surroundings D) (row : OrderLog D) (fill : OrderFill D)
    (Kept : List (PositionLifecycle D) → Type 0)
    (committed-Kept : (k : ℕ) (rows : List (PositionLifecycle D))
      → Kept rows
      → Kept (env.committed k rows))
    (opened-Kept : (symbol : String) (levels : Option D × Option D) (id : ℕ)
        (rows : List (PositionLifecycle D))
      → exists (is_open_of symbol) rows ≡ false
      → Kept rows
      → Kept (rows ++ (opened env row fill symbol levels id ∷ [])))
    (merged-Kept : (symbol : String) (levels : Option D × Option D)
        (rows : List (PositionLifecycle D))
      → Kept rows
      → Kept (update_open symbol (merged fill levels) rows))
    (sold-Kept : (symbol : String) (rows : List (PositionLifecycle D))
      → Kept rows
      → Kept (update_open symbol (sold fill) rows)) where
  insert_open-Kept :
      (symbol : String) (levels : Option D × Option D) (store : Positions D)
      (retry : Result (PositionLifecycle D × Positions D))
      → Kept store.rows
      → Ensures (λ result. Kept result.1.rows) retry
      → Ensures
          (λ result. Kept result.1.rows)
          (inserted_or env row fill (insert_open env row fill symbol levels store) retry)
  unfolding insert_open inserted_or
  insert_open-Kept symbol levels store retry h next =
      elim (Bool-cases (exists (is_open_of symbol) store.rows)) [
        | inl found ↦ rw found next
        | inr free ↦
            rw free (returns (opened-Kept symbol levels (env.new_id store.rows) store.rows free h))
      ]

  attempt-Kept :
      (symbol : String) (levels : Option D × Option D) (store rival : Positions D)
      (retry : Result (PositionLifecycle D × Positions D)) (found : Option (PositionLifecycle D))
      → Kept store.rows
      → Kept rival.rows
      → Ensures (λ result. Kept result.1.rows) retry
      → Ensures
          (λ result. Kept result.1.rows)
          (attempt env row fill symbol levels store rival retry found)
  unfolding attempt merge_open
  attempt-Kept symbol levels store rival retry (some lifecycle) h k next =
      returns (merged-Kept symbol levels store.rows h)
  attempt-Kept symbol levels store rival retry none h k next =
      insert_open-Kept symbol levels rival retry k next

  buy_attempts-Kept :
      (k : ℕ) (symbol : String) (levels : Option D × Option D) (store : Positions D)
      → Kept store.rows
      → Ensures (λ result. Kept result.1.rows) (buy_attempts env row fill k symbol levels store)
  unfolding buy_attempts
  buy_attempts-Kept zero symbol levels store h = raises
  buy_attempts-Kept (suc k) symbol levels store h =
      let rival = record store { rows = env.committed (suc (k + k)) store.rows } in
      let later = record rival { rows = env.committed (k + k) rival.rows } in
      let h' = committed-Kept (suc (k + k)) store.rows h in
      let h'' = committed-Kept (k + k) rival.rows h' in
      Ensures->>= (get_open_lifecycle symbol store.rows) λ found e.
        attempt-Kept symbol levels store rival (buy_attempts env row fill k symbol levels later)
          found h h' (buy_attempts-Kept k symbol levels later h'')

  sell-Kept :
      (symbol : String) (found : Option (PositionLifecycle D)) (store : Positions D)
      → Kept store.rows
      → Kept (apply_sell_fill env row fill symbol found store).1.rows
  unfolding apply_sell_fill
  sell-Kept symbol none store h = h
  sell-Kept symbol (some lifecycle) store h = sold-Kept symbol store.rows h

  buy-Kept :
      (symbol : String) (store : Positions D)
      → Kept store.rows
      → Ensures (λ result. Kept result.1.rows) (apply_buy_fill env row fill symbol store)
  unfolding apply_buy_fill
  buy-Kept symbol store h =
      buy_attempts-Kept 3 symbol (decision_stop_target (env.risk_decision fill.request_id)) store h

  pub apply_fill-Kept :
      (store : Positions D)
      → Kept store.rows
      → Ensures (λ result. Kept result.1.rows) (apply_fill_to_lifecycle env row fill store)
  unfolding apply_fill_to_lifecycle
  apply_fill-Kept store h =
      let symbol = upper (strip fill.symbol) in
      elim (Bool-cases (str_eq fill.action "BUY")) [
        | inl e ↦ rw e (
            Ensures->>= (apply_buy_fill env row fill symbol store)
              λ result r. returns (Ensures-ok_of (buy-Kept symbol store h) result r))
        | inr e ↦ rw e (
            Ensures->>= (get_open_lifecycle symbol store.rows)
              λ found _. returns (sell-Kept symbol found store h))
      ]
