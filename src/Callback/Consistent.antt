-- ===== src/Callback/Consistent.antt =====
-- What callbacks keep of the fills and the lifecycles.
use trade_ai_server.Prelude.{
  ℕ, Bool, true, false, Option, none, some, List, [], ◌∷◌, Bool-cases, inl, inr,
}
use trade_ai_server.Prelude.Table.{Distinct}
use trade_ai_server.Prelude.Result.{
  Result, ok, raised, Ensures, returns, Ensures->>=, Ensures-ok, Ensures-ok_of,
}
use trade_ai_server.Number.{Number, truthy_or_nought}
use trade_ai_server.Order.Ledger.{order_at}
use trade_ai_server.Order.Row.{OrderLog, Time}
use trade_ai_server.Order.Reservation.{sync_cash_reservation}
use trade_ai_server.Fill.{OrderFill}
use trade_ai_server.Fill.Delta.{record_fill_delta-Outcome}
use trade_ai_server.Lifecycle.{PositionLifecycle, Positions}
use trade_ai_server.Lifecycle.Engine.{apply_fill_to_lifecycle}
use trade_ai_server.Lifecycle.OneOpen.{OneOpen, apply_fill-OneOpen}
use trade_ai_server.Callback.{
  Store, Callback, CallbackEnv, is_allowed, is_changed, advanced, apply_recorded, record_fill,
  recorded, measured, apply_allowed, apply_to_row, apply_found, apply_callback, store_after,
  after_callbacks,
}

module _ {D : Type 0} ⦃n : Number D⦄ where
  abbrev pub DistinctKeys : List (OrderFill D) → Type 0
  DistinctKeys fills = Distinct (λ f. f.fill_event_key) fills

  -- At most one open lifecycle for each symbol, and no two fills with the same key.
  pub record IsConsistent (store : Store D) : Type 0 where
    pub one_open : OneOpen store.positions.rows
    pub distinct_keys : DistinctKeys store.fills

module _ {D : Type 0} ⦃n : Number D⦄ (env : CallbackEnv D) (now : Time)
    (committed-OneOpen : (k : ℕ) (rows : List (PositionLifecycle D))
      → OneOpen rows
      → OneOpen (env.surroundings.committed k rows)) where
  apply_recorded-OneOpen :
      (row : OrderLog D) (positions : Positions D) (new : Option (OrderFill D) × List (OrderFill D))
      → OneOpen positions.rows
      → DistinctKeys new.1
      → Ensures
          (λ r. OneOpen r.1.rows × DistinctKeys r.0)
          (apply_recorded env now row positions new)
  unfolding apply_recorded
  apply_recorded-OneOpen row positions (none, fills) h d = returns (h, d)
  apply_recorded-OneOpen row positions (some fill, fills) h d =
      Ensures->>= (apply_fill_to_lifecycle env.surroundings row fill positions) λ applied e.
        returns (
          Ensures-ok_of (apply_fill-OneOpen env.surroundings row fill committed-OneOpen positions h)
              applied e,
          d,
        )

  record_fill-OneOpen :
      (old row : OrderLog D) (store : Store D)
      → IsConsistent store
      → Ensures (λ r. OneOpen r.1.rows × DistinctKeys r.0) (record_fill env now old row store)
  unfolding record_fill
  record_fill-OneOpen old row store c = apply_recorded-OneOpen row store.positions _ c.one_open (
      (record_fill_delta-Outcome env.sha256 env.fees row (some (truthy_or_nought old.filled_qty))
          old.avg_price (some row.filled_qty) row.avg_price row.limit_price row.order_id now
          store.fills).1
        c.distinct_keys)

  recorded-IsConsistent :
      (row : OrderLog D) (store : Store D) (r : Result (List (OrderFill D) × Positions D))
      → IsConsistent store
      → Ensures (λ r. OneOpen r.1.rows × DistinctKeys r.0) r
      → IsConsistent (recorded env now row store r)
  unfolding recorded
  recorded-IsConsistent row store (ok (fills, positions)) c e =
      let kept = Ensures-ok e in record { one_open = kept.0; distinct_keys = kept.1 }
  recorded-IsConsistent row store (raised error) c e = record {
    one_open = c.one_open;
    distinct_keys = c.distinct_keys;
  }

  measured-IsConsistent :
      (old row : OrderLog D) (changed : Bool) (store : Store D)
      → IsConsistent store
      → IsConsistent (measured env now old row changed store)
  unfolding measured
  measured-IsConsistent old row false store c = c
  measured-IsConsistent old row true store c =
      recorded-IsConsistent row store (record_fill env now old row store) c
        (record_fill-OneOpen old row store c)

  apply_to_row-IsConsistent :
      (callback : Callback D) (row : OrderLog D) (store : Store D)
      → IsConsistent store
      → Ensures (λ r. IsConsistent r.1) (apply_to_row env now callback row store)
  unfolding apply_to_row apply_allowed
  apply_to_row-IsConsistent callback row store c = elim (Bool-cases (is_allowed callback row)) [
    | inr h ↦ rw h (returns c)
    | inl h ↦
        let new = advanced now callback row in
        rw h (
          Ensures->>= (sync_cash_reservation false now new store.reservations) λ synced _. returns (
            measured-IsConsistent row new (is_changed callback row) _
              (record { one_open = c.one_open; distinct_keys = c.distinct_keys })))
  ]

  apply_found-IsConsistent :
      (callback : Callback D) (store : Store D) (found : Option (OrderLog D))
      → IsConsistent store
      → Ensures (λ r. IsConsistent r.1) (apply_found env now callback store found)
  unfolding apply_found
  apply_found-IsConsistent callback store (some row) c =
      apply_to_row-IsConsistent callback row store c
  apply_found-IsConsistent callback store none c =
      apply_to_row-IsConsistent callback _ _
        (record { one_open = c.one_open; distinct_keys = c.distinct_keys })

  store_after-IsConsistent :
      (store : Store D) (m : Result ((OrderLog D × Bool) × Store D))
      → IsConsistent store
      → Ensures (λ r. IsConsistent r.1) m
      → IsConsistent (store_after store m)
  unfolding store_after
  store_after-IsConsistent store (ok result) c e = Ensures-ok e
  store_after-IsConsistent store (raised error) c e = c

  -- Over any sequence of callbacks, repeated and failing ones included, no symbol gets two open
  -- lifecycles and no key of a fill is used twice, if that is so at the start and other transactions
  -- keep at most one open lifecycle for each symbol.
  pub after_callbacks-IsConsistent :
      (callbacks : List (Callback D)) (store : Store D)
      → IsConsistent store
      → IsConsistent (after_callbacks env now callbacks store)
  unfolding after_callbacks apply_callback
  after_callbacks-IsConsistent [] store c = c
  after_callbacks-IsConsistent (callback ∷ rest) store c = after_callbacks-IsConsistent rest _ (
      store_after-IsConsistent store (apply_callback env now callback store) c
        (apply_found-IsConsistent callback store (order_at callback.request_id store.orders) c))
