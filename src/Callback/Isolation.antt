-- ===== src/Callback/Isolation.antt =====
-- What measures an order, its fills, lifecycles and repairs, does not reach the order.
use trade_ai_server.Prelude.{
  Bool-cases, inl, inr, ◌≡◌, ◌∙◌, ap, sym, refl, Bool, true, false, Option, none, some, List, [],
  ◌∷◌, ◌++◌,
}
use trade_ai_server.Prelude.Table.{put}
use trade_ai_server.Prelude.Result.{Result, ok, raised, ◌>>=◌}
use trade_ai_server.Number.{Number}
use trade_ai_server.Order.Row.{OrderLog, Reservation, Time}
use trade_ai_server.Order.Ledger.{order_at}
use trade_ai_server.Order.Reservation.{sync_cash_reservation, Synced}
use trade_ai_server.Callback.{
  Store, Callback, CallbackEnv, store_after, measured, recorded, record_fill, advanced, is_changed,
  is_allowed, apply_allowed, apply_to_row, apply_found, apply_callback, after_callbacks,
  inserted_row,
}

module _ {D : Type 0} where
  -- the ledger's part of a store
  abbrev pub ledger_of : Store D → List (OrderLog D) × List (Reservation D)
  ledger_of store = (store.orders, store.reservations)

module _ {D : Type 0} ⦃n : Number D⦄ where
  measured-ledger :
      (env : CallbackEnv D) (now : Time) (old row : OrderLog D) (changed : Bool) (store : Store D)
      → ledger_of (measured env now old row changed store) ≡ ledger_of store
  unfolding measured
  measured-ledger env now old row false store = refl
  measured-ledger env now old row true store = kept (record_fill env now old row store)
    where
      kept : (m : _) → ledger_of (recorded env now row store m) ≡ ledger_of store
      kept (ok (fills, positions)) = unfold recorded in refl
      kept (raised error) = unfold recorded in refl

  module _ (env env' : CallbackEnv D) (ids : env.new_id ≡ env'.new_id) (now : Time)
      (callback : Callback D) where
    -- two stores with one ledger, of one call each
    abbrev Agree : Store D → Store D → Type 0
    Agree s s' = ledger_of s ≡ ledger_of s'

    allowed-Agree :
        (row : OrderLog D) (s s' base base' : Store D)
        → Agree s s'
        → Agree base base'
        → Agree
            (store_after base (apply_allowed env now callback row s))
            (store_after base' (apply_allowed env' now callback row s'))
    unfolding apply_allowed
    allowed-Agree row s s' base base' h b =
        let rows : s.reservations ≡ s'.reservations = ap (λ l. l.1) h in
        rw rows
          (synced (sync_cash_reservation false now (advanced now callback row) s'.reservations))
      where
        changed : Bool
        changed = is_changed callback row

        written : Store D → Synced D → Store D
        written store result = record store {
          orders = put (λ r. r.request_id) (advanced now callback row) store.orders;
          reservations = result.1;
        }

        synced :
            (m : Result (Synced D))
            → ledger_of (
                store_after base (
                  m >>= λ result. ok (
                    (advanced now callback row, changed),
                    measured env now row (advanced now callback row) changed (written s result),
                  )))
              ≡ ledger_of (
                  store_after base' (
                    m >>= λ result. ok (
                      (advanced now callback row, changed),
                      measured env' now row (advanced now callback row) changed (written s' result),
                    )))
        synced (raised e) = unfold store_after in b
        synced (ok result) =
            unfold store_after in
            (measured-ledger env now row (advanced now callback row) changed (written s result)
              ∙ (ap (λ l. (put (λ r. r.request_id) (advanced now callback row) l.0, result.1)) h)
              ∙ sym (
                  measured-ledger env' now row (advanced now callback row) changed
                    (written s' result)))

    to_row-Agree :
        (row : OrderLog D) (s s' base base' : Store D)
        → Agree s s'
        → Agree base base'
        → Agree
            (store_after base (apply_to_row env now callback row s))
            (store_after base' (apply_to_row env' now callback row s'))
    unfolding apply_to_row
    to_row-Agree row s s' base base' h b = elim (Bool-cases (is_allowed callback row)) [
      | inl e ↦ rw e (allowed-Agree row s s' base base' h b)
      | inr e ↦ rw e (unfold store_after in h)
    ]

    found-Agree :
        (found : Option (OrderLog D)) (s s' : Store D)
        → Agree s s'
        → Agree
            (store_after s (apply_found env now callback s found))
            (store_after s' (apply_found env' now callback s' found))
    unfolding apply_found
    found-Agree (some row) s s' h = to_row-Agree row s s' s s' h h
    found-Agree none s s' h =
        let orders : s.orders ≡ s'.orders = ap (λ l. l.0) h in
        let id : env.new_id s.orders ≡ env'.new_id s'.orders =
          ap (λ f. f s.orders) ids ∙ ap env'.new_id orders in
        let row = inserted_row (env'.new_id s'.orders) callback in
        rw id (
          to_row-Agree row (record s { orders = s.orders ++ (row ∷ []) })
            (record s' { orders = s'.orders ++ (row ∷ []) }) s s'
            (ap (λ l. (l.0 ++ (row ∷ []), l.1)) h) h)

    callback-Agree :
        (s s' : Store D)
        → Agree s s'
        → Agree
            (store_after s (apply_callback env now callback s))
            (store_after s' (apply_callback env' now callback s'))
    unfolding apply_callback
    callback-Agree s s' h =
        let orders : s.orders ≡ s'.orders = ap (λ l. l.0) h in
        ap (λ found. ledger_of (store_after s (apply_found env now callback s found)))
          (ap (order_at callback.request_id) orders)
        ∙ found-Agree (order_at callback.request_id s'.orders) s s' h

  -- Over any sequence of callbacks, the orders and the reservations do not depend on the fills, the
  -- lifecycles, the repairs, the fees and what the lifecycle engine reads: two stores that agree on the
  -- orders and the reservations do so afterwards, so that no failure to record a fill, to apply it or
  -- to queue its repair touches them. The ids of new orders are chosen alike.
  pub after_callbacks_isolated :
      (env env' : CallbackEnv D) (now : Time) (callbacks : List (Callback D)) (s s' : Store D)
      → env.new_id ≡ env'.new_id
      → ledger_of s ≡ ledger_of s'
      → ledger_of (after_callbacks env now callbacks s)
        ≡ ledger_of (after_callbacks env' now callbacks s')
  unfolding after_callbacks
  after_callbacks_isolated env env' now [] s s' ids h = h
  after_callbacks_isolated env env' now (callback ∷ rest) s s' ids h =
      after_callbacks_isolated env env' now rest (store_after s (apply_callback env now callback s))
        (store_after s' (apply_callback env' now callback s')) ids
        (callback-Agree env env' ids now callback s s' h)
