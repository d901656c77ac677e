-- ===== src/Callback/Progress.antt =====
-- The orders of the ledger only move forward under callbacks.
use mathlib.Core.Path.{subst}
use trade_ai_server.Prelude.{
  ◌≡◌, ◌≤◌, Bool, true, false, Option, none, some, List, [], ◌∷◌, ◌++◌, String, refl, arith,
  Bool-cases, inl, inr, ◌∙◌, sym, ap,
}
use trade_ai_server.Prelude.Text.{upper, upper_idem, str_eq, str_eq→path}
use trade_ai_server.Prelude.Table.{put, row_at-put, row_at-append, row_at-append_some, key-row_at}
use trade_ai_server.Prelude.Result.{
  Result, ok, raised, Ensures, returns, Ensures->>=, Ensures-map, Ensures-ok,
}
use trade_ai_server.Number.{Number, truthy_or_nought}
use trade_ai_server.Number.Laws.{IsOrdered, le-max_left, le-truthy_or_nought}
use trade_ai_server.Order.Ledger.{order_at}
use trade_ai_server.Order.Row.{OrderLog, Time}
use trade_ai_server.Order.StateMachine.{rank, is_final, current_status, transition_allowed}
use trade_ai_server.Order.Reservation.{sync_cash_reservation}
use trade_ai_server.Fill.{OrderFill}
use trade_ai_server.Lifecycle.{Positions}
use trade_ai_server.Callback.{
  Store, Callback, CallbackEnv, inserted_row, is_allowed, advanced, measured, recorded, record_fill,
  apply_allowed, apply_to_row, apply_found, apply_callback, store_after, after_callbacks,
}

module _ {D : Type 0} ⦃n : Number D⦄ where
  abbrev pub status_of : OrderLog D → String
  status_of row = current_status (some row.status)

  -- The rank of the status has not fallen, a final status is the same, and the filled quantity has
  -- not fallen.
  pub record Progress (old new : OrderLog D) : Type 0 where
    pub rank_kept : rank (status_of old) ≤ rank (status_of new)
    pub final_kept : is_final (status_of old) ≡ true → status_of new ≡ status_of old
    pub filled_kept : n.le old.filled_qty new.filled_qty ≡ true

  -- Every order is still there, and has made progress.
  abbrev pub Tracks : List (OrderLog D) → List (OrderLog D) → Type 0
  Tracks t t' =
      (request_id : String) (old : OrderLog D)
      → order_at request_id t ≡ some old
      → (new : OrderLog D) × (order_at request_id t' ≡ some new) × Progress old new

current_status-upper : (s : String) → rank (upper s) ≤ rank (current_status (some (upper s)))
unfolding current_status
current_status-upper s = elim (Bool-cases (str_eq (upper s) "")) [
  | inl e ↦
      rw (str_eq→path (upper s) "" e) (let z : rank "" ≡ 0 = unfold rank in refl in omega arith)
  | inr e ↦ rw (e, upper_idem) (omega arith)
]

current_status-final :
    (s : String) → is_final (upper s) ≡ true → current_status (some (upper s)) ≡ upper s
unfolding current_status
current_status-final s h = elim (Bool-cases (str_eq (upper s) "")) [
  | inl e ↦
      let blank : is_final "" ≡ false = unfold is_final in refl in
      absurd (ground (arith, blank, rw (str_eq→path (upper s) "" e) at h))
  | inr e ↦ rw (e, upper_idem) refl
]

module _ {D : Type 0} ⦃n : Number D⦄ (ordered : IsOrdered D) where
  Progress-refl : (row : OrderLog D) → Progress row row
  Progress-refl row = record {
    rank_kept = omega arith;
    final_kept = λ _. refl;
    filled_kept = ordered.le_refl _;
  }

  Progress-trans : (a b c : OrderLog D) → Progress a b → Progress b c → Progress a c
  Progress-trans a b c p q = record {
    rank_kept = let r = p.rank_kept in let s = q.rank_kept in omega arith;
    final_kept = λ f. let same = p.final_kept f in q.final_kept (rw same f) ∙ same;
    filled_kept = ordered.le_trans _ _ _ p.filled_kept q.filled_kept;
  }

  advanced-Progress :
      (now : Time) (callback : Callback D) (row : OrderLog D)
      → is_allowed callback row ≡ true
      → Progress row (advanced now callback row)
  unfolding is_allowed advanced
  advanced-Progress now callback row h =
      let (r, _, f) =
        transition_allowed (some row.status) callback.status (truthy_or_nought row.filled_qty)
          callback.filled_qty h in
      record {
        rank_kept = let u = current_status-upper callback.status in omega arith;
        final_kept = λ final. current_status-final callback.status (rw (f final) final) ∙ f final;
        filled_kept =
            ordered.le_trans _ _ _ (le-truthy_or_nought ordered row.filled_qty)
              (le-max_left ordered (truthy_or_nought row.filled_qty) callback.filled_qty);
      }

  Tracks-refl : (t : List (OrderLog D)) → Tracks t t
  Tracks-refl t k old e = (old, e, Progress-refl old)

  Tracks-trans : (a b c : List (OrderLog D)) → Tracks a b → Tracks b c → Tracks a c
  Tracks-trans a b c f g k old e =
      let (mid, e', p) = f k old e in
      let (new, e'', q) = g k mid e' in (new, e'', Progress-trans old mid new p q)

  put-Tracks :
      (t : List (OrderLog D)) (old new : OrderLog D)
      → order_at new.request_id t ≡ some old
      → Progress old new
      → Tracks t (put (λ r. r.request_id) new t)
  put-Tracks t old new found p k row e = elim (Bool-cases (str_eq k new.request_id)) [
    | inl s ↦
        let same : some old ≡ some row = sym found ∙ rw (str_eq→path k new.request_id s) at e in
        (
          new,
          row_at-put (λ r. r.request_id) k new t ∙ rw s refl,
          subst (λ o. Progress o new) (cc) p,
        )
    | inr s ↦ (row, row_at-put (λ r. r.request_id) k new t ∙ rw s e, Progress-refl row)
  ]

  append-Tracks : (t : List (OrderLog D)) (new : OrderLog D) → Tracks t (t ++ (new ∷ []))
  append-Tracks t new k old e =
      (old, row_at-append_some (λ r. r.request_id) k new old t e, Progress-refl old)

  module _ (env : CallbackEnv D) (now : Time) (callback : Callback D) where
    recorded-orders :
        (row : OrderLog D) (store : Store D) (r : Result (List (OrderFill D) × Positions D))
        → (recorded env now row store r).orders ≡ store.orders
    unfolding recorded
    recorded-orders row store (ok (fills, positions)) = refl
    recorded-orders row store (raised error) = refl

    measured-orders :
        (old row : OrderLog D) (changed : Bool) (store : Store D)
        → (measured env now old row changed store).orders ≡ store.orders
    unfolding measured
    measured-orders old row false store = refl
    measured-orders old row true store =
        recorded-orders row store (record_fill env now old row store)

    apply_allowed-Tracks :
        (row : OrderLog D) (store : Store D)
        → order_at row.request_id store.orders ≡ some row
        → is_allowed callback row ≡ true
        → Ensures (λ r. Tracks store.orders r.1.orders) (apply_allowed env now callback row store)
    unfolding apply_allowed
    apply_allowed-Tracks row store e h =
        let new = advanced now callback row in
        let key : new.request_id ≡ row.request_id = unfold advanced in refl in
        Ensures->>= (sync_cash_reservation false now new store.reservations) λ synced _. returns (
          rw measured-orders
            (put-Tracks store.orders row new (rw key e) (advanced-Progress now callback row h)))

    apply_to_row-Tracks :
        (row : OrderLog D) (store : Store D)
        → order_at row.request_id store.orders ≡ some row
        → Ensures (λ r. Tracks store.orders r.1.orders) (apply_to_row env now callback row store)
    unfolding apply_to_row
    apply_to_row-Tracks row store e = elim (Bool-cases (is_allowed callback row)) [
      | inl h ↦ rw h (apply_allowed-Tracks row store e h)
      | inr h ↦ rw h (returns (Tracks-refl store.orders))
    ]

    apply_found-Tracks :
        (store : Store D) (found : Option (OrderLog D))
        → order_at callback.request_id store.orders ≡ found
        → Ensures (λ r. Tracks store.orders r.1.orders) (apply_found env now callback store found)
    unfolding apply_found
    apply_found-Tracks store (some row) e =
        let key = key-row_at (λ r. r.request_id) callback.request_id store.orders row e in
        apply_to_row-Tracks row store (ap (λ k. order_at k store.orders) key ∙ e)
    apply_found-Tracks store none e =
        let row = inserted_row (env.new_id store.orders) callback in
        let key : row.request_id ≡ callback.request_id = unfold inserted_row in refl in
        let store' = record store { orders = store.orders ++ (row ∷ []) } in
        let stored =
          row_at-append (λ r. r.request_id) row.request_id row store.orders refl (rw key e) in
        Ensures-map
          (λ r tracks.
            Tracks-trans store.orders store'.orders r.1.orders (append-Tracks store.orders row)
              tracks)
          (apply_to_row-Tracks row store' stored)

    after :
        (store : Store D) (m : Result ((OrderLog D × Bool) × Store D))
        → Ensures (λ r. Tracks store.orders r.1.orders) m
        → Tracks store.orders (store_after store m).orders
    unfolding store_after
    after store (ok result) e = Ensures-ok e
    after store (raised error) e = Tracks-refl store.orders

    -- the same of the store after a call that may raise
    apply_callback-Tracks :
        (store : Store D)
        → Tracks store.orders (store_after store (apply_callback env now callback store)).orders
    unfolding apply_callback
    apply_callback-Tracks store =
        after store _ (apply_found-Tracks store (order_at callback.request_id store.orders) refl)

  -- Over any sequence of callbacks for any orders, in any order and with repetitions, each order of
  -- the ledger keeps its row: the rank of its status does not fall, a final status stays as it is, and
  -- its filled quantity does not fall. Numbers are in a total order.
  pub after_callbacks-Tracks :
      (env : CallbackEnv D) (now : Time) (callbacks : List (Callback D)) (store : Store D)
      → Tracks store.orders (after_callbacks env now callbacks store).orders
  unfolding after_callbacks
  after_callbacks-Tracks env now [] store = Tracks-refl store.orders
  after_callbacks-Tracks env now (callback ∷ rest) store =
      let store' = store_after store (apply_callback env now callback store) in
      Tracks-trans store.orders store'.orders _ (apply_callback-Tracks env now callback store)
        (after_callbacks-Tracks env now rest store')
