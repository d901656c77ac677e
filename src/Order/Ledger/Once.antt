-- ===== src/Order/Ledger/Once.antt =====
-- An order is sent at most once: what `reserve_order` lets pass is new.
use trade_ai_server.Prelude.{
  ℕ, ◌≡◌, true, false, Option, none, some, List, [], ◌∷◌, String, refl, select,
}
use trade_ai_server.Prelude.Text.{upper, strip}
use trade_ai_server.Prelude.Table.{row_at-append}
use trade_ai_server.Prelude.Result.{ok, Ensures, returns, Ensures->>=}
use trade_ai_server.Number.{Number}
use trade_ai_server.Order.Row.{OrderLog, Time}
use trade_ai_server.Order.Ledger.{
  Outside, OrderRequest, Reserved, order_at, is_pending_of, one_or_none, inserted, repeated,
  reserved_row, reserve_new, reserve_at, check_request, reserve_order,
}

module _ {D : Type 0} ⦃n : Number D⦄ (env : Outside D) (now : Time) (request : OrderRequest D) where
  -- What is known of an order that may be sent.
  pub record IsNew (table : List (OrderLog D)) (result : Reserved D × List (OrderLog D))
      : Type 0 where
    pub was_absent : order_at (strip request.request_id) table ≡ none
    pub none_pending :
        select (is_pending_of (upper (strip request.symbol)) (upper (strip request.side))) table
        ≡ []
    pub is_stored : order_at (strip request.request_id) result.1 ≡ some result.0.row
    pub new_id : ℕ
    pub is_reserved : result.0.row ≡ reserved_row env now request (strip request.request_id) new_id

  one_or_none-none : (rows : List (OrderLog D)) → one_or_none rows ≡ ok none → rows ≡ []
  unfolding one_or_none
  one_or_none-none [] h = refl
  one_or_none-none (row ∷ []) h = absurd (cc)
  one_or_none-none (row ∷ other ∷ rows) h = absurd (cc)

  abbrev MaySend : List (OrderLog D) → Reserved D × List (OrderLog D) → Type 0
  MaySend table result = result.0.may_send ≡ true → IsNew table result

  inserted-stored :
      (id : String) (table : List (OrderLog D)) (found : Option (OrderLog D))
      → order_at id table ≡ found
      → (inserted env now request id table found).0.may_send ≡ true
      → (order_at id (inserted env now request id table found).1
          ≡ some (inserted env now request id table found).0.row)
        × ((new : ℕ) × ((inserted env now request id table found).0.row
              ≡ reserved_row env now request id new))
  unfolding inserted repeated
  inserted-stored id table (some row) e h = absurd (cc)
  inserted-stored id table none e h = (
    row_at-append (λ row. row.request_id) id (reserved_row env now request id (env.new_id table))
        table (unfold reserved_row in refl) e,
    (env.new_id table, refl),
  )

  reserve_new-MaySend :
      (table : List (OrderLog D)) (pending : Option (OrderLog D))
      → order_at (strip request.request_id) table ≡ none
      → (pending ≡ none
          → select (is_pending_of (upper (strip request.symbol)) (upper (strip request.side))) table
            ≡ [])
      → MaySend table (reserve_new env now request (strip request.request_id) table pending)
  unfolding reserve_new
  reserve_new-MaySend table (some row) e free h = absurd (cc)
  reserve_new-MaySend table none e free h =
      let stored = inserted-stored (strip request.request_id) (env.committed table) _ refl h in
      record {
        was_absent = e;
        none_pending = free refl;
        is_stored = stored.0;
        new_id = stored.1.0;
        is_reserved = stored.1.1;
      }

  reserve_at-MaySend :
      (table : List (OrderLog D)) (found : Option (OrderLog D))
      → order_at (strip request.request_id) table ≡ found
      → Ensures (MaySend table) (reserve_at env now request (strip request.request_id) table found)
  unfolding reserve_at repeated
  reserve_at-MaySend table (some row) e = returns (λ h. absurd (cc))
  reserve_at-MaySend table none e =
      let pending =
        select (is_pending_of (upper (strip request.symbol)) (upper (strip request.side))) table in
      Ensures->>= (one_or_none pending) λ found p.
        returns (
          reserve_new-MaySend table found e (λ missing. one_or_none-none pending (rw missing at p)))

  -- If `reserve_order` lets an order be sent, its request had no row before, no order of the same
  -- symbol and side was pending, and the row that `reserve_order` builds for it, with the status
  -- RESERVED, is in the ledger afterwards, whatever other transactions have committed meanwhile.
  pub reserve_order-MaySend :
      (table : List (OrderLog D))
      → Ensures
          (λ result. result.0.may_send ≡ true → IsNew table result)
          (reserve_order env now request table)
  unfolding reserve_order
  reserve_order-MaySend table =
      Ensures->>= (check_request request) λ _ _. reserve_at-MaySend table _ refl

  reserve_at-repeated :
      (table : List (OrderLog D)) (row : OrderLog D)
      → Ensures
          (λ result. result.0.may_send ≡ false × result.1 ≡ table)
          (reserve_at env now request (strip request.request_id) table (some row))
  unfolding reserve_at repeated
  reserve_at-repeated table row = returns (refl, refl)

  -- A request that has a row is refused, and the ledger is left as it is.
  pub reserve_order-repeated :
      (table : List (OrderLog D)) (row : OrderLog D)
      → order_at (strip request.request_id) table ≡ some row
      → Ensures
          (λ result. result.0.may_send ≡ false × result.1 ≡ table)
          (reserve_order env now request table)
  unfolding reserve_order
  reserve_order-repeated table row e =
      Ensures->>= (check_request request) λ _ _. rw e (reserve_at-repeated table row)
