-- ===== src/Order/Reservation/Total.antt =====
-- The total of reserved cash covers every open BUY order that the filters select, at its exact
-- amount.
use mathlib.Core.Option
use trade_ai_server.Prelude.{
  ◌≡◌, refl, Bool, true, false, ◌&&◌, Option, none, some, List, [], ◌∷◌, String, arith, All,
  All-both, All-of_select, select-All, select, ◌∙◌, not, and_true,
}
use trade_ai_server.Prelude.Text.{str_eq, upper, strip, member, member-every, str_eq→path}
use trade_ai_server.Prelude.Table.{Distinct-row_at, Distinct, Fresh, Distinct-select}
use trade_ai_server.Prelude.Result.{
  ok, Ensures, returns, Ensures->>=, Ensures-map, Ensures-both, Ensures-ok_of,
}
use trade_ai_server.Number.{Number}
use trade_ai_server.Order.Row.{OrderLog, Reservation, Time}
use trade_ai_server.Order.Reservation.{
  active_states, pending_states, is_buy, is_released, is_open, row_status, sync_cash_reservation,
}
use trade_ai_server.Order.Reservation.Mirror.{
  reservation_of, reservation_of-key, Updates-others, Holds, sync-Updates, sync-IsHeld,
}
use trade_ai_server.Order.Reservation.Cash.{
  check_ref, check_owned, is_pending_buy, is_active, order_of, is_open_row, is_counted, sync_rows,
  total_of, calculate_backend_reserved_cash,
}

-- a ledger status that counts as pending is open for reservations, and releases none
abbrev is_live : String → Bool
is_live s = not (is_released (upper s)) && (is_open (upper s) && not (str_eq s ""))

pending-is_live : (s : String) → member s pending_states ≡ true → is_live s ≡ true
unfolding is_released is_open upper
pending-is_live s h = member-every is_live s pending_states refl h

active_status : String → Bool
active_status s = member (upper s) active_states

pending-active_status : (s : String) → member s pending_states ≡ true → active_status s ≡ true
unfolding active_status upper
pending-active_status s h = member-every active_status s pending_states refl h

pending-named : (s : String) → member s pending_states ≡ true → str_eq s "" ≡ false
pending-named s h = ground (arith, member-every (λ w. not (str_eq w "")) s pending_states refl h)

module _ {D : Type 0} ⦃n : Number D⦄ where
  -- An order that the ledger has as pending is live for the reservations too.
  pub record IsLive (row : OrderLog D) : Type 0 where
    pub bought : is_buy row ≡ true
    pub not_released : is_released (row_status row) ≡ false
    pub held_open : is_open (row_status row) ≡ true

  pending-IsLive : (row : OrderLog D) → is_pending_buy row ≡ true → IsLive row
  unfolding is_pending_buy is_buy row_status
  pending-IsLive row h =
      let (buy, pending) =
        and_true (str_eq row.action "BUY") (member row.status pending_states) h in
      let live : is_live row.status ≡ true = pending-is_live row.status pending in
      record {
        bought = rw (str_eq→path row.action "BUY" buy) (unfold upper in refl);
        not_released = ground arith;
        held_open = ground arith;
      }

  -- the row's reservation in a table
  abbrev pub Covered : List (Reservation D) → OrderLog D → Type 0
  Covered t row = (r : Reservation D) × (reservation_of row.request_id t ≡ some r) × Holds row r

  sync_rows-others :
      (now : Time) (k : String) (rows : List (OrderLog D)) (t : List (Reservation D))
      → Fresh (λ o. o.request_id) k rows
      → Ensures (λ t'. reservation_of k t' ≡ reservation_of k t) (sync_rows now rows t)
  unfolding sync_rows
  sync_rows-others now k [] t h = returns refl
  sync_rows-others now k (row ∷ rows) t h =
      Ensures->>= (sync_cash_reservation true now row t) λ s e.
        let kept = Updates-others k (Ensures-ok_of (sync-Updates true now row t) s e) h.0 in
        Ensures-map (λ t' same. same ∙ kept) (sync_rows-others now k rows s.1 h.1)

  sync_rows-Covered :
      (now : Time) (rows : List (OrderLog D)) (t : List (Reservation D))
      → Distinct (λ o. o.request_id) rows
      → All IsLive rows
      → Ensures (λ t'. All (Covered t') rows) (sync_rows now rows t)
  unfolding sync_rows
  sync_rows-Covered now [] t d live = returns tt
  sync_rows-Covered now (row ∷ rows) t d live =
      Ensures->>= (sync_cash_reservation true now row t) λ s e.
        let l = live.0 in
        let (r, at, holds) =
          Ensures-ok_of (sync-IsHeld now row t l.bought l.not_released l.held_open) s e in
        Ensures-both (λ t' kept covered. ((r, kept ∙ at, holds), covered))
          (sync_rows-others now row.request_id rows s.1 d.0)
          (sync_rows-Covered now rows s.1 d.1 live.1)

  open_row-IsLive :
      (ref : Option String) (symbol : String) (o : OrderLog D)
      → is_open_row ref symbol o ≡ true
      → IsLive o
  unfolding is_open_row
  open_row-IsLive none symbol o h = pending-IsLive o (and_true (is_pending_buy o) _ h).0
  open_row-IsLive (some ref) symbol o h = pending-IsLive o (and_true (is_pending_buy o) _ h).0

  pending-is_active :
      (o : OrderLog D) (r : Reservation D)
      → is_pending_buy o ≡ true
      → r.status ≡ row_status o
      → is_active r ≡ true
  unfolding is_pending_buy row_status is_active active_status
  pending-is_active o r h e =
      let (_, pending) = and_true (str_eq o.action "BUY") (member o.status pending_states) h in
      let named : str_eq o.status "" ≡ false = pending-named o.status pending in
      rw (e, named) (pending-active_status o.status pending)

  is_open_row-is_counted :
      (orders : List (OrderLog D)) (ref : Option String) (symbol : String) (o : OrderLog D)
      (r : Reservation D)
      → is_open_row ref symbol o ≡ true
      → order_of orders r ≡ some o
      → r.status ≡ row_status o
      → is_counted orders ref symbol r ≡ true
  unfolding is_open_row is_counted
  is_open_row-is_counted orders none symbol o r h e st =
      let (pending, passes) = and_true (is_pending_buy o) _ h in
      rw (pending-is_active o r pending st, e) passes
  is_open_row-is_counted orders (some ref) symbol o r h e st =
      let (pending, passes) = and_true (is_pending_buy o) _ h in
      rw (pending-is_active o r pending st, e) passes

  -- The order has a reservation, at its exact amount, which the total counts.
  abbrev pub IsCounted :
      List (OrderLog D) → Option String → String → List (Reservation D) → OrderLog D → Type 0
  IsCounted orders ref symbol t o =
      (r : Reservation D) × (reservation_of o.request_id t ≡ some r)
      × Holds o r
      × (is_counted orders ref symbol r ≡ true)

  sync_rows-IsCounted :
      (now : Time) (ref : Option String) (symbol : String) (orders : List (OrderLog D))
      (t : List (Reservation D))
      → Distinct (λ o. o.request_id) orders
      → Ensures
          (λ t'.
            All (λ o. is_open_row ref symbol o ≡ true → IsCounted orders ref symbol t' o) orders)
          (sync_rows now (select (is_open_row ref symbol) orders) t)
  sync_rows-IsCounted now ref symbol orders t d =
      Ensures-map
        (λ t' covered.
          All-both _ _ _ orders
            (λ o at c open_row.
              let (r, found, holds) = c open_row in
              (
                r,
                found,
                holds,
                is_open_row-is_counted orders ref symbol o r open_row
                    (unfold order_of in rw (reservation_of-key o.request_id t' r found) at)
                    holds.status_kept,
              ))
            (Distinct-row_at (λ o. o.request_id) orders d)
            (All-of_select (Covered t') (is_open_row ref symbol) orders covered))
        (sync_rows-Covered now (select (is_open_row ref symbol) orders) t
          (Distinct-select (λ o. o.request_id) (is_open_row ref symbol) orders d)
          (select-All IsLive (is_open_row ref symbol) orders (open_row-IsLive ref symbol)))

  -- If no two orders have the same request id, a total that is returned is the sum over the
  -- reservations that the filters count, and each open BUY order that they select is among these
  -- with exactly what it may still cost.
  pub reserved_cash_covers :
      (account_ref : Option String) (symbol : String) (now : Time) (orders : List (OrderLog D))
      (t : List (Reservation D))
      → Distinct (λ o. o.request_id) orders
      → let ref = Option.map strip account_ref in
        let symbol' = upper (strip symbol) in
        Ensures
          (λ (total, t').
            (total_of (select (is_counted orders ref symbol') t') ≡ ok total)
            × All
                (λ o. is_open_row ref symbol' o ≡ true → IsCounted orders ref symbol' t' o)
                orders)
          (calculate_backend_reserved_cash account_ref symbol now orders t)
  unfolding calculate_backend_reserved_cash
  reserved_cash_covers account_ref symbol now orders t d =
      let ref = Option.map strip account_ref in
      let symbol' = upper (strip symbol) in
      Ensures->>= (check_ref account_ref ref) λ _ _.
        Ensures->>= (check_owned account_ref orders t) λ _ _.
          Ensures->>= (sync_rows now (select (is_open_row ref symbol') orders) t) λ t' e.
            Ensures->>= (total_of (select (is_counted orders ref symbol') t')) λ total e'.
              returns (e', Ensures-ok_of (sync_rows-IsCounted now ref symbol' orders t d) t' e)
