-- ===== src/Order/Reservation/Mirror.antt =====
-- What one call of `sync_cash_reservation` does to the table of reservations.
use mathlib.Core.Option
use trade_ai_server.Prelude.{
  ◌≡◌, refl, ◌≢◌, ◌∙◌, Bool, true, false, Option, none, some, List, String, inl, inr, Bool-cases,
}
use trade_ai_server.Prelude.Int.{ℤ}
use trade_ai_server.Prelude.Table.{row_at, key-row_at, put, row_at-put_at, row_at-put_ne}
use trade_ai_server.Prelude.Result.{Result, ok, raised, Ensures, Ensures->>=, returns, raises}
use trade_ai_server.Number.{Number}
use trade_ai_server.Order.Row.{OrderLog, Reservation, Time}
use trade_ai_server.Order.Reservation.{
  is_buy, is_released, is_open, remaining_order, ordered_qty, mirrored, row_status, release,
  release_row, mirror_row, sync_cash_reservation, Synced,
}

module _ {D : Type 0} where
  -- the reservation of a request
  abbrev pub reservation_of : String → List (Reservation D) → Option (Reservation D)
  reservation_of k t = row_at (λ r. r.request_id) k t

  -- One row was written, under this request, or none.
  pub data Updates (k : String) (t t' : List (Reservation D)) : Type 0 where
    same : t' ≡ t → Updates k t t'
    written :
        (r : Reservation D) → r.request_id ≡ k → t' ≡ put (λ x. x.request_id) r t → Updates k t t'

  pub Updates-others :
      {k : String} {t t' : List (Reservation D)} (j : String)
      → Updates k t t'
      → j ≢ k
      → reservation_of j t' ≡ reservation_of j t
  Updates-others j (same e) ne = rw e
  Updates-others j (written r key e) ne =
      rw e (row_at-put_ne (λ x. x.request_id) j r _ (λ p. ne (p ∙ key)))

  pub reservation_of-key :
      (k : String) (t : List (Reservation D)) (r : Reservation D)
      → reservation_of k t ≡ some r
      → r.request_id ≡ k
  reservation_of-key k t r h = key-row_at (λ x. x.request_id) k t r h

module _ {D : Type 0} ⦃n : Number D⦄ where
  open n use {mul, of_int}

  pub mirrored-request_id :
      (now : Time) (row : OrderLog D) (status : String) (o q : ℤ) (price : D)
      (existing : Option (Reservation D)) (t : List (Reservation D))
      → reservation_of row.request_id t ≡ existing
      → (mirrored now row status o q price existing).request_id ≡ row.request_id
  unfolding mirrored
  mirrored-request_id now row status o q price none t h = refl
  mirrored-request_id now row status o q price (some e) t h =
      reservation_of-key row.request_id t e h

  release_row-Updates :
      (k status : String) (now : Time) (existing : Option (Reservation D))
      (t : List (Reservation D))
      → reservation_of k t ≡ existing
      → Updates k t (release_row status now existing t).1
  unfolding release_row
  release_row-Updates k status now none t h = same refl
  release_row-Updates k status now (some e) t h =
      written (release status now e) (unfold release in reservation_of-key k t e h) refl

  mirror_row-Updates :
      (strict : Bool) (now : Time) (row : OrderLog D) (status : String)
      (existing : Option (Reservation D)) (t : List (Reservation D)) (remaining : Result (ℤ × D))
      → reservation_of row.request_id t ≡ existing
      → Ensures
          (λ s. Updates row.request_id t s.1)
          (mirror_row strict now row status existing t remaining)
  unfolding mirror_row
  mirror_row-Updates true now row status existing t (raised e) h = raises
  mirror_row-Updates false now row status existing t (raised e) h = returns (same refl)
  mirror_row-Updates strict now row status existing t (ok (q, price)) h =
      Ensures->>= (ordered_qty row) (λ o _.
        returns (written _ (mirrored-request_id now row status o q price existing t h) refl))

  -- A call writes at most the reservation of its own request, on every branch.
  pub sync-Updates :
      (strict : Bool) (now : Time) (row : OrderLog D) (t : List (Reservation D))
      → Ensures (λ s. Updates row.request_id t s.1) (sync_cash_reservation strict now row t)
  unfolding sync_cash_reservation
  sync-Updates strict now row t = elim (Bool-cases (is_buy row)) [
    | inr other ↦ rw other (returns (same refl))
    | inl buy ↦ rw buy (elim (Bool-cases (is_released (row_status row))) [
      | inl final ↦
          rw final (returns (release_row-Updates row.request_id (row_status row) now _ t refl))
      | inr live ↦ rw live (elim (Bool-cases (is_open (row_status row))) [
        | inr odd ↦ rw odd (returns (same refl))
        | inl held ↦
            rw held
              (mirror_row-Updates strict now row (row_status row) _ t (remaining_order row) refl)
      ])
    ])
  ]

  -- The reservation holds exactly what the order may still cost.
  pub record Holds (row : OrderLog D) (r : Reservation D) : Type 0 where
    pub status_kept : r.status ≡ row_status row
    pub remaining_kept : remaining_order row ≡ ok (r.remaining_qty, r.limit_price)
    pub amount_exact : r.reserved_amount_tl ≡ mul (of_int r.remaining_qty) r.limit_price

  mirrored-Holds :
      (now : Time) (row : OrderLog D) (o q : ℤ) (price : D) (existing : Option (Reservation D))
      → remaining_order row ≡ ok (q, price)
      → Holds row (mirrored now row (row_status row) o q price existing)
  unfolding mirrored
  mirrored-Holds now row o q price none h = record {
    status_kept = refl;
    remaining_kept = h;
    amount_exact = refl;
  }
  mirrored-Holds now row o q price (some e) h = record {
    status_kept = refl;
    remaining_kept = h;
    amount_exact = refl;
  }

  -- What a table says of the row after a call that did not raise.
  abbrev pub IsHeld : OrderLog D → Synced D → Type 0
  IsHeld row s = (r : Reservation D) × (reservation_of row.request_id s.1 ≡ some r) × Holds row r

  mirror_row-IsHeld :
      (now : Time) (row : OrderLog D) (existing : Option (Reservation D)) (t : List (Reservation D))
      (remaining : Result (ℤ × D))
      → reservation_of row.request_id t ≡ existing
      → remaining_order row ≡ remaining
      → Ensures (IsHeld row) (mirror_row true now row (row_status row) existing t remaining)
  unfolding mirror_row
  mirror_row-IsHeld now row existing t (raised e) h e' = raises
  mirror_row-IsHeld now row existing t (ok (q, price)) h e' = Ensures->>= (ordered_qty row) λ o _.
      let r = mirrored now row (row_status row) o q price existing in
      let key = mirrored-request_id now row (row_status row) o q price existing t h in
      returns (
        r,
        row_at-put_at (λ x. x.request_id) row.request_id r t key,
        mirrored-Holds now row o q price existing e',
      )

  -- A strict call on a BUY order with an open status raises, or leaves a reservation of its request
  -- that has the order's status, its remaining quantity and price, and their product as its amount.
  pub sync-IsHeld :
      (now : Time) (row : OrderLog D) (t : List (Reservation D))
      → is_buy row ≡ true
      → is_released (row_status row) ≡ false
      → is_open (row_status row) ≡ true
      → Ensures (IsHeld row) (sync_cash_reservation true now row t)
  unfolding sync_cash_reservation
  sync-IsHeld now row t buy live held =
      rw buy (rw live (rw held (mirror_row-IsHeld now row _ t (remaining_order row) refl refl)))

  -- The reservation after a release.
  pub release_row_lem :
      (k status : String) (now : Time) (existing : Option (Reservation D))
      (t : List (Reservation D))
      → reservation_of k t ≡ existing
      → reservation_of k (release_row status now existing t).1
        ≡ Option.map (release status now) existing
  unfolding release_row
  release_row_lem k status now none t h = h
  release_row_lem k status now (some e) t h =
      row_at-put_at (λ x. x.request_id) k (release status now e) t
        (unfold release in reservation_of-key k t e h)
