-- ===== src/Order/Reservation/Branches.antt =====
-- What one call of `sync_cash_reservation` leaves of its order, on every branch.
use trade_ai_server.Prelude.{
  ◌≡◌, refl, Bool, true, false, not, Option, none, some, List, inl, inr, Bool-cases, ◌∙◌, ap,
}
use trade_ai_server.Prelude.Int.{ℤ, pos}
use trade_ai_server.Prelude.Table.{put, row_at-put_at}
use trade_ai_server.Prelude.Result.{
  Result, ok, raised, Error, raise_if, ◌>>◌, ◌>>=◌, Ensures, Ensures->>=, Ensures-ok_of, returns,
  raises,
}
use trade_ai_server.Number.{Number, nought, max_of, or_value, truthy_or_nought}
use trade_ai_server.Order.Row.{OrderLog, Reservation, Time}
use trade_ai_server.Order.Reservation.{
  is_buy, is_released, is_open, money, ordered, reservation_price, remaining_order, ordered_qty,
  mirrored, row_status, release, release_row, write_row, mirror_row, sync_cash_reservation, Synced,
}
use trade_ai_server.Order.Reservation.Mirror.{reservation_of, mirrored-request_id, release_row_lem}

Ensures-raise_if {ℓ κ} :
    {A : Type ℓ} {P : A → Type κ} (b : Bool) (e : Error) (m : Result A)
    → (b ≡ false → Ensures P m)
    → Ensures P (raise_if b e >> m)
Ensures-raise_if true e m h = raises
Ensures-raise_if false e m h = h refl

module _ {D : Type 0} ⦃n : Number D⦄ where
  open n use {sub, mul, le, eq, whole, of_int, to_decimal}

  -- What is left of an order: its quantity less what is filled, and the first price that it has.
  pub record IsRemaining (row : OrderLog D) (q : ℤ) (price : D) : Type 0 where
    pub qty :
        q
        ≡ whole (
            max_of nought (
              sub
                (to_decimal (truthy_or_nought (ordered row)))
                (to_decimal (truthy_or_nought row.filled_qty))))
    pub integral :
        eq
          (max_of nought (
            sub
              (to_decimal (truthy_or_nought (ordered row)))
              (to_decimal (truthy_or_nought row.filled_qty))))
          (of_int q)
        ≡ true
    pub given : D
    pub is_given :
        or_value row.rounded_limit_price (or_value row.limit_price row.price) ≡ some given
    pub price_read : price ≡ to_decimal given
    pub price_positive : le price nought ≡ false

  money_lem : (value : D) → Ensures (λ v. v ≡ to_decimal value) (money value)
  unfolding money
  money_lem value = elim (Bool-cases (n.is_finite (to_decimal value))) [
    | inl e ↦ rw e (returns refl)
    | inr e ↦ rw e raises
  ]

  IsPrice : OrderLog D → D → Type 0
  IsPrice row price =
      (given : D) × (or_value row.rounded_limit_price (or_value row.limit_price row.price)
        ≡ some given)
      × (price ≡ to_decimal given)
      × (le price nought ≡ false)

  reservation_price-IsPrice : (row : OrderLog D) → Ensures (IsPrice row) (reservation_price row)
  unfolding reservation_price IsPrice
  reservation_price-IsPrice row =
      priced (or_value row.rounded_limit_price (or_value row.limit_price row.price)) refl
    where
      priced :
          (o : Option D)
          → or_value row.rounded_limit_price (or_value row.limit_price row.price) ≡ o
          → Ensures (IsPrice row) (reservation_price row)
      priced none e = rw (reservation_price, e) raises
      priced (some given) e =
          rw (reservation_price, e)
            (Ensures->>= (money given) λ price p.
              Ensures-raise_if (le price nought) _ (ok price)
                λ positive. returns (given, e, Ensures-ok_of (money_lem given) price p, positive))

  remaining_order-IsRemaining :
      (row : OrderLog D) → Ensures (λ (q, price). IsRemaining row q price) (remaining_order row)
  unfolding remaining_order IsPrice
  remaining_order-IsRemaining row = Ensures->>= (money (truthy_or_nought (ordered row))) λ o is_o.
      Ensures->>= (money (truthy_or_nought row.filled_qty)) λ f is_f.
        Ensures-raise_if _ _ _ λ integral. Ensures->>= (reservation_price row) λ price is_price.
          returns (
            remains o f price (Ensures-ok_of (money_lem (truthy_or_nought (ordered row))) o is_o)
              (Ensures-ok_of (money_lem (truthy_or_nought row.filled_qty)) f is_f)
              (not-false _ integral) (Ensures-ok_of (reservation_price-IsPrice row) price is_price))
    where
      not-false : (b : Bool) → not b ≡ false → b ≡ true
      not-false true h = refl
      not-false false h = absurd (cc)

      remains :
          (o f price : D)
          → o ≡ to_decimal (truthy_or_nought (ordered row))
          → f ≡ to_decimal (truthy_or_nought row.filled_qty)
          → eq (max_of nought (sub o f)) (of_int (whole (max_of nought (sub o f)))) ≡ true
          → IsPrice row price
          → IsRemaining row (whole (max_of nought (sub o f))) price
      remains o f price is_o is_f integral (given, is_given, read, positive) = record {
        qty =
            ap (λ x. whole (max_of nought (sub x f))) is_o
            ∙ ap (λ y. whole (max_of nought (sub (to_decimal (truthy_or_nought (ordered row))) y)))
                is_f;
        integral = rw (← is_o) (rw (← is_f) integral);
        given = given;
        is_given = is_given;
        price_read = read;
        price_positive = positive;
      }

  -- The reservation of an order that may still cost cash.
  pub record IsHolding (row : OrderLog D) (r : Reservation D) : Type 0 where
    pub status : r.status ≡ row_status row
    pub remaining : IsRemaining row r.remaining_qty r.limit_price
    pub amount : r.reserved_amount_tl ≡ mul (of_int r.remaining_qty) r.limit_price
    pub not_released : r.released_at ≡ none

  -- A reservation that is released: it holds nothing, and keeps what was reserved and at what price.
  pub record IsFreed (row : OrderLog D) (now : Time) (old new : Reservation D) : Type 0 where
    pub status : new.status ≡ row_status row
    pub remaining_qty : new.remaining_qty ≡ pos 0
    pub reserved_amount_tl : new.reserved_amount_tl ≡ nought
    pub released_at : new.released_at ≡ some now
    pub reserved_qty : new.reserved_qty ≡ old.reserved_qty
    pub limit_price : new.limit_price ≡ old.limit_price

  -- What a call that does not raise may do to the reservation of its order, by the side and the status of the order.
  pub data IsMirrored (strict : Bool) (now : Time) (row : OrderLog D) (t : List (Reservation D))
      : List (Reservation D) → Type 0 where
    other_side : is_buy row ≡ false → IsMirrored strict now row t t
    none_to_free :
        is_buy row ≡ true
        → is_released (row_status row) ≡ true
        → reservation_of row.request_id t ≡ none
        → IsMirrored strict now row t t
    freed :
        {t' : List (Reservation D)} (old new : Reservation D)
        → is_buy row ≡ true
        → is_released (row_status row) ≡ true
        → reservation_of row.request_id t ≡ some old
        → reservation_of row.request_id t' ≡ some new
        → IsFreed row now old new
        → IsMirrored strict now row t t'
    other_status :
        is_buy row ≡ true
        → is_released (row_status row) ≡ false
        → is_open (row_status row) ≡ false
        → IsMirrored strict now row t t
    unreadable :
        is_buy row ≡ true
        → is_released (row_status row) ≡ false
        → is_open (row_status row) ≡ true
        → strict ≡ false
        → (e : Error) → remaining_order row ≡ raised e
        → IsMirrored strict now row t t
    held :
        {t' : List (Reservation D)} (r : Reservation D)
        → is_buy row ≡ true
        → is_released (row_status row) ≡ false
        → is_open (row_status row) ≡ true
        → reservation_of row.request_id t' ≡ some r
        → IsHolding row r
        → IsMirrored strict now row t t'

  -- What a call gives: a table, or an exception, which it raises only for an open BUY order of which
  -- what is left cannot be read, if it is strict, or whose quantity cannot.
  pub data Mirrors (strict : Bool) (now : Time) (row : OrderLog D) (t : List (Reservation D))
      : Result (Synced D) → Type 0 where
    answers : {s : Synced D} → IsMirrored strict now row t s.1 → Mirrors strict now row t (ok s)
    refuses :
        {e : Error}
        → is_buy row ≡ true
        → is_released (row_status row) ≡ false
        → is_open (row_status row) ≡ true
        → strict ≡ true
        → remaining_order row ≡ raised e
        → Mirrors strict now row t (raised e)
    misreads :
        {e : Error}
        → is_buy row ≡ true
        → is_released (row_status row) ≡ false
        → is_open (row_status row) ≡ true
        → ordered_qty row ≡ raised e
        → Mirrors strict now row t (raised e)

  mirrored-IsHolding :
      (now : Time) (row : OrderLog D) (o q : ℤ) (price : D) (existing : Option (Reservation D))
      → IsRemaining row q price
      → IsHolding row (mirrored now row (row_status row) o q price existing)
  unfolding mirrored
  mirrored-IsHolding now row o q price none h = record {
    status = refl;
    remaining = h;
    amount = refl;
    not_released = refl;
  }
  mirrored-IsHolding now row o q price (some e) h = record {
    status = refl;
    remaining = h;
    amount = refl;
    not_released = refl;
  }

  module _ (strict : Bool) (now : Time) (row : OrderLog D) (t : List (Reservation D))
      (buy : is_buy row ≡ true) where
    release_row-IsMirrored :
        (existing : Option (Reservation D))
        → is_released (row_status row) ≡ true
        → reservation_of row.request_id t ≡ existing
        → IsMirrored strict now row t (release_row (row_status row) now existing t).1
    unfolding release_row
    release_row-IsMirrored none final e = none_to_free buy final e
    release_row-IsMirrored (some old) final e =
        freed old (release (row_status row) now old) buy final e
          (release_row_lem row.request_id (row_status row) now (some old) t e)
          (unfold release in
            record {
              status = refl;
              remaining_qty = refl;
              reserved_amount_tl = refl;
              released_at = refl;
              reserved_qty = refl;
              limit_price = refl;
            })

    mirror_row-Mirrors :
        (b : Bool) (existing : Option (Reservation D)) (remaining : Result (ℤ × D))
        → strict ≡ b
        → is_released (row_status row) ≡ false
        → is_open (row_status row) ≡ true
        → reservation_of row.request_id t ≡ existing
        → remaining_order row ≡ remaining
        → Mirrors strict now row t (mirror_row b now row (row_status row) existing t remaining)
    unfolding mirror_row write_row
    mirror_row-Mirrors true existing (raised e) same live opened h k =
        refuses buy live opened same k
    mirror_row-Mirrors false existing (raised e) same live opened h k =
        answers (unreadable buy live opened same e k)
    mirror_row-Mirrors b existing (ok (q, price)) same live opened h k =
        written (ordered_qty row) refl
      where
        row_of : ℤ → Reservation D
        row_of o = mirrored now row (row_status row) o q price existing

        written :
            (m : Result ℤ)
            → ordered_qty row ≡ m
            → Mirrors strict now row t
                (m >>= λ o. ok (some (row_of o), put (λ x. x.request_id) (row_of o) t))
        written (raised e) l = misreads buy live opened l
        written (ok o) l = answers (
            held (row_of o) buy live opened
              (row_at-put_at (λ x. x.request_id) row.request_id (row_of o) t
                (mirrored-request_id now row (row_status row) o q price existing t h))
              (mirrored-IsHolding now row o q price existing
                (Ensures-ok_of (remaining_order-IsRemaining row) (q, price) k)))

  -- A call raises only for an open BUY order of which what is left cannot be read, if it is strict, or
  -- whose quantity cannot. A call that does not raise leaves the table as it is if the order is not a BUY, if its status neither releases cash nor holds it, if it has nothing to
  -- release, or, not strict, if what is left of it cannot be read. A final status releases the
  -- reservation, which then holds quantity 0 and amount 0. An open one leaves a reservation of the
  -- quantity that is not filled yet, at the first price of the order, positive, with their product as
  -- its amount.
  pub sync-Mirrors :
      (strict : Bool) (now : Time) (row : OrderLog D) (t : List (Reservation D))
      → Mirrors strict now row t (sync_cash_reservation strict now row t)
  unfolding sync_cash_reservation
  sync-Mirrors strict now row t = elim (Bool-cases (is_buy row)) [
    | inr other ↦ rw other (answers (other_side other))
    | inl buy ↦ rw buy (elim (Bool-cases (is_released (row_status row))) [
      | inl final ↦ rw final (answers (release_row-IsMirrored strict now row t buy _ final refl))
      | inr live ↦ rw live (elim (Bool-cases (is_open (row_status row))) [
        | inr odd ↦ rw odd (answers (other_status buy live odd))
        | inl opened ↦ rw opened (
            mirror_row-Mirrors strict now row t buy strict _ (remaining_order row) refl live opened
              refl refl)
      ])
    ])
  ]
