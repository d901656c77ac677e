-- ===== src/Fill/Delta.antt =====
-- What `record_fill_delta` adds to the fills of an order.
use trade_ai_server.Prelude.{
  ◌≡◌, false, Option, none, some, List, [], ◌∷◌, ◌++◌, String, refl, Bool-cases, inl, inr,
  Option-cases,
}
use trade_ai_server.Prelude.Text.{upper}
use trade_ai_server.Prelude.Table.{row_at, Distinct, Distinct-append}
use trade_ai_server.Number.{Number, nought}
use trade_ai_server.Order.Row.{OrderLog, Time}
use trade_ai_server.Fill.{OrderFill, FeeConfig}
use trade_ai_server.Fill.Ledger.{
  FillDelta, is_side, delta_fill_price, priced_delta, read_delta, fill_delta, insert_unless,
  insert_fill_if_new, new_fill, record_fill_delta,
}

module _ {D : Type 0} ⦃n : Number D⦄ where
  open n use {le, mul, sub}

  -- What a call leaves: the fills as they were, or one more.
  pub data Outcome (fills : List (OrderFill D))
      : Option (OrderFill D) × List (OrderFill D) → Type 0 where
    unchanged : Outcome fills (none, fills)
    added :
        {fill : OrderFill D}
        → row_at (λ f. f.fill_event_key) fill.fill_event_key fills ≡ none
        → le fill.fill_qty nought ≡ false
        → le fill.fill_price nought ≡ false
        → fill.gross_value_tl ≡ mul fill.fill_qty fill.fill_price
        → Outcome fills (some fill, fills ++ (fill ∷ []))

  -- A delta is of a positive quantity at a positive price.
  abbrev IsPositive : Option (FillDelta D) → Type 0
  IsPositive none = Unit
  IsPositive (some d) = (le d.delta_qty nought ≡ false) × (le d.delta_price nought ≡ false)

  priced_delta-IsPositive :
      (old_qty : D) (old_price : Option D) (new_qty new_price : D)
      → le (sub new_qty old_qty) nought ≡ false
      → IsPositive (priced_delta old_qty old_price new_qty new_price)
  unfolding priced_delta
  priced_delta-IsPositive old_qty old_price new_qty new_price h =
      let price = delta_fill_price old_qty old_price new_qty new_price (sub new_qty old_qty) in
      elim (Bool-cases (le new_price nought)) [
        | inl e ↦ rw e tt
        | inr e ↦
            rw e (elim (Bool-cases (le price nought)) [ inl f ↦ rw f tt | inr f ↦ rw f (h, f) ])
      ]

  read_delta-IsPositive :
      (old_qty : D) (old_price new_qty new_price : Option D)
      → IsPositive (read_delta old_qty old_price new_qty new_price)
  unfolding read_delta
  read_delta-IsPositive old_qty old_price none new_price = tt
  read_delta-IsPositive old_qty old_price (some new_qty) none = tt
  read_delta-IsPositive old_qty old_price (some new_qty) (some new_price) =
      elim (Bool-cases (le (sub new_qty old_qty) nought)) [
        | inl e ↦ rw e tt
        | inr e ↦ rw e (priced_delta-IsPositive old_qty old_price new_qty new_price e)
      ]

  insert_unless-Outcome :
      (found : Option (OrderFill D)) (fill : OrderFill D) (fills : List (OrderFill D))
      → row_at (λ f. f.fill_event_key) fill.fill_event_key fills ≡ found
      → le fill.fill_qty nought ≡ false
      → le fill.fill_price nought ≡ false
      → fill.gross_value_tl ≡ mul fill.fill_qty fill.fill_price
      → Outcome fills (insert_unless found fill fills)
  unfolding insert_unless
  insert_unless-Outcome none fill fills e q p g = added e q p g
  insert_unless-Outcome (some other) fill fills e q p g = unchanged

  -- The keys of the fills stay distinct.
  pub Outcome-Distinct :
      (fills : List (OrderFill D)) (result : Option (OrderFill D) × List (OrderFill D))
      → Outcome fills result
      → Distinct (λ f. f.fill_event_key) fills
      → Distinct (λ f. f.fill_event_key) result.1
  Outcome-Distinct fills _ unchanged d = d
  Outcome-Distinct fills _ (added {fill} e _ _ _) d =
      Distinct-append (λ f. f.fill_event_key) fill fills e d

module _ {D : Type 0} ⦃n : Number D⦄ (sha256 : String → String) (fees : FeeConfig D) where
  recorded-Outcome :
      (row : OrderLog D) (old_filled old_avg new_filled new_avg limit_price : Option D)
      (order_id : Option String) (filled_at : Time) (fills : List (OrderFill D))
      → Outcome fills (
          record_fill_delta sha256 fees row old_filled old_avg new_filled new_avg limit_price
            order_id filled_at fills)
  unfolding record_fill_delta new_fill
  recorded-Outcome row old_filled old_avg new_filled new_avg limit_price order_id filled_at fills =
      let good : IsPositive (fill_delta old_filled old_avg new_filled new_avg) =
        unfold fill_delta in read_delta-IsPositive {D = D} _ _ _ _ in
      elim (Bool-cases (is_side (upper row.action))) [
        | inr e ↦ rw e unchanged
        | inl e ↦ rw e (elim (Option-cases (fill_delta old_filled old_avg new_filled new_avg)) [
          | inl f ↦ rw f unchanged
          | inr (d, f) ↦
              let pos : IsPositive (some d) = rw f at good in
              rw f
                (unfold insert_fill_if_new in insert_unless-Outcome _ _ fills refl pos.0 pos.1 refl)
        ])
      ]

  -- Whatever a callback reports, `record_fill_delta` leaves the fills as they were or adds one at the
  -- end: its key was not in use, its quantity and its price are positive, and its gross value is
  -- their product. So distinct keys stay distinct.
  pub record_fill_delta-Outcome :
      (row : OrderLog D) (old_filled old_avg new_filled new_avg limit_price : Option D)
      (order_id : Option String) (filled_at : Time) (fills : List (OrderFill D))
      → let result =
          record_fill_delta sha256 fees row old_filled old_avg new_filled new_avg limit_price
            order_id filled_at fills in
        Outcome fills result
        × (Distinct (λ f. f.fill_event_key) fills → Distinct (λ f. f.fill_event_key) result.1)
  record_fill_delta-Outcome row old_filled old_avg new_filled new_avg limit_price order_id filled_at
        fills =
      let outcome =
        recorded-Outcome row old_filled old_avg new_filled new_avg limit_price order_id filled_at
          fills in
      (outcome, Outcome-Distinct fills _ outcome)
