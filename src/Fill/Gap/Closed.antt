-- ===== src/Fill/Gap/Closed.antt =====
-- A gap that is recorded is closed.
use trade_ai_server.Prelude.{
  ◌≡◌, ◌∙◌, refl, ap, true, false, Option, none, some, List, [], ◌∷◌, ◌++◌, String, inl, inr, arith,
  Bool-cases, or_else, ◌==◌,
}
use trade_ai_server.Prelude.Text.{upper}
use trade_ai_server.Prelude.Table.{row_at}
use trade_ai_server.Number.{Number, nought, truthy_or_nought}
use trade_ai_server.Number.Laws.{IsOrdered, IsExact, IsDecimal, le-truthy_or_nought}
use trade_ai_server.Order.Row.{OrderLog, Time}
use trade_ai_server.Fill.{OrderFill, FeeConfig, to_decimal}
use trade_ai_server.Fill.Ledger.{is_side, insert_unless, insert_fill_if_new, new_fill}
use trade_ai_server.Fill.Gap.{
  MissingFill, sum_fills, fills_of, recorded_qty, recorded_cost, priced_gap, gap_of,
  find_missing_fill_gap, reconciliation_fill, record_gap, record_reconciliation_fill,
}

module _ {D : Type 0} ⦃n : Number D⦄ where
  open n use {add, sub, lt, le}

  sum_fills-append :
      (amount : OrderFill D → D) (acc : D) (fills : List (OrderFill D)) (fill : OrderFill D)
      → sum_fills amount acc (fills ++ (fill ∷ [])) ≡ add (sum_fills amount acc fills) (amount fill)
  unfolding sum_fills
  sum_fills-append amount acc [] fill = refl
  sum_fills-append amount acc (f ∷ fills) fill =
      sum_fills-append amount (add acc (amount f)) fills fill

  fills_of-append :
      (row : OrderLog D) (fills : List (OrderFill D)) (fill : OrderFill D)
      → (fill.order_log_id == row.id) ≡ true
      → fills_of row (fills ++ (fill ∷ [])) ≡ fills_of row fills ++ (fill ∷ [])
  unfolding fills_of
  fills_of-append row [] fill h = rw h refl
  fills_of-append row (f ∷ fills) fill h = elim (Bool-cases (f.order_log_id == row.id)) [
    | inl e ↦ rw e (ap (λ l. f ∷ l) (fills_of-append row fills fill h))
    | inr e ↦ rw e (fills_of-append row fills fill h)
  ]

  -- What a gap says of the quantities and of the price.
  pub record IsGap (row : OrderLog D) (fills : List (OrderFill D)) (gap : MissingFill D)
      : Type 0 where
    pub expected_qty : D
    pub expected_price : D
    pub is_expected_qty : to_decimal (some row.filled_qty) ≡ some expected_qty
    pub is_expected_price : to_decimal row.avg_price ≡ some expected_price
    pub qty : gap.qty ≡ sub expected_qty (recorded_qty row fills)
    pub some_qty : le gap.qty nought ≡ false
    pub positive_price : le gap.price nought ≡ false
    pub not_high : lt (n.mul expected_price (n.literal 10 0)) gap.price ≡ false
    pub not_low : lt gap.price (n.mul expected_price (n.literal 1 1)) ≡ false
    pub cost :
        gap.price
        ≡ n.div (sub (n.mul expected_price expected_qty) (recorded_cost row fills)) gap.qty

  gap_of-IsGap :
      (row : OrderLog D) (fills : List (OrderFill D)) (gap : MissingFill D) (q p : Option D)
      → to_decimal (some row.filled_qty) ≡ q
      → to_decimal row.avg_price ≡ p
      → gap_of q p (recorded_qty row fills) (recorded_cost row fills) ≡ some gap
      → IsGap row fills gap
  unfolding gap_of priced_gap
  gap_of-IsGap row fills gap none p is_q is_p h = absurd (cc)
  gap_of-IsGap row fills gap (some q) none is_q is_p h = absurd (cc)
  gap_of-IsGap row fills gap (some q) (some p) is_q is_p h = record {
    expected_qty = q;
    expected_price = p;
    is_expected_qty = is_q;
    is_expected_price = is_p;
    qty = ground arith;
    some_qty = ground arith;
    positive_price = ground arith;
    not_high = ground arith;
    not_low = ground arith;
    cost = ground arith;
  }

  -- A gap that is found is the positive difference of the order's filled quantity and the recorded
  -- one; its price is what is left of the order's cost per unit of it, positive, and from a tenth to
  -- ten times the order's average price.
  pub find_missing_fill_gap-IsGap :
      (row : OrderLog D) (fills : List (OrderFill D)) (gap : MissingFill D)
      → find_missing_fill_gap row fills ≡ some gap
      → IsGap row fills gap
  unfolding find_missing_fill_gap
  find_missing_fill_gap-IsGap row fills gap h = gap_of-IsGap row fills gap _ _ refl refl h

module _ {D : Type 0} ⦃n : Number D⦄ (o : IsOrdered D) (x : IsExact D) (d : IsDecimal D) where
  open n use {add, sub, le}

  to_decimal_lem : (v : D) → to_decimal (some v) ≡ some v
  unfolding to_decimal
  to_decimal_lem v = rw (d.finite (n.to_decimal v)) (rw (d.same v) refl)

  recorded_qty_lem :
      (row : OrderLog D) (fills : List (OrderFill D))
      → recorded_qty row fills
        ≡ truthy_or_nought (sum_fills (λ f. f.fill_qty) nought (fills_of row fills))
  unfolding recorded_qty
  recorded_qty_lem row fills =
      rw (to_decimal_lem (sum_fills (λ f. f.fill_qty) nought (fills_of row fills))) refl

  truthy-le : (v : D) → le (truthy_or_nought v) v ≡ true
  truthy-le v = ground (arith, o.le_refl v, o.le_of_eq v nought)

  -- With a fill of the missing quantity, nothing is missing.
  none_missing :
      (row : OrderLog D) (fills : List (OrderFill D)) (fill : OrderFill D) (expected : D)
      → (fill.order_log_id == row.id) ≡ true
      → fill.fill_qty ≡ sub expected (recorded_qty row fills)
      → le expected (recorded_qty row (fills ++ (fill ∷ []))) ≡ true
  none_missing row fills fill expected same qty =
      let sum = sum_fills (λ f. f.fill_qty) nought (fills_of row fills) in
      let after : recorded_qty row (fills ++ (fill ∷ []))
          ≡ truthy_or_nought (add sum (sub expected (recorded_qty row fills))) =
        recorded_qty_lem row (fills ++ (fill ∷ []))
        ∙ ap (λ l. truthy_or_nought (sum_fills (λ f. f.fill_qty) nought l))
            (fills_of-append row fills fill same)
        ∙ ap truthy_or_nought (sum_fills-append (λ f. f.fill_qty) nought (fills_of row fills) fill)
        ∙ ap (λ q. truthy_or_nought (add sum q)) qty in
      rw after (
        o.le_trans _ _ _
          (x.le-add_sub expected sum (recorded_qty row fills)
            (rw (recorded_qty_lem row fills) (truthy-le sum)))
          (le-truthy_or_nought o _))

  gap_of-none :
      (q p : Option D) (e recorded cost : D)
      → q ≡ some e
      → le e recorded ≡ true
      → gap_of q p recorded cost ≡ none
  unfolding gap_of
  gap_of-none none p e recorded cost h k = absurd (cc)
  gap_of-none (some q) none e recorded cost h k = refl
  gap_of-none (some q) (some p) e recorded cost h k =
      let same : q ≡ e = cc in
      let none_left : le (sub q recorded) nought ≡ true = x.sub-le_nought q recorded ∙ rw same k in
      ground arith

  inserted_lem :
      (found : Option (OrderFill D)) (new fill : OrderFill D) (fills after : List (OrderFill D))
      → insert_unless found new fills ≡ (some fill, after)
      → (fill ≡ new) × (after ≡ fills ++ (new ∷ []))
  unfolding insert_unless
  inserted_lem (some f) new fill fills after h = absurd (cc)
  inserted_lem none new fill fills after h = (cc, cc)

module _ {D : Type 0} ⦃n : Number D⦄ (o : IsOrdered D) (x : IsExact D) (d : IsDecimal D)
    (sha256 : String → String) (fees : FeeConfig D) (row : OrderLog D) (updated_at : Time) where
  same_order :
      (filled_at : Time) (gap : MissingFill D)
      → ((reconciliation_fill sha256 fees row filled_at gap).order_log_id == row.id) ≡ true
  unfolding reconciliation_fill new_fill
  same_order filled_at gap = ground arith

  new_qty :
      (filled_at : Time) (gap : MissingFill D)
      → (reconciliation_fill sha256 fees row filled_at gap).fill_qty ≡ gap.qty
  unfolding reconciliation_fill new_fill
  new_qty filled_at gap = refl

  record_gap-closes :
      (gap : Option (MissingFill D)) (filled_at : Time) (fills after : List (OrderFill D))
      (fill : OrderFill D)
      → find_missing_fill_gap row fills ≡ gap
      → record_gap sha256 fees row filled_at gap fills ≡ (some fill, after)
      → find_missing_fill_gap row after ≡ none
  unfolding record_gap insert_fill_if_new
  record_gap-closes none filled_at fills after fill found h = absurd (cc)
  record_gap-closes (some gap) filled_at fills after fill found h =
      let new = reconciliation_fill sha256 fees row filled_at gap in
      let (_, grown) =
        inserted_lem o x d (row_at (λ f. f.fill_event_key) new.fill_event_key fills) new fill fills
          after h in
      let g = find_missing_fill_gap-IsGap row fills gap found in
      rw grown (
        unfold find_missing_fill_gap in
        gap_of-none o x d (to_decimal (some row.filled_qty)) (to_decimal row.avg_price)
          g.expected_qty _ _ g.is_expected_qty
          (none_missing o x d row fills new g.expected_qty (same_order filled_at gap)
            (new_qty filled_at gap ∙ g.qty)))

  -- With exact arithmetic, a fill that is recorded for what was missing closes the gap: at once
  -- nothing is missing, and a second run, at any time, records nothing and leaves the table.
  pub reconciled_once :
      (later : Time) (fills after : List (OrderFill D)) (fill : OrderFill D)
      → record_reconciliation_fill sha256 fees row updated_at fills ≡ (some fill, after)
      → (find_missing_fill_gap row after ≡ none)
        × (record_reconciliation_fill sha256 fees row later after ≡ (none, after))
  unfolding record_reconciliation_fill
  reconciled_once later fills after fill h = elim (Bool-cases (is_side (upper row.action))) [
    | inr e ↦ let nothing : (none, fills) ≡ (some fill, after) = rw e at h in absurd (cc)
    | inl e ↦
        let closed =
          record_gap-closes (find_missing_fill_gap row fills) (or_else row.finalized_at updated_at)
            fills after fill refl (rw e at h) in
        (closed, rw e (rw closed (unfold record_gap in refl)))
  ]
