-- ===== src/Lifecycle/Quantity.antt =====
-- The quantity and the stop of a position under fills.
use trade_ai_server.Prelude.{
  ℕ, ◌≡◌, true, false, Option, List, [], ◌∷◌, String, arith, refl, Bool-cases, inl, inr, All,
  All-append, if◌then◌else◌,
}
use trade_ai_server.Prelude.Result.{Ensures}
use trade_ai_server.Number.{Number, nought, truthy_or_nought}
use trade_ai_server.Number.Laws.{IsOrdered, IsExact}
use trade_ai_server.Order.Row.{OrderLog}
use trade_ai_server.Fill.{OrderFill}
use trade_ai_server.Lifecycle.{PositionLifecycle, Positions, is_open, is_open_of, update_open}
use trade_ai_server.Lifecycle.Engine.{apply_fill_to_lifecycle}
use trade_ai_server.Lifecycle.Rows.{Surroundings, opened, merged, sold, sold_qty, remaining_qty}
use trade_ai_server.Lifecycle.Kept.{apply_fill-Kept}

module _ {D : Type 0} ⦃n : Number D⦄ where
  open n use {lt, le}

  -- An open position holds a positive quantity, and a closed one nothing.
  pub data IsSound (row : PositionLifecycle D) : Type 0 where
    holds : is_open row ≡ true → lt nought row.current_qty ≡ true → IsSound row
    closed : is_open row ≡ false → row.current_qty ≡ nought → IsSound row

  update_open-All :
      (P : PositionLifecycle D → Type 0) (symbol : String)
      (f : PositionLifecycle D → PositionLifecycle D)
      → ((row : PositionLifecycle D) → is_open row ≡ true → P row → P (f row))
      → (rows : List (PositionLifecycle D)) → All P rows
      → All P (update_open symbol f rows)
  unfolding update_open is_open_of
  update_open-All P symbol f keep [] h = tt
  update_open-All P symbol f keep (row ∷ rows) h = elim (Bool-cases (is_open_of symbol row)) [
    | inl e ↦ let o : is_open row ≡ true = ground arith in rw e (keep row o h.0, h.1)
    | inr e ↦ rw e (h.0, update_open-All P symbol f keep rows h.1)
  ]

  open_qty :
      (row : PositionLifecycle D)
      → is_open row ≡ true
      → IsSound row
      → lt nought row.current_qty ≡ true
  open_qty row o (holds _ q) = q
  open_qty row o (closed c _) = absurd (ground (arith, o, c))

module _ {D : Type 0} ⦃n : Number D⦄ (ordered : IsOrdered D) (exact : IsExact D) where
  open n use {sub, lt, le}

  truthy_pos : (x : D) → lt nought x ≡ true → truthy_or_nought x ≡ x
  truthy_pos x h = ground (arith, ordered.le_of_eq x nought, ordered.lt-not-le nought x)

  merged-IsSound :
      (fill : OrderFill D) (levels : Option D × Option D) (row : PositionLifecycle D)
      → lt nought fill.fill_qty ≡ true
      → is_open row ≡ true
      → IsSound row
      → IsSound (merged fill levels row)
  unfolding merged is_open
  merged-IsSound fill levels row p o s =
      let q = open_qty row o s in
      holds o (rw (truthy_pos row.current_qty q) (exact.add_pos row.current_qty fill.fill_qty q p))

  sold_qty-pos :
      (fill : OrderFill D) (row : PositionLifecycle D)
      → lt nought fill.fill_qty ≡ true
      → lt nought row.current_qty ≡ true
      → le (sold_qty fill row) nought ≡ false
  unfolding sold_qty
  sold_qty-pos fill row p q = ground (
    arith,
    p,
    q,
    ordered.lt-not-le nought fill.fill_qty,
    ordered.lt-not-le nought row.current_qty,
  )

  remaining_qty-le :
      (fill : OrderFill D) (row : PositionLifecycle D)
      → lt nought row.current_qty ≡ true
      → le (remaining_qty fill row) nought ≡ le row.current_qty fill.fill_qty
  unfolding sold_qty remaining_qty
  remaining_qty-le fill row q =
      let c = row.current_qty in
      ground (
        arith,
        truthy_pos c q,
        exact.sub-le_nought (truthy_or_nought c) (sold_qty fill row),
        ordered.le_refl c,
        ordered.le_of_lt c fill.fill_qty,
      )

  remaining_lem :
      (fill : OrderFill D) (row : PositionLifecycle D)
      → lt nought row.current_qty ≡ true
      → le (remaining_qty fill row) nought ≡ false
      → remaining_qty fill row ≡ sub row.current_qty fill.fill_qty
  unfolding sold_qty remaining_qty
  remaining_lem fill row q e =
      let c = row.current_qty in
      elim (Bool-cases (lt c fill.fill_qty)) [
        | inl more ↦
            let bound = remaining_qty-le fill row q in
            absurd (ground (arith, e, more, bound, ordered.le_of_lt c fill.fill_qty))
        | inr less ↦ rw (remaining_qty, sold_qty, less, truthy_pos c q) refl
      ]

  -- In a total order with exact arithmetic, a SELL fill of a positive quantity of an open position that holds a
  -- positive quantity leaves it open exactly if less than that is sold. It then holds the difference,
  -- which is positive, and otherwise it is closed and holds nothing.
  pub sold_closes :
      (fill : OrderFill D) (row : PositionLifecycle D)
      → lt nought fill.fill_qty ≡ true
      → is_open row ≡ true
      → lt nought row.current_qty ≡ true
      → IsSound (sold fill row)
        × (is_open (sold fill row) ≡ lt fill.fill_qty row.current_qty)
        × ((sold fill row).current_qty ≡ (
            if lt fill.fill_qty row.current_qty then sub row.current_qty fill.fill_qty else nought))
  unfolding sold is_open
  sold_closes fill row p o q =
      let left = remaining_qty fill row in
      let bound = remaining_qty-le fill row q in
      let less = ordered.lt-not-le fill.fill_qty row.current_qty in
      rw (sold_qty-pos fill row p q) (elim (Bool-cases (le left nought)) [
        | inl e ↦
            let none_left : lt fill.fill_qty row.current_qty ≡ false =
              ground (arith, e, bound, less) in
            rw e (closed refl refl, ground (arith, none_left), rw none_left refl)
        | inr e ↦
            let some_left : lt fill.fill_qty row.current_qty ≡ true =
              ground (arith, e, bound, less) in
            rw e (
              holds o (ground (arith, e, ordered.lt-not-le nought left)),
              ground (arith, some_left, o),
              rw some_left (remaining_lem fill row q e),
            )
      ])

  -- If every open position holds a positive quantity and every closed one nothing, and what other
  -- transactions commit keeps it so, then it is so after a fill of a positive quantity that is
  -- applied without an exception, under exact arithmetic.
  pub apply_fill-IsSound :
      (env : Surroundings D) (row : OrderLog D) (fill : OrderFill D)
      → lt nought fill.fill_qty ≡ true
      → ((k : ℕ) (rows : List (PositionLifecycle D))
          → All IsSound rows
          → All IsSound (env.committed k rows))
      → (store : Positions D) → All IsSound store.rows
      → Ensures (λ result. All IsSound result.1.rows) (apply_fill_to_lifecycle env row fill store)
  unfolding opened is_open
  apply_fill-IsSound env row fill p committed-IsSound store h =
      apply_fill-Kept env row fill (λ rows. All IsSound rows) committed-IsSound
        (λ symbol levels id rows _ all. All-append IsSound rows _ all (holds refl p, tt))
        (λ symbol levels rows.
          update_open-All IsSound symbol (merged fill levels) (λ r. merged-IsSound fill levels r p)
            rows)
        (λ symbol rows.
          update_open-All IsSound symbol (sold fill)
            (λ r o s. (sold_closes fill r p o (open_qty r o s)).0) rows)
        store h
