-- ===== src/Lifecycle/OneOpen.antt =====
-- At most one open lifecycle per symbol.
use trade_ai_server.Prelude.{
  ℕ, ◌≡◌, ◌≢◌, true, false, Option, List, [], ◌∷◌, ◌++◌, String, arith, refl, Bool-cases, inl, inr,
  select, exists,
}
use text.Mathlib.TextEquality.{eq_iff}
use trade_ai_server.Prelude.Table.{Distinct, Fresh}
use trade_ai_server.Prelude.Result.{Ensures}
use trade_ai_server.Number.{Number}
use trade_ai_server.Order.Row.{OrderLog}
use trade_ai_server.Fill.{OrderFill}
use trade_ai_server.Lifecycle.{PositionLifecycle, Positions, is_open, is_open_of, update_open}
use trade_ai_server.Lifecycle.Engine.{apply_fill_to_lifecycle}
use trade_ai_server.Lifecycle.Rows.{Surroundings, opened, merged, sold}
use trade_ai_server.Lifecycle.Kept.{apply_fill-Kept}

-- No two open rows have the same symbol.
abbrev pub OneOpen : {D : Type 0} → List (PositionLifecycle D) → Type 0
OneOpen rows = Distinct (λ row. row.symbol) (select is_open rows)

abbrev pub FreshOpen : {D : Type 0} → String → List (PositionLifecycle D) → Type 0
FreshOpen k rows = Fresh (λ row. row.symbol) k (select is_open rows)

module _ {D : Type 0} (symbol : String) (f : PositionLifecycle D → PositionLifecycle D)
    (keeps : (row : PositionLifecycle D) → (f row).symbol ≡ row.symbol) where
  is_open-is_open_of :
      (row : PositionLifecycle D) → is_open_of symbol row ≡ true → is_open row ≡ true
  unfolding is_open_of
  is_open-is_open_of row h = ground arith

  update_open-FreshOpen :
      (k : String) (rows : List (PositionLifecycle D))
      → FreshOpen k rows
      → FreshOpen k (update_open symbol f rows)
  unfolding update_open
  update_open-FreshOpen k [] h = tt
  update_open-FreshOpen k (row ∷ rows) h = elim (Bool-cases (is_open_of symbol row)) [
    | inl e ↦
        let h' = rw (is_open-is_open_of row e) at h in
        rw e (elim (Bool-cases (is_open (f row))) [
          | inl o ↦ rw o (rw keeps h'.0, h'.1)
          | inr o ↦ rw o h'.1
        ])
    | inr e ↦ rw e (elim (Bool-cases (is_open row)) [
      | inl o ↦ let h' = rw o at h in rw o (h'.0, update_open-FreshOpen k rows h'.1)
      | inr o ↦ rw o (update_open-FreshOpen k rows (rw o at h))
    ])
  ]

  pub update_open-OneOpen :
      (rows : List (PositionLifecycle D)) → OneOpen rows → OneOpen (update_open symbol f rows)
  unfolding update_open
  update_open-OneOpen [] h = tt
  update_open-OneOpen (row ∷ rows) h = elim (Bool-cases (is_open_of symbol row)) [
    | inl e ↦
        let h' = rw (is_open-is_open_of row e) at h in
        rw e (elim (Bool-cases (is_open (f row))) [
          | inl o ↦ rw o (rw keeps h'.0, h'.1)
          | inr o ↦ rw o h'.1
        ])
    | inr e ↦ rw e (elim (Bool-cases (is_open row)) [
      | inl o ↦
          let h' = rw o at h in
          rw o (update_open-FreshOpen row.symbol rows h'.0, update_open-OneOpen rows h'.1)
      | inr o ↦ rw o (update_open-OneOpen rows (rw o at h))
    ])
  ]

module _ {D : Type 0} where
  append-FreshOpen :
      (k : String) (rows : List (PositionLifecycle D)) (new : PositionLifecycle D)
      → k ≢ new.symbol
      → FreshOpen k rows
      → FreshOpen k (rows ++ (new ∷ []))
  append-FreshOpen k [] new ne h = elim (Bool-cases (is_open new)) [
    | inl o ↦ rw o (ne, tt)
    | inr o ↦ rw o tt
  ]
  append-FreshOpen k (row ∷ rows) new ne h = elim (Bool-cases (is_open row)) [
    | inl o ↦ let h' = rw o at h in rw o (h'.0, append-FreshOpen k rows new ne h'.1)
    | inr o ↦ rw o (append-FreshOpen k rows new ne (rw o at h))
  ]

  -- A row of a symbol without open rows may be added.
  append-OneOpen :
      (rows : List (PositionLifecycle D)) (new : PositionLifecycle D)
      → exists (is_open_of new.symbol) rows ≡ false
      → OneOpen rows
      → OneOpen (rows ++ (new ∷ []))
  unfolding is_open_of
  append-OneOpen [] new none_open h = elim (Bool-cases (is_open new)) [
    | inl o ↦ rw o (tt, tt)
    | inr o ↦ rw o tt
  ]
  append-OneOpen (row ∷ rows) new none_open h = elim (Bool-cases (is_open row)) [
    | inl o ↦
        let h' = rw o at h in
        rw o (
          append-FreshOpen row.symbol rows new
              (λ same. ground (arith, eq_iff row.symbol new.symbol)) h'.0,
          append-OneOpen rows new (ground arith) h'.1,
        )
    | inr o ↦ rw o (append-OneOpen rows new (ground arith) (rw o at h))
  ]

module _ {D : Type 0} ⦃n : Number D⦄ where
  merged-symbol :
      (fill : OrderFill D) (levels : Option D × Option D) (row : PositionLifecycle D)
      → (merged fill levels row).symbol ≡ row.symbol
  unfolding merged
  merged-symbol fill levels row = refl

  sold-symbol :
      (fill : OrderFill D) (row : PositionLifecycle D) → (sold fill row).symbol ≡ row.symbol
  unfolding sold
  sold-symbol fill row = ground arith

module _ {D : Type 0} ⦃n : Number D⦄ (env : Surroundings D) (row : OrderLog D)
    (fill : OrderFill D) where
  opened-OneOpen :
      (symbol : String) (levels : Option D × Option D) (id : ℕ) (rows : List (PositionLifecycle D))
      → exists (is_open_of symbol) rows ≡ false
      → OneOpen rows
      → OneOpen (rows ++ (opened env row fill symbol levels id ∷ []))
  unfolding opened
  opened-OneOpen symbol levels id rows free h =
      append-OneOpen rows (opened env row fill symbol levels id) free h

  -- If no symbol has two open lifecycles, and what other transactions commit keeps it so, then
  -- after a fill that is applied without an exception no symbol has two open lifecycles.
  pub apply_fill-OneOpen :
      ((k : ℕ) (rows : List (PositionLifecycle D)) → OneOpen rows → OneOpen (env.committed k rows))
      → (store : Positions D) → OneOpen store.rows
      → Ensures (λ result. OneOpen result.1.rows) (apply_fill_to_lifecycle env row fill store)
  apply_fill-OneOpen committed-OneOpen store h =
      apply_fill-Kept env row fill OneOpen committed-OneOpen opened-OneOpen
        (λ symbol levels.
          update_open-OneOpen symbol (merged fill levels) (merged-symbol fill levels))
        (λ symbol. update_open-OneOpen symbol (sold fill) (sold-symbol fill)) store h
