-- ===== src/Exit/Cooldown/Latest.antt =====
-- The wait after an exit counts from the last close.
use trade_ai_server.Prelude.{
  ap, ◌∙◌, ◌⊎◌, ◌≡◌, refl, ℕ, Bool, true, false, Option, none, some, List, [], ◌∷◌, String, ltb,
  select, arith, All, All-map, All-of_select, Bool-cases, inl, inr, ◌≤◌, is_some,
}
use trade_ai_server.Prelude.Text.{upper}
use trade_ai_server.Order.Row.{Time}
use trade_ai_server.Lifecycle.{PositionLifecycle}
use trade_ai_server.Number.{Number}
use trade_ai_server.Exit.{ExitPolicy}
use trade_ai_server.Exit.Cooldown.{
  ExitIntent, newer, newest, is_closed_of, closed_time, unblock_at, block_after,
  reentry_cooldown_block,
}

module _ {A : Type 0} where
  -- A row of a table.
  abbrev pub IsIn : A → List A → Type 0
  IsIn x [] = ⊥
  IsIn x (y ∷ ys) = (x ≡ y) ⊎ IsIn x ys

  IsIn-select :
      (p : A → Bool) (x : A) (xs : List A) → IsIn x (select p xs) → IsIn x xs × (p x ≡ true)
  IsIn-select p x [] m = absurd m
  IsIn-select p x (y ∷ ys) m = elim (Bool-cases (p y)) [
    | inl e ↦ in_cons e (IsIn-select p x ys) (rw e at m)
    | inr e ↦ let (inside, holds) = IsIn-select p x ys (rw e at m) in (inr inside, holds)
  ]
    where
      in_cons :
          p y ≡ true
          → (IsIn x (select p ys) → IsIn x ys × (p x ≡ true))
          → IsIn x (y ∷ select p ys)
          → IsIn x (y ∷ ys) × (p x ≡ true)
      in_cons e rest (inl same) = (inl same, ap p same ∙ e)
      in_cons e rest (inr inside) = let (found, holds) = rest inside in (inr found, holds)

  none_selected : (p : A → Bool) (xs : List A) → select p xs ≡ [] → All (λ x. p x ≡ false) xs
  none_selected p [] e = tt
  none_selected p (y ∷ ys) e = elim (Bool-cases (p y)) [
    | inl h ↦ absurd (let impossible : y ∷ select p ys ≡ [] = rw h at e in cc)
    | inr h ↦ (h, none_selected p ys (rw h at e))
  ]

  module _ (at : A → Time) where
    -- What `newest` finds: nothing in no rows, and else a row that no other is later than.
    Best : List A → Option A → Type 0
    Best xs none = xs ≡ []
    Best xs (some x) = IsIn x xs × All (λ y. at y ≤ at x) xs

    newer-Best : (x : A) (xs : List A) (o : Option A) → Best xs o → Best (x ∷ xs) (newer at x o)
    unfolding Best newer
    newer-Best x xs none e = (inl refl, (omega arith, rw e tt))
    newer-Best x xs (some y) (inside, last) = elim (Bool-cases (ltb (at x) (at y))) [
      | inl h ↦ rw h (inr inside, (ground (arith, h), last))
      | inr h ↦ rw h (
        inl refl,
        (
          omega arith,
          All-map (λ z. at z ≤ at y) (λ z. at z ≤ at x) xs (λ z k. ground (arith, h, k)) last,
        ),
      )
    ]

    newest-Best : (xs : List A) → Best xs (newest at xs)
    unfolding Best newest
    newest-Best [] = refl
    newest-Best (x ∷ xs) = newer-Best x xs (newest at xs) (newest-Best xs)

module _ {D : Type 0} where
  -- A closed position of a symbol that none was closed later than.
  pub record IsLast (symbol : String) (rows : List (PositionLifecycle D))
      (row : PositionLifecycle D) : Type 0 where
    pub inside : IsIn row rows
    pub is_closed : is_closed_of (upper symbol) row ≡ true
    pub last :
        All (λ r. is_closed_of (upper symbol) r ≡ true → closed_time r ≤ closed_time row) rows

module _ {D : Type 0} ⦃n : Number D⦄ (after_minutes : Time → D → Time) (time_text : Time → String)
    (seconds_text : ℕ → String) (minutes_text : D → String) where
  block_after_lem :
      (policy : ExitPolicy D) (now : Time) (intents : List ExitIntent) (row : PositionLifecycle D)
      → is_some (
          block_after after_minutes time_text seconds_text minutes_text policy now intents
            (some row))
        ≡ ltb now (unblock_at after_minutes policy intents row)
  unfolding block_after
  block_after_lem policy now intents row = ground arith

  abbrev pub Waits :
      ExitPolicy D → Time → String → List (PositionLifecycle D) → List ExitIntent → Type 0
  Waits policy now symbol rows intents =
      (All (λ row. is_closed_of (upper symbol) row ≡ false) rows
        × (reentry_cooldown_block after_minutes time_text seconds_text minutes_text policy now
              symbol rows intents
            ≡ none))
      ⊎ ((row : PositionLifecycle D) × IsLast symbol rows row
          × (is_some (
                reentry_cooldown_block after_minutes time_text seconds_text minutes_text policy now
                  symbol rows intents)
              ≡ ltb now (unblock_at after_minutes policy intents row)))

  -- A symbol without a closed position may be bought again at once. Otherwise there is a last close
  -- of it, and it is blocked exactly until the wait for the reason of that close is over.
  pub reentry_cooldown_block-Waits :
      (policy : ExitPolicy D) (now : Time) (symbol : String) (rows : List (PositionLifecycle D))
      (intents : List ExitIntent)
      → Waits policy now symbol rows intents
  unfolding reentry_cooldown_block Best
  reentry_cooldown_block-Waits policy now symbol rows intents =
      let closed = select (is_closed_of (upper symbol)) rows in
      waits (newest closed_time closed) refl (newest-Best closed_time closed)
    where
      waits :
          (o : Option (PositionLifecycle D))
          → newest closed_time (select (is_closed_of (upper symbol)) rows) ≡ o
          → Best closed_time (select (is_closed_of (upper symbol)) rows) o
          → Waits policy now symbol rows intents
      waits none e empty = inl (
        none_selected (is_closed_of (upper symbol)) rows empty,
        rw e (unfold block_after in refl),
      )
      waits (some row) e (inside, last) =
          let (found, holds) = IsIn-select (is_closed_of (upper symbol)) row rows inside in
          inr (
            row,
            record {
              inside = found;
              is_closed = holds;
              last = All-of_select _ (is_closed_of (upper symbol)) rows last;
            },
            rw e (block_after_lem policy now intents row),
          )
