-- ===== src/Prelude/Table.antt =====
-- A database table with a unique text column: its rows in order of insertion.
use Prim.Native.String.{String}
use mathlib.Core.Path.{◌≡◌, refl, sym}
use mathlib.Core.Logic.{◌≢◌, inl, inr}
use mathlib.Core.Bool.{Bool}
use mathlib.Core.Option.{Option, none, some}
use mathlib.Core.List.{List, [], ◌∷◌, ◌++◌}
use native.Mathlib.Omega.{arith}
use text.Mathlib.TextEquality.{eq_iff}
use text.Mathlib.TextPositions.{eq_refl}
use trade_ai_server.Prelude.Tests.{if◌then◌else◌, Bool-cases}
use trade_ai_server.Prelude.Text.{str_eq}
use trade_ai_server.Prelude.Lists.{All, All-append, select, All-select, All-both}

module _ {ℓ} {A : Type ℓ} (key : A → String) where
  -- the row with this key
  unfoldable pub row_at : String → List A → Option A
  row_at k [] = none
  row_at k (x ∷ xs) = if str_eq k (key x) then some x else row_at k xs

  -- an update of the row with the same key, or an insertion
  unfoldable pub put : A → List A → List A
  put v [] = v ∷ []
  put v (x ∷ xs) = if str_eq (key v) (key x) then v ∷ xs else x ∷ put v xs

  pub row_at-put :
      (k : String) (v : A) (t : List A)
      → row_at k (put v t) ≡ (if str_eq k (key v) then some v else row_at k t)
  unfolding row_at put
  row_at-put k v [] = refl
  row_at-put k v (x ∷ xs) =
      ground (arith, eq_iff k (key v), eq_iff (key v) (key x), eq_iff k (key x), row_at-put k v xs)

  pub row_at-put_self : (v : A) (t : List A) → row_at (key v) (put v t) ≡ some v
  row_at-put_self v t = rw row_at-put (rw (eq_refl (key v)))

  -- the same, where the key is known by another name
  pub row_at-put_at : (k : String) (v : A) (t : List A) → key v ≡ k → row_at k (put v t) ≡ some v
  row_at-put_at k v t h = rw (← h) (row_at-put_self v t)

  pub row_at-put_ne :
      (k : String) (v : A) (t : List A) → k ≢ key v → row_at k (put v t) ≡ row_at k t
  row_at-put_ne k v t h = ground (arith, eq_iff k (key v), row_at-put k v t)

  -- A row that is found has the key that it was looked up by.
  pub key-row_at : (k : String) (t : List A) (v : A) → row_at k t ≡ some v → key v ≡ k
  unfolding row_at
  key-row_at k [] v h = cc
  key-row_at k (x ∷ xs) v h = elim (Bool-cases (str_eq k (key x))) [
    | inl e ↦ let found : some x ≡ some v = rw e at h in ground (arith, eq_iff k (key x))
    | inr e ↦ key-row_at k xs v (rw e at h)
  ]

  -- A new row at the end is found, if its key was not in the table.
  pub row_at-append :
      (k : String) (v : A) (t : List A)
      → key v ≡ k
      → row_at k t ≡ none
      → row_at k (t ++ (v ∷ [])) ≡ some v
  unfolding row_at
  row_at-append k v [] h e = ground (arith, eq_iff k (key v), sym h)
  row_at-append k v (x ∷ xs) h e = elim (Bool-cases (str_eq k (key x))) [
    | inl s ↦ let found : some x ≡ none = rw s at e in absurd (cc)
    | inr s ↦ rw s (row_at-append k v xs h (rw s at e))
  ]

  -- ... and every other row is found as before.
  pub row_at-append_some :
      (k : String) (v w : A) (t : List A) → row_at k t ≡ some w → row_at k (t ++ (v ∷ [])) ≡ some w
  unfolding row_at
  row_at-append_some k v w [] e = absurd (cc)
  row_at-append_some k v w (x ∷ xs) e = elim (Bool-cases (str_eq k (key x))) [
    | inl s ↦ rw s (rw s at e)
    | inr s ↦ rw s (row_at-append_some k v w xs (rw s at e))
  ]

  -- Keys that differ.
  abbrev pub Fresh : String → List A → Type 0
  Fresh k t = All (λ x. k ≢ key x) t

  abbrev pub Distinct : List A → Type 0
  Distinct [] = Unit
  Distinct (x ∷ xs) = Fresh (key x) xs × Distinct xs

  pub Distinct-select : (p : A → Bool) (t : List A) → Distinct t → Distinct (select p t)
  Distinct-select p [] d = tt
  Distinct-select p (x ∷ xs) d = elim (Bool-cases (p x)) [
    | inl e ↦ rw e (All-select _ p xs d.0, Distinct-select p xs d.1)
    | inr e ↦ rw e (Distinct-select p xs d.1)
  ]

  -- Each row of a table with distinct keys is found at its key.
  pub Distinct-row_at : (t : List A) → Distinct t → All (λ x. row_at (key x) t ≡ some x) t
  unfolding row_at
  Distinct-row_at [] d = tt
  Distinct-row_at (x ∷ xs) d = (
    rw (eq_refl (key x)),
    All-both _ _ _ xs (λ y ne found. ground (arith, eq_iff (key y) (key x), ne)) d.0
        (Distinct-row_at xs d.1),
  )

  Fresh-append : (k : String) (v : A) (t : List A) → k ≢ key v → Fresh k t → Fresh k (t ++ (v ∷ []))
  Fresh-append k v t ne h = All-append _ t _ h (ne, tt)

  -- A row with a key that is not found may be added.
  pub Distinct-append :
      (v : A) (t : List A) → row_at (key v) t ≡ none → Distinct t → Distinct (t ++ (v ∷ []))
  unfolding row_at
  Distinct-append v [] h d = (tt, tt)
  Distinct-append v (x ∷ xs) h d = elim (Bool-cases (str_eq (key v) (key x))) [
    | inl e ↦ let found : some x ≡ none = rw e at h in absurd (cc)
    | inr e ↦ (
      Fresh-append (key x) v xs (λ same. ground (arith, e, eq_iff (key v) (key x), sym same)) d.0,
      Distinct-append v xs (rw e at h) d.1,
    )
  ]
