-- ===== src/Prelude/Tests.antt =====
-- Boolean tests on numbers, the conditional, and case lemmas that keep an equation.
use Prim.Native.Nat.{ℕ, zero, suc, compare, Ordering}
use mathlib.Core.Path.{◌≡◌, refl}
use mathlib.Core.Logic.{◌⊎◌, inl, inr}
use mathlib.Core.Bool.{Bool, true, false, ◌&&◌}
use mathlib.Core.Option.{Option, none, some}
use mathlib.Core.List.{List, [], ◌∷◌}

abbrev pub ltb : ℕ → ℕ → Bool
ltb a b = elim (compare a b) [ Ordering.lt ↦ true | _ ↦ false ]

abbrev pub leb : ℕ → ℕ → Bool
leb a b = elim (compare a b) [ Ordering.gt ↦ false | _ ↦ true ]

infix 50 ◌==◌
abbrev pub ◌==◌ : ℕ → ℕ → Bool
a == b = elim (compare a b) [ Ordering.eq ↦ true | _ ↦ false ]

infix 1 if◌then◌else◌
abbrev pub if◌then◌else◌ {ℓ} : {A : Type ℓ} → Bool → A → A → A
if true then x else _ = x
if false then _ else y = y

pub Bool-cases : (b : Bool) → (b ≡ true) ⊎ (b ≡ false)
Bool-cases true = inl refl
Bool-cases false = inr refl

module _ {ℓ} {A : Type ℓ} where
  pub Option-cases : (o : Option A) → (o ≡ none) ⊎ ((a : A) × (o ≡ some a))
  Option-cases none = inl refl
  Option-cases (some a) = inr (a, refl)

  -- `x is not None`
  abbrev pub is_some : Option A → Bool
  is_some none = false
  is_some (some _) = true

  abbrev pub is_none : Option A → Bool
  is_none none = true
  is_none (some _) = false

  -- `x if x is not None else d`
  abbrev pub or_else : Option A → A → A
  or_else none d = d
  or_else (some a) _ = a

  -- the first of two readings that is present
  abbrev pub first_some : Option A → Option A → Option A
  first_some none y = y
  first_some (some a) _ = some a

-- Both sides of a conjunction that holds.
pub and_true : (a b : Bool) → (a && b) ≡ true → (a ≡ true) × (b ≡ true)
and_true true b h = (refl, h)
and_true false b h = absurd (cc)

-- A ladder of early returns: the reason behind the first test that holds.
abbrev pub first_block {ℓ} : {A : Type ℓ} → List (Bool × A) → Option A
first_block [] = none
first_block ((test, reason) ∷ rest) = if test then some reason else first_block rest

-- Every test of a ladder that was passed has failed.
abbrev pub Passed {ℓ} : {A : Type ℓ} → List (Bool × A) → Type 0
Passed [] = Unit
Passed ((test, _) ∷ rest) = (test ≡ false) × Passed rest

pub first_block-Passed {ℓ} :
    {A : Type ℓ} (guards : List (Bool × A)) → first_block guards ≡ none → Passed guards
first_block-Passed [] h = tt
first_block-Passed ((true, reason) ∷ rest) h = absurd (cc)
first_block-Passed ((false, reason) ∷ rest) h = (refl, first_block-Passed rest h)

-- the test at a position of a ladder
abbrev pub test_at {ℓ} : {A : Type ℓ} → ℕ → List (Bool × A) → Bool
test_at k [] = false
test_at zero ((test, _) ∷ rest) = test
test_at (suc k) (_ ∷ rest) = test_at k rest

pub Passed-test_at {ℓ} :
    {A : Type ℓ} (k : ℕ) (guards : List (Bool × A)) → Passed guards → test_at k guards ≡ false
Passed-test_at k [] p = refl
Passed-test_at zero ((test, reason) ∷ rest) p = p.0
Passed-test_at (suc k) ((test, reason) ∷ rest) p = Passed-test_at k rest p.1

pub Passed-first_block {ℓ} :
    {A : Type ℓ} (guards : List (Bool × A)) → Passed guards → first_block guards ≡ none
Passed-first_block [] h = refl
Passed-first_block ((test, reason) ∷ rest) h = rw h.0 (Passed-first_block rest h.1)

-- `x is not None and p(x)`
abbrev pub on_some {ℓ} : {A : Type ℓ} → (A → Bool) → Option A → Bool
on_some p none = false
on_some p (some a) = p a
