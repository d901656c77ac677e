-- ===== src/Prelude/Result.antt =====
-- Python exceptions as values.
use mathlib.Core.Path.{◌≡◌, refl, subst}
use mathlib.Core.Bool.{Bool}
use mathlib.Core.List.{List}
use trade_ai_server.Prelude.Tests.{if◌then◌else◌}
use Prim.Native.Nat.{ℕ}
use Prim.Native.String.{String}

pub data Error : Type 0 where
  value_error : String → Error
  runtime_error : String → Error
  -- `LifecycleIntegrityError(symbol, lifecycle_ids)`
  lifecycle_integrity : String → List ℕ → Error
  -- sqlalchemy's `MultipleResultsFound`
  multiple_rows : Error

pub data Result {ℓ} (A : Type ℓ) : Type ℓ where
  ok : A → Result A
  raised : Error → Result A

-- `if c: raise e`
abbrev pub raise_if : Bool → Error → Result (Unit {0})
raise_if test error = if test then raised error else ok tt

-- Statements in sequence: an exception skips the rest.
module _ {ℓ κ} {A : Type ℓ} {B : Type κ} where
  infixl 5 ◌>>=◌
  abbrev pub ◌>>=◌ : Result A → (A → Result B) → Result B
  raised error >>= _ = raised error
  ok value >>= next = next value

module _ {ℓ} {B : Type ℓ} where
  infixl 5 ◌>>◌
  abbrev pub ◌>>◌ : Result (Unit {0}) → Result B → Result B
  check >> next = check >>= (λ _. next)

pub ok-injective {ℓ} : {A : Type ℓ} (a b : A) → ok a ≡ ok b → a ≡ b
ok-injective a b h = cc

-- What holds of a result, if the call did not raise.
pub data Ensures {ℓ κ} {A : Type ℓ} (P : A → Type κ) : Result A → Type (ℓ ⊔ κ) where
  returns : {a : A} → P a → Ensures P (ok a)
  raises : {e : Error} → Ensures P (raised e)

module _ {ℓ κ μ} {A : Type ℓ} {B : Type κ} {P : B → Type μ} where
  pub Ensures->>= :
      (m : Result A) {f : A → Result B}
      → ((a : A) → m ≡ ok a → Ensures P (f a))
      → Ensures P (m >>= f)
  Ensures->>= (ok a) h = h a refl
  Ensures->>= (raised _) h = raises

module _ {ℓ κ} {A : Type ℓ} {P : A → Type κ} where
  pub Ensures-ok_of : {m : Result A} → Ensures P m → (a : A) → m ≡ ok a → P a
  Ensures-ok_of (returns {a = b} p) a e = subst P (ok-injective b a e) p
  Ensures-ok_of raises a e = cc

  pub Ensures-ok : {a : A} → Ensures P (ok a) → P a
  Ensures-ok {a} e = Ensures-ok_of e a refl

  pub Ensures-map {μ} :
      {Q : A → Type μ} {m : Result A} → ((a : A) → P a → Q a) → Ensures P m → Ensures Q m
  Ensures-map f (returns {a = b} p) = returns (f b p)
  Ensures-map f raises = raises

  pub Ensures-both {μ ν} :
      {Q : A → Type μ} {R : A → Type ν} {m : Result A}
      → ((a : A) → P a → Q a → R a)
      → Ensures P m
      → Ensures Q m
      → Ensures R m
  Ensures-both f (returns {a = b} p) (returns q) = returns (f b p q)
  Ensures-both f raises raises = raises
