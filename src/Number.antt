-- ===== src/Number.antt =====
-- The numbers of the program. Prices, quantities and amounts are `Decimal` in some functions and
-- `float` in others, and are converted by `Decimal(str(x))` and `float(x)`. Python's arithmetic of
-- both is a parameter: a type with these operations. Laws are hypotheses, in `Number/Laws.antt`,
-- named by each theorem that needs them; what needs none holds of rounding arithmetic and of NaN.
pub mod Laws
pub mod Whole
use trade_ai_server.Prelude.{
  ℕ, Bool, true, false, not, ◌&&◌, ◌||◌, Option, none, some, String, if◌then◌else◌,
}
use trade_ai_server.Prelude.Int.{ℤ}

pub record Number (D : Type 0) : Type 0 where
  pub literal : ℕ → ℕ → D  -- `literal n k` is n / 10^k, as `Decimal("0.75")` is `literal 75 2`
  pub add : D → D → D
  pub sub : D → D → D
  pub mul : D → D → D
  pub div : D → D → D
  pub lt : D → D → Bool  -- `<`
  pub le : D → D → Bool  -- `<=`
  pub eq : D → D → Bool  -- `==`
  pub is_finite : D → Bool
  pub whole : D → ℤ  -- `int(x.to_integral_value(rounding=ROUND_DOWN))`, and `int(x)`
  pub of_int : ℤ → D
  pub quantize : ℕ → D → D  -- `x.quantize(Decimal(10) ** -k, ROUND_DOWN)`
  pub round_half_up : ℕ → D → D  -- the same with ROUND_HALF_UP
  pub to_decimal : D → D  -- `Decimal(str(x))`
  pub to_float : D → D  -- `float(x)`
  pub text : D → String  -- `str(x)`

module _ {D : Type 0} ⦃n : Number D⦄ where
  open n use {literal, sub, lt, le, eq}

  abbrev pub nought : D
  nought = literal 0 0

  abbrev pub hundred : D
  hundred = literal 100 0

  -- `max(a, b)` keeps `a` unless `b > a`.
  abbrev pub max_of : D → D → D
  max_of a b = if lt a b then b else a

  -- `min(a, b)` keeps `a` unless `b < a`.
  abbrev pub min_of : D → D → D
  min_of a b = if lt b a then b else a

  abbrev pub abs_of : D → D
  abs_of a = if lt a nought then sub nought a else a

  -- a number in a Boolean position: anything but 0
  abbrev pub is_truthy : D → Bool
  is_truthy a = not (eq a nought)

  -- `a or b`, where both may be `None`
  abbrev pub or_value : Option D → Option D → Option D
  or_value none b = b
  or_value (some a) b = if is_truthy a then some a else b

  -- `a or 0`
  abbrev pub or_nought : Option D → D
  or_nought none = nought
  or_nought (some a) = if is_truthy a then a else nought

  -- `a or 0` at a column that is never null
  abbrev pub truthy_or_nought : D → D
  truthy_or_nought a = if is_truthy a then a else nought

  -- `low <= x <= high`
  abbrev pub within : D → D → D → Bool
  within low x high = le low x && le x high
