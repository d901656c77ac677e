-- ===== src/Number/Laws.antt =====
-- What theorems assume of the numbers where they assume anything: the order of finite numbers, and
-- a few facts of products and quotients, as named hypotheses.
use trade_ai_server.Prelude.{◌≡◌, true, false, not, arith}
use trade_ai_server.Prelude.Int.{ℤ, pos, ◌≤ℤ◌}
use trade_ai_server.Number.{hundred, Number, nought, max_of, min_of, truthy_or_nought}

-- Finite numbers are in a total order; `==` is that order both ways.
pub record IsOrdered (D : Type 0) ⦃n : Number D⦄ : Type 0 where
  pub le_refl : (x : D) → n.le x x ≡ true
  pub le_trans : (x y z : D) → n.le x y ≡ true → n.le y z ≡ true → n.le x z ≡ true
  pub lt-not-le : (x y : D) → n.lt x y ≡ not (n.le y x)
  pub le_of_lt : (x y : D) → n.lt x y ≡ true → n.le x y ≡ true
  pub le_of_eq : (x y : D) → n.eq x y ≡ true → (n.le x y ≡ true) × (n.le y x ≡ true)

module _ {D : Type 0} ⦃n : Number D⦄ (o : IsOrdered D) where
  pub le_of_not_lt : (x y : D) → n.lt x y ≡ false → n.le y x ≡ true
  le_of_not_lt x y h = ground (arith, o.lt-not-le x y)

  pub not_lt_of_le : (x y : D) → n.le y x ≡ true → n.lt x y ≡ false
  not_lt_of_le x y h = ground (arith, o.lt-not-le x y)

  pub lt-le_trans : (x y z : D) → n.lt x y ≡ true → n.le y z ≡ true → n.lt x z ≡ true
  lt-le_trans x y z h k = ground (arith, o.lt-not-le x y, o.lt-not-le x z, o.le_trans y z x k)

  pub le-lt_trans : (x y z : D) → n.le x y ≡ true → n.lt y z ≡ true → n.lt x z ≡ true
  le-lt_trans x y z h k =
      ground
        (arith, o.lt-not-le y z, o.lt-not-le x z, λ (p : n.le z x ≡ true). o.le_trans z x y p h)

  pub le-max_left : (x y : D) → n.le x (max_of x y) ≡ true
  le-max_left x y = ground (arith, o.le_refl x, o.le_of_lt x y)

  pub le-max_right : (x y : D) → n.le y (max_of x y) ≡ true
  le-max_right x y = ground (arith, o.le_refl y, le_of_not_lt x y)

  pub min-le_left : (x y : D) → n.le (min_of x y) x ≡ true
  min-le_left x y = ground (arith, o.le_refl x, o.le_of_lt y x)

  pub min-le_right : (x y : D) → n.le (min_of x y) y ≡ true
  min-le_right x y = ground (arith, o.le_refl y, le_of_not_lt y x)

  -- `x or 0` is the same amount as `x`.
  pub le-truthy_or_nought : (x : D) → n.le x (truthy_or_nought x) ≡ true
  le-truthy_or_nought x = ground (arith, o.le_refl x, o.le_of_eq x nought)

-- Arithmetic without rounding errors, as far as amounts and whole lots are compared.
pub record IsExact (D : Type 0) ⦃n : Number D⦄ : Type 0 where
  pub hundred_pos : n.lt nought hundred ≡ true
  pub mul_nonneg :
      (x y : D) → n.le nought x ≡ true → n.le nought y ≡ true → n.le nought (n.mul x y) ≡ true
  pub div_nonneg :
      (x y : D) → n.le nought x ≡ true → n.lt nought y ≡ true → n.le nought (n.div x y) ≡ true
  pub lots_pos :
      (q : ℤ) (y : D)
      → pos 1 ≤ℤ q
      → n.lt nought y ≡ true
      → n.lt nought (n.mul (n.of_int q) y) ≡ true
  pub lots_mono :
      (a b : ℤ) (y : D)
      → pos 0 ≤ℤ a
      → a ≤ℤ b
      → n.lt nought y ≡ true
      → n.le (n.mul (n.of_int a) y) (n.mul (n.of_int b) y) ≡ true
  pub floor_mul-le :
      (x y : D)
      → n.le nought x ≡ true
      → n.lt nought y ≡ true
      → n.le (n.mul (n.of_int (n.whole (n.div x y))) y) x ≡ true
  pub add-le_of_le_sub : (x b c : D) → n.le x (n.sub b c) ≡ true → n.le (n.add c x) b ≡ true
  pub add_pos :
      (x y : D) → n.lt nought x ≡ true → n.lt nought y ≡ true → n.lt nought (n.add x y) ≡ true
  pub sub-le_nought : (x y : D) → n.le (n.sub x y) nought ≡ n.le x y
  pub le-add_sub : (x b c : D) → n.le c b ≡ true → n.le x (n.add b (n.sub x c)) ≡ true

-- Values that `Decimal` reads as they are: all finite, none changed.
pub record IsDecimal (D : Type 0) ⦃n : Number D⦄ : Type 0 where
  pub finite : (x : D) → n.is_finite x ≡ true
  pub same : (x : D) → n.to_decimal x ≡ x
