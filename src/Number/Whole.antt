-- ===== src/Number/Whole.antt =====
-- Whole numbers as an instance, at which the theorems are exercised: Python's integers, with
-- division rounded towards 0.
use native.Mathlib.Nat.{mul-le-mul_right, div-mul-le_self}
use trade_ai_server.Prelude.{◌≡◌, refl, ◌*◌, ◌≤◌, ◌/◌, ◌^◌, ◌+◌, true, arith}
use trade_ai_server.Prelude.Int.{ℤ, pos, ◌≤ℤ◌, negsuc, ◌+ℤ◌, ◌-ℤ◌, ◌*ℤ◌, ltb_ℤ, leb_ℤ, eqb_ℤ, sub_ℕ}
use trade_ai_server.Number.{Number}
use trade_ai_server.Number.Laws.{IsOrdered, IsExact, IsDecimal}

-- truncated quotient; division by 0 gives 0
unfoldable pub div_ℤ : ℤ → ℤ → ℤ
div_ℤ (pos a) (pos b) = pos (a / b)
div_ℤ (pos a) (negsuc b) = sub_ℕ 0 (a / (b + 1))
div_ℤ (negsuc a) (pos b) = sub_ℕ 0 ((a + 1) / b)
div_ℤ (negsuc a) (negsuc b) = pos ((a + 1) / (b + 1))

instance abbrev pub whole_number : Number ℤ
whole_number = record {
  literal = λ n k. pos (n / 10 ^ k);
  add = ◌+ℤ◌;
  sub = ◌-ℤ◌;
  mul = ◌*ℤ◌;
  div = div_ℤ;
  lt = ltb_ℤ;
  le = leb_ℤ;
  eq = eqb_ℤ;
  is_finite = λ _. true;
  whole = λ x. x;
  of_int = λ x. x;
  quantize = λ _ x. x;
  round_half_up = λ _ x. x;
  to_decimal = λ x. x;
  to_float = λ x. x;
  text = λ _. "n";
}

pub ℤ-IsOrdered : IsOrdered ℤ
ℤ-IsOrdered = record {
  le_refl = λ x. ground arith;
  le_trans = λ x y z h k. ground arith;
  lt-not-le = λ x y. ground arith;
  le_of_lt = λ x y h. ground arith;
  le_of_eq = λ x y h. ground arith;
}

lots_mono :
    (a b y : ℤ) → pos 0 ≤ℤ a → a ≤ℤ b → ltb_ℤ (pos 0) y ≡ true → leb_ℤ (a *ℤ y) (b *ℤ y) ≡ true
unfolding ◌*ℤ◌
lots_mono (pos a) (pos b) (pos y) h k l =
    let m : a * y ≤ b * y = mul-le-mul_right y (omega arith) in ground arith
lots_mono (pos a) (negsuc b) y h k l = absurd (omega arith)
lots_mono (negsuc a) b y h k l = absurd (omega arith)
lots_mono (pos a) (pos b) (negsuc y) h k l = ground arith

floor_mul-le :
    (x y : ℤ) → leb_ℤ (pos 0) x ≡ true → ltb_ℤ (pos 0) y ≡ true → leb_ℤ (div_ℤ x y *ℤ y) x ≡ true
unfolding ◌*ℤ◌ div_ℤ
floor_mul-le (pos x) (pos y) h k = ground (arith, div-mul-le_self x y)
floor_mul-le (negsuc x) y h k = ground arith
floor_mul-le (pos x) (negsuc y) h k = ground arith

pub ℤ-IsExact : IsExact ℤ
unfolding ◌+ℤ◌ ◌-ℤ◌ ◌*ℤ◌ div_ℤ
ℤ-IsExact = record {
  hundred_pos = refl;
  mul_nonneg = λ x y h k. grind arith;
  div_nonneg = λ x y h k. grind arith;
  lots_pos = λ q y h k. grind arith;
  lots_mono = lots_mono;
  floor_mul-le = floor_mul-le;
  add-le_of_le_sub = λ x b c h. ground arith;
  add_pos = λ x y h k. ground arith;
  sub-le_nought = λ x y. ground arith;
  le-add_sub = λ x b c h. ground arith;
}

pub ℤ-IsDecimal : IsDecimal ℤ
ℤ-IsDecimal = record { finite = λ x. refl; same = λ x. refl }
