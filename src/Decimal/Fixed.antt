-- ===== src/Decimal/Fixed.antt =====
-- Decimals with eight places after the point: the laws of `IsDecimal` can be met. Quotients and
-- products are cut off after the eighth place.
use binance_oi_square_trader.Prelude.{
  ℕ, ◌-◌, ◌*◌, ◌/◌, ◌^◌, refl, Bool, not, ◌&&◌, arith, if◌then◌else◌, ℤ, pos, neg_ℤ, ◌+ℤ◌, ◌-ℤ◌,
  ◌*ℤ◌, ltb_ℤ, size_ℤ,
}
use binance_oi_square_trader.Decimal.{Decimal, IsDecimal}

-- n stands for n / 10^8
abbrev pub Fixed : Type 0
Fixed = ℤ

abbrev pub scale : ℕ
scale = 10 ^ 8

-- a quotient with the sign of the product, its size cut off
abbrev pub cut : Bool → ℕ → Fixed
cut minus n = if minus then neg_ℤ (pos n) else pos n

abbrev pub signs_differ : ℤ → ℤ → Bool
signs_differ a b = if ltb_ℤ a (pos 0) then not (ltb_ℤ b (pos 0)) else ltb_ℤ b (pos 0)

abbrev pub mul_fixed : Fixed → Fixed → Fixed
mul_fixed a b = cut (signs_differ a b) (size_ℤ a * size_ℤ b / scale)

abbrev pub div_fixed : Fixed → Fixed → Fixed
div_fixed a b = cut (signs_differ a b) (size_ℤ a * scale / size_ℤ b)

abbrev pub truncate_fixed : Fixed → Fixed
truncate_fixed a = cut (ltb_ℤ a (pos 0)) (size_ℤ a / scale * scale)

abbrev pub from_int_fixed : ℤ → Fixed
from_int_fixed n = n *ℤ pos scale

instance abbrev pub fixed_decimal : Decimal Fixed
fixed_decimal = record {
  from_int = from_int_fixed;
  from_float = λ m e. pos (m * 10 ^ (8 - e));
  add = ◌+ℤ◌;
  sub = ◌-ℤ◌;
  mul = mul_fixed;
  div = div_fixed;
  div_round = λ a b n. div_fixed a b;
  round = λ a n. a;
  truncate = truncate_fixed;
  truncate_to = λ a n. cut (ltb_ℤ a (pos 0)) (size_ℤ a / 10 ^ (8 - n) * 10 ^ (8 - n));
  neg = neg_ℤ;
  abs = λ a. pos (size_ℤ a);
  less_than = ltb_ℤ;
  less_than_or_equal = λ a b. not (ltb_ℤ b a);
  greater_than = λ a b. ltb_ℤ b a;
  greater_than_or_equal = λ a b. not (ltb_ℤ a b);
  is_zero = λ a. not (ltb_ℤ a (pos 0)) && not (ltb_ℤ (pos 0) a);
  is_positive = λ a. ltb_ℤ (pos 0) a;
  is_negative = λ a. ltb_ℤ a (pos 0);
}

-- The order and the tests of the eight-place decimals are as `IsDecimal` asks.
pub Fixed-IsDecimal : IsDecimal Fixed
Fixed-IsDecimal = record {
  less_than_or_equal_lem = λ x y. refl;
  greater_than_lem = λ x y. refl;
  greater_than_or_equal_lem = λ x y. refl;
  is_positive_lem = λ x. refl;
  is_negative_lem = λ x. refl;
  is_zero_lem = λ x. refl;
  lt_irrefl = λ x. ground arith;
  lt_trans = λ x y z p q. ground arith;
  le_trans = λ x y z p q. ground arith;
}
