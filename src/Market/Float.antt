-- ===== src/Market/Float.antt =====
-- float64 and the functions of Go's package math that the market code calls. The record holds the
-- operations, and `IsFloat64` what IEEE 754 says of the order: a comparison that answers true has
-- no NaN on either side, and the rounding of a decimal literal is monotone.
use binance_oi_square_trader.Prelude.{
  ℕ, ◌-◌, ◌*◌, ◌^◌, ◌≤◌, ◌≡◌, Bool, true, false, not, if◌then◌else◌, ℤ, pos, neg_ℤ, ltb_ℤ, eq_ℤ,
  ◌+ℤ◌, ◌-ℤ◌, size_ℤ,
}
use binance_oi_square_trader.Decimal.Fixed.{Fixed, mul_fixed, div_fixed, from_int_fixed}

pub record Float64 (F : Type 0) : Type 0 where
  -- `float64(n)` of an int, and the literal `m / 10^e`
  pub float64 : ℤ → F
  pub literal : ℕ → ℕ → F
  pub add : F → F → F
  pub sub : F → F → F
  pub mul : F → F → F
  pub div : F → F → F
  pub neg : F → F
  -- math.Abs and math.Max
  pub abs : F → F
  pub max : F → F → F
  -- `x < y`, `x <= y` and `x == y`
  pub lt : F → F → Bool
  pub le : F → F → Bool
  pub eq : F → F → Bool
  -- math.IsNaN(x), and math.IsInf(x, 0)
  pub is_nan : F → Bool
  pub is_inf : F → Bool

pub record IsFloat64 (F : Type 0) ⦃f : Float64 F⦄ : Type 0 where
  pub lt_irrefl : (x : F) → f.lt x x ≡ false
  pub lt_of_lt-le : (x y z : F) → f.lt x y ≡ true → f.le y z ≡ true → f.lt x z ≡ true
  pub literal-le : (m n e : ℕ) → m ≤ n → f.le (f.literal m e) (f.literal n e) ≡ true

-- Numbers with eight places, which have no NaN and no infinity, in place of floats.
instance abbrev pub fixed_float : Float64 Fixed
fixed_float = record {
  float64 = from_int_fixed;
  literal = λ m e. pos (m * 10 ^ (8 - e));
  add = ◌+ℤ◌;
  sub = ◌-ℤ◌;
  mul = mul_fixed;
  div = div_fixed;
  neg = neg_ℤ;
  abs = λ a. pos (size_ℤ a);
  max = λ a b. if ltb_ℤ a b then b else a;
  lt = ltb_ℤ;
  le = λ a b. not (ltb_ℤ b a);
  eq = eq_ℤ;
  is_nan = λ a. false;
  is_inf = λ a. false;
}
