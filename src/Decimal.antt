-- ===== src/Decimal.antt =====
-- github.com/shopspring/decimal, which the program calls and does not implement. The record holds
-- the operations that the program uses, and `IsDecimal` their documented behaviour: the tests are
-- those of one total order, and a difference is negative just when the order says so.
pub mod Fixed
pub mod Order
use binance_oi_square_trader.Prelude.{
  ℕ, ℤ, pos, ◌≡◌, ◌⊎◌, Bool, true, false, not, ◌&&◌, List, [], ◌∷◌, arith,
}

pub record Decimal {ℓ} (D : Type ℓ) : Type ℓ where
  -- NewFromInt, and NewFromFloat at the literal `m / 10^e`
  pub from_int : ℤ → D
  pub from_float : ℕ → ℕ → D
  pub add : D → D → D
  pub sub : D → D → D
  pub mul : D → D → D
  pub div : D → D → D
  -- DivRound and Round at a number of places, Truncate(0), and Truncate at a number of places
  pub div_round : D → D → ℕ → D
  pub round : D → ℕ → D
  pub truncate : D → D
  pub truncate_to : D → ℕ → D
  pub neg : D → D
  pub abs : D → D
  pub less_than : D → D → Bool
  pub less_than_or_equal : D → D → Bool
  pub greater_than : D → D → Bool
  pub greater_than_or_equal : D → D → Bool
  pub is_zero : D → Bool
  pub is_positive : D → Bool
  pub is_negative : D → Bool

module _ {ℓ} {D : Type ℓ} ⦃d : Decimal D⦄ where
  -- decimal.Zero
  abbrev pub zero_dec : D
  zero_dec = d.from_int (pos 0)

  -- x ≤ y and x < y, by the test of the package
  infix 4 ◌≼◌ ◌≺◌
  abbrev pub ◌≼◌ : D → D → Type 0
  x ≼ y = d.less_than y x ≡ false

  abbrev pub ◌≺◌ : D → D → Type 0
  x ≺ y = d.less_than x y ≡ true

pub record IsDecimal {ℓ} (D : Type ℓ) ⦃d : Decimal D⦄ : Type ℓ where
  pub less_than_or_equal_lem : (x y : D) → d.less_than_or_equal x y ≡ not (d.less_than y x)
  pub greater_than_lem : (x y : D) → d.greater_than x y ≡ d.less_than y x
  pub greater_than_or_equal_lem : (x y : D) → d.greater_than_or_equal x y ≡ not (d.less_than x y)
  pub is_positive_lem : (x : D) → d.is_positive x ≡ d.less_than zero_dec x
  pub is_negative_lem : (x : D) → d.is_negative x ≡ d.less_than x zero_dec
  pub is_zero_lem :
      (x : D) → d.is_zero x ≡ (not (d.less_than x zero_dec) && not (d.less_than zero_dec x))
  pub lt_irrefl : (x : D) → x ≼ x
  pub lt_trans : (x y z : D) → x ≺ y → y ≺ z → x ≺ z
  pub le_trans : (x y z : D) → x ≼ y → y ≼ z → x ≼ z
