-- ===== src/Decimal/Order.antt =====
-- Consequences of the order of the decimals, which the components share.
use binance_oi_square_trader.Prelude.{◌≡◌, inl, inr, true, arith, if◌then◌else◌, Bool-cases}
use binance_oi_square_trader.Decimal.{Decimal, IsDecimal, ◌≼◌, ◌≺◌}

module _ {ℓ} {D : Type ℓ} ⦃d : Decimal D⦄ (laws : IsDecimal D) where
  open laws use {lt_irrefl, lt_trans, le_trans, greater_than_lem, greater_than_or_equal_lem}

  pub le_of_lt : (x y : D) → x ≺ y → x ≼ y
  le_of_lt x y h = elim (Bool-cases (d.less_than y x)) [
    | inl back ↦ absurd (ground (arith, lt_trans x y x h back, lt_irrefl x))
    | inr e ↦ e
  ]

  -- The smaller one of two values, as a loop keeps it, is below both.
  pub smaller-le : (x y : D) → let m = if d.less_than x y then x else y in (m ≼ x) × (m ≼ y)
  smaller-le x y = ground (arith, le_of_lt x y, lt_irrefl x, lt_irrefl y)

  -- The larger one is above both.
  pub larger-ge : (x y : D) → let m = if d.greater_than x y then x else y in (x ≼ m) × (y ≼ m)
  larger-ge x y = ground (arith, greater_than_lem x y, le_of_lt y x, lt_irrefl x, lt_irrefl y)

  -- `greater_than` is a strict order: what is above a bound is above everything under the bound.
  pub gt_of_gt-le : (x y z : D) → d.greater_than x y ≡ true → z ≼ y → d.greater_than x z ≡ true
  gt_of_gt-le x y z h k = elim (Bool-cases (d.less_than z x)) [
    | inl e ↦ rw (greater_than_lem x z) e
    | inr e ↦ let down : x ≼ y = le_trans x z y e k in absurd (ground (arith, greater_than_lem x y))
  ]
