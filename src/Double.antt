-- ===== src/Double.antt =====
-- `double`, as the program uses it: a type with the operations below. There are no floats to
-- compute with, so every definition that touches a `double` takes an instance of `Double`.
pub mod Micros
pub mod Extremes
use udppingpong.Base.{◌≡◌, Bool, true, false}
use udppingpong.Base.Int.{ℤ}

pub record Double (D : Type 0) : Type 0 where
  pub nought : D
  pub of_int : ℤ → D
  pub add : D → D → D
  pub sub : D → D → D
  pub mul : D → D → D
  pub div : D → D → D
  pub fabs : D → D
  pub lt : D → D → Bool
  pub le : D → D → Bool
  pub eq : D → D → Bool
  -- the cast to `int64_t`
  pub trunc : D → ℤ

-- Laws of the IEEE comparisons, which hold of NaN and the infinities too.
pub record IsOrdered (D : Type 0) ⦃d : Double D⦄ : Type 0 where
  pub lt_trans : (x y z : D) → d.lt x y ≡ true → d.lt y z ≡ true → d.lt x z ≡ true
  pub lt_irrefl : (x : D) → d.lt x x ≡ false
  pub lt_ne : (x y : D) → d.lt x y ≡ true → d.eq y x ≡ false
  pub eq_refl_nought : d.eq d.nought d.nought ≡ true
