-- ===== src/Base/Float.antt =====
-- `float64`: antt has no floats, so the values and the operations that the code uses are arguments.
use mathlib.Core.Bool.{Bool}
use mathlib.Core.Path.{◌≡◌}
use mathlib.Core.Bool.{true, false}
use falcon_plus_learn.Base.Int.{ℤ}

pub record Float (V : Type 0) : Type 0 where
  pub add : V → V → V
  pub sub : V → V → V
  pub mul : V → V → V
  pub div : V → V → V
  pub abs : V → V
  pub lt : V → V → Bool
  pub le : V → V → Bool
  pub eq : V → V → Bool
  pub of_int : ℤ → V  -- `float64(n)`
  pub epsilon : V  -- the literal 0.0001

-- What IEEE 754 says of `<` on the values in `N`, such as those that are not NaN.
pub record IsOrdered {V : Type 0} (F : Float V) (N : V → Type 0) : Type 0 where
  pub irrefl : (x : V) → N x → F.lt x x ≡ false
  pub asymm : (x y : V) → N x → N y → F.lt x y ≡ true → F.lt y x ≡ false
  pub not_lt_trans :
      (x y z : V) → N x → N y → N z → F.lt x y ≡ false → F.lt y z ≡ false → F.lt x z ≡ false
