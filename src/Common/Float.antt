-- ===== src/Common/Float.antt =====
-- `f64`, which the development does not define: a parameter with the operations that the code uses.
use Prim.Native.Nat.{ℕ}
use mathlib.Core.Bool.{Bool, true, false}
use mathlib.Core.List.{List, [], ◌∷◌}
use mathlib.Core.Path.{◌≡◌}

pub record F64 : Type 1 where
  pub F : Type 0
  pub of_nat : ℕ → F  -- `n as f64`
  pub literal : ℕ → ℕ → F  -- `literal n k` is the literal n / 10^k
  pub add : F → F → F
  pub sub : F → F → F
  pub mul : F → F → F
  pub div : F → F → F
  pub lt : F → F → Bool  -- `<`
  pub le : F → F → Bool  -- `<=`
  pub total_le : F → F → Bool  -- `total_cmp` does not answer `Greater`

module _ (f64 : F64) where
  open f64 use {F, literal, add}

  abbrev pub zero_f : F
  zero_f = literal 0 0

  abbrev sum_from : F → List F → F
  sum_from acc [] = acc
  sum_from acc (x ∷ xs) = sum_from (add acc x) xs

  -- `iter().sum::<f64>()`, from the left.
  unfoldable pub sum_f : List F → F
  sum_f xs = sum_from zero_f xs

-- A total order, as `total_cmp` is one, given by whether it does not answer `Greater`.
pub record IsTotalOrder {A : Type 0} (le : A → A → Bool) : Type 0 where
  pub total : (x y : A) → le x y ≡ false → le y x ≡ true
  pub trans : (x y z : A) → le x y ≡ true → le y z ≡ true → le x z ≡ true
