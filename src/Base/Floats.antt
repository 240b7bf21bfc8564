-- ===== src/Base/Floats.antt =====
-- float32 and float64: any type with the constants and operations that the code uses.
use Prim.Native.Nat.{ℕ}
use mathlib.Core.Path.{◌≡◌}
use mathlib.Core.Bool.{Bool, true, false, ◌||◌}
use inferno_autoscaler.Base.Int.{ℤ, pos}

pub record Float (F : Type 0) : Type 0 where
  pub of_int : ℤ → F
  -- the literal m / 10^k
  pub decimal : ℕ → ℕ → F
  pub add : F → F → F
  pub sub : F → F → F
  pub mul : F → F → F
  pub div : F → F → F
  pub lt : F → F → Bool
  pub eq : F → F → Bool
  -- math.MaxFloat32
  pub max_float : F

module _ {F : Type 0} ⦃f : Float F⦄ where
  abbrev pub of_nat : ℕ → F
  of_nat n = f.of_int (pos n)

  abbrev pub nought : F
  nought = f.of_int (pos 0)

  -- x >= y; false where either is NaN
  abbrev pub ge : F → F → Bool
  ge x y = f.lt y x || f.eq x y

  abbrev pub IsNumber : F → Type 0
  IsNumber x = f.eq x x ≡ true

-- IEEE 754 comparison. NaN is the value that is not `==` itself; the order is total away from it.
pub record IsOrdered (F : Type 0) ⦃f : Float F⦄ : Type 0 where
  pub lt_irrefl : (x : F) → f.lt x x ≡ false
  pub lt_asym : (x y : F) → f.lt x y ≡ true → f.lt y x ≡ false
  pub lt-ne-eq : (x y : F) → f.lt x y ≡ true → f.eq x y ≡ false
  pub eq_sym : (x y : F) → f.eq x y ≡ true → f.eq y x ≡ true
  pub tri :
      (x y : F) → IsNumber x → IsNumber y → f.lt x y ≡ false → f.lt y x ≡ false → f.eq x y ≡ true
  -- "not below" is transitive through a number
  pub not_lt_trans :
      (x y z : F) → IsNumber y → f.lt y x ≡ false → f.lt z y ≡ false → f.lt z x ≡ false
  -- only numbers compare, and every converted integer is one
  pub lt-IsNumber : (x y : F) → f.lt x y ≡ true → IsNumber x × IsNumber y
  pub of_int-IsNumber : (n : ℤ) → IsNumber (f.of_int n)
  pub eq-not_lt : (x y : F) → f.eq x y ≡ true → f.lt x y ≡ false
