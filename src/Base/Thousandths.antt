-- ===== src/Base/Thousandths.antt =====
-- Thousandths as a stand-in for floats in tests: exact sums and order, products and quotients rounded
-- toward zero, and no NaN.
use Prim.Native.Nat.{ℕ, suc, ◌+◌, ◌*◌, ◌/◌, ◌^◌}
use mathlib.Core.Bool.{Bool, true, false}
use native.Mathlib.Omega.{arith}
use inferno_autoscaler.Base.Tests.{ltb, ◌==◌}
use inferno_autoscaler.Base.Int.{ℤ, pos, negsuc, sub_ℕ}
use inferno_autoscaler.Base.Floats.{Float, IsOrdered}
use inferno_autoscaler.Base.Doubles.{Double, Conversion}

abbrev pub Milli : Type 0
Milli = ℤ

abbrev pos_part : ℤ → ℕ
pos_part (pos n) = n
pos_part (negsuc n) = 0

abbrev neg_part : ℤ → ℕ
neg_part (pos n) = 0
neg_part (negsuc n) = suc n

abbrev lt_ℤ : ℤ → ℤ → Bool
lt_ℤ (pos a) (pos b) = ltb a b
lt_ℤ (pos a) (negsuc b) = false
lt_ℤ (negsuc a) (pos b) = true
lt_ℤ (negsuc a) (negsuc b) = ltb b a

abbrev eq_ℤ : ℤ → ℤ → Bool
eq_ℤ (pos a) (pos b) = a == b
eq_ℤ (negsuc a) (negsuc b) = a == b
eq_ℤ _ _ = false

-- The product or quotient `op` of the sizes, under the sign of the product.
abbrev signed : (ℕ → ℕ → ℕ) → ℤ → ℤ → ℤ
signed op (pos a) (pos b) = pos (op a b)
signed op (pos a) (negsuc b) = sub_ℕ 0 (op a (suc b))
signed op (negsuc a) (pos b) = sub_ℕ 0 (op (suc a) b)
signed op (negsuc a) (negsuc b) = pos (op (suc a) (suc b))

instance abbrev pub milli_float : Float Milli
milli_float = record {
  of_int = λ n. signed (λ a b. a * b) n (pos 1000);
  decimal = λ m k. pos (m * 1000 / 10 ^ k);
  add = λ a b. sub_ℕ (pos_part a + pos_part b) (neg_part a + neg_part b);
  sub = λ a b. sub_ℕ (pos_part a + neg_part b) (neg_part a + pos_part b);
  mul = signed (λ a b. a * b / 1000);
  div = signed (λ a b. a * 1000 / b);
  lt = lt_ℤ;
  eq = eq_ℤ;
  max_float = pos 1_000_000_000_000;
}

-- Rounded up to whole units.
abbrev ceil_milli : ℤ → ℤ
ceil_milli (pos n) = pos ((n + 999) / 1000 * 1000)
ceil_milli (negsuc n) = sub_ℕ 0 (suc n / 1000 * 1000)

abbrev whole_units : ℤ → ℤ
whole_units (pos n) = pos (n / 1000)
whole_units (negsuc n) = sub_ℕ 0 (suc n / 1000)

-- float64 in the same numbers. No modelled test needs a power.
instance abbrev pub milli_double : Double Milli
milli_double = record {
  is_inf = λ x. false;
  is_nan = λ x. false;
  max_double = pos 1_000_000_000_000_000;
  pow = λ x y. x;
  ceil = ceil_milli;
  to_int = whole_units;
}

instance abbrev pub milli_conversion : Conversion Milli Milli
milli_conversion = record { widen = λ x. x; narrow = λ x. x }

pub Milli-IsOrdered : IsOrdered Milli
Milli-IsOrdered = record {
  lt_irrefl = λ x. ground arith;
  lt_asym = λ x y h. ground arith;
  lt-ne-eq = λ x y h. ground arith;
  eq_sym = λ x y h. ground arith;
  tri = λ x y m n p q. ground arith;
  not_lt_trans = λ x y z n p q. ground arith;
  lt-IsNumber = λ x y h. ground arith;
  of_int-IsNumber = λ n. ground arith;
  eq-not_lt = λ x y h. ground arith;
}
