-- ===== src/Queue/Exact.antt =====
-- pkg/analyzer/mm1modelstatedependent.go: the probabilities in exact arithmetic, in which the
-- rescaling of computeProbabilities makes no difference.
use inferno_autoscaler.Base.{
  ℕ, zero, suc, ◌+◌, false, List, [], ◌∷◌, ◌≡◌, refl, sym, arith, Float, of_nat, nought,
}
use inferno_autoscaler.Queue.Weights.{at, divide_all, reverse_onto, sum_first}

-- Arithmetic with exact quotients.
pub record IsExact (D : Type 0) ⦃e : Float D⦄ : Type 0 where
  pub div_one : (x : D) → e.div x (of_nat 1) ≡ x
  pub one-ne-zero : e.eq (of_nat 1) nought ≡ false
  pub mul-ne-zero :
      (x y : D) → e.eq x nought ≡ false → e.eq y nought ≡ false → e.eq (e.mul x y) nought ≡ false
  pub add_zero : (x : D) → e.add x nought ≡ x
  pub zero_div : (x : D) → e.div nought x ≡ nought
  pub div_div : (x y z : D) → e.div (e.div x y) z ≡ e.div x (e.mul y z)
  pub div_comm : (x y z : D) → e.div (e.div x y) z ≡ e.div (e.div x z) y
  pub mul-div : (x y z : D) → e.mul (e.div x y) z ≡ e.div (e.mul x z) y
  pub add-div : (x y z : D) → e.add (e.div x z) (e.div y z) ≡ e.div (e.add x y) z
  pub div_self : (x : D) → e.eq x nought ≡ false → e.div x x ≡ of_nat 1
  pub div-mul_cancel : (x y : D) → e.eq y nought ≡ false → e.mul (e.div x y) y ≡ x
  pub div-div_cancel :
      (x y z : D) → e.eq z nought ≡ false → e.div (e.div x z) (e.div y z) ≡ e.div x y

pub plus_zero : (n : ℕ) → n + 0 ≡ n
plus_zero n = omega arith

pub zero_add : (n : ℕ) → 0 + n ≡ n
zero_add n = omega arith

pub add_one : (n : ℕ) → n + 1 ≡ suc n
add_one n = omega arith

pub suc-add : (n i : ℕ) → suc n + i ≡ n + suc i
suc-add n i = omega arith

pub add-suc : (n i : ℕ) → n + 1 + i ≡ n + suc i
add-suc n i = omega arith

module _ {D : Type 0} ⦃e : Float D⦄ (laws : IsExact D) where
  pub divide_all-divide_all :
      (ws : List D) (y z : D) → divide_all (divide_all ws y) z ≡ divide_all ws (e.mul y z)
  divide_all-divide_all [] y z = refl
  divide_all-divide_all (w ∷ ws) y z = rw (laws.div_div w y z, divide_all-divide_all ws y z)

  pub at-divide_all : (ws : List D) (y : D) (i : ℕ) → at (divide_all ws y) i ≡ e.div (at ws i) y
  at-divide_all [] y i = sym (laws.zero_div y)
  at-divide_all (w ∷ ws) y zero = refl
  at-divide_all (w ∷ ws) y (suc i) = at-divide_all ws y i

  pub sum_first-divide_all :
      (n : ℕ) (acc y : D) (ws : List D)
      → sum_first n (e.div acc y) (divide_all ws y) ≡ e.div (sum_first n acc ws) y
  unfolding sum_first
  sum_first-divide_all zero acc y ws = refl
  sum_first-divide_all (suc n) acc y [] = refl
  sum_first-divide_all (suc n) acc y (w ∷ ws) =
      rw (laws.add-div acc w y) (sum_first-divide_all n (e.add acc w) y ws)

  -- One more term of the sum.
  pub sum_first-suc :
      (n : ℕ) (acc : D) (ws : List D)
      → sum_first (suc n) acc ws ≡ e.add (sum_first n acc ws) (at ws n)
  unfolding sum_first
  sum_first-suc zero acc [] = sym (laws.add_zero acc)
  sum_first-suc zero acc (w ∷ ws) = refl
  sum_first-suc (suc n) acc [] = sym (laws.add_zero acc)
  sum_first-suc (suc n) acc (w ∷ ws) = sum_first-suc n (e.add acc w) ws

  pub reverse_onto-divide_all :
      (xs ys : List D) (y : D)
      → reverse_onto (divide_all xs y) (divide_all ys y) ≡ divide_all (reverse_onto xs ys) y
  unfolding reverse_onto
  reverse_onto-divide_all [] ys y = refl
  reverse_onto-divide_all (x ∷ xs) ys y = reverse_onto-divide_all xs (x ∷ ys) y

  pub divide_all-cancel :
      (ws : List D) (x y : D)
      → e.eq y nought ≡ false
      → divide_all (divide_all ws y) (e.div x y) ≡ divide_all ws x
  divide_all-cancel [] x y nonzero = refl
  divide_all-cancel (w ∷ ws) x y nonzero =
      rw (laws.div-div_cancel w x y nonzero, divide_all-cancel ws x y nonzero)
