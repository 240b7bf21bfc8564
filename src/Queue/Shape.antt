-- ===== src/Queue/Shape.antt =====
-- pkg/analyzer: the sizes that the code relies on when it indexes the probabilities and the rates.
use inferno_autoscaler.Base.{
  ℕ, zero, suc, ◌+◌, Bool, true, false, ◌&&◌, List, [], ◌∷◌, ◌≡◌, refl, ap, ◌∙◌, arith, inl, inr,
  Bool-cases, if◌then◌else◌, length, Float, of_nat, nought, Double, Conversion,
}
use inferno_autoscaler.Queue.Weights.{
  at, divide_all, is_out_of_range, sum_overflows, rate_at, next_weight, rescale, weigh, scale_of,
  max_rescalings, reverse_onto, sum_loop, sum_first, replicate,
}
use inferno_autoscaler.Queue.Model.{
  QueueModel, compute_rho, compute_probabilities, compute_statistics, is_solvable, solve_queue,
}

module _ {D : Type 0} ⦃e : Float D⦄ where
  length-divide_all : (ps : List D) (s : D) → length (divide_all ps s) ≡ length ps
  length-divide_all [] s = refl
  length-divide_all (x ∷ ps) s = ap suc (length-divide_all ps s)

  length-sum_loop :
      ⦃d : Double D⦄ (left n : ℕ) (scale sum : D) (ps : List D)
      → length (sum_loop left n scale sum ps).1 ≡ length ps
  unfolding sum_loop
  length-sum_loop zero n scale sum ps = refl
  length-sum_loop (suc left) n scale sum ps =
      let ps' = divide_all ps scale in
      elim (Bool-cases (sum_overflows (e.add sum (at ps n)))) [
        | inl over ↦ rw over (
            length-sum_loop left (n + 1) scale (sum_first (n + 1) nought ps') ps'
            ∙ length-divide_all ps scale)
        | inr fits ↦ rw fits (length-sum_loop left (n + 1) scale (e.add sum (at ps n)) ps)
      ]

  length-reverse_onto : (xs ys : List D) → length (reverse_onto xs ys) ≡ length xs + length ys
  unfolding reverse_onto
  length-reverse_onto [] ys = omega arith
  length-reverse_onto (x ∷ xs) ys = omega (arith, length-reverse_onto xs (x ∷ ys))

pub length-replicate {ℓ} : {A : Type ℓ} (n : ℕ) (x : A) → length (replicate n x) ≡ n
length-replicate zero x = refl
length-replicate (suc n) x = ap suc (length-replicate n x)

module _ {F D : Type 0} ⦃f : Float F⦄ ⦃e : Float D⦄ ⦃d : Double D⦄ ⦃c : Conversion F D⦄ where
  length-rescale :
      (fuel : ℕ) (scale : D) (lambda : F) (r x : D) (older : List D)
      → length (rescale fuel scale lambda r x older).1 ≡ suc (length older)
  unfolding rescale
  length-rescale zero scale lambda r x older = refl
  length-rescale (suc fuel) scale lambda r x older =
      elim (Bool-cases (is_out_of_range (next_weight lambda r x))) [
        | inl outside ↦ rw outside (
            length-rescale fuel scale lambda r (e.div x scale) (divide_all older scale)
            ∙ ap suc (length-divide_all older scale))
        | inr fits ↦ rw fits refl
      ]

  length-weigh :
      (left n : ℕ) (scale : D) (lambda : F) (rates : List F) (x : D) (older : List D)
      (settled : Bool)
      → length (weigh left n scale lambda rates x older settled).0 ≡ suc (length older) + left
  unfolding weigh
  length-weigh zero n scale lambda rates x older settled = omega arith
  length-weigh (suc left) n scale lambda rates x older settled =
      let r = rate_at rates n in
      let out = rescale max_rescalings scale lambda r x older in
      let rest = length-weigh left (n + 1) scale lambda rates out.0 out.1 (settled && out.2) in
      let older' = length-rescale max_rescalings scale lambda r x older in omega arith

  compute_probabilities-places : (m : QueueModel F D) → length (compute_probabilities m).p ≡ suc m.k
  unfolding compute_probabilities
  compute_probabilities-places m =
      let scale = scale_of m.k in
      let ws = weigh m.k 0 scale m.lambda m.serv_rate (of_nat 1) [] m.settled in
      let first = reverse_onto ws.0 [] in
      let out = sum_loop (suc m.k) 0 scale nought first in
      length-divide_all out.1 out.0
      ∙ length-sum_loop (suc m.k) 0 scale nought first
      ∙ length-reverse_onto ws.0 []
      ∙ omega (arith, length-weigh m.k 0 scale m.lambda m.serv_rate (of_nat 1) [] m.settled)

  -- What an operation keeps of a model: its list of probabilities has a place for each number of
  -- requests up to K, and K and the rates stay.
  abbrev pub KeepsShape : QueueModel F D → QueueModel F D → Type 0
  KeepsShape m m' = (length m'.p ≡ suc m'.k) × (m'.k ≡ m.k) × (m'.serv_rate ≡ m.serv_rate)

  if-KeepsShape :
      (b : Bool) (m x y : QueueModel F D)
      → KeepsShape m x
      → KeepsShape m y
      → KeepsShape m (if b then x else y)
  if-KeepsShape true m x y hx hy = hx
  if-KeepsShape false m x y hx hy = hy

  compute_statistics-KeepsShape :
      (m : QueueModel F D) → length m.p ≡ suc m.k → KeepsShape m (compute_statistics m)
  unfolding compute_statistics compute_probabilities
  compute_statistics-KeepsShape m h =
      if-KeepsShape m.is_valid m _ m (compute_probabilities-places m, refl, refl) (h, refl, refl)

  pub solve_queue-KeepsShape :
      (m : QueueModel F D) (lambda mu : F)
      → length m.p ≡ suc m.k
      → KeepsShape m (solve_queue m lambda mu)
  unfolding solve_queue
  solve_queue-KeepsShape m lambda mu h =
      let valid = is_solvable m lambda mu in
      let m' = record m { lambda = lambda; mu = mu; rho = compute_rho m; is_valid = valid } in
      if-KeepsShape valid m (compute_statistics m') m' (compute_statistics-KeepsShape m' h)
        (h, refl, refl)
