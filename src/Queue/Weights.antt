-- ===== src/Queue/Weights.antt =====
-- pkg/analyzer/mm1modelstatedependent.go: the loops of computeProbabilities and computeStatistics over
-- the state probabilities.
use inferno_autoscaler.Base.{
  ℕ, zero, suc, ◌+◌, ◌-◌, Bool, true, ◌&&◌, ◌||◌, not, List, [], ◌∷◌, none, some, ltb, ◌==◌,
  if◌then◌else◌, length, get_elem?, map, Float, of_nat, nought, Double, Conversion,
}

abbrev pub max_rescalings : ℕ
max_rescalings = 4

abbrev pub replicate {ℓ} : {A : Type ℓ} → ℕ → A → List A
replicate zero x = []
replicate (suc n) x = x ∷ replicate n x

module _ {D : Type 0} ⦃e : Float D⦄ where
  -- p[i]; 0 out of range, where the code panics. An analyzer has an entry for every i up to K
  -- (Queue.WellFormed).
  abbrev pub at : List D → ℕ → D
  at ps i = elim (get_elem? ps i) [ none ↦ nought | some x ↦ x ]

  -- p[i] /= s, for every i
  abbrev pub divide_all : List D → D → List D
  divide_all ps s = map (λ x. e.div x s) ps

module _ {D : Type 0} ⦃e : Float D⦄ ⦃d : Double D⦄ where
  open d use {is_inf, is_nan, max_double}

  -- math.MaxFloat64 / float64(m.K)
  abbrev pub scale_of : ℕ → D
  scale_of k = e.div max_double (of_nat k)

  -- The condition of the rescaling loop.
  unfoldable pub is_out_of_range : D → Bool
  is_out_of_range x = e.lt x nought || is_inf x || is_nan x

  -- The condition of the rescaling in the sum.
  unfoldable pub sum_overflows : D → Bool
  sum_overflows x = e.lt x nought || is_inf x

module _ {F D : Type 0} ⦃f : Float F⦄ ⦃e : Float D⦄ ⦃d : Double D⦄ ⦃c : Conversion F D⦄ where
  open c use {widen}

  -- The rate with n + 1 requests: that of the largest batch, where there are more. The list of rates
  -- is not empty (the configuration check of the analyzer).
  unfoldable pub rate_at : List F → ℕ → D
  rate_at rates n =
      let i = if ltb n (length rates) then n else length rates - 1 in
      elim (get_elem? rates i) [ none ↦ widen nought | some r ↦ widen r ]

  abbrev pub next_weight : (lambda : F) (rate x : D) → D
  next_weight lambda rate x = e.div (e.mul x (widen lambda)) rate

  -- The rescaling loop, on fuel. `x` is p[n] and `older` p[n-1], ..., p[0]; the result is p[n+1], ...,
  -- p[0], and whether the loop has ended.
  unfoldable pub rescale :
      ℕ → (scale : D) (lambda : F) (rate x : D) (older : List D) → D × List D × Bool
  rescale zero scale lambda rate x older =
      let next = next_weight lambda rate x in (next, x ∷ older, not (is_out_of_range next))
  rescale (suc fuel) scale lambda rate x older =
      let next = next_weight lambda rate x in
      let again = rescale fuel scale lambda rate (e.div x scale) (divide_all older scale) in
      if is_out_of_range next then again else (next, x ∷ older, true)

  -- The weights p[n+1], ..., from p[n] = x on, `left` of them. The result is the whole list, newest
  -- first, and whether each rescaling loop has ended.
  unfoldable pub weigh :
      (left n : ℕ) (scale : D) (lambda : F) (rates : List F) (x : D) (older : List D)
      (settled : Bool)
      → List D × Bool
  weigh zero n scale lambda rates x older settled = (x ∷ older, settled)
  weigh (suc left) n scale lambda rates x older settled =
      let (next, older', ended) = rescale max_rescalings scale lambda (rate_at rates n) x older in
      weigh left (n + 1) scale lambda rates next older' (settled && ended)

module _ {D : Type 0} ⦃e : Float D⦄ where
  -- The list in the other order.
  unfoldable pub reverse_onto : List D → List D → List D
  reverse_onto [] ys = ys
  reverse_onto (x ∷ xs) ys = reverse_onto xs (x ∷ ys)

  -- acc + p[0] + ... + p[count-1]
  unfoldable pub sum_first : (count : ℕ) → D → List D → D
  sum_first zero acc ps = acc
  sum_first (suc count) acc [] = acc
  sum_first (suc count) acc (x ∷ ps) = sum_first count (e.add acc x) ps

module _ {D : Type 0} ⦃e : Float D⦄ ⦃d : Double D⦄ where
  -- The normalisation's sum, over n, n + 1, ..., `left` of them, which rescales the list on overflow.
  unfoldable pub sum_loop : (left n : ℕ) (scale sum : D) (ps : List D) → D × List D
  sum_loop zero n scale sum ps = (sum, ps)
  sum_loop (suc left) n scale sum ps =
      let sum' = e.add sum (at ps n) in
      let ps' = divide_all ps scale in
      let rescaled = sum_loop left (n + 1) scale (sum_first (n + 1) nought ps') ps' in
      let kept = sum_loop left (n + 1) scale sum' ps in
      if sum_overflows sum' then rescaled else kept

  -- The loop of computeStatistics over i, with the average number in system, the sum of the
  -- probabilities and the average number in servers.
  unfoldable pub average_loop :
      (num i : ℕ) → (in_system sum_p in_servers : D) → (ps : List D) → D × D
  average_loop num i in_system sum_p in_servers [] = (in_system, in_servers)
  average_loop num i in_system sum_p in_servers (x ∷ ps) =
      let in_system' = e.add in_system (e.mul (of_nat i) x) in
      let sum_p' = e.add sum_p x in
      let in_servers' =
        if i == num
        then e.add in_system' (e.mul (e.sub (of_nat 1) sum_p') (of_nat num))
        else in_servers in
      average_loop num (i + 1) in_system' sum_p' in_servers' ps

  -- p[1], ..., p[K]
  abbrev pub later : List D → List D
  later [] = []
  later (x ∷ ps) = ps
