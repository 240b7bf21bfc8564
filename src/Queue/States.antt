-- ===== src/Queue/States.antt =====
-- pkg/analyzer/utils.go: what a search keeps of the state of the function.
use inferno_autoscaler.Base.{
  ℕ, zero, suc, Bool, false, true, Option, Float, nought, none, some, if◌then◌else◌,
}
use inferno_autoscaler.Queue.Search.{
  Answer, invalid_evaluation, midpoint, is_close, is_lower, is_upper, max_iterations, search_loop,
  search_inside, search_right, binary_search,
}

module _ {F : Type 0} ⦃f : Float F⦄ {S : Type 0} (eval : S → F → S × Option F) (P : S → Type 0)
    (keeps : (s : S) (x : F) → P s → P (eval s x).0) (target : F) where
  open f use {lt}

  abbrev if_keeps : (b : Bool) (x y : S × Answer F) → P x.0 → P y.0 → P (if b then x else y).0
  if_keeps true x y hx hy = hx
  if_keeps false x y hx hy = hy

  -- An evaluation that fails ends the search.
  answer_keeps :
      (s : S) (o : Option F) (k : F → S × Answer F)
      → P s
      → ((y : F) → P (k y).0)
      → P (let r : S × Answer F = elim o [ none ↦ (s, invalid_evaluation) | some y ↦ k y ] in r).0
  answer_keeps s none k hs hk = hs
  answer_keeps s (some y) k hs hk = hk y

  search_loop-keeps :
      (increasing : Bool) (n : ℕ) (s : S) (a b x : F)
      → P s
      → P (search_loop eval target increasing n s a b x).0
  unfolding search_loop
  search_loop-keeps increasing zero s a b x h = h
  search_loop-keeps increasing (suc n) s a b x h =
      let m = midpoint a b in
      let s' = (eval s m).0 in
      let h' = keeps s m h in
      answer_keeps s' (eval s m).1 _ h' λ y. if_keeps (is_close y target) _ _ h' (
        if_keeps (is_lower increasing target y) _ _ (search_loop-keeps increasing n s' a m m h')
          (search_loop-keeps increasing n s' m b m h'))

  module _ (x_min x_max : F) where
    search_inside-keeps :
        (s : S) (a b : F) → P s → P (search_inside eval x_min x_max target s a b).0
    unfolding search_inside
    search_inside-keeps s a b h = if_keeps (is_lower (lt a b) target a) _ _ h (
        if_keeps (is_upper (lt a b) target b) _ _ h
          (search_loop-keeps (lt a b) max_iterations s x_min x_max nought h))

    search_right-keeps : (s : S) (a : F) → P s → P (search_right eval x_min x_max target s a).0
    unfolding search_right
    search_right-keeps s a h =
        let h' = keeps s x_max h in
        answer_keeps (eval s x_max).0 (eval s x_max).1 _ h'
          λ y. if_keeps (is_close y target) _ _ h' (search_inside-keeps (eval s x_max).0 a y h')

    -- What every evaluation keeps of the state, the search keeps.
    pub binary_search-keeps : (s : S) → P s → P (binary_search eval x_min x_max target s).0
    unfolding binary_search
    binary_search-keeps s h =
        let s' = (eval s x_min).0 in
        let h' = keeps s x_min h in
        if_keeps (lt x_max x_min) _ _ h (
          answer_keeps s' (eval s x_min).1 _ h'
            λ y. if_keeps (is_close y target) _ _ h' (search_right-keeps s' y h'))
