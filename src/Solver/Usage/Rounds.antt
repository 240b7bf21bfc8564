-- ===== src/Solver/Usage/Rounds.antt =====
-- One round of allocate: its entry gets nearer to its end, and the pool keeps within the capacity.
use Prim.Native.Nat.{Ordering}
use inferno_autoscaler.Base.{
  ℕ, zero, suc, ◌+◌, ◌-◌, ◌*◌, ◌<◌, ◌⊎◌, List, [], ◌∷◌, some, ◌≡◌, refl, arith, ltb, ◌==◌, length,
  get_elem?, All, Table, lookup, Float, Option-cases, Bool-cases, inl, inr,
}
use inferno_autoscaler.Core.Types.{Allocation, Server, System, Accelerator, Model}
use inferno_autoscaler.Solver.Entries.{ServerEntry, reinsert, insert_at}
use inferno_autoscaler.Core.Server.{set_allocation}
use inferno_autoscaler.Solver.Usage.{PoolFits, put-Fits, Extends, insert-Extends}
use inferno_autoscaler.Solver.Allocate.{
  Pool, Outcome, skipped, placed, advanced, exhausted, panicked, next_candidate, try_place,
  try_candidate, visit_entry, rounds_left, has_units, units_per_replica,
}

module _ {ℓ κ} {A : Type ℓ} (P : A → Type κ) where
  insert_at-All : (i : ℕ) (x : A) (xs : List A) → P x → All P xs → All P (insert_at i x xs)
  unfolding insert_at
  insert_at-All zero x xs p ps = (p, ps)
  insert_at-All (suc i) x [] p ps = (p, ps)
  insert_at-All (suc i) x (y ∷ ys) p ps = (ps.0, insert_at-All i x ys p ps.1)

  pub reinsert-All :
      (order : A → A → Ordering) (x : A) (xs : List A)
      → P x
      → All P xs
      → All P (reinsert order x xs)
  unfolding reinsert
  reinsert-All order x xs p ps = insert_at-All _ x xs p ps

get_elem?-some {ℓ} :
    {A : Type ℓ} (xs : List A) (i : ℕ) → i < length xs → (x : A) × (get_elem? xs i ≡ some x)
get_elem?-some [] i h = elim h [ ]
get_elem?-some (x ∷ xs) zero h = (x, refl)
get_elem?-some (x ∷ xs) (suc i) h = get_elem?-some xs i (omega arith)

module _ {F : Type 0} where
  -- The current candidate of an entry exists.
  abbrev pub HasCurrent : ServerEntry F → Type 0
  HasCurrent e = e.cur_index < length e.allocations

  -- An entry of allocate has a current candidate, or none at all.
  abbrev pub IsReady : ServerEntry F → Type 0
  IsReady e = ((length e.allocations ≡ 0) × (e.cur_index ≡ 0)) ⊎ HasCurrent e

  abbrev pub steps_left : ServerEntry F → ℕ
  steps_left e = suc (length e.allocations) - e.cur_index

  pub steps_left-pos : (e : ServerEntry F) → IsReady e → 0 < steps_left e
  steps_left-pos e (inl (empty, start)) = omega arith
  steps_left-pos e (inr has) = omega arith

  abbrev pub total_left : List (ServerEntry F) → ℕ
  total_left [] = 0
  total_left (e ∷ es) = steps_left e + total_left es

  insert_at-left :
      (i : ℕ) (e : ServerEntry F) (es : List (ServerEntry F))
      → total_left (insert_at i e es) ≡ steps_left e + total_left es
  unfolding insert_at
  insert_at-left zero e es = refl
  insert_at-left (suc i) e [] = refl
  insert_at-left (suc i) e (d ∷ es) = omega (arith, insert_at-left i e es)

  pub reinsert-left :
      (order : ServerEntry F → ServerEntry F → Ordering) (e : ServerEntry F)
      (es : List (ServerEntry F))
      → total_left (reinsert order e es) ≡ steps_left e + total_left es
  unfolding reinsert
  reinsert-left order e es = insert_at-left _ e es

  pub total_left-lt : (es : List (ServerEntry F)) → total_left es < rounds_left es
  unfolding rounds_left
  total_left-lt [] = omega arith
  total_left-lt (e ∷ es) = omega (arith, total_left-lt es)

module _ {F : Type 0} ⦃f : Float F⦄ (sys : System F) (capacity : Table ℕ) (pool : Pool F) where
  -- A pool that is within the capacity if this one is, with the same servers' names.
  abbrev Follows : Pool F → Type 0
  Follows new =
      (PoolFits sys capacity pool → PoolFits sys capacity new) × Extends pool.servers new.servers

  -- What a round leaves of its entry and of the pool.
  abbrev pub GoesOn : ServerEntry F → Outcome F → Type 0
  GoesOn top (advanced e) =
      HasCurrent e × (steps_left e < steps_left top) × (e.server_name ≡ top.server_name)
  GoesOn top panicked = ⊥
  GoesOn top (exhausted e) = e.server_name ≡ top.server_name
  GoesOn top (placed new) = Follows new
  GoesOn top skipped = Unit

  next_candidate-GoesOn : (top : ServerEntry F) → HasCurrent top → GoesOn top (next_candidate top)
  unfolding next_candidate
  next_candidate-GoesOn top has =
      let i = top.cur_index + 1 in
      let n = length top.allocations in
      elim (Bool-cases (ltb (i + 1) n)) [
        | inl more ↦ rw more (ground arith, omega arith, refl)
        | inr last ↦ elim (Bool-cases (i == n)) [
          | inl over ↦ rw (last, over) refl
          | inr other ↦ rw (last, other) (ground arith, omega arith, refl)
        ]
      ]

  module _ (top : ServerEntry F) (has : HasCurrent top) where
    try_place-GoesOn :
        (s : Server F) (m : Model F) (a : Allocation F) (acc : Accelerator F)
        → lookup s.model_name sys.models ≡ some m
        → lookup a.accelerator sys.accelerators ≡ some acc
        → GoesOn top (try_place pool top s m a acc)
    unfolding try_place
    try_place-GoesOn s m a acc d e =
        elim (Bool-cases (
          has_units pool.available acc.spec.type
            (a.num_replicas * units_per_replica m a.accelerator acc))) [
              | inl fits ↦ rw fits (
                put-Fits sys capacity pool.available pool.servers top.server_name s a e d fits,
                insert-Extends top.server_name (set_allocation (some a) s) pool.servers,
              )
              | inr full ↦ rw full (next_candidate-GoesOn top has)
            ]

    try_candidate-GoesOn :
        (s : Server F) (m : Model F)
        → lookup s.model_name sys.models ≡ some m
        → GoesOn top (try_candidate sys pool top s m)
    unfolding try_candidate
    try_candidate-GoesOn s m d =
        let (c, e) = get_elem?-some top.allocations top.cur_index has in
        elim (Option-cases (lookup c.1.accelerator sys.accelerators)) [
          | inl missing ↦ rw (e, try_candidate, missing) tt
          | inr (acc, found) ↦ rw (e, try_candidate, found) (try_place-GoesOn s m c.1 acc d found)
        ]

  pub visit_entry-GoesOn :
      (top : ServerEntry F) → IsReady top → GoesOn top (visit_entry sys pool top)
  unfolding visit_entry
  visit_entry-GoesOn top (inl (empty, start)) = rw empty tt
  visit_entry-GoesOn top (inr has) = elim (Bool-cases (length top.allocations == 0)) [
    | inl empty ↦ rw empty tt
    | inr some_left ↦ elim (Option-cases (lookup top.server_name pool.servers)) [
      | inl missing ↦ rw (some_left, missing) tt
      | inr (s, found) ↦ elim (Option-cases (lookup s.model_name sys.models)) [
        | inl absent ↦ rw (some_left, found, absent) tt
        | inr (m, held) ↦ rw (some_left, found, held) (try_candidate-GoesOn top has s m held)
      ]
    ]
  ]
