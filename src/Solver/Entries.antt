-- ===== src/Solver/Entries.antt =====
-- pkg/solver/greedy.go: the entries of the servers, their order, and the groups of one priority; with
-- what the code takes of Go's `cmp` and `slices`.
use Prim.Native.Nat.{compare, Ordering}
use inferno_autoscaler.Base.{
  ℕ, zero, suc, ◌+◌, ◌/◌, String, Bool, true, false, not, List, [], ◌∷◌, none, some, ltb, ◌==◌,
  if◌then◌else◌, Table, length, get_elem?, Float, nought,
}
use inferno_autoscaler.Core.Types.{Allocation, Server, System}
use inferno_autoscaler.Core.Server.{server_priority}

-- An allocation with its key in the server's AllAllocations.
abbrev pub Candidate : Type 0 → Type 0
Candidate F = String × Allocation F

pub record ServerEntry (F : Type 0) : Type 0 where
  pub server_name : String
  pub priority : ℕ
  pub cur_index : ℕ
  pub allocations : List (Candidate F)
  pub delta : F

module _ {ℓ} {A : Type ℓ} where
  -- slices.Insert
  unfoldable pub insert_at : ℕ → A → List A → List A
  insert_at zero x xs = x ∷ xs
  insert_at (suc i) x [] = x ∷ []
  insert_at (suc i) x (y ∷ ys) = y ∷ insert_at i x ys

module _ {ℓ} {A : Type ℓ} (order : A → A → Ordering) where
  abbrev pub is_before : A → A → Bool
  is_before a b = elim (order a b) [ Ordering.lt ↦ true | _ ↦ false ]

  -- `x` before the first element that it comes before; in a sorted list that is where insertion from
  -- the right end puts it.
  unfoldable pub insert_sorted : A → List A → List A
  insert_sorted x [] = x ∷ []
  insert_sorted x (y ∷ ys) =
      let rest = insert_sorted x ys in if is_before x y then x ∷ y ∷ ys else y ∷ rest

  -- slices.SortFunc, which sorts short slices by insertion.
  unfoldable pub sort_from : List A → List A → List A
  sort_from sorted [] = sorted
  sort_from sorted (x ∷ xs) = sort_from (insert_sorted x sorted) xs

  unfoldable pub sort_func : List A → List A
  sort_func = sort_from []

  -- The loop of slices.BinarySearchFunc over `i` and `j`, on fuel: the first place whose element does
  -- not come before `x`, in a sorted list.
  unfoldable pub search_between : ℕ → A → List A → (i j : ℕ) → ℕ
  search_between zero x xs i j = i
  search_between (suc fuel) x xs i j =
      let h = (i + j) / 2 in
      let right = search_between fuel x xs (h + 1) j in
      let left = search_between fuel x xs i h in
      if ltb i j
      then elim (get_elem? xs h) [ none ↦ i | some y ↦ if is_before y x then right else left ]
      else i

  -- BinarySearchFunc and Insert, as allocate uses them; the interval halves in each round.
  unfoldable pub reinsert : A → List A → List A
  reinsert x xs = insert_at (search_between (length xs) x xs 0 (length xs)) x xs

module _ {F : Type 0} ⦃f : Float F⦄ where
  open f use {sub, lt, eq, max_float}

  -- cmp.Compare: NaN equals NaN and comes before every number.
  unfoldable pub compare_float : F → F → Ordering
  compare_float x y =
      if not (eq x x)
      then (if not (eq y y) then Ordering.eq else Ordering.lt)
      else if not (eq y y)
      then Ordering.gt
      else if lt x y
      then Ordering.lt
      else if lt y x
      then Ordering.gt
      else Ordering.eq

  abbrev pub value_at : List (Candidate F) → ℕ → F
  value_at cs i = elim (get_elem? cs i) [ none ↦ nought | some c ↦ c.1.value ]

  abbrev pub compare_value : Candidate F → Candidate F → Ordering
  compare_value a b = compare_float a.1.value b.1.value

  -- Priorities first, then the larger delta, then the larger current value.
  unfoldable pub order_func : ServerEntry F → ServerEntry F → Ordering
  order_func a b =
      if a.priority == b.priority
      then (if eq a.delta b.delta
          then compare_float (value_at b.allocations b.cur_index)
              (value_at a.allocations a.cur_index)
          else compare_float b.delta a.delta)
      else compare a.priority b.priority

  abbrev pub first_delta : List (Candidate F) → F
  first_delta cs = if ltb 1 (length cs) then sub (value_at cs 1) (value_at cs 0) else max_float

  unfoldable pub make_entry : System F → String → Server F → ServerEntry F
  make_entry sys name s =
      let sorted = sort_func compare_value s.all_allocations in
      record {
        server_name = name;
        priority = server_priority sys s;
        cur_index = 0;
        allocations = sorted;
        delta = first_delta sorted;
      }

  -- The entries of the servers that have a candidate allocation, in the order of the map.
  unfoldable pub make_entries : System F → Table (Server F) → List (ServerEntry F)
  make_entries sys [] = []
  make_entries sys ((name, s) ∷ rest) =
      let entries = make_entries sys rest in
      if length s.all_allocations == 0 then entries else make_entry sys name s ∷ entries

module _ {F : Type 0} where
  -- The inner loop of makePriorityGroups: the entries of a priority at the front, and the rest.
  unfoldable pub span_priority :
      ℕ → List (ServerEntry F) → List (ServerEntry F) × List (ServerEntry F)
  span_priority p [] = ([], [])
  span_priority p (e ∷ es) =
      let (group, rest) = span_priority p es in
      if e.priority == p then (e ∷ group, rest) else ([], e ∷ es)

  -- The outer loop, on fuel.
  unfoldable pub group_entries : ℕ → List (ServerEntry F) → List (List (ServerEntry F))
  group_entries zero es = []
  group_entries (suc fuel) [] = []
  group_entries (suc fuel) (e ∷ es) =
      let (group, rest) = span_priority e.priority es in (e ∷ group) ∷ group_entries fuel rest

  unfoldable pub make_priority_groups : List (ServerEntry F) → List (List (ServerEntry F))
  make_priority_groups es = group_entries (length es) es
