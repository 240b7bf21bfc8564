-- ===== src/Core/Calculated.antt =====
-- pkg/core: the candidates that Calculate gives the servers of a system.
use inferno_autoscaler.Base.{
  String, false, [], ◌∷◌, Option, none, some, ◌≡◌, refl, sym, ap, ◌∙◌, ◌==◌, nought, subst, arith,
  inl, inr, Bool-cases, Table, lookup, lookup-insert, lookup-All, str_eq, str_eq_iff, if◌then◌else◌,
  if_true, if_false, if_cases, not, All, Float, Double, Conversion,
}
use inferno_autoscaler.Core.Types.{Accelerator, Allocation, Server, System}
use inferno_autoscaler.Core.Server.{candidate_accelerators, calculate_accelerator}
use inferno_autoscaler.Core.WellFormed.{IsAccelerator, IsServer, IsWellFormed}
use inferno_autoscaler.Core.Creation.{create_allocation}
use inferno_autoscaler.Core.Allocation.{transition_penalty}
use inferno_autoscaler.Core.Candidates.{
  valued, add_candidate, candidates, calculate_server, calculate_accelerators, calculate_servers,
  calculate,
}

module _ {F : Type 0} (D : Type 0) ⦃f : Float F⦄ ⦃e : Float D⦄ ⦃d : Double D⦄
    ⦃c : Conversion F D⦄ where
  -- A candidate with its value, or else what was there.
  abbrev pub valued_or :
      Server F → Option (Allocation F) → Option (Allocation F) → Option (Allocation F)
  valued_or s old none = old
  valued_or s old (some a) = some (valued s.cur_allocation a)

  abbrev pub listed :
      Option (Accelerator F) → Option (Allocation F) → Option (Allocation F) → Option (Allocation F)
  listed none old new = old
  listed (some g) old new = new

  lookup-add_candidate :
      (s : Server F) (key k : String) (o : Option (Allocation F)) (all : Table (Allocation F))
      → lookup k (add_candidate s key o all)
        ≡ (if str_eq key k then valued_or s (lookup k all) o else lookup k all)
  lookup-add_candidate s key k none all = ground arith
  lookup-add_candidate s key k (some a) all = lookup-insert key k (valued s.cur_allocation a) all

  valued_twice :
      (s : Server F) (g : Option (Accelerator F)) (old o : Option (Allocation F))
      → listed g (valued_or s old o) (valued_or s (valued_or s old o) o) ≡ valued_or s old o
  valued_twice s none old o = refl
  valued_twice s (some g) old none = refl
  valued_twice s (some g) old (some a) = refl

  module _ (sys : System F) (s : Server F) (k : String) where
    abbrev created : String → Option (Allocation F)
    created name = create_allocation D sys s.name name

    -- The entry of the accelerator itself, and those of others.
    new_entry :
        (name : String) (all : Table (Allocation F))
        → name ≡ k
        → lookup k (add_candidate s name (created name) all)
          ≡ valued_or s (lookup k all) (created k)
    new_entry name all same =
        subst
          (λ n.
            lookup k (add_candidate s n (created n) all) ≡ valued_or s (lookup k all) (created k))
          (sym same)
          (lookup-add_candidate s k k (created k) all
            ∙ if_true (valued_or s (lookup k all) (created k)) (lookup k all)
                ((str_eq_iff k k).1 refl))

    old_entry :
        (name : String) (all : Table (Allocation F))
        → str_eq name k ≡ false
        → lookup k (add_candidate s name (created name) all) ≡ lookup k all
    old_entry name all other =
        lookup-add_candidate s name k (created name) all
        ∙ if_false (valued_or s (lookup k all) (created name)) (lookup k all) other

    candidates_lem :
        (all : Table (Allocation F)) (gs : Table (Accelerator F))
        → All IsAccelerator gs
        → lookup k (candidates D sys s all gs)
          ≡ listed (lookup k gs) (lookup k all) (valued_or s (lookup k all) (created k))
    unfolding candidates lookup
    candidates_lem all [] named = refl
    candidates_lem all ((key, g) ∷ gs) (name, named) =
        let all' = add_candidate s g.name (created g.name) all in
        let rest = candidates_lem all' gs named in
        let goal : Option (Allocation F) → Type 0 = λ old.
          lookup k (candidates D sys s all' gs)
          ≡ listed (lookup k gs) old (valued_or s old (created k)) in
        elim (Bool-cases (str_eq key k)) [
          | inl same ↦ rw same (
              subst goal (new_entry g.name all (name.0 ∙ (str_eq_iff key k).0 same)) rest
              ∙ valued_twice s (lookup k gs) (lookup k all) (created k))
          | inr other ↦ rw other (
              subst goal (old_entry g.name all (subst (λ n. str_eq n k ≡ false) (sym name.0) other))
                rest)
        ]

  found_named :
      (k : String) (gs : Table (Accelerator F)) (o : Option (Accelerator F))
      → lookup k gs ≡ o
      → All IsAccelerator gs
      → All IsAccelerator
          (let out : Table (Accelerator F) = elim o [ none ↦ [] | some acc ↦ (k, acc) ∷ [] ] in out)
  found_named k gs none found named = tt
  found_named k gs (some acc) found named = (lookup-All IsAccelerator k gs found named, tt)

  current_named :
      (cur : Option (Allocation F)) (gs : Table (Accelerator F))
      → All IsAccelerator gs
      → All IsAccelerator (
          let out : Table (Accelerator F) = elim cur [
            | none ↦ gs
            | some cur ↦
                if not (str_eq cur.accelerator "")
                then elim (lookup cur.accelerator gs) [
                  | none ↦ []
                  | some acc ↦ (cur.accelerator, acc) ∷ []
                ]
                else gs
          ] in
          out)
  current_named none gs named = named
  current_named (some cur) gs named =
      if_cases (All IsAccelerator) (not (str_eq cur.accelerator "")) _ _
        (λ h. found_named cur.accelerator gs (lookup cur.accelerator gs) refl named) (λ h. named)

  candidate_accelerators-named :
      (s : Server F) (gs : Table (Accelerator F))
      → All IsAccelerator gs
      → All IsAccelerator (candidate_accelerators s gs)
  unfolding candidate_accelerators
  candidate_accelerators-named s gs named =
      if_cases (All IsAccelerator) s.keep_accelerator _ _
        (λ h. current_named s.cur_allocation gs named) (λ h. named)

  -- The penalty of a transition: nothing for the same accelerator and replicas, the difference of the
  -- costs for the same accelerator, and a tenth of both costs more for another one.
  abbrev pub penalty : (cur new : Allocation F) → F
  penalty cur new =
      let difference = f.sub new.cost cur.cost in
      if str_eq cur.accelerator new.accelerator
      then (if cur.num_replicas == new.num_replicas then nought else difference)
      else f.add (f.mul (f.decimal 1 1) (f.add cur.cost new.cost)) difference

  -- What was created, with the penalty as its value where there is a current allocation.
  abbrev pub penalised : (cur created : Option (Allocation F)) → Option (Allocation F)
  penalised cur none = none
  penalised none (some a) = some a
  penalised (some cur) (some a) = some (record a { value = penalty cur a })

  penalised_lem :
      (s : Server F) (cur o : Option (Allocation F))
      → s.cur_allocation ≡ cur
      → valued_or s none o ≡ penalised cur o
  unfolding transition_penalty
  penalised_lem s cur none e = refl
  penalised_lem s none (some a) e = rw e refl
  penalised_lem s (some cur) (some a) e = rw e refl

  -- If the accelerators have their names, then Calculate gives a server exactly the candidates that
  -- CreateAllocation makes for its candidate accelerators, each under the accelerator's name. Where the
  -- server has a current allocation, the value of each is the penalty of the transition from it: 0 for
  -- the same accelerator and replicas, the difference of the costs for the same accelerator, and a tenth
  -- of both costs more for another one.
  pub calculate_server-candidates :
      (sys : System F) (gs : Table (Accelerator F)) (s : Server F) (k : String)
      → All IsAccelerator gs
      → lookup k (calculate_server D sys gs s).all_allocations
        ≡ listed
            (lookup k (candidate_accelerators s gs))
            none
            (penalised s.cur_allocation (create_allocation D sys s.name k))
  unfolding calculate_server lookup
  calculate_server-candidates sys gs s k named =
      candidates_lem sys s k [] (candidate_accelerators s gs)
        (candidate_accelerators-named s gs named)
      ∙ ap (listed (lookup k (candidate_accelerators s gs)) none)
          (penalised_lem s s.cur_allocation (create_allocation D sys s.name k) refl)

  calculate_accelerators-named :
      (gs : Table (Accelerator F))
      → All IsAccelerator gs
      → All IsAccelerator (calculate_accelerators D gs)
  unfolding calculate_accelerators calculate_accelerator
  calculate_accelerators-named [] named = tt
  calculate_accelerators-named ((k, g) ∷ gs) named =
      (named.0, calculate_accelerators-named gs named.1)

  calculate_servers-named :
      (sys : System F) (ss : Table (Server F))
      → All IsServer ss
      → All IsServer (calculate_servers D sys ss)
  unfolding calculate_servers calculate_server
  calculate_servers-named sys [] named = tt
  calculate_servers-named sys ((k, s) ∷ ss) named =
      (named.0, calculate_servers-named sys ss named.1)

  -- The system's Calculate keeps a system well formed.
  pub calculate-IsWellFormed : (sys : System F) → IsWellFormed sys → IsWellFormed (calculate D sys)
  unfolding calculate
  calculate-IsWellFormed sys (accs, models, classes, servers) =
      let sys' = record sys { accelerators = calculate_accelerators D sys.accelerators } in
      (
        calculate_accelerators-named sys.accelerators accs,
        models,
        classes,
        calculate_servers-named sys' sys.servers servers,
      )
