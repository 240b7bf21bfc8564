-- ===== src/Solver/Usage/Equal.antt =====
-- allocateEqually ends without a panic, and keeps within the capacity.
use inferno_autoscaler.Base.{
  ℕ, suc, ◌+◌, ◌≤◌, String, List, [], ◌∷◌, Option, none, some, ◌≡◌, refl, arith, ◌∙◌, All,
  All-map_imp, Table, lookup, insert, Float, inl, inr, Bool-cases, Option-cases, str_eq, str_eq_iff,
  lookup-insert, insert-All, lookup-All, sum_values, sum_values-insert, of_option,
}
use inferno_autoscaler.Core.Types.{Server, System, Model}
use inferno_autoscaler.Core.Server.{set_allocation}
use inferno_autoscaler.Solver.Entries.{ServerEntry}
use inferno_autoscaler.Solver.Allocate.{Pool}
use inferno_autoscaler.Solver.BestEffort.{put_candidate, scale_allocation}
use inferno_autoscaler.Solver.RoundRobin.{
  Grant, Ticket, Rounds, make_tickets, rounds_measure, settle, allocate_equally,
}
use inferno_autoscaler.Solver.Usage.{
  IsKnown, Known, Extends, insert-Extends, used, units_of, placement-set_allocation,
}
use inferno_autoscaler.Solver.Usage.Turns.{round_robin_loop-IsFair}
use inferno_autoscaler.Solver.Usage.Maximal.{Keeps}
use inferno_autoscaler.Solver.Usage.Tickets.{
  grant_units, ticket_units, OptionIsGrant, HasEntry, model_at, IsGrant, IsTicket, IsFair,
}

module _ {F : Type 0} ⦃f : Float F⦄ (sys : System F) (servers : Table (Server F))
    (full : List (ServerEntry F)) where
  model_at-insert :
      (sv : Table (Server F)) (name : String) (s s' : Server F) (other : String)
      → lookup name sv ≡ some s
      → s'.model_name ≡ s.model_name
      → model_at sys (insert name s' sv) other ≡ model_at sys sv other
  model_at-insert sv name s s' other found same = elim (Bool-cases (str_eq name other)) [
    | inl here ↦
        rw
          (
            model_at,
            lookup-insert name other s' sv,
            here,
            ← (str_eq_iff name other).0 here,
            found,
            same,
          )
          refl
    | inr elsewhere ↦ rw (model_at, lookup-insert name other s' sv, elsewhere) refl
  ]

  -- A ticket's server takes the units that the ticket has been given.
  granted_units :
      (type : String) (s : Server F) (m : Model F) (g : Grant F)
      → lookup s.model_name sys.models ≡ some m
      → IsGrant sys m g
      → units_of sys type
          (set_allocation (some (scale_allocation g.num_replicas g.final_alloc.1)) s)
        ≡ grant_units type g
  unfolding scale_allocation
  granted_units type s m g d (p, acc, e, same, count) =
      let a = scale_allocation g.num_replicas g.final_alloc.1 in
      ground (arith, placement-set_allocation sys s a e d, same, count)

  -- The servers after a ticket has been settled.
  abbrev settle_one : Table (Server F) → String → Grant F → Table (Server F)
  settle_one sv name g = elim (lookup name sv) [
    | none ↦ sv
    | some server ↦
        put_candidate name server g.final_alloc.0 (scale_allocation g.num_replicas g.final_alloc.1)
          sv
  ]

  settle_one_lem :
      (sv : Table (Server F)) (name : String) (m : Model F) (g : Grant F)
      → model_at sys sv name ≡ some m
      → IsGrant sys m g
      → ((type : String)
          → used sys type (settle_one sv name g) ≤ used sys type sv + grant_units type g)
        × ((other : String) → model_at sys (settle_one sv name g) other ≡ model_at sys sv other)
        × Extends sv (settle_one sv name g)
  unfolding set_allocation
  settle_one_lem sv name m g at valid = elim (Option-cases (lookup name sv)) [
    | inl missing ↦ rw (settle_one, missing) (λ type. omega arith, λ other. refl, λ other k. k)
    | inr (s, found) ↦
        let a = scale_allocation g.num_replicas g.final_alloc.1 in
        let s' : Server F = record s {
          all_allocations = insert g.final_alloc.0 a s.all_allocations;
        } in
        let held : lookup s.model_name sys.models ≡ some m = ground (arith, at, found) in
        let put = insert name (set_allocation (some a) s') sv in
        rw (settle_one, found)
          (
            λ type. omega (
              arith,
              granted_units type s' m g held valid,
              sum_values-insert (units_of sys type) name (set_allocation (some a) s') sv,
            ),
            λ other. model_at-insert sv name s (set_allocation (some a) s') other found refl,
            insert-Extends name (set_allocation (some a) s') sv,
          )
  ]

  settle-lem :
      (sv : Table (Server F)) (ts : Table (Ticket F))
      → ((name : String) → model_at sys sv name ≡ model_at sys servers name)
      → All (IsTicket sys servers full) ts
      → ((type : String)
          → used sys type (settle sv ts) ≤ used sys type sv + sum_values (ticket_units type) ts)
        × Extends sv (settle sv ts)
  unfolding settle
  settle-lem sv [] at all = (λ type. omega arith, λ n k. k)
  settle-lem sv ((name, t) ∷ ts) at (one, rest) =
      go t.grant one.2 (λ sv' at'. settle-lem sv' ts at' rest)
    where
      go :
          (o : Option (Grant F))
          → OptionIsGrant sys t.model o
          → ((sv' : Table (Server F))
              → ((n : String) → model_at sys sv' n ≡ model_at sys servers n)
              → ((type : String)
                  → used sys type (settle sv' ts)
                    ≤ used sys type sv' + sum_values (ticket_units type) ts)
                × Extends sv' (settle sv' ts))
          → ((type : String)
              → used sys type
                  (elim o [ none ↦ settle sv ts | some g ↦ settle (settle_one sv name g) ts ])
                ≤ used sys type sv
                  + (of_option (grant_units type) o + sum_values (ticket_units type) ts))
            × Extends sv
                (elim o [ none ↦ settle sv ts | some g ↦ settle (settle_one sv name g) ts ])
      go none valid next =
          let (rest_le, ext) = next sv at in (λ type. omega (arith, rest_le type), ext)
      go (some g) valid next =
          let (units_le, same, ext) = settle_one_lem sv name t.model g (at name ∙ one.0) valid in
          let (rest_le, ext') = next (settle_one sv name g) (λ n. same n ∙ at n) in
          (λ type. omega (arith, units_le type, rest_le type), λ n k. ext' n (ext n k))

  -- The tickets at the start: nothing is given yet.
  make_tickets-lem :
      (es : List (ServerEntry F)) (ts : Table (Ticket F))
      → All (λ e. HasEntry full e.server_name × IsKnown servers e.server_name) es
      → All (λ e. IsTicket sys servers full e × (e.1.grant ≡ none)) ts
      → (end : Table (Ticket F)) × (make_tickets sys servers ts es ≡ some end)
        × All (λ e. IsTicket sys servers full e × (e.1.grant ≡ none)) end
  unfolding make_tickets
  make_tickets-lem [] ts known all = (ts, refl, all)
  make_tickets-lem (e ∷ es) ts ((listed, k), ks) all =
      elim (Option-cases (lookup e.server_name servers)) [
        | inl missing ↦ absurd (k missing)
        | inr (s, found) ↦ elim (Option-cases (lookup s.model_name sys.models)) [
          | inl absent ↦ rw (make_tickets, found, absent) (make_tickets-lem es ts ks all)
          | inr (m, held) ↦
              let t : Ticket F = record { entry = e; server = s; model = m; grant = none } in
              rw (make_tickets, found, held)
                (make_tickets-lem es (insert e.server_name t ts) ks (
                  insert-All (λ e. IsTicket sys servers full e × (e.1.grant ≡ none)) e.server_name t
                    ts ((ground (arith, found, held), listed, tt), refl) all))
        ]
      ]

HasEntry-All : {F : Type 0} (es : List (ServerEntry F)) → All (λ e. HasEntry es e.server_name) es
HasEntry-All [] = tt
HasEntry-All (e ∷ es) = (inl refl, All-map_imp (λ d has. inr has) es (HasEntry-All es))

All-zip :
    {A : Type 0} (P Q : A → Type 0) (xs : List A) → All P xs → All Q xs → All (λ x. P x × Q x) xs
All-zip P Q [] p q = tt
All-zip P Q (x ∷ xs) p q = ((p.0, q.0), All-zip P Q xs p.1 q.1)

start-IsFair :
    {F : Type 0} ⦃f : Float F⦄ (sys : System F) (pool : Pool F) (es : List (ServerEntry F))
    (tickets : Table (Ticket F))
    → All (λ e. IsTicket sys pool.servers es e × (e.1.grant ≡ none)) tickets
    → IsFair sys pool.servers es pool.available
        (record { available = pool.available; tickets = tickets; allocated = [] })
unfolding lookup
start-IsFair {F} sys pool es tickets ready = (
  All-map_imp (λ e h. h.0) tickets ready,
  tt,
  λ type. omega arith,
  λ name type. elim (Option-cases (lookup name tickets)) [
    | inl missing ↦ rw missing (omega arith)
    | inr (t, found) ↦
        rw
          (
            found,
            (lookup-All (λ e. IsTicket sys pool.servers es e × (e.1.grant ≡ none)) name tickets
                found ready).1,
          )
          (omega arith)
  ],
)

-- allocateEqually ends without a panic for entries of servers that exist: it keeps within the
-- capacity and loses no server.
pub allocate_equally-Keeps :
    {F : Type 0}
    → ⦃f : Float F⦄
    → (sys : System F) (capacity : Table ℕ) (pool : Pool F) (es : List (ServerEntry F))
    → Known pool es
    → Keeps sys capacity pool (allocate_equally sys pool es)
unfolding allocate_equally
allocate_equally-Keeps {F} sys capacity pool es known =
    let (tickets, e1, ready) =
      make_tickets-lem sys pool.servers es es [] (All-zip _ _ es (HasEntry-All es) known) tt in
    let start : Rounds F = record {
      available = pool.available;
      tickets = tickets;
      allocated = [];
    } in
    let (end, e2, fair) =
      round_robin_loop-IsFair sys pool.servers es pool.available (suc (rounds_measure start)) start
        (omega arith) (start-IsFair sys pool es tickets ready) in
    let (units_le, ext) =
      settle-lem sys pool.servers es pool.servers end.allocated (λ n. refl) fair.1 in
    (
      record { available = end.available; servers = settle pool.servers end.allocated },
      rw (allocate_equally, e1, e2) refl,
      (λ fits type. omega (arith, fits type, units_le type, fair.2 type), ext),
    )
