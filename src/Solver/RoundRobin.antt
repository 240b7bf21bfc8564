-- ===== src/Solver/RoundRobin.antt =====
-- pkg/solver/greedy.go: allocateEqually.
use inferno_autoscaler.Base.{
  ℕ, zero, suc, ◌+◌, ◌/◌, min, String, Bool, ◌&&◌, List, [], ◌∷◌, Option, none, some, ltb, ◌==◌,
  if◌then◌else◌, Table, lookup, lookup_or, insert, delete, length, Float, sum_values,
}
use inferno_autoscaler.Core.Types.{Server, System, Model}
use inferno_autoscaler.Solver.Entries.{ServerEntry, Candidate}
use inferno_autoscaler.Solver.Allocate.{Pool, has_units, take_units, units_per_replica}
use inferno_autoscaler.Solver.BestEffort.{put_candidate, scale_allocation}

-- What an active ticket holds: the accelerator type, the units of a replica, the candidate, and the
-- replicas so far.
pub record Grant (F : Type 0) : Type 0 where
  pub acc_type : String
  pub units_per_replica : ℕ
  pub num_replicas : ℕ
  pub final_alloc : Candidate F

-- serverAllocationTicket; `grant` is there where the ticket is active.
pub record Ticket (F : Type 0) : Type 0 where
  pub entry : ServerEntry F
  pub server : Server F
  pub model : Model F
  pub grant : Option (Grant F)

-- The variables of the round-robin loop. A ticket that is in both maps is one object, so it is written
-- to both.
pub record Rounds (F : Type 0) : Type 0 where
  pub available : Table ℕ
  pub tickets : Table (Ticket F)
  pub allocated : Table (Ticket F)

module _ {F : Type 0} where
  -- `none` is the panic of reading the model's name of a server that does not exist.
  unfoldable pub make_tickets :
      System F
      → Table (Server F)
      → Table (Ticket F)
      → List (ServerEntry F)
      → Option (Table (Ticket F))
  make_tickets sys servers tickets [] = some tickets
  make_tickets sys servers tickets (e ∷ es) = elim (lookup e.server_name servers) [
    | none ↦ none
    | some server ↦ elim (lookup server.model_name sys.models) [
      | none ↦ make_tickets sys servers tickets es
      | some model ↦
          make_tickets sys servers
            (insert e.server_name
              (record { entry = e; server = server; model = model; grant = none }) tickets)
            es
    ]
  ]

  -- The grant of a candidate, if a replica of it fits.
  unfoldable pub grant_candidate : System F → Table ℕ → Model F → Candidate F → Option (Grant F)
  grant_candidate sys available model c = elim (lookup c.1.accelerator sys.accelerators) [
    | none ↦ none
    | some acc ↦
        let per_replica = units_per_replica model c.1.accelerator acc in
        if ltb 0 per_replica && has_units available acc.spec.type per_replica
        then some (record {
          acc_type = acc.spec.type;
          units_per_replica = per_replica;
          num_replicas = 0;
          final_alloc = c;
        })
        else none
  ]

  unfoldable pub find_grant : System F → Table ℕ → Model F → List (Candidate F) → Option (Grant F)
  find_grant sys available model [] = none
  find_grant sys available model (c ∷ cs) =
      let rest = find_grant sys available model cs in
      elim (grant_candidate sys available model c) [ none ↦ rest | some g ↦ some g ]

  abbrev pub grant_of : System F → Table ℕ → ServerEntry F → Ticket F → Option (Grant F)
  grant_of sys available e t = elim t.grant [
    | none ↦ find_grant sys available t.model e.allocations
    | some g ↦ some g
  ]

  -- Whether one more replica is given.
  abbrev pub can_give : Table ℕ → Grant F → Bool
  can_give available g =
      ltb 0
        (min (lookup_or 0 g.acc_type available / g.units_per_replica) g.final_alloc.1.num_replicas)

  abbrev pub give_replica : String → Ticket F → Grant F → Rounds F → Rounds F
  give_replica name t g r =
      let t' = record t { grant = some (record g { num_replicas = g.num_replicas + 1 }) } in
      record {
        available = take_units r.available g.acc_type g.units_per_replica;
        tickets = insert name t' r.tickets;
        allocated = insert name t' r.allocated;
      }

  -- The body of the inner loop for an entry.
  unfoldable pub visit_ticket : System F → Rounds F → ServerEntry F → Rounds F
  visit_ticket sys r e = elim (lookup e.server_name r.tickets) [
    | none ↦ r
    | some t ↦ elim (grant_of sys r.available e t) [
      | none ↦ record r { tickets = delete e.server_name r.tickets }
      | some g ↦
          if can_give r.available g
          then give_replica e.server_name t g r
          else record r { tickets = delete e.server_name r.tickets }
    ]
  ]

  unfoldable pub visit_round : System F → Rounds F → List (ServerEntry F) → Rounds F
  visit_round sys r [] = r
  visit_round sys r (e ∷ es) = visit_round sys (visit_ticket sys r e) es

  -- `for len(tickets) > 0`, on fuel; `none` is that the fuel ran out.
  unfoldable pub round_robin_loop :
      System F → ℕ → Rounds F → List (ServerEntry F) → Option (Rounds F)
  round_robin_loop sys zero r es = none
  round_robin_loop sys (suc fuel) r es =
      let rest = round_robin_loop sys fuel (visit_round sys r es) es in
      if length r.tickets == 0 then some r else rest

  -- Every round gives out a unit or drops a ticket.
  abbrev pub rounds_measure : Rounds F → ℕ
  rounds_measure r = sum_values (λ n. n) r.available + length r.tickets

module _ {F : Type 0} ⦃f : Float F⦄ where
  -- The last loop, over the allocated tickets.
  unfoldable pub settle : Table (Server F) → Table (Ticket F) → Table (Server F)
  settle servers [] = servers
  settle servers ((name, t) ∷ ts) = elim t.grant [
    | none ↦ settle servers ts
    | some g ↦
        settle
          (elim (lookup name servers) [
            | none ↦ servers
            | some server ↦
                put_candidate name server g.final_alloc.0
                  (scale_allocation g.num_replicas g.final_alloc.1) servers
          ])
          ts
  ]

  unfoldable pub allocate_equally : System F → Pool F → List (ServerEntry F) → Option (Pool F)
  allocate_equally sys pool es = elim (make_tickets sys pool.servers [] es) [
    | none ↦ none
    | some tickets ↦
        let start : Rounds F = record {
          available = pool.available;
          tickets = tickets;
          allocated = [];
        } in
        elim (round_robin_loop sys (suc (rounds_measure start)) start es) [
          | none ↦ none
          | some r ↦
              some (record { available = r.available; servers = settle pool.servers r.allocated })
        ]
  ]
