-- ===== src/Solver/Usage/Turns.antt =====
-- allocateEqually: the rounds end, since each gives out a unit or drops a ticket.
use inferno_autoscaler.Base.{
  ℕ, zero, suc, ◌+◌, ◌-◌, ◌<◌, ◌≤◌, String, false, List, [], ◌∷◌, none, some, ◌≡◌, ◌≢◌, refl, arith,
  subst, All, Table, lookup, lookup_or, delete, inl, inr, Bool-cases, Option-cases, ◌==◌,
  str_eq_iff, lookup-All, sum_values-insert, length, length-insert, length-delete,
}
use inferno_autoscaler.Core.Types.{Server, System}
use inferno_autoscaler.Solver.Entries.{ServerEntry}
use inferno_autoscaler.Solver.RoundRobin.{
  Grant, Ticket, Rounds, grant_of, can_give, give_replica, visit_ticket, visit_round,
  round_robin_loop, rounds_measure,
}
use inferno_autoscaler.Solver.Usage.Tickets.{
  HasEntry, IsTicket, IsFair, visit_ticket-IsFair, can_give_le, grant_of-IsGrant,
}

module _ {F : Type 0} (sys : System F) (servers : Table (Server F)) (full : List (ServerEntry F))
    (start : Table ℕ) where
  abbrev Fair : Rounds F → Type 0
  Fair = IsFair sys servers full start

  drop-lt :
      (r : Rounds F) (name : String)
      → lookup name r.tickets ≢ none
      → rounds_measure (record r { tickets = delete name r.tickets }) < rounds_measure r
  drop-lt r name live = omega (arith, length-delete name r.tickets live)

  give-lt :
      (r : Rounds F) (name : String) (t : Ticket F) (g : Grant F)
      → lookup name r.tickets ≢ none
      → 0 < g.units_per_replica
      → g.units_per_replica ≤ lookup_or 0 g.acc_type r.available
      → rounds_measure (give_replica name t g r) < rounds_measure r
  give-lt r name t g live p room =
      let t' : Ticket F = record t {
        grant = some (record g { num_replicas = g.num_replicas + 1 });
      } in
      ground (
        arith,
        length-insert name t' r.tickets live,
        sum_values-insert (λ n. n) g.acc_type
            (lookup_or 0 g.acc_type r.available - g.units_per_replica) r.available,
      )

  visit_ticket-lt :
      (r : Rounds F) (e : ServerEntry F)
      → Fair r
      → lookup e.server_name r.tickets ≢ none
      → rounds_measure (visit_ticket sys r e) < rounds_measure r
  unfolding visit_ticket
  visit_ticket-lt r e fair live = elim (Option-cases (lookup e.server_name r.tickets)) [
    | inl missing ↦ absurd (live missing)
    | inr (t, found) ↦ elim (Option-cases (grant_of sys r.available e t)) [
      | inl none_left ↦ rw (visit_ticket, found, none_left) (drop-lt r e.server_name live)
      | inr (g, granted) ↦ elim (Bool-cases (can_give r.available g)) [
        | inl room ↦
            let (valid, same) =
              grant_of-IsGrant sys servers full r.available e t g granted
                (lookup-All (IsTicket sys servers full) e.server_name r.tickets found fair.0).2 in
            rw (visit_ticket, found, granted, room)
              (give-lt r e.server_name t g live valid.0 (
                can_give_le sys servers full (lookup_or 0 g.acc_type r.available)
                  g.units_per_replica g.final_alloc.1.num_replicas (ground (arith, room))))
        | inr closed ↦ rw (visit_ticket, found, granted, closed) (drop-lt r e.server_name live)
      ]
    ]
  ]

  visit_ticket-skip :
      (r : Rounds F) (e : ServerEntry F)
      → lookup e.server_name r.tickets ≡ none
      → visit_ticket sys r e ≡ r
  unfolding visit_ticket
  visit_ticket-skip r e missing = rw (visit_ticket, missing) refl

  visit_ticket_le :
      (r : Rounds F) (e : ServerEntry F)
      → Fair r
      → rounds_measure (visit_ticket sys r e) ≤ rounds_measure r
  visit_ticket_le r e fair = elim (Option-cases (lookup e.server_name r.tickets)) [
    | inl missing ↦ rw (visit_ticket-skip r e missing) (omega arith)
    | inr (t, found) ↦ omega (arith, visit_ticket-lt r e fair (λ h. ground (arith, found, h)))
  ]

  visit_round-IsFair :
      (r : Rounds F) (es : List (ServerEntry F)) → Fair r → Fair (visit_round sys r es)
  unfolding visit_round
  visit_round-IsFair r [] fair = fair
  visit_round-IsFair r (e ∷ es) fair =
      visit_round-IsFair (visit_ticket sys r e) es
        (visit_ticket-IsFair sys servers full start r e fair)

  visit_round_le :
      (r : Rounds F) (es : List (ServerEntry F))
      → Fair r
      → rounds_measure (visit_round sys r es) ≤ rounds_measure r
  unfolding visit_round
  visit_round_le r [] fair = omega arith
  visit_round_le r (e ∷ es) fair = omega (
    arith,
    visit_ticket_le r e fair,
    visit_round_le (visit_ticket sys r e) es (visit_ticket-IsFair sys servers full start r e fair),
  )

  -- A round with an open ticket gives out a unit or drops a ticket.
  visit_round-lt :
      (r : Rounds F) (es : List (ServerEntry F)) (name : String)
      → Fair r
      → HasEntry es name
      → lookup name r.tickets ≢ none
      → rounds_measure (visit_round sys r es) < rounds_measure r
  unfolding visit_round
  visit_round-lt r [] name fair has live = absurd has
  visit_round-lt r (e ∷ es) name fair has live =
      elim (Option-cases (lookup e.server_name r.tickets)) [
        | inl missing ↦
            rw (visit_round, visit_ticket-skip r e missing)
              (visit_round-lt r es name fair (later has missing) live)
        | inr (t, found) ↦ omega (
          arith,
          visit_ticket-lt r e fair (λ h. ground (arith, found, h)),
          visit_round_le (visit_ticket sys r e) es
              (visit_ticket-IsFair sys servers full start r e fair),
        )
      ]
    where
      later : HasEntry (e ∷ es) name → lookup e.server_name r.tickets ≡ none → HasEntry es name
      later (inl same) missing = absurd (live (subst (λ n. lookup n r.tickets ≡ none) same missing))
      later (inr rest) missing = rest

  -- Some ticket is open, and has an entry.
  first_ticket :
      (ts : Table (Ticket F))
      → (length ts == 0) ≡ false
      → All (IsTicket sys servers full) ts
      → (name : String) × (lookup name ts ≢ none) × HasEntry full name
  unfolding lookup
  first_ticket [] more all = ground (arith, more)
  first_ticket ((name, t) ∷ ts) more all =
      (name, λ h. ground (arith, h, str_eq_iff name name), all.0.1)

  -- The loop ends within its measure.
  pub round_robin_loop-IsFair :
      (fuel : ℕ) (r : Rounds F)
      → rounds_measure r < fuel
      → Fair r
      → (end : Rounds F) × (round_robin_loop sys fuel r full ≡ some end) × Fair end
  unfolding round_robin_loop
  round_robin_loop-IsFair zero r less fair = elim less [ ]
  round_robin_loop-IsFair (suc fuel) r less fair = elim (Bool-cases (length r.tickets == 0)) [
    | inl empty ↦ (r, rw (round_robin_loop, empty) refl, fair)
    | inr more ↦
        let (name, live, listed) = first_ticket r.tickets more fair.0 in
        let (end, ends, fair') =
          round_robin_loop-IsFair fuel (visit_round sys r full)
            (omega (arith, visit_round-lt r full name fair listed live, less))
            (visit_round-IsFair r full fair) in
        (end, rw (round_robin_loop, more) ends, fair')
  ]
