-- ===== src/Solver/Usage/Tickets.antt =====
-- allocateEqually: what holds of the tickets and of the units while they are served.
use native.Mathlib.Nat.{div-mul-le_self, mul-le-mul_right}
use inferno_autoscaler.Base.{
  ℕ, ◌+◌, ◌-◌, ◌*◌, ◌/◌, ◌<◌, ◌≤◌, ◌⊎◌, min, String, ◌&&◌, List, [], ◌∷◌, Option, none, some, ◌≡◌,
  refl, arith, subst, All, Table, lookup, lookup_or, delete, inl, inr, Bool-cases, Option-cases,
  ltb, if◌then◌else◌, str_eq, str_eq_iff, lookup-insert, lookup-delete, insert-All, delete-All,
  lookup-All, sum_values, sum_values-insert, of_option,
}
use inferno_autoscaler.Core.Types.{Server, System, Accelerator, Model}
use inferno_autoscaler.Solver.Entries.{ServerEntry, Candidate}
use inferno_autoscaler.Solver.Allocate.{has_units, units_per_replica}
use inferno_autoscaler.Solver.RoundRobin.{
  Grant, Ticket, Rounds, grant_candidate, find_grant, grant_of, can_give, give_replica,
  visit_ticket,
}

module _ {F : Type 0} where
  -- The units that a ticket has been given, by type.
  abbrev pub grant_units : String → Grant F → ℕ
  grant_units type g = if str_eq g.acc_type type then g.num_replicas * g.units_per_replica else 0

  abbrev pub ticket_units : String → Ticket F → ℕ
  ticket_units type t = of_option (grant_units type) t.grant

  -- An entry is for this server.
  abbrev pub HasEntry : List (ServerEntry F) → String → Type 0
  HasEntry [] name = ⊥
  HasEntry (e ∷ es) name = (e.server_name ≡ name) ⊎ HasEntry es name

module _ {F : Type 0} (sys : System F) where
  -- The model of a server's name.
  abbrev pub model_at : Table (Server F) → String → Option (Model F)
  model_at servers name = elim (lookup name servers) [
    | none ↦ none
    | some s ↦ lookup s.model_name sys.models
  ]

  -- A grant holds the type and the units of its candidate's accelerator.
  abbrev pub IsGrant : Model F → Grant F → Type 0
  IsGrant m g =
      (0 < g.units_per_replica)
      × (acc : Accelerator F) × (lookup g.final_alloc.1.accelerator sys.accelerators ≡ some acc)
      × (acc.spec.type ≡ g.acc_type)
      × (units_per_replica m g.final_alloc.1.accelerator acc ≡ g.units_per_replica)

  abbrev pub OptionIsGrant : Model F → Option (Grant F) → Type 0
  OptionIsGrant m none = Unit
  OptionIsGrant m (some g) = IsGrant m g

  abbrev pub OptionIsNew : Model F → Option (Grant F) → Type 0
  OptionIsNew m none = Unit
  OptionIsNew m (some g) = IsGrant m g × (g.num_replicas ≡ 0)

  grant_candidate-IsNew :
      (available : Table ℕ) (m : Model F) (c : Candidate F)
      → OptionIsNew m (grant_candidate sys available m c)
  unfolding grant_candidate
  grant_candidate-IsNew available m c =
      elim (Option-cases (lookup c.1.accelerator sys.accelerators)) [
        | inl missing ↦ rw (grant_candidate, missing) tt
        | inr (acc, found) ↦
            let p = units_per_replica m c.1.accelerator acc in
            elim (Bool-cases (ltb 0 p && has_units available acc.spec.type p)) [
              | inl fits ↦
                  rw (grant_candidate, found, fits)
                    ((ground (arith, fits), acc, found, refl, refl), refl)
              | inr full ↦ rw (grant_candidate, found, full) tt
            ]
      ]

  find_grant-IsNew :
      (available : Table ℕ) (m : Model F) (cs : List (Candidate F))
      → OptionIsNew m (find_grant sys available m cs)
  unfolding find_grant
  find_grant-IsNew available m [] = tt
  find_grant-IsNew available m (c ∷ cs) = elim (Option-cases (grant_candidate sys available m c)) [
    | inl missing ↦ rw (find_grant, missing) (find_grant-IsNew available m cs)
    | inr (g, found) ↦
        rw (find_grant, found) (subst (OptionIsNew m) found (grant_candidate-IsNew available m c))
  ]

  module _ (servers : Table (Server F)) (full : List (ServerEntry F)) where
    -- What holds of a ticket under its name.
    abbrev pub IsTicket : String × Ticket F → Type 0
    IsTicket (name, t) =
        (model_at servers name ≡ some t.model) × HasEntry full name × OptionIsGrant t.model t.grant

    -- The invariant of the rounds: no unit is given twice, and what an open ticket has been given is
    -- on record.
    abbrev pub IsFair : Table ℕ → Rounds F → Type 0
    IsFair start r =
        All IsTicket r.tickets
        × All IsTicket r.allocated
        × ((type : String)
            → sum_values (ticket_units type) r.allocated + lookup_or 0 type r.available
              ≤ lookup_or 0 type start)
        × ((name type : String)
            → of_option (ticket_units type) (lookup name r.tickets)
              ≤ of_option (ticket_units type) (lookup name r.allocated))

    drop-IsFair :
        (start : Table ℕ) (r : Rounds F) (name : String)
        → IsFair start r
        → IsFair start (record r { tickets = delete name r.tickets })
    drop-IsFair start r name (at, aa, sum, on) = (
      delete-All IsTicket name r.tickets at,
      aa,
      sum,
      λ other type. ground (arith, lookup-delete name other r.tickets, on other type),
    )

    give-IsFair :
        (start : Table ℕ) (r : Rounds F) (name : String) (t : Ticket F) (g : Grant F)
        → lookup name r.tickets ≡ some t
        → ((type : String) → grant_units type g ≤ ticket_units type t)
        → IsGrant t.model g
        → g.units_per_replica ≤ lookup_or 0 g.acc_type r.available
        → IsFair start r
        → IsFair start (give_replica name t g r)
    give-IsFair start r name t g e same valid room (at, aa, sum, on) =
        let (model, listed, old) = lookup-All IsTicket name r.tickets e at in
        let t' : Ticket F = record t {
          grant = some (record g { num_replicas = g.num_replicas + 1 });
        } in
        (
          insert-All IsTicket name t' r.tickets (model, listed, valid) at,
          insert-All IsTicket name t' r.allocated (model, listed, valid) aa,
          λ type. ground (
            arith,
            sum type,
            sum_values-insert (ticket_units type) name t' r.allocated,
            lookup-insert g.acc_type type (lookup_or 0 g.acc_type r.available - g.units_per_replica)
                r.available,
            str_eq_iff g.acc_type type,
            on name type,
            e,
            same type,
            room,
          ),
          λ other type. ground (
            arith,
            lookup-insert name other t' r.tickets,
            lookup-insert name other t' r.allocated,
            on other type,
          ),
        )

    -- A granted replica's units are there.
    pub can_give_le : (n p m : ℕ) → 0 < min (n / p) m → p ≤ n
    can_give_le n p m h = omega (arith, div-mul-le_self n p, mul-le-mul_right p (first h), h)
      where
        first : 0 < min (n / p) m → 1 ≤ n / p
        first h = ground arith

    pub grant_of-IsGrant :
        (available : Table ℕ) (e : ServerEntry F) (t : Ticket F) (g : Grant F)
        → grant_of sys available e t ≡ some g
        → OptionIsGrant t.model t.grant
        → IsGrant t.model g × ((type : String) → grant_units type g ≤ ticket_units type t)
    grant_of-IsGrant available e t g = go t.grant
      where
        go :
            (o : Option (Grant F))
            → (elim o [ none ↦ find_grant sys available t.model e.allocations | some h ↦ some h ])
              ≡ some g
            → OptionIsGrant t.model o
            → IsGrant t.model g
              × ((type : String) → grant_units type g ≤ of_option (grant_units type) o)
        go none found valid =
            let (new, zero_given) =
              subst (OptionIsNew t.model) found
                (find_grant-IsNew available t.model e.allocations) in
            (new, λ type. ground (arith, zero_given))
        go (some h) found valid =
            subst
              (λ o.
                OptionIsGrant t.model o
                × ((type : String)
                    → of_option (grant_units type) o ≤ of_option (grant_units type) (some h)))
              found (valid, λ type. omega arith)

    pub visit_ticket-IsFair :
        (start : Table ℕ) (r : Rounds F) (e : ServerEntry F)
        → IsFair start r
        → IsFair start (visit_ticket sys r e)
    unfolding visit_ticket
    visit_ticket-IsFair start r e fair = elim (Option-cases (lookup e.server_name r.tickets)) [
      | inl missing ↦ rw (visit_ticket, missing) fair
      | inr (t, found) ↦ elim (Option-cases (grant_of sys r.available e t)) [
        | inl none_left ↦
            rw (visit_ticket, found, none_left) (drop-IsFair start r e.server_name fair)
        | inr (g, granted) ↦ elim (Bool-cases (can_give r.available g)) [
          | inl room ↦
              let (valid, same) =
                grant_of-IsGrant r.available e t g granted
                  (lookup-All IsTicket e.server_name r.tickets found fair.0).2 in
              rw (visit_ticket, found, granted, room)
                (give-IsFair start r e.server_name t g found same valid
                  (can_give_le (lookup_or 0 g.acc_type r.available) g.units_per_replica
                    g.final_alloc.1.num_replicas (ground (arith, room)))
                  fair)
          | inr full ↦
              rw (visit_ticket, found, granted, full) (drop-IsFair start r e.server_name fair)
        ]
      ]
    ]
