-- ===== src/Routing/Simulator/Totals.antt =====
-- routing/simulator.ts: every customer is accounted for, and none waits while a member is eligible.
use hrp_crm.Base.{
  ℕ, zero, suc, ◌+◌, ◌≡◌, ap, inl, inr, Bool, true, false, Option, none, some, List, [], ◌∷◌,
  Bool-cases, Option-cases, arith, ◌==◌, length, sum_by,
}
use hrp_crm.Routing.{StaffState, WeightEntry, FallbackReason, classify_fallback}
use hrp_crm.Routing.Pick.{serve}
use hrp_crm.Routing.Quota.{total_weight}
use hrp_crm.Routing.Simulator.{
  Progress, Mode, Strategy, SlotReason, state_at, pick, assign_to, assign_one_customer,
  simulate_from, simulate_distribution, is_source, batch, realtime, slot, fallback,
}
use hrp_crm.Routing.Simulator.Picks.{pick-StandsAt}

abbrev pub assignments_made : List StaffState → ℕ
assignments_made = sum_by λ s. s.period_assignments

abbrev as_number : Bool → ℕ
as_number true = 1
as_number false = 0

assignments_made-serve :
    (i : ℕ) (ss : List StaffState) (s : StaffState)
    → state_at i ss ≡ some s
    → assignments_made (serve i ss) ≡ assignments_made ss + 1
unfolding serve state_at
assignments_made-serve i [] s e = cc
assignments_made-serve zero (t ∷ ss) s e = omega arith
assignments_made-serve (suc i) (t ∷ ss) s e = omega (arith, assignments_made-serve i ss s e)

assign_to-made :
    (index : ℕ) (chosen : Option ℕ) (r : SlotReason) (why : FallbackReason) (f : SlotReason)
    (p : Progress)
    → let (s, q) = assign_to index chosen r why f p in
      assignments_made q.states ≡ assignments_made p.states + as_number s.assigned
unfolding assign_to
assign_to-made index none r why f p = omega arith
assign_to-made index (some i) r why f p = elim (Option-cases (state_at i p.states)) [
  | inl e ↦ rw (e, assign_to) (omega arith)
  | inr (s, e) ↦ rw (e, assign_to) (omega (arith, assignments_made-serve i p.states s e))
]

assign_one_customer-made :
    (index : ℕ) (strategy : Strategy) (weights : List WeightEntry) (total : ℕ) (mode : Mode)
    (p : Progress)
    → let (s, q) = assign_one_customer index strategy weights total mode p in
      assignments_made q.states ≡ assignments_made p.states + as_number s.assigned
unfolding assign_one_customer
assign_one_customer-made index strategy weights total mode p =
    elim (Bool-cases (is_source strategy)) [
      | inl source ↦ rw source (assign_to-made index _ _ _ _ p)
      | inr weighted ↦ rw weighted (elim (Bool-cases (total == 0)) [
        | inl nothing ↦ rw nothing (omega arith)
        | inr something ↦
            let (same, _) = pick-StandsAt mode weights total p in
            rw something (
              omega (
                arith,
                assign_to-made index (pick mode weights total p).0 (slot mode index)
                    (classify_fallback p.states) (fallback mode (classify_fallback p.states))
                    (pick mode weights total p).1,
                ap assignments_made same,
              ))
      ])
    ]

simulate_from-counts :
    (left index : ℕ) (strategy : Strategy) (weights : List WeightEntry) (total : ℕ) (mode : Mode)
    (p : Progress)
    → let o = simulate_from left index strategy weights total mode p in
      (length o.assignments + length o.fallback_queue ≡ left)
      × (assignments_made o.final.states ≡ assignments_made p.states + length o.assignments)
unfolding simulate_from
simulate_from-counts zero index strategy weights total mode p = (omega arith, omega arith)
simulate_from-counts (suc left) index strategy weights total mode p =
    let (s, q) = assign_one_customer index strategy weights total mode p in
    let made = assign_one_customer-made index strategy weights total mode p in
    let (count, later) = simulate_from-counts left (suc index) strategy weights total mode q in
    elim (Bool-cases s.assigned) [
      | inl e ↦ rw e (omega arith, omega (arith, ap as_number e))
      | inr e ↦ rw e (omega arith, omega (arith, ap as_number e))
    ]

-- Each customer is assigned or falls back, and each assignment is counted for one member.
pub simulate_distribution-counts :
    (strategy : Strategy) (weights : List WeightEntry) (states : List StaffState) (count : ℕ)
    (mode : Mode)
    → let o = simulate_distribution strategy weights states count mode in
      (length o.assignments + length o.fallback_queue ≡ count)
      × (assignments_made o.final.states ≡ assignments_made states + length o.assignments)
unfolding simulate_distribution
simulate_distribution-counts strategy weights states count batch =
    simulate_from-counts count 0 strategy weights (total_weight weights) batch _
simulate_distribution-counts strategy weights states count realtime =
    simulate_from-counts count 0 strategy weights (total_weight weights) realtime _
