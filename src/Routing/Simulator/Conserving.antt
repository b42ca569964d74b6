-- ===== src/Routing/Simulator/Conserving.antt =====
-- routing/simulator.ts: nobody waits while someone could serve.
use hrp_crm.Base.{
  ℕ, zero, suc, ◌≡◌, refl, sym, ◌∙◌, ap, ◌⊎◌, inl, inr, true, false, some, List, [], Option-cases,
  arith, ◌==◌, map,
}
use hrp_crm.Base.Int.{pos}
use hrp_crm.Routing.{StaffState, WeightEntry, is_eligible}
use hrp_crm.Routing.Pick.{wrr_pick}
use hrp_crm.Routing.Quota.{total_weight}
use hrp_crm.Routing.Simulator.{
  Progress, weighted_distribution, state_at, pick, assign_to, assign_one_customer, simulate_from,
  simulate_distribution, realtime,
}
use hrp_crm.Routing.Simulator.Waiting.{
  Paired, NobodyEligible, length-serve, wrr_pick-none, wrr_pick-length,
}
use hrp_crm.Base.{length-map}
use hrp_crm.Routing.Simulator.Picks.{wrr_pick-StandsAt}
use hrp_crm.Routing.Simulator.Capacity.{simulate_from-All}

-- One customer is assigned or nobody is eligible.
module _ (index : ℕ) (weights : List WeightEntry) (total : ℕ) (p : Progress)
    (weighted : (total == 0) ≡ false) (paired : Paired p) where
  assign_one_customer-NobodyEligible :
      let (s, q) = assign_one_customer index weighted_distribution weights total realtime p in
      Paired q × ((s.assigned ≡ true) ⊎ ((s.assigned ≡ false) × NobodyEligible q.states))
  unfolding assign_one_customer assign_to pick
  assign_one_customer-NobodyEligible =
      let (cs, there, same) = paired in
      rw (weighted, there, pick)
        (elim (Option-cases (wrr_pick weights total p.states cs)) [
          | inl e ↦
              rw (e, pick)
                ((cs, there, same), inr (refl, wrr_pick-none weights total p.states cs same e))
          | inr ((i, cs'), e) ↦
              let at_i = wrr_pick-StandsAt weights total p.states cs i cs' e in
              let place : at_i.offset ≡ i = omega (arith, at_i.index) in
              let found : state_at i p.states ≡ some at_i.member =
                ap (λ n. state_at n p.states) (sym place) ∙ at_i.found in
              rw (e, pick, found, assign_to)
                (
                  (
                    cs',
                    refl,
                    wrr_pick-length weights total p.states cs i cs' same e
                        ∙ sym (length-serve i p.states),
                  ),
                  inl refl,
                )
        ])

module _ (weights : List WeightEntry) (total : ℕ) (weighted : (total == 0) ≡ false) where
  simulate_from-NobodyEligible :
      (left index : ℕ) (p : Progress)
      → Paired p
      → let o = simulate_from left index weighted_distribution weights total realtime p in
        (o.fallback_queue ≡ []) ⊎ NobodyEligible o.final.states
  unfolding simulate_from
  simulate_from-NobodyEligible zero index p paired = inl refl
  simulate_from-NobodyEligible (suc left) index p paired =
      let (s, q) = assign_one_customer index weighted_distribution weights total realtime p in
      let (next, now) = assign_one_customer-NobodyEligible index weights total p weighted paired in
      elim now [
        | inl e ↦ rw e (simulate_from-NobodyEligible left (suc index) q next)
        | inr (e, nobody) ↦ rw e (
            inr (
              simulate_from-All (λ t. is_eligible t ≡ false) weighted_distribution (λ f. cc)
                (λ t room full. absurd (cc (room, full))) left (suc index) weights total realtime q
                nobody))
      ]

-- In the realtime mode of the weighted strategy, with a total weight other than 0, customers wait
-- only if at the end no staff member is eligible.
pub simulate_distribution-NobodyEligible :
    (weights : List WeightEntry) (states : List StaffState) (count : ℕ)
    → (total_weight weights == 0) ≡ false
    → let o = simulate_distribution weighted_distribution weights states count realtime in
      (o.fallback_queue ≡ []) ⊎ NobodyEligible o.final.states
unfolding simulate_distribution
simulate_distribution-NobodyEligible weights states count weighted =
    simulate_from-NobodyEligible weights (total_weight weights) weighted count 0 _
      (map (λ _. pos 0) states, refl, length-map (λ _. pos 0) states)
