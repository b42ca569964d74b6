-- ===== src/Routing/Simulator/Tests.antt =====
-- routing/simulator.ts on a team of two: the theorems at inputs that meet their hypotheses.
use Prim.Native.String.{String}
use hrp_crm.Base.{
  ℕ, ◌+◌, ◌≡◌, refl, ◌⊎◌, true, some, List, [], ◌∷◌, codes, All, length, arith, text_eq,
}
use hrp_crm.Routing.{StaffState, WeightEntry, daily, is_eligible}
use hrp_crm.Routing.Quota.{
  assigned, compute_quota_plan, eligible_weights, is_eligible_weight, is_nil,
}
use hrp_crm.Routing.Quota.Exact.{assigned-compute_quota_plan, compute_quota_plan-IsShare, IsShare}
use hrp_crm.Routing.Simulator.{
  batch, realtime, weighted_distribution, hybrid, source_allocation, simulate_distribution,
}
use hrp_crm.Routing.Simulator.Capacity.{Fits, simulate_distribution-Fits}
use hrp_crm.Routing.Simulator.Totals.{simulate_distribution-counts, assignments_made}
use hrp_crm.Routing.Simulator.Waiting.{hybrid_assigns_nobody, NobodyEligible}
use hrp_crm.Routing.Simulator.Conserving.{simulate_distribution-NobodyEligible}

abbrev member : String → ℕ → StaffState
member name room = record {
  actor_id = codes name;
  role = codes "recruiter";
  online = true;
  current_capacity = 0;
  max_capacity = room;
  period_assignments = 1;
  period_cap = 4;
  cap_period = some daily;
}

abbrev team : List StaffState
team = member "an" 2 ∷ member "binh" 5 ∷ []

abbrev share : String → ℕ → WeightEntry
share name weight = record {
  recipient_actor_id = codes name;
  recipient_role = codes "recruiter";
  weight = weight;
}

abbrev shares : List WeightEntry
shares = share "an" 1 ∷ share "binh" 2 ∷ []

assigned-compute_quota_plan_example : assigned (compute_quota_plan 4 shares team) ≡ 4
unfolding eligible_weights is_eligible_weight is_eligible text_eq is_nil
assigned-compute_quota_plan_example = assigned-compute_quota_plan 4 shares team refl

compute_quota_plan-IsShare_example :
    All (IsShare 4 (eligible_weights shares team) 1) (compute_quota_plan 4 shares team)
compute_quota_plan-IsShare_example = compute_quota_plan-IsShare 4 shares team

simulate_distribution-Fits_example :
    All Fits (simulate_distribution source_allocation shares team 9 realtime).final.states
simulate_distribution-Fits_example =
    simulate_distribution-Fits source_allocation shares team 9 realtime
      (omega arith, (omega arith, tt))

simulate_distribution-counts_example :
    let o = simulate_distribution weighted_distribution shares team 9 batch in
    (length o.assignments + length o.fallback_queue ≡ 9)
    × (assignments_made o.final.states ≡ assignments_made team + length o.assignments)
simulate_distribution-counts_example =
    simulate_distribution-counts weighted_distribution shares team 9 batch

hybrid_assigns_nobody_example :
    (simulate_distribution hybrid shares team 9 realtime).assignments ≡ []
hybrid_assigns_nobody_example = hybrid_assigns_nobody shares team 9 realtime

simulate_distribution-NobodyEligible_example :
    let o = simulate_distribution weighted_distribution shares team 9 realtime in
    (o.fallback_queue ≡ []) ⊎ NobodyEligible o.final.states
simulate_distribution-NobodyEligible_example =
    simulate_distribution-NobodyEligible shares team 9 refl
