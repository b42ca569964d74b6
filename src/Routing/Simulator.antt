-- ===== src/Routing/Simulator.antt =====
-- apps/context-panel/src/routing/simulator.ts: one customer after the other.
pub mod Picks
pub mod Capacity
pub mod Totals
pub mod Waiting
pub mod Conserving
mod Tests
use hrp_crm.Base.{
  ℕ, zero, suc, ◌+◌, Bool, true, false, ◌&&◌, ◌||◌, not, if◌then◌else◌, ◌==◌, Option, none, some,
  List, [], ◌∷◌, ◌++◌, map, Text,
}
use hrp_crm.Base.Int.{ℤ, pos}
use hrp_crm.Routing.{
  StaffState, WeightEntry, FallbackReason, all_staff_offline, weight_zero, is_at_capacity,
  classify_fallback,
}
use hrp_crm.Routing.Quota.{QueueEntry, compute_quota_plan, plan_to_queue, total_weight}
use hrp_crm.Routing.Pick.{wrr_pick, batch_pick, serve}

pub data Strategy : Type 0 where
  source_allocation weighted_distribution hybrid : Strategy

pub data Mode : Type 0 where
  batch realtime : Mode

-- The text `reason` of a slot, by its parts.
pub data SlotReason : Type 0 where
  no_online_staff fixed_owner no_weight : SlotReason
  fallback : Mode → FallbackReason → SlotReason
  slot : Mode → ℕ → SlotReason

pub record AssignmentSlot : Type 0 where
  pub customer_index : ℕ
  pub assigned : Bool
  pub staff_actor_id : Option Text
  pub staff_role : Option Text
  pub reason : SlotReason
  pub fallback_reason : Option FallbackReason

-- What the loop of `simulateDistribution` carries from one customer to the next.
pub record Progress : Type 0 where
  pub states : List StaffState
  pub batch_queue : Option (List QueueEntry)
  pub wrr : Option (List ℤ)

abbrev pub unassigned : ℕ → FallbackReason → SlotReason → AssignmentSlot
unassigned index fallback_reason reason = record {
  customer_index = index;
  assigned = false;
  staff_actor_id = none;
  staff_role = none;
  reason = reason;
  fallback_reason = some fallback_reason;
}

abbrev pub served_by : ℕ → StaffState → SlotReason → AssignmentSlot
served_by index s reason = record {
  customer_index = index;
  assigned = true;
  staff_actor_id = some s.actor_id;
  staff_role = some s.role;
  reason = reason;
  fallback_reason = none;
}

unfoldable pub state_at : ℕ → List StaffState → Option StaffState
state_at i [] = none
state_at zero (s ∷ ss) = some s
state_at (suc i) (s ∷ ss) = state_at i ss

-- The first member online with room, from index `i` on.
unfoldable pub fixed_owner_from : List StaffState → ℕ → Option ℕ
fixed_owner_from [] i = none
fixed_owner_from (s ∷ ss) i =
    if s.online && not (is_at_capacity s) then some i else fixed_owner_from ss (suc i)

-- The slot of a customer whose staff member is picked, and the states after it.
unfoldable pub assign_to :
    ℕ → Option ℕ → SlotReason → FallbackReason → SlotReason → Progress → AssignmentSlot × Progress
unfolding state_at
assign_to index none reason why failed p = (unassigned index why failed, p)
assign_to index (some i) reason why failed p = elim (state_at i p.states) [
  | none ↦ (unassigned index why failed, p)
  | some s ↦ (served_by index s reason, record p { states = serve i p.states })
]

-- `chosen`, and the progress with the counters or the queue that the pick has changed.
unfoldable pub pick : Mode → List WeightEntry → ℕ → Progress → Option ℕ × Progress
pick batch weights total p = elim p.batch_queue [
  | none ↦ (none, p)
  | some q ↦ elim (batch_pick q p.states) [
    | none ↦ (none, p)
    | some (i, q') ↦ (some i, record p { batch_queue = some q' })
  ]
]
pick realtime weights total p = elim p.wrr [
  | none ↦ (none, p)
  | some cs ↦ elim (wrr_pick weights total p.states cs) [
    | none ↦ (none, p)
    | some (i, cs') ↦ (some i, record p { wrr = some cs' })
  ]
]

abbrev is_source : Strategy → Bool
is_source source_allocation = true
is_source _ = false

abbrev is_weighted : Strategy → Bool
is_weighted weighted_distribution = true
is_weighted _ = false

pub assign_one_customer :
    ℕ → Strategy → List WeightEntry → ℕ → Mode → Progress → AssignmentSlot × Progress
unfolding assign_to
assign_one_customer index strategy weights total mode p =
    if is_source strategy
    then assign_to index (fixed_owner_from p.states 0) fixed_owner all_staff_offline no_online_staff
        p
    else if total == 0
    then (unassigned index weight_zero no_weight, p)
    else let (chosen, q) = pick mode weights total p in
      let why = classify_fallback p.states in
      assign_to index chosen (slot mode index) why (fallback mode why) q

pub record Outcome : Type 0 where
  pub assignments : List AssignmentSlot
  pub fallback_queue : List AssignmentSlot
  pub final : Progress

abbrev file_slot : AssignmentSlot → Outcome → Outcome
file_slot s o =
    if s.assigned
    then record o { assignments = s ∷ o.assignments }
    else record o { fallback_queue = s ∷ o.fallback_queue }

-- The loop from customer `index` on, for `left` customers.
pub simulate_from : ℕ → ℕ → Strategy → List WeightEntry → ℕ → Mode → Progress → Outcome
unfolding assign_one_customer
simulate_from zero index strategy weights total mode p = record {
  assignments = [];
  fallback_queue = [];
  final = p;
}
simulate_from (suc left) index strategy weights total mode p =
    let (s, q) = assign_one_customer index strategy weights total mode p in
    file_slot s (simulate_from left (suc index) strategy weights total mode q)

-- The queue of the batch mode and the counters of the realtime mode exist for the weighted strategy
-- only.
abbrev initial : List StaffState → Strategy → List WeightEntry → Mode → ℕ → Progress
initial states strategy weights batch count = record {
  states = states;
  batch_queue =
      if is_weighted strategy
      then some (plan_to_queue (compute_quota_plan count weights states))
      else none;
  wrr = none;
}
initial states strategy weights realtime count = record {
  states = states;
  batch_queue = none;
  wrr = if is_weighted strategy then some (map (λ _. pos 0) states) else none;
}

-- `simulateDistribution`: the slots and the staff states from which the summary is read.
pub simulate_distribution : Strategy → List WeightEntry → List StaffState → ℕ → Mode → Outcome
unfolding simulate_from
simulate_distribution strategy weights states count mode =
    simulate_from count 0 strategy weights (total_weight weights) mode
      (initial states strategy weights mode count)
