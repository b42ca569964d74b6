-- ===== src/Routing/Quota.antt =====
-- routing/simulator.ts: the largest remainder method. `exact = N * weight / totalW` is kept as its
-- floor and the remainder over `totalW`, so `fractional` is a numerator; the source has doubles.
pub mod Exact
use hrp_crm.Base.{
  ℕ, zero, suc, ◌+◌, ◌-◌, ◌*◌, ◌/◌, ◌%◌, Bool, true, false, ◌&&◌, ◌||◌, not, if◌then◌else◌, ltb,
  ◌==◌, List, [], ◌∷◌, map, any, select, sum_by, sort_by, Text, text_eq, text_lt, length,
}
use hrp_crm.Routing.{StaffState, WeightEntry, is_eligible}

pub record QuotaPlan : Type 0 where
  pub actor_id : Text
  pub base_count : ℕ
  pub fractional : ℕ

unfoldable pub is_eligible_weight : List StaffState → WeightEntry → Bool
is_eligible_weight states w =
    any (λ s. text_eq s.actor_id w.recipient_actor_id) (select is_eligible states) && ltb 0 w.weight

unfoldable pub eligible_weights : List WeightEntry → List StaffState → List WeightEntry
unfolding is_eligible_weight
eligible_weights weights states = select (is_eligible_weight states) weights

abbrev pub total_weight : List WeightEntry → ℕ
total_weight = sum_by λ w. w.weight

pub to_plan : ℕ → ℕ → WeightEntry → QuotaPlan
to_plan n total w = record {
  actor_id = w.recipient_actor_id;
  base_count = n * w.weight / total;
  fractional = n * w.weight % total;
}

-- The order of the comparator: the fraction falling, then the actor rising.
pub precedes : QuotaPlan → QuotaPlan → Bool
precedes a b =
    ltb b.fractional a.fractional
    || (a.fractional == b.fractional && not (text_lt b.actor_id a.actor_id))

-- One more for each of the first `remainder` plans.
pub distribute : ℕ → List QuotaPlan → List QuotaPlan
distribute zero plans = plans
distribute (suc r) [] = []
distribute (suc r) (p ∷ ps) = record p { base_count = p.base_count + 1 } ∷ distribute r ps

abbrev pub assigned : List QuotaPlan → ℕ
assigned = sum_by λ p. p.base_count

-- `remainder` is clamped at 0 in the source, as the difference is here.
pub plan_of : ℕ → List WeightEntry → List QuotaPlan
unfolding to_plan precedes distribute
plan_of n eligible =
    let plans = map (to_plan n (total_weight eligible)) eligible in
    distribute (n - assigned plans) (sort_by precedes plans)

unfoldable pub is_nil : List WeightEntry → Bool
is_nil [] = true
is_nil (_ ∷ _) = false

pub compute_quota_plan : ℕ → List WeightEntry → List StaffState → List QuotaPlan
compute_quota_plan n weights states =
    let eligible = eligible_weights weights states in
    if is_nil eligible then [] else plan_of n eligible

pub record QueueEntry : Type 0 where
  pub actor_id : Text
  pub remaining : ℕ

abbrev pub by_actor : QueueEntry → QueueEntry → Bool
by_actor a b = not (text_lt b.actor_id a.actor_id)

pub to_entry : QuotaPlan → QueueEntry
to_entry p = record { actor_id = p.actor_id; remaining = p.base_count }

pub plan_to_queue : List QuotaPlan → List QueueEntry
unfolding to_entry
plan_to_queue plans = sort_by by_actor (map to_entry plans)
