-- ===== src/Routing.antt =====
-- apps/context-panel/src/routing/types.ts and the eligibility helpers of routing/simulator.ts.
pub mod Quota
pub mod Pick
pub mod Simulator
use hrp_crm.Base.{
  ℕ, Bool, true, false, ◌&&◌, not, if◌then◌else◌, leb, ◌==◌, Option, none, some, List, [], ◌∷◌, any,
  find, Text, text_eq,
}

pub data Period : Type 0 where
  daily weekly monthly : Period

pub record StaffState : Type 0 where
  pub actor_id : Text
  pub role : Text
  pub online : Bool
  pub current_capacity : ℕ
  pub max_capacity : ℕ
  pub period_assignments : ℕ
  pub period_cap : ℕ
  pub cap_period : Option Period

-- What the simulator reads of a `RoutingWeightEntry`.
pub record WeightEntry : Type 0 where
  pub recipient_actor_id : Text
  pub recipient_role : Text
  pub weight : ℕ

pub data FallbackReason : Type 0 where
  all_staff_offline all_staff_at_capacity all_staff_quota_exhausted : FallbackReason
  no_eligible_weight weight_zero : FallbackReason

unfoldable pub is_at_capacity : StaffState → Bool
is_at_capacity s = leb s.max_capacity s.current_capacity

-- The cases of `is_quota_exhausted`, on the period and the rest.
quota_used_up : Option Period → ℕ → ℕ → Bool
quota_used_up none cap made = false
quota_used_up (some _) cap made = if cap == 0 then false else leb cap made

unfoldable pub is_quota_exhausted : StaffState → Bool
unfolding quota_used_up
is_quota_exhausted s = quota_used_up s.cap_period s.period_cap s.period_assignments

-- `s.online && !isAtCapacity(s) && !isQuotaExhausted(s)`
unfoldable pub is_eligible : StaffState → Bool
unfolding is_at_capacity is_quota_exhausted
is_eligible s = s.online && not (is_at_capacity s) && not (is_quota_exhausted s)

unfoldable pub classify_fallback : List StaffState → FallbackReason
unfolding is_at_capacity is_quota_exhausted
classify_fallback states =
    if not (any (λ s. s.online) states)
    then all_staff_offline
    else if not (any (λ s. s.online && not (is_at_capacity s)) states)
    then all_staff_at_capacity
    else if not (any (λ s. s.online && not (is_quota_exhausted s)) states)
    then all_staff_quota_exhausted
    else no_eligible_weight
