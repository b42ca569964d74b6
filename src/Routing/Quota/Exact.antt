-- ===== src/Routing/Quota/Exact.antt =====
-- The largest remainder method hands out exactly the customers asked for, each recipient its exact
-- share rounded down or up.
use native.Mathlib.Nat.{div-add-mod, mod-lt}
use hrp_crm.Base.{
  ℕ, zero, suc, ◌+◌, ◌-◌, ◌*◌, ◌≤◌, ◌<◌, ◌≡◌, refl, ap, inl, inr, Bool, true, false, List, [], ◌∷◌,
  map, sum_by, sum_by-sort_by, sort_by, length, In, All, All-map, All-sort_by, All-of_In, arith,
  cancel_right, cancel_right_lt, Bool-cases,
}
use hrp_crm.Routing.{StaffState, WeightEntry}
use hrp_crm.Routing.Quota.{
  QuotaPlan, total_weight, to_plan, precedes, distribute, assigned, plan_of, compute_quota_plan,
  eligible_weights, is_eligible_weight, is_nil,
}

abbrev fractions : List QuotaPlan → ℕ
fractions = sum_by λ p. p.fractional

-- Quotients and remainders over any positive total add up to the exact shares.
shares_exact :
    (n total : ℕ) (ws : List WeightEntry)
    → total * assigned (map (to_plan n total) ws) + fractions (map (to_plan n total) ws)
      ≡ n * total_weight ws
unfolding to_plan
shares_exact n total [] = omega arith
shares_exact n total (w ∷ ws) =
    omega (arith, shares_exact n total ws, div-add-mod (n * w.weight) total)

fractions_below :
    (n total : ℕ) (ws : List WeightEntry)
    → 0 < total
    → fractions (map (to_plan n total) ws) + length ws ≤ total * length ws
unfolding to_plan
fractions_below n total [] h = omega arith
fractions_below n total (w ∷ ws) h =
    omega (arith, fractions_below n total ws h, mod-lt (n * w.weight) h)

length-map-to_plan :
    (n total : ℕ) (ws : List WeightEntry) → length (map (to_plan n total) ws) ≡ length ws
length-map-to_plan n total [] = refl
length-map-to_plan n total (w ∷ ws) = ap suc (length-map-to_plan n total ws)

sum_by-length : {A : Type 0} (xs : List A) → sum_by (λ _. 1) xs ≡ length xs
sum_by-length [] = refl
sum_by-length (x ∷ xs) = omega (arith, sum_by-length xs)

length-sort_by : {A : Type 0} (le : A → A → Bool) (xs : List A) → length (sort_by le xs) ≡ length xs
length-sort_by le xs =
    omega (arith, sum_by-length (sort_by le xs), sum_by-length xs, sum_by-sort_by (λ _. 1) le xs)

assigned-distribute :
    (r : ℕ) (ps : List QuotaPlan) → r ≤ length ps → assigned (distribute r ps) ≡ assigned ps + r
unfolding distribute
assigned-distribute zero ps h = omega arith
assigned-distribute (suc r) [] h = omega arith
assigned-distribute (suc r) (p ∷ ps) h = omega (arith, assigned-distribute r ps (omega arith))

weight-length : (ws : List WeightEntry) → 0 < total_weight ws → 0 < length ws
weight-length [] h = h
weight-length (w ∷ ws) h = omega arith

-- What the floors leave over is less than one for each recipient.
left_over :
    (n : ℕ) (ws : List WeightEntry)
    → 0 < total_weight ws
    → let a = assigned (map (to_plan n (total_weight ws)) ws) in (a ≤ n) × (n - a < length ws)
left_over n ws h = (few, cancel_right_lt (n - a) (length ws) total bounded)
  where
    total : ℕ
    total = total_weight ws

    a : ℕ
    a = assigned (map (to_plan n total) ws)

    few : a ≤ n
    few = cancel_right a n total h (omega (arith, shares_exact n total ws))

    split : n * total ≡ a * total + (n - a) * total
    split =
        let e : n ≡ a + (n - a) = omega (arith, few) in omega (arith, ap (λ (t : ℕ). t * total) e)

    bounded : (n - a) * total < length ws * total
    bounded =
        omega
          (arith, split, shares_exact n total ws, fractions_below n total ws h, weight-length ws h)

eligible-pos :
    (states : List StaffState) (w : WeightEntry) → is_eligible_weight states w ≡ true → 0 < w.weight
unfolding is_eligible_weight
eligible-pos states w h = ground arith

eligible_total :
    (states : List StaffState) (ws : List WeightEntry)
    → is_nil (eligible_weights ws states) ≡ false
    → 0 < total_weight (eligible_weights ws states)
unfolding eligible_weights is_nil
eligible_total states [] h = cc
eligible_total states (w ∷ ws) h = ground (arith, eligible-pos states w, eligible_total states ws)

assigned-plan_of :
    (n : ℕ) (ws : List WeightEntry) → 0 < total_weight ws → assigned (plan_of n ws) ≡ n
unfolding plan_of
assigned-plan_of n ws h =
    let plans = map (to_plan n (total_weight ws)) ws in
    let (few, rest) = left_over n ws h in
    omega (
      arith,
      assigned-distribute (n - assigned plans) (sort_by precedes plans)
          (omega (arith, length-sort_by precedes plans, length-map-to_plan n (total_weight ws) ws)),
      sum_by-sort_by (λ p. p.base_count) precedes plans,
    )

-- If any recipient is eligible, the plan hands out exactly the customers asked for.
pub assigned-compute_quota_plan :
    (n : ℕ) (weights : List WeightEntry) (states : List StaffState)
    → is_nil (eligible_weights weights states) ≡ false
    → assigned (compute_quota_plan n weights states) ≡ n
unfolding compute_quota_plan
assigned-compute_quota_plan n weights states h =
    rw h (assigned-plan_of n (eligible_weights weights states) (eligible_total states weights h))

-- The plan of a recipient: its exact share `n * weight / total`, rounded down or up.
pub record IsShare (n : ℕ) (eligible : List WeightEntry) (extra : ℕ) (p : QuotaPlan) : Type 0 where
  pub entry : WeightEntry
  pub listed : In entry eligible
  pub actor : p.actor_id ≡ entry.recipient_actor_id
  pub low : n * entry.weight < (p.base_count + 1) * total_weight eligible
  pub high : p.base_count * total_weight eligible ≤ n * entry.weight + extra * total_weight eligible

to_plan-IsShare :
    (n : ℕ) (ws : List WeightEntry) (w : WeightEntry)
    → 0 < total_weight ws
    → In w ws
    → IsShare n ws 0 (to_plan n (total_weight ws) w)
unfolding to_plan
to_plan-IsShare n ws w h m = record {
  entry = w;
  listed = m;
  actor = refl;
  low = omega (arith, div-add-mod (n * w.weight) (total_weight ws), mod-lt (n * w.weight) h);
  high = omega (arith, div-add-mod (n * w.weight) (total_weight ws));
}

IsShare-distribute :
    (n r : ℕ) (ws : List WeightEntry) (ps : List QuotaPlan)
    → All (IsShare n ws 0) ps
    → All (IsShare n ws 1) (distribute r ps)
unfolding distribute
IsShare-distribute n zero ws [] h = tt
IsShare-distribute n zero ws (p ∷ ps) h = (
  record {
    entry = h.0.entry;
    listed = h.0.listed;
    actor = h.0.actor;
    low = h.0.low;
    high = omega (arith, h.0.high);
  },
  IsShare-distribute n zero ws ps h.1,
)
IsShare-distribute n (suc r) ws [] h = tt
IsShare-distribute n (suc r) ws (p ∷ ps) h = (
  record {
    entry = h.0.entry;
    listed = h.0.listed;
    actor = h.0.actor;
    low = omega (arith, h.0.low);
    high = omega (arith, h.0.high);
  },
  IsShare-distribute n r ws ps h.1,
)

plan_of-IsShare :
    (n : ℕ) (ws : List WeightEntry) → 0 < total_weight ws → All (IsShare n ws 1) (plan_of n ws)
unfolding plan_of
plan_of-IsShare n ws h = IsShare-distribute n _ ws _ (
    All-sort_by (IsShare n ws 0) precedes (map (to_plan n (total_weight ws)) ws) (
      All-map (IsShare n ws 0) (to_plan n (total_weight ws)) ws (
        All-of_In (λ w. IsShare n ws 0 (to_plan n (total_weight ws) w)) ws
          (λ w m. to_plan-IsShare n ws w h m))))

-- Every recipient in the plan is an eligible one with its exact share rounded down or up.
pub compute_quota_plan-IsShare :
    (n : ℕ) (weights : List WeightEntry) (states : List StaffState)
    → All (IsShare n (eligible_weights weights states) 1) (compute_quota_plan n weights states)
unfolding compute_quota_plan
compute_quota_plan-IsShare n weights states =
    elim (Bool-cases (is_nil (eligible_weights weights states))) [
      | inl e ↦ rw e tt
      | inr e ↦
          rw e
            (plan_of-IsShare n (eligible_weights weights states) (eligible_total states weights e))
    ]
