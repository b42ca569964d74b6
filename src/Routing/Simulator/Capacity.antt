-- ===== src/Routing/Simulator/Capacity.antt =====
-- routing/simulator.ts: no run overloads a staff member.
use hrp_crm.Base.{
  ℕ, zero, suc, ◌+◌, ◌≤◌, ◌≡◌, refl, sym, ◌∙◌, ap, inl, inr, Bool, true, Option, none, some, List,
  [], ◌∷◌, All, Bool-cases, Option-cases, arith, subst, ◌==◌, leb, ◌||◌,
}
use hrp_crm.Routing.{
  StaffState, WeightEntry, is_eligible, is_at_capacity, is_quota_exhausted, FallbackReason, Period,
}
use hrp_crm.Routing.Pick.{serve}
use hrp_crm.Routing.Simulator.{
  Progress, Mode, Strategy, weighted_distribution, SlotReason, state_at, fixed_owner_from, pick,
  assign_to, assign_one_customer, simulate_from, simulate_distribution, is_source, batch, realtime,
}
use hrp_crm.Routing.Simulator.Picks.{
  StandsAt, Eligible, HasRoom, pick-StandsAt, fixed_owner_from-StandsAt,
}

abbrev served : StaffState → StaffState
served s = record s {
  current_capacity = s.current_capacity + 1;
  period_assignments = s.period_assignments + 1;
}

serve-All :
    (P : StaffState → Type 0) (i : ℕ) (ss : List StaffState)
    → ((s : StaffState) → state_at i ss ≡ some s → P s → P (served s))
    → All P ss
    → All P (serve i ss)
unfolding serve state_at
serve-All P i [] keep h = tt
serve-All P zero (s ∷ ss) keep h = (keep s refl h.0, h.1)
serve-All P (suc i) (s ∷ ss) keep h = (h.0, serve-All P i ss keep h.1)

module _ (P Q : StaffState → Type 0) (keep : (s : StaffState) → Q s → P s → P (served s)) where
  assign_to-All :
      (index : ℕ) (chosen : Option ℕ) (r : SlotReason) (why : FallbackReason) (f : SlotReason)
      (p : Progress)
      → ((j : ℕ) → chosen ≡ some j → StandsAt Q 0 p.states j)
      → All P p.states
      → All P (assign_to index chosen r why f p).1.states
  unfolding assign_to
  assign_to-All index none r why f p picked h = h
  assign_to-All index (some i) r why f p picked h = elim (Option-cases (state_at i p.states)) [
    | inl e ↦ rw (e, assign_to) h
    | inr (s, e) ↦
        rw (e, assign_to)
          (serve-All P i p.states
            (λ t found fine.
              let at_i = picked i refl in
              let place : i ≡ at_i.offset = omega (arith, at_i.index) in
              let both : some at_i.member ≡ some t =
                sym at_i.found ∙ ap (λ n. state_at n p.states) (sym place) ∙ found in
              let same : at_i.member ≡ t = cc in keep t (subst Q same at_i.holds) fine)
            h)
  ]

-- What each pick keeps of the member picked, the whole run keeps of every member.
module _ (P : StaffState → Type 0) (strategy : Strategy)
    (keep_owner : is_source strategy ≡ true → (s : StaffState) → HasRoom s → P s → P (served s))
    (keep_picked : (s : StaffState) → Eligible s → P s → P (served s)) where
  assign_one_customer-All :
      (index : ℕ) (weights : List WeightEntry) (total : ℕ) (mode : Mode) (p : Progress)
      → All P p.states
      → All P (assign_one_customer index strategy weights total mode p).1.states
  unfolding assign_one_customer
  assign_one_customer-All index weights total mode p h = elim (Bool-cases (is_source strategy)) [
    | inl source ↦ rw source (
        assign_to-All P HasRoom (keep_owner source) index (fixed_owner_from p.states 0) _ _ _ p
          (fixed_owner_from-StandsAt p.states 0) h)
    | inr weighted ↦ rw weighted (elim (Bool-cases (total == 0)) [
      | inl nothing ↦ rw nothing h
      | inr something ↦
          let (same, picked) = pick-StandsAt mode weights total p in
          rw something (
            assign_to-All P Eligible keep_picked index (pick mode weights total p).0 _ _ _
              (pick mode weights total p).1
              (λ j e. subst (λ ss. StandsAt Eligible 0 ss j) (sym same) (picked j e))
              (subst (All P) (sym same) h))
    ])
  ]

  pub simulate_from-All :
      (left index : ℕ) (weights : List WeightEntry) (total : ℕ) (mode : Mode) (p : Progress)
      → All P p.states
      → All P (simulate_from left index strategy weights total mode p).final.states
  unfolding simulate_from
  simulate_from-All zero index weights total mode p h = h
  simulate_from-All (suc left) index weights total mode p h =
      let (s, q) = assign_one_customer index strategy weights total mode p in
      let rest =
        simulate_from-All left (suc index) weights total mode q
          (assign_one_customer-All index weights total mode p h) in
      elim (Bool-cases s.assigned) [ inl e ↦ rw e rest | inr e ↦ rw e rest ]

  simulate_distribution-All :
      (weights : List WeightEntry) (states : List StaffState) (count : ℕ) (mode : Mode)
      → All P states
      → All P (simulate_distribution strategy weights states count mode).final.states
  unfolding simulate_distribution
  simulate_distribution-All weights states count batch h =
      simulate_from-All count 0 weights _ batch _ h
  simulate_distribution-All weights states count realtime h =
      simulate_from-All count 0 weights _ realtime _ h

abbrev pub Fits : StaffState → Type 0
Fits s = s.current_capacity ≤ s.max_capacity

Fits-owner : (s : StaffState) → HasRoom s → Fits s → Fits (served s)
unfolding is_at_capacity
Fits-owner s room h = ground arith

Fits-picked : (s : StaffState) → Eligible s → Fits s → Fits (served s)
unfolding is_eligible is_at_capacity
Fits-picked s room h = ground arith

-- No run takes a staff member above its capacity, whatever the strategy, the mode and the weights.
pub simulate_distribution-Fits :
    (strategy : Strategy) (weights : List WeightEntry) (states : List StaffState) (count : ℕ)
    (mode : Mode)
    → All Fits states
    → All Fits (simulate_distribution strategy weights states count mode).final.states
simulate_distribution-Fits strategy weights states count mode h =
    simulate_distribution-All Fits strategy (λ _. Fits-owner) Fits-picked weights states count mode
      h

-- A member with a period has not more assignments in it than its cap, if that is not 0.
abbrev pub is_within_quota : Option Period → ℕ → ℕ → Bool
is_within_quota none cap made = true
is_within_quota (some _) cap made = cap == 0 || leb made cap

abbrev pub WithinQuota : StaffState → Type 0
WithinQuota s = is_within_quota s.cap_period s.period_cap s.period_assignments ≡ true

WithinQuota-picked : (s : StaffState) → Eligible s → WithinQuota s → WithinQuota (served s)
unfolding is_eligible is_quota_exhausted
WithinQuota-picked s room h = ground arith

-- The weighted strategy takes no staff member above its quota, in either mode.
pub simulate_distribution-WithinQuota :
    (weights : List WeightEntry) (states : List StaffState) (count : ℕ) (mode : Mode)
    → All WithinQuota states
    → All WithinQuota
        (simulate_distribution weighted_distribution weights states count mode).final.states
simulate_distribution-WithinQuota weights states count mode h =
    simulate_distribution-All WithinQuota weighted_distribution (λ e. cc) WithinQuota-picked weights
      states count mode h
