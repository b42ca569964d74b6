-- ===== src/Routing/Simulator/Waiting.antt =====
-- routing/simulator.ts: who is left waiting.
use hrp_crm.Base.{
  ℕ, zero, suc, ◌≡◌, ◌≢◌, refl, sym, ◌∙◌, ap, ◌⊎◌, inl, inr, true, false, if◌then◌else◌, Option,
  none, some, List, [], ◌∷◌, All, Bool-cases, Option-cases, arith, ◌==◌, length,
}
use hrp_crm.Base.Int.{ℤ, ltb_ℤ}
use hrp_crm.Routing.{StaffState, WeightEntry, is_eligible}
use hrp_crm.Routing.Pick.{serve, add_weights, better, best_from, subtract_at, wrr_pick}
use hrp_crm.Routing.Quota.{total_weight}
use hrp_crm.Routing.Simulator.{
  Progress, Mode, hybrid, pick, assign_to, assign_one_customer, simulate_from,
  simulate_distribution, batch, realtime,
}

-- With neither a queue nor counters nobody is picked.
hybrid_waits :
    (left index : ℕ) (weights : List WeightEntry) (total : ℕ) (mode : Mode) (p : Progress)
    → p.batch_queue ≡ none
    → p.wrr ≡ none
    → (simulate_from left index hybrid weights total mode p).assignments ≡ []
unfolding simulate_from assign_one_customer pick assign_to
hybrid_waits zero index weights total mode p no_queue no_counters = refl
hybrid_waits (suc left) index weights total batch p no_queue no_counters =
    elim (Bool-cases (total == 0)) [
      | inl e ↦ rw e (hybrid_waits left (suc index) weights total batch p no_queue no_counters)
      | inr e ↦
          rw (e, no_queue, pick)
            (hybrid_waits left (suc index) weights total batch _ no_queue no_counters)
    ]
hybrid_waits (suc left) index weights total realtime p no_queue no_counters =
    elim (Bool-cases (total == 0)) [
      | inl e ↦ rw e (hybrid_waits left (suc index) weights total realtime p no_queue no_counters)
      | inr e ↦
          rw (e, no_counters, pick)
            (hybrid_waits left (suc index) weights total realtime _ no_queue no_counters)
    ]

-- A pool with the strategy `HYBRID` assigns nobody to anyone.
pub hybrid_assigns_nobody :
    (weights : List WeightEntry) (states : List StaffState) (count : ℕ) (mode : Mode)
    → (simulate_distribution hybrid weights states count mode).assignments ≡ []
unfolding simulate_distribution
hybrid_assigns_nobody weights states count batch =
    hybrid_waits count 0 weights (total_weight weights) batch _ refl refl
hybrid_assigns_nobody weights states count realtime =
    hybrid_waits count 0 weights (total_weight weights) realtime _ refl refl

-- A counter for each member.
abbrev pub Paired : Progress → Type 0
Paired p = (cs : List ℤ) × (p.wrr ≡ some cs) × (length cs ≡ length p.states)

length-add_weights :
    (weights : List WeightEntry) (ss : List StaffState) (cs : List ℤ)
    → length cs ≡ length ss
    → length (add_weights weights ss cs) ≡ length ss
unfolding add_weights
length-add_weights weights [] cs e = e
length-add_weights weights (s ∷ ss) [] e = e
length-add_weights weights (s ∷ ss) (c ∷ cs) e = omega (arith, length-add_weights weights ss cs)

length-subtract_at : (i total : ℕ) (cs : List ℤ) → length (subtract_at i total cs) ≡ length cs
unfolding subtract_at
length-subtract_at i total [] = refl
length-subtract_at zero total (c ∷ cs) = refl
length-subtract_at (suc i) total (c ∷ cs) = ap suc (length-subtract_at i total cs)

pub length-serve : (i : ℕ) (ss : List StaffState) → length (serve i ss) ≡ length ss
unfolding serve
length-serve i [] = refl
length-serve zero (s ∷ ss) = refl
length-serve (suc i) (s ∷ ss) = ap suc (length-serve i ss)

best_from-some :
    (ss : List StaffState) (cs : List ℤ) (i : ℕ) (b : ℕ × ℤ) → best_from ss cs i (some b) ≢ none
unfolding best_from
best_from-some [] cs i b e = cc
best_from-some (s ∷ ss) [] i b e = cc
best_from-some (s ∷ ss) (c ∷ cs) i b e =
    here (best_from-some ss cs (suc i)) (Bool-cases (is_eligible s)) (Bool-cases (ltb_ℤ b.1 c)) e
  where
    here :
        ((b' : ℕ × ℤ) → best_from ss cs (suc i) (some b') ≢ none)
        → ((is_eligible s ≡ true) ⊎ (is_eligible s ≡ false))
        → ((ltb_ℤ b.1 c ≡ true) ⊎ (ltb_ℤ b.1 c ≡ false))
        → best_from ss cs (suc i) (if is_eligible s then better (some b) i c else some b) ≢ none
    here later (inr x) y = rw x (later b)
    here later (inl x) (inr y) = rw (x, y) (later b)
    here later (inl x) (inl y) = rw (x, y) (later (i, c))

-- If no counter is the best, nobody is eligible.
best_from-none :
    (ss : List StaffState) (cs : List ℤ) (i : ℕ)
    → length cs ≡ length ss
    → best_from ss cs i none ≡ none
    → All (λ s. is_eligible s ≡ false) ss
unfolding best_from
best_from-none [] cs i e h = tt
best_from-none (s ∷ ss) [] i e h = absurd (omega arith)
best_from-none (s ∷ ss) (c ∷ cs) i e h = elim (Bool-cases (is_eligible s)) [
  | inl room ↦ absurd (best_from-some ss cs (suc i) (i, c) (rw room at h))
  | inr full ↦ (full, best_from-none ss cs (suc i) (omega arith) (rw full at h))
]

-- Nobody is eligible.
abbrev pub NobodyEligible : List StaffState → Type 0
NobodyEligible ss = All (λ s. is_eligible s ≡ false) ss

pub wrr_pick-none :
    (weights : List WeightEntry) (total : ℕ) (ss : List StaffState) (cs : List ℤ)
    → length cs ≡ length ss
    → wrr_pick weights total ss cs ≡ none
    → NobodyEligible ss
unfolding wrr_pick
wrr_pick-none weights total ss cs e h =
    let raised = add_weights weights ss cs in
    elim (Option-cases (best_from ss raised 0 none)) [
      | inl g ↦ best_from-none ss raised 0 (length-add_weights weights ss cs e) g
      | inr (b, g) ↦
          let f : ◌≡◌ {A = Option (ℕ × List ℤ)} (some _) none = rw (g, wrr_pick) at h in cc
    ]

pub wrr_pick-length :
    (weights : List WeightEntry) (total : ℕ) (ss : List StaffState) (cs : List ℤ) (i : ℕ)
    (cs' : List ℤ)
    → length cs ≡ length ss
    → wrr_pick weights total ss cs ≡ some (i, cs')
    → length cs' ≡ length ss
unfolding wrr_pick
wrr_pick-length weights total ss cs i cs' e h =
    let raised = add_weights weights ss cs in
    elim (Option-cases (best_from ss raised 0 none)) [
      | inl g ↦
          let f : ◌≡◌ {A = Option (ℕ × List ℤ)} none (some (i, cs')) = rw (g, wrr_pick) at h in cc
      | inr (b, g) ↦
          let f : ◌≡◌ {A = Option (ℕ × List ℤ)} (some (_, subtract_at b.0 total raised))
              (some (i, cs')) =
            rw (g, wrr_pick) at h in
          let same : subtract_at b.0 total raised ≡ cs' = cc in
          ap length (sym same)
          ∙ length-subtract_at b.0 total raised
          ∙ length-add_weights weights ss cs e
    ]
