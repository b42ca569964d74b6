-- ===== src/Routing/Pick.antt =====
-- routing/simulator.ts: `wrrPick` and `batchPick`. The source mutates the staff states in place; a
-- pick is the index of the staff member in them.
use hrp_crm.Base.{
  ℕ, zero, suc, ◌+◌, ◌-◌, Bool, if◌then◌else◌, ◌==◌, Option, none, some, List, [], ◌∷◌, Text,
  text_eq,
}
use hrp_crm.Base.Int.{ℤ, pos, ◌+ℤ◌, ◌-ℤ◌, ltb_ℤ}
use hrp_crm.Routing.{StaffState, WeightEntry, is_eligible}
use hrp_crm.Routing.Quota.{QueueEntry}

-- What `weights.find(…)?.weight ?? 0` comes to.
unfoldable pub weight_of : List WeightEntry → Text → ℕ
weight_of [] actor = 0
weight_of (w ∷ ws) actor =
    if text_eq w.recipient_actor_id actor then w.weight else weight_of ws actor

-- The first loop of `wrrPick`: the weight of each eligible member is added to its counter.
unfoldable pub add_weights : List WeightEntry → List StaffState → List ℤ → List ℤ
add_weights weights [] cs = cs
add_weights weights (s ∷ ss) [] = []
add_weights weights (s ∷ ss) (c ∷ cs) =
    (if is_eligible s then c +ℤ pos (weight_of weights s.actor_id) else c)
    ∷ add_weights weights ss cs

-- The better of the best so far and the counter `c` at `i`: the earlier one where they are equal.
abbrev pub better : Option (ℕ × ℤ) → ℕ → ℤ → Option (ℕ × ℤ)
better none i c = some (i, c)
better (some (j, b)) i c = if ltb_ℤ b c then some (i, c) else some (j, b)

-- The second loop, from index `i` on.
unfoldable pub best_from : List StaffState → List ℤ → ℕ → Option (ℕ × ℤ) → Option (ℕ × ℤ)
best_from [] cs i best = best
best_from (s ∷ ss) [] i best = best
best_from (s ∷ ss) (c ∷ cs) i best =
    best_from ss cs (suc i) (if is_eligible s then better best i c else best)

unfoldable pub subtract_at : ℕ → ℕ → List ℤ → List ℤ
subtract_at i total [] = []
subtract_at zero total (c ∷ cs) = (c -ℤ pos total) ∷ cs
subtract_at (suc i) total (c ∷ cs) = c ∷ subtract_at i total cs

-- `wrrPick`: the index picked, with the counters after it.
unfoldable pub wrr_pick : List WeightEntry → ℕ → List StaffState → List ℤ → Option (ℕ × List ℤ)
unfolding add_weights best_from subtract_at
wrr_pick weights total states cs =
    let raised = add_weights weights states cs in
    elim (best_from states raised 0 none) [
      | none ↦ none
      | some (i, _) ↦ some (i, subtract_at i total raised)
    ]

-- `states.find(…)` with the index found.
unfoldable pub find_from : (StaffState → Bool) → List StaffState → ℕ → Option (ℕ × StaffState)
find_from p [] i = none
find_from p (s ∷ ss) i = if p s then some (i, s) else find_from p ss (suc i)

-- The state that an entry of the queue would be served by.
unfoldable pub candidate : List StaffState → QueueEntry → Option (ℕ × StaffState)
candidate states e =
    if e.remaining == 0 then none else find_from (λ s. text_eq s.actor_id e.actor_id) states 0

abbrev pub accepts : Option (ℕ × StaffState) → Option ℕ
accepts none = none
accepts (some (i, s)) = if is_eligible s then some i else none

unfoldable pub batch_pick : List QueueEntry → List StaffState → Option (ℕ × List QueueEntry)
batch_pick [] states = none
batch_pick (e ∷ es) states =
    let rest = batch_pick es states in
    elim (accepts (candidate states e)) [
      | some i ↦ some (i, record e { remaining = e.remaining - 1 } ∷ es)
      | none ↦ elim rest [ none ↦ none | some (i, q) ↦ some (i, e ∷ q) ]
    ]

-- `chosen.currentCapacity++; chosen.periodAssignments++`
unfoldable pub serve : ℕ → List StaffState → List StaffState
serve i [] = []
serve zero (s ∷ ss) =
    record s {
      current_capacity = s.current_capacity + 1;
      period_assignments = s.period_assignments + 1;
    }
    ∷ ss
serve (suc i) (s ∷ ss) = s ∷ serve i ss
