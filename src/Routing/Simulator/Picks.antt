-- ===== src/Routing/Simulator/Picks.antt =====
-- Whoever is picked may be picked.
use hrp_crm.Base.{
  ℕ, suc, ◌+◌, ◌≡◌, refl, sym, ◌∙◌, ap, ◌⊎◌, inl, inr, Bool, true, false, ◌&&◌, not, if◌then◌else◌,
  Option, none, some, List, [], ◌∷◌, Bool-cases, Option-cases, arith, text_eq, subst,
}
use hrp_crm.Base.Int.{ℤ}
use hrp_crm.Routing.{StaffState, WeightEntry, is_eligible, is_at_capacity}
use hrp_crm.Routing.Quota.{QueueEntry}
use hrp_crm.Routing.Pick.{
  add_weights, better, best_from, wrr_pick, find_from, candidate, accepts, batch_pick,
}
use hrp_crm.Routing.Simulator.{Progress, Mode, batch, realtime, state_at, fixed_owner_from, pick}

-- The member at `j` of a list whose first index is `i`.
pub record StandsAt (P : StaffState → Type 0) (i : ℕ) (ss : List StaffState) (j : ℕ) : Type 0 where
  pub offset : ℕ
  pub index : j ≡ i + offset
  pub member : StaffState
  pub found : state_at offset ss ≡ some member
  pub holds : P member

StandsAt-suc :
    (P : StaffState → Type 0) (i : ℕ) (s : StaffState) (ss : List StaffState) (j : ℕ)
    → StandsAt P (suc i) ss j
    → StandsAt P i (s ∷ ss) j
unfolding state_at
StandsAt-suc P i s ss j h = record {
  offset = suc h.offset;
  index = omega (arith, h.index);
  member = h.member;
  found = h.found;
  holds = h.holds;
}

StandsAt-here :
    (P : StaffState → Type 0) (i : ℕ) (s : StaffState) (ss : List StaffState)
    → P s
    → StandsAt P i (s ∷ ss) i
unfolding state_at
StandsAt-here P i s ss h = record {
  offset = 0;
  index = omega arith;
  member = s;
  found = refl;
  holds = h;
}

abbrev pub Eligible : StaffState → Type 0
Eligible s = is_eligible s ≡ true

abbrev index_of : Option (ℕ × ℤ) → Option ℕ
index_of none = none
index_of (some (i, _)) = some i

-- The best counter is that so far, or it is of an eligible member.
best_from-StandsAt :
    (ss : List StaffState) (cs : List ℤ) (i : ℕ) (best : Option (ℕ × ℤ)) (j : ℕ)
    → index_of (best_from ss cs i best) ≡ some j
    → (index_of best ≡ some j) ⊎ StandsAt Eligible i ss j
unfolding best_from
best_from-StandsAt [] cs i best j e = inl e
best_from-StandsAt (s ∷ ss) [] i best j e = inl e
best_from-StandsAt (s ∷ ss) (c ∷ cs) i best j e =
    elim (best_from-StandsAt ss cs (suc i) (if is_eligible s then better best i c else best) j e) [
      | inr later ↦ inr (StandsAt-suc Eligible i s ss j later)
      | inl now ↦ here (Bool-cases (is_eligible s)) best now
    ]
  where
    chosen :
        (b : Option (ℕ × ℤ)) → index_of (better b i c) ≡ some j → (index_of b ≡ some j) ⊎ (j ≡ i)
    chosen none f = inr (ground arith)
    chosen (some (k, d)) f = ground arith

    here :
        ((is_eligible s ≡ true) ⊎ (is_eligible s ≡ false))
        → (b : Option (ℕ × ℤ)) → index_of (if is_eligible s then better b i c else b) ≡ some j
        → (index_of b ≡ some j) ⊎ StandsAt Eligible i (s ∷ ss) j
    here (inr no_room) b f = inl (rw no_room at f)
    here (inl room) b f = elim (chosen b (rw room at f)) [
      | inl old ↦ inl old
      | inr new ↦
          inr (subst (StandsAt Eligible i (s ∷ ss)) (sym new) (StandsAt-here Eligible i s ss room))
    ]

pub wrr_pick-StandsAt :
    (weights : List WeightEntry) (total : ℕ) (ss : List StaffState) (cs : List ℤ) (j : ℕ)
    (cs' : List ℤ)
    → wrr_pick weights total ss cs ≡ some (j, cs')
    → StandsAt Eligible 0 ss j
unfolding wrr_pick
wrr_pick-StandsAt weights total ss cs j cs' e =
    let raised = add_weights weights ss cs in
    elim (Option-cases (best_from ss raised 0 none)) [
      | inl h ↦
          let f : ◌≡◌ {A = Option (ℕ × List ℤ)} none (some (j, cs')) = rw (h, wrr_pick) at e in cc
      | inr ((i, c), h) ↦
          let f : ◌≡◌ {A = Option (ℕ × List ℤ)} (some (i, _)) (some (j, cs')) =
            rw (h, wrr_pick) at e in
          let same : i ≡ j = cc in
          elim (best_from-StandsAt ss raised 0 none i (ap index_of h)) [
            | inl never ↦ cc
            | inr at_i ↦ subst (StandsAt Eligible 0 ss) same at_i
          ]
    ]

find_from-StandsAt :
    (p : StaffState → Bool) (ss : List StaffState) (i j : ℕ) (s : StaffState)
    → find_from p ss i ≡ some (j, s)
    → is_eligible s ≡ true
    → StandsAt Eligible i ss j
unfolding find_from
find_from-StandsAt p [] i j s e room = cc
find_from-StandsAt p (t ∷ ss) i j s e room =
    here (find_from-StandsAt p ss (suc i) j s) (Bool-cases (p t)) e
  where
    here :
        (find_from p ss (suc i) ≡ some (j, s)
          → is_eligible s ≡ true
          → StandsAt Eligible (suc i) ss j)
        → ((p t ≡ true) ⊎ (p t ≡ false))
        → (if p t then some (i, t) else find_from p ss (suc i)) ≡ some (j, s)
        → StandsAt Eligible i (t ∷ ss) j
    here later (inl h) = rw h (λ f.
        let same : t ≡ s = cc in
        let first : i ≡ j = cc in
        subst (StandsAt Eligible i (t ∷ ss)) first (StandsAt-here Eligible i t ss (rw same room)))
    here later (inr h) = rw h (λ f. StandsAt-suc Eligible i t ss j (later f room))

accepts-StandsAt :
    (ss : List StaffState) (e : QueueEntry) (j : ℕ)
    → accepts (candidate ss e) ≡ some j
    → StandsAt Eligible 0 ss j
unfolding candidate
accepts-StandsAt ss e j h = elim (Option-cases (candidate ss e)) [
  | inl none_there ↦ cc (ap accepts none_there, h)
  | inr ((i, s), found) ↦
      let f : accepts (some (i, s)) ≡ some j = sym (ap accepts found) ∙ h in
      let room : is_eligible s ≡ true = ground arith in
      let same : i ≡ j = ground arith in
      let located : find_from (λ t. text_eq t.actor_id e.actor_id) ss 0 ≡ some (i, s) =
        ground (arith, found) in
      subst (StandsAt Eligible 0 ss) same
        (find_from-StandsAt (λ t. text_eq t.actor_id e.actor_id) ss 0 i s located room)
]

batch_pick-StandsAt :
    (q : List QueueEntry) (ss : List StaffState) (j : ℕ) (q' : List QueueEntry)
    → batch_pick q ss ≡ some (j, q')
    → StandsAt Eligible 0 ss j
unfolding batch_pick
batch_pick-StandsAt [] ss j q' e = cc
batch_pick-StandsAt (x ∷ xs) ss j q' e = elim (Option-cases (accepts (candidate ss x))) [
  | inr (i, h) ↦
      let f : ◌≡◌ {A = Option (ℕ × List QueueEntry)} (some (i, _)) (some (j, q')) =
        rw (h, batch_pick) at e in
      accepts-StandsAt ss x j (h ∙ ap some (ground arith))
  | inl h ↦ elim (Option-cases (batch_pick xs ss)) [
    | inl g ↦
        let f : ◌≡◌ {A = Option (ℕ × List QueueEntry)} none (some (j, q')) = ground (arith, h, g) in
        cc
    | inr ((i, q), g) ↦
        let same : i ≡ j = ground (arith, h, g) in
        batch_pick-StandsAt xs ss j q (g ∙ ap (λ n. some (n, q)) same)
  ]
]

-- With room and online; the source strategy does not look at the quota.
abbrev pub HasRoom : StaffState → Type 0
HasRoom s = (s.online ≡ true) × (is_at_capacity s ≡ false)

pub fixed_owner_from-StandsAt :
    (ss : List StaffState) (i j : ℕ) → fixed_owner_from ss i ≡ some j → StandsAt HasRoom i ss j
unfolding fixed_owner_from
fixed_owner_from-StandsAt [] i j e = cc
fixed_owner_from-StandsAt (s ∷ ss) i j e =
    here (fixed_owner_from-StandsAt ss (suc i) j) (Bool-cases (s.online && not (is_at_capacity s)))
      e
  where
    here :
        (fixed_owner_from ss (suc i) ≡ some j → StandsAt HasRoom (suc i) ss j)
        → (((s.online && not (is_at_capacity s)) ≡ true)
            ⊎ ((s.online && not (is_at_capacity s)) ≡ false))
        → (if s.online && not (is_at_capacity s) then some i else fixed_owner_from ss (suc i))
          ≡ some j
        → StandsAt HasRoom i (s ∷ ss) j
    here later (inl h) = rw h (λ f.
        let first : i ≡ j = cc in
        subst (StandsAt HasRoom i (s ∷ ss)) first
          (StandsAt-here HasRoom i s ss (ground arith, ground arith)))
    here later (inr h) = rw h (λ f. StandsAt-suc HasRoom i s ss j (later f))

-- A pick of either mode is of an eligible member, and moves no customer by itself.
pub pick-StandsAt :
    (mode : Mode) (weights : List WeightEntry) (total : ℕ) (p : Progress)
    → ((pick mode weights total p).1.states ≡ p.states)
      × ((j : ℕ) → (pick mode weights total p).0 ≡ some j → StandsAt Eligible 0 p.states j)
unfolding pick
pick-StandsAt batch weights total p = elim (Option-cases p.batch_queue) [
  | inl e ↦ rw (e, pick) (refl, λ j h. cc)
  | inr (q, e) ↦
      rw (e, pick)
        (elim (Option-cases (batch_pick q p.states)) [
          | inl g ↦ rw (g, pick) (refl, λ j h. cc)
          | inr ((i, q'), g) ↦
              rw (g, pick)
                (
                  refl,
                  λ j h.
                      let same : i ≡ j = cc in
                      batch_pick-StandsAt q p.states j q' (g ∙ ap (λ n. some (n, q')) same),
                )
        ])
]
pick-StandsAt realtime weights total p = elim (Option-cases p.wrr) [
  | inl e ↦ rw (e, pick) (refl, λ j h. cc)
  | inr (cs, e) ↦
      rw (e, pick)
        (elim (Option-cases (wrr_pick weights total p.states cs)) [
          | inl g ↦ rw (g, pick) (refl, λ j h. cc)
          | inr ((i, cs'), g) ↦
              rw (g, pick)
                (
                  refl,
                  λ j h.
                      let same : i ≡ j = cc in
                      wrr_pick-StandsAt weights total p.states cs j cs'
                        (g ∙ ap (λ n. some (n, cs')) same),
                )
        ])
]
