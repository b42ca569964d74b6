-- ===== src/Store/Checkpoint/Bound.antt =====
-- intake-checkpoint.ts: an intake revision stays bound to the draft that it was first created with.
use hrp_crm.Base.{
  ◌≡◌, refl, sym, ap, subst, ◌∙◌, ◌⊎◌, inl, inr, Bool, true, false, ◌&&◌, if◌then◌else◌, none, [],
  ◌∷◌, ◌++◌, ℕ, Text, text_eq, text_eq_iff, text_eq_refl, In, All-In, In-map, In-of_map,
  In-of_append, arith, In-append_left, In-append_right, update_where, Bool-cases, Option-cases,
}
use hrp_crm.Store.Table.{Table}
use hrp_crm.Store.{ok, throws, ok-injective}
use hrp_crm.Store.Checkpoint.{
  Checkpoint, CheckpointUpdate, has_revision, by_checkpoint_id, input_error, conflict, update_data,
  clashes, create_intake_checkpoint, update_intake_checkpoint,
}

-- The row as an update leaves it.
abbrev updated : Bool → ℕ → CheckpointUpdate → Checkpoint → Checkpoint
updated b now u c = if b then update_data now u c else c

updated-has_revision :
    (b : Bool) (now : ℕ) (u : CheckpointUpdate) (org rev : Text) (c : Checkpoint)
    → (has_revision org rev (updated b now u c) ≡ has_revision org rev c)
      × ((updated b now u c).draft_digest ≡ c.draft_digest)
unfolding update_data
updated-has_revision true now u org rev c = (refl, refl)
updated-has_revision false now u org rev c = (refl, refl)

both : (x y : Bool) → (x && y) ≡ true → (x ≡ true) × (y ≡ true)
both x y e = (ground arith, ground arith)

-- Two checkpoints of one revision.
same_revision :
    (org rev : Text) (a b : Checkpoint)
    → has_revision org rev a ≡ true
    → has_revision org rev b ≡ true
    → has_revision a.organization_id a.intake_revision_id b ≡ true
same_revision org rev a b f g =
    let (f₁, f₂) = both (text_eq a.organization_id org) (text_eq a.intake_revision_id rev) f in
    rw ((text_eq_iff a.organization_id org).0 f₁, (text_eq_iff a.intake_revision_id rev).0 f₂) g

module _ (C : Table Checkpoint) (org rev d : Text) where
  -- The revision has a checkpoint, and each that it has is bound to the digest.
  abbrev pub IsBound : C.State → Type 0
  IsBound s =
      ((c : Checkpoint) → In c (C.rows s) → has_revision org rev c ≡ true → c.draft_digest ≡ d)
      × (c : Checkpoint) × In c (C.rows s)
      × (has_revision org rev c ≡ true)

  insert-IsBound :
      (input : Checkpoint) (s t : C.State)
      → IsBound s
      → C.find_first (has_revision input.organization_id input.intake_revision_id) s ≡ none
      → C.rows t ≡ C.rows s ++ input ∷ []
      → IsBound t
  insert-IsBound input s t (digests, c, m, f) n w = (
    λ b k g. elim (In-of_append b (C.rows s) (input ∷ []) (subst (In b) w k)) [
      | inl held ↦ digests b held g
      | inr (inl e) ↦ cc (
        same_revision org rev input c (ap (has_revision org rev) (sym e) ∙ g) f,
        All-In _ _
            (C.find_first-none (has_revision input.organization_id input.intake_revision_id) s n) m,
      )
      | inr (inr z) ↦ absurd z
    ],
    c,
    subst (In c) (sym w) (In-append_left c (C.rows s) _ m),
    f,
  )

  update-IsBound :
      (id : Text) (now : ℕ) (u : CheckpointUpdate) (s t : C.State)
      → IsBound s
      → C.rows t ≡ update_where (by_checkpoint_id id) (update_data now u) (C.rows s)
      → IsBound t
  update-IsBound id now u s t (digests, c, m, f) w = (
    λ b k g.
        let (x, held, e) =
          In-of_map (λ y. updated (by_checkpoint_id id y) now u y) (C.rows s) (subst (In b) w k) in
        let (same, digest) = updated-has_revision (by_checkpoint_id id x) now u org rev x in
        ap (λ y. y.draft_digest) e
        ∙ digest
        ∙ digests x held (sym same ∙ ap (has_revision org rev) (sym e) ∙ g),
    updated (by_checkpoint_id id c) now u c,
    subst (In _) (sym w) (In-map (λ y. updated (by_checkpoint_id id y) now u y) c (C.rows s) m),
    (updated-has_revision (by_checkpoint_id id c) now u org rev c).0 ∙ f,
  )

  create-IsBound :
      (input : Checkpoint) (s t : C.State) (o : Checkpoint × Bool)
      → IsBound s
      → create_intake_checkpoint C input s ≡ ok (o, t)
      → IsBound t
  unfolding create_intake_checkpoint
  create-IsBound input s t o held e = elim (Option-cases (input_error input)) [
    | inr (err, v) ↦ cc (rw (create_intake_checkpoint, v) at e)
    | inl v ↦
        elim (Option-cases
          (C.find_first (has_revision input.organization_id input.intake_revision_id) s)) [
            | inr (existing, n) ↦
                elim (Bool-cases (text_eq existing.draft_digest input.draft_digest)) [
                  | inr x ↦ cc (rw (create_intake_checkpoint, v, n, x) at e)
                  | inl x ↦
                      let same : ◌≡◌ {A = (Checkpoint × Bool) × C.State} ((existing, false), s)
                          (o, t) =
                        ok-injective (rw (create_intake_checkpoint, v, n, x) at e) in
                      subst IsBound (ap (λ p. p.1) same) held
                ]
            | inl n ↦ elim (Option-cases (C.insert (clashes C input) input s)) [
              | inl i ↦ cc (rw (create_intake_checkpoint, v, n, i) at e)
              | inr (t', i) ↦
                  let same : ◌≡◌ {A = (Checkpoint × Bool) × C.State} ((input, true), t') (o, t) =
                    ok-injective (rw (create_intake_checkpoint, v, n, i) at e) in
                  subst IsBound (ap (λ p. p.1) same) (
                    insert-IsBound input s t' held n
                      (C.insert-some (clashes C input) input s t' i).1)
            ]
          ]
  ]

  update_intake-IsBound :
      (org' rev' : Text) (now : ℕ) (u : CheckpointUpdate) (s t : C.State) (row : Checkpoint)
      → IsBound s
      → update_intake_checkpoint C org' rev' now u s ≡ ok (row, t)
      → IsBound t
  unfolding update_intake_checkpoint
  update_intake-IsBound org' rev' now u s t row held e =
      elim (Option-cases (C.find_first (has_revision org' rev') s)) [
        | inl n ↦ cc (rw (update_intake_checkpoint, n) at e)
        | inr (existing, n) ↦
            elim (Option-cases
              (C.update (by_checkpoint_id existing.checkpoint_id) (update_data now u) s)) [
                | inl i ↦ cc (rw (update_intake_checkpoint, n, i) at e)
                | inr ((row', t'), i) ↦
                    let same : ◌≡◌ {A = Checkpoint × C.State} (row', t') (row, t) =
                      ok-injective (rw (update_intake_checkpoint, n, i) at e) in
                    subst IsBound (ap (λ p. p.1) same) (
                      update-IsBound existing.checkpoint_id now u s t' held
                        (C.update-some (by_checkpoint_id existing.checkpoint_id) (update_data now u)
                          s row' t' i).1)
              ]
      ]

-- Creations and updates that go through.
pub data Calls (C : Table Checkpoint) (s : C.State) : C.State → Type 0 where
  none_yet : Calls C s s
  created :
      (t t' : C.State) (input : Checkpoint) (o : Checkpoint × Bool)
      → Calls C s t
      → create_intake_checkpoint C input t ≡ ok (o, t')
      → Calls C s t'
  changed :
      (t t' : C.State) (org rev : Text) (now : ℕ) (u : CheckpointUpdate) (row : Checkpoint)
      → Calls C s t
      → update_intake_checkpoint C org rev now u t ≡ ok (row, t')
      → Calls C s t'

Calls-IsBound :
    (C : Table Checkpoint) (org rev d : Text) (s t : C.State)
    → Calls C s t
    → IsBound C org rev d s
    → IsBound C org rev d t
Calls-IsBound C org rev d s t none_yet held = held
Calls-IsBound C org rev d s u (created t t' input o before e) held =
    create-IsBound C org rev d input t u o (Calls-IsBound C org rev d s t before held) e
Calls-IsBound C org rev d s u (changed t t' org' rev' now up row before e) held =
    update_intake-IsBound C org rev d org' rev' now up t u row
      (Calls-IsBound C org rev d s t before held) e

alone-IsBound :
    (C : Table Checkpoint) (input : Checkpoint) (s t : C.State)
    → C.find_first (has_revision input.organization_id input.intake_revision_id) s ≡ none
    → C.rows t ≡ C.rows s ++ input ∷ []
    → IsBound C input.organization_id input.intake_revision_id input.draft_digest t
alone-IsBound C input s t n w = (
  λ b k g. elim (In-of_append b (C.rows s) (input ∷ []) (subst (In b) w k)) [
    | inl held ↦ cc (
      g,
      All-In _ _
          (C.find_first-none (has_revision input.organization_id input.intake_revision_id) s n)
          held,
    )
    | inr (inl e) ↦ ap (λ y. y.draft_digest) e
    | inr (inr z) ↦ absurd z
  ],
  input,
  subst (In input) (sym w) (In-append_right input (C.rows s) _ (inl refl)),
  rw (text_eq_refl input.organization_id, text_eq_refl input.intake_revision_id),
)

-- A creation that adds a row binds the revision to its digest.
created-IsBound :
    (C : Table Checkpoint) (input row : Checkpoint) (s t : C.State)
    → create_intake_checkpoint C input s ≡ ok ((row, true), t)
    → IsBound C input.organization_id input.intake_revision_id input.draft_digest t
unfolding create_intake_checkpoint
created-IsBound C input row s t e = elim (Option-cases (input_error input)) [
  | inr (err, v) ↦ cc (rw (create_intake_checkpoint, v) at e)
  | inl v ↦
      elim (Option-cases
        (C.find_first (has_revision input.organization_id input.intake_revision_id) s)) [
          | inr (existing, n) ↦
              elim (Bool-cases (text_eq existing.draft_digest input.draft_digest)) [
                | inr x ↦ cc (rw (create_intake_checkpoint, v, n, x) at e)
                | inl x ↦
                    let same : ◌≡◌ {A = (Checkpoint × Bool) × C.State} ((existing, false), s)
                        ((row, true), t) =
                      ok-injective (rw (create_intake_checkpoint, v, n, x) at e) in
                    cc (ap (λ p. p.0.1) same)
              ]
          | inl n ↦ elim (Option-cases (C.insert (clashes C input) input s)) [
            | inl i ↦ cc (rw (create_intake_checkpoint, v, n, i) at e)
            | inr (t', i) ↦
                let same : ◌≡◌ {A = (Checkpoint × Bool) × C.State} ((input, true), t')
                    ((row, true), t) =
                  ok-injective (rw (create_intake_checkpoint, v, n, i) at e) in
                subst (IsBound C input.organization_id input.intake_revision_id input.draft_digest)
                  (ap (λ p. p.1) same)
                  (alone-IsBound C input s t' n (C.insert-some (clashes C input) input s t' i).1)
          ]
        ]
]

module _ (C : Table Checkpoint) (s : C.State) (input : Checkpoint) where
  -- What a creation of a bound revision comes to.
  bound_created :
      (d : Text)
      → IsBound C input.organization_id input.intake_revision_id d s
      → input_error input ≡ none
      → ((text_eq d input.draft_digest ≡ false)
          × (create_intake_checkpoint C input s ≡ throws conflict))
        ⊎ ((c : Checkpoint) × (text_eq d input.draft_digest ≡ true)
            × (c.draft_digest ≡ d)
            × (create_intake_checkpoint C input s ≡ ok ((c, false), s)))
  unfolding create_intake_checkpoint
  bound_created d (digests, b, m, f) v =
      elim (Option-cases
        (C.find_first (has_revision input.organization_id input.intake_revision_id) s)) [
          | inl n ↦ cc (
            f,
            All-In _ _
                (C.find_first-none (has_revision input.organization_id input.intake_revision_id) s
                  n)
                m,
          )
          | inr (c, n) ↦
              let (k, g) =
                C.find_first-some (has_revision input.organization_id input.intake_revision_id) s c
                  n in
              let digest = digests c k g in
              elim (Bool-cases (text_eq d input.draft_digest)) [
                | inl x ↦ inr (
                  c,
                  x,
                  digest,
                  rw (
                    create_intake_checkpoint,
                    v,
                    n,
                    ap (λ y. text_eq y input.draft_digest) digest ∙ x,
                  ),
                )
                | inr x ↦ inl (
                  x,
                  rw (
                    create_intake_checkpoint,
                    v,
                    n,
                    ap (λ y. text_eq y input.draft_digest) digest ∙ x,
                  ),
                )
              ]
        ]

-- After a creation that adds a checkpoint, and whatever creations and updates go through since, a valid
-- creation for the same organization and revision either has another digest, and is refused as a conflict,
-- or has the same one, and returns a checkpoint with that digest as not created and changes nothing.
pub first_draft_stays :
    (C : Table Checkpoint) (s t u : C.State) (first row again : Checkpoint)
    → create_intake_checkpoint C first s ≡ ok ((row, true), t)
    → Calls C t u
    → again.organization_id ≡ first.organization_id
    → again.intake_revision_id ≡ first.intake_revision_id
    → input_error again ≡ none
    → ((text_eq first.draft_digest again.draft_digest ≡ false)
        × (create_intake_checkpoint C again u ≡ throws conflict))
      ⊎ ((c : Checkpoint) × (text_eq first.draft_digest again.draft_digest ≡ true)
          × (c.draft_digest ≡ first.draft_digest)
          × (create_intake_checkpoint C again u ≡ ok ((c, false), u)))
first_draft_stays C s t u first row again e calls same_org same_rev v =
    bound_created C u again first.draft_digest
      (subst (λ rev. IsBound C again.organization_id rev first.draft_digest u) (sym same_rev)
        (subst (λ org. IsBound C org first.intake_revision_id first.draft_digest u) (sym same_org)
          (Calls-IsBound C first.organization_id first.intake_revision_id first.draft_digest t u
            calls (created-IsBound C first row s t e))))
      v
