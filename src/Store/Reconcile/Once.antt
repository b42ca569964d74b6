-- ===== src/Store/Reconcile/Once.antt =====
-- reconciliation.ts: an item is recovered once.
use hrp_crm.Base.{
  ℕ, ◌≡◌, refl, sym, ap, subst, inl, inr, Bool, true, false, ◌&&◌, if◌then◌else◌, Option, none,
  some, Text, text_eq_refl, is_empty, In, In-map, In-append_left, In-append_right, update_where,
  Bool-cases, Option-cases,
}
use hrp_crm.Store.Table.{Table}
use hrp_crm.Store.{ok, ok-injective}
use hrp_crm.Store.Actions.{
  ItemType, receipt_item, intent_item, mapping_item, same_type, new_action, RecoveryStatus,
  RecoveryAction, is_for, CreateArgs, Draws, create_recovery_action, complete_recovery_action,
  by_recovery_id, is_open,
}

module _ (A : Table RecoveryAction) where
  -- An action for the item is on record.
  abbrev pub OnRecord : ItemType → Text → A.State → Type 0
  OnRecord type id s = (a : RecoveryAction) × In a (A.rows s) × (is_for type id a ≡ true)

  abbrev closing : RecoveryStatus → Text → ℕ → RecoveryAction → RecoveryAction
  closing status reason at a = record a {
    status = status;
    completed_at = some at;
    reason = some reason;
  }

  update-OnRecord :
      (type : ItemType) (id : Text) (p : RecoveryAction → Bool) (status : RecoveryStatus)
      (reason : Text) (at : ℕ) (s t : A.State)
      → A.rows t ≡ update_where p (closing status reason at) (A.rows s)
      → OnRecord type id s
      → OnRecord type id t
  update-OnRecord type id p status reason at s t w (a, m, f) = (
    if p a then closing status reason at a else a,
    subst (In _) (sym w)
        (In-map (λ x. if p x then closing status reason at x else x) a (A.rows s) m),
    elim (Bool-cases (p a)) [ inl e ↦ rw e f | inr e ↦ rw e f ],
  )

  pub complete-OnRecord :
      (type : ItemType) (id rid : Text) (status : RecoveryStatus) (reason : Text) (at : ℕ)
      (s t : A.State) (o : Option RecoveryAction)
      → OnRecord type id s
      → complete_recovery_action A rid status reason at s ≡ ok (o, t)
      → OnRecord type id t
  unfolding complete_recovery_action
  complete-OnRecord type id rid status reason at s t o held e = elim (Bool-cases (is_open status)) [
    | inl st ↦ cc (rw (complete_recovery_action, st) at e)
    | inr st ↦ elim (Option-cases (A.find_first (by_recovery_id rid) s)) [
      | inl n ↦
          let same : ◌≡◌ {A = Option RecoveryAction × A.State} (none, s) (o, t) =
            ok-injective (rw (complete_recovery_action, st, n) at e) in
          subst (OnRecord type id) (ap (λ p. p.1) same) held
      | inr (existing, n) ↦ elim (Bool-cases (is_open existing.status)) [
        | inr v ↦
            let same : ◌≡◌ {A = Option RecoveryAction × A.State} (some existing, s) (o, t) =
              ok-injective (rw (complete_recovery_action, st, n, v) at e) in
            subst (OnRecord type id) (ap (λ p. p.1) same) held
        | inl v ↦ elim (Option-cases (A.update (by_recovery_id rid) (closing status reason at) s)) [
          | inl u ↦ cc (rw (complete_recovery_action, st, n, v, u) at e)
          | inr ((row, t'), u) ↦
              let same : ◌≡◌ {A = Option RecoveryAction × A.State} (some row, t') (o, t) =
                ok-injective (rw (complete_recovery_action, st, n, v, u) at e) in
              subst (OnRecord type id) (ap (λ p. p.1) same) (
                update-OnRecord type id (by_recovery_id rid) status reason at s t'
                  (A.update-some (by_recovery_id rid) (closing status reason at) s row t' u).1 held)
        ]
      ]
    ]
  ]

  is_for_self :
      (d : Draws) (args : CreateArgs)
      → is_for args.item_type args.item_id (new_action d args) ≡ true
  is_for_self d args = rw (text_eq_refl args.item_id) (by_type args.item_type)
    where
      by_type : (type : ItemType) → (same_type type type && true) ≡ true
      by_type receipt_item = refl
      by_type intent_item = refl
      by_type mapping_item = refl

  -- A creation loses no action, and leaves one for its own item on record.
  pub create-OnRecord :
      (type : ItemType) (id : Text) (d : Draws) (args : CreateArgs) (s t : A.State)
      (o : RecoveryAction × Bool)
      → create_recovery_action A d args s ≡ ok (o, t)
      → (OnRecord type id s → OnRecord type id t) × OnRecord args.item_type args.item_id t
  unfolding create_recovery_action
  create-OnRecord type id d args s t o e = elim (Bool-cases (is_empty args.item_id)) [
    | inl v ↦ cc (rw (create_recovery_action, v) at e)
    | inr v ↦ elim (Bool-cases (is_empty args.actor)) [
      | inl w ↦ cc (rw (create_recovery_action, v, w) at e)
      | inr w ↦
          elim (Option-cases
            (A.insert (is_for args.item_type args.item_id) (new_action d args) s)) [
              | inr (t', i) ↦
                  let same : ◌≡◌ {A = (RecoveryAction × Bool) × A.State}
                      ((new_action d args, true), t') (o, t) =
                    ok-injective (rw (create_recovery_action, v, w, i) at e) in
                  let (_, written) =
                    A.insert-some (is_for args.item_type args.item_id) (new_action d args) s t' i in
                  subst
                    (λ x.
                      (OnRecord type id s → OnRecord type id x)
                      × OnRecord args.item_type args.item_id x)
                    (ap (λ p. p.1) same)
                    (
                      λ (a, m, f).
                          (a, subst (In a) (sym written) (In-append_left a (A.rows s) _ m), f),
                      (
                        new_action d args,
                        subst (In _) (sym written)
                            (In-append_right (new_action d args) (A.rows s) _ (inl refl)),
                        is_for_self d args,
                      ),
                    )
              | inl i ↦ elim (Option-cases (A.find_first (is_for args.item_type args.item_id) s)) [
                | inl n ↦ cc (rw (create_recovery_action, v, w, i, n) at e)
                | inr (existing, n) ↦
                    let same : ◌≡◌ {A = (RecoveryAction × Bool) × A.State} ((existing, false), s)
                        (o, t) =
                      ok-injective (rw (create_recovery_action, v, w, i, n) at e) in
                    subst
                      (λ x.
                        (OnRecord type id s → OnRecord type id x)
                        × OnRecord args.item_type args.item_id x)
                      (ap (λ p. p.1) same)
                      (
                        λ held. held,
                        (
                          existing,
                          (A.find_first-some (is_for args.item_type args.item_id) s existing n).0,
                          (A.find_first-some (is_for args.item_type args.item_id) s existing n).1,
                        ),
                      )
              ]
            ]
    ]
  ]
