-- ===== src/Store/Reconcile/Again.antt =====
-- stuck-receipt-reconciler.ts: a receipt that gets stuck again.
use hrp_crm.Base.{
  ◌≡◌, refl, ap, subst, inl, inr, Bool, true, false, Option, Text, is_empty, All-In, Bool-cases,
  Option-cases,
}
use hrp_crm.Store.Table.{Table}
use hrp_crm.Store.{Receipt, Outcome, ok, throws, row_not_found, unique_violation, ok-injective}
use hrp_crm.Store.Actions.{
  RecoveryStatus, ItemType, receipt_item, RecoveryAction, is_for, CreateArgs, Draws, applied,
  skipped, create_recovery_action, complete_recovery_action, reset_stuck_receipt, new_action,
}
use hrp_crm.Store.Reconcile.{
  Reasons, ReconcileAction, recovered, skipped_item, ReconcileResult, recover_receipt, reset_args,
  after_create, conclude, result_of, Stores,
}
use hrp_crm.Store.Reconcile.Once.{OnRecord, complete-OnRecord, create-OnRecord}

module _ (A : Table RecoveryAction) (R : Table Receipt) where
  conclude-ok :
      (id : Text) (action : ReconcileAction) (a : RecoveryAction)
      (c : Outcome (Option RecoveryAction × A.State)) (r r' : R.State) (s' : A.State)
      (res : ReconcileResult)
      → conclude A R id action a c r ≡ ok (res, (r', s'))
      → (o : Option RecoveryAction) × (c ≡ ok (o, s'))
  conclude-ok id action a (ok (o, t)) r r' s' res e =
      let same : ◌≡◌ {A = ReconcileResult × Stores A R} (result_of A R id action a, (r, t))
          (res, (r', s')) =
        ok-injective e in
      (o, ap (λ p. ok (o, p.1.1)) same)
  conclude-ok id action a (throws err) r r' s' res e = cc e
  conclude-ok id action a row_not_found r r' s' res e = cc e
  conclude-ok id action a unique_violation r r' s' res e = cc e

  -- A recovery loses no action, and leaves one for its own receipt on record.
  recover_receipt-OnRecord :
      (type : ItemType) (i : Text) (why : Reasons) (d : Draws) (actor id : Text) (r r' : R.State)
      (s s' : A.State) (res : ReconcileResult)
      → recover_receipt A R why d actor id (r, s) ≡ ok (res, (r', s'))
      → (OnRecord A type i s → OnRecord A type i s') × OnRecord A receipt_item id s'
  unfolding recover_receipt
  recover_receipt-OnRecord type i why d actor id r r' s s' res e =
      by_create (create_recovery_action A d (reset_args A R actor id why.detected) s) refl e
    where
      Kept : A.State → Type 0
      Kept t = (OnRecord A type i s → OnRecord A type i t) × OnRecord A receipt_item id t

      closed :
          (status : RecoveryStatus) (reason : Text) (a : RecoveryAction) (t : A.State)
          (action : ReconcileAction) (q : R.State)
          → Kept t
          → conclude A R id action a
              (complete_recovery_action A a.recovery_id status reason d.completed_at t)
              q
            ≡ ok (res, (r', s'))
          → Kept s'
      closed status reason a t action q (keep, own) h =
          let (o, c) =
            conclude-ok id action a
              (complete_recovery_action A a.recovery_id status reason d.completed_at t) q r' s' res
              h in
          (
            λ held.
                complete-OnRecord A type i a.recovery_id status reason d.completed_at t s' o
                  (keep held) c,
            complete-OnRecord A receipt_item id a.recovery_id status reason d.completed_at t s' o
                own c,
          )

      by_create :
          (c : Outcome ((RecoveryAction × Bool) × A.State))
          → create_recovery_action A d (reset_args A R actor id why.detected) s ≡ c
          → after_create A R why d id c r ≡ ok (res, (r', s'))
          → Kept s'
      by_create (ok ((a, true), t)) c h = elim (Bool-cases (reset_stuck_receipt R id d.now r).0) [
        | inl v ↦
            closed applied why.reset_done a t recovered (reset_stuck_receipt R id d.now r).1
              (create-OnRecord A type i d (reset_args A R actor id why.detected) s t (a, true) c)
              (rw v at h)
        | inr v ↦
            closed skipped why.not_stuck a t skipped_item (reset_stuck_receipt R id d.now r).1
              (create-OnRecord A type i d (reset_args A R actor id why.detected) s t (a, true) c)
              (rw v at h)
      ]
      by_create (ok ((a, false), t)) c h =
          let same : ◌≡◌ {A = ReconcileResult × Stores A R}
              (result_of A R id skipped_item a, (r, t)) (res, (r', s')) =
            ok-injective h in
          subst Kept (ap (λ p. p.1.1) same)
            (create-OnRecord A type i d (reset_args A R actor id why.detected) s t (a, false) c)
      by_create (throws err) c h = cc h
      by_create row_not_found c h = cc h
      by_create unique_violation c h = cc h

  -- What recoveries of receipts that return, on any receipt table each, make of the record of actions.
  pub data Recoveries (s : A.State) : A.State → Type 0 where
    here : Recoveries s s
    next :
        (t t' : A.State) (why : Reasons) (d : Draws) (actor id : Text) (r r' : R.State)
        (res : ReconcileResult)
        → Recoveries s t
        → recover_receipt A R why d actor id (r, t) ≡ ok (res, (r', t'))
        → Recoveries s t'

  Recoveries-OnRecord :
      (type : ItemType) (i : Text) (s t : A.State)
      → Recoveries s t
      → OnRecord A type i s
      → OnRecord A type i t
  Recoveries-OnRecord type i s t here held = held
  Recoveries-OnRecord type i s u (next t t' why d actor id r r' res before e) held =
      (recover_receipt-OnRecord type i why d actor id r r' t t' res e).0
        (Recoveries-OnRecord type i s t before held)

  -- With an action for it on record, a receipt is left as it is.
  OnRecord-skipped :
      (why : Reasons) (d : Draws) (actor id : Text) (q : R.State) (u : A.State)
      → is_empty id ≡ false
      → is_empty actor ≡ false
      → OnRecord A receipt_item id u
      → (a : RecoveryAction) × (recover_receipt A R why d actor id (q, u)
          ≡ ok (result_of A R id skipped_item a, (q, u)))
  unfolding recover_receipt create_recovery_action
  OnRecord-skipped why d actor id q u ne na (b, m, f) =
      let args : CreateArgs = reset_args A R actor id why.detected in
      elim (Option-cases (A.insert (is_for receipt_item id) (new_action d args) u)) [
        | inr (t, i) ↦
            cc
              (f, All-In _ _ (A.insert-some (is_for receipt_item id) (new_action d args) u t i).0 m)
        | inl i ↦ elim (Option-cases (A.find_first (is_for receipt_item id) u)) [
          | inl n ↦ cc (f, All-In _ _ (A.find_first-none (is_for receipt_item id) u n) m)
          | inr (a, n) ↦ (a, rw (recover_receipt, create_recovery_action, ne, na, i, n))
        ]
      ]

  -- A receipt that a recovery has returned for is never recovered again: whatever recoveries that return
  -- follow, on whatever receipts, any later one of the same receipt, by a named actor, leaves the receipts
  -- and the actions as they are and reports it as skipped, even if it is stuck again.
  pub stuck_again :
      (why why' : Reasons) (d d' : Draws) (actor actor' id : Text) (r r' q : R.State)
      (s s' u : A.State) (res : ReconcileResult)
      → is_empty id ≡ false
      → is_empty actor' ≡ false
      → recover_receipt A R why d actor id (r, s) ≡ ok (res, (r', s'))
      → Recoveries s' u
      → (a : RecoveryAction) × (recover_receipt A R why' d' actor' id (q, u)
          ≡ ok (result_of A R id skipped_item a, (q, u)))
  stuck_again why why' d d' actor actor' id r r' q s s' u res ne na e path =
      OnRecord-skipped why' d' actor' id q u ne na (
        Recoveries-OnRecord receipt_item id s' u path
          (recover_receipt-OnRecord receipt_item id why d actor id r r' s s' res e).1)
