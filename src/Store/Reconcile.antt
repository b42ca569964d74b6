-- ===== src/Store/Reconcile.antt =====
-- apps/integration-api/src/reconciler/stuck-receipt-reconciler.ts: receipts whose lease has expired are put
-- back to pending, with a recovery action as the record of it.
pub mod Once
pub mod Again
mod Tests
use mathlib.Core.Option.{get_or}
use hrp_crm.Base.{
  ℕ, zero, suc, ltb, min, Bool, true, false, not, ◌&&◌, if◌then◌else◌, Option, none, some, List, [],
  ◌∷◌, ◌++◌, map, length, Text, codes, text_eq, is_empty,
}
use hrp_crm.Store.Table.{Table}
use hrp_crm.Store.{
  Receipt, StoreError, store_error, validation_error, Outcome, ok, throws, row_not_found,
  unique_violation,
}
use hrp_crm.Store.Lease.{is_expired, release_data, by_receipt_id}
use hrp_crm.Store.Actions.{
  ItemType, receipt_item, RecoveryAction, RecoveryStatus, applied, skipped, CreateArgs,
  reset_to_pending, Draws, create_recovery_action, complete_recovery_action, find_stuck_receipts,
  reset_stuck_receipt,
}

pub data ReconcileAction : Type 0 where
  recovered skipped_item failed_item : ReconcileAction

pub record ReconcileResult : Type 0 where
  pub receipt_id : Text
  pub action : ReconcileAction
  pub recovery_id : Option Text

-- The reasons that the two callers write.
pub record Reasons : Type 0 where
  pub detected : Text
  pub not_stuck : Text
  pub reset_done : Text

abbrev pub manual : Reasons
manual = record {
  detected = codes "Manual recovery trigger via HTTP API";
  not_stuck = codes "Receipt not in LEASED+expired state";
  reset_done = codes "Manual recovery: receipt reset to PENDING";
}

abbrev date_text : (ℕ → Text) → Option ℕ → Text
date_text iso none = codes "unknown"
date_text iso (some t) = iso t

-- `iso` is `toISOString`.
abbrev pub scheduled : (ℕ → Text) → Receipt → Reasons
scheduled iso q = record {
  detected =
      codes "Stuck receipt detected: LEASED + lease expired at "
      ++ date_text iso q.lease_expires_at;
  not_stuck =
      codes "Receipt no longer in LEASED+expired state — likely completed by another worker";
  reset_done = codes "Receipt reset to PENDING; lease fields cleared";
}

module _ (A : Table RecoveryAction) (R : Table Receipt) where
  abbrev pub Stores : Type 0
  Stores = R.State × A.State

  abbrev pub result_of : Text → ReconcileAction → RecoveryAction → ReconcileResult
  result_of id action a = record {
    receipt_id = id;
    action = action;
    recovery_id = some a.recovery_id;
  }

  abbrev pub conclude :
      Text
      → ReconcileAction
      → RecoveryAction
      → Outcome (Option RecoveryAction × A.State)
      → R.State
      → Outcome (ReconcileResult × Stores)
  conclude id action a (ok (_, t)) r = ok (result_of id action a, (r, t))
  conclude id action a (throws e) r = throws e
  conclude id action a row_not_found r = row_not_found
  conclude id action a unique_violation r = unique_violation

  abbrev pub reset_args : Text → Text → Text → CreateArgs
  reset_args actor id reason = record {
    item_type = receipt_item;
    item_id = id;
    action = reset_to_pending;
    actor = actor;
    reason = some reason;
  }

  -- After its action is created.
  abbrev pub reset_and_settle :
      Reasons
      → Draws
      → Text
      → RecoveryAction
      → A.State
      → R.State
      → Outcome (ReconcileResult × Stores)
  reset_and_settle why d id a t r =
      let (reset, r') = reset_stuck_receipt R id d.now r in
      if reset
      then conclude id recovered a
          (complete_recovery_action A a.recovery_id applied why.reset_done d.completed_at t) r'
      else conclude id skipped_item a
          (complete_recovery_action A a.recovery_id skipped why.not_stuck d.completed_at t) r'

  abbrev pub after_create :
      Reasons
      → Draws
      → Text
      → Outcome ((RecoveryAction × Bool) × A.State)
      → R.State
      → Outcome (ReconcileResult × Stores)
  after_create why d id (ok ((a, created), t)) r =
      if not created
      then ok (result_of id skipped_item a, (r, t))
      else reset_and_settle why d id a t r
  after_create why d id (throws e) r = throws e
  after_create why d id row_not_found r = row_not_found
  after_create why d id unique_violation r = unique_violation

  -- `recoverReceipt`, and the body of the loop of `reconcileReceipts` with its own reasons.
  unfoldable pub recover_receipt :
      Reasons → Draws → Text → Text → Stores → Outcome (ReconcileResult × Stores)
  unfolding create_recovery_action complete_recovery_action reset_stuck_receipt
  recover_receipt why d actor id (r, s) =
      after_create why d id (create_recovery_action A d (reset_args actor id why.detected) s) r

  abbrev fail_result : Text → ReconcileResult
  fail_result id = record { receipt_id = id; action = failed_item; recovery_id = none }

  -- A failure that is caught has changed nothing: in one step each row that was found is there to be
  -- updated.
  abbrev loop_step : Text → Stores → Outcome (ReconcileResult × Stores) → ReconcileResult × Stores
  loop_step id st (ok p) = p
  loop_step id st (throws e) = (fail_result id, st)
  loop_step id st row_not_found = (fail_result id, st)
  loop_step id st unique_violation = (fail_result id, st)

  -- The loop over the receipts found, with the draws of each.
  unfoldable pub reconcile_each :
      (Receipt → Reasons) → Text → List (Receipt × Draws) → Stores → List ReconcileResult × Stores
  unfolding recover_receipt
  reconcile_each why actor [] st = ([], st)
  reconcile_each why actor ((q, d) ∷ qs) st =
      let (result, st') =
        loop_step q.receipt_id st (recover_receipt (why q) d actor q.receipt_id st) in
      let (results, st'') = reconcile_each why actor qs st' in (result ∷ results, st'')

  -- The number of receipts found, and the result of each; the texts of the errors are left out.
  unfoldable pub reconcile_receipts :
      (ℕ → Text) → ℕ → ℕ → (Text → Draws) → Text → Stores → ℕ × List ReconcileResult × Stores
  unfolding find_stuck_receipts reconcile_each
  reconcile_receipts iso batch now draws actor (r, s) =
      let found = find_stuck_receipts R batch now r in
      let (results, st) =
        reconcile_each (scheduled iso) actor (map (λ q. (q, draws q.receipt_id)) found) (r, s) in
      (length found, results, st)
