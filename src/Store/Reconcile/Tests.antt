-- ===== src/Store/Reconcile/Tests.antt =====
-- reconciliation.ts and stuck-receipt-reconciler.ts, on tables that are lists.
use hrp_crm.Base.{sort_by, ℕ, ◌≡◌, refl, none, some, [], ◌∷◌, Text, codes, text_eq}
use hrp_crm.Store.Table.{Table}
use hrp_crm.Store.Table.Lists.{list_table, update, insert, select_oldest}
use hrp_crm.Store.{Receipt, ReceiptState, dedupe, ok}
use hrp_crm.Store.Lease.{is_expired, release_data}
use hrp_crm.Store.Actions.{
  RecoveryAction, RecoveryStatus, applied, skipped, Draws, create_recovery_action,
  complete_recovery_action, find_stuck_receipts, reset_stuck_receipt, new_action,
}
use hrp_crm.Store.Reconcile.{
  recovered, skipped_item, manual, recover_receipt, result_of, reset_args, scheduled,
  reconcile_each, reconcile_receipts,
}
use hrp_crm.Store.Reconcile.Again.{here, next, stuck_again}

abbrev leased_to : Text → ℕ → Receipt
leased_to id expires = record {
  receipt_id = id;
  schema_version = codes "1";
  organization_id = codes "org";
  provider = codes "zalo";
  connection_id = codes "c1";
  event_id = codes "e";
  payload_digest = codes "d";
  state = ReceiptState.leased;
  duplicate_kind = dedupe;
  attempts = 1;
  lease_owner = some (codes "w1");
  lease_expires_at = some expires;
  fencing_token = some (codes "t1");
  lease_fenced_at = some 1;
  correlation_id = none;
  command_refs_json = none;
  idempotency_key = none;
  first_seen_at = 1;
  next_attempt_at = none;
  resolved_at = none;
  reason_code = none;
  evidence_refs_json = none;
}

abbrev actions : Table RecoveryAction
actions = list_table

abbrev receipts : Table Receipt
receipts = list_table

abbrev draws : Text → ℕ → Draws
draws id now = record { recovery_id = id; created_at = now; now = now; completed_at = now }

abbrev action_for : Text → Text → ℕ → RecoveryStatus → Text → RecoveryAction
action_for item rid now status reason =
    record (new_action (draws rid now) (
      reset_args actions receipts (codes "ops") item
        (codes "Manual recovery trigger via HTTP API"))) {
          status = status;
          completed_at = some now;
          reason = some reason;
        }

abbrev first_action : RecoveryAction
first_action =
    action_for (codes "r") (codes "ra-1") 20 applied
      (codes "Manual recovery: receipt reset to PENDING")

abbrev second_action : RecoveryAction
second_action =
    action_for (codes "x") (codes "ra-2") 30 skipped (codes "Receipt not in LEASED+expired state")

-- A stuck receipt is recovered.
recover_once :
    recover_receipt actions receipts manual
      (draws (codes "ra-1") 20)
      (codes "ops")
      (codes "r")
      (leased_to (codes "r") 10 ∷ [], [])
    ≡ ok (
      result_of actions receipts (codes "r") recovered first_action,
      (release_data none (leased_to (codes "r") 10) ∷ [], first_action ∷ []),
    )
unfolding recover_receipt create_recovery_action complete_recovery_action reset_stuck_receipt
    is_expired release_data text_eq update insert
recover_once = refl

-- A recovery of a receipt that is not there is skipped, and leaves its action.
recover_nothing :
    recover_receipt actions receipts manual
      (draws (codes "ra-2") 30)
      (codes "ops")
      (codes "x")
      ([], first_action ∷ [])
    ≡ ok (
      result_of actions receipts (codes "x") skipped_item second_action,
      ([], first_action ∷ second_action ∷ []),
    )
unfolding recover_receipt create_recovery_action complete_recovery_action reset_stuck_receipt
    is_expired release_data text_eq update insert
recover_nothing = refl

-- A pass over the receipts skips it when it is stuck again.
pass_skips :
    reconcile_receipts actions receipts
      (λ n. n ∷ [])
      100
      50
      (λ id. draws id 50)
      (codes "job")
      (leased_to (codes "r") 40 ∷ [], first_action ∷ [])
    ≡ (
      1,
      result_of actions receipts (codes "r") skipped_item first_action ∷ [],
      (leased_to (codes "r") 40 ∷ [], first_action ∷ []),
    )
unfolding reconcile_receipts find_stuck_receipts reconcile_each recover_receipt
    create_recovery_action complete_recovery_action reset_stuck_receipt is_expired text_eq update
    insert select_oldest sort_by
pass_skips = refl

-- With the first receipt stuck again.
stuck_again_example :
    (a : RecoveryAction) × (recover_receipt actions receipts
        (scheduled (λ n. n ∷ []) (leased_to (codes "r") 40))
        (draws (codes "ra-3") 50)
        (codes "job")
        (codes "r")
        (leased_to (codes "r") 40 ∷ [], first_action ∷ second_action ∷ [])
      ≡ ok (
        result_of actions receipts (codes "r") skipped_item a,
        (leased_to (codes "r") 40 ∷ [], first_action ∷ second_action ∷ []),
      ))
stuck_again_example =
    stuck_again actions receipts manual (scheduled (λ n. n ∷ []) (leased_to (codes "r") 40))
      (draws (codes "ra-1") 20) (draws (codes "ra-3") 50) (codes "ops") (codes "job") (codes "r")
      (leased_to (codes "r") 10 ∷ []) (release_data none (leased_to (codes "r") 10) ∷ [])
      (leased_to (codes "r") 40 ∷ []) [] (first_action ∷ []) (first_action ∷ second_action ∷ [])
      (result_of actions receipts (codes "r") recovered first_action) refl refl recover_once
      (next (first_action ∷ []) (first_action ∷ second_action ∷ []) manual (draws (codes "ra-2") 30)
        (codes "ops") (codes "x") [] []
        (result_of actions receipts (codes "x") skipped_item second_action) here recover_nothing)
