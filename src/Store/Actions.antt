-- ===== src/Store/Actions.antt =====
-- packages/integration-store/src/repos/reconciliation.ts: recovery actions, and the receipts whose lease
-- has expired. The snapshot of an action is left out.
use mathlib.Core.Option.{get_or}
use hrp_crm.Base.{
  ℕ, ltb, min, Bool, true, false, not, ◌&&◌, if◌then◌else◌, Option, none, some, List, Text, codes,
  text_eq, is_empty,
}
use hrp_crm.Store.Table.{Table}
use hrp_crm.Store.{Receipt, store_error, validation_error, Outcome, ok, throws, row_not_found}
use hrp_crm.Store.Lease.{is_expired, release_data, by_receipt_id}

pub data ItemType : Type 0 where
  receipt_item intent_item mapping_item : ItemType

pub data RecoveryActionKind : Type 0 where
  reset_to_pending reclaim_lease dead_letter skip : RecoveryActionKind

pub data RecoveryStatus : Type 0 where
  pending applied skipped failed : RecoveryStatus

pub record RecoveryAction : Type 0 where
  pub recovery_id : Text
  pub item_type : ItemType
  pub item_id : Text
  pub action : RecoveryActionKind
  pub actor : Text
  pub status : RecoveryStatus
  pub created_at : ℕ
  pub completed_at : Option ℕ
  pub reason : Option Text

abbrev pub same_type : ItemType → ItemType → Bool
same_type receipt_item receipt_item = true
same_type intent_item intent_item = true
same_type mapping_item mapping_item = true
same_type _ _ = false

-- The unique key `uq_recovery_idem_key`.
abbrev pub is_for : ItemType → Text → RecoveryAction → Bool
is_for type id a = same_type a.item_type type && text_eq a.item_id id

pub record CreateArgs : Type 0 where
  pub item_type : ItemType
  pub item_id : Text
  pub action : RecoveryActionKind
  pub actor : Text
  pub reason : Option Text

-- What the environment supplies to one recovery: the id of the action and the readings of the clock.
pub record Draws : Type 0 where
  pub recovery_id : Text
  pub created_at : ℕ
  pub now : ℕ
  pub completed_at : ℕ

abbrev pub new_action : Draws → CreateArgs → RecoveryAction
new_action d args = record {
  recovery_id = d.recovery_id;
  item_type = args.item_type;
  item_id = args.item_id;
  action = args.action;
  actor = args.actor;
  status = pending;
  created_at = d.created_at;
  completed_at = none;
  reason = args.reason;
}

abbrev pub by_recovery_id : Text → RecoveryAction → Bool
by_recovery_id id a = text_eq a.recovery_id id

abbrev pub is_open : RecoveryStatus → Bool
is_open pending = true
is_open _ = false

module _ (A : Table RecoveryAction) where
  -- The row, and whether this call created it. The source calls itself again, for ever, if the row is
  -- gone between the insert and the read; with both in one step that cannot happen, and the call
  -- comes to `row_not_found`.
  unfoldable pub create_recovery_action :
      Draws → CreateArgs → A.State → Outcome ((RecoveryAction × Bool) × A.State)
  create_recovery_action d args s =
      if is_empty args.item_id
      then throws
          (store_error validation_error (codes "itemId là bắt buộc") none (some (codes "itemId")))
      else if is_empty args.actor
      then throws
          (store_error validation_error (codes "actor là bắt buộc") none (some (codes "actor")))
      else elim (A.insert (is_for args.item_type args.item_id) (new_action d args) s) [
        | some t ↦ ok ((new_action d args, true), t)
        | none ↦ elim (A.find_first (is_for args.item_type args.item_id) s) [
          | some existing ↦ ok ((existing, false), s)
          | none ↦ row_not_found
        ]
      ]

  unfoldable pub complete_recovery_action :
      Text → RecoveryStatus → Text → ℕ → A.State → Outcome (Option RecoveryAction × A.State)
  complete_recovery_action id status reason completed_at s =
      if is_open status
      then throws (
          store_error validation_error
            (codes
              "completeRecoveryAction chỉ chấp nhận terminal status (APPLIED/SKIPPED/FAILED), nhận được: PENDING")
            none (some (codes "status")))
      else elim (A.find_first (by_recovery_id id) s) [
        | none ↦ ok (none, s)
        | some existing ↦
            if not (is_open existing.status)
            then ok (some existing, s)
            else elim (A.update (by_recovery_id id)
                (λ a. record a {
                  status = status;
                  completed_at = some completed_at;
                  reason = some reason;
                })
                s) [ none ↦ row_not_found | some (row, t) ↦ ok (some row, t) ]
      ]

module _ (R : Table Receipt) where
  -- Of all organizations, as `reconcileReceipts` asks for them.
  unfoldable pub find_stuck_receipts : ℕ → ℕ → R.State → List Receipt
  find_stuck_receipts limit now r =
      R.select_oldest (is_expired now) (λ q. get_or q.lease_expires_at 0) (min limit 500) r

  abbrev pub is_stuck : Text → ℕ → Receipt → Bool
  is_stuck id now r = by_receipt_id id r && is_expired now r

  unfoldable pub reset_stuck_receipt : Text → ℕ → R.State → Bool × R.State
  reset_stuck_receipt id now r =
      let result = R.update_many (is_stuck id now) (release_data none) r in
      (ltb 0 result.1, result.0)
