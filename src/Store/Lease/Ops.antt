-- ===== src/Store/Lease/Ops.antt =====
-- lease.ts: the calls on the table of receipts.
use mathlib.Core.Option.{get_or}
use hrp_crm.Base.{
  ℕ, ◌+◌, ◌==◌, not, ◌||◌, ◌&&◌, if◌then◌else◌, Bool, true, Option, none, some, [], ◌∷◌, Text,
  text_eq,
}
use hrp_crm.Store.Table.{Table}
use hrp_crm.Store.{Receipt, ReceiptState, Outcome, ok, ◌>>=◌, or_row_not_found}
use hrp_crm.Store.Lease.{
  ClaimArgs, ClaimedReceipt, is_claimable, is_leased, column_is, is_available, by_receipt_id,
  claim_data, extend_data, release_data, claimed_receipt, holds_lease, is_expired, date_after,
  CompleteReceiptArgs, CompleteReceiptResult, Moment, failure, verdict, verdict_data,
  verdict_result,
}

pub record ReceiptScope : Type 0 where
  pub organization_id : Text
  pub provider : Text
  pub connection_id : Text
  pub event_id : Text

-- `where: { uq_receipt_event_id: … }`
unfoldable pub by_scope : ReceiptScope → Receipt → Bool
by_scope scope r =
    text_eq r.organization_id scope.organization_id
    && text_eq r.provider scope.provider
    && text_eq r.connection_id scope.connection_id
    && text_eq r.event_id scope.event_id

-- The three tests on the row found, one early return each.
unfoldable pub is_refused : ℕ → Receipt → Bool
is_refused now row = not (is_claimable row.state) || date_after row.lease_expires_at now

abbrev pub fenced_rejection : CompleteReceiptResult
fenced_rejection = record {
  state = ReceiptState.delivered;
  next_attempt_at = none;
  fenced_rejected = true;
}

unfoldable pub is_owned : Text → Receipt → Bool
is_owned worker r = column_is r.lease_owner worker && is_leased r.state

module _ (T : Table Receipt) where
  unfoldable pub claim_next_receipt :
      ClaimArgs → (Text → Bool) → ℕ → Text → T.State → Outcome (Option ClaimedReceipt × T.State)
  claim_next_receipt args locked now token s =
      let org_id = get_or args.organization_id [] in
      let limit = get_or args.max_per_poll 1 in
      elim (T.select_oldest (is_available now org_id locked) (λ r. r.first_seen_at) limit s) [
        | [] ↦ ok (none, s)
        | row ∷ rest ↦ do
          written ← or_row_not_found (
              T.update (by_receipt_id row.receipt_id)
                (claim_data args.worker_id token now args.lease_duration_ms) s)
          ok (
            some (
                claimed_receipt row (row.attempts + 1) args.worker_id token now
                  args.lease_duration_ms),
            written.1,
          )
      ]

  unfoldable pub claim_specific_receipt :
      ReceiptScope → Text → ℕ → ℕ → Text → T.State → Outcome (Option ClaimedReceipt × T.State)
  unfolding is_refused
  claim_specific_receipt scope worker duration now token s =
      elim (T.find_first (by_scope scope) s) [
        | none ↦ ok (none, s)
        | some row ↦ if is_refused now row then ok (none, s) else do
          written ←
              or_row_not_found
                (T.update (by_receipt_id row.receipt_id) (claim_data worker token now duration) s)
          ok (
            some (claimed_receipt written.0 written.0.attempts worker token now duration),
            written.1,
          )
      ]

  -- `extendLease` with `kind: 'receipt'`.
  unfoldable pub extend_lease : Text → Text → ℕ → ℕ → T.State → Bool × T.State
  extend_lease token owner duration now s =
      let result = T.update_many (holds_lease token owner) (extend_data now duration) s in
      (result.1 == 1, result.0)

  unfoldable pub release_lease : Text → Text → T.State → Bool × T.State
  release_lease token owner s =
      let result = T.update_many (holds_lease token owner) (release_data none) s in
      (result.1 == 1, result.0)

  -- The first statement of the transaction of `completeReceipt`.
  unfoldable pub complete_read : CompleteReceiptArgs → T.State → Option Receipt
  complete_read args s = T.find_first (holds_lease args.fencing_token args.lease_owner) s

  -- The second: the update names the row by its id alone.
  unfoldable pub complete_write :
      CompleteReceiptArgs → Moment → Receipt → T.State → Outcome (CompleteReceiptResult × T.State)
  complete_write args m row s =
      let err = failure args in
      let v = verdict args.outcome args.retry_policy row.attempts err m in
      do
        written ←
            or_row_not_found (T.update (by_receipt_id row.receipt_id) (verdict_data v m.now err) s)
        ok (verdict_result v, written.1)

  unfoldable pub complete_receipt :
      CompleteReceiptArgs → Moment → T.State → Outcome (CompleteReceiptResult × T.State)
  unfolding complete_read complete_write
  complete_receipt args m s = elim (complete_read args s) [
    | none ↦ ok (fenced_rejection, s)
    | some row ↦ complete_write args m row s
  ]

  -- The sweep of the receipts in `reclaimExpiredLeases`, with its count.
  unfoldable pub reclaim_expired_leases : ℕ → T.State → ℕ × T.State
  reclaim_expired_leases now s =
      let result = T.update_many (is_expired now) (release_data none) s in (result.1, result.0)

  unfoldable pub release_all_for_worker : Text → ℕ → T.State → ℕ × T.State
  unfolding is_owned
  release_all_for_worker worker now s =
      let result = T.update_many (is_owned worker) (release_data (some now)) s in
      (result.1, result.0)
