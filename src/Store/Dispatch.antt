-- ===== src/Store/Dispatch.antt =====
-- packages/integration-store/src/worker/lease.ts: the calls on the dispatch intents.
pub mod Closed
pub mod Calls
pub mod Settled
mod Tests
use mathlib.Core.Option.{get_or}
use hrp_crm.Base.{
  ℕ, ◌+◌, ◌==◌, Bool, true, false, not, ◌&&◌, if◌then◌else◌, Option, none, some, List, [], ◌∷◌,
  Text, text_eq, is_empty,
}
use hrp_crm.Store.Table.{Table}
use hrp_crm.Store.{Intent, IntentStatus, StoreError, Outcome, ok, or_row_not_found, ◌>>=◌}
use hrp_crm.Store.Lease.{null_or_past, column_is, date_before, LeaseHandle}

pub record ClaimIntentArgs : Type 0 where
  pub worker_id : Text
  pub lease_duration_ms : ℕ
  pub receipt_id : Option Text
  pub organization_id : Option Text

pub record ClaimedIntent : Type 0 where
  pub row : Intent
  pub attempts : ℕ
  pub lease : LeaseHandle

abbrev pub is_pending : IntentStatus → Bool
is_pending IntentStatus.pending = true
is_pending _ = false

abbrev pub is_leased : IntentStatus → Bool
is_leased IntentStatus.leased = true
is_leased _ = false

-- The `WHERE` of `claimNextIntent`, with the rows that are locked passed over.
unfoldable pub intent_available : ℕ → Text → Text → (Text → Bool) → Intent → Bool
intent_available now org_id receipt_id locked i =
    is_pending i.status
    && null_or_past i.lease_expires_at now
    && (if is_empty org_id then true else text_eq i.organization_id org_id)
    && (if is_empty receipt_id then true else text_eq i.receipt_id receipt_id)
    && not (locked i.intent_id)

abbrev pub by_intent_id : Text → Intent → Bool
by_intent_id id i = text_eq i.intent_id id

unfoldable pub lease_intent : Text → Text → ℕ → ℕ → Intent → Intent
lease_intent worker token now duration i = record i {
  status = IntentStatus.leased;
  lease_owner = some worker;
  lease_expires_at = some (now + duration);
  fencing_token = some token;
  lease_fenced_at = some now;
  attempts = i.attempts + 1;
}

-- The `data` that leaves no lease, with the status and what `leaseFencedAt` becomes.
unfoldable pub unlease_intent : IntentStatus → Option ℕ → Intent → Intent
unlease_intent status fenced_at i = record i {
  status = status;
  lease_owner = none;
  lease_expires_at = none;
  fencing_token = none;
  lease_fenced_at = fenced_at;
}

unfoldable pub extend_intent : ℕ → ℕ → Intent → Intent
extend_intent now duration i = record i {
  lease_expires_at = some (now + duration);
  lease_fenced_at = some now;
}

unfoldable pub holds_intent : Text → Text → Intent → Bool
holds_intent token owner i =
    column_is i.fencing_token token && column_is i.lease_owner owner && is_leased i.status

unfoldable pub intent_expired : ℕ → Intent → Bool
intent_expired now i = is_leased i.status && date_before i.lease_expires_at now

unfoldable pub intent_owned : Text → Intent → Bool
intent_owned worker i = column_is i.lease_owner worker && is_leased i.status

pub data IntentOutcome : Type 0 where
  success retry fail : IntentOutcome

abbrev pub status_after : IntentOutcome → IntentStatus
status_after success = IntentStatus.delivered
status_after retry = IntentStatus.failed
status_after fail = IntentStatus.terminal

pub record CompleteIntentResult : Type 0 where
  pub status : IntentStatus
  pub fenced_rejected : Bool

module _ (T : Table Intent) where
  unfoldable pub claim_next_intent :
      ClaimIntentArgs
      → (Text → Bool)
      → ℕ
      → Text
      → T.State
      → Outcome (Option ClaimedIntent × T.State)
  unfolding lease_intent
  claim_next_intent args locked now token s =
      let org_id = get_or args.organization_id [] in
      let receipt_id = get_or args.receipt_id [] in
      elim (T.select_oldest (intent_available now org_id receipt_id locked) (λ i. i.created_at) 1
        s) [
          | [] ↦ ok (none, s)
          | row ∷ rest ↦ do
            written ← or_row_not_found (
                T.update (by_intent_id row.intent_id)
                  (lease_intent args.worker_id token now args.lease_duration_ms) s)
            ok (
              some (record {
                row = row;
                attempts = row.attempts + 1;
                lease = record {
                  fencing_token = token;
                  lease_owner = args.worker_id;
                  lease_expires_at = now + args.lease_duration_ms;
                  lease_fenced_at = now;
                };
              }),
              written.1,
            )
        ]

  unfoldable pub extend_intent_lease : Text → Text → ℕ → ℕ → T.State → Bool × T.State
  unfolding extend_intent
  extend_intent_lease token owner duration now s =
      let result = T.update_many (holds_intent token owner) (extend_intent now duration) s in
      (result.1 == 1, result.0)

  unfoldable pub release_intent_lease : Text → Text → T.State → Bool × T.State
  release_intent_lease token owner s =
      let result =
        T.update_many (holds_intent token owner) (unlease_intent IntentStatus.pending none) s in
      (result.1 == 1, result.0)

  unfoldable pub complete_intent :
      Text → Text → IntentOutcome → T.State → Outcome (CompleteIntentResult × T.State)
  complete_intent token owner outcome s = elim (T.find_first (holds_intent token owner) s) [
    | none ↦ ok (record { status = IntentStatus.delivered; fenced_rejected = true }, s)
    | some row ↦ do
      written ←
          or_row_not_found
            (T.update (by_intent_id row.intent_id) (unlease_intent (status_after outcome) none) s)
      ok (record { status = status_after outcome; fenced_rejected = false }, written.1)
  ]

  unfoldable pub reclaim_expired_intents : ℕ → T.State → ℕ × T.State
  reclaim_expired_intents now s =
      let result =
        T.update_many (intent_expired now) (unlease_intent IntentStatus.pending none) s in
      (result.1, result.0)

  unfoldable pub release_intents_of_worker : Text → ℕ → T.State → ℕ × T.State
  release_intents_of_worker worker now s =
      let result =
        T.update_many (intent_owned worker) (unlease_intent IntentStatus.pending (some now)) s in
      (result.1, result.0)
