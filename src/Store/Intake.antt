-- ===== src/Store/Intake.antt =====
-- packages/integration-store/src/repos/event-receipt.ts: `commitReceiptWithIntents`.
pub mod Commit
pub mod Recommit
pub mod Webhook
mod Tests
use hrp_crm.Base.{
  ℕ, Bool, true, false, not, ◌&&◌, ◌||◌, if◌then◌else◌, Option, none, some, List, [], ◌∷◌, ◌++◌,
  take, any, find, map, Text, codes, text_eq, is_empty,
}
use hrp_crm.Base.Json.{Json, str, obj, end, field}
use hrp_crm.Store.Table.{Table}
use hrp_crm.Store.{
  Receipt, ReceiptState, DuplicateKind, Intent, IntentStatus, StoreError, store_error,
  validation_error, scope_mismatch, transaction_failed, Outcome, ok, throws, unique_violation,
  ◌>>=◌,
}
use hrp_crm.Store.Lease.Ops.{ReceiptScope, by_scope}

-- `EventReceiptInput`; the schema admits the five kinds of duplicate only.
pub record ReceiptInput : Type 0 where
  pub organization_id : Text
  pub payload_digest : Text
  pub duplicate_kind : DuplicateKind
  pub resolved_at : Option ℕ
  pub reason_code : Option Text

-- What is read of an `OutboxDeliveryIntentInput`.
pub record IntentInput : Type 0 where
  pub intent_id : Text
  pub organization_id : Text
  pub schema_version : Text
  pub correlation_id : Text
  pub source_command_id : Text
  pub destination : Json
  pub template : Json
  pub policy : Json
  pub channel : Text
  pub dedupe_key : Text

pub record Payload : Type 0 where
  pub schema_version : Text
  pub receipt : ReceiptInput
  pub intents : List IntentInput
  pub correlation_id : Option Text
  pub command_refs_json : Option Json

pub record Committed : Type 0 where
  pub created : Bool
  pub receipt_id : Text
  pub intent_ids : List Text
  pub receipt_row_version : ℕ

unfoldable pub new_receipt_id : Text → Text → Text
new_receipt_id organization_id event_id =
    codes "rcpt-" ++ take 8 organization_id ++ codes "-" ++ take 16 event_id

-- `...(text ? { key: text } : {})`
abbrev pub if_text : Option Text → Option Text
if_text none = none
if_text (some t) = if is_empty t then none else some t

unfoldable pub receipt_row : ReceiptScope → Payload → ℕ → Receipt
receipt_row scope payload now = record {
  receipt_id = new_receipt_id scope.organization_id scope.event_id;
  schema_version = payload.schema_version;
  organization_id = scope.organization_id;
  provider = scope.provider;
  connection_id = scope.connection_id;
  event_id = scope.event_id;
  payload_digest = payload.receipt.payload_digest;
  state = ReceiptState.pending;
  duplicate_kind = payload.receipt.duplicate_kind;
  attempts = 0;
  lease_owner = none;
  lease_expires_at = none;
  fencing_token = none;
  lease_fenced_at = none;
  correlation_id = if_text payload.correlation_id;
  command_refs_json = payload.command_refs_json;
  idempotency_key = none;
  first_seen_at = now;
  next_attempt_at = none;
  resolved_at = payload.receipt.resolved_at;
  reason_code = if_text payload.receipt.reason_code;
  evidence_refs_json = none;
}

unfoldable pub intent_row : Text → ℕ → IntentInput → Intent
intent_row receipt_id now i = record {
  intent_id = i.intent_id;
  schema_version = i.schema_version;
  organization_id = i.organization_id;
  receipt_id = receipt_id;
  idempotency_key = some i.dedupe_key;
  correlation_id = some i.correlation_id;
  intent_source = i.source_command_id;
  intent_target_json = obj (
      field (codes "destination") i.destination (
        field (codes "template") i.template
          (field (codes "policy") i.policy (field (codes "channel") (str i.channel) end))));
  status = IntentStatus.pending;
  attempts = 0;
  lease_owner = none;
  lease_expires_at = none;
  fencing_token = none;
  lease_fenced_at = none;
  created_at = now;
}

-- The unique constraints of the two tables.
unfoldable pub receipt_conflicts : ReceiptScope → Text → Receipt → Bool
receipt_conflicts scope id r = text_eq r.receipt_id id || by_scope scope r

abbrev pub intent_conflicts : Text → Intent → Bool
intent_conflicts id i = text_eq i.intent_id id

abbrev pub intents_of : Text → Text → Intent → Bool
intents_of receipt_id organization_id i =
    text_eq i.receipt_id receipt_id && text_eq i.organization_id organization_id

abbrev idempotency_conflict : StoreError
idempotency_conflict =
    store_error validation_error
      (codes "IDEMPOTENCY_CONFLICT: same eventId + different payloadDigest không tự merge") none
      (some (codes "payloadDigest"))

abbrev pub insert_invisible : StoreError
insert_invisible =
    store_error transaction_failed
      (codes "Concurrent receipt insert invisible after ON CONFLICT — retry") (some true) none

-- The three checks before the transaction: the error of the first that fails.
unfoldable pub scope_error : ReceiptScope → Payload → Option StoreError
scope_error scope payload =
    if is_empty scope.organization_id
      || is_empty scope.provider
      || is_empty scope.connection_id
      || is_empty scope.event_id
    then some (
        store_error scope_mismatch
          (codes "thiếu scope (organizationId/provider/connectionId/eventId)") none none)
    else if not (text_eq payload.receipt.organization_id scope.organization_id)
    then some (
        store_error scope_mismatch (codes "payload.receipt.organizationId không khớp scope") none
          none)
    else elim (find (λ i. not (text_eq i.organization_id scope.organization_id)) payload.intents) [
      | none ↦ none
      | some i ↦ some (
          store_error scope_mismatch
            (codes "intent.organizationId (" ++ i.organization_id ++ codes ") không khớp scope")
            none none)
    ]

module _ (R : Table Receipt) (I : Table Intent) where
  abbrev pub Tables : Type 0
  Tables = R.State × I.State

  -- A receipt that is already there: its row if the digest is the same.
  unfoldable pub settle : ReceiptScope → Payload → Receipt → Tables → Outcome (Committed × Tables)
  settle scope payload row s =
      if not (text_eq row.payload_digest payload.receipt.payload_digest)
      then throws idempotency_conflict
      else ok (
        record {
          created = false;
          receipt_id = row.receipt_id;
          intent_ids =
              map (λ i. i.intent_id)
                (I.find_many (intents_of row.receipt_id scope.organization_id) s.1);
          receipt_row_version = row.attempts;
        },
        s,
      )

  unfoldable pub create_intents :
      Text → ℕ → List IntentInput → I.State → Outcome (List Text × I.State)
  create_intents receipt_id now [] s = ok ([], s)
  create_intents receipt_id now (i ∷ is) s =
      elim (I.insert (intent_conflicts i.intent_id) (intent_row receipt_id now i) s) [
        | none ↦ unique_violation
        | some t ↦ do rest ← create_intents receipt_id now is t; ok (i.intent_id ∷ rest.0, rest.1)
      ]

  -- The insert, and the second read where it conflicts.
  unfoldable pub insert_receipt : ReceiptScope → Payload → ℕ → Tables → Outcome (Committed × Tables)
  unfolding settle create_intents
  insert_receipt scope payload now s =
      let row = receipt_row scope payload now in
      elim (R.insert (receipt_conflicts scope row.receipt_id) row s.0) [
        | none ↦ elim (R.find_first (by_scope scope) s.0) [
          | none ↦ throws insert_invisible
          | some raced ↦ settle scope payload raced s
        ]
        | some receipts ↦ do
          intents ← create_intents row.receipt_id now payload.intents s.1
          ok (
            record {
              created = true;
              receipt_id = row.receipt_id;
              intent_ids = intents.0;
              receipt_row_version = 0;
            },
            (receipts, intents.1),
          )
      ]

  -- `meanwhile` is what other transactions commit between the first read and the insert. A call that
  -- does not come to `ok` is rolled back.
  unfoldable pub commit_receipt_with_intents :
      ReceiptScope → Payload → ℕ → (Tables → Tables) → Tables → Outcome (Committed × Tables)
  unfolding insert_receipt
  commit_receipt_with_intents scope payload now meanwhile s = elim (scope_error scope payload) [
    | some e ↦ throws e
    | none ↦ elim (R.find_first (by_scope scope) s.0) [
      | some existing ↦ settle scope payload existing s
      | none ↦ insert_receipt scope payload now (meanwhile s)
    ]
  ]
