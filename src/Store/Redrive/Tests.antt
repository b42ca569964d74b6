-- ===== src/Store/Redrive/Tests.antt =====
-- event-receipt.ts, `redriveReceipt`, on one dead letter.
use hrp_crm.Base.{ℕ, ◌≡◌, refl, true, false, none, some, List, [], ◌∷◌, Text, codes, text_eq, arith}
use hrp_crm.Store.Table.{Table}
use hrp_crm.Store.Table.Lists.{list_table, update}
use hrp_crm.Store.{Receipt, ReceiptState, dedupe, StoreError, transaction_failed, ok}
use hrp_crm.Store.Lease.{ClaimArgs, ClaimedReceipt}
use hrp_crm.Store.Lease.Ops.{claim_next_receipt}
use hrp_crm.Store.Redrive.{
  Actor, RedriveOptions, Redriven, redriven, redrive_error, redrive_receipt, dnc_error, patch_error,
}
use hrp_crm.Store.Redrive.Outcomes.{redriven_claimed, rewritten, report}

abbrev dead : ℕ → Receipt
dead attempts = record {
  receipt_id = codes "r";
  schema_version = codes "1";
  organization_id = codes "org";
  provider = codes "zalo";
  connection_id = codes "c1";
  event_id = codes "e";
  payload_digest = codes "d";
  state = ReceiptState.dead_lettered;
  duplicate_kind = dedupe;
  attempts = attempts;
  lease_owner = none;
  lease_expires_at = none;
  fencing_token = none;
  lease_fenced_at = none;
  correlation_id = none;
  command_refs_json = none;
  idempotency_key = none;
  first_seen_at = 1;
  next_attempt_at = none;
  resolved_at = some 7;
  reason_code = some (codes "TRANSACTION_FAILED");
  evidence_refs_json = none;
}

abbrev table : Table Receipt
table = list_table

abbrev operator : Actor
operator = record { kind = codes "user"; service_id = none; user_id = some (codes "u1") }

abbrev plain : RedriveOptions
plain = record {
  reason = none;
  dnc_check = none;
  max_attempts = none;
  validate_forbidden_patch = none;
}

abbrev iso : ℕ → Text
iso n = n ∷ []

abbrev one : List Receipt
one = dead 2 ∷ []

abbrev requeued_one : List Receipt
requeued_one = rewritten iso table (codes "r") operator 100 plain one (dead 2) (dead 2) ∷ []

abbrev report_one : Redriven
report_one = report iso table (codes "r") operator 100 plain one (dead 2)

redrive_one :
    redrive_receipt iso table (codes "r") operator 100 plain one
    ≡ ok (redriven report_one, requeued_one)
unfolding redrive_receipt redrive_error dnc_error patch_error text_eq update
redrive_one = refl

abbrev worker : ClaimArgs
worker = record {
  worker_id = codes "w";
  lease_duration_ms = 60;
  max_per_poll = none;
  organization_id = none;
}

redriven_claimed_example :
    (c : ClaimedReceipt) × (u : List Receipt) × (claim_next_receipt table worker
        (λ _. false)
        150
        (codes "t")
        requeued_one
      ≡ ok (some c, u))
redriven_claimed_example =
    redriven_claimed iso table (codes "r") operator 100 plain one requeued_one report_one worker 150
      (codes "t") redrive_one (omega arith) refl (λ e. ground arith)

abbrev unavailable : StoreError
unavailable = record {
  code = transaction_failed;
  message = codes "busy";
  retryable = true;
  target = none;
}
