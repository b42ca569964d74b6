-- ===== src/Store/Lease.antt =====
-- packages/integration-store/src/worker/lease.ts, the receipts. A transaction is one step on the
-- table, but `complete_receipt` is also given in its two parts, the read and the write, since the
-- database runs them as separate statements. `clock.now()` and `idGen.next()` are arguments.
pub mod Ops
pub mod Results
pub mod Moves
pub mod Invariant
pub mod Fencing
pub mod Lifecycle
mod Tests
use mathlib.Core.Option.{get_or}
use hrp_crm.Base.{
  ℕ, ◌+◌, Bool, true, false, ◌&&◌, not, if◌then◌else◌, leb, ltb, Option, none, some, List, [], ◌∷◌,
  Text, codes, text_eq, is_empty,
}
use hrp_crm.Store.Table.{Table}
use hrp_crm.Store.Retry.{
  RetryPolicy, Draw, RetryDecision, retry_scheduled, dead_lettered, compute_next_attempt_at,
  decide_retry_state,
}
use hrp_crm.Store.{
  Receipt, ReceiptState, StoreError, store_error, transaction_failed, code_text, Outcome, ok, ◌>>=◌,
  or_row_not_found,
}

pub record ClaimArgs : Type 0 where
  pub worker_id : Text
  pub lease_duration_ms : ℕ
  pub max_per_poll : Option ℕ
  pub organization_id : Option Text

pub record LeaseHandle : Type 0 where
  pub fencing_token : Text
  pub lease_owner : Text
  pub lease_expires_at : ℕ
  pub lease_fenced_at : ℕ

pub record ClaimedReceipt : Type 0 where
  pub handle : LeaseHandle
  pub open handle use *
  pub receipt_id : Text
  pub organization_id : Text
  pub provider : Text
  pub connection_id : Text
  pub event_id : Text
  pub payload_digest : Text
  pub schema_version : Text
  pub attempts : ℕ
  pub idempotency_key : Option Text
  pub correlation_id : Option Text

abbrev pub is_claimable : ReceiptState → Bool
is_claimable ReceiptState.pending = true
is_claimable ReceiptState.retry_scheduled = true
is_claimable _ = false

abbrev pub is_leased : ReceiptState → Bool
is_leased ReceiptState.leased = true
is_leased _ = false

-- `date IS NULL OR date <= now`
abbrev pub null_or_past : Option ℕ → ℕ → Bool
null_or_past none now = true
null_or_past (some t) now = leb t now

-- `column = value`, false on NULL.
abbrev pub column_is : Option Text → Text → Bool
column_is none v = false
column_is (some t) v = text_eq t v

-- The `WHERE` of `claimNextReceipt`; `SKIP LOCKED` passes over the rows that another open
-- transaction holds.
unfoldable pub is_available : ℕ → Text → (Text → Bool) → Receipt → Bool
is_available now org_id locked r =
    is_claimable r.state
    && null_or_past r.lease_expires_at now
    && null_or_past r.next_attempt_at now
    && (if is_empty org_id then true else text_eq r.organization_id org_id)
    && not (locked r.receipt_id)

abbrev pub by_receipt_id : Text → Receipt → Bool
by_receipt_id id r = text_eq r.receipt_id id

-- The `data` of the updates.
unfoldable pub claim_data : Text → Text → ℕ → ℕ → Receipt → Receipt
claim_data worker token now duration r = record r {
  state = ReceiptState.leased;
  lease_owner = some worker;
  lease_expires_at = some (now + duration);
  fencing_token = some token;
  lease_fenced_at = some now;
  attempts = r.attempts + 1;
  next_attempt_at = none;
}

unfoldable pub extend_data : ℕ → ℕ → Receipt → Receipt
extend_data now duration r = record r {
  lease_expires_at = some (now + duration);
  lease_fenced_at = some now;
}

-- `leaseFencedAt` is cleared by a release and by the sweep, and set by a shutdown.
unfoldable pub release_data : Option ℕ → Receipt → Receipt
release_data fenced_at r = record r {
  state = ReceiptState.pending;
  lease_owner = none;
  lease_expires_at = none;
  fencing_token = none;
  lease_fenced_at = fenced_at;
}

unfoldable pub deliver_data : ℕ → Receipt → Receipt
deliver_data now r = record r {
  state = ReceiptState.delivered;
  resolved_at = some now;
  lease_owner = none;
  lease_expires_at = none;
  fencing_token = none;
  lease_fenced_at = none;
}

unfoldable pub schedule_data : ℕ → StoreError → Receipt → Receipt
schedule_data next_at err r = record r {
  state = ReceiptState.retry_scheduled;
  next_attempt_at = some next_at;
  reason_code = some (code_text err.code);
  lease_owner = none;
  lease_expires_at = none;
  fencing_token = none;
  lease_fenced_at = none;
}

unfoldable pub bury_data : ℕ → StoreError → Receipt → Receipt
bury_data now err r = record r {
  state = ReceiptState.dead_lettered;
  resolved_at = some now;
  reason_code = some (code_text err.code);
  lease_owner = none;
  lease_expires_at = none;
  fencing_token = none;
  lease_fenced_at = none;
}

abbrev pub claimed_receipt : Receipt → ℕ → Text → Text → ℕ → ℕ → ClaimedReceipt
claimed_receipt row attempts worker token now duration = record {
  handle = record {
    fencing_token = token;
    lease_owner = worker;
    lease_expires_at = now + duration;
    lease_fenced_at = now;
  };
  receipt_id = row.receipt_id;
  organization_id = row.organization_id;
  provider = row.provider;
  connection_id = row.connection_id;
  event_id = row.event_id;
  payload_digest = row.payload_digest;
  schema_version = row.schema_version;
  attempts = attempts;
  idempotency_key = row.idempotency_key;
  correlation_id = row.correlation_id;
}

-- `where: { fencingToken, leaseOwner, state: 'LEASED' }`
unfoldable pub holds_lease : Text → Text → Receipt → Bool
holds_lease token owner r =
    column_is r.fencing_token token && column_is r.lease_owner owner && is_leased r.state

abbrev pub date_before : Option ℕ → ℕ → Bool
date_before none now = false
date_before (some t) now = ltb t now

-- `leaseExpiresAt && leaseExpiresAt > now`
abbrev pub date_after : Option ℕ → ℕ → Bool
date_after none now = false
date_after (some t) now = ltb now t

unfoldable pub is_expired : ℕ → Receipt → Bool
is_expired now r = is_leased r.state && date_before r.lease_expires_at now

pub data WorkOutcome : Type 0 where
  success retry fail : WorkOutcome

pub record CompleteReceiptArgs : Type 0 where
  pub fencing_token : Text
  pub lease_owner : Text
  pub outcome : WorkOutcome
  pub error : Option StoreError
  pub retry_policy : Option RetryPolicy

pub record CompleteReceiptResult : Type 0 where
  pub state : ReceiptState
  pub next_attempt_at : Option ℕ
  pub fenced_rejected : Bool

-- What the environment supplies to one completion: the clock at its start, the clock when the next
-- attempt is computed, and `Math.random()`.
pub record Moment : Type 0 where
  pub now : ℕ
  pub now_again : ℕ
  pub draw : Draw

abbrev pub failure : CompleteReceiptArgs → StoreError
failure args =
    get_or args.error (store_error transaction_failed (codes "unknown failure") (some false) none)

-- What a completion writes, and what it returns.
pub data Verdict : Type 0 where
  delivers : Verdict
  schedules : ℕ → Verdict
  buries : Verdict

unfoldable pub retry_verdict : RetryPolicy → ℕ → StoreError → Moment → Verdict
retry_verdict policy attempts err m = elim (decide_retry_state policy attempts err) [
  | retry_scheduled ↦ schedules (compute_next_attempt_at policy attempts m.now_again m.draw)
  | dead_lettered ↦ buries
]

-- A retry with no policy is final, as a failure is.
unfoldable pub verdict : WorkOutcome → Option RetryPolicy → ℕ → StoreError → Moment → Verdict
unfolding retry_verdict
verdict success policy attempts err m = delivers
verdict retry (some policy) attempts err m = retry_verdict policy attempts err m
verdict retry none attempts err m = buries
verdict fail policy attempts err m = buries

abbrev pub verdict_data : Verdict → ℕ → StoreError → Receipt → Receipt
verdict_data delivers now err = deliver_data now
verdict_data (schedules next_at) now err = schedule_data next_at err
verdict_data buries now err = bury_data now err

abbrev pub verdict_result : Verdict → CompleteReceiptResult
verdict_result delivers = record {
  state = ReceiptState.delivered;
  next_attempt_at = none;
  fenced_rejected = false;
}
verdict_result (schedules next_at) = record {
  state = ReceiptState.retry_scheduled;
  next_attempt_at = some next_at;
  fenced_rejected = false;
}
verdict_result buries = record {
  state = ReceiptState.dead_lettered;
  next_attempt_at = none;
  fenced_rejected = false;
}
