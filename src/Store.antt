-- ===== src/Store.antt =====
-- packages/integration-store: errors.ts, and the rows of prisma/schema.prisma that the worker uses.
-- A date is its epoch milliseconds; `null` is `none`.
pub mod Table
pub mod Retry
pub mod Lease
pub mod Intake
pub mod Redrive
pub mod Actions
pub mod Links
pub mod Checkpoint
pub mod Reconcile
pub mod Dispatch
use mathlib.Core.Option.{get_or}
use hrp_crm.Base.{
  ◌≡◌, refl, ap, sym, ◌∙◌, ℕ, Bool, true, false, Option, none, some, Text, codes, is_empty,
  if◌then◌else◌,
}
use hrp_crm.Base.Json.{Json}

-- The codes of the type, and one more that the worker brings in by a cast.
pub data ErrorCode : Type 0 where
  validation_error duplicate_key version_conflict scope_mismatch : ErrorCode
  transaction_failed tenant_scope_required : ErrorCode
  idempotency_conflict : ErrorCode

abbrev pub code_text : ErrorCode → Text
code_text validation_error = codes "VALIDATION_ERROR"
code_text duplicate_key = codes "DUPLICATE_KEY"
code_text version_conflict = codes "VERSION_CONFLICT"
code_text scope_mismatch = codes "SCOPE_MISMATCH"
code_text transaction_failed = codes "TRANSACTION_FAILED"
code_text tenant_scope_required = codes "TENANT_SCOPE_REQUIRED"
code_text idempotency_conflict = codes "IDEMPOTENCY_CONFLICT"

pub record StoreError : Type 0 where
  pub code : ErrorCode
  pub message : Text
  pub retryable : Bool
  pub target : Option Text

-- `opts?.target` is kept if it is truthy.
abbrev pub keep_target : Option Text → Option Text
keep_target none = none
keep_target (some t) = if is_empty t then none else some t

-- `storeError(code, message, { retryable, target })`
abbrev pub store_error : ErrorCode → Text → Option Bool → Option Text → StoreError
store_error code message retryable target = record {
  code = code;
  message = message;
  retryable = get_or retryable false;
  target = keep_target target;
}

-- What an awaited repository call comes to: a value, a thrown `StoreError`, or a rejection by the
-- database client: the row to update is not there, or the one to create violates a unique constraint.
pub data Outcome {ℓ} (A : Type ℓ) : Type ℓ where
  ok : A → Outcome A
  throws : StoreError → Outcome A
  row_not_found : Outcome A
  unique_violation : Outcome A

infixl 5 ◌>>=◌
abbrev pub ◌>>=◌ {ℓ κ} : {A : Type ℓ} {B : Type κ} → Outcome A → (A → Outcome B) → Outcome B
ok a >>= f = f a
throws e >>= f = throws e
row_not_found >>= f = row_not_found
unique_violation >>= f = unique_violation

abbrev pub or_row_not_found {ℓ} : {A : Type ℓ} → Option A → Outcome A
or_row_not_found none = row_not_found
or_row_not_found (some a) = ok a

pub data ReceiptState : Type 0 where
  pending leased dispatch_committed retry_scheduled delivered dead_lettered : ReceiptState
  quarantined : ReceiptState

pub data DuplicateKind : Type 0 where
  dedupe out_of_order correction gap unknown : DuplicateKind

pub record Receipt : Type 0 where
  pub receipt_id : Text
  pub schema_version : Text
  pub organization_id : Text
  pub provider : Text
  pub connection_id : Text
  pub event_id : Text
  pub payload_digest : Text
  pub state : ReceiptState
  pub duplicate_kind : DuplicateKind
  pub attempts : ℕ
  pub lease_owner : Option Text
  pub lease_expires_at : Option ℕ
  pub fencing_token : Option Text
  pub lease_fenced_at : Option ℕ
  pub correlation_id : Option Text
  pub command_refs_json : Option Json
  pub idempotency_key : Option Text
  pub first_seen_at : ℕ
  pub next_attempt_at : Option ℕ
  pub resolved_at : Option ℕ
  pub reason_code : Option Text
  pub evidence_refs_json : Option Json

pub data IntentStatus : Type 0 where
  pending leased dispatched ack_received delivered failed terminal : IntentStatus
  investigation_pending : IntentStatus

pub record Intent : Type 0 where
  pub intent_id : Text
  pub schema_version : Text
  pub organization_id : Text
  pub receipt_id : Text
  pub idempotency_key : Option Text
  pub correlation_id : Option Text
  pub intent_source : Text
  pub intent_target_json : Json
  pub status : IntentStatus
  pub attempts : ℕ
  pub lease_owner : Option Text
  pub lease_expires_at : Option ℕ
  pub fencing_token : Option Text
  pub lease_fenced_at : Option ℕ
  pub created_at : ℕ

abbrev ok_or {ℓ} : {A : Type ℓ} → A → Outcome A → A
ok_or d (ok a) = a
ok_or d (throws e) = d
ok_or d row_not_found = d
ok_or d unique_violation = d

pub ok-injective {ℓ} : {A : Type ℓ} {a b : A} → ok a ≡ ok b → a ≡ b
ok-injective {a} e = ap (ok_or a) e

-- Two calls that come to the same leave the same state.
pub same_state {ℓ κ} :
    {A : Type ℓ} {S : Type κ} {x : Outcome (A × S)} {a b : A} {s t : S}
    → x ≡ ok (a, s)
    → x ≡ ok (b, t)
    → t ≡ s
same_state e h = ap (λ p. p.1) (ok-injective (sym h ∙ e))

-- A chain that comes to a result: so did its first call.
pub bind-ok {ℓ κ} :
    {A : Type ℓ} {B : Type κ} (m : Outcome A) (f : A → Outcome B) (b : B)
    → (m >>= f) ≡ ok b
    → (a : A) × (m ≡ ok a) × (f a ≡ ok b)
bind-ok (ok a) f b e = (a, refl, e)
bind-ok (throws x) f b e = cc
bind-ok row_not_found f b e = cc
bind-ok unique_violation f b e = cc
