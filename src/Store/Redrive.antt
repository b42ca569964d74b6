-- ===== src/Store/Redrive.antt =====
-- packages/integration-store/src/repos/event-receipt.ts: `redriveReceipt`, a dead letter back to the
-- queue. Only this function writes `evidenceRefsJson`: the column and its `dlqAudit` are taken to be
-- objects where they are there, and `redriveCount` a number.
pub mod Outcomes
mod Tests
use mathlib.Core.Option.{get_or}
use hrp_crm.Base.{
  ℕ, ◌+◌, Bool, true, false, not, ◌&&◌, if◌then◌else◌, leb, Option, none, some, List, [], ◌∷◌, ◌++◌,
  Text, codes, text_eq,
}
use hrp_crm.Base.Json.{Json, Fields, null, num, str, obj, end, field, get, put}
use hrp_crm.Store.Table.{Table}
use hrp_crm.Store.{Receipt, ReceiptState, Outcome, ok, or_row_not_found, ◌>>=◌}
use hrp_crm.Store.Lease.{by_receipt_id}

pub record Actor : Type 0 where
  pub kind : Text
  pub service_id : Option Text
  pub user_id : Option Text

-- `actor['serviceId'] ?? actor['userId'] ?? actor['kind']`
unfoldable pub actor_id : Actor → Text
actor_id a = get_or a.service_id (get_or a.user_id a.kind)

pub record DncArgs : Type 0 where
  pub organization_id : Text
  pub provider : Text
  pub connection_id : Text
  pub recipient_ref : Text

pub record DncResult : Type 0 where
  pub blocked : Bool
  pub reason : Option Text

pub record PatchResult : Type 0 where
  pub valid : Bool
  pub forbidden_fields : List Text

-- The callbacks are the caller's.
pub record RedriveOptions : Type 0 where
  pub reason : Option Text
  pub dnc_check : Option (DncArgs → DncResult)
  pub max_attempts : Option ℕ
  pub validate_forbidden_patch : Option (Json → PatchResult)

-- The error codes with what their messages tell.
pub data RedriveError : Type 0 where
  not_found : RedriveError
  invalid_state : ReceiptState → RedriveError
  max_attempts_exceeded : (attempts cap : ℕ) → RedriveError
  dnc_guard_blocked : (reason : Text) → RedriveError
  forbidden_patch_field : List Text → RedriveError

pub record Redriven : Type 0 where
  pub attempts : ℕ
  pub next_attempt_at : ℕ
  pub redrive_count : ℕ
  pub redriven_at : ℕ
  pub redrive_actor : Text

pub data RedriveResult : Type 0 where
  refused : RedriveError → RedriveResult
  redriven : Redriven → RedriveResult

abbrev pub is_dead_lettered : ReceiptState → Bool
is_dead_lettered ReceiptState.dead_lettered = true
is_dead_lettered _ = false

unfoldable pub dnc_args : Receipt → DncArgs
dnc_args r = record {
  organization_id = r.organization_id;
  provider = r.provider;
  connection_id = r.connection_id;
  recipient_ref =
      get_or r.idempotency_key (get_or r.correlation_id (codes "unknown-" ++ r.event_id));
}

unfoldable pub dnc_error : Option (DncArgs → DncResult) → Receipt → Option RedriveError
unfolding dnc_args
dnc_error none r = none
dnc_error (some check) r =
    let result = check (dnc_args r) in
    if result.blocked
    then some (dnc_guard_blocked (get_or result.reason (codes "recipient is do-not-contact")))
    else none

unfoldable pub patch_error : Option (Json → PatchResult) → Option Json → Option RedriveError
patch_error none evidence = none
patch_error (some validate) none = none
patch_error (some validate) (some evidence) =
    let result = validate evidence in
    if not result.valid then some (forbidden_patch_field result.forbidden_fields) else none

-- The checks 2 to 5, in their order: the error of the first that fails.
unfoldable pub redrive_error : RedriveOptions → Receipt → Option RedriveError
unfolding dnc_error patch_error
redrive_error opts r =
    let cap = get_or opts.max_attempts 5 in
    if not (is_dead_lettered r.state)
    then some (invalid_state r.state)
    else if leb cap r.attempts
    then some (max_attempts_exceeded r.attempts cap)
    else elim (dnc_error opts.dnc_check r) [
      | some e ↦ some e
      | none ↦ patch_error opts.validate_forbidden_patch r.evidence_refs_json
    ]

abbrev pub fields_of : Option Json → Fields
fields_of (some (obj fs)) = fs
fields_of _ = end

abbrev pub count_of : Option Json → ℕ
count_of (some (num n)) = n
count_of _ = 0

abbrev pub audit_of : Option Json → Fields
audit_of evidence = fields_of (get (codes "dlqAudit") (fields_of evidence))

abbrev pub redrive_count_of : Option Json → ℕ
redrive_count_of evidence = count_of (get (codes "redriveCount") (audit_of evidence))

abbrev text_or_null : Option Text → Json
text_or_null none = null
text_or_null (some t) = str t

-- `iso` is `toISOString` of a date.
module _ (iso : ℕ → Text) where
  unfoldable pub new_audit : Actor → Option Text → ℕ → Option Json → Fields
  unfolding actor_id
  new_audit actor reason now evidence = put (codes "lastRedriveReason") (text_or_null reason) (
      put (codes "lastRedriveActor") (str (actor_id actor)) (
        put (codes "lastRedrivenAt") (str (iso now))
          (put (codes "redriveCount") (num (redrive_count_of evidence + 1)) (audit_of evidence))))

  unfoldable pub redrive_data : Actor → Option Text → ℕ → Receipt → Receipt
  unfolding new_audit
  redrive_data actor reason now r = record r {
    state = ReceiptState.pending;
    attempts = 0;
    resolved_at = none;
    reason_code = none;
    lease_owner = none;
    lease_expires_at = none;
    fencing_token = none;
    lease_fenced_at = none;
    next_attempt_at = some now;
    evidence_refs_json = some (
        obj (
          put (codes "dlqAudit") (obj (new_audit actor reason now r.evidence_refs_json))
            (fields_of r.evidence_refs_json)));
  }

  unfoldable pub redrive_receipt :
      (T : Table Receipt)
      → Text
      → Actor
      → ℕ
      → RedriveOptions
      → T.State
      → Outcome (RedriveResult × T.State)
  unfolding redrive_error redrive_data actor_id
  redrive_receipt T id actor now opts s = elim (T.find_first (by_receipt_id id) s) [
    | none ↦ ok (refused not_found, s)
    | some r ↦ elim (redrive_error opts r) [
      | some e ↦ ok (refused e, s)
      | none ↦ do
        written ← or_row_not_found (
            T.update (by_receipt_id id)
              (λ q.
                redrive_data actor opts.reason now
                  (record q { evidence_refs_json = r.evidence_refs_json }))
              s)
        ok (
          redriven (record {
            attempts = 0;
            next_attempt_at = now;
            redrive_count = redrive_count_of r.evidence_refs_json + 1;
            redriven_at = now;
            redrive_actor = actor_id actor;
          }),
          written.1,
        )
    ]
  ]
