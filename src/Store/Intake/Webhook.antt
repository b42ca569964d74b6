-- ===== src/Store/Intake/Webhook.antt =====
-- apps/integration-api/src/receiver/dedupe.ts: a verified webhook becomes a receipt with one intent.
use hrp_crm.Base.{
  ℕ, ◌≡◌, ◌≢◌, refl, ◌∙◌, ap, subst, Bool, true, false, ◌&&◌, if◌then◌else◌, none, some, List, [],
  ◌∷◌, ◌++◌, arith, take, Text, codes, text_eq_refl, is_empty, includes, In, All,
}
use hrp_crm.Base.Json.{str, bool, obj, end, field}
use hrp_crm.Store.Table.{Table}
use hrp_crm.Store.{
  Receipt, Intent, StoreError, validation_error, scope_mismatch, ErrorCode, dedupe, Outcome, ok,
  throws, row_not_found, unique_violation,
}
use hrp_crm.Store.Lease.Ops.{ReceiptScope}
use hrp_crm.Store.Intake.{
  IntentInput, Payload, Committed, scope_error, commit_receipt_with_intents, Tables,
}
use hrp_crm.Store.Intake.Commit.{commit_receipt_with_intents_cases}
use hrp_crm.Store.Intake.Recommit.{recommit_same, recommit_other}

-- What is read of a `ParseResult` that is `ok`.
pub record Parsed : Type 0 where
  pub event_id : Text
  pub event_type : Text

pub record WebhookScope : Type 0 where
  pub organization_id : Text
  pub provider : Text
  pub connection_id : Text

pub data DedupeCode : Type 0 where
  commit_failure idempotency_conflict_code scope_mismatch_code : DedupeCode

pub data DedupeResult : Type 0 where
  accepted :
      (receipt_id : Text) (intent_ids : List Text) (created : Bool) (payload_digest : Text)
      → DedupeResult
  refused : (code : DedupeCode) (message : Text) (retryable : Bool) → DedupeResult

abbrev pub event_scope : WebhookScope → Parsed → ReceiptScope
event_scope scope parse = record {
  organization_id = scope.organization_id;
  provider = scope.provider;
  connection_id = scope.connection_id;
  event_id = parse.event_id;
}

-- `stamp` is `Date.now().toString(36)`.
unfoldable pub build_intent : WebhookScope → Parsed → Text → Text → IntentInput
build_intent scope parse stamp correlation_id = record {
  intent_id = codes "it-recv-" ++ take 16 parse.event_id ++ codes "-" ++ stamp;
  organization_id = scope.organization_id;
  schema_version = codes "1";
  correlation_id = correlation_id;
  source_command_id = codes "recv-" ++ parse.event_id;
  destination = obj (
      field (codes "provider") (str scope.provider) (
        field (codes "connectionId") (str scope.connection_id)
          (field (codes "recipientRef") (str []) end)));
  template = obj (
      field (codes "engine") (str (codes "HRP_INTERNAL"))
        (field (codes "contentRef") (str (codes "recv:" ++ parse.event_type)) end));
  policy = obj (
      field (codes "purpose") (str (codes "webhook_receive")) (
        field (codes "suppressionCheckRequired") (bool true)
          (field (codes "retryPolicyVersion") (str (codes "v1-core1.2")) end)));
  channel = codes "PUSH_WEBHOOK";
  dedupe_key =
      scope.organization_id
      ++ codes ":"
      ++ scope.provider
      ++ codes ":"
      ++ scope.connection_id
      ++ codes ":"
      ++ parse.event_id;
}

-- `buildReceiptAndIntents` and the payload that the call makes of them.
unfoldable pub build_payload : WebhookScope → Parsed → Text → Text → Text → Payload
unfolding build_intent
build_payload scope parse digest stamp correlation_id = record {
  schema_version = codes "1";
  receipt = record {
    organization_id = scope.organization_id;
    payload_digest = digest;
    duplicate_kind = dedupe;
    resolved_at = none;
    reason_code = none;
  };
  intents = build_intent scope parse stamp correlation_id ∷ [];
  correlation_id = if is_empty correlation_id then none else some correlation_id;
  command_refs_json = none;
}

abbrev is_validation : ErrorCode → Bool
is_validation validation_error = true
is_validation _ = false

abbrev is_scope_mismatch : ErrorCode → Bool
is_scope_mismatch scope_mismatch = true
is_scope_mismatch _ = false

abbrev pub conflict_message : Text
conflict_message =
    codes
      "Cùng eventId với payloadDigest khác; CORE/1.3 không auto-merge. Caller dùng CORRECTION path."

-- The catch clause, on the errors of the store and, by its message, one of the database client.
unfoldable pub refuse : StoreError → DedupeResult
refuse e =
    if is_validation e.code && includes (codes "IDEMPOTENCY_CONFLICT") e.message
    then refused idempotency_conflict_code conflict_message false
    else if is_scope_mismatch e.code
    then refused scope_mismatch_code e.message false
    else refused commit_failure e.message true

-- `digest` is what `computePayloadDigest` makes of the raw body: a SHA-256 of the runtime.
module _ (R : Table Receipt) (I : Table Intent) (client_message : Text) where
  unfoldable pub reply :
      Text → Tables R I → Outcome (Committed × Tables R I) → DedupeResult × Tables R I
  unfolding refuse
  reply digest s (ok (c, t)) = (accepted c.receipt_id c.intent_ids c.created digest, t)
  reply digest s (throws e) = (refuse e, s)
  reply digest s row_not_found = (refused commit_failure client_message true, s)
  reply digest s unique_violation = (refused commit_failure client_message true, s)

  unfoldable pub commit_webhook_receipt :
      WebhookScope
      → Parsed
      → Text
      → Text
      → Text
      → ℕ
      → (Tables R I → Tables R I)
      → Tables R I
      → DedupeResult × Tables R I
  unfolding build_payload reply
  commit_webhook_receipt scope parse digest stamp correlation_id now meanwhile s = reply digest s (
      commit_receipt_with_intents R I (event_scope scope parse)
        (build_payload scope parse digest stamp correlation_id) now meanwhile s)

-- The checks of the scope look at nothing that a repeated webhook may change.
scope_error_again :
    (scope : WebhookScope) (parse : Parsed) (d₁ d₂ stamp₁ stamp₂ c₁ c₂ : Text)
    → scope_error (event_scope scope parse) (build_payload scope parse d₁ stamp₁ c₁)
      ≡ scope_error (event_scope scope parse) (build_payload scope parse d₂ stamp₂ c₂)
unfolding scope_error build_payload build_intent
scope_error_again scope parse d₁ d₂ stamp₁ stamp₂ c₁ c₂ =
    rw (text_eq_refl scope.organization_id) refl

module _ (R : Table Receipt) (I : Table Intent) (client_message : Text) where
  reply-accepted :
      (digest : Text) (s t : Tables R I) (o : Outcome (Committed × Tables R I)) (id : Text)
      (ids : List Text) (created : Bool) (d : Text)
      → reply R I client_message digest s o ≡ (accepted id ids created d, t)
      → (c : Committed) × (o ≡ ok (c, t)) × (c.receipt_id ≡ id) × (c.intent_ids ≡ ids)
  unfolding reply refuse
  reply-accepted digest s t (ok (c, u)) id ids created d e = (c, ap (λ v. ok (c, v)) cc, cc, cc)
  reply-accepted digest s t (throws x) id ids created d e = absurd (ground arith)
  reply-accepted digest s t row_not_found id ids created d e = cc
  reply-accepted digest s t unique_violation id ids created d e = cc

  module _ (scope : WebhookScope) (parse : Parsed) (digest stamp correlation_id : Text) (now : ℕ)
      (other restamp correlation_again : Text) (later : ℕ)
      (meanwhile between : Tables R I → Tables R I) (s t : Tables R I) (id : Text) (ids : List Text)
      (created : Bool) where
    first_commit :
        commit_webhook_receipt R I client_message scope parse digest stamp correlation_id now
            meanwhile s
          ≡ (accepted id ids created digest, t)
        → (c : Committed) × (commit_receipt_with_intents R I
              (event_scope scope parse)
              (build_payload scope parse digest stamp correlation_id)
              now
              meanwhile
              s
            ≡ ok (c, t))
          × (c.receipt_id ≡ id)
          × (c.intent_ids ≡ ids)
    unfolding commit_webhook_receipt
    first_commit e = reply-accepted digest s t _ id ids created digest e

    checks_again :
        (d : Text) (c : Committed)
        → commit_receipt_with_intents R I
            (event_scope scope parse)
            (build_payload scope parse digest stamp correlation_id)
            now
            meanwhile
            s
          ≡ ok (c, t)
        → scope_error
            (event_scope scope parse)
            (build_payload scope parse d restamp correlation_again)
          ≡ none
    checks_again d c e =
        scope_error_again scope parse d digest restamp stamp correlation_again correlation_id
        ∙ (commit_receipt_with_intents_cases R I (event_scope scope parse)
            (build_payload scope parse digest stamp correlation_id) now meanwhile s t c e).0

    -- A webhook that is accepted and comes again with a body of the same digest is accepted under the
    -- same receipt id, creates nothing and leaves the tables as they are, whatever the clock, the
    -- correlation and the commits of others; its result has every intent of the first.
    pub webhook_again :
        commit_webhook_receipt R I client_message scope parse digest stamp correlation_id now
            meanwhile s
          ≡ (accepted id ids created digest, t)
        → (more : List Text) × (commit_webhook_receipt R I client_message scope parse digest restamp
              correlation_again later between t
            ≡ (accepted id more false digest, t))
          × All (λ i. In i more) ids
    unfolding commit_webhook_receipt reply build_payload
    webhook_again e =
        let (c, done, named, listed) = first_commit e in
        let (d, again, nothing, same, kept) =
          recommit_same R I (event_scope scope parse)
            (build_payload scope parse digest stamp correlation_id)
            (build_payload scope parse digest restamp correlation_again) now later meanwhile between
            s t c done (checks_again digest c done) refl in
        (
          d.intent_ids,
          rw (again, reply, nothing, same, named) refl,
          subst (All (λ i. In i d.intent_ids)) listed kept,
        )

    -- A webhook that is accepted and comes again with a body of another digest is refused as a
    -- conflict that no retry mends, and the tables stay as they are.
    pub webhook_other_body :
        commit_webhook_receipt R I client_message scope parse digest stamp correlation_id now
            meanwhile s
          ≡ (accepted id ids created digest, t)
        → other ≢ digest
        → commit_webhook_receipt R I client_message scope parse other restamp correlation_again
            later between t
          ≡ (refused idempotency_conflict_code conflict_message false, t)
    unfolding commit_webhook_receipt reply refuse build_payload includes
    webhook_other_body e differs =
        let (c, done, _, _) = first_commit e in
        let again =
          recommit_other R I (event_scope scope parse)
            (build_payload scope parse digest stamp correlation_id)
            (build_payload scope parse other restamp correlation_again) now later meanwhile between
            s t c done (checks_again other c done) differs in
        rw (again, reply, refuse) refl
