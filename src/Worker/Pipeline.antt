-- ===== src/Worker/Pipeline.antt =====
-- apps/integration-worker/src/pipeline-executor.ts: one receipt through the pipeline. The normalizer,
-- the mapping service, the revision tracker and the gateway client are arguments.
mod Tests
use mathlib.Core.Option.{get_or}
use hrp_crm.Base.{
  ℕ, ◌+◌, Bool, true, false, not, ◌&&◌, ◌||◌, if◌then◌else◌, Option, none, some, List, [], ◌∷◌,
  ◌++◌, take, Text, codes, text_eq, is_empty, includes, starts_with,
}
use hrp_crm.Base.Characters.{decimal}
use hrp_crm.Store.{ErrorCode, store_error}
use hrp_crm.Store.Lease.{ClaimedReceipt}
use hrp_crm.Worker.{Work, pipeline_done, gateway_error, gateway_thrown}
use hrp_crm.Worker.Firewall.{
  EventType, conversation_created, message_created, conversation_resolved, participant_added,
  client_inbound_message, InboundEvent, Classification, classify, blocked, blocked_unknown,
  blocked_mapping_revision_change, class_of,
}
use hrp_crm.Worker.Mapping.{
  MappingState, exact_match, possible_match, unresolved, MappingAction, call_gateway, create_review,
  skip, block, MappingResult, RevisionCheck, first_observation, fresh, stale, forward_revision,
  check_revision,
}

pub record ExecutorInput (Body : Type 0) : Type 0 where
  pub receipt_id : Text
  pub organization_id : Text
  pub idempotency_key : Option Text
  pub correlation_id : Option Text
  pub parsed_event : Option Body

-- A request without its context and its payload.
pub record GatewayRequest : Type 0 where
  pub organization_id : Text
  pub command_id : Text
  pub idempotency_key : Text
  pub correlation_id : Text
  pub method : Text
  pub scenario_id : Text

-- What a call comes to: a result that is not `FAILED`, the first error of one that is (with the source's
-- defaults if it lists none), or a throw.
pub data GatewayAnswer : Type 0 where
  answered : GatewayAnswer
  failed : (code : Text) (retry_class : Option Text) (message : Text) → GatewayAnswer
  threw : (message : Text) → GatewayAnswer

pub data SkipReason : Type 0 where
  not_normalized not_authoritative firewall_blocked : SkipReason
  revision_stale : (claim current : ℕ) → SkipReason

pub data PipelineOutcome : Type 0 where
  succeeded : PipelineOutcome
  in_review : (review_queue_entry_id : Text) → PipelineOutcome
  skipped : SkipReason → Classification → PipelineOutcome
  gateway_failed : (code message : Text) (retryable : Bool) → PipelineOutcome
  gateway_threw : (code message : Text) → PipelineOutcome

abbrev is_never : Option Text → Bool
is_never none = false
is_never (some t) = text_eq t (codes "NEVER")

abbrev is_final_code : Text → Bool
is_final_code code =
    text_eq code (codes "VALIDATION_ERROR")
    || text_eq code (codes "VERSION_CONFLICT")
    || text_eq code (codes "IDEMPOTENCY_CONFLICT")
    || text_eq code (codes "SCOPE_MISMATCH")
    || text_eq code (codes "TENANT_SCOPE_REQUIRED")

-- `classifyGatewayError`: whether the error is retried.
unfoldable pub classify_gateway_error : Text → Option Text → Bool
classify_gateway_error code retry_class =
    if is_never retry_class then false else if is_final_code code then false else true

abbrev is_exact : MappingState → Bool
is_exact exact_match = true
is_exact possible_match = false
is_exact unresolved = false

abbrev message_scenario : MappingState → Text
message_scenario state =
    if is_exact state then codes "EXACT_MATCH_SUCCESS" else codes "POSSIBLE_MATCH_REVIEW"

abbrev select_scenario_id : EventType → MappingState → Text
select_scenario_id message_created state = message_scenario state
select_scenario_id client_inbound_message state = message_scenario state
select_scenario_id conversation_created state = codes "NEW_PROFILE_CREATED"
select_scenario_id conversation_resolved state = codes "CLOSED_CASE_SUCCESS"
select_scenario_id participant_added state = codes "POSSIBLE_MATCH_REVIEW"
select_scenario_id _ state = codes "EXACT_MATCH_SUCCESS"

-- What the worker makes of an outcome. `cast` stands for the cast of a code to one of the store's. The
-- messages of a success, which no completion stores, are cut short.
abbrev pub pipeline_work : (cast : Text → ErrorCode) → PipelineOutcome → Work
pipeline_work cast succeeded = pipeline_done (codes "Pipeline SUCCESS")
pipeline_work cast (in_review entry) = pipeline_done (codes "Pipeline REVIEW")
pipeline_work cast (skipped reason c) = pipeline_done (codes "Pipeline SKIPPED")
pipeline_work cast (gateway_failed code message retryable) =
    gateway_error (store_error (cast code) message (some retryable) none)
      (code ++ codes ": " ++ message) retryable
pipeline_work cast (gateway_threw code message) = gateway_thrown (code ++ codes ": " ++ message)

-- What the worker hands to the pipeline: of the event itself nothing.
abbrev pub pipeline_input : (Body : Type 0) → ClaimedReceipt → ExecutorInput Body
pipeline_input Body r = record {
  receipt_id = r.receipt_id;
  organization_id = r.organization_id;
  idempotency_key = r.idempotency_key;
  correlation_id = r.correlation_id;
  parsed_event = none;
}

module _ {Body : Type 0} (normalize : Body → Option InboundEvent)
    (resolve : InboundEvent → Classification → MappingResult)
    (current_revision : (organization_id conversation_id : Text) → Option ℕ)
    (gateway : GatewayRequest → GatewayAnswer) (count : ℕ) where
  -- `count` is `_execCounter` before the call.
  abbrev build_request : ExecutorInput Body → InboundEvent → MappingResult → Text → GatewayRequest
  build_request input e m command = record {
    organization_id = input.organization_id;
    command_id =
        codes "cmd-"
        ++ take 8 e.organization_id
        ++ codes "-"
        ++ take 16 e.event_id
        ++ codes "-"
        ++ decimal (count + 1);
    idempotency_key = get_or input.idempotency_key (codes "auto-" ++ input.receipt_id);
    correlation_id = get_or input.correlation_id input.receipt_id;
    method = command;
    scenario_id = select_scenario_id e.event_type m.resolution.state;
  }

  abbrev outcome_of : GatewayAnswer → PipelineOutcome
  outcome_of answered = succeeded
  outcome_of (failed code retry_class message) =
      gateway_failed code message (classify_gateway_error code retry_class)
  outcome_of (threw message) =
      gateway_threw
        (if includes (codes "timeout") message
          then codes "DEPENDENCY_UNAVAILABLE"
          else codes "TRANSACTION_FAILED")
        message

  -- The outcome, with the requests that were made of the gateway.
  abbrev Run : Type 0
  Run = PipelineOutcome × List GatewayRequest

  abbrev pub act :
      ExecutorInput Body → InboundEvent → Classification → MappingResult → MappingAction → Run
  act input e c m skip = (skipped not_authoritative c, [])
  act input e c m block = (skipped firewall_blocked c, [])
  act input e c m (create_review reason_code) =
      (in_review (get_or m.resolution.review_queue_entry_id (codes "unknown")), [])
  act input e c m (call_gateway command) =
      let request = build_request input e m command in (outcome_of (gateway request), request ∷ [])

  -- A claim of a later revision defers a call to the review.
  abbrev pub defer :
      ExecutorInput Body → InboundEvent → Classification → MappingResult → MappingAction → Run
  defer input e c m (call_gateway command) =
      (in_review (get_or m.resolution.review_queue_entry_id (codes "review-forward-revision")), [])
  defer input e c m action = act input e c m action

  abbrev pub gated :
      ExecutorInput Body → InboundEvent → Classification → MappingResult → RevisionCheck → Run
  gated input e c m first_observation = act input e c m m.action
  gated input e c m (fresh observed) = act input e c m m.action
  gated input e c m (stale observed claim) = (
    skipped (revision_stale claim observed)
        (record c { classification = blocked; reason = blocked_mapping_revision_change }),
    [],
  )
  gated input e c m (forward_revision observed claim) = defer input e c m m.action

  abbrev pub tracked :
      ExecutorInput Body
      → InboundEvent
      → Classification
      → MappingResult
      → Option ℕ
      → Option Text
      → Run
  tracked input e c m (some claim) (some conversation) =
      gated input e c m
        (check_revision (current_revision input.organization_id conversation) (some claim))
  tracked input e c m (some claim) none = act input e c m m.action
  tracked input e c m none conversation = act input e c m m.action

  abbrev pub run_event : ExecutorInput Body → InboundEvent → Run
  run_event input e =
      let c = classify e in
      let m = resolve e c in tracked input e c m e.mapping_revision e.conversation_id

  abbrev pub normalized : Option Body → Option InboundEvent
  normalized none = none
  normalized (some body) = normalize body

  unfoldable pub execute_pipeline : ExecutorInput Body → Run
  unfolding classify classify_gateway_error includes starts_with check_revision
  execute_pipeline input = elim (normalized input.parsed_event) [
    | none ↦ (skipped not_normalized (class_of blocked blocked_unknown), [])
    | some e ↦ run_event input e
  ]
