-- ===== src/Worker/Pipeline/Tests.antt =====
-- pipeline-executor.ts: the theorems at inputs that meet their hypotheses.
use hrp_crm.Base.{
  ℕ, ◌≡◌, ◌+◌, refl, Bool, true, false, ◌&&◌, Option, none, some, List, [], ◌∷◌, Text, codes,
  sort_by, text_eq,
}
use hrp_crm.Store.Table.{Table}
use hrp_crm.Store.Table.Lists.{list_table, select_oldest, update}
use hrp_crm.Store.{Receipt, Intent, ReceiptState, ErrorCode, transaction_failed, dedupe, ok}
use hrp_crm.Store.Retry.{default_retry_policy}
use hrp_crm.Store.Lease.{
  ClaimedReceipt, Moment, is_available, claim_data, claimed_receipt, verdict_result, delivers,
}
use hrp_crm.Store.Lease.Ops.{claim_next_receipt, complete_receipt}
use hrp_crm.Worker.{Work, WorkerConfig, WorkerState, Tick, claim_args, complete_args, work_on}
use hrp_crm.Worker.Firewall.{message_created, client, InboundEvent, classify, is_given}
use hrp_crm.Worker.Mapping.{synth_seed, seed_is}
use hrp_crm.Worker.Pipeline.{
  ExecutorInput, GatewayRequest, GatewayAnswer, answered, PipelineOutcome, pipeline_work,
  execute_pipeline,
}
use hrp_crm.Worker.Gate.{calls_gateway, is_called, mapping, passes, is_current}
use hrp_crm.Worker.Undispatched.{never_dispatched, run_receipt}

-- An inbound message that claims a branch, with no review token.
abbrev spoof : InboundEvent
spoof = record {
  event_type = message_created;
  organization_id = codes "org";
  connection_id = codes "c1";
  event_id = codes "cat";
  sender_id = some (codes "s1");
  is_private_note = false;
  is_echo = false;
  is_outbound = false;
  conversation_id = some (codes "v1");
  claimed_branch_hint = some client;
  review_confirmation_token = none;
  mapping_revision = none;
}

normalize : InboundEvent → Option InboundEvent
normalize e = some e

abbrev untracked : Text → Text → Option ℕ
untracked _ _ = none

abbrev accepts : GatewayRequest → GatewayAnswer
accepts _ = answered

abbrev input : ExecutorInput InboundEvent
input = record {
  receipt_id = codes "r1";
  organization_id = codes "org";
  idempotency_key = none;
  correlation_id = none;
  parsed_event = some spoof;
}

calls_gateway_example :
    is_called
      (execute_pipeline normalize
        (mapping normalize untracked accepts 0 0)
        untracked
        accepts
        0
        input).1
    ≡ (passes (classify spoof).classification
        && (seed_is (synth_seed spoof) 0 && is_given spoof.sender_id)
        && is_current spoof.mapping_revision spoof.conversation_id (untracked (codes "org")))
unfolding normalize
calls_gateway_example = calls_gateway normalize untracked accepts 0 0 input spoof spoof refl refl

abbrev waiting : Receipt
waiting = record {
  receipt_id = codes "r1";
  schema_version = codes "1";
  organization_id = codes "org";
  provider = codes "zalo";
  connection_id = codes "c1";
  event_id = codes "e1";
  payload_digest = codes "d";
  state = ReceiptState.pending;
  duplicate_kind = dedupe;
  attempts = 0;
  lease_owner = none;
  lease_expires_at = none;
  fencing_token = none;
  lease_fenced_at = none;
  correlation_id = none;
  command_refs_json = none;
  idempotency_key = none;
  first_seen_at = 10;
  next_attempt_at = none;
  resolved_at = none;
  reason_code = none;
  evidence_refs_json = none;
}

abbrev receipts : Table Receipt
receipts = list_table

abbrev intents : Table Intent
intents = list_table

abbrev queue : List Receipt
queue = waiting ∷ []

abbrev leased : List Receipt
leased = claim_data (codes "a") (codes "t1") 100 60 waiting ∷ []

abbrev config : WorkerConfig
config = record {
  worker_id = codes "a";
  organization_id = codes "org";
  lease_duration_ms = 60;
  retry_policy = default_retry_policy;
  max_iterations = none;
}

abbrev started : WorkerState
started = record {
  iterations = 0;
  claimed = 0;
  completed = 0;
  failed = 0;
  reclaimed = 0;
  errors = 0;
  running = true;
}

abbrev moment : Moment
moment = record { now = 120; now_again = 120; draw = record { draw_num = 1; draw_den = 2 } }

abbrev unlocked : Text → Bool
unlocked _ = false

abbrev tick : Tick
tick = record {
  swept_at = 99;
  claimed_at = 100;
  token = codes "t1";
  locked = unlocked;
  own_moment = moment;
  moment = moment;
}

abbrev claimed : ClaimedReceipt
claimed = claimed_receipt waiting 1 (codes "a") (codes "t1") 100 60

claims_receipt :
    claim_next_receipt receipts (claim_args config) unlocked 100 (codes "t1") queue
    ≡ ok (some claimed, leased)
unfolding claim_next_receipt is_available select_oldest update sort_by text_eq claim_data
claims_receipt = refl

abbrev cast : Text → ErrorCode
cast _ = transaction_failed

abbrev run : ClaimedReceipt → PipelineOutcome × List GatewayRequest
run =
    run_receipt normalize (mapping normalize untracked accepts 0 0) untracked accepts 0 cast
      receipts intents

never_dispatched_example :
    let work : ClaimedReceipt → Work = λ r. pipeline_work cast (run r).0 in
    let (w', u) = work_on receipts intents work config tick claimed started leased in
    ((run claimed).1 ≡ [])
    × (w'.completed ≡ 0 + 1)
    × (complete_receipt receipts (complete_args config (codes "t1") (work claimed)) moment leased
        ≡ ok (verdict_result delivers, u))
never_dispatched_example =
    never_dispatched normalize (mapping normalize untracked accepts 0 0) untracked accepts 0 cast
      receipts intents config tick unlocked claimed started queue leased (tt, tt) (refl, tt)
      claims_receipt
