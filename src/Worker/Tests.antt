-- ===== src/Worker/Tests.antt =====
-- durable-worker.ts on a table of two receipts: the theorems at inputs that meet their hypotheses.
use hrp_crm.Base.{
  ℕ, ◌≡◌, ◌+◌, ◌≤◌, refl, Bool, true, false, none, some, List, [], ◌∷◌, Text, codes, In, Distinct,
  arith, text_eq, sort_by, ne-of_text_eq, if◌then◌else◌,
}
use hrp_crm.Store.Table.{Table}
use hrp_crm.Store.Table.Lists.{list_table, select_oldest, update}
use hrp_crm.Store.{Receipt, Intent, ReceiptState, dedupe, ok}
use hrp_crm.Store.Retry.{default_retry_policy}
use hrp_crm.Store.Lease.{
  ClaimedReceipt, is_available, claim_data, CompleteReceiptArgs, CompleteReceiptResult, Moment,
  claimed_receipt, release_data, success,
}
use hrp_crm.Store.Lease.Ops.{claim_next_receipt, complete_receipt, fenced_rejection, is_owned}
use hrp_crm.Store.Lease.Moves.{ids}
use hrp_crm.Worker.{
  timeout_before_apply, Work, pipeline_done, WorkerConfig, WorkerState, Tick, claim_args,
  complete_args, work_on, poll_rounds, drain, is_dead_lettered,
}
use hrp_crm.Worker.Polls.{total}
use hrp_crm.Worker.Limit.{poll_rounds-claimed}
use hrp_crm.Worker.Drain.{drain_fences_off}
use hrp_crm.Worker.Executor.{executor_counted, run_scenario, expected_state}

abbrev waiting : Text → ℕ → Receipt
waiting id seen = record {
  receipt_id = id;
  schema_version = codes "1";
  organization_id = codes "org";
  provider = codes "zalo";
  connection_id = codes "c1";
  event_id = id;
  payload_digest = codes "d";
  state = ReceiptState.pending;
  duplicate_kind = dedupe;
  attempts = 0;
  lease_owner = none;
  lease_expires_at = none;
  fencing_token = none;
  lease_fenced_at = none;
  correlation_id = none;
  command_refs_json = none;
  idempotency_key = none;
  first_seen_at = seen;
  next_attempt_at = none;
  resolved_at = none;
  reason_code = none;
  evidence_refs_json = none;
}

abbrev receipts : Table Receipt
receipts = list_table

abbrev intents : Table Intent
intents = list_table

abbrev queue : List Receipt
queue = waiting (codes "r2") 20 ∷ waiting (codes "r1") 10 ∷ []

abbrev no_intents : List Intent
no_intents = []

abbrev config : WorkerConfig
config = record {
  worker_id = codes "a";
  organization_id = codes "org";
  lease_duration_ms = 60;
  retry_policy = default_retry_policy;
  max_iterations = some 5;
}

abbrev started : WorkerState
started = record {
  iterations = 0;
  claimed = 0;
  completed = 0;
  failed = 0;
  reclaimed = 0;
  errors = 0;
  running = true;
}

abbrev moment : Moment
moment = record { now = 120; now_again = 120; draw = record { draw_num = 1; draw_den = 2 } }

abbrev nothing_locked : Text → Bool
nothing_locked _ = false

abbrev tick : Text → Tick
tick token = record {
  swept_at = 99;
  claimed_at = 100;
  token = token;
  locked = nothing_locked;
  own_moment = moment;
  moment = moment;
}

abbrev claimed_r1 : ClaimedReceipt
claimed_r1 = claimed_receipt (waiting (codes "r1") 10) 1 (codes "a") (codes "t1") 100 60

abbrev leased_queue : List Receipt
leased_queue =
    waiting (codes "r2") 20
    ∷ claim_data (codes "a") (codes "t1") 100 60 (waiting (codes "r1") 10)
    ∷ []

claims_oldest :
    claim_next_receipt receipts (claim_args config) nothing_locked 100 (codes "t1") queue
    ≡ ok (some claimed_r1, leased_queue)
unfolding claim_next_receipt is_available select_oldest update sort_by text_eq claim_data
claims_oldest = refl

queue-Distinct : Distinct (ids queue)
unfolding text_eq
queue-Distinct = ((ne-of_text_eq _ _ refl, tt), (tt, tt))

abbrev always_done : ClaimedReceipt → Work
always_done _ = pipeline_done (codes "done")

abbrev two_ticks : List Tick
two_ticks = tick (codes "t1") ∷ tick (codes "t2") ∷ []

two_ticks-Distinct : Distinct (codes "t1" ∷ codes "t2" ∷ [])
unfolding text_eq
two_ticks-Distinct = ((ne-of_text_eq _ _ refl, tt), (tt, tt))

-- Two receipts with no attempt used up can be claimed nine times each.
poll_rounds-claimed_example :
    (poll_rounds receipts intents always_done config two_ticks
      (started, (queue, no_intents))).0.claimed
    ≤ 0 + total receipts 8 queue
poll_rounds-claimed_example =
    poll_rounds-claimed receipts intents always_done config 8 two_ticks
      (started, (queue, no_intents)) (omega arith, omega arith) queue-Distinct two_ticks-Distinct
      (((refl, (refl, tt)), ((refl, (refl, tt)), tt)))

abbrev late : CompleteReceiptArgs
late = record {
  fencing_token = codes "t1";
  lease_owner = codes "a";
  outcome = success;
  error = none;
  retry_policy = some default_retry_policy;
}

drain_fences_off_example :
    let (w', (s', _)) =
      drain receipts intents always_done config 110 (started, (leased_queue, no_intents)) in
    (w'.running ≡ false)
    × ((r : Receipt)
        → In r leased_queue
        → is_owned (codes "a") r ≡ true
        → In (release_data (some 110) r) s')
    × (complete_receipt receipts late moment s' ≡ ok (fenced_rejection, s'))
drain_fences_off_example =
    drain_fences_off receipts intents always_done config 110 started leased_queue no_intents late
      moment refl refl

executor_counted_example :
    let (w', u) =
      work_on receipts intents
        (run_scenario timeout_before_apply)
        config
        (tick (codes "t1"))
        claimed_r1
        started
        leased_queue in
    let args = complete_args config (codes "t1") (run_scenario timeout_before_apply claimed_r1) in
    let state = expected_state timeout_before_apply none 1 8 in
    (w'.errors ≡ 0)
    × (w'.failed ≡ (if is_dead_lettered state then 0 + 1 else 0))
    × (w'.completed ≡ (if is_dead_lettered state then 0 else 0 + 1))
    × ((r : CompleteReceiptResult) × (complete_receipt receipts args moment leased_queue
          ≡ ok (r, u))
        × (r.state ≡ state))
executor_counted_example =
    executor_counted receipts intents timeout_before_apply config (tick (codes "t1")) nothing_locked
      claimed_r1 started queue leased_queue queue-Distinct (refl, (refl, tt)) claims_oldest
