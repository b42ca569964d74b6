-- ===== src/Worker.antt =====
-- apps/integration-worker/src/durable-worker.ts and executor.ts: the poll loop over the leases.
pub mod Potential
pub mod Polls
pub mod Rounds
pub mod Limit
pub mod Drain
pub mod Executor
pub mod Firewall
pub mod Mapping
pub mod Pipeline
pub mod Gate
pub mod Undispatched
mod Tests
use mathlib.Core.Option.{get_or}
use hrp_crm.Base.{
  ℕ, ◌+◌, ◌==◌, leb, Bool, true, false, not, ◌&&◌, if◌then◌else◌, Option, none, some, List, [], ◌∷◌,
  ◌++◌, Text, codes, is_empty,
}
use hrp_crm.Store.Table.{Table}
use hrp_crm.Store.{
  Receipt, Intent, ReceiptState, StoreError, ErrorCode, validation_error, version_conflict,
  idempotency_conflict, transaction_failed, Outcome, ok, throws, row_not_found, unique_violation,
}
use hrp_crm.Store.Retry.{RetryPolicy, default_retry_policy}
use hrp_crm.Store.Lease.{
  ClaimArgs, ClaimedReceipt, WorkOutcome, success, retry, fail, CompleteReceiptArgs,
  CompleteReceiptResult, Moment,
}
use hrp_crm.Store.Lease.Ops.{
  claim_next_receipt, complete_receipt, reclaim_expired_leases, release_all_for_worker,
}
use hrp_crm.Store.Dispatch.{reclaim_expired_intents, release_intents_of_worker}

pub data ExecutorScenario : Type 0 where
  succeeds fail_validation fail_version_conflict fail_idempotency_conflict : ExecutorScenario
  fail_permission_denied fail_policy_rejection : ExecutorScenario
  timeout_before_apply timeout_after_apply : ExecutorScenario

pub data ExecutorCode : Type 0 where
  no_error validation_failed version_conflicts idempotency_conflicts policy_rejection : ExecutorCode
  transaction_fails idempotent_applied : ExecutorCode

pub record ExecutorOutcome : Type 0 where
  pub status : WorkOutcome
  pub code : ExecutorCode
  pub message : Text
  pub retryable : Bool

abbrev make_outcome : WorkOutcome → ExecutorCode → Text → Bool → ExecutorOutcome
make_outcome status code message retryable = record {
  status = status;
  code = code;
  message = message;
  retryable = retryable;
}

abbrev has_text : Option Text → Bool
has_text none = false
has_text (some t) = not (is_empty t)

-- `executeReceipt`, at a scenario of its type.
unfoldable pub execute_receipt : ClaimedReceipt → ExecutorScenario → ExecutorOutcome
execute_receipt input succeeds =
    make_outcome success no_error
      (codes "Receipt " ++ input.receipt_id ++ codes " dispatched successfully") false
execute_receipt input fail_validation =
    make_outcome fail validation_failed (codes "Invalid payload digest or schema version") false
execute_receipt input fail_version_conflict =
    make_outcome fail version_conflicts (codes "Canonical entity version mismatch") false
execute_receipt input fail_idempotency_conflict =
    make_outcome fail idempotency_conflicts
      (codes "Same idempotency key used with different payload") false
execute_receipt input fail_permission_denied =
    make_outcome fail policy_rejection (codes "Actor lacks permission for this operation") false
execute_receipt input fail_policy_rejection =
    make_outcome fail policy_rejection (codes "Dispatch policy (e.g., DNC fence) denied") false
execute_receipt input timeout_before_apply =
    make_outcome retry transaction_fails (codes "Gateway timeout before canonical apply") true
execute_receipt input timeout_after_apply =
    if has_text input.idempotency_key
    then make_outcome success idempotent_applied
        (codes "Timeout after apply; idempotency key present — idempotent success") false
    else make_outcome retry transaction_fails
        (codes "Gateway timeout after apply but no idempotency key") true

abbrev map_executor_code : ExecutorCode → ErrorCode
map_executor_code validation_failed = validation_error
map_executor_code version_conflicts = version_conflict
map_executor_code idempotency_conflicts = idempotency_conflict
map_executor_code transaction_fails = transaction_failed
map_executor_code no_error = validation_error
map_executor_code idempotent_applied = validation_error
map_executor_code policy_rejection = validation_error

-- How a receipt was worked on: by the executor, or by the pipeline. A pipeline that was failed by the
-- gateway completes the receipt itself first, with `own` for its error.
pub data Work : Type 0 where
  executed : ExecutorOutcome → Work
  pipeline_done : (message : Text) → Work
  gateway_error : (own : StoreError) (message : Text) (retryable : Bool) → Work
  gateway_thrown : (message : Text) → Work

abbrev retry_or_fail : Bool → WorkOutcome
retry_or_fail true = retry
retry_or_fail false = fail

-- What the worker's completion says of the work.
unfoldable pub work_outcome : Work → WorkOutcome
work_outcome (executed o) = o.status
work_outcome (pipeline_done message) = success
work_outcome (gateway_error own message retryable) = retry_or_fail retryable
work_outcome (gateway_thrown message) = retry_or_fail true

abbrev plain_error : ErrorCode → Text → Bool → StoreError
plain_error code message retryable = record {
  code = code;
  message = message;
  retryable = retryable;
  target = none;
}

unfoldable pub work_error : Work → StoreError
work_error (executed o) = plain_error (map_executor_code o.code) o.message o.retryable
work_error (pipeline_done message) = plain_error transaction_failed message false
work_error (gateway_error own message retryable) = plain_error transaction_failed message retryable
work_error (gateway_thrown message) = plain_error transaction_failed message true

pub record WorkerConfig : Type 0 where
  pub worker_id : Text
  pub organization_id : Text
  pub lease_duration_ms : ℕ
  pub retry_policy : RetryPolicy
  pub max_iterations : Option ℕ

pub record WorkerState : Type 0 where
  pub iterations : ℕ
  pub claimed : ℕ
  pub completed : ℕ
  pub failed : ℕ
  pub reclaimed : ℕ
  pub errors : ℕ
  pub running : Bool

-- What the environment supplies to one round: the readings of the clock, the token and the draws.
pub record Tick : Type 0 where
  pub swept_at : ℕ
  pub claimed_at : ℕ
  pub token : Text
  pub locked : Text → Bool
  pub own_moment : Moment
  pub moment : Moment

abbrev pub claim_args : WorkerConfig → ClaimArgs
claim_args c = record {
  worker_id = c.worker_id;
  lease_duration_ms = c.lease_duration_ms;
  max_per_poll = some 1;
  organization_id = some c.organization_id;
}

abbrev pub complete_args : WorkerConfig → Text → Work → CompleteReceiptArgs
complete_args c token work = record {
  fencing_token = token;
  lease_owner = c.worker_id;
  outcome = work_outcome work;
  error = some (work_error work);
  retry_policy = some c.retry_policy;
}

abbrev pub own_args : WorkerConfig → Text → StoreError → Bool → CompleteReceiptArgs
own_args c token err retryable = record {
  fencing_token = token;
  lease_owner = c.worker_id;
  outcome = retry_or_fail retryable;
  error = some err;
  retry_policy = some default_retry_policy;
}

abbrev pub is_dead_lettered : ReceiptState → Bool
is_dead_lettered ReceiptState.dead_lettered = true
is_dead_lettered _ = false

-- The counters after a completion.
unfoldable pub count_result : CompleteReceiptResult → WorkerState → WorkerState
count_result r w =
    if r.fenced_rejected
    then record w { errors = w.errors + 1 }
    else if is_dead_lettered r.state
    then record w { failed = w.failed + 1 }
    else record w { completed = w.completed + 1 }

-- `if (config.maxIterations && state.iterations >= config.maxIterations) running = false`
unfoldable pub stop_at : Option ℕ → WorkerState → WorkerState
stop_at none w = w
stop_at (some n) w = if not (n == 0) && leb n w.iterations then record w { running = false } else w

module _ (R : Table Receipt) (I : Table Intent) (execute : ClaimedReceipt → Work) where
  abbrev pub Both : Type 0
  Both = R.State × I.State

  -- The completion that the pipeline makes itself; if it throws, the pipeline goes on.
  unfoldable pub own_completion : WorkerConfig → Tick → Work → R.State → R.State
  own_completion c k (gateway_error own message retryable) s =
      elim (complete_receipt R (own_args c k.token own retryable) k.own_moment s) [
        | ok (_, t) ↦ t
        | throws _ ↦ s
        | row_not_found ↦ s
        | unique_violation ↦ s
      ]
  own_completion c k (executed o) s = s
  own_completion c k (pipeline_done message) s = s
  own_completion c k (gateway_thrown message) s = s

  -- The worker's completion and what it counts. A rejection by the database client is an error of the
  -- round.
  unfoldable pub finish : WorkerConfig → Tick → Work → WorkerState → R.State → WorkerState × R.State
  unfolding count_result stop_at
  finish c k work w s = elim (complete_receipt R (complete_args c k.token work) k.moment s) [
    | ok (r, t) ↦ (stop_at c.max_iterations (count_result r w), t)
    | throws _ ↦ (record w { errors = w.errors + 1 }, s)
    | row_not_found ↦ (record w { errors = w.errors + 1 }, s)
    | unique_violation ↦ (record w { errors = w.errors + 1 }, s)
  ]

  unfoldable pub work_on :
      WorkerConfig → Tick → ClaimedReceipt → WorkerState → R.State → WorkerState × R.State
  unfolding own_completion finish
  work_on c k receipt w s =
      let work = execute receipt in
      finish c k work (record w { claimed = w.claimed + 1; iterations = w.iterations + 1 })
        (own_completion c k work s)

  -- One round of the loop.
  unfoldable pub poll_once : WorkerConfig → Tick → WorkerState × Both → WorkerState × Both
  unfolding work_on
  poll_once c k (w, (s, i)) =
      let (receipts, s₁) = reclaim_expired_leases R k.swept_at s in
      let (intents, i₁) = reclaim_expired_intents I k.swept_at i in
      let w₁ = record w { reclaimed = w.reclaimed + (receipts + intents) } in
      elim (claim_next_receipt R (claim_args c) k.locked k.claimed_at k.token s₁) [
        | ok (none, s₂) ↦ (w₁, (s₂, i₁))
        | ok (some receipt, s₂) ↦ let (w₂, s₃) = work_on c k receipt w₁ s₂ in (w₂, (s₃, i₁))
        | throws _ ↦ (record w₁ { errors = w₁.errors + 1 }, (s₁, i₁))
        | row_not_found ↦ (record w₁ { errors = w₁.errors + 1 }, (s₁, i₁))
        | unique_violation ↦ (record w₁ { errors = w₁.errors + 1 }, (s₁, i₁))
      ]

  -- `while (running)`, for the rounds that the environment supplies.
  unfoldable pub poll_rounds : WorkerConfig → List Tick → WorkerState × Both → WorkerState × Both
  unfolding poll_once
  poll_rounds c [] p = p
  poll_rounds c (k ∷ ks) p =
      let rest = poll_rounds c ks (poll_once c k p) in if p.0.running then rest else p

  -- `stop`, without the wait for the round that is under way.
  unfoldable pub drain : WorkerConfig → ℕ → WorkerState × Both → WorkerState × Both
  drain c now (w, (s, i)) = if not w.running then (w, (s, i)) else (
    record w { running = false },
    (
      (release_all_for_worker R c.worker_id now s).1,
      (release_intents_of_worker I c.worker_id now i).1,
    ),
  )
