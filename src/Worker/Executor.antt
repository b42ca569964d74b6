-- ===== src/Worker/Executor.antt =====
-- executor.ts, durable-worker.ts: what the worker makes of each scenario of the executor.
use hrp_crm.Base.{
  ℕ, ◌+◌, ◌≡◌, refl, Bool, true, false, not, ◌&&◌, if◌then◌else◌, Option, none, some, ltb, Text,
  is_empty, All, Distinct, arith,
}
use hrp_crm.Store.Table.{Table}
use hrp_crm.Store.{Receipt, Intent, ReceiptState, ok}
use hrp_crm.Store.Retry.{decide_retry_state}
use hrp_crm.Store.Lease.{
  ClaimedReceipt, verdict, retry_verdict, CompleteReceiptResult, verdict_result,
}
use hrp_crm.Store.Lease.Ops.{claim_next_receipt, complete_receipt}
use hrp_crm.Store.Lease.Moves.{ids}
use hrp_crm.Store.Lease.Fencing.{IsDead}
use hrp_crm.Store.Lease.Lifecycle.{claim_then_complete, settled_by, verdict_result_accepts}
use hrp_crm.Worker.{
  ExecutorScenario, succeeds, fail_validation, fail_version_conflict, fail_idempotency_conflict,
  fail_permission_denied, fail_policy_rejection, timeout_before_apply, timeout_after_apply, Work,
  executed, execute_receipt, work_outcome, work_error, WorkerConfig, WorkerState, Tick, claim_args,
  complete_args, count_result, stop_at, own_completion, finish, work_on, is_dead_lettered,
}

abbrev has_key : Option Text → Bool
has_key none = false
has_key (some k) = not (is_empty k)

-- The gateway applies the receipt, or has no time to.
abbrev pub is_applied : ExecutorScenario → Option Text → Bool
is_applied succeeds key = true
is_applied timeout_after_apply key = has_key key
is_applied _ key = false

abbrev pub is_timeout : ExecutorScenario → Bool
is_timeout timeout_before_apply = true
is_timeout timeout_after_apply = true
is_timeout _ = false

abbrev pub expected_state : ExecutorScenario → Option Text → (attempts most : ℕ) → ReceiptState
expected_state scenario key attempts most =
    if is_applied scenario key
    then ReceiptState.delivered
    else if is_timeout scenario && ltb attempts most
    then ReceiptState.retry_scheduled
    else ReceiptState.dead_lettered

abbrev pub run_scenario : ExecutorScenario → ClaimedReceipt → Work
run_scenario scenario receipt = executed (execute_receipt receipt scenario)

-- The state that the verdict on a scenario leads to.
settles :
    (scenario : ExecutorScenario) (c : WorkerConfig) (k : Tick) (receipt : ClaimedReceipt)
    → let args = complete_args c k.token (run_scenario scenario receipt) in
      ((verdict_result (settled_by args k.moment receipt.attempts)).state
        ≡ expected_state scenario receipt.idempotency_key receipt.attempts
            c.retry_policy.max_attempts)
unfolding execute_receipt work_outcome work_error verdict retry_verdict decide_retry_state
settles succeeds c k receipt = refl
settles fail_validation c k receipt = refl
settles fail_version_conflict c k receipt = refl
settles fail_idempotency_conflict c k receipt = refl
settles fail_permission_denied c k receipt = refl
settles fail_policy_rejection c k receipt = refl
settles timeout_before_apply c k receipt = ground arith
settles timeout_after_apply c k receipt = ground arith

count_state :
    (r : CompleteReceiptResult) (state : ReceiptState) (n : Option ℕ) (w : WorkerState)
    → r.fenced_rejected ≡ false
    → r.state ≡ state
    → let w' = stop_at n (count_result r w) in
      let gave_up = is_dead_lettered state in
      (w'.errors ≡ w.errors)
      × (w'.failed ≡ (if gave_up then w.failed + 1 else w.failed))
      × (w'.completed ≡ (if gave_up then w.completed else w.completed + 1))
unfolding stop_at count_result
count_state r state none w e f = ground arith
count_state r state (some n) w e f = ground arith

module _ (R : Table Receipt) (I : Table Intent) where
  -- A worker on the executor counts each receipt that it claims once, as failed if the receipt ends
  -- dead-lettered and as completed otherwise. The receipt is delivered if the scenario applies it,
  -- scheduled again if it times out with attempts left, and dead-lettered in every other case.
  pub executor_counted :
      (scenario : ExecutorScenario) (c : WorkerConfig) (k : Tick) (free : Text → Bool)
      (receipt : ClaimedReceipt) (w : WorkerState) (s t : R.State)
      → Distinct (ids (R.rows s))
      → All (IsDead k.token) (R.rows s)
      → claim_next_receipt R (claim_args c) free k.claimed_at k.token s ≡ ok (some receipt, t)
      → let (w', u) = work_on R I (run_scenario scenario) c k receipt w t in
        let args = complete_args c k.token (run_scenario scenario receipt) in
        let state =
          expected_state scenario receipt.idempotency_key receipt.attempts
            c.retry_policy.max_attempts in
        (w'.errors ≡ w.errors)
        × (w'.failed ≡ (if is_dead_lettered state then w.failed + 1 else w.failed))
        × (w'.completed ≡ (if is_dead_lettered state then w.completed else w.completed + 1))
        × ((r : CompleteReceiptResult) × (complete_receipt R args k.moment t ≡ ok (r, u))
            × (r.state ≡ state))
  unfolding work_on own_completion
  executor_counted scenario c k free receipt w s t d dead e =
      let args = complete_args c k.token (run_scenario scenario receipt) in
      let (u, done, _) =
        claim_then_complete R (claim_args c) free k.claimed_at s t receipt args k.moment d dead refl
          e in
      let v = settled_by args k.moment receipt.attempts in
      let counts =
        count_state (verdict_result v) _ c.max_iterations
          (record w { claimed = w.claimed + 1; iterations = w.iterations + 1 })
          (verdict_result_accepts v) (settles scenario c k receipt) in
      rw (done, finish)
        (counts.0, counts.1, counts.2, (verdict_result v, refl, settles scenario c k receipt))
