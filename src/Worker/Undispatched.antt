-- ===== src/Worker/Undispatched.antt =====
-- durable-worker.ts, pipeline-executor.ts: what the worker hands to the pipeline.
use hrp_crm.Base.{ℕ, ◌+◌, ◌≡◌, refl, Bool, Option, none, some, arith, List, [], Text, All, Distinct}
use hrp_crm.Store.Table.{Table}
use hrp_crm.Store.{Receipt, Intent, ErrorCode, ok}
use hrp_crm.Store.Lease.{ClaimedReceipt, verdict, verdict_result, delivers}
use hrp_crm.Store.Lease.Ops.{claim_next_receipt, complete_receipt}
use hrp_crm.Store.Lease.Moves.{ids}
use hrp_crm.Store.Lease.Fencing.{IsDead}
use hrp_crm.Store.Lease.Lifecycle.{claim_then_complete}
use hrp_crm.Worker.{
  Work, WorkerConfig, WorkerState, Tick, claim_args, complete_args, work_on, work_outcome,
  own_completion, finish, count_result, stop_at,
}
use hrp_crm.Worker.Firewall.{InboundEvent, Classification}
use hrp_crm.Worker.Mapping.{MappingResult}
use hrp_crm.Worker.Pipeline.{
  GatewayRequest, GatewayAnswer, PipelineOutcome, pipeline_work, pipeline_input, execute_pipeline,
}

stopped-completed : (n : Option ℕ) (w : WorkerState) → (stop_at n w).completed ≡ w.completed
unfolding stop_at
stopped-completed none w = refl
stopped-completed (some n) w = ground arith

module _ {Body : Type 0} (normalize : Body → Option InboundEvent)
    (resolve : InboundEvent → Classification → MappingResult)
    (current_revision : (organization_id conversation_id : Text) → Option ℕ)
    (gateway : GatewayRequest → GatewayAnswer) (count : ℕ) (cast : Text → ErrorCode)
    (R : Table Receipt) (I : Table Intent) where
  abbrev pub run_receipt : ClaimedReceipt → PipelineOutcome × List GatewayRequest
  run_receipt receipt =
      execute_pipeline normalize resolve current_revision gateway count
        (pipeline_input Body receipt)

  -- The worker hands the pipeline no event. So in pipeline mode each receipt that it claims is delivered
  -- and counted as completed, and the gateway is never called, whatever it would answer.
  pub never_dispatched :
      (c : WorkerConfig) (k : Tick) (free : Text → Bool) (receipt : ClaimedReceipt)
      (w : WorkerState) (s t : R.State)
      → Distinct (ids (R.rows s))
      → All (IsDead k.token) (R.rows s)
      → claim_next_receipt R (claim_args c) free k.claimed_at k.token s ≡ ok (some receipt, t)
      → let work : ClaimedReceipt → Work = λ r. pipeline_work cast (run_receipt r).0 in
        let (w', u) = work_on R I work c k receipt w t in
        ((run_receipt receipt).1 ≡ [])
        × (w'.completed ≡ w.completed + 1)
        × (complete_receipt R (complete_args c k.token (work receipt)) k.moment t
            ≡ ok (verdict_result delivers, u))
  unfolding execute_pipeline work_on own_completion work_outcome verdict count_result
  never_dispatched c k free receipt w s t d dead e =
      let args = complete_args c k.token (pipeline_work cast (run_receipt receipt).0) in
      let (u, done, _) =
        claim_then_complete R (claim_args c) free k.claimed_at s t receipt args k.moment d dead refl
          e in
      let w₁ : WorkerState = record w {
        claimed = w.claimed + 1;
        iterations = w.iterations + 1;
        completed = w.completed + 1;
      } in
      rw (done, finish) (refl, stopped-completed c.max_iterations w₁, refl)
