-- ===== src/Worker/Rounds.antt =====
-- durable-worker.ts: one round of the loop.
use hrp_crm.Base.{
  ℕ, ◌+◌, ◌≤◌, ◌<◌, ◌≡◌, refl, sym, ◌∙◌, subst, inl, inr, Bool, Option, none, some, Text, All,
  Distinct, arith,
}
use hrp_crm.Store.Table.{Table}
use hrp_crm.Store.{Receipt, Intent, StoreError, ok}
use hrp_crm.Store.Retry.{default_retry_policy}
use hrp_crm.Store.Lease.{ClaimedReceipt, Moment, CompleteReceiptArgs, CompleteReceiptResult}
use hrp_crm.Store.Lease.Ops.{claim_next_receipt, complete_receipt, reclaim_expired_leases}
use hrp_crm.Store.Lease.Results.{claim_next_receipt-ClaimNext, complete_receipt-Completes}
use hrp_crm.Store.Lease.Moves.{Reach, here, next, claims, completes, reclaims, ids}
use hrp_crm.Store.Lease.Invariant.{ids-Reach}
use hrp_crm.Store.Lease.Fencing.{IsDead}
use hrp_crm.Store.Dispatch.{reclaim_expired_intents}
use hrp_crm.Worker.{
  Work, executed, pipeline_done, gateway_error, gateway_thrown, WorkerConfig, WorkerState, Tick,
  claim_args, complete_args, own_args, count_result, stop_at, own_completion, finish, work_on,
  poll_once, Both,
}
use hrp_crm.Worker.Polls.{total, Reach-total, completed_total}

module _ (R : Table Receipt) (I : Table Intent) (execute : ClaimedReceipt → Work) (c : WorkerConfig)
    (fresh : Text → Type 0) (most : ℕ) where
  abbrev pub Allowed : Type 0
  Allowed = (c.retry_policy.max_attempts ≤ most) × (default_retry_policy.max_attempts ≤ most)

  completes_ok :
      (args : CompleteReceiptArgs) (m : Moment) (s : R.State)
      → (r : CompleteReceiptResult) × (u : R.State) × complete_receipt R args m s ≡ ok (r, u)
  completes_ok args m s = elim (complete_receipt-Completes R args m s) [
    | inl (_, rejected) ↦ (_, s, rejected)
    | inr (row, u, settled, done) ↦ (_, u, done)
  ]

  stop_at-claimed : (n : Option ℕ) (w : WorkerState) → (stop_at n w).claimed ≡ w.claimed
  unfolding stop_at
  stop_at-claimed none w = refl
  stop_at-claimed (some n) w = ground arith

  count_result-claimed :
      (r : CompleteReceiptResult) (w : WorkerState) → (count_result r w).claimed ≡ w.claimed
  unfolding count_result
  count_result-claimed r w = ground arith

  -- The rounds' completion changes no count of claims, and leaves the table as `complete_receipt` does.
  finish_ok :
      (k : Tick) (work : Work) (w : WorkerState) (s u : R.State) (r : CompleteReceiptResult)
      → complete_receipt R (complete_args c k.token work) k.moment s ≡ ok (r, u)
      → ((finish R I execute c k work w s).0.claimed ≡ w.claimed)
        × ((finish R I execute c k work w s).1 ≡ u)
  unfolding finish
  finish_ok k work w s u r e =
      rw (e, finish)
        (stop_at-claimed c.max_iterations (count_result r w) ∙ count_result-claimed r w, refl)

  own_ok :
      (k : Tick) (own : StoreError) (message : Text) (retryable : Bool) (s u : R.State)
      (r : CompleteReceiptResult)
      → complete_receipt R (own_args c k.token own retryable) k.own_moment s ≡ ok (r, u)
      → own_completion R I execute c k (gateway_error own message retryable) s ≡ u
  unfolding own_completion
  own_ok k own message retryable s u r e = rw (e, own_completion) refl

  own_completion-Reach :
      (k : Tick) (work : Work) (s : R.State)
      → Allowed
      → Reach R fresh most s (own_completion R I execute c k work s)
  unfolding own_completion
  own_completion-Reach k (executed o) s allowed = here
  own_completion-Reach k (pipeline_done message) s allowed = here
  own_completion-Reach k (gateway_thrown message) s allowed = here
  own_completion-Reach k (gateway_error own message retryable) s allowed =
      let (r, u, e) = completes_ok (own_args c k.token own retryable) k.own_moment s in
      subst (Reach R fresh most s) (sym (own_ok k own message retryable s u r e))
        (next here (completes (own_args c k.token own retryable) k.own_moment r allowed.1 e))

  finish-Reach :
      (k : Tick) (work : Work) (w : WorkerState) (s : R.State)
      → Allowed
      → Reach R fresh most s (finish R I execute c k work w s).1
  finish-Reach k work w s allowed =
      let (r, u, e) = completes_ok (complete_args c k.token work) k.moment s in
      subst (Reach R fresh most s) (sym (finish_ok k work w s u r e).1)
        (next here (completes (complete_args c k.token work) k.moment r allowed.0 e))

  finish-claimed :
      (k : Tick) (work : Work) (w : WorkerState) (s : R.State)
      → (finish R I execute c k work w s).0.claimed ≡ w.claimed
  finish-claimed k work w s =
      let (r, u, e) = completes_ok (complete_args c k.token work) k.moment s in
      (finish_ok k work w s u r e).0

  Reach-trans :
      {s t u : R.State} → Reach R fresh most s t → Reach R fresh most t u → Reach R fresh most s u
  Reach-trans path here = path
  Reach-trans path (next more step) = next (Reach-trans path more) step

  pub rounds_kept :
      {s t : R.State}
      → Distinct (ids (R.rows s))
      → Reach R fresh most s t
      → Distinct (ids (R.rows t))
  rounds_kept d path = subst Distinct (ids-Reach R fresh most d path) d

  -- The completion of a receipt that has just been claimed, by the pipeline or by the worker.
  work_on-total :
      (k : Tick) (free : Text → Bool) (receipt : ClaimedReceipt) (w : WorkerState) (s t : R.State)
      → Allowed
      → Distinct (ids (R.rows s))
      → All (IsDead k.token) (R.rows s)
      → fresh k.token
      → claim_next_receipt R (claim_args c) free k.claimed_at k.token s ≡ ok (some receipt, t)
      → let (w', u) = work_on R I execute c k receipt w t in
        (w'.claimed ≡ w.claimed + 1) × (total R most u < total R most s) × Reach R fresh most t u
  unfolding work_on own_completion
  work_on-total k free receipt w s t allowed d dead new e = by_work (execute receipt)
    where
      dt : Distinct (ids (R.rows t))
      dt =
          rounds_kept d
            (next here (claims (claim_args c) free k.claimed_at k.token (some receipt) new e))

      w₁ : WorkerState
      w₁ = record w { claimed = w.claimed + 1; iterations = w.iterations + 1 }

      worker_total :
          (work : Work) → total R most (finish R I execute c k work w₁ t).1 < total R most s
      worker_total work =
          let (r, u, done, less) =
            completed_total R most (claim_args c) free k.claimed_at s t receipt
              (complete_args c k.token work) c.retry_policy k.moment d dead refl refl allowed.0 e in
          subst (λ x. total R most x < total R most s) (sym (finish_ok k work w₁ t u r done).1) less

      by_work :
          (work : Work)
          → let p = finish R I execute c k work w₁ (own_completion R I execute c k work t) in
            (p.0.claimed ≡ w.claimed + 1)
            × (total R most p.1 < total R most s)
            × Reach R fresh most t p.1
      by_work (executed o) = (
        finish-claimed k (executed o) w₁ t,
        worker_total (executed o),
        finish-Reach k (executed o) w₁ t allowed,
      )
      by_work (pipeline_done message) = (
        finish-claimed k (pipeline_done message) w₁ t,
        worker_total (pipeline_done message),
        finish-Reach k (pipeline_done message) w₁ t allowed,
      )
      by_work (gateway_thrown message) = (
        finish-claimed k (gateway_thrown message) w₁ t,
        worker_total (gateway_thrown message),
        finish-Reach k (gateway_thrown message) w₁ t allowed,
      )
      by_work (gateway_error own message retryable) =
          let work = gateway_error own message retryable in
          let own_path = own_completion-Reach k work t allowed in
          let path = finish-Reach k work w₁ (own_completion R I execute c k work t) allowed in
          let (r, u, done, less) =
            completed_total R most (claim_args c) free k.claimed_at s t receipt
              (own_args c k.token own retryable) default_retry_policy k.own_moment d dead refl refl
              allowed.1 e in
          let less' : total R most (own_completion R I execute c k work t) < total R most s =
            subst (λ x. total R most x < total R most s)
              (sym (own_ok k own message retryable t u r done)) less in
          (
            finish-claimed k work w₁ (own_completion R I execute c k work t),
            omega (arith, less', Reach-total R most fresh (rounds_kept dt own_path) path),
            Reach-trans own_path path,
          )

  abbrev pub Counts : R.State → WorkerState → WorkerState × Both R I execute → Type 0
  Counts s w p =
      (p.0.claimed + total R most p.1.0 ≤ w.claimed + total R most s) × Reach R fresh most s p.1.0

  -- One round: whatever it does, what it claims it takes from the total.
  pub poll_once-Counts :
      (k : Tick) (w : WorkerState) (s : R.State) (i : I.State)
      → Allowed
      → Distinct (ids (R.rows s))
      → All (IsDead k.token) (R.rows (reclaim_expired_leases R k.swept_at s).1)
      → fresh k.token
      → Counts s w (poll_once R I execute c k (w, (s, i)))
  unfolding poll_once
  poll_once-Counts k w s i allowed d dead new =
      elim (claim_next_receipt-ClaimNext R (claim_args c) k.locked k.claimed_at k.token s₁) [
        | inl (nothing, _) ↦
            rw (nothing, poll_once) (omega (arith, Reach-total R most fresh d swept), swept)
        | inr (row, t, taken, took) ↦
            let (counted, less, path) =
              work_on-total k k.locked _ w₁ s₁ t allowed (rounds_kept d swept) dead new took in
            let claiming : Reach R fresh most s₁ t =
              next here (claims (claim_args c) k.locked k.claimed_at k.token _ new took) in
            rw (took, poll_once)
              (
                omega (arith, counted, less, Reach-total R most fresh d swept),
                Reach-trans swept (Reach-trans claiming path),
              )
      ]
    where
      s₁ : R.State
      s₁ = (reclaim_expired_leases R k.swept_at s).1

      swept : Reach R fresh most s s₁
      swept = next here (reclaims k.swept_at refl)

      swept_count : ℕ
      swept_count =
          (reclaim_expired_leases R k.swept_at s).0 + (reclaim_expired_intents I k.swept_at i).0

      w₁ : WorkerState
      w₁ = record w { reclaimed = w.reclaimed + swept_count }
