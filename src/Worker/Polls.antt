-- ===== src/Worker/Polls.antt =====
-- lease.ts: a claim and its completion use up some of what is left to be done.
use hrp_crm.Base.{
  ℕ, ◌+◌, ◌≤◌, ◌<◌, ◌≡◌, sym, ap, subst, Bool, some, Text, In, All, Distinct, update_where, arith,
  sum_by,
}
use hrp_crm.Store.Table.{Table}
use hrp_crm.Store.{Receipt, ok}
use hrp_crm.Store.Retry.{RetryPolicy}
use hrp_crm.Store.Lease.{
  ClaimArgs, ClaimedReceipt, by_receipt_id, claim_data, verdict_data, verdict, Moment,
  CompleteReceiptArgs, CompleteReceiptResult, failure,
}
use hrp_crm.Store.Lease.Ops.{claim_next_receipt, complete_receipt}
use hrp_crm.Store.Lease.Moves.{
  Move, Reach, here, next, claims, ids, Step-Moves, available_claimable,
}
use hrp_crm.Store.Lease.Invariant.{ids-Reach}
use hrp_crm.Store.Lease.Fencing.{IsDead, claimed}
use hrp_crm.Store.Lease.Lifecycle.{claim_then_complete, claimed_held, settled_by}
use hrp_crm.Worker.Potential.{
  potential, potential-Move, sum_by-Forall₂, sum_by-updated, potential-verdict,
}

module _ (R : Table Receipt) (most : ℕ) where
  abbrev pub total : R.State → ℕ
  total s = sum_by (potential most) (R.rows s)

  pub Reach-total :
      (fresh : Text → Type 0) {s t : R.State}
      → Distinct (ids (R.rows s))
      → Reach R fresh most s t
      → total t ≤ total s
  Reach-total fresh d here = omega arith
  Reach-total fresh {s} {t} d (next {t = u} path step) =
      let d' = subst Distinct (ids-Reach R fresh most d path) d in
      omega (
        arith,
        Reach-total fresh d path,
        sum_by-Forall₂ (potential most) (Move fresh most) (R.rows u) (R.rows t)
            (potential-Move fresh most) (Step-Moves R fresh most d' step),
      )

  abbrev Anything : Text → Type 0
  Anything _ = Unit {0}

  -- A claim and a completion under its token leave less to be done.
  pub completed_total :
      (a : ClaimArgs) (free : Text → Bool) (now : ℕ) (s t : R.State) (c : ClaimedReceipt)
      (args : CompleteReceiptArgs) (policy : RetryPolicy) (m : Moment)
      → Distinct (ids (R.rows s))
      → All (IsDead args.fencing_token) (R.rows s)
      → args.lease_owner ≡ a.worker_id
      → args.retry_policy ≡ some policy
      → policy.max_attempts ≤ most
      → claim_next_receipt R a free now args.fencing_token s ≡ ok (some c, t)
      → (r : CompleteReceiptResult) × (u : R.State) × (complete_receipt R args m t ≡ ok (r, u))
        × (total u < total s)
  unfolding claim_data
  completed_total a free now s t c args policy m d dead owner with_policy few e =
      let (row, taken, same) = claimed R a free now args.fencing_token s t c e in
      let (u, done, written) = claim_then_complete R a free now s t c args m d dead owner e in
      let new = claim_data a.worker_id args.fencing_token now a.lease_duration_ms row in
      let d' =
        subst Distinct
          (ids-Reach R Anything most d
            (next here (claims a free now args.fencing_token (some c) tt e)))
          d in
      let held : In new (R.rows t) = subst (In new) (sym taken.written) (
        claimed_held row a.worker_id args.fencing_token now a.lease_duration_ms (R.rows s)
          taken.held) in
      let row_open = available_claimable R Anything most now _ free row taken.available in
      let row_open = available_claimable R Anything most now _ free row taken.available in
      let ruled = verdict_data (settled_by args m c.attempts) m.now (failure args) in
      let at_claim : total t + potential most row ≡ total s + potential most new =
        subst (λ rs. sum_by (potential most) rs + potential most row ≡ total s + potential most new)
          (sym taken.written)
          (sum_by-updated (potential most) row
            (claim_data a.worker_id args.fencing_token now a.lease_duration_ms) (R.rows s) d
            taken.held) in
      let written' : R.rows u ≡ update_where (by_receipt_id new.receipt_id) ruled (R.rows t) =
        subst (λ id. R.rows u ≡ update_where (by_receipt_id id) ruled (R.rows t))
          (ap (λ x. x.receipt_id) same) written in
      let at_end : total u + potential most new ≡ total t + potential most (ruled new) =
        subst
          (λ rs.
            sum_by (potential most) rs + potential most new ≡ total t + potential most (ruled new))
          (sym written') (sum_by-updated (potential most) new ruled (R.rows t) d' held) in
      let less : potential most (ruled new) < potential most row =
        subst
          (λ n.
            potential most (verdict_data (settled_by args m n) m.now (failure args) new)
            < potential most row)
          (sym (ap (λ x. x.attempts) same))
          (subst
            (λ p.
              potential most (
                verdict_data (verdict args.outcome p new.attempts (failure args) m) m.now
                  (failure args) new)
              < potential most row)
            (sym with_policy)
            (potential-verdict most policy args.outcome (failure args) (failure args) m m.now
              a.worker_id args.fencing_token now a.lease_duration_ms row few row_open)) in
      (_, u, done, omega arith)
