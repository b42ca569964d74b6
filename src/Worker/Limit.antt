-- ===== src/Worker/Limit.antt =====
-- durable-worker.ts: the number of claims that a worker can make.
use hrp_crm.Base.{
  ℕ, ◌+◌, ◌≤◌, ◌≢◌, refl, Bool, true, false, if◌then◌else◌, List, [], ◌∷◌, Text, All, Distinct,
  arith, map,
}
use hrp_crm.Store.Table.{Table}
use hrp_crm.Store.{Receipt, Intent}
use hrp_crm.Store.Retry.{default_retry_policy}
use hrp_crm.Store.Lease.{ClaimedReceipt}
use hrp_crm.Store.Lease.Ops.{reclaim_expired_leases}
use hrp_crm.Store.Lease.Moves.{here, next, reclaims, ids}
use hrp_crm.Store.Lease.Invariant.{Reach-All}
use hrp_crm.Store.Lease.Fencing.{IsDead, IsDead-Move}
use hrp_crm.Worker.{Work, WorkerConfig, WorkerState, Tick, poll_once, poll_rounds, Both}
use hrp_crm.Worker.Polls.{total}
use hrp_crm.Worker.Rounds.{Allowed, rounds_kept, Counts, poll_once-Counts}

module _ (R : Table Receipt) (I : Table Intent) (execute : ClaimedReceipt → Work) (c : WorkerConfig)
    (most : ℕ) where
  abbrev pub tokens : List Tick → List Text
  tokens = map λ k. k.token

  abbrev pub Unissued : List Tick → R.State → Type 0
  Unissued ks s = All (λ k. All (IsDead k.token) (R.rows s)) ks

  swept-IsDead :
      (token : Text) (now : ℕ) (s : R.State)
      → Distinct (ids (R.rows s))
      → All (IsDead token) (R.rows s)
      → All (IsDead token) (R.rows (reclaim_expired_leases R now s).1)
  swept-IsDead token now s d dead =
      Reach-All R (λ u. u ≢ token) most (IsDead token) (IsDead-Move token most) d
        (next here (reclaims now refl)) dead

  round-Counts :
      (fresh : Text → Type 0) (k : Tick) (p : WorkerState × Both R I execute)
      → Allowed R I execute c fresh most
      → Distinct (ids (R.rows p.1.0))
      → All (IsDead k.token) (R.rows p.1.0)
      → fresh k.token
      → Counts R I execute c fresh most p.1.0 p.0 (poll_once R I execute c k p)
  round-Counts fresh k (w, (s, i)) allowed d dead new =
      poll_once-Counts R I execute c fresh most k w s i allowed d
        (swept-IsDead k.token k.swept_at s d dead) new

  poll_once-Unissued :
      (k : Tick) (ks : List Tick) (p : WorkerState × Both R I execute)
      → Allowed R I execute c (λ u. Unit {0}) most
      → Distinct (ids (R.rows p.1.0))
      → All (IsDead k.token) (R.rows p.1.0)
      → All (λ y. k.token ≢ y) (tokens ks)
      → Unissued ks p.1.0
      → Unissued ks (poll_once R I execute c k p).1.0
  poll_once-Unissued k [] p allowed d dead others unissued = tt
  poll_once-Unissued k (k' ∷ ks) p allowed d dead others unissued = (
    Reach-All R (λ u. u ≢ k'.token) most (IsDead k'.token) (IsDead-Move k'.token most) d
        (round-Counts (λ u. u ≢ k'.token) k p allowed d dead others.0).1 unissued.0,
    poll_once-Unissued k ks p allowed d dead others.1 unissued.1,
  )

  if-claimed :
      (b : Bool) (x y : WorkerState × Both R I execute) (n : ℕ)
      → x.0.claimed ≤ n
      → y.0.claimed ≤ n
      → (if b then x else y).0.claimed ≤ n
  if-claimed true x y n h h' = h
  if-claimed false x y n h h' = h'

  -- However many rounds are run, a worker claims no more than is left to be done.
  pub poll_rounds-claimed :
      (ks : List Tick) (p : WorkerState × Both R I execute)
      → (c.retry_policy.max_attempts ≤ most) × (default_retry_policy.max_attempts ≤ most)
      → Distinct (ids (R.rows p.1.0))
      → Distinct (tokens ks)
      → Unissued ks p.1.0
      → (poll_rounds R I execute c ks p).0.claimed ≤ p.0.claimed + total R most p.1.0
  unfolding poll_rounds
  poll_rounds-claimed [] p allowed d apart unissued = omega arith
  poll_rounds-claimed (k ∷ ks) p allowed d apart unissued =
      let counts = round-Counts (λ u. Unit {0}) k p allowed d unissued.0 tt in
      let later =
        poll_rounds-claimed ks (poll_once R I execute c k p) allowed
          (rounds_kept R I execute c (λ u. Unit {0}) most d counts.1) apart.1
          (poll_once-Unissued k ks p allowed d unissued.0 apart.0 unissued.1) in
      if-claimed p.0.running _ p _ (omega (arith, later, counts.0)) (omega arith)
