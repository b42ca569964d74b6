-- ===== src/Store/Lease/Moves.antt =====
-- lease.ts as a state machine of one receipt, and its calls as steps of the table.
use hrp_crm.Base.{
  ℕ, ◌≤◌, ◌<◌, ◌≡◌, refl, sym, inl, inr, Bool, true, false, Option, none, some, List, Text, In,
  Distinct, Distinct-inj, update_where, arith, map, Forall₂, Forall₂-refl, Forall₂-update_where,
  subst, text_eq_iff,
}
use hrp_crm.Store.Table.{Table}
use hrp_crm.Store.{Receipt, StoreError, ok, same_state}
use hrp_crm.Store.Retry.{
  RetryPolicy, decide_retry_state, RetryDecision, retry_scheduled, dead_lettered,
}
use hrp_crm.Store.Retry.Backoff.{decide_retry_state_iff}
use hrp_crm.Store.Lease.{
  ClaimArgs, ClaimedReceipt, is_available, by_receipt_id, claim_data, is_claimable, is_leased,
  extend_data, release_data, deliver_data, schedule_data, bury_data, holds_lease, is_expired,
  CompleteReceiptArgs, CompleteReceiptResult, Moment, failure, retry_verdict, verdict, verdict_data,
  WorkOutcome, success, retry, fail,
}
use hrp_crm.Store.Lease.Ops.{
  ReceiptScope, is_refused, is_owned, claim_next_receipt, claim_specific_receipt, extend_lease,
  release_lease, complete_receipt, reclaim_expired_leases, release_all_for_worker,
}
use hrp_crm.Store.Lease.Results.{
  claim_next_receipt-ClaimNext, claim_specific_receipt_cases, complete_receipt-Completes,
}

abbrev pub ids : List Receipt → List Text
ids = map λ r. r.receipt_id

-- What may become of one receipt. `fresh` holds of the tokens that claims issue, and `most` bounds
-- the attempts that the retry policies allow.
pub data Move (fresh : Text → Type 0) (most : ℕ) : Receipt → Receipt → Type 0 where
  stay : (r : Receipt) → Move fresh most r r
  claim :
      (r : Receipt) (worker token : Text) (now duration : ℕ)
      → is_claimable r.state ≡ true
      → fresh token
      → Move fresh most r (claim_data worker token now duration r)
  extend :
      (r : Receipt) (now duration : ℕ)
      → is_leased r.state ≡ true
      → Move fresh most r (extend_data now duration r)
  release :
      (r : Receipt) (fenced_at : Option ℕ)
      → is_leased r.state ≡ true
      → Move fresh most r (release_data fenced_at r)
  deliver :
      (r : Receipt) (now : ℕ) → is_leased r.state ≡ true → Move fresh most r (deliver_data now r)
  schedule :
      (r : Receipt) (next_at : ℕ) (err : StoreError)
      → is_leased r.state ≡ true
      → r.attempts < most
      → Move fresh most r (schedule_data next_at err r)
  bury :
      (r : Receipt) (now : ℕ) (err : StoreError)
      → is_leased r.state ≡ true
      → Move fresh most r (bury_data now err r)

abbrev pub AllowsAtMost : ℕ → Option RetryPolicy → Type 0
AllowsAtMost most none = Unit {0}
AllowsAtMost most (some policy) = policy.max_attempts ≤ most

module _ (T : Table Receipt) (fresh : Text → Type 0) (most : ℕ) where
  -- One call of the module, by any worker, at any time.
  pub data Step (s : T.State) : T.State → Type 0 where
    claims :
        {t : T.State} (args : ClaimArgs) (locked : Text → Bool) (now : ℕ) (token : Text)
        (c : Option ClaimedReceipt)
        → fresh token
        → claim_next_receipt T args locked now token s ≡ ok (c, t)
        → Step s t
    claims_specific :
        {t : T.State} (scope : ReceiptScope) (worker : Text) (duration now : ℕ) (token : Text)
        (c : Option ClaimedReceipt)
        → fresh token
        → claim_specific_receipt T scope worker duration now token s ≡ ok (c, t)
        → Step s t
    extends :
        {t : T.State} (token owner : Text) (duration now : ℕ)
        → t ≡ (extend_lease T token owner duration now s).1
        → Step s t
    releases : {t : T.State} (token owner : Text) → t ≡ (release_lease T token owner s).1 → Step s t
    completes :
        {t : T.State} (args : CompleteReceiptArgs) (m : Moment) (r : CompleteReceiptResult)
        → AllowsAtMost most args.retry_policy
        → complete_receipt T args m s ≡ ok (r, t)
        → Step s t
    reclaims : {t : T.State} (now : ℕ) → t ≡ (reclaim_expired_leases T now s).1 → Step s t
    shuts_down :
        {t : T.State} (worker : Text) (now : ℕ)
        → t ≡ (release_all_for_worker T worker now s).1
        → Step s t

  pub data Reach (s : T.State) : T.State → Type 0 where
    here : Reach s s
    next : {t u : T.State} → Reach s t → Step t u → Reach s u

  abbrev pub Moves : T.State → T.State → Type 0
  Moves s t = Forall₂ (Move fresh most) (T.rows s) (T.rows t)

  -- An update of the rows that pass a test, each by a move.
  Moves-where :
      (p : Receipt → Bool) (f : Receipt → Receipt) (s t : T.State)
      → ((r : Receipt) → In r (T.rows s) → p r ≡ true → Move fresh most r (f r))
      → T.rows t ≡ update_where p f (T.rows s)
      → Moves s t
  Moves-where p f s t move e =
      rw e (Forall₂-update_where (Move fresh most) p f (T.rows s) stay move)

  -- With distinct ids, only the row itself is updated by its id.
  Moves-row :
      (row : Receipt) (f : Receipt → Receipt) (s t : T.State)
      → Distinct (ids (T.rows s))
      → In row (T.rows s)
      → Move fresh most row (f row)
      → T.rows t ≡ update_where (by_receipt_id row.receipt_id) f (T.rows s)
      → Moves s t
  Moves-row row f s t d held move e =
      Moves-where (by_receipt_id row.receipt_id) f s t
        (λ r m same.
          subst (λ q. Move fresh most q (f q))
            (Distinct-inj (λ q. q.receipt_id) (T.rows s) row r d held m
              (sym ((text_eq_iff r.receipt_id row.receipt_id).0 same)))
            move)
        e

  pub available_claimable :
      (now : ℕ) (org : Text) (locked : Text → Bool) (r : Receipt)
      → is_available now org locked r ≡ true
      → is_claimable r.state ≡ true
  unfolding is_available
  available_claimable now org locked r h = ground arith

  not_refused_claimable :
      (now : ℕ) (r : Receipt) → is_refused now r ≡ false → is_claimable r.state ≡ true
  unfolding is_refused
  not_refused_claimable now r h = ground arith

  holds_lease_leased :
      (token owner : Text) (r : Receipt)
      → holds_lease token owner r ≡ true
      → is_leased r.state ≡ true
  unfolding holds_lease
  holds_lease_leased token owner r h = ground arith

  expired_leased : (now : ℕ) (r : Receipt) → is_expired now r ≡ true → is_leased r.state ≡ true
  unfolding is_expired
  expired_leased now r h = ground arith

  owned_leased : (worker : Text) (r : Receipt) → is_owned worker r ≡ true → is_leased r.state ≡ true
  unfolding is_owned
  owned_leased worker r h = ground arith

  stays : (s t : T.State) → t ≡ s → Moves s t
  stays s t e = rw e (Forall₂-refl (Move fresh most) stay (T.rows s))

  retry-Move :
      (policy : RetryPolicy) (err : StoreError) (m : Moment) (row : Receipt) (d : RetryDecision)
      → policy.max_attempts ≤ most
      → is_leased row.state ≡ true
      → decide_retry_state policy row.attempts err ≡ d
      → Move fresh most row (verdict_data (retry_verdict policy row.attempts err m) m.now err row)
  unfolding retry_verdict
  retry-Move policy err m row retry_scheduled allowed leased e =
      let (_, few) = (decide_retry_state_iff policy row.attempts err).0 e in
      rw (e, retry_verdict) (schedule row _ err leased (omega arith))
  retry-Move policy err m row dead_lettered allowed leased e =
      rw (e, retry_verdict) (bury row m.now err leased)

  verdict-Move :
      (outcome : WorkOutcome) (policy : Option RetryPolicy) (err : StoreError) (m : Moment)
      (row : Receipt)
      → AllowsAtMost most policy
      → is_leased row.state ≡ true
      → Move fresh most row (verdict_data (verdict outcome policy row.attempts err m) m.now err row)
  unfolding verdict
  verdict-Move success policy err m row allowed leased = deliver row m.now leased
  verdict-Move retry (some policy) err m row allowed leased =
      retry-Move policy err m row _ allowed leased refl
  verdict-Move retry none err m row allowed leased = bury row m.now err leased
  verdict-Move fail policy err m row allowed leased = bury row m.now err leased

  -- Every call moves each receipt by the state machine.
  pub Step-Moves : {s t : T.State} → Distinct (ids (T.rows s)) → Step s t → Moves s t
  unfolding extend_lease release_lease reclaim_expired_leases release_all_for_worker
  Step-Moves {s} {t} d (claims args locked now token c new e) =
      elim (claim_next_receipt-ClaimNext T args locked now token s) [
        | inl (nothing, _) ↦ stays s t (same_state nothing e)
        | inr (row, u, taken, took) ↦ rw (same_state took e) (
            Moves-row row (claim_data args.worker_id token now args.lease_duration_ms) s u d
              taken.held
              (claim row args.worker_id token now args.lease_duration_ms
                (available_claimable now _ locked row taken.available) new)
              taken.written)
      ]
  Step-Moves {s} {t} d (claims_specific scope worker duration now token c new e) =
      elim (claim_specific_receipt_cases T scope worker token duration now s) [
        | inl nothing ↦ stays s t (same_state nothing e)
        | inr (row, u, c', taken, took) ↦ rw (same_state took e) (
            Moves-row row (claim_data worker token now duration) s u d taken.held
              (claim row worker token now duration (not_refused_claimable now row taken.free) new)
              taken.written)
      ]
  Step-Moves {s} {t} d (extends token owner duration now e) = rw e (
      Moves-where (holds_lease token owner) (extend_data now duration) s _
        (λ r _ h. extend r now duration (holds_lease_leased token owner r h))
        (T.rows-update_many _ _ s))
  Step-Moves {s} {t} d (releases token owner e) = rw e (
      Moves-where (holds_lease token owner) (release_data none) s _
        (λ r _ h. release r none (holds_lease_leased token owner r h)) (T.rows-update_many _ _ s))
  Step-Moves {s} {t} d (completes args m r allowed e) =
      elim (complete_receipt-Completes T args m s) [
        | inl (_, rejected) ↦ stays s t (same_state rejected e)
        | inr (row, u, settled, done) ↦ rw (same_state done e) (
            Moves-row row _ s u d settled.held
              (verdict-Move args.outcome args.retry_policy (failure args) m row allowed
                (holds_lease_leased _ _ row settled.owned))
              settled.written)
      ]
  Step-Moves {s} {t} d (reclaims now e) = rw e (
      Moves-where (is_expired now) (release_data none) s _
        (λ r _ h. release r none (expired_leased now r h)) (T.rows-update_many _ _ s))
  Step-Moves {s} {t} d (shuts_down worker now e) = rw e (
      Moves-where (is_owned worker) (release_data (some now)) s _
        (λ r _ h. release r (some now) (owned_leased worker r h)) (T.rows-update_many _ _ s))
