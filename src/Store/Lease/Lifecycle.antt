-- ===== src/Store/Lease/Lifecycle.antt =====
-- lease.ts: one receipt from its claim to its completion, and a completion whose two statements
-- other calls come between.
use hrp_crm.Base.{
  ℕ, ◌+◌, ◌≡◌, refl, sym, ap, ◌∙◌, ◌⊎◌, inl, inr, Bool, true, false, none, some, List, [], ◌∷◌,
  Text, In, All, All-In, Distinct, Distinct-inj, update_where, arith, subst, In-of_map, In-map,
  text_eq_iff, text_eq_refl, if◌then◌else◌, Bool-cases,
}
use hrp_crm.Store.Table.{Table}
use hrp_crm.Store.{Receipt, StoreError, ok}
use hrp_crm.Store.Lease.{
  ClaimArgs, ClaimedReceipt, is_leased, column_is, claim_data, holds_lease, by_receipt_id,
  CompleteReceiptArgs, CompleteReceiptResult, Moment, claimed_receipt, verdict, Verdict, delivers,
  schedules, buries, verdict_data, verdict_result, failure, deliver_data, schedule_data, bury_data,
}
use hrp_crm.Store.Lease.Ops.{claim_next_receipt, complete_receipt, complete_write}
use hrp_crm.Store.Lease.Results.{complete_receipt-Completes, complete_write_lem, ruling}
use hrp_crm.Store.Lease.Moves.{ids}
use hrp_crm.Store.Lease.Fencing.{IsDead, claimed}

abbrev pub settled_by : CompleteReceiptArgs → Moment → ℕ → Verdict
settled_by args m n = verdict args.outcome args.retry_policy n (failure args) m

pub claimed_held :
    (row : Receipt) (worker token : Text) (now duration : ℕ) (rows : List Receipt)
    → In row rows
    → In
        (claim_data worker token now duration row)
        (update_where (by_receipt_id row.receipt_id) (claim_data worker token now duration) rows)
claimed_held row worker token now duration rows m =
    subst
      (λ q.
        In q
          (update_where (by_receipt_id row.receipt_id) (claim_data worker token now duration) rows))
      (rw (text_eq_refl row.receipt_id) refl)
      (In-map
        (λ q. if by_receipt_id row.receipt_id q then claim_data worker token now duration q else q)
        row rows m)

claimed_holds :
    (row : Receipt) (worker token owner : Text) (now duration : ℕ)
    → owner ≡ worker
    → holds_lease token owner (claim_data worker token now duration row) ≡ true
unfolding holds_lease claim_data
claimed_holds row worker token owner now duration e =
    rw (e, text_eq_refl token, text_eq_refl worker) refl

claimed_fields :
    (row row' : Receipt) (c : ClaimedReceipt) (worker token : Text) (now duration : ℕ)
    → row' ≡ claim_data worker token now duration row
    → c ≡ claimed_receipt row (row.attempts + 1) worker token now duration
    → (row'.attempts ≡ c.attempts) × (row'.receipt_id ≡ c.receipt_id)
unfolding claim_data
claimed_fields row row' c worker token now duration e f = (
  ap (λ x. x.attempts) e ∙ sym (ap (λ x. x.attempts) f),
  ap (λ x. x.receipt_id) e ∙ sym (ap (λ x. x.receipt_id) f),
)

pub verdict_result_accepts : (v : Verdict) → (verdict_result v).fenced_rejected ≡ false
verdict_result_accepts delivers = refl
verdict_result_accepts (schedules n) = refl
verdict_result_accepts buries = refl

abbrev pub Ended : Receipt → Type 0
Ended q = (q.fencing_token ≡ none) × (is_leased q.state ≡ false)

pub verdict_data-Ended :
    (v : Verdict) (now : ℕ) (err : StoreError) (r : Receipt) → Ended (verdict_data v now err r)
unfolding deliver_data schedule_data bury_data
verdict_data-Ended delivers now err r = (refl, refl)
verdict_data-Ended (schedules n) now err r = (refl, refl)
verdict_data-Ended buries now err r = (refl, refl)

ended :
    (id : Text) (v : Verdict) (now : ℕ) (err : StoreError) (rows : List Receipt)
    → All
        (λ q. q.receipt_id ≡ id → Ended q)
        (update_where (by_receipt_id id) (verdict_data v now err) rows)
ended id v now err [] = tt
ended id v now err (r ∷ rs) = (here (Bool-cases (by_receipt_id id r)), ended id v now err rs)
  where
    here :
        ((by_receipt_id id r ≡ true) ⊎ (by_receipt_id id r ≡ false))
        → (if by_receipt_id id r then verdict_data v now err r else r).receipt_id ≡ id
        → Ended (if by_receipt_id id r then verdict_data v now err r else r)
    here (inl e) = rw e (λ _. verdict_data-Ended v now err r)
    here (inr e) = rw e (λ same. absurd (ground (arith, text_eq_iff r.receipt_id id)))

module _ (T : Table Receipt) where
  -- Among the rows after a claim only the claimed one carries the new token.
  carries_token :
      (row r : Receipt) (worker token owner : Text) (now duration : ℕ) (rows : List Receipt)
      → Distinct (ids rows)
      → All (IsDead token) rows
      → In row rows
      → In r
          (update_where (by_receipt_id row.receipt_id) (claim_data worker token now duration) rows)
      → holds_lease token owner r ≡ true
      → r ≡ claim_data worker token now duration row
  unfolding holds_lease
  carries_token row r worker token owner now duration rows d dead held m carries =
      let (q, n, e) = In-of_map _ rows m in here q n e (Bool-cases (by_receipt_id row.receipt_id q))
    where
      here :
          (q : Receipt)
          → In q rows
          → r
            ≡ (if by_receipt_id row.receipt_id q then claim_data worker token now duration q else q)
          → ((by_receipt_id row.receipt_id q ≡ true) ⊎ (by_receipt_id row.receipt_id q ≡ false))
          → r ≡ claim_data worker token now duration row
      here q n e (inl same) =
          let one : q ≡ row =
            Distinct-inj (λ x. x.receipt_id) rows q row d n held ((text_eq_iff _ _).0 same) in
          subst (λ x. r ≡ claim_data worker token now duration x) one (rw same at e)
      here q n e (inr other) =
          let unchanged : r ≡ q = rw other at e in
          let lives = subst (λ x. holds_lease token owner x ≡ true) unchanged carries in
          absurd (ground (arith, All-In (IsDead token) rows dead n, lives))

  -- A worker that completes the receipt it has claimed, under a fresh token, is not fenced off: the
  -- verdict is that on the attempts that the claim returned, and one row is written.
  pub claim_then_complete :
      (a : ClaimArgs) (free : Text → Bool) (now : ℕ) (s t : T.State) (c : ClaimedReceipt)
      (args : CompleteReceiptArgs) (m : Moment)
      → Distinct (ids (T.rows s))
      → All (IsDead args.fencing_token) (T.rows s)
      → args.lease_owner ≡ a.worker_id
      → claim_next_receipt T a free now args.fencing_token s ≡ ok (some c, t)
      → (u : T.State) × (complete_receipt T args m t
          ≡ ok (
            verdict_result (verdict args.outcome args.retry_policy c.attempts (failure args) m),
            u,
          ))
        × (T.rows u
            ≡ update_where
                (by_receipt_id c.receipt_id)
                (verdict_data
                  (verdict args.outcome args.retry_policy c.attempts (failure args) m)
                  m.now
                  (failure args))
                (T.rows t))
  claim_then_complete a free now s t c args m d dead owner e =
      let (row, taken, same) = claimed T a free now args.fencing_token s t c e in
      let new = claim_data a.worker_id args.fencing_token now a.lease_duration_ms row in
      let held = subst (In new) (sym taken.written) (
        claimed_held row a.worker_id args.fencing_token now a.lease_duration_ms (T.rows s)
          taken.held) in
      let holds =
        claimed_holds row a.worker_id args.fencing_token args.lease_owner now a.lease_duration_ms
          owner in
      elim (complete_receipt-Completes T args m t) [
        | inl (none_held, _) ↦ cc (All-In _ _ none_held held, holds)
        | inr (row', u, settled, done) ↦
            let one : row' ≡ new =
              carries_token row row' a.worker_id args.fencing_token args.lease_owner now
                a.lease_duration_ms (T.rows s) d dead taken.held
                (subst (In row') taken.written settled.held) settled.owned in
            let (attempts, id) =
              claimed_fields row row' c a.worker_id args.fencing_token now a.lease_duration_ms one
                same in
            (
              u,
              subst
                  (λ n. complete_receipt T args m t ≡ ok (verdict_result (settled_by args m n), u))
                  attempts done,
              subst
                  (λ (k : Text).
                    T.rows u
                    ≡ update_where (by_receipt_id k)
                        (verdict_data (settled_by args m c.attempts) m.now (failure args))
                        (T.rows t))
                  id
                  (subst
                    (λ n.
                      T.rows u
                      ≡ update_where (by_receipt_id row'.receipt_id)
                          (verdict_data (settled_by args m n) m.now (failure args)) (T.rows t))
                    attempts settled.written),
            )
      ]

  -- The write of a completion does not look at the lease: if the row that was read has since been
  -- leased anew, the write ends that lease, and reports no rejection.
  pub unfenced_write :
      (args : CompleteReceiptArgs) (m : Moment) (row current : Receipt) (s : T.State)
      → In current (T.rows s)
      → current.receipt_id ≡ row.receipt_id
      → column_is current.fencing_token args.fencing_token ≡ false
      → (t : T.State) × (result : CompleteReceiptResult) × (complete_write T args m row s
          ≡ ok (result, t))
        × (result.fenced_rejected ≡ false)
        × All
            (λ q.
              q.receipt_id ≡ row.receipt_id
              → (q.fencing_token ≡ none) × (is_leased q.state ≡ false))
            (T.rows t)
  unfenced_write args m row current s held named other =
      let (t, w, e) = complete_write_lem T args m s row current held named in
      (
        t,
        verdict_result (ruling T args m s row),
        e,
        verdict_result_accepts (ruling T args m s row),
        subst (All _) (sym w)
            (ended row.receipt_id (ruling T args m s row) m.now (failure args) (T.rows s)),
      )
