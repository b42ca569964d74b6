-- ===== src/Store/Lease/Results.antt =====
-- lease.ts: what each call on the receipts returns and writes, branch by branch.
use mathlib.Core.Option.{get_or}
use hrp_crm.Base.{
  ℕ, zero, suc, ◌+◌, ◌≤◌, ◌≡◌, refl, ◌⊎◌, inl, inr, Bool, true, false, Option, none, some, [], Text,
  In, All, All-In, update_where, arith, Option-cases, List-cases, Bool-cases, text_eq_iff,
}
use hrp_crm.Store.Table.{Table}
use hrp_crm.Store.{Receipt, Outcome, ok}
use hrp_crm.Store.Lease.{
  ClaimArgs, ClaimedReceipt, is_available, by_receipt_id, claim_data, claimed_receipt, holds_lease,
  CompleteReceiptArgs, CompleteReceiptResult, Moment, failure, Verdict, verdict, verdict_data,
  verdict_result,
}
use hrp_crm.Store.Lease.Ops.{
  ReceiptScope, by_scope, claim_next_receipt, claim_specific_receipt, is_refused, complete_read,
  complete_write, complete_receipt, fenced_rejection,
}

module _ (T : Table Receipt) where
  -- An id that the table holds can be updated.
  update_named :
      (id : Text) (row : Receipt) (f : Receipt → Receipt) (s : T.State)
      → In row (T.rows s)
      → row.receipt_id ≡ id
      → (u : Receipt) × (t : T.State) × (T.update (by_receipt_id id) f s ≡ some (u, t))
        × (T.rows t ≡ update_where (by_receipt_id id) f (T.rows s))
  update_named id row f s held named = elim (Option-cases (T.update (by_receipt_id id) f s)) [
    | inl e ↦
        let gone : by_receipt_id id row ≡ false =
          All-In (λ r. by_receipt_id id r ≡ false) (T.rows s) (T.update-none _ f s e) held in
        absurd (ground (arith, gone, text_eq_iff row.receipt_id id))
    | inr (w, e) ↦ (w.0, w.1, e, (T.update-some _ f s w.0 w.1 e).1)
  ]

  update_held :
      (row : Receipt) (f : Receipt → Receipt) (s : T.State)
      → In row (T.rows s)
      → (u : Receipt) × (t : T.State) × (T.update (by_receipt_id row.receipt_id) f s ≡ some (u, t))
        × (T.rows t ≡ update_where (by_receipt_id row.receipt_id) f (T.rows s))
  update_held row f s held = update_named row.receipt_id row f s held refl

  module _ (args : ClaimArgs) (locked : Text → Bool) (now : ℕ) (token : Text) (s : T.State) where
    abbrev available : Receipt → Bool
    available = is_available now (get_or args.organization_id []) locked

    abbrev pub limit : ℕ
    limit = get_or args.max_per_poll 1

    -- The row that a claim takes: an available one, and none of those was seen earlier.
    pub record Takes (row : Receipt) (t : T.State) : Type 0 where
      pub held : In row (T.rows s)
      pub available : is_available now (get_or args.organization_id []) locked row ≡ true
      pub oldest :
          All
            (λ q.
              is_available now (get_or args.organization_id []) locked q ≡ true
              → row.first_seen_at ≤ q.first_seen_at)
            (T.rows s)
      pub written :
          T.rows t
          ≡ update_where
              (by_receipt_id row.receipt_id)
              (claim_data args.worker_id token now args.lease_duration_ms)
              (T.rows s)

    abbrev pub ClaimNext : Outcome (Option ClaimedReceipt × T.State) → Type 0
    ClaimNext result =
        ((result ≡ ok (none, s))
          × ((limit ≡ 0)
              ⊎ All (λ q. is_available now (get_or args.organization_id []) locked q ≡ false)
                  (T.rows s)))
        ⊎ ((row : Receipt) × (t : T.State) × Takes row t
            × (result
                ≡ ok (
                  some (
                      claimed_receipt row (row.attempts + 1) args.worker_id token now
                        args.lease_duration_ms),
                  t,
                )))

    nothing_found :
        (n : ℕ)
        → T.select_oldest available (λ r. r.first_seen_at) n s ≡ []
        → (n ≡ 0) ⊎ All (λ q. available q ≡ false) (T.rows s)
    nothing_found zero e = inl refl
    nothing_found (suc n) e = inr (T.select_oldest-nil available (λ r. r.first_seen_at) n s e)

    -- `claimNextReceipt` never fails.
    pub claim_next_receipt-ClaimNext : ClaimNext (claim_next_receipt T args locked now token s)
    unfolding claim_next_receipt
    claim_next_receipt-ClaimNext =
        elim (List-cases (T.select_oldest available (λ r. r.first_seen_at) limit s)) [
          | inl e ↦ inl (rw (e, claim_next_receipt) refl, nothing_found limit e)
          | inr (row, rest, e) ↦
              let (held, free, oldest) =
                T.select_oldest-cons available (λ r. r.first_seen_at) limit s row rest e in
              let (u, t, e', w) =
                update_held row (claim_data args.worker_id token now args.lease_duration_ms) s
                  held in
              inr (
                row,
                t,
                record { held = held; available = free; oldest = oldest; written = w },
                rw (e, claim_next_receipt) (rw e' refl),
              )
        ]

  module _ (scope : ReceiptScope) (worker token : Text) (duration now : ℕ) (s : T.State) where
    -- A claim of one receipt takes it if it is claimable and no lease on it runs on.
    pub record TakesScope (row : Receipt) (t : T.State) : Type 0 where
      pub held : In row (T.rows s)
      pub named : by_scope scope row ≡ true
      pub free : is_refused now row ≡ false
      pub written :
          T.rows t
          ≡ update_where
              (by_receipt_id row.receipt_id)
              (claim_data worker token now duration)
              (T.rows s)

    pub claim_specific_receipt_cases :
        (claim_specific_receipt T scope worker duration now token s ≡ ok (none, s))
        ⊎ ((row : Receipt) × (t : T.State) × (c : ClaimedReceipt) × TakesScope row t
            × (claim_specific_receipt T scope worker duration now token s ≡ ok (some c, t)))
    unfolding claim_specific_receipt
    claim_specific_receipt_cases = elim (Option-cases (T.find_first (by_scope scope) s)) [
      | inl e ↦ inl (rw (e, claim_specific_receipt) refl)
      | inr (row, e) ↦ elim (Bool-cases (is_refused now row)) [
        | inl refused ↦ inl (rw (e, claim_specific_receipt) (rw refused refl))
        | inr free ↦
            let (held, named) = T.find_first-some _ s row e in
            let (u, t, e', w) = update_held row (claim_data worker token now duration) s held in
            inr (
              row,
              t,
              claimed_receipt u u.attempts worker token now duration,
              record { held = held; named = named; free = free; written = w },
              rw (e, claim_specific_receipt) (rw (free, e') refl),
            )
      ]
    ]

  module _ (args : CompleteReceiptArgs) (m : Moment) (s : T.State) where
    abbrev pub ruling : Receipt → Verdict
    ruling row = verdict args.outcome args.retry_policy row.attempts (failure args) m

    -- The row that a completion settles.
    pub record Settles (row : Receipt) (t : T.State) : Type 0 where
      pub held : In row (T.rows s)
      pub owned : holds_lease args.fencing_token args.lease_owner row ≡ true
      pub written :
          T.rows t
          ≡ update_where
              (by_receipt_id row.receipt_id)
              (verdict_data
                (verdict args.outcome args.retry_policy row.attempts (failure args) m)
                m.now
                (failure args))
              (T.rows s)

    abbrev pub Completes : Outcome (CompleteReceiptResult × T.State) → Type 0
    Completes result =
        (All (λ r. holds_lease args.fencing_token args.lease_owner r ≡ false) (T.rows s)
          × (result ≡ ok (fenced_rejection, s)))
        ⊎ ((row : Receipt) × (t : T.State) × Settles row t
            × (result ≡ ok (verdict_result (ruling row), t)))

    -- The write, of a row as it was read, on a table that holds a row of that id.
    pub complete_write_lem :
        (row current : Receipt)
        → In current (T.rows s)
        → current.receipt_id ≡ row.receipt_id
        → (t : T.State) × (T.rows t
            ≡ update_where
                (by_receipt_id row.receipt_id)
                (verdict_data (ruling row) m.now (failure args))
                (T.rows s))
          × (complete_write T args m row s ≡ ok (verdict_result (ruling row), t))
    unfolding complete_write
    complete_write_lem row current held named =
        let (u, t, e, w) =
          update_named row.receipt_id current (verdict_data (ruling row) m.now (failure args)) s
            held named in
        (t, w, rw e refl)

    -- `completeReceipt` never fails: it rejects a worker that holds no lease, or settles its row.
    pub complete_receipt-Completes : Completes (complete_receipt T args m s)
    unfolding complete_receipt complete_read
    complete_receipt-Completes =
        elim (Option-cases (T.find_first (holds_lease args.fencing_token args.lease_owner) s)) [
          | inl e ↦ inl (T.find_first-none _ s e, rw (e, complete_receipt) refl)
          | inr (row, e) ↦
              let (held, owned) = T.find_first-some _ s row e in
              let (t, w, e') = complete_write_lem row row held refl in
              inr (
                row,
                t,
                record { held = held; owned = owned; written = w },
                rw (e, complete_receipt) e',
              )
        ]
