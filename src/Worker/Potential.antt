-- ===== src/Worker/Potential.antt =====
-- lease.ts and durable-worker.ts: how often a receipt can still be worked on.
use hrp_crm.Base.{
  ℕ, suc, ◌+◌, ◌-◌, ◌≤◌, ◌<◌, ◌≡◌, ◌≢◌, refl, sym, subst, inl, inr, true, ◌||◌, if◌then◌else◌, some,
  List, [], ◌∷◌, Text, text_eq_iff, In, All, Distinct, update_where, arith, Bool-cases, Forall₂,
  sum_by, leb, All-In, In-map, text_eq_refl,
}
use hrp_crm.Store.{Receipt, StoreError}
use hrp_crm.Store.Retry.{RetryPolicy, decide_retry_state}
use hrp_crm.Store.Lease.{
  is_claimable, is_leased, by_receipt_id, claim_data, extend_data, release_data, deliver_data,
  schedule_data, bury_data, retry_verdict, verdict_data, verdict, WorkOutcome, success, retry, fail,
  Moment,
}
use hrp_crm.Store.Lease.Moves.{Move, stay, claim, extend, release, deliver, schedule, bury, ids}

-- A receipt that is neither claimable nor leased is done with. Another can be claimed once for each
-- attempt that is left of `most`, and once more.
abbrev pub potential : ℕ → Receipt → ℕ
potential most r = if is_claimable r.state || is_leased r.state then suc (most - r.attempts) else 0

pub potential-Move :
    (fresh : Text → Type 0) (most : ℕ) (x y : Receipt)
    → Move fresh most x y
    → potential most y ≤ potential most x
unfolding claim_data extend_data release_data deliver_data schedule_data bury_data
potential-Move fresh most _ _ (stay r) = omega arith
potential-Move fresh most _ _ (claim r w t n d c _) = ground arith
potential-Move fresh most _ _ (extend r n d l) = ground arith
potential-Move fresh most _ _ (release r f l) = ground arith
potential-Move fresh most _ _ (deliver r n _) = omega arith
potential-Move fresh most _ _ (schedule r n e l few) = ground arith
potential-Move fresh most _ _ (bury r n e _) = omega arith

pub sum_by-Forall₂ :
    (f : Receipt → ℕ) (R : Receipt → Receipt → Type 0) (xs ys : List Receipt)
    → ((x y : Receipt) → R x y → f y ≤ f x)
    → Forall₂ R xs ys
    → sum_by f ys ≤ sum_by f xs
sum_by-Forall₂ f R [] [] le h = omega arith
sum_by-Forall₂ f R (x ∷ xs) (y ∷ ys) le h =
    omega (arith, le x y h.0, sum_by-Forall₂ f R xs ys le h.1)
sum_by-Forall₂ f R [] (y ∷ ys) le h = absurd h
sum_by-Forall₂ f R (x ∷ xs) [] le h = absurd h

sum_by-untouched :
    (f : Receipt → ℕ) (id : Text) (g : Receipt → Receipt) (rs : List Receipt)
    → All (λ y. id ≢ y) (ids rs)
    → sum_by f (update_where (by_receipt_id id) g rs) ≡ sum_by f rs
sum_by-untouched f id g [] h = refl
sum_by-untouched f id g (r ∷ rs) h = elim (Bool-cases (by_receipt_id id r)) [
  | inl e ↦ absurd (h.0 (sym ((text_eq_iff r.receipt_id id).0 e)))
  | inr e ↦ rw e (omega (arith, sum_by-untouched f id g rs h.1))
]

-- An update of one row by its id moves the total by what it moves of that row.
pub sum_by-updated :
    (f : Receipt → ℕ) (row : Receipt) (g : Receipt → Receipt) (rs : List Receipt)
    → Distinct (ids rs)
    → In row rs
    → sum_by f (update_where (by_receipt_id row.receipt_id) g rs) + f row ≡ sum_by f rs + f (g row)
sum_by-updated f row g [] d m = absurd m
sum_by-updated f row g (r ∷ rs) d (inl same) =
    rw (← same, text_eq_refl row.receipt_id)
      (omega (
        arith,
        sum_by-untouched f row.receipt_id g rs
            (subst (λ q. All (λ y. q.receipt_id ≢ y) (ids rs)) (sym same) d.0),
      ))
sum_by-updated f row g (r ∷ rs) d (inr m) = elim (Bool-cases (by_receipt_id row.receipt_id r)) [
  | inl e ↦ absurd (
      All-In (λ y. r.receipt_id ≢ y) (ids rs) d.0 (In-map (λ x. x.receipt_id) row rs m)
        ((text_eq_iff r.receipt_id row.receipt_id).0 e))
  | inr e ↦ rw e (omega (arith, sum_by-updated f row g rs d.1 m))
]

-- A claim and the verdict on it use up some of a receipt's potential.
pub potential-verdict :
    (most : ℕ) (policy : RetryPolicy) (outcome : WorkOutcome) (err err' : StoreError) (m : Moment)
    (now : ℕ) (worker token : Text) (claimed_at duration : ℕ) (r : Receipt)
    → policy.max_attempts ≤ most
    → is_claimable r.state ≡ true
    → let c = claim_data worker token claimed_at duration r in
      potential most (verdict_data (verdict outcome (some policy) c.attempts err m) now err' c)
      < potential most r
unfolding claim_data verdict retry_verdict decide_retry_state deliver_data schedule_data bury_data
potential-verdict most policy success err err' m now w t at d r few open_ = rw open_ (omega arith)
potential-verdict most policy fail err err' m now w t at d r few open_ = rw open_ (omega arith)
potential-verdict most policy retry err err' m now w t at d r few open_ =
    elim (Bool-cases (leb policy.max_attempts (r.attempts + 1))) [
      | inl e ↦ ground arith
      | inr e ↦ ground arith
    ]
