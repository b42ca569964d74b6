-- ===== src/Store/Redrive/Outcomes.antt =====
-- event-receipt.ts, `redriveReceipt`: what it comes to, and what the queue does next.
use mathlib.Core.Option.{get_or}
use hrp_crm.Base.{
  ℕ, ◌+◌, ◌≤◌, ◌<◌, ◌≡◌, ◌≢◌, refl, sym, ◌∙◌, ap, subst, ◌⊎◌, inl, inr, true, false, if◌then◌else◌,
  leb, none, some, List, [], ◌∷◌, Text, text_eq_iff, In, In-map, All-In, update_where, arith,
  Bool-cases, Option-cases,
}
use hrp_crm.Store.Table.{Table}
use hrp_crm.Store.{Receipt, ReceiptState, StoreError, Outcome, ok}
use hrp_crm.Store.Retry.Backoff.{decide_retry_state_iff}
use hrp_crm.Store.Retry.{default_retry_policy, decide_retry_state, dead_lettered, is_retryable}
use hrp_crm.Store.Lease.{by_receipt_id, ClaimArgs, ClaimedReceipt, is_available}
use hrp_crm.Store.Lease.Ops.{claim_next_receipt}
use hrp_crm.Store.Lease.Results.{claim_next_receipt-ClaimNext, limit}
use hrp_crm.Store.Redrive.{
  Actor, actor_id, RedriveOptions, RedriveError, invalid_state, max_attempts_exceeded, not_found,
  Redriven, RedriveResult, refused, redriven, is_dead_lettered, redrive_error, redrive_data,
  redrive_count_of, redrive_receipt,
}

module _ (iso : ℕ → Text) (T : Table Receipt) (id : Text) (actor : Actor) (now : ℕ)
    (opts : RedriveOptions) (s : T.State) where
  abbrev pub rewritten : Receipt → Receipt → Receipt
  rewritten r q =
      redrive_data iso actor opts.reason now
        (record q { evidence_refs_json = r.evidence_refs_json })

  -- The dead letter found goes back to the queue; nothing else changes.
  pub record Requeues (r : Receipt) (t : T.State) : Type 0 where
    pub held : In r (T.rows s)
    pub named : r.receipt_id ≡ id
    pub dead : is_dead_lettered r.state ≡ true
    pub below : r.attempts < get_or opts.max_attempts 5
    pub written : T.rows t ≡ update_where (by_receipt_id id) (rewritten r) (T.rows s)

  abbrev pub report : Receipt → Redriven
  report r = record {
    attempts = 0;
    next_attempt_at = now;
    redrive_count = redrive_count_of r.evidence_refs_json + 1;
    redriven_at = now;
    redrive_actor = actor_id actor;
  }

  redrive_error-none :
      (r : Receipt)
      → redrive_error opts r ≡ none
      → (is_dead_lettered r.state ≡ true) × (r.attempts < get_or opts.max_attempts 5)
  unfolding redrive_error
  redrive_error-none r e = (ground arith, ground arith)

  pub redrive_receipt_cases :
      ((e : RedriveError) × (redrive_receipt iso T id actor now opts s ≡ ok (refused e, s)))
      ⊎ ((r : Receipt) × (t : T.State) × Requeues r t
          × (redrive_receipt iso T id actor now opts s ≡ ok (redriven (report r), t)))
  unfolding redrive_receipt
  redrive_receipt_cases = elim (Option-cases (T.find_first (by_receipt_id id) s)) [
    | inl e ↦ inl (not_found, rw (e, redrive_receipt) refl)
    | inr (r, e) ↦ elim (Option-cases (redrive_error opts r)) [
      | inr (x, f) ↦ inl (x, rw (e, redrive_receipt, f) refl)
      | inl f ↦
          let (there, matches) = T.find_first-some _ s r e in
          elim (Option-cases (T.update (by_receipt_id id) (rewritten r) s)) [
            | inl g ↦
                let gone : by_receipt_id id r ≡ false =
                  All-In _ (T.rows s) (T.update-none _ _ s g) there in
                absurd (cc (gone, matches))
            | inr ((u, t), g) ↦
                let (dead, below) = redrive_error-none r f in
                inr (
                  r,
                  t,
                  record {
                    held = there;
                    named = (text_eq_iff r.receipt_id id).0 matches;
                    dead = dead;
                    below = below;
                    written = (T.update-some _ _ s u t g).1;
                  },
                  rw (e, redrive_receipt, f, g) refl,
                )
          ]
    ]
  ]

-- The rows after a redrive.
In-rewritten :
    (iso : ℕ → Text) (T : Table Receipt) (id : Text) (actor : Actor) (now : ℕ)
    (opts : RedriveOptions) (s t : T.State) (r : Receipt)
    → Requeues iso T id actor now opts s r t
    → In (rewritten iso T id actor now opts s r r) (T.rows t)
In-rewritten iso T id actor now opts s t r h = rw h.written (
    here (
      In-map (λ q. if by_receipt_id id q then rewritten iso T id actor now opts s r q else q) r
        (T.rows s) h.held))
  where
    matches : by_receipt_id id r ≡ true
    matches = (text_eq_iff r.receipt_id id).1 h.named

    here :
        In
          (if by_receipt_id id r then rewritten iso T id actor now opts s r r else r)
          (update_where (by_receipt_id id) (rewritten iso T id actor now opts s r) (T.rows s))
        → In
            (rewritten iso T id actor now opts s r r)
            (update_where (by_receipt_id id) (rewritten iso T id actor now opts s r) (T.rows s))
    here m = rw matches at m

redrive_error-pending :
    (opts : RedriveOptions) (q : Receipt)
    → q.state ≡ ReceiptState.pending
    → redrive_error opts q ≡ some (invalid_state ReceiptState.pending)
unfolding redrive_error
redrive_error-pending opts q e = rw e refl

module _ (iso : ℕ → Text) (T : Table Receipt) (id : Text) (actor : Actor) (now : ℕ)
    (opts : RedriveOptions) (s t : T.State) (report : Redriven) where
  requeued :
      redrive_receipt iso T id actor now opts s ≡ ok (redriven report, t)
      → (r : Receipt) × Requeues iso T id actor now opts s r t
  requeued e = elim (redrive_receipt_cases iso T id actor now opts s) [
    | inl (x, f) ↦
        let g : ◌≡◌ {A = Outcome (RedriveResult × T.State)} (ok (refused x, s))
            (ok (redriven report, t)) =
          sym f ∙ e in
        cc
    | inr (r, u, h, f) ↦
        let g : ◌≡◌ {A = Outcome (RedriveResult × T.State)} (ok (redriven _, u))
            (ok (redriven report, t)) =
          sym f ∙ e in
        let same : u ≡ t = cc in (r, subst (Requeues iso T id actor now opts s r) same h)
  ]

  -- After a redrive that succeeds, a claim at the same time or later, by any worker, for all tenants,
  -- with no rows locked and a limit other than 0, returns a receipt.
  pub redriven_claimed :
      (a : ClaimArgs) (now' : ℕ) (token : Text)
      → redrive_receipt iso T id actor now opts s ≡ ok (redriven report, t)
      → now ≤ now'
      → get_or a.organization_id [] ≡ []
      → limit T a (λ _. false) now' token t ≢ 0
      → (c : ClaimedReceipt) × (u : T.State) × (claim_next_receipt T a (λ _. false) now' token t
          ≡ ok (some c, u))
  unfolding redrive_data is_available
  redriven_claimed a now' token e later everyone some_asked =
      let (r, h) = requeued e in
      let held = In-rewritten iso T id actor now opts s t r h in
      let free : is_available now' (get_or a.organization_id []) (λ _. false)
            (rewritten iso T id actor now opts s r r)
          ≡ true =
        rw everyone (ground arith) in
      elim (claim_next_receipt-ClaimNext T a (λ _. false) now' token t) [
        | inl (_, inl none_asked) ↦ absurd (some_asked none_asked)
        | inl (_, inr none_free) ↦ cc (All-In _ _ none_free held, free)
        | inr (row, u, _, took) ↦ (_, u, took)
      ]

  now_pending :
      (r q : Receipt) (rs : List Receipt)
      → In q (update_where (by_receipt_id id) (rewritten iso T id actor now opts s r) rs)
      → by_receipt_id id q ≡ true
      → q.state ≡ ReceiptState.pending
  unfolding redrive_data
  now_pending r q [] m e = absurd m
  now_pending r q (x ∷ xs) (inr m) e = now_pending r q xs m e
  now_pending r q (x ∷ xs) (inl m) e = elim (Bool-cases (by_receipt_id id x)) [
    | inl f ↦ ap (λ z. z.state) (rw f at m)
    | inr f ↦ let same : q ≡ x = rw f at m in absurd (cc (e, f, same))
  ]

  -- A receipt that was redriven is refused if it is redriven again before it is a dead letter anew,
  -- by any actor under any options, with the table as it is.
  pub redriven_once :
      (actor' : Actor) (now' : ℕ) (opts' : RedriveOptions)
      → redrive_receipt iso T id actor now opts s ≡ ok (redriven report, t)
      → redrive_receipt iso T id actor' now' opts' t
        ≡ ok (refused (invalid_state ReceiptState.pending), t)
  unfolding redrive_receipt redrive_data
  redriven_once actor' now' opts' e =
      let (r, h) = requeued e in
      elim (Option-cases (T.find_first (by_receipt_id id) t)) [
        | inl f ↦
            let gone =
              All-In _ (T.rows t) (T.find_first-none _ t f)
                (In-rewritten iso T id actor now opts s t r h) in
            let matches = (text_eq_iff r.receipt_id id).1 h.named in absurd (cc (gone, matches))
        | inr (q, f) ↦
            let (there, matches) = T.find_first-some _ t q f in
            let waits = now_pending r q (T.rows s) (rw h.written at there) matches in
            rw (f, redrive_receipt, redrive_error-pending opts' q waits) refl
      ]

-- A receipt that the default policy gave up on after its last attempt cannot be redriven under the
-- default cap: its attempts are the policy's 8 at least, and the cap is 5.
pub exhausted_not_redriven :
    (iso : ℕ → Text) (T : Table Receipt) (id : Text) (actor : Actor) (now : ℕ)
    (opts : RedriveOptions) (s : T.State) (r : Receipt) (err : StoreError)
    → T.find_first (by_receipt_id id) s ≡ some r
    → is_dead_lettered r.state ≡ true
    → decide_retry_state default_retry_policy r.attempts err ≡ dead_lettered
    → is_retryable err ≡ true
    → opts.max_attempts ≡ none
    → redrive_receipt iso T id actor now opts s
      ≡ ok (refused (max_attempts_exceeded r.attempts 5), s)
unfolding redrive_receipt redrive_error
exhausted_not_redriven iso T id actor now opts s r err found dead gave_up retryable default =
    let many : 8 ≤ r.attempts = elim (Bool-cases (leb 8 r.attempts)) [
      | inl f ↦ ground arith
      | inr f ↦
          let again =
            (decide_retry_state_iff default_retry_policy r.attempts err).1
              (retryable, ground arith) in
          absurd (cc (again, gave_up))
    ] in
    let over : leb 5 r.attempts ≡ true = ground arith in
    rw (found, redrive_receipt, redrive_error, dead, default, over) refl
