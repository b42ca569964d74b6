-- ===== src/Store/Lease/Fencing.antt =====
-- lease.ts: leases are exclusive, and a worker whose lease is gone changes nothing.
use mathlib.Core.Option.{get_or}
use hrp_crm.Base.{
  ℕ, ◌+◌, ◌≡◌, refl, sym, ◌∙◌, ap, ◌⊎◌, inl, inr, ◌≢◌, Bool, true, false, Option, none, some, List,
  [], ◌∷◌, Text, In, All, All-In, Distinct, update_where, update_where-none, count-none, arith,
  subst, In-of_map, In-map, Bool-cases, text_eq_iff, text_eq_refl, if◌then◌else◌,
}
use hrp_crm.Store.Table.{Table}
use hrp_crm.Store.{Receipt, ok, ok-injective}
use hrp_crm.Store.Lease.{
  ClaimArgs, ClaimedReceipt, is_available, is_leased, column_is, claim_data, extend_data,
  release_data, deliver_data, schedule_data, bury_data, holds_lease, is_expired, by_receipt_id,
  CompleteReceiptArgs, Moment, claimed_receipt,
}
use hrp_crm.Store.Lease.Ops.{
  claim_next_receipt, extend_lease, release_lease, complete_receipt, reclaim_expired_leases,
  fenced_rejection,
}
use hrp_crm.Store.Lease.Results.{
  claim_next_receipt-ClaimNext, complete_receipt-Completes, Takes, limit,
}
use hrp_crm.Store.Lease.Moves.{
  Move, stay, claim, extend, release, deliver, schedule, bury, Reach, here, next, reclaims, ids,
}
use hrp_crm.Store.Lease.Invariant.{WellLeased, Reach-All, ids-Reach}

-- No receipt carries the token.
abbrev pub IsDead : Text → Receipt → Type 0
IsDead token r = column_is r.fencing_token token ≡ false

pub IsDead-Move :
    (token : Text) (most : ℕ) (x y : Receipt)
    → Move (λ u. u ≢ token) most x y
    → IsDead token x
    → IsDead token y
unfolding claim_data extend_data release_data deliver_data schedule_data bury_data
IsDead-Move token most _ _ (stay r) h = h
IsDead-Move token most _ _ (claim r w t n d _ other) h = ground (arith, text_eq_iff t token)
IsDead-Move token most _ _ (extend r n d _) h = h
IsDead-Move token most _ _ (release r f _) h = refl
IsDead-Move token most _ _ (deliver r n _) h = refl
IsDead-Move token most _ _ (schedule r n e _ _) h = refl
IsDead-Move token most _ _ (bury r n e _) h = refl

not-holds_lease :
    (token owner : Text) (rows : List Receipt)
    → All (IsDead token) rows
    → All (λ r. holds_lease token owner r ≡ false) rows
unfolding holds_lease
not-holds_lease token owner [] h = tt
not-holds_lease token owner (r ∷ rs) h = (ground arith, not-holds_lease token owner rs h.1)

-- A released row carries no token, and the sweep releases every expired one.
reclaimed-IsDead :
    (token : Text) (now : ℕ) (rows : List Receipt)
    → All (λ r. column_is r.fencing_token token ≡ true → is_expired now r ≡ true) rows
    → All (IsDead token) (update_where (is_expired now) (release_data none) rows)
unfolding release_data
reclaimed-IsDead token now [] h = tt
reclaimed-IsDead token now (r ∷ rs) h = (
  here (Bool-cases (is_expired now r)) (Bool-cases (column_is r.fencing_token token)),
  reclaimed-IsDead token now rs h.1,
)
  where
    here :
        ((is_expired now r ≡ true) ⊎ (is_expired now r ≡ false))
        → ((column_is r.fencing_token token ≡ true) ⊎ (column_is r.fencing_token token ≡ false))
        → IsDead token (if is_expired now r then release_data none r else r)
    here (inl e) _ = rw e refl
    here (inr e) (inr f) = rw e f
    here (inr e) (inl f) = cc (h.0 f)

module _ (T : Table Receipt) where
  pub complete_rejected :
      (args : CompleteReceiptArgs) (m : Moment) (s : T.State)
      → All (IsDead args.fencing_token) (T.rows s)
      → complete_receipt T args m s ≡ ok (fenced_rejection, s)
  complete_rejected args m s dead = elim (complete_receipt-Completes T args m s) [
    | inl (_, e) ↦ e
    | inr (row, t, settled, _) ↦
        let unheld : holds_lease args.fencing_token args.lease_owner row ≡ false =
          All-In (λ r. holds_lease args.fencing_token args.lease_owner r ≡ false) (T.rows s)
            (not-holds_lease args.fencing_token args.lease_owner (T.rows s) dead) settled.held in
        cc (unheld, settled.owned)
  ]

  -- With a token that no row carries a heartbeat, a release and a completion, by whatever owner,
  -- change nothing and say so.
  pub dead_token_rejected :
      (owner : Text) (duration now : ℕ) (args : CompleteReceiptArgs) (m : Moment) (s : T.State)
      → All (IsDead args.fencing_token) (T.rows s)
      → (complete_receipt T args m s ≡ ok (fenced_rejection, s))
        × ((extend_lease T args.fencing_token owner duration now s).0 ≡ false)
        × (T.rows (extend_lease T args.fencing_token owner duration now s).1 ≡ T.rows s)
        × ((release_lease T args.fencing_token owner s).0 ≡ false)
        × (T.rows (release_lease T args.fencing_token owner s).1 ≡ T.rows s)
  unfolding extend_lease release_lease
  dead_token_rejected owner duration now args m s dead = (
    complete_rejected args m s dead,
    rw (T.count-update_many, count-none _ (T.rows s) none_held) refl,
    T.rows-update_many _ _ s ∙ update_where-none _ _ (T.rows s) none_held,
    rw (T.count-update_many, count-none _ (T.rows s) none_held) refl,
    T.rows-update_many _ _ s ∙ update_where-none _ _ (T.rows s) none_held,
  )
    where
      none_held : All (λ r. holds_lease args.fencing_token owner r ≡ false) (T.rows s)
      none_held = not-holds_lease args.fencing_token owner (T.rows s) dead

  -- Once a sweep has passed over an expired lease, whatever calls follow under other tokens, its
  -- worker's completion is rejected as fenced and leaves the table as it is.
  pub stale_worker_fenced :
      (most now : ℕ) (args : CompleteReceiptArgs) (m : Moment) (s t : T.State)
      → Distinct (ids (T.rows s))
      → All
          (λ r. column_is r.fencing_token args.fencing_token ≡ true → is_expired now r ≡ true)
          (T.rows s)
      → Reach T (λ u. u ≢ args.fencing_token) most (reclaim_expired_leases T now s).1 t
      → complete_receipt T args m t ≡ ok (fenced_rejection, t)
  unfolding reclaim_expired_leases
  stale_worker_fenced most now args m s t d expired path = complete_rejected args m t (
      Reach-All T other most (IsDead args.fencing_token) (IsDead-Move args.fencing_token most)
        (subst Distinct kept d) path swept)
    where
      other : Text → Type 0
      other u = u ≢ args.fencing_token

      kept : ids (T.rows s) ≡ ids (T.rows (reclaim_expired_leases T now s).1)
      kept = ids-Reach T other most d (next here (reclaims now refl))

      swept : All (IsDead args.fencing_token) (T.rows (reclaim_expired_leases T now s).1)
      swept =
          rw (T.rows-update_many (is_expired now) (release_data none) s)
            (reclaimed-IsDead args.fencing_token now (T.rows s) expired)

  -- What a successful claim took, and from where.
  pub claimed :
      (a : ClaimArgs) (free : Text → Bool) (now : ℕ) (token : Text) (s t : T.State)
      (c : ClaimedReceipt)
      → claim_next_receipt T a free now token s ≡ ok (some c, t)
      → (row : Receipt) × Takes T a free now token s row t
        × (c ≡ claimed_receipt row (row.attempts + 1) a.worker_id token now a.lease_duration_ms)
  claimed a free now token s t c e = elim (claim_next_receipt-ClaimNext T a free now token s) [
    | inl (nothing, _) ↦ cc (ok-injective (sym nothing ∙ e))
    | inr (row, u, taken, took) ↦
        let same : ◌≡◌ {A = Option ClaimedReceipt × T.State}
            (
              some (
                  claimed_receipt row (row.attempts + 1) a.worker_id token now a.lease_duration_ms),
              u,
            )
            (some c, t) =
          ok-injective (sym took ∙ e) in
        (row, subst (Takes T a free now token s row) (cc same) taken, cc same)
  ]

  claimed_leased :
      (worker token : Text) (now duration : ℕ) (id : Text) (rows : List Receipt) (r : Receipt)
      → In r (update_where (by_receipt_id id) (claim_data worker token now duration) rows)
      → r.receipt_id ≡ id
      → is_leased r.state ≡ true
  unfolding claim_data
  claimed_leased worker token now duration id rows r m e =
      let (q, _, f) = In-of_map _ rows m in ground (arith, text_eq_iff q.receipt_id id, f)

  -- Two claims in a row never take the same receipt, whoever makes them and whenever.
  pub claims_exclusive :
      (a b : ClaimArgs) (free free' : Text → Bool) (now now' : ℕ) (token token' : Text)
      (s t u : T.State) (c c' : ClaimedReceipt)
      → claim_next_receipt T a free now token s ≡ ok (some c, t)
      → claim_next_receipt T b free' now' token' t ≡ ok (some c', u)
      → c'.receipt_id ≢ c.receipt_id
  unfolding is_available
  claims_exclusive a b free free' now now' token token' s t u c c' first second same =
      let (row, taken, e) = claimed a free now token s t c first in
      let (row', taken', e') = claimed b free' now' token' t u c' second in
      let leased =
        claimed_leased a.worker_id token now a.lease_duration_ms row.receipt_id (T.rows s) row'
          (subst (In row') taken.written taken'.held)
          (sym (ap (λ x. x.receipt_id) e') ∙ same ∙ ap (λ x. x.receipt_id) e) in
      ground (arith, leased, taken'.available)

  released :
      (now : ℕ) (rows : List Receipt) (r : Receipt)
      → In r rows
      → is_expired now r ≡ true
      → In (release_data none r) (update_where (is_expired now) (release_data none) rows)
  released now rows r m e =
      subst (λ q. In q (update_where (is_expired now) (release_data none) rows)) (rw e refl)
        (In-map (λ q. if is_expired now q then release_data none q else q) r rows m)

  released_available :
      (now' : ℕ) (org : Text) (most : ℕ) (r : Receipt) (now : ℕ)
      → is_expired now r ≡ true
      → WellLeased most r
      → (org ≡ []) ⊎ (org ≡ r.organization_id)
      → is_available now' org (λ _. false) (release_data none r) ≡ true
  unfolding is_available release_data is_expired
  released_available now' org most r now e v o =
      ground (arith, v.ready, text_eq_refl r.organization_id)

  -- Work is not lost: when a lease has run out, a sweep and one claim, by any worker, for any
  -- tenant or that of the receipt, take a receipt.
  pub expired_claimed_again :
      (a : ClaimArgs) (most now now' : ℕ) (token : Text) (s : T.State) (r : Receipt)
      → In r (T.rows s)
      → is_expired now r ≡ true
      → WellLeased most r
      → (get_or a.organization_id [] ≡ []) ⊎ (get_or a.organization_id [] ≡ r.organization_id)
      → limit T a (λ _. false) now' token s ≢ 0
      → (c : ClaimedReceipt) × (t : T.State) × (claim_next_receipt T a
            (λ _. false)
            now'
            token
            (reclaim_expired_leases T now s).1
          ≡ ok (some c, t))
  unfolding reclaim_expired_leases
  expired_claimed_again a most now now' token s r m e v o l =
      elim (claim_next_receipt-ClaimNext T a (λ _. false) now' token
        (reclaim_expired_leases T now s).1) [
          | inl (_, inl none_asked) ↦ absurd (l none_asked)
          | inl (_, inr none_free) ↦ cc (All-In _ _ none_free held, free)
          | inr (row, t, _, took) ↦ (_, t, took)
        ]
    where
      held : In (release_data none r) (T.rows (reclaim_expired_leases T now s).1)
      held =
          rw (T.rows-update_many (is_expired now) (release_data none) s)
            (released now (T.rows s) r m e)

      free :
          is_available now' (get_or a.organization_id []) (λ _. false) (release_data none r) ≡ true
      free = released_available now' (get_or a.organization_id []) most r now e v o
