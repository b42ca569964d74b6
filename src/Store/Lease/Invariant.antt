-- ===== src/Store/Lease/Invariant.antt =====
-- lease.ts: what holds of every receipt after any calls, by any workers, in any order.
use hrp_crm.Base.{
  ℕ, ◌<◌, ◌≡◌, refl, sym, ◌∙◌, Bool, true, false, Option, none, some, Text, In, All, Distinct,
  arith, All-Forall₂, In-Forall₂, map-Forall₂, subst,
}
use hrp_crm.Store.Table.{Table}
use hrp_crm.Store.{Receipt, ReceiptState}
use hrp_crm.Store.Lease.{
  is_leased, claim_data, extend_data, release_data, deliver_data, schedule_data, bury_data,
}
use hrp_crm.Store.Lease.Moves.{
  Move, stay, claim, extend, release, deliver, schedule, bury, Step, Reach, here, next, Step-Moves,
  ids,
}

abbrev pub is_some {ℓ} : {A : Type ℓ} → Option A → Bool
is_some none = false
is_some (some _) = true

-- A receipt is leased exactly while it has an owner, a fencing token and an expiry; it then waits for
-- no time, and it waits for a retry only with attempts left.
pub record WellLeased (most : ℕ) (r : Receipt) : Type 0 where
  pub owned : is_some r.lease_owner ≡ is_leased r.state
  pub fenced : is_some r.fencing_token ≡ is_leased r.state
  pub expires : is_some r.lease_expires_at ≡ is_leased r.state
  pub ready : is_leased r.state ≡ true → r.next_attempt_at ≡ none
  pub bounded : r.state ≡ ReceiptState.retry_scheduled → r.attempts < most

-- The states that the worker leaves alone.
abbrev pub is_settled : ReceiptState → Bool
is_settled ReceiptState.delivered = true
is_settled ReceiptState.dead_lettered = true
is_settled ReceiptState.dispatch_committed = true
is_settled ReceiptState.quarantined = true
is_settled _ = false

module _ (fresh : Text → Type 0) (most : ℕ) where
  Move-id : (x y : Receipt) → Move fresh most x y → x.receipt_id ≡ y.receipt_id
  unfolding claim_data extend_data release_data deliver_data schedule_data bury_data
  Move-id _ _ (stay r) = refl
  Move-id _ _ (claim r w t n d _ _) = refl
  Move-id _ _ (extend r n d _) = refl
  Move-id _ _ (release r f _) = refl
  Move-id _ _ (deliver r n _) = refl
  Move-id _ _ (schedule r n e _ _) = refl
  Move-id _ _ (bury r n e _) = refl

  Move-WellLeased : (x y : Receipt) → Move fresh most x y → WellLeased most x → WellLeased most y
  unfolding claim_data extend_data release_data deliver_data schedule_data bury_data
  Move-WellLeased _ _ (stay r) v = v
  Move-WellLeased _ _ (claim r w t n d _ _) v = ground arith
  Move-WellLeased _ _ (extend r n d l) v = ground arith
  Move-WellLeased _ _ (release r f _) v = ground arith
  Move-WellLeased _ _ (deliver r n _) v = ground arith
  Move-WellLeased _ _ (schedule r n e l few) v = ground arith
  Move-WellLeased _ _ (bury r n e _) v = ground arith

  Move-settled : (x y : Receipt) → Move fresh most x y → is_settled x.state ≡ true → x ≡ y
  unfolding claim_data extend_data release_data deliver_data schedule_data bury_data
  Move-settled _ _ (stay r) h = refl
  Move-settled _ _ (claim r w t n d c _) h = ground arith
  Move-settled _ _ (extend r n d c) h = ground arith
  Move-settled _ _ (release r f c) h = ground arith
  Move-settled _ _ (deliver r n c) h = ground arith
  Move-settled _ _ (schedule r n e c _) h = ground arith
  Move-settled _ _ (bury r n e c) h = ground arith

module _ (T : Table Receipt) (fresh : Text → Type 0) (most : ℕ) where
  Step-ids :
      {s t : T.State}
      → Distinct (ids (T.rows s))
      → Step T fresh most s t
      → ids (T.rows s) ≡ ids (T.rows t)
  Step-ids {s} {t} d st =
      map-Forall₂ (Move fresh most) (λ r. r.receipt_id) (T.rows s) (T.rows t) (Move-id fresh most)
        (Step-Moves T fresh most d st)

  -- No call loses a receipt, adds one, or changes an id.
  pub ids-Reach :
      {s t : T.State}
      → Distinct (ids (T.rows s))
      → Reach T fresh most s t
      → ids (T.rows s) ≡ ids (T.rows t)
  ids-Reach d here = refl
  ids-Reach d (next r st) = let e = ids-Reach d r in e ∙ Step-ids (subst Distinct e d) st

  pub Reach-All :
      (P : Receipt → Type 0)
      → ((x y : Receipt) → Move fresh most x y → P x → P y)
      → {s t : T.State} → Distinct (ids (T.rows s))
      → Reach T fresh most s t
      → All P (T.rows s)
      → All P (T.rows t)
  Reach-All P keep d here h = h
  Reach-All P keep d (next {t} {u} r st) h =
      All-Forall₂ (Move fresh most) P (T.rows t) (T.rows u) keep
        (Step-Moves T fresh most (subst Distinct (ids-Reach d r) d) st) (Reach-All P keep d r h)

  -- Every receipt stays well leased, whatever is called.
  pub Reach-WellLeased :
      {s t : T.State}
      → Distinct (ids (T.rows s))
      → Reach T fresh most s t
      → All (WellLeased most) (T.rows s)
      → All (WellLeased most) (T.rows t)
  Reach-WellLeased d r h = Reach-All (WellLeased most) (Move-WellLeased fresh most) d r h

  -- A delivered, dead-lettered, committed or quarantined receipt is never changed again.
  pub In-Reach_settled :
      {s t : T.State} (r : Receipt)
      → Distinct (ids (T.rows s))
      → Reach T fresh most s t
      → is_settled r.state ≡ true
      → In r (T.rows s)
      → In r (T.rows t)
  In-Reach_settled r d here h m = m
  In-Reach_settled r d (next {t} {u} path st) h m =
      let moves = Step-Moves T fresh most (subst Distinct (ids-Reach d path) d) st in
      let (y, n, move) =
        In-Forall₂ (Move fresh most) (T.rows t) (T.rows u) r moves
          (In-Reach_settled r d path h m) in
      subst (λ q. In q (T.rows u)) (sym (Move-settled fresh most r y move h)) n
