-- ===== src/Recovery/Depth.antt =====
-- kill-switch.ts and the recovery routes of server.ts: what they report of the ledger.
use hrp_crm.Base.{
  All-In, In-map, Distinct, text_eq_refl, text_eq_iff, All-of_In, ℕ, suc, ◌+◌, ◌≡◌, refl, ap, inl,
  inr, Bool, true, false, if◌then◌else◌, Option, none, some, List, [], ◌∷◌, map, Text, text_eq,
  select, count, length, In, All, All-mono, Bool-cases, Option-cases, arith, ◌↔◌, ◌≢◌,
}
use hrp_crm.Recovery.{
  RecoveryReceipt, Recovery, ReceiptStatus, pending, applied, failed, is_applied, is_failed,
  is_pending, record_replay, find_receipt, truthy, has_id,
}
use hrp_crm.Recovery.Routes.{
  list_pending, depth, aggregate_recovery_state, healthy, recovered, replay_all, run_recovery,
  replay_safe, count_replay, is_done,
}

depth_adds_up :
    (rs : List RecoveryReceipt)
    → (count (λ r. is_pending r.state) rs
          + count (λ r. is_applied r.state) rs
          + count (λ r. is_failed r.state) rs
        ≡ length rs)
      × (length (select (λ r. is_pending r.state) rs) ≡ count (λ r. is_pending r.state) rs)
depth_adds_up [] = (refl, refl)
depth_adds_up (r ∷ rs) = let (total, listed) = depth_adds_up rs in status r.state total listed
  where
    status :
        (s : ReceiptStatus)
        → (count (λ t. is_pending t.state) rs
              + count (λ t. is_applied t.state) rs
              + count (λ t. is_failed t.state) rs
            ≡ length rs)
        → (length (select (λ t. is_pending t.state) rs) ≡ count (λ t. is_pending t.state) rs)
        → ((if is_pending s then 1 else 0)
              + count (λ t. is_pending t.state) rs
              + ((if is_applied s then 1 else 0) + count (λ t. is_applied t.state) rs)
              + ((if is_failed s then 1 else 0) + count (λ t. is_failed t.state) rs)
            ≡ suc (length rs))
          × (length (
                if is_pending s
                then r ∷ select (λ t. is_pending t.state) rs
                else select (λ t. is_pending t.state) rs)
              ≡ (if is_pending s then 1 else 0) + count (λ t. is_pending t.state) rs)
    status pending a b = (omega (arith, a), omega (arith, b))
    status applied a b = (omega (arith, a), omega (arith, b))
    status failed a b = (omega (arith, a), omega (arith, b))

-- The counts by state add up to the number of receipts, and the pending ones are those listed.
pub depth-list_pending :
    (l : Recovery)
    → let d = depth l in
      (d.pending_count + d.applied_count + d.failed_count ≡ d.total)
      × (length (list_pending l) ≡ d.pending_count)
unfolding depth list_pending
depth-list_pending l = depth_adds_up l.receipts

applied_if_none_open :
    (rs : List RecoveryReceipt)
    → (count (λ r. is_pending r.state) rs ≡ 0) × (count (λ r. is_failed r.state) rs ≡ 0)
    → All (λ r. r.state ≡ applied) rs
applied_if_none_open [] h = tt
applied_if_none_open (r ∷ rs) h = (
  status r.state (omega (arith, h.0)) (omega (arith, h.1)),
  applied_if_none_open rs (omega (arith, h.0), omega (arith, h.1)),
)
  where
    bit : Bool → ℕ
    bit b = if b then 1 else 0

    status : (s : ReceiptStatus) → bit (is_pending s) ≡ 0 → bit (is_failed s) ≡ 0 → s ≡ applied
    status pending a b = absurd (omega (arith, a))
    status applied a b = refl
    status failed a b = absurd (omega (arith, b))

none_open :
    (rs : List RecoveryReceipt)
    → All (λ r. r.state ≡ applied) rs
    → (count (λ r. is_pending r.state) rs ≡ 0) × (count (λ r. is_failed r.state) rs ≡ 0)
none_open [] h = (refl, refl)
none_open (r ∷ rs) h =
    rw h.0 (omega (arith, (none_open rs h.1).0), omega (arith, (none_open rs h.1).1))

-- The state reported is healthy exactly when every receipt is applied, and it is never `recovered`,
-- which the doc comment promises after a recent replay.
pub aggregate_recovery_state_cases :
    (l : Recovery)
    → ((aggregate_recovery_state l ≡ healthy) ↔ All (λ r. r.state ≡ applied) l.receipts)
      × (aggregate_recovery_state l ≢ recovered)
unfolding aggregate_recovery_state depth
aggregate_recovery_state_cases l = ((healthy_then, then_healthy), never)
  where
    p : ℕ
    p = count (λ r. is_pending r.state) l.receipts

    f : ℕ
    f = count (λ r. is_failed r.state) l.receipts

    healthy_then : aggregate_recovery_state l ≡ healthy → All (λ r. r.state ≡ applied) l.receipts
    healthy_then h = applied_if_none_open l.receipts (ground arith)

    then_healthy : All (λ r. r.state ≡ applied) l.receipts → aggregate_recovery_state l ≡ healthy
    then_healthy h = let (a, b) = none_open l.receipts h in rw (a, b) refl

    never : aggregate_recovery_state l ≢ recovered
    never h = ground arith

-- With distinct ids, the receipt found under the id of one in the list is that one.
find_receipt-In :
    (r : RecoveryReceipt) (rs : List RecoveryReceipt)
    → Distinct (map (λ t. t.receipt_id) rs)
    → In r rs
    → find_receipt r.receipt_id rs ≡ some r
unfolding find_receipt
find_receipt-In r [] d m = absurd m
find_receipt-In r (x ∷ xs) d (inl e) = rw (e, text_eq_refl x.receipt_id) refl
find_receipt-In r (x ∷ xs) d (inr m) =
    let other : x.receipt_id ≢ r.receipt_id =
      All-In (λ y. x.receipt_id ≢ y) (map (λ t. t.receipt_id) xs) d.0
        (In-map (λ t. t.receipt_id) r xs m) in
    elim (Bool-cases (text_eq x.receipt_id r.receipt_id)) [
      | inl e ↦ absurd (other ((text_eq_iff x.receipt_id r.receipt_id).0 e))
      | inr e ↦ rw (e, find_receipt) (find_receipt-In r xs d.1 m)
    ]

replay_each_safe :
    (rs : List RecoveryReceipt) (now : ℕ) (l : Recovery)
    → All (λ r. is_done (find_receipt r.receipt_id l.receipts) ≡ false) rs
    → let (results, m) = replay_all rs now l in
      (results ≡ map (λ r. (r.receipt_id, replay_safe)) rs) × (m.receipts ≡ l.receipts)
unfolding replay_all record_replay
replay_each_safe [] now l h = (refl, refl)
replay_each_safe (r ∷ rs) now l h =
    let (listed, same) = replay_each_safe rs now (count_replay r.receipt_id now l) h.1 in
    rw h.0 (ap (λ t. (r.receipt_id, replay_safe) ∷ t) listed, same)

All-select :
    (Q : RecoveryReceipt → Type 0) (p : RecoveryReceipt → Bool) (rs : List RecoveryReceipt)
    → All (λ r. p r ≡ true → Q r) rs
    → All Q (select p rs)
All-select Q p [] h = tt
All-select Q p (r ∷ rs) h = elim (Bool-cases (p r)) [
  | inl e ↦ rw e (h.0 e, All-select Q p rs h.1)
  | inr e ↦ rw e (All-select Q p rs h.1)
]

-- The pending receipts that a run is asked for.
abbrev pub asked : Option Text → List RecoveryReceipt → List RecoveryReceipt
asked none rs = rs
asked (some id) rs = select (has_id id) rs

-- With distinct ids, a recovery run changes no receipt and reports each pending receipt, or each of
-- the id asked for, as safe to replay: it applies nothing by itself and skips none.
pub run_recovery-list_pending :
    (only : Option Text) (now : ℕ) (l : Recovery)
    → Distinct (map (λ r. r.receipt_id) l.receipts)
    → let (results, m) = run_recovery only now l in
      (results ≡ map (λ r. (r.receipt_id, replay_safe)) (asked (truthy only) (list_pending l)))
      × (m.receipts ≡ l.receipts)
unfolding run_recovery list_pending
run_recovery-list_pending only now l d = elim (Option-cases (truthy only)) [
  | inl e ↦ rw (e, run_recovery) (replay_each_safe (list_pending l) now l open_ones)
  | inr (id, e) ↦
      rw (e, run_recovery)
        (replay_each_safe (select (has_id id) (list_pending l)) now l (
          All-select Waits (has_id id) (list_pending l) (
            All-mono Waits (λ r. has_id id r ≡ true → Waits r) (list_pending l) (λ r w f. w)
              open_ones)))
]
  where
    Waits : RecoveryReceipt → Type 0
    Waits r = is_done (find_receipt r.receipt_id l.receipts) ≡ false

    open_ones : All Waits (list_pending l)
    open_ones =
        All-select Waits (λ r. is_pending r.state) l.receipts
          (All-of_In _ l.receipts
            (λ r m waiting. rw (find_receipt-In r l.receipts d m) (ground arith)))
