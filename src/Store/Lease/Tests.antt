-- ===== src/Store/Lease/Tests.antt =====
-- lease.ts on a table of two receipts: runs, and the theorems at inputs that meet their hypotheses.
use Prim.Native.String.{String}
use hrp_crm.Base.{
  ℕ, ◌≡◌, refl, ◌≢◌, inl, inr, Bool, false, none, some, List, [], ◌∷◌, Text, codes, In, All,
  Distinct, arith, text_eq, sort_by, ne-of_text_eq,
}
use hrp_crm.Store.Table.{Table}
use hrp_crm.Store.Table.Lists.{list_table, select_oldest, update}
use hrp_crm.Store.{Receipt, ReceiptState, dedupe, ok}
use hrp_crm.Store.Retry.{default_retry_policy}
use hrp_crm.Store.Lease.{
  ClaimArgs, ClaimedReceipt, is_available, is_expired, claim_data, CompleteReceiptArgs,
  CompleteReceiptResult, Moment, success, verdict, claimed_receipt, is_leased, deliver_data,
}
use hrp_crm.Store.Lease.Ops.{
  claim_next_receipt, complete_receipt, complete_write, reclaim_expired_leases, fenced_rejection,
}
use hrp_crm.Store.Lease.Moves.{Reach, here, next, claims, ids}
use hrp_crm.Store.Lease.Invariant.{WellLeased, Reach-WellLeased, In-Reach_settled, ids-Reach}
use hrp_crm.Store.Lease.Fencing.{
  dead_token_rejected, stale_worker_fenced, claims_exclusive, expired_claimed_again,
}
use hrp_crm.Store.Lease.Lifecycle.{claim_then_complete, unfenced_write}

abbrev waiting : String → ℕ → Receipt
waiting id seen = record {
  receipt_id = codes id;
  schema_version = codes "1";
  organization_id = codes "org";
  provider = codes "zalo";
  connection_id = codes "c1";
  event_id = codes id;
  payload_digest = codes "d";
  state = ReceiptState.pending;
  duplicate_kind = dedupe;
  attempts = 0;
  lease_owner = none;
  lease_expires_at = none;
  fencing_token = none;
  lease_fenced_at = none;
  correlation_id = none;
  command_refs_json = none;
  idempotency_key = none;
  first_seen_at = seen;
  next_attempt_at = none;
  resolved_at = none;
  reason_code = none;
  evidence_refs_json = none;
}

abbrev tables : Table Receipt
tables = list_table

abbrev queue : List Receipt
queue = waiting "r2" 20 ∷ waiting "r1" 10 ∷ []

abbrev worker : String → ClaimArgs
worker name = record {
  worker_id = codes name;
  lease_duration_ms = 60;
  max_per_poll = none;
  organization_id = some (codes "org");
}

abbrev all_free : Text → Bool
all_free _ = false

abbrev done : String → String → CompleteReceiptArgs
done token owner = record {
  fencing_token = codes token;
  lease_owner = codes owner;
  outcome = success;
  error = none;
  retry_policy = some default_retry_policy;
}

abbrev moment : Moment
moment = record { now = 200; now_again = 200; draw = record { draw_num = 1; draw_den = 2 } }

-- The oldest receipt, and the queue after its claim by worker `a` at time 100.
abbrev claimed_r1 : ClaimedReceipt
claimed_r1 = claimed_receipt (waiting "r1" 10) 1 (codes "a") (codes "t1") 100 60

abbrev leased_queue : List Receipt
leased_queue = waiting "r2" 20 ∷ claim_data (codes "a") (codes "t1") 100 60 (waiting "r1" 10) ∷ []

claim_oldest :
    claim_next_receipt tables (worker "a") all_free 100 (codes "t1") queue
    ≡ ok (some claimed_r1, leased_queue)
unfolding claim_next_receipt is_available select_oldest update sort_by text_eq claim_data
claim_oldest = refl

abbrev claimed_r2 : ClaimedReceipt
claimed_r2 = claimed_receipt (waiting "r2" 20) 1 (codes "b") (codes "t2") 101 60

abbrev all_leased : List Receipt
all_leased =
    claim_data (codes "b") (codes "t2") 101 60 (waiting "r2" 20)
    ∷ claim_data (codes "a") (codes "t1") 100 60 (waiting "r1" 10)
    ∷ []

claim_next :
    claim_next_receipt tables (worker "b") all_free 101 (codes "t2") leased_queue
    ≡ ok (some claimed_r2, all_leased)
unfolding claim_next_receipt is_available select_oldest update sort_by text_eq claim_data
claim_next = refl

-- The claim's receipt, swept up at time 161 and claimed by worker `b`.
abbrev swept_queue : List Receipt
swept_queue = (reclaim_expired_leases tables 161 leased_queue).1

queue-Distinct : Distinct (ids queue)
unfolding text_eq
queue-Distinct = ((ne-of_text_eq _ _ refl, tt), (tt, tt))

leased_queue-Distinct : Distinct (ids leased_queue)
unfolding claim_data text_eq
leased_queue-Distinct = ((ne-of_text_eq _ _ refl, tt), (tt, tt))

queue-WellLeased : All (WellLeased 8) queue
queue-WellLeased = (ground arith, (ground arith, tt))

AnyToken : Text → Type 0
AnyToken _ = Unit {0}

one_claim : Reach tables AnyToken 8 queue leased_queue
unfolding AnyToken
one_claim = next here (claims (worker "a") all_free 100 (codes "t1") _ tt claim_oldest)

Reach-WellLeased_example : All (WellLeased 8) leased_queue
Reach-WellLeased_example =
    Reach-WellLeased tables AnyToken 8 queue-Distinct one_claim queue-WellLeased

ids-Reach_example : ids queue ≡ ids leased_queue
ids-Reach_example = ids-Reach tables AnyToken 8 queue-Distinct one_claim

-- A queue whose second receipt is delivered.
abbrev half_done : List Receipt
half_done = waiting "r1" 10 ∷ deliver_data 50 (waiting "r2" 20) ∷ []

abbrev half_done_leased : List Receipt
half_done_leased =
    claim_data (codes "a") (codes "t1") 100 60 (waiting "r1" 10)
    ∷ deliver_data 50 (waiting "r2" 20)
    ∷ []

half_claim : Reach tables AnyToken 8 half_done half_done_leased
unfolding AnyToken claim_next_receipt is_available select_oldest update sort_by text_eq claim_data
    deliver_data
half_claim = next here (claims (worker "a") all_free 100 (codes "t1") (some claimed_r1) tt refl)

In-Reach_settled_example : In (deliver_data 50 (waiting "r2" 20)) half_done_leased
unfolding deliver_data text_eq
In-Reach_settled_example =
    In-Reach_settled tables AnyToken 8 (deliver_data 50 (waiting "r2" 20))
      ((ne-of_text_eq _ _ refl, tt), (tt, tt)) half_claim refl (inr (inl refl))

dead_token_rejected_example :
    complete_receipt tables (done "t9" "a") moment queue ≡ ok (fenced_rejection, queue)
dead_token_rejected_example =
    (dead_token_rejected tables (codes "a") 60 100 (done "t9" "a") moment queue
      (refl, (refl, tt))).0

stale_worker_fenced_example :
    complete_receipt tables (done "t1" "a") moment swept_queue ≡ ok (fenced_rejection, swept_queue)
unfolding text_eq is_expired claim_data
stale_worker_fenced_example =
    stale_worker_fenced tables 8 161 (done "t1" "a") moment leased_queue swept_queue
      leased_queue-Distinct ((λ e. ground arith), ((λ _. refl), tt)) here

claims_exclusive_example : claimed_r2.receipt_id ≢ claimed_r1.receipt_id
claims_exclusive_example =
    claims_exclusive tables (worker "a") (worker "b") all_free all_free 100 101 (codes "t1")
      (codes "t2") queue leased_queue all_leased claimed_r1 claimed_r2 claim_oldest claim_next

expired_claimed_again_example :
    (c : ClaimedReceipt) × (t : List Receipt) × (claim_next_receipt tables
        (worker "b")
        all_free
        161
        (codes "t2")
        swept_queue
      ≡ ok (some c, t))
unfolding claim_data is_expired
expired_claimed_again_example =
    expired_claimed_again tables (worker "b") 8 161 161 (codes "t2") leased_queue
      (claim_data (codes "a") (codes "t1") 100 60 (waiting "r1" 10)) (inr (inl refl)) refl
      Reach-WellLeased_example.1.0 (inr refl) (λ e. cc)

claim_then_complete_example :
    (u : List Receipt) × (complete_receipt tables (done "t1" "a") moment leased_queue
      ≡ ok (
        record { state = ReceiptState.delivered; next_attempt_at = none; fenced_rejected = false },
        u,
      ))
unfolding verdict
claim_then_complete_example =
    let (u, e, _) =
      claim_then_complete tables (worker "a") all_free 100 queue leased_queue claimed_r1
        (done "t1" "a") moment queue-Distinct (refl, (refl, tt)) refl claim_oldest in
    (u, e)

-- Worker `a` has read its row; the sweep and a claim by `b` come before its write.
unfenced_write_example :
    (t : List Receipt) × (result : CompleteReceiptResult) × (complete_write tables
        (done "t1" "a")
        moment
        (waiting "r1" 10)
        (claim_data (codes "b") (codes "t2") 161 60 (waiting "r1" 10) ∷ [])
      ≡ ok (result, t))
    × (result.fenced_rejected ≡ false)
    × All
        (λ q. q.receipt_id ≡ codes "r1" → (q.fencing_token ≡ none) × (is_leased q.state ≡ false))
        t
unfolding claim_data text_eq
unfenced_write_example =
    unfenced_write tables (done "t1" "a") moment (waiting "r1" 10)
      (claim_data (codes "b") (codes "t2") 161 60 (waiting "r1" 10))
      (claim_data (codes "b") (codes "t2") 161 60 (waiting "r1" 10) ∷ []) (inl refl) refl refl
