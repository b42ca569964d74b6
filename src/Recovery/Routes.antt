-- ===== src/Recovery/Routes.antt =====
-- kill-switch.ts: what the ledger reports; apps/context-panel/src/server.ts: the guard of the mutating
-- routes and the recovery routes behind their role checks.
use hrp_crm.Base.{
  includes, ℕ, Bool, false, ◌&&◌, not, if◌then◌else◌, ◌==◌, Option, none, some, List, [], ◌∷◌, ◌++◌,
  Text, codes, is_empty, select, count, length,
}
use hrp_crm.Recovery.{
  disarmed, RecoveryReceipt, Recovery, EffectKind, commit_batch, confirm_draft, provider_put,
  intake_run, intake_dnc, is_armed, is_pending, is_applied, is_failed, find_receipt, lookup_key,
  register, resolve, record_replay, set_state, truthy, has_id, kill_switch_blocked, intent_replay,
}

pub get_by_idempotency_key : Text → Recovery → Option RecoveryReceipt
get_by_idempotency_key k l = elim (truthy (lookup_key k l.by_idempotency_key)) [
  | none ↦ none
  | some id ↦ find_receipt id l.receipts
]

unfoldable pub list_pending : Recovery → List RecoveryReceipt
list_pending l = select (λ r. is_pending r.state) l.receipts

pub record Depth : Type 0 where
  pub pending_count : ℕ
  pub applied_count : ℕ
  pub failed_count : ℕ
  pub total : ℕ

unfoldable pub depth : Recovery → Depth
depth l = record {
  pending_count = count (λ r. is_pending r.state) l.receipts;
  applied_count = count (λ r. is_applied r.state) l.receipts;
  failed_count = count (λ r. is_failed r.state) l.receipts;
  total = length l.receipts;
}

pub data RecoveryState : Type 0 where
  healthy degraded recovering recovered : RecoveryState

unfoldable pub aggregate_recovery_state : Recovery → RecoveryState
unfolding depth
aggregate_recovery_state l =
    let d = depth l in
    if d.pending_count == 0 && d.failed_count == 0
    then healthy
    else if is_armed l.switch
    then recovering
    else if not (d.failed_count == 0)
    then degraded
    else degraded

-- `reset` and `resetForTest`
pub reset : Recovery → Recovery
reset l = record l { receipts = []; by_idempotency_key = []; last_action = none }

pub reset_for_test : Recovery → Recovery
unfolding reset
reset_for_test l = reset (set_state disarmed l).1

pub infer_effect_kind : Text → EffectKind
infer_effect_kind route =
    if includes (codes "planning-commit") route
    then commit_batch
    else if includes (codes "autofill-confirm") route
    then confirm_draft
    else if includes (codes "providers") route
    then provider_put
    else if includes (codes "intake-run") route
    then intake_run
    else intake_dnc

-- `${ctx.routeName}:${ctx.correlationId}`
abbrev pub guard_key : Text → Text → Text
guard_key route correlation = route ++ codes ":" ++ correlation

-- `guardKillSwitch`: the receipt id of the 423 response, or none where the route goes on.
unfoldable pub guard_kill_switch : Text → Text → Text → ℕ → Recovery → Option Text × Recovery
guard_kill_switch route correlation uuid now l =
    if not (is_armed l.switch)
    then (none, l)
    else let (id, l') =
        register
          (record {
            correlation_id = correlation;
            route_name = route;
            effect_kind = infer_effect_kind route;
            idempotency_key = guard_key route correlation;
          })
          uuid now l in
      (some id, record l' { counted = kill_switch_blocked route ∷ l'.counted })

pub data ReplayOutcome : Type 0 where
  replay_safe no_action : ReplayOutcome

abbrev pub is_done : Option RecoveryReceipt → Bool
is_done none = false
is_done (some current) = is_applied current.state

abbrev pub count_replay : Text → ℕ → Recovery → Recovery
count_replay id now l =
    let replayed = record_replay id now l in
    record replayed { counted = intent_replay ∷ replayed.counted }

-- The loop of POST /api/admin/recovery/run, over the receipts listed. The route reports no receipt as
-- `failed`.
unfoldable pub replay_all :
    List RecoveryReceipt → ℕ → Recovery → List (Text × ReplayOutcome) × Recovery
replay_all [] now l = ([], l)
replay_all (r ∷ rs) now l =
    let skip = is_done (find_receipt r.receipt_id l.receipts) in
    let (others, l') = replay_all rs now (if skip then l else count_replay r.receipt_id now l) in
    ((r.receipt_id, if skip then no_action else replay_safe) ∷ others, l')

-- `only` is the text `body.receiptId`, where it is one.
unfoldable pub run_recovery : Option Text → ℕ → Recovery → List (Text × ReplayOutcome) × Recovery
run_recovery only now l = elim (truthy only) [
  | none ↦ replay_all (list_pending l) now l
  | some id ↦ replay_all (select (has_id id) (list_pending l)) now l
]

pub data ResolveReply : Type 0 where
  missing_receipt_id receipt_not_found : ResolveReply
  resolved : Text → Depth → ResolveReply

-- POST /api/admin/recovery/resolve, with the text `body.receiptId` or the empty one.
unfoldable pub resolve_route : Text → ℕ → ℕ → Recovery → ResolveReply × Recovery
resolve_route id now later l =
    if is_empty id
    then (missing_receipt_id, l)
    else let (ok, l') = resolve id now later l in
      if not ok then (receipt_not_found, l') else (resolved id (depth l'), l')
