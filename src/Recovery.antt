-- ===== src/Recovery.antt =====
-- apps/context-panel/src/observability/kill-switch.ts: the kill switch and the recovery ledger. A Map
-- is the list of its entries in the order of insertion; the clock and the UUIDs are arguments.
pub mod Routes
pub mod Invariant
pub mod Depth
pub mod Keys
pub mod Runs
pub mod Guard
mod Tests
use hrp_crm.Base.{
  ℕ, zero, suc, ◌+◌, Bool, true, false, ◌&&◌, not, if◌then◌else◌, ◌==◌, Option, none, some, List,
  [], ◌∷◌, ◌++◌, Text, text_eq, codes, is_empty, find, select, count, length, update_where,
}

pub data KillSwitchState : Type 0 where
  armed disarmed : KillSwitchState

pub data ReceiptStatus : Type 0 where
  pending applied failed : ReceiptStatus

pub data EffectKind : Type 0 where
  commit_batch confirm_draft provider_put intake_run intake_dnc : EffectKind

pub record RecoveryReceipt : Type 0 where
  pub receipt_id : Text
  pub correlation_id : Text
  pub route_name : Text
  pub effect_kind : EffectKind
  pub idempotency_key : Text
  pub state : ReceiptStatus
  pub failure_reason : Option Text
  pub enqueued_at : ℕ
  pub applied_at : Option ℕ

pub data ActionKind : Type 0 where
  replay resolve_action : ActionKind

pub record LastAction : Type 0 where
  pub kind : ActionKind
  pub receipt_id : Text
  pub at : ℕ

-- The counters that the calls of `inc` name.
pub data Counter : Type 0 where
  kill_switch_transition : KillSwitchState → Counter
  kill_switch_armed kill_switch_disarmed recovery_registered recovery_applied : Counter
  recovery_failed intent_dlq recovery_resolve recovery_replay : Counter
  intent_replay : Counter
  kill_switch_blocked : Text → Counter

-- The two singletons, with the calls of `inc`, the latest first.
pub record Recovery : Type 0 where
  pub switch : KillSwitchState
  pub receipts : List RecoveryReceipt
  pub by_idempotency_key : List (Text × Text)
  pub last_action : Option LastAction
  pub counted : List Counter

abbrev pub is_armed : KillSwitchState → Bool
is_armed armed = true
is_armed disarmed = false

abbrev pub is_pending : ReceiptStatus → Bool
is_pending pending = true
is_pending _ = false

abbrev pub is_applied : ReceiptStatus → Bool
is_applied applied = true
is_applied _ = false

abbrev pub is_failed : ReceiptStatus → Bool
is_failed failed = true
is_failed _ = false

abbrev switch_counter : KillSwitchState → Counter
switch_counter armed = kill_switch_armed
switch_counter disarmed = kill_switch_disarmed

unfoldable pub set_state : KillSwitchState → Recovery → KillSwitchState × Recovery
set_state next l = (
  l.switch,
  record l {
    switch = next;
    counted = switch_counter next ∷ kill_switch_transition next ∷ l.counted;
  },
)

abbrev pub has_id : Text → RecoveryReceipt → Bool
has_id id r = text_eq r.receipt_id id

-- `this.receipts.get(receiptId)`
unfoldable pub find_receipt : Text → List RecoveryReceipt → Option RecoveryReceipt
find_receipt id rs = find (has_id id) rs

-- `this.receipts.set(receiptId, receipt)`
unfoldable pub put_receipt : RecoveryReceipt → List RecoveryReceipt → List RecoveryReceipt
put_receipt r [] = r ∷ []
put_receipt r (x ∷ xs) = if has_id r.receipt_id x then r ∷ xs else x ∷ put_receipt r xs

-- `this.byIdempotencyKey.get(key)` and `.set(key, receiptId)`
unfoldable pub lookup_key : Text → List (Text × Text) → Option Text
lookup_key k [] = none
lookup_key k ((j, id) ∷ es) = if text_eq j k then some id else lookup_key k es

unfoldable pub put_key : Text → Text → List (Text × Text) → List (Text × Text)
put_key k id [] = (k, id) ∷ []
put_key k id ((j, old) ∷ es) = if text_eq j k then (j, id) ∷ es else (j, old) ∷ put_key k id es

pub record RegisterArgs : Type 0 where
  pub correlation_id : Text
  pub route_name : Text
  pub effect_kind : EffectKind
  pub idempotency_key : Text

-- `rcpt-${randomUUID()}`
abbrev pub receipt_id_of : Text → Text
receipt_id_of uuid = codes "rcpt-" ++ uuid

abbrev pub new_receipt : RegisterArgs → Text → ℕ → RecoveryReceipt
new_receipt args uuid now = record {
  receipt_id = receipt_id_of uuid;
  correlation_id = args.correlation_id;
  route_name = args.route_name;
  effect_kind = args.effect_kind;
  idempotency_key = args.idempotency_key;
  state = pending;
  failure_reason = none;
  enqueued_at = now;
  applied_at = none;
}

-- The text is there and not empty.
abbrev pub truthy : Option Text → Option Text
truthy none = none
truthy (some t) = if is_empty t then none else some t

unfoldable pub register : RegisterArgs → Text → ℕ → Recovery → Text × Recovery
register args uuid now l = elim (truthy (lookup_key args.idempotency_key l.by_idempotency_key)) [
  | some existing ↦ (existing, l)
  | none ↦ (
    receipt_id_of uuid,
    record l {
      receipts = put_receipt (new_receipt args uuid now) l.receipts;
      by_idempotency_key = put_key args.idempotency_key (receipt_id_of uuid) l.by_idempotency_key;
      counted = recovery_registered ∷ l.counted;
    },
  )
]

abbrev pub change :
    Text → (RecoveryReceipt → RecoveryReceipt) → List RecoveryReceipt → List RecoveryReceipt
change id f rs = update_where (has_id id) f rs

abbrev pub to_applied : ℕ → RecoveryReceipt → RecoveryReceipt
to_applied now r = record r { state = applied; applied_at = some now }

abbrev pub to_failed : Text → RecoveryReceipt → RecoveryReceipt
to_failed reason r = record r { state = failed; failure_reason = some reason }

unfoldable pub mark_applied : Text → ℕ → Recovery → Recovery
mark_applied id now l = elim (find_receipt id l.receipts) [
  | none ↦ l
  | some r ↦ if is_applied r.state then l else record l {
    receipts = change id (to_applied now) l.receipts;
    counted = recovery_applied ∷ l.counted;
  }
]

unfoldable pub mark_failed : Text → Text → Recovery → Recovery
mark_failed id reason l = elim (find_receipt id l.receipts) [
  | none ↦ l
  | some r ↦ if is_failed r.state then l else record l {
    receipts = change id (to_failed reason) l.receipts;
    counted = intent_dlq ∷ recovery_failed ∷ l.counted;
  }
]

-- `now` and `later` are the two readings of the clock.
unfoldable pub resolve : Text → ℕ → ℕ → Recovery → Bool × Recovery
resolve id now later l = elim (find_receipt id l.receipts) [
  | none ↦ (false, l)
  | some r ↦
      if is_applied r.state
      then (
        true,
        record l {
          last_action = some (record { kind = resolve_action; receipt_id = id; at = now });
        },
      )
      else (
        true,
        record l {
          receipts = change id (to_applied now) l.receipts;
          last_action = some (record { kind = resolve_action; receipt_id = id; at = later });
          counted = recovery_resolve ∷ l.counted;
        },
      )
]

unfoldable pub record_replay : Text → ℕ → Recovery → Recovery
record_replay id now l = record l {
  last_action = some (record { kind = replay; receipt_id = id; at = now });
  counted = recovery_replay ∷ l.counted;
}
