-- ===== src/Recovery/Runs.antt =====
-- kill-switch.ts: any sequence of calls, and what it keeps.
use hrp_crm.Base.{
  ℕ, ◌≡◌, refl, ◌∙◌, ap, subst, inl, inr, false, none, some, List, [], ◌∷◌, map, Text, text_eq_refl,
  is_empty, In, All-In, Distinct, Option-cases,
}
use hrp_crm.Recovery.{
  RecoveryReceipt, Recovery, RegisterArgs, put_receipt, lookup_key, put_key, receipt_id_of,
  new_receipt, truthy, register, mark_applied, mark_failed, resolve, record_replay,
}
use hrp_crm.Recovery.{set_state}
use hrp_crm.Base.{Distinct-inj, In-map}
use hrp_crm.Recovery.Invariant.{lookup_key-put_key, names}
use hrp_crm.Recovery.Keys.{
  IndexAgrees, WellIndexed, FreshFor, register-WellIndexed, mark_applied-WellIndexed,
  mark_failed-WellIndexed, resolve-WellIndexed,
}
use hrp_crm.Recovery.{recovery_registered, KillSwitchState, Counter}

-- One call; a registration is with a UUID that no receipt has.
pub data Call (l : Recovery) : Recovery → Type 0 where
  registers :
      {m : Recovery} (args : RegisterArgs) (uuid : Text) (now : ℕ)
      → FreshFor uuid l
      → m ≡ (register args uuid now l).1
      → Call l m
  marks_applied : {m : Recovery} (id : Text) (now : ℕ) → m ≡ mark_applied id now l → Call l m
  marks_failed : {m : Recovery} (id reason : Text) → m ≡ mark_failed id reason l → Call l m
  resolves : {m : Recovery} (id : Text) (now later : ℕ) → m ≡ (resolve id now later l).1 → Call l m
  replays : {m : Recovery} (id : Text) (now : ℕ) → m ≡ record_replay id now l → Call l m
  switches : {m : Recovery} (switch : KillSwitchState) → m ≡ (set_state switch l).1 → Call l m
  counts : {m : Recovery} (c : Counter) → m ≡ record l { counted = c ∷ l.counted } → Call l m

pub data Runs (l : Recovery) : Recovery → Type 0 where
  here : Runs l l
  next : {m n : Recovery} → Runs l m → Call m n → Runs l n

Call-WellIndexed : {l m : Recovery} → Call l m → WellIndexed l → WellIndexed m
unfolding record_replay set_state
Call-WellIndexed (registers args uuid now fresh e) h =
    rw e (register-WellIndexed args uuid now _ fresh h)
Call-WellIndexed (marks_applied id now e) h = rw e (mark_applied-WellIndexed id now _ h)
Call-WellIndexed (marks_failed id reason e) h = rw e (mark_failed-WellIndexed id reason _ h)
Call-WellIndexed (resolves id now later e) h = rw e (resolve-WellIndexed id now later _ h)
Call-WellIndexed (replays id now e) h = rw e h
Call-WellIndexed (switches switch e) h = rw e h
Call-WellIndexed (counts c e) h = rw e h

pub Runs-WellIndexed : {l m : Recovery} → Runs l m → WellIndexed l → WellIndexed m
Runs-WellIndexed here h = h
Runs-WellIndexed (next run call) h = Call-WellIndexed call (Runs-WellIndexed run h)

pub key_unique :
    (ps es : List (Text × Text)) (p q : Text × Text)
    → IndexAgrees ps es
    → In p ps
    → In q ps
    → p.1 ≡ q.1
    → p.0 ≡ q.0
key_unique ps es p q h m n e =
    let a =
      (All-In (λ p. (lookup_key p.1 es ≡ some p.0) × (is_empty p.0 ≡ false)) ps h.indexed m).0 in
    let b =
      (All-In (λ p. (lookup_key p.1 es ≡ some p.0) × (is_empty p.0 ≡ false)) ps h.indexed n).0 in
    cc

distinct_ids : (rs : List RecoveryReceipt) → map (λ p. p.0) (names rs) ≡ map (λ r. r.receipt_id) rs
distinct_ids [] = refl
distinct_ids (r ∷ rs) = ap (λ t. r.receipt_id ∷ t) (distinct_ids rs)

-- From a ledger whose index agrees with its receipts, after any calls in any order, two receipts with
-- the same idempotency key are the same receipt (each registration's UUID is new).
pub one_receipt_per_key :
    {l m : Recovery} (r s : RecoveryReceipt)
    → WellIndexed l
    → Runs l m
    → In r m.receipts
    → In s m.receipts
    → r.idempotency_key ≡ s.idempotency_key
    → r ≡ s
one_receipt_per_key {m} r s h run there too same =
    let well = Runs-WellIndexed run h in
    let ids =
      key_unique (names m.receipts) m.by_idempotency_key (r.receipt_id, r.idempotency_key)
        (s.receipt_id, s.idempotency_key) well (In-map _ r m.receipts there)
        (In-map _ s m.receipts too) same in
    Distinct-inj (λ t. t.receipt_id) m.receipts r s
      (subst Distinct (distinct_ids m.receipts) well.distinct) there too ids

register-known :
    (args : RegisterArgs) (uuid : Text) (now : ℕ) (l : Recovery) (id : Text)
    → truthy (lookup_key args.idempotency_key l.by_idempotency_key) ≡ some id
    → register args uuid now l ≡ (id, l)
unfolding register
register-known args uuid now l id e = rw (e, register) refl

abbrev registered : RegisterArgs → Text → ℕ → Recovery → Recovery
registered args uuid now l = record l {
  receipts = put_receipt (new_receipt args uuid now) l.receipts;
  by_idempotency_key = put_key args.idempotency_key (receipt_id_of uuid) l.by_idempotency_key;
  counted = recovery_registered ∷ l.counted;
}

register-new :
    (args : RegisterArgs) (uuid : Text) (now : ℕ) (l : Recovery)
    → truthy (lookup_key args.idempotency_key l.by_idempotency_key) ≡ none
    → register args uuid now l ≡ (receipt_id_of uuid, registered args uuid now l)
unfolding register
register-new args uuid now l e = rw (e, register) refl

-- Registering again under the same key returns the id of the first registration and changes nothing,
-- whatever the other arguments, the UUIDs and the times.
pub register_again :
    (args again : RegisterArgs) (uuid other : Text) (now later : ℕ) (l : Recovery)
    → again.idempotency_key ≡ args.idempotency_key
    → let (id, m) = register args uuid now l in register again other later m ≡ (id, m)
register_again args again uuid other now later l same =
    elim (Option-cases (truthy (lookup_key args.idempotency_key l.by_idempotency_key))) [
      | inr (id, e) ↦
          rw (register-known args uuid now l id e)
            (register-known again other later l id (rw same e))
      | inl e ↦
          let k = args.idempotency_key in
          let found : lookup_key k (put_key k (receipt_id_of uuid) l.by_idempotency_key)
              ≡ some (receipt_id_of uuid) =
            lookup_key-put_key k k (receipt_id_of uuid) l.by_idempotency_key
            ∙ rw (text_eq_refl k) refl in
          rw (register-new args uuid now l e) (
            register-known again other later (registered args uuid now l) (receipt_id_of uuid)
              (rw (same, found) refl))
    ]
