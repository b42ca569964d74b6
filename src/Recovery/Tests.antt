-- ===== src/Recovery/Tests.antt =====
-- kill-switch.ts: the theorems on a ledger with one blocked mutation.
use hrp_crm.Base.{◌≡◌, ◌⊎◌, refl, inl, true, false, none, some, [], Text, codes}
use hrp_crm.Recovery.{
  Recovery, RegisterArgs, armed, intake_run, register, new_receipt, is_armed, lookup_key, put_key,
  put_receipt,
}
use hrp_crm.Recovery.Routes.{guard_kill_switch, guard_key}
use hrp_crm.Recovery.Keys.{WellIndexed}
use hrp_crm.Recovery.Runs.{here, next, registers, one_receipt_per_key}
use hrp_crm.Recovery.Guard.{Recorded, guard_kill_switch-Recorded}

abbrev empty : Recovery
empty = record {
  switch = armed;
  receipts = [];
  by_idempotency_key = [];
  last_action = none;
  counted = [];
}

abbrev intake : RegisterArgs
intake = record {
  correlation_id = codes "c";
  route_name = codes "intake-run";
  effect_kind = intake_run;
  idempotency_key = codes "k";
}

abbrev blocked : Recovery
blocked = (register intake (codes "u") 5 empty).1

empty-WellIndexed : WellIndexed empty
empty-WellIndexed = record { distinct = tt; indexed = tt; known = tt }

one_receipt_per_key_example : new_receipt intake (codes "u") 5 ≡ new_receipt intake (codes "u") 5
unfolding register put_receipt lookup_key put_key
one_receipt_per_key_example =
    one_receipt_per_key {l = empty} {m = blocked} (new_receipt intake (codes "u") 5)
      (new_receipt intake (codes "u") 5) empty-WellIndexed
      (next here (registers intake (codes "u") 5 tt refl)) (inl refl) (inl refl) refl

guard_kill_switch-Recorded_example :
    let (reply, m) = guard_kill_switch (codes "intake-run") (codes "c") (codes "u") 5 empty in
    ((is_armed empty.switch ≡ true)
      × ((id : Text) × (reply ≡ some id)
          × Recorded (guard_key (codes "intake-run") (codes "c")) id m.receipts))
    ⊎ ((is_armed empty.switch ≡ false) × (reply ≡ none) × (m ≡ empty))
guard_kill_switch-Recorded_example =
    guard_kill_switch-Recorded (codes "intake-run") (codes "c") (codes "u") 5 empty
      empty-WellIndexed
