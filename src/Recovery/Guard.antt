-- ===== src/Recovery/Guard.antt =====
-- server.ts, `guardKillSwitch`: a blocked mutation is recorded.
use hrp_crm.Base.{
  ℕ, ◌≡◌, refl, sym, ap, ◌⊎◌, inl, inr, true, false, Option, none, some, List, [], ◌∷◌, Text,
  text_eq, text_eq_iff, In, All-In, Bool-cases, Option-cases, arith,
}
use hrp_crm.Recovery.{
  RecoveryReceipt, Recovery, RegisterArgs, has_id, put_receipt, lookup_key, new_receipt, truthy,
  register, is_armed,
}
use hrp_crm.Recovery.Routes.{guard_kill_switch, guard_key}
use hrp_crm.Recovery.Invariant.{names}
use hrp_crm.Recovery.Keys.{WellIndexed}
use hrp_crm.Base.{In-of_map}

In-put_receipt : (r : RecoveryReceipt) (rs : List RecoveryReceipt) → In r (put_receipt r rs)
unfolding put_receipt
In-put_receipt r [] = inl refl
In-put_receipt r (x ∷ xs) = elim (Bool-cases (has_id r.receipt_id x)) [
  | inl e ↦ rw e (inl refl)
  | inr e ↦ rw e (inr (In-put_receipt r xs))
]

lookup_key-In : (k id : Text) (es : List (Text × Text)) → lookup_key k es ≡ some id → In (k, id) es
unfolding lookup_key
lookup_key-In k id [] e = cc
lookup_key-In k id ((j, i) ∷ es) e = elim (Bool-cases (text_eq j k)) [
  | inl f ↦
      let g : ◌≡◌ {A = Option Text} (some i) (some id) = rw (f, lookup_key) at e in
      let same : i ≡ id = cc in inl (rw (same, (text_eq_iff j k).0 f) refl)
  | inr f ↦ inr (lookup_key-In k id es (rw (f, lookup_key) at e))
]

truthy-some : (o : Option Text) (id : Text) → truthy o ≡ some id → o ≡ some id
truthy-some none id e = cc
truthy-some (some t) id e = ground arith

-- A receipt under the key is in the ledger, with that id.
pub record Recorded (key id : Text) (rs : List RecoveryReceipt) : Type 0 where
  pub receipt : RecoveryReceipt
  pub kept : In receipt rs
  pub named : receipt.receipt_id ≡ id
  pub keyed : receipt.idempotency_key ≡ key

register-Recorded :
    (args : RegisterArgs) (uuid : Text) (now : ℕ) (l : Recovery)
    → WellIndexed l
    → let (id, m) = register args uuid now l in Recorded args.idempotency_key id m.receipts
unfolding register
register-Recorded args uuid now l h =
    elim (Option-cases (truthy (lookup_key args.idempotency_key l.by_idempotency_key))) [
      | inl e ↦
          rw (e, register)
            (record {
              receipt = new_receipt args uuid now;
              kept = In-put_receipt (new_receipt args uuid now) l.receipts;
              named = refl;
              keyed = refl;
            })
      | inr (id, e) ↦
          let k = args.idempotency_key in
          let entry = lookup_key-In k id l.by_idempotency_key (truthy-some _ id e) in
          let (r, m, f) =
            In-of_map _ l.receipts
              (All-In (λ p. In (p.1, p.0) (names l.receipts)) l.by_idempotency_key h.known entry) in
          rw (e, register)
            (record {
              receipt = r;
              kept = m;
              named = sym (ap (λ p. p.0) f);
              keyed = sym (ap (λ p. p.1) f);
            })
    ]

-- While the switch is armed the guard blocks the route and hands out the id of a receipt that is in
-- the ledger under the key of the route and the correlation; while it is not, the guard lets the
-- route go on with the ledger as it is.
pub guard_kill_switch-Recorded :
    (route correlation uuid : Text) (now : ℕ) (l : Recovery)
    → WellIndexed l
    → let (reply, m) = guard_kill_switch route correlation uuid now l in
      ((is_armed l.switch ≡ true)
        × ((id : Text) × (reply ≡ some id) × Recorded (guard_key route correlation) id m.receipts))
      ⊎ ((is_armed l.switch ≡ false) × (reply ≡ none) × (m ≡ l))
unfolding guard_kill_switch
guard_kill_switch-Recorded route correlation uuid now l h = elim (Bool-cases (is_armed l.switch)) [
  | inl e ↦ rw e (inl (refl, (_, refl, register-Recorded _ uuid now l h)))
  | inr e ↦ rw e (inr (refl, refl, refl))
]
