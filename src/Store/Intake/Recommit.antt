-- ===== src/Store/Intake/Recommit.antt =====
-- event-receipt.ts: an event that is committed again.
use hrp_crm.Base.{
  ℕ, ◌≡◌, ◌≢◌, refl, sym, ◌∙◌, ap, inl, inr, true, false, not, Option, none, some, List, [], ◌∷◌,
  find, map, Text, text_eq, text_eq_iff, text_eq_refl, In, All, All-In, All-of_In, In-map,
  Bool-cases, Option-cases, arith,
}
use hrp_crm.Store.Table.{Table}
use hrp_crm.Store.{Receipt, Intent, ok, throws}
use hrp_crm.Store.Lease.Ops.{ReceiptScope, by_scope}
use hrp_crm.Store.Intake.{
  IntentInput, Payload, Committed, new_receipt_id, receipt_row, intent_row, receipt_conflicts,
  intents_of, idempotency_conflict, insert_invisible, scope_error, settle, insert_receipt,
  commit_receipt_with_intents, Tables,
}
use hrp_crm.Base.{All-map, In-of_append, In-append_right}
use hrp_crm.Store.Intake.Commit.{IsAdded, IsSettled, commit_receipt_with_intents_cases}

by_scope_self :
    (scope : ReceiptScope) (payload : Payload) (now : ℕ)
    → by_scope scope (receipt_row scope payload now) ≡ true
unfolding by_scope receipt_row
by_scope_self scope payload now =
    rw
      (
        text_eq_refl scope.organization_id,
        text_eq_refl scope.provider,
        text_eq_refl scope.connection_id,
        text_eq_refl scope.event_id,
      )
      refl

no_stranger :
    (org : Text) (is : List IntentInput)
    → find (λ i. not (text_eq i.organization_id org)) is ≡ none
    → All (λ i. text_eq i.organization_id org ≡ true) is
no_stranger org [] e = tt
no_stranger org (i ∷ is) e = elim (Bool-cases (text_eq i.organization_id org)) [
  | inl f ↦ (f, no_stranger org is (rw f at e))
  | inr f ↦ let g : ◌≡◌ {A = Option IntentInput} (some i) none = rw f at e in cc
]

scope_error-none :
    (scope : ReceiptScope) (payload : Payload)
    → scope_error scope payload ≡ none
    → All (λ i. text_eq i.organization_id scope.organization_id ≡ true) payload.intents
unfolding scope_error
scope_error-none scope payload e =
    no_stranger scope.organization_id payload.intents
      (elim (Option-cases
        (find (λ i. not (text_eq i.organization_id scope.organization_id)) payload.intents)) [
          | inl f ↦ f
          | inr (i, f) ↦ absurd (ground (arith, e, f))
        ])

module _ (R : Table Receipt) (I : Table Intent) where
  -- The receipt of the scope, as the next read finds it.
  record Keeps (scope : ReceiptScope) (payload : Payload) (c : Committed) (t : Tables R I)
      : Type 0 where
    row : Receipt
    found : R.find_first (by_scope scope) t.0 ≡ some row
    named : row.receipt_id ≡ c.receipt_id
    digest : row.payload_digest ≡ payload.receipt.payload_digest

  IsSettled-Keeps :
      (scope : ReceiptScope) (payload : Payload) (now : ℕ) (s t : Tables R I) (c : Committed)
      → IsSettled R I scope payload now s c t
      → Keeps scope payload c t
  IsSettled-Keeps scope payload now s t c h = record {
    row = h.row;
    found = rw h.unchanged h.found;
    named = ap (λ d. d.receipt_id) (sym h.result);
    digest = h.digest;
  }

  IsAdded-Keeps :
      (scope : ReceiptScope) (payload : Payload) (now : ℕ) (s t : Tables R I) (c : Committed)
      → IsAdded R I scope payload now s c t
      → Keeps scope payload c t
  unfolding receipt_conflicts receipt_row
  IsAdded-Keeps scope payload now s t c h =
      let new = receipt_row scope payload now in
      elim (Option-cases (R.find_first (by_scope scope) t.0)) [
        | inl e ↦
            let kept : In new (R.rows t.0) =
              rw h.receipts (In-append_right new (R.rows s.0) (new ∷ []) (inl refl)) in
            let missing =
              All-In (λ r. by_scope scope r ≡ false) (R.rows t.0) (R.find_first-none _ t.0 e)
                kept in
            absurd (cc (missing, by_scope_self scope payload now))
        | inr (row, e) ↦
            let (there, right) = R.find_first-some _ t.0 row e in
            elim (In-of_append row (R.rows s.0) (new ∷ []) (rw h.receipts at there)) [
              | inl old ↦ let free = All-In _ (R.rows s.0) h.absent old in absurd (ground arith)
              | inr (inl same) ↦ record {
                row = row;
                found = e;
                named = rw (same, h.named) refl;
                digest = rw same refl;
              }
              | inr (inr never) ↦ absurd never
            ]
      ]

  IsAdded-listed :
      (scope : ReceiptScope) (payload : Payload) (now : ℕ) (s t : Tables R I) (c : Committed)
      → scope_error scope payload ≡ none
      → IsAdded R I scope payload now s c t
      → All
          (λ id. In id (
            map
              (λ i. i.intent_id)
              (I.find_many (intents_of c.receipt_id scope.organization_id) t.1)))
          c.intent_ids
  unfolding intent_row receipt_row
  IsAdded-listed scope payload now s t c fine h =
      let id = (receipt_row scope payload now).receipt_id in
      let p = intents_of c.receipt_id scope.organization_id in
      rw h.listed (
        All-map (λ x. In x (map (λ i. i.intent_id) (I.find_many p t.1))) (λ i. i.intent_id)
          payload.intents
          (All-of_In _ payload.intents (λ i m.
            let row = intent_row id now i in
            let ours : text_eq i.organization_id scope.organization_id ≡ true =
              All-In (λ j. text_eq j.organization_id scope.organization_id ≡ true) payload.intents
                (scope_error-none scope payload fine) m in
            let kept : In row (I.rows t.1) = rw h.intents (
              In-append_right row (I.rows s.1) _
                (In-map (intent_row id now) i payload.intents m)) in
            let meant : p row ≡ true = rw (h.named, text_eq_refl id, ours) refl in
            In-map (λ j. j.intent_id) row (I.find_many p t.1)
              (I.find_many-In p t.1 row kept meant))))

  -- The next read finds the receipt, and every intent of the result is among its intents.
  Kept : (scope : ReceiptScope) (payload : Payload) (c : Committed) (t : Tables R I) → Type 0
  Kept scope payload c t =
      Keeps scope payload c t
      × All
          (λ id. In id (
            map (λ i. i.intent_id)
              (I.find_many (intents_of c.receipt_id scope.organization_id) t.1)))
          c.intent_ids

  IsSettled-Kept :
      (scope : ReceiptScope) (payload : Payload) (now : ℕ) (s t : Tables R I) (c : Committed)
      → IsSettled R I scope payload now s c t
      → Kept scope payload c t
  unfolding Kept
  IsSettled-Kept scope payload now s t c h = (
    IsSettled-Keeps scope payload now s t c h,
    rw (h.result, h.unchanged) (All-of_In _ _ (λ id m. m)),
  )

  module _ (scope : ReceiptScope) (first again : Payload) (now later : ℕ)
      (meanwhile between : Tables R I → Tables R I) (s t : Tables R I) (c : Committed) where
    commit-Kept :
        commit_receipt_with_intents R I scope first now meanwhile s ≡ ok (c, t)
        → Kept scope first c t
    unfolding Kept
    commit-Kept e =
        let (fine, done) =
          commit_receipt_with_intents_cases R I scope first now meanwhile s t c e in
        elim done [
          | inl h ↦ IsSettled-Kept scope first now s t c h
          | inr (inl h) ↦ (
            IsAdded-Keeps scope first now (meanwhile s) t c h,
            IsAdded-listed scope first now (meanwhile s) t c fine h,
          )
          | inr (inr h) ↦ IsSettled-Kept scope first now (meanwhile s) t c h
        ]

    -- The same event again, with the same digest, whatever its other fields and whatever others commit
    -- between the reads and the inserts of the two calls (but nothing from the first call to the second):
    -- nothing is created, the tables stay as they are, and the result names the same receipt and
    -- every intent of the first result (the payload passes the checks of the scope).
    pub recommit_same :
        commit_receipt_with_intents R I scope first now meanwhile s ≡ ok (c, t)
        → scope_error scope again ≡ none
        → again.receipt.payload_digest ≡ first.receipt.payload_digest
        → (d : Committed) × (commit_receipt_with_intents R I scope again later between t
            ≡ ok (d, t))
          × (d.created ≡ false)
          × (d.receipt_id ≡ c.receipt_id)
          × All (λ id. In id d.intent_ids) c.intent_ids
    unfolding commit_receipt_with_intents settle Kept
    recommit_same e fine same =
        let (kept, listed) = commit-Kept e in
        let digest : text_eq kept.row.payload_digest again.receipt.payload_digest ≡ true =
          (text_eq_iff _ _).1 (kept.digest ∙ sym same) in
        (
          record {
            created = false;
            receipt_id = kept.row.receipt_id;
            intent_ids =
                map (λ i. i.intent_id)
                  (I.find_many (intents_of kept.row.receipt_id scope.organization_id) t.1);
            receipt_row_version = kept.row.attempts;
          },
          rw (fine, commit_receipt_with_intents, kept.found, digest, settle) refl,
          refl,
          kept.named,
          rw kept.named listed,
        )

    -- The same event again with another digest is refused as a conflict, and a refused call is rolled
    -- back (the payload passes the checks of the scope).
    pub recommit_other :
        commit_receipt_with_intents R I scope first now meanwhile s ≡ ok (c, t)
        → scope_error scope again ≡ none
        → again.receipt.payload_digest ≢ first.receipt.payload_digest
        → commit_receipt_with_intents R I scope again later between t ≡ throws idempotency_conflict
    unfolding commit_receipt_with_intents settle Kept
    recommit_other e fine other =
        let (kept, _) = commit-Kept e in
        elim (Bool-cases (text_eq kept.row.payload_digest again.receipt.payload_digest)) [
          | inl f ↦ absurd (other (sym ((text_eq_iff _ _).0 f) ∙ kept.digest))
          | inr f ↦ rw (fine, commit_receipt_with_intents, kept.found, f, settle) refl
        ]

module _ (R : Table Receipt) (I : Table Intent) where
  -- While a receipt with the id of the event is there and none of its scope, a commit of the event
  -- with nothing else committed meanwhile fails with an error that asks for a retry, at every time and
  -- for every payload that passes the checks of the scope.
  pub prefix_collision :
      (scope : ReceiptScope) (payload : Payload) (now : ℕ) (s : Tables R I) (r : Receipt)
      → scope_error scope payload ≡ none
      → R.find_first (by_scope scope) s.0 ≡ none
      → In r (R.rows s.0)
      → r.receipt_id ≡ new_receipt_id scope.organization_id scope.event_id
      → commit_receipt_with_intents R I scope payload now (λ u. u) s ≡ throws insert_invisible
  unfolding commit_receipt_with_intents insert_receipt receipt_row receipt_conflicts
  prefix_collision scope payload now s r fine missing there same =
      let id = new_receipt_id scope.organization_id scope.event_id in
      elim (Option-cases
        (R.insert (receipt_conflicts scope id) (receipt_row scope payload now) s.0)) [
          | inl e ↦ rw (fine, commit_receipt_with_intents, missing, e, insert_receipt, missing) refl
          | inr (u, e) ↦
              let free = All-In _ (R.rows s.0) (R.insert-some _ _ s.0 u e).0 there in
              let equal = (text_eq_iff r.receipt_id id).1 same in absurd (ground arith)
        ]
