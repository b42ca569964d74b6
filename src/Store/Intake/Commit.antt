-- ===== src/Store/Intake/Commit.antt =====
-- event-receipt.ts: what a commit that comes to a result has done.
use hrp_crm.Base.{
  ℕ, ◌≡◌, sym, ◌∙◌, ap, ◌⊎◌, inl, inr, true, false, none, some, List, [], ◌∷◌, ◌++◌, map, Text,
  text_eq, text_eq_iff, All, Bool-cases, Option-cases,
}
use hrp_crm.Store.Table.{Table}
use hrp_crm.Store.{Receipt, Intent, Outcome, ok, throws, unique_violation, ◌>>=◌, ok-injective}
use hrp_crm.Store.Lease.Ops.{ReceiptScope, by_scope}
use hrp_crm.Store.Intake.{
  IntentInput, Payload, Committed, receipt_row, intent_row, receipt_conflicts, intent_conflicts,
  intents_of, idempotency_conflict, insert_invisible, scope_error, settle, create_intents,
  insert_receipt, commit_receipt_with_intents, Tables,
}
use hrp_crm.Base.{append-nil, append-snoc}
use hrp_crm.Store.{bind-ok}

module _ (R : Table Receipt) (I : Table Intent) where
  pub create_intents-rows :
      (receipt_id : Text) (now : ℕ) (is : List IntentInput) (s t : I.State) (ids : List Text)
      → create_intents R I receipt_id now is s ≡ ok (ids, t)
      → (I.rows t ≡ I.rows s ++ map (intent_row receipt_id now) is)
        × (ids ≡ map (λ i. i.intent_id) is)
  unfolding create_intents
  create_intents-rows receipt_id now [] s t ids e =
      let same : ([], s) ≡ (ids, t) = ok-injective e in
      (rw (ap (λ p. p.1) (sym same)) (sym (append-nil (I.rows s))), ap (λ p. p.0) (sym same))
  create_intents-rows receipt_id now (i ∷ is) s t ids e =
      let row = intent_row receipt_id now i in
      elim (Option-cases (I.insert (intent_conflicts i.intent_id) row s)) [
        | inl f ↦
            let g : ◌≡◌ {A = Outcome (List Text × I.State)} unique_violation (ok (ids, t)) =
              rw (f, create_intents) at e in
            cc
        | inr (u, f) ↦
            let g : (do
              rest ← create_intents R I receipt_id now is u
              ok (i.intent_id ∷ rest.0, rest.1))
                ≡ ok (ids, t) =
              rw (f, create_intents) at e in
            let (rest, h, k) = bind-ok (create_intents R I receipt_id now is u) _ (ids, t) g in
            let same = ok-injective k in
            let (added, named) = create_intents-rows receipt_id now is u rest.1 rest.0 h in
            (
              ap (λ p. I.rows p.1) (sym same)
                  ∙ added
                  ∙ ap (λ rs. rs ++ map (intent_row receipt_id now) is)
                      (I.insert-some _ row s u f).1
                  ∙ append-snoc (I.rows s) row (map (intent_row receipt_id now) is),
              ap (λ p. p.0) (sym same) ∙ ap (λ xs. i.intent_id ∷ xs) named,
            )
      ]

  module _ (scope : ReceiptScope) (payload : Payload) (now : ℕ) where
    -- A receipt and its intents have been added together, to what was there at the insert.
    pub record IsAdded (s : Tables R I) (c : Committed) (t : Tables R I) : Type 0 where
      pub absent :
          All
            (λ r. receipt_conflicts scope (receipt_row scope payload now).receipt_id r ≡ false)
            (R.rows s.0)
      pub receipts : R.rows t.0 ≡ R.rows s.0 ++ receipt_row scope payload now ∷ []
      pub intents :
          I.rows t.1
          ≡ I.rows s.1
            ++ map (intent_row (receipt_row scope payload now).receipt_id now) payload.intents
      pub created : c.created ≡ true
      pub named : c.receipt_id ≡ (receipt_row scope payload now).receipt_id
      pub listed : c.intent_ids ≡ map (λ i. i.intent_id) payload.intents

    -- A receipt of the scope with the same digest was there already, and nothing has changed.
    pub record IsSettled (s : Tables R I) (c : Committed) (t : Tables R I) : Type 0 where
      pub row : Receipt
      pub found : R.find_first (by_scope scope) s.0 ≡ some row
      pub digest : row.payload_digest ≡ payload.receipt.payload_digest
      pub result : c ≡ record {
        created = false;
        receipt_id = row.receipt_id;
        intent_ids =
            map
              (λ i. i.intent_id)
              (I.find_many (intents_of row.receipt_id scope.organization_id) s.1);
        receipt_row_version = row.attempts;
      }
      pub unchanged : t ≡ s

    settle-IsSettled :
        (s t : Tables R I) (c : Committed) (row : Receipt)
        → R.find_first (by_scope scope) s.0 ≡ some row
        → settle R I scope payload row s ≡ ok (c, t)
        → IsSettled s c t
    unfolding settle
    settle-IsSettled s t c row found e =
        elim (Bool-cases (text_eq row.payload_digest payload.receipt.payload_digest)) [
          | inr f ↦
              let g : ◌≡◌ {A = Outcome (Committed × Tables R I)} (throws idempotency_conflict)
                  (ok (c, t)) =
                rw (f, settle) at e in
              cc
          | inl f ↦
              let same = ok-injective (rw (f, settle) at e) in
              record {
                row = row;
                found = found;
                digest = (text_eq_iff _ _).0 f;
                result = ap (λ p. p.0) (sym same);
                unchanged = ap (λ p. p.1) (sym same);
              }
        ]

    insert_receipt_cases :
        (s t : Tables R I) (c : Committed)
        → insert_receipt R I scope payload now s ≡ ok (c, t)
        → IsAdded s c t ⊎ IsSettled s c t
    unfolding insert_receipt
    insert_receipt_cases s t c e =
        let row = receipt_row scope payload now in
        elim (Option-cases (R.insert (receipt_conflicts scope row.receipt_id) row s.0)) [
          | inl f ↦ elim (Option-cases (R.find_first (by_scope scope) s.0)) [
            | inl g ↦
                let h : ◌≡◌ {A = Outcome (Committed × Tables R I)} (throws insert_invisible)
                    (ok (c, t)) =
                  rw (f, g, insert_receipt) at e in
                cc
            | inr (raced, g) ↦ inr (settle-IsSettled s t c raced g (rw (f, g, insert_receipt) at e))
          ]
          | inr (receipts, f) ↦
              let (made, h, k) =
                bind-ok (create_intents R I row.receipt_id now payload.intents s.1) _ (c, t)
                  (rw (f, insert_receipt) at e) in
              let same = ok-injective k in
              let (rows, names) =
                create_intents-rows row.receipt_id now payload.intents s.1 made.1 made.0 h in
              let (free, added) = R.insert-some _ row s.0 receipts f in
              inl (record {
                absent = free;
                receipts = ap (λ p. R.rows p.1.0) (sym same) ∙ added;
                intents = ap (λ p. I.rows p.1.1) (sym same) ∙ rows;
                created = ap (λ p. p.0.created) (sym same);
                named = ap (λ p. p.0.receipt_id) (sym same);
                listed = ap (λ p. p.0.intent_ids) (sym same) ∙ names;
              })
        ]

    -- A commit that comes to a result has passed the checks of the scope, and found the receipt there
    -- or added it with its intents, at once or among what others have committed meanwhile.
    pub commit_receipt_with_intents_cases :
        (meanwhile : Tables R I → Tables R I) (s t : Tables R I) (c : Committed)
        → commit_receipt_with_intents R I scope payload now meanwhile s ≡ ok (c, t)
        → (scope_error scope payload ≡ none)
          × (IsSettled s c t ⊎ (IsAdded (meanwhile s) c t ⊎ IsSettled (meanwhile s) c t))
    unfolding commit_receipt_with_intents
    commit_receipt_with_intents_cases meanwhile s t c e =
        elim (Option-cases (scope_error scope payload)) [
          | inr (x, f) ↦
              let g : ◌≡◌ {A = Outcome (Committed × Tables R I)} (throws x) (ok (c, t)) =
                rw (f, commit_receipt_with_intents) at e in
              cc
          | inl f ↦ (
            f,
            elim (Option-cases (R.find_first (by_scope scope) s.0)) [
              | inl g ↦ inr (
                  insert_receipt_cases (meanwhile s) t c
                    (rw (f, g, commit_receipt_with_intents) at e))
              | inr (row, g) ↦
                  inl (settle-IsSettled s t c row g (rw (f, g, commit_receipt_with_intents) at e))
            ],
          )
        ]
