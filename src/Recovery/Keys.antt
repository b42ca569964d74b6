-- ===== src/Recovery/Keys.antt =====
-- kill-switch.ts: one receipt for each idempotency key.
use hrp_crm.Base.{
  ℕ, ◌≡◌, ◌≢◌, refl, sym, ◌∙◌, inl, inr, false, Option, none, some, List, [], ◌∷◌, ◌++◌, map, Text,
  text_eq, text_eq_iff, text_eq_refl, is_empty, In, All, All-mono, Distinct, Bool-cases,
  Option-cases,
}
use hrp_crm.Recovery.{
  Recovery, RegisterArgs, find_receipt, lookup_key, put_key, receipt_id_of, new_receipt, truthy,
  register, mark_applied, mark_failed, resolve, to_applied, to_failed, is_applied, is_failed,
}
use hrp_crm.Recovery.Invariant.{
  lookup_key-put_key, All-put_key, names, All-snoc, In-snoc, In-init, Distinct-snoc,
  names-put_receipt, names-change,
}

-- The index finds each receipt by its key and only receipts; ids are distinct and not empty.
pub record IndexAgrees (ps es : List (Text × Text)) : Type 0 where
  pub distinct : Distinct (map (λ p. p.0) ps)
  pub indexed : All (λ p. (lookup_key p.1 es ≡ some p.0) × (is_empty p.0 ≡ false)) ps
  pub known : All (λ e. In (e.1, e.0) ps) es

abbrev pub WellIndexed : Recovery → Type 0
WellIndexed l = IndexAgrees (names l.receipts) l.by_idempotency_key

-- A key the index has no id for has no receipt.
key_free :
    (k : Text) (ps es : List (Text × Text))
    → truthy (lookup_key k es) ≡ none
    → All (λ p. (lookup_key p.1 es ≡ some p.0) × (is_empty p.0 ≡ false)) ps
    → All (λ p. p.1 ≢ k) ps
key_free k ps es free h =
    All-mono (λ p. (lookup_key p.1 es ≡ some p.0) × (is_empty p.0 ≡ false)) (λ p. p.1 ≢ k) ps
      (λ p found e.
        let f : truthy (lookup_key p.1 es) ≡ none = rw e free in
        let g : ◌≡◌ {A = Option Text} (some p.0) none = rw (found.0, found.1) at f in cc)
      h

IndexAgrees-new :
    (k id : Text) (ps es : List (Text × Text))
    → is_empty id ≡ false
    → All (λ p. p.0 ≢ id) ps
    → truthy (lookup_key k es) ≡ none
    → IndexAgrees ps es
    → IndexAgrees (ps ++ (id, k) ∷ []) (put_key k id es)
IndexAgrees-new k id ps es filled fresh free h = record {
  distinct = Distinct-snoc (id, k) ps fresh h.distinct;
  indexed =
      All-snoc _ (id, k) ps (kept ps h.indexed (key_free k ps es free h.indexed))
        (lookup_key-put_key k k id es ∙ rw (text_eq_refl k) refl, filled);
  known =
      All-put_key _ k id es (In-snoc (id, k) ps)
        (All-mono (λ e. In (e.1, e.0) ps) _ es (λ e m. In-init (e.1, e.0) (id, k) ps m) h.known);
}
  where
    kept :
        (qs : List (Text × Text))
        → All (λ p. (lookup_key p.1 es ≡ some p.0) × (is_empty p.0 ≡ false)) qs
        → All (λ p. p.1 ≢ k) qs
        → All (λ p. (lookup_key p.1 (put_key k id es) ≡ some p.0) × (is_empty p.0 ≡ false)) qs
    kept [] a b = tt
    kept (q ∷ qs) a b =
        let other : text_eq k q.1 ≡ false = elim (Bool-cases (text_eq k q.1)) [
          | inl g ↦ absurd (b.0 (sym ((text_eq_iff k q.1).0 g)))
          | inr g ↦ g
        ] in
        ((lookup_key-put_key k q.1 id es ∙ rw other a.0.0, a.0.1), kept qs a.1 b.1)

abbrev pub FreshFor : Text → Recovery → Type 0
FreshFor uuid l = All (λ p. p.0 ≢ receipt_id_of uuid) (names l.receipts)

pub register-WellIndexed :
    (args : RegisterArgs) (uuid : Text) (now : ℕ) (l : Recovery)
    → FreshFor uuid l
    → WellIndexed l
    → WellIndexed (register args uuid now l).1
unfolding register
register-WellIndexed args uuid now l fresh h =
    elim (Option-cases (truthy (lookup_key args.idempotency_key l.by_idempotency_key))) [
      | inr (id, e) ↦ rw (e, register) h
      | inl e ↦
          rw (e, register, names-put_receipt (new_receipt args uuid now) l.receipts fresh)
            (IndexAgrees-new args.idempotency_key (receipt_id_of uuid) (names l.receipts)
              l.by_idempotency_key refl fresh e h)
    ]

pub mark_applied-WellIndexed :
    (id : Text) (now : ℕ) (l : Recovery) → WellIndexed l → WellIndexed (mark_applied id now l)
unfolding mark_applied
mark_applied-WellIndexed id now l h = elim (Option-cases (find_receipt id l.receipts)) [
  | inl e ↦ rw (e, mark_applied) h
  | inr (r, e) ↦ elim (Bool-cases (is_applied r.state)) [
    | inl f ↦ rw (e, mark_applied, f) h
    | inr f ↦
        rw (e, mark_applied, f, names-change id (to_applied now) l.receipts (λ t. refl) (λ t. refl))
          h
  ]
]

pub mark_failed-WellIndexed :
    (id reason : Text) (l : Recovery) → WellIndexed l → WellIndexed (mark_failed id reason l)
unfolding mark_failed
mark_failed-WellIndexed id reason l h = elim (Option-cases (find_receipt id l.receipts)) [
  | inl e ↦ rw (e, mark_failed) h
  | inr (r, e) ↦ elim (Bool-cases (is_failed r.state)) [
    | inl f ↦ rw (e, mark_failed, f) h
    | inr f ↦
        rw
          (e, mark_failed, f, names-change id (to_failed reason) l.receipts (λ t. refl) (λ t. refl))
          h
  ]
]

pub resolve-WellIndexed :
    (id : Text) (now later : ℕ) (l : Recovery)
    → WellIndexed l
    → WellIndexed (resolve id now later l).1
unfolding resolve
resolve-WellIndexed id now later l h = elim (Option-cases (find_receipt id l.receipts)) [
  | inl e ↦ rw (e, resolve) h
  | inr (r, e) ↦ elim (Bool-cases (is_applied r.state)) [
    | inl f ↦ rw (e, resolve, f) h
    | inr f ↦
        rw (e, resolve, f, names-change id (to_applied now) l.receipts (λ t. refl) (λ t. refl)) h
  ]
]
