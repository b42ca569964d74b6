-- ===== src/Recovery/Invariant.antt =====
-- kill-switch.ts: the ids and keys of the ledger under its operations.
use hrp_crm.Base.{
  ◌≡◌, ◌≢◌, refl, sym, ◌∙◌, inl, inr, false, if◌then◌else◌, some, List, [], ◌∷◌, ◌++◌, map, Text,
  text_eq, text_eq_iff, ne-of_text_eq, In, All, Distinct, Bool-cases,
}
use hrp_crm.Recovery.{RecoveryReceipt, has_id, put_receipt, lookup_key, put_key, change}

pub lookup_key-put_key :
    (k j id : Text) (es : List (Text × Text))
    → lookup_key j (put_key k id es) ≡ (if text_eq k j then some id else lookup_key j es)
unfolding lookup_key put_key
lookup_key-put_key k j id [] = refl
lookup_key-put_key k j id ((i, old) ∷ es) = elim (Bool-cases (text_eq i k)) [
  | inl e ↦
      let same : i ≡ k = (text_eq_iff i k).0 e in
      elim (Bool-cases (text_eq k j)) [
        | inl h ↦ rw (e, same, h) refl
        | inr h ↦ rw (e, same, h) refl
      ]
  | inr e ↦ elim (Bool-cases (text_eq i j)) [
    | inl h ↦
        let other : text_eq k j ≡ false = elim (Bool-cases (text_eq k j)) [
          | inl g ↦
              absurd (ne-of_text_eq i k e ((text_eq_iff i j).0 h ∙ sym ((text_eq_iff k j).0 g)))
          | inr g ↦ g
        ] in
        rw (e, h, other) refl
    | inr h ↦ rw (e, h) (lookup_key-put_key k j id es)
  ]
]

pub All-put_key :
    (P : Text × Text → Type 0) (k id : Text) (es : List (Text × Text))
    → P (k, id)
    → All P es
    → All P (put_key k id es)
unfolding put_key
All-put_key P k id [] here h = (here, tt)
All-put_key P k id ((j, old) ∷ es) here h = elim (Bool-cases (text_eq j k)) [
  | inl e ↦ rw e (rw ((text_eq_iff j k).0 e) here, h.1)
  | inr e ↦ rw e (h.0, All-put_key P k id es here h.1)
]

-- The ids and keys of the receipts.
abbrev pub names : List RecoveryReceipt → List (Text × Text)
names rs = map (λ r. (r.receipt_id, r.idempotency_key)) rs

pub All-snoc :
    (P : Text × Text → Type 0) (x : Text × Text) (xs : List (Text × Text))
    → All P xs
    → P x
    → All P (xs ++ x ∷ [])
All-snoc P x [] h here = (here, tt)
All-snoc P x (y ∷ ys) h here = (h.0, All-snoc P x ys h.1 here)

pub In-snoc : (x : Text × Text) (xs : List (Text × Text)) → In x (xs ++ x ∷ [])
In-snoc x [] = inl refl
In-snoc x (y ∷ ys) = inr (In-snoc x ys)

pub In-init : (x y : Text × Text) (xs : List (Text × Text)) → In x xs → In x (xs ++ y ∷ [])
In-init x y [] m = absurd m
In-init x y (z ∷ zs) (inl e) = inl e
In-init x y (z ∷ zs) (inr m) = inr (In-init x y zs m)

pub Distinct-snoc :
    (x : Text × Text) (xs : List (Text × Text))
    → All (λ y. y.0 ≢ x.0) xs
    → Distinct (map (λ p. p.0) xs)
    → Distinct (map (λ p. p.0) (xs ++ x ∷ []))
Distinct-snoc x [] fresh d = (tt, tt)
Distinct-snoc x (y ∷ ys) fresh d = (ahead ys fresh.0 d.0, Distinct-snoc x ys fresh.1 d.1)
  where
    ahead :
        (zs : List (Text × Text))
        → y.0 ≢ x.0
        → All (λ t. y.0 ≢ t) (map (λ p. p.0) zs)
        → All (λ t. y.0 ≢ t) (map (λ p. p.0) (zs ++ x ∷ []))
    ahead [] other h = (other, tt)
    ahead (z ∷ zs) other h = (h.0, ahead zs other h.1)

-- A receipt with a new id goes to the end.
pub names-put_receipt :
    (r : RecoveryReceipt) (rs : List RecoveryReceipt)
    → All (λ p. p.0 ≢ r.receipt_id) (names rs)
    → names (put_receipt r rs) ≡ names rs ++ (r.receipt_id, r.idempotency_key) ∷ []
unfolding put_receipt
names-put_receipt r [] fresh = refl
names-put_receipt r (x ∷ xs) fresh = elim (Bool-cases (has_id r.receipt_id x)) [
  | inl e ↦ absurd (fresh.0 ((text_eq_iff x.receipt_id r.receipt_id).0 e))
  | inr e ↦ rw (e, names-put_receipt r xs fresh.1) refl
]

pub names-change :
    (id : Text) (f : RecoveryReceipt → RecoveryReceipt) (rs : List RecoveryReceipt)
    → ((r : RecoveryReceipt) → (f r).receipt_id ≡ r.receipt_id)
    → ((r : RecoveryReceipt) → (f r).idempotency_key ≡ r.idempotency_key)
    → names (change id f rs) ≡ names rs
names-change id f [] i k = refl
names-change id f (r ∷ rs) i k = elim (Bool-cases (has_id id r)) [
  | inl e ↦ rw (e, i r, k r, names-change id f rs i k) refl
  | inr e ↦ rw (e, names-change id f rs i k) refl
]
