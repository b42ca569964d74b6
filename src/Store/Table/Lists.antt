-- ===== src/Store/Table/Lists.antt =====
-- A table as the list of its rows, in the order of their insertion: what is relied on of the
-- database can hold.
use hrp_crm.Base.{
  ℕ, zero, suc, ◌≤◌, ◌≡◌, refl, sym, subst, ◌⊎◌, inl, inr, Bool, true, false, Option, none, some,
  List, [], ◌∷◌, ◌++◌, In, All, All-In, All-mono, All-of_In, count, update_where, find, select,
  take, leb, if◌then◌else◌, arith, Bool-cases, Option-cases, List-cases, sort_by, IsSorted,
  All-sort_by, All-of_sort_by, sort_by-IsSorted,
}
use native.Mathlib.Nat.{le_refl}
use hrp_crm.Store.Table.{Table}

module _ {Row : Type 0} where
  abbrev by_key : (Row → ℕ) → Row → Row → Bool
  by_key k x y = leb (k x) (k y)

  pub find-some :
      (p : Row → Bool) (s : List Row) (r : Row) → find p s ≡ some r → In r s × (p r ≡ true)
  find-some p [] r e = cc
  find-some p (x ∷ xs) r e = here (find-some p xs r) (Bool-cases (p x)) e
    where
      here :
          (find p xs ≡ some r → In r xs × (p r ≡ true))
          → ((p x ≡ true) ⊎ (p x ≡ false))
          → (if p x then some x else find p xs) ≡ some r
          → ((r ≡ x) ⊎ In r xs) × (p r ≡ true)
      here rest (inl h) = rw h (λ f. let same : r ≡ x = cc in (inl same, rw same h))
      here rest (inr h) = rw h (λ f. let q = rest f in (inr q.0, q.1))

  pub find-none : (p : Row → Bool) (s : List Row) → find p s ≡ none → All (λ r. p r ≡ false) s
  find-none p [] e = tt
  find-none p (x ∷ xs) e = here (find-none p xs) (Bool-cases (p x)) e
    where
      here :
          (find p xs ≡ none → All (λ r. p r ≡ false) xs)
          → ((p x ≡ true) ⊎ (p x ≡ false))
          → (if p x then some x else find p xs) ≡ none
          → (p x ≡ false) × All (λ r. p r ≡ false) xs
      here rest (inl h) = rw h (λ f. cc)
      here rest (inr h) = rw h (λ f. (refl, rest f))

  pub In-select :
      (p : Row → Bool) (s : List Row) (r : Row) → In r s → p r ≡ true → In r (select p s)
  In-select p [] r m e = m
  In-select p (x ∷ xs) r (inl q) e = rw (← q, e) (inl refl)
  In-select p (x ∷ xs) r (inr m) e = elim (Bool-cases (p x)) [
    | inl h ↦ rw h (inr (In-select p xs r m e))
    | inr h ↦ rw h (In-select p xs r m e)
  ]

  pub All-select :
      (p : Row → Bool) (s t : List Row)
      → ((r : Row) → In r s → In r t)
      → All (λ r. In r t × (p r ≡ true)) (select p s)
  All-select p [] t h = tt
  All-select p (x ∷ xs) t h = elim (Bool-cases (p x)) [
    | inl e ↦ rw e ((h x (inl refl), e), All-select p xs t (λ r m. h r (inr m)))
    | inr e ↦ rw e (All-select p xs t (λ r m. h r (inr m)))
  ]

  select-nil : (p : Row → Bool) (s : List Row) → select p s ≡ [] → All (λ r. p r ≡ false) s
  select-nil p s e =
      All-of_In (λ r. p r ≡ false) s
        λ r m. elim (Bool-cases (p r)) [
          | inl h ↦ absurd (subst (In r) e (In-select p s r m h))
          | inr h ↦ h
        ]

  sort_by-nil : (le : Row → Row → Bool) (xs : List Row) → sort_by le xs ≡ [] → xs ≡ []
  sort_by-nil le [] e = refl
  sort_by-nil le (x ∷ xs) e =
      let never : All (λ _. ⊥) (sort_by le (x ∷ xs)) = rw e tt in
      absurd (All-of_sort_by (λ _. ⊥) le (x ∷ xs) never).0

  sort_by-IsSorted_key : (k : Row → ℕ) (xs : List Row) → IsSorted (by_key k) (sort_by (by_key k) xs)
  sort_by-IsSorted_key k xs =
      sort_by-IsSorted (by_key k) (λ x y h. ground arith) (λ x y z h g. ground arith) xs

  unfoldable pub select_oldest : (Row → Bool) → (Row → ℕ) → ℕ → List Row → List Row
  select_oldest p k n s = take n (sort_by (by_key k) (select p s))

  pub select_oldest-zero :
      (p : Row → Bool) (k : Row → ℕ) (s : List Row) → select_oldest p k 0 s ≡ []
  unfolding select_oldest
  select_oldest-zero p k s = refl

  pub select_oldest-nil :
      (p : Row → Bool) (k : Row → ℕ) (n : ℕ) (s : List Row)
      → select_oldest p k (suc n) s ≡ []
      → All (λ r. p r ≡ false) s
  unfolding select_oldest
  select_oldest-nil p k n s e = elim (List-cases (sort_by (by_key k) (select p s))) [
    | inl h ↦ select-nil p s (sort_by-nil (by_key k) (select p s) h)
    | inr (x, xs, h) ↦ let f : ◌≡◌ {A = List Row} (take (suc n) (x ∷ xs)) [] = rw h at e in cc
  ]

  pub select_oldest-cons :
      (p : Row → Bool) (k : Row → ℕ) (n : ℕ) (s : List Row) (r : Row) (rs : List Row)
      → select_oldest p k n s ≡ r ∷ rs
      → In r s × (p r ≡ true) × All (λ q. p q ≡ true → k r ≤ k q) s
  unfolding select_oldest
  select_oldest-cons p k zero s r rs e = cc
  select_oldest-cons p k (suc n) s r rs e = elim (List-cases (sort_by (by_key k) (select p s))) [
    | inl h ↦ let f : ◌≡◌ {A = List Row} (take (suc n) []) (r ∷ rs) = rw h at e in cc
    | inr (x, xs, h) ↦
        let f : ◌≡◌ {A = List Row} (take (suc n) (x ∷ xs)) (r ∷ rs) = rw h at e in
        let same : x ≡ r = cc in
        let chosen : All (λ q. In q s × (p q ≡ true)) (x ∷ xs) = subst (All _) h (
          All-sort_by (λ q. In q s × (p q ≡ true)) (by_key k) (select p s)
            (All-select p s s (λ q m. m))) in
        let sorted : IsSorted (by_key k) (x ∷ xs) =
          subst (IsSorted (by_key k)) h (sort_by-IsSorted_key k (select p s)) in
        let least : All (λ q. k x ≤ k q) (x ∷ xs) = (
          le_refl (k x),
          All-mono (λ q. leb (k x) (k q) ≡ true) (λ q. k x ≤ k q) xs (λ q g. ground arith) sorted.0,
        ) in
        let among : All (λ q. k x ≤ k q) (select p s) =
          All-of_sort_by (λ q. k x ≤ k q) (by_key k) (select p s) (subst (All _) (sym h) least) in
        rw (← same) (
          chosen.0.0,
          chosen.0.1,
          All-of_In (λ q. p q ≡ true → k x ≤ k q) s
              λ q m g. All-In (λ q. k x ≤ k q) (select p s) among (In-select p s q m g),
        )
  ]

  unfoldable pub update : (Row → Bool) → (Row → Row) → List Row → Option (Row × List Row)
  update p f s = elim (find p s) [ none ↦ none | some r ↦ some (f r, update_where p f s) ]

  pub update-some :
      (p : Row → Bool) (f : Row → Row) (s : List Row) (u : Row) (t : List Row)
      → update p f s ≡ some (u, t)
      → ((r : Row) × In r s × (p r ≡ true) × (u ≡ f r)) × (t ≡ update_where p f s)
  unfolding update
  update-some p f s u t e = elim (Option-cases (find p s)) [
    | inl h ↦
        let g : ◌≡◌ {A = Option (Row × List Row)} none (some (u, t)) = rw (h, update) at e in cc
    | inr (r, h) ↦
        let g : ◌≡◌ {A = Option (Row × List Row)} (some (f r, update_where p f s)) (some (u, t)) =
          rw (h, update) at e in
        let (m, q) = find-some p s r h in ((r, m, q, cc), cc)
  ]

  pub update-none :
      (p : Row → Bool) (f : Row → Row) (s : List Row)
      → update p f s ≡ none
      → All (λ r. p r ≡ false) s
  unfolding update
  update-none p f s e = elim (Option-cases (find p s)) [
    | inl h ↦ find-none p s h
    | inr (r, h) ↦
        let g : ◌≡◌ {A = Option (Row × List Row)} (some (f r, update_where p f s)) none =
          rw (h, update) at e in
        cc
  ]

  unfoldable pub insert : (Row → Bool) → Row → List Row → Option (List Row)
  insert p r s = elim (find p s) [ none ↦ some (s ++ r ∷ []) | some _ ↦ none ]

  pub insert-some :
      (p : Row → Bool) (r : Row) (s t : List Row)
      → insert p r s ≡ some t
      → All (λ q. p q ≡ false) s × (t ≡ s ++ r ∷ [])
  unfolding insert
  insert-some p r s t e = elim (Option-cases (find p s)) [
    | inl h ↦
        let g : ◌≡◌ {A = Option (List Row)} (some (s ++ r ∷ [])) (some t) = rw (h, insert) at e in
        (find-none p s h, cc)
    | inr (q, h) ↦ let g : ◌≡◌ {A = Option (List Row)} none (some t) = rw (h, insert) at e in cc
  ]

  pub insert-none :
      (p : Row → Bool) (r : Row) (s : List Row)
      → insert p r s ≡ none
      → (q : Row) × In q s × (p q ≡ true)
  unfolding insert
  insert-none p r s e = elim (Option-cases (find p s)) [
    | inl h ↦
        let g : ◌≡◌ {A = Option (List Row)} (some (s ++ r ∷ [])) none = rw (h, insert) at e in cc
    | inr (q, h) ↦ let (m, g) = find-some p s q h in (q, m, g)
  ]

  abbrev pub list_table : Table Row
  list_table = record {
    State = List Row;
    rows = λ s. s;
    find_first = find;
    select_oldest = select_oldest;
    find_many = select;
    update = update;
    update_many = λ p f s. (update_where p f s, count p s);
    insert = insert;
    find_first-some = find-some;
    find_first-none = find-none;
    select_oldest-zero = select_oldest-zero;
    select_oldest-nil = select_oldest-nil;
    select_oldest-cons = select_oldest-cons;
    find_many-In = In-select;
    find_many-of_In =
        λ p s r m. All-In (λ r. In r s × (p r ≡ true)) (select p s) (All-select p s s (λ q n. n)) m;
    update-some = update-some;
    update-none = update-none;
    rows-update_many = λ p f s. refl;
    count-update_many = λ p f s. refl;
    insert-some = insert-some;
    insert-none = insert-none;
  }
