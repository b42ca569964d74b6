-- ===== src/Gateway/Ring.antt =====
-- ledger.ts: the ring buffer holds the newest entries.
use native.Mathlib.Nat.{mod-eq_of_lt, mod_self, mod-lt}
use hrp_crm.Base.{
  ℕ, zero, suc, ◌+◌, ◌-◌, ◌%◌, ◌≤◌, ◌<◌, ◌≡◌, refl, sym, ◌∙◌, ap, subst, inl, inr, ltb, List, [],
  ◌∷◌, ◌++◌, length, take, min, ltb→lt, Bool-cases, arith, append-nil, append-snoc,
}
use hrp_crm.Gateway.{set_at, CallLedger, new_ledger, append, append_each}

module _ {A : Type 0} where
  abbrev pub drop : ℕ → List A → List A
  drop zero xs = xs
  drop (suc n) [] = []
  drop (suc n) (x ∷ xs) = drop n xs

  -- A list split at an index that it has.
  split_at :
      (i : ℕ) (xs : List A)
      → i < length xs
      → (ys : List A) × (x : A) × (zs : List A) × (xs ≡ ys ++ x ∷ zs) × (length ys ≡ i)
  split_at i [] h = absurd (omega (arith, h))
  split_at zero (x ∷ xs) h = ([], x, xs, refl, refl)
  split_at (suc i) (x ∷ xs) h =
      let (ys, y, zs, e, n) = split_at i xs (omega (arith, h)) in
      (x ∷ ys, y, zs, ap (λ t. x ∷ t) e, ap suc n)

  set_at-append : (ys zs : List A) (x e : A) → set_at (length ys) e (ys ++ x ∷ zs) ≡ ys ++ e ∷ zs
  unfolding set_at
  set_at-append [] zs x e = refl
  set_at-append (y ∷ ys) zs x e = ap (λ t. y ∷ t) (set_at-append ys zs x e)

  drop-append : (ys zs : List A) → drop (length ys) (ys ++ zs) ≡ zs
  drop-append [] zs = refl
  drop-append (y ∷ ys) zs = drop-append ys zs

  take-append : (ys zs : List A) → take (length ys) (ys ++ zs) ≡ ys
  take-append [] zs = refl
  take-append (y ∷ ys) zs = ap (λ t. y ∷ t) (take-append ys zs)

  length-append : (ys zs : List A) → length (ys ++ zs) ≡ length ys + length zs
  length-append [] zs = omega arith
  length-append (y ∷ ys) zs = omega (arith, length-append ys zs)

  append_assoc : (xs ys zs : List A) → (xs ++ ys) ++ zs ≡ xs ++ (ys ++ zs)
  append_assoc [] ys zs = refl
  append_assoc (x ∷ xs) ys zs = ap (λ t. x ∷ t) (append_assoc xs ys zs)

  -- The entries from the oldest to the newest.
  abbrev pub in_order : ℕ → List A → List A
  in_order i xs = drop i xs ++ take i xs

  in_order-split : (ys zs : List A) → in_order (length ys) (ys ++ zs) ≡ zs ++ ys
  in_order-split ys zs = rw (drop-append ys zs, take-append ys zs) refl

  -- Where the entry goes in a full ring, and what is oldest then.
  full_step :
      (ys : List A) (x : A) (zs : List A) (e : A) (m : ℕ)
      → length ys + suc (length zs) ≡ m
      → in_order ((length ys + 1) % m) (set_at (length ys % m) e (ys ++ x ∷ zs))
        ≡ drop 1 (in_order (length ys) (ys ++ x ∷ zs)) ++ e ∷ []
  full_step ys x [] e m total =
      let here : length ys % m ≡ length ys = mod-eq_of_lt (omega (arith, total)) in
      let whole : length ys + 1 ≡ m = omega (arith, total) in
      let wraps : (length ys + 1) % m ≡ 0 = rw whole (mod_self m) in
      rw (here, wraps, set_at-append ys [] x e, in_order-split ys (x ∷ []))
        (append-nil (ys ++ e ∷ []))
  full_step ys x (z ∷ zs) e m total =
      let here : length ys % m ≡ length ys = mod-eq_of_lt (omega (arith, total)) in
      let ends : length (ys ++ e ∷ []) ≡ length ys + 1 = length-append ys (e ∷ []) ∙ omega arith in
      let next : (length ys + 1) % m ≡ length (ys ++ e ∷ []) =
        mod-eq_of_lt (omega (arith, total)) ∙ sym ends in
      let regroup : ys ++ e ∷ z ∷ zs ≡ (ys ++ e ∷ []) ++ z ∷ zs = sym (append-snoc ys e (z ∷ zs)) in
      rw
        (
          here,
          next,
          set_at-append ys (z ∷ zs) x e,
          regroup,
          in_order-split (ys ++ e ∷ []) (z ∷ zs),
          in_order-split ys (x ∷ z ∷ zs),
        )
        (sym (append_assoc (z ∷ zs) ys (e ∷ [])))

  drop-snoc :
      (k : ℕ) (xs : List A) (e : A) → k ≤ length xs → drop k (xs ++ e ∷ []) ≡ drop k xs ++ e ∷ []
  drop-snoc zero xs e h = refl
  drop-snoc (suc k) [] e h = absurd (omega (arith, h))
  drop-snoc (suc k) (x ∷ xs) e h = drop-snoc k xs e (omega (arith, h))

  drop_one : (k : ℕ) (xs : List A) → drop 1 (drop k xs) ≡ drop (suc k) xs
  drop_one zero [] = refl
  drop_one zero (x ∷ xs) = refl
  drop_one (suc k) [] = refl
  drop_one (suc k) (x ∷ xs) = drop_one k xs

  length-set_at : (i : ℕ) (e : A) (xs : List A) → length (set_at i e xs) ≡ length xs
  unfolding set_at
  length-set_at i e [] = refl
  length-set_at zero e (x ∷ xs) = refl
  length-set_at (suc i) e (x ∷ xs) = ap suc (length-set_at i e xs)

  length-drop : (k : ℕ) (xs : List A) → length (drop k xs) ≡ length xs - k
  length-drop zero xs = omega arith
  length-drop (suc k) [] = omega arith
  length-drop (suc k) (x ∷ xs) = omega (arith, length-drop k xs)

the_same : (a b : ℕ) → a ≡ b → a ≡ b
the_same a b e = e

module _ {Entry Cached : Type 0} where
  -- The ring of `m` places holds the newest of the entries appended so far, the oldest of them at
  -- `next_index`.
  record HoldsNewest (m : ℕ) (appended : List Entry) (l : CallLedger Entry Cached) : Type 0 where
    places : l.max_entries ≡ m
    within : l.next_index < m
    counted : l.count ≡ length appended
    stored : length l.entries ≡ min (length appended) m
    starts : length appended < m → l.next_index ≡ 0
    ordered : in_order l.next_index l.entries ≡ drop (length appended - m) appended

  HoldsNewest-append :
      (m : ℕ) (appended : List Entry) (l : CallLedger Entry Cached) (e : Entry)
      → 0 < m
      → HoldsNewest m appended l
      → HoldsNewest m (appended ++ e ∷ []) (append e l)
  unfolding append
  HoldsNewest-append m appended l e pos h =
      elim (Bool-cases (ltb (length l.entries) l.max_entries)) [
        | inl f ↦ rw f (room (omega (arith, h.places, h.stored, ltb→lt _ _ f)))
        | inr f ↦ rw f (full (ground (arith, f, h.places, h.stored)))
      ]
    where
      longer : length (appended ++ e ∷ []) ≡ length appended + 1
      longer = length-append appended (e ∷ []) ∙ omega arith

      room :
          length appended < m
          → HoldsNewest m
              (appended ++ e ∷ [])
              (record l { entries = l.entries ++ e ∷ []; count = l.count + 1 })
      room few =
          let first : l.next_index ≡ 0 = h.starts few in
          let all_there : l.entries ≡ appended =
            sym (append-nil l.entries)
            ∙ ap (λ i. in_order i l.entries) (sym first)
            ∙ h.ordered
            ∙ ap (λ k. drop k appended) (the_same (length appended - m) 0 (omega (arith, few))) in
          record {
            places = h.places;
            within = h.within;
            counted = omega (arith, h.counted, longer);
            stored = length-append l.entries (e ∷ []) ∙ omega (arith, h.stored, longer, few);
            starts = λ _. first;
            ordered =
                ap (λ i. in_order i (l.entries ++ e ∷ [])) first
                ∙ append-nil (l.entries ++ e ∷ [])
                ∙ ap (λ xs. xs ++ e ∷ []) all_there
                ∙ ap (λ k. drop k (appended ++ e ∷ []))
                    (the_same 0 (length (appended ++ e ∷ []) - m) (omega (arith, longer, few)));
          }

      stepped :
          m ≤ length appended
          → in_order ((l.next_index + 1) % m) (set_at (l.next_index % m) e l.entries)
            ≡ drop 1 (in_order l.next_index l.entries) ++ e ∷ []
      stepped many =
          let (ys, x, zs, split, at_i) =
            split_at l.next_index l.entries (omega (arith, h.within, h.stored, many)) in
          let total : length ys + suc (length zs) ≡ m =
            sym (length-append ys (x ∷ zs))
            ∙ ap length (sym split)
            ∙ omega (arith, h.stored, many) in
          subst
            (λ i.
              in_order ((i + 1) % m) (set_at (i % m) e l.entries)
              ≡ drop 1 (in_order i l.entries) ++ e ∷ [])
            at_i
            (subst
              (λ es.
                in_order ((length ys + 1) % m) (set_at (length ys % m) e es)
                ≡ drop 1 (in_order (length ys) es) ++ e ∷ [])
              (sym split) (full_step ys x zs e m total))

      full :
          m ≤ length appended
          → HoldsNewest m (appended ++ e ∷ []) (record l {
            entries = set_at (l.next_index % l.max_entries) e l.entries;
            next_index = (l.next_index + 1) % l.max_entries;
            count = l.count + 1;
          })
      full many = record {
        places = h.places;
        within = rw h.places (mod-lt (l.next_index + 1) pos);
        counted = omega (arith, h.counted, longer);
        stored = length-set_at _ e l.entries ∙ omega (arith, h.stored, longer, many);
        starts = λ few. absurd (omega (arith, few, longer, many));
        ordered =
            rw h.places (stepped many)
            ∙ ap (λ xs. drop 1 xs ++ e ∷ []) h.ordered
            ∙ ap (λ xs. xs ++ e ∷ []) (drop_one (length appended - m) appended)
            ∙ sym (drop-snoc (suc (length appended - m)) appended e (omega (arith, pos, many)))
            ∙ ap (λ k. drop k (appended ++ e ∷ []))
                (the_same (suc (length appended - m)) (length (appended ++ e ∷ []) - m)
                  (omega (arith, longer, many)));
      }

  append_each-HoldsNewest :
      (m : ℕ) (before es : List Entry) (l : CallLedger Entry Cached)
      → 0 < m
      → HoldsNewest m before l
      → HoldsNewest m (before ++ es) (append_each es l)
  unfolding append_each
  append_each-HoldsNewest m before [] l pos h =
      subst (λ xs. HoldsNewest m xs l) (sym (append-nil before)) h
  append_each-HoldsNewest m before (e ∷ es) l pos h =
      subst (λ xs. HoldsNewest m xs (append_each es (append e l))) (append-snoc before e es)
        (append_each-HoldsNewest m (before ++ e ∷ []) es (append e l) pos
          (HoldsNewest-append m before l e pos h))

-- A ledger of `m` places, more than 0, after any appends: its ring read from `next_index` on, and
-- then from the start, is the last `m` entries in the order of their appends, or all of them if
-- there are fewer, and the count of appends is exact.
pub append_each-in_order :
    {Entry : Type 0} (Cached : Type 0) (m : ℕ) (es : List Entry)
    → 0 < m
    → let l = append_each {Cached = Cached} es (new_ledger m) in
      (in_order l.next_index l.entries ≡ drop (length es - m) es)
      × (length l.entries ≡ min (length es) m)
      × (l.count ≡ length es)
append_each-in_order {Entry} Cached m es pos =
    let h = append_each-HoldsNewest {Cached = Cached} m [] es (new_ledger m) pos (record {
      places = refl;
      within = pos;
      counted = refl;
      stored = omega arith;
      starts = λ _. refl;
      ordered = ap (λ k. drop {A = Entry} k []) (the_same 0 (0 - m) (omega arith));
    }) in
    (h.ordered, h.stored, h.counted)
