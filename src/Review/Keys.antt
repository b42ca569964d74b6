-- ===== src/Review/Keys.antt =====
-- review-store.ts: the entries by their keys, and the search that passes over the keys.
use hrp_crm.Base.{
  ◌≡◌, ◌≢◌, refl, ap, ◌∙◌, inl, inr, if◌then◌else◌, Option, none, some, List, [], ◌∷◌, map, Text,
  text_eq, text_eq_iff, text_eq_refl, Bool-cases, In, All, All-In, Distinct,
}
use hrp_crm.Base.Maps.{Map, get, put, ne-text_eq}
use hrp_crm.Review.{Entry}
use hrp_crm.Review.Store.{key_of, find_by_id_any_org}

abbrev pub keys : Map Entry → List Text
keys = map λ p. p.0

-- Each entry stands under its own key, and no key stands twice.
abbrev pub WellKeyed : Map Entry → Type 0
WellKeyed es = All (λ p. p.0 ≡ key_of p.1) es × Distinct (keys es)

found-In :
    (id : Text) (e : Entry) (es : Map Entry)
    → All (λ p. p.0 ≡ key_of p.1) es
    → find_by_id_any_org id es ≡ some e
    → In (key_of e) (keys es)
unfolding find_by_id_any_org
found-In id e [] keyed f = cc f
found-In id e ((k, w) ∷ es) keyed f = elim (Bool-cases (text_eq w.review_entry_id id)) [
  | inl same ↦
      let one : ◌≡◌ {A = Option Entry} (some w) (some e) = rw (find_by_id_any_org, same) at f in
      inl (cc (keyed.0, one))
  | inr other ↦ inr (found-In id e es keyed.1 (rw (find_by_id_any_org, other) at f))
]

pub found_id :
    (id : Text) (e : Entry) (es : Map Entry)
    → find_by_id_any_org id es ≡ some e
    → e.review_entry_id ≡ id
unfolding find_by_id_any_org
found_id id e [] f = cc f
found_id id e ((k, w) ∷ es) f = elim (Bool-cases (text_eq w.review_entry_id id)) [
  | inl same ↦
      let one : ◌≡◌ {A = Option Entry} (some w) (some e) = rw (find_by_id_any_org, same) at f in
      cc (one, (text_eq_iff w.review_entry_id id).0 same)
  | inr other ↦ found_id id e es (rw (find_by_id_any_org, other) at f)
]

-- The entry that a search finds is the one under its key.
pub found_get :
    (id : Text) (e : Entry) (es : Map Entry)
    → WellKeyed es
    → find_by_id_any_org id es ≡ some e
    → get (key_of e) es ≡ some e
unfolding find_by_id_any_org get
found_get id e [] keyed f = cc f
found_get id e ((k, w) ∷ es) (keyed, apart) f = elim (Bool-cases (text_eq w.review_entry_id id)) [
  | inl same ↦
      let one : ◌≡◌ {A = Option Entry} (some w) (some e) = rw (find_by_id_any_org, same) at f in
      let at_key : k ≡ key_of e = cc (keyed.0, one) in rw (at_key, text_eq_refl (key_of e)) one
  | inr other ↦
      let later : find_by_id_any_org id es ≡ some e = rw (find_by_id_any_org, other) at f in
      rw
        (ne-text_eq k (key_of e)
          (All-In (λ y. k ≢ y) (keys es) apart.0 (found-In id e es keyed.1 later)))
        (found_get id e es (keyed.1, apart.1) later)
]

-- An entry put in the place of the one found is found.
pub found_put :
    (id : Text) (e e' : Entry) (es : Map Entry)
    → WellKeyed es
    → find_by_id_any_org id es ≡ some e
    → e'.review_entry_id ≡ id
    → key_of e' ≡ key_of e
    → find_by_id_any_org id (put (key_of e') e' es) ≡ some e'
unfolding find_by_id_any_org put
found_put id e e' [] keyed f named placed = cc f
found_put id e e' ((k, w) ∷ es) (keyed, apart) f named placed =
    elim (Bool-cases (text_eq w.review_entry_id id)) [
      | inl same ↦
          let one : ◌≡◌ {A = Option Entry} (some w) (some e) = rw (find_by_id_any_org, same) at f in
          let at_key : k ≡ key_of e' = cc (keyed.0, one, placed) in
          rw (put, at_key, text_eq_refl (key_of e'), find_by_id_any_org, named, text_eq_refl id)
            refl
      | inr other ↦
          let later : find_by_id_any_org id es ≡ some e = rw (find_by_id_any_org, other) at f in
          let off : k ≢ key_of e' = λ q.
            All-In (λ y. k ≢ y) (keys es) apart.0 (found-In id e es keyed.1 later) (q ∙ placed) in
          rw (put, ne-text_eq k (key_of e') off, find_by_id_any_org, other)
            (found_put id e e' es (keyed.1, apart.1) later named placed)
    ]

-- A search for another id, or for one that is there before a new key, is not disturbed.
pub found_put_other :
    (id : Text) (e' : Entry) (es : Map Entry)
    → e'.review_entry_id ≢ id
    → ((old : Entry) → get (key_of e') es ≡ some old → old.review_entry_id ≢ id)
    → find_by_id_any_org id (put (key_of e') e' es) ≡ find_by_id_any_org id es
unfolding find_by_id_any_org put get
found_put_other id e' [] off replaced = rw (ne-text_eq e'.review_entry_id id off) refl
found_put_other id e' ((k, w) ∷ es) off replaced = elim (Bool-cases (text_eq k (key_of e'))) [
  | inl at_key ↦
      rw
        (
          put,
          at_key,
          find_by_id_any_org,
          ne-text_eq e'.review_entry_id id off,
          ne-text_eq w.review_entry_id id (replaced w (rw at_key refl)),
        )
        refl
  | inr other ↦
      let rest = found_put_other id e' es off (λ old f. replaced old (rw other f)) in
      rw (put, other, find_by_id_any_org)
        (ap (λ o. if text_eq w.review_entry_id id then some w else o) rest)
]

pub found_put_new :
    (id : Text) (e e' : Entry) (es : Map Entry)
    → get (key_of e') es ≡ none
    → find_by_id_any_org id es ≡ some e
    → find_by_id_any_org id (put (key_of e') e' es) ≡ some e
unfolding find_by_id_any_org put get
found_put_new id e e' [] new f = cc f
found_put_new id e e' ((k, w) ∷ es) new f = elim (Bool-cases (text_eq k (key_of e'))) [
  | inl at_key ↦ cc (rw (get, at_key) at new)
  | inr other ↦ elim (Bool-cases (text_eq w.review_entry_id id)) [
    | inl same ↦ rw (put, other, find_by_id_any_org, same) (rw (find_by_id_any_org, same) at f)
    | inr off ↦
        rw (put, other, find_by_id_any_org, off)
          (found_put_new id e e' es (rw (get, other) at new) (rw (find_by_id_any_org, off) at f))
  ]
]

put-apart :
    (x k : Text) (e : Entry) (es : Map Entry)
    → x ≢ k
    → All (λ y. x ≢ y) (keys es)
    → All (λ y. x ≢ y) (keys (put k e es))
unfolding put
put-apart x k e [] off h = (off, tt)
put-apart x k e ((j, w) ∷ es) off h = elim (Bool-cases (text_eq j k)) [
  | inl same ↦ rw (put, same) h
  | inr other ↦ rw (put, other) (h.0, put-apart x k e es off h.1)
]

pub put-WellKeyed : (e : Entry) (es : Map Entry) → WellKeyed es → WellKeyed (put (key_of e) e es)
unfolding put
put-WellKeyed e [] h = ((refl, tt), (tt, tt))
put-WellKeyed e ((j, w) ∷ es) (keyed, apart) = elim (Bool-cases (text_eq j (key_of e))) [
  | inl same ↦ rw (put, same) (((text_eq_iff j (key_of e)).0 same, keyed.1), apart)
  | inr other ↦
      let rest = put-WellKeyed e es (keyed.1, apart.1) in
      let off : j ≢ key_of e = λ q. cc (other, (text_eq_iff j (key_of e)).1 q) in
      rw (put, other) ((keyed.0, rest.0), (put-apart j (key_of e) e es off apart.0, rest.1))
]
