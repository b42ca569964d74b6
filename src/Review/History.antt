-- ===== src/Review/History.antt =====
-- review-service.ts: the calls as steps of the store, and what they keep of an entry.
use hrp_crm.Base.{
  ◌≡◌, ◌≢◌, refl, sym, ap, subst, ◌∙◌, inl, inr, Option, none, some, List, [], ◌∷◌, ◌++◌, Text,
  text_eq, text_eq_iff, Bool-cases, append-nil,
}
use hrp_crm.Base.Maps.{Map, get, put}
use hrp_crm.Review.{decided, AuditEntry, Entry}
use hrp_crm.Review.Store.{key_of, find_by_id_any_org}
use hrp_crm.Review.Keys.{
  WellKeyed, found_id, found_get, found_put, found_put_other, found_put_new, put-WellKeyed,
}

-- What no call changes in an entry: its ids, its revision, its canonical record, its draft and the time of
-- its creation, its audit log but for what is appended, and its decision.
pub record Grows (e e' : Entry) : Type 0 where
  pub same_id : e'.review_entry_id ≡ e.review_entry_id
  pub same_organization : e'.organization_id ≡ e.organization_id
  pub same_revision : e'.intake_revision_id ≡ e.intake_revision_id
  pub same_canonical : e'.canonical_id ≡ e.canonical_id
  pub same_canonical_version : e'.canonical_version ≡ e.canonical_version
  pub same_draft : e'.draft_digest ≡ e.draft_digest
  pub same_creation : e'.created_at ≡ e.created_at
  pub appended : (more : List AuditEntry) × (e'.audit_log ≡ e.audit_log ++ more)
  pub final :
      e.status ≡ decided
      → (e'.status ≡ decided)
        × (e'.decision ≡ e.decision)
        × (e'.decision_version ≡ e.decision_version)

pub Grows-refl : (e : Entry) → Grows e e
Grows-refl e = record {
  same_id = refl;
  same_organization = refl;
  same_revision = refl;
  same_canonical = refl;
  same_canonical_version = refl;
  same_draft = refl;
  same_creation = refl;
  appended = ([], sym (append-nil e.audit_log));
  final = λ h. (h, refl, refl);
}

append_assoc : {A : Type 0} (xs ys zs : List A) → (xs ++ ys) ++ zs ≡ xs ++ (ys ++ zs)
append_assoc [] ys zs = refl
append_assoc (x ∷ xs) ys zs = ap (λ l. x ∷ l) (append_assoc xs ys zs)

pub Grows-trans : (a b c : Entry) → Grows a b → Grows b c → Grows a c
Grows-trans a b c g h = record {
  same_id = h.same_id ∙ g.same_id;
  same_organization = h.same_organization ∙ g.same_organization;
  same_revision = h.same_revision ∙ g.same_revision;
  same_canonical = h.same_canonical ∙ g.same_canonical;
  same_canonical_version = h.same_canonical_version ∙ g.same_canonical_version;
  same_draft = h.same_draft ∙ g.same_draft;
  same_creation = h.same_creation ∙ g.same_creation;
  appended = (
    g.appended.0 ++ h.appended.0,
    h.appended.1
        ∙ ap (λ l. l ++ h.appended.0) g.appended.1
        ∙ append_assoc a.audit_log g.appended.0 h.appended.0,
  );
  final =
      λ d. let (d', e, v) = g.final d in let (d'', e', v') = h.final d' in (d'', e' ∙ e, v' ∙ v);
}

-- What one call does to the entries: nothing, a new one, or an entry in the place of one found.
pub data Change (es : Map Entry) : Map Entry → Type 0 where
  keeps : Change es es
  adds : (e : Entry) → get (key_of e) es ≡ none → Change es (put (key_of e) e es)
  replaces :
      (id : Text) (e e' : Entry)
      → find_by_id_any_org id es ≡ some e
      → Grows e e'
      → Change es (put (key_of e') e' es)

replaced_key : (e e' : Entry) → Grows e e' → key_of e' ≡ key_of e
replaced_key e e' g = cc (g.same_id, g.same_organization)

pub Change-WellKeyed : {es fs : Map Entry} → Change es fs → WellKeyed es → WellKeyed fs
Change-WellKeyed keeps h = h
Change-WellKeyed {es} (adds e new) h = put-WellKeyed e es h
Change-WellKeyed {es} (replaces id e e' f g) h = put-WellKeyed e' es h

pub Change-Grows :
    {es fs : Map Entry} (id : Text) (e : Entry)
    → WellKeyed es
    → find_by_id_any_org id es ≡ some e
    → Change es fs
    → (e' : Entry) × (find_by_id_any_org id fs ≡ some e') × Grows e e'
Change-Grows id e keyed f keeps = (e, f, Grows-refl e)
Change-Grows {es} id e keyed f (adds new fresh) =
    (e, found_put_new id e new es fresh f, Grows-refl e)
Change-Grows {es} id e keyed f (replaces k old new g grows) = elim (Bool-cases (text_eq k id)) [
  | inl same ↦
      let named : k ≡ id = (text_eq_iff k id).0 same in
      let one : ◌≡◌ {A = Option Entry} (some old) (some e) =
        sym g ∙ subst (λ i. find_by_id_any_org i es ≡ some e) (sym named) f in
      let old_e : old ≡ e = cc one in
      (
        new,
        subst (λ i. find_by_id_any_org i (put (key_of new) new es) ≡ some new) named
            (found_put k old new es keyed g (grows.same_id ∙ found_id k old es g)
              (replaced_key old new grows)),
        subst (λ x. Grows x new) old_e grows,
      )
  | inr other ↦
      let off : new.review_entry_id ≢ id =
        λ q. cc (other, (text_eq_iff k id).1 (sym (found_id k old es g) ∙ sym grows.same_id ∙ q)) in
      (
        e,
        found_put_other id new es off (λ w at_key.
              let here : get (key_of new) es ≡ some old =
                subst (λ x. get x es ≡ some old) (sym (replaced_key old new grows))
                  (found_get k old es keyed g) in
              λ q. off (cc (here, at_key, grows.same_id, q)))
            ∙ f,
        Grows-refl e,
      )
]
