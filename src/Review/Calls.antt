-- ===== src/Review/Calls.antt =====
-- review-service.ts: each call as a change of the entries.
use hrp_crm.Base.{
  ℕ, ◌+◌, ◌==◌, ◌≡◌, ◌≢◌, refl, ap, subst, ◌∙◌, ◌⊎◌, inl, inr, none, some, length, Text, text_eq,
  text_eq_iff, Bool-cases, Option-cases,
}
use hrp_crm.Base.Maps.{get}
use hrp_crm.Review.{
  EntryStatus, TargetKind, decided, DecisionKind, Capability, PermissionContext, Entry, ActorClaim,
  ReviewError, Answer, done, raises, can_decide, can_link, can_unlink, build_permission_context,
}
use hrp_crm.Review.Store.{
  ReviewState, key_of, find_by_id_any_org, create, update, NewEntry, create_review_entry,
  apply_decision, add_link, remove_link,
}
use hrp_crm.Review.Service.{
  find_entry_or_throw, Readings, commit, admitted, DecisionInput, decided_entry, decide, read_kind,
  submit_decision, LinkInput, linked_entry, link, read_target, link_target, unlink, has_link,
  unlink_target, create_from_intake,
}
use hrp_crm.Review.History.{Grows, Change, keeps, adds, replaces}

pub Answer-cases :
    {A : Type 0} (a : Answer A) → ((e : ReviewError) × (a ≡ raises e)) ⊎ ((x : A) × (a ≡ done x))
Answer-cases (raises e) = inl (e, refl)
Answer-cases (done x) = inr (x, refl)

pub done-injective : {A : Type 0} {x y : A} → ◌≡◌ {A = Answer A} (done x) (done y) → x ≡ y
done-injective e = cc

pub commit-Change :
    (now : Text) (id : Text) (e updated : Entry) (s : ReviewState)
    → find_by_id_any_org id s.entries ≡ some e
    → Grows e (record updated { updated_at = now })
    → Change s.entries (commit now updated s).1.entries
unfolding commit update
commit-Change now id e updated s f grows = elim (Option-cases (get (key_of updated) s.entries)) [
  | inl n ↦ rw (commit, update, n) keeps
  | inr (old, n) ↦
      rw (commit, update, n) (replaces id e (record updated { updated_at = now }) f grows)
]

-- Past its guards a call works on an entry of the organization that it names.
pub admitted_lem :
    (actor : ActorClaim) (org id : Text) (s : ReviewState) (ctx : PermissionContext) (e : Entry)
    → admitted actor org id s ≡ done (ctx, e)
    → (find_by_id_any_org id s.entries ≡ some e) × (e.organization_id ≡ org)
unfolding admitted find_entry_or_throw
admitted_lem actor org id s ctx e h = elim (Answer-cases (build_permission_context actor org)) [
  | inl (err, b) ↦ cc (rw (admitted, b) at h)
  | inr (c, b) ↦ elim (Option-cases (find_by_id_any_org id s.entries)) [
    | inl n ↦ cc (rw (admitted, b, find_entry_or_throw, n) at h)
    | inr (w, n) ↦ elim (Bool-cases (text_eq w.organization_id org)) [
      | inr v ↦ cc (rw (admitted, b, find_entry_or_throw, n, v) at h)
      | inl v ↦
          let same : ◌≡◌ {A = PermissionContext × Entry} (c, w) (ctx, e) =
            done-injective (rw (admitted, b, find_entry_or_throw, n, v) at h) in
          let one : w ≡ e = ap (λ p. p.1) same in
          (
            n ∙ ap (λ x. some x) one,
            subst (λ x. x.organization_id ≡ org) one ((text_eq_iff _ _).0 v),
          )
    ]
  ]
]

pub undecided :
    (ctx : PermissionContext) (org : Text) (status : EntryStatus)
    → can_decide ctx org status ≡ none
    → status ≢ decided
unfolding can_decide
undecided ctx org status h same = elim (Bool-cases (text_eq ctx.organization_id org)) [
  | inl v ↦ cc (rw (same, can_decide, v) at h)
  | inr v ↦ cc (rw (same, can_decide, v) at h)
]

pub linkable :
    (ctx : PermissionContext) (org : Text) (status : EntryStatus)
    → can_link ctx org status ≡ none
    → status ≢ decided
unfolding can_link
linkable ctx org status h same = elim (Bool-cases (text_eq ctx.organization_id org)) [
  | inl v ↦ cc (rw (same, can_link, v) at h)
  | inr v ↦ cc (rw (same, can_link, v) at h)
]

decided_entry-Grows :
    (s : ReviewState) (r : Readings) (c : Capability) (kind : DecisionKind) (input : DecisionInput)
    (e : Entry) (now : Text)
    → e.status ≢ decided
    → Grows e (record (decided_entry s r c kind input e) { updated_at = now })
unfolding apply_decision
decided_entry-Grows s r c kind input e now undecided_yet = record {
  same_id = refl;
  same_organization = refl;
  same_revision = refl;
  same_canonical = refl;
  same_canonical_version = refl;
  same_draft = refl;
  same_creation = refl;
  appended = (_, refl);
  final = λ h. absurd (undecided_yet h);
}

pub submit_decision-Change :
    (actor : ActorClaim) (org id : Text) (input : DecisionInput) (r : Readings) (s : ReviewState)
    → Change s.entries (submit_decision actor org id input r s).1.entries
unfolding submit_decision
submit_decision-Change actor org id input r s = elim (Answer-cases (admitted actor org id s)) [
  | inl (err, a) ↦ rw (submit_decision, a) keeps
  | inr ((ctx, e), a) ↦ elim (Option-cases (can_decide ctx e.organization_id e.status)) [
    | inr (reason, p) ↦ rw (submit_decision, a, decide, p) keeps
    | inl p ↦ elim (Option-cases (read_kind input.kind)) [
      | inl k ↦ rw (submit_decision, a, decide, p, k) keeps
      | inr (kind, k) ↦ elim (Bool-cases (length e.audit_log == input.expected_entry_version)) [
        | inr v ↦ rw (submit_decision, a, decide, p, k, v) keeps
        | inl v ↦
            rw (submit_decision, a, decide, p, k, v)
              (commit-Change r.updated_at id e (decided_entry s r ctx.capability kind input e)
                (record s { ids = s.ids + 1; decisions = s.decisions + 1 })
                (admitted_lem actor org id s ctx e a).0
                (decided_entry-Grows s r ctx.capability kind input e r.updated_at
                  (undecided ctx e.organization_id e.status p)))
      ]
    ]
  ]
]

linked_entry-Grows :
    (s : ReviewState) (r : Readings) (actor : Text) (kind : TargetKind) (input : LinkInput)
    (e : Entry) (now : Text)
    → e.status ≢ decided
    → Grows e (record (linked_entry s r actor kind input e) { updated_at = now })
unfolding add_link
linked_entry-Grows s r actor kind input e now undecided_yet = record {
  same_id = refl;
  same_organization = refl;
  same_revision = refl;
  same_canonical = refl;
  same_canonical_version = refl;
  same_draft = refl;
  same_creation = refl;
  appended = (_, refl);
  final = λ h. absurd (undecided_yet h);
}

unlinked-Grows :
    (id : ℕ) (r : Readings) (e : Entry) (link_id actor now : Text)
    → Grows e
        (record (remove_link id r.applied_at r.audited_at e link_id actor) { updated_at = now })
unfolding remove_link
unlinked-Grows id r e link_id actor now = record {
  same_id = refl;
  same_organization = refl;
  same_revision = refl;
  same_canonical = refl;
  same_canonical_version = refl;
  same_draft = refl;
  same_creation = refl;
  appended = (_, refl);
  final = λ h. (h, refl, refl);
}

pub link_target-Change :
    (actor : ActorClaim) (org id : Text) (input : LinkInput) (r : Readings) (s : ReviewState)
    → Change s.entries (link_target actor org id input r s).1.entries
unfolding link_target
link_target-Change actor org id input r s = elim (Answer-cases (admitted actor org id s)) [
  | inl (err, a) ↦ rw (link_target, a) keeps
  | inr ((ctx, e), a) ↦ elim (Option-cases (can_link ctx e.organization_id e.status)) [
    | inr (reason, p) ↦ rw (link_target, a, link, p) keeps
    | inl p ↦ elim (Option-cases (read_target input.target_kind)) [
      | inl k ↦ rw (link_target, a, link, p, k) keeps
      | inr (kind, k) ↦
          rw (link_target, a, link, p, k)
            (commit-Change r.updated_at id e (linked_entry s r ctx.actor kind input e)
              (record s { ids = s.ids + 1; links = s.links + 1 })
              (admitted_lem actor org id s ctx e a).0
              (linked_entry-Grows s r ctx.actor kind input e r.updated_at
                (linkable ctx e.organization_id e.status p)))
    ]
  ]
]

pub unlink_target-Change :
    (actor : ActorClaim) (org id link_id : Text) (r : Readings) (s : ReviewState)
    → Change s.entries (unlink_target actor org id link_id r s).1.entries
unfolding unlink_target
unlink_target-Change actor org id link_id r s = elim (Answer-cases (admitted actor org id s)) [
  | inl (err, a) ↦ rw (unlink_target, a) keeps
  | inr ((ctx, e), a) ↦ elim (Option-cases (can_unlink ctx e.organization_id e.status)) [
    | inr (reason, p) ↦ rw (unlink_target, a, unlink, p) keeps
    | inl p ↦ elim (Bool-cases (has_link link_id e.anchor_refs)) [
      | inr k ↦ rw (unlink_target, a, unlink, p, k) keeps
      | inl k ↦
          rw (unlink_target, a, unlink, p, k)
            (commit-Change r.updated_at id e
              (remove_link (s.ids + 1) r.applied_at r.audited_at e link_id ctx.actor)
              (record s { ids = s.ids + 1 }) (admitted_lem actor org id s ctx e a).0
              (unlinked-Grows (s.ids + 1) r e link_id ctx.actor r.updated_at))
    ]
  ]
]

pub create_from_intake-Change :
    (args : NewEntry) (r : Readings) (s : ReviewState)
    → Change s.entries (create_from_intake args r s).1.entries
unfolding create_from_intake create
create_from_intake-Change args r s =
    elim (Option-cases
      (get (key_of (create_review_entry s.ids r.made_at r.audited_at args)) s.entries)) [
        | inr (old, n) ↦ rw (create_from_intake, create, n) keeps
        | inl n ↦
            rw (create_from_intake, create, n)
              (adds (create_review_entry s.ids r.made_at r.audited_at args) n)
      ]
