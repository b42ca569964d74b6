-- ===== src/Review/Service.antt =====
-- apps/integration-api/src/review/review-service.ts: the calls that read and change one entry. Each
-- returns its answer and the state after it, which an error leaves as the call had it by then.
use hrp_crm.Base.{
  ℕ, ◌+◌, ◌==◌, Bool, false, not, ◌||◌, if◌then◌else◌, Option, none, some, List, [], ◌∷◌, ◌++◌,
  length, map, Text, codes, text_eq,
}
use hrp_crm.Base.Maps.{Map}
use hrp_crm.Review.{
  EntryStatus, DecisionKind, accept, reject, request_changes, Tier, TargetKind, candidate, revision,
  schema, evidence, Capability, PermissionContext, Decision, Link, AuditEntry, Entry, ActorClaim,
  forbidden, not_found, validation_error, version_conflict, Answer, done, raises,
  build_permission_context, can_get_review_detail, can_decide, can_link, can_unlink,
}
use hrp_crm.Review.Store.{
  ReviewState, next_id, find_by_id_any_org, create, update, NewEntry, create_review_entry,
  apply_decision, add_link, remove_link,
}

pub record DecisionOutput : Type 0 where
  pub decision_id : Text
  pub reviewer_id : Text
  pub tier : Tier
  pub kind : DecisionKind
  pub reason : Text
  pub base_version : ℕ
  pub at : Text

pub record AuditSummary : Type 0 where
  pub action : Text
  pub at : Text
  pub actor : Text

pub record EntryOutput : Type 0 where
  pub review_entry_id : Text
  pub organization_id : Text
  pub intake_revision_id : Text
  pub canonical_id : Option Text
  pub canonical_version : Option ℕ
  pub status : EntryStatus
  pub decision : Option DecisionOutput
  pub anchor_ref_count : ℕ
  pub created_at : Text
  pub updated_at : Text
  pub audit_summary : List AuditSummary

abbrev redact_decision : Option Decision → Option DecisionOutput
redact_decision none = none
redact_decision (some d) = some (record {
  decision_id = d.decision_id;
  reviewer_id = d.reviewer.reviewer_id;
  tier = d.reviewer.tier;
  kind = d.kind;
  reason = d.reason;
  base_version = d.base_version;
  at = d.at;
})

abbrev summary : AuditEntry → AuditSummary
summary a = record { action = a.action; at = a.at; actor = a.actor }

abbrev pub redact_entry : Entry → EntryOutput
redact_entry e = record {
  review_entry_id = e.review_entry_id;
  organization_id = e.organization_id;
  intake_revision_id = e.intake_revision_id;
  canonical_id = e.canonical_id;
  canonical_version = e.canonical_version;
  status = e.status;
  decision = redact_decision e.decision;
  anchor_ref_count = length e.anchor_refs;
  created_at = e.created_at;
  updated_at = e.updated_at;
  audit_summary = map summary e.audit_log;
}

unfoldable pub find_entry_or_throw : Text → Text → Map Entry → Answer Entry
find_entry_or_throw organization_id entry_id es = elim (find_by_id_any_org entry_id es) [
  | none ↦ raises (not_found (codes "Review entry not found: " ++ entry_id))
  | some e ↦
      if not (text_eq e.organization_id organization_id)
      then raises (forbidden (codes "SCOPE_MISMATCH: entry belongs to a different organization"))
      else done e
]

unfoldable pub get_review_detail : ActorClaim → Text → Text → ReviewState → Answer EntryOutput
get_review_detail actor organization_id entry_id s =
    elim (build_permission_context actor organization_id) [
      | raises e ↦ raises e
      | done ctx ↦ elim (find_by_id_any_org entry_id s.entries) [
        | none ↦ raises (not_found (codes "Review entry not found: " ++ entry_id))
        | some e ↦ elim (can_get_review_detail ctx e.organization_id) [
          | some reason ↦ raises (forbidden reason)
          | none ↦ done (redact_entry e)
        ]
      ]
    ]

-- The dates that one call reads: for the decision or the link, the entry, the audit entry and the update.
pub record Readings : Type 0 where
  pub made_at : Text
  pub applied_at : Text
  pub audited_at : Text
  pub updated_at : Text

-- `this.store.update(updated); return redactEntry(updated);`
unfoldable pub commit : Text → Entry → ReviewState → Answer EntryOutput × ReviewState
commit now updated s = elim (update now updated s.entries) [
  | raises e ↦ (raises e, s)
  | done es ↦ (done (redact_entry updated), record s { entries = es })
]

-- The entry that a call works on, once its actor and its scope are accepted.
unfoldable pub admitted :
    ActorClaim → Text → Text → ReviewState → Answer (PermissionContext × Entry)
admitted actor organization_id entry_id s = elim (build_permission_context actor organization_id) [
  | raises e ↦ raises e
  | done ctx ↦ elim (find_entry_or_throw organization_id entry_id s.entries) [
    | raises e ↦ raises e
    | done entry ↦ done (ctx, entry)
  ]
]

pub record DecisionInput : Type 0 where
  pub kind : Text
  pub reason : Text
  pub expected_entry_version : ℕ

abbrev pub read_kind : Text → Option DecisionKind
read_kind t =
    if text_eq t (codes "ACCEPT")
    then some accept
    else if text_eq t (codes "REJECT")
    then some reject
    else if text_eq t (codes "REQUEST_CHANGES")
    then some request_changes
    else none

abbrev pub new_decision : ℕ → Readings → Capability → DecisionKind → DecisionInput → ℕ → Decision
new_decision n r reviewer kind input version = record {
  decision_id = next_id (codes "dec") (n + 1);
  reviewer = reviewer;
  kind = kind;
  reason = input.reason;
  base_version = version;
  expected_entry_version = input.expected_entry_version;
  at = r.made_at;
}

abbrev pub decided_entry :
    ReviewState → Readings → Capability → DecisionKind → DecisionInput → Entry → Entry
decided_entry s r reviewer kind input e =
    apply_decision (s.ids + 1) r.applied_at r.audited_at e
      (new_decision s.decisions r reviewer kind input (length e.audit_log))

abbrev pub decide :
    PermissionContext
    → Entry
    → DecisionInput
    → Readings
    → ReviewState
    → Answer EntryOutput × ReviewState
decide ctx e input r s = elim (can_decide ctx e.organization_id e.status) [
  | some reason ↦ (raises (forbidden reason), s)
  | none ↦ elim (read_kind input.kind) [
    | none ↦ (raises (validation_error (codes "Invalid decision kind: " ++ input.kind)), s)
    | some kind ↦
        if not (length e.audit_log == input.expected_entry_version)
        then (raises (version_conflict (length e.audit_log) input.expected_entry_version), s)
        else commit r.updated_at (decided_entry s r ctx.capability kind input e)
            (record s { ids = s.ids + 1; decisions = s.decisions + 1 })
  ]
]

unfoldable pub submit_decision :
    ActorClaim
    → Text
    → Text
    → DecisionInput
    → Readings
    → ReviewState
    → Answer EntryOutput × ReviewState
unfolding commit
submit_decision actor organization_id entry_id input r s =
    elim (admitted actor organization_id entry_id s) [
      | raises e ↦ (raises e, s)
      | done (ctx, entry) ↦ decide ctx entry input r s
    ]

pub record LinkInput : Type 0 where
  pub target_kind : Text
  pub target_ref : Text
  pub label : Text

abbrev pub read_target : Text → Option TargetKind
read_target t =
    if text_eq t (codes "CANDIDATE")
    then some candidate
    else if text_eq t (codes "REVISION")
    then some revision
    else if text_eq t (codes "SCHEMA")
    then some schema
    else if text_eq t (codes "EVIDENCE")
    then some evidence
    else none

abbrev pub linked_entry : ReviewState → Readings → Text → TargetKind → LinkInput → Entry → Entry
linked_entry s r actor kind input e = add_link (s.ids + 1) r.applied_at r.audited_at e (record {
  link_id = next_id (codes "lnk") (s.links + 1);
  target_kind = kind;
  target_ref = input.target_ref;
  label = input.label;
  added_by = actor;
  added_at = r.made_at;
})

abbrev pub link :
    PermissionContext
    → Entry
    → LinkInput
    → Readings
    → ReviewState
    → Answer EntryOutput × ReviewState
link ctx e input r s = elim (can_link ctx e.organization_id e.status) [
  | some reason ↦ (raises (forbidden reason), s)
  | none ↦ elim (read_target input.target_kind) [
    | none ↦ (raises (validation_error (codes "Invalid targetKind: " ++ input.target_kind)), s)
    | some kind ↦
        commit r.updated_at (linked_entry s r ctx.actor kind input e)
          (record s { ids = s.ids + 1; links = s.links + 1 })
  ]
]

unfoldable pub link_target :
    ActorClaim → Text → Text → LinkInput → Readings → ReviewState → Answer EntryOutput × ReviewState
unfolding commit
link_target actor organization_id entry_id input r s =
    elim (admitted actor organization_id entry_id s) [
      | raises e ↦ (raises e, s)
      | done (ctx, entry) ↦ link ctx entry input r s
    ]

abbrev pub has_link : Text → List Link → Bool
has_link id [] = false
has_link id (l ∷ ls) = text_eq l.link_id id || has_link id ls

abbrev pub unlink :
    PermissionContext → Entry → Text → Readings → ReviewState → Answer EntryOutput × ReviewState
unlink ctx e link_id r s = elim (can_unlink ctx e.organization_id e.status) [
  | some reason ↦ (raises (forbidden reason), s)
  | none ↦
      if not (has_link link_id e.anchor_refs)
      then (
        raises (
            not_found (
              codes "Link not found: "
              ++ link_id
              ++ codes " on review entry "
              ++ e.review_entry_id)),
        s,
      )
      else commit r.updated_at
          (remove_link (s.ids + 1) r.applied_at r.audited_at e link_id ctx.actor)
          (record s { ids = s.ids + 1 })
]

unfoldable pub unlink_target :
    ActorClaim → Text → Text → Text → Readings → ReviewState → Answer EntryOutput × ReviewState
unfolding commit
unlink_target actor organization_id entry_id link_id r s =
    elim (admitted actor organization_id entry_id s) [
      | raises e ↦ (raises e, s)
      | done (ctx, entry) ↦ unlink ctx entry link_id r s
    ]

unfoldable pub create_from_intake :
    NewEntry → Readings → ReviewState → Answer EntryOutput × ReviewState
create_from_intake args r s =
    let e = create_review_entry s.ids r.made_at r.audited_at args in
    let t = record s { ids = s.ids + 2 } in
    elim (create e s.entries) [
      | raises err ↦ (raises err, t)
      | done es ↦ (done (redact_entry e), record t { entries = es })
    ]
