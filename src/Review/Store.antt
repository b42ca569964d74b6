-- ===== src/Review/Store.antt =====
-- apps/integration-api/src/review/review-store.ts.
use hrp_crm.Base.{
  ℕ, zero, suc, ◌+◌, ◌-◌, if◌then◌else◌, Option, none, some, List, [], ◌∷◌, ◌++◌, length, Text,
  codes, text_eq,
}
use hrp_crm.Base.Characters.{decimal}
use hrp_crm.Base.Maps.{Map, get, put}
use hrp_crm.Review.{
  open_entry, decided, DecisionKind, accept, reject, request_changes, TargetKind, candidate,
  revision, schema, evidence, Decision, Link, AuditDetail, decision_detail, link_detail,
  unlink_detail, AuditEntry, Entry, Answer, done, raises, entry_exists, entry_missing,
}

-- The module's state: the entries and the three counters.
pub record ReviewState : Type 0 where
  pub entries : Map Entry
  pub ids : ℕ
  pub decisions : ℕ
  pub links : ℕ

abbrev zeros : ℕ → Text
zeros zero = []
zeros (suc n) = 48 ∷ zeros n

-- `n.toString().padStart(4, '0')`
abbrev padded : ℕ → Text
padded n = let t = decimal n in zeros (4 - length t) ++ t

abbrev pub next_id : Text → ℕ → Text
next_id prefix n = prefix ++ codes "-" ++ padded n

-- `id` is the count that `nextId` has reached.
abbrev pub create_audit_entry : ℕ → Text → Text → Text → Option AuditDetail → AuditEntry
create_audit_entry id at actor action detail = record {
  audit_id = next_id (codes "audit") id;
  at = at;
  actor = actor;
  action = action;
  detail = detail;
}

abbrev pub key : Text → Text → Text
key organization_id entry_id = organization_id ++ codes ":" ++ entry_id

abbrev pub key_of : Entry → Text
key_of e = key e.organization_id e.review_entry_id

unfoldable pub create : Entry → Map Entry → Answer (Map Entry)
create e es = elim (get (key_of e) es) [
  | some _ ↦ raises (entry_exists e.review_entry_id)
  | none ↦ done (put (key_of e) e es)
]

unfoldable pub find_by_id : Text → Text → Map Entry → Option Entry
find_by_id organization_id entry_id es = get (key organization_id entry_id) es

unfoldable pub find_by_id_any_org : Text → Map Entry → Option Entry
find_by_id_any_org entry_id [] = none
find_by_id_any_org entry_id ((k, e) ∷ es) =
    if text_eq e.review_entry_id entry_id then some e else find_by_id_any_org entry_id es

unfoldable pub update : Text → Entry → Map Entry → Answer (Map Entry)
update now e es = elim (get (key_of e) es) [
  | none ↦ raises (entry_missing e.review_entry_id)
  | some _ ↦ done (put (key_of e) (record e { updated_at = now }) es)
]

pub record NewEntry : Type 0 where
  pub organization_id : Text
  pub intake_revision_id : Text
  pub canonical_id : Option Text
  pub canonical_version : Option ℕ
  pub draft_digest : Text

-- The ids `n + 1` for the entry and `n + 2` for its audit entry.
abbrev pub create_review_entry : ℕ → (now audited_at : Text) → NewEntry → Entry
create_review_entry n now audited_at args = record {
  review_entry_id = next_id (codes "rev") (n + 1);
  organization_id = args.organization_id;
  intake_revision_id = args.intake_revision_id;
  canonical_id = args.canonical_id;
  canonical_version = args.canonical_version;
  draft_digest = args.draft_digest;
  status = open_entry;
  decision = none;
  decision_version = none;
  anchor_refs = [];
  audit_log = create_audit_entry (n + 2) audited_at (codes "system") (codes "CREATED") none ∷ [];
  created_at = now;
  updated_at = now;
}

abbrev pub kind_text : DecisionKind → Text
kind_text accept = codes "ACCEPT"
kind_text reject = codes "REJECT"
kind_text request_changes = codes "REQUEST_CHANGES"

abbrev pub target_text : TargetKind → Text
target_text candidate = codes "CANDIDATE"
target_text revision = codes "REVISION"
target_text schema = codes "SCHEMA"
target_text evidence = codes "EVIDENCE"

unfoldable pub apply_decision : ℕ → (now audited_at : Text) → Entry → Decision → Entry
apply_decision id now audited_at e d = record e {
  status = decided;
  decision = some d;
  decision_version = some d.base_version;
  audit_log =
      e.audit_log
      ++ create_audit_entry id audited_at d.reviewer.reviewer_id
          (codes "DECISION:" ++ kind_text d.kind)
          (some (decision_detail d.reason d.base_version d.expected_entry_version))
        ∷ [];
  updated_at = now;
}

unfoldable pub add_link : ℕ → (now audited_at : Text) → Entry → Link → Entry
add_link id now audited_at e l = record e {
  anchor_refs = e.anchor_refs ++ l ∷ [];
  audit_log =
      e.audit_log
      ++ create_audit_entry id audited_at l.added_by (codes "LINK:" ++ target_text l.target_kind)
          (some (link_detail l.link_id l.target_ref))
        ∷ [];
  updated_at = now;
}

abbrev without_link : Text → List Link → List Link
without_link id [] = []
without_link id (l ∷ ls) =
    let rest = without_link id ls in if text_eq l.link_id id then rest else l ∷ rest

unfoldable pub remove_link : ℕ → (now audited_at : Text) → Entry → Text → Text → Entry
remove_link id now audited_at e link_id removed_by = record e {
  anchor_refs = without_link link_id e.anchor_refs;
  audit_log =
      e.audit_log
      ++ create_audit_entry id audited_at removed_by (codes "UNLINK") (some (unlink_detail link_id))
        ∷ [];
  updated_at = now;
}
