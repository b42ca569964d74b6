-- ===== src/Review.antt =====
-- apps/integration-api/src/review/types.ts and permissions.ts: the entries under review, and who may
-- do what with them. Dates and generated ids are texts.
pub mod Store
pub mod Service
pub mod Keys
pub mod History
pub mod Calls
pub mod Steps
pub mod Stale
pub mod Scope
mod Tests
use hrp_crm.Base.{
  ℕ, Bool, true, false, not, ◌&&◌, ◌||◌, if◌then◌else◌, Option, none, some, List, [], ◌∷◌, ◌++◌,
  Text, codes, text_eq, is_empty,
}

pub data EntryStatus : Type 0 where
  open_entry decided expired superseded : EntryStatus

pub data DecisionKind : Type 0 where
  accept reject request_changes : DecisionKind

pub data Tier : Type 0 where
  inbound_reviewer privileged_reviewer : Tier

pub data TargetKind : Type 0 where
  candidate revision schema evidence : TargetKind

pub record Capability : Type 0 where
  pub reviewer_id : Text
  pub tier : Tier
  pub organization_id : Text

pub record PermissionContext : Type 0 where
  pub actor : Text
  pub capability : Capability
  pub organization_id : Text

pub record Decision : Type 0 where
  pub decision_id : Text
  pub reviewer : Capability
  pub kind : DecisionKind
  pub reason : Text
  pub base_version : ℕ
  pub expected_entry_version : ℕ
  pub at : Text

pub record Link : Type 0 where
  pub link_id : Text
  pub target_kind : TargetKind
  pub target_ref : Text
  pub label : Text
  pub added_by : Text
  pub added_at : Text

-- The details that the calls give to the audit log.
pub data AuditDetail : Type 0 where
  decision_detail : (reason : Text) (base_version expected_entry_version : ℕ) → AuditDetail
  link_detail : (link_id target_ref : Text) → AuditDetail
  unlink_detail : (link_id : Text) → AuditDetail

pub record AuditEntry : Type 0 where
  pub audit_id : Text
  pub at : Text
  pub actor : Text
  pub action : Text
  pub detail : Option AuditDetail

pub record Entry : Type 0 where
  pub review_entry_id : Text
  pub organization_id : Text
  pub intake_revision_id : Text
  pub canonical_id : Option Text
  pub canonical_version : Option ℕ
  pub draft_digest : Text
  pub status : EntryStatus
  pub decision : Option Decision
  pub decision_version : Option ℕ
  pub anchor_refs : List Link
  pub audit_log : List AuditEntry
  pub created_at : Text
  pub updated_at : Text

-- An actor claim: the fields that are read of it, if it is an object.
pub data ActorClaim : Type 0 where
  no_object : ActorClaim
  claim : (kind user_id service_id : Option Text) → ActorClaim

pub data ReviewError : Type 0 where
  invalid_actor : ReviewError
  forbidden : Text → ReviewError
  not_found : Text → ReviewError
  validation_error : Text → ReviewError
  version_conflict : (current expected : ℕ) → ReviewError
  entry_exists entry_missing : Text → ReviewError

pub data Answer (A : Type 0) : Type 0 where
  done : A → Answer A
  raises : ReviewError → Answer A

abbrev is_text : Option Text → Text → Bool
is_text none t = false
is_text (some s) t = text_eq s t

-- `userId ?? serviceId`
abbrev reviewer_of : Option Text → Option Text → Text
reviewer_of (some u) s = u
reviewer_of none (some s) = s
reviewer_of none none = []

unfoldable pub parse_reviewer_capability : ActorClaim → Text → Answer Capability
parse_reviewer_capability no_object organization_id = raises invalid_actor
parse_reviewer_capability (claim kind user service) organization_id =
    let is_service = is_text kind (codes "SERVICE") in
    let reviewer = reviewer_of user service in
    if not (is_text kind (codes "USER") || is_service || is_text kind (codes "DELEGATED_USER"))
    then raises invalid_actor
    else if is_empty reviewer
    then raises invalid_actor
    else done (record {
      reviewer_id = reviewer;
      tier = if is_service then privileged_reviewer else inbound_reviewer;
      organization_id = organization_id;
    })

abbrev is_inbound : Tier → Bool
is_inbound inbound_reviewer = true
is_inbound privileged_reviewer = false

unfoldable pub build_permission_context : ActorClaim → Text → Answer PermissionContext
unfolding parse_reviewer_capability
build_permission_context actor organization_id =
    elim (parse_reviewer_capability actor organization_id) [
      | raises e ↦ raises e
      | done c ↦ done (record {
        actor =
            if is_inbound c.tier
            then codes "user:" ++ c.reviewer_id
            else codes "service:" ++ c.reviewer_id;
        capability = c;
        organization_id = organization_id;
      })
    ]

-- A check returns the reason of a refusal.
abbrev Refusal : Type 0
Refusal = Option Text

unfoldable pub can_get_review_detail : PermissionContext → Text → Refusal
can_get_review_detail ctx entry_org =
    if not (text_eq ctx.organization_id entry_org)
    then some (codes "SCOPE_MISMATCH: reviewer org does not match entry org")
    else none

unfoldable pub can_decide : PermissionContext → Text → EntryStatus → Refusal
can_decide ctx entry_org status =
    if not (text_eq ctx.organization_id entry_org)
    then some (codes "SCOPE_MISMATCH: reviewer org does not match entry org")
    else elim status [
      | decided ↦ some (codes "ENTRY_ALREADY_DECIDED: cannot decide on DECIDED entry")
      | superseded ↦ some (codes "ENTRY_SUPERSEDED: cannot decide on SUPERSEDED entry")
      | expired ↦
          if is_inbound ctx.capability.tier
          then some (codes "INSUFFICIENT_TIER: INBOUND_REVIEWER cannot decide EXPIRED entry")
          else none
      | open_entry ↦ none
    ]

unfoldable pub can_link : PermissionContext → Text → EntryStatus → Refusal
can_link ctx entry_org status =
    if not (text_eq ctx.organization_id entry_org)
    then some (codes "SCOPE_MISMATCH")
    else elim status [ open_entry ↦ none | _ ↦ some (codes "CANNOT_LINK: entry must be OPEN") ]

unfoldable pub can_unlink : PermissionContext → Text → EntryStatus → Refusal
can_unlink ctx entry_org status =
    if not (text_eq ctx.organization_id entry_org)
    then some (codes "SCOPE_MISMATCH")
    else elim status [ expired ↦ some (codes "CANNOT_UNLINK: entry is EXPIRED") | _ ↦ none ]

unfoldable pub can_replay : PermissionContext → Text → Refusal
can_replay ctx entry_org =
    if not (text_eq ctx.organization_id entry_org) then some (codes "SCOPE_MISMATCH") else none
