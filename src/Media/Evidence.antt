-- ===== src/Media/Evidence.antt =====
-- apps/core-1.10-media/src/evidence-store.ts. The digest of the bytes, the id, the time stamp and the
-- schema of organization ids are arguments.
pub mod Lifecycle
mod Tests
use hrp_crm.Base.{
  ℕ, ◌*◌, ltb, ◌==◌, Bool, true, false, not, ◌||◌, if◌then◌else◌, Option, none, some, List, [], ◌∷◌,
  ◌++◌, length, Text, codes, text_eq,
}
use hrp_crm.Base.Maps.{Map, get, put}

pub data EvidenceState : Type 0 where
  quarantined ready rejected revoked : EvidenceState

pub data EvidenceKind : Type 0 where
  cccd_front cccd_back : EvidenceKind

pub record EvidenceRecord : Type 0 where
  pub evidence_id : Text
  pub organization_id : Text
  pub kind : EvidenceKind
  pub content_digest : Text
  pub size_bytes : ℕ
  pub stored_at : Text
  pub state : EvidenceState
  pub state_reason : Option Text

pub record ScanDecision : Type 0 where
  pub pass : Bool
  pub reason : Text

abbrev pub Bytes : Type 0
Bytes = List ℕ

abbrev max_evidence_bytes : ℕ
max_evidence_bytes = 32 * 1024 * 1024

unfoldable pub default_scan : Bytes → ScanDecision
default_scan bytes =
    if length bytes == 0
    then record { pass = false; reason = codes "empty input" }
    else if ltb max_evidence_bytes (length bytes)
    then record { pass = false; reason = codes "exceeds MAX_EVIDENCE_BYTES (33554432)" }
    else record { pass = true; reason = codes "fixture pass" }

pub record UploadRequest : Type 0 where
  pub organization_id : Text
  pub kind : EvidenceKind
  pub bytes : Bytes
  pub simulate_malware : Bool

pub record UploadResult : Type 0 where
  pub evidence_id : Text
  pub content_digest : Text
  pub stored_at : Text
  pub initial_state : EvidenceState
  pub scan : ScanDecision

pub record EvidenceStore : Type 0 where
  pub records : Map EvidenceRecord
  pub org_index : Map (List Text)

pub data EvidenceError : Type 0 where
  invalid_organization : EvidenceError
  cannot_revoke : EvidenceState → EvidenceError
  evidence_not_found : Text → EvidenceError
  cross_org : (id owner requester : Text) → EvidenceError
  evidence_not_ready : Text → EvidenceState → EvidenceError

pub data Attempt (A : Type 0) : Type 0 where
  done : A → Attempt A
  raises : EvidenceError → Attempt A

abbrev pub empty_store : EvidenceStore
empty_store = record { records = []; org_index = [] }

abbrev pub is_member : Text → List Text → Bool
is_member x [] = false
is_member x (y ∷ ys) = text_eq y x || is_member x ys

-- `set.add(id)`
abbrev pub add : Text → List Text → List Text
add id ids = if is_member id ids then ids else ids ++ id ∷ []

abbrev pub members : Option (List Text) → List Text
members none = []
members (some ids) = ids

-- The ids that the index has for an organization.
abbrev pub indexed : Text → EvidenceStore → List Text
indexed org s = members (get org s.org_index)

-- What the environment supplies to an upload.
pub record Upload : Type 0 where
  pub uuid : Text
  pub stored_at : Text

module _ (digest : Bytes → Text) (valid_organization : Text → Bool)
    (installed : Option (Bytes → ScanDecision)) where
  unfoldable pub scan_of : UploadRequest → ScanDecision
  unfolding default_scan
  scan_of req = elim installed [
    | some fixture ↦ fixture req.bytes
    | none ↦
        if req.simulate_malware
        then record { pass = false; reason = codes "simulated malware (test fixture)" }
        else default_scan req.bytes
  ]

  abbrev pub initial_state : ScanDecision → EvidenceState
  initial_state scan = if scan.pass then ready else rejected

  abbrev pub new_record : Upload → UploadRequest → ScanDecision → EvidenceRecord
  new_record u req scan = record {
    evidence_id = codes "ev-" ++ u.uuid;
    organization_id = req.organization_id;
    kind = req.kind;
    content_digest = digest req.bytes;
    size_bytes = length req.bytes;
    stored_at = u.stored_at;
    state = initial_state scan;
    state_reason = some scan.reason;
  }

  unfoldable pub upload :
      Upload → UploadRequest → EvidenceStore → Attempt (UploadResult × EvidenceStore)
  unfolding scan_of
  upload u req s =
      if not (valid_organization req.organization_id)
      then raises invalid_organization
      else (let scan = scan_of req in
          let rec = new_record u req scan in
          done (
            record {
              evidence_id = rec.evidence_id;
              content_digest = rec.content_digest;
              stored_at = rec.stored_at;
              initial_state = rec.state;
              scan = scan;
            },
            record {
              records = put rec.evidence_id rec s.records;
              org_index =
                  put req.organization_id (add rec.evidence_id (indexed req.organization_id s))
                    s.org_index;
            },
          ))

abbrev pub is_ready : EvidenceState → Bool
is_ready ready = true
is_ready _ = false

unfoldable pub revoke :
    Text → Text → EvidenceStore → Attempt (Option EvidenceRecord × EvidenceStore)
revoke id reason s = elim (get id s.records) [
  | none ↦ done (none, s)
  | some rec ↦
      if not (is_ready rec.state)
      then raises (cannot_revoke rec.state)
      else (let next = record rec { state = revoked; state_reason = some reason } in
          done (some next, record s { records = put id next s.records }))
]

unfoldable pub require_org_scope : Text → Text → EvidenceStore → Attempt EvidenceRecord
require_org_scope id organization_id s = elim (get id s.records) [
  | none ↦ raises (evidence_not_found id)
  | some rec ↦
      if not (text_eq rec.organization_id organization_id)
      then raises (cross_org id rec.organization_id organization_id)
      else done rec
]

unfoldable pub require_ready : Text → Text → EvidenceStore → Attempt EvidenceRecord
unfolding require_org_scope
require_ready id organization_id s = elim (require_org_scope id organization_id s) [
  | raises e ↦ raises e
  | done rec ↦
      if not (is_ready rec.state) then raises (evidence_not_ready id rec.state) else done rec
]

-- `reset()`
abbrev pub reset : EvidenceStore → EvidenceStore
reset s = empty_store
