-- ===== src/Store/Links.antt =====
-- packages/integration-store/src/adapters.ts: a contact link as it is written to its row, and read back.
-- The id of the row, which is not part of the link, is left out.
-- `parse_date` is `new Date`, of texts that are dates, and `iso` is `toISOString`.
pub mod Faithful
mod Tests
use hrp_crm.Base.{
  ℕ, Bool, true, false, not, ◌||◌, if◌then◌else◌, Option, none, some, Text, codes, is_empty,
}
use hrp_crm.Base.Json.{Json, Items}
use hrp_crm.Store.{StoreError, store_error, validation_error, Outcome, ok, throws, ◌>>=◌}

pub data LinkState : Type 0 where
  exact_match possible_match unresolved : LinkState

pub data MatchedKind : Type 0 where
  talent_kind client_kind : MatchedKind

-- The id of the labor profile or of the client contact, and its version.
pub data MatchedTarget : Type 0 where
  talent client : Text → ℕ → MatchedTarget

pub record CandidateReference : Type 0 where
  pub review_queue_entry_id : Text
  pub recorded_at : Text

pub record ContactLink : Type 0 where
  pub schema_version : Text
  pub organization_id : Text
  pub provider : Text
  pub connection_id : Text
  pub external_account_id : Text
  pub external_contact_id : Option Text
  pub state : LinkState
  pub matched_target : Option MatchedTarget
  pub candidate_reference : Option CandidateReference
  pub aggregate_version : ℕ
  pub last_attempted_at : Option Text
  pub evidence_refs : Option Items

pub record ContactLinkRow : Type 0 where
  pub schema_version : Text
  pub organization_id : Text
  pub provider : Text
  pub connection_id : Text
  pub external_account_id : Text
  pub external_contact_id : Option Text
  pub state : LinkState
  pub matched_target_kind : Option MatchedKind
  pub matched_labor_profile_id : Option Text
  pub matched_labor_profile_version : Option ℕ
  pub matched_client_contact_id : Option Text
  pub matched_client_contact_version : Option ℕ
  pub candidate_review_queue_entry_id : Option Text
  pub candidate_recorded_at : Option ℕ
  pub aggregate_version : ℕ
  pub last_attempted_at : Option ℕ
  pub evidence_refs_json : Option Json

abbrev rejection : Text → Text → Option StoreError
rejection message target = some (store_error validation_error message none (some target))

-- The checks of `contactLinkContractToWrite`.
abbrev pub write_error :
    LinkState → Option MatchedTarget → Option CandidateReference → Option StoreError
write_error exact_match none c =
    rejection (codes "EXACT_MATCH cần matchedTarget") (codes "matchedTarget")
write_error exact_match (some t) c = none
write_error possible_match t none =
    rejection (codes "POSSIBLE_MATCH cần candidateReference") (codes "candidateReference")
write_error possible_match (some t) (some c) =
    rejection (codes "POSSIBLE_MATCH KHÔNG được có matchedTarget") (codes "matchedTarget")
write_error possible_match none (some c) = none
write_error unresolved (some t) c =
    rejection (codes "UNRESOLVED KHÔNG được có matchedTarget") (codes "matchedTarget")
write_error unresolved none (some c) =
    rejection (codes "UNRESOLVED KHÔNG được có candidateReference") (codes "candidateReference")
write_error unresolved none none = none

abbrev kind_of : MatchedTarget → MatchedKind
kind_of (talent id v) = talent_kind
kind_of (client id v) = client_kind

abbrev map_option : {A B : Type 0} → (A → B) → Option A → Option B
map_option f (some x) = some (f x)
map_option f none = none

abbrev profile_id : Option MatchedTarget → Option Text
profile_id (some (talent id v)) = some id
profile_id _ = none

abbrev profile_version : Option MatchedTarget → Option ℕ
profile_version (some (talent id v)) = some v
profile_version _ = none

abbrev contact_id : Option MatchedTarget → Option Text
contact_id (some (client id v)) = some id
contact_id _ = none

abbrev contact_version : Option MatchedTarget → Option ℕ
contact_version (some (client id v)) = some v
contact_version _ = none

abbrev attempted : (Text → ℕ) → Option Text → Option ℕ
attempted parse_date none = none
attempted parse_date (some t) = if is_empty t then none else some (parse_date t)

abbrev link_columns : (Text → ℕ) → ContactLink → ContactLinkRow
link_columns parse_date l = record {
  schema_version = l.schema_version;
  organization_id = l.organization_id;
  provider = l.provider;
  connection_id = l.connection_id;
  external_account_id = l.external_account_id;
  external_contact_id = l.external_contact_id;
  state = l.state;
  matched_target_kind = map_option kind_of l.matched_target;
  matched_labor_profile_id = profile_id l.matched_target;
  matched_labor_profile_version = profile_version l.matched_target;
  matched_client_contact_id = contact_id l.matched_target;
  matched_client_contact_version = contact_version l.matched_target;
  candidate_review_queue_entry_id = map_option (λ c. c.review_queue_entry_id) l.candidate_reference;
  candidate_recorded_at = map_option (λ c. parse_date c.recorded_at) l.candidate_reference;
  aggregate_version = l.aggregate_version;
  last_attempted_at = attempted parse_date l.last_attempted_at;
  evidence_refs_json = map_option Json.arr l.evidence_refs;
}

unfoldable pub contact_link_contract_to_write : (Text → ℕ) → ContactLink → Outcome ContactLinkRow
contact_link_contract_to_write parse_date l =
    elim (write_error l.state l.matched_target l.candidate_reference) [
      | some e ↦ throws e
      | none ↦ ok (link_columns parse_date l)
    ]

abbrev missing : {A : Type 0} → Text → Text → Outcome A
missing message target = throws (store_error validation_error message none (some target))

-- An id that is there and not empty, with its version.
abbrev target_read :
    (Text → ℕ → MatchedTarget) → Text → Option Text → Option ℕ → Outcome (Option MatchedTarget)
target_read make message (some id) (some v) =
    if is_empty id then missing message (codes "matchedTarget") else ok (some (make id v))
target_read make message _ _ = missing message (codes "matchedTarget")

abbrev row_target : LinkState → ContactLinkRow → Option MatchedKind → Outcome (Option MatchedTarget)
row_target exact_match r (some talent_kind) =
    target_read talent (codes "EXACT_MATCH/TALENT row thiếu matchedLaborProfileId/Version")
      r.matched_labor_profile_id r.matched_labor_profile_version
row_target exact_match r (some client_kind) =
    target_read client (codes "EXACT_MATCH/CLIENT row thiếu matchedClientContactId/Version")
      r.matched_client_contact_id r.matched_client_contact_version
row_target exact_match r none =
    missing (codes "EXACT_MATCH row thiếu matchedTargetKind") (codes "matchedTarget")
row_target _ r k = ok none

abbrev candidate_read : (ℕ → Text) → Option Text → Option ℕ → Outcome (Option CandidateReference)
candidate_read iso (some id) (some at) =
    if is_empty id
    then missing (codes "POSSIBLE_MATCH row thiếu candidateReference") (codes "candidateReference")
    else ok (some (record { review_queue_entry_id = id; recorded_at = iso at }))
candidate_read iso _ _ =
    missing (codes "POSSIBLE_MATCH row thiếu candidateReference") (codes "candidateReference")

abbrev read_candidate :
    (ℕ → Text) → LinkState → ContactLinkRow → Outcome (Option CandidateReference)
read_candidate iso possible_match r =
    candidate_read iso r.candidate_review_queue_entry_id r.candidate_recorded_at
read_candidate iso _ r = ok none

abbrev text_or_none : Option Text → Option Text
text_or_none none = none
text_or_none (some t) = if is_empty t then none else some t

abbrev items_of : Option Json → Option Items
items_of (some (Json.arr xs)) = some xs
items_of _ = none

abbrev link_of :
    (ℕ → Text) → ContactLinkRow → Option MatchedTarget → Option CandidateReference → ContactLink
link_of iso r t c = record {
  schema_version = r.schema_version;
  organization_id = r.organization_id;
  provider = r.provider;
  connection_id = r.connection_id;
  external_account_id = r.external_account_id;
  external_contact_id = text_or_none r.external_contact_id;
  state = r.state;
  matched_target = t;
  candidate_reference = c;
  aggregate_version = r.aggregate_version;
  last_attempted_at = map_option iso r.last_attempted_at;
  evidence_refs = items_of r.evidence_refs_json;
}

unfoldable pub contact_link_row_to_contract : (ℕ → Text) → ContactLinkRow → Outcome ContactLink
contact_link_row_to_contract iso r = do
  t ← row_target r.state r r.matched_target_kind
  c ← read_candidate iso r.state r
  ok (link_of iso r t c)
