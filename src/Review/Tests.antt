-- ===== src/Review/Tests.antt =====
-- review-service.ts on a store of one entry: the theorems at inputs that meet their hypotheses.
use hrp_crm.Base.{◌≡◌, ◌≢◌, refl, none, some, [], ◌∷◌, Text, codes, text_eq, ne-of_text_eq, arith}
use hrp_crm.Base.Maps.{get, put}
use hrp_crm.Review.{
  Entry, ActorClaim, claim, ReviewError, Answer, done, raises, build_permission_context,
  parse_reviewer_capability, can_decide, can_link,
}
use hrp_crm.Review.Store.{
  ReviewState, create_review_entry, find_by_id_any_org, update, key_of, apply_decision, add_link,
}
use hrp_crm.Review.Service.{
  EntryOutput, Readings, DecisionInput, submit_decision, LinkInput, link_target, unlink_target,
  get_review_detail, admitted, find_entry_or_throw, commit, redact_entry,
}
use hrp_crm.Review.Keys.{WellKeyed}
use hrp_crm.Review.History.{Grows}
use hrp_crm.Review.Steps.{here, next, submits, Reach-Grows}
use hrp_crm.Review.Stale.{decided_once, link_overtakes}
use hrp_crm.Review.Scope.{other_organization_refused}

abbrev user : ActorClaim
user = claim (some (codes "USER")) (some (codes "u1")) none

abbrev readings : Readings
readings = record {
  made_at = codes "t1";
  applied_at = codes "t2";
  audited_at = codes "t3";
  updated_at = codes "t4";
}

abbrev entry : Entry
entry = create_review_entry 0 (codes "t0") (codes "t0") (record {
  organization_id = codes "org";
  intake_revision_id = codes "i1";
  canonical_id = none;
  canonical_version = none;
  draft_digest = codes "d";
})

abbrev store : ReviewState
store = record { entries = (key_of entry, entry) ∷ []; ids = 2; decisions = 0; links = 0 }

abbrev id : Text
id = codes "rev-0001"

store-WellKeyed : WellKeyed store.entries
store-WellKeyed = ((refl, tt), (tt, tt))

abbrev input : DecisionInput
input = record { kind = codes "ACCEPT"; reason = codes "fine"; expected_entry_version = 1 }

abbrev link_input : LinkInput
link_input = record { target_kind = codes "CANDIDATE"; target_ref = codes "c1"; label = codes "c" }

entry_found : find_by_id_any_org id store.entries ≡ some entry
unfolding find_by_id_any_org text_eq
entry_found = refl

output : Answer EntryOutput → EntryOutput
output (done out) = out
output (raises e) = redact_entry entry

abbrev decision_output : EntryOutput
decision_output = output (submit_decision user (codes "org") id input readings store).0

decision_accepted :
    (submit_decision user (codes "org") id input readings store).0 ≡ done decision_output
unfolding output submit_decision admitted build_permission_context parse_reviewer_capability
    find_entry_or_throw find_by_id_any_org can_decide commit update get put text_eq apply_decision
decision_accepted = refl

decided_once_example :
    (err : ReviewError) × (submit_decision user
        (codes "org")
        id
        input
        readings
        (submit_decision user (codes "org") id input readings store).1
      ≡ (raises err, (submit_decision user (codes "org") id input readings store).1))
decided_once_example =
    decided_once user user (codes "org") (codes "org") id input input readings readings store
      (submit_decision user (codes "org") id input readings store).1 decision_output store-WellKeyed
      decision_accepted here

abbrev link_output : EntryOutput
link_output = output (link_target user (codes "org") id link_input readings store).0

link_accepted : (link_target user (codes "org") id link_input readings store).0 ≡ done link_output
unfolding output link_target admitted build_permission_context parse_reviewer_capability
    find_entry_or_throw find_by_id_any_org can_link commit update get put text_eq add_link
link_accepted = refl

link_overtakes_example :
    (err : ReviewError) × (submit_decision user
        (codes "org")
        id
        input
        readings
        (link_target user (codes "org") id link_input readings store).1
      ≡ (raises err, (link_target user (codes "org") id link_input readings store).1))
link_overtakes_example =
    link_overtakes user user (codes "org") (codes "org") id link_input input readings readings store
      (link_target user (codes "org") id link_input readings store).1 entry link_output
      store-WellKeyed entry_found link_accepted here (omega arith)

Reach-Grows_example :
    (e' : Entry) × (find_by_id_any_org id
        (submit_decision user (codes "org") id input readings store).1.entries
      ≡ some e')
    × Grows entry e'
Reach-Grows_example =
    Reach-Grows id entry store-WellKeyed entry_found
      (next here (submits user (codes "org") id input readings refl))

org_differs : codes "org" ≢ codes "other"
unfolding text_eq
org_differs = ne-of_text_eq (codes "org") (codes "other") refl

other_organization_refused_example :
    (err : ReviewError) × (submit_decision user (codes "other") id input readings store
      ≡ (raises err, store))
    × (link_target user (codes "other") id link_input readings store ≡ (raises err, store))
    × (unlink_target user (codes "other") id (codes "lnk-0001") readings store
        ≡ (raises err, store))
    × ((err' : ReviewError) × (get_review_detail user (codes "other") id store ≡ raises err'))
other_organization_refused_example =
    other_organization_refused user (codes "other") id (codes "lnk-0001") input link_input readings
      store entry entry_found org_differs
