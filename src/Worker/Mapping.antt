-- ===== src/Worker/Mapping.antt =====
-- apps/integration-worker/src/mapping.ts: the target that an event is mapped to. `mock_resolve` is the
-- service that both constructors return; its counter is passed along.
use mathlib.Core.Option.{get_or}
use hrp_crm.Base.{
  ℕ, ◌+◌, ◌%◌, ◌==◌, ltb, Bool, false, not, ◌&&◌, ◌||◌, if◌then◌else◌, Option, none, some, [], ◌∷◌,
  ◌++◌, take, Text, codes,
}
use hrp_crm.Base.Characters.{decimal}
use hrp_crm.Worker.Firewall.{
  InboundEvent, EventClass, authoritative, non_authoritative, review_needed, blocked,
  Classification, is_given,
}

pub data MappingState : Type 0 where
  exact_match possible_match unresolved : MappingState

pub record Resolution : Type 0 where
  pub state : MappingState
  pub labor_profile_id : Option Text
  pub labor_profile_version : Option ℕ
  pub review_queue_entry_id : Option Text

pub data MappingAction : Type 0 where
  call_gateway : (command : Text) → MappingAction
  create_review : (reason_code : Text) → MappingAction
  skip : MappingAction
  block : MappingAction

pub record MappingResult : Type 0 where
  pub resolution : Resolution
  pub action : MappingAction

pub data RevisionCheck : Type 0 where
  first_observation : RevisionCheck
  fresh : (observed : ℕ) → RevisionCheck
  stale forward_revision : (observed claim : ℕ) → RevisionCheck

-- `checkRevision`, on the revision that the tracker holds.
unfoldable pub check_revision : Option ℕ → Option ℕ → RevisionCheck
check_revision none claim = first_observation
check_revision (some observed) none = fresh observed
check_revision (some observed) (some claim) =
    if ltb claim observed
    then stale observed claim
    else if ltb observed claim
    then forward_revision observed claim
    else fresh observed

abbrev pub empty_resolution : Resolution
empty_resolution = record {
  state = unresolved;
  labor_profile_id = none;
  labor_profile_version = none;
  review_queue_entry_id = none;
}

-- `(eventId + (senderId ?? '')).charCodeAt(0) % 3`, `none` for `NaN`.
abbrev remainder_of : Text → Option ℕ
remainder_of [] = none
remainder_of (c ∷ s) = some (c % 3)

abbrev pub synth_seed : InboundEvent → Option ℕ
synth_seed e = remainder_of (e.event_id ++ get_or e.sender_id [])

abbrev pub seed_is : Option ℕ → ℕ → Bool
seed_is none n = false
seed_is (some m) n = m == n

abbrev queue_entry : InboundEvent → ℕ → Text
queue_entry e counter = codes "review-" ++ take 8 e.organization_id ++ codes "-" ++ decimal counter

abbrev queued : InboundEvent → ℕ → MappingState → Text → MappingResult
queued e counter state reason_code = record {
  resolution = record {
    state = state;
    labor_profile_id = none;
    labor_profile_version = none;
    review_queue_entry_id = some (queue_entry e counter);
  };
  action = create_review reason_code;
}

-- The mapping of an event that the firewall has not stopped.
abbrev pub synthetic : InboundEvent → Classification → ℕ → MappingResult
synthetic e c counter =
    if seed_is (synth_seed e) 0 && is_given e.sender_id
    then record {
      resolution = record {
        state = exact_match;
        labor_profile_id =
            some (codes "lp-" ++ take 8 e.organization_id ++ codes "-" ++ decimal counter);
        labor_profile_version = some 1;
        review_queue_entry_id = none;
      };
      action = call_gateway (get_or c.suggested_command (codes "recordInteraction"));
    }
    else if seed_is (synth_seed e) 1 || not (is_given e.sender_id)
    then queued e counter possible_match (codes "POSSIBLE_MATCH")
    else queued e counter unresolved (codes "UNRESOLVED")

abbrev stopped : MappingAction → MappingResult
stopped action = record { resolution = empty_resolution; action = action }

abbrev pub resolve_class : EventClass → InboundEvent → Classification → ℕ → MappingResult × ℕ
resolve_class blocked e c n = (stopped block, n)
resolve_class non_authoritative e c n = (stopped skip, n)
resolve_class authoritative e c n = (synthetic e c (n + 1), n + 1)
resolve_class review_needed e c n = (synthetic e c (n + 1), n + 1)

unfoldable pub mock_resolve : InboundEvent → Classification → ℕ → MappingResult × ℕ
mock_resolve e c n = resolve_class c.classification e c n
