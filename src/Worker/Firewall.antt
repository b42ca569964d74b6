-- ===== src/Worker/Firewall.antt =====
-- apps/integration-worker/src/firewall.ts: what an inbound event may lead to.
use hrp_crm.Base.{
  ℕ, Bool, true, false, ◌&&◌, ◌||◌, if◌then◌else◌, Option, none, some, Text, codes, is_empty,
}

pub data EventType : Type 0 where
  conversation_created message_created client_message_created conversation_resolved : EventType
  participant_added agent_message_echo private_note conversation_assigned : EventType
  conversation_status_changed conversation_labeled message_updated message_deleted : EventType
  client_inbound_message unknown_raw out_of_order_raw mapping_revision_changed : EventType

pub data Branch : Type 0 where
  talent client : Branch

-- The fields that the pipeline reads of an event.
pub record InboundEvent : Type 0 where
  pub event_type : EventType
  pub organization_id : Text
  pub connection_id : Text
  pub event_id : Text
  pub sender_id : Option Text
  pub is_private_note : Bool
  pub is_echo : Bool
  pub is_outbound : Bool
  pub conversation_id : Option Text
  pub claimed_branch_hint : Option Branch
  pub review_confirmation_token : Option Text
  pub mapping_revision : Option ℕ

pub data EventClass : Type 0 where
  authoritative non_authoritative review_needed blocked : EventClass

pub data ReasonCode : Type 0 where
  authoritative_client_message authoritative_conversation_created : ReasonCode
  non_authoritative_private_note non_authoritative_echo non_authoritative_assignment : ReasonCode
  non_authoritative_resolved non_authoritative_label non_authoritative_updated_deleted : ReasonCode
  review_possible_match review_unresolved review_hrpi_attribute_spoof : ReasonCode
  blocked_out_of_order blocked_mapping_revision_change blocked_unknown : ReasonCode

-- Without the message of the reason, which no code reads.
pub record Classification : Type 0 where
  pub classification : EventClass
  pub reason : ReasonCode
  pub suggested_command : Option Text
  pub target_branch : Option Branch

abbrev pub class_of : EventClass → ReasonCode → Classification
class_of c reason = record {
  classification = c;
  reason = reason;
  suggested_command = none;
  target_branch = none;
}

abbrev pub is_given : {A : Type 0} → Option A → Bool
is_given none = false
is_given (some _) = true

abbrev pub is_unconfirmed : InboundEvent → Bool
is_unconfirmed e =
    is_given e.claimed_branch_hint && (if is_given e.review_confirmation_token then false else true)

abbrev client_message : InboundEvent → Classification
client_message e =
    if is_unconfirmed e then class_of review_needed review_hrpi_attribute_spoof else record {
      classification = authoritative;
      reason = authoritative_client_message;
      suggested_command = some (codes "recordInteraction");
      target_branch = some talent;
    }

abbrev pub classify_type : EventType → InboundEvent → Classification
classify_type conversation_created e = class_of authoritative authoritative_conversation_created
classify_type message_created e = client_message e
classify_type client_message_created e = client_message e
classify_type client_inbound_message e = client_message e
classify_type conversation_resolved e = class_of non_authoritative non_authoritative_resolved
classify_type conversation_assigned e = class_of non_authoritative non_authoritative_assignment
classify_type conversation_labeled e = class_of non_authoritative non_authoritative_label
classify_type conversation_status_changed e = class_of non_authoritative non_authoritative_label
classify_type message_updated e = class_of non_authoritative non_authoritative_updated_deleted
classify_type message_deleted e = class_of non_authoritative non_authoritative_updated_deleted
classify_type participant_added e = class_of review_needed review_possible_match
classify_type out_of_order_raw e = class_of blocked blocked_out_of_order
classify_type mapping_revision_changed e = class_of blocked blocked_mapping_revision_change
classify_type unknown_raw e = class_of blocked blocked_unknown
classify_type agent_message_echo e = class_of blocked blocked_unknown
classify_type private_note e = class_of blocked blocked_unknown

unfoldable pub classify : InboundEvent → Classification
classify e =
    if e.is_private_note
    then class_of non_authoritative non_authoritative_private_note
    else if e.is_echo || e.is_outbound
    then class_of non_authoritative non_authoritative_echo
    else classify_type e.event_type e

-- The commands that `validateCommand` lets through.
unfoldable pub validate_command : EventClass → Option Text → Bool
validate_command non_authoritative command = false
validate_command blocked command = false
validate_command authoritative none = false
validate_command review_needed none = false
validate_command authoritative (some command) = if is_empty command then false else true
validate_command review_needed (some command) = if is_empty command then false else true
