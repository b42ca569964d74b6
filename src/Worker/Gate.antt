-- ===== src/Worker/Gate.antt =====
-- pipeline-executor.ts: when the gateway is called.
use hrp_crm.Base.{
  ◌==◌, ℕ, ◌+◌, ◌≡◌, refl, ap, ◌∙◌, inl, inr, Bool, true, false, not, ◌&&◌, ◌||◌, if◌then◌else◌,
  Option, none, some, List, [], ◌∷◌, Text, Bool-cases, arith,
}
use hrp_crm.Worker.Firewall.{
  EventType, conversation_created, message_created, client_message_created, client_inbound_message,
  conversation_resolved, conversation_assigned, conversation_labeled, conversation_status_changed,
  message_updated, message_deleted, participant_added, out_of_order_raw, mapping_revision_changed,
  unknown_raw, agent_message_echo, private_note, classify_type, validate_command, InboundEvent,
  EventClass, authoritative, non_authoritative, review_needed, blocked, Classification, classify,
  is_given,
}
use hrp_crm.Worker.Mapping.{
  MappingResult, mock_resolve, seed_is, synth_seed, check_revision, RevisionCheck,
  first_observation, fresh, stale, forward_revision, MappingAction, call_gateway, create_review,
  skip, block, synthetic, resolve_class,
}
use hrp_crm.Worker.Pipeline.{
  ExecutorInput, GatewayRequest, GatewayAnswer, execute_pipeline, act, defer, gated, tracked,
}

-- The mock service maps an event to a call if the firewall has let it pass, its seed is 0 and its
-- sender is known.
abbrev pub passes : EventClass → Bool
passes authoritative = true
passes review_needed = true
passes non_authoritative = false
passes blocked = false

abbrev revision_allows : RevisionCheck → Bool
revision_allows first_observation = true
revision_allows (fresh observed) = true
revision_allows (stale observed claim) = false
revision_allows (forward_revision observed claim) = false

-- No link has been seen, or the claim is of the revision that it holds.
abbrev agrees : Option ℕ → ℕ → Bool
agrees none claim = true
agrees (some observed) claim = claim == observed

abbrev pub is_current : Option ℕ → Option Text → (Text → Option ℕ) → Bool
is_current (some claim) (some conversation) revision = agrees (revision conversation) claim
is_current (some claim) none revision = true
is_current none conversation revision = true

revision_allows-check_revision :
    (observed : Option ℕ) (claim : ℕ)
    → revision_allows (check_revision observed (some claim)) ≡ agrees observed claim
unfolding check_revision
revision_allows-check_revision none claim = refl
revision_allows-check_revision (some observed) claim = ground arith

abbrev pub asks : MappingAction → Bool
asks (call_gateway command) = true
asks (create_review reason) = false
asks skip = false
asks block = false

and_true : (b : Bool) → b ≡ (b && true)
and_true true = refl
and_true false = refl

and_false : (b : Bool) → false ≡ (b && false)
and_false true = refl
and_false false = refl

and_assoc : (a b c : Bool) → ((a && b) && c) ≡ (a && b && c)
and_assoc true b c = refl
and_assoc false b c = refl

asks-synthetic :
    (e : InboundEvent) (c : Classification) (n : ℕ)
    → asks (synthetic e c n).action ≡ (seed_is (synth_seed e) 0 && is_given e.sender_id)
asks-synthetic e c n = elim (Bool-cases (seed_is (synth_seed e) 0 && is_given e.sender_id)) [
  | inl v ↦ rw v refl
  | inr v ↦ elim (Bool-cases (seed_is (synth_seed e) 1 || not (is_given e.sender_id))) [
    | inl q ↦ rw (v, q) refl
    | inr q ↦ rw (v, q) refl
  ]
]

asks-mock_resolve :
    (e : InboundEvent) (c : Classification) (n : ℕ)
    → asks (mock_resolve e c n).0.action
      ≡ (passes c.classification && (seed_is (synth_seed e) 0 && is_given e.sender_id))
unfolding mock_resolve
asks-mock_resolve e c n = by_class c.classification
  where
    by_class :
        (k : EventClass)
        → asks (resolve_class k e c n).0.action
          ≡ (passes k && (seed_is (synth_seed e) 0 && is_given e.sender_id))
    by_class blocked = refl
    by_class non_authoritative = refl
    by_class authoritative = asks-synthetic e c (n + 1)
    by_class review_needed = asks-synthetic e c (n + 1)

no_command :
    (t : EventType) (e : InboundEvent)
    → (classify_type t e).classification ≡ review_needed
    → (classify_type t e).suggested_command ≡ none
no_command conversation_created e h = refl
no_command message_created e h = ground arith
no_command client_message_created e h = ground arith
no_command client_inbound_message e h = ground arith
no_command conversation_resolved e h = refl
no_command conversation_assigned e h = refl
no_command conversation_labeled e h = refl
no_command conversation_status_changed e h = refl
no_command message_updated e h = refl
no_command message_deleted e h = refl
no_command participant_added e h = refl
no_command out_of_order_raw e h = refl
no_command mapping_revision_changed e h = refl
no_command unknown_raw e h = refl
no_command agent_message_echo e h = refl
no_command private_note e h = refl

abbrev Quiet : Classification → Type 0
Quiet c = c.classification ≡ review_needed → c.suggested_command ≡ none

if-Quiet : (b : Bool) (x y : Classification) → Quiet x → Quiet y → Quiet (if b then x else y)
if-Quiet true x y h h' = h
if-Quiet false x y h h' = h'

review_no_command :
    (e : InboundEvent)
    → (classify e).classification ≡ review_needed
    → (classify e).suggested_command ≡ none
unfolding classify
review_no_command e =
    if-Quiet e.is_private_note _ _ (λ _. refl)
      (if-Quiet (e.is_echo || e.is_outbound) _ _ (λ _. refl) (no_command e.event_type e))

abbrev pub is_called : List GatewayRequest → Bool
is_called [] = false
is_called (_ ∷ _) = true

module _ {Body : Type 0} (normalize : Body → Option InboundEvent)
    (current_revision : (organization_id conversation_id : Text) → Option ℕ)
    (gateway : GatewayRequest → GatewayAnswer) (mapped count : ℕ) where
  abbrev pub mapping : InboundEvent → Classification → MappingResult
  mapping e c = (mock_resolve e c mapped).0

  act_called :
      (input : ExecutorInput Body) (e : InboundEvent) (c : Classification) (m : MappingResult)
      (a : MappingAction)
      → is_called (act normalize mapping current_revision gateway count input e c m a).1 ≡ asks a
  act_called input e c m (call_gateway command) = refl
  act_called input e c m (create_review reason) = refl
  act_called input e c m skip = refl
  act_called input e c m block = refl

  defer_called :
      (input : ExecutorInput Body) (e : InboundEvent) (c : Classification) (m : MappingResult)
      (a : MappingAction)
      → is_called (defer normalize mapping current_revision gateway count input e c m a).1 ≡ false
  defer_called input e c m (call_gateway command) = refl
  defer_called input e c m (create_review reason) = refl
  defer_called input e c m skip = refl
  defer_called input e c m block = refl

  gated_called :
      (input : ExecutorInput Body) (e : InboundEvent) (c : Classification) (m : MappingResult)
      (check : RevisionCheck)
      → is_called (gated normalize mapping current_revision gateway count input e c m check).1
        ≡ (asks m.action && revision_allows check)
  gated_called input e c m first_observation =
      act_called input e c m m.action ∙ and_true (asks m.action)
  gated_called input e c m (fresh observed) =
      act_called input e c m m.action ∙ and_true (asks m.action)
  gated_called input e c m (stale observed claim) = and_false (asks m.action)
  gated_called input e c m (forward_revision observed claim) =
      defer_called input e c m m.action ∙ and_false (asks m.action)

  tracked_called :
      (input : ExecutorInput Body) (e : InboundEvent) (c : Classification) (m : MappingResult)
      (claim : Option ℕ) (conversation : Option Text)
      → is_called
          (tracked normalize mapping current_revision gateway count input e c m claim
            conversation).1
        ≡ (asks m.action && is_current claim conversation (current_revision input.organization_id))
  tracked_called input e c m (some claim) (some conversation) =
      let observed = current_revision input.organization_id conversation in
      gated_called input e c m (check_revision observed (some claim))
      ∙ ap (λ b. asks m.action && b) (revision_allows-check_revision observed claim)
  tracked_called input e c m (some claim) none =
      act_called input e c m m.action ∙ and_true (asks m.action)
  tracked_called input e c m none conversation =
      act_called input e c m m.action ∙ and_true (asks m.action)

  -- The pipeline calls the gateway exactly for the events that the firewall classes as authoritative or
  -- as in need of review, whose seed is 0, whose sender is known, and whose revision, if it is claimed,
  -- is neither older nor later than the tracked one.
  pub calls_gateway :
      (input : ExecutorInput Body) (body : Body) (e : InboundEvent)
      → input.parsed_event ≡ some body
      → normalize body ≡ some e
      → is_called (execute_pipeline normalize mapping current_revision gateway count input).1 ≡ (
          passes (classify e).classification
          && (seed_is (synth_seed e) 0 && is_given e.sender_id)
          && is_current e.mapping_revision e.conversation_id
              (current_revision input.organization_id))
  unfolding execute_pipeline
  calls_gateway input body e parsed normal =
      rw (parsed, execute_pipeline, normal)
        (tracked_called input e (classify e) (mapping e (classify e)) e.mapping_revision
            e.conversation_id
          ∙ ap
              (λ b.
                b
                && is_current e.mapping_revision e.conversation_id
                    (current_revision input.organization_id))
              (asks-mock_resolve e (classify e) mapped)
          ∙ and_assoc (passes (classify e).classification)
              (seed_is (synth_seed e) 0 && is_given e.sender_id)
              (is_current e.mapping_revision e.conversation_id
                (current_revision input.organization_id)))

  -- An event in need of review, such as one that claims a branch with no review token, is sent to the
  -- gateway all the same if its seed is 0, its sender known and its revision current, though
  -- `validateCommand` refuses the command of its class.
  pub review_needed_called :
      (input : ExecutorInput Body) (body : Body) (e : InboundEvent)
      → input.parsed_event ≡ some body
      → normalize body ≡ some e
      → (classify e).classification ≡ review_needed
      → seed_is (synth_seed e) 0 ≡ true
      → is_given e.sender_id ≡ true
      → is_current e.mapping_revision e.conversation_id (current_revision input.organization_id)
        ≡ true
      → (is_called (execute_pipeline normalize mapping current_revision gateway count input).1
          ≡ true)
        × (validate_command (classify e).classification (classify e).suggested_command ≡ false)
  unfolding validate_command
  review_needed_called input body e parsed normal class seed known recent = (
    calls_gateway input body e parsed normal ∙ rw (class, seed, known, recent) refl,
    rw (class, review_no_command e class) refl,
  )
