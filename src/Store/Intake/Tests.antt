-- ===== src/Store/Intake/Tests.antt =====
-- event-receipt.ts and dedupe.ts on empty tables: the theorems at inputs that meet their hypotheses.
use Prim.Native.String.{String}
use hrp_crm.Base.{
  ◌≡◌, refl, true, false, none, List, [], ◌∷◌, Text, codes, text_eq, ne-of_text_eq, In, All, inl,
}
use hrp_crm.Store.Table.{Table}
use hrp_crm.Store.Table.Lists.{list_table, insert}
use hrp_crm.Store.{Receipt, Intent, ok, throws}
use hrp_crm.Store.Lease.Ops.{ReceiptScope, by_scope}
use hrp_crm.Store.Intake.{
  Payload, Committed, Tables, new_receipt_id, receipt_row, intent_row, scope_error, create_intents,
  insert_receipt, insert_invisible, commit_receipt_with_intents,
}
use hrp_crm.Store.Intake.Recommit.{recommit_same, prefix_collision}
use hrp_crm.Store.Intake.Webhook.{
  WebhookScope, Parsed, event_scope, build_intent, build_payload, commit_webhook_receipt, accepted,
  refused, idempotency_conflict_code, conflict_message, webhook_again, webhook_other_body,
}

abbrev receipts : Table Receipt
receipts = list_table

abbrev intents : Table Intent
intents = list_table

abbrev shop : WebhookScope
shop = record { organization_id = codes "o"; provider = codes "zalo"; connection_id = codes "c" }

abbrev message : String → Parsed
message id = record { event_id = codes id; event_type = codes "m" }

abbrev payload : String → Payload
payload digest = build_payload shop (message "e1") (codes digest) (codes "s") (codes "corr")

abbrev nothing : Tables receipts intents
nothing = ([], [])

abbrev alone : Tables receipts intents → Tables receipts intents
alone s = s

abbrev first_row : Receipt
first_row = receipt_row (event_scope shop (message "e1")) (payload "d") 5

abbrev one_event : Tables receipts intents
one_event = (
  first_row ∷ [],
  intent_row first_row.receipt_id 5 (build_intent shop (message "e1") (codes "s") (codes "corr"))
      ∷ [],
)

abbrev created_one : Committed
created_one = record {
  created = true;
  receipt_id = codes "rcpt-o-e1";
  intent_ids = codes "it-recv-e1-s" ∷ [];
  receipt_row_version = 0;
}

commit_first :
    commit_receipt_with_intents receipts intents
      (event_scope shop (message "e1"))
      (payload "d")
      5
      alone
      nothing
    ≡ ok (created_one, one_event)
unfolding commit_receipt_with_intents insert_receipt create_intents scope_error build_payload
    build_intent receipt_row new_receipt_id text_eq insert
commit_first = refl

passes : (digest : String) → scope_error (event_scope shop (message "e1")) (payload digest) ≡ none
unfolding scope_error build_payload build_intent text_eq
passes digest = refl

recommit_same_example :
    (d : Committed) × (commit_receipt_with_intents receipts intents
        (event_scope shop (message "e1"))
        (payload "d")
        9
        alone
        one_event
      ≡ ok (d, one_event))
    × (d.created ≡ false)
    × (d.receipt_id ≡ created_one.receipt_id)
    × All (λ id. In id d.intent_ids) created_one.intent_ids
recommit_same_example =
    recommit_same receipts intents (event_scope shop (message "e1")) (payload "d") (payload "d") 5 9
      alone alone nothing one_event created_one commit_first (passes "d") refl

abbrev long_event : String → ReceiptScope
long_event id = event_scope shop (message id)

abbrev long_payload : String → Payload
long_payload id = build_payload shop (message id) (codes "d") (codes "s") (codes "corr")

abbrev long_row : Receipt
long_row = receipt_row (long_event "message-0123456789-a") (long_payload "message-0123456789-a") 5

-- Two long event ids that differ after their sixteenth character.
prefix_collision_example :
    commit_receipt_with_intents receipts intents
      (long_event "message-0123456789-b")
      (long_payload "message-0123456789-b")
      9
      (λ u. u)
      (long_row ∷ [], [])
    ≡ throws insert_invisible
unfolding scope_error build_payload build_intent text_eq by_scope receipt_row new_receipt_id
prefix_collision_example =
    prefix_collision receipts intents (long_event "message-0123456789-b")
      (long_payload "message-0123456789-b") 9 (long_row ∷ [], []) long_row refl refl (inl refl) refl

accepted_first :
    commit_webhook_receipt receipts intents
      (codes "P2002")
      shop
      (message "e1")
      (codes "d")
      (codes "s")
      (codes "corr")
      5
      alone
      nothing
    ≡ (accepted (codes "rcpt-o-e1") (codes "it-recv-e1-s" ∷ []) true (codes "d"), one_event)
unfolding commit_webhook_receipt commit_receipt_with_intents insert_receipt create_intents
    scope_error build_payload build_intent receipt_row new_receipt_id text_eq insert
accepted_first = refl

webhook_again_example :
    (more : List Text) × (commit_webhook_receipt receipts intents
        (codes "P2002")
        shop
        (message "e1")
        (codes "d")
        (codes "u")
        (codes "c2")
        9
        alone
        one_event
      ≡ (accepted (codes "rcpt-o-e1") more false (codes "d"), one_event))
    × All (λ i. In i more) (codes "it-recv-e1-s" ∷ [])
webhook_again_example =
    webhook_again receipts intents (codes "P2002") shop (message "e1") (codes "d") (codes "s")
      (codes "corr") 5 (codes "x") (codes "u") (codes "c2") 9 alone alone nothing one_event
      (codes "rcpt-o-e1") (codes "it-recv-e1-s" ∷ []) true accepted_first

webhook_other_body_example :
    commit_webhook_receipt receipts intents
      (codes "P2002")
      shop
      (message "e1")
      (codes "x")
      (codes "u")
      (codes "c2")
      9
      alone
      one_event
    ≡ (refused idempotency_conflict_code conflict_message false, one_event)
unfolding text_eq
webhook_other_body_example =
    webhook_other_body receipts intents (codes "P2002") shop (message "e1") (codes "d") (codes "s")
      (codes "corr") 5 (codes "x") (codes "u") (codes "c2") 9 alone alone nothing one_event
      (codes "rcpt-o-e1") (codes "it-recv-e1-s" ∷ []) true accepted_first (ne-of_text_eq _ _ refl)
