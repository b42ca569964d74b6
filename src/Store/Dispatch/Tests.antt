-- ===== src/Store/Dispatch/Tests.antt =====
-- lease.ts on a table of one leased intent.
use Prim.Native.String.{String}
use hrp_crm.Base.{
  ◌≡◌, sort_by, Distinct, ne-of_text_eq, All, ◌⊎◌, refl, false, true, none, some, List, [], ◌∷◌,
  codes, text_eq, In,
}
use hrp_crm.Base.Json.{null}
use hrp_crm.Store.Table.{Table}
use hrp_crm.Store.Table.Lists.{list_table, update, select_oldest}
use hrp_crm.Store.{Intent, IntentStatus, ok}
use hrp_crm.Store.Dispatch.{
  ClaimIntentArgs, claim_next_intent, intent_available, CompleteIntentResult, retry,
  complete_intent, holds_intent, unlease_intent,
}
use hrp_crm.Store.Dispatch.Calls.{ids, IntentCalls}
use hrp_crm.Store.Dispatch.Settled.{IsLeasedBy, Settles, settled, complete_intent-Settles}

abbrev intent : String → IntentStatus → Intent
intent id status = record {
  intent_id = codes id;
  schema_version = codes "1";
  organization_id = codes "org";
  receipt_id = codes "r";
  idempotency_key = none;
  correlation_id = none;
  intent_source = codes "s";
  intent_target_json = null;
  status = status;
  attempts = 1;
  lease_owner = some (codes "w");
  lease_expires_at = some 60;
  fencing_token = some (codes "t");
  lease_fenced_at = some 1;
  created_at = 1;
}

abbrev table : Table Intent
table = list_table

abbrev two : List Intent
two = intent "a" IntentStatus.leased ∷ intent "b" IntentStatus.terminal ∷ []

two-Distinct : Distinct (ids two)
unfolding text_eq
two-Distinct = ((ne-of_text_eq _ _ refl, tt), (tt, tt))

abbrev retried : List Intent
retried =
    unlease_intent IntentStatus.failed none (intent "a" IntentStatus.leased)
    ∷ intent "b" IntentStatus.terminal
    ∷ []

abbrev retry_result : CompleteIntentResult
retry_result = record { status = IntentStatus.failed; fenced_rejected = false }

completed : complete_intent table (codes "t") (codes "w") retry two ≡ ok (retry_result, retried)
unfolding complete_intent holds_intent text_eq update
completed = refl

other_worker : ClaimIntentArgs
other_worker = record {
  worker_id = codes "v";
  lease_duration_ms = 30;
  receipt_id = none;
  organization_id = none;
}

-- Another worker finds nothing to claim after the retry.
nothing_left :
    claim_next_intent table other_worker (λ id. false) 100 (codes "t2") retried ≡ ok (none, retried)
unfolding claim_next_intent other_worker intent_available unlease_intent select_oldest sort_by
nothing_left = refl

complete_intent-Settles_example :
    (All (λ i. ¬ IsLeasedBy (codes "t") (codes "w") i) two
      × (complete_intent table (codes "t") (codes "w") retry two
          ≡ ok (record { status = IntentStatus.delivered; fenced_rejected = true }, two)))
    ⊎ ((i : Intent) × (t : List Intent) × Settles table (codes "t") (codes "w") retry two i t
        × ((u : List Intent) → IntentCalls table t u → In (settled retry i) u))
complete_intent-Settles_example =
    complete_intent-Settles table (codes "t") (codes "w") retry two two-Distinct
