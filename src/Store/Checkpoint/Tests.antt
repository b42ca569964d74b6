-- ===== src/Store/Checkpoint/Tests.antt =====
-- intake-checkpoint.ts, on a table that is a list.
use hrp_crm.Base.{
  ℕ, zero, suc, ◌≡◌, refl, true, false, none, some, [], ◌∷◌, ◌⊎◌, Text, codes, text_eq,
}
use hrp_crm.Base.Json.{Json, Fields}
use hrp_crm.Store.Table.{Table}
use hrp_crm.Store.Table.Lists.{list_table, update, insert}
use hrp_crm.Store.{ok, throws}
use hrp_crm.Store.Checkpoint.{
  Checkpoint, CheckpointUpdate, running, completed, input_error, is_digest, conflict, update_data,
  create_intake_checkpoint, find_intake_checkpoint, update_intake_checkpoint,
}
use hrp_crm.Store.Checkpoint.Bound.{none_yet, changed, first_draft_stays}

abbrev repeated : ℕ → ℕ → Text
repeated zero c = []
repeated (suc n) c = c ∷ repeated n c

abbrev checkpoints : Table Checkpoint
checkpoints = list_table

-- The digest is the character, 64 times.
abbrev start : ℕ → Checkpoint
start c = record {
  checkpoint_id = codes "ic-1";
  organization_id = codes "org";
  intake_revision_id = codes "rev-1";
  draft_digest = repeated 64 c;
  canonical_id = none;
  canonical_version = none;
  current_step = none;
  state = running;
  applied_steps = [];
  step_results = Json.obj Fields.end;
  last_error = none;
  correlation_id = none;
  idempotency_key = none;
  created_at = 1;
  updated_at = 1;
}

abbrev finish_update : CheckpointUpdate
finish_update = record {
  current_step = none;
  state = completed;
  applied_steps = codes "profile" ∷ [];
  step_results = Json.obj Fields.end;
  last_error = none;
  canonical_id = some (codes "c-9");
  canonical_version = some 1;
}

abbrev finished : Checkpoint
finished = update_data 5 finish_update (start 97)

create_first :
    create_intake_checkpoint checkpoints (start 97) [] ≡ ok ((start 97, true), start 97 ∷ [])
unfolding create_intake_checkpoint input_error is_digest text_eq insert
create_first = refl

update_first :
    update_intake_checkpoint checkpoints
      (codes "org")
      (codes "rev-1")
      5
      finish_update
      (start 97 ∷ [])
    ≡ ok (finished, finished ∷ [])
unfolding update_intake_checkpoint update_data text_eq update
update_first = refl

find_finished :
    find_intake_checkpoint checkpoints (codes "org") (codes "rev-1") (finished ∷ [])
    ≡ ok (some finished)
unfolding find_intake_checkpoint update_data text_eq
find_finished = refl

valid_b : input_error (start 98) ≡ none
unfolding input_error is_digest
valid_b = refl

-- With another draft of the revision once it is completed.
first_draft_stays_example :
    ((text_eq (repeated 64 97) (repeated 64 98) ≡ false)
      × (create_intake_checkpoint checkpoints (start 98) (finished ∷ []) ≡ throws conflict))
    ⊎ ((c : Checkpoint) × (text_eq (repeated 64 97) (repeated 64 98) ≡ true)
        × (c.draft_digest ≡ repeated 64 97)
        × (create_intake_checkpoint checkpoints (start 98) (finished ∷ [])
            ≡ ok ((c, false), finished ∷ [])))
first_draft_stays_example =
    first_draft_stays checkpoints [] (start 97 ∷ []) (finished ∷ []) (start 97) (start 97)
      (start 98) create_first
      (changed (start 97 ∷ []) (finished ∷ []) (codes "org") (codes "rev-1") 5 finish_update
        finished none_yet update_first)
      refl refl valid_b
