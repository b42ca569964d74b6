-- ===== src/Store/Checkpoint.antt =====
-- packages/integration-store/src/repos/intake-checkpoint.ts: the checkpoint of an intake revision. The
-- schema version is not read back from a row and is left out.
pub mod Bound
mod Tests
use hrp_crm.Base.{
  ℕ, ◌==◌, leb, Bool, true, false, not, ◌&&◌, ◌||◌, if◌then◌else◌, Option, none, some, List, [],
  ◌∷◌, length, Text, codes, text_eq, is_empty,
}
use hrp_crm.Store.Table.{Table}
use hrp_crm.Store.{
  Json, StoreError, store_error, validation_error, duplicate_key, Outcome, ok, throws,
  row_not_found, unique_violation,
}

pub data CheckpointState : Type 0 where
  running partial completed failed review_pending : CheckpointState

-- The row, and the input of a creation, with the dates that the database sets.
pub record Checkpoint : Type 0 where
  pub checkpoint_id : Text
  pub organization_id : Text
  pub intake_revision_id : Text
  pub draft_digest : Text
  pub canonical_id : Option Text
  pub canonical_version : Option ℕ
  pub current_step : Option Text
  pub state : CheckpointState
  pub applied_steps : List Text
  pub step_results : Json
  pub last_error : Option Json
  pub correlation_id : Option Text
  pub idempotency_key : Option Text
  pub created_at : ℕ
  pub updated_at : ℕ

pub record CheckpointUpdate : Type 0 where
  pub current_step : Option Text
  pub state : CheckpointState
  pub applied_steps : List Text
  pub step_results : Json
  pub last_error : Option Json
  pub canonical_id : Option Text
  pub canonical_version : Option ℕ

-- The unique key `uq_intake_checkpoint_org_revision`.
abbrev pub has_revision : Text → Text → Checkpoint → Bool
has_revision org rev c = text_eq c.organization_id org && text_eq c.intake_revision_id rev

abbrev pub by_checkpoint_id : Text → Checkpoint → Bool
by_checkpoint_id id c = text_eq c.checkpoint_id id

abbrev is_digest_character : ℕ → Bool
is_digest_character c = (leb 97 c && leb c 102) || (leb 48 c && leb c 57)

are_hex : Text → Bool
are_hex [] = true
are_hex (c ∷ cs) = is_digest_character c && are_hex cs

-- /^[a-f0-9]{64}$/u
unfoldable pub is_digest : Text → Bool
unfolding are_hex
is_digest d = (length d == 64) && are_hex d

unfoldable pub input_error : Checkpoint → Option StoreError
input_error input =
    if is_empty input.organization_id
      || is_empty input.intake_revision_id
      || is_empty input.draft_digest
    then some (
        store_error validation_error (codes "thiếu organizationId / intakeRevisionId / draftDigest")
          none (some (codes "checkpoint")))
    else if not (is_digest input.draft_digest)
    then some (
        store_error validation_error (codes "draftDigest phải SHA-256 hex 64 ký tự") none
          (some (codes "draftDigest")))
    else none

abbrev pub conflict : StoreError
conflict =
    store_error duplicate_key
      (codes
        "IDEMPOTENCY_CONFLICT: same intakeRevisionId + different draftDigest — confirmation cũ đã mất hiệu lực")
      none (some (codes "draftDigest"))

abbrev or_existing : {A : Type 0} → Option A → Option A → Option A
or_existing (some x) old = some x
or_existing none old = old

unfoldable pub update_data : ℕ → CheckpointUpdate → Checkpoint → Checkpoint
update_data now u c = record c {
  current_step = u.current_step;
  state = u.state;
  applied_steps = u.applied_steps;
  step_results = u.step_results;
  last_error = u.last_error;
  canonical_id = or_existing u.canonical_id c.canonical_id;
  canonical_version = or_existing u.canonical_version c.canonical_version;
  updated_at = now;
}

module _ (C : Table Checkpoint) where
  -- A row with the key of the new one, or with its id, stands in the way of an insert.
  abbrev pub clashes : Checkpoint → Checkpoint → Bool
  clashes input c =
      has_revision input.organization_id input.intake_revision_id c
      || by_checkpoint_id input.checkpoint_id c

  unfoldable pub create_intake_checkpoint :
      Checkpoint → C.State → Outcome ((Checkpoint × Bool) × C.State)
  create_intake_checkpoint input s = elim (input_error input) [
    | some e ↦ throws e
    | none ↦ elim (C.find_first (has_revision input.organization_id input.intake_revision_id) s) [
      | some existing ↦
          if not (text_eq existing.draft_digest input.draft_digest)
          then throws conflict
          else ok ((existing, false), s)
      | none ↦ elim (C.insert (clashes input) input s) [
        | none ↦ unique_violation
        | some t ↦ ok ((input, true), t)
      ]
    ]
  ]

  unfoldable pub find_intake_checkpoint : Text → Text → C.State → Outcome (Option Checkpoint)
  find_intake_checkpoint org rev s =
      if is_empty org || is_empty rev
      then throws
          (store_error validation_error (codes "thiếu scope") none (some (codes "checkpoint")))
      else ok (C.find_first (has_revision org rev) s)

  unfoldable pub update_intake_checkpoint :
      Text → Text → ℕ → CheckpointUpdate → C.State → Outcome (Checkpoint × C.State)
  update_intake_checkpoint org rev now u s = elim (C.find_first (has_revision org rev) s) [
    | none ↦ throws (
        store_error validation_error (codes "checkpoint không tồn tại") none
          (some (codes "checkpoint")))
    | some existing ↦
        elim (C.update (by_checkpoint_id existing.checkpoint_id) (update_data now u) s) [
          | none ↦ row_not_found
          | some (row, t) ↦ ok (row, t)
        ]
  ]
