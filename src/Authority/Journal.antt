-- ===== src/Authority/Journal.antt =====
-- Building and validating a record of the journal, and replaying the journal.
use hermes_quant_agent.Prelude.{
  ℕ, ◌+◌, ◌^◌, ◌-◌, List, [], ◌∷◌, ◌++◌, Bool, true, ◌&&◌, Option, none, some, Text, text, text_eq,
  option_eq, nat_eq, ◌==◌, leb,
}
use hermes_quant_agent.Prelude.Outcome.{Done, ok, err, check, ◌>>=◌, ◌>>◌}
use hermes_quant_agent.Patterns.{safe_ref, safe_digest, safe_event_ref, is_identifier}
use hermes_quant_agent.Json.{num, str}
use hermes_quant_agent.Authority.Errors.{Checked, workflow_journal_corrupt}
use hermes_quant_agent.Authority.Event.{Event, Record, event_type}
use hermes_quant_agent.Authority.Store.{Projection}
use hermes_quant_agent.Authority.Digests.{Authority, digest_of}
use hermes_quant_agent.Authority.Document.{object, unhashed_document}
use hermes_quant_agent.Authority.Reduce.{reduce}

-- `_SCHEMA_VERSION`
abbrev pub current_schema : ℕ
current_schema = 2

-- `_semantic_event_id`
unfoldable pub semantic_event_id : Authority → Text → Text → Text → Text → Text
unfolding digest_of object
semantic_event_id a operation_id operation_digest task_ref event_type =
    text "event:"
    ++ digest_of a.digests (
        object (
          (text "schema_version", num current_schema)
          ∷ (text "owner_user_id", str a.owner_user_id)
          ∷ (text "operation_id", str operation_id)
          ∷ (text "operation_digest", str operation_digest)
          ∷ (text "task_ref", str task_ref)
          ∷ (text "event_type", str event_type)
          ∷ []))

-- what `_build_record` is given
pub record Draft : Type 0 where
  pub sequence : ℕ
  pub previous_record_sha256 : Option Text
  pub operation_id : Text
  pub operation_digest : Text
  pub task_ref : Text
  pub attempt_ref : Option Text
  pub task_version : ℕ
  pub event : Event
  pub occurred_at : ℕ

unfoldable pub unhashed_record : Authority → Draft → Record
unhashed_record a d = record {
  schema_version = current_schema;
  sequence = d.sequence;
  event_id = semantic_event_id a d.operation_id d.operation_digest d.task_ref (event_type d.event);
  operation_id = d.operation_id;
  operation_digest = d.operation_digest;
  owner_user_id = a.owner_user_id;
  task_ref = d.task_ref;
  attempt_ref = d.attempt_ref;
  task_version = d.task_version;
  event = d.event;
  occurred_at = d.occurred_at;
  previous_record_sha256 = d.previous_record_sha256;
  record_sha256 = [];
}

-- `_build_record`
unfoldable pub build_record : Authority → Draft → Record
build_record a d =
    let r = unhashed_record a d in
    record r { record_sha256 = digest_of a.digests (unhashed_document r) }

unfoldable pub safe_attempt : Option Text → Bool
safe_attempt none = true
safe_attempt (some ref) = safe_ref ref (text "attempt:")

-- `_validate_record`: every failure has the same code. The set of the fields and the normal form of
-- the timestamp hold by the type of a record.
unfoldable pub is_valid_record : Authority → Record → ℕ → Option Text → Bool
unfolding safe_attempt
is_valid_record a r expected_sequence previous =
    (r.schema_version == current_schema)
    && (r.sequence == expected_sequence)
    && (r.previous_record_sha256 == previous)
    && (r.owner_user_id == a.owner_user_id)
    && safe_event_ref r.event_id
    && safe_digest r.operation_digest
    && safe_digest r.record_sha256
    && is_identifier r.operation_id
    && safe_ref r.task_ref (text "task:")
    && safe_attempt r.attempt_ref
    && leb 1 r.task_version
    && leb r.task_version (2 ^ 63 - 1)
    && is_identifier (event_type r.event)
    && (r.event_id
        == semantic_event_id a r.operation_id r.operation_digest r.task_ref (event_type r.event))
    && (digest_of a.digests (unhashed_document r) == r.record_sha256)

unfoldable pub validate_record : Authority → Record → ℕ → Option Text → Checked Done
validate_record a r expected_sequence previous =
    check (is_valid_record a r expected_sequence previous) workflow_journal_corrupt

-- the projection of an empty journal
abbrev pub empty_projection : Projection
empty_projection = record {
  last_sequence = 0;
  last_record_sha256 = none;
  operations = [];
  bindings = λ n. [];
  tasks = [];
}

-- Any refusal inside the loop is reported as a corrupt journal.
unfoldable pub as_corrupt : Checked Projection → Checked Projection
as_corrupt (ok p) = ok p
as_corrupt (err e) = err workflow_journal_corrupt

-- one round of the loop of `_replay`
unfoldable pub replay_step : Authority → Projection → ℕ → Option Text → Record → Checked Projection
unfolding as_corrupt
replay_step a p sequence previous r =
    as_corrupt (do validate_record a r sequence previous; reduce a p r)

-- the loop of `_replay`
unfoldable pub replay_from :
    Authority → Projection → ℕ → Option Text → List Record → Checked Projection
replay_from a p sequence previous [] = ok p
replay_from a p sequence previous (r ∷ rest) = replay_step a p sequence previous r >>= λ after.
    replay_from a after (sequence + 1) (some r.record_sha256) rest

-- `_replay`
unfoldable pub replay : Authority → List Record → Checked Projection
unfolding replay_from
replay a records = replay_from a empty_projection 1 none records
