-- ===== src/Authority/Document.antt =====
-- The JSON documents of the journal: an event's `data`, and a record with its hash.
use hermes_quant_agent.Prelude.{List, [], ◌∷◌, Text, text}
use hermes_quant_agent.Json.{
  Json, Fields, num, str, bool, obj, end, field, optional_str, optional_num,
}
use hermes_quant_agent.Clock.{timestamp}
use hermes_quant_agent.Contract.Values.{
  terminal_outcome_text, gate_outcome_text, stop_outcome_text, reason_text, resolved_state_text,
}
use hermes_quant_agent.Contract.Documents.{optional_outcome}
use hermes_quant_agent.Contract.Command.{Plan, ExpiryMutation}
use hermes_quant_agent.Authority.Event.{
  AttemptCreation, Record, Event, event_type, research_started, research_continued,
  research_claim_bound, plan_proposed, plan_revised, plan_confirmation_requested, plan_confirmed,
  formula_confirmed, candidate_manifest_bound, task_completed, submission_observed, run_observed,
  provider_evidence_observed, gate3_observed, result_linked, domain_gate_entered,
  domain_gate_resolved, reconcile_started, reconcile_resolved, stop_requested, stop_observed,
  attempt_completed, intent_expired, payload_tombstone_observed, unknown_event,
}

-- A dict literal.
unfoldable pub object_fields : List (Text × Json) → Fields
object_fields [] = end
object_fields ((key, value) ∷ rest) = field key value (object_fields rest)

unfoldable pub object : List (Text × Json) → Json
unfolding object_fields
object members = obj (object_fields members)

creation_members : AttemptCreation → List (Text × Json) → List (Text × Json)
creation_members d rest =
    (text "attempt_ref", str d.attempt_ref)
    ∷ (text "attempt_number", num d.attempt_number)
    ∷ (text "payload_ref", str d.payload_ref)
    ∷ (text "payload_digest", str d.payload_digest)
    ∷ (text "intent_expires_at", str (timestamp d.intent_expires_at))
    ∷ rest

plan_data : Plan → Json
plan_data d = object (
    (text "plan_version", num d.plan_version)
    ∷ (text "plan_digest", str d.plan_digest)
    ∷ (text "plan_source_ref", str d.plan_source_ref)
    ∷ (text "requires_formula_confirmation", bool d.requires_formula_confirmation)
    ∷ [])

tombstone_data : ExpiryMutation → Json
tombstone_data d = object (
    (text "attempt_ref", str d.attempt_ref)
    ∷ (text "payload_ref", str d.payload_ref)
    ∷ (text "tombstone_event_ref", str d.tombstone_event_ref)
    ∷ (text "tombstone_digest", str d.tombstone_digest)
    ∷ [])

-- the dicts that `_plan_event` builds
unfoldable pub event_data : Event → Json
unfolding object creation_members plan_data tombstone_data optional_outcome optional_str
    optional_num gate_outcome_text reason_text resolved_state_text stop_outcome_text
event_data (research_started d) = object (
    (text "workspace_ref", str d.workspace_ref)
    ∷ (text "managed_session_ref", str d.managed_session_ref)
    ∷ creation_members d.creation [])
event_data (research_continued d) = object (
    creation_members d.creation (
      (text "plan_version", optional_num d.plan.plan_version)
      ∷ (text "plan_digest", optional_str d.plan.plan_digest)
      ∷ (text "plan_source_ref", optional_str d.plan.plan_source_ref)
      ∷ []))
event_data (research_claim_bound d) = object (
    (text "attempt_ref", str d.attempt_ref)
    ∷ (text "payload_ref", str d.payload_ref)
    ∷ (text "payload_digest", str d.payload_digest)
    ∷ (text "research_claim_digest", str d.research_claim_digest)
    ∷ [])
event_data (plan_proposed d) = plan_data d
event_data (plan_revised d) = plan_data d
event_data (plan_confirmation_requested d) =
    object
      ((text "plan_version", num d.plan_version) ∷ (text "plan_digest", str d.plan_digest) ∷ [])
event_data (plan_confirmed d) = object (
    (text "plan_version", num d.plan_version)
    ∷ (text "plan_digest", str d.plan_digest)
    ∷ (text "confirmation_note_digest", str d.confirmation_note_digest)
    ∷ [])
event_data (formula_confirmed d) = object (
    (text "gate_ref", str d.gate_ref)
    ∷ (text "reviewed_source_digest", str d.reviewed_source_digest)
    ∷ (text "confirmation_note_digest", str d.confirmation_note_digest)
    ∷ [])
event_data (candidate_manifest_bound d) = object (
    (text "gate_ref", str d.gate_ref)
    ∷ (text "candidate_ref", str d.candidate_ref)
    ∷ (text "manifest_digest", str d.manifest_digest)
    ∷ [])
event_data (task_completed d) = object (
    (text "terminal_outcome", str (terminal_outcome_text d.terminal_outcome))
    ∷ (text "run_ref", optional_str d.run_ref)
    ∷ (text "provider_evidence_ref", optional_str d.provider_evidence_ref)
    ∷ [])
event_data (submission_observed d) =
    object ((text "attempt_ref", str d.attempt_ref) ∷ (text "command_ref", str d.command_ref) ∷ [])
event_data (run_observed d) = object (
    (text "attempt_ref", str d.attempt_ref)
    ∷ (text "command_ref", str d.command_ref)
    ∷ (text "run_ref", str d.run_ref)
    ∷ [])
event_data (provider_evidence_observed d) = object (
    (text "attempt_ref", str d.attempt_ref)
    ∷ (text "run_ref", str d.run_ref)
    ∷ (text "provider_evidence_ref", str d.provider_evidence_ref)
    ∷ [])
event_data (gate3_observed d) = object (
    (text "attempt_ref", str d.attempt_ref)
    ∷ (text "run_ref", str d.run_ref)
    ∷ (text "gate_ref", str d.gate_ref)
    ∷ (text "candidate_ref", str d.candidate_ref)
    ∷ (text "manifest_digest", str d.manifest_digest)
    ∷ (text "final_receipt_ref", str d.final_receipt_ref)
    ∷ (text "base_commit", str d.base_commit)
    ∷ [])
event_data (result_linked d) = object (
    (text "attempt_ref", str d.attempt_ref)
    ∷ (text "run_ref", str d.run_ref)
    ∷ (text "result_ref", str d.result_ref)
    ∷ [])
event_data (domain_gate_entered d) =
    object ((text "attempt_ref", str d.attempt_ref) ∷ (text "gate_ref", str d.gate_ref) ∷ [])
event_data (domain_gate_resolved d) = object (
    (text "attempt_ref", str d.attempt_ref)
    ∷ (text "gate_ref", str d.gate_ref)
    ∷ (text "outcome", str (gate_outcome_text d.outcome))
    ∷ [])
event_data (reconcile_started d) = object (
    (text "attempt_ref", str d.attempt_ref)
    ∷ (text "reason_code", str (reason_text d.reason_code))
    ∷ [])
event_data (reconcile_resolved d) = object (
    (text "attempt_ref", str d.attempt_ref)
    ∷ (text "resolved_state", str (resolved_state_text d.resolved_state))
    ∷ (text "observation_digest", str d.observation_digest)
    ∷ (text "terminal_outcome", optional_outcome d.terminal_outcome)
    ∷ [])
event_data (stop_requested d) = object (
    (text "attempt_ref", str d.attempt_ref)
    ∷ (text "run_ref", str d.run_ref)
    ∷ (text "stop_command_ref", str d.stop_command_ref)
    ∷ [])
event_data (stop_observed d) = object (
    (text "attempt_ref", str d.attempt_ref)
    ∷ (text "stop_command_ref", str d.stop_command_ref)
    ∷ (text "outcome", str (stop_outcome_text d.outcome))
    ∷ (text "observation_digest", str d.observation_digest)
    ∷ (text "actual_terminal_outcome", optional_outcome d.actual_terminal_outcome)
    ∷ [])
event_data (attempt_completed d) = object (
    (text "attempt_ref", str d.attempt_ref)
    ∷ (text "terminal_outcome", str (terminal_outcome_text d.terminal_outcome))
    ∷ (text "run_ref", optional_str d.run_ref)
    ∷ (text "provider_evidence_ref", optional_str d.provider_evidence_ref)
    ∷ [])
event_data (intent_expired d) = tombstone_data d
event_data (payload_tombstone_observed d) = tombstone_data d
event_data (unknown_event name) = object []

-- The fields of a record, without `record_sha256`.
unfoldable pub record_members : Record → List (Text × Json) → List (Text × Json)
unfolding event_data event_type optional_str
record_members r rest =
    (text "schema_version", num r.schema_version)
    ∷ (text "sequence", num r.sequence)
    ∷ (text "event_id", str r.event_id)
    ∷ (text "operation_id", str r.operation_id)
    ∷ (text "operation_digest", str r.operation_digest)
    ∷ (text "owner_user_id", str r.owner_user_id)
    ∷ (text "task_ref", str r.task_ref)
    ∷ (text "attempt_ref", optional_str r.attempt_ref)
    ∷ (text "task_version", num r.task_version)
    ∷ (text "event_type", str (event_type r.event))
    ∷ (text "occurred_at", str (timestamp r.occurred_at))
    ∷ (text "data", event_data r.event)
    ∷ (text "previous_record_sha256", optional_str r.previous_record_sha256)
    ∷ rest

-- The record without `record_sha256`, as `_build_record` hashes it.
unfoldable pub unhashed_document : Record → Json
unfolding object record_members
unhashed_document r = object (record_members r [])

-- The record as a line of the journal holds it.
unfoldable pub record_document : Record → Json
unfolding object record_members
record_document r = object (record_members r ((text "record_sha256", str r.record_sha256) ∷ []))
